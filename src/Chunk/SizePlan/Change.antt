-- ===== src/Chunk/SizePlan/Change.antt =====
-- What a size change detaches and retains (`PlanChunkSizeChangeImpl`).
use sword_fs.Prelude.{
  ℕ, ◌*◌, ◌≤◌, ◌<◌, ◌≡◌, refl, sym, ◌↔◌, ◌⊎◌, inl, inr, true, false, none, arith, List, [], ◌∷◌,
  if◌then◌else◌, ltb, lt-or-le, le→ltb, lt→ltb, Bool-cases, Elem, Bool,
}
use sword_fs.Status.{ok, Result-cases}
use sword_fs.Chunk.{ChunkId, max_supported_file_size}
use sword_fs.Chunk.SizePlan.{
  ChunkMapping, ChunkSizeLayout, ChunkSizePlan, normalize_mappings, should_detach,
  plan_chunk_size_change, build_plan, detached_ids, make_retained_boundary, make_boundary_snapshot,
}
use sword_fs.Chunk.SizePlan.Layout.{layout_of, layout_of_lem, plan_chunk_size_layout-should_detach}
use sword_fs.Chunk.SizePlan.Normalize.{normalize_mappings_inv}

-- The plan that an accepted request gets over its normal mappings.
abbrev pub planned : ℕ → ℕ → ℕ → List ChunkMapping → ChunkSizePlan
planned old_size new_size chunk_size sorted =
    let snapshot = make_boundary_snapshot (layout_of old_size chunk_size).boundary sorted in
    record {
      target_eof = new_size;
      expected_old_state = record { eof = old_size; boundary = snapshot };
      boundary =
          if ltb new_size old_size
          then make_retained_boundary (layout_of new_size chunk_size).boundary sorted
          else if ltb old_size new_size
          then make_retained_boundary (layout_of old_size chunk_size).boundary sorted
          else none;
      detached_chunk_ids =
          if ltb new_size old_size then detached_ids (layout_of new_size chunk_size) sorted else [];
    }

-- What an accepted request has been checked for.
pub record IsAccepted (old_size new_size chunk_size : ℕ) (mappings : List ChunkMapping)
    (plan : ChunkSizePlan) : Type 0 where
  pub sorted : List ChunkMapping
  pub positive : 0 < chunk_size
  pub old_small : old_size ≤ max_supported_file_size
  pub new_small : new_size ≤ max_supported_file_size
  pub normalized : normalize_mappings chunk_size mappings ≡ ok sorted
  pub same : plan ≡ planned old_size new_size chunk_size sorted

build_plan_lem :
    (old_size new_size chunk_size : ℕ) (sorted : List ChunkMapping)
    → 0 < chunk_size
    → new_size ≤ max_supported_file_size
    → build_plan old_size new_size chunk_size sorted (layout_of old_size chunk_size)
      ≡ ok (planned old_size new_size chunk_size sorted)
unfolding build_plan
build_plan_lem old_size new_size chunk_size sorted c h = elim (Bool-cases (ltb new_size old_size)) [
  | inl shrink ↦ rw (shrink, layout_of_lem new_size chunk_size c h) refl
  | inr other ↦
      rw other
        (elim (Bool-cases (ltb old_size new_size)) [ inl grow ↦ rw grow | inr same ↦ rw same ])
]

pub plan_chunk_size_change-IsAccepted :
    (old_size new_size chunk_size : ℕ) (mappings : List ChunkMapping) {plan : ChunkSizePlan}
    → plan_chunk_size_change old_size new_size chunk_size mappings ≡ ok plan
    → IsAccepted old_size new_size chunk_size mappings plan
unfolding plan_chunk_size_change
plan_chunk_size_change-IsAccepted old_size new_size chunk_size mappings e =
    let c : 0 < chunk_size = ground arith in
    let h : old_size ≤ max_supported_file_size = ground arith in
    let n : new_size ≤ max_supported_file_size = ground arith in
    elim (Result-cases (normalize_mappings chunk_size mappings)) [
      | inr (code, failed) ↦ ground arith
      | inl (sorted, normalized) ↦ record {
        sorted = sorted;
        positive = c;
        old_small = h;
        new_small = n;
        normalized = normalized;
        same = ground (
          arith,
          layout_of_lem old_size chunk_size c h,
          build_plan_lem old_size new_size chunk_size sorted c n,
        );
      }
    ]

module _ (id : ChunkId) where
  Elem-if :
      (b : Bool) (x : ChunkId) (xs : List ChunkId)
      → Elem id (if b then x ∷ xs else xs) ↔ (((b ≡ true) × (id ≡ x)) ⊎ Elem id xs)
  Elem-if true x xs = ground arith
  Elem-if false x xs = ground arith

  detached_ids-Elem :
      (layout : ChunkSizeLayout) (ms : List ChunkMapping)
      → Elem id (detached_ids layout ms)
      → (m : ChunkMapping) × Elem m ms × (m.chunk_id ≡ id) × (should_detach layout m.index ≡ true)
  unfolding detached_ids
  detached_ids-Elem layout [] h = absurd h
  detached_ids-Elem layout (m ∷ ms) h =
      elim ((Elem-if (should_detach layout m.index) m.chunk_id (detached_ids layout ms)).0 h) [
        | inl (out, e) ↦ (m, inl refl, sym e, out)
        | inr rest ↦
            let (m', there, e, out) = detached_ids-Elem layout ms rest in (m', inr there, e, out)
      ]

  Elem-detached_ids :
      (layout : ChunkSizeLayout) (ms : List ChunkMapping) (m : ChunkMapping)
      → Elem m ms
      → m.chunk_id ≡ id
      → should_detach layout m.index ≡ true
      → Elem id (detached_ids layout ms)
  unfolding detached_ids
  Elem-detached_ids layout [] m h e out = absurd h
  Elem-detached_ids layout (x ∷ ms) m h e out =
      (Elem-if (should_detach layout x.index) x.chunk_id (detached_ids layout ms)).1 (elim h [
        | inl here ↦ inl (rw here at out, cc)
        | inr there ↦ inr (Elem-detached_ids layout ms m there e out)
      ])

-- An accepted plan detaches exactly the chunks that are mapped at or behind the new end of a file that
-- shrinks.
pub plan_chunk_size_change-detached :
    (old_size new_size chunk_size : ℕ) (mappings : List ChunkMapping) (id : ChunkId)
    {plan : ChunkSizePlan}
    → plan_chunk_size_change old_size new_size chunk_size mappings ≡ ok plan
    → Elem id plan.detached_chunk_ids ↔ (
        (m : ChunkMapping) × Elem m mappings
        × (m.chunk_id ≡ id)
        × (new_size ≤ m.index * chunk_size)
        × (new_size < old_size))
plan_chunk_size_change-detached old_size new_size chunk_size mappings id e =
    let a = plan_chunk_size_change-IsAccepted old_size new_size chunk_size mappings e in
    let laid = layout_of_lem new_size chunk_size a.positive a.new_small in
    let out = λ (index : ℕ). plan_chunk_size_layout-should_detach new_size chunk_size index laid in
    let (_, elems) = normalize_mappings_inv chunk_size mappings a.normalized in
    rw a.same (elim (lt-or-le new_size old_size) [
      | inr grow ↦
          rw (le→ltb new_size old_size grow) (λ h. absurd h, λ h. absurd (omega (arith, h.4)))
      | inl shrink ↦ rw (lt→ltb new_size old_size shrink) (
        λ h.
            let (m, there, same, test) =
              detached_ids-Elem id (layout_of new_size chunk_size) a.sorted h in
            (m, (elems m).0 there, same, (out m.index).0 test, shrink),
        λ h.
            Elem-detached_ids id (layout_of new_size chunk_size) a.sorted h.0 ((elems h.0).1 h.1)
              h.2 ((out h.0.index).1 h.3),
      )
    ])
