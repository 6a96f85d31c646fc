-- ===== src/Chunk/SizePlan/Retain.antt =====
-- The boundary chunk that a size change retains (`MakeRetainedBoundary`).
use sword_fs.Prelude.{
  ℕ, ◌+◌, ◌*◌, ◌<◌, ◌/◌, ◌%◌, ◌∙◌, ◌≡◌, refl, sym, ◌↔◌, inl, inr, ◌≢◌, none, some, arith, List,
  ◌==◌, ==_iff, lt-or-le, le→ltb, lt→ltb, Bool-cases, Elem, min, Option-cases,
}
use native.Mathlib.Nat.{
  mul-add-div_right, mul-add-mod_self_right, mod-eq_of_lt, div-eq_of_lt, mod-lt, div-add-mod',
}
use sword_fs.Status.{ok}
use sword_fs.Chunk.SizePlan.{
  ChunkMapping, ChunkSizePlan, RetainedChunkBoundary, find_chunk_id, plan_chunk_size_change,
  make_retained_boundary,
}
use sword_fs.Chunk.SizePlan.Change.{IsAccepted, plan_chunk_size_change-IsAccepted}
use sword_fs.Chunk.SizePlan.Layout.{layout_of}
use sword_fs.Chunk.SizePlan.Normalize.{IsNormal, normalize_mappings_inv, find_chunk_id_iff}

div_mod_unique :
    (i p size eof : ℕ) → eof ≡ i * size + p → p < size → (eof / size ≡ i) × (eof % size ≡ p)
div_mod_unique i p size eof e h = rw e (
  mul-add-div_right {m = size} (omega arith) i p ∙ rw (div-eq_of_lt h) (omega arith),
  mul-add-mod_self_right i size p ∙ mod-eq_of_lt h,
)

make_retained_boundary-some :
    (i p : ℕ) (sorted : List ChunkMapping) (b : RetainedChunkBoundary)
    → (make_retained_boundary (some (record { index = i; visible_prefix = p })) sorted ≡ some b)
      ↔ ((b.index ≡ i) × (b.visible_prefix ≡ p) × (find_chunk_id sorted i ≡ some b.chunk_id))
unfolding make_retained_boundary
make_retained_boundary-some i p sorted b = elim (Option-cases (find_chunk_id sorted i)) [
  | inl missing ↦ rw missing (λ e. cc, λ h. absurd (cc))
  | inr (id, found) ↦ rw found (ground arith)
]

make_retained_boundary-none :
    (sorted : List ChunkMapping) → make_retained_boundary none sorted ≡ none
unfolding make_retained_boundary
make_retained_boundary-none sorted = refl

-- A boundary chunk, told by its index, identity and visible prefix, is the partial chunk at this EOF.
abbrev pub IsRetainedAt : ℕ → ℕ → List ChunkMapping → RetainedChunkBoundary → Type 0
IsRetainedAt eof chunk_size mappings b =
    Elem (record { index = b.index; chunk_id = b.chunk_id }) mappings
    × (eof ≡ b.index * chunk_size + b.visible_prefix)
    × (0 < b.visible_prefix)
    × (b.visible_prefix < chunk_size)

make_retained_boundary_iff :
    (eof size : ℕ) (sorted : List ChunkMapping) (b : RetainedChunkBoundary)
    → 0 < size
    → IsNormal 0 sorted
    → (make_retained_boundary (layout_of eof size).boundary sorted ≡ some b)
      ↔ IsRetainedAt eof size sorted b
make_retained_boundary_iff eof size sorted b c normal = elim (Bool-cases (eof % size == 0)) [
  | inl whole ↦ rw whole (
    λ e. absurd (none_retained e),
    λ h. absurd (omega (arith, unique h.1 h.3, (==_iff (eof % size) 0).0 whole, h.2)),
  )
  | inr partial ↦ rw partial (
    λ e.
        let (same, prefix, id) = step.0 e in
        (
          (found b.index).0 (rw same id),
          rw (same, prefix) (sym (div-add-mod' eof size)),
          ground arith,
          rw prefix (mod-lt eof c),
        ),
    λ h. let (q, r) = unique h.1 h.3 in step.1 (sym q, sym r, rw q ((found b.index).1 h.0)),
  )
]
  where
    found :
        (i : ℕ)
        → (find_chunk_id sorted i ≡ some b.chunk_id)
          ↔ Elem (record { index = i; chunk_id = b.chunk_id }) sorted
    found i = find_chunk_id_iff sorted 0 i b.chunk_id normal

    unique :
        eof ≡ b.index * size + b.visible_prefix
        → b.visible_prefix < size
        → (eof / size ≡ b.index) × (eof % size ≡ b.visible_prefix)
    unique = div_mod_unique b.index b.visible_prefix size eof

    none_retained : make_retained_boundary none sorted ≡ some b → ⊥
    none_retained e = cc (e, make_retained_boundary-none sorted)

    step :
        (make_retained_boundary
            (some (record { index = eof / size; visible_prefix = eof % size }))
            sorted
          ≡ some b)
        ↔ ((b.index ≡ eof / size)
            × (b.visible_prefix ≡ eof % size)
            × (find_chunk_id sorted (eof / size) ≡ some b.chunk_id))
    step = make_retained_boundary-some (eof / size) (eof % size) sorted b

iff_trans : {P Q R : Type 0} → P ↔ Q → Q ↔ R → P ↔ R
iff_trans p q = (λ x. q.0 (p.0 x), λ z. p.1 (q.1 z))

same_elems :
    (eof size : ℕ) (xs ys : List ChunkMapping) (b : RetainedChunkBoundary)
    → ((m : ChunkMapping) → Elem m xs ↔ Elem m ys)
    → IsRetainedAt eof size xs b ↔ IsRetainedAt eof size ys b
same_elems eof size xs ys b same =
    let at = same (record { index = b.index; chunk_id = b.chunk_id }) in
    (λ h. (at.0 h.0, h.1, h.2, h.3), λ h. (at.1 h.0, h.1, h.2, h.3))

retained_at :
    (old_size new_size chunk_size : ℕ) (mappings : List ChunkMapping) (b : RetainedChunkBoundary)
    {plan : ChunkSizePlan} (a : IsAccepted old_size new_size chunk_size mappings plan) (eof : ℕ)
    → min old_size new_size ≡ eof
    → (make_retained_boundary (layout_of eof chunk_size).boundary a.sorted ≡ some b)
      ↔ IsRetainedAt (min old_size new_size) chunk_size mappings b
retained_at old_size new_size chunk_size mappings b a eof m =
    let (normal, elems) = normalize_mappings_inv chunk_size mappings a.normalized in
    rw m (
      iff_trans (make_retained_boundary_iff eof chunk_size a.sorted b a.positive normal)
        (same_elems eof chunk_size a.sorted mappings b elems))

-- An accepted plan retains exactly the attached partial chunk at the smaller of two different ends: the new
-- one of a file that shrinks, the old one of a file that grows.
pub plan_chunk_size_change-boundary :
    (old_size new_size chunk_size : ℕ) (mappings : List ChunkMapping) (b : RetainedChunkBoundary)
    {plan : ChunkSizePlan}
    → plan_chunk_size_change old_size new_size chunk_size mappings ≡ ok plan
    → (plan.boundary ≡ some b)
      ↔ ((old_size ≢ new_size) × IsRetainedAt (min old_size new_size) chunk_size mappings b)
plan_chunk_size_change-boundary old_size new_size chunk_size mappings b e =
    let a = plan_chunk_size_change-IsAccepted old_size new_size chunk_size mappings e in
    let at = retained_at old_size new_size chunk_size mappings b a in
    rw a.same (elim (lt-or-le new_size old_size) [
      | inl shrink ↦ rw (lt→ltb new_size old_size shrink) (
          let both = at new_size (omega arith) in
          (λ h. ((λ same. omega arith), both.0 h), λ h. both.1 h.1))
      | inr other ↦ rw (le→ltb new_size old_size other) (elim (lt-or-le old_size new_size) [
        | inl grow ↦ rw (lt→ltb old_size new_size grow) (
            let both = at old_size (omega arith) in
            (λ h. ((λ same. omega arith), both.0 h), λ h. both.1 h.1))
        | inr stay ↦ rw (le→ltb old_size new_size stay) (λ h. cc, λ h. absurd (h.0 (omega arith)))
      ])
    ])
