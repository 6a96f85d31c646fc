-- ===== src/Chunk/SizePlan/Commit.antt =====
-- The checks that a commit repeats (`ValidateSizeCommitPlan`) and of a typed chunk write.
use sword_fs.Prelude.{
  ℕ, ◌+◌, ◌*◌, ◌≤◌, ◌<◌, ◌≡◌, refl, ap, ◌∙◌, ◌↔◌, inl, inr, ◌≢◌, true, false, Option, none, some,
  arith, List, [], ◌∷◌, if◌then◌else◌, ◌==◌, ==_refl, leb, ltb, lt-or-le, Bool, Option-cases,
  le→ltb, lt→ltb, not, lt→leb,
}
use native.Mathlib.Nat.{mul-zero}
use sword_fs.Status.{ok, err, Code, Result-cases, Status, fail_if, ◌>>◌}
use sword_fs.Chunk.{max_supported_file_size}
use sword_fs.Chunk.Geometry.{calculate_chunk_start_offset_cases}
use sword_fs.Chunk.SizePlan.{
  ChunkMapping, ChunkSizePlan, ChunkSizeBoundary, ChunkBoundarySnapshot, find_chunk_id,
  plan_chunk_size_change, make_boundary_snapshot, validate_file_size_precondition,
  validate_size_commit_plan, check_boundary, same_boundary, validate_file_chunk_write,
}
use sword_fs.Chunk.SizePlan.Layout.{layout_of, layout_of_lem}
use sword_fs.Chunk.SizePlan.Normalize.{IsNormal, normalize_mappings_inv}
use sword_fs.Chunk.SizePlan.Change.{planned, plan_chunk_size_change-IsAccepted}

-- A typed chunk write is accepted exactly when its identity is valid and its end lies in its chunk
-- (behind the start, at most one chunk size on) and in the supported file range.
pub validate_file_chunk_write_iff :
    (index chunk_id end chunk_size : ℕ)
    → (validate_file_chunk_write index chunk_id end chunk_size ≡ ok tt) ↔ (
        (0 < chunk_id)
        × (chunk_id ≤ max_supported_file_size)
        × (end ≤ max_supported_file_size)
        × (index * chunk_size < end)
        × (end ≤ index * chunk_size + chunk_size))
unfolding validate_file_chunk_write
validate_file_chunk_write_iff index chunk_id end chunk_size =
    elim (calculate_chunk_start_offset_cases index chunk_size) [
      | inl (c, fits, started) ↦ rw started (ground arith)
      | inr (wrong, failed) ↦ rw failed (ground (arith, mul-zero index))
    ]

find_valid :
    (ms : List ChunkMapping) (n index id : ℕ)
    → IsNormal n ms
    → find_chunk_id ms index ≡ some id
    → (0 < id) × (id ≤ max_supported_file_size)
unfolding find_chunk_id
find_valid [] n index id h e = absurd (cc)
find_valid (x ∷ ms) n index id h e = ground (arith, find_valid ms (x.index + 1) index id h.3)

same_boundary_refl : (b : Option ChunkBoundarySnapshot) → same_boundary b b ≡ true
unfolding same_boundary
same_boundary_refl none = refl
same_boundary_refl (some b) = ground arith

same_boundary-eq : (a b : Option ChunkBoundarySnapshot) → same_boundary a b ≡ true → a ≡ b
unfolding same_boundary
same_boundary-eq none none e = refl
same_boundary-eq none (some b) e = absurd (cc)
same_boundary-eq (some a) none e = absurd (cc)
same_boundary-eq (some a) (some b) e = ground arith

not-false : (b : Bool) → not b ≡ false → b ≡ true
not-false true e = refl
not-false false e = absurd (cc)

-- A chain of checks that succeeds has passed each of them.
passed :
    (a : Bool) (s : Status) (b c : Bool) (p : ChunkSizePlan) {q : ChunkSizePlan}
    → (do
      fail_if a Code.invalid_argument
      s
      fail_if b Code.already_exists
      fail_if c Code.already_exists
      ok p)
      ≡ ok q
    → (a ≡ false) × (b ≡ false) × (c ≡ false) × (p ≡ q)
passed true s b c p e = absurd (cc)
passed false (err x) b c p e = absurd (cc)
passed false (ok tt) true c p e = absurd (cc)
passed false (ok tt) false true p e = absurd (cc)
passed false (ok tt) false false p e = (refl, refl, refl, cc)

-- The direction test of a request, read at the size that it expects.
direction :
    (is_shrink : Bool) (target eof actual : ℕ)
    → (if is_shrink then leb eof target else leb target eof) ≡ false
    → not (actual == eof) ≡ false
    → (actual ≡ eof) × (is_shrink ≡ ltb target actual) × (target ≢ actual)
direction true target eof actual h k = ground arith
direction false target eof actual h k = ground arith

-- A commit that succeeds returns the plan of the current state, and its request saw that state: the
-- same end of file and the same attachment at its boundary. The file then really changes its size,
-- in the direction that the commit is for.
pub validate_size_commit_plan_inv :
    (requested : ChunkSizePlan) (actual_eof chunk_size : ℕ) (mappings : List ChunkMapping)
    (is_shrink : Bool) {current : ChunkSizePlan}
    → validate_size_commit_plan requested actual_eof chunk_size mappings is_shrink ≡ ok current
    → (plan_chunk_size_change actual_eof requested.target_eof chunk_size mappings ≡ ok current)
      × (requested.expected_old_state ≡ current.expected_old_state)
      × (is_shrink ≡ ltb requested.target_eof actual_eof)
      × (requested.target_eof ≢ actual_eof)
unfolding validate_size_commit_plan
validate_size_commit_plan_inv requested actual_eof chunk_size mappings is_shrink e =
    elim (Result-cases
      (plan_chunk_size_change actual_eof requested.target_eof chunk_size mappings)) [
        | inr (code, failed) ↦ absurd (ground arith)
        | inl (plan, made) ↦
            let a =
              plan_chunk_size_change-IsAccepted actual_eof requested.target_eof chunk_size mappings
                made in
            let old = requested.expected_old_state in
            let (moves, eof, seen, same) = passed _ _ _ _ plan (rw made at e) in
            let (at_eof, shrinks, differ) =
              direction is_shrink requested.target_eof old.eof actual_eof moves eof in
            (
              made ∙ ap ok same,
              ground (
                arith,
                a.same,
                same_boundary-eq old.boundary plan.expected_old_state.boundary (not-false _ seen),
              ),
              shrinks,
              differ,
            )
      ]

check_snapshot :
    (b : Option ChunkSizeBoundary) (ms : List ChunkMapping)
    → IsNormal 0 ms
    → check_boundary b (make_boundary_snapshot b ms) ≡ ok tt
unfolding check_boundary make_boundary_snapshot
check_snapshot none ms normal = refl
check_snapshot (some b) ms normal = elim (Option-cases (find_chunk_id ms b.index)) [
  | inl missing ↦ rw missing (ground arith)
  | inr (id, found) ↦
      let (pos, small) = find_valid ms 0 b.index id normal found in rw found (ground arith)
]

planned_precondition :
    (old_size new_size chunk_size : ℕ) (sorted : List ChunkMapping)
    → 0 < chunk_size
    → old_size ≤ max_supported_file_size
    → IsNormal 0 sorted
    → validate_file_size_precondition
        (planned old_size new_size chunk_size sorted).expected_old_state
        chunk_size
      ≡ ok tt
unfolding validate_file_size_precondition
planned_precondition old_size new_size chunk_size sorted c h normal =
    rw (layout_of_lem old_size chunk_size c h)
      (check_snapshot (layout_of old_size chunk_size).boundary sorted normal)

moves :
    (old_size new_size : ℕ)
    → old_size ≢ new_size
    → (if ltb new_size old_size then leb old_size new_size else leb new_size old_size) ≡ false
moves old_size new_size h = elim (lt-or-le new_size old_size) [
  | inl shrink ↦ rw (lt→ltb new_size old_size shrink) (lt→leb old_size new_size shrink)
  | inr grow ↦ rw (le→ltb new_size old_size grow) (lt→leb new_size old_size (omega arith))
]

-- A plan that was made for a state of a file, with another size as its target, is accepted as it is
-- by a commit that finds the same size and mappings and is for the same direction.
pub validate_size_commit_plan_fresh :
    (old_size new_size chunk_size : ℕ) (mappings : List ChunkMapping) {plan : ChunkSizePlan}
    → plan_chunk_size_change old_size new_size chunk_size mappings ≡ ok plan
    → old_size ≢ new_size
    → validate_size_commit_plan plan old_size chunk_size mappings (ltb new_size old_size) ≡ ok plan
unfolding validate_size_commit_plan
validate_size_commit_plan_fresh old_size new_size chunk_size mappings e differ =
    let a = plan_chunk_size_change-IsAccepted old_size new_size chunk_size mappings e in
    let (normal, elems) = normalize_mappings_inv chunk_size mappings a.normalized in
    let valid =
      planned_precondition old_size new_size chunk_size a.sorted a.positive a.old_small normal in
    let again = e ∙ ap ok a.same in
    rw a.same (
      rw (
        moves old_size new_size differ,
        valid,
        ==_refl old_size,
        again,
        same_boundary_refl
            (planned old_size new_size chunk_size a.sorted).expected_old_state.boundary,
      ))
