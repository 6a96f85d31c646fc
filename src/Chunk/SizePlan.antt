-- ===== src/Chunk/SizePlan.antt =====
-- src/metadata/ChunkSizePlan.hpp and ChunkSizePlan.cpp: which chunks a change of the file size
-- detaches, which boundary chunk it retains, and what a commit checks again.
pub mod Layout
pub mod Normalize
pub mod Change
pub mod Retain
pub mod Commit
mod Tests
use sword_fs.Prelude.{
  ℕ, ◌+◌, ◌-◌, ◌*◌, ◌/◌, ◌%◌, Bool, true, false, ◌||◌, ◌&&◌, not, ltb, leb, ◌==◌, if◌then◌else◌,
  Option, none, some, List, [], ◌∷◌, sort_by,
}
use sword_fs.Status.{Result, ok, err, Code, Status, ◌>>=◌, ◌>>◌, fail_if}
use sword_fs.Chunk.{ChunkId, ChunkIndex, max_supported_file_size, u64, calculate_chunk_start_offset}

pub record ChunkSizeBoundary : Type 0 where
  pub index : ChunkIndex
  pub visible_prefix : ℕ

pub record ChunkSizeLayout : Type 0 where
  pub first_detached_index : ChunkIndex
  pub boundary : Option ChunkSizeBoundary

unfoldable pub should_detach : ChunkSizeLayout → ChunkIndex → Bool
should_detach layout index = leb layout.first_detached_index index

pub record ChunkMapping : Type 0 where
  pub index : ChunkIndex
  pub chunk_id : ChunkId

pub record ChunkBoundarySnapshot : Type 0 where
  pub index : ChunkIndex
  pub chunk_id : Option ChunkId
  pub visible_prefix : ℕ

pub record RetainedChunkBoundary : Type 0 where
  pub index : ChunkIndex
  pub chunk_id : ChunkId
  pub visible_prefix : ℕ

pub record FileSizePrecondition : Type 0 where
  pub eof : ℕ
  pub boundary : Option ChunkBoundarySnapshot

pub record ChunkSizePlan : Type 0 where
  pub target_eof : ℕ
  pub expected_old_state : FileSizePrecondition
  pub boundary : Option RetainedChunkBoundary
  pub detached_chunk_ids : List ChunkId

-- `IsValidChunkID`; `kMaxChunkIDValue` is the largest int64_t
abbrev pub is_valid_chunk_id : ChunkId → Bool
is_valid_chunk_id chunk_id = not (chunk_id == 0) && leb chunk_id max_supported_file_size

unfoldable pub plan_chunk_size_layout : ℕ → ℕ → Result ChunkSizeLayout
plan_chunk_size_layout target_eof chunk_size =
    let visible_prefix : ℕ = target_eof % chunk_size in
    let boundary_index : ℕ = target_eof / chunk_size in
    if chunk_size == 0 || ltb max_supported_file_size target_eof
    then err Code.invalid_argument
    else ok (record {
      first_detached_index = u64 (boundary_index + (if visible_prefix == 0 then 0 else 1));
      boundary =
          if visible_prefix == 0
          then none
          else some (record { index = boundary_index; visible_prefix = visible_prefix });
    })

-- `i > 0 && sorted[i - 1].index == mapping.index`
abbrev pub is_duplicate : Option ChunkMapping → ChunkMapping → Bool
is_duplicate none mapping = false
is_duplicate (some previous) mapping = previous.index == mapping.index

-- The loop of `NormalizeMappings` over the sorted mappings, given the mapping before.
unfoldable pub check_mappings : ℕ → Option ChunkMapping → List ChunkMapping → Status
check_mappings chunk_size previous [] = ok tt
check_mappings chunk_size previous (mapping ∷ rest) = do
  fail_if (not (is_valid_chunk_id mapping.chunk_id)) Code.invalid_argument
  start_offset ← calculate_chunk_start_offset mapping.index chunk_size
  fail_if (is_duplicate previous mapping) Code.malformed
  check_mappings chunk_size (some mapping) rest

abbrev index_of : ChunkMapping → ℕ
index_of m = m.index

unfoldable pub normalize_mappings : ℕ → List ChunkMapping → Result (List ChunkMapping)
unfolding check_mappings
normalize_mappings chunk_size mappings =
    let sorted = sort_by index_of mappings in check_mappings chunk_size none sorted >> ok sorted

-- `std::lower_bound` by index, and the test of what it finds.
unfoldable pub find_chunk_id : List ChunkMapping → ChunkIndex → Option ChunkId
find_chunk_id [] index = none
find_chunk_id (mapping ∷ rest) index =
    if ltb mapping.index index
    then find_chunk_id rest index
    else if mapping.index == index
    then some mapping.chunk_id
    else none

unfoldable pub make_boundary_snapshot :
    Option ChunkSizeBoundary → List ChunkMapping → Option ChunkBoundarySnapshot
make_boundary_snapshot none mappings = none
make_boundary_snapshot (some boundary) mappings = some (record {
  index = boundary.index;
  chunk_id = find_chunk_id mappings boundary.index;
  visible_prefix = boundary.visible_prefix;
})

unfoldable pub retain_snapshot :
    ChunkBoundarySnapshot → Option ChunkId → Option RetainedChunkBoundary
retain_snapshot snapshot none = none
retain_snapshot snapshot (some chunk_id) = some (record {
  index = snapshot.index;
  chunk_id = chunk_id;
  visible_prefix = snapshot.visible_prefix;
})

unfoldable pub retain_boundary : Option ChunkBoundarySnapshot → Option RetainedChunkBoundary
unfolding retain_snapshot
retain_boundary none = none
retain_boundary (some snapshot) = retain_snapshot snapshot snapshot.chunk_id

unfoldable pub make_retained_boundary :
    Option ChunkSizeBoundary → List ChunkMapping → Option RetainedChunkBoundary
unfolding retain_boundary make_boundary_snapshot
make_retained_boundary boundary mappings =
    retain_boundary (make_boundary_snapshot boundary mappings)

unfoldable pub validate_file_chunk_write : ChunkIndex → ChunkId → ℕ → ℕ → Status
validate_file_chunk_write index chunk_id end chunk_size = do
  fail_if (not (is_valid_chunk_id chunk_id) || chunk_size == 0 || ltb max_supported_file_size end)
      Code.invalid_argument
  elim (calculate_chunk_start_offset index chunk_size) [
    | err e ↦ err Code.invalid_argument
    | ok start_offset ↦
        fail_if (leb end start_offset || ltb chunk_size (end - start_offset)) Code.invalid_argument
  ]

-- The comparison of a caller's boundary with the one that its EOF has.
unfoldable pub check_boundary : Option ChunkSizeBoundary → Option ChunkBoundarySnapshot → Status
check_boundary none none = ok tt
check_boundary none (some boundary) = err Code.invalid_argument
check_boundary (some actual) none = err Code.invalid_argument
check_boundary (some actual) (some boundary) =
    fail_if
      (not (boundary.index == actual.index)
        || not (boundary.visible_prefix == actual.visible_prefix)
        || elim boundary.chunk_id [ none ↦ false | some id ↦ not (is_valid_chunk_id id) ])
      Code.invalid_argument

unfoldable pub validate_file_size_precondition : FileSizePrecondition → ℕ → Status
unfolding check_boundary
validate_file_size_precondition expected chunk_size = do
  layout ← plan_chunk_size_layout expected.eof chunk_size
  check_boundary layout.boundary expected.boundary

-- The loop that collects the identities of the detached mappings.
unfoldable pub detached_ids : ChunkSizeLayout → List ChunkMapping → List ChunkId
unfolding should_detach
detached_ids layout [] = []
detached_ids layout (mapping ∷ rest) =
    if should_detach layout mapping.index
    then mapping.chunk_id ∷ detached_ids layout rest
    else detached_ids layout rest

-- The part of `PlanChunkSizeChangeImpl` behind its checks.
unfoldable pub build_plan : ℕ → ℕ → ℕ → List ChunkMapping → ChunkSizeLayout → Result ChunkSizePlan
unfolding make_boundary_snapshot make_retained_boundary detached_ids plan_chunk_size_layout
build_plan old_size new_size chunk_size sorted old_layout =
    let plan : ChunkSizePlan = record {
      target_eof = new_size;
      expected_old_state = record {
        eof = old_size;
        boundary = make_boundary_snapshot old_layout.boundary sorted;
      };
      boundary = none;
      detached_chunk_ids = [];
    } in
    if ltb new_size old_size
    then (do
      new_layout ← plan_chunk_size_layout new_size chunk_size
      ok (record plan {
        boundary = make_retained_boundary new_layout.boundary sorted;
        detached_chunk_ids = detached_ids new_layout sorted;
      }))
    else if ltb old_size new_size
    then ok (record plan { boundary = make_retained_boundary old_layout.boundary sorted })
    else ok plan

unfoldable pub plan_chunk_size_change : ℕ → ℕ → ℕ → List ChunkMapping → Result ChunkSizePlan
unfolding build_plan normalize_mappings plan_chunk_size_layout
plan_chunk_size_change old_size new_size chunk_size mappings = do
  fail_if
      (chunk_size == 0
        || ltb max_supported_file_size old_size
        || ltb max_supported_file_size new_size)
      Code.invalid_argument
  sorted ← normalize_mappings chunk_size mappings
  old_layout ← plan_chunk_size_layout old_size chunk_size
  build_plan old_size new_size chunk_size sorted old_layout

-- `std::optional` comparison
abbrev pub same_id : Option ChunkId → Option ChunkId → Bool
same_id none none = true
same_id none (some b) = false
same_id (some a) none = false
same_id (some a) (some b) = a == b

unfoldable pub same_boundary : Option ChunkBoundarySnapshot → Option ChunkBoundarySnapshot → Bool
same_boundary none none = true
same_boundary none (some actual) = false
same_boundary (some expected) none = false
same_boundary (some expected) (some actual) =
    expected.index == actual.index
    && same_id expected.chunk_id actual.chunk_id
    && expected.visible_prefix == actual.visible_prefix

unfoldable pub validate_size_commit_plan :
    ChunkSizePlan → ℕ → ℕ → List ChunkMapping → Bool → Result ChunkSizePlan
unfolding validate_file_size_precondition plan_chunk_size_change same_boundary
validate_size_commit_plan requested actual_eof chunk_size mappings is_shrink = do
  fail_if
      (if is_shrink
        then leb requested.expected_old_state.eof requested.target_eof
        else leb requested.target_eof requested.expected_old_state.eof)
      Code.invalid_argument
  validate_file_size_precondition requested.expected_old_state chunk_size
  fail_if (not (actual_eof == requested.expected_old_state.eof)) Code.already_exists
  current ← plan_chunk_size_change actual_eof requested.target_eof chunk_size mappings
  fail_if
      (not
        (same_boundary requested.expected_old_state.boundary current.expected_old_state.boundary))
      Code.already_exists
  ok current
