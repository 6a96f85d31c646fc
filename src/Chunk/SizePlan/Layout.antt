-- ===== src/Chunk/SizePlan/Layout.antt =====
-- The layout of an EOF: which chunks a file of that size has, and its partial last chunk.
use native.Mathlib.Nat.{mod-lt, div-add-mod', div-le_self, mod-eq_of_lt, mul-le-mul_right, suc-mul}
use sword_fs.Prelude.{
  ℕ, ◌+◌, ◌*◌, ◌/◌, ◌%◌, ◌^◌, ◌≤◌, ◌<◌, ◌≡◌, ◌↔◌, inl, inr, true, Option, none, some, arith,
  if◌then◌else◌, ◌==◌, leb, Bool-cases,
}
use sword_fs.Status.{ok}
use sword_fs.Chunk.{max_supported_file_size}
use sword_fs.Chunk.SizePlan.{
  ChunkSizeLayout, ChunkSizeBoundary, should_detach, plan_chunk_size_layout,
}

-- The layout that an accepted request gets, with nothing wrapped.
abbrev pub layout_of : ℕ → ℕ → ChunkSizeLayout
layout_of eof chunk_size = record {
  first_detached_index = eof / chunk_size + (if eof % chunk_size == 0 then 0 else 1);
  boundary =
      if eof % chunk_size == 0
      then none
      else some (record { index = eof / chunk_size; visible_prefix = eof % chunk_size });
}

pub layout_of_lem :
    (eof chunk_size : ℕ)
    → 0 < chunk_size
    → eof ≤ max_supported_file_size
    → plan_chunk_size_layout eof chunk_size ≡ ok (layout_of eof chunk_size)
unfolding plan_chunk_size_layout
layout_of_lem eof chunk_size c h =
    let small = div-le_self eof chunk_size in
    rw
      (mod-eq_of_lt {n = eof / chunk_size + (if eof % chunk_size == 0 then 0 else 1)} {m = 2 ^ 64}
        (ground arith))
      (ground arith)

pub plan_chunk_size_layout_inv :
    (eof chunk_size : ℕ) {layout : ChunkSizeLayout}
    → plan_chunk_size_layout eof chunk_size ≡ ok layout
    → (0 < chunk_size) × (eof ≤ max_supported_file_size) × (layout ≡ layout_of eof chunk_size)
unfolding plan_chunk_size_layout
plan_chunk_size_layout_inv eof chunk_size e =
    let c : 0 < chunk_size = ground arith in
    let h : eof ≤ max_supported_file_size = ground arith in
    (c, h, ground (arith, layout_of_lem eof chunk_size c h))

pub chunks_before : (i q size : ℕ) → i ≤ q → i * size ≤ q * size
chunks_before i q size h = mul-le-mul_right size h

pub chunks_after : (i q size : ℕ) → q < i → q * size + size ≤ i * size
chunks_after i q size h = rw (← suc-mul q size) (mul-le-mul_right size h)

first_detached_iff :
    (eof chunk_size index : ℕ)
    → 0 < chunk_size
    → (leb (eof / chunk_size + (if eof % chunk_size == 0 then 0 else 1)) index ≡ true)
      ↔ (eof ≤ index * chunk_size)
first_detached_iff eof chunk_size index c = ground (
  arith,
  div-add-mod' eof chunk_size,
  mod-lt eof c,
  chunks_before index (eof / chunk_size) chunk_size,
  chunks_after (eof / chunk_size) index chunk_size,
  chunks_after index (eof / chunk_size) chunk_size,
)

-- By an accepted layout, a chunk is detached exactly when no byte of the file lies in it or behind it.
pub plan_chunk_size_layout-should_detach :
    (eof chunk_size : ℕ) {layout : ChunkSizeLayout} (index : ℕ)
    → plan_chunk_size_layout eof chunk_size ≡ ok layout
    → (should_detach layout index ≡ true) ↔ (eof ≤ index * chunk_size)
unfolding should_detach
plan_chunk_size_layout-should_detach eof chunk_size index e =
    let (c, h, same) = plan_chunk_size_layout_inv eof chunk_size e in
    rw same (first_detached_iff eof chunk_size index c)

-- A boundary chunk, by its index and the bytes of it that are in the file, or none.
abbrev pub IsBoundaryOf : ℕ → ℕ → Option ChunkSizeBoundary → Type 0
IsBoundaryOf eof chunk_size none = (k : ℕ) × (eof ≡ k * chunk_size)
IsBoundaryOf eof chunk_size (some b) =
    (eof ≡ b.index * chunk_size + b.visible_prefix)
    × (0 < b.visible_prefix)
    × (b.visible_prefix < chunk_size)

-- The boundary of an accepted layout is the partial chunk at the end of the file: its index and its
-- visible prefix, at least one byte and less than a chunk, add up to the end of the file, and there
-- is none exactly when the file ends with a whole chunk.
pub plan_chunk_size_layout-IsBoundaryOf :
    (eof chunk_size : ℕ) {layout : ChunkSizeLayout}
    → plan_chunk_size_layout eof chunk_size ≡ ok layout
    → IsBoundaryOf eof chunk_size layout.boundary
plan_chunk_size_layout-IsBoundaryOf eof chunk_size e =
    let (c, h, same) = plan_chunk_size_layout_inv eof chunk_size e in
    let parts = div-add-mod' eof chunk_size in
    let small = mod-lt eof c in
    rw same (elim (Bool-cases (eof % chunk_size == 0)) [
      | inl whole ↦ rw whole (eof / chunk_size, ground arith)
      | inr partial ↦ rw partial (omega arith, ground arith, small)
    ])
