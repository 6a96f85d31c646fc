-- ===== src/Chunk.antt =====
-- src/metadata/types/Chunk.hpp and Chunk.cpp: the geometry of a file that is cut into chunks.
-- An `off_t` is an integer; a `uint64_t` is a number, whose arithmetic wraps at 2^64.
pub mod Geometry
pub mod SizePlan
mod Tests
use sword_fs.Prelude.{
  ℕ, ◌+◌, ◌-◌, ◌*◌, ◌/◌, ◌%◌, ◌^◌, Bool, true, false, ◌≡◌, refl, ◌||◌, ◌&&◌, not, ltb, ◌==◌,
  if◌then◌else◌,
}
use sword_fs.Prelude.Int.{ℤ, pos, negsuc}
use sword_fs.Status.{Result, ok, err, Code}

-- `kMaxSupportedFileSize`, the largest `off_t`
abbrev pub max_supported_file_size : ℕ
max_supported_file_size = 2 ^ 63 - 1

abbrev pub u64 : ℕ → ℕ
u64 n = n % 2 ^ 64

-- A `ChunkID` is its value; zero is the invalid one.
abbrev pub ChunkId : Type 0
ChunkId = ℕ

abbrev pub ChunkIndex : Type 0
ChunkIndex = ℕ

pub record ChunkPosition : Type 0 where
  pub index : ChunkIndex
  pub start_offset : ℕ
  pub offset_in_chunk : ℕ

position_of : ℕ → ℕ → ChunkPosition
position_of offset chunk_size =
    let index : ℕ = offset / chunk_size in
    let start_offset : ℕ = u64 (index * chunk_size) in
    record { index = index; start_offset = start_offset; offset_in_chunk = offset - start_offset }

unfoldable pub calculate_chunk_position : ℤ → ℕ → Result ChunkPosition
unfolding position_of
calculate_chunk_position (negsuc n) chunk_size = err Code.invalid_argument
calculate_chunk_position (pos offset) chunk_size =
    if chunk_size == 0 then err Code.invalid_argument else ok (position_of offset chunk_size)

unfoldable pub calculate_file_range_end : ℤ → ℕ → Result ℕ
calculate_file_range_end (negsuc n) length = err Code.invalid_argument
calculate_file_range_end (pos start) length =
    if ltb (max_supported_file_size - start) length
    then err Code.invalid_argument
    else ok (u64 (start + length))

unfoldable pub calculate_chunk_start_offset : ChunkIndex → ℕ → Result ℕ
calculate_chunk_start_offset index chunk_size =
    if chunk_size == 0
    then err Code.invalid_argument
    else if not (index == 0) && ltb (max_supported_file_size / index) chunk_size
    then err Code.invalid_argument
    else ok (u64 (index * chunk_size))
