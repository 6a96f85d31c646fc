-- ===== src/Chunk/Geometry.antt =====
-- The arithmetic of src/metadata/types/Chunk.cpp: positions, range ends and start offsets.
use native.Mathlib.Nat.{
  mod-lt, div-add-mod', mul_comm, zero-mul, div-mul-le_self, le-div_iff_mul-le, mod-eq_of_lt,
}
use sword_fs.Prelude.{ℕ, zero, suc, ◌+◌, ◌*◌, ◌/◌, ◌≤◌, ◌<◌, ◌≡◌, ◌↔◌, ◌⊎◌, arith}
use sword_fs.Prelude.Int.{pos}
use sword_fs.Status.{ok, err, Code}
use sword_fs.Chunk.{
  ChunkPosition, max_supported_file_size, u64, calculate_chunk_position, calculate_file_range_end,
  calculate_chunk_start_offset, position_of,
}

u64_small : (n : ℕ) → n ≤ max_supported_file_size → u64 n ≡ n
u64_small n h = mod-eq_of_lt (omega arith)

-- The test by division is the test of the product.
quotient_test :
    (index chunk_size : ℕ)
    → 0 < index
    → (chunk_size ≤ max_supported_file_size / index)
      ↔ (index * chunk_size ≤ max_supported_file_size)
quotient_test index chunk_size h = rw (mul_comm index chunk_size) (le-div_iff_mul-le h)

-- The start of a chunk is returned exactly when a chunk has at least one byte and the product of
-- index and size is a supported offset, and then is that product, without a wrap.
pub calculate_chunk_start_offset_iff :
    (index chunk_size start : ℕ)
    → (calculate_chunk_start_offset index chunk_size ≡ ok start) ↔ (
        (0 < chunk_size)
        × (index * chunk_size ≤ max_supported_file_size)
        × (start ≡ index * chunk_size))
unfolding calculate_chunk_start_offset
calculate_chunk_start_offset_iff zero chunk_size start =
    ground (arith, zero-mul chunk_size, u64_small (0 * chunk_size))
calculate_chunk_start_offset_iff (suc i) chunk_size start =
    ground (arith, quotient_test (suc i) chunk_size, u64_small (suc i * chunk_size))

-- Where a chunk has at least one byte, every supported offset lies in the chunk that it is mapped
-- to, at the offset that is returned, and that chunk's start is the start that is returned.
pub calculate_chunk_position_lem :
    (offset chunk_size : ℕ)
    → offset ≤ max_supported_file_size
    → 0 < chunk_size
    → (p : ChunkPosition) × (calculate_chunk_position (pos offset) chunk_size ≡ ok p)
      × (calculate_chunk_start_offset p.index chunk_size ≡ ok p.start_offset)
      × (p.start_offset + p.offset_in_chunk ≡ offset)
      × (p.offset_in_chunk < chunk_size)
unfolding calculate_chunk_position position_of
calculate_chunk_position_lem offset chunk_size h c = (
  position_of offset chunk_size,
  ground arith,
  (calculate_chunk_start_offset_iff (offset / chunk_size) chunk_size start).1
      (c, omega (arith, below), same),
  omega (arith, below, same),
  omega (arith, same, div-add-mod' offset chunk_size, mod-lt offset c),
)
  where
    start : ℕ
    start = (position_of offset chunk_size).start_offset

    below : offset / chunk_size * chunk_size ≤ offset
    below = div-mul-le_self offset chunk_size

    same : start ≡ offset / chunk_size * chunk_size
    same = u64_small (offset / chunk_size * chunk_size) (omega (arith, below))

-- The end of a file range that starts at a supported offset is returned exactly when it is a
-- supported offset too, and then is the sum, without a wrap.
pub calculate_file_range_end_iff :
    (start length end : ℕ)
    → start ≤ max_supported_file_size
    → (calculate_file_range_end (pos start) length ≡ ok end)
      ↔ ((start + length ≤ max_supported_file_size) × (end ≡ start + length))
unfolding calculate_file_range_end
calculate_file_range_end_iff start length end h = ground (arith, u64_small (start + length))

-- Both outcomes, for code that calls it.
pub calculate_chunk_start_offset_cases :
    (index chunk_size : ℕ)
    → ((0 < chunk_size)
        × (index * chunk_size ≤ max_supported_file_size)
        × (calculate_chunk_start_offset index chunk_size ≡ ok (index * chunk_size)))
      ⊎ (((chunk_size ≡ 0) ⊎ (max_supported_file_size < index * chunk_size))
          × (calculate_chunk_start_offset index chunk_size ≡ err Code.invalid_argument))
unfolding calculate_chunk_start_offset
calculate_chunk_start_offset_cases zero chunk_size =
    ground (arith, zero-mul chunk_size, u64_small (0 * chunk_size))
calculate_chunk_start_offset_cases (suc i) chunk_size =
    ground (arith, quotient_test (suc i) chunk_size, u64_small (suc i * chunk_size))
