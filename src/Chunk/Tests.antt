-- ===== src/Chunk/Tests.antt =====
-- Chunk geometry at concrete sizes.
use sword_fs.Prelude.{◌+◌, ◌≤◌, ◌≡◌, ◌↔◌, refl, arith}
use sword_fs.Prelude.Int.{pos, negsuc}
use sword_fs.Status.{ok, err, Code}
use sword_fs.Chunk.{max_supported_file_size, calculate_chunk_position, calculate_file_range_end}
use sword_fs.Chunk.Geometry.{calculate_file_range_end_iff}

position_at_100 :
    calculate_chunk_position (pos 100) 64
    ≡ ok (record { index = 1; start_offset = 64; offset_in_chunk = 36 })
unfolding calculate_chunk_position
position_at_100 = refl

position_below_zero : calculate_chunk_position (negsuc 0) 64 ≡ err Code.invalid_argument
unfolding calculate_chunk_position
position_below_zero = refl

calculate_file_range_end_example :
    (calculate_file_range_end (pos 100) 28 ≡ ok 128)
    ↔ ((100 + 28 ≤ max_supported_file_size) × (128 ≡ 100 + 28))
calculate_file_range_end_example = calculate_file_range_end_iff 100 28 128 (omega arith)
