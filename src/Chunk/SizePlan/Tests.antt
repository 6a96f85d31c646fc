-- ===== src/Chunk/SizePlan/Tests.antt =====
-- A file of 150 bytes in chunks of 64, with its chunks 0, 1 and 2 mapped, that is cut to 100 bytes.
use sword_fs.Prelude.{ℕ, ◌*◌, ◌≤◌, ◌<◌, ◌≡◌, ◌≢◌, ◌↔◌, refl, true, arith, some, List, [], ◌∷◌, Elem}
use sword_fs.Status.{ok, err, Code}
use sword_fs.Chunk.{calculate_chunk_start_offset}
use sword_fs.Chunk.SizePlan.{
  ChunkMapping, ChunkSizeLayout, ChunkSizePlan, plan_chunk_size_layout, find_chunk_id,
  plan_chunk_size_change, validate_size_commit_plan,
}
use sword_fs.Chunk.SizePlan.Change.{plan_chunk_size_change-detached}

abbrev mappings : List ChunkMapping
mappings =
    record { index = 2; chunk_id = 12 }
    ∷ record { index = 0; chunk_id = 10 }
    ∷ record { index = 1; chunk_id = 11 }
    ∷ []

abbrev old_size : ℕ
old_size = 150

abbrev plan : ChunkSizePlan
plan = record {
  target_eof = 100;
  expected_old_state = record {
    eof = 150;
    boundary = some (record { index = 2; chunk_id = some 12; visible_prefix = 22 });
  };
  boundary = some (record { index = 1; chunk_id = 11; visible_prefix = 36 });
  detached_chunk_ids = 12 ∷ [];
}

abbrev layout : ChunkSizeLayout
layout = record {
  first_detached_index = 2;
  boundary = some (record { index = 1; visible_prefix = 36 });
}

layout_100 : plan_chunk_size_layout 100 64 ≡ ok layout
unfolding plan_chunk_size_layout
layout_100 = refl

planned_150_100 : plan_chunk_size_change 150 100 64 mappings ≡ ok plan
unfolding plan_chunk_size_change calculate_chunk_start_offset find_chunk_id
planned_150_100 = refl

duplicate_is_malformed :
    plan_chunk_size_change 150 100 64
      (record { index = 2; chunk_id = 12 } ∷ record { index = 2; chunk_id = 13 } ∷ [])
    ≡ err Code.malformed
unfolding plan_chunk_size_change calculate_chunk_start_offset find_chunk_id
duplicate_is_malformed = refl

committed_150_100 : validate_size_commit_plan plan 150 64 mappings true ≡ ok plan
unfolding validate_size_commit_plan calculate_chunk_start_offset find_chunk_id
committed_150_100 = refl

stale_commit : validate_size_commit_plan plan 151 64 mappings true ≡ err Code.already_exists
unfolding validate_size_commit_plan calculate_chunk_start_offset find_chunk_id
stale_commit = refl

plan_chunk_size_change-detached_example : Elem 12 plan.detached_chunk_ids ↔ (
    (m : ChunkMapping) × Elem m mappings × (m.chunk_id ≡ 12) × (100 ≤ m.index * 64) × (100 < 150))
plan_chunk_size_change-detached_example =
    plan_chunk_size_change-detached 150 100 64 mappings 12 planned_150_100

differ : old_size ≢ 100
differ e = omega arith
