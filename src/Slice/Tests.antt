-- ===== src/Slice/Tests.antt =====
-- A chunk of 64 bytes: a write of [0, 32), a zero-cover of [8, 16), a write of [24, 40), and reads.
use mathlib.Core.List.{reverse}
use sword_fs.Prelude.{ℕ, ◌+◌, ◌≤◌, ◌<◌, ◌≡◌, ◌⊎◌, refl, arith, List, [], ◌∷◌, All}
use sword_fs.Status.{ok, err, Code}
use sword_fs.Slice.{
  SliceRecord, ResolvedSlice, resolve_range, resolve_spans, validate_all, validate_record,
}
use sword_fs.Slice.Visible.{IsValidRecord}
use sword_fs.Slice.Overlay.{IsShown}
use sword_fs.Slice.Merge.{IsChain, IsCoalesced}
use sword_fs.Slice.Resolve.{resolve_range_sound, resolve_range_total}

abbrev chunk_size : ℕ
chunk_size = 64

abbrev records : List SliceRecord
records =
    record { pos = 0; id = 5; size = 32; off = 0; len = 32 }
    ∷ record { pos = 8; id = 0; size = 0; off = 0; len = 8 }
    ∷ record { pos = 24; id = 6; size = 20; off = 4; len = 16 }
    ∷ []

abbrev read_all : List ResolvedSlice
read_all =
    record { pos = 4; id = 5; off = 4; len = 4 }
    ∷ record { pos = 8; id = 0; off = 0; len = 8 }
    ∷ record { pos = 16; id = 5; off = 16; len = 8 }
    ∷ record { pos = 24; id = 6; off = 4; len = 16 }
    ∷ record { pos = 40; id = 0; off = 0; len = 10 }
    ∷ []

resolved_4_50 : resolve_range records 64 4 46 ≡ ok read_all
unfolding resolve_range resolve_spans validate_all validate_record
resolved_4_50 = refl

beyond_chunk : resolve_range records 64 60 5 ≡ err Code.invalid_argument
unfolding resolve_range
beyond_chunk = refl

malformed_record :
    resolve_range (record { pos = 0; id = 5; size = 32; off = 8; len = 32 } ∷ []) 64 0 4
    ≡ err Code.malformed
unfolding resolve_range validate_all validate_record
malformed_record = refl

resolve_range_sound_example :
    IsChain 4 (4 + 46) read_all × All (IsShown (reverse records)) read_all × IsCoalesced read_all
resolve_range_sound_example =
    resolve_range_sound records 64 4 46 read_all (omega arith)
      (omega arith, (omega arith, (omega arith, tt))) resolved_4_50

resolve_range_total_example :
    ((0 < chunk_size)
      × (4 + 46 ≤ chunk_size)
      × All (IsValidRecord chunk_size) records
      × ((out : List ResolvedSlice) × (resolve_range records chunk_size 4 46 ≡ ok out)))
    ⊎ (((chunk_size ≡ 0) ⊎ (chunk_size < 4 + 46))
        × (resolve_range records chunk_size 4 46 ≡ err Code.invalid_argument))
    ⊎ ((0 < chunk_size)
        × (4 + 46 ≤ chunk_size)
        × (¬ All (IsValidRecord chunk_size) records)
        × (resolve_range records chunk_size 4 46 ≡ err Code.malformed))
resolve_range_total_example = resolve_range_total records chunk_size 4 46
