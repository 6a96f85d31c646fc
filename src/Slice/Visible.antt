-- ===== src/Slice/Visible.antt =====
-- What a read of a chunk shows at an address, told from the history of its records alone: the byte
-- of the newest record that covers the address, or a zero.
use mathlib.Core.List.{reverse}
use sword_fs.Prelude.{
  ℕ, ◌+◌, ◌-◌, ◌^◌, ◌≤◌, ◌<◌, ◌≡◌, refl, ap, inl, inr, ◌⊎◌, ◌&&◌, ltb, leb, ◌==◌, if◌then◌else◌,
  List, [], ◌∷◌, arith, All,
}
use sword_fs.Status.{ok, err, Code, Result-cases}
use sword_fs.Slice.{SliceRecord, ResolvedSlice, validate_record, validate_all}

-- A zero, or the byte at an offset of a stored Slice object.
pub data Byte : Type 0 where
  zero_byte : Byte
  stored : ℕ → ℕ → Byte

abbrev pub record_byte : SliceRecord → ℕ → Byte
record_byte r a = if r.id == 0 then zero_byte else stored r.id (r.off + (a - r.pos))

abbrev pub span_byte : ResolvedSlice → ℕ → Byte
span_byte x a = if x.id == 0 then zero_byte else stored x.id (x.off + (a - x.pos))

-- Over the records, newest first.
abbrev pub newest : List SliceRecord → ℕ → Byte
newest [] a = zero_byte
newest (r ∷ older) a =
    if leb r.pos a && ltb a (r.pos + r.len) then record_byte r a else newest older a

-- Over the records as they are stored, oldest first.
abbrev pub visible : List SliceRecord → ℕ → Byte
visible records a = newest (reverse records) a

-- The checks of a committed record, for a chunk of a given size.
pub record IsValidRecord (chunk_size : ℕ) (r : SliceRecord) : Type 0 where
  pub nonempty : 0 < r.len
  pub fits : r.pos + r.len ≤ chunk_size
  pub object :
      ((r.id ≡ 0) × (r.size ≡ 0) × (r.off ≡ 0))
      ⊎ ((0 < r.id) × (r.id ≤ 2 ^ 63 - 1) × (0 < r.size) × (r.off + r.len ≤ r.size))

pub validate_record-IsValidRecord :
    (r : SliceRecord) (chunk_size : ℕ)
    → validate_record r chunk_size ≡ ok tt
    → IsValidRecord chunk_size r
unfolding validate_record
validate_record-IsValidRecord r chunk_size e = record {
  nonempty = ground arith;
  fits = ground arith;
  object = ground arith;
}

pub IsValidRecord-validate_record :
    (r : SliceRecord) (chunk_size : ℕ)
    → IsValidRecord chunk_size r
    → validate_record r chunk_size ≡ ok tt
unfolding validate_record
IsValidRecord-validate_record r chunk_size v = ground arith

validate_record_error :
    (r : SliceRecord) (chunk_size : ℕ) (e : Code)
    → validate_record r chunk_size ≡ err e
    → e ≡ Code.malformed
unfolding validate_record
validate_record_error r chunk_size e h = ground arith

-- The check of a history accepts it exactly when each of its records is valid.
pub validate_all_cases :
    (records : List SliceRecord) (chunk_size : ℕ)
    → (All (IsValidRecord chunk_size) records × (validate_all records chunk_size ≡ ok tt))
      ⊎ ((¬ All (IsValidRecord chunk_size) records)
          × (validate_all records chunk_size ≡ err Code.malformed))
unfolding validate_all
validate_all_cases [] chunk_size = inl (tt, refl)
validate_all_cases (r ∷ rest) chunk_size = elim (Result-cases (validate_record r chunk_size)) [
  | inr (e, failed) ↦ inr (
    λ valid. absurd (cc (failed, IsValidRecord-validate_record r chunk_size valid.0)),
    rw failed (ap err (validate_record_error r chunk_size e failed)),
  )
  | inl (tt, passed) ↦
      let here = validate_record-IsValidRecord r chunk_size passed in
      elim (validate_all_cases rest chunk_size) [
        | inl (valid, checked) ↦ inl ((here, valid), rw passed checked)
        | inr (bad, failed) ↦ inr (λ valid. bad valid.1, rw passed failed)
      ]
]
