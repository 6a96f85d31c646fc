-- ===== src/Meta/Decimal.antt =====
-- The decimal text of a number, `std::to_string`, and its reading by `std::from_chars` as the
-- transactions use it: the whole text, into a uint64_t.
use sword_fs.Prelude.{
  ℕ, zero, suc, ◌+◌, ◌-◌, ◌*◌, ◌/◌, ◌%◌, ◌^◌, ◌&&◌, ltb, leb, if◌then◌else◌, Option, none, some, [],
  ◌∷◌,
}
use sword_fs.Prelude.Text.{Text}
use sword_fs.Status.{Result, ok, err, Code}
use sword_fs.Chunk.{ChunkId}
use sword_fs.Chunk.SizePlan.{is_valid_chunk_id}

-- The digits in front of others; a number below 10 ^ 20 has twenty at most.
unfoldable pub digits : ℕ → ℕ → Text → Text
digits zero n behind = behind
digits (suc fuel) n behind =
    let shown : Text = (48 + n % 10) ∷ behind in
    if ltb n 10 then shown else digits fuel (n / 10) shown

unfoldable pub to_string : ℕ → Text
to_string n = digits 20 n []

unfoldable pub read_digits : ℕ → Text → Option ℕ
read_digits value [] = some value
read_digits value (c ∷ rest) =
    let next : ℕ = value * 10 + (c - 48) in
    if leb 48 c && leb c 57 && ltb next (2 ^ 64) then read_digits next rest else none

unfoldable pub from_chars : Text → Option ℕ
from_chars [] = none
from_chars (c ∷ rest) = read_digits 0 (c ∷ rest)

-- `ParseAttachedChunkID`
abbrev pub valid_or_malformed : Option ℕ → Result ChunkId
valid_or_malformed none = err Code.malformed
valid_or_malformed (some value) = if is_valid_chunk_id value then ok value else err Code.malformed

unfoldable pub parse_attached_chunk_id : Text → Result ChunkId
parse_attached_chunk_id encoded = valid_or_malformed (from_chars encoded)

-- The index field of a mapping.
abbrev pub index_or_malformed : Option ℕ → Result ℕ
index_or_malformed none = err Code.malformed
index_or_malformed (some index) = ok index
