-- ===== src/Slice.antt =====
-- src/chunk/slice/SliceRecord.hpp and SliceRecord.cpp: the committed records of a chunk, and the
-- spans that a read of a range sees. A `uint32_t` sum wraps at 2^32.
pub mod Gaps
pub mod Cut
pub mod Visible
pub mod Overlay
pub mod Merge
pub mod Resolve
mod Tests
use mathlib.Core.List.{reverse}
use sword_fs.Prelude.{
  ℕ, zero, suc, ◌+◌, ◌-◌, ◌%◌, ◌^◌, min, max, Bool, true, false, ◌||◌, ◌&&◌, not, ltb, leb, ◌==◌,
  if◌then◌else◌, Option, none, some, List, [], ◌∷◌, ◌++◌, map, length, sort_by,
}
use sword_fs.Status.{Result, ok, err, Code, Status, ◌>>◌, fail_if}

abbrev pub u32 : ℕ → ℕ
u32 n = n % 2 ^ 32

-- A `SliceID` is its value; zero denotes a zero-cover.
pub record SliceRecord : Type 0 where
  pub pos : ℕ
  pub id : ℕ
  pub size : ℕ
  pub off : ℕ
  pub len : ℕ

pub record ResolvedSlice : Type 0 where
  pub pos : ℕ
  pub id : ℕ
  pub off : ℕ
  pub len : ℕ

unfoldable pub validate_record : SliceRecord → ℕ → Status
validate_record r chunk_size =
    if r.len == 0 || leb chunk_size r.pos || ltb (chunk_size - r.pos) r.len
    then err Code.malformed
    else if r.id == 0
    then fail_if (not (r.size == 0) || not (r.off == 0)) Code.malformed
    else fail_if
        (ltb (2 ^ 63 - 1) r.id || r.size == 0 || ltb r.size r.off || ltb (r.size - r.off) r.len)
        Code.malformed

-- `std::map<uint32_t, uint32_t>`: entries (start, end) in the order of their keys.
abbrev pub Gaps : Type 0
Gaps = List (ℕ × ℕ)

unfoldable pub erase_key : ℕ → Gaps → Gaps
erase_key k [] = []
erase_key k ((s, e) ∷ m) = if s == k then m else (s, e) ∷ erase_key k m

-- `emplace` keeps the value of a key that is there.
unfoldable pub emplace : ℕ → ℕ → Gaps → Gaps
emplace k v [] = (k, v) ∷ []
emplace k v ((s, e) ∷ m) =
    if ltb s k then (s, e) ∷ emplace k v m else if s == k then (s, e) ∷ m else (k, v) ∷ (s, e) ∷ m

-- An iterator is the entry that it points to; `none` is the end.
unfoldable pub lower_bound : ℕ → Gaps → Option (ℕ × ℕ)
lower_bound k [] = none
lower_bound k ((s, e) ∷ m) = if ltb s k then lower_bound k m else some (s, e)

unfoldable pub upper_bound : ℕ → Gaps → Option (ℕ × ℕ)
upper_bound k [] = none
upper_bound k ((s, e) ∷ m) = if leb s k then upper_bound k m else some (s, e)

-- `std::prev(upper_bound(k))`; `none` if `upper_bound(k)` is the beginning.
unfoldable pub before_upper_bound : ℕ → Gaps → Option (ℕ × ℕ)
before_upper_bound k [] = none
before_upper_bound k ((s, e) ∷ m) =
    if leb s k
    then elim (before_upper_bound k m) [ none ↦ some (s, e) | some later ↦ some later ]
    else none

-- The gap that the loop over a record begins with.
unfoldable pub first_gap : ℕ → Gaps → Option (ℕ × ℕ)
first_gap pos m = elim (before_upper_bound pos m) [
  | none ↦ upper_bound pos m
  | some (s, e) ↦ if ltb pos e then some (s, e) else upper_bound pos m
]

abbrev pub covered_span : SliceRecord → ℕ → ℕ → ResolvedSlice
covered_span r cover_start cover_end = record {
  pos = cover_start;
  id = r.id;
  off = if r.id == 0 then 0 else u32 (r.off + (cover_start - r.pos));
  len = cover_end - cover_start;
}

-- The map after a gap was erased and what the record leaves of it was put back.
unfoldable pub split_gap : ℕ → ℕ → ℕ → ℕ → Gaps → Gaps
split_gap gap_start gap_end cover_start cover_end m =
    let erased = erase_key gap_start m in
    let left = if ltb gap_start cover_start then emplace gap_start cover_start erased else erased in
    if ltb cover_end gap_end then emplace cover_end gap_end left else left

-- The `while` loop over the gaps that a record meets. A round takes one gap of the map for good, so
-- one round more than the map has gaps is enough.
unfoldable pub overlay_loop :
    ℕ → SliceRecord → ℕ → Option (ℕ × ℕ) → Gaps → List ResolvedSlice → Gaps × List ResolvedSlice
overlay_loop zero r record_end gap m resolved = (m, resolved)
overlay_loop (suc fuel) r record_end none m resolved = (m, resolved)
overlay_loop (suc fuel) r record_end (some (gap_start, gap_end)) m resolved =
    let cover_start = max r.pos gap_start in
    let cover_end = min record_end gap_end in
    let next = split_gap gap_start gap_end cover_start cover_end m in
    let rest =
      overlay_loop fuel r record_end (lower_bound cover_end next) next
        (resolved ++ covered_span r cover_start cover_end ∷ []) in
    if ltb gap_start record_end then rest else (m, resolved)

unfoldable pub overlay_record : SliceRecord → Gaps → List ResolvedSlice → Gaps × List ResolvedSlice
unfolding overlay_loop first_gap before_upper_bound upper_bound lower_bound split_gap erase_key
    emplace
overlay_record r m resolved =
    overlay_loop (suc (length m)) r (u32 (r.pos + r.len)) (first_gap r.pos m) m resolved

-- The `for` loop, newest record first, which ends early when no gap is left.
unfoldable pub overlay_all :
    List SliceRecord → Gaps → List ResolvedSlice → Gaps × List ResolvedSlice
unfolding overlay_record
overlay_all [] m resolved = (m, resolved)
overlay_all (r ∷ older) [] resolved = ([], resolved)
overlay_all (r ∷ older) (gap ∷ gaps) resolved =
    let next = overlay_record r (gap ∷ gaps) resolved in overlay_all older next.0 next.1

abbrev pub hole : ℕ × ℕ → ResolvedSlice
hole gap = record { pos = gap.0; id = 0; off = 0; len = gap.1 - gap.0 }

abbrev pub extends : ResolvedSlice → ResolvedSlice → Bool
extends last span =
    u32 (last.pos + last.len) == span.pos
    && last.id == span.id
    && (span.id == 0 || u32 (last.off + last.len) == span.off)

-- `AppendCoalesced`; the last element of the list is `out->back()`.
unfoldable pub append_coalesced : ResolvedSlice → List ResolvedSlice → List ResolvedSlice
append_coalesced span [] = span ∷ []
append_coalesced span (last ∷ []) =
    if extends last span
    then record last { len = u32 (last.len + span.len) } ∷ []
    else last ∷ span ∷ []
append_coalesced span (x ∷ y ∷ rest) = x ∷ append_coalesced span (y ∷ rest)

unfoldable pub merge_all : List ResolvedSlice → List ResolvedSlice → List ResolvedSlice
unfolding append_coalesced
merge_all merged [] = merged
merge_all merged (span ∷ rest) = merge_all (append_coalesced span merged) rest

unfoldable pub validate_all : List SliceRecord → ℕ → Status
validate_all [] chunk_size = ok tt
validate_all (r ∷ rest) chunk_size = validate_record r chunk_size >> validate_all rest chunk_size

abbrev pub pos_of : ResolvedSlice → ℕ
pos_of span = span.pos

-- What follows the check of the records.
unfoldable pub resolve_spans : List SliceRecord → ℕ → ℕ → List ResolvedSlice
unfolding overlay_all merge_all
resolve_spans records pos len =
    if len == 0
    then []
    else let (uncovered, resolved) =
        overlay_all (reverse records) ((pos, u32 (pos + len)) ∷ []) [] in
      merge_all [] (sort_by pos_of (resolved ++ map hole uncovered))

unfoldable pub resolve_range : List SliceRecord → ℕ → ℕ → ℕ → Result (List ResolvedSlice)
resolve_range records chunk_size pos len = do
  fail_if (chunk_size == 0 || ltb chunk_size pos || ltb (chunk_size - pos) len)
      Code.invalid_argument
  validate_all records chunk_size
  ok (resolve_spans records pos len)
