-- ===== src/Lock.antt =====
-- src/metadata/LockAuthority.hpp and the range algebra of src/metadata/redis/RedisLockAuthority.cpp:
-- POSIX record locks of one owner as a canonical list of intervals.
pub mod Ranges
pub mod Remove
pub mod Join
pub mod Update
pub mod Holders
pub mod Owners
pub mod Request
pub mod Attempts
pub mod Inspect
pub mod Lease
pub mod Posix
pub mod Flock
mod Tests
use sword_fs.Prelude.{
  ℕ, ◌+◌, ◌-◌, ◌^◌, Bool, true, false, ◌||◌, ◌&&◌, not, ltb, leb, ◌==◌, if◌then◌else◌, List, [],
  ◌∷◌, ◌++◌, length, sort_by,
}
use sword_fs.Prelude.Int.{ℤ, pos, negsuc, is_negative}
use sword_fs.Status.{Result, ok, err, Code, Status, ◌>>◌, fail_if}

pub data PosixType : Type 0 where
  read write unlock : PosixType

-- `UINT64_MAX`, the end of a range that goes through the end of the file
abbrev pub infinity : ℕ
infinity = 2 ^ 64 - 1

pub record PosixRange : Type 0 where
  pub start : ℕ
  pub length : ℕ
  pub mode : PosixType
  pub pid : ℤ

pub record Interval : Type 0 where
  pub start : ℕ
  pub end : ℕ
  pub mode : PosixType
  pub pid : ℤ

abbrev pub same_mode : PosixType → PosixType → Bool
same_mode PosixType.read PosixType.read = true
same_mode PosixType.write PosixType.write = true
same_mode PosixType.unlock PosixType.unlock = true
same_mode _ _ = false

abbrev pub same_pid : ℤ → ℤ → Bool
same_pid (pos a) (pos b) = a == b
same_pid (negsuc a) (negsuc b) = a == b
same_pid (pos a) (negsuc b) = false
same_pid (negsuc a) (pos b) = false

-- The mode is one of the three by its type; the source checks that too.
unfoldable pub validate_range : PosixRange → Result Interval
validate_range range = do
  fail_if (not (range.length == 0) && ltb (infinity - range.start) range.length)
      Code.invalid_argument
  fail_if (is_negative range.pid) Code.invalid_argument
  let result : Interval = record {
    start = range.start;
    end = if range.length == 0 then infinity else range.start + range.length;
    mode = range.mode;
    pid = range.pid;
  }
  fail_if (result.start == result.end) Code.invalid_argument
  ok result

unfoldable pub overlaps : Interval → Interval → Bool
overlaps a b = ltb a.start b.end && ltb b.start a.end

-- What the request leaves of one stored interval, in front of the rest of the list.
unfoldable pub keep_outside : Interval → Interval → List Interval → List Interval
unfolding overlaps
keep_outside part request rest =
    if not (overlaps part request)
    then part ∷ rest
    else let right =
        if ltb request.end part.end then record part { start = request.end } ∷ rest else rest in
      if ltb part.start request.start then record part { end = request.start } ∷ right else right

unfoldable pub remove_overlap : List Interval → Interval → List Interval
unfolding keep_outside
remove_overlap [] request = []
remove_overlap (part ∷ rest) request = keep_outside part request (remove_overlap rest request)

abbrev pub start_of : Interval → ℕ
start_of x = x.start

abbrev pub touches : Interval → Interval → Bool
touches last part =
    last.end == part.start && same_mode last.mode part.mode && same_pid last.pid part.pid

-- The last element of the list is `ranges->back()`.
unfoldable pub append_range : Interval → List Interval → List Interval
append_range part [] = part ∷ []
append_range part (last ∷ []) =
    if touches last part then record last { end = part.end } ∷ [] else last ∷ part ∷ []
append_range part (x ∷ y ∷ rest) = x ∷ append_range part (y ∷ rest)

unfoldable pub coalesce : List Interval → List Interval → List Interval
unfolding append_range
coalesce ranges [] = ranges
coalesce ranges (part ∷ rest) = coalesce (append_range part ranges) rest

abbrev pub is_unlock : PosixType → Bool
is_unlock PosixType.unlock = true
is_unlock _ = false

-- The new ranges of `UpdateRanges`, before its budget is checked.
unfoldable pub updated_ranges : List Interval → Interval → List Interval
unfolding remove_overlap coalesce
updated_ranges ranges request =
    let kept = remove_overlap ranges request in
    let next = if is_unlock request.mode then kept else kept ++ request ∷ [] in
    coalesce [] (sort_by start_of next)

-- `kMaxValueBytes` and `kMaxIntervals`
abbrev pub max_value_bytes : ℕ
max_value_bytes = 4096

abbrev pub max_intervals : ℕ
max_intervals = 128

-- `folly::sformat("{}", n)`, for the unsigned bounds and the process number of a range
pub record Format : Type 0 where
  pub unsigned : ℕ → List ℕ
  pub signed : ℤ → List ℕ

module _ (format : Format) where
  encode_range : Interval → List ℕ
  encode_range x =
      b'|'
      ∷ (if same_mode x.mode PosixType.read then b'R' else b'W')
      ∷ b','
      ∷ (format.unsigned x.start ++ b',' ∷ (format.unsigned x.end ++ b',' ∷ format.signed x.pid))

  encode_all : List Interval → List ℕ
  unfolding encode_range
  encode_all [] = []
  encode_all (x ∷ rest) = encode_range x ++ encode_all rest

  unfoldable pub encode : List Interval → List ℕ
  unfolding encode_all
  encode ranges = b'P' ∷ b'2' ∷ encode_all ranges

  unfoldable pub update_ranges : List Interval → Interval → Result (List Interval)
  unfolding encode
  update_ranges ranges request =
      let next = updated_ranges ranges request in
      do
        fail_if (ltb max_intervals (length next) || ltb max_value_bytes (length (encode next)))
            Code.no_locks
        ok next
