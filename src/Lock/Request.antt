-- ===== src/Lock/Request.antt =====
-- What `ValidateRange` makes of a request.
use sword_fs.Prelude.{
  ℕ, ◌+◌, ◌≤◌, ◌<◌, ◌≡◌, ◌⊎◌, inl, inr, true, false, ◌==◌, if◌then◌else◌, arith, Bool-cases,
}
use sword_fs.Prelude.Int.{is_negative}
use sword_fs.Status.{ok, err, Code}
use sword_fs.Lock.{PosixRange, infinity, validate_range}

-- The end of the interval that a request asks for, without a bound.
abbrev pub end_of : PosixRange → ℕ
end_of range = if range.length == 0 then infinity else range.start + range.length

-- A request that starts below 2 ^ 64 is accepted exactly when its process number is not negative
-- and its interval, which reaches to the last offset where the length is zero, is not empty and
-- ends below 2 ^ 64; the interval then is that of the request, with its mode and its process.
pub validate_range_lem :
    (range : PosixRange)
    → range.start ≤ infinity
    → ((is_negative range.pid ≡ false)
        × (range.start < end_of range)
        × (end_of range ≤ infinity)
        × (validate_range range
            ≡ ok (record {
              start = range.start;
              end = end_of range;
              mode = range.mode;
              pid = range.pid;
            })))
      ⊎ (((is_negative range.pid ≡ true) ⊎ (end_of range ≤ range.start) ⊎ (infinity < end_of range))
          × (validate_range range ≡ err Code.invalid_argument))
unfolding validate_range
validate_range_lem range h = elim (Bool-cases (range.length == 0)) [
  | inl whole ↦ rw whole (ground arith)
  | inr part ↦ rw part (ground arith)
]
