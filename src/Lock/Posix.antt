-- ===== src/Lock/Posix.antt =====
-- The transaction of `SetPosix` and the search of `GetPosix`.
pub mod Scan
pub mod Exclusion
pub mod Query
use sword_fs.Prelude.{
  ℕ, ◌-◌, ◌≡◌, refl, Bool, true, false, not, ◌&&◌, ◌||◌, ◌==◌, leb, if◌then◌else◌, List, [], ◌∷◌,
  Option, none, some,
}
use sword_fs.Prelude.Int.{ℤ}
use sword_fs.Status.{Result, ok, err, Code, ◌>>=◌, ◌>>◌, fail_if}
use sword_fs.Lock.{
  PosixType, Interval, infinity, overlaps, same_mode, is_unlock, Format, update_ranges,
}
use sword_fs.Lock.Holders.{Holder, FlockType, Write, is_owner, set_state, max_holders}

abbrev pub is_write : PosixType → Bool
is_write mode = same_mode mode PosixType.write

-- The test of one stored range of another owner.
unfoldable pub is_conflict : Interval → Interval → Bool
is_conflict interval other =
    overlaps interval other && (is_write interval.mode || is_write other.mode)

unfoldable pub has_conflict : Interval → List Interval → Bool
unfolding is_conflict
has_conflict interval [] = false
has_conflict interval (other ∷ rest) = is_conflict interval other || has_conflict interval rest

abbrev pub is_empty : List Interval → Bool
is_empty [] = true
is_empty (x ∷ xs) = false

-- What the owner holds itself, and whether it has a record.
pub record Owned : Type 0 where
  pub ranges : List Interval
  pub exists : Bool

module _ (generation kernel_owner : ℕ) (interval : Interval) where
  -- The loop over the holders.
  unfoldable pub scan_posix : List Holder → Owned → Result Owned
  unfolding has_conflict
  scan_posix [] owned = ok owned
  scan_posix (holder ∷ rest) owned =
      let own = is_owner generation kernel_owner holder in
      let next = if own then record { ranges = holder.ranges; exists = true } else owned in
      do
        fail_if (not own && not (is_unlock interval.mode) && has_conflict interval holder.ranges)
            Code.would_block
        scan_posix rest next

  -- The record that an owner keeps, none where its ranges are empty.
  abbrev pub posix_record : List Interval → Option Holder
  posix_record [] = none
  posix_record (x ∷ xs) = some (record {
    generation = generation;
    kernel_owner = kernel_owner;
    ranges = x ∷ xs;
    flock = FlockType.unlock;
  })

  -- The body of the transaction, behind `ReadHolders`.
  unfoldable pub set_posix : Format → List Holder → ℕ → Result Write
  unfolding scan_posix
  set_posix format holders stored_fields = do
    owned ← scan_posix holders (record { ranges = []; exists = false })
    next ← update_ranges format owned.ranges interval
    fail_if (not owned.exists && not (is_empty next) && leb max_holders stored_fields) Code.no_locks
    ok (set_state generation kernel_owner (posix_record next) owned.exists)

pub record PosixConflict : Type 0 where
  pub start : ℕ
  pub length : ℕ
  pub kernel_owner : ℕ
  pub mode : PosixType
  pub pid : ℤ

module _ (generation kernel_owner : ℕ) (interval : Interval) where
  unfoldable pub first_conflict : ℕ → List Interval → Option PosixConflict
  unfolding is_conflict
  first_conflict holder [] = none
  first_conflict holder (other ∷ rest) =
      if is_conflict interval other
      then some (record {
        start = other.start;
        length = if other.end == infinity then 0 else other.end - other.start;
        kernel_owner = holder;
        mode = other.mode;
        pid = other.pid;
      })
      else first_conflict holder rest

  -- The body of `GetPosix`'s transaction, behind `ReadHolders`.
  unfoldable pub get_posix : List Holder → Option PosixConflict
  unfolding first_conflict
  get_posix [] = none
  get_posix (holder ∷ rest) =
      let later = get_posix rest in
      if is_owner generation kernel_owner holder
      then later
      else elim (first_conflict holder.kernel_owner holder.ranges) [
        | none ↦ later
        | some found ↦ some found
      ]
