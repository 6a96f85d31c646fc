-- ===== src/Lock/Flock.antt =====
-- The transaction of `SetFlock`.
pub mod Exclusive
use sword_fs.Prelude.{
  ℕ, Bool, true, false, not, ◌&&◌, ◌||◌, leb, if◌then◌else◌, List, [], ◌∷◌, Option, none, some,
}
use sword_fs.Status.{Result, ok, err, Code, ◌>>=◌, ◌>>◌, fail_if}
use sword_fs.Lock.Holders.{Holder, FlockType, Write, is_owner, set_state, max_holders}

abbrev pub same_type : FlockType → FlockType → Bool
same_type FlockType.unlock FlockType.unlock = true
same_type FlockType.shared FlockType.shared = true
same_type FlockType.exclusive FlockType.exclusive = true
same_type _ _ = false

-- The locals of the transaction.
pub record Scan : Type 0 where
  pub exists : Bool
  pub owned_type : FlockType
  pub conflict : Bool

-- What the transaction writes, and whether it gives an old lock up before it reports a conflict.
pub record FlockChange : Type 0 where
  pub write : Write
  pub released_on_conflict : Bool

module _ (generation kernel_owner : ℕ) (wanted : FlockType) where
  -- The loop over the holders.
  unfoldable pub scan_flock : List Holder → Scan → Scan
  scan_flock [] found = found
  scan_flock (holder ∷ rest) found =
      let next : Scan =
        if is_owner generation kernel_owner holder
        then record found { exists = true; owned_type = holder.flock }
        else if not (same_type wanted FlockType.unlock)
            && (same_type wanted FlockType.exclusive || same_type holder.flock FlockType.exclusive)
        then record found { conflict = true }
        else found in
      scan_flock rest next

module _ (generation kernel_owner : ℕ) where
  abbrev pub flock_record : FlockType → Option Holder
  flock_record FlockType.unlock = none
  flock_record held =
      some
        (record { generation = generation; kernel_owner = kernel_owner; ranges = []; flock = held })

module _ (generation kernel_owner : ℕ) (wanted : FlockType) where
  -- The transaction behind its loop.
  unfoldable pub finish_flock : Scan → ℕ → Result FlockChange
  unfolding set_state
  finish_flock found stored_fields =
      if found.conflict
      then if found.exists && not (same_type found.owned_type wanted)
        then ok (record {
          write = set_state generation kernel_owner none true;
          released_on_conflict = true;
        })
        else err Code.would_block
      else do
        fail_if
            (not found.exists
              && not (same_type wanted FlockType.unlock)
              && leb max_holders stored_fields)
            Code.no_locks
        ok (record {
          write =
              set_state generation kernel_owner (flock_record generation kernel_owner wanted)
                found.exists;
          released_on_conflict = false;
        })

  -- The body of the transaction, behind `ReadHolders`.
  unfoldable pub set_flock : List Holder → ℕ → Result FlockChange
  unfolding scan_flock finish_flock
  set_flock holders stored_fields =
      finish_flock
        (scan_flock generation kernel_owner wanted holders
          (record { exists = false; owned_type = FlockType.unlock; conflict = false }))
        stored_fields
