-- ===== src/Engine/Pending.antt =====
-- src/metadata/redis/RedisMetaOps.cpp: the scans of the hashes of reclaims and of objects to delete.
use sword_fs.Prelude.{
  ℕ, Bool, false, ◌||◌, not, ◌==◌, if◌then◌else◌, Option, none, some, List, [], ◌∷◌, ◌++◌, SortBy,
}
use sword_fs.Prelude.Text.{Text, Dict, same_text, is_empty}
use sword_fs.Status.{Result, ok, err, Code, Status, ◌>>=◌, ◌>>◌, fail_if}
use sword_fs.Record.{Words, ReclaimWork, PendingDelete, parse_reclaim, parse_pending_delete}
use sword_fs.Engine.Client.{Reply, read_only}
use sword_fs.Engine.Scans.{Page, parse_inode_field, Visit, HashScan, visit_some, visit_page}

abbrev pub work_ino : ReclaimWork → ℕ
work_ino work = work.ino

module _ (words : Words) where
  -- The work of a field is that of the inode that the field names.
  unfoldable pub read_work : Text → Text → Result ReclaimWork
  read_work field value = do
    ino ← parse_inode_field field
    work ← parse_reclaim words value
    fail_if (not (work.ino == ino)) Code.malformed
    ok work

  unfoldable pub read_works : Dict → Result (List ReclaimWork)
  read_works [] = ok []
  read_works ((field, value) ∷ values) = do
    work ← read_work field value
    rest ← read_works values
    ok (work ∷ rest)

  abbrev pub works_of : Page → Result (List ReclaimWork × ℕ)
  works_of (values, next_cursor) = do works ← read_works values; ok (works, next_cursor)

module _ (words : Words) (sort : SortBy work_ino) where
  -- `CollectPendingReclaims`, with the cursor that is asked for and the works that are collected so
  -- far; each call of HSCAN replies to its cursor.
  unfoldable pub collect_works :
      List (ℕ → Reply Page) → ℕ → List ReclaimWork → Option (Result (List ReclaimWork))
  collect_works [] cursor collected = none
  collect_works (reply ∷ replies) cursor collected =
      elim (read_only (reply cursor) >>= works_of words) [
        | err code ↦ some (err code)
        | ok (works, next_cursor) ↦
            let rest = collect_works replies next_cursor (collected ++ works) in
            if next_cursor == 0 then some (ok (sort.sorted (collected ++ works))) else rest
      ]

  unfoldable pub collect_pending_reclaims :
      List (ℕ → Reply Page) → Option (Result (List ReclaimWork))
  collect_pending_reclaims replies = collect_works replies 0 []

  -- The status, and the visitor's state
  unfoldable pub visit_pending_reclaims :
      {S : Type 0}
      → (ReclaimWork → S → Status × S)
      → List (ℕ → Reply Page)
      → S
      → Option (Status × S)
  visit_pending_reclaims visitor replies state = elim (collect_pending_reclaims replies) [
    | none ↦ none
    | some (err code) ↦ some (err code, state)
    | some (ok pending) ↦
        let visit = visit_page visitor pending state in some (visit.status, visit.state)
  ]

module _ (words : Words) where
  unfoldable pub parse_pending : Text → Text → Result PendingDelete
  parse_pending object_key encoded = do
    pending ← parse_pending_delete words encoded
    fail_if (not (same_text object_key pending.id)) Code.malformed
    ok pending

  unfoldable pub read_pending : Dict → Result (List PendingDelete)
  read_pending [] = ok []
  read_pending ((object_key, encoded) ∷ values) = do
    pending ← parse_pending object_key encoded
    rest ← read_pending values
    ok (pending ∷ rest)

  -- The page of a batch: what is left of the last one, or the next.
  unfoldable pub load_batch :
      (ℕ → Reply Page) → HashScan PendingDelete → Result (HashScan PendingDelete)
  load_batch hscan scan = if not (is_empty scan.page) then ok scan else (do
    loaded ← read_only (hscan scan.cursor)
    page ← read_pending (loaded.0)
    ok (record { page = page; cursor = loaded.1 }))

-- What `VisitPendingDeletesBatch` leaves; `has_more` is its output.
pub record Batch (S : Type 0) : Type 0 where
  pub status : Status
  pub has_more : Bool
  pub scan : HashScan PendingDelete
  pub state : S

module _ {S : Type 0} where
  -- `has_more` is false until the whole batch has been visited.
  unfoldable pub end_batch : Visit PendingDelete S → ℕ → Batch S
  end_batch visit cursor = elim visit.status [
    | err code ↦ record {
      status = err code;
      has_more = false;
      scan = record { page = visit.left; cursor = cursor };
      state = visit.state;
    }
    | ok done ↦ record {
      status = ok tt;
      has_more = not (is_empty visit.left) || not (cursor == 0);
      scan = record { page = visit.left; cursor = cursor };
      state = visit.state;
    }
  ]

  abbrev pub failed_batch : Code → HashScan PendingDelete → S → Batch S
  failed_batch code scan state = record {
    status = err code;
    has_more = false;
    scan = scan;
    state = state;
  }

  unfoldable pub visit_pending_deletes_batch :
      Words
      → ℕ
      → (PendingDelete → S → Status × S)
      → (ℕ → Reply Page)
      → HashScan PendingDelete
      → S
      → Batch S
  visit_pending_deletes_batch words max_items visitor hscan scan state =
      if max_items == 0
      then failed_batch Code.invalid_argument scan state
      else elim (load_batch words hscan scan) [
        | err code ↦ failed_batch code scan state
        | ok loaded ↦ end_batch (visit_some visitor max_items loaded.page state) loaded.cursor
      ]
