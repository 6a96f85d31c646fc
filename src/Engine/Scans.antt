-- ===== src/Engine/Scans.antt =====
-- src/metadata/redis/RedisMetaOps.cpp: the scans of the hashes of orphans, of reclaims and of objects
-- to delete, page by page. The calls of HSCAN come in order, each with the server's replies to the
-- cursors that it can be asked for; a loop that has used them up waits for the next, and has no
-- result yet. A visitor changes a state of its own.
use sword_fs.Prelude.{ℕ, zero, suc, ◌==◌, if◌then◌else◌, Option, none, some, List, [], ◌∷◌, sort_by}
use sword_fs.Prelude.Text.{Text, Dict, is_empty}
use sword_fs.Status.{Result, ok, err, Code, Status, ◌>>=◌}
use sword_fs.Inode.{InodeId}
use sword_fs.Meta.Decimal.{from_chars}
use sword_fs.Engine.Client.{Reply, read_only}

-- A page of a hash, and the cursor of the next; the last one has cursor 0.
abbrev pub Page : Type 0
Page = Dict × ℕ

abbrev pub inode_or_malformed : Option ℕ → Result InodeId
inode_or_malformed none = err Code.malformed
inode_or_malformed (some ino) = if ino == 0 then err Code.malformed else ok ino

unfoldable pub parse_inode_field : Text → Result InodeId
parse_inode_field field = inode_or_malformed (from_chars field)

-- The inodes that the fields of a page name
unfoldable pub read_candidates : Dict → Result (List InodeId)
read_candidates [] = ok []
read_candidates ((field, value) ∷ values) = do
  ino ← parse_inode_field field
  rest ← read_candidates values
  ok (ino ∷ rest)

-- Where a visit of a page has come to: what it returns, the items that are left from the one that
-- has failed on, and the visitor's state.
pub record Visit (A S : Type 0) : Type 0 where
  pub status : Status
  pub left : List A
  pub state : S

module _ {A S : Type 0} where
  -- `if (!status.ok()) { return status; }` behind a visit of the first of the items
  unfoldable pub visited : List A → Status × S → (S → Visit A S) → Visit A S
  visited items (err code, after) next = record { status = err code; left = items; state = after }
  visited items (ok done, after) next = next after

module _ {A S : Type 0} (visitor : A → S → Status × S) where
  -- `while (offset < page.size() && visited < max_items)`: the number is how many more may be visited.
  unfoldable pub visit_some : ℕ → List A → S → Visit A S
  visit_some n [] state = record { status = ok tt; left = []; state = state }
  visit_some zero (item ∷ items) state = record {
    status = ok tt;
    left = item ∷ items;
    state = state;
  }
  visit_some (suc n) (item ∷ items) state =
      visited (item ∷ items) (visitor item state) (λ after. visit_some n items after)

  -- `while (offset < page.size())`
  unfoldable pub visit_page : List A → S → Visit A S
  visit_page [] state = record { status = ok tt; left = []; state = state }
  visit_page (item ∷ items) state =
      visited (item ∷ items) (visitor item state) (λ after. visit_page items after)

-- What is kept between two calls: the items of the page that are left, and the cursor behind it.
pub record HashScan (A : Type 0) : Type 0 where
  pub page : List A
  pub cursor : ℕ

pub record Scanned (A S : Type 0) : Type 0 where
  pub status : Status
  pub scan : HashScan A
  pub state : S

-- `VisitOrphanCandidates`
module _ {S : Type 0} (visitor : InodeId → S → Status × S) where
  -- Behind a page, the scan is over where the cursor is 0.
  unfoldable pub after_page :
      Visit InodeId S → ℕ → (S → Option (Scanned InodeId S)) → Option (Scanned InodeId S)
  after_page visit cursor next = elim visit.status [
    | err code ↦ some (record {
      status = err code;
      scan = record { page = visit.left; cursor = cursor };
      state = visit.state;
    })
    | ok done ↦
        if cursor == 0
        then some (record {
          status = ok tt;
          scan = record { page = []; cursor = 0 };
          state = visit.state;
        })
        else next visit.state
  ]

  -- The candidates of a page, ascending, and the next cursor
  abbrev pub candidates : Page → Result (List InodeId × ℕ)
  candidates (values, next_cursor) = do
    page ← read_candidates values
    ok (sort_by (λ ino. ino) page, next_cursor)

  unfoldable pub load_pages : List (ℕ → Reply Page) → ℕ → S → Option (Scanned InodeId S)
  load_pages [] cursor state = none
  load_pages (reply ∷ replies) cursor state = elim (read_only (reply cursor) >>= candidates) [
    | err code ↦
        some (record {
          status = err code;
          scan = record { page = []; cursor = cursor };
          state = state;
        })
    | ok (page, next_cursor) ↦
        after_page (visit_page visitor page state) next_cursor (load_pages replies next_cursor)
  ]

  unfoldable pub visit_orphan_candidates :
      List (ℕ → Reply Page) → HashScan InodeId → S → Option (Scanned InodeId S)
  visit_orphan_candidates replies scan state =
      if is_empty scan.page
      then load_pages replies scan.cursor state
      else after_page (visit_page visitor scan.page state) scan.cursor
          (load_pages replies scan.cursor)
