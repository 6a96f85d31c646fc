-- ===== src/Engine/Batches.antt =====
-- `RedisMetaOps::VisitPendingDeletesBatch` as a whole.
use sword_fs.Prelude.{
  not, not-false, ap, ◌∙◌, ℕ, true, false, ◌==◌, ==_iff, List, [], ◌∷◌, ◌≡◌, ◌≢◌, ◌⊎◌, refl, inl,
  inr, Bool-cases, subst, sym,
}
use sword_fs.Prelude.Text.{Text, Dict, is_empty, same_text, same_text_inv, same_text_refl}
use sword_fs.Status.{
  ok, err, Code, Status, Result-cases, ok_injective, fail_if, fail_if-eq-ok, >>=-eq-ok, >>-eq-ok,
}
use sword_fs.Record.{Words, PendingDelete, parse_pending_delete}
use sword_fs.Engine.Client.{Reply, replied, refused, unreachable, read_only}
use sword_fs.Engine.Scans.{Page, Visit, HashScan, visit_some}
use sword_fs.Engine.Pending.{
  parse_pending, read_pending, load_batch, Batch, end_batch, failed_batch,
  visit_pending_deletes_batch,
}
use sword_fs.Engine.Visits.{IsPart, visit_some-IsPart}

-- Whether there is more: nothing where the page is used up and its cursor is 0.
pub data SaysMore {S : Type 0} (batch : Batch S) : Type 0 where
  no_more :
      batch.status ≡ ok tt
      → batch.has_more ≡ false
      → batch.scan.page ≡ []
      → batch.scan.cursor ≡ 0
      → SaysMore batch
  more :
      batch.status ≡ ok tt
      → batch.has_more ≡ true
      → (batch.scan.page ≢ []) ⊎ (batch.scan.cursor ≢ 0)
      → SaysMore batch
  failed : (code : Code) → batch.status ≡ err code → batch.has_more ≡ false → SaysMore batch

empty-cases :
    {A : Type 0} (xs : List A)
    → ((is_empty xs ≡ true) × (xs ≡ [])) ⊎ ((is_empty xs ≡ false) × (xs ≢ []))
empty-cases [] = inl (refl, refl)
empty-cases (x ∷ xs) = inr (refl, λ e. cc)

-- The objects of the fields of a page: each field is the key of its object, and the value its record.
pub data ArePending (words : Words) : Dict → List PendingDelete → Type 0 where
  no_field : ArePending words [] []
  object_of_field :
      (value : Text) (pending : PendingDelete) {values : Dict} {page : List PendingDelete}
      → parse_pending_delete words value ≡ ok pending
      → ArePending words values page
      → ArePending words ((pending.id, value) ∷ values) (pending ∷ page)

-- The page of a batch: what the last one has left, with its cursor, or, where that is nothing, the
-- objects of the page at the cursor, with the cursor of the next.
pub data IsPage (words : Words) (hscan : ℕ → Reply Page) (scan : HashScan PendingDelete)
    : HashScan PendingDelete → Type 0 where
  left_over : scan.page ≢ [] → IsPage words hscan scan scan
  next_page :
      (values : Dict) (next_cursor : ℕ) (page : List PendingDelete)
      → scan.page ≡ []
      → hscan scan.cursor ≡ replied (values, next_cursor)
      → ArePending words values page
      → IsPage words hscan scan (record { page = page; cursor = next_cursor })

read_pending-ArePending :
    (words : Words) (values : Dict) {page : List PendingDelete}
    → read_pending words values ≡ ok page
    → ArePending words values page
unfolding read_pending parse_pending
read_pending-ArePending words [] e = subst (ArePending words []) (ok_injective e) no_field
read_pending-ArePending words ((field, value) ∷ values) {page} e =
    let (pending, read, e1) = >>=-eq-ok (parse_pending words field value) _ e in
    let (rest, read_rest, e2) = >>=-eq-ok (read_pending words values) _ e1 in
    let (found, parsed, e3) = >>=-eq-ok (parse_pending_delete words value) _ read in
    let (alike, e4) = >>-eq-ok (fail_if (not (same_text field found.id)) Code.malformed) _ e3 in
    let same : found ≡ pending = ok_injective e4 in
    let named : field ≡ pending.id =
      same_text_inv field found.id (not-false _ (fail_if-eq-ok _ _ alike)) ∙ ap (λ p. p.id) same in
    subst (λ (n : Text). ArePending words ((n, value) ∷ values) page) (sym named)
      (subst (ArePending words ((pending.id, value) ∷ values)) (ok_injective e2) (
        object_of_field value pending (parsed ∙ ap ok same)
          (read_pending-ArePending words values read_rest)))

read_only-eq-ok : {A : Type 0} (r : Reply A) {a : A} → read_only r ≡ ok a → r ≡ replied a
unfolding read_only
read_only-eq-ok (replied value) e = ap replied (ok_injective e)
read_only-eq-ok refused e = absurd cc
read_only-eq-ok unreachable e = absurd cc

load_batch-IsPage :
    (words : Words) (hscan : ℕ → Reply Page) (scan : HashScan PendingDelete)
    {loaded : HashScan PendingDelete}
    → load_batch words hscan scan ≡ ok loaded
    → IsPage words hscan scan loaded
unfolding load_batch
load_batch-IsPage words hscan scan {loaded} e = elim (empty-cases scan.page) [
  | inr (filled, some_left) ↦
      subst (IsPage words hscan scan) (ok_injective (rw (load_batch, filled) at e))
        (left_over some_left)
  | inl (used_up, empty) ↦
      let opened = rw (load_batch, used_up) at e in
      let ((values, next_cursor), given, e1) = >>=-eq-ok (read_only (hscan scan.cursor)) _ opened in
      let (page, read, e2) = >>=-eq-ok (read_pending words values) _ e1 in
      subst (IsPage words hscan scan) (ok_injective e2) (
        next_page values next_cursor page empty (read_only-eq-ok _ given)
          (read_pending-ArePending words values read))
]

ArePending-read_pending :
    (words : Words) {values : Dict} {page : List PendingDelete}
    → ArePending words values page
    → read_pending words values ≡ ok page
unfolding read_pending parse_pending
ArePending-read_pending words no_field = refl
ArePending-read_pending words (object_of_field value pending parsed rest) =
    rw (parsed, same_text_refl pending.id, ArePending-read_pending words rest) refl

-- Why a page cannot be had: there is no reply, or one of its fields is not the key of its object.
pub data IsUnreadable (words : Words) (hscan : ℕ → Reply Page) (cursor : ℕ) : Code → Type 0 where
  io_error : hscan cursor ≡ refused → IsUnreadable words hscan cursor Code.io_error
  unavailable : hscan cursor ≡ unreachable → IsUnreadable words hscan cursor Code.unavailable
  bad_field :
      (values : Dict) (next_cursor : ℕ) (code : Code)
      → hscan cursor ≡ replied (values, next_cursor)
      → ((page : List PendingDelete) → ¬ ArePending words values page)
      → IsUnreadable words hscan cursor code

fetch_fails :
    (words : Words) (hscan : ℕ → Reply Page) (cursor : ℕ) (r : Reply Page) {code : Code}
    → hscan cursor ≡ r
    → load_batch words hscan (record { page = []; cursor = cursor }) ≡ err code
    → IsUnreadable words hscan cursor code
unfolding load_batch read_only
fetch_fails words hscan cursor refused is e =
    let given = rw (load_batch, is) at e in
    subst (IsUnreadable words hscan cursor) (cc) (io_error is)
fetch_fails words hscan cursor unreachable is e =
    let given = rw (load_batch, is) at e in
    subst (IsUnreadable words hscan cursor) (cc) (unavailable is)
fetch_fails words hscan cursor (replied (values, next_cursor)) {code} is e =
    bad_field values next_cursor code is
      (λ page all. let given = rw (load_batch, is, ArePending-read_pending words all) at e in cc)

load_fails :
    (words : Words) (hscan : ℕ → Reply Page) (page : List PendingDelete) (cursor : ℕ) {code : Code}
    → load_batch words hscan (record { page = page; cursor = cursor }) ≡ err code
    → (page ≡ []) × IsUnreadable words hscan cursor code
unfolding load_batch
load_fails words hscan [] cursor e = (refl, fetch_fails words hscan cursor (hscan cursor) refl e)
load_fails words hscan (pending ∷ page) cursor e = absurd cc

-- A page has to be asked for, and cannot be had: nothing has changed.
pub record IsUnread {S : Type 0} (words : Words) (hscan : ℕ → Reply Page)
    (scan : HashScan PendingDelete) (state : S) (batch : Batch S) : Type 0 where
  pub code : Code
  pub used_up : scan.page ≡ []
  pub unreadable : IsUnreadable words hscan scan.cursor code
  pub failed : batch ≡ failed_batch code scan state

module _ {S : Type 0} (words : Words) (max_items : ℕ) (visitor : PendingDelete → S → Status × S)
    (hscan : ℕ → Reply Page) (scan : HashScan PendingDelete) (state : S) where
  pub record IsBatch (batch : Batch S) : Type 0 where
    pub loaded : HashScan PendingDelete
    pub loads : IsPage words hscan scan loaded
    pub part :
        IsPart visitor max_items loaded.page state
          (record { status = batch.status; left = batch.scan.page; state = batch.state })
    pub cursor_kept : batch.scan.cursor ≡ loaded.cursor
    pub says_more : SaysMore batch

  end_batch-SaysMore :
      (visit : Visit PendingDelete S) (cursor : ℕ) → SaysMore (end_batch visit cursor)
  unfolding end_batch
  end_batch-SaysMore visit cursor = elim (Result-cases visit.status) [
    | inr (code, e) ↦ rw (end_batch, e) (failed code refl refl)
    | inl (done, e) ↦ elim (empty-cases visit.left) [
      | inr (filled, some_left) ↦ rw (end_batch, e, filled) (more refl refl (inl some_left))
      | inl (used_up, empty) ↦ elim (Bool-cases (cursor == 0)) [
        | inl last ↦
            rw (end_batch, e, used_up, last) (no_more refl refl empty ((==_iff cursor 0).0 last))
        | inr further ↦
            rw (end_batch, e, used_up, further)
              (more refl refl (inr (λ last. let met = (==_iff cursor 0).1 last in cc)))
      ]
    ]
  ]

  end_batch-keeps :
      (visit : Visit PendingDelete S) (cursor : ℕ)
      → (◌≡◌ {A = Visit PendingDelete S}
          (record {
            status = (end_batch visit cursor).status;
            left = (end_batch visit cursor).scan.page;
            state = (end_batch visit cursor).state;
          })
          visit)
        × ((end_batch visit cursor).scan.cursor ≡ cursor)
  unfolding end_batch
  end_batch-keeps visit cursor = elim (Result-cases visit.status) [
    | inr (code, e) ↦ rw (end_batch, e) (refl, refl)
    | inl (done, e) ↦ rw (end_batch, e) (refl, refl)
  ]

  -- A batch visits, in order and at most so many, the items that the last one has left, or, where
  -- it has left none, those of the page at the cursor, each the object that its field names. It keeps
  -- the rest, from an item that has failed on, with the cursor of the page: nothing is passed over. It
  -- says that there is no more exactly where the page is used up and the cursor is 0. Where a page
  -- has to be asked for and cannot be had, nothing changes. At least one item is to be visited.
  pub visit_pending_deletes_batch-IsBatch :
      max_items ≢ 0
      → IsBatch (visit_pending_deletes_batch words max_items visitor hscan scan state)
        ⊎ IsUnread words hscan scan state
            (visit_pending_deletes_batch words max_items visitor hscan scan state)
  unfolding visit_pending_deletes_batch
  visit_pending_deletes_batch-IsBatch positive = elim (Bool-cases (max_items == 0)) [
    | inl none_asked ↦ absurd (positive ((==_iff max_items 0).0 none_asked))
    | inr asked ↦ elim (Result-cases (load_batch words hscan scan)) [
      | inl (loaded, e) ↦
          let visit = visit_some visitor max_items loaded.page state in
          let (same, kept) = end_batch-keeps visit loaded.cursor in
          inl (
            rw (visit_pending_deletes_batch, asked, e)
              (record {
                loaded = loaded;
                loads = load_batch-IsPage words hscan scan e;
                part =
                    subst (IsPart visitor max_items loaded.page state) (sym same)
                      (visit_some-IsPart visitor max_items loaded.page state);
                cursor_kept = kept;
                says_more = end_batch-SaysMore visit loaded.cursor;
              }))
      | inr (code, e) ↦
          let (used_up, unreadable) = load_fails words hscan scan.page scan.cursor e in
          inr (record {
            code = code;
            used_up = used_up;
            unreadable = unreadable;
            failed = rw (visit_pending_deletes_batch, asked, e) refl;
          })
    ]
  ]
