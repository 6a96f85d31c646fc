-- ===== src/Engine/Collected.antt =====
-- `RedisMetaOps::CollectPendingReclaims` as a whole.
use sword_fs.Prelude.{
  ℕ, false, not, not-false, ◌==◌, ==_iff, Option, none, some, List, [], ◌∷◌, ◌++◌, ◌≡◌, ◌≢◌, refl,
  inl, inr, Bool-cases, SortBy, IsSortedFrom, append_assoc, ap, sym, subst, ◌∙◌,
}
use mathlib.Core.List.{Permᴰ}
use sword_fs.Prelude.Text.{Text, Dict}
use sword_fs.Status.{
  ok, Code, fail_if, fail_if-eq-ok, Result-cases, ok_injective, >>=-eq-ok, >>-eq-ok,
}
use sword_fs.Record.{Words, ReclaimWork, parse_reclaim}
use sword_fs.Meta.Decimal.{from_chars}
use sword_fs.Engine.Client.{Reply, replied, refused, unreachable, read_only}
use sword_fs.Engine.Scans.{Page, inode_or_malformed, parse_inode_field}
use sword_fs.Engine.Pending.{
  read_work, read_works, work_ino, collect_works, collect_pending_reclaims,
}

-- The pages of a whole scan from a cursor on: the reply to the first call is to that cursor, to each
-- later call to the cursor that the reply before has given, and the last gives 0.
pub data IsScan : ℕ → List (ℕ → Reply Page) → Dict → Type 0 where
  last_page :
      (cursor : ℕ) (reply : ℕ → Reply Page) (replies : List (ℕ → Reply Page)) (values : Dict)
      → reply cursor ≡ replied (values, 0)
      → IsScan cursor (reply ∷ replies) values
  page_and_more :
      (cursor next : ℕ) (reply : ℕ → Reply Page) (replies : List (ℕ → Reply Page))
      (values rest : Dict)
      → reply cursor ≡ replied (values, next)
      → next ≢ 0
      → IsScan next replies rest
      → IsScan cursor (reply ∷ replies) (values ++ rest)

apart_lem : (n : ℕ) → n ≢ 0 → (n == 0) ≡ false
apart_lem n positive = elim (Bool-cases (n == 0)) [
  | inl same ↦ absurd (positive ((==_iff n 0).0 same))
  | inr apart ↦ apart
]

inode_or_malformed-eq-ok :
    (o : Option ℕ) {ino : ℕ} → inode_or_malformed o ≡ ok ino → (o ≡ some ino) × (ino ≢ 0)
inode_or_malformed-eq-ok none e = absurd cc
inode_or_malformed-eq-ok (some n) {ino} e = elim (Bool-cases (n == 0)) [
  | inl zero_ino ↦ let given = rw zero_ino at e in absurd cc
  | inr named ↦
      let same : n ≡ ino = ok_injective (rw named at e) in
      (ap some same, λ nil. let met = (==_iff n 0).1 (same ∙ nil) in cc)
]

module _ (words : Words) where
  -- The work of each field: the field is the number of its inode, other than 0, and the value its
  -- record.
  pub data AreWorks : Dict → List ReclaimWork → Type 0 where
    no_field : AreWorks [] []
    work_of_field :
        (field value : Text) (work : ReclaimWork) {values : Dict} {works : List ReclaimWork}
        → from_chars field ≡ some work.ino
        → work.ino ≢ 0
        → parse_reclaim words value ≡ ok work
        → AreWorks values works
        → AreWorks ((field, value) ∷ values) (work ∷ works)

  read_works-AreWorks :
      (values : Dict) {works : List ReclaimWork}
      → read_works words values ≡ ok works
      → AreWorks values works
  unfolding read_works read_work parse_inode_field
  read_works-AreWorks [] e = subst (AreWorks []) (ok_injective e) no_field
  read_works-AreWorks ((field, value) ∷ values) e =
      let (work, read, e1) = >>=-eq-ok (read_work words field value) _ e in
      let (rest, read_rest, e2) = >>=-eq-ok (read_works words values) _ e1 in
      let (ino, parsed_ino, e3) = >>=-eq-ok (parse_inode_field field) _ read in
      let (found, parsed, e4) = >>=-eq-ok (parse_reclaim words value) _ e3 in
      let (alike, e5) = >>-eq-ok (fail_if (not (found.ino == ino)) Code.malformed) _ e4 in
      let same : found ≡ work = ok_injective e5 in
      let (named, positive) = inode_or_malformed-eq-ok (from_chars field) parsed_ino in
      let number : ino ≡ work.ino =
        sym ((==_iff found.ino ino).0 (not-false _ (fail_if-eq-ok _ _ alike)))
        ∙ ap (λ w. w.ino) same in
      subst (AreWorks ((field, value) ∷ values)) (ok_injective e2) (
        work_of_field field value work (named ∙ ap some number) (λ nil. positive (number ∙ nil))
          (parsed ∙ ap ok same) (read_works-AreWorks values read_rest))

  read_work-eq-ok :
      (field value : Text) (work : ReclaimWork)
      → from_chars field ≡ some work.ino
      → work.ino ≢ 0
      → parse_reclaim words value ≡ ok work
      → read_work words field value ≡ ok work
  unfolding read_work parse_inode_field
  read_work-eq-ok field value work named positive parsed =
      let apart = apart_lem work.ino positive in
      let same = (==_iff work.ino work.ino).1 refl in rw (named, apart, parsed, same) refl

  AreWorks-read_works :
      {values : Dict} {works : List ReclaimWork}
      → AreWorks values works
      → read_works words values ≡ ok works
  unfolding read_works
  AreWorks-read_works no_field = refl
  AreWorks-read_works (work_of_field field value work named positive parsed rest) =
      rw (read_work-eq-ok field value work named positive parsed, AreWorks-read_works rest) refl

  AreWorks-append :
      {values rest : Dict} {works later : List ReclaimWork}
      → AreWorks values works
      → AreWorks rest later
      → AreWorks (values ++ rest) (works ++ later)
  AreWorks-append no_field behind = behind
  AreWorks-append (work_of_field field value work named positive parsed first) behind =
      work_of_field field value work named positive parsed (AreWorks-append first behind)

  AreWorks-split :
      (values rest : Dict) {works : List ReclaimWork}
      → AreWorks (values ++ rest) works
      → (first later : List ReclaimWork) × AreWorks values first
        × AreWorks rest later
        × (works ≡ first ++ later)
  AreWorks-split [] rest {works} all = ([], works, no_field, all, refl)
  AreWorks-split ((_, _) ∷ values) rest
        (work_of_field field value work named positive parsed behind) =
      let (first, later, a, b, same) = AreWorks-split values rest behind in
      (
        work ∷ first,
        later,
        work_of_field field value work named positive parsed a,
        b,
        ap (λ w. work ∷ w) same,
      )

module _ (words : Words) (sort : SortBy work_ino) where
  record IsSorted (cursor : ℕ) (replies : List (ℕ → Reply Page))
      (collected works : List ReclaimWork) : Type 0 where
    values : Dict
    read : List ReclaimWork
    whole_scan : IsScan cursor replies values
    reads : AreWorks words values read
    sorted : works ≡ sort.sorted (collected ++ read)

  collect_page :
      (reply : ℕ → Reply Page) (replies : List (ℕ → Reply Page)) (cursor : ℕ)
      (collected : List ReclaimWork) {works : List ReclaimWork} (r : Reply Page)
      → reply cursor ≡ r
      → ((next : ℕ) (more : List ReclaimWork)
          → collect_works words sort replies next more ≡ some (ok works)
          → IsSorted next replies more works)
      → collect_works words sort (reply ∷ replies) cursor collected ≡ some (ok works)
      → IsSorted cursor (reply ∷ replies) collected works
  unfolding collect_works read_only
  collect_page reply replies cursor collected refused is again e =
      let given = rw (collect_works, is) at e in absurd cc
  collect_page reply replies cursor collected unreachable is again e =
      let given = rw (collect_works, is) at e in absurd cc
  collect_page reply replies cursor collected {works} (replied (values, next)) is again e =
      elim (Result-cases (read_works words values)) [
        | inr (code, failed) ↦ let given = rw (collect_works, is, failed) at e in absurd cc
        | inl (read, worked) ↦ elim (Bool-cases (next == 0)) [
          | inl last ↦
              let done : sort.sorted (collected ++ read) ≡ works =
                let given = rw (collect_works, is, worked, last) at e in cc in
              record {
                values = values;
                read = read;
                whole_scan =
                    last_page cursor reply replies values
                      (is ∙ ap (λ (n : ℕ). replied (values, n)) ((==_iff next 0).0 last));
                reads = read_works-AreWorks words values worked;
                sorted = sym done;
              }
          | inr further ↦
              let later =
                again next (collected ++ read) (rw (collect_works, is, worked, further) at e) in
              record {
                values = values ++ later.values;
                read = read ++ later.read;
                whole_scan =
                    page_and_more cursor next reply replies values later.values is
                      (λ last. let met = (==_iff next 0).1 last in cc) later.whole_scan;
                reads = AreWorks-append words (read_works-AreWorks words values worked) later.reads;
                sorted = later.sorted ∙ ap sort.sorted (append_assoc collected read later.read);
              }
        ]
      ]

  collect_works-IsSorted :
      (replies : List (ℕ → Reply Page)) (cursor : ℕ) (collected : List ReclaimWork)
      {works : List ReclaimWork}
      → collect_works words sort replies cursor collected ≡ some (ok works)
      → IsSorted cursor replies collected works
  unfolding collect_works
  collect_works-IsSorted [] cursor collected e = absurd cc
  collect_works-IsSorted (reply ∷ replies) cursor collected e =
      collect_page reply replies cursor collected (reply cursor) refl
        (λ next more. collect_works-IsSorted replies next more) e

  -- The fields of a whole scan, the work of each, and those in the order of the inodes
  pub record IsCollected (replies : List (ℕ → Reply Page)) (works : List ReclaimWork) : Type 0 where
    pub values : Dict
    pub read : List ReclaimWork
    pub whole_scan : IsScan 0 replies values
    pub reads : AreWorks words values read
    pub all_of_them : Permᴰ works read
    pub ordered : IsSortedFrom work_ino 0 works

  IsSorted-IsCollected :
      (replies : List (ℕ → Reply Page)) {values : Dict} {read works : List ReclaimWork}
      → IsScan 0 replies values
      → AreWorks words values read
      → works ≡ sort.sorted read
      → IsCollected replies works
  IsSorted-IsCollected replies {values} {read} {works} scan reads same = record {
    values = values;
    read = read;
    whole_scan = scan;
    reads = reads;
    all_of_them = subst (λ w. Permᴰ w read) (sym same) (sort.permutes read);
    ordered = subst (IsSortedFrom work_ino 0) (sym same) (sort.ordered read);
  }

  -- Reclaims that are collected are those of all the fields of a whole scan from cursor 0 on, page
  -- after page, each as often as it is there: each is the work of the inode whose number its field is.
  -- Their inodes do not fall.
  pub collect_pending_reclaims-IsCollected :
      (replies : List (ℕ → Reply Page)) {works : List ReclaimWork}
      → collect_pending_reclaims words sort replies ≡ some (ok works)
      → IsCollected replies works
  unfolding collect_pending_reclaims
  collect_pending_reclaims-IsCollected replies e =
      let done = collect_works-IsSorted replies 0 [] e in
      IsSorted-IsCollected replies done.whole_scan done.reads done.sorted

  collect_works-total :
      {cursor : ℕ} {replies : List (ℕ → Reply Page)} {values : Dict} (collected : List ReclaimWork)
      {read : List ReclaimWork}
      → IsScan cursor replies values
      → AreWorks words values read
      → collect_works words sort replies cursor collected
        ≡ some (ok (sort.sorted (collected ++ read)))
  unfolding collect_works read_only
  collect_works-total collected (last_page cursor reply replies values is) reads =
      rw (collect_works, is, AreWorks-read_works words reads) refl
  collect_works-total collected {read}
        (page_and_more cursor next reply replies page rest is further scan) reads =
      let (first, behind, a, b, same) = AreWorks-split words page rest reads in
      let apart : (next == 0) ≡ false = apart_lem next further in
      rw (collect_works, is, AreWorks-read_works words a, apart)
        (collect_works-total (collected ++ first) scan b
          ∙ ap (λ w. some (ok (sort.sorted w)))
              (append_assoc collected first behind ∙ ap (λ w. collected ++ w) (sym same)))

  -- A whole scan from cursor 0 on of which every field is the number of an inode with its record is
  -- collected, whatever the replies behind it, and its reclaims are returned: each as often as it is
  -- there, with inodes that do not fall.
  pub collect_pending_reclaims-total :
      (replies : List (ℕ → Reply Page)) (values : Dict) {read : List ReclaimWork}
      → IsScan 0 replies values
      → AreWorks words values read
      → (works : List ReclaimWork) × (collect_pending_reclaims words sort replies ≡ some (ok works))
        × Permᴰ works read
        × IsSortedFrom work_ino 0 works
  unfolding collect_pending_reclaims
  collect_pending_reclaims-total replies values {read} scan reads =
      (sort.sorted read, collect_works-total [] scan reads, sort.permutes read, sort.ordered read)
