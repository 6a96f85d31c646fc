-- ===== src/Engine/Directory/Shown.antt =====
-- What the iterator of a directory shows.
use sword_fs.Prelude.{
  ℕ, zero, suc, ◌+◌, ◌-◌, ◌%◌, ◌^◌, ◌≤◌, ◌≡◌, ◌⊎◌, inl, inr, refl, sym, ap, ◌∙◌, subst, arith, not,
  not-false, Option, none, some, Option-cases, List, [], ◌∷◌, ◌++◌, length, get_elem?,
}
use sword_fs.Prelude.Text.{Text, same_text, same_text_inv}
use sword_fs.Status.{
  Result, ok, err, ok_injective, Code, Status, >>=-eq-ok, >>-eq-ok, fail_if, fail_if-eq-ok,
}
use sword_fs.Record.{Words, Entry, parse_entry}
use sword_fs.Engine.Client.{Reply}
use sword_fs.Engine.Scans.{Page}
use sword_fs.Engine.Directory.{
  Cache, ensure_loaded, read_field, got, get, Iterator, next_cookie, shown, shown_from, peek_at,
  peek_unless_pending, peek, advance,
}
use sword_fs.Engine.Directory.Loaded.{
  Call, fields, IsCacheOf, IsReplied, seen_before, ensure_loaded-IsLoaded,
}

get_elem?-append :
    {A : Type 0} (xs ys : List A) (i : ℕ)
    → length xs ≤ i
    → get_elem? (xs ++ ys) i ≡ get_elem? ys (i - length xs)
get_elem?-append [] ys i h = ap (get_elem? ys) (omega arith)
get_elem?-append (x ∷ xs) ys zero h = absurd (omega arith)
get_elem?-append (x ∷ xs) ys (suc i) h =
    get_elem?-append xs ys i (omega arith) ∙ ap (get_elem? ys) (omega arith)

pub get_elem?-none : {A : Type 0} (xs : List A) (i : ℕ) → get_elem? xs i ≡ none → length xs ≤ i
get_elem?-none [] i h = omega arith
get_elem?-none (x ∷ xs) zero h = absurd cc
get_elem?-none (x ∷ xs) (suc i) h = let rest = get_elem?-none xs i h in omega arith

shown_inv :
    (iterator : Iterator) (cache : Cache) (result : Result Entry) {entry : Entry} {next : ℕ}
    {after : Iterator}
    → some (shown iterator cache result) ≡ some (ok (entry, next), after)
    → (result ≡ ok entry)
      × (next ≡ next_cookie iterator)
      × (after ≡ record iterator { cache = cache; pending_next = some next })
shown_inv iterator cache (err code) e = absurd cc
shown_inv iterator cache (ok given) {entry} {next} {after} e =
    let answer : Result (Entry × ℕ) × Iterator = shown iterator cache (ok given) in
    let wanted : Result (Entry × ℕ) × Iterator = (ok (entry, next), after) in
    let same : answer ≡ wanted = cc in
    let shown_pair : Entry × ℕ = (given, next_cookie iterator) in
    let wanted_pair : Entry × ℕ = (entry, next) in
    let pair : shown_pair ≡ wanted_pair =
      ok_injective (ap (λ (p : Result (Entry × ℕ) × Iterator). p.0) same) in
    let cookie : next_cookie iterator ≡ next = ap (λ (p : Entry × ℕ). p.1) pair in
    let kept : ℕ → Iterator = λ n. record iterator { cache = cache; pending_next = some n } in
    (
      ap ok (ap (λ (p : Entry × ℕ). p.0) pair),
      sym cookie,
      sym (ap (λ (p : Result (Entry × ℕ) × Iterator). p.1) same) ∙ ap kept cookie,
    )

module _ (words : Words) where
  -- The field of the directory that stands at an index, counted from the begin of the scan
  pub record IsGot (replies : List (ℕ → Reply Page)) (seen : List Call) (index : ℕ) (entry : Entry)
      (cache : Cache) : Type 0 where
    pub calls : List Call
    pub answered : IsReplied replies calls
    pub cached : IsCacheOf (seen ++ calls) cache
    pub value : Text
    pub field : get_elem? (fields (seen ++ calls)) index ≡ some (entry.name, value)
    pub parsed : parse_entry words value ≡ ok entry

  read_field-eq-ok :
      (field : Option (Text × Text)) {entry : Entry}
      → read_field words field ≡ ok entry
      → (value : Text) × (field ≡ some (entry.name, value)) × (parse_entry words value ≡ ok entry)
  unfolding read_field
  read_field-eq-ok none found = absurd cc
  read_field-eq-ok (some (name, value)) {entry} found =
      let (parsed_entry, parsed, named) = >>=-eq-ok (parse_entry words value) _ found in
      let (checked, handed_out) =
        >>-eq-ok (fail_if (not (same_text parsed_entry.name name)) Code.malformed) _ named in
      let same : parsed_entry ≡ entry = ok_injective handed_out in
      let alike : parsed_entry.name ≡ name =
        same_text_inv parsed_entry.name name (not-false _ (fail_if-eq-ok _ _ checked)) in
      let pair : Text → Option (Text × Text) = λ n. some (n, value) in
      (value, ap pair (sym alike ∙ ap (λ e. e.name) same), parsed ∙ ap ok same)

  got_inv :
      (index : ℕ) (loaded : Option (Status × Cache)) {entry : Entry} {after : Cache}
      → got words index loaded ≡ some (ok entry, after)
      → (loaded ≡ some (ok tt, after))
        × (read_field words (get_elem? after.entries (index - after.base_index)) ≡ ok entry)
  unfolding got
  got_inv index none e = absurd cc
  got_inv index (some (err code, cache)) e = absurd cc
  got_inv index (some (ok tt, cache)) {entry} {after} e =
      let answer : Result Entry × Cache =
        (read_field words (get_elem? cache.entries (index - cache.base_index)), cache) in
      let wanted : Result Entry × Cache = (ok entry, after) in
      let same : answer ≡ wanted = cc in
      let behind : cache ≡ after = ap (λ (p : Result Entry × Cache). p.1) same in
      let keep : Cache → Option (Status × Cache) = λ c. some (ok tt, c) in
      (
        ap keep behind,
        subst (λ c. read_field words (get_elem? c.entries (index - c.base_index)) ≡ ok entry) behind
            (ap (λ (p : Result Entry × Cache). p.0) same),
      )

  get-IsGot :
      (index : ℕ) (replies : List (ℕ → Reply Page)) (seen : List Call) (cache : Cache)
      {entry : Entry} {after : Cache}
      → IsCacheOf seen cache
      → get words index replies cache ≡ some (ok entry, after)
      → IsGot replies (seen_before index seen cache) index entry after
  unfolding get
  get-IsGot index replies seen cache {entry} {after} cached found =
      let (loaded, read) = got_inv index (ensure_loaded index replies cache) found in
      let there = ensure_loaded-IsLoaded index replies seen cache cached loaded in
      let (value, field, parsed) = read_field-eq-ok _ read in
      record {
        calls = there.calls;
        answered = there.answered;
        cached = there.cached;
        value = value;
        field =
            ap (λ d. get_elem? d index) there.cached.parts
            ∙ get_elem?-append there.cached.passed after.entries index
                (subst (λ n. n ≤ index) (sym there.cached.base) there.reached)
            ∙ ap (λ n. get_elem? after.entries (index - n)) there.cached.base
            ∙ field;
        parsed = parsed;
      }

  -- A peek of an iterator that has seen those fields: where the entry comes from, the cookie, and what
  -- is kept.
  pub record IsShown (replies : List (ℕ → Reply Page)) (seen : List Call) (before : Iterator)
      (entry : Entry) (next : ℕ) (after : Iterator) : Type 0 where
    pub not_pending : before.pending_next ≡ none
    pub cookie : next ≡ (before.position + 1) % 2 ^ 64
    pub pending : after.pending_next ≡ some next
    pub advanced :
        advance after
        ≡ some (record before { cache = after.cache; position = next; pending_next = none })
    pub origin :
        (get_elem? before.prefix_entries before.position ≡ some entry)
        ⊎ ((length before.prefix_entries ≤ before.position)
            × IsGot replies
                (seen_before (before.position - length before.prefix_entries) seen before.cache)
                (before.position - length before.prefix_entries)
                entry
                after.cache)

  advance_lem :
      (before : Iterator) {cache : Cache} {next : ℕ} {after : Iterator}
      → after ≡ record before { cache = cache; pending_next = some next }
      → advance after
        ≡ some (record before { cache = after.cache; position = next; pending_next = none })
  unfolding advance
  advance_lem before {next = next} kept =
      let moved : Cache → Option Iterator =
        λ c. some (record before { cache = c; position = next; pending_next = none }) in
      ap advance kept ∙ ap moved (sym (ap (λ i. i.cache) kept))

  peek_at-IsShown :
      (replies : List (ℕ → Reply Page)) (iterator : Iterator) (seen : List Call)
      (listed : Option Entry) {entry : Entry} {next : ℕ} {after : Iterator}
      → listed ≡ get_elem? iterator.prefix_entries iterator.position
      → iterator.pending_next ≡ none
      → IsCacheOf seen iterator.cache
      → peek_at words replies iterator listed ≡ some (ok (entry, next), after)
      → IsShown replies seen iterator entry next after
  unfolding peek_at shown_from
  peek_at-IsShown replies iterator seen (some first) {entry} here idle cached e =
      let (given, cookie, kept) = shown_inv iterator iterator.cache (ok first) e in
      record {
        not_pending = idle;
        cookie = cookie;
        pending = ap (λ i. i.pending_next) kept;
        advanced = advance_lem iterator kept;
        origin = inl (sym here ∙ ap some (ok_injective given));
      }
  peek_at-IsShown replies iterator seen none {entry} here idle cached e =
      elim (Option-cases
        (get words (iterator.position - length iterator.prefix_entries) replies iterator.cache)) [
          | inl waiting ↦ let given = rw waiting at e in absurd cc
          | inr ((result, cache), found) ↦
              let (given, cookie, kept) = shown_inv iterator cache result (rw found at e) in
              let read : Result Entry → Option (Result Entry × Cache) = λ r. some (r, cache) in
              record {
                not_pending = idle;
                cookie = cookie;
                pending = ap (λ i. i.pending_next) kept;
                advanced = advance_lem iterator kept;
                origin = inr (
                  get_elem?-none iterator.prefix_entries iterator.position (sym here),
                  subst
                      (IsGot replies
                        (seen_before (iterator.position - length iterator.prefix_entries) seen
                          iterator.cache)
                        (iterator.position - length iterator.prefix_entries) entry)
                      (sym (ap (λ i. i.cache) kept))
                      (get-IsGot _ replies seen iterator.cache cached (found ∙ ap read given)),
                );
              }
        ]

  peek_unless_pending-IsShown :
      (replies : List (ℕ → Reply Page)) (iterator : Iterator) (seen : List Call)
      (pending : Option ℕ) {entry : Entry} {next : ℕ} {after : Iterator}
      → pending ≡ iterator.pending_next
      → IsCacheOf seen iterator.cache
      → peek_unless_pending words replies iterator pending ≡ some (ok (entry, next), after)
      → IsShown replies seen iterator entry next after
  unfolding peek_unless_pending
  peek_unless_pending-IsShown replies iterator seen none same cached e =
      peek_at-IsShown replies iterator seen _ refl (sym same) cached e
  peek_unless_pending-IsShown replies iterator seen (some next) same cached e = absurd cc

  -- A peek that shows an entry had none pending before; the cookie behind it is the position plus one,
  -- in 64 bits, and an advance goes there. The entry is the one of the prefix at the position, or behind
  -- the prefix the one in the field that has that place among the fields of the scan: of the
  -- calls made before, none of them if the position lies before the page that is kept, and of those
  -- made now. The first call of the scan sends the cursor 0, and each later one the cursor that the
  -- one before it was replied. The entry's name is the field's.
  pub peek-IsShown :
      (replies : List (ℕ → Reply Page)) (iterator : Iterator) (seen : List Call) (entry : Entry)
      (next : ℕ) (after : Iterator)
      → IsCacheOf seen iterator.cache
      → peek words replies iterator ≡ some (ok (entry, next), after)
      → IsShown replies seen iterator entry next after
  unfolding peek
  peek-IsShown replies iterator seen entry next after cached e =
      peek_unless_pending-IsShown replies iterator seen iterator.pending_next refl cached e
