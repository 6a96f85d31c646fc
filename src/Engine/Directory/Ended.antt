-- ===== src/Engine/Directory/Ended.antt =====
-- When the iterator of a directory is at the end.
use sword_fs.Prelude.{
  ℕ, ◌+◌, ◌-◌, ◌<◌, ◌≤◌, ◌≡◌, ◌≢◌, ◌⊎◌, inl, inr, refl, sym, ap, ◌∙◌, subst, arith, Bool, true,
  ◌&&◌, Bool-cases, Option, none, some, Option-cases, List, ◌++◌, length, length-append, get_elem?,
}
use sword_fs.Prelude.Text.{Text, same_text, is_empty}
use sword_fs.Status.{Result, ok, err, Code, Status, Result-cases}
use sword_fs.Record.{Words, Entry, parse_entry, finish}
use sword_fs.Engine.Client.{Reply}
use sword_fs.Engine.Scans.{Page}
use sword_fs.Engine.Directory.{
  Cache, ensure_loaded, read_field, got, get, Iterator, shown, shown_from, peek_at,
  peek_unless_pending, peek,
}
use sword_fs.Engine.Directory.Loaded.{
  Call, fields, IsChain, IsCacheOf, IsReplied, seen_before, ensure_loaded-IsLoaded,
}
use sword_fs.Engine.Directory.Shown.{get_elem?-none}

finish_malformed :
    {A : Type 0} (valid : A → Bool) (r : Option (A × Text))
    → finish valid r ≢ err Code.end_of_directory
unfolding finish
finish_malformed valid none = λ same. cc
finish_malformed valid (some (a, rest)) = λ same. elim (Bool-cases (valid a && is_empty rest)) [
  | inl accepted ↦ let given = rw accepted at same in cc
  | inr refused ↦ let given = rw refused at same in cc
]

-- The scan is over, and has no field at the index.
pub record IsOver (replies : List (ℕ → Reply Page)) (seen : List Call) (index : ℕ) (cache : Cache)
    : Type 0 where
  pub calls : List Call
  pub answered : IsReplied replies calls
  pub cached : IsCacheOf (seen ++ calls) cache
  pub ended : IsChain (seen ++ calls) cache.cursor true
  pub behind_all : length (fields (seen ++ calls)) ≤ index

err_injective :
    {A : Type 0} {a b : Code} {first second : Result A}
    → first ≡ err a
    → first ≡ second
    → second ≡ err b
    → a ≡ b
err_injective made same given = cc

over :
    {a b n : ℕ} {exhausted : Bool}
    → (n < b + a) ⊎ (exhausted ≡ true)
    → a ≤ n - b
    → b ≤ n
    → exhausted ≡ true
over (inl within) short reached = absurd (omega (arith, within, short, reached))
over (inr done) short reached = done

module _ (words : Words) where
  parse_entry_malformed : (bytes : Text) → parse_entry words bytes ≢ err Code.end_of_directory
  unfolding parse_entry
  parse_entry_malformed bytes = finish_malformed _ _

  read_field-end :
      (field : Option (Text × Text))
      → read_field words field ≡ err Code.end_of_directory
      → field ≡ none
  unfolding read_field
  read_field-end none e = refl
  read_field-end (some (name, value)) e = elim (Result-cases (parse_entry words value)) [
    | inr (code, failed) ↦
        let given = rw failed at e in absurd (parse_entry_malformed value (failed ∙ given))
    | inl (entry, parsed) ↦ elim (Bool-cases (same_text entry.name name)) [
      | inl named ↦ let given = rw (parsed, named) at e in absurd cc
      | inr misnamed ↦ let given = rw (parsed, misnamed) at e in absurd cc
    ]
  ]

  got-end :
      (index : ℕ) (loaded : Option (Status × Cache)) {after : Cache}
      → got words index loaded ≡ some (err Code.end_of_directory, after)
      → (loaded ≡ some (err Code.end_of_directory, after))
        ⊎ ((loaded ≡ some (ok tt, after))
            × (get_elem? after.entries (index - after.base_index) ≡ none))
  unfolding got
  got-end index none e = absurd cc
  got-end index (some (err code, cache)) {after} e =
      let answer : Result Entry × Cache = (err code, cache) in
      let wanted : Result Entry × Cache = (err Code.end_of_directory, after) in
      let same : answer ≡ wanted = cc in
      let behind : cache ≡ after = ap (λ (p : Result Entry × Cache). p.1) same in
      let named : code ≡ Code.end_of_directory =
        err_injective refl (ap (λ (p : Result Entry × Cache). p.0) same) refl in
      let keep : Code → Cache → Option (Status × Cache) = λ k c. some (err k, c) in
      inl (ap (λ k. keep k cache) named ∙ ap (keep Code.end_of_directory) behind)
  got-end index (some (ok tt, cache)) {after} e =
      let answer : Result Entry × Cache =
        (read_field words (get_elem? cache.entries (index - cache.base_index)), cache) in
      let wanted : Result Entry × Cache = (err Code.end_of_directory, after) in
      let same : answer ≡ wanted = cc in
      let behind : cache ≡ after = ap (λ (p : Result Entry × Cache). p.1) same in
      let keep : Cache → Option (Status × Cache) = λ c. some (ok tt, c) in
      inr (
        ap keep behind,
        subst (λ c. get_elem? c.entries (index - c.base_index) ≡ none) behind
            (read_field-end _ (ap (λ (p : Result Entry × Cache). p.0) same)),
      )

  get-IsOver :
      (index : ℕ) (replies : List (ℕ → Reply Page)) (seen : List Call) (cache : Cache)
      {after : Cache}
      → IsCacheOf seen cache
      → get words index replies cache ≡ some (err Code.end_of_directory, after)
      → IsOver replies (seen_before index seen cache) index after
  unfolding get
  get-IsOver index replies seen cache {after} cached found =
      elim (got-end index (ensure_loaded index replies cache) found) [
        | inl failed ↦
            absurd ((ensure_loaded-IsLoaded index replies seen cache cached failed).other refl)
        | inr (loaded, missing) ↦
            let there = ensure_loaded-IsLoaded index replies seen cache cached loaded in
            let short : length after.entries ≤ index - after.base_index =
              get_elem?-none _ _ missing in
            let count : length (fields (seen_before index seen cache ++ there.calls))
                ≡ after.base_index + length after.entries =
              ap length there.cached.parts
              ∙ length-append there.cached.passed after.entries
              ∙ ap (λ n. n + length after.entries) there.cached.base in
            record {
              calls = there.calls;
              answered = there.answered;
              cached = there.cached;
              ended =
                  subst (IsChain (seen_before index seen cache ++ there.calls) after.cursor)
                    (over (there.complete refl) short there.reached) there.cached.chain;
              behind_all = omega (arith, count, short, there.reached);
            }
      ]

  shown-end :
      (iterator : Iterator) (cache : Cache) (result : Result Entry) {after : Iterator}
      → some (shown iterator cache result) ≡ some (err Code.end_of_directory, after)
      → (result ≡ err Code.end_of_directory) × (after ≡ record iterator { cache = cache })
  shown-end iterator cache (ok entry) e = absurd cc
  shown-end iterator cache (err code) {after} e =
      let answer : Result (Entry × ℕ) × Iterator = shown iterator cache (err code) in
      let wanted : Result (Entry × ℕ) × Iterator = (err Code.end_of_directory, after) in
      let same : answer ≡ wanted = cc in
      (
        ap err (err_injective refl (ap (λ (p : Result (Entry × ℕ) × Iterator). p.0) same) refl),
        sym (ap (λ (p : Result (Entry × ℕ) × Iterator). p.1) same),
      )

  -- A peek at the end leaves the iterator where it was.
  pub record IsAtEnd (replies : List (ℕ → Reply Page)) (seen : List Call) (before after : Iterator)
      : Type 0 where
    pub not_pending : before.pending_next ≡ none
    pub behind_prefix : length before.prefix_entries ≤ before.position
    pub kept : after ≡ record before { cache = after.cache }
    pub over :
        IsOver replies
          (seen_before (before.position - length before.prefix_entries) seen before.cache)
          (before.position - length before.prefix_entries)
          after.cache

  peek_at-IsAtEnd :
      (replies : List (ℕ → Reply Page)) (iterator : Iterator) (seen : List Call)
      (listed : Option Entry) {after : Iterator}
      → listed ≡ get_elem? iterator.prefix_entries iterator.position
      → iterator.pending_next ≡ none
      → IsCacheOf seen iterator.cache
      → peek_at words replies iterator listed ≡ some (err Code.end_of_directory, after)
      → IsAtEnd replies seen iterator after
  unfolding peek_at shown_from
  peek_at-IsAtEnd replies iterator seen (some first) here idle cached e = absurd cc
  peek_at-IsAtEnd replies iterator seen none {after} here idle cached e =
      elim (Option-cases
        (get words (iterator.position - length iterator.prefix_entries) replies iterator.cache)) [
          | inl waiting ↦ let given = rw waiting at e in absurd cc
          | inr ((result, cache), found) ↦
              let (given, kept) = shown-end iterator cache result (rw found at e) in
              let read : Result Entry → Option (Result Entry × Cache) = λ r. some (r, cache) in
              let with_cache : Cache → Iterator = λ c. record iterator { cache = c } in
              let held : after.cache ≡ cache = ap (λ i. i.cache) kept in
              record {
                not_pending = idle;
                behind_prefix = get_elem?-none iterator.prefix_entries iterator.position (sym here);
                kept = kept ∙ ap with_cache (sym held);
                over =
                    subst
                      (IsOver replies
                        (seen_before (iterator.position - length iterator.prefix_entries) seen
                          iterator.cache)
                        (iterator.position - length iterator.prefix_entries))
                      (sym held)
                      (get-IsOver _ replies seen iterator.cache cached (found ∙ ap read given));
              }
        ]

  peek_unless_pending-IsAtEnd :
      (replies : List (ℕ → Reply Page)) (iterator : Iterator) (seen : List Call)
      (pending : Option ℕ) {after : Iterator}
      → pending ≡ iterator.pending_next
      → IsCacheOf seen iterator.cache
      → peek_unless_pending words replies iterator pending ≡ some (err Code.end_of_directory, after)
      → IsAtEnd replies seen iterator after
  unfolding peek_unless_pending
  peek_unless_pending-IsAtEnd replies iterator seen none same cached e =
      peek_at-IsAtEnd replies iterator seen _ refl (sym same) cached e
  peek_unless_pending-IsAtEnd replies iterator seen (some next) same cached e = absurd cc

  -- A peek that finds the end of the directory had none pending before, and its position is behind the
  -- prefix. The last call of the scan was replied the cursor 0, and the position is behind all the
  -- fields that the calls of the scan gave, those made now included. The first call of the scan sends
  -- the cursor 0, each later one the cursor that the one before it was replied; nothing but the cache
  -- changes.
  pub peek-IsAtEnd :
      (replies : List (ℕ → Reply Page)) (iterator : Iterator) (seen : List Call) (after : Iterator)
      → IsCacheOf seen iterator.cache
      → peek words replies iterator ≡ some (err Code.end_of_directory, after)
      → IsAtEnd replies seen iterator after
  unfolding peek
  peek-IsAtEnd replies iterator seen after cached e =
      peek_unless_pending-IsAtEnd replies iterator seen iterator.pending_next refl cached e
