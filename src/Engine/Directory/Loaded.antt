-- ===== src/Engine/Directory/Loaded.antt =====
-- What the cache of a directory's entries holds behind a load.
use sword_fs.Prelude.{
  ℕ, ◌+◌, ◌<◌, ◌≤◌, ◌≢◌, ◌≡◌, ◌⊎◌, inl, inr, refl, sym, ap, ◌∙◌, subst, arith, Bool, true, false,
  ◌||◌, ◌==◌, ltb, ltb→lt, lt→ltb, if◌then◌else◌, Bool-cases, lt-or-le, some, List, [], ◌∷◌, ◌++◌,
  length, length-append, append_assoc, append-nil,
}
use sword_fs.Prelude.Text.{Dict}
use sword_fs.Status.{ok, err, Code, Status}
use sword_fs.Engine.Client.{Reply, replied, refused, unreachable, read_only}
use sword_fs.Engine.Scans.{Page}
use sword_fs.Engine.Directory.{
  Cache, empty_cache, passed_page, with_page, fetch, load, ensure_loaded,
}

-- A call of HSCAN: the cursor that is sent, and the page that is replied
pub record Call : Type 0 where
  pub sent : ℕ
  pub values : Dict
  pub next_cursor : ℕ

-- All the fields that calls have given, in order
abbrev pub fields : List Call → Dict
fields [] = []
fields (call ∷ calls) = call.values ++ fields calls

fields-append : (xs ys : List Call) → fields (xs ++ ys) ≡ fields xs ++ fields ys
fields-append [] ys = refl
fields-append (call ∷ calls) ys =
    ap (λ d. call.values ++ d) (fields-append calls ys)
    ∙ sym (append_assoc call.values (fields calls) (fields ys))

-- The calls of one scan, the cursor for the next call, and whether the scan is over: the first call sends
-- 0, each later one the cursor that the one before it was replied, and none comes behind a reply of 0.
pub data IsChain : List Call → ℕ → Bool → Type 0 where
  none_yet : IsChain [] 0 false
  next_call :
      {calls : List Call} (call : Call)
      → IsChain calls call.sent false
      → IsChain (calls ++ call ∷ []) call.next_cursor (call.next_cursor == 0)

-- The cache behind the calls of one scan: the fields they gave are those it has passed, then its page.
pub record IsCacheOf (seen : List Call) (cache : Cache) : Type 0 where
  pub chain : IsChain seen cache.cursor cache.exhausted
  pub passed : Dict
  pub parts : fields seen ≡ passed ++ cache.entries
  pub base : length passed ≡ cache.base_index

-- Calls that some first replies answer, none of them a failure
pub data IsReplied : List (ℕ → Reply Page) → List Call → Type 0 where
  no_more : {replies : List (ℕ → Reply Page)} → IsReplied replies []
  page_of :
      {reply : ℕ → Reply Page} {replies : List (ℕ → Reply Page)} {calls : List Call} (call : Call)
      → reply call.sent ≡ replied (call.values, call.next_cursor)
      → IsReplied replies calls
      → IsReplied (reply ∷ replies) (call ∷ calls)

-- The cache is one behind the calls made before and those that are answered; it does not begin
-- behind the index, and a success has the index in its page or the whole directory behind it.
pub record IsLoaded (replies : List (ℕ → Reply Page)) (seen : List Call) (index : ℕ)
    (status : Status) (cache : Cache) : Type 0 where
  pub calls : List Call
  pub answered : IsReplied replies calls
  pub cached : IsCacheOf (seen ++ calls) cache
  pub reached : cache.base_index ≤ index
  pub other : status ≢ err Code.end_of_directory
  pub complete :
      status ≡ ok tt → (index < cache.base_index + length cache.entries) ⊎ (cache.exhausted ≡ true)

not_below : (a b : ℕ) → ltb a b ≡ false → b ≤ a
not_below a b h = elim (lt-or-le a b) [
  | inl below ↦ let given = lt→ltb a b below in absurd cc
  | inr above ↦ above
]

module _ (index : ℕ) where
  -- Nothing is read.
  at_rest :
      {replies : List (ℕ → Reply Page)} {seen : List Call} {cache : Cache} (status : Status)
      → IsCacheOf seen cache
      → cache.base_index ≤ index
      → status ≢ err Code.end_of_directory
      → (status ≡ ok tt
          → (index < cache.base_index + length cache.entries) ⊎ (cache.exhausted ≡ true))
      → IsLoaded replies seen index status cache
  at_rest {seen = seen} {cache = cache} status cached reached other complete = record {
    calls = [];
    answered = no_more;
    cached = subst (λ d. IsCacheOf d cache) (sym (append-nil seen)) cached;
    reached = reached;
    other = other;
    complete = complete;
  }

  behind_page :
      {reply : ℕ → Reply Page} {replies : List (ℕ → Reply Page)} {seen : List Call} {cache : Cache}
      {status : Status} (call : Call)
      → reply call.sent ≡ replied (call.values, call.next_cursor)
      → IsLoaded replies (seen ++ call ∷ []) index status cache
      → IsLoaded (reply ∷ replies) seen index status cache
  behind_page {seen = seen} {cache = cache} call same loaded = record {
    calls = call ∷ loaded.calls;
    answered = page_of call same loaded.answered;
    cached =
        subst (λ d. IsCacheOf d cache) (append_assoc seen (call ∷ []) loaded.calls) loaded.cached;
    reached = loaded.reached;
    other = loaded.other;
    complete = loaded.complete;
  }

  -- Between two pages all that has been seen has been passed.
  between :
      {seen : List Call} {cache : Cache}
      → IsChain seen cache.cursor cache.exhausted
      → cache.entries ≡ []
      → length (fields seen) ≡ cache.base_index
      → IsCacheOf seen cache
  between {seen} {cache} chain empty base = record {
    chain = chain;
    passed = fields seen;
    parts = sym (append-nil (fields seen)) ∙ ap (λ d. fields seen ++ d) (sym empty);
    base = base;
  }

  -- A call that returns that has led there.
  returned :
      {replies : List (ℕ → Reply Page)} {seen : List Call} {first second : Status × Cache}
      → some first ≡ some second
      → IsLoaded replies seen index (first.0) (first.1)
      → IsLoaded replies seen index (second.0) (second.1)
  returned {replies} {seen} {first} {second} same loaded =
      let pair : first ≡ second = cc in
      subst (λ (p : Status × Cache). IsLoaded replies seen index (p.0) (p.1)) pair loaded

  answered_by :
      (r : Reply Page) (reply : ℕ → Reply Page) (replies : List (ℕ → Reply Page)) (seen : List Call)
      (cache : Cache) {status : Status} {after : Cache}
      → reply cache.cursor ≡ r
      → cache.exhausted ≡ false
      → IsChain seen cache.cursor cache.exhausted
      → cache.entries ≡ []
      → length (fields seen) ≡ cache.base_index
      → cache.base_index ≤ index
      → ((more : List Call) (behind : Cache)
          → IsChain more behind.cursor behind.exhausted
          → behind.entries ≡ []
          → length (fields more) ≡ behind.base_index
          → behind.base_index ≤ index
          → fetch index replies behind ≡ some (status, after)
          → IsLoaded replies more index status after)
      → with_page index cache (read_only r) (fetch index replies) ≡ some (status, after)
      → IsLoaded (reply ∷ replies) seen index status after
  unfolding with_page read_only
  answered_by refused reply replies seen cache same running chain empty base reached again e =
      returned e (
        at_rest (err Code.io_error) (between chain empty base) reached (λ same. cc)
          (λ done. absurd cc))
  answered_by unreachable reply replies seen cache same running chain empty base reached again e =
      returned e (
        at_rest (err Code.unavailable) (between chain empty base) reached (λ same. cc)
          (λ done. absurd cc))
  answered_by (replied (values, next_cursor)) reply replies seen cache same running chain empty base
        reached again e =
      let call : Call = record {
        sent = cache.cursor;
        values = values;
        next_cursor = next_cursor;
      } in
      let longer : IsChain (seen ++ call ∷ []) next_cursor (cache.exhausted || next_cursor == 0) =
        subst (λ (b : Bool). IsChain (seen ++ call ∷ []) next_cursor (b || next_cursor == 0))
          (sym running) (next_call call (subst (IsChain seen cache.cursor) running chain)) in
      let grown : fields (seen ++ call ∷ []) ≡ fields seen ++ values =
        fields-append seen (call ∷ []) ∙ ap (λ d. fields seen ++ d) (append-nil values) in
      elim (Bool-cases (ltb index (cache.base_index + length values))) [
        | inl here ↦ behind_page call same (
            returned (rw here at e) (
              at_rest (ok tt)
                (record { chain = longer; passed = fields seen; parts = grown; base = base })
                reached (λ same. cc) (λ done. inl (ltb→lt _ _ here))))
        | inr passed_by ↦ behind_page call same (
            again (seen ++ call ∷ []) (passed_page cache (values, next_cursor)) longer empty
              (ap length grown
                ∙ length-append (fields seen) values
                ∙ ap (λ n. n + length values) base)
              (not_below _ _ passed_by) (rw passed_by at e))
      ]

  fetch-IsLoaded :
      (replies : List (ℕ → Reply Page)) (seen : List Call) (cache : Cache) {status : Status}
      {after : Cache}
      → IsChain seen cache.cursor cache.exhausted
      → cache.entries ≡ []
      → length (fields seen) ≡ cache.base_index
      → cache.base_index ≤ index
      → fetch index replies cache ≡ some (status, after)
      → IsLoaded replies seen index status after
  unfolding fetch
  fetch-IsLoaded [] seen cache chain empty base reached fetched =
      elim (Bool-cases cache.exhausted) [
        | inl over ↦
            returned (simp over at fetched)
              (at_rest (ok tt) (between chain empty base) reached (λ same. cc) (λ done. inr over))
        | inr more ↦ let waiting = rw more at fetched in absurd cc
      ]
  fetch-IsLoaded (reply ∷ replies) seen cache chain empty base reached fetched =
      elim (Bool-cases cache.exhausted) [
        | inl over ↦
            returned (simp over at fetched)
              (at_rest (ok tt) (between chain empty base) reached (λ same. cc) (λ done. inr over))
        | inr more ↦
            answered_by (reply cache.cursor) reply replies seen cache refl more chain empty base
              reached (λ later behind. fetch-IsLoaded replies later behind) (simp more at fetched)
      ]

  load-IsLoaded :
      (replies : List (ℕ → Reply Page)) (seen : List Call) (cache : Cache) {status : Status}
      {after : Cache}
      → IsCacheOf seen cache
      → cache.base_index ≤ index
      → load index replies cache ≡ some (status, after)
      → IsLoaded replies seen index status after
  unfolding load
  load-IsLoaded replies seen cache cached reached loaded =
      elim (Bool-cases (ltb index (cache.base_index + length cache.entries))) [
        | inl here ↦
            returned (rw (load, here) at loaded)
              (at_rest (ok tt) cached reached (λ same. cc) (λ done. inl (ltb→lt _ _ here)))
        | inr beyond ↦
            fetch-IsLoaded replies seen _ cached.chain refl
              (ap length cached.parts
                ∙ length-append cached.passed cache.entries
                ∙ ap (λ n. n + length cache.entries) cached.base)
              (not_below _ _ beyond) (rw (load, beyond) at loaded)
      ]

-- What has been seen still counts, unless the index lies before the page: then the cursor is 0 again.
abbrev pub seen_before : ℕ → List Call → Cache → List Call
seen_before index seen cache = if ltb index cache.base_index then [] else seen

pub ensure_loaded-IsLoaded :
    (index : ℕ) (replies : List (ℕ → Reply Page)) (seen : List Call) (cache : Cache)
    {status : Status} {after : Cache}
    → IsCacheOf seen cache
    → ensure_loaded index replies cache ≡ some (status, after)
    → IsLoaded replies (seen_before index seen cache) index status after
unfolding ensure_loaded
ensure_loaded-IsLoaded index replies seen cache cached loaded =
    elim (Bool-cases (ltb index cache.base_index)) [
      | inl before ↦ rw before (
          load-IsLoaded index replies [] empty_cache
            (record { chain = none_yet; passed = []; parts = refl; base = refl }) (omega arith)
            (rw (ensure_loaded, before) at loaded))
      | inr within ↦ rw within (
          load-IsLoaded index replies seen cache cached (not_below _ _ within)
            (rw (ensure_loaded, within) at loaded))
    ]
