-- ===== src/Engine/Directory.antt =====
-- src/metadata/redis/RedisDirIterator.cpp: the entries of a directory, page by page behind the prefix
-- that `OpenDir` gives. A reply to HSCAN depends on the cursor that is sent; the replies come in the
-- order of the calls, and a loop that has used them up waits for the next, and has no result yet. A directory has less than 2^64 entries.
pub mod Loaded
pub mod Shown
pub mod Ended
mod Tests
use sword_fs.Prelude.{
  ℕ, ◌+◌, ◌-◌, ◌%◌, ◌^◌, Bool, true, false, ◌||◌, not, ltb, ◌==◌, if◌then◌else◌, Option, none, some,
  List, [], ◌∷◌, length, get_elem?,
}
use sword_fs.Prelude.Text.{Text, Dict, same_text}
use sword_fs.Status.{Result, ok, err, Code, Status, ◌>>=◌, ◌>>◌, fail_if}
use sword_fs.Record.{Words, Entry, parse_entry}
use sword_fs.Engine.Client.{Reply, read_only}
use sword_fs.Engine.Scans.{Page}

-- `RedisDirEntryCache`: one page, and where in the directory it begins
pub record Cache : Type 0 where
  pub entries : Dict
  pub base_index : ℕ
  pub cursor : ℕ
  pub exhausted : Bool

-- `Reset`
abbrev pub empty_cache : Cache
empty_cache = record { entries = []; base_index = 0; cursor = 0; exhausted = false }

-- The cache behind a reply whose page has the index, and behind one that lies before it
abbrev pub kept_page : Cache → Page → Cache
kept_page cache (values, next_cursor) = record {
  entries = values;
  base_index = cache.base_index;
  cursor = next_cursor;
  exhausted = cache.exhausted || next_cursor == 0;
}

abbrev pub passed_page : Cache → Page → Cache
passed_page cache (values, next_cursor) = record {
  entries = cache.entries;
  base_index = cache.base_index + length values;
  cursor = next_cursor;
  exhausted = cache.exhausted || next_cursor == 0;
}

unfoldable pub with_page :
    ℕ → Cache → Result Page → (Cache → Option (Status × Cache)) → Option (Status × Cache)
with_page index cache (err code) next = some (err code, cache)
with_page index cache (ok page) next =
    if ltb index (cache.base_index + length (page.0))
    then some (ok tt, kept_page cache page)
    else next (passed_page cache page)

-- `while (!exhausted_)`
unfoldable pub fetch : ℕ → List (ℕ → Reply Page) → Cache → Option (Status × Cache)
fetch index [] cache = if cache.exhausted then some (ok tt, cache) else none
fetch index (reply ∷ replies) cache =
    if cache.exhausted
    then some (ok tt, cache)
    else with_page index cache (read_only (reply cache.cursor)) (fetch index replies)

abbrev pub rewound : ℕ → Cache → Cache
rewound index cache = if ltb index cache.base_index then empty_cache else cache

-- `EnsureLoaded`, behind the reset
unfoldable pub load : ℕ → List (ℕ → Reply Page) → Cache → Option (Status × Cache)
load index replies cache =
    if ltb index (cache.base_index + length cache.entries)
    then some (ok tt, cache)
    else fetch index replies (record {
      entries = [];
      base_index = cache.base_index + length cache.entries;
      cursor = cache.cursor;
      exhausted = cache.exhausted;
    })

unfoldable pub ensure_loaded : ℕ → List (ℕ → Reply Page) → Cache → Option (Status × Cache)
ensure_loaded index replies cache = load index replies (rewound index cache)

module _ (words : Words) where
  -- The entry in a field of the hash, which is its name; none is behind the end.
  unfoldable pub read_field : Option (Text × Text) → Result Entry
  read_field none = err Code.end_of_directory
  read_field (some (name, value)) = do
    entry ← parse_entry words value
    fail_if (not (same_text entry.name name)) Code.malformed
    ok entry

  unfoldable pub got : ℕ → Option (Status × Cache) → Option (Result Entry × Cache)
  got index none = none
  got index (some (err code, cache)) = some (err code, cache)
  got index (some (ok done, cache)) =
      some (read_field (get_elem? cache.entries (index - cache.base_index)), cache)

  -- `Get`
  unfoldable pub get : ℕ → List (ℕ → Reply Page) → Cache → Option (Result Entry × Cache)
  get index replies cache = got index (ensure_loaded index replies cache)

pub record Iterator : Type 0 where
  pub cache : Cache
  pub prefix_entries : List Entry
  pub position : ℕ
  pub pending_next : Option ℕ

-- `Seek`
unfoldable pub seek : ℕ → Iterator → Iterator
seek cookie iterator = record iterator { position = cookie; pending_next = none }

-- The cookie of the next entry; the sum is one of uint64_t.
abbrev pub next_cookie : Iterator → ℕ
next_cookie iterator = (iterator.position + 1) % 2 ^ 64

abbrev pub shown : Iterator → Cache → Result Entry → Result (Entry × ℕ) × Iterator
shown iterator cache (err code) = (err code, record iterator { cache = cache })
shown iterator cache (ok entry) = (
  ok (entry, next_cookie iterator),
  record iterator { cache = cache; pending_next = some (next_cookie iterator) },
)

module _ (words : Words) where
  unfoldable pub shown_from :
      Iterator → Option (Result Entry × Cache) → Option (Result (Entry × ℕ) × Iterator)
  shown_from iterator none = none
  shown_from iterator (some (result, cache)) = some (shown iterator cache result)

  -- An entry of the prefix, or one of the directory behind it
  unfoldable pub peek_at :
      List (ℕ → Reply Page) → Iterator → Option Entry → Option (Result (Entry × ℕ) × Iterator)
  peek_at replies iterator (some entry) = some (shown iterator iterator.cache (ok entry))
  peek_at replies iterator none =
      shown_from iterator
        (get words (iterator.position - length iterator.prefix_entries) replies iterator.cache)

  unfoldable pub peek_unless_pending :
      List (ℕ → Reply Page) → Iterator → Option ℕ → Option (Result (Entry × ℕ) × Iterator)
  peek_unless_pending replies iterator (some next) = some (err Code.invalid_argument, iterator)
  peek_unless_pending replies iterator none =
      peek_at replies iterator (get_elem? iterator.prefix_entries iterator.position)

  -- `Peek`
  unfoldable pub peek : List (ℕ → Reply Page) → Iterator → Option (Result (Entry × ℕ) × Iterator)
  peek replies iterator = peek_unless_pending replies iterator iterator.pending_next

-- `Advance`; a process that has not peeked before is ended.
abbrev pub advanced_to : Iterator → Option ℕ → Option Iterator
advanced_to iterator none = none
advanced_to iterator (some next) = some (record iterator { position = next; pending_next = none })

unfoldable pub advance : Iterator → Option Iterator
advance iterator = advanced_to iterator iterator.pending_next
