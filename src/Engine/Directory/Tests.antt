-- ===== src/Engine/Directory/Tests.antt =====
-- A directory of two entries, in two pages, behind the prefix of `OpenDir`.
use sword_fs.Prelude.{ℕ, ◌==◌, if◌then◌else◌, true, none, some, List, [], ◌∷◌, ◌≡◌, refl}
use sword_fs.Prelude.Text.{Text, same_text}
use sword_fs.Status.{Result, ok, err, Code}
use sword_fs.Record.{
  Entry, serialize_entry, parse_entry, put_string, put_header, get_string, get_header, finish,
}
use sword_fs.Record.LittleEndian.{little_endian, get_four, get_eight}
use sword_fs.Engine.Client.{Reply, replied, read_only}
use sword_fs.Engine.Scans.{Page}
use sword_fs.Engine.Directory.{
  empty_cache, with_page, fetch, load, ensure_loaded, read_field, got, get, Iterator, shown_from,
  peek_at, peek_unless_pending, peek,
}
use sword_fs.Engine.Directory.Ended.{IsAtEnd, peek-IsAtEnd}
use sword_fs.Engine.Directory.Loaded.{none_yet}
use sword_fs.Engine.Directory.Shown.{IsShown, peek-IsShown}

abbrev entry : ℕ → ℕ → Entry
entry letter ino = record { name = letter ∷ []; type = 8; ino = ino }

abbrev bytes_of : Result Text → Text
bytes_of (ok bytes) = bytes
bytes_of (err code) = []

-- The server gives the first page to the cursor 0, and the other one to any other.
abbrev scanned : ℕ → Reply Page
scanned cursor =
    if cursor == 0
    then replied ((97 ∷ [], bytes_of (serialize_entry little_endian (entry 97 3))) ∷ [], 5)
    else replied ((98 ∷ [], bytes_of (serialize_entry little_endian (entry 98 4))) ∷ [], 0)

abbrev replies : List (ℕ → Reply Page)
replies = scanned ∷ scanned ∷ []

abbrev iterator : Iterator
iterator = record {
  cache = empty_cache;
  prefix_entries = entry 46 1 ∷ [];
  position = 2;
  pending_next = none;
}

abbrev after : Iterator
after = record {
  cache = record {
    entries = (98 ∷ [], bytes_of (serialize_entry little_endian (entry 98 4))) ∷ [];
    base_index = 1;
    cursor = 0;
    exhausted = true;
  };
  prefix_entries = entry 46 1 ∷ [];
  position = 2;
  pending_next = some 3;
}

second : peek little_endian replies iterator ≡ some (ok (entry 98 4, 3), after)
unfolding peek peek_unless_pending peek_at shown_from get got ensure_loaded load fetch with_page
    read_only read_field parse_entry serialize_entry get_header get_string put_header put_string
    finish get_four get_eight same_text little_endian
second = refl

peek-IsShown_example : IsShown little_endian replies [] iterator (entry 98 4) 3 after
peek-IsShown_example =
    peek-IsShown little_endian replies iterator [] (entry 98 4) 3 after
      (record { chain = none_yet; passed = []; parts = refl; base = refl }) second

-- One place further there is nothing.
abbrev at_end : Iterator
at_end = record {
  cache = record { entries = []; base_index = 2; cursor = 0; exhausted = true };
  prefix_entries = entry 46 1 ∷ [];
  position = 3;
  pending_next = none;
}

third :
    peek little_endian replies (record iterator { position = 3 })
    ≡ some (err Code.end_of_directory, at_end)
unfolding peek peek_unless_pending peek_at shown_from get got ensure_loaded load fetch with_page
    read_only read_field
third = refl

peek-IsAtEnd_example : IsAtEnd little_endian replies [] (record iterator { position = 3 }) at_end
peek-IsAtEnd_example =
    peek-IsAtEnd little_endian replies (record iterator { position = 3 }) [] at_end
      (record { chain = none_yet; passed = []; parts = refl; base = refl }) third
