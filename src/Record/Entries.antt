-- ===== src/Record/Entries.antt =====
-- Directory entries and the records of reclaim work, written and read again.
use sword_fs.Prelude.{
  ◌^◌, ◌<◌, ◌≤◌, ◌||◌, ◌==◌, some, [], ◌∷◌, ◌++◌, length, take-append, drop-append, ==_refl, ◌≡◌,
  sym, arith, le→leb,
}
use sword_fs.Prelude.Text.{Text, is_empty, same_text}
use sword_fs.Status.{ok, Code, fail_if, fail_if-eq-ok, >>-eq-ok, ok_injective}
use sword_fs.Record.{
  Words, RecordType, number, magic, schema_version, Entry, ReclaimWork, PendingDelete, u32, u64,
  put_string, get_string, put_header, get_header, finish, inode_record, entry_record,
  reclaim_record, volume_record, cow_typed_cleanup_record, serialize_entry, parse_entry,
  serialize_reclaim, parse_reclaim, serialize_pending_delete, parse_pending_delete,
  pending_delete_record,
}

length-front : (a b : Text) → length a ≤ length (a ++ b)
length-front [] b = omega arith
length-front (x ∷ a) b = omega (arith, length-front a b)

number_small : (type : RecordType) → number type < 2 ^ 32
number_small volume_record = omega arith
number_small inode_record = omega arith
number_small entry_record = omega arith
number_small reclaim_record = omega arith
number_small pending_delete_record = omega arith
number_small cow_typed_cleanup_record = omega arith

module _ (words : Words) where
  -- A string whose length is a machine word.
  pub get_string-put_string :
      (value behind : Text)
      → length value < 2 ^ 64
      → get_string words (put_string words value behind) ≡ some (value, behind)
  unfolding get_string put_string
  get_string-put_string value behind short = rw (
    words.get-put64 (length value) (value ++ behind) short,
    le→leb (length value) (length (value ++ behind)) (length-front value behind),
    take-append value behind,
    drop-append value behind,
  )

  pub get_header-put_header :
      (type : RecordType) (behind : Text)
      → get_header words type (put_header words type behind) ≡ some (tt, behind)
  unfolding get_header put_header same_text
  get_header-put_header type behind = rw (
    get_string-put_string magic (u32 words schema_version (u32 words (number type) behind))
        (omega arith),
    words.get-put32 schema_version (u32 words (number type) behind) (omega arith),
    words.get-put32 (number type) behind (number_small type),
    ==_refl (number type),
  )

  pub record IsShortEntry (entry : Entry) : Type 0 where
    pub name_width : length entry.name < 2 ^ 64
    pub type_width : entry.type < 2 ^ 32
    pub ino_width : entry.ino < 2 ^ 64

  -- An entry whose fields have their widths is read from the record that is written for it.
  pub parse_entry-serialize_entry :
      (entry : Entry) {bytes : Text}
      → IsShortEntry entry
      → serialize_entry words entry ≡ ok bytes
      → parse_entry words bytes ≡ ok entry
  unfolding parse_entry serialize_entry finish
  parse_entry-serialize_entry entry widths written =
      let (named, same) =
        >>-eq-ok (fail_if (is_empty entry.name || entry.ino == 0) Code.invalid_argument) _
          written in
      let valid =
        fail_if-eq-ok (is_empty entry.name || entry.ino == 0) Code.invalid_argument named in
      rw (
        sym (ok_injective same),
        get_header-put_header entry_record
            (put_string words entry.name (u32 words entry.type (u64 words entry.ino []))),
        get_string-put_string entry.name (u32 words entry.type (u64 words entry.ino []))
            widths.name_width,
        words.get-put32 entry.type (u64 words entry.ino []) widths.type_width,
        words.get-put64 entry.ino [] widths.ino_width,
        valid,
      )

  -- The same for the work that a reclaim hands over,
  pub parse_reclaim-serialize_reclaim :
      (work : ReclaimWork) {bytes : Text}
      → work.ino < 2 ^ 64
      → length work.payload < 2 ^ 64
      → serialize_reclaim words work ≡ ok bytes
      → parse_reclaim words bytes ≡ ok work
  unfolding parse_reclaim serialize_reclaim finish
  parse_reclaim-serialize_reclaim work ino_width payload_width written =
      let (named, same) =
        >>-eq-ok (fail_if (work.ino == 0 || is_empty work.payload) Code.invalid_argument) _
          written in
      let valid =
        fail_if-eq-ok (work.ino == 0 || is_empty work.payload) Code.invalid_argument named in
      rw (
        sym (ok_injective same),
        get_header-put_header reclaim_record
            (u64 words work.ino (put_string words work.payload [])),
        words.get-put64 work.ino (put_string words work.payload []) ino_width,
        get_string-put_string work.payload [] payload_width,
        valid,
      )

  -- and for an object to delete.
  pub parse_pending_delete-serialize_pending_delete :
      (pending : PendingDelete) {bytes : Text}
      → length pending.id < 2 ^ 64
      → length pending.payload < 2 ^ 64
      → serialize_pending_delete words pending ≡ ok bytes
      → parse_pending_delete words bytes ≡ ok pending
  unfolding parse_pending_delete serialize_pending_delete finish
  parse_pending_delete-serialize_pending_delete pending id_width payload_width written =
      let (named, same) =
        >>-eq-ok (fail_if (is_empty pending.id || is_empty pending.payload) Code.invalid_argument) _
          written in
      let valid =
        fail_if-eq-ok (is_empty pending.id || is_empty pending.payload) Code.invalid_argument
          named in
      rw (
        sym (ok_injective same),
        get_header-put_header pending_delete_record
            (put_string words pending.id (put_string words pending.payload [])),
        get_string-put_string pending.id (put_string words pending.payload []) id_width,
        get_string-put_string pending.payload [] payload_width,
        valid,
      )
