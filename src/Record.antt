-- ===== src/Record.antt =====
-- src/metadata/types/BufCodec.cpp, Entry.cpp, Reclaim.cpp, Inode.cpp and Volume.cpp: the records that the
-- metadata store holds. A decoder is the bytes that are left of it; one that has failed only ever
-- leads to `Malformed`, so that its later reads are left out. The words that folly reads and writes
-- in little endian are the interface `Words`.
pub mod Inodes
pub mod Entries
pub mod Attributes
pub mod InodeTrip
pub mod Volumes
pub mod VolumeTrip
pub mod LittleEndian
mod Tests
use sword_fs.Prelude.{
  ℕ, zero, suc, ◌+◌, ◌*◌, ◌/◌, ◌^◌, ◌<◌, Bool, true, false, ◌||◌, ◌&&◌, not, ltb, leb, ◌==◌,
  if◌then◌else◌, Option, none, some, List, [], ◌∷◌, ◌++◌, length, take, drop, ◌≡◌, refl,
}
use sword_fs.Prelude.Int.{ℤ, pos, negsuc, is_negative}
use sword_fs.Prelude.Text.{Text, Dict, is_empty, same_text, lookup, assign}
use sword_fs.Status.{Result, ok, err, Code, ◌>>=◌, ◌>>◌, fail_if}
use sword_fs.Inode.{InodeId, Attr, Inode, has_only_supported_inode_flags}

abbrev pub IsInt64 : ℤ → Type 0
IsInt64 (pos n) = n < 2 ^ 63
IsInt64 (negsuc n) = n < 2 ^ 63

-- `Appender::writeLE` and `Cursor::tryReadLE` of three types.
pub record Words : Type 0 where
  pub put32 : ℕ → Text
  pub put64 : ℕ → Text
  pub put_int : ℤ → Text
  pub get32 : Text → Option (ℕ × Text)
  pub get64 : Text → Option (ℕ × Text)
  pub get_int : Text → Option (ℤ × Text)
  pub get-put32 : (n : ℕ) (rest : Text) → n < 2 ^ 32 → get32 (put32 n ++ rest) ≡ some (n, rest)
  pub get-put64 : (n : ℕ) (rest : Text) → n < 2 ^ 64 → get64 (put64 n ++ rest) ≡ some (n, rest)
  pub get-put_int : (i : ℤ) (rest : Text) → IsInt64 i → get_int (put_int i ++ rest) ≡ some (i, rest)

-- A decoding step: what it reads and the bytes behind it.
abbrev pub Decoder {ℓ} : Type ℓ → Type ℓ
Decoder A = Text → Option (A × Text)

module _ {ℓ κ} {A : Type ℓ} {B : Type κ} where
  infixl 5 ◌then_read◌
  abbrev pub ◌then_read◌ : Option (A × Text) → (A → Decoder B) → Option (B × Text)
  none then_read next = none
  some (a, rest) then_read next = next a rest

abbrev pub accept {ℓ} : {A : Type ℓ} → Bool → A → Decoder A
accept true a rest = some (a, rest)
accept false a rest = none

-- `Done()`, and the verdict of a `ParseFrom`
unfoldable pub finish {ℓ} : {A : Type ℓ} → (A → Bool) → Option (A × Text) → Result A
finish valid none = err Code.malformed
finish valid (some (a, rest)) = if valid a && is_empty rest then ok a else err Code.malformed

abbrev pub check : Bool → Decoder (Unit {0})
check passed = accept passed tt

-- The numbers of `RecordType`
pub data RecordType : Type 0 where
  volume_record inode_record entry_record reclaim_record : RecordType
  pending_delete_record cow_typed_cleanup_record : RecordType

abbrev pub number : RecordType → ℕ
number volume_record = 1
number inode_record = 2
number entry_record = 3
number reclaim_record = 5
number pending_delete_record = 6
number cow_typed_cleanup_record = 8

-- `kMagic`, "SWFSMETA", and `kSchemaVersion`
abbrev pub magic : Text
magic = 83 ∷ 87 ∷ 70 ∷ 83 ∷ 77 ∷ 69 ∷ 84 ∷ 65 ∷ []

abbrev pub schema_version : ℕ
schema_version = 1

pub record Entry : Type 0 where
  pub name : Text
  pub type : ℕ
  pub ino : InodeId

pub record ReclaimWork : Type 0 where
  pub ino : InodeId
  pub payload : Text

pub record PendingDelete : Type 0 where
  pub id : Text
  pub payload : Text

module _ (words : Words) where
  abbrev pub u32 : ℕ → Text → Text
  u32 value behind = words.put32 value ++ behind

  abbrev pub u64 : ℕ → Text → Text
  u64 value behind = words.put64 value ++ behind

  abbrev pub i64 : ℤ → Text → Text
  i64 value behind = words.put_int value ++ behind

  -- `BufEncoder::String`, in front of what is written later
  unfoldable pub put_string : Text → Text → Text
  put_string value behind = u64 (length value) (value ++ behind)

  unfoldable pub put_header : RecordType → Text → Text
  put_header type behind = put_string magic (u32 schema_version (u32 (number type) behind))

  -- `BufDecoder::String`: `canAdvance`, and `readFixedString`
  unfoldable pub get_string : Decoder Text
  get_string bytes = words.get64 bytes then_read λ size rest.
      if leb size (length rest) then some (take size rest, drop size rest) else none

  unfoldable pub get_header : RecordType → Decoder (Unit {0})
  get_header type bytes = get_string bytes then_read λ found bytes.
      check (same_text found magic) bytes then_read λ _ bytes.
      words.get32 bytes then_read λ version bytes.
      check (version == schema_version) bytes then_read λ _ bytes.
      words.get32 bytes then_read λ found bytes. check (found == number type) bytes

  unfoldable pub serialize_entry : Entry → Result Text
  serialize_entry entry = do
    fail_if (is_empty entry.name || entry.ino == 0) Code.invalid_argument
    ok (put_header entry_record (put_string entry.name (u32 entry.type (u64 entry.ino []))))

  abbrev pub is_entry : Entry → Bool
  is_entry entry = not (is_empty entry.name || entry.ino == 0)

  unfoldable pub parse_entry : Text → Result Entry
  parse_entry bytes = finish is_entry (
      get_header entry_record bytes then_read λ _ bytes. get_string bytes then_read λ name bytes.
      words.get32 bytes then_read λ type bytes. words.get64 bytes then_read λ ino bytes.
      some (record { name = name; type = type; ino = ino }, bytes))

  unfoldable pub serialize_reclaim : ReclaimWork → Result Text
  serialize_reclaim work = do
    fail_if (work.ino == 0 || is_empty work.payload) Code.invalid_argument
    ok (put_header reclaim_record (u64 work.ino (put_string work.payload [])))

  abbrev pub is_reclaim : ReclaimWork → Bool
  is_reclaim work = not (work.ino == 0 || is_empty work.payload)

  unfoldable pub parse_reclaim : Text → Result ReclaimWork
  parse_reclaim bytes = finish is_reclaim (
      get_header reclaim_record bytes then_read λ _ bytes. words.get64 bytes then_read λ ino bytes.
      get_string bytes then_read λ payload bytes.
      some (record { ino = ino; payload = payload }, bytes))

  unfoldable pub serialize_pending_delete : PendingDelete → Result Text
  serialize_pending_delete pending = do
    fail_if (is_empty pending.id || is_empty pending.payload) Code.invalid_argument
    ok (put_header pending_delete_record (put_string pending.id (put_string pending.payload [])))

  abbrev pub is_pending_delete : PendingDelete → Bool
  is_pending_delete pending = not (is_empty pending.id || is_empty pending.payload)

  unfoldable pub parse_pending_delete : Text → Result PendingDelete
  parse_pending_delete bytes = finish is_pending_delete (
      get_header pending_delete_record bytes then_read λ _ bytes.
      get_string bytes then_read λ id bytes. get_string bytes then_read λ payload bytes.
      some (record { id = id; payload = payload }, bytes))
