-- ===== src/Record/Volumes.antt =====
-- src/metadata/types/Volume.cpp: the record of a volume, and the names of the chunk types.
use sword_fs.Prelude.{
  ℕ, Bool, true, false, ◌||◌, ◌&&◌, not, leb, ◌==◌, if◌then◌else◌, Option, none, some, [], ◌∷◌,
}
use sword_fs.Prelude.Text.{Text, is_empty, same_text}
use sword_fs.Status.{Result, ok, err, Code}
use sword_fs.Record.{
  Words, Decoder, ◌then_read◌, finish, check, u32, u64, put_string, get_string, put_header,
  get_header, volume_record,
}

pub data ChunkType : Type 0 where
  cow chunk_slice redis_cache : ChunkType

abbrev pub chunk_type_number : ChunkType → ℕ
chunk_type_number cow = 1
chunk_type_number chunk_slice = 2
chunk_type_number redis_cache = 3

-- The cast of a number to the type, and `IsKnownChunkType` of it
unfoldable pub known_chunk_type : ℕ → Option ChunkType
known_chunk_type code =
    if code == 1
    then some cow
    else (if code == 2 then some chunk_slice else (if code == 3 then some redis_cache else none))

-- "cow", "chunk_slice" and "redis_cache"
abbrev pub chunk_type_name : ChunkType → Text
chunk_type_name cow = 99 ∷ 111 ∷ 119 ∷ []
chunk_type_name chunk_slice = 99 ∷ 104 ∷ 117 ∷ 110 ∷ 107 ∷ 95 ∷ 115 ∷ 108 ∷ 105 ∷ 99 ∷ 101 ∷ []
chunk_type_name redis_cache = 114 ∷ 101 ∷ 100 ∷ 105 ∷ 115 ∷ 95 ∷ 99 ∷ 97 ∷ 99 ∷ 104 ∷ 101 ∷ []

unfoldable pub parse_chunk_type : Text → Result ChunkType
parse_chunk_type name =
    if same_text name (chunk_type_name cow)
    then ok cow
    else (if same_text name (chunk_type_name chunk_slice)
        then ok chunk_slice
        else (if same_text name (chunk_type_name redis_cache)
            then ok redis_cache
            else err Code.invalid_argument))

pub record Volume : Type 0 where
  pub name : Text
  pub storage : Text
  pub bucket : Text
  pub region : Text
  pub chunk_size : ℕ
  pub chunk_type : ChunkType
  pub enable_posix_acl : Bool

-- A name and a chunk size, and a data engine exactly where there is a location for it
abbrev pub is_volume : Volume → Bool
is_volume volume =
    not (is_empty volume.name || volume.chunk_size == 0)
    && (if is_empty volume.storage then is_empty volume.bucket else not (is_empty volume.bucket))

abbrev pub flag_number : Bool → ℕ
flag_number true = 1
flag_number false = 0

abbrev pub accept_chunk_type : Option ChunkType → Decoder ChunkType
accept_chunk_type none bytes = none
accept_chunk_type (some type) bytes = some (type, bytes)

module _ (words : Words) where
  unfoldable pub serialize_volume : Volume → Text
  serialize_volume volume = put_header words volume_record (
      put_string words volume.name (
        put_string words volume.storage (
          put_string words volume.bucket (
            put_string words volume.region (
              u64 words volume.chunk_size (
                u32 words (chunk_type_number volume.chunk_type)
                  (u32 words (flag_number volume.enable_posix_acl) [])))))))

  unfoldable pub parse_volume : Text → Result Volume
  parse_volume bytes = finish is_volume (
      get_header words volume_record bytes then_read λ _ bytes.
      get_string words bytes then_read λ name bytes.
      get_string words bytes then_read λ storage bytes.
      get_string words bytes then_read λ bucket bytes.
      get_string words bytes then_read λ region bytes.
      words.get64 bytes then_read λ chunk_size bytes. words.get32 bytes then_read λ code bytes.
      accept_chunk_type (known_chunk_type code) bytes then_read λ type bytes.
      words.get32 bytes then_read λ flag bytes. check (leb flag 1) bytes then_read λ _ bytes. some (
        record {
          name = name;
          storage = storage;
          bucket = bucket;
          region = region;
          chunk_size = chunk_size;
          chunk_type = type;
          enable_posix_acl = not (flag == 0);
        },
        bytes,
      ))
