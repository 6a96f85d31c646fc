-- ===== src/Record/VolumeTrip.antt =====
-- The record of a volume, written and read again, and the chunk types behind their names.
use sword_fs.Prelude.{
  ◌^◌, ◌<◌, Bool, true, false, leb, not, ◌==◌, some, [], length, ◌≡◌, refl, arith, inl, inr,
  Bool-cases, subst,
}
use sword_fs.Prelude.Text.{Text, same_text, same_text_inv}
use sword_fs.Status.{ok, ok_injective}
use sword_fs.Record.{Words, finish, u32, u64, put_string, volume_record}
use sword_fs.Record.Entries.{get_string-put_string, get_header-put_header}
use sword_fs.Record.Volumes.{
  ChunkType, cow, chunk_slice, redis_cache, chunk_type_number, known_chunk_type, chunk_type_name,
  parse_chunk_type, Volume, is_volume, flag_number, serialize_volume, parse_volume,
}

known_chunk_type-chunk_type_number :
    (type : ChunkType) → known_chunk_type (chunk_type_number type) ≡ some type
unfolding known_chunk_type
known_chunk_type-chunk_type_number cow = refl
known_chunk_type-chunk_type_number chunk_slice = refl
known_chunk_type-chunk_type_number redis_cache = refl

chunk_type_number_small : (type : ChunkType) → chunk_type_number type < 2 ^ 32
chunk_type_number_small cow = omega arith
chunk_type_number_small chunk_slice = omega arith
chunk_type_number_small redis_cache = omega arith

flag_number_small : (flag : Bool) → flag_number flag < 2 ^ 32
flag_number_small true = omega arith
flag_number_small false = omega arith

flag_number_known : (flag : Bool) → leb (flag_number flag) 1 ≡ true
flag_number_known true = refl
flag_number_known false = refl

flag_number_set : (flag : Bool) → not (flag_number flag == 0) ≡ flag
flag_number_set true = refl
flag_number_set false = refl

pub record IsShortVolume (volume : Volume) : Type 0 where
  pub name_width : length volume.name < 2 ^ 64
  pub storage_width : length volume.storage < 2 ^ 64
  pub bucket_width : length volume.bucket < 2 ^ 64
  pub region_width : length volume.region < 2 ^ 64
  pub chunk_size_width : volume.chunk_size < 2 ^ 64

-- A volume with a name, a chunk size, and a data engine exactly where it has a bucket, is read from
-- the record that is written for it. Its fields have their widths.
pub parse_volume-serialize_volume :
    (words : Words) (volume : Volume)
    → IsShortVolume volume
    → is_volume volume ≡ true
    → parse_volume words (serialize_volume words volume) ≡ ok volume
unfolding parse_volume serialize_volume finish
parse_volume-serialize_volume words volume widths valid =
    let flag = u32 words (flag_number volume.enable_posix_acl) [] in
    let type = u32 words (chunk_type_number volume.chunk_type) flag in
    let size = u64 words volume.chunk_size type in
    let region = put_string words volume.region size in
    let bucket = put_string words volume.bucket region in
    let storage = put_string words volume.storage bucket in
    rw (
      get_header-put_header words volume_record (put_string words volume.name storage),
      get_string-put_string words volume.name storage widths.name_width,
      get_string-put_string words volume.storage bucket widths.storage_width,
      get_string-put_string words volume.bucket region widths.bucket_width,
      get_string-put_string words volume.region size widths.region_width,
      words.get-put64 volume.chunk_size type widths.chunk_size_width,
      words.get-put32 (chunk_type_number volume.chunk_type) flag
          (chunk_type_number_small volume.chunk_type),
      known_chunk_type-chunk_type_number volume.chunk_type,
      words.get-put32 (flag_number volume.enable_posix_acl) []
          (flag_number_small volume.enable_posix_acl),
      flag_number_known volume.enable_posix_acl,
      flag_number_set volume.enable_posix_acl,
      valid,
    )

-- A chunk type is read from its name,
pub parse_chunk_type-chunk_type_name :
    (type : ChunkType) → parse_chunk_type (chunk_type_name type) ≡ ok type
unfolding parse_chunk_type same_text
parse_chunk_type-chunk_type_name cow = refl
parse_chunk_type-chunk_type_name chunk_slice = refl
parse_chunk_type-chunk_type_name redis_cache = refl

-- and from no other.
pub parse_chunk_type-eq-ok :
    (name : Text) {type : ChunkType} → parse_chunk_type name ≡ ok type → name ≡ chunk_type_name type
unfolding parse_chunk_type
parse_chunk_type-eq-ok name {type} e = elim (Bool-cases (same_text name (chunk_type_name cow))) [
  | inl first ↦
      let found = rw first at e in
      subst (λ t. name ≡ chunk_type_name t) (ok_injective found) (same_text_inv name _ first)
  | inr past_cow ↦ elim (Bool-cases (same_text name (chunk_type_name chunk_slice))) [
    | inl second ↦
        let found = rw (past_cow, second) at e in
        subst (λ t. name ≡ chunk_type_name t) (ok_injective found) (same_text_inv name _ second)
    | inr past_slice ↦ elim (Bool-cases (same_text name (chunk_type_name redis_cache))) [
      | inl third ↦
          let found = rw (past_cow, past_slice, third) at e in
          subst (λ t. name ≡ chunk_type_name t) (ok_injective found) (same_text_inv name _ third)
      | inr none_left ↦ let failed = rw (past_cow, past_slice, none_left) at e in absurd cc
    ]
  ]
]
