-- ===== src/Engine/Volumes.antt =====
-- src/metadata/redis/RedisMetaOps.cpp: a volume is formatted, loaded, and given its chunk mechanism.
use sword_fs.Prelude.{
  ℕ, ◌+◌, ◌-◌, ◌*◌, ◌^◌, Bool, ◌||◌, not, ltb, ◌==◌, if◌then◌else◌, Option, none, some, [], ◌∷◌,
}
use sword_fs.Prelude.Int.{ℤ}
use sword_fs.Prelude.Text.{Text, same_text}
use sword_fs.Status.{Result, ok, err, Code, Status, fail_if}
use sword_fs.Status
use sword_fs.Inode.{InodeId, Inode, new_attr}
use sword_fs.Record.{Words}
use sword_fs.Record.Inodes.{serialize_inode}
use sword_fs.Record.Volumes.{
  Volume, ChunkType, cow, chunk_slice, redis_cache, chunk_type_number, serialize_volume,
  parse_volume,
}
use sword_fs.Meta.{
  Host, Action, inode, format, next_ino, inode_count, owner_generation, next_chunk_id,
  next_slice_id, set, lift, attempt, get, write, ◌>>=◌, ◌>>◌,
}
use sword_fs.Meta.Decimal.{to_string}
use sword_fs.Meta.Inodes.{is_not_found}
use sword_fs.Engine.Client.{Reply}
use sword_fs.Engine.Client
use sword_fs.Engine.Transact.{Round, Transacted, transact}
use sword_fs.Engine.Calls.{behind}

abbrev pub root_inode_id : InodeId
root_inode_id = 1

-- `S_IFDIR | 0755`, with the user and the group of the process
unfoldable pub root_inode : ℤ → ℕ → ℕ → Inode
root_inode now uid gid = record {
  ino = root_inode_id;
  attr = new_attr now root_inode_id (4 * 2 ^ 12 + 493) uid gid;
  parent_ino = root_inode_id;
  symlink_target = [];
  xattrs = [];
}

-- What the read of the volume's key must end with
abbrev pub unformatted : Result Text → Status
unformatted (ok existing) = err Code.already_exists
unformatted (err code) = if is_not_found code then ok tt else err code

-- The transaction; the root's record is written before it, by the clock of the caller.
unfoldable pub format_volume : Host → Volume → Text → Action (Unit {0})
format_volume host volume root_value = do
  existing ← attempt (get host format)
  lift (unformatted existing)
  write host (set format (serialize_volume host.words volume))
  write host (set (inode root_inode_id) root_value)
  write host (set next_ino (to_string root_inode_id))
  write host (set inode_count (49 ∷ []))
  write host (set owner_generation (48 ∷ []))
  write host (set next_chunk_id (48 ∷ []))
  write host (set next_slice_id (48 ∷ []))

-- `FormatVolume`
unfoldable pub format_volume_call :
    Words → ℤ → ℕ → ℕ → Volume → ℕ → (ℕ → Round) → Transacted (Unit {0})
format_volume_call words now uid gid volume retry_attempts rounds =
    behind (serialize_inode words (root_inode now uid gid))
      (λ root_value. transact (λ host. format_volume host volume root_value) retry_attempts rounds)

-- The name is the one that the caller has asked for.
unfoldable pub load_volume : Words → Text → Reply (Option Text) → Result Volume
load_volume words name reply = Status.◌>>=◌ (Client.get reply) (λ value.
    Status.◌>>=◌ (parse_volume words value) (λ loaded.
      Status.◌>>◌ (fail_if (not (same_text loaded.name name)) Code.malformed) (ok loaded)))

abbrev pub same_chunk_type : ChunkType → ChunkType → Bool
same_chunk_type a b = chunk_type_number a == chunk_type_number b

-- `OpenChunkMetadata`: the mechanism that is opened already, if any, and the chunk size; the result
-- is the one that is open then.
unfoldable pub open_chunk_metadata : Option ChunkType → ℕ → ChunkType → Result ChunkType
open_chunk_metadata opened chunk_size redis_cache = err Code.not_supported
open_chunk_metadata (some other) chunk_size cow =
    if same_chunk_type other cow then ok other else err Code.invalid_argument
open_chunk_metadata (some other) chunk_size chunk_slice =
    if same_chunk_type other chunk_slice then ok other else err Code.invalid_argument
open_chunk_metadata none chunk_size cow = ok cow
open_chunk_metadata none chunk_size chunk_slice =
    if chunk_size == 0 || ltb (2 ^ 32 - 1) chunk_size
    then err Code.invalid_argument
    else ok chunk_slice
