-- ===== src/Engine/Reads.antt =====
-- The calls of RedisMetaImpl.cpp and RedisMetaOps.cpp under src/metadata/redis that only read, and
-- `RedisMetaOps::ReadFileChunkSnapshot`.
use sword_fs.Prelude.{ℕ, zero, suc, ◌+◌, ◌-◌, ◌^◌, not, ◌==◌, Option, none, some, List, [], ◌∷◌}
use sword_fs.Prelude.Text.{Text}
use sword_fs.Status.{Result, ok, err, Code, ◌>>=◌, ◌>>◌, fail_if}
use sword_fs.Chunk.{ChunkId, ChunkIndex}
use sword_fs.Chunk.SizePlan.{ChunkBoundarySnapshot, ChunkSizeBoundary, plan_chunk_size_layout}
use sword_fs.Inode.{InodeId, Inode, is_dir, is_regular, is_symlink}
use sword_fs.Inode.XAttr.{get_xattr, list_xattrs}
use sword_fs.Record.{Words, Entry}
use sword_fs.Record.Inodes.{parse_inode}
use sword_fs.Meta.Decimal.{parse_attached_chunk_id}
use sword_fs.Engine.Client.{Reply, StoredFile, read_only, get, read_chunk_attachments_if_unchanged}

pub record FileChunkSnapshot : Type 0 where
  pub inode : Inode
  pub chunk_id : Option ChunkId
  pub eof_boundary : Option ChunkBoundarySnapshot

-- `SwordFsStatFs`
pub record StatFs : Type 0 where
  pub name_max : ℕ
  pub fragment_size : ℕ
  pub block_size : ℕ
  pub blocks : ℕ
  pub blocks_free : ℕ
  pub blocks_available : ℕ
  pub files : ℕ
  pub files_free : ℕ

unfoldable pub stat_fs : StatFs
stat_fs = record {
  name_max = 255;
  fragment_size = 4096;
  block_size = 4096;
  blocks = 268435456;
  blocks_free = 268435456;
  blocks_available = 268435456;
  files = 2 ^ 64 - 1;
  files_free = 2 ^ 64 - 1;
}

unfoldable pub decode_attached_chunk_id : Option Text → Result (Option ChunkId)
decode_attached_chunk_id none = ok none
decode_attached_chunk_id (some encoded) = do
  chunk_id ← parse_attached_chunk_id encoded
  ok (some chunk_id)

-- What an attempt of `ReadFileChunkSnapshot` is answered: the inode, and what the server holds when it
-- runs the script.
pub record Answers : Type 0 where
  pub inode_reply : Reply (Option Text)
  pub fields_reply : Reply StoredFile

abbrev pub boundary_index : ChunkIndex → Option ChunkSizeBoundary → ChunkIndex
boundary_index index none = index
boundary_index index (some boundary) = boundary.index

unfoldable pub read_boundary :
    Option ChunkSizeBoundary → Option Text → Result (Option ChunkBoundarySnapshot)
read_boundary none eof_raw = ok none
read_boundary (some boundary) eof_raw = do
  boundary_id ← decode_attached_chunk_id eof_raw
  ok (
      some (record {
        index = boundary.index;
        chunk_id = boundary_id;
        visible_prefix = boundary.visible_prefix;
      }))

module _ (words : Words) where
  unfoldable pub get_inode : Reply (Option Text) → Result Inode
  get_inode reply = do value ← get reply; parse_inode words value

  -- An inode of the batch is the one that was asked for, or missing. MGET answers as many values as
  -- there are keys.
  unfoldable pub read_batch : List InodeId → List (Option Text) → Result (List (Option Inode))
  read_batch asked [] = ok []
  read_batch [] (value ∷ values) = err Code.internal
  read_batch (ino ∷ asked) (none ∷ values) = do rest ← read_batch asked values; ok (none ∷ rest)
  read_batch (ino ∷ asked) (some value ∷ values) = do
    inode ← parse_inode words value
    fail_if (not (inode.ino == ino)) Code.malformed
    rest ← read_batch asked values
    ok (some inode ∷ rest)

  -- `MGET` is not sent for no key.
  unfoldable pub get_inodes :
      List InodeId → Reply (List (Option Text)) → Result (List (Option Inode))
  get_inodes [] reply = ok []
  get_inodes (ino ∷ asked) reply = do values ← read_only reply; read_batch (ino ∷ asked) values

  unfoldable pub get_xattr_call : Reply (Option Text) → Text → Result Text
  get_xattr_call reply name = do inode ← get_inode reply; get_xattr inode name

  unfoldable pub list_xattrs_call : Reply (Option Text) → Result (List Text)
  list_xattrs_call reply = do inode ← get_inode reply; ok (list_xattrs inode)

  unfoldable pub readlink : Reply (Option Text) → Result Text
  readlink reply = do
    inode ← get_inode reply
    fail_if (not (is_symlink inode)) Code.invalid_argument
    ok inode.symlink_target

  -- The size and the flags; the update of the access time has no effect on the result.
  unfoldable pub open_file : Reply (Option Text) → Result (ℕ × ℕ)
  open_file reply = do
    inode ← get_inode reply
    fail_if (not (is_regular inode)) Code.not_directory
    ok ((inode.attr).size, (inode.attr).inode_flags)

  -- The entries "." and ".." in front of those of the iterator; a directory's `d_type` is 4.
  unfoldable pub open_dir : InodeId → Reply (Option Text) → Result (List Entry)
  open_dir ino reply = do
    dir ← get_inode reply
    fail_if (not (is_dir dir)) Code.not_directory
    ok (
        record { name = 46 ∷ []; type = 4; ino = ino }
        ∷ record { name = 46 ∷ 46 ∷ []; type = 4; ino = dir.parent_ino }
        ∷ [])

  unfoldable pub snapshot_of :
      Inode → Option ChunkSizeBoundary → Option Text × Option Text → Result FileChunkSnapshot
  snapshot_of inode boundary (attached_raw, eof_raw) = do
    chunk_id ← decode_attached_chunk_id attached_raw
    eof_boundary ← read_boundary boundary eof_raw
    ok (record { inode = inode; chunk_id = chunk_id; eof_boundary = eof_boundary })

  -- None is an image that has changed, behind which another attempt is made.
  abbrev pub if_matched :
      Inode
      → Option ChunkSizeBoundary
      → Option (Option Text × Option Text)
      → Result (Option FileChunkSnapshot)
  if_matched inode boundary none = ok none
  if_matched inode boundary (some fields) = do
    snapshot ← snapshot_of inode boundary fields
    ok (some snapshot)

  unfoldable pub snapshot_attempt :
      ℕ → InodeId → ChunkIndex → Answers → Result (Option FileChunkSnapshot)
  snapshot_attempt chunk_size ino index answers = do
    encoded_inode ← get answers.inode_reply
    inode ← parse_inode words encoded_inode
    fail_if (not (inode.ino == ino)) Code.malformed
    fail_if (not (is_regular inode)) Code.invalid_argument
    layout ← plan_chunk_size_layout (inode.attr).size chunk_size
    fields ←
        read_chunk_attachments_if_unchanged answers.fields_reply encoded_inode index
          (boundary_index index layout.boundary)
    if_matched inode layout.boundary fields

  abbrev pub found_or_again :
      Result (Option FileChunkSnapshot) → Result FileChunkSnapshot → Result FileChunkSnapshot
  found_or_again (err code) rest = err code
  found_or_again (ok none) rest = rest
  found_or_again (ok (some snapshot)) rest = ok snapshot

  -- The attempts from number `attempt` on, as many as are left.
  unfoldable pub read_file_chunk_snapshot :
      ℕ → InodeId → ChunkIndex → (ℕ → Answers) → ℕ → ℕ → Result FileChunkSnapshot
  read_file_chunk_snapshot chunk_size ino index rounds attempt zero = err Code.unavailable
  read_file_chunk_snapshot chunk_size ino index rounds attempt (suc left) =
      found_or_again (snapshot_attempt chunk_size ino index (rounds attempt))
        (read_file_chunk_snapshot chunk_size ino index rounds (attempt + 1) left)
