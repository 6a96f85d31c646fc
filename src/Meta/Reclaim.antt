-- ===== src/Meta/Reclaim.antt =====
-- src/metadata/redis/RedisMetaTxn.cpp: the removal of an inode that has no name left.
use sword_fs.Prelude.{◌||◌, not, ◌==◌, if◌then◌else◌, Option, none, some, List, [], ◌∷◌}
use sword_fs.Prelude.Text.{Text}
use sword_fs.Status.{Result, ok, err, Code}
use sword_fs.Inode.{InodeId, Inode, is_dir, is_regular}
use sword_fs.Record.{ReclaimWork, PendingDelete, serialize_reclaim, serialize_pending_delete}
use sword_fs.Chunk.SizePlan.{ChunkMapping}
use sword_fs.Meta.{
  CleanupEncoder, Host, inode, chunk_refs, reclaims, pending_deletes, hset, hdel, del, Action, lift,
  return, attempt, ◌>>=◌, ◌>>◌, write,
}
use sword_fs.Meta.Decimal.{to_string}
use sword_fs.Meta.Inodes.{is_not_found, lookup_inode}
use sword_fs.Meta.Entries.{clear_orphan_marker}
use sword_fs.Meta.Files.{read_file_mapping_snapshot}

-- An inode that is missing is no error: it has been reclaimed.
abbrev pub inode_if_found : Result Inode → Result (Option Inode)
inode_if_found (ok node) = ok (some node)
inode_if_found (err code) = if is_not_found code then ok none else err code

abbrev pub bound_encoder : Option CleanupEncoder → Result CleanupEncoder
bound_encoder none = err Code.internal
bound_encoder (some encoder) = ok encoder

module _ (host : Host) where
  unfoldable pub complete_reclaim : InodeId → Action (Unit {0})
  complete_reclaim ino = write host (hdel reclaims (to_string ino))

  unfoldable pub complete_pending_delete : Text → Action (Unit {0})
  complete_pending_delete object_key = write host (hdel pending_deletes object_key)

  unfoldable pub queue_pending_delete : PendingDelete → Action (Unit {0})
  queue_pending_delete pending = do
    encoded ← lift (serialize_pending_delete host.words pending)
    write host (hset pending_deletes pending.id encoded)

  unfoldable pub register_pending_deletes : List PendingDelete → Action (Unit {0})
  register_pending_deletes [] = return tt
  register_pending_deletes (pending ∷ rest) = do
    queue_pending_delete pending
    register_pending_deletes rest

  -- The mappings of a regular file; another inode has none.
  unfoldable pub mappings_of : InodeId → Inode → Action (List ChunkMapping)
  mappings_of ino node =
      if is_regular node
      then (do typed ← read_file_mapping_snapshot host ino; return typed.mappings)
      else return []

  unfoldable pub freeze : InodeId → Inode → Action (Option ReclaimWork)
  freeze ino node = do
    mappings ← mappings_of ino node
    encoder ← lift (bound_encoder host.encoder)
    pending ← lift (encoder.encode_detached_reclaim ino mappings)
    serialized ← lift (serialize_reclaim host.words pending)
    write host (del (inode ino))
    write host (del (chunk_refs ino))
    clear_orphan_marker host ino
    write host (hset reclaims (to_string ino) serialized)
    return (some pending)

  unfoldable pub reclaim_found : InodeId → Option Inode → Action (Option ReclaimWork)
  reclaim_found ino none = do clear_orphan_marker host ino; return none
  reclaim_found ino (some node) =
      if is_dir node || not ((node.attr).nlink == 0)
      then (do clear_orphan_marker host ino; complete_reclaim ino; return none)
      else freeze ino node

  unfoldable pub prepare_reclaim : InodeId → Action (Option ReclaimWork)
  prepare_reclaim ino = do
    looked_up ← attempt (lookup_inode host ino)
    held ← lift (inode_if_found looked_up)
    reclaim_found ino held
