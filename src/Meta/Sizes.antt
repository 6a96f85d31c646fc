-- ===== src/Meta/Sizes.antt =====
-- `RedisMetaTxn::CommitSizeChange`: one transaction that changes the size of a file, detaches the
-- chunks behind the smaller end, and hands them over to be deleted.
use sword_fs.Prelude.{Bool, true, false, ◌||◌, not, ◌==◌, if◌then◌else◌, Option, List, [], ◌∷◌}
use sword_fs.Status.{Code}
use sword_fs.Inode.{InodeId, Attr, Inode, Fields, SetAttrField, has_set_attr_field}
use sword_fs.Inode.SetAttr.{prepare_set_attr_mutation}
use sword_fs.Chunk.SizePlan.{
  ChunkMapping, ChunkSizeLayout, ChunkSizePlan, RetainedChunkBoundary, should_detach,
  plan_chunk_size_layout, validate_size_commit_plan,
}
use sword_fs.Meta.{
  CleanupEncoder, Host, chunk_refs, hdel, Action, lift, require, return, ◌>>=◌, ◌>>◌, write,
}
use sword_fs.Meta.Decimal.{to_string}
use sword_fs.Meta.Inodes.{set_inode}
use sword_fs.Meta.Files.{read_file_mapping_snapshot}
use sword_fs.Meta.Reclaim.{bound_encoder, queue_pending_delete}

pub record ChunkSizeCommitResult : Type 0 where
  pub inode : Inode
  pub detached : List ChunkMapping
  pub boundary : Option RetainedChunkBoundary

-- The loop that collects `result.detached`, for the layout that decides.
unfoldable pub detached_mappings : ChunkSizeLayout → List ChunkMapping → List ChunkMapping
detached_mappings layout [] = []
detached_mappings layout (mapping ∷ rest) =
    if should_detach layout mapping.index
    then mapping ∷ detached_mappings layout rest
    else detached_mappings layout rest

module _ (host : Host) where
  unfoldable pub queue_detached : CleanupEncoder → InodeId → List ChunkMapping → Action (Unit {0})
  queue_detached encoder ino [] = return tt
  queue_detached encoder ino (mapping ∷ rest) = do
    pending ← lift (encoder.encode_detached_delete ino mapping)
    queue_pending_delete host pending
    queue_detached encoder ino rest

  -- `if (!result.detached.empty()) { ... }`
  unfoldable pub hand_over : InodeId → List ChunkMapping → Action (Unit {0})
  hand_over ino [] = return tt
  hand_over ino (mapping ∷ rest) = do
    encoder ← lift (bound_encoder host.encoder)
    queue_detached encoder ino (mapping ∷ rest)

  unfoldable pub detach : InodeId → List ChunkMapping → Action (Unit {0})
  detach ino [] = return tt
  detach ino (mapping ∷ rest) = do
    write host (hdel (chunk_refs ino) (to_string mapping.index))
    detach ino rest

  unfoldable pub publish : Bool → InodeId → Inode → List ChunkMapping → Action (Unit {0})
  publish true ino updated detached = do set_inode host updated; detach ino detached
  publish false ino updated detached = do detach ino detached; set_inode host updated

  -- The part behind the loop that collects `result.detached`.
  unfoldable pub apply_change :
      InodeId
      → Bool
      → Inode
      → Option RetainedChunkBoundary
      → List ChunkMapping
      → Action ChunkSizeCommitResult
  apply_change ino is_shrink updated boundary detached = do
    hand_over ino detached
    publish is_shrink ino updated detached
    return (record { inode = updated; detached = detached; boundary = boundary })

  unfoldable pub commit_size_change :
      InodeId → ChunkSizePlan → Attr → Fields → Bool → Action ChunkSizeCommitResult
  commit_size_change ino plan requested fields is_shrink = do
    require
        (not (has_set_attr_field fields SetAttrField.size_field)
          || not (requested.size == plan.target_eof))
        Code.invalid_argument
    snapshot ← read_file_mapping_snapshot host ino
    current ← lift (
        validate_size_commit_plan plan ((snapshot.inode).attr).size host.chunk_size
          snapshot.mappings is_shrink)
    updated ← lift (prepare_set_attr_mutation host.now snapshot.inode requested fields)
    old_layout ← lift (plan_chunk_size_layout ((snapshot.inode).attr).size host.chunk_size)
    new_layout ← lift (plan_chunk_size_layout plan.target_eof host.chunk_size)
    apply_change ino is_shrink updated current.boundary
        (detached_mappings (if is_shrink then new_layout else old_layout) snapshot.mappings)

  unfoldable pub commit_shrink :
      InodeId → ChunkSizePlan → Attr → Fields → Action ChunkSizeCommitResult
  commit_shrink ino plan requested fields = commit_size_change ino plan requested fields true

  unfoldable pub commit_grow :
      InodeId → ChunkSizePlan → Attr → Fields → Action ChunkSizeCommitResult
  commit_grow ino plan requested fields = commit_size_change ino plan requested fields false
