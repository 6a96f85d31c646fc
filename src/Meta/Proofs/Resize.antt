-- ===== src/Meta/Proofs/Resize.antt =====
-- `CommitSizeChange`.
use sword_fs.Prelude.{
  ℕ, ◌*◌, ◌≤◌, ◌<◌, ◌≢◌, Bool, true, false, ltb, if◌then◌else◌, some, List, [], ◌∷◌, ◌++◌, ◌≡◌,
}
use sword_fs.Prelude.Text.{Text}
use sword_fs.Status.{ok}
use sword_fs.Inode.{InodeId, Inode, Attr, Fields}
use sword_fs.Inode.SetAttr.{prepare_set_attr_mutation}
use sword_fs.Record.{PendingDelete, serialize_pending_delete}
use sword_fs.Chunk.SizePlan.{ChunkMapping, ChunkSizePlan, plan_chunk_size_change}
use sword_fs.Meta.{CleanupEncoder, Host, Queue, Command, hdel, hset, chunk_refs, pending_deletes}
use sword_fs.Meta.Decimal.{to_string}
use sword_fs.Meta.Files.{FileMappingSnapshot, read_file_mapping_snapshot}
use sword_fs.Meta.Sizes.{ChunkSizeCommitResult}
use sword_fs.Meta.Ancestors.{IsStored}
use sword_fs.Meta.Proofs.Writes.{IsRecordOf}

module _ (host : Host) where
  -- The removals of the mappings from the file.
  abbrev pub removals : InodeId → List ChunkMapping → Queue
  removals ino [] = []
  removals ino (mapping ∷ rest) =
      hdel (chunk_refs ino) (to_string mapping.index) ∷ removals ino rest

  -- One record of work to delete for each mapping, in order.
  pub data AreHandedOver (ino : InodeId) : List ChunkMapping → Queue → Type 0 where
    none_left : AreHandedOver ino [] []
    handed :
        {mapping : ChunkMapping} {rest : List ChunkMapping} {later : Queue}
        (encoder : CleanupEncoder) (pending : PendingDelete) (bytes : Text)
        → host.encoder ≡ some encoder
        → encoder.encode_detached_delete ino mapping ≡ ok pending
        → serialize_pending_delete host.words pending ≡ ok bytes
        → AreHandedOver ino rest later
        → AreHandedOver ino (mapping ∷ rest) (hset pending_deletes pending.id bytes ∷ later)

  -- The new end first where a file shrinks, and last where it grows.
  abbrev pub in_order : Bool → Command → Queue → Queue
  in_order true record_command removed = record_command ∷ removed
  in_order false record_command removed = removed ++ record_command ∷ []

  -- From some mappings of a file those that lie wholly at or behind an end of it, in their order
  pub data AreDetached (end : ℕ) : List ChunkMapping → List ChunkMapping → Type 0 where
    no_mapping : AreDetached end [] []
    from_end :
        {mapping : ChunkMapping} {mappings detached : List ChunkMapping}
        → end ≤ mapping.index * host.chunk_size
        → AreDetached end mappings detached
        → AreDetached end (mapping ∷ mappings) (mapping ∷ detached)
    below_end :
        {mapping : ChunkMapping} {mappings detached : List ChunkMapping}
        → mapping.index * host.chunk_size < end
        → AreDetached end mappings detached
        → AreDetached end (mapping ∷ mappings) detached

  -- What the commands are that a size change queues for a result.
  pub record IsApplied (ino : InodeId) (is_shrink : Bool) (queue after : Queue)
      (result : ChunkSizeCommitResult) : Type 0 where
    pub work : Queue
    pub handed_over : AreHandedOver ino result.detached work
    pub command : Command
    pub holds : IsRecordOf host result.inode command
    pub queued :
        after ≡ queue ++ (work ++ in_order is_shrink command (removals ino result.detached))

  pub record IsCommitted (ino : InodeId) (plan : ChunkSizePlan) (requested : Attr) (fields : Fields)
      (is_shrink : Bool) (queue after : Queue) (result : ChunkSizeCommitResult) : Type 0 where
    pub snapshot : FileMappingSnapshot
    pub kept : Queue
    pub taken : read_file_mapping_snapshot host ino queue ≡ ok (snapshot, kept)
    pub stored : IsStored host ino snapshot.inode
    pub current : ChunkSizePlan
    pub planned_now :
        plan_chunk_size_change
          (((snapshot.inode).attr).size)
          plan.target_eof
          host.chunk_size
          snapshot.mappings
        ≡ ok current
    pub same_state : plan.expected_old_state ≡ current.expected_old_state
    pub direction : is_shrink ≡ ltb plan.target_eof (((snapshot.inode).attr).size)
    pub moved : plan.target_eof ≢ ((snapshot.inode).attr).size
    pub mutated :
        prepare_set_attr_mutation host.now snapshot.inode requested fields ≡ ok result.inode
    pub detached :
        AreDetached
          (if is_shrink then plan.target_eof else ((snapshot.inode).attr).size)
          snapshot.mappings
          result.detached
    pub boundary : result.boundary ≡ current.boundary
    pub applied : IsApplied ino is_shrink queue after result
