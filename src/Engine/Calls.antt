-- ===== src/Engine/Calls.antt =====
-- src/metadata/redis/RedisMetaImpl.cpp: the calls that are one transaction behind some checks, and
-- their share of RedisMetaOps.cpp.
use sword_fs.Prelude.{ℕ, Option, [], ◌∷◌}
use sword_fs.Prelude.Text.{Text}
use sword_fs.Status.{Result, ok, err, Code, fail_if}
use sword_fs.Chunk.{ChunkId, ChunkIndex}
use sword_fs.Chunk.SizePlan.{FileSizePrecondition, ChunkSizePlan}
use sword_fs.Inode.{InodeId, Attr, Inode, Fields, SetAttrField, has_set_attr_field}
use sword_fs.Inode.Create.{validate_name_component, validate_mknod_mode, normalize_mknod_rdev}
use sword_fs.Inode.PosixAcl.{XAttrSetMode}
use sword_fs.Record.{PendingDelete, ReclaimWork}
use sword_fs.Meta.{Host, Action, attempt}
use sword_fs.Meta.Inodes.{
  lookup_entry, set_attr, set_inode_flags, set_xattr_of, remove_xattr_of, touch_inode,
}
use sword_fs.Meta.Rename.{Place, Renamed}
use sword_fs.Meta.Files.{
  FileMappingSnapshot, read_file_mapping_snapshot, probe_attachment, attach_prepared,
  finalize_attached_write,
}
use sword_fs.Meta.Sizes.{ChunkSizeCommitResult, commit_shrink, commit_grow}
use sword_fs.Meta.Reclaim.{
  prepare_reclaim, complete_reclaim, complete_pending_delete, register_pending_deletes,
}
use sword_fs.Engine.{Context, check_removed_name}
use sword_fs.Engine.Names.{regular_mode, directory_mode, create_node, symlink, unlink, rm_dir, link}
use sword_fs.Engine.Rename.{check_rename, rename}
use sword_fs.Engine.Transact.{Round, Transacted, transact}

-- A call that fails before it begins a transaction
abbrev pub failed_call {ℓ} : {A : Type ℓ} → Code → Transacted A
failed_call code = record { status = err code; executions = [] }

-- `if (!status.ok()) { return status; }` in front of a transaction
unfoldable pub behind {ℓ κ} :
    {A : Type ℓ} {B : Type κ} → Result A → (A → Transacted B) → Transacted B
behind (err code) call = failed_call code
behind (ok value) call = call value

-- The status that the body has put aside is returned once the transaction has ended well.
unfoldable pub put_aside {ℓ} : {A : Type ℓ} → Result (Result A) → Result A
put_aside (err code) = err code
put_aside (ok read_status) = read_status

-- Who calls, and what the attempts of the transaction meet.
module _ (retry_attempts : ℕ) (rounds : ℕ → Round) where
  abbrev pub in_transaction {ℓ} : {A : Type ℓ} → (Host → Action A) → Transacted A
  in_transaction body = transact body retry_attempts rounds

  -- `ReadFileMappingSnapshot` and `ProbeAttachment`: also a read that fails is validated by EXEC.
  unfoldable pub validated_read {ℓ} : {A : Type ℓ} → (Host → Action A) → Transacted A
  validated_read body =
      let ended = in_transaction (λ host. attempt (body host)) in
      record { status = put_aside ended.status; executions = ended.executions }

  unfoldable pub lookup_call : InodeId → Text → Transacted Inode
  lookup_call parent_ino name =
      behind (validate_name_component name)
        (λ _. in_transaction (λ host. lookup_entry host parent_ino name))

  -- The number of the new inode is what `AllocateInode` returns; every attempt takes the same.
  unfoldable pub create_node_call :
      Context → Result InodeId → InodeId → Text → ℕ → ℕ → Transacted Inode
  create_node_call ctx allocated parent_ino name mode rdev = behind allocated (λ child_ino.
      in_transaction (λ host. create_node host ctx child_ino parent_ino name mode rdev))

  unfoldable pub create_call : Context → Result InodeId → InodeId → Text → ℕ → Transacted Inode
  create_call ctx allocated parent_ino name mode =
      behind (validate_name_component name)
        (λ _. create_node_call ctx allocated parent_ino name (regular_mode mode) 0)

  unfoldable pub mk_nod_call : Context → Result InodeId → InodeId → Text → ℕ → ℕ → Transacted Inode
  mk_nod_call ctx allocated parent_ino name mode rdev = behind (validate_name_component name) (λ _.
      behind (validate_mknod_mode mode)
        (λ _. create_node_call ctx allocated parent_ino name mode (normalize_mknod_rdev mode rdev)))

  unfoldable pub mk_dir_call : Context → Result InodeId → InodeId → Text → ℕ → Transacted Inode
  mk_dir_call ctx allocated parent_ino name mode =
      behind (validate_name_component name)
        (λ _. create_node_call ctx allocated parent_ino name (directory_mode mode) 0)

  unfoldable pub symlink_call : Context → Result InodeId → InodeId → Text → Text → Transacted Inode
  symlink_call ctx allocated parent_ino name target = behind (validate_name_component name) (λ _.
      behind allocated
        (λ child_ino. in_transaction (λ host. symlink host ctx child_ino parent_ino name target)))

  unfoldable pub unlink_call :
      Context → InodeId → Text → Option InodeId → Transacted (Inode × Inode)
  unlink_call ctx parent_ino name expected_ino =
      behind (check_removed_name name)
        (λ _. in_transaction (λ host. unlink host ctx parent_ino name expected_ino))

  unfoldable pub rm_dir_call : Context → InodeId → Text → Transacted Inode
  rm_dir_call ctx parent_ino name =
      behind (check_removed_name name)
        (λ _. in_transaction (λ host. rm_dir host ctx parent_ino name))

  unfoldable pub rename_call : Context → Place → Place → ℕ → Transacted (Option Renamed)
  rename_call ctx old new flags =
      behind (check_rename old.name new.name flags)
        (λ _. in_transaction (λ host. rename host ctx old new flags))

  unfoldable pub link_call : InodeId → InodeId → Text → Transacted Inode
  link_call ino newparent_ino newname =
      behind (validate_name_component newname)
        (λ _. in_transaction (λ host. link host ino newparent_ino newname))

  unfoldable pub set_attr_call : InodeId → Attr → Fields → Transacted Inode
  set_attr_call ino requested fields =
      behind (fail_if (has_set_attr_field fields SetAttrField.size_field) Code.invalid_argument)
        (λ _. in_transaction (λ host. set_attr host ino requested fields))

  unfoldable pub set_inode_flags_call : InodeId → ℕ → Transacted Inode
  set_inode_flags_call ino inode_flags =
      in_transaction (λ host. set_inode_flags host ino inode_flags)

  unfoldable pub set_xattr_call : InodeId → Text → Text → XAttrSetMode → Transacted (Unit {0})
  set_xattr_call ino name value how = in_transaction (λ host. set_xattr_of host ino name value how)

  unfoldable pub remove_xattr_call : InodeId → Text → Transacted (Unit {0})
  remove_xattr_call ino name = in_transaction (λ host. remove_xattr_of host ino name)

  unfoldable pub touch_inode_call : InodeId → Fields → Transacted (Unit {0})
  touch_inode_call ino fields = in_transaction (λ host. touch_inode host ino fields)

  unfoldable pub prepare_reclaim_attempt : InodeId → Transacted (Option ReclaimWork)
  prepare_reclaim_attempt ino = in_transaction (λ host. prepare_reclaim host ino)

  unfoldable pub complete_reclaim_call : InodeId → Transacted (Unit {0})
  complete_reclaim_call ino = in_transaction (λ host. complete_reclaim host ino)

  unfoldable pub register_pending_delete_call : PendingDelete → Transacted (Unit {0})
  register_pending_delete_call work =
      in_transaction (λ host. register_pending_deletes host (work ∷ []))

  unfoldable pub complete_pending_delete_call : Text → Transacted (Unit {0})
  complete_pending_delete_call object_key =
      in_transaction (λ host. complete_pending_delete host object_key)

  unfoldable pub read_file_mapping_snapshot_call : InodeId → Transacted FileMappingSnapshot
  read_file_mapping_snapshot_call ino = validated_read (λ host. read_file_mapping_snapshot host ino)

  unfoldable pub probe_attachment_call : InodeId → ChunkIndex → Transacted (Option ChunkId)
  probe_attachment_call ino index = validated_read (λ host. probe_attachment host ino index)

  unfoldable pub attach_prepared_call :
      InodeId → ChunkIndex → ChunkId → ℕ → FileSizePrecondition → Transacted (Unit {0})
  attach_prepared_call ino index chunk_id end expected =
      in_transaction (λ host. attach_prepared host ino index chunk_id end expected)

  unfoldable pub finalize_attached_write_call :
      InodeId → ChunkIndex → ChunkId → ℕ → FileSizePrecondition → Transacted (Unit {0})
  finalize_attached_write_call ino index chunk_id end expected =
      in_transaction (λ host. finalize_attached_write host ino index chunk_id end expected)

  unfoldable pub commit_shrink_call :
      InodeId → ChunkSizePlan → Attr → Fields → Transacted ChunkSizeCommitResult
  commit_shrink_call ino plan requested fields =
      in_transaction (λ host. commit_shrink host ino plan requested fields)

  unfoldable pub commit_grow_call :
      InodeId → ChunkSizePlan → Attr → Fields → Transacted ChunkSizeCommitResult
  commit_grow_call ino plan requested fields =
      in_transaction (λ host. commit_grow host ino plan requested fields)
