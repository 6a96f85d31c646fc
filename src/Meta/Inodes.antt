-- ===== src/Meta/Inodes.antt =====
-- src/metadata/redis/RedisMetaTxn.cpp: the operations on one inode.
use sword_fs.Prelude.{ℕ, ◌+◌, ◌-◌, ◌%◌, ◌^◌, Bool, true, false, ◌||◌, not, ltb, ◌==◌, if◌then◌else◌}
use sword_fs.Prelude.Int.{ℤ, pos, negsuc}
use sword_fs.Prelude.Text.{Text}
use sword_fs.Status.{Result, ok, err, Code}
use sword_fs.Inode.{
  InodeId, Attr, Inode, Fields, SetAttrField, field_bit, has_set_attr_field,
  has_only_supported_inode_flags, is_dir, touch,
}
use sword_fs.Inode.Policy.{check_set_attr_policy, check_content_metadata_mutation_policy}
use sword_fs.Inode.PosixAcl.{XAttrSetMode}
use sword_fs.Inode.XAttr.{set_xattr, remove_xattr}
use sword_fs.Inode.SetAttr.{
  sync_acl, on_attr, touch_where, set_requested_mode, set_requested_uid, set_requested_gid,
  set_requested_atime, set_requested_mtime, set_requested_ctime, clear_requested_setid,
}
use sword_fs.Record.{parse_entry}
use sword_fs.Record.Inodes.{parse_inode, serialize_inode}
use sword_fs.Meta.{
  Host, inode, directory, inode_count, set, incr_by, del, Action, lift, require, return, ◌>>=◌,
  ◌>>◌, get, hget, write,
}

-- `Status::IsNotFound`
abbrev pub is_not_found : Code → Bool
is_not_found Code.not_found = true
is_not_found _ = false

-- A name that leads to no inode is a fault of the store.
abbrev pub malformed_if_missing {ℓ} : {A : Type ℓ} → Result A → Result A
malformed_if_missing (err code) = if is_not_found code then err Code.malformed else err code
malformed_if_missing (ok value) = ok value

-- `if (delta < 0) ... else ...` of `AdjustNlink`
unfoldable pub adjust_nlink : Inode → ℤ → Result Inode
adjust_nlink node (pos n) =
    ok (record node { attr = record (node.attr) { nlink = ((node.attr).nlink + n) % 2 ^ 64 } })
adjust_nlink node (negsuc n) =
    if ltb ((node.attr).nlink) (n + 1)
    then err Code.malformed
    else ok (record node { attr = record (node.attr) { nlink = (node.attr).nlink - (n + 1) } })

module _ (host : Host) where
  unfoldable pub lookup_inode : InodeId → Action Inode
  lookup_inode ino = do value ← get host (inode ino); lift (parse_inode host.words value)

  abbrev pub lookup_referenced : InodeId → Action Inode
  lookup_referenced ino queue = malformed_if_missing (lookup_inode ino queue)

  unfoldable pub lookup_entry_in : Inode → Text → Action Inode
  lookup_entry_in parent name = do
    require (not (is_dir parent)) Code.not_directory
    value ← hget host (directory parent.ino) name
    entry ← lift (parse_entry host.words value)
    lookup_referenced entry.ino

  unfoldable pub lookup_entry : InodeId → Text → Action Inode
  lookup_entry parent_ino name = do parent ← lookup_inode parent_ino; lookup_entry_in parent name

  unfoldable pub set_inode : Inode → Action (Unit {0})
  set_inode node = do
    require (node.ino == 0 || not ((node.attr).ino == node.ino)) Code.invalid_argument
    value ← lift (serialize_inode host.words node)
    write host (set (inode node.ino) value)

  unfoldable pub adjust_inode_count : ℤ → Action (Unit {0})
  adjust_inode_count delta = write host (incr_by inode_count delta)

  unfoldable pub delete_inode : InodeId → Action (Unit {0})
  delete_inode ino = do write host (del (inode ino)); adjust_inode_count (negsuc 0)

  -- The attributes that `SetAttr` computes, step by step; a size is refused before.
  unfoldable pub changed_attr : Attr → Fields → Inode → Inode
  changed_attr requested fields node =
      let replaced =
        on_attr
          (λ attr. set_requested_mtime requested fields (
            set_requested_atime requested fields (
              set_requested_gid requested fields
                (set_requested_uid requested fields (set_requested_mode requested fields attr)))))
          node in
      let atime_done =
        touch_where host.now (has_set_attr_field fields SetAttrField.atime_now)
          SetAttrField.atime_field replaced in
      let mtime_done =
        touch_where host.now (has_set_attr_field fields SetAttrField.mtime_now)
          SetAttrField.mtime_field atime_done in
      let ctime_done =
        on_attr (λ attr. clear_requested_setid fields (set_requested_ctime requested fields attr))
          mtime_done in
      touch_where host.now (not (has_set_attr_field fields SetAttrField.ctime_field))
        SetAttrField.ctime_field ctime_done

  unfoldable pub set_attr : InodeId → Attr → Fields → Action Inode
  set_attr ino requested fields = do
    require (has_set_attr_field fields SetAttrField.size_field) Code.invalid_argument
    node ← lookup_inode ino
    lift (check_set_attr_policy node.attr fields)
    synced ← lift (sync_acl fields (changed_attr requested fields node))
    set_inode synced
    return synced

  unfoldable pub store_flags : Inode → ℕ → Action Inode
  store_flags node inode_flags =
      if (node.attr).inode_flags == inode_flags
      then return node
      else (let flagged =
            touch host.now (field_bit SetAttrField.ctime_field)
              (on_attr (λ attr. record attr { inode_flags = inode_flags }) node) in
          (do set_inode flagged; return flagged))

  unfoldable pub set_inode_flags : InodeId → ℕ → Action Inode
  set_inode_flags ino inode_flags = do
    require (not (has_only_supported_inode_flags inode_flags)) Code.invalid_argument
    node ← lookup_inode ino
    store_flags node inode_flags

  unfoldable pub set_xattr_of : InodeId → Text → Text → XAttrSetMode → Action (Unit {0})
  set_xattr_of ino name value how = do
    node ← lookup_inode ino
    lift (check_content_metadata_mutation_policy node.attr)
    changed ← lift (set_xattr host.now node name value how)
    set_inode changed

  unfoldable pub remove_xattr_of : InodeId → Text → Action (Unit {0})
  remove_xattr_of ino name = do
    node ← lookup_inode ino
    lift (check_content_metadata_mutation_policy node.attr)
    changed ← lift (remove_xattr host.now node name)
    set_inode changed

  unfoldable pub touch_inode : InodeId → Fields → Action (Unit {0})
  touch_inode ino fields = do node ← lookup_inode ino; set_inode (touch host.now fields node)
