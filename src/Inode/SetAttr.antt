-- ===== src/Inode/SetAttr.antt =====
-- src/metadata/Utils.cpp: `PrepareSetAttrMutation`, the inode behind a change of its attributes.
use sword_fs.Prelude.{ℕ, ◌+◌, ◌*◌, ◌/◌, ◌%◌, ◌^◌, Bool, ◌&&◌, not, ◌==◌, if◌then◌else◌}
use sword_fs.Prelude.Int.{ℤ}
use sword_fs.Status.{Result, ok, ◌>>◌}
use sword_fs.Inode.{
  Attr, Inode, Fields, SetAttrField, field_bit, has_set_attr_field, touch,
  clear_setid_for_kill_priv,
}
use sword_fs.Inode.Policy.{check_set_attr_policy}
use sword_fs.Inode.PosixAcl.{sync_posix_access_acl_for_mode}

-- `(mode & S_IFMT) | (requested & 07777)`
abbrev pub replace_mode : ℕ → ℕ → ℕ
replace_mode mode requested = mode / 2 ^ 12 % 16 * 2 ^ 12 + requested % 2 ^ 12

-- `if (HasSetAttrField(fields, field)) { ... }` on the attributes
abbrev pub where_set : Fields → SetAttrField → (Attr → Attr) → Attr → Attr
where_set fields field change attr = if has_set_attr_field fields field then change attr else attr

abbrev pub touch_in : ℤ → SetAttrField → Inode → Inode
touch_in now field inode = touch now (field_bit field) inode

-- The same on the inode.
abbrev pub touch_where : ℤ → Bool → SetAttrField → Inode → Inode
touch_where now test field inode = if test then touch_in now field inode else inode

abbrev pub on_attr : (Attr → Attr) → Inode → Inode
on_attr change inode = record inode { attr = change (inode.attr) }

abbrev pub set_requested_mode : Attr → Fields → Attr → Attr
set_requested_mode requested fields =
    where_set fields SetAttrField.mode_field
      (λ attr. record attr { mode = replace_mode (attr.mode) (requested.mode) })

abbrev pub set_requested_uid : Attr → Fields → Attr → Attr
set_requested_uid requested fields =
    where_set fields SetAttrField.uid_field (λ attr. record attr { uid = requested.uid })

abbrev pub set_requested_gid : Attr → Fields → Attr → Attr
set_requested_gid requested fields =
    where_set fields SetAttrField.gid_field (λ attr. record attr { gid = requested.gid })

abbrev pub set_requested_size : Attr → Fields → Attr → Attr
set_requested_size requested fields =
    where_set fields SetAttrField.size_field (λ attr. record attr { size = requested.size })

abbrev pub set_requested_atime : Attr → Fields → Attr → Attr
set_requested_atime requested fields =
    where_set fields SetAttrField.atime_field
      (λ attr. record attr { atime = requested.atime; atime_nsec = requested.atime_nsec })

abbrev pub set_requested_mtime : Attr → Fields → Attr → Attr
set_requested_mtime requested fields =
    where_set fields SetAttrField.mtime_field
      (λ attr. record attr { mtime = requested.mtime; mtime_nsec = requested.mtime_nsec })

abbrev pub set_requested_ctime : Attr → Fields → Attr → Attr
set_requested_ctime requested fields =
    where_set fields SetAttrField.ctime_field
      (λ attr. record attr { ctime = requested.ctime; ctime_nsec = requested.ctime_nsec })

abbrev pub clear_requested_setid : Fields → Attr → Attr
clear_requested_setid fields =
    where_set fields SetAttrField.kill_suid_gid (λ attr. clear_setid_for_kill_priv attr)

-- The inode before the step that keeps its access control list in line with its mode.
unfoldable pub mutate_attr : ℤ → Attr → Fields → Inode → Inode
mutate_attr now requested fields current =
    let size_changed : Bool =
      has_set_attr_field fields SetAttrField.size_field
      && not (requested.size == (current.attr).size) in
    let replaced =
      on_attr
        (λ attr. set_requested_mtime requested fields (
          set_requested_atime requested fields (
            set_requested_size requested fields (
              set_requested_gid requested fields
                (set_requested_uid requested fields (set_requested_mode requested fields attr))))))
        current in
    let atime_done =
      touch_where now (has_set_attr_field fields SetAttrField.atime_now) SetAttrField.atime_field
        replaced in
    let mtime_done =
      touch_where now (has_set_attr_field fields SetAttrField.mtime_now) SetAttrField.mtime_field
        atime_done in
    let ctime_done =
      on_attr (λ attr. clear_requested_setid fields (set_requested_ctime requested fields attr))
        mtime_done in
    let size_done =
      touch_where now
        (size_changed
          && not (has_set_attr_field fields SetAttrField.mtime_field)
          && not (has_set_attr_field fields SetAttrField.mtime_now))
        SetAttrField.mtime_field ctime_done in
    touch_where now (not (has_set_attr_field fields SetAttrField.ctime_field))
      SetAttrField.ctime_field size_done

-- `if (HasSetAttrField(fields, SetAttrField::kMode)) { SyncPosixAccessAclForMode(...) }`
unfoldable pub sync_acl : Fields → Inode → Result Inode
sync_acl fields next =
    if has_set_attr_field fields SetAttrField.mode_field
    then sync_posix_access_acl_for_mode next next.attr.mode
    else ok next

unfoldable pub prepare_set_attr_mutation : ℤ → Inode → Attr → Fields → Result Inode
prepare_set_attr_mutation now current requested fields = do
  check_set_attr_policy current.attr fields
  sync_acl fields (mutate_attr now requested fields current)
