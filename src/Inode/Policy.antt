-- ===== src/Inode/Policy.antt =====
-- src/metadata/InodePolicy.hpp: what the flags of an inode forbid.
use sword_fs.Prelude.{◌%◌, ◌^◌, Bool, ◌||◌, ◌&&◌, not, ◌==◌, if◌then◌else◌}
use sword_fs.Status.{ok, err, Code, Status, fail_if}
use sword_fs.Inode.{Attr, Fields, SetAttrField, has_set_attr_field, has_immutable, has_append_only}

unfoldable pub is_immutable : Attr → Bool
is_immutable attr = has_immutable attr.inode_flags

unfoldable pub is_append_only : Attr → Bool
is_append_only attr = has_append_only attr.inode_flags

unfoldable pub has_restrictive_inode_policy : Attr → Bool
has_restrictive_inode_policy attr = is_immutable attr || is_append_only attr

-- `fields & kAlwaysForbidden`: the bits of mode, uid, gid and size
abbrev pub has_always_forbidden : Fields → Bool
has_always_forbidden fields = not (fields % 2 ^ 4 == 0)

abbrev pub sets_explicit_time : Fields → Bool
sets_explicit_time fields =
    (has_set_attr_field fields SetAttrField.atime_field
      && not (has_set_attr_field fields SetAttrField.atime_now))
    || (has_set_attr_field fields SetAttrField.mtime_field
        && not (has_set_attr_field fields SetAttrField.mtime_now))

unfoldable pub check_set_attr_policy : Attr → Fields → Status
check_set_attr_policy attr fields =
    if is_immutable attr
    then err Code.not_permitted
    else if not (is_append_only attr)
    then ok tt
    else fail_if (has_always_forbidden fields || sets_explicit_time fields) Code.not_permitted

unfoldable pub check_content_metadata_mutation_policy : Attr → Status
check_content_metadata_mutation_policy attr =
    fail_if (has_restrictive_inode_policy attr) Code.not_permitted

unfoldable pub check_directory_addition_policy : Attr → Status
check_directory_addition_policy parent = fail_if (is_immutable parent) Code.not_permitted

unfoldable pub check_directory_removal_policy : Attr → Status
check_directory_removal_policy parent =
    fail_if (has_restrictive_inode_policy parent) Code.not_permitted
