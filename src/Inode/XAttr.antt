-- ===== src/Inode/XAttr.antt =====
-- src/metadata/types/Inode.cpp: the extended attributes of an inode.
pub mod Values
use sword_fs.Prelude.{
  ℕ, ◌+◌, ◌*◌, Bool, true, false, ◌||◌, ◌&&◌, not, ltb, ◌==◌, if◌then◌else◌, Option, none, some,
  List, [], ◌∷◌, length, ◌≡◌, refl, Bool-cases, Option-cases,
}
use sword_fs.Prelude.Int.{ℤ}
use sword_fs.Prelude.Text.{Text, Dict, is_empty, same_text, lookup, assign, erase, lookup-assign}
use sword_fs.Status.{Result, ok, err, Code, Status, ◌>>=◌, ◌>>◌, fail_if}
use sword_fs.Inode.{Inode, SetAttrField, field_bit, touch}
use sword_fs.Inode.PosixAcl.{
  XAttrSetMode, is_some, is_posix_acl_xattr_name, max_xattr_value_size, check_set_mode,
  check_insert_list_size, set_posix_acl_xattr, remove_posix_acl_xattr,
}

abbrev pub max_xattr_name_length : ℕ
max_xattr_name_length = 255

unfoldable pub set_xattr : ℤ → Inode → Text → Text → XAttrSetMode → Result Inode
set_xattr now inode name value how =
    if is_posix_acl_xattr_name name then set_posix_acl_xattr now inode name value how else (do
      fail_if (is_empty name) Code.invalid_argument
      fail_if (ltb max_xattr_name_length (length name)) Code.range
      fail_if (ltb max_xattr_value_size (length value)) Code.range
      check_set_mode inode.xattrs name how
      check_insert_list_size inode.xattrs name
      ok (
          touch now (field_bit SetAttrField.ctime_field)
            (record inode { xattrs = assign name value inode.xattrs })))

unfoldable pub value_or_no_data : Option Text → Result Text
value_or_no_data none = err Code.no_data
value_or_no_data (some value) = ok value

unfoldable pub get_xattr : Inode → Text → Result Text
get_xattr inode name = do
  fail_if (ltb max_xattr_name_length (length name)) Code.range
  value_or_no_data (lookup name inode.xattrs)

unfoldable pub names : Dict → List Text
names [] = []
names ((name, value) ∷ rest) = name ∷ names rest

unfoldable pub list_xattrs : Inode → List Text
list_xattrs inode = names inode.xattrs

unfoldable pub remove_xattr : ℤ → Inode → Text → Result Inode
remove_xattr now inode name =
    if is_posix_acl_xattr_name name then remove_posix_acl_xattr now inode name else (do
      fail_if (ltb max_xattr_name_length (length name)) Code.range
      fail_if (not (is_some (lookup name inode.xattrs))) Code.no_data
      ok (
          touch now (field_bit SetAttrField.ctime_field)
            (record inode { xattrs = erase name inode.xattrs })))
