-- ===== src/Inode/PosixAcl.antt =====
-- src/metadata/PosixAcl.cpp, behind the class: the two extended attributes that hold an access
-- control list, and the mode of the inode that they stand on.

pub mod Agrees
use sword_fs.Prelude.{
  ℕ, ◌+◌, ◌-◌, ◌*◌, ◌/◌, ◌%◌, ◌^◌, Bool, true, false, ◌||◌, ◌&&◌, not, ltb, ◌==◌, if◌then◌else◌,
  Option, none, some, List, [], ◌∷◌, length, bit_and,
}
use sword_fs.Prelude.Int.{ℤ}
use sword_fs.Prelude.Text.{Text, Dict, same_text, lookup, assign, erase}
use sword_fs.Status.{Result, ok, err, Code, Status, ◌>>=◌, ◌>>◌, fail_if}
use sword_fs.Acl.{
  AclEntry, parse, serialize, find, is_minimal, group_class_tag, permissions_mode, set_perm,
  apply_mode, user_obj_tag, other_tag,
}
use sword_fs.Inode.{Inode, Attr, SetAttrField, field_bit, touch, is_dir, is_symlink}

-- `kPosixAclAccessXAttr`, "system.posix_acl_access", and `kPosixAclDefaultXAttr`,
-- "system.posix_acl_default"
abbrev pub access_xattr : Text
access_xattr =
    115 ∷ 121 ∷ 115 ∷ 116 ∷ 101 ∷ 109 ∷ 46 ∷ 112 ∷ 111 ∷ 115 ∷ 105 ∷ 120 ∷ 95 ∷ 97 ∷ 99 ∷ 108 ∷ 95
    ∷ 97 ∷ 99 ∷ 99 ∷ 101 ∷ 115 ∷ 115 ∷ []

abbrev pub default_xattr : Text
default_xattr =
    115 ∷ 121 ∷ 115 ∷ 116 ∷ 101 ∷ 109 ∷ 46 ∷ 112 ∷ 111 ∷ 115 ∷ 105 ∷ 120 ∷ 95 ∷ 97 ∷ 99 ∷ 108 ∷ 95
    ∷ 100 ∷ 101 ∷ 102 ∷ 97 ∷ 117 ∷ 108 ∷ 116 ∷ []

-- `XAttrSetMode`
pub data XAttrSetMode : Type 0 where
  upsert create_only replace_only : XAttrSetMode

abbrev pub max_xattr_value_size : ℕ
max_xattr_value_size = 64 * 1024

abbrev pub max_xattr_list_size : ℕ
max_xattr_list_size = 64 * 1024

abbrev pub is_some {ℓ} : {A : Type ℓ} → Option A → Bool
is_some none = false
is_some (some a) = true

unfoldable pub is_posix_acl_xattr_name : Text → Bool
is_posix_acl_xattr_name name = same_text name access_xattr || same_text name default_xattr

-- `FindMutable(tag)->perm &= perm`
unfoldable pub restrict_perm : ℕ → ℕ → List AclEntry → List AclEntry
restrict_perm tag perm entries = elim (find tag entries) [
  | none ↦ entries
  | some entry ↦ set_perm tag (bit_and entry.perm perm) entries
]

unfoldable pub restrict_to_mode : ℕ → List AclEntry → List AclEntry
restrict_to_mode mode entries =
    let first = restrict_perm user_obj_tag (mode / 2 ^ 6 % 8) entries in
    let second = restrict_perm (group_class_tag first) (mode / 2 ^ 3 % 8) first in
    restrict_perm other_tag (mode % 8) second

unfoldable pub check_set_mode : Dict → Text → XAttrSetMode → Status
check_set_mode xattrs name XAttrSetMode.upsert = ok tt
check_set_mode xattrs name XAttrSetMode.create_only =
    fail_if (is_some (lookup name xattrs)) Code.already_exists
check_set_mode xattrs name XAttrSetMode.replace_only =
    fail_if (not (is_some (lookup name xattrs))) Code.no_data

-- The names, each with a byte behind it.
unfoldable pub list_bytes : Dict → ℕ
list_bytes [] = 0
list_bytes ((name, value) ∷ rest) = length name + 1 + list_bytes rest

unfoldable pub check_insert_list_size : Dict → Text → Status
check_insert_list_size xattrs name =
    if is_some (lookup name xattrs)
    then ok tt
    else fail_if (ltb max_xattr_list_size (length name + 1 + list_bytes xattrs)) Code.range

-- A refused list is malformed here: it has been accepted when it was stored.
unfoldable pub malformed_unless : Result (List AclEntry) → Result (List AclEntry)
malformed_unless (err code) = err Code.malformed
malformed_unless (ok acl) = ok acl

unfoldable pub parse_stored_acl : Text → Result (List AclEntry)
parse_stored_acl value = malformed_unless (parse value)

-- `(mode & ~0777) | acl.PermissionsMode()`; the list has every entry that this reads.
abbrev pub with_permissions : ℕ → Option ℕ → ℕ
with_permissions mode none = mode
with_permissions mode (some permissions) = mode / 2 ^ 9 * 2 ^ 9 + permissions

abbrev pub set_mode : Inode → ℕ → Inode
set_mode inode mode = record inode { attr = record (inode.attr) { mode = mode } }

-- Which inodes have the attribute at all.
unfoldable pub check_acl_target : Inode → Text → Status
check_acl_target inode name = do
  fail_if (not (is_posix_acl_xattr_name name)) Code.invalid_argument
  fail_if (is_symlink inode) Code.operation_not_supported
  fail_if (same_text name default_xattr && not (is_dir inode)) Code.permission

-- What is stored for a list that has passed the checks.
unfoldable pub store_acl : Inode → Text → List AclEntry → Inode
store_acl inode name acl =
    if same_text name access_xattr
    then record (set_mode inode (with_permissions inode.attr.mode (permissions_mode acl))) {
      xattrs =
          if is_minimal acl
          then erase name inode.xattrs
          else assign name (serialize acl) inode.xattrs;
    }
    else record inode { xattrs = assign name (serialize acl) inode.xattrs }

unfoldable pub set_posix_acl_xattr : ℤ → Inode → Text → Text → XAttrSetMode → Result Inode
set_posix_acl_xattr now inode name value how = do
  check_acl_target inode name
  fail_if (ltb max_xattr_value_size (length value)) Code.range
  check_set_mode inode.xattrs name how
  acl ← parse value
  if same_text name default_xattr || not (is_minimal acl)
      then check_insert_list_size inode.xattrs name
      else ok tt
  ok (touch now (field_bit SetAttrField.ctime_field) (store_acl inode name acl))

unfoldable pub remove_posix_acl_xattr : ℤ → Inode → Text → Result Inode
remove_posix_acl_xattr now inode name = do
  check_acl_target inode name
  fail_if (not (is_some (lookup name inode.xattrs))) Code.no_data
  ok (
      touch now (field_bit SetAttrField.ctime_field)
        (record inode { xattrs = erase name inode.xattrs }))

unfoldable pub sync_posix_access_acl_for_mode : Inode → ℕ → Result Inode
sync_posix_access_acl_for_mode inode mode = elim (lookup access_xattr inode.xattrs) [
  | none ↦ ok inode
  | some value ↦ do
    acl ← parse_stored_acl value
    ok (record inode {
      xattrs = assign access_xattr (serialize (apply_mode mode acl)) inode.xattrs;
    })
]

-- The child behind a default list of its parent.
unfoldable pub inherit_acl : Text → List AclEntry → Inode → Inode
inherit_acl default_value acl child =
    let moded = set_mode child (with_permissions child.attr.mode (permissions_mode acl)) in
    let access =
      (if is_minimal acl then moded.xattrs else assign access_xattr (serialize acl) moded.xattrs) in
    record moded {
      xattrs = if is_dir moded then assign default_xattr default_value access else access;
    }

unfoldable pub apply_posix_acl_create_inheritance : Inode → ℕ → Inode → Result Inode
apply_posix_acl_create_inheritance parent umask child =
    if is_symlink child then ok child else elim (lookup default_xattr parent.xattrs) [
      | none ↦
          let permissions : ℕ = child.attr.mode % 2 ^ 9 in
          ok (
            set_mode child
              (child.attr.mode / 2 ^ 9 * 2 ^ 9 + (permissions - bit_and permissions umask)))
      | some value ↦ do
        acl ← parse_stored_acl value
        ok (inherit_acl value (restrict_to_mode child.attr.mode acl) child)
    ]
