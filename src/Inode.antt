-- ===== src/Inode.antt =====
-- src/metadata/types/Common.hpp, src/metadata/types/Inode.hpp and Inode.cpp: an inode and its
-- attributes. The bits of a mode are taken by division and remainder; time is read once in an
-- operation, as the argument `now` in seconds.
pub mod Touch
pub mod Policy
pub mod PosixAcl
pub mod XAttr
pub mod SetAttr
pub mod Create
pub mod Stat
pub mod Scheme
mod Tests
use sword_fs.Prelude.{
  ℕ, ◌+◌, ◌-◌, ◌*◌, ◌/◌, ◌%◌, ◌^◌, Bool, true, false, ◌||◌, ◌&&◌, not, ltb, leb, ◌==◌,
  if◌then◌else◌,
}
use sword_fs.Prelude.Int.{ℤ, pos}
use sword_fs.Prelude.Text.{Text, Dict}

abbrev pub InodeId : Type 0
InodeId = ℕ

-- `SetAttrField`, and the position of its bit.
pub data SetAttrField : Type 0 where
  mode_field uid_field gid_field size_field atime_field mtime_field : SetAttrField
  atime_now mtime_now ctime_field kill_suid_gid : SetAttrField

abbrev pub position : SetAttrField → ℕ
position SetAttrField.mode_field = 0
position SetAttrField.uid_field = 1
position SetAttrField.gid_field = 2
position SetAttrField.size_field = 3
position SetAttrField.atime_field = 4
position SetAttrField.mtime_field = 5
position SetAttrField.atime_now = 7
position SetAttrField.mtime_now = 8
position SetAttrField.ctime_field = 10
position SetAttrField.kill_suid_gid = 11

-- A set of fields is a word.
abbrev pub Fields : Type 0
Fields = ℕ

abbrev pub field_bit : SetAttrField → Fields
field_bit field = 2 ^ position field

unfoldable pub has_set_attr_field : Fields → SetAttrField → Bool
has_set_attr_field fields field = fields / 2 ^ position field % 2 == 1

-- `SetAttrField::kMtime | SetAttrField::kCtime`
abbrev pub mtime_and_ctime : Fields
mtime_and_ctime = 2 ^ 5 + 2 ^ 10

-- `kImmutable` is bit 0 and `kAppendOnly` bit 1.
abbrev pub has_immutable : ℕ → Bool
has_immutable flags = flags % 2 == 1

abbrev pub has_append_only : ℕ → Bool
has_append_only flags = flags / 2 % 2 == 1

abbrev pub has_only_supported_inode_flags : ℕ → Bool
has_only_supported_inode_flags flags = flags / 2 ^ 2 == 0

pub record Attr : Type 0 where
  pub dev : ℕ
  pub ino : InodeId
  pub mode : ℕ
  pub nlink : ℕ
  pub uid : ℕ
  pub gid : ℕ
  pub rdev : ℕ
  pub size : ℕ
  pub blksize : ℕ
  pub blocks : ℕ
  pub atime : ℤ
  pub atime_nsec : ℤ
  pub mtime : ℤ
  pub mtime_nsec : ℤ
  pub ctime : ℤ
  pub ctime_nsec : ℤ
  pub btime : ℤ
  pub btime_nsec : ℤ
  pub inode_flags : ℕ

pub record Inode : Type 0 where
  pub ino : InodeId
  pub attr : Attr
  pub parent_ino : InodeId
  pub symlink_target : Text
  pub xattrs : Dict

-- `mode & S_IFMT`, shifted down to its four bits
abbrev pub file_type : ℕ → ℕ
file_type mode = mode / 2 ^ 12 % 16

abbrev pub mode_is_dir : ℕ → Bool
mode_is_dir mode = file_type mode == 4

abbrev pub mode_is_regular : ℕ → Bool
mode_is_regular mode = file_type mode == 8

abbrev pub mode_is_symlink : ℕ → Bool
mode_is_symlink mode = file_type mode == 10

unfoldable pub is_dir : Inode → Bool
is_dir inode = mode_is_dir inode.attr.mode

unfoldable pub is_regular : Inode → Bool
is_regular inode = mode_is_regular inode.attr.mode

unfoldable pub is_symlink : Inode → Bool
is_symlink inode = mode_is_symlink inode.attr.mode

-- The constructor of `SwordFsAttr` with an owner.
unfoldable pub new_attr : ℤ → InodeId → ℕ → ℕ → ℕ → Attr
new_attr now ino mode uid gid = record {
  dev = 0;
  ino = ino;
  mode = mode;
  nlink = if mode_is_dir mode then 2 else 1;
  uid = uid;
  gid = gid;
  rdev = 0;
  size = if mode_is_dir mode then 4096 else 0;
  blksize = 4096;
  blocks = 0;
  atime = now;
  atime_nsec = pos 0;
  mtime = now;
  mtime_nsec = pos 0;
  ctime = now;
  ctime_nsec = pos 0;
  btime = now;
  btime_nsec = pos 0;
  inode_flags = 0;
}

-- `ClearSetidForKillPriv`: bits 11 and 10 of the mode, the latter where bit 3 is set.
abbrev pub clear_setuid : ℕ → ℕ
clear_setuid mode = mode - mode / 2 ^ 11 % 2 * 2 ^ 11

abbrev pub clear_setgid : ℕ → ℕ
clear_setgid mode = if mode / 2 ^ 3 % 2 == 1 then mode - mode / 2 ^ 10 % 2 * 2 ^ 10 else mode

unfoldable pub clear_setid_for_kill_priv : Attr → Attr
clear_setid_for_kill_priv attr = record attr { mode = clear_setgid (clear_setuid attr.mode) }

-- The three steps of `Touch`.
unfoldable pub touch_atime : ℤ → Fields → Attr → Attr
touch_atime now fields attr =
    if has_set_attr_field fields SetAttrField.atime_field
    then record attr { atime = now; atime_nsec = pos 0 }
    else attr

unfoldable pub touch_mtime : ℤ → Fields → Attr → Attr
touch_mtime now fields attr =
    if has_set_attr_field fields SetAttrField.mtime_field
    then record attr { mtime = now; mtime_nsec = pos 0 }
    else attr

unfoldable pub touch_ctime : ℤ → Fields → Attr → Attr
touch_ctime now fields attr =
    if has_set_attr_field fields SetAttrField.ctime_field
    then record attr { ctime = now; ctime_nsec = pos 0 }
    else attr

unfoldable pub touch_attr : ℤ → Fields → Attr → Attr
touch_attr now fields attr =
    touch_ctime now fields (touch_mtime now fields (touch_atime now fields attr))

unfoldable pub touch : ℤ → Fields → Inode → Inode
touch now fields inode = record inode { attr = touch_attr now fields inode.attr }

-- Who may remove an entry of a directory with the sticky bit, bit 9 of its mode.
unfoldable pub check_sticky_delete : Inode → ℕ → Inode → Bool
check_sticky_delete directory uid target =
    if not (directory.attr.mode / 2 ^ 9 % 2 == 1)
    then true
    else uid == 0 || uid == directory.attr.uid || uid == target.attr.uid

-- `ProjectedPosixBlocks`
unfoldable pub projected_posix_blocks : Attr → ℕ
projected_posix_blocks attr =
    if mode_is_regular attr.mode && attr.blocks == 0 && not (attr.size == 0) then 1 else attr.blocks
