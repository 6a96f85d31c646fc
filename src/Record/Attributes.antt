-- ===== src/Record/Attributes.antt =====
-- The attributes of an inode, written and read again.
use sword_fs.Prelude.{◌^◌, ◌<◌, true, ◌&&◌, some, ◌≡◌}
use sword_fs.Prelude.Text.{Text}
use sword_fs.Inode.{Attr, has_only_supported_inode_flags}
use sword_fs.Record.{Words, IsInt64}
use sword_fs.Record.Inodes.{put_attr, get_attr, has_valid_nanoseconds}

-- The widths of the fields.
pub record IsWideAttr (attr : Attr) : Type 0 where
  pub dev_width : attr.dev < 2 ^ 64
  pub ino_width : attr.ino < 2 ^ 64
  pub mode_width : attr.mode < 2 ^ 32
  pub nlink_width : attr.nlink < 2 ^ 64
  pub uid_width : attr.uid < 2 ^ 64
  pub gid_width : attr.gid < 2 ^ 64
  pub rdev_width : attr.rdev < 2 ^ 64
  pub size_width : attr.size < 2 ^ 64
  pub blksize_width : attr.blksize < 2 ^ 64
  pub blocks_width : attr.blocks < 2 ^ 64
  pub atime_width : IsInt64 attr.atime
  pub atime_nsec_width : IsInt64 attr.atime_nsec
  pub mtime_width : IsInt64 attr.mtime
  pub mtime_nsec_width : IsInt64 attr.mtime_nsec
  pub ctime_width : IsInt64 attr.ctime
  pub ctime_nsec_width : IsInt64 attr.ctime_nsec
  pub btime_width : IsInt64 attr.btime
  pub btime_nsec_width : IsInt64 attr.btime_nsec
  pub flags_width : attr.inode_flags < 2 ^ 32
  pub valid : (has_only_supported_inode_flags attr.inode_flags && has_valid_nanoseconds attr) ≡ true

module _ (words : Words) (attr : Attr) (wide : IsWideAttr attr) where
  pub get_attr-put_attr :
      (behind : Text) → get_attr words (put_attr words attr behind) ≡ some (attr, behind)
  unfolding get_attr put_attr
  get_attr-put_attr behind = rw (
    words.get-put64 attr.dev _ wide.dev_width,
    words.get-put64 attr.ino _ wide.ino_width,
    words.get-put32 attr.mode _ wide.mode_width,
    words.get-put64 attr.nlink _ wide.nlink_width,
    words.get-put64 attr.uid _ wide.uid_width,
    words.get-put64 attr.gid _ wide.gid_width,
    words.get-put64 attr.rdev _ wide.rdev_width,
    words.get-put64 attr.size _ wide.size_width,
    words.get-put64 attr.blksize _ wide.blksize_width,
    words.get-put64 attr.blocks _ wide.blocks_width,
    words.get-put_int attr.atime _ wide.atime_width,
    words.get-put_int attr.atime_nsec _ wide.atime_nsec_width,
    words.get-put_int attr.mtime _ wide.mtime_width,
    words.get-put_int attr.mtime_nsec _ wide.mtime_nsec_width,
    words.get-put_int attr.ctime _ wide.ctime_width,
    words.get-put_int attr.ctime_nsec _ wide.ctime_nsec_width,
    words.get-put_int attr.btime _ wide.btime_width,
    words.get-put_int attr.btime_nsec _ wide.btime_nsec_width,
    words.get-put32 attr.inode_flags _ wide.flags_width,
    wide.valid,
  )
