-- ===== src/Inode/Stat.antt =====
-- src/metadata/types/Inode.cpp: the attributes as `struct stat` and `struct statx` show them, with
-- the widths of 64-bit Linux.
use sword_fs.Prelude.{
  ℕ, ◌+◌, ◌-◌, ◌%◌, ◌^◌, ◌<◌, ltb, if◌then◌else◌, ◌≡◌, refl, arith, inl, inr, Bool-cases, ◌&&◌,
  ◌==◌, not,
}
use sword_fs.Prelude.Int.{ℤ, pos, negsuc}
use sword_fs.Inode.{
  Attr, InodeId, projected_posix_blocks, mode_is_regular, has_immutable, has_append_only,
}

pub record PosixStat : Type 0 where
  pub st_dev : ℕ
  pub st_ino : InodeId
  pub st_mode : ℕ
  pub st_nlink : ℕ
  pub st_uid : ℕ
  pub st_gid : ℕ
  pub st_rdev : ℕ
  pub st_size : ℤ
  pub st_blksize : ℤ
  pub st_blocks : ℤ
  pub st_atime : ℤ
  pub st_atime_nsec : ℤ
  pub st_mtime : ℤ
  pub st_mtime_nsec : ℤ
  pub st_ctime : ℤ
  pub st_ctime_nsec : ℤ

-- A cast from `uint64_t` to a signed type of its width, and back
unfoldable pub signed_cast : ℕ → ℤ
signed_cast n = if ltb n (2 ^ 63) then pos n else negsuc (2 ^ 64 - n - 1)

unfoldable pub unsigned_cast : ℤ → ℕ
unsigned_cast (pos n) = n
unsigned_cast (negsuc n) = 2 ^ 64 - n - 1

-- A cast from `int64_t` to `uint32_t`
unfoldable pub u32_cast : ℤ → ℕ
u32_cast i = unsigned_cast i % 2 ^ 32

unfoldable pub to_posix_stat : Attr → PosixStat
to_posix_stat attr = record {
  st_dev = attr.dev;
  st_ino = attr.ino;
  st_mode = attr.mode;
  st_nlink = attr.nlink;
  st_uid = attr.uid % 2 ^ 32;
  st_gid = attr.gid % 2 ^ 32;
  st_rdev = attr.rdev;
  st_size = signed_cast attr.size;
  st_blksize = signed_cast attr.blksize;
  st_blocks = signed_cast (projected_posix_blocks attr);
  st_atime = attr.atime;
  st_atime_nsec = attr.atime_nsec;
  st_mtime = attr.mtime;
  st_mtime_nsec = attr.mtime_nsec;
  st_ctime = attr.ctime;
  st_ctime_nsec = attr.ctime_nsec;
}

unfoldable pub from_posix_stat : PosixStat → Attr
from_posix_stat st = record {
  dev = st.st_dev;
  ino = st.st_ino;
  mode = st.st_mode;
  nlink = st.st_nlink;
  uid = st.st_uid;
  gid = st.st_gid;
  rdev = st.st_rdev;
  size = unsigned_cast st.st_size;
  blksize = unsigned_cast st.st_blksize;
  blocks = unsigned_cast st.st_blocks;
  atime = st.st_atime;
  atime_nsec = st.st_atime_nsec;
  mtime = st.st_mtime;
  mtime_nsec = st.st_mtime_nsec;
  ctime = st.st_ctime;
  ctime_nsec = st.st_ctime_nsec;
  btime = pos 0;
  btime_nsec = pos 0;
  inode_flags = 0;
}

pub record Statx : Type 0 where
  pub stx_mask : ℕ
  pub stx_blksize : ℕ
  pub stx_nlink : ℕ
  pub stx_uid : ℕ
  pub stx_gid : ℕ
  pub stx_mode : ℕ
  pub stx_ino : InodeId
  pub stx_size : ℕ
  pub stx_blocks : ℕ
  pub stx_atime : ℤ
  pub stx_atime_nsec : ℕ
  pub stx_btime : ℤ
  pub stx_btime_nsec : ℕ
  pub stx_ctime : ℤ
  pub stx_ctime_nsec : ℕ
  pub stx_mtime : ℤ
  pub stx_mtime_nsec : ℕ
  pub stx_rdev_major : ℕ
  pub stx_rdev_minor : ℕ
  pub stx_dev_major : ℕ
  pub stx_dev_minor : ℕ
  pub stx_attributes_mask : ℕ
  pub stx_attributes : ℕ

-- `STATX_ATTR_IMMUTABLE` and `STATX_ATTR_APPEND`
abbrev pub attr_immutable : ℕ
attr_immutable = 16

abbrev pub attr_append : ℕ
attr_append = 32

-- `major` and `minor` are macros of the system; the mask is `STATX_BASIC_STATS | STATX_BTIME`.
unfoldable pub to_stat_x : (ℕ → ℕ) → (ℕ → ℕ) → Attr → Statx
to_stat_x major minor attr = record {
  stx_mask = 4095;
  stx_blksize = attr.blksize % 2 ^ 32;
  stx_nlink = attr.nlink % 2 ^ 32;
  stx_uid = attr.uid % 2 ^ 32;
  stx_gid = attr.gid % 2 ^ 32;
  stx_mode = attr.mode % 2 ^ 16;
  stx_ino = attr.ino;
  stx_size = attr.size;
  stx_blocks = projected_posix_blocks attr;
  stx_atime = attr.atime;
  stx_atime_nsec = u32_cast attr.atime_nsec;
  stx_btime = attr.btime;
  stx_btime_nsec = u32_cast attr.btime_nsec;
  stx_ctime = attr.ctime;
  stx_ctime_nsec = u32_cast attr.ctime_nsec;
  stx_mtime = attr.mtime;
  stx_mtime_nsec = u32_cast attr.mtime_nsec;
  stx_rdev_major = major attr.rdev;
  stx_rdev_minor = minor attr.rdev;
  stx_dev_major = major attr.dev;
  stx_dev_minor = minor attr.dev;
  stx_attributes_mask = attr_immutable + attr_append;
  stx_attributes =
      (if has_immutable attr.inode_flags then attr_immutable else 0)
      + (if has_append_only attr.inode_flags then attr_append else 0);
}

pub unsigned_cast-signed_cast : (n : ℕ) → n < 2 ^ 64 → unsigned_cast (signed_cast n) ≡ n
unfolding unsigned_cast signed_cast
unsigned_cast-signed_cast n small = elim (Bool-cases (ltb n (2 ^ 63))) [
  | inl low ↦ rw (low) refl
  | inr high ↦ rw (high) (omega arith)
]

kept : (n : ℕ) → n < 2 ^ 32 → n % 2 ^ 32 ≡ n
kept n small = omega (arith, small)

projected_posix_blocks_small :
    (attr : Attr) → attr.blocks < 2 ^ 64 → projected_posix_blocks attr < 2 ^ 64
unfolding projected_posix_blocks
projected_posix_blocks_small attr small =
    elim (Bool-cases (mode_is_regular attr.mode && attr.blocks == 0 && not (attr.size == 0))) [
      | inl shown ↦ rw (shown) (omega arith)
      | inr hidden ↦ rw (hidden) small
    ]

-- The attributes come back from `struct stat`, with the blocks that it shows, without the birth time
-- and the inode flags, which it does not hold. Sizes and blocks have their width, and the owners fit
-- 32 bits.
pub from_posix_stat-to_posix_stat :
    (attr : Attr)
    → attr.uid < 2 ^ 32
    → attr.gid < 2 ^ 32
    → attr.size < 2 ^ 64
    → attr.blksize < 2 ^ 64
    → attr.blocks < 2 ^ 64
    → from_posix_stat (to_posix_stat attr) ≡ record attr {
      blocks = projected_posix_blocks attr;
      btime = pos 0;
      btime_nsec = pos 0;
      inode_flags = 0;
    }
unfolding from_posix_stat to_posix_stat
from_posix_stat-to_posix_stat attr uid_width gid_width size_width blksize_width blocks_width = rw (
  unsigned_cast-signed_cast attr.size size_width,
  unsigned_cast-signed_cast attr.blksize blksize_width,
  unsigned_cast-signed_cast (projected_posix_blocks attr)
      (projected_posix_blocks_small attr blocks_width),
  kept attr.uid uid_width,
  kept attr.gid gid_width,
)
