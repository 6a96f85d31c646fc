-- ===== src/Record/Tests.antt =====
-- Records at work.
use sword_fs.Prelude.{true, [], ◌∷◌, ◌≡◌, refl, arith}
use sword_fs.Prelude.Text.{Text}
use sword_fs.Status.{Result, ok, err}
use sword_fs.Record.{
  Entry, ReclaimWork, PendingDelete, serialize_reclaim, parse_reclaim, serialize_pending_delete,
  parse_pending_delete,
}
use sword_fs.Record.Entries.{
  parse_reclaim-serialize_reclaim, parse_pending_delete-serialize_pending_delete,
}
use sword_fs.Record.Inodes.{serialize_inode, parse_inode}
use sword_fs.Record.Attributes.{IsWideAttr}
use sword_fs.Record.InodeTrip.{IsBehind, AreInOrder, parse_inode-serialize_inode}
use sword_fs.Record.Volumes.{Volume, chunk_slice, serialize_volume, parse_volume}
use sword_fs.Record.VolumeTrip.{parse_volume-serialize_volume}
use sword_fs.Record.LittleEndian.{little_endian}
use sword_fs.Prelude.Int.{pos}
use sword_fs.Prelude.Text.{same_text, text_less}
use sword_fs.Inode.{Inode, new_attr}

abbrev or_empty : Result Text → Text
or_empty (ok bytes) = bytes
or_empty (err code) = []

abbrev entry : Entry
entry = record { name = 97 ∷ 98 ∷ []; type = 8; ino = 300 }

abbrev work : ReclaimWork
work = record { ino = 300; payload = 7 ∷ [] }

abbrev pending : PendingDelete
pending = record { id = 120 ∷ []; payload = 7 ∷ 9 ∷ [] }

parse_reclaim_example :
    parse_reclaim little_endian (or_empty (serialize_reclaim little_endian work)) ≡ ok work
unfolding serialize_reclaim
parse_reclaim_example =
    parse_reclaim-serialize_reclaim little_endian work (omega arith) (omega arith) refl

parse_pending_delete_example :
    parse_pending_delete little_endian (or_empty (serialize_pending_delete little_endian pending))
    ≡ ok pending
unfolding serialize_pending_delete
parse_pending_delete_example =
    parse_pending_delete-serialize_pending_delete little_endian pending (omega arith) (omega arith)
      refl

abbrev node : Inode
node = record {
  ino = 3;
  attr = new_attr (pos 5) 3 33188 0 0;
  parent_ino = 1;
  symlink_target = [];
  xattrs = (97 ∷ [], 1 ∷ []) ∷ (98 ∷ [], []) ∷ [];
}

node-IsWideAttr : IsWideAttr node.attr
unfolding new_attr
node-IsWideAttr = record {
  dev_width = omega arith;
  ino_width = omega arith;
  mode_width = omega arith;
  nlink_width = omega arith;
  uid_width = omega arith;
  gid_width = omega arith;
  rdev_width = omega arith;
  size_width = omega arith;
  blksize_width = omega arith;
  blocks_width = omega arith;
  atime_width = omega arith;
  atime_nsec_width = omega arith;
  mtime_width = omega arith;
  mtime_nsec_width = omega arith;
  ctime_width = omega arith;
  ctime_nsec_width = omega arith;
  btime_width = omega arith;
  btime_nsec_width = omega arith;
  flags_width = omega arith;
  valid = refl;
}

parse_inode_example :
    parse_inode little_endian (or_empty (serialize_inode little_endian node)) ≡ ok node
unfolding serialize_inode AreInOrder IsBehind same_text text_less new_attr
parse_inode_example =
    parse_inode-serialize_inode little_endian node
      (record {
        ino_width = omega arith;
        attr_width = node-IsWideAttr;
        parent_width = omega arith;
        target_width = omega arith;
        count_width = omega arith;
        ordered = (
          refl,
          omega arith,
          omega arith,
          tt,
          (refl, omega arith, omega arith, (refl, refl, tt), tt),
        );
        same_number = refl;
      })
      refl

abbrev volume : Volume
volume = record {
  name = 118 ∷ [];
  storage = 115 ∷ 51 ∷ [];
  bucket = 98 ∷ [];
  region = [];
  chunk_size = 67108864;
  chunk_type = chunk_slice;
  enable_posix_acl = true;
}

parse_volume_example :
    parse_volume little_endian (serialize_volume little_endian volume) ≡ ok volume
parse_volume_example =
    parse_volume-serialize_volume little_endian volume
      (record {
        name_width = omega arith;
        storage_width = omega arith;
        bucket_width = omega arith;
        region_width = omega arith;
        chunk_size_width = omega arith;
      })
      refl
