-- ===== src/Engine/Names.antt =====
-- src/metadata/redis/RedisMetaImpl.cpp: the transactions of `CreateNode`, `Symlink`, `Unlink`,
-- `RmDir` and `Link`, and the tests in front of them.
use sword_fs.Prelude.{ℕ, ◌+◌, ◌*◌, ◌%◌, ◌^◌, Bool, false, not, ◌==◌, Option, none, some, [], length}
use sword_fs.Prelude.Text.{Text}
use sword_fs.Status.{Code}
use sword_fs.Inode.{InodeId, Inode, is_dir, new_attr, check_sticky_delete}
use sword_fs.Inode.Create.{resolve_create_inheritance}
use sword_fs.Inode.PosixAcl.{apply_posix_acl_create_inheritance}
use sword_fs.Meta.{Host, Action, lift, require, return, ◌>>=◌, ◌>>◌}
use sword_fs.Meta.Inodes.{lookup_inode, lookup_entry_in}
use sword_fs.Meta.Entries.{add_entry, unlink_file, remove_directory, link_existing_entry}
use sword_fs.Engine.{Context, require_directory}

-- `S_IFREG | (mode & 07777)`, `S_IFDIR | (mode & 0777)` and `S_IFLNK | 0777`
abbrev pub regular_mode : ℕ → ℕ
regular_mode mode = 8 * 2 ^ 12 + mode % 2 ^ 12

abbrev pub directory_mode : ℕ → ℕ
directory_mode mode = 4 * 2 ^ 12 + mode % 2 ^ 9

abbrev pub symlink_mode : ℕ
symlink_mode = 10 * 2 ^ 12 + 511

-- `expected_ino.has_value() && child.ino != *expected_ino`
abbrev pub is_other : Option InodeId → InodeId → Bool
is_other none ino = false
is_other (some expected) ino = not (ino == expected)

module _ (host : Host) (ctx : Context) where
  -- The inode of `CreateNode` before it takes the access lists of its parent.
  unfoldable pub new_node : InodeId → InodeId → ℕ → ℕ → Inode → Inode
  new_node child_ino parent_ino mode rdev parent =
      let inheritance = resolve_create_inheritance ctx.gid parent.attr mode in
      record {
        ino = child_ino;
        attr = record (new_attr host.now child_ino inheritance.mode ctx.uid inheritance.gid) {
          rdev = rdev;
        };
        parent_ino = parent_ino;
        symlink_target = [];
        xattrs = [];
      }

  unfoldable pub create_node : InodeId → InodeId → Text → ℕ → ℕ → Action Inode
  create_node child_ino parent_ino name mode rdev = do
    parent ← lookup_inode host parent_ino
    require_directory parent
    child ← lift (
        apply_posix_acl_create_inheritance parent ctx.umask
          (new_node child_ino parent_ino mode rdev parent))
    linked ← add_entry host parent_ino name child parent
    return child

  unfoldable pub new_symlink : InodeId → InodeId → Text → Inode → Inode
  new_symlink child_ino parent_ino link parent =
      let inheritance = resolve_create_inheritance ctx.gid parent.attr symlink_mode in
      record {
        ino = child_ino;
        attr = record (new_attr host.now child_ino inheritance.mode ctx.uid inheritance.gid) {
          size = length link;
        };
        parent_ino = parent_ino;
        symlink_target = link;
        xattrs = [];
      }

  unfoldable pub symlink : InodeId → InodeId → Text → Text → Action Inode
  symlink child_ino parent_ino name link = do
    parent ← lookup_inode host parent_ino
    require_directory parent
    linked ← add_entry host parent_ino name (new_symlink child_ino parent_ino link parent) parent
    return (new_symlink child_ino parent_ino link parent)

  -- The parent and the file behind the removal.
  unfoldable pub unlink : InodeId → Text → Option InodeId → Action (Inode × Inode)
  unlink parent_ino name expected_ino = do
    parent ← lookup_inode host parent_ino
    require_directory parent
    child ← lookup_entry_in host parent name
    require (is_other expected_ino child.ino) Code.busy
    require (is_dir child) Code.invalid_argument
    require (not (check_sticky_delete parent ctx.uid child)) Code.permission
    unlink_file host parent_ino name parent child

  unfoldable pub rm_dir : InodeId → Text → Action Inode
  rm_dir parent_ino name = do
    parent ← lookup_inode host parent_ino
    require_directory parent
    child ← lookup_entry_in host parent name
    require_directory child
    require (not (check_sticky_delete parent ctx.uid child)) Code.permission
    remove_directory host parent_ino name parent child

module _ (host : Host) where
  unfoldable pub link : InodeId → InodeId → Text → Action Inode
  link ino newparent_ino newname = do
    node ← lookup_inode host ino
    require (is_dir node) Code.not_permitted
    parent ← lookup_inode host newparent_ino
    require_directory parent
    linked ← link_existing_entry host newparent_ino newname parent node
    return (linked.1)
