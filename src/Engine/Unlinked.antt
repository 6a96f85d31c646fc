-- ===== src/Engine/Unlinked.antt =====
-- `RedisMetaImpl::Unlink` and `CreateNode` as a whole: what they have found, and what they queue.
use sword_fs.Prelude.{
  not-false, ℕ, ◌+◌, ◌-◌, ◌*◌, ◌/◌, ◌%◌, ◌^◌, bit_and, ◌⊎◌, true, false, Option, none, some, ==_iff,
  List, [], ◌≡◌, ◌≢◌, ◌∙◌,
}
use sword_fs.Prelude.Text.{Text, lookup}
use sword_fs.Status.{ok}
use sword_fs.Acl.{AclEntry}
use sword_fs.Inode.{InodeId, Inode, Attr, mode_is_dir, is_symlink, is_dir, check_sticky_delete}
use sword_fs.Inode.PosixAcl.{
  default_xattr, set_mode, parse_stored_acl, restrict_to_mode, inherit_acl,
}
use sword_fs.Meta.{Host, Queue}
use sword_fs.Meta.Acts.{require-eq-ok}
use sword_fs.Meta.Inodes.{lookup_inode, lookup_entry_in}
use sword_fs.Meta.Proofs.Unlink.{IsUnlinked, unlink_file-IsUnlinked}
use sword_fs.Meta.Proofs.Link.{IsAdded}
use sword_fs.Engine.{Context}
use sword_fs.Engine.Lookups.{read_first, lookup_inode-named, lookup_entry_in-named}
use sword_fs.Engine.Names.{is_other, unlink}

is_other_inv :
    (expected_ino : Option InodeId) (ino : InodeId)
    → is_other expected_ino ino ≡ false
    → (expected : InodeId) → expected_ino ≡ some expected
    → ino ≡ expected
is_other_inv none ino same = λ expected e. absurd cc
is_other_inv (some other) ino same = λ expected e.
    let there : ino ≡ other = (==_iff ino other).0 (not-false _ same) in
    let named : other ≡ expected = cc in there ∙ named

module _ (host : Host) (ctx : Context) (parent_ino : InodeId) (name : Text) where
  pub record IsRemoved (expected_ino : Option InodeId) (detached left : Inode) (after : Queue)
      : Type 0 where
    pub parent : Inode
    pub child : Inode
    pub parent_read : lookup_inode host parent_ino [] ≡ ok (parent, [])
    pub child_read : lookup_entry_in host parent name [] ≡ ok (child, [])
    pub parent_directory : is_dir parent ≡ true
    pub child_file : is_dir child ≡ false
    pub as_expected : (expected : InodeId) → expected_ino ≡ some expected → child.ino ≡ expected
    pub allowed : check_sticky_delete parent ctx.uid child ≡ true
    pub unlinked : IsUnlinked host parent_ino name parent child detached left [] after

  -- An unlink that succeeds has found a file, no directory, under that name: the one that the caller
  -- expects, if it expects one, and one that the caller may take out of its directory. What it
  -- queues is the removal of that one name.
  pub unlink-IsRemoved :
      (expected_ino : Option InodeId) {detached left : Inode} {after : Queue}
      → unlink host ctx parent_ino name expected_ino [] ≡ ok ((detached, left), after)
      → IsRemoved expected_ino detached left after
  unfolding unlink
  unlink-IsRemoved expected_ino e =
      let (parent, read_parent, e1) =
        read_first (lookup_inode host parent_ino) _ []
          (λ v q s. (lookup_inode-named host parent_ino [] s).1) e in
      let (is_directory, e2) = require-eq-ok _ _ _ [] e1 in
      let (child, read_child, e3) =
        read_first (lookup_entry_in host parent name) _ []
          (λ v q s. (lookup_entry_in-named host parent name [] s).1) e2 in
      let (same, e4) = require-eq-ok _ _ _ [] e3 in
      let (file, e5) = require-eq-ok _ _ _ [] e4 in
      let (allowed, e6) = require-eq-ok _ _ _ [] e5 in
      record {
        parent = parent;
        child = child;
        parent_read = read_parent;
        child_read = read_child;
        parent_directory = not-false (is_dir parent) is_directory;
        child_file = file;
        as_expected = is_other_inv expected_ino child.ino same;
        allowed = not-false (check_sticky_delete parent ctx.uid child) allowed;
        unlinked = unlink_file-IsUnlinked host parent_ino name parent child [] e6;
      }

  -- What a new inode of that mode has before the access lists count: the parent's group in a directory
  -- with the setgid bit, which a new directory takes over, and the caller's elsewhere.
  pub data IsTaken (parent : Attr) (mode gid given : ℕ) : Type 0 where
    own_group :
        parent.mode / 2 ^ 10 % 2 ≢ 1 → gid ≡ ctx.gid → given ≡ mode → IsTaken parent mode gid given
    file_of_group :
        parent.mode / 2 ^ 10 % 2 ≡ 1
        → mode_is_dir mode ≡ false
        → gid ≡ parent.gid
        → given ≡ mode
        → IsTaken parent mode gid given
    directory_of_group :
        parent.mode / 2 ^ 10 % 2 ≡ 1
        → mode_is_dir mode ≡ true
        → gid ≡ parent.gid
        → ((mode / 2 ^ 10 % 2 ≡ 1) × (given ≡ mode))
          ⊎ ((mode / 2 ^ 10 % 2 ≢ 1) × (given ≡ mode + 2 ^ 10))
        → IsTaken parent mode gid given

  -- What the access lists make of it: a symbolic link is left alone, and the umask counts where the
  -- parent has no default list.
  pub data IsInherited (parent base child : Inode) : Type 0 where
    symbolic_link : is_symlink base ≡ true → child ≡ base → IsInherited parent base child
    masked :
        is_symlink base ≡ false
        → lookup default_xattr parent.xattrs ≡ none
        → child
          ≡ set_mode base (
              base.attr.mode / 2 ^ 9 * 2 ^ 9
              + (base.attr.mode % 2 ^ 9 - bit_and (base.attr.mode % 2 ^ 9) ctx.umask))
        → IsInherited parent base child
    listed :
        (value : Text) (acl : List AclEntry)
        → is_symlink base ≡ false
        → lookup default_xattr parent.xattrs ≡ some value
        → parse_stored_acl value ≡ ok acl
        → child ≡ inherit_acl value (restrict_to_mode base.attr.mode acl) base
        → IsInherited parent base child

  pub record IsCreated (child_ino : InodeId) (mode rdev : ℕ) (child : Inode) (after : Queue)
      : Type 0 where
    pub parent : Inode
    pub linked : Inode
    pub parent_read : lookup_inode host parent_ino [] ≡ ok (parent, [])
    pub parent_directory : is_dir parent ≡ true
    pub base : Inode
    pub named : (base.ino ≡ child_ino) × (base.parent_ino ≡ parent_ino) × (base.xattrs ≡ [])
    pub owned : (base.attr.uid ≡ ctx.uid) × (base.attr.rdev ≡ rdev)
    pub taken : IsTaken parent.attr mode base.attr.gid base.attr.mode
    pub inherited : IsInherited parent base child
    pub added : IsAdded host parent_ino name child parent linked [] after
