-- ===== src/Meta/Entries.antt =====
-- src/metadata/redis/RedisMetaTxn.cpp: names in directories. An operation returns the inodes that
-- the source changes through its pointers.
use sword_fs.Prelude.{ℕ, ◌+◌, ◌-◌, ◌%◌, ◌^◌, ◌||◌, ◌&&◌, not, leb, ◌==◌, if◌then◌else◌, [], ◌∷◌}
use sword_fs.Prelude.Int.{pos, negsuc}
use sword_fs.Prelude.Text.{Text}
use sword_fs.Status.{Result, ok, err, Code, Status}
use sword_fs.Inode.{InodeId, Inode, SetAttrField, field_bit, mtime_and_ctime, is_dir, touch}
use sword_fs.Inode.Policy.{
  check_content_metadata_mutation_policy, check_directory_addition_policy,
  check_directory_removal_policy,
}
use sword_fs.Inode.SetAttr.{on_attr}
use sword_fs.Inode.Create.{mode_to_dt}
use sword_fs.Record.{serialize_entry, parse_entry}
use sword_fs.Meta.{
  Host, directory, orphans, hset, hdel, Action, lift, require, return, attempt, ◌>>=◌, ◌>>◌, hget,
  hlen, write,
}
use sword_fs.Meta.Decimal.{to_string}
use sword_fs.Meta.Inodes.{
  is_not_found, adjust_nlink, lookup_referenced, lookup_entry_in, set_inode, delete_inode,
  adjust_inode_count,
}

-- `child.IsDir()` counts a link of the parent.
abbrev pub with_nlink : ℕ → Inode → Inode
with_nlink nlink node = on_attr (λ attr. record attr { nlink = nlink }) node

-- What a caller of a lookup that must fail makes of its result.
abbrev pub absent_or : Result Inode → Status
absent_or (ok node) = err Code.already_exists
absent_or (err code) = if is_not_found code then ok tt else err code

module _ (host : Host) where
  unfoldable pub clear_orphan_marker : InodeId → Action (Unit {0})
  clear_orphan_marker ino = write host (hdel orphans (to_string ino))

  -- `LinkEntry` and `ReplaceEntry` write an entry alike.
  unfoldable pub put_entry : InodeId → Text → Inode → Action (Unit {0})
  put_entry parent_ino name child = do
    value ← lift (
        serialize_entry host.words
          (record { name = name; type = mode_to_dt child.attr.mode; ino = child.ino }))
    write host (hset (directory parent_ino) name value)

  abbrev pub touch_directory : Inode → Inode
  touch_directory parent = touch host.now mtime_and_ctime parent

  -- `parent->attr.nlink++` and the touch
  unfoldable pub linked_parent : Inode → Inode → Inode
  linked_parent child parent =
      touch_directory
        (if is_dir child then with_nlink (((parent.attr).nlink + 1) % 2 ^ 64) parent else parent)

  unfoldable pub detached_parent : Inode → Inode → Inode
  detached_parent target parent =
      touch_directory
        (if is_dir target then with_nlink ((parent.attr).nlink - 1) parent else parent)

  unfoldable pub link_entry : InodeId → Text → Inode → Inode → Action Inode
  link_entry parent_ino name child parent = do
    require (not (is_dir parent)) Code.not_directory
    put_entry parent_ino name child
    return (linked_parent child parent)

  unfoldable pub detach_entry : InodeId → Text → Inode → Inode → Action Inode
  detach_entry parent_ino name target parent = do
    require (not (is_dir parent)) Code.not_directory
    require (is_dir target && leb parent.attr.nlink 2) Code.malformed
    write host (hdel (directory parent_ino) name)
    return (detached_parent target parent)

  unfoldable pub replace_entry : InodeId → Text → Inode → Inode → Action Inode
  replace_entry parent_ino name child parent = do
    require (not (is_dir parent)) Code.not_directory
    put_entry parent_ino name child
    return (touch_directory parent)

  -- The inode that a name of `AddEntry` leads to already.
  unfoldable pub existing_entry : InodeId → Text → Action Inode
  existing_entry parent_ino name = do
    value ← hget host (directory parent_ino) name
    entry ← lift (parse_entry host.words value)
    lookup_referenced host entry.ino

  unfoldable pub add_entry : InodeId → Text → Inode → Inode → Action Inode
  add_entry parent_ino name child parent = do
    require (not (parent.ino == parent_ino) || not (child.parent_ino == parent_ino))
        Code.invalid_argument
    lift (check_directory_addition_policy parent.attr)
    existing ← attempt (existing_entry parent_ino name)
    lift (absent_or existing)
    set_inode host child
    linked ← link_entry parent_ino name child parent
    set_inode host linked
    adjust_inode_count host (pos 1)
    return linked

  -- `if (child->attr.nlink == 0) { ... }`
  unfoldable pub mark_orphan : Inode → Action (Unit {0})
  mark_orphan child =
      if (child.attr).nlink == 0
      then write host (hset orphans (to_string child.ino) (49 ∷ []))
      else return tt

  unfoldable pub unlink_file : InodeId → Text → Inode → Inode → Action (Inode × Inode)
  unlink_file parent_ino name parent child = do
    require (not (parent.ino == parent_ino)) Code.invalid_argument
    require (is_dir child) Code.invalid_argument
    lift (check_directory_removal_policy parent.attr)
    lift (check_content_metadata_mutation_policy child.attr)
    fewer ← lift (adjust_nlink child (negsuc 0))
    let left = touch host.now (field_bit SetAttrField.ctime_field) fewer
    detached ← detach_entry parent_ino name left parent
    set_inode host detached
    set_inode host left
    mark_orphan left
    return (detached, left)

  unfoldable pub remove_directory : InodeId → Text → Inode → Inode → Action Inode
  remove_directory parent_ino name parent child = do
    require (not (parent.ino == parent_ino) || not (child.parent_ino == parent_ino))
        Code.invalid_argument
    require (not (is_dir child)) Code.not_directory
    lift (check_directory_removal_policy parent.attr)
    lift (check_content_metadata_mutation_policy child.attr)
    count ← hlen host (directory child.ino)
    require (not (count == 0)) Code.not_empty
    detached ← detach_entry parent_ino name child parent
    delete_inode host child.ino
    set_inode host detached
    return detached

  -- `if (was_orphan) { ... }`
  unfoldable pub revive : Inode → Action (Unit {0})
  revive node = if (node.attr).nlink == 0 then clear_orphan_marker node.ino else return tt

  unfoldable pub link_existing_entry : InodeId → Text → Inode → Inode → Action (Inode × Inode)
  link_existing_entry parent_ino name parent node = do
    require (not (parent.ino == parent_ino)) Code.invalid_argument
    require (not (is_dir parent)) Code.not_directory
    require (is_dir node) Code.not_permitted
    lift (check_directory_addition_policy parent.attr)
    lift (check_content_metadata_mutation_policy node.attr)
    existing ← attempt (lookup_entry_in host parent name)
    lift (absent_or existing)
    linked ← link_entry parent_ino name node parent
    more ← lift (adjust_nlink node (pos 1))
    revive node
    let touched = touch host.now (field_bit SetAttrField.ctime_field) more
    set_inode host linked
    set_inode host touched
    return (linked, touched)
