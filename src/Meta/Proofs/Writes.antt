-- ===== src/Meta/Proofs/Writes.antt =====
-- The steps that the operations on names share.
use sword_fs.Prelude.{[], ◌∷◌, ◌++◌, ◌≡◌, refl, ◌∙◌}
use sword_fs.Prelude.Text.{Text}
use sword_fs.Status.{ok}
use sword_fs.Inode.{InodeId, Inode}
use sword_fs.Inode.Create.{mode_to_dt}
use sword_fs.Record.{serialize_entry}
use sword_fs.Record.Inodes.{serialize_inode}
use sword_fs.Meta.{Host, Queue, Command, set, hset, hdel, inode, directory, write}
use sword_fs.Meta.Acts.{continue-eq-ok, lift-continue, require-eq-ok, return-eq-ok, write-eq-ok}
use sword_fs.Meta.Inodes.{set_inode}
use sword_fs.Meta.Entries.{put_entry, link_entry, detach_entry, linked_parent, detached_parent}

module _ (host : Host) where
  -- The write of an inode record that holds the inode.
  pub record IsRecordOf (node : Inode) (command : Command) : Type 0 where
    pub value : Text
    pub holds : serialize_inode host.words node ≡ ok value
    pub writes : command ≡ set (inode node.ino) value

  -- The write of an entry that holds a name of the inode.
  pub record IsEntryOf (parent_ino : InodeId) (name : Text) (child : Inode) (command : Command)
      : Type 0 where
    pub value : Text
    pub holds :
        serialize_entry host.words
          (record { name = name; type = mode_to_dt (child.attr).mode; ino = child.ino })
        ≡ ok value
    pub writes : command ≡ hset (directory parent_ino) name value

  pub set_inode-IsRecordOf :
      (node : Inode) (queue : Queue) {value : Unit {0}} {after : Queue}
      → set_inode host node queue ≡ ok (value, after)
      → (command : Command) × IsRecordOf node command × (after ≡ queue ++ command ∷ [])
  unfolding set_inode
  set_inode-IsRecordOf node queue ended =
      let (valid, later) = require-eq-ok _ _ _ queue ended in
      let (bytes, held, wrote) = lift-continue (serialize_inode host.words node) _ queue later in
      (
        set (inode node.ino) bytes,
        record { value = bytes; holds = held; writes = refl },
        write-eq-ok host _ queue wrote,
      )

  pub put_entry-IsEntryOf :
      (parent_ino : InodeId) (name : Text) (child : Inode) (queue : Queue) {value : Unit {0}}
      {after : Queue}
      → put_entry host parent_ino name child queue ≡ ok (value, after)
      → (command : Command) × IsEntryOf parent_ino name child command
        × (after ≡ queue ++ command ∷ [])
  unfolding put_entry
  put_entry-IsEntryOf parent_ino name child queue ended =
      let (bytes, held, wrote) = lift-continue (serialize_entry host.words _) _ queue ended in
      (
        hset (directory parent_ino) name bytes,
        record { value = bytes; holds = held; writes = refl },
        write-eq-ok host _ queue wrote,
      )

  pub link_entry-eq-ok :
      (parent_ino : InodeId) (name : Text) (child parent : Inode) (queue : Queue) {linked : Inode}
      {after : Queue}
      → link_entry host parent_ino name child parent queue ≡ ok (linked, after)
      → (linked ≡ linked_parent host child parent)
        × ((command : Command) × IsEntryOf parent_ino name child command
            × (after ≡ queue ++ command ∷ []))
  unfolding link_entry
  link_entry-eq-ok parent_ino name child parent queue ended =
      let (is_parent, later) = require-eq-ok _ _ _ queue ended in
      let (_, middle, put, last) =
        continue-eq-ok (put_entry host parent_ino name child queue) _ later in
      let (command, entry, wrote) = put_entry-IsEntryOf parent_ino name child queue put in
      let (same, unchanged) = return-eq-ok _ middle last in
      (same, (command, entry, unchanged ∙ wrote))

  pub detach_entry-eq-ok :
      (parent_ino : InodeId) (name : Text) (target parent : Inode) (queue : Queue)
      {detached : Inode} {after : Queue}
      → detach_entry host parent_ino name target parent queue ≡ ok (detached, after)
      → (detached ≡ detached_parent host target parent)
        × (after ≡ queue ++ hdel (directory parent_ino) name ∷ [])
  unfolding detach_entry
  detach_entry-eq-ok parent_ino name target parent queue ended =
      let (is_parent, later) = require-eq-ok _ _ _ queue ended in
      let (many, last) = require-eq-ok _ _ _ queue later in
      let (_, middle, wrote, closing) =
        continue-eq-ok (write host (hdel (directory parent_ino) name) queue) _ last in
      let (same, unchanged) = return-eq-ok _ middle closing in
      (same, unchanged ∙ write-eq-ok host _ queue wrote)
