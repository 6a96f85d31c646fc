-- ===== src/Meta/Proofs/Link.antt =====
-- `LinkExistingEntry` and `AddEntry`.
use sword_fs.Prelude.{
  ◌+◌, ◌%◌, ◌^◌, false, ◌==◌, ==_iff, not-false, if◌then◌else◌, [], ◌∷◌, ◌++◌, ◌≡◌, inl, inr, sym,
  ap, ◌∙◌, subst, Bool-cases, append-nil,
}
use sword_fs.Prelude.Int.{pos}
use sword_fs.Prelude.Text.{Text}
use sword_fs.Status.{ok, Code, fail_if-eq-ok}
use sword_fs.Inode.{InodeId, Inode, Attr, mtime_and_ctime, is_dir}
use sword_fs.Inode.Touch.{touch-nlink}
use sword_fs.Inode.Policy.{
  is_immutable, has_restrictive_inode_policy, check_directory_addition_policy,
}
use sword_fs.Meta.{Host, Queue, Command, missing, hdel, incr_by, directory, orphans, inode_count}
use sword_fs.Meta.Acts.{
  continue-eq-ok, lift-continue, require-eq-ok, return-eq-ok, write-eq-ok, grow, grow_by,
}
use sword_fs.Meta.Decimal.{to_string}
use sword_fs.Meta.Inodes.{adjust_nlink, lookup_entry_in, adjust_inode_count}
use sword_fs.Meta.Entries.{
  add_entry, existing_entry, link_existing_entry, linked_parent, revive, clear_orphan_marker,
}
use sword_fs.Meta.Proofs.Writes.{IsRecordOf, IsEntryOf, set_inode-IsRecordOf, link_entry-eq-ok}
use sword_fs.Meta.Proofs.Absent.{
  absent_or-eq-ok, attempt-eq-ok, existing_entry-missing, lookup_entry_in-missing,
}
use sword_fs.Meta.Proofs.Unlink.{unrestricted_content}

open_to_additions :
    (attr : Attr) → check_directory_addition_policy attr ≡ ok tt → is_immutable attr ≡ false
unfolding check_directory_addition_policy
open_to_additions attr passed = fail_if-eq-ok _ Code.not_permitted passed

adjust_nlink-one :
    (node more : Inode)
    → adjust_nlink node (pos 1) ≡ ok more
    → (more.attr).nlink ≡ ((node.attr).nlink + 1) % 2 ^ 64
unfolding adjust_nlink
adjust_nlink-one node more done = cc

module _ (host : Host) where
  -- The removal of the orphan's marker, where the inode had no name.
  pub revivals : Inode → Queue
  revivals node = if (node.attr).nlink == 0 then hdel orphans (to_string node.ino) ∷ [] else []

  revive-eq-ok :
      (node : Inode) (queue : Queue) {value : Unit {0}} {after : Queue}
      → revive host node queue ≡ ok (value, after)
      → after ≡ queue ++ revivals node
  unfolding revive clear_orphan_marker revivals
  revive-eq-ok node queue ended = elim (Bool-cases ((node.attr).nlink == 0)) [
    | inl gone ↦
        rw gone (write-eq-ok host (hdel orphans (to_string node.ino)) queue (rw gone at ended))
    | inr named ↦ rw named ((return-eq-ok tt queue (rw named at ended)).1 ∙ sym (append-nil queue))
  ]

  linked_file-nlink :
      (child parent : Inode)
      → is_dir child ≡ false
      → ((linked_parent host child parent).attr).nlink ≡ (parent.attr).nlink
  unfolding linked_parent
  linked_file-nlink child parent file =
      rw (linked_parent, file) (touch-nlink host.now mtime_and_ctime parent)

  pub record IsLinked (parent_ino : InodeId) (name : Text) (parent node linked touched : Inode)
      (queue after : Queue) : Type 0 where
    pub parent_named : parent.ino ≡ parent_ino
    pub parent_open : is_immutable parent.attr ≡ false
    pub node_free : has_restrictive_inode_policy node.attr ≡ false
    pub file : is_dir node ≡ false
    pub name_free : host.hget_answer (directory parent_ino) name ≡ missing
    pub one_link_more : (touched.attr).nlink ≡ ((node.attr).nlink + 1) % 2 ^ 64
    pub parent_links : (linked.attr).nlink ≡ (parent.attr).nlink
    pub entry : Command
    pub parent_record : Command
    pub node_record : Command
    pub holds_entry : IsEntryOf host parent_ino name node entry
    pub holds_parent : IsRecordOf host linked parent_record
    pub holds_node : IsRecordOf host touched node_record
    pub queued : after ≡ queue ++ entry ∷ (revivals node ++ parent_record ∷ node_record ∷ [])

  -- Where `LinkExistingEntry` succeeds, the name was free in the directory that gets it, the inode is no directory and neither
  -- immutable nor append-only, and it has one link more. The queue has got the entry, the removal
  -- of the orphan's marker exactly where the inode had no link, and the two inodes as returned.
  pub link_existing_entry-IsLinked :
      (parent_ino : InodeId) (name : Text) (parent node : Inode) (queue : Queue)
      {linked touched : Inode} {after : Queue}
      → link_existing_entry host parent_ino name parent node queue ≡ ok ((linked, touched), after)
      → IsLinked parent_ino name parent node linked touched queue after
  unfolding link_existing_entry
  link_existing_entry-IsLinked parent_ino name parent node queue {linked} {touched} {after} ended =
      let (named, e1) = require-eq-ok _ _ _ queue ended in
      let (directory_parent, e2) = require-eq-ok _ _ _ queue e1 in
      let (file, e3) = require-eq-ok _ _ _ queue e2 in
      let (_, p, e4) = lift-continue _ _ queue e3 in
      let (_, c, e5) = lift-continue _ _ queue e4 in
      let (existing, q0, attempted, e6) = continue-eq-ok _ _ e5 in
      let (_, absent, e7) = lift-continue _ _ q0 e6 in
      let (linked1, q1, link, e8) = continue-eq-ok _ _ e7 in
      let (more, adjusted, e9) = lift-continue _ _ q1 e8 in
      let (_, q2, revived, e10) = continue-eq-ok _ _ e9 in
      let (_, q3, put_parent, e11) = continue-eq-ok _ _ e10 in
      let (_, q4, put_node, e12) = continue-eq-ok _ _ e11 in
      let (same, unchanged) = return-eq-ok _ q4 e12 in
      let (not_found, kept) =
        attempt-eq-ok (lookup_entry_in host parent name) queue attempted
          (absent_or-eq-ok existing absent) in
      let (_, name_free) =
        lookup_entry_in-missing host parent name queue directory_parent not_found in
      let (is_linked, (entry, holds_entry, wrote_entry)) =
        link_entry-eq-ok host parent_ino name node parent q0 link in
      let (parent_record, holds_parent, wrote_parent) =
        set_inode-IsRecordOf host linked1 q2 put_parent in
      let (node_record, holds_node, wrote_node) = set_inode-IsRecordOf host _ q3 put_node in
      subst (λ both. IsLinked parent_ino name parent node (both.0) (both.1) queue after) (sym same)
        (record {
          parent_named = (==_iff parent.ino parent_ino).0 (not-false _ named);
          parent_open = open_to_additions parent.attr p;
          node_free = unrestricted_content node.attr c;
          file = file;
          name_free =
              subst (λ (n : InodeId). host.hget_answer (directory n) name ≡ missing)
                ((==_iff parent.ino parent_ino).0 (not-false _ named)) name_free;
          one_link_more = touch-nlink host.now _ more ∙ adjust_nlink-one node more adjusted;
          parent_links =
              ap (λ directory. (directory.attr).nlink) is_linked
              ∙ linked_file-nlink node parent file;
          entry = entry;
          parent_record = parent_record;
          node_record = node_record;
          holds_entry = holds_entry;
          holds_parent = holds_parent;
          holds_node = holds_node;
          queued = grow queue entry _ (wrote_entry ∙ ap (λ q. q ++ entry ∷ []) kept) (
              grow_by q1 (revivals node) _ (revive-eq-ok node q1 revived)
                (grow q2 _ _ wrote_parent (unchanged ∙ wrote_node)));
        })

  pub record IsAdded (parent_ino : InodeId) (name : Text) (child parent linked : Inode)
      (queue after : Queue) : Type 0 where
    pub parent_open : is_immutable parent.attr ≡ false
    pub name_free : host.hget_answer (directory parent_ino) name ≡ missing
    pub parent_changed : linked ≡ linked_parent host child parent
    pub entry : Command
    pub parent_record : Command
    pub child_record : Command
    pub holds_entry : IsEntryOf host parent_ino name child entry
    pub holds_parent : IsRecordOf host linked parent_record
    pub holds_child : IsRecordOf host child child_record
    pub queued :
        after ≡ queue ++ child_record ∷ entry ∷ parent_record ∷ incr_by inode_count (pos 1) ∷ []

  -- Where `AddEntry` succeeds, the directory was not immutable and the name was free. The queue has
  -- got the new inode, its entry, the directory as returned, and one inode more to count.
  pub add_entry-IsAdded :
      (parent_ino : InodeId) (name : Text) (child parent : Inode) (queue : Queue) {linked : Inode}
      {after : Queue}
      → add_entry host parent_ino name child parent queue ≡ ok (linked, after)
      → IsAdded parent_ino name child parent linked queue after
  unfolding add_entry adjust_inode_count
  add_entry-IsAdded parent_ino name child parent queue {linked} {after} ended =
      let (_, e1) = require-eq-ok _ _ _ queue ended in
      let (_, p, e2) = lift-continue _ _ queue e1 in
      let (existing, q0, attempted, e3) = continue-eq-ok _ _ e2 in
      let (_, absent, e4) = lift-continue _ _ q0 e3 in
      let (_, q1, put_child, e5) = continue-eq-ok _ _ e4 in
      let (linked1, q2, link, e6) = continue-eq-ok _ _ e5 in
      let (_, q3, put_parent, e7) = continue-eq-ok _ _ e6 in
      let (_, q4, counted, e8) = continue-eq-ok _ _ e7 in
      let (same, unchanged) = return-eq-ok _ q4 e8 in
      let (not_found, kept) =
        attempt-eq-ok (existing_entry host parent_ino name) queue attempted
          (absent_or-eq-ok existing absent) in
      let (_, name_free) = existing_entry-missing host parent_ino name queue not_found in
      let (child_record, holds_child, wrote_child) = set_inode-IsRecordOf host child q0 put_child in
      let (is_linked, (entry, holds_entry, wrote_entry)) =
        link_entry-eq-ok host parent_ino name child parent q1 link in
      let (parent_record, holds_parent, wrote_parent) =
        set_inode-IsRecordOf host linked1 q2 put_parent in
      subst (λ node. IsAdded parent_ino name child parent node queue after) (sym same)
        (record {
          parent_open = open_to_additions parent.attr p;
          name_free = name_free;
          parent_changed = is_linked;
          entry = entry;
          parent_record = parent_record;
          child_record = child_record;
          holds_entry = holds_entry;
          holds_parent = holds_parent;
          holds_child = holds_child;
          queued = grow queue child_record _ (wrote_child ∙ ap (λ q. q ++ child_record ∷ []) kept) (
              grow q1 entry _ wrote_entry
                (grow q2 parent_record _ wrote_parent (unchanged ∙ write-eq-ok host _ q3 counted)));
        })
