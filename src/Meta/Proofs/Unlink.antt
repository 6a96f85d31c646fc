-- ===== src/Meta/Proofs/Unlink.antt =====
-- `UnlinkFile`.
use sword_fs.Prelude.{
  suc, false, ltb, ◌==◌, if◌then◌else◌, [], ◌∷◌, ◌++◌, ◌≡◌, inl, inr, sym, ap, ◌∙◌, subst, arith,
  Bool-cases, append-nil,
}
use sword_fs.Prelude.Int.{negsuc}
use sword_fs.Prelude.Text.{Text}
use sword_fs.Status.{ok, Code, fail_if-eq-ok}
use sword_fs.Inode.{
  InodeId, Inode, Attr, SetAttrField, field_bit, mtime_and_ctime, touch, mode_is_dir, is_dir,
}
use sword_fs.Inode.Touch.{touch-mode, touch-nlink}
use sword_fs.Inode.Policy.{
  has_restrictive_inode_policy, check_directory_removal_policy,
  check_content_metadata_mutation_policy,
}
use sword_fs.Meta.{Host, Queue, Command, hset, hdel, directory, orphans}
use sword_fs.Meta.Acts.{
  continue-eq-ok, lift-continue, require-eq-ok, return-eq-ok, write-eq-ok, grow,
}
use sword_fs.Meta.Decimal.{to_string}
use sword_fs.Meta.Inodes.{adjust_nlink}
use sword_fs.Meta.Entries.{unlink_file, detached_parent, mark_orphan}
use sword_fs.Meta.Proofs.Writes.{IsRecordOf, set_inode-IsRecordOf, detach_entry-eq-ok}

pub unrestricted :
    (attr : Attr)
    → check_directory_removal_policy attr ≡ ok tt
    → has_restrictive_inode_policy attr ≡ false
unfolding check_directory_removal_policy
unrestricted attr passed = fail_if-eq-ok _ Code.not_permitted passed

pub unrestricted_content :
    (attr : Attr)
    → check_content_metadata_mutation_policy attr ≡ ok tt
    → has_restrictive_inode_policy attr ≡ false
unfolding check_content_metadata_mutation_policy
unrestricted_content attr passed = fail_if-eq-ok _ Code.not_permitted passed

-- One link fewer.
adjust_nlink-negsuc :
    (node fewer : Inode)
    → adjust_nlink node (negsuc 0) ≡ ok fewer
    → ((node.attr).nlink ≡ suc ((fewer.attr).nlink))
      × (fewer.ino ≡ node.ino)
      × (is_dir fewer ≡ is_dir node)
unfolding adjust_nlink is_dir
adjust_nlink-negsuc node fewer done = elim (Bool-cases (ltb ((node.attr).nlink) 1)) [
  | inl none_left ↦ let given = rw none_left at done in cc
  | inr some_left ↦ let given = rw some_left at done in (ground arith, cc, cc)
]

module _ (host : Host) where
  -- The orphan's marker, where the last name has gone.
  pub markers : Inode → Queue
  markers left =
      if (left.attr).nlink == 0 then hset orphans (to_string left.ino) (49 ∷ []) ∷ [] else []

  mark_orphan-eq-ok :
      (left : Inode) (queue : Queue) {value : Unit {0}} {after : Queue}
      → mark_orphan host left queue ≡ ok (value, after)
      → after ≡ queue ++ markers left
  unfolding mark_orphan markers
  mark_orphan-eq-ok left queue ended = elim (Bool-cases ((left.attr).nlink == 0)) [
    | inl gone ↦
        rw gone
          (write-eq-ok host (hset orphans (to_string left.ino) (49 ∷ [])) queue (rw gone at ended))
    | inr named ↦ rw named ((return-eq-ok tt queue (rw named at ended)).1 ∙ sym (append-nil queue))
  ]

  pub record IsUnlinked (parent_ino : InodeId) (name : Text) (parent child detached left : Inode)
      (queue after : Queue) : Type 0 where
    pub parent_free : has_restrictive_inode_policy parent.attr ≡ false
    pub child_free : has_restrictive_inode_policy child.attr ≡ false
    pub link_gone : (child.attr).nlink ≡ suc ((left.attr).nlink)
    pub parent_links : (detached.attr).nlink ≡ (parent.attr).nlink
    pub parent_record : Command
    pub child_record : Command
    pub holds_parent : IsRecordOf host detached parent_record
    pub holds_child : IsRecordOf host left child_record
    pub queued :
        after
        ≡ queue ++ hdel (directory parent_ino) name ∷ parent_record ∷ child_record ∷ markers left

  detached_file-nlink :
      (target parent : Inode)
      → is_dir target ≡ false
      → ((detached_parent host target parent).attr).nlink ≡ (parent.attr).nlink
  unfolding detached_parent
  detached_file-nlink target parent file =
      rw (detached_parent, file) (touch-nlink host.now mtime_and_ctime parent)

  -- Where `UnlinkFile` succeeds, neither inode was immutable or append-only, the file has one link
  -- fewer and the directory as many as before. The queue has got the removal of the name, the two
  -- inodes as they are returned, and the orphan's marker exactly where no link is left.
  pub unlink_file-IsUnlinked :
      (parent_ino : InodeId) (name : Text) (parent child : Inode) (queue : Queue)
      {detached left : Inode} {after : Queue}
      → unlink_file host parent_ino name parent child queue ≡ ok ((detached, left), after)
      → IsUnlinked parent_ino name parent child detached left queue after
  unfolding unlink_file is_dir
  unlink_file-IsUnlinked parent_ino name parent child queue {detached} {left} {after} ended =
      let (_, e1) = require-eq-ok _ _ _ queue ended in
      let (file, e2) = require-eq-ok _ _ _ queue e1 in
      let (_, p, e3) = lift-continue _ _ queue e2 in
      let (_, c, e4) = lift-continue _ _ queue e3 in
      let (fewer, adjusted, e5) = lift-continue _ _ queue e4 in
      let touched = touch host.now (field_bit SetAttrField.ctime_field) fewer in
      let (detached1, q1, detach, e6) = continue-eq-ok _ _ e5 in
      let (_, q2, put_parent, e7) = continue-eq-ok _ _ e6 in
      let (_, q3, put_child, e8) = continue-eq-ok _ _ e7 in
      let (_, q4, marked, e9) = continue-eq-ok _ _ e8 in
      let (same, unchanged) = return-eq-ok _ q4 e9 in
      let (is_detached, dropped) =
        detach_entry-eq-ok host parent_ino name touched parent queue detach in
      let (parent_record, holds_parent, wrote_parent) =
        set_inode-IsRecordOf host detached1 q1 put_parent in
      let (child_record, holds_child, wrote_child) =
        set_inode-IsRecordOf host touched q2 put_child in
      let wrote_marker = mark_orphan-eq-ok touched q3 marked in
      let (fewer_by_one, _, same_dir) = adjust_nlink-negsuc child fewer adjusted in
      subst (λ both. IsUnlinked parent_ino name parent child (both.0) (both.1) queue after)
        (sym same)
        (record {
          parent_free = unrestricted parent.attr p;
          child_free = unrestricted_content child.attr c;
          link_gone = fewer_by_one ∙ ap suc (sym (touch-nlink host.now _ fewer));
          parent_links =
              ap (λ node. (node.attr).nlink) is_detached
              ∙ detached_file-nlink touched parent
                  (ap mode_is_dir (touch-mode host.now _ fewer) ∙ same_dir ∙ file);
          parent_record = parent_record;
          child_record = child_record;
          holds_parent = holds_parent;
          holds_child = holds_child;
          queued =
              grow queue _ _ dropped
                (grow q1 _ _ wrote_parent (grow q2 _ _ wrote_child (unchanged ∙ wrote_marker)));
        })
