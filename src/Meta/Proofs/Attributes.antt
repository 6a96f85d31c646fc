-- ===== src/Meta/Proofs/Attributes.antt =====
-- `SetAttr`, beside `PrepareSetAttrMutation`.
use sword_fs.Prelude.{false, [], ◌∷◌, ◌++◌, ◌≡◌, sym, ap, ◌∙◌, subst}
use sword_fs.Status.{ok}
use sword_fs.Inode.{InodeId, Inode, Attr, Fields, SetAttrField, has_set_attr_field}
use sword_fs.Inode.SetAttr.{mutate_attr, sync_acl, prepare_set_attr_mutation}
use sword_fs.Meta.{Host, Queue, Command}
use sword_fs.Meta.Acts.{continue-eq-ok, lift-continue, require-eq-ok, return-eq-ok}
use sword_fs.Meta.Inodes.{changed_attr, set_attr}
use sword_fs.Meta.Ancestors.{IsStored, lookup_inode-eq-ok, lookup_inode-keeps}
use sword_fs.Meta.Proofs.Writes.{IsRecordOf, set_inode-IsRecordOf}

module _ (host : Host) where
  -- Without a size the two computations agree.
  changed_attr-mutate_attr :
      (requested : Attr) (fields : Fields) (node : Inode)
      → has_set_attr_field fields SetAttrField.size_field ≡ false
      → changed_attr host requested fields node ≡ mutate_attr host.now requested fields node
  unfolding changed_attr mutate_attr
  changed_attr-mutate_attr requested fields node sizeless = rw (changed_attr, mutate_attr, sizeless)

  pub record HasSet (ino : InodeId) (requested : Attr) (fields : Fields) (queue after : Queue)
      (result : Inode) : Type 0 where
    pub node : Inode
    pub stored : IsStored host ino node
    pub prepared : prepare_set_attr_mutation host.now node requested fields ≡ ok result
    pub command : Command
    pub holds : IsRecordOf host result command
    pub queued : after ≡ queue ++ command ∷ []

  -- Where `SetAttr` succeeds, it stores the inode that `PrepareSetAttrMutation` gives for the stored
  -- one, and nothing else: the two computations of the attributes agree.
  pub set_attr-HasSet :
      (ino : InodeId) (requested : Attr) (fields : Fields) (queue : Queue) {result : Inode}
      {after : Queue}
      → set_attr host ino requested fields queue ≡ ok (result, after)
      → HasSet ino requested fields queue after result
  unfolding set_attr prepare_set_attr_mutation
  set_attr-HasSet ino requested fields queue {result} {after} ended =
      let (sizeless, e1) = require-eq-ok _ _ _ queue ended in
      let (node, q1, looked_up, e2) = continue-eq-ok _ _ e1 in
      let (_, allowed, e3) = lift-continue _ _ q1 e2 in
      let (synced, agreed, e4) = lift-continue _ _ q1 e3 in
      let (_, q2, put, e5) = continue-eq-ok _ _ e4 in
      let (same, unchanged) = return-eq-ok _ q2 e5 in
      let (_, stored, _, _) = lookup_inode-eq-ok host ino queue looked_up in
      let (command, holds, wrote) = set_inode-IsRecordOf host synced q1 put in
      subst (HasSet ino requested fields queue after) (sym same) (record {
        node = node;
        stored = stored;
        prepared = rw allowed (
            ap (sync_acl fields) (sym (changed_attr-mutate_attr requested fields node sizeless))
            ∙ agreed);
        command = command;
        holds = holds;
        queued =
            unchanged
            ∙ wrote
            ∙ ap (λ q. q ++ command ∷ []) (lookup_inode-keeps host ino queue looked_up);
      })
