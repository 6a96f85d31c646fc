-- ===== src/Engine/Renamed.antt =====
-- `RedisMetaImpl::Rename` as a whole: the tree, the flags and the sticky bits.
use sword_fs.Prelude.{
  not-false, ℕ, true, false, not, ◌==◌, ==_iff, Option, none, some, [], ◌≡◌, ◌≢◌, sym, ◌∙◌, ap,
  subst, inl, inr, Bool-cases,
}
use sword_fs.Status.{Result, ok, err, Result-cases, ok_injective}
use sword_fs.Inode.{InodeId, Inode, is_dir, check_sticky_delete}
use sword_fs.Meta.{Host, Queue, missing, directory, attempt}
use sword_fs.Meta.Acts.{continue-eq-ok, lift-continue, require-eq-ok, return-eq-ok, attempt-keeps}
use sword_fs.Meta.Inodes.{is_not_found, lookup_inode, lookup_entry_in}
use sword_fs.Meta.Rename.{Place, Parents, Renamed, new_parent}
use sword_fs.Meta.Proofs.Absent.{is_not_found_inv, attempt-eq-ok, lookup_entry_in-missing}
use sword_fs.Engine.{Context}
use sword_fs.Engine.Lookups.{read_first, lookup_inode-named, lookup_entry_in-named}
use sword_fs.Engine.Rename.{read_new_parent, rename, target_if_found}
use sword_fs.Engine.Moved.{the_same, IsMoved, rename_to-IsMoved}

module _ (host : Host) (ctx : Context) (old new : Place) (flags : ℕ) where
  -- The target as the lookup has found it.
  pub data IsTarget (parents : Parents) : Option Inode → Type 0 where
    free :
        host.hget_answer (directory (new_parent parents).ino) new.name ≡ missing
        → IsTarget parents none
    taken :
        (target : Inode)
        → lookup_entry_in host (new_parent parents) new.name [] ≡ ok (target, [])
        → IsTarget parents (some target)

  pub record IsRenamed : Type 0 where
    pub parents : Parents
    pub source : Inode
    pub target : Option Inode
    pub old_parent_read : lookup_inode host old.parent_ino [] ≡ ok (parents.old_parent, [])
    pub new_parent_read : lookup_inode host new.parent_ino [] ≡ ok (new_parent parents, [])
    pub source_read : lookup_entry_in host parents.old_parent old.name [] ≡ ok (source, [])
    pub source_allowed : check_sticky_delete parents.old_parent ctx.uid source ≡ true
    pub target_read : IsTarget parents target
    pub moved : IsMoved host ctx old new flags parents source target

  read_new_parent-eq-ok :
      (old_parent : Inode) {parents : Parents} {after : Queue}
      → read_new_parent host old.parent_ino old_parent new.parent_ino [] ≡ ok (parents, after)
      → lookup_inode host old.parent_ino [] ≡ ok (old_parent, [])
      → (old_parent ≡ parents.old_parent)
        × (after ≡ [])
        × (lookup_inode host new.parent_ino [] ≡ ok (new_parent parents, []))
  unfolding read_new_parent new_parent
  read_new_parent-eq-ok old_parent {parents} e read_old =
      elim (Bool-cases (new.parent_ino == old.parent_ino)) [
        | inl same ↦
            let (made, kept) = return-eq-ok _ [] (rw (read_new_parent, same) at e) in
            (
              ap (λ (p : Parents). p.old_parent) (sym made),
              kept,
              subst (λ (n : InodeId). lookup_inode host n [] ≡ ok (new_parent parents, []))
                  (sym ((==_iff new.parent_ino old.parent_ino).0 same))
                  (read_old ∙ ap (λ (p : Parents). ok (new_parent p, [])) (sym made)),
            )
        | inr apart ↦
            let e1 = rw (read_new_parent, apart) at e in
            let (other, q, looked_up, e2) = continue-eq-ok _ _ e1 in
            let (made, kept) = return-eq-ok _ q e2 in
            (
              ap (λ (p : Parents). p.old_parent) (sym made),
              kept ∙ (lookup_inode-named host new.parent_ino [] looked_up).1,
              subst
                  (λ (q : Queue). lookup_inode host new.parent_ino [] ≡ ok (new_parent parents, q))
                  (lookup_inode-named host new.parent_ino [] looked_up).1
                  (looked_up ∙ ap (λ (p : Parents). ok (new_parent p, q)) (sym made)),
            )
      ]

  lookup_keeps :
      (parent : Inode) (value : Inode) (after : Queue)
      → lookup_entry_in host parent new.name [] ≡ ok (value, after)
      → after ≡ []
  lookup_keeps parent value after e = (lookup_entry_in-named host parent new.name [] e).1

  target_if_found-IsTarget :
      (parents : Parents) (looked_up : Result Inode) {target : Option Inode}
      → not (is_dir (new_parent parents)) ≡ false
      → attempt (lookup_entry_in host (new_parent parents) new.name) [] ≡ ok (looked_up, [])
      → target_if_found looked_up ≡ ok target
      → IsTarget parents target
  target_if_found-IsTarget parents looked_up {target} is_directory attempted found =
      elim (Result-cases looked_up) [
        | inl (node, e) ↦
            let same : some node ≡ target = ok_injective (rw e at found) in
            subst (IsTarget parents) same (
              taken node (
                (attempt-keeps (lookup_entry_in host (new_parent parents) new.name) []
                    (lookup_keeps (new_parent parents)) attempted).1
                  node e))
        | inr (code, e) ↦ elim (Bool-cases (is_not_found code)) [
          | inl gone ↦
              let same : none ≡ target = ok_injective (rw (e, gone) at found) in
              let absent = attempt-eq-ok _ [] attempted (e ∙ ap err (is_not_found_inv code gone)) in
              subst (IsTarget parents) same (
                free
                  (lookup_entry_in-missing host (new_parent parents) new.name [] is_directory
                    (absent.0)).1)
          | inr other ↦ let failed = rw (e, other) at found in absurd cc
        ]
      ]

  IsTarget-named :
      (parents : Parents) {target : Option Inode}
      → IsTarget parents target
      → (node : Inode) → target ≡ some node
      → node.ino ≢ 0
  IsTarget-named parents (free absent) = λ node e. absurd cc
  IsTarget-named parents (taken found read) = λ node e.
      subst (λ (n : Inode). n.ino ≢ 0) (the_same e)
        (lookup_entry_in-named host (new_parent parents) new.name [] read).0

  -- A rename that is not refused, and finds two different inodes, has read the two directories that
  -- it is asked for, the source in the one and the target in the other. The source may leave its directory, and a target its own, where they are sticky.
  -- A name that is not to be replaced is free, an exchange has a target, and no directory comes to
  -- stand below itself.
  pub rename-IsRenamed :
      {renamed : Renamed} {after : Queue}
      → rename host ctx old new flags [] ≡ ok (some renamed, after)
      → IsRenamed
  unfolding rename
  rename-IsRenamed e =
      let (old_parent, read_old, e1) =
        read_first (lookup_inode host old.parent_ino) _ []
          (λ v q. λ s. (lookup_inode-named host old.parent_ino [] s).1) e in
      let (_, e2) = require-eq-ok _ _ _ [] e1 in
      let (parents, read_new, e3) =
        read_first (read_new_parent host old.parent_ino old_parent new.parent_ino) _ []
          (λ v q s. (read_new_parent-eq-ok old_parent s read_old).1) e2 in
      let (is_directory, e4) = require-eq-ok _ _ _ [] e3 in
      let (source, read_source, e5) =
        read_first (lookup_entry_in host parents.old_parent old.name) _ []
          (λ v q s. (lookup_entry_in-named host parents.old_parent old.name [] s).1) e4 in
      let (allowed, e6) = require-eq-ok _ _ _ [] e5 in
      let (looked_up, attempted, e7) =
        read_first (attempt (lookup_entry_in host (new_parent parents) new.name)) _ []
          (λ v q s. (attempt-keeps _ [] (lookup_keeps (new_parent parents)) s).0) e6 in
      let (target, found, e8) = lift-continue _ _ [] e7 in
      let is_target = target_if_found-IsTarget parents looked_up is_directory attempted found in
      record {
        parents = parents;
        source = source;
        target = target;
        new_parent_read = (read_new_parent-eq-ok old_parent read_new read_old).2;
        old_parent_read =
            read_old
            ∙ ap (λ node. ok (node, [])) (read_new_parent-eq-ok old_parent read_new read_old).0;
        source_read = read_source;
        source_allowed = not-false _ allowed;
        target_read = is_target;
        moved =
            rename_to-IsMoved host ctx old new flags parents source target []
              (lookup_entry_in-named host parents.old_parent old.name [] read_source).0
              (IsTarget-named parents is_target) e8;
      }
