-- ===== src/Engine/Moved.antt =====
-- The operation that `RedisMetaImpl::Rename` ends with: the tree and the flags.
use sword_fs.Prelude.{
  not-false, ℕ, Bool, true, false, ◌==◌, ==_iff, if◌then◌else◌, Option, none, some, ◌≡◌, ◌≢◌, ◌⊎◌,
  refl, sym, inl, inr, Bool-cases,
}
use sword_fs.Status.{ok, err, Code}
use sword_fs.Inode.{Inode, is_dir, check_sticky_delete}
use sword_fs.Meta.{Host, Queue, lift}
use sword_fs.Meta.Acts.{continue-eq-ok, require-eq-ok, return-eq-ok}
use sword_fs.Meta.Ancestors.{IsBelow}
use sword_fs.Meta.Rename.{Place, Parents, Renamed, new_parent, move_entry, exchange_entries}
use sword_fs.Meta.Proofs.Rename.{move_entry-IsBelow, exchange_entries-IsBelow}
use sword_fs.Engine.{Context}
use sword_fs.Engine.Rename.{no_replace, exchange, rename_target, rename_to}

pub the_same : {a b : Inode} → some a ≡ some b → a ≡ b
the_same e = cc

different_lem : (a b : ℕ) → (a == b) ≡ false → a ≢ b
different_lem a b e = λ same. let met = (==_iff a b).1 same in cc

failed_lem :
    {A : Type 0} (code : Code) (queue : Queue) {out : A × Queue}
    → lift {A = A} (err code) queue ≢ ok out
unfolding lift
failed_lem code queue = λ e. cc

module _ (host : Host) (ctx : Context) (old new : Place) (flags : ℕ) where
  -- What a rename that is not refused has found. A directory does not come to stand below itself; a
  -- name that is not to be replaced is free; and an exchange has something to exchange, to which the
  -- same applies.
  pub data IsMoved (parents : Parents) (source : Inode) : Option Inode → Type 0 where
    to_free_name :
        exchange flags ≡ false
        → (is_dir source ≡ false) ⊎ (¬ IsBelow host source.ino new.parent_ino)
        → IsMoved parents source none
    over_target :
        (target : Inode)
        → no_replace flags ≡ false
        → exchange flags ≡ false
        → check_sticky_delete (new_parent parents) ctx.uid target ≡ true
        → (is_dir source ≡ false) ⊎ (¬ IsBelow host source.ino new.parent_ino)
        → IsMoved parents source (some target)
    exchanged :
        (target : Inode)
        → no_replace flags ≡ false
        → exchange flags ≡ true
        → check_sticky_delete (new_parent parents) ctx.uid target ≡ true
        → (is_dir source ≡ false) ⊎ (¬ IsBelow host source.ino new.parent_ino)
        → (is_dir target ≡ false) ⊎ (¬ IsBelow host target.ino old.parent_ino)
        → IsMoved parents source (some target)

  move-no_cycle :
      (parents : Parents) (source : Inode) (target : Option Inode) (overwrite : Bool)
      (queue : Queue) {renamed : Renamed} {after : Queue}
      → source.ino ≢ 0
      → move_entry host old new parents source target overwrite queue ≡ ok (renamed, after)
      → (is_dir source ≡ false) ⊎ (¬ IsBelow host source.ino new.parent_ino)
  move-no_cycle parents source target overwrite queue named e = elim (Bool-cases (is_dir source)) [
    | inl is_directory ↦
        inr (
          move_entry-IsBelow host old new parents source target overwrite queue named is_directory
            e)
    | inr other ↦ inl other
  ]

  unless_directory :
      {P : Type 0} (node : Inode) → (is_dir node ≡ true → P) → (is_dir node ≡ false) ⊎ P
  unless_directory node found = elim (Bool-cases (is_dir node)) [
    | inl is_directory ↦ inr (found is_directory)
    | inr other ↦ inl other
  ]

  overwritten-IsMoved :
      (parents : Parents) (source target : Inode) (queue : Queue) {renamed : Renamed}
      {after : Queue}
      → source.ino ≢ 0
      → target.ino ≢ 0
      → no_replace flags ≡ false
      → source.ino ≢ target.ino
      → check_sticky_delete (new_parent parents) ctx.uid target ≡ true
      → (if exchange flags
            then exchange_entries host old new parents source target
            else move_entry host old new parents source (some target) true)
          queue
        ≡ ok (renamed, after)
      → IsMoved parents source (some target)
  overwritten-IsMoved parents source target queue named target_named replaces apart allowed e =
      elim (Bool-cases (exchange flags)) [
        | inl both ↦
            let (forward, back) =
              exchange_entries-IsBelow host old new parents source target queue named target_named
                apart (rw both at e) in
            exchanged target replaces both allowed (unless_directory source forward)
              (unless_directory target back)
        | inr one ↦
            over_target target replaces one allowed
              (move-no_cycle parents source (some target) true queue named (rw one at e))
      ]

  rename_target-IsMoved :
      (parents : Parents) (source target : Inode) (queue : Queue) {renamed : Renamed}
      {after : Queue}
      → source.ino ≢ 0
      → target.ino ≢ 0
      → rename_target host ctx old new flags parents source target queue ≡ ok (some renamed, after)
      → IsMoved parents source (some target)
  unfolding rename_target
  rename_target-IsMoved parents source target queue named target_named e =
      elim (Bool-cases (no_replace flags)) [
        | inl kept ↦
            let gone = rw (rename_target, kept) at e in
            absurd (failed_lem Code.already_exists queue gone)
        | inr replaces ↦ elim (Bool-cases (target.ino == source.ino)) [
          | inl same ↦
              let gone = rw (rename_target, replaces, same) at e in
              let (nothing, _) = return-eq-ok none queue gone in absurd cc
          | inr different ↦
              let e1 = rw (rename_target, replaces, different) at e in
              let (allowed, e2) = require-eq-ok _ _ _ queue e1 in
              let (moved, q1, e3, _) = continue-eq-ok _ _ e2 in
              overwritten-IsMoved parents source target queue named target_named replaces
                (λ same. different_lem target.ino source.ino different (sym same))
                (not-false (check_sticky_delete (new_parent parents) ctx.uid target) allowed) e3
        ]
      ]

  pub rename_to-IsMoved :
      (parents : Parents) (source : Inode) (target : Option Inode) (queue : Queue)
      {renamed : Renamed} {after : Queue}
      → source.ino ≢ 0
      → ((node : Inode) → target ≡ some node → node.ino ≢ 0)
      → rename_to host ctx old new flags parents source target queue ≡ ok (some renamed, after)
      → IsMoved parents source target
  unfolding rename_to
  rename_to-IsMoved parents source none queue named target_named e =
      let (plain, e1) = require-eq-ok _ _ _ queue e in
      let (moved, q1, e2, _) = continue-eq-ok _ _ e1 in
      to_free_name plain (move-no_cycle parents source none _ queue named e2)
  rename_to-IsMoved parents source (some target) queue named target_named e =
      rename_target-IsMoved parents source target queue named (target_named target refl) e
