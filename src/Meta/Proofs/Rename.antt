-- ===== src/Meta/Proofs/Rename.antt =====
-- `MoveEntry` and `ExchangeEntries` keep the tree.
use sword_fs.Prelude.{Bool, true, ◌==◌, ==_iff, Option, ◌≡◌, ◌≢◌, inl, inr, Bool-cases}
use sword_fs.Status.{ok, Code}
use sword_fs.Inode.{InodeId, Inode, is_dir}
use sword_fs.Meta.{Host, Queue}
use sword_fs.Meta.Acts.{continue-eq-ok, lift-continue, require_inv}
use sword_fs.Meta.Ancestors.{IsBelow, is_descendant_of-IsBelow}
use sword_fs.Meta.Rename.{
  Place, Parents, Renamed, check_destination, move_entry, finish_exchange, exchange_entries,
}

module _ (host : Host) where
  check_destination-IsBelow :
      (node : Inode) (parent_ino : InodeId) (queue : Queue) {value : Unit {0}} {after : Queue}
      → node.ino ≢ 0
      → is_dir node ≡ true
      → check_destination host node parent_ino queue ≡ ok (value, after)
      → ¬ IsBelow host node.ino parent_ino
  unfolding check_destination
  check_destination-IsBelow node parent_ino queue named is_directory ended = λ below.
      let e1 = rw (check_destination, is_directory) at ended in
      let (cycle, middle, e2, e3) = continue-eq-ok _ _ e1 in
      let met = (is_descendant_of-IsBelow host node.ino parent_ino queue named e2).1 below in
      let passed = require_inv cycle Code.invalid_argument middle e3 in cc

  -- Where `MoveEntry` succeeds on a directory, the directory that it moves to is neither that
  -- directory nor below it.
  pub move_entry-IsBelow :
      (old new : Place) (parents : Parents) (source : Inode) (target : Option Inode)
      (overwrite : Bool) (queue : Queue) {renamed : Renamed} {after : Queue}
      → source.ino ≢ 0
      → is_dir source ≡ true
      → move_entry host old new parents source target overwrite queue ≡ ok (renamed, after)
      → ¬ IsBelow host source.ino new.parent_ino
  unfolding move_entry
  move_entry-IsBelow old new parents source target overwrite queue named is_directory ended =
      let (_, _, e1) = lift-continue _ _ queue ended in
      let (_, _, e2) = lift-continue _ _ queue e1 in
      let (_, _, e3) = lift-continue _ _ queue e2 in
      let (_, _, e4) = lift-continue _ _ queue e3 in
      let (_, _, checked, _) = continue-eq-ok _ _ e4 in
      check_destination-IsBelow source new.parent_ino queue named is_directory checked

  -- Where `ExchangeEntries` succeeds on two different inodes, a directory among them does not come
  -- to stand below itself.
  pub exchange_entries-IsBelow :
      (old new : Place) (parents : Parents) (source target : Inode) (queue : Queue)
      {renamed : Renamed} {after : Queue}
      → source.ino ≢ 0
      → target.ino ≢ 0
      → source.ino ≢ target.ino
      → exchange_entries host old new parents source target queue ≡ ok (renamed, after)
      → (is_dir source ≡ true → ¬ IsBelow host source.ino new.parent_ino)
        × (is_dir target ≡ true → ¬ IsBelow host target.ino old.parent_ino)
  unfolding exchange_entries finish_exchange
  exchange_entries-IsBelow old new parents source target queue source_named target_named apart
        ended =
      let (_, _, e1) = lift-continue _ _ queue ended in
      let (_, _, e2) = lift-continue _ _ queue e1 in
      let (_, _, e3) = lift-continue _ _ queue e2 in
      let (_, _, e4) = lift-continue _ _ queue e3 in
      let (_, _, e5) = lift-continue _ _ queue e4 in
      elim (Bool-cases (source.ino == target.ino)) [
        | inl same ↦ absurd (apart ((==_iff source.ino target.ino).0 same))
        | inr different ↦
            let e6 = rw different at e5 in
            let (_, q1, source_checked, e7) = continue-eq-ok _ _ e6 in
            let (_, q2, target_checked, _) = continue-eq-ok _ _ e7 in
            (
              λ is_directory.
                  check_destination-IsBelow source new.parent_ino queue source_named is_directory
                    source_checked,
              λ is_directory.
                  check_destination-IsBelow target old.parent_ino q1 target_named is_directory
                    target_checked,
            )
      ]
