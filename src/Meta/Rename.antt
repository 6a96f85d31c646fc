-- ===== src/Meta/Rename.antt =====
-- `RedisMetaTxn::MoveEntry` and `ExchangeEntries`. The two parents are two pointers, which may be
-- the same: then there is one object, and `separate` is none.
use sword_fs.Prelude.{Bool, ◌||◌, ◌&&◌, not, ◌==◌, if◌then◌else◌, Option, none, some}
use sword_fs.Prelude.Int.{ℤ, pos, negsuc}
use sword_fs.Prelude.Text.{Text}
use sword_fs.Status
use sword_fs.Status.{Result, ok, err, Code, Status, fail_if}
use sword_fs.Inode.{InodeId, Inode, SetAttrField, field_bit, is_dir, touch}
use sword_fs.Inode.Policy.{
  check_content_metadata_mutation_policy, check_directory_addition_policy,
  check_directory_removal_policy,
}
use sword_fs.Inode.PosixAcl.{is_some}
use sword_fs.Meta.{Host, Action, lift, require, return, ◌>>=◌, ◌>>◌}
use sword_fs.Meta.Inodes.{adjust_nlink, set_inode}
use sword_fs.Meta.Descent.{is_descendant_of}
use sword_fs.Meta.Entries.{link_entry, detach_entry, replace_entry, unlink_file, remove_directory}

pub record Parents : Type 0 where
  pub old_parent : Inode
  pub separate : Option Inode

unfoldable pub new_parent : Parents → Inode
new_parent parents = elim parents.separate [ none ↦ parents.old_parent | some other ↦ other ]

unfoldable pub put_new_parent : Inode → Parents → Parents
put_new_parent node parents = elim parents.separate [
  | none ↦ record parents { old_parent = node }
  | some other ↦ record parents { separate = some node }
]

-- A name: its directory and the text.
pub record Place : Type 0 where
  pub parent_ino : InodeId
  pub name : Text

pub record Renamed : Type 0 where
  pub parents : Parents
  pub source : Inode
  pub target : Option Inode

abbrev pub differs : Bool → Bool → Bool
differs a b = if a then not b else b

-- The first three tests of both operations.
unfoldable pub check_parents : Place → Place → Parents → Status
check_parents old new parents =
    if not (parents.old_parent.ino == old.parent_ino)
      || not ((new_parent parents).ino == new.parent_ino)
    then err Code.invalid_argument
    else if differs (old.parent_ino == new.parent_ino) (not (is_some parents.separate))
    then err Code.invalid_argument
    else fail_if (not (is_dir parents.old_parent) || not (is_dir (new_parent parents)))
        Code.not_directory

module _ (host : Host) where
  -- `if (inode.IsDir()) { ... }`: a directory does not go below itself.
  unfoldable pub check_destination : Inode → InodeId → Action (Unit {0})
  check_destination node parent_ino =
      if is_dir node
      then (do
        cycle ← is_descendant_of host node.ino parent_ino
        require cycle Code.invalid_argument)
      else return tt

  -- The tests of a target that is to be replaced.
  unfoldable pub check_replacement : Inode → Inode → Inode → Status
  check_replacement parent source target =
      Status.◌>>◌ (check_directory_removal_policy parent.attr) (
        Status.◌>>◌ (check_content_metadata_mutation_policy target.attr) (
          if is_dir source
          then fail_if (not (is_dir target)) Code.not_directory
          else fail_if (is_dir target) Code.is_directory))

  -- The parent and the target behind the removal of the target.
  unfoldable pub remove_target : Place → Inode → Inode → Action (Inode × Inode)
  remove_target new parent target =
      if is_dir target
      then (do
        left ← remove_directory host new.parent_ino new.name parent target
        return (left, target))
      else unlink_file host new.parent_ino new.name parent target

  -- `if (new_parent != old_parent) { ... }`
  unfoldable pub set_separate : Option Inode → Action (Unit {0})
  set_separate none = return tt
  set_separate (some other) = set_inode host other

  -- What follows once the new name is free.
  unfoldable pub finish_move : Place → Place → Parents → Inode → Option Inode → Action Renamed
  finish_move old new parents source target = do
    detached ← detach_entry host old.parent_ino old.name source parents.old_parent
    let without = record parents { old_parent = detached }
    linked ← link_entry host new.parent_ino new.name source (new_parent without)
    let with_name = put_new_parent linked without
    let moved =
        touch host.now (field_bit SetAttrField.ctime_field)
          (record source { parent_ino = new.parent_ino })
    set_inode host with_name.old_parent
    set_separate with_name.separate
    set_inode host moved
    return (record { parents = with_name; source = moved; target = target })

  unfoldable pub replace_target : Place → Place → Parents → Inode → Inode → Bool → Action Renamed
  replace_target old new parents source target overwrite =
      if not overwrite
      then lift (err Code.already_exists)
      else if target.ino == source.ino
      then return (record { parents = parents; source = source; target = some target })
      else (do
        lift (check_replacement (new_parent parents) source target)
        both ← remove_target new (new_parent parents) target
        finish_move old new (put_new_parent (both.0) parents) source (some (both.1)))

  unfoldable pub move_target :
      Place → Place → Parents → Inode → Option Inode → Bool → Action Renamed
  move_target old new parents source none overwrite = finish_move old new parents source none
  move_target old new parents source (some target) overwrite =
      replace_target old new parents source target overwrite

  unfoldable pub move_entry : Place → Place → Parents → Inode → Option Inode → Bool → Action Renamed
  move_entry old new parents source target overwrite = do
    lift (check_parents old new parents)
    lift (check_directory_removal_policy parents.old_parent.attr)
    lift (check_directory_addition_policy (new_parent parents).attr)
    lift (check_content_metadata_mutation_policy source.attr)
    check_destination source new.parent_ino
    move_target old new parents source target overwrite

  -- The links of two different parents behind an exchange: `old_parent_delta` of the source is 1
  -- where a directory comes in for a file, and -1 where one goes out.
  unfoldable pub adjust_separate : Parents → Inode → ℤ → ℤ → Result Parents
  adjust_separate parents other old_delta new_delta =
      Status.◌>>=◌ (adjust_nlink parents.old_parent old_delta) (λ old.
        Status.◌>>=◌ (adjust_nlink other new_delta)
          (λ new. ok (record { old_parent = old; separate = some new })))

  unfoldable pub adjust_parents : Parents → Inode → Inode → Result Parents
  adjust_parents parents source target = elim parents.separate [
    | none ↦ ok parents
    | some other ↦
        if is_dir target && not (is_dir source)
        then adjust_separate parents other (pos 1) (negsuc 0)
        else if not (is_dir target) && is_dir source
        then adjust_separate parents other (negsuc 0) (pos 1)
        else ok parents
  ]

  unfoldable pub finish_exchange : Place → Place → Parents → Inode → Inode → Action Renamed
  finish_exchange old new parents source target = do
    check_destination source new.parent_ino
    check_destination target old.parent_ino
    adjusted ← lift (adjust_parents parents source target)
    first ← replace_entry host old.parent_ino old.name target adjusted.old_parent
    let half = record adjusted { old_parent = first }
    second ← replace_entry host new.parent_ino new.name source (new_parent half)
    let both = put_new_parent second half
    let source_moved =
        touch host.now (field_bit SetAttrField.ctime_field)
          (record source { parent_ino = new.parent_ino })
    let target_moved =
        touch host.now (field_bit SetAttrField.ctime_field)
          (record target { parent_ino = old.parent_ino })
    set_inode host both.old_parent
    set_separate both.separate
    set_inode host source_moved
    set_inode host target_moved
    return (record { parents = both; source = source_moved; target = some target_moved })

  unfoldable pub exchange_entries : Place → Place → Parents → Inode → Inode → Action Renamed
  exchange_entries old new parents source target = do
    lift (check_parents old new parents)
    lift (check_directory_removal_policy parents.old_parent.attr)
    lift (check_directory_removal_policy (new_parent parents).attr)
    lift (check_content_metadata_mutation_policy source.attr)
    lift (check_content_metadata_mutation_policy target.attr)
    if source.ino == target.ino
        then return (record { parents = parents; source = source; target = some target })
        else finish_exchange old new parents source target
