-- ===== src/Engine/Rename.antt =====
-- `RedisMetaImpl::Rename`: its transaction, and the tests in front of it.
use sword_fs.Prelude.{
  ℕ, ◌/◌, ◌%◌, Bool, true, not, ◌==◌, ◌||◌, ◌&&◌, if◌then◌else◌, Option, none, some,
}
use sword_fs.Prelude.Text.{Text}
use sword_fs.Status.{Code, Result, ok, err, Status, fail_if}
use sword_fs.Status
use sword_fs.Inode.{InodeId, Inode, check_sticky_delete}
use sword_fs.Inode.Create.{validate_name_component}
use sword_fs.Meta.{Host, Action, lift, require, return, attempt, ◌>>=◌, ◌>>◌}
use sword_fs.Meta.Inodes.{lookup_inode, lookup_entry_in, is_not_found}
use sword_fs.Meta.Rename.{Parents, Place, Renamed, new_parent, move_entry, exchange_entries}
use sword_fs.Engine.{Context, is_dot, require_directory}

-- The bits of `RenameFlag`
abbrev pub no_replace : ℕ → Bool
no_replace flags = flags % 2 == 1

abbrev pub exchange : ℕ → Bool
exchange flags = flags / 2 % 2 == 1

unfoldable pub check_rename : Text → Text → ℕ → Status
check_rename old_name new_name flags = Status.◌>>◌ (validate_name_component old_name) (
    Status.◌>>◌ (validate_name_component new_name) (
      Status.◌>>◌ (fail_if (is_dot old_name || is_dot new_name) Code.busy) (
        Status.◌>>◌ (fail_if (not (flags / 4 == 0)) Code.invalid_argument)
          (fail_if (no_replace flags && exchange flags) Code.invalid_argument))))

-- A target that is not found is none; another failure ends the call.
abbrev pub target_if_found : Result Inode → Result (Option Inode)
target_if_found (err code) = if is_not_found code then ok none else err code
target_if_found (ok target) = ok (some target)

module _ (host : Host) where
  unfoldable pub read_new_parent : InodeId → Inode → InodeId → Action Parents
  read_new_parent old_parent_ino old_parent new_parent_ino =
      if new_parent_ino == old_parent_ino
      then return (record { old_parent = old_parent; separate = none })
      else (do
        other ← lookup_inode host new_parent_ino
        return (record { old_parent = old_parent; separate = some other }))

module _ (host : Host) (ctx : Context) where
  unfoldable pub rename_target :
      Place → Place → ℕ → Parents → Inode → Inode → Action (Option Renamed)
  rename_target old new flags parents source target =
      if no_replace flags
      then lift (err Code.already_exists)
      else if target.ino == source.ino
      then return none
      else (do
        require (not (check_sticky_delete (new_parent parents) ctx.uid target)) Code.permission
        renamed ←
            (if exchange flags
              then exchange_entries host old new parents source target
              else move_entry host old new parents source (some target) true)
        return (some renamed))

  unfoldable pub rename_to :
      Place → Place → ℕ → Parents → Inode → Option Inode → Action (Option Renamed)
  rename_to old new flags parents source none = do
    require (exchange flags) Code.not_found
    renamed ← move_entry host old new parents source none (not (no_replace flags))
    return (some renamed)
  rename_to old new flags parents source (some target) =
      rename_target old new flags parents source target

  -- None where both names lead to one inode, and nothing is done.
  unfoldable pub rename : Place → Place → ℕ → Action (Option Renamed)
  rename old new flags = do
    old_parent ← lookup_inode host old.parent_ino
    require_directory old_parent
    parents ← read_new_parent host old.parent_ino old_parent new.parent_ino
    require_directory (new_parent parents)
    source ← lookup_entry_in host parents.old_parent old.name
    require (not (check_sticky_delete parents.old_parent ctx.uid source)) Code.permission
    looked_up ← attempt (lookup_entry_in host (new_parent parents) new.name)
    target ← lift (target_if_found looked_up)
    rename_to old new flags parents source target
