-- ===== src/Engine.antt =====
-- src/metadata/redis/RedisMetaImpl.cpp and RedisMetaOps.cpp: the calls of the metadata engine, as
-- the transactions of Meta composed. A transaction is an `Action`; what runs it stands in
-- Engine.Transact.
pub mod Names
pub mod Rename
pub mod Transact
pub mod Once
pub mod Answered
pub mod Lookups
pub mod Moved
pub mod Volumes
pub mod Reclaim
pub mod Scans
pub mod Visits
pub mod Formatted
pub mod Coherent
pub mod Collected
pub mod Batches
pub mod Pending
pub mod Directory
pub mod Client
pub mod Reads
pub mod Calls
pub mod Renamed
pub mod Unlinked
mod Tests
mod ReadTests
mod RunTests
use sword_fs.Prelude.{
  ℕ, ◌+◌, ◌*◌, ◌/◌, ◌%◌, ◌^◌, Bool, true, false, ◌||◌, ◌&&◌, not, ◌==◌, if◌then◌else◌, Option, none,
  some, [], ◌∷◌,
}
use sword_fs.Prelude.Text.{Text, same_text}
use sword_fs.Status.{Status, Code, fail_if, ok, err, ◌>>◌}
use sword_fs.Inode.{InodeId, Inode, is_dir}
use sword_fs.Inode.Create.{validate_name_component}
use sword_fs.Meta.{Host, Action, require, return}

-- `SwordFsContext`: who asks.
pub record Context : Type 0 where
  pub uid : ℕ
  pub gid : ℕ
  pub umask : ℕ

-- `name == "." || name == ".."`
unfoldable pub is_dot : Text → Bool
is_dot name = same_text name (46 ∷ []) || same_text name (46 ∷ 46 ∷ [])

-- The names of the calls that take one out of a directory
unfoldable pub check_removed_name : Text → Status
check_removed_name name =
    validate_name_component name >> fail_if (is_dot name) Code.invalid_argument

-- `if (!parent.IsDir()) { ... }`
abbrev pub require_directory : Inode → Action (Unit {0})
require_directory node = require (not (is_dir node)) Code.not_directory
