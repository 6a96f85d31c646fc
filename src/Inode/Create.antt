-- ===== src/Inode/Create.antt =====
-- src/metadata/Utils.cpp: what a new inode takes from its parent and from the request.
use sword_fs.Prelude.{ℕ, ◌+◌, ◌/◌, ◌%◌, ◌^◌, Bool, ◌||◌, ltb, ◌==◌, if◌then◌else◌, length}
use sword_fs.Prelude.Text.{Text}
use sword_fs.Status.{ok, err, Code, Status, fail_if}
use sword_fs.Inode.{Attr, file_type, mode_is_dir, mode_is_regular, mode_is_symlink}

pub record CreateInheritance : Type 0 where
  pub gid : ℕ
  pub mode : ℕ

-- `mode | S_ISGID`, bit 10
abbrev pub set_setgid : ℕ → ℕ
set_setgid mode = if mode / 2 ^ 10 % 2 == 1 then mode else mode + 2 ^ 10

unfoldable pub resolve_create_inheritance : ℕ → Attr → ℕ → CreateInheritance
resolve_create_inheritance caller_gid parent child_mode =
    if parent.mode / 2 ^ 10 % 2 == 1
    then record {
      gid = parent.gid;
      mode = if mode_is_dir child_mode then set_setgid child_mode else child_mode;
    }
    else record { gid = caller_gid; mode = child_mode }

-- `DT_DIR`, `DT_REG`, `DT_LNK`, `DT_BLK`, `DT_CHR`, `DT_FIFO`, `DT_SOCK`, `DT_UNKNOWN`
unfoldable pub mode_to_dt : ℕ → ℕ
mode_to_dt mode =
    if mode_is_dir mode
    then 4
    else if mode_is_regular mode
    then 8
    else if mode_is_symlink mode
    then 10
    else if file_type mode == 6
    then 6
    else if file_type mode == 2
    then 2
    else if file_type mode == 1
    then 1
    else if file_type mode == 12
    then 12
    else 0

-- `kMaxNameLength`
abbrev pub max_name_length : ℕ
max_name_length = 255

unfoldable pub validate_name_component : Text → Status
validate_name_component name = fail_if (ltb max_name_length (length name)) Code.name_too_long

abbrev pub is_device : ℕ → Bool
is_device mode = file_type mode == 2 || file_type mode == 6

unfoldable pub validate_mknod_mode : ℕ → Status
validate_mknod_mode mode =
    if mode_is_regular mode || file_type mode == 1 || is_device mode || file_type mode == 12
    then ok tt
    else err Code.invalid_argument

unfoldable pub normalize_mknod_rdev : ℕ → ℕ → ℕ
normalize_mknod_rdev mode rdev = if is_device mode then rdev else 0
