-- ===== src/Acl/Tests.antt =====
-- A list with a named user and a mask.
use sword_fs.Prelude.{ℕ, ◌+◌, ◌*◌, ◌%◌, ◌^◌, ◌≡◌, refl, some, List, [], ◌∷◌, All, arith}
use sword_fs.Status.{ok, err, Code}
use sword_fs.Acl.{
  AclEntry, undefined_id, read_entries, validate, parse, serialize, permissions_mode, apply_mode,
}
use sword_fs.Acl.Bytes.{IsWide, IsByte, parse-serialize}
use sword_fs.Acl.Mode.{permissions_mode-apply_mode}

abbrev pub entries : List AclEntry
entries =
    record { tag = 1; perm = 6; id = undefined_id }
    ∷ record { tag = 2; perm = 7; id = 1000 }
    ∷ record { tag = 4; perm = 4; id = undefined_id }
    ∷ record { tag = 16; perm = 5; id = undefined_id }
    ∷ record { tag = 32; perm = 0; id = undefined_id }
    ∷ []

abbrev pub stored : List ℕ
stored =
    2 ∷ 0 ∷ 0 ∷ 0 ∷ 1 ∷ 0 ∷ 6 ∷ 0 ∷ 255 ∷ 255 ∷ 255 ∷ 255 ∷ 2 ∷ 0 ∷ 7 ∷ 0 ∷ 232 ∷ 3 ∷ 0 ∷ 0 ∷ 4 ∷ 0
    ∷ 4 ∷ 0 ∷ 255 ∷ 255 ∷ 255 ∷ 255 ∷ 16 ∷ 0 ∷ 5 ∷ 0 ∷ 255 ∷ 255 ∷ 255 ∷ 255 ∷ 32 ∷ 0 ∷ 0 ∷ 0 ∷ 255
    ∷ 255 ∷ 255 ∷ 255 ∷ []

valid : validate entries ≡ ok tt
unfolding validate
valid = refl

no_mask :
    validate (
      record { tag = 1; perm = 6; id = undefined_id }
      ∷ record { tag = 2; perm = 7; id = 1000 }
      ∷ record { tag = 4; perm = 4; id = undefined_id }
      ∷ record { tag = 32; perm = 0; id = undefined_id }
      ∷ [])
    ≡ err Code.invalid_argument
unfolding validate
no_mask = refl

pub parsed : parse stored ≡ ok entries
unfolding parse read_entries validate
parsed = refl

mode_650 : permissions_mode entries ≡ some (6 * 64 + 5 * 8)
unfolding permissions_mode
mode_650 = refl

entries-IsWide : All IsWide entries
entries-IsWide = (
  record { tag_width = omega arith; perm_width = omega arith; id_width = omega arith },
  (
    record { tag_width = omega arith; perm_width = omega arith; id_width = omega arith },
    (
      record { tag_width = omega arith; perm_width = omega arith; id_width = omega arith },
      (
        record { tag_width = omega arith; perm_width = omega arith; id_width = omega arith },
        (record { tag_width = omega arith; perm_width = omega arith; id_width = omega arith }, tt),
      ),
    ),
  ),
)

parse-serialize_example : parse (serialize entries) ≡ ok entries
parse-serialize_example = parse-serialize entries entries-IsWide valid

pub stored_bytes : All IsByte stored
stored_bytes = ground arith

permissions_mode-apply_mode_example :
    (permissions_mode (apply_mode 420 entries) ≡ some (420 % 2 ^ 9))
    × (validate (apply_mode 420 entries) ≡ ok tt)
permissions_mode-apply_mode_example = permissions_mode-apply_mode 420 entries valid
