-- ===== src/Acl.antt =====
-- src/metadata/PosixAcl.cpp: the class PosixAcl, an access control list as it stands in an extended
-- attribute. A byte is a number below 256, and `a | b << 8` of two bytes is `a + b * 2 ^ 8`.
pub mod Bytes
pub mod Order
pub mod Mode
pub mod Widths
pub mod Tests
use sword_fs.Prelude.{
  ℕ, ◌+◌, ◌-◌, ◌*◌, ◌/◌, ◌%◌, ◌^◌, Bool, true, false, ◌||◌, ◌&&◌, not, ltb, leb, ◌==◌,
  if◌then◌else◌, Option, none, some, List, [], ◌∷◌, ◌++◌, length, bit_and,
}
use sword_fs.Status.{Result, ok, err, Code, Status, ◌>>=◌, ◌>>◌, fail_if}

-- `kAclXattrVersion`, the tags, and `kAclUndefinedId`
abbrev pub version : ℕ
version = 2

abbrev pub user_obj_tag : ℕ
user_obj_tag = 1

abbrev pub user_tag : ℕ
user_tag = 2

abbrev pub group_obj_tag : ℕ
group_obj_tag = 4

abbrev pub group_tag : ℕ
group_tag = 8

abbrev pub mask_tag : ℕ
mask_tag = 16

abbrev pub other_tag : ℕ
other_tag = 32

abbrev pub undefined_id : ℕ
undefined_id = 2 ^ 32 - 1

pub record AclEntry : Type 0 where
  pub tag : ℕ
  pub perm : ℕ
  pub id : ℕ

abbrev pub le16 : ℕ → ℕ → ℕ
le16 a b = a + b * 2 ^ 8

abbrev pub le32 : ℕ → ℕ → ℕ → ℕ → ℕ
le32 a b c d = a + b * 2 ^ 8 + c * 2 ^ 16 + d * 2 ^ 24

abbrev pub append_le16 : ℕ → List ℕ → List ℕ
append_le16 v rest = v % 256 ∷ v / 2 ^ 8 % 256 ∷ rest

abbrev pub append_le32 : ℕ → List ℕ → List ℕ
append_le32 v rest = v % 256 ∷ v / 2 ^ 8 % 256 ∷ v / 2 ^ 16 % 256 ∷ v / 2 ^ 24 % 256 ∷ rest

-- Where `Validate` stands in the list.
pub data State : Type 0 where
  user_obj users group_obj groups mask other done : State

abbrev pub same_state : State → State → Bool
same_state State.user_obj State.user_obj = true
same_state State.users State.users = true
same_state State.group_obj State.group_obj = true
same_state State.groups State.groups = true
same_state State.mask State.mask = true
same_state State.other State.other = true
same_state State.done State.done = true
same_state _ _ = false

pub record Progress : Type 0 where
  pub state : State
  pub user_ids : List ℕ
  pub group_ids : List ℕ
  pub has_named : Bool
  pub has_mask : Bool

abbrev pub contains : ℕ → List ℕ → Bool
contains id [] = false
contains id (x ∷ xs) = id == x || contains id xs

abbrev pub is_named : AclEntry → Bool
is_named entry = entry.tag == user_tag || entry.tag == group_tag

-- The tests of one entry that do not depend on its place.
unfoldable pub check_entry : AclEntry → Status
check_entry entry = do
  fail_if (ltb 7 entry.perm) Code.invalid_argument
  fail_if (if is_named entry then entry.id == undefined_id else not (entry.id == undefined_id))
      Code.invalid_argument

-- The `switch` over the tag of an entry.
unfoldable pub place_entry : Progress → AclEntry → Result Progress
place_entry p entry =
    if entry.tag == user_obj_tag
    then if same_state p.state State.user_obj
      then ok (record p { state = State.users })
      else err Code.invalid_argument
    else if entry.tag == user_tag
    then if same_state p.state State.users && not (contains entry.id p.user_ids)
      then ok (record p { user_ids = entry.id ∷ p.user_ids; has_named = true })
      else err Code.invalid_argument
    else if entry.tag == group_obj_tag
    then if same_state p.state State.users
      then ok (record p { state = State.groups })
      else err Code.invalid_argument
    else if entry.tag == group_tag
    then if same_state p.state State.groups && not (contains entry.id p.group_ids)
      then ok (record p { group_ids = entry.id ∷ p.group_ids; has_named = true })
      else err Code.invalid_argument
    else if entry.tag == mask_tag
    then if same_state p.state State.groups
      then ok (record p { state = State.other; has_mask = true })
      else err Code.invalid_argument
    else if entry.tag == other_tag
    then if same_state p.state State.groups || same_state p.state State.other
      then ok (record p { state = State.done })
      else err Code.invalid_argument
    else err Code.invalid_argument

unfoldable pub validate_entries : Progress → List AclEntry → Result Progress
unfolding check_entry place_entry
validate_entries p [] = ok p
validate_entries p (entry ∷ rest) = do
  check_entry entry
  next ← place_entry p entry
  validate_entries next rest

abbrev pub start_progress : Progress
start_progress = record {
  state = State.user_obj;
  user_ids = [];
  group_ids = [];
  has_named = false;
  has_mask = false;
}

unfoldable pub validate : List AclEntry → Status
unfolding validate_entries
validate entries = do
  fail_if (ltb (length entries) 3) Code.invalid_argument
  p ← validate_entries start_progress entries
  fail_if (not (same_state p.state State.done)) Code.invalid_argument
  fail_if (p.has_named && not p.has_mask) Code.invalid_argument

-- The loop over the entries of an attribute, eight bytes each.
unfoldable pub read_entries : List ℕ → List AclEntry
read_entries (a ∷ b ∷ c ∷ d ∷ e ∷ f ∷ g ∷ h ∷ rest) =
    record { tag = le16 a b; perm = le16 c d; id = le32 e f g h } ∷ read_entries rest
read_entries _ = []

-- `Parse` behind the test of the size, on the header's four bytes and the rest.
unfoldable pub parse_body : List ℕ → Result (List AclEntry)
unfolding read_entries validate
parse_body (a ∷ b ∷ c ∷ d ∷ rest) = do
  fail_if (not (le32 a b c d == version)) Code.invalid_argument
  let entries = read_entries rest
  validate entries
  ok entries
parse_body _ = err Code.invalid_argument

unfoldable pub parse : List ℕ → Result (List AclEntry)
unfolding parse_body
parse data_bytes = do
  fail_if (ltb (length data_bytes) 4 || not ((length data_bytes - 4) % 8 == 0))
      Code.invalid_argument
  parse_body data_bytes

unfoldable pub write_entries : List AclEntry → List ℕ
write_entries [] = []
write_entries (entry ∷ rest) =
    append_le16 entry.tag (append_le16 entry.perm (append_le32 entry.id (write_entries rest)))

unfoldable pub serialize : List AclEntry → List ℕ
unfolding write_entries
serialize entries = append_le32 version (write_entries entries)

-- `Find` and `FindMutable`; `none` is a null pointer.
unfoldable pub find : ℕ → List AclEntry → Option AclEntry
find tag [] = none
find tag (entry ∷ rest) = if entry.tag == tag then some entry else find tag rest

abbrev pub is_minimal : List AclEntry → Bool
is_minimal (a ∷ b ∷ c ∷ []) = a.tag == user_obj_tag && b.tag == group_obj_tag && c.tag == other_tag
is_minimal _ = false

-- The tag whose permissions are the group class: the mask, or the owning group's.
unfoldable pub group_class_tag : List AclEntry → ℕ
unfolding find
group_class_tag entries = elim (find mask_tag entries) [
  | none ↦ group_obj_tag
  | some found ↦ mask_tag
]

abbrev pub perm_of : Option AclEntry → Option ℕ
perm_of none = none
perm_of (some entry) = some entry.perm

-- Permissions are below 8, so that their shifts share no bit and `|` is a sum.
abbrev pub join_perms : Option ℕ → Option ℕ → Option ℕ → Option ℕ
join_perms (some a) (some b) (some c) = some (a * 2 ^ 6 + b * 2 ^ 3 + c)
join_perms _ _ _ = none

-- The result is `none` where the source would read through a null pointer.
unfoldable pub permissions_mode : List AclEntry → Option ℕ
unfolding group_class_tag find
permissions_mode entries =
    join_perms (perm_of (find user_obj_tag entries))
      (perm_of (find (group_class_tag entries) entries)) (perm_of (find other_tag entries))

-- `FindMutable(tag)->perm = perm`, for an entry that is there.
unfoldable pub set_perm : ℕ → ℕ → List AclEntry → List AclEntry
set_perm tag perm [] = []
set_perm tag perm (entry ∷ rest) =
    if entry.tag == tag then record entry { perm = perm } ∷ rest else entry ∷ set_perm tag perm rest

unfoldable pub apply_mode : ℕ → List AclEntry → List AclEntry
unfolding set_perm group_class_tag
apply_mode mode entries =
    let first = set_perm user_obj_tag (mode / 2 ^ 6 % 8) entries in
    let second = set_perm (group_class_tag first) (mode / 2 ^ 3 % 8) first in
    set_perm other_tag (mode % 8) second
