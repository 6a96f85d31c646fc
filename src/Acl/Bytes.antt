-- ===== src/Acl/Bytes.antt =====
-- An access control list of PosixAcl.cpp and its bytes: `Serialize` and `Parse`.
use sword_fs.Prelude.{
  ℕ, ◌-◌, ◌*◌, ◌/◌, ◌%◌, ◌^◌, ◌<◌, ◌≡◌, refl, false, ◌==◌, not, List, [], ◌∷◌, All, arith, length,
}
use sword_fs.Status.{ok, Code, fail_if, fail_if-eq-ok, >>-eq-ok, ok_injective}
use sword_fs.Acl.{
  AclEntry, le16, le32, append_le16, append_le32, read_entries, write_entries, validate, parse_body,
  parse, serialize, version,
}

-- The fields are of the widths that they are stored in.
pub record IsWide (entry : AclEntry) : Type 0 where
  pub tag_width : entry.tag < 2 ^ 16
  pub perm_width : entry.perm < 2 ^ 16
  pub id_width : entry.id < 2 ^ 32

le16-append : (v : ℕ) → v < 2 ^ 16 → le16 (v % 256) (v / 2 ^ 8 % 256) ≡ v
le16-append v h = omega arith

le32-append :
    (v : ℕ)
    → v < 2 ^ 32
    → le32 (v % 256) (v / 2 ^ 8 % 256) (v / 2 ^ 16 % 256) (v / 2 ^ 24 % 256) ≡ v
le32-append v h = omega arith

read_entries-write_entries :
    (entries : List AclEntry) → All IsWide entries → read_entries (write_entries entries) ≡ entries
unfolding read_entries write_entries
read_entries-write_entries [] w = refl
read_entries-write_entries (entry ∷ rest) w = rw (
  le16-append entry.tag w.0.tag_width,
  le16-append entry.perm w.0.perm_width,
  le32-append entry.id w.0.id_width,
  read_entries-write_entries rest w.1,
)

length-write_entries :
    (entries : List AclEntry) → length (write_entries entries) ≡ length entries * 8
unfolding write_entries
length-write_entries [] = refl
length-write_entries (entry ∷ rest) = omega (arith, length-write_entries rest)

-- A list that is accepted and whose fields have their widths is parsed from its own bytes.
pub parse-serialize :
    (entries : List AclEntry)
    → All IsWide entries
    → validate entries ≡ ok tt
    → parse (serialize entries) ≡ ok entries
unfolding parse serialize
parse-serialize entries w v =
    rw (read_entries-write_entries entries w, v, length-write_entries entries) (ground arith)

append_le16-le16 :
    (a b : ℕ) (rest : List ℕ) → a < 256 → b < 256 → append_le16 (le16 a b) rest ≡ a ∷ b ∷ rest
append_le16-le16 a b rest h k =
    let low : le16 a b % 256 ≡ a = omega arith in
    let high : le16 a b / 2 ^ 8 % 256 ≡ b = omega arith in rw (low, high)

append_le32-le32 :
    (a b c d : ℕ) (rest : List ℕ)
    → a < 256
    → b < 256
    → c < 256
    → d < 256
    → append_le32 (le32 a b c d) rest ≡ a ∷ b ∷ c ∷ d ∷ rest
append_le32-le32 a b c d rest h k l m =
    let first : le32 a b c d % 256 ≡ a = omega arith in
    let second : le32 a b c d / 2 ^ 8 % 256 ≡ b = omega arith in
    let third : le32 a b c d / 2 ^ 16 % 256 ≡ c = omega arith in
    let fourth : le32 a b c d / 2 ^ 24 % 256 ≡ d = omega arith in rw (first, second, third, fourth)

abbrev pub IsByte : ℕ → Type 0
IsByte b = b < 256

write_entries-read_entries :
    (data_bytes : List ℕ)
    → All IsByte data_bytes
    → length data_bytes % 8 ≡ 0
    → write_entries (read_entries data_bytes) ≡ data_bytes
unfolding read_entries write_entries
write_entries-read_entries [] bytes whole = refl
write_entries-read_entries (a ∷ []) bytes whole = absurd (omega arith)
write_entries-read_entries (a ∷ b ∷ []) bytes whole = absurd (omega arith)
write_entries-read_entries (a ∷ b ∷ c ∷ []) bytes whole = absurd (omega arith)
write_entries-read_entries (a ∷ b ∷ c ∷ d ∷ []) bytes whole = absurd (omega arith)
write_entries-read_entries (a ∷ b ∷ c ∷ d ∷ e ∷ []) bytes whole = absurd (omega arith)
write_entries-read_entries (a ∷ b ∷ c ∷ d ∷ e ∷ f ∷ []) bytes whole = absurd (omega arith)
write_entries-read_entries (a ∷ b ∷ c ∷ d ∷ e ∷ f ∷ g ∷ []) bytes whole = absurd (omega arith)
write_entries-read_entries (a ∷ b ∷ c ∷ d ∷ e ∷ f ∷ g ∷ h ∷ rest)
      (a_byte, (b_byte, (c_byte, (d_byte, (e_byte, (f_byte, (g_byte, (h_byte, bytes)))))))) whole =
    rw
      (
        write_entries-read_entries rest bytes (omega arith),
        append_le32-le32 e f g h rest e_byte f_byte g_byte h_byte,
        append_le16-le16 c d (e ∷ f ∷ g ∷ h ∷ rest) c_byte d_byte,
      )
      (append_le16-le16 a b _ a_byte b_byte)

header-version :
    (a b c d : ℕ) (rest : List ℕ)
    → le32 a b c d ≡ version
    → append_le32 version rest ≡ a ∷ b ∷ c ∷ d ∷ rest
header-version a b c d rest e =
    let first : a ≡ 2 = omega arith in
    let second : b ≡ 0 = omega arith in
    let third : c ≡ 0 = omega arith in
    let fourth : d ≡ 0 = omega arith in rw (first, second, third, fourth)

versioned : (v : ℕ) → not (v == version) ≡ false → v ≡ version
versioned v e = ground arith

parse_body_inv :
    (data_bytes : List ℕ) {entries : List AclEntry}
    → All IsByte data_bytes
    → (length data_bytes - 4) % 8 ≡ 0
    → parse_body data_bytes ≡ ok entries
    → (serialize entries ≡ data_bytes) × (validate entries ≡ ok tt)
unfolding parse_body serialize
parse_body_inv [] bytes whole e = absurd (cc)
parse_body_inv (a ∷ []) bytes whole e = absurd (cc)
parse_body_inv (a ∷ b ∷ []) bytes whole e = absurd (cc)
parse_body_inv (a ∷ b ∷ c ∷ []) bytes whole e = absurd (cc)
parse_body_inv (a ∷ b ∷ c ∷ d ∷ rest) bytes whole e =
    let (headed, behind) =
      >>-eq-ok (fail_if (not (le32 a b c d == version)) Code.invalid_argument) _ e in
    let (valid, done) = >>-eq-ok (validate (read_entries rest)) _ behind in
    let same : le32 a b c d ≡ version =
      versioned (le32 a b c d) (fail_if-eq-ok _ Code.invalid_argument headed) in
    let aligned : length rest % 8 ≡ 0 = omega arith in
    rw (← ok_injective done) (
      rw (write_entries-read_entries rest bytes.1.1.1.1 aligned) (header-version a b c d rest same),
      valid,
    )

-- A list that is parsed from bytes has been accepted by the validation, and the bytes written for
-- it are those that it was parsed from: a list has one stored form.
pub parse_inv :
    (data_bytes : List ℕ) {entries : List AclEntry}
    → All IsByte data_bytes
    → parse data_bytes ≡ ok entries
    → (serialize entries ≡ data_bytes) × (validate entries ≡ ok tt)
unfolding parse
parse_inv data_bytes bytes e =
    let (sized, body) = >>-eq-ok (fail_if _ Code.invalid_argument) (parse_body data_bytes) e in
    parse_body_inv data_bytes bytes (ground (arith, fail_if-eq-ok _ _ sized)) body
