-- ===== src/Acl/Widths.antt =====
-- The widths of the fields of a list that is parsed, and of one whose mode is changed.
use sword_fs.Prelude.{
  ℕ, ◌^◌, ◌<◌, not, ◌==◌, List, [], ◌∷◌, ◌≡◌, subst, All, arith, inl, inr, Bool-cases,
}
use sword_fs.Status.{ok, Code, fail_if, >>-eq-ok, ok_injective}
use sword_fs.Acl.{
  AclEntry, le32, parse, parse_body, read_entries, validate, version, set_perm, apply_mode,
}
use sword_fs.Acl.Bytes.{IsWide, IsByte}

read_entries-IsWide :
    (data_bytes : List ℕ) → All IsByte data_bytes → All IsWide (read_entries data_bytes)
unfolding read_entries
read_entries-IsWide [] bytes = tt
read_entries-IsWide (a ∷ []) bytes = tt
read_entries-IsWide (a ∷ b ∷ []) bytes = tt
read_entries-IsWide (a ∷ b ∷ c ∷ []) bytes = tt
read_entries-IsWide (a ∷ b ∷ c ∷ d ∷ []) bytes = tt
read_entries-IsWide (a ∷ b ∷ c ∷ d ∷ e ∷ []) bytes = tt
read_entries-IsWide (a ∷ b ∷ c ∷ d ∷ e ∷ f ∷ []) bytes = tt
read_entries-IsWide (a ∷ b ∷ c ∷ d ∷ e ∷ f ∷ g ∷ []) bytes = tt
read_entries-IsWide (a ∷ b ∷ c ∷ d ∷ e ∷ f ∷ g ∷ h ∷ rest)
      (a_byte, (b_byte, (c_byte, (d_byte, (e_byte, (f_byte, (g_byte, (h_byte, bytes)))))))) =
    (
      record { tag_width = omega arith; perm_width = omega arith; id_width = omega arith },
      read_entries-IsWide rest bytes,
    )

parse_body-IsWide :
    (data_bytes : List ℕ) {entries : List AclEntry}
    → All IsByte data_bytes
    → parse_body data_bytes ≡ ok entries
    → All IsWide entries
unfolding parse_body
parse_body-IsWide [] bytes e = absurd cc
parse_body-IsWide (a ∷ []) bytes e = absurd cc
parse_body-IsWide (a ∷ b ∷ []) bytes e = absurd cc
parse_body-IsWide (a ∷ b ∷ c ∷ []) bytes e = absurd cc
parse_body-IsWide (a ∷ b ∷ c ∷ d ∷ rest) bytes e =
    let (headed, behind) =
      >>-eq-ok (fail_if (not (le32 a b c d == version)) Code.invalid_argument) _ e in
    let (valid, done) = >>-eq-ok (validate (read_entries rest)) _ behind in
    subst (All IsWide) (ok_injective done) (read_entries-IsWide rest bytes.1.1.1.1)

pub parse-IsWide :
    (data_bytes : List ℕ) {entries : List AclEntry}
    → All IsByte data_bytes
    → parse data_bytes ≡ ok entries
    → All IsWide entries
unfolding parse
parse-IsWide data_bytes bytes e =
    let (sized, body) = >>-eq-ok (fail_if _ Code.invalid_argument) (parse_body data_bytes) e in
    parse_body-IsWide data_bytes bytes body

set_perm-IsWide :
    (tag perm : ℕ) (entries : List AclEntry)
    → perm < 2 ^ 16
    → All IsWide entries
    → All IsWide (set_perm tag perm entries)
unfolding set_perm
set_perm-IsWide tag perm [] small wide = tt
set_perm-IsWide tag perm (entry ∷ rest) small (first, wide) = elim (Bool-cases (entry.tag == tag)) [
  | inl here ↦
      rw here (
        record { tag_width = first.tag_width; perm_width = small; id_width = first.id_width },
        wide,
      )
  | inr beyond ↦ rw beyond (first, set_perm-IsWide tag perm rest small wide)
]

pub apply_mode-IsWide :
    (mode : ℕ) (entries : List AclEntry) → All IsWide entries → All IsWide (apply_mode mode entries)
unfolding apply_mode
apply_mode-IsWide mode entries wide =
    set_perm-IsWide _ _ _ (omega arith)
      (set_perm-IsWide _ _ _ (omega arith) (set_perm-IsWide _ _ entries (omega arith) wide))
