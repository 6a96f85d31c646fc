-- ===== src/Inode/PosixAcl/Agrees.antt =====
-- An access list that an inode holds and the permission bits of its mode.
use sword_fs.Prelude.{
  ℕ, ◌%◌, ◌^◌, some, List, ◌≡◌, sym, ap, ◌∙◌, subst, inl, inr, Option-cases, All,
}
use sword_fs.Prelude.Text.{Text, Dict, lookup, lookup-assign}
use sword_fs.Status.{ok, Result-cases, >>=-eq-ok, ok_injective}
use sword_fs.Acl.{AclEntry, parse, serialize, apply_mode, permissions_mode}
use sword_fs.Acl.Mode.{permissions_mode-apply_mode}
use sword_fs.Acl.Bytes.{parse-serialize, parse_inv, IsByte}
use sword_fs.Acl.Widths.{parse-IsWide, apply_mode-IsWide}
use sword_fs.Inode.{Inode}
use sword_fs.Inode.PosixAcl.{
  access_xattr, parse_stored_acl, malformed_unless, sync_posix_access_acl_for_mode,
}

-- The access list that is stored, if any, can be read, and stands for these permissions.
pub record IsListOf (permissions : ℕ) (value : Text) : Type 0 where
  pub entries : List AclEntry
  pub reads : parse value ≡ ok entries
  pub stands_for : permissions_mode entries ≡ some permissions

unfoldable pub Agrees : Dict → ℕ → Type 0
Agrees xattrs mode =
    (value : Text) → lookup access_xattr xattrs ≡ some value → IsListOf (mode % 2 ^ 9) value

parse_stored_acl-eq-ok :
    (value : Text) {entries : List AclEntry}
    → parse_stored_acl value ≡ ok entries
    → parse value ≡ ok entries
unfolding parse_stored_acl malformed_unless
parse_stored_acl-eq-ok value given = elim (Result-cases (parse value)) [
  | inl (found, e) ↦ e ∙ rw e at given
  | inr (code, e) ↦ let same = rw e at given in absurd cc
]

-- Behind a change of the mode, an access list that is stored can be read and stands for the nine
-- permission bits of that mode; nothing else of the inode's attributes changes. What is stored is
-- bytes.
pub sync_posix_access_acl_for_mode-Agrees :
    (inode : Inode) (mode : ℕ) {synced : Inode}
    → ((value : Text) → lookup access_xattr inode.xattrs ≡ some value → All IsByte value)
    → sync_posix_access_acl_for_mode inode mode ≡ ok synced
    → Agrees synced.xattrs mode × (synced.attr ≡ inode.attr)
unfolding sync_posix_access_acl_for_mode Agrees
sync_posix_access_acl_for_mode-Agrees inode mode {synced} bytes done =
    elim (Option-cases (lookup access_xattr inode.xattrs)) [
      | inl missing ↦
          let same : inode ≡ synced =
            ok_injective (rw (sync_posix_access_acl_for_mode, missing) at done) in
          (
            λ value there. absurd (let gone = ap (λ i. lookup access_xattr i.xattrs) same in cc),
            ap (λ i. i.attr) (sym same),
          )
      | inr (stored, there) ↦
          let (acl, parsed, e) =
            >>=-eq-ok (parse_stored_acl stored) _
              (rw (sync_posix_access_acl_for_mode, there) at done) in
          let readable : parse stored ≡ ok acl = parse_stored_acl-eq-ok stored parsed in
          let (written, valid) = parse_inv stored (bytes stored there) readable in
          let (bits, still_valid) = permissions_mode-apply_mode mode acl valid in
          let wide =
            apply_mode-IsWide mode acl (parse-IsWide stored (bytes stored there) readable) in
          let found : lookup access_xattr synced.xattrs ≡ some (serialize (apply_mode mode acl)) =
            ap (λ i. lookup access_xattr i.xattrs) (sym (ok_injective e))
            ∙ lookup-assign access_xattr _ inode.xattrs in
          (
            λ value at_name.
                subst (IsListOf (mode % 2 ^ 9)) (let both = sym found ∙ at_name in cc) (record {
                  entries = apply_mode mode acl;
                  reads = parse-serialize (apply_mode mode acl) wide still_valid;
                  stands_for = bits;
                }),
            ap (λ i. i.attr) (sym (ok_injective e)),
          )
    ]
