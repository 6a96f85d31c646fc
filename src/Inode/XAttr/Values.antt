-- ===== src/Inode/XAttr/Values.antt =====
-- What an extended attribute holds behind a change.
use sword_fs.Prelude.{not-false, true, false, not, ltb, ◌≡◌, sym, ap, length}
use sword_fs.Prelude.Int.{ℤ}
use sword_fs.Prelude.Text.{
  Text, is_empty, same_text, lookup, assign, erase, lookup-assign, lookup-assign_apart,
  lookup-erase, lookup-erase_apart,
}
use sword_fs.Status.{ok, err, Code, fail_if, fail_if-eq-ok, >>-eq-ok, ok_injective}
use sword_fs.Inode.{Inode, touch}
use sword_fs.Inode.PosixAcl.{
  XAttrSetMode, is_posix_acl_xattr_name, check_set_mode, check_insert_list_size, is_some,
  max_xattr_value_size,
}
use sword_fs.Inode.XAttr.{
  set_xattr, get_xattr, remove_xattr, value_or_no_data, max_xattr_name_length,
}

-- Where an attribute that is no access control list is set, it has that value, and every other
-- attribute keeps its own.
pub set_xattr-get_xattr :
    (now : ℤ) (inode : Inode) (name value : Text) (how : XAttrSetMode) {changed : Inode}
    → is_posix_acl_xattr_name name ≡ false
    → set_xattr now inode name value how ≡ ok changed
    → (get_xattr changed name ≡ ok value)
      × ((other : Text)
          → same_text other name ≡ false
          → get_xattr changed other ≡ get_xattr inode other)
unfolding set_xattr get_xattr touch value_or_no_data
set_xattr-get_xattr now inode name value how {changed} plain done =
    let (_, e1) =
      >>-eq-ok (fail_if (is_empty name) Code.invalid_argument) _ (rw (set_xattr, plain) at done) in
    let (short, e2) =
      >>-eq-ok (fail_if (ltb max_xattr_name_length (length name)) Code.range) _ e1 in
    let (_, e3) = >>-eq-ok (fail_if (ltb max_xattr_value_size (length value)) Code.range) _ e2 in
    let (_, e4) = >>-eq-ok (check_set_mode inode.xattrs name how) _ e3 in
    let (_, e5) = >>-eq-ok (check_insert_list_size inode.xattrs name) _ e4 in
    let same : changed.xattrs ≡ assign name value inode.xattrs =
      ap (λ i. i.xattrs) (sym (ok_injective e5)) in
    (
      rw (
        same,
        fail_if-eq-ok (ltb max_xattr_name_length (length name)) Code.range short,
        lookup-assign name value inode.xattrs,
      ),
      λ other apart. rw (same, lookup-assign_apart name other value inode.xattrs apart),
    )

-- Where an attribute that is no access control list is removed, it had a value, has none then, and
-- every other attribute keeps its own.
pub remove_xattr-get_xattr :
    (now : ℤ) (inode : Inode) (name : Text) {changed : Inode}
    → is_posix_acl_xattr_name name ≡ false
    → remove_xattr now inode name ≡ ok changed
    → (is_some (lookup name inode.xattrs) ≡ true)
      × (get_xattr changed name ≡ err Code.no_data)
      × ((other : Text)
          → same_text other name ≡ false
          → get_xattr changed other ≡ get_xattr inode other)
unfolding remove_xattr get_xattr touch value_or_no_data
remove_xattr-get_xattr now inode name {changed} plain done =
    let (short, e1) =
      >>-eq-ok (fail_if (ltb max_xattr_name_length (length name)) Code.range) _
        (rw (remove_xattr, plain) at done) in
    let (there, e2) =
      >>-eq-ok (fail_if (not (is_some (lookup name inode.xattrs))) Code.no_data) _ e1 in
    let same : changed.xattrs ≡ erase name inode.xattrs =
      ap (λ i. i.xattrs) (sym (ok_injective e2)) in
    (
      not-false _ (fail_if-eq-ok (not (is_some (lookup name inode.xattrs))) Code.no_data there),
      rw (
        same,
        fail_if-eq-ok (ltb max_xattr_name_length (length name)) Code.range short,
        lookup-erase name inode.xattrs,
      ),
      λ other apart. rw (same, lookup-erase_apart name other inode.xattrs apart),
    )
