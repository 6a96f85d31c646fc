-- ===== src/Inode/Tests.antt =====
-- Attributes at work.
use sword_fs.Prelude.{◌+◌, some, [], ◌∷◌, ◌≡◌, refl, All, subst, arith}
use sword_fs.Acl.{serialize, apply_mode}
use sword_fs.Acl.Tests.{stored, entries, stored_bytes, parsed}
use sword_fs.Acl.Bytes.{IsByte}
use sword_fs.Inode.PosixAcl.{
  access_xattr, sync_posix_access_acl_for_mode, parse_stored_acl, malformed_unless,
}
use sword_fs.Inode.PosixAcl.Agrees.{Agrees, sync_posix_access_acl_for_mode-Agrees}
use sword_fs.Prelude.Int.{pos}
use sword_fs.Prelude.Text.{Text, same_text, lookup, assign}
use sword_fs.Status.{Result, ok, err, Code}
use sword_fs.Inode.Scheme.{parse_url_scheme, before_separator}
use sword_fs.Inode.Stat.{
  from_posix_stat, to_posix_stat, to_stat_x, attr_append, from_posix_stat-to_posix_stat,
}
use sword_fs.Inode.{Inode, new_attr, projected_posix_blocks}
use sword_fs.Inode.PosixAcl.{upsert}
use sword_fs.Inode.XAttr.{set_xattr}

abbrev plain_file : Inode
plain_file = record {
  ino = 3;
  attr = new_attr (pos 5) 3 33188 0 0;
  parent_ino = 1;
  symlink_target = [];
  xattrs = (98 ∷ [], 1 ∷ []) ∷ [];
}

abbrev key_a : Text
key_a = 97 ∷ []

abbrev or_same : Result Inode → Inode
or_same (ok inode) = inode
or_same (err code) = plain_file

abbrev with_attribute : Inode
with_attribute = or_same (set_xattr (pos 9) plain_file key_a (7 ∷ []) upsert)

-- An access list of five entries: a user beside the owner, and a mask.
abbrev listed_file : Inode
listed_file = record plain_file { xattrs = (access_xattr, stored) ∷ [] }

abbrev opened_file : Inode
opened_file = record listed_file {
  xattrs = assign access_xattr (serialize (apply_mode 33279 entries)) listed_file.xattrs;
}

listed_bytes :
    (value : Text) → lookup access_xattr listed_file.xattrs ≡ some value → All IsByte value
unfolding lookup same_text
listed_bytes value there = subst (All IsByte) {x = stored} (cc) stored_bytes

opened : sync_posix_access_acl_for_mode listed_file 33279 ≡ ok opened_file
unfolding sync_posix_access_acl_for_mode lookup same_text parse_stored_acl malformed_unless
opened = rw (parsed)

sync_posix_access_acl_for_mode_example :
    Agrees opened_file.xattrs 33279 × (opened_file.attr ≡ listed_file.attr)
sync_posix_access_acl_for_mode_example =
    sync_posix_access_acl_for_mode-Agrees listed_file 33279 listed_bytes opened

from_posix_stat_example :
    from_posix_stat (to_posix_stat plain_file.attr) ≡ record (plain_file.attr) {
      blocks = projected_posix_blocks plain_file.attr;
      btime = pos 0;
      btime_nsec = pos 0;
      inode_flags = 0;
    }
unfolding new_attr
from_posix_stat_example =
    from_posix_stat-to_posix_stat plain_file.attr (omega arith) (omega arith) (omega arith)
      (omega arith) (omega arith)

-- A file that can only be appended to
shown_append :
    (to_stat_x
      (λ dev. dev)
      (λ dev. dev)
      (record (plain_file.attr) { inode_flags = 2; size = 9 })).stx_attributes
    ≡ attr_append
unfolding new_attr to_stat_x
shown_append = refl

-- "S://b", and "://b" without a scheme
scheme_found : parse_url_scheme (λ c. c + 32) (83 ∷ 58 ∷ 47 ∷ 47 ∷ 98 ∷ []) ≡ ok (115 ∷ [])
unfolding parse_url_scheme before_separator same_text
scheme_found = refl

scheme_missing : parse_url_scheme (λ c. c + 32) (58 ∷ 47 ∷ 47 ∷ 98 ∷ []) ≡ err Code.invalid_argument
unfolding parse_url_scheme before_separator same_text
scheme_missing = refl
