-- ===== src/Record/InodeTrip.antt =====
-- The record of an inode, written and read again.
use sword_fs.Prelude.{
  ◌^◌, ◌<◌, false, ◌==◌, ==_refl, none, some, [], ◌∷◌, ◌++◌, length, ◌≡◌, refl, sym, ap, ◌∙◌,
  append_assoc, append-nil,
}
use sword_fs.Prelude.Text.{Text, Dict, is_empty, same_text, text_less, lookup, assign}
use sword_fs.Status.{ok, Code, fail_if, fail_if-eq-ok, >>-eq-ok, ok_injective}
use sword_fs.Inode.{Inode}
use sword_fs.Record.{Words, inode_record, put_string, finish}
use sword_fs.Record.Attributes.{IsWideAttr, get_attr-put_attr}
use sword_fs.Record.Entries.{get_string-put_string, get_header-put_header}
use sword_fs.Record.Inodes.{put_xattrs, get_xattrs, serialize_inode, parse_inode}

-- A name that comes behind those of a map.
unfoldable pub IsBehind : Text → Dict → Type 0
IsBehind name [] = Unit {0}
IsBehind name ((other, value) ∷ rest) =
    (same_text name other ≡ false) × (text_less name other ≡ false) × IsBehind name rest

lookup-IsBehind : (name : Text) (d : Dict) → IsBehind name d → lookup name d ≡ none
unfolding lookup IsBehind
lookup-IsBehind name [] behind = refl
lookup-IsBehind name ((other, value) ∷ rest) (apart, later, behind) =
    rw apart (lookup-IsBehind name rest behind)

assign-IsBehind :
    (name value : Text) (d : Dict) → IsBehind name d → assign name value d ≡ d ++ (name, value) ∷ []
unfolding assign IsBehind
assign-IsBehind name value [] behind = refl
assign-IsBehind name value ((other, old) ∷ rest) (apart, later, behind) =
    rw (apart, later) (ap (λ d. (other, old) ∷ d) (assign-IsBehind name value rest behind))

-- The attributes in the order of their names, behind those that are there already.
unfoldable pub AreInOrder : Dict → Dict → Type 0
AreInOrder before [] = Unit {0}
AreInOrder before ((name, value) ∷ rest) =
    (is_empty name ≡ false)
    × (length name < 2 ^ 64)
    × (length value < 2 ^ 64)
    × IsBehind name before
    × AreInOrder (before ++ (name, value) ∷ []) rest

module _ (words : Words) where
  get_xattrs-put_xattrs :
      (xattrs before : Dict) (behind : Text)
      → AreInOrder before xattrs
      → get_xattrs words (length xattrs) before (put_xattrs words xattrs behind)
        ≡ some (before ++ xattrs, behind)
  unfolding get_xattrs put_xattrs AreInOrder
  get_xattrs-put_xattrs [] before behind ordered = rw (append-nil before)
  get_xattrs-put_xattrs ((name, value) ∷ rest) before behind
        (named, name_width, value_width, last, ordered) =
      rw
        (
          get_string-put_string words name (put_string words value (put_xattrs words rest behind))
              name_width,
          get_string-put_string words value (put_xattrs words rest behind) value_width,
          named,
          lookup-IsBehind name before last,
          assign-IsBehind name value before last,
        )
        (get_xattrs-put_xattrs rest (before ++ (name, value) ∷ []) behind ordered
          ∙ ap (λ d. some (d, behind)) (append_assoc before ((name, value) ∷ []) rest))

  pub record IsWideInode (inode : Inode) : Type 0 where
    pub ino_width : inode.ino < 2 ^ 64
    pub attr_width : IsWideAttr inode.attr
    pub parent_width : inode.parent_ino < 2 ^ 64
    pub target_width : length inode.symlink_target < 2 ^ 64
    pub count_width : length inode.xattrs < 2 ^ 64
    pub ordered : AreInOrder [] inode.xattrs
    pub same_number : (inode.attr).ino ≡ inode.ino

  -- An inode whose fields have their widths, whose flags and nanoseconds are valid, whose attributes
  -- carry its number and whose extended attributes have names, in order, is read from the record
  -- that is written for it.
  pub parse_inode-serialize_inode :
      (inode : Inode) {bytes : Text}
      → IsWideInode inode
      → serialize_inode words inode ≡ ok bytes
      → parse_inode words bytes ≡ ok inode
  unfolding parse_inode serialize_inode finish
  parse_inode-serialize_inode inode wide written =
      let (named, same) = >>-eq-ok (fail_if (inode.ino == 0) Code.invalid_argument) _ written in
      let valid = fail_if-eq-ok (inode.ino == 0) Code.invalid_argument named in
      rw (
        sym (ok_injective same),
        get_header-put_header words inode_record _,
        words.get-put64 inode.ino _ wide.ino_width,
        get_attr-put_attr words inode.attr wide.attr_width _,
        words.get-put64 inode.parent_ino _ wide.parent_width,
        get_string-put_string words inode.symlink_target _ wide.target_width,
        words.get-put64 (length inode.xattrs) _ wide.count_width,
        get_xattrs-put_xattrs inode.xattrs [] [] wide.ordered,
        valid,
        wide.same_number,
        ==_refl inode.ino,
      )
