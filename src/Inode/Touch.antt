-- ===== src/Inode/Touch.antt =====
-- `Touch` changes times only.
use sword_fs.Prelude.{◌≡◌, ◌∙◌, inl, inr, Bool-cases}
use sword_fs.Prelude.Int.{ℤ}
use sword_fs.Inode.{
  Attr, Inode, Fields, SetAttrField, has_set_attr_field, touch, touch_attr, touch_atime,
  touch_mtime, touch_ctime,
}

atime_step-mode :
    (now : ℤ) (fields : Fields) (attr : Attr) → (touch_atime now fields attr).mode ≡ attr.mode
unfolding touch_atime
atime_step-mode now fields attr =
    elim (Bool-cases (has_set_attr_field fields SetAttrField.atime_field)) [
      | inl named ↦ rw named
      | inr absent ↦ rw absent
    ]

mtime_step-mode :
    (now : ℤ) (fields : Fields) (attr : Attr) → (touch_mtime now fields attr).mode ≡ attr.mode
unfolding touch_mtime
mtime_step-mode now fields attr =
    elim (Bool-cases (has_set_attr_field fields SetAttrField.mtime_field)) [
      | inl named ↦ rw named
      | inr absent ↦ rw absent
    ]

ctime_step-mode :
    (now : ℤ) (fields : Fields) (attr : Attr) → (touch_ctime now fields attr).mode ≡ attr.mode
unfolding touch_ctime
ctime_step-mode now fields attr =
    elim (Bool-cases (has_set_attr_field fields SetAttrField.ctime_field)) [
      | inl named ↦ rw named
      | inr absent ↦ rw absent
    ]

pub touch-mode :
    (now : ℤ) (fields : Fields) (node : Inode)
    → ((touch now fields node).attr).mode ≡ (node.attr).mode
unfolding touch touch_attr
touch-mode now fields node =
    ctime_step-mode now fields (touch_mtime now fields (touch_atime now fields node.attr))
    ∙ mtime_step-mode now fields (touch_atime now fields node.attr)
    ∙ atime_step-mode now fields node.attr

atime_step-nlink :
    (now : ℤ) (fields : Fields) (attr : Attr) → (touch_atime now fields attr).nlink ≡ attr.nlink
unfolding touch_atime
atime_step-nlink now fields attr =
    elim (Bool-cases (has_set_attr_field fields SetAttrField.atime_field)) [
      | inl named ↦ rw named
      | inr absent ↦ rw absent
    ]

mtime_step-nlink :
    (now : ℤ) (fields : Fields) (attr : Attr) → (touch_mtime now fields attr).nlink ≡ attr.nlink
unfolding touch_mtime
mtime_step-nlink now fields attr =
    elim (Bool-cases (has_set_attr_field fields SetAttrField.mtime_field)) [
      | inl named ↦ rw named
      | inr absent ↦ rw absent
    ]

ctime_step-nlink :
    (now : ℤ) (fields : Fields) (attr : Attr) → (touch_ctime now fields attr).nlink ≡ attr.nlink
unfolding touch_ctime
ctime_step-nlink now fields attr =
    elim (Bool-cases (has_set_attr_field fields SetAttrField.ctime_field)) [
      | inl named ↦ rw named
      | inr absent ↦ rw absent
    ]

pub touch-nlink :
    (now : ℤ) (fields : Fields) (node : Inode)
    → ((touch now fields node).attr).nlink ≡ (node.attr).nlink
unfolding touch touch_attr
touch-nlink now fields node =
    ctime_step-nlink now fields (touch_mtime now fields (touch_atime now fields node.attr))
    ∙ mtime_step-nlink now fields (touch_atime now fields node.attr)
    ∙ atime_step-nlink now fields node.attr

atime_step-size :
    (now : ℤ) (fields : Fields) (attr : Attr) → (touch_atime now fields attr).size ≡ attr.size
unfolding touch_atime
atime_step-size now fields attr =
    elim (Bool-cases (has_set_attr_field fields SetAttrField.atime_field)) [
      | inl named ↦ rw named
      | inr absent ↦ rw absent
    ]

mtime_step-size :
    (now : ℤ) (fields : Fields) (attr : Attr) → (touch_mtime now fields attr).size ≡ attr.size
unfolding touch_mtime
mtime_step-size now fields attr =
    elim (Bool-cases (has_set_attr_field fields SetAttrField.mtime_field)) [
      | inl named ↦ rw named
      | inr absent ↦ rw absent
    ]

ctime_step-size :
    (now : ℤ) (fields : Fields) (attr : Attr) → (touch_ctime now fields attr).size ≡ attr.size
unfolding touch_ctime
ctime_step-size now fields attr =
    elim (Bool-cases (has_set_attr_field fields SetAttrField.ctime_field)) [
      | inl named ↦ rw named
      | inr absent ↦ rw absent
    ]

pub touch-size :
    (now : ℤ) (fields : Fields) (node : Inode)
    → ((touch now fields node).attr).size ≡ (node.attr).size
unfolding touch touch_attr
touch-size now fields node =
    ctime_step-size now fields (touch_mtime now fields (touch_atime now fields node.attr))
    ∙ mtime_step-size now fields (touch_atime now fields node.attr)
    ∙ atime_step-size now fields node.attr
