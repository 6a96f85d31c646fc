-- ===== src/Engine/Coherent/Script.antt =====
-- What `ReadChunkAttachmentsIfUnchanged` and its script have read, or found changed.
use sword_fs.Prelude.{
  true, false, Option, none, some, ◌≡◌, ◌≢◌, sym, refl, Bool-cases, inl, inr, ap, ◌∙◌, subst,
}
use sword_fs.Prelude.Text.{Text, same_text, same_text_inv, same_text_refl}
use sword_fs.Status.{ok, ok_injective, >>=-eq-ok}
use sword_fs.Chunk.{ChunkId, ChunkIndex}
use sword_fs.Chunk.SizePlan.{ChunkBoundarySnapshot, ChunkSizeBoundary}
use sword_fs.Meta.Decimal.{to_string}
use sword_fs.Engine.Client.{
  Reply, replied, refused, unreachable, read_only, StoredFile, is_image,
  read_chunk_attachments_script, read_chunk_attachments_if_unchanged,
}
use sword_fs.Engine.Reads.{boundary_index, decode_attached_chunk_id, read_boundary}

some_same : {a b : Option Text × Option Text} → some a ≡ some b → a ≡ b
some_same e = cc

pub not_here : {A : Type 0} {a : A} → some a ≢ none
not_here = λ e. cc

-- The chunk at a partial end of the file, as it is attached there; none where the end is not partial
pub data IsBoundaryRead (stored : StoredFile)
    : Option ChunkSizeBoundary → Option ChunkBoundarySnapshot → Type 0 where
  whole : IsBoundaryRead stored none none
  partial :
      (boundary : ChunkSizeBoundary) (chunk_id : Option ChunkId)
      → decode_attached_chunk_id (stored.attached (to_string boundary.index)) ≡ ok chunk_id
      → IsBoundaryRead stored (some boundary) (
          some (record {
            index = boundary.index;
            chunk_id = chunk_id;
            visible_prefix = boundary.visible_prefix;
          }))

pub read_boundary-IsBoundaryRead :
    (stored : StoredFile) (index : ChunkIndex) (boundary : Option ChunkSizeBoundary)
    {snapshot : Option ChunkBoundarySnapshot}
    → read_boundary boundary (stored.attached (to_string (boundary_index index boundary)))
      ≡ ok snapshot
    → IsBoundaryRead stored boundary snapshot
unfolding read_boundary
read_boundary-IsBoundaryRead stored index none e =
    subst (IsBoundaryRead stored none) (ok_injective e) whole
read_boundary-IsBoundaryRead stored index (some boundary) e =
    let (chunk_id, decoded, made) = >>=-eq-ok (decode_attached_chunk_id _) _ e in
    subst (IsBoundaryRead stored (some boundary)) (ok_injective made)
      (partial boundary chunk_id decoded)

is_image-some :
    (image : Option Text) (expected : Text) → is_image image expected ≡ true → image ≡ some expected
is_image-some none expected e = absurd cc
is_image-some (some image) expected e = ap some (same_text_inv image expected e)

is_image-false :
    (image : Option Text) (expected : Text)
    → is_image image expected ≡ false
    → image ≢ some expected
is_image-false none expected differ = λ same. absurd cc
is_image-false (some image) expected differ = λ same.
    let equal : image ≡ expected = cc in
    let kept : same_text image expected ≡ true =
      ap (same_text image) (sym equal) ∙ same_text_refl image in
    absurd cc

-- Fields that are read are those of a state in which the inode has the image.
pub read_chunk_attachments_inv :
    (reply : Reply StoredFile) (expected : Text) (index eof_index : ChunkIndex)
    {attached_raw eof_raw : Option Text}
    → read_chunk_attachments_if_unchanged reply expected index eof_index
      ≡ ok (some (attached_raw, eof_raw))
    → (stored : StoredFile) × (reply ≡ replied stored)
      × (stored.image ≡ some expected)
      × (stored.attached (to_string index) ≡ attached_raw)
      × (stored.attached (to_string eof_index) ≡ eof_raw)
unfolding read_chunk_attachments_if_unchanged read_chunk_attachments_script read_only same_text
read_chunk_attachments_inv refused expected index eof_index e = absurd cc
read_chunk_attachments_inv unreachable expected index eof_index e = absurd cc
read_chunk_attachments_inv (replied stored) expected index eof_index {attached_raw} {eof_raw} e =
    elim (Bool-cases (is_image stored.image expected)) [
      | inl same ↦
          let read : Option Text × Option Text =
            (stored.attached (to_string index), stored.attached (to_string eof_index)) in
          let wanted : Option Text × Option Text = (attached_raw, eof_raw) in
          let pair : read ≡ wanted = some_same (ok_injective (rw same at e)) in
          (
            stored,
            refl,
            is_image-some stored.image expected same,
            ap (λ (p : Option Text × Option Text). p.0) pair,
            ap (λ (p : Option Text × Option Text). p.1) pair,
          )
      | inr differ ↦ let given = rw differ at e in absurd cc
    ]

pub unchanged_inv :
    (reply : Reply StoredFile) (expected : Text) (index eof_index : ChunkIndex)
    → read_chunk_attachments_if_unchanged reply expected index eof_index ≡ ok none
    → (stored : StoredFile) × (reply ≡ replied stored) × (stored.image ≢ some expected)
unfolding read_chunk_attachments_if_unchanged read_chunk_attachments_script read_only same_text
unchanged_inv refused expected index eof_index e = absurd cc
unchanged_inv unreachable expected index eof_index e = absurd cc
unchanged_inv (replied stored) expected index eof_index e =
    elim (Bool-cases (is_image stored.image expected)) [
      | inl same ↦ let given = rw same at e in absurd (not_here (ok_injective given))
      | inr differ ↦ (stored, refl, is_image-false stored.image expected differ)
    ]
