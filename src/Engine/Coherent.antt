-- ===== src/Engine/Coherent.antt =====
-- `RedisMetaOps::ReadFileChunkSnapshot` as a whole.
mod Script
use sword_fs.Prelude.{
  not-false, ℕ, zero, suc, ◌+◌, ◌<◌, ◌≤◌, true, false, not, ◌==◌, ==_iff, Option, none, some, ◌≡◌,
  ◌≢◌, sym, ◌⊎◌, refl, Bool-cases, inl, inr, arith, ap, ◌∙◌, subst,
}
use sword_fs.Prelude.Text.{Text, same_text, same_text_inv, same_text_refl}
use sword_fs.Status.{
  Result, ok, err, Code, ok_injective, >>=-eq-ok, >>-eq-ok, fail_if, fail_if-eq-ok,
}
use sword_fs.Chunk.{ChunkId, ChunkIndex}
use sword_fs.Chunk.SizePlan.{
  ChunkBoundarySnapshot, ChunkSizeLayout, ChunkSizeBoundary, plan_chunk_size_layout,
}
use sword_fs.Chunk.SizePlan.Layout.{IsBoundaryOf, plan_chunk_size_layout-IsBoundaryOf}
use sword_fs.Meta.Decimal.{to_string}
use sword_fs.Inode.{InodeId, Inode, is_regular}
use sword_fs.Record.{Words}
use sword_fs.Record.Inodes.{parse_inode}
use sword_fs.Engine.Client.{
  Reply, replied, refused, unreachable, read_only, get, StoredFile, is_image,
  read_chunk_attachments_script, read_chunk_attachments_if_unchanged,
}
use sword_fs.Engine.Reclaim.{here_or_later}
use sword_fs.Engine.Coherent.Script.{
  not_here, IsBoundaryRead, read_boundary-IsBoundaryRead, read_chunk_attachments_inv, unchanged_inv,
}
use sword_fs.Engine.Reads.{
  FileChunkSnapshot, Answers, boundary_index, decode_attached_chunk_id, read_boundary, snapshot_of,
  if_matched, snapshot_attempt, found_or_again, read_file_chunk_snapshot,
}

same_number : (a b : ℕ) → not (a == b) ≡ false → a ≡ b
same_number a b e = (==_iff a b).0 (not-false (a == b) e)

the_same : {a b : FileChunkSnapshot} → some a ≡ some b → a ≡ b
the_same e = cc

module _ (words : Words) (chunk_size : ℕ) (ino : InodeId) (index : ChunkIndex) where
  -- A snapshot whose parts are of one state of the server, in which the inode had the image that the end
  -- of the file was computed from.
  pub record IsCoherent (answers : Answers) (snapshot : FileChunkSnapshot) : Type 0 where
    pub encoded_inode : Text
    pub layout : ChunkSizeLayout
    pub stored : StoredFile
    pub image_read : get answers.inode_reply ≡ ok encoded_inode
    pub inode_parsed : parse_inode words encoded_inode ≡ ok snapshot.inode
    pub asked_for : (snapshot.inode).ino ≡ ino
    pub regular : is_regular snapshot.inode ≡ true
    pub ends : IsBoundaryOf ((snapshot.inode).attr).size chunk_size layout.boundary
    pub held : answers.fields_reply ≡ replied stored
    pub unchanged : stored.image ≡ some encoded_inode
    pub chunk_decoded :
        decode_attached_chunk_id (stored.attached (to_string index)) ≡ ok snapshot.chunk_id
    pub boundary_decoded : IsBoundaryRead stored layout.boundary snapshot.eof_boundary

  if_matched_inv :
      (inode : Inode) (boundary : Option ChunkSizeBoundary)
      (fields : Option (Option Text × Option Text)) {snapshot : FileChunkSnapshot}
      → if_matched words inode boundary fields ≡ ok (some snapshot)
      → (attached_raw eof_raw : Option Text) × (fields ≡ some (attached_raw, eof_raw))
        × (decode_attached_chunk_id attached_raw ≡ ok snapshot.chunk_id)
        × (read_boundary boundary eof_raw ≡ ok snapshot.eof_boundary)
        × (inode ≡ snapshot.inode)
  unfolding snapshot_of
  if_matched_inv inode boundary none e = absurd cc
  if_matched_inv inode boundary (some (attached_raw, eof_raw)) {snapshot} e =
      let (made, built, e1) =
        >>=-eq-ok (snapshot_of words inode boundary (attached_raw, eof_raw)) _ e in
      let (chunk_id, decoded, e2) = >>=-eq-ok (decode_attached_chunk_id attached_raw) _ built in
      let (eof_boundary, bounded, e3) = >>=-eq-ok (read_boundary boundary eof_raw) _ e2 in
      let whole : record { inode = inode; chunk_id = chunk_id; eof_boundary = eof_boundary }
          ≡ snapshot =
        ok_injective e3 ∙ the_same (ok_injective e1) in
      (
        attached_raw,
        eof_raw,
        refl,
        decoded ∙ ap (λ (s : FileChunkSnapshot). ok s.chunk_id) whole,
        bounded ∙ ap (λ (s : FileChunkSnapshot). ok s.eof_boundary) whole,
        ap (λ (s : FileChunkSnapshot). s.inode) whole,
      )

  snapshot_attempt-IsCoherent :
      (answers : Answers) {snapshot : FileChunkSnapshot}
      → snapshot_attempt words chunk_size ino index answers ≡ ok (some snapshot)
      → IsCoherent answers snapshot
  unfolding snapshot_attempt snapshot_of
  snapshot_attempt-IsCoherent answers {snapshot} e =
      let (image, read, e1) = >>=-eq-ok (get answers.inode_reply) _ e in
      let (inode, parsed, e2) = >>=-eq-ok (parse_inode words image) _ e1 in
      let (same, e3) = >>-eq-ok (fail_if (not (inode.ino == ino)) Code.malformed) _ e2 in
      let (regular, e4) = >>-eq-ok (fail_if (not (is_regular inode)) Code.invalid_argument) _ e3 in
      let (layout, planned, e5) =
        >>=-eq-ok (plan_chunk_size_layout (inode.attr).size chunk_size) _ e4 in
      let (fields, fetched, e6) =
        >>=-eq-ok
          (read_chunk_attachments_if_unchanged answers.fields_reply image index
            (boundary_index index layout.boundary))
          _ e5 in
      let (attached_raw, eof_raw, matched, decoded, bounded, kept) =
        if_matched_inv inode layout.boundary fields e6 in
      let (stored, held, unchanged, attached, at_end) =
        read_chunk_attachments_inv answers.fields_reply image index
          (boundary_index index layout.boundary) (fetched ∙ ap ok matched) in
      record {
        encoded_inode = image;
        layout = layout;
        stored = stored;
        image_read = read;
        inode_parsed = parsed ∙ ap ok kept;
        asked_for =
            subst (λ (i : Inode). i.ino ≡ ino) kept
              (same_number inode.ino ino (fail_if-eq-ok _ _ same));
        regular =
            subst (λ i. is_regular i ≡ true) kept
              (not-false (is_regular inode) (fail_if-eq-ok _ _ regular));
        ends =
            subst (λ (i : Inode). IsBoundaryOf (i.attr).size chunk_size layout.boundary) kept
              (plan_chunk_size_layout-IsBoundaryOf (inode.attr).size chunk_size planned);
        held = held;
        unchanged = unchanged;
        chunk_decoded = ap decode_attached_chunk_id attached ∙ decoded;
        boundary_decoded =
            read_boundary-IsBoundaryRead stored index layout.boundary
              (ap (read_boundary layout.boundary) at_end ∙ bounded);
      }

  -- An attempt that has found the inode changed: the server holds another image of it than was read.
  pub record IsChanged (answers : Answers) : Type 0 where
    pub encoded_inode : Text
    pub image_read : get answers.inode_reply ≡ ok encoded_inode
    pub stored : StoredFile
    pub held : answers.fields_reply ≡ replied stored
    pub changed : stored.image ≢ some encoded_inode

  if_matched-none :
      (inode : Inode) (boundary : Option ChunkSizeBoundary)
      (fields : Option (Option Text × Option Text))
      → if_matched words inode boundary fields ≡ ok none
      → fields ≡ none
  if_matched-none inode boundary none e = refl
  if_matched-none inode boundary (some fields) e =
      let (made, built, e1) = >>=-eq-ok (snapshot_of words inode boundary fields) _ e in
      absurd (not_here (ok_injective e1))

  snapshot_attempt-IsChanged :
      (answers : Answers)
      → snapshot_attempt words chunk_size ino index answers ≡ ok none
      → IsChanged answers
  unfolding snapshot_attempt
  snapshot_attempt-IsChanged answers e =
      let (image, read, e1) = >>=-eq-ok (get answers.inode_reply) _ e in
      let (inode, parsed, e2) = >>=-eq-ok (parse_inode words image) _ e1 in
      let (same, e3) = >>-eq-ok (fail_if (not (inode.ino == ino)) Code.malformed) _ e2 in
      let (regular, e4) = >>-eq-ok (fail_if (not (is_regular inode)) Code.invalid_argument) _ e3 in
      let (layout, planned, e5) =
        >>=-eq-ok (plan_chunk_size_layout (inode.attr).size chunk_size) _ e4 in
      let (fields, fetched, e6) =
        >>=-eq-ok
          (read_chunk_attachments_if_unchanged answers.fields_reply image index
            (boundary_index index layout.boundary))
          _ e5 in
      let (stored, held, changed) =
        unchanged_inv answers.fields_reply image index (boundary_index index layout.boundary)
          (fetched ∙ ap ok (if_matched-none inode layout.boundary fields e6)) in
      record {
        encoded_inode = image;
        image_read = read;
        stored = stored;
        held = held;
        changed = changed;
      }

  found_or_again-cases :
      (first : Result (Option FileChunkSnapshot)) (rest : Result FileChunkSnapshot)
      {snapshot : FileChunkSnapshot}
      → found_or_again words first rest ≡ ok snapshot
      → (first ≡ ok (some snapshot)) ⊎ ((first ≡ ok none) × (rest ≡ ok snapshot))
  found_or_again-cases (err code) rest e = absurd cc
  found_or_again-cases (ok none) rest e = inr (refl, e)
  found_or_again-cases (ok (some other)) rest e = inl (ap (λ s. ok (some s)) (ok_injective e))

  -- An attempt, among so many, whose snapshot is returned; in those before it the inode had changed.
  pub record IsFound (rounds : ℕ → Answers) (first last : ℕ) (snapshot : FileChunkSnapshot)
      : Type 0 where
    pub attempt : ℕ
    pub from_first : first ≤ attempt
    pub before_last : attempt < last
    pub changed_before : (j : ℕ) → first ≤ j → j < attempt → IsChanged (rounds j)
    pub coherent : IsCoherent (rounds attempt) snapshot

  read_snapshot-IsFound :
      (rounds : ℕ → Answers) (attempt left : ℕ) {snapshot : FileChunkSnapshot}
      → read_file_chunk_snapshot words chunk_size ino index rounds attempt left ≡ ok snapshot
      → IsFound rounds attempt (attempt + left) snapshot
  unfolding read_file_chunk_snapshot
  read_snapshot-IsFound rounds attempt zero e = absurd cc
  read_snapshot-IsFound rounds attempt (suc left) e =
      elim (found_or_again-cases (snapshot_attempt words chunk_size ino index (rounds attempt)) _
        e) [
          | inl here ↦ record {
            attempt = attempt;
            from_first = omega arith;
            before_last = omega arith;
            changed_before = λ j first below. absurd (omega (arith, first, below));
            coherent = snapshot_attempt-IsCoherent (rounds attempt) here;
          }
          | inr (changed, behind) ↦
              let later = read_snapshot-IsFound rounds (attempt + 1) left behind in
              record {
                attempt = later.attempt;
                from_first = omega (arith, later.from_first);
                before_last = omega (arith, later.before_last);
                changed_before = λ j first below. elim (here_or_later attempt j first) [
                  | inl same ↦ snapshot_attempt-IsChanged (rounds j) (
                      subst
                        (λ (n : ℕ).
                          snapshot_attempt words chunk_size ino index (rounds n) ≡ ok none)
                        same changed)
                  | inr beyond ↦ later.changed_before j beyond below
                ];
                coherent = later.coherent;
              }
        ]

  -- A snapshot that is returned is coherent: its inode is the one asked for, a regular file, and there
  -- is a state of the server in which the inode has exactly the image that was read, and from which
  -- the chunk's id is read, and the id of the chunk in which the file ends, where it ends within one. The
  -- attempts before it had found the inode changed.
  pub read_file_chunk_snapshot-IsFound :
      (rounds : ℕ → Answers) (attempts : ℕ) {snapshot : FileChunkSnapshot}
      → read_file_chunk_snapshot words chunk_size ino index rounds 0 attempts ≡ ok snapshot
      → IsFound rounds 0 attempts snapshot
  read_file_chunk_snapshot-IsFound rounds attempts {snapshot} e =
      subst (λ (n : ℕ). IsFound rounds 0 n snapshot) {x = 0 + attempts} (omega arith)
        (read_snapshot-IsFound rounds 0 attempts e)
