-- ===== src/Meta/Proofs/Attach.antt =====
-- `AttachPrepared` and `FinalizeAttachedWrite`.
use sword_fs.Prelude.{
  not-false, either_false, ℕ, ==_iff, true, false, Option, none, some, [], ◌∷◌, ◌++◌, ◌≡◌, refl,
  inl, inr, sym, ap, ◌∙◌, subst, Bool-cases, max,
}
use sword_fs.Prelude.Text.{Text}
use sword_fs.Status.{Result, ok, err, Code, Result-cases}
use sword_fs.Inode.{InodeId, Inode, mtime_and_ctime, is_regular, touch}
use sword_fs.Inode.Touch.{touch-size}
use sword_fs.Inode.Policy.{has_restrictive_inode_policy}
use sword_fs.Inode.PosixAcl.{is_some}
use sword_fs.Chunk.{ChunkId, ChunkIndex}
use sword_fs.Chunk.SizePlan.{
  FileSizePrecondition, ChunkBoundarySnapshot, same_id, validate_file_chunk_write,
}
use sword_fs.Meta.{
  Host, Queue, Command, Answer, found, missing, failed, hset, chunk_refs, hget, read, lift,
}
use sword_fs.Meta.Acts.{
  require_keeps, attempt-keeps, read-keeps, return-eq-ok, continue-eq-ok, lift-continue, lift-eq-ok,
  require-eq-ok, write-eq-ok, grow,
}
use sword_fs.Meta.Decimal.{to_string, parse_attached_chunk_id}
use sword_fs.Meta.Inodes.{is_not_found}
use sword_fs.Meta.Files.{
  attached_id, check_observed, lookup_attachment, end_of_write, attach_prepared,
  finalize_attached_write,
}
use sword_fs.Meta.Ancestors.{IsStored, lookup_inode-eq-ok}
use sword_fs.Meta.Proofs.Writes.{IsRecordOf, set_inode-IsRecordOf}
use sword_fs.Meta.Proofs.Absent.{is_not_found_inv, attempt-eq-ok}
use sword_fs.Meta.Proofs.Unlink.{unrestricted_content}

attached_id-none : (r : Result Text) → attached_id r ≡ ok none → r ≡ err Code.not_found
attached_id-none (err code) given = elim (Bool-cases (is_not_found code)) [
  | inl gone ↦ rw (is_not_found_inv code gone)
  | inr there ↦ let same = rw there at given in absurd cc
]
attached_id-none (ok encoded) given = elim (Result-cases (parse_attached_chunk_id encoded)) [
  | inl (chunk_id, e) ↦ let same = rw (attached_id, e) at given in absurd cc
  | inr (code, e) ↦ let same = rw (attached_id, e) at given in absurd cc
]

module _ (host : Host) where
  read-missing :
      (answer : Answer Text) (queue : Queue)
      → read answer queue ≡ err Code.not_found
      → (queue ≡ []) × (answer ≡ missing)
  unfolding read lift
  read-missing (found value) [] given = cc
  read-missing missing [] given = (refl, refl)
  read-missing failed [] given = cc
  read-missing answer (command ∷ queue) given = cc

  lookup_attachment-none :
      (ino : InodeId) (index : ChunkIndex) (queue : Queue) (current : Option ChunkId)
      {after : Queue}
      → is_some current ≡ false
      → lookup_attachment host ino index queue ≡ ok (current, after)
      → (queue ≡ [])
        × (host.hget_answer (chunk_refs ino) (to_string index) ≡ missing)
        × (after ≡ queue)
  unfolding lookup_attachment
  lookup_attachment-none ino index queue none {after} absent ended =
      let (result, middle, attempted, e) = continue-eq-ok _ _ ended in
      let (given, kept) = lift-eq-ok _ e in
      let (asked, same) =
        attempt-eq-ok (hget host (chunk_refs ino) (to_string index)) queue attempted
          (attached_id-none result given) in
      let (empty, gone) =
        read-missing (host.hget_answer (chunk_refs ino) (to_string index)) queue asked in
      (empty, gone, kept ∙ same)
  lookup_attachment-none ino index queue (some chunk_id) {after} absent ended = cc

  lookup_attachment-keeps :
      (ino : InodeId) (index : ChunkIndex) (queue : Queue) {current : Option ChunkId}
      {after : Queue}
      → lookup_attachment host ino index queue ≡ ok (current, after)
      → after ≡ queue
  unfolding lookup_attachment
  lookup_attachment-keeps ino index queue ended =
      let (result, middle, attempted, e) = continue-eq-ok _ _ ended in
      let (given, kept) = lift-eq-ok _ e in
      kept
      ∙ (attempt-keeps _ queue
          (λ _ _. read-keeps (host.hget_answer (chunk_refs ino) (to_string index)) queue)
          attempted).0

  check_observed-keeps :
      (ino : InodeId) (boundary : Option ChunkBoundarySnapshot) (queue : Queue) {value : Unit {0}}
      {after : Queue}
      → check_observed host ino boundary queue ≡ ok (value, after)
      → after ≡ queue
  unfolding check_observed
  check_observed-keeps ino none queue ended = (return-eq-ok tt queue ended).1
  check_observed-keeps ino (some boundary) queue ended =
      let (observed, middle, looked_up, e) = continue-eq-ok _ _ ended in
      let (_, kept) = require_keeps _ _ middle e in
      kept ∙ lookup_attachment-keeps ino boundary.index queue looked_up

  pub record IsAttached (ino : InodeId) (index : ChunkIndex) (chunk_id : ChunkId) (end : ℕ)
      (expected : FileSizePrecondition) (queue after : Queue) : Type 0 where
    pub node : Inode
    pub stored : IsStored host ino node
    pub regular : is_regular node ≡ true
    pub free : has_restrictive_inode_policy node.attr ≡ false
    pub old_end : (node.attr).size ≡ expected.eof
    pub unmapped : host.hget_answer (chunk_refs ino) (to_string index) ≡ missing
    pub in_chunk : validate_file_chunk_write index chunk_id end host.chunk_size ≡ ok tt
    pub updated : Inode
    pub new_end : (updated.attr).size ≡ max ((node.attr).size) end
    pub inode_record : Command
    pub holds : IsRecordOf host updated inode_record
    pub queued :
        after
        ≡ queue ++ inode_record ∷ hset (chunk_refs ino) (to_string index) (to_string chunk_id) ∷ []

  -- Where `AttachPrepared` succeeds, the stored file is regular, may be written, ends where the
  -- caller expects and has nothing mapped at the index, and the write is one into the chunk. The
  -- queue has got the inode with its new end first, which is the larger of the two, and then the
  -- mapping: no prefix of it maps a chunk behind the end that it stores.
  pub attach_prepared-IsAttached :
      (ino : InodeId) (index : ChunkIndex) (chunk_id : ChunkId) (end : ℕ)
      (expected : FileSizePrecondition) (queue : Queue) {value : Unit {0}} {after : Queue}
      → attach_prepared host ino index chunk_id end expected queue ≡ ok (value, after)
      → IsAttached ino index chunk_id end expected queue after
  unfolding attach_prepared
  attach_prepared-IsAttached ino index chunk_id end expected queue {value} {after} ended =
      let (_, valid, e1) = lift-continue _ _ queue ended in
      let (_, _, e2) = lift-continue _ _ queue e1 in
      let (node, q1, looked_up, e3) = continue-eq-ok _ _ e2 in
      let (regular, e4) = require-eq-ok _ _ _ q1 e3 in
      let (current, q2, attachment, e5) = continue-eq-ok _ _ e4 in
      let (_, policy, e6) = lift-continue _ _ q2 e5 in
      let (fits, e7) = require-eq-ok _ _ _ q2 e6 in
      let (_, q3, observed, e8) = continue-eq-ok _ _ e7 in
      let (_, q4, put, wrote) = continue-eq-ok _ _ e8 in
      let (empty, stored, _, kept) = lookup_inode-eq-ok host ino queue looked_up in
      let (same_end, absent) = either_false _ _ fits in
      let (_, unmapped, unchanged) =
        lookup_attachment-none ino index q1 current absent attachment in
      let (inode_record, holds, put_record) = set_inode-IsRecordOf host _ q3 put in
      record {
        node = node;
        stored = stored;
        regular = not-false (is_regular node) regular;
        free = unrestricted_content node.attr policy;
        old_end = (==_iff ((node.attr).size) expected.eof).0 (not-false _ same_end);
        unmapped = unmapped;
        in_chunk = valid;
        updated = touch host.now mtime_and_ctime (end_of_write end node);
        new_end = touch-size host.now mtime_and_ctime (end_of_write end node);
        inode_record = inode_record;
        holds = holds;
        queued =
            grow queue _ _
              (put_record
                ∙ ap (λ q. q ++ inode_record ∷ [])
                    (check_observed-keeps ino expected.boundary q2 observed
                      ∙ unchanged
                      ∙ kept
                      ∙ sym empty))
              (write-eq-ok host _ q4 wrote);
      }

  pub record IsFinalized (ino : InodeId) (index : ChunkIndex) (chunk_id : ChunkId) (end : ℕ)
      (expected : FileSizePrecondition) (queue after : Queue) : Type 0 where
    pub node : Inode
    pub stored : IsStored host ino node
    pub regular : is_regular node ≡ true
    pub free : has_restrictive_inode_policy node.attr ≡ false
    pub old_end : (node.attr).size ≡ expected.eof
    pub mapped : lookup_attachment host ino index [] ≡ ok (some chunk_id, [])
    pub updated : Inode
    pub new_end : (updated.attr).size ≡ max ((node.attr).size) end
    pub inode_record : Command
    pub holds : IsRecordOf host updated inode_record
    pub queued : after ≡ queue ++ inode_record ∷ []

  same_id-some : (a : Option ChunkId) (b : ChunkId) → same_id a (some b) ≡ true → a ≡ some b
  same_id-some none b given = cc
  same_id-some (some a) b given = ap some ((==_iff a b).0 given)

  -- Where `FinalizeAttachedWrite` succeeds, the stored file is regular, may be written, ends where
  -- the caller expects and has the caller's chunk mapped at the index. The queue has got the inode
  -- alone, with the larger of the two ends.
  pub finalize_attached_write-IsFinalized :
      (ino : InodeId) (index : ChunkIndex) (chunk_id : ChunkId) (end : ℕ)
      (expected : FileSizePrecondition) (queue : Queue) {value : Unit {0}} {after : Queue}
      → finalize_attached_write host ino index chunk_id end expected queue ≡ ok (value, after)
      → IsFinalized ino index chunk_id end expected queue after
  unfolding finalize_attached_write
  finalize_attached_write-IsFinalized ino index chunk_id end expected queue {value} {after} ended =
      let (_, valid, e1) = lift-continue _ _ queue ended in
      let (_, _, e2) = lift-continue _ _ queue e1 in
      let (node, q1, looked_up, e3) = continue-eq-ok _ _ e2 in
      let (regular, e4) = require-eq-ok _ _ _ q1 e3 in
      let (current, q2, attachment, e5) = continue-eq-ok _ _ e4 in
      let (there, e6) = require-eq-ok _ _ _ q2 e5 in
      let (_, q3, observed, e7) = continue-eq-ok _ _ e6 in
      let (same_end, e8) = require-eq-ok _ _ _ q3 e7 in
      let (_, policy, put) = lift-continue _ _ q3 e8 in
      let (empty, stored, _, kept) = lookup_inode-eq-ok host ino queue looked_up in
      let unchanged = lookup_attachment-keeps ino index q1 attachment in
      let (inode_record, holds, put_record) = set_inode-IsRecordOf host _ q3 put in
      let same : current ≡ some chunk_id = same_id-some current chunk_id (not-false _ there) in
      record {
        node = node;
        stored = stored;
        regular = not-false (is_regular node) regular;
        free = unrestricted_content node.attr policy;
        old_end = (==_iff ((node.attr).size) expected.eof).0 (not-false _ same_end);
        mapped =
            subst (λ q. lookup_attachment host ino index q ≡ ok (some chunk_id, [])) kept
              (attachment
                ∙ ap (λ q. ok (current, q)) (unchanged ∙ kept)
                ∙ ap (λ c. ok (c, [])) same);
        updated = touch host.now mtime_and_ctime (end_of_write end node);
        new_end = touch-size host.now mtime_and_ctime (end_of_write end node);
        inode_record = inode_record;
        holds = holds;
        queued =
            put_record
            ∙ ap (λ q. q ++ inode_record ∷ [])
                (check_observed-keeps ino expected.boundary q2 observed
                  ∙ unchanged
                  ∙ kept
                  ∙ sym empty);
      }
