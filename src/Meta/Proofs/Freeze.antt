-- ===== src/Meta/Proofs/Freeze.antt =====
-- `PrepareReclaim`.
use sword_fs.Prelude.{
  not-false, either_false, ◌==◌, ==_iff, true, false, not, ◌||◌, Option, none, some, List, [], ◌∷◌,
  ◌++◌, ◌≡◌, refl, inl, inr, sym, ap, ◌∙◌, subst, Bool-cases,
}
use sword_fs.Prelude.Text.{Text, Dict}
use sword_fs.Status.{Result, ok, err, Code}
use sword_fs.Inode.{InodeId, Inode, is_dir, is_regular}
use sword_fs.Record.{ReclaimWork, serialize_reclaim}
use sword_fs.Chunk.SizePlan.{ChunkMapping}
use sword_fs.Meta.{Host, Queue, Answer, del, hdel, hset, inode, chunk_refs, orphans, reclaims}
use sword_fs.Meta.Acts.{
  continue-eq-ok, lift-continue, require-eq-ok, return-eq-ok, write-eq-ok, grow, attempt-keeps,
  read-keeps,
}
use sword_fs.Meta.Decimal.{to_string}
use sword_fs.Meta.Inodes.{is_not_found, lookup_inode}
use sword_fs.Meta.Entries.{clear_orphan_marker}
use sword_fs.Meta.Files.{FileMappingSnapshot, read_pages, read_file_mapping_snapshot}
use sword_fs.Meta.Reclaim.{
  inode_if_found, mappings_of, freeze, complete_reclaim, reclaim_found, prepare_reclaim,
}
use sword_fs.Meta.Proofs.Absent.{is_not_found_inv, attempt-eq-ok}
use sword_fs.Meta.Ancestors.{IsStored, lookup_inode-eq-ok, lookup_inode-keeps}

inode_if_found-some :
    (r : Result Inode) (node : Inode) → inode_if_found r ≡ ok (some node) → r ≡ ok node
inode_if_found-some (ok other) node given = cc
inode_if_found-some (err code) node given = elim (Bool-cases (is_not_found code)) [
  | inl gone ↦ let same = rw gone at given in absurd cc
  | inr there ↦ let same = rw there at given in absurd cc
]

inode_if_found-none : (r : Result Inode) → inode_if_found r ≡ ok none → r ≡ err Code.not_found
inode_if_found-none (ok other) given = cc
inode_if_found-none (err code) given = elim (Bool-cases (is_not_found code)) [
  | inl lost ↦ rw (is_not_found_inv code lost)
  | inr there ↦ let same = rw there at given in absurd cc
]

module _ (host : Host) where
  read_pages-keeps :
      (answers : List (Answer Dict)) (queue : Queue) {mappings : List ChunkMapping} {after : Queue}
      → read_pages host answers queue ≡ ok (mappings, after)
      → after ≡ queue
  unfolding read_pages
  read_pages-keeps [] queue ended = (return-eq-ok _ queue ended).1
  read_pages-keeps (answer ∷ rest) queue ended =
      let (page, q1, given, e1) = continue-eq-ok _ _ ended in
      let (mappings, _, e2) = lift-continue _ _ q1 e1 in
      let (later, q2, walked, e3) = continue-eq-ok _ _ e2 in
      (return-eq-ok _ q2 e3).1 ∙ read_pages-keeps rest q1 walked ∙ read-keeps answer queue given

  -- The snapshot of a file is read before anything is written.
  pub read_file_mapping_snapshot-keeps :
      (ino : InodeId) (queue : Queue) {snapshot : FileMappingSnapshot} {after : Queue}
      → read_file_mapping_snapshot host ino queue ≡ ok (snapshot, after)
      → (after ≡ queue) × IsStored host ino snapshot.inode
  unfolding read_file_mapping_snapshot
  read_file_mapping_snapshot-keeps ino queue ended =
      let (node, q1, looked_up, e1) = continue-eq-ok _ _ ended in
      let (_, e2) = require-eq-ok _ _ _ q1 e1 in
      let (mappings, q2, pages, e3) = continue-eq-ok _ _ e2 in
      let (_, _, e4) = lift-continue _ _ q2 e3 in
      let (same, kept) = return-eq-ok _ q2 e4 in
      let (_, stored, _, _) = lookup_inode-eq-ok host ino queue looked_up in
      (
        kept ∙ read_pages-keeps _ q1 pages ∙ lookup_inode-keeps host ino queue looked_up,
        subst (λ s. IsStored host ino s.inode) (sym same) stored,
      )

  mappings_of-keeps :
      (ino : InodeId) (node : Inode) (queue : Queue) {mappings : List ChunkMapping} {after : Queue}
      → mappings_of host ino node queue ≡ ok (mappings, after)
      → after ≡ queue
  unfolding mappings_of
  mappings_of-keeps ino node queue ended = elim (Bool-cases (is_regular node)) [
    | inl regular ↦
        let (snapshot, q1, taken, e) = continue-eq-ok _ _ (rw (mappings_of, regular) at ended) in
        (return-eq-ok _ q1 e).1 ∙ (read_file_mapping_snapshot-keeps ino queue taken).0
    | inr special ↦ (return-eq-ok _ queue (rw (mappings_of, special) at ended)).1
  ]

  -- What a reclaim that goes on has queued, and what one that does not.
  pub data IsPrepared (ino : InodeId) (queue after : Queue) : Option ReclaimWork → Type 0 where
    frozen :
        (node : Inode) (work : ReclaimWork) (bytes : Text)
        → IsStored host ino node
        → is_dir node ≡ false
        → (node.attr).nlink ≡ 0
        → serialize_reclaim host.words work ≡ ok bytes
        → after
          ≡ queue
            ++ del (inode ino)
              ∷ del (chunk_refs ino)
              ∷ hdel orphans (to_string ino)
              ∷ hset reclaims (to_string ino) bytes
              ∷ []
        → IsPrepared ino queue after (some work)
    gone :
        lookup_inode host ino queue ≡ err Code.not_found
        → after ≡ queue ++ hdel orphans (to_string ino) ∷ []
        → IsPrepared ino queue after none
    alive :
        (node : Inode)
        → IsStored host ino node
        → (is_dir node || not ((node.attr).nlink == 0)) ≡ true
        → after ≡ queue ++ hdel orphans (to_string ino) ∷ hdel reclaims (to_string ino) ∷ []
        → IsPrepared ino queue after none

  freeze-IsPrepared :
      (ino : InodeId) (node : Inode) (queue : Queue) {result : Option ReclaimWork} {after : Queue}
      → IsStored host ino node
      → (is_dir node || not ((node.attr).nlink == 0)) ≡ false
      → freeze host ino node queue ≡ ok (result, after)
      → IsPrepared ino queue after result
  unfolding freeze clear_orphan_marker
  freeze-IsPrepared ino node queue {result} {after} stored idle ended =
      let (mappings, q1, taken, e1) = continue-eq-ok _ _ ended in
      let (encoder, _, e2) = lift-continue _ _ q1 e1 in
      let (work, _, e3) = lift-continue _ _ q1 e2 in
      let (bytes, serialized, e4) = lift-continue _ _ q1 e3 in
      let (_, q2, no_inode, e5) = continue-eq-ok _ _ e4 in
      let (_, q3, no_refs, e6) = continue-eq-ok _ _ e5 in
      let (_, q4, no_marker, e7) = continue-eq-ok _ _ e6 in
      let (_, q5, recorded, e8) = continue-eq-ok _ _ e7 in
      let (same, unchanged) = return-eq-ok _ q5 e8 in
      let (file, nameless) = either_false _ _ idle in
      subst (IsPrepared ino queue after) (sym same) (
        frozen node work bytes stored file ((==_iff ((node.attr).nlink) 0).0 (not-false _ nameless))
          serialized
          (grow queue _ _
            (write-eq-ok host _ q1 no_inode
              ∙ ap (λ q. q ++ del (inode ino) ∷ []) (mappings_of-keeps ino node queue taken))
            (grow q2 _ _ (write-eq-ok host _ q2 no_refs) (
              grow q3 _ _ (write-eq-ok host _ q3 no_marker)
                (unchanged ∙ write-eq-ok host _ q4 recorded)))))

  reclaim_found-IsPrepared :
      (ino : InodeId) (held : Option Inode) (queue : Queue) {result : Option ReclaimWork}
      {after : Queue}
      → ((node : Inode) → held ≡ some node → IsStored host ino node)
      → (held ≡ none → lookup_inode host ino queue ≡ err Code.not_found)
      → reclaim_found host ino held queue ≡ ok (result, after)
      → IsPrepared ino queue after result
  unfolding reclaim_found clear_orphan_marker complete_reclaim
  reclaim_found-IsPrepared ino none queue {result} {after} stored missed ended =
      let (_, q1, no_marker, e1) = continue-eq-ok _ _ ended in
      let (same, unchanged) = return-eq-ok _ q1 e1 in
      subst (IsPrepared ino queue after) (sym same)
        (gone (missed refl) (unchanged ∙ write-eq-ok host _ queue no_marker))
  reclaim_found-IsPrepared ino (some node) queue {result} {after} stored missed ended =
      elim (Bool-cases (is_dir node || not ((node.attr).nlink == 0))) [
        | inl busy ↦
            let (_, q1, no_marker, e1) = continue-eq-ok _ _ (rw busy at ended) in
            let (_, q2, no_work, e2) = continue-eq-ok _ _ e1 in
            let (same, unchanged) = return-eq-ok _ q2 e2 in
            subst (IsPrepared ino queue after) (sym same) (
              alive node (stored node refl) busy (
                grow queue _ _ (write-eq-ok host _ queue no_marker)
                  (unchanged ∙ write-eq-ok host _ q1 no_work)))
        | inr idle ↦ freeze-IsPrepared ino node queue (stored node refl) idle (rw idle at ended)
      ]

  -- Where `PrepareReclaim` succeeds with work, the stored inode is no directory and has no link, and
  -- the queue has got its removal before that of its mappings, then the removal of the orphan's
  -- marker and the work. Without work the inode is missing, a directory or linked, and the queue has
  -- got removals of markers only.
  pub prepare_reclaim-IsPrepared :
      (ino : InodeId) (queue : Queue) {result : Option ReclaimWork} {after : Queue}
      → prepare_reclaim host ino queue ≡ ok (result, after)
      → IsPrepared ino queue after result
  unfolding prepare_reclaim
  prepare_reclaim-IsPrepared ino queue {result} {after} ended =
      let (looked_up, q1, attempted, e1) = continue-eq-ok _ _ ended in
      let (held, given, e2) = lift-continue _ _ q1 e1 in
      let (kept, alone) =
        attempt-keeps (lookup_inode host ino) queue (λ _ _. lookup_inode-keeps host ino queue)
          attempted in
      reclaim_found-IsPrepared ino held queue
        (λ node same.
          (lookup_inode-eq-ok host ino queue
            (alone node (inode_if_found-some looked_up node (given ∙ ap ok same)))).1)
        (λ same.
          (attempt-eq-ok (lookup_inode host ino) queue attempted
            (inode_if_found-none looked_up (given ∙ ap ok same))).0)
        (subst (λ q. reclaim_found host ino held q ≡ ok (result, after)) kept e2)
