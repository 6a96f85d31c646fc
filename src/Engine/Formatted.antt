-- ===== src/Engine/Formatted.antt =====
-- `RedisMetaOps::FormatVolume` and `LoadVolume` together.
use sword_fs.Prelude.{true, some, [], ◌∷◌, ◌++◌, ◌≡◌, refl, inl, inr, Bool-cases, ap, ◌∙◌}
use sword_fs.Prelude.Text.{Text, same_text_refl}
use sword_fs.Status.{Result, ok, err, Code}
use sword_fs.Record.Volumes.{Volume, is_volume, serialize_volume}
use sword_fs.Record.VolumeTrip.{IsShortVolume, parse_volume-serialize_volume}
use sword_fs.Meta.{
  Host, Queue, Answer, found, missing, failed, inode, format, next_ino, inode_count,
  owner_generation, next_chunk_id, next_slice_id, set, lift, read, get,
}
use sword_fs.Meta.Acts.{continue-eq-ok, lift-continue, write-eq-ok, grow}
use sword_fs.Meta.Decimal.{to_string}
use sword_fs.Meta.Inodes.{is_not_found}
use sword_fs.Meta.Proofs.Absent.{attempt-eq-ok, is_not_found_inv}
use sword_fs.Engine.Client.{Reply, replied, read_only}
use sword_fs.Engine.Client
use sword_fs.Engine.Volumes.{root_inode_id, unformatted, format_volume, load_volume}

unformatted_inv : (r : Result Text) → unformatted r ≡ ok tt → r ≡ err Code.not_found
unformatted_inv (ok existing) e = absurd cc
unformatted_inv (err code) e = elim (Bool-cases (is_not_found code)) [
  | inl gone ↦ ap err (is_not_found_inv code gone)
  | inr there ↦ let given = rw there at e in absurd cc
]

read-missing :
    {A : Type 0} (answer : Answer A) (queue : Queue)
    → read answer queue ≡ err Code.not_found
    → answer ≡ missing
unfolding read lift
read-missing (found value) [] e = absurd cc
read-missing missing [] e = refl
read-missing failed [] e = absurd cc
read-missing answer (command ∷ queue) e = absurd cc

module _ (host : Host) (volume : Volume) (root_value : Text) where
  pub record IsFormatted (after : Queue) : Type 0 where
    pub was_missing : host.get_answer format ≡ missing
    pub queued :
        after
        ≡ set format (serialize_volume host.words volume)
          ∷ set (inode root_inode_id) root_value
          ∷ set next_ino (to_string root_inode_id)
          ∷ set inode_count (49 ∷ [])
          ∷ set owner_generation (48 ∷ [])
          ∷ set next_chunk_id (48 ∷ [])
          ∷ set next_slice_id (48 ∷ [])
          ∷ []
    pub loads :
        load_volume host.words volume.name (replied (some (serialize_volume host.words volume)))
        ≡ ok volume

  load-format :
      IsShortVolume volume
      → is_volume volume ≡ true
      → load_volume host.words volume.name (replied (some (serialize_volume host.words volume)))
        ≡ ok volume
  unfolding load_volume Client.get read_only
  load-format widths valid =
      rw (parse_volume-serialize_volume host.words volume widths valid, same_text_refl volume.name)
        refl

  -- A volume is formatted only where there was none, by one transaction that writes its record, the
  -- root and all the counters; and from that record it is loaded again. The volume is valid and its
  -- fields have their widths.
  pub format_volume-IsFormatted :
      {value : Unit {0}} {after : Queue}
      → IsShortVolume volume
      → is_volume volume ≡ true
      → format_volume host volume root_value [] ≡ ok (value, after)
      → IsFormatted after
  unfolding format_volume
  format_volume-IsFormatted {value} {after} widths valid e =
      let (existing, q0, attempted, e0) = continue-eq-ok _ _ e in
      let (_, absent, e1) = lift-continue _ _ q0 e0 in
      let (asked, kept) =
        attempt-eq-ok (get host format) [] attempted (unformatted_inv existing absent) in
      let (_, q1, w1, e2) = continue-eq-ok _ _ e1 in
      let (_, q2, w2, e3) = continue-eq-ok _ _ e2 in
      let (_, q3, w3, e4) = continue-eq-ok _ _ e3 in
      let (_, q4, w4, e5) = continue-eq-ok _ _ e4 in
      let (_, q5, w5, e6) = continue-eq-ok _ _ e5 in
      let (_, q6, w6, e7) = continue-eq-ok _ _ e6 in
      record {
        was_missing = read-missing (host.get_answer format) [] asked;
        queued =
            grow [] _ _
              (write-eq-ok host _ q0 w1
                ∙ ap (λ q. q ++ set format (serialize_volume host.words volume) ∷ []) kept)
              (grow q1 _ _ (write-eq-ok host _ q1 w2) (
                grow q2 _ _ (write-eq-ok host _ q2 w3) (
                  grow q3 _ _ (write-eq-ok host _ q3 w4) (
                    grow q4 _ _ (write-eq-ok host _ q4 w5)
                      (grow q5 _ _ (write-eq-ok host _ q5 w6) (write-eq-ok host _ q6 e7))))));
        loads = load-format widths valid;
      }
