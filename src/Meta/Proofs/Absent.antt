-- ===== src/Meta/Proofs/Absent.antt =====
-- When a name is found to be free.
use sword_fs.Prelude.{
  Bool, true, false, not, ◌&&◌, [], ◌∷◌, Option, none, some, ◌≡◌, ◌≢◌, refl, ◌⊎◌, inl, inr,
  Bool-cases,
}
use sword_fs.Prelude.Text.{Text, is_empty}
use sword_fs.Status.{Result, ok, err, Code, Result-cases}
use sword_fs.Inode.{InodeId, Inode, is_dir}
use sword_fs.Record.{Words, parse_entry, finish}
use sword_fs.Meta.{
  Host, Queue, Action, Answer, found, missing, failed, directory, read, lift, require, continue,
  attempt,
}
use sword_fs.Meta.Inodes.{
  is_not_found, malformed_if_missing, lookup_inode, lookup_referenced, lookup_entry_in,
}
use sword_fs.Meta.Entries.{absent_or, existing_entry}

pub is_not_found_inv : (code : Code) → is_not_found code ≡ true → code ≡ Code.not_found
is_not_found_inv Code.not_found same = refl
is_not_found_inv _ same = cc

module _ {ℓ} {A : Type ℓ} where
  Answer-cases :
      (answer : Answer A)
      → ((value : A) × (answer ≡ found value)) ⊎ ((answer ≡ missing) ⊎ (answer ≡ failed))
  Answer-cases (found value) = inl (value, refl)
  Answer-cases missing = inr (inl refl)
  Answer-cases failed = inr (inr refl)

  malformed_if_missing_lem : (r : Result A) → malformed_if_missing r ≢ err Code.not_found
  malformed_if_missing_lem (err code) = λ same. elim (Bool-cases (is_not_found code)) [
    | inl gone ↦ let given = rw gone at same in cc
    | inr there ↦
        let given = rw there at same in
        let named : code ≡ Code.not_found = cc in absurd (cc (rw named at there))
  ]
  malformed_if_missing_lem (ok value) = λ same. cc

  finish_lem : (valid : A → Bool) (r : Option (A × Text)) → finish valid r ≢ err Code.not_found
  unfolding finish
  finish_lem valid none = λ same. cc
  finish_lem valid (some (a, rest)) = λ same. elim (Bool-cases (valid a && is_empty rest)) [
    | inl accepted ↦ let given = rw accepted at same in cc
    | inr refused ↦ let given = rw refused at same in cc
  ]

  pub attempt-eq-ok :
      (act : Action A) (queue : Queue) {result : Result A} {after : Queue}
      → attempt act queue ≡ ok (result, after)
      → result ≡ err Code.not_found
      → (act queue ≡ err Code.not_found) × (after ≡ queue)
  unfolding attempt
  attempt-eq-ok act queue ended absent = elim (Result-cases (act queue)) [
    | inl (done, e) ↦ let given = rw (attempt, e) at ended in absurd cc
    | inr (code, e) ↦ let given = rw (attempt, e) at ended in (cc, cc)
  ]

pub absent_or-eq-ok : (r : Result Inode) → absent_or r ≡ ok tt → r ≡ err Code.not_found
absent_or-eq-ok (ok node) passed = cc
absent_or-eq-ok (err code) passed = elim (Bool-cases (is_not_found code)) [
  | inl gone ↦ rw (is_not_found_inv code gone)
  | inr there ↦ let given = rw there at passed in cc
]

parse_entry_lem : (words : Words) (bytes : Text) → parse_entry words bytes ≢ err Code.not_found
unfolding parse_entry
parse_entry_lem words bytes = finish_lem _ _

module _ (host : Host) where
  lookup_step_lem :
      (value : Text) (queue : Queue)
      → continue
          (lift (parse_entry host.words value) queue)
          (λ entry. lookup_referenced host entry.ino)
        ≢ err Code.not_found
  unfolding continue lift
  lookup_step_lem value queue = λ same. elim (Result-cases (parse_entry host.words value)) [
    | inl (entry, e) ↦
        malformed_if_missing_lem (lookup_inode host entry.ino queue) (rw (lift, e) at same)
    | inr (code, e) ↦ parse_entry_lem host.words value (let given = rw (lift, e) at same in cc)
  ]

  -- A lookup that ends with `NotFound` has asked for a name that is not there, before any write.
  pub existing_entry-missing :
      (parent_ino : InodeId) (name : Text) (queue : Queue)
      → existing_entry host parent_ino name queue ≡ err Code.not_found
      → (queue ≡ []) × (host.hget_answer (directory parent_ino) name ≡ missing)
  unfolding existing_entry read continue lift
  existing_entry-missing parent_ino name [] ended =
      elim (Answer-cases (host.hget_answer (directory parent_ino) name)) [
        | inl (value, e) ↦ absurd (lookup_step_lem value [] (rw (read, e) at ended))
        | inr (inl absent) ↦ (refl, absent)
        | inr (inr broken) ↦ let given = rw broken at ended in absurd cc
      ]
  existing_entry-missing parent_ino name (command ∷ queue) ended = absurd cc

  pub lookup_entry_in-missing :
      (parent : Inode) (name : Text) (queue : Queue)
      → not (is_dir parent) ≡ false
      → lookup_entry_in host parent name queue ≡ err Code.not_found
      → (queue ≡ []) × (host.hget_answer (directory parent.ino) name ≡ missing)
  unfolding lookup_entry_in existing_entry require continue
  lookup_entry_in-missing parent name queue is_directory ended =
      existing_entry-missing parent.ino name queue (rw (require, is_directory) at ended)
