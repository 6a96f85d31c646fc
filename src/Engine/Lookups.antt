-- ===== src/Engine/Lookups.antt =====
-- What the lookups in front of an operation give.
use sword_fs.Prelude.{
  Bool, true, false, ◌&&◌, ◌==◌, ==_iff, Option, none, some, ◌≡◌, ◌≢◌, refl, ◌∙◌, ap, inl, inr,
  Bool-cases, subst,
}
use sword_fs.Prelude.Text.{Text, is_empty}
use sword_fs.Status.{Result, ok, err, ok_injective}
use sword_fs.Inode.{InodeId, Inode}
use sword_fs.Record.{Words, finish}
use sword_fs.Record.Inodes.{parse_inode, is_inode}
use sword_fs.Meta.{Host, Queue, Action, continue, inode, directory}
use sword_fs.Meta.Acts.{continue-eq-ok, lift-eq-ok, read-keeps, require_keeps}
use sword_fs.Meta.Inodes.{lookup_inode, lookup_entry_in, malformed_if_missing, is_not_found}

first_of : (a b : Bool) → a && b ≡ true → a ≡ true
first_of true b e = refl
first_of false b e = cc

finish-eq-ok :
    {A : Type 0} (valid : A → Bool) (r : Option (A × Text)) {a : A}
    → finish valid r ≡ ok a
    → valid a ≡ true
unfolding finish
finish-eq-ok valid none e = absurd cc
finish-eq-ok valid (some (found, rest)) {a} e = elim (Bool-cases (valid found && is_empty rest)) [
  | inl passed ↦
      let same : ok found ≡ ok a = rw passed at e in
      subst (λ x. valid x ≡ true) (ok_injective same)
        (first_of (valid found) (is_empty rest) passed)
  | inr refused ↦ let given = rw refused at e in absurd cc
]

malformed_if_missing-eq-ok :
    {A : Type 0} (r : Result A) {a : A} → malformed_if_missing r ≡ ok a → r ≡ ok a
malformed_if_missing-eq-ok (ok value) e = e
malformed_if_missing-eq-ok (err code) e = elim (Bool-cases (is_not_found code)) [
  | inl gone ↦ let given = rw gone at e in absurd cc
  | inr there ↦ let given = rw there at e in absurd cc
]

pub parse_inode_named :
    (words : Words) (bytes : Text) {node : Inode} → parse_inode words bytes ≡ ok node → node.ino ≢ 0
unfolding parse_inode
parse_inode_named words bytes {node} e = λ zero_ino.
    let valid = finish-eq-ok (is_inode words) _ e in
    let tested : (node.ino == 0) ≡ true = (==_iff node.ino 0).1 zero_ino in
    let given = rw tested at valid in cc

-- A chain that starts with a read finds the queue as it was.
pub read_first :
    {A B : Type 0} (act : Action A) (next : A → Action B) (queue : Queue) {out : B × Queue}
    → ((value : A) (after : Queue) → act queue ≡ ok (value, after) → after ≡ queue)
    → continue (act queue) next ≡ ok out
    → (value : A) × (act queue ≡ ok (value, queue)) × (next value queue ≡ ok out)
read_first act next queue {out} keeps e =
    let (value, after, first, behind) = continue-eq-ok (act queue) next e in
    let same = keeps value after first in
    (value, first ∙ ap (λ q. ok (value, q)) same, subst (λ q. next value q ≡ ok out) same behind)

module _ (host : Host) where
  -- An inode that is found has a number, and nothing has been queued.
  pub lookup_inode-named :
      (ino : InodeId) (queue : Queue) {node : Inode} {after : Queue}
      → lookup_inode host ino queue ≡ ok (node, after)
      → (node.ino ≢ 0) × (after ≡ queue)
  unfolding lookup_inode
  lookup_inode-named ino queue e =
      let (value, middle, gotten, parsed) = continue-eq-ok _ _ e in
      let (read_back, unchanged) = lift-eq-ok _ parsed in
      (
        parse_inode_named host.words value read_back,
        unchanged ∙ read-keeps (host.get_answer (inode ino)) queue gotten,
      )

  pub lookup_entry_in-named :
      (parent : Inode) (name : Text) (queue : Queue) {node : Inode} {after : Queue}
      → lookup_entry_in host parent name queue ≡ ok (node, after)
      → (node.ino ≢ 0) × (after ≡ queue)
  unfolding lookup_entry_in
  lookup_entry_in-named parent name queue e =
      let (_, q1, tested, e1) = continue-eq-ok _ _ e in
      let (_, kept) = require_keeps _ _ queue tested in
      let (value, q2, gotten, e2) = continue-eq-ok _ _ e1 in
      let (entry, q3, read_back, e3) = continue-eq-ok _ _ e2 in
      let (_, same) = lift-eq-ok _ read_back in
      let (named, unchanged) = lookup_inode-named entry.ino q3 (malformed_if_missing-eq-ok _ e3) in
      (
        named,
        unchanged
            ∙ same
            ∙ read-keeps (host.hget_answer (directory parent.ino) name) q1 gotten
            ∙ kept,
      )
