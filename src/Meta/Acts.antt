-- ===== src/Meta/Acts.antt =====
-- How a step of a transaction that succeeds has gone.
use sword_fs.Prelude.{
  Bool, true, false, [], ◌∷◌, ◌++◌, ◌≡◌, refl, sym, ap, ◌∙◌, inl, inr, Bool-cases, append_assoc,
}
use sword_fs.Status.{Result, ok, err, Code, Result-cases}
use sword_fs.Meta.{
  Host, Command, Queue, Action, Answer, found, missing, failed, lift, require, return, continue,
  attempt, read, write, answer_result,
}

module _ {ℓ κ} {A : Type ℓ} {B : Type κ} where
  pub continue-eq-ok :
      (first : Result (A × Queue)) (next : A → Action B) {out : B × Queue}
      → continue first next ≡ ok out
      → (value : A) × (queue : Queue) × (first ≡ ok (value, queue)) × (next value queue ≡ ok out)
  unfolding continue
  continue-eq-ok (err code) next ended = cc
  continue-eq-ok (ok (value, queue)) next ended = (value, queue, refl, ended)

module _ {ℓ} {A : Type ℓ} where
  pub lift-eq-ok :
      (result : Result A) {queue : Queue} {value : A} {after : Queue}
      → lift result queue ≡ ok (value, after)
      → (result ≡ ok value) × (after ≡ queue)
  unfolding lift
  lift-eq-ok (err code) ended = cc
  lift-eq-ok (ok given) ended = (cc, cc)

  -- A chain that starts with a check has passed it, with the queue as it was.
  pub lift-continue {κ} :
      {B : Type κ} (result : Result A) (next : A → Action B) (queue : Queue) {out : B × Queue}
      → continue (lift result queue) next ≡ ok out
      → (value : A) × (result ≡ ok value) × (next value queue ≡ ok out)
  unfolding lift continue
  lift-continue (err code) next queue ended = cc
  lift-continue (ok value) next queue ended = (value, refl, ended)

  pub return-eq-ok :
      (given : A) (queue : Queue) {value : A} {after : Queue}
      → return given queue ≡ ok (value, after)
      → (value ≡ given) × (after ≡ queue)
  unfolding return
  return-eq-ok given queue ended = (cc, cc)

  pub answer_result-eq-ok :
      (answer : Answer A) {value : A} → answer_result answer ≡ ok value → answer ≡ found value
  answer_result-eq-ok (found given) same = cc
  answer_result-eq-ok missing same = cc
  answer_result-eq-ok failed same = cc

  pub read-eq-ok :
      (answer : Answer A) (queue : Queue) {value : A} {after : Queue}
      → read answer queue ≡ ok (value, after)
      → (queue ≡ []) × (answer_result answer ≡ ok value) × (after ≡ [])
  unfolding read
  read-eq-ok answer [] ended =
      let (given, same) = lift-eq-ok (answer_result answer) ended in (refl, given, same)
  read-eq-ok answer (command ∷ queue) ended = cc

  pub read-keeps :
      (answer : Answer A) (queue : Queue) {value : A} {after : Queue}
      → read answer queue ≡ ok (value, after)
      → after ≡ queue
  read-keeps answer queue ended =
      let (empty, _, same) = read-eq-ok answer queue ended in same ∙ sym empty

  -- A call that reads only leaves the queue also where its failure is looked at, and gives what it
  -- would give alone.
  pub attempt-keeps :
      (act : Action A) (queue : Queue)
      (keeps : (value : A) (after : Queue) → act queue ≡ ok (value, after) → after ≡ queue)
      {result : Result A} {after : Queue}
      → attempt act queue ≡ ok (result, after)
      → (after ≡ queue) × ((value : A) → result ≡ ok value → act queue ≡ ok (value, queue))
  unfolding attempt
  attempt-keeps act queue keeps ended = elim (Result-cases (act queue)) [
    | inl ((value, middle), e) ↦
        let same = keeps value middle e in
        let given = rw (attempt, e) at ended in (cc, λ other alike. cc)
    | inr (code, e) ↦ let given = rw (attempt, e) at ended in (cc, λ other alike. absurd cc)
  ]

-- A chain that starts with a test has passed it.
pub require-eq-ok {κ} :
    {B : Type κ} (test : Bool) (code : Code) (next : Unit {0} → Action B) (queue : Queue)
    {out : B × Queue}
    → continue (require test code queue) next ≡ ok out
    → (test ≡ false) × (next tt queue ≡ ok out)
unfolding require continue
require-eq-ok false code next queue ended = (refl, ended)
require-eq-ok true code next queue ended = cc

module _ (host : Host) where
  pub write-eq-ok :
      (command : Command) (queue : Queue) {value : Unit {0}} {after : Queue}
      → write host command queue ≡ ok (value, after)
      → after ≡ queue ++ command ∷ []
  unfolding write
  write-eq-ok command queue ended = elim (Bool-cases (host.accepts command)) [
    | inl taken ↦ let given = rw taken at ended in cc
    | inr refused ↦ let given = rw refused at ended in cc
  ]

pub require_inv :
    (test : Bool) (code : Code) (queue : Queue) {value : Unit {0}} {after : Queue}
    → require test code queue ≡ ok (value, after)
    → test ≡ false
unfolding require
require_inv false code queue passed = refl
require_inv true code queue passed = cc

pub require_keeps :
    (test : Bool) (code : Code) (queue : Queue) {value : Unit {0}} {after : Queue}
    → require test code queue ≡ ok (value, after)
    → (test ≡ false) × (after ≡ queue)
unfolding require
require_keeps false code queue passed = (refl, cc)
require_keeps true code queue passed = cc

-- What is queued behind one command.
pub grow :
    (queue : Queue) (command : Command) (rest : Queue) {middle after : Queue}
    → middle ≡ queue ++ command ∷ []
    → after ≡ middle ++ rest
    → after ≡ queue ++ command ∷ rest
grow queue command rest first later =
    later ∙ ap (λ q. q ++ rest) first ∙ append_assoc queue (command ∷ []) rest

pub grow_by :
    (queue front rest : Queue) {middle after : Queue}
    → middle ≡ queue ++ front
    → after ≡ middle ++ rest
    → after ≡ queue ++ (front ++ rest)
grow_by queue front rest first later =
    later ∙ ap (λ q. q ++ rest) first ∙ append_assoc queue front rest
