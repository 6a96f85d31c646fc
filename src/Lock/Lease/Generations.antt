-- ===== src/Lock/Lease/Generations.antt =====
-- The generation that a registration allocates.
use sword_fs.Prelude.{
  ℕ, ◌+◌, ◌<◌, ◌≡◌, ap, ◌∙◌, subst, inl, inr, false, not, ◌||◌, leb, Bool-cases, not-false,
  either_false, lt-or-le, le→leb, Option, none, some, [], ◌∷◌, ◌++◌,
}
use sword_fs.Prelude.Int.{pos}
use sword_fs.Prelude.Text.{Text, same_text, same_text_inv}
use sword_fs.Status.{Result, ok, err}
use sword_fs.Meta.{Host, Queue, found, owner_generation, incr_by, get}
use sword_fs.Meta.Acts.{
  continue-eq-ok, lift-continue, return-eq-ok, write-eq-ok, attempt-keeps, read-keeps, read-eq-ok,
  answer_result-eq-ok,
}
use sword_fs.Meta.Decimal.{to_string, from_chars}
use sword_fs.Meta.Inodes.{is_not_found}
use sword_fs.Lock.Lease.{int64_max, counter_text, previous_generation, allocate_generation}

counter_text-eq-ok :
    (r : Result Text) {encoded : Text} → counter_text r ≡ ok encoded → r ≡ ok encoded
counter_text-eq-ok (ok given) e = e
counter_text-eq-ok (err code) e = elim (Bool-cases (is_not_found code)) [
  | inl gone ↦ let given = rw gone at e in absurd cc
  | inr there ↦ let given = rw there at e in absurd cc
]

previous_generation-eq-ok :
    (encoded : Text) (value : Option ℕ) {previous : ℕ}
    → previous_generation encoded value ≡ ok previous
    → (encoded ≡ to_string previous) × (previous < int64_max)
previous_generation-eq-ok encoded none e = absurd cc
previous_generation-eq-ok encoded (some value) {previous} e =
    elim (Bool-cases (not (same_text encoded (to_string value)) || leb int64_max value)) [
      | inl corrupt ↦ let given = rw corrupt at e in absurd cc
      | inr sound ↦
          let given : ok value ≡ ok previous = rw sound at e in
          let same : value ≡ previous = cc in
          let (written, below) = either_false _ _ sound in
          subst (λ n. (encoded ≡ to_string n) × (n < int64_max)) same
            (same_text_inv encoded (to_string value) (not-false _ written), below_max value below)
    ]
  where
    below_max : (n : ℕ) → leb int64_max n ≡ false → n < int64_max
    below_max n h = elim (lt-or-le n int64_max) [
      | inl below ↦ below
      | inr above ↦ let past = le→leb int64_max n above in absurd cc
    ]

-- The counter has held the number before, in its decimal text, and is to be incremented.
pub record IsNext (host : Host) (generation : ℕ) (queue : Queue) : Type 0 where
  pub previous : ℕ
  pub held : host.get_answer owner_generation ≡ found (to_string previous)
  pub in_bounds : previous < int64_max
  pub next : generation ≡ previous + 1
  pub queued : queue ≡ incr_by owner_generation (pos 1) ∷ []

-- A transaction that allocates a generation has found a number below 2^63 - 1 in the counter, and
-- written as the program writes numbers; the generation is the next number, and nothing is queued but
-- the counter's increment by one.
pub allocate_generation-IsNext :
    (host : Host) (generation : ℕ) (queue : Queue)
    → allocate_generation host [] ≡ ok (generation, queue)
    → IsNext host generation queue
unfolding allocate_generation
allocate_generation-IsNext host generation queue ended =
    let (looked_up, q1, attempted, e1) = continue-eq-ok _ _ ended in
    let (encoded, text, e2) = lift-continue _ _ q1 e1 in
    let (previous, parsed, e3) = lift-continue _ _ q1 e2 in
    let (_, q2, counted, e4) = continue-eq-ok _ _ e3 in
    let (next, same) = return-eq-ok _ q2 e4 in
    let (kept, value) =
      attempt-keeps (get host owner_generation) []
        (λ v after e. read-keeps (host.get_answer owner_generation) [] e) attempted in
    let (_, answered, _) =
      read-eq-ok (host.get_answer owner_generation) []
        (value encoded (counter_text-eq-ok _ text)) in
    let (written, in_bounds) = previous_generation-eq-ok encoded (from_chars encoded) parsed in
    record {
      previous = previous;
      held = answer_result-eq-ok _ answered ∙ ap found written;
      in_bounds = in_bounds;
      next = next;
      queued =
          same
          ∙ write-eq-ok host _ q1 counted
          ∙ ap (λ q. q ++ incr_by owner_generation (pos 1) ∷ []) kept;
    }
