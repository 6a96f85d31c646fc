-- ===== src/Engine/Answered.antt =====
-- Where the result of `RedisMetaClient::Transact` comes from, and when there is one.
use sword_fs.Prelude.{
  ℕ, zero, suc, ◌+◌, ◌<◌, ◌≤◌, ◌⊎◌, inl, inr, List, [], ◌∷◌, ◌≡◌, refl, ap, ◌∙◌, subst, arith,
}
use sword_fs.Status.{Result, ok, err, Code, Result-cases}
use sword_fs.Meta.{Host, Action, Command, Queue}
use sword_fs.Engine.Transact.{
  Exec, executed, executed_in_part, conflicted, refused, lost, Round, unconnected, turned_away,
  cut_off, reached, again, done, commit_queue, end_of_body, Execution, whole, in_part, uncertain,
  effect_of_exec, effect_of_body, turn, effect, transact_from, transact, settle,
}

value_of {ℓ} : {A : Type ℓ} {a b : A} → done (ok a) ≡ done (ok b) → a ≡ b
value_of same = cc

module _ {ℓ} {A : Type ℓ} (body : Host → Action A) where
  -- An attempt that another follows: the transport has failed before EXEC, or the server has refused
  -- EXEC for a watched key that has changed.
  pub data IsRepeated : Round → Type ℓ where
    not_connected : IsRepeated unconnected
    interrupted : IsRepeated cut_off
    watch_conflict :
        (host : Host) (value : A) (queue : Queue)
        → body host [] ≡ ok (value, queue)
        → IsRepeated (reached host conflicted)

  -- An attempt that ends the call, with the result, and with what the server has done.
  pub data IsLast : Round → Result A → List Execution → Type ℓ where
    error_reply : IsLast turned_away (err Code.io_error) []
    body_failed :
        (host : Host) (exec : Exec) (code : Code)
        → body host [] ≡ err code
        → IsLast (reached host exec) (err code) []
    only_read :
        (host : Host) (value : A)
        → body host [] ≡ ok (value, [])
        → IsLast (reached host executed) (ok value) []
    carried_out :
        (host : Host) (value : A) (command : Command) (queue : Queue)
        → body host [] ≡ ok (value, command ∷ queue)
        → IsLast (reached host executed) (ok value) (whole (command ∷ queue) ∷ [])
    partly_carried_out :
        (host : Host) (value : A) (command : Command) (queue : Queue)
        → body host [] ≡ ok (value, command ∷ queue)
        → IsLast
            (reached host executed_in_part)
            (err Code.io_error)
            (in_part (command ∷ queue) ∷ [])
    exec_refused :
        (host : Host) (value : A) (queue : Queue)
        → body host [] ≡ ok (value, queue)
        → IsLast (reached host refused) (err Code.io_error) []
    reply_lost :
        (host : Host) (value : A) (command : Command) (queue : Queue)
        → body host [] ≡ ok (value, command ∷ queue)
        → IsLast (reached host lost) (err Code.outcome_unknown) (uncertain (command ∷ queue) ∷ [])
    release_lost :
        (host : Host) (value : A)
        → body host [] ≡ ok (value, [])
        → IsLast (reached host lost) (err Code.unavailable) []

  IsRepeated-again :
      {round : Round} → IsRepeated round → (turn body round ≡ again) × (effect body round ≡ [])
  unfolding turn effect end_of_body effect_of_body commit_queue effect_of_exec
  IsRepeated-again not_connected = (refl, refl)
  IsRepeated-again interrupted = (refl, refl)
  IsRepeated-again (watch_conflict host value [] e) = (rw e refl, rw e refl)
  IsRepeated-again (watch_conflict host value (command ∷ queue) e) = (rw e refl, rw e refl)

  IsLast-done :
      {round : Round} {status : Result A} {executions : List Execution}
      → IsLast round status executions
      → (turn body round ≡ done status) × (effect body round ≡ executions)
  unfolding turn effect end_of_body effect_of_body commit_queue effect_of_exec
  IsLast-done error_reply = (refl, refl)
  IsLast-done (body_failed host exec code e) = (rw e refl, rw e refl)
  IsLast-done (only_read host value e) = (rw e refl, rw e refl)
  IsLast-done (carried_out host value command queue e) = (rw e refl, rw e refl)
  IsLast-done (partly_carried_out host value command queue e) = (rw e refl, rw e refl)
  IsLast-done (exec_refused host value [] e) = (rw e refl, rw e refl)
  IsLast-done (exec_refused host value (command ∷ queue) e) = (rw e refl, rw e refl)
  IsLast-done (reply_lost host value command queue e) = (rw e refl, rw e refl)
  IsLast-done (release_lost host value e) = (rw e refl, rw e refl)

  -- The attempt that a value comes from: the body has returned it, and the server has carried out all
  -- of its queue, unless it has no command.
  pub data IsFrom : Round → A → List Execution → Type ℓ where
    from_reads :
        (host : Host) (exec : Exec) (value : A)
        → body host [] ≡ ok (value, [])
        → (exec ≡ executed) ⊎ (exec ≡ executed_in_part)
        → IsFrom (reached host exec) value []
    from_queue :
        (host : Host) (value : A) (command : Command) (queue : Queue)
        → body host [] ≡ ok (value, command ∷ queue)
        → IsFrom (reached host executed) value (whole (command ∷ queue) ∷ [])

  committed :
      (host : Host) (exec : Exec) (found : A) (queue : Queue) {value : A}
      → body host [] ≡ ok (found, queue)
      → commit_queue exec found queue ≡ done (ok value)
      → IsFrom (reached host exec) value (effect_of_exec exec queue)
  unfolding commit_queue effect_of_exec
  committed host executed found [] worked e =
      from_reads host executed _ (worked ∙ ap (λ v. ok (v, [])) (value_of e)) (inl refl)
  committed host executed_in_part found [] worked e =
      from_reads host executed_in_part _ (worked ∙ ap (λ v. ok (v, [])) (value_of e)) (inr refl)
  committed host conflicted found [] worked e = absurd cc
  committed host refused found [] worked e = absurd cc
  committed host lost found [] worked e = absurd cc
  committed host executed found (command ∷ queue) worked e =
      from_queue host _ command queue (worked ∙ ap (λ v. ok (v, command ∷ queue)) (value_of e))
  committed host executed_in_part found (command ∷ queue) worked e = absurd cc
  committed host conflicted found (command ∷ queue) worked e = absurd cc
  committed host refused found (command ∷ queue) worked e = absurd cc
  committed host lost found (command ∷ queue) worked e = absurd cc

  Commit-cases :
      (host : Host) (exec : Exec) (value : A) (queue : Queue)
      → body host [] ≡ ok (value, queue)
      → IsRepeated (reached host exec)
        ⊎ ((status : Result A) × (commit_queue exec value queue ≡ done status))
  unfolding commit_queue
  Commit-cases host executed value [] e = inr (_, refl)
  Commit-cases host executed_in_part value [] e = inr (_, refl)
  Commit-cases host conflicted value [] e = inl (watch_conflict host value [] e)
  Commit-cases host refused value [] e = inr (_, refl)
  Commit-cases host lost value [] e = inr (_, refl)
  Commit-cases host executed value (command ∷ queue) e = inr (_, refl)
  Commit-cases host executed_in_part value (command ∷ queue) e = inr (_, refl)
  Commit-cases host conflicted value (command ∷ queue) e = inl (watch_conflict host value _ e)
  Commit-cases host refused value (command ∷ queue) e = inr (_, refl)
  Commit-cases host lost value (command ∷ queue) e = inr (_, refl)

  -- An attempt is repeated, or it ends the call with a result; a value has come from it.
  Turn-cases :
      (round : Round)
      → IsRepeated round
        ⊎ ((status : Result A) × (turn body round ≡ done status)
            × ((value : A) → status ≡ ok value → IsFrom round value (effect body round)))
  unfolding turn end_of_body effect effect_of_body
  Turn-cases unconnected = inl not_connected
  Turn-cases turned_away = inr (_, refl, λ value e. absurd cc)
  Turn-cases cut_off = inl interrupted
  Turn-cases (reached host exec) = elim (Result-cases (body host [])) [
    | inr (code, failed) ↦ inr (err code, rw failed refl, λ value e. absurd cc)
    | inl ((found, queue), worked) ↦ elim (Commit-cases host exec found queue worked) [
      | inl repeated ↦ inl repeated
      | inr (status, ended) ↦ inr (
        status,
        rw worked ended,
        λ value e. rw worked (committed host exec found queue worked (ended ∙ ap done e)),
      )
    ]
  ]

  -- The attempt that ends the call, and those before it.
  pub record IsAnswered (rounds : ℕ → Round) (first last : ℕ) (value : A)
      (executions : List Execution) : Type ℓ where
    pub attempt : ℕ
    pub from_first : first ≤ attempt
    pub before_last : attempt < last
    pub retried : (j : ℕ) → first ≤ j → j < attempt → IsRepeated (rounds j)
    pub answered : IsFrom (rounds attempt) value executions

  Nat-cases : (n j : ℕ) → n ≤ j → (n ≡ j) ⊎ (n + 1 ≤ j)
  Nat-cases n j first = ground arith

  transact_from-IsAnswered :
      (left attempt : ℕ) (rounds : ℕ → Round) {value : A}
      → (transact_from body left attempt rounds).status ≡ ok value
      → IsAnswered rounds attempt
          (attempt + left)
          value
          (transact_from body left attempt rounds).executions
  unfolding transact_from settle
  transact_from-IsAnswered zero attempt rounds e = absurd cc
  transact_from-IsAnswered (suc left) attempt rounds e = elim (Turn-cases (rounds attempt)) [
    | inl repeated ↦
        let (go_on, no_effect) = IsRepeated-again repeated in
        let later = transact_from-IsAnswered left (attempt + 1) rounds (rw go_on at e) in
        rw (go_on, no_effect)
          (record {
            attempt = later.attempt;
            from_first = omega (arith, later.from_first);
            before_last = omega (arith, later.before_last);
            retried = λ j first below. elim (Nat-cases attempt j first) [
              | inl same ↦ subst (λ (n : ℕ). IsRepeated (rounds n)) same repeated
              | inr behind ↦ later.retried j behind below
            ];
            answered = later.answered;
          })
    | inr (status, finished, from) ↦ rw finished (record {
      attempt = attempt;
      from_first = omega arith;
      before_last = omega arith;
      retried = λ j first below. absurd (omega (arith, first, below));
      answered = from _ (rw finished at e);
    })
  ]

  -- A value is what the body returns against the server of one attempt, whose queue the server has
  -- carried out whole, unless it has no command. Before that attempt the transport has failed ahead
  -- of EXEC, or a watched key had changed, and the server has carried out nothing else.
  pub transact-IsAnswered :
      (retry_attempts : ℕ) (rounds : ℕ → Round) {value : A}
      → (transact body retry_attempts rounds).status ≡ ok value
      → IsAnswered rounds 0 retry_attempts value (transact body retry_attempts rounds).executions
  unfolding transact
  transact-IsAnswered retry_attempts rounds {value} e =
      subst
        (λ (n : ℕ). IsAnswered rounds 0 n value (transact body retry_attempts rounds).executions)
        {x = 0 + retry_attempts} (omega arith) (transact_from-IsAnswered retry_attempts 0 rounds e)

  transact_from-ends :
      (before left attempt : ℕ) (rounds : ℕ → Round) {status : Result A}
      {executions : List Execution}
      → before < left
      → ((j : ℕ) → attempt ≤ j → j < attempt + before → IsRepeated (rounds j))
      → IsLast (rounds (attempt + before)) status executions
      → transact_from body left attempt rounds ≡ record { status = status; executions = executions }
  unfolding transact_from settle
  transact_from-ends before zero attempt rounds enough repeated finished =
      absurd (omega (arith, enough))
  transact_from-ends zero (suc left) attempt rounds {status} {executions} enough repeated finished =
      let here : IsLast (rounds attempt) status executions =
        subst (λ (n : ℕ). IsLast (rounds n) status executions) {x = attempt + 0} (omega arith)
          finished in
      let (ended, effects) = IsLast-done here in rw (ended, effects) refl
  transact_from-ends (suc before) (suc left) attempt rounds {status} {executions} enough repeated
        finished =
      let (go_on, no_effect) = IsRepeated-again (repeated attempt (omega arith) (omega arith)) in
      rw (go_on, no_effect)
        (transact_from-ends before left (attempt + 1) rounds (omega (arith, enough))
          (λ j first below. repeated j (omega (arith, first)) (omega (arith, below)))
          (subst (λ (n : ℕ). IsLast (rounds n) status executions) (omega arith) finished))

  -- The first attempt, among those that are made, that is not cut off ahead of EXEC and meets no
  -- changed key ends the call. Its result is the body's failure or value; a refused connection or
  -- EXEC and an error in a part of the queue are an error of input or output, and a lost reply is an
  -- unknown outcome, or, where there was nothing to write, no availability.
  pub transact-ends :
      (k retry_attempts : ℕ) (rounds : ℕ → Round) {status : Result A} {executions : List Execution}
      → k < retry_attempts
      → ((j : ℕ) → j < k → IsRepeated (rounds j))
      → IsLast (rounds k) status executions
      → transact body retry_attempts rounds ≡ record { status = status; executions = executions }
  unfolding transact
  transact-ends k retry_attempts rounds {status} {executions} enough repeated finished =
      transact_from-ends k retry_attempts 0 rounds enough
        (λ j first below. repeated j (omega (arith, below)))
        (subst (λ (n : ℕ). IsLast (rounds n) status executions) (omega arith) finished)
