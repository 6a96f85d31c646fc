-- ===== src/Engine/Once.antt =====
-- What the retries of `RedisMetaClient::Transact` leave behind.
use sword_fs.Prelude.{ℕ, zero, suc, ◌+◌, List, [], ◌∷◌}
use sword_fs.Status.{Result, ok, err, Code}
use sword_fs.Meta.{Host, Action, Queue}
use sword_fs.Engine.Transact.{
  Exec, executed, executed_in_part, conflicted, refused, lost, Round, unconnected, turned_away,
  cut_off, reached, Turn, again, done, commit_queue, end_of_body, Execution, whole, in_part,
  uncertain, effect_of_exec, effect_of_body, Transacted, turn, effect, transact_from, transact,
  settle,
}

-- The result of a call beside what the server has done with the queues of all its attempts: no more
-- than one of them was carried out. All of it goes with a value, a part of it with the error of an
-- input or output, and what cannot be known with an unknown outcome.
pub data IsOnce {ℓ} {A : Type ℓ} : Result A → List Execution → Type ℓ where
  with_value : (value : A) (queue : Queue) → IsOnce (ok value) (whole queue ∷ [])
  without_commands : (value : A) → IsOnce (ok value) []
  failed_in_part : (queue : Queue) → IsOnce (err Code.io_error) (in_part queue ∷ [])
  unknown : (queue : Queue) → IsOnce (err Code.outcome_unknown) (uncertain queue ∷ [])
  without_effect : (code : Code) → IsOnce (err code) []

-- An attempt that is repeated has had no effect.
data IsTurn {ℓ} {A : Type ℓ} : Turn A → List Execution → Type ℓ where
  retried : IsTurn again []
  ended :
      (status : Result A) (here : List Execution) → IsOnce status here → IsTurn (done status) here

module _ {ℓ} {A : Type ℓ} where
  commit_queue-IsTurn :
      (exec : Exec) (value : A) (queue : Queue)
      → IsTurn (commit_queue exec value queue) (effect_of_exec exec queue)
  unfolding commit_queue effect_of_exec
  commit_queue-IsTurn executed value [] = ended _ _ (without_commands value)
  commit_queue-IsTurn executed_in_part value [] = ended _ _ (without_commands value)
  commit_queue-IsTurn conflicted value [] = retried
  commit_queue-IsTurn refused value [] = ended _ _ (without_effect _)
  commit_queue-IsTurn lost value [] = ended _ _ (without_effect _)
  commit_queue-IsTurn executed value (command ∷ queue) = ended _ _ (with_value value _)
  commit_queue-IsTurn executed_in_part value (command ∷ queue) = ended _ _ (failed_in_part _)
  commit_queue-IsTurn conflicted value (command ∷ queue) = retried
  commit_queue-IsTurn refused value (command ∷ queue) = ended _ _ (without_effect _)
  commit_queue-IsTurn lost value (command ∷ queue) = ended _ _ (unknown _)

  end_of_body-IsTurn :
      (exec : Exec) (r : Result (A × Queue)) → IsTurn (end_of_body exec r) (effect_of_body exec r)
  unfolding end_of_body effect_of_body
  end_of_body-IsTurn exec (err code) = ended _ _ (without_effect code)
  end_of_body-IsTurn exec (ok (value, queue)) = commit_queue-IsTurn exec value queue

  settle-IsOnce :
      {t : Turn A} {here : List Execution} {rest : Transacted A}
      → IsTurn t here
      → IsOnce rest.status rest.executions
      → IsOnce (settle t here rest).status (settle t here rest).executions
  unfolding settle
  settle-IsOnce retried once = once
  settle-IsOnce (ended status here once) behind = once

module _ {ℓ} {A : Type ℓ} (body : Host → Action A) where
  turn-IsTurn : (round : Round) → IsTurn (turn body round) (effect body round)
  unfolding turn effect
  turn-IsTurn unconnected = retried
  turn-IsTurn turned_away = ended _ _ (without_effect _)
  turn-IsTurn cut_off = retried
  turn-IsTurn (reached host exec) = end_of_body-IsTurn exec (body host [])

  transact_from-IsOnce :
      (left attempt : ℕ) (rounds : ℕ → Round)
      → IsOnce
          (transact_from body left attempt rounds).status
          (transact_from body left attempt rounds).executions
  unfolding transact_from
  transact_from-IsOnce zero attempt rounds = without_effect Code.unavailable
  transact_from-IsOnce (suc left) attempt rounds =
      settle-IsOnce (turn-IsTurn (rounds attempt)) (transact_from-IsOnce left (attempt + 1) rounds)

  -- However the attempts end, the server has carried out, or may have, one of their queues at most.
  -- All of it is carried out where the call has a value and its queue a command. A call that fails
  -- has left none behind, but for the error of an input or output, which may stand for a part of the
  -- queue, and an unknown outcome.
  pub transact-IsOnce :
      (retry_attempts : ℕ) (rounds : ℕ → Round)
      → IsOnce
          (transact body retry_attempts rounds).status
          (transact body retry_attempts rounds).executions
  unfolding transact
  transact-IsOnce retry_attempts rounds = transact_from-IsOnce retry_attempts 0 rounds
