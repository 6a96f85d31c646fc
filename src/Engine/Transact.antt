-- ===== src/Engine/Transact.antt =====
-- `RedisMetaClient::Transact` of src/metadata/redis/RedisMetaClient.cpp, and `Commit` of
-- RedisKvTxn.cpp: an optimistic transaction, and the retries around it. What the server and the
-- connection do in an attempt is its `Round`; the pause between two attempts is left out.
use sword_fs.Prelude.{ℕ, zero, suc, ◌+◌, List, [], ◌∷◌, ◌++◌}
use sword_fs.Status.{Result, ok, err, Code}
use sword_fs.Meta.{Host, Action, Queue}

-- The end of an EXEC: it is carried out, with or without an error of one of its commands; a watched
-- key has changed, and nothing is carried out; it is answered by an error as a whole; or its answer
-- is lost.
pub data Exec : Type 0 where
  executed executed_in_part conflicted refused lost : Exec

-- An attempt. The transport may fail before there is a transaction, or before EXEC, and the server
-- may answer the connection by an error; else the body is run, and EXEC ends so.
pub data Round : Type 0 where
  unconnected turned_away cut_off : Round
  reached : Host → Exec → Round

-- What an attempt leads to: another, or the result of the call.
pub data Turn {ℓ} (A : Type ℓ) : Type ℓ where
  again : Turn A
  done : Result A → Turn A

-- `RedisKvTxn::Commit`; a transaction without writes ends in `ReleaseConnection`.
unfoldable pub commit_queue {ℓ} : {A : Type ℓ} → Exec → A → Queue → Turn A
commit_queue executed value [] = done (ok value)
commit_queue executed_in_part value [] = done (ok value)
commit_queue conflicted value [] = again
commit_queue refused value [] = done (err Code.io_error)
commit_queue lost value [] = done (err Code.unavailable)
commit_queue executed value (command ∷ queue) = done (ok value)
commit_queue executed_in_part value (command ∷ queue) = done (err Code.io_error)
commit_queue conflicted value (command ∷ queue) = again
commit_queue refused value (command ∷ queue) = done (err Code.io_error)
commit_queue lost value (command ∷ queue) = done (err Code.outcome_unknown)

-- `if (!status.ok()) { Discard(); return status; }`
unfoldable pub end_of_body {ℓ} : {A : Type ℓ} → Exec → Result (A × Queue) → Turn A
end_of_body exec (err code) = done (err code)
end_of_body exec (ok (value, queue)) = commit_queue exec value queue

-- What the server has done with a queue that was sent: all of it, a part of it, or one cannot know.
pub data Execution : Type 0 where
  whole in_part uncertain : Queue → Execution

-- What an EXEC does at the server, whatever the client makes of it; no queue without a command is
-- sent.
unfoldable pub effect_of_exec : Exec → Queue → List Execution
effect_of_exec exec [] = []
effect_of_exec executed (command ∷ queue) = whole (command ∷ queue) ∷ []
effect_of_exec executed_in_part (command ∷ queue) = in_part (command ∷ queue) ∷ []
effect_of_exec conflicted (command ∷ queue) = []
effect_of_exec refused (command ∷ queue) = []
effect_of_exec lost (command ∷ queue) = uncertain (command ∷ queue) ∷ []

unfoldable pub effect_of_body {ℓ} : {A : Type ℓ} → Exec → Result (A × Queue) → List Execution
effect_of_body exec (err code) = []
effect_of_body exec (ok (value, queue)) = effect_of_exec exec queue

-- What the call returns, and what the server has done in all its attempts.
pub record Transacted {ℓ} (A : Type ℓ) : Type ℓ where
  pub status : Result A
  pub executions : List Execution

-- `return status`, or the next attempt
unfoldable pub settle {ℓ} : {A : Type ℓ} → Turn A → List Execution → Transacted A → Transacted A
settle again here rest = record { status = rest.status; executions = here ++ rest.executions }
settle (done status) here rest = record { status = status; executions = here }

module _ {ℓ} {A : Type ℓ} (body : Host → Action A) where
  unfoldable pub turn : Round → Turn A
  turn unconnected = again
  turn turned_away = done (err Code.io_error)
  turn cut_off = again
  turn (reached host exec) = end_of_body exec (body host [])

  unfoldable pub effect : Round → List Execution
  effect unconnected = []
  effect turned_away = []
  effect cut_off = []
  effect (reached host exec) = effect_of_body exec (body host [])

  -- The attempts from number `attempt` on, as many as are left.
  unfoldable pub transact_from : ℕ → ℕ → (ℕ → Round) → Transacted A
  transact_from zero attempt rounds = record { status = err Code.unavailable; executions = [] }
  transact_from (suc left) attempt rounds =
      settle (turn (rounds attempt)) (effect (rounds attempt))
        (transact_from left (attempt + 1) rounds)

  unfoldable pub transact : ℕ → (ℕ → Round) → Transacted A
  transact retry_attempts rounds = transact_from retry_attempts 0 rounds
