-- ===== src/Lock/Lease.antt =====
-- src/metadata/redis/RedisOwnerLease.cpp, with its commands in RedisMetaClient.cpp: the lease that a
-- mount holds while it may grant locks. The clock is an argument, reading by reading, as are the
-- replies of the server; a duration is in milliseconds and not negative, and a negative one would be
-- refused as zero is. `mutex_` makes each call one step, but for the questions of other threads, which
-- it does not keep out of a renewal.
pub mod Changes
pub mod Granted
pub mod Generations
mod Tests
use sword_fs.Prelude.{
  ℕ, ◌+◌, ◌-◌, ◌*◌, ◌^◌, Bool, true, false, ◌||◌, not, ltb, leb, ◌==◌, if◌then◌else◌, Option, none,
  some, List, [], ◌∷◌,
}
use sword_fs.Prelude.Int.{ℤ, pos, negsuc, is_negative}
use sword_fs.Prelude.Text.{Text, same_text}
use sword_fs.Status.{Result, ok, err, Code, Status, fail_if}
use sword_fs.Status
use sword_fs.Meta.{
  Host, Action, owner_generation, incr_by, get, attempt, lift, return, write, ◌>>=◌, ◌>>◌,
}
use sword_fs.Meta.Decimal.{from_chars, to_string}
use sword_fs.Meta.Inodes.{is_not_found}
use sword_fs.Engine.Transact.{Round, transact}
use sword_fs.Engine.Client.{Reply, changing}
use sword_fs.Engine.Reclaim.{is_unknown_outcome}

pub data LeaseState : Type 0 where
  unregistered active terminal : LeaseState

pub record Timing : Type 0 where
  pub ttl : ℕ
  pub renew_interval : ℕ
  pub safety_margin : ℕ
  pub io_timeout : ℕ

pub record Lease : Type 0 where
  pub state : LeaseState
  pub generation : ℕ
  pub cutoff_ns : ℕ
  pub revoke_attempted : Bool

abbrev pub unborn : Lease
unborn = record {
  state = LeaseState.unregistered;
  generation = 0;
  cutoff_ns = 0;
  revoke_attempted = false;
}

abbrev pub int64_max : ℕ
int64_max = 2 ^ 63 - 1

-- `ValidateTiming`; no time to live is more than 24 hours, no budget more than five seconds.
abbrev pub is_lifeless : Timing → Bool
is_lifeless timing =
    timing.ttl == 0
    || ltb (24 * 60 * 60 * 1000) timing.ttl
    || timing.safety_margin == 0
    || leb timing.ttl timing.safety_margin

abbrev pub is_too_slow : Timing → Bool
is_too_slow timing =
    timing.renew_interval == 0
    || timing.io_timeout == 0
    || ltb 5000 timing.io_timeout
    || leb (timing.ttl - timing.safety_margin) timing.io_timeout
    || leb (timing.ttl - timing.safety_margin - timing.io_timeout) timing.renew_interval

unfoldable pub validate_timing : Timing → Status
validate_timing timing = fail_if (is_lifeless timing || is_too_slow timing) Code.invalid_argument

-- A missing counter is not begun anew.
abbrev pub counter_text : Result Text → Result Text
counter_text (ok encoded) = ok encoded
counter_text (err code) = if is_not_found code then err Code.unavailable else err code

abbrev pub previous_generation : Text → Option ℕ → Result ℕ
previous_generation encoded none = err Code.malformed
previous_generation encoded (some previous) =
    if not (same_text encoded (to_string previous)) || leb int64_max previous
    then err Code.malformed
    else ok previous

-- The transaction of `AllocateGeneration`
unfoldable pub allocate_generation : Host → Action ℕ
allocate_generation host = do
  looked_up ← attempt (get host owner_generation)
  encoded ← lift (counter_text looked_up)
  previous ← lift (previous_generation encoded (from_chars encoded))
  write host (incr_by owner_generation (pos 1))
  return (previous + 1)

-- SET NX PX of the key of a generation, with the time that it lives, and PEXPIRE XX of that key
pub record SetLease : Type 0 where
  pub generation : ℕ
  pub nonce : Text
  pub px : ℕ

pub record ExpireLease : Type 0 where
  pub generation : ℕ
  pub milliseconds : ℕ

-- `CreateOwnerLease`: SET NX PX says whether it has set the key. The server is asked by a command,
-- and what it would reply is known for each.
abbrev pub created : Bool → Status
created set = fail_if (not set) Code.already_exists

unfoldable pub create_owner_lease : ℕ → Text → ℕ → (SetLease → Reply Bool) → Status
create_owner_lease generation nonce ttl reply =
    if ttl == 0
    then err Code.invalid_argument
    else Status.◌>>=◌
        (changing (reply (record { generation = generation; nonce = nonce; px = ttl }))) created

-- `RenewOwnerLease`: PEXPIRE XX answers 1 where the key is there.
abbrev pub renewed : ℕ → Status
renewed count = fail_if (not (count == 1)) Code.unavailable

unfoldable pub renew_owner_lease : ℕ → ℕ → (ExpireLease → Reply ℕ) → Status
renew_owner_lease generation ttl reply =
    if ttl == 0
    then err Code.invalid_argument
    else Status.◌>>=◌ (changing (reply (record { generation = generation; milliseconds = ttl })))
        renewed

-- `RevokeOwnerLease`: what DEL answers is not looked at.
unfoldable pub revoke_owner_lease : Reply ℕ → Status
revoke_owner_lease reply = Status.◌>>=◌ (changing reply) (λ count. ok tt)

-- `lifetime_ns`
abbrev pub lifetime_ns : Timing → ℕ
lifetime_ns timing = (timing.ttl - timing.safety_margin) * 10 ^ 6

-- The time from which on a lease is not certain, which is asked for at `send_time`
unfoldable pub cutoff_of : Timing → ℤ → Result ℕ
cutoff_of timing (negsuc n) = err Code.unavailable
cutoff_of timing (pos send_time) =
    if ltb (int64_max - lifetime_ns timing) send_time
    then err Code.unavailable
    else ok (send_time + lifetime_ns timing)

-- `clock_().count() >= cutoff`
unfoldable pub is_past : ℤ → ℕ → Bool
is_past (pos now) cutoff = leb cutoff now
is_past (negsuc n) cutoff = false

unfoldable pub is_active : LeaseState → Bool
is_active LeaseState.active = true
is_active _ = false

unfoldable pub is_unregistered : LeaseState → Bool
is_unregistered LeaseState.unregistered = true
is_unregistered _ = false

-- `state_.store(LeaseState::kTerminal)`
abbrev pub terminated : Lease → Lease
terminated lease = record lease { state = LeaseState.terminal }

-- `CanGrant`, with what it reads of the clock
unfoldable pub can_grant : ℕ → ℤ → Lease → Bool × Lease
can_grant generation now lease =
    if generation == 0 || not (generation == lease.generation) || not (is_active lease.state)
    then (false, lease)
    else if is_negative now || is_past now lease.cutoff_ns
    then (false, terminated lease)
    else (true, lease)

-- The questions of other threads
unfoldable pub ask_all : List (ℕ × ℤ) → Lease → Lease
ask_all [] lease = lease
ask_all ((generation, now) ∷ questions) lease =
    ask_all questions ((can_grant generation now lease).1)

-- What `Register` meets: the rounds of its transaction, the clock before the command is sent, the
-- nonce, the reply, the clock behind it, and whether the thread of the heartbeat can be started.
pub record Registration : Type 0 where
  pub allocation_rounds : ℕ → Round
  pub send_time : ℤ
  pub nonce : Text
  pub reply : SetLease → Reply Bool
  pub received : ℤ
  pub starts_heartbeat : Bool

-- Where there is no thread the key is deleted, whatever the server answers.
abbrev pub with_heartbeat : Bool → Lease → Status × Lease
with_heartbeat true lease = (ok tt, lease)
with_heartbeat false lease =
    (err Code.unavailable, record lease { state = LeaseState.terminal; revoke_attempted = true })

module _ (timing : Timing) where
  unfoldable pub confirm_registration : Registration → Lease → ℕ → ℕ → Status → Status × Lease
  confirm_registration call lease generation cutoff (err code) = (err code, terminated lease)
  confirm_registration call lease generation cutoff (ok done) =
      if is_past call.received cutoff
      then (err Code.unavailable, terminated lease)
      else with_heartbeat call.starts_heartbeat
          (record lease { state = LeaseState.active; generation = generation; cutoff_ns = cutoff })

  unfoldable pub send_registration : Registration → Lease → ℕ → Result ℕ → Status × Lease
  send_registration call lease generation (err code) = (err code, terminated lease)
  send_registration call lease generation (ok cutoff) =
      confirm_registration call lease generation cutoff
        (create_owner_lease generation call.nonce timing.ttl call.reply)

  unfoldable pub register_generation : Registration → Lease → Result ℕ → Status × Lease
  register_generation call lease (err code) = (err code, terminated lease)
  register_generation call lease (ok generation) =
      send_registration call lease generation (cutoff_of timing call.send_time)

  unfoldable pub register_valid : Registration → Lease → Status → Status × Lease
  register_valid call lease (err code) = (err code, terminated lease)
  register_valid call lease (ok done) =
      register_generation call lease
        ((transact allocate_generation 1 call.allocation_rounds).status)

  -- `Register`
  unfoldable pub register : Registration → Lease → Status × Lease
  register call lease =
      if not (is_unregistered lease.state)
      then (err Code.unavailable, lease)
      else register_valid call lease (validate_timing timing)

-- What `Renew` meets: the clock where it asks and where it sends, the questions of other threads until
-- the reply, the reply, the clock where it asks again and once more, and the questions that come
-- before the new cutoff is stored.
pub record Renewal : Type 0 where
  pub asked : ℤ
  pub send_time : ℤ
  pub meanwhile : List (ℕ × ℤ)
  pub reply : ExpireLease → Reply ℕ
  pub asked_again : ℤ
  pub received : ℤ
  pub before_store : List (ℕ × ℤ)

unfoldable pub store_cutoff : Renewal → ℕ → Bool × Lease → Status × Lease
store_cutoff call cutoff (false, lease) = (err Code.unavailable, terminated lease)
store_cutoff call cutoff (true, lease) =
    if is_past call.received cutoff
    then (err Code.unavailable, terminated lease)
    else (ok tt, record (ask_all call.before_store lease) { cutoff_ns = cutoff })

-- A renewal whose outcome is unknown leaves the cutoff.
abbrev pub left_uncertain : Bool × Lease → Status × Lease
left_uncertain (false, lease) = (err Code.unavailable, lease)
left_uncertain (true, lease) = (err Code.outcome_unknown, lease)

unfoldable pub after_reply : Renewal → ℕ → Lease → Status → Status × Lease
after_reply call cutoff lease (ok done) =
    store_cutoff call cutoff (can_grant lease.generation call.asked_again lease)
after_reply call cutoff lease (err code) =
    if is_unknown_outcome code
    then left_uncertain (can_grant lease.generation call.asked_again lease)
    else (err code, terminated lease)

module _ (timing : Timing) where
  unfoldable pub send_renewal : Renewal → Lease → Result ℕ → Status × Lease
  send_renewal call lease (err code) = (err code, terminated lease)
  send_renewal call lease (ok cutoff) =
      after_reply call cutoff (ask_all call.meanwhile lease)
        (renew_owner_lease lease.generation timing.ttl call.reply)

  unfoldable pub renew_granted : Renewal → Bool × Lease → Status × Lease
  renew_granted call (false, lease) = (err Code.unavailable, lease)
  renew_granted call (true, lease) = send_renewal call lease (cutoff_of timing call.send_time)

  -- `Renew`
  unfoldable pub renew : Renewal → Lease → Status × Lease
  renew call lease = renew_granted call (can_grant lease.generation call.asked lease)

-- `Revoke`, behind the end of the heartbeat
unfoldable pub revoke : Reply ℕ → Lease → Status × Lease
revoke reply lease =
    if lease.revoke_attempted || lease.generation == 0 then (ok tt, terminated lease) else (
      revoke_owner_lease reply,
      record lease { state = LeaseState.terminal; revoke_attempted = true },
    )

-- A call of the lease by any of the threads
pub data Event : Type 0 where
  registers : Registration → Event
  asks : ℕ → ℤ → Event
  renews : Renewal → Event
  revokes : Reply ℕ → Event

module _ (timing : Timing) where
  unfoldable pub apply : Event → Lease → Lease
  apply (registers call) lease = (register timing call lease).1
  apply (asks generation now) lease = (can_grant generation now lease).1
  apply (renews call) lease = (renew timing call lease).1
  apply (revokes reply) lease = (revoke reply lease).1

  -- The lease behind a history, newest first
  unfoldable pub run : List Event → Lease
  run [] = unborn
  run (event ∷ history) = apply event (run history)
