-- ===== src/Lock/Lease/Tests.antt =====
-- A lease at work: it is registered at 100 seconds, and renewed ten seconds later.
use sword_fs.Prelude.{if◌then◌else◌, ◌==◌, ℕ, ◌*◌, ◌^◌, true, false, List, [], ◌∷◌, ◌++◌, ◌≡◌, refl}
use sword_fs.Prelude.Int.{ℤ, pos}
use sword_fs.Status.{ok}
use sword_fs.Meta.{
  Host, Key, owner_generation, found, missing, Answer, incr_by, read, write, attempt, lift,
  continue, return,
}
use sword_fs.Prelude.Text.{Text, same_text}
use sword_fs.Meta.Decimal.{to_string, digits, read_digits, from_chars}
use sword_fs.Meta.Sample.{host}
use sword_fs.Engine.Transact.{
  executed, reached, transact, transact_from, settle, turn, end_of_body, commit_queue,
}
use sword_fs.Engine.Client.{replied, unreachable, changing}
use sword_fs.Lock.Lease.{
  LeaseState, Timing, validate_timing, allocate_generation, create_owner_lease, renew_owner_lease,
  cutoff_of, is_past, is_active, is_unregistered, can_grant, ask_all, Registration,
  confirm_registration, send_registration, register_generation, register_valid, register, Renewal,
  store_cutoff, after_reply, send_renewal, renew_granted, renew, Event, registers, asks, renews,
  revokes, apply, run,
}
use sword_fs.Lock.Lease.Granted.{IsHeld, can_grant-IsHeld, can_grant-revoked}
use sword_fs.Lock.Lease.Generations.{IsNext, allocate_generation-IsNext}

-- The default timing
abbrev timing : Timing
timing = record { ttl = 60000; renew_interval = 10000; safety_margin = 15000; io_timeout = 5000 }

abbrev counter : Key → Answer Text
counter owner_generation = found (to_string 6)
counter _ = missing

abbrev with_counter : Host
with_counter = record host { get_answer = counter }

abbrev seconds : ℕ → ℤ
seconds n = pos (n * 10 ^ 9)

abbrev registration : Registration
registration = record {
  allocation_rounds = λ attempt. reached with_counter executed;
  send_time = seconds 100;
  nonce = [];
  reply = λ command. if command.px == 60000 then replied true else unreachable;
  received = seconds 101;
  starts_heartbeat = true;
}

abbrev renewal : Renewal
renewal = record {
  asked = seconds 110;
  send_time = seconds 110;
  meanwhile = (7, seconds 111) ∷ [];
  reply = λ command. if command.milliseconds == 60000 then replied 1 else unreachable;
  asked_again = seconds 112;
  received = seconds 112;
  before_store = [];
}

abbrev history : List Event
history = renews renewal ∷ asks 7 (seconds 102) ∷ registers registration ∷ []

allocated : allocate_generation with_counter [] ≡ ok (7, incr_by owner_generation (pos 1) ∷ [])
unfolding allocate_generation attempt read lift continue write return from_chars read_digits
    to_string digits same_text
allocated = refl

allocate_generation-IsNext_example : IsNext with_counter 7 (incr_by owner_generation (pos 1) ∷ [])
allocate_generation-IsNext_example = allocate_generation-IsNext with_counter 7 _ allocated

registered : register timing registration (run timing []) ≡ (
  ok tt,
  record {
    state = LeaseState.active;
    generation = 7;
    cutoff_ns = 145 * 10 ^ 9;
    revoke_attempted = false;
  },
)
unfolding register register_valid register_generation send_registration confirm_registration run
    validate_timing is_unregistered cutoff_of create_owner_lease changing is_past transact
    transact_from settle turn end_of_body commit_queue allocate_generation attempt read lift
    continue write return from_chars read_digits to_string digits same_text
registered = refl

-- At 150 seconds the registration alone would be too old.
agreed : (can_grant 7 (seconds 150) (run timing history)).0 ≡ true
unfolding register register_valid register_generation send_registration confirm_registration run
    apply validate_timing is_unregistered cutoff_of create_owner_lease changing is_past transact
    transact_from settle turn end_of_body commit_queue allocate_generation attempt read lift
    continue write return from_chars read_digits to_string digits same_text can_grant is_active
    renew renew_granted send_renewal after_reply store_cutoff ask_all renew_owner_lease
agreed = refl

can_grant-IsHeld_example : IsHeld timing history 7 (seconds 150)
can_grant-IsHeld_example = can_grant-IsHeld timing history 7 (seconds 150) agreed

-- The lease is revoked, and the reply is lost; a question, a renewal and a registration follow.
can_grant-revoked_example :
    (can_grant 7 (seconds 120) (
      run timing (
        registers registration ∷ renews renewal ∷ asks 7 (seconds 115) ∷ []
        ++ revokes unreachable ∷ history))).0
    ≡ false
can_grant-revoked_example =
    can_grant-revoked timing (registers registration ∷ renews renewal ∷ asks 7 (seconds 115) ∷ [])
      unreachable history 7 (seconds 120)
