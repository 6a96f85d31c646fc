-- ===== src/Lock/Lease/Granted.antt =====
-- When the lease of a mount lets it grant a lock.
use sword_fs.Prelude.{
  ℕ, ◌+◌, ◌*◌, ◌^◌, ◌<◌, ◌≡◌, inl, inr, refl, sym, ap, ◌∙◌, subst, arith, Bool, true, false, ◌||◌,
  leb, ltb, either_false, Bool-cases, ◌==◌, lt-or-le, le→leb, List, [], ◌∷◌, ◌++◌, Elem,
}
use sword_fs.Prelude.Int.{ℤ, pos, negsuc, is_negative}
use sword_fs.Status.{ok, Code, fail_if-eq-ok}
use sword_fs.Engine.Transact.{transact}
use sword_fs.Engine.Client.{Reply, replied}
use sword_fs.Lock.Lease.{
  LeaseState, Timing, Lease, is_lifeless, is_too_slow, validate_timing, allocate_generation,
  lifetime_ns, is_past, can_grant, Registration, register, Renewal, renew_granted, renew, revoke,
  is_unregistered, Event, registers, asks, renews, revokes, apply, run,
}
use sword_fs.Lock.Lease.Changes.{
  set_of, expire_of, Asked, turned_down, ended, granted, can_grant-Asked, asked-keeps,
  asked-granted, IsRegistration, IsRenewal, with_cutoff, register-active, renew-active,
}

-- A registration of the history has allocated the generation, and the server has set its key.
pub record IsRegistered (timing : Timing) (history : List Event) (generation : ℕ) : Type 0 where
  pub call : Registration
  pub among : Elem (registers call) history
  pub valid : validate_timing timing ≡ ok tt
  pub allocated : (transact allocate_generation 1 call.allocation_rounds).status ≡ ok generation
  pub acknowledged : call.reply (set_of timing call generation) ≡ replied true

-- A command that the server has carried out for the key of a generation, sent at that time: the key
-- is set, or its expiry, to the time to live of the timing.
pub data IsConfirmed (timing : Timing) (generation : ℕ) : Event → ℤ → Type 0 where
  by_registration :
      (call : Registration)
      → call.reply (set_of timing call generation) ≡ replied true
      → IsConfirmed timing generation (registers call) call.send_time
  by_renewal :
      (call : Renewal)
      → call.reply (expire_of timing generation) ≡ replied 1
      → IsConfirmed timing generation (renews call) call.send_time

-- What an active lease rests on
record IsBacked (timing : Timing) (history : List Event) (lease : Lease) : Type 0 where
  registered : IsRegistered timing history lease.generation
  event : Event
  among : Elem event history
  send : ℕ
  confirmed : IsConfirmed timing lease.generation event (pos send)
  cutoff : lease.cutoff_ns ≡ send + lifetime_ns timing

revoke-terminal :
    (reply : Reply ℕ) (lease : Lease) → ((revoke reply lease).1).state ≡ LeaseState.terminal
unfolding revoke
revoke-terminal reply lease = elim (Bool-cases (lease.revoke_attempted || lease.generation == 0)) [
  | inl idle ↦ rw (revoke, idle) refl
  | inr first ↦ rw (revoke, first) refl
]

module _ (timing : Timing) where
  IsRegistered-later :
      (event : Event) {history : List Event} {generation : ℕ}
      → IsRegistered timing history generation
      → IsRegistered timing (event ∷ history) generation
  IsRegistered-later event registered = record {
    call = registered.call;
    among = inr registered.among;
    valid = registered.valid;
    allocated = registered.allocated;
    acknowledged = registered.acknowledged;
  }

  later :
      (event : Event) {history : List Event} {lease : Lease}
      → IsBacked timing history lease
      → IsBacked timing (event ∷ history) lease
  later event backed = record {
    registered = IsRegistered-later _ backed.registered;
    event = backed.event;
    among = inr backed.among;
    send = backed.send;
    confirmed = backed.confirmed;
    cutoff = backed.cutoff;
  }

  by_this_registration :
      (call : Registration) (history : List Event) {lease : Lease}
      → IsRegistration timing call lease
      → IsBacked timing (registers call ∷ history) lease
  by_this_registration call history {lease} made = record {
    registered = record {
      call = call;
      among = inl refl;
      valid = made.valid;
      allocated = made.allocated;
      acknowledged = made.acknowledged;
    };
    event = registers call;
    among = inl refl;
    send = made.send;
    confirmed =
        subst (IsConfirmed timing lease.generation (registers call)) made.sent
          (by_registration call made.acknowledged);
    cutoff = made.cutoff;
  }

  by_this_renewal :
      (call : Renewal) {history : List Event} {lease : Lease} {cutoff : ℕ}
      → IsBacked timing history lease
      → IsRenewal timing call lease.generation cutoff
      → IsBacked timing (renews call ∷ history) (with_cutoff cutoff lease)
  by_this_renewal call {lease = lease} backed made = record {
    registered = IsRegistered-later _ backed.registered;
    event = renews call;
    among = inl refl;
    send = made.send;
    confirmed =
        subst (IsConfirmed timing lease.generation (renews call)) made.sent
          (by_renewal call made.acknowledged);
    cutoff = made.cutoff;
  }

  -- A call leaves the lease, and so what it rests on.
  unchanged :
      (event : Event) {history : List Event} {before after : Lease}
      → (before.state ≡ LeaseState.active → IsBacked timing history before)
      → after.state ≡ LeaseState.active
      → after ≡ before
      → IsBacked timing (event ∷ history) after
  unchanged event {history} backed active same =
      subst (IsBacked timing (event ∷ history)) (sym same)
        (later event (backed (sym (ap (λ l. l.state) same) ∙ active)))

  run-IsBacked :
      (history : List Event)
      → (run timing history).state ≡ LeaseState.active
      → IsBacked timing history (run timing history)
  unfolding run apply
  run-IsBacked [] active = absurd cc
  run-IsBacked (registers call ∷ history) active =
      elim (register-active timing call (run timing history) active) [
        | inl same ↦ unchanged (registers call) (run-IsBacked history) active same
        | inr made ↦ by_this_registration call history made
      ]
  run-IsBacked (asks generation now ∷ history) active =
      unchanged (asks generation now) (run-IsBacked history) active
        (asked-keeps (can_grant-Asked generation now (run timing history)) active)
  run-IsBacked (renews call ∷ history) active =
      elim (renew-active timing call (run timing history) active) [
        | inl same ↦ unchanged (renews call) (run-IsBacked history) active same
        | inr (cutoff, same, made) ↦ subst (IsBacked timing (renews call ∷ history)) (sym same) (
            by_this_renewal call (run-IsBacked history (sym (ap (λ l. l.state) same) ∙ active))
              made)
      ]
  run-IsBacked (revokes reply ∷ history) active =
      let over = revoke-terminal reply (run timing history) in absurd cc

-- A lock is granted at a time for a generation.
pub record IsHeld (timing : Timing) (history : List Event) (generation : ℕ) (now : ℤ) : Type 0 where
  pub registered : IsRegistered timing history generation
  pub event : Event
  pub among : Elem event history
  pub send : ℕ
  pub confirmed : IsConfirmed timing generation event (pos send)
  pub at : ℕ
  pub now_at : now ≡ pos at
  pub in_time : at + timing.safety_margin * 10 ^ 6 < send + timing.ttl * 10 ^ 6

margin_below_ttl :
    (timing : Timing) → validate_timing timing ≡ ok tt → timing.safety_margin < timing.ttl
unfolding validate_timing
margin_below_ttl timing valid =
    let (living, _) =
      either_false (is_lifeless timing) (is_too_slow timing)
        (fail_if-eq-ok (is_lifeless timing || is_too_slow timing) Code.invalid_argument valid) in
    let (_, test) =
      either_false
        (timing.ttl == 0 || ltb (24 * 60 * 60 * 1000) timing.ttl || timing.safety_margin == 0)
        (leb timing.ttl timing.safety_margin) living in
    elim (lt-or-le timing.safety_margin timing.ttl) [
      | inl below ↦ below
      | inr above ↦ let refused = le→leb timing.ttl timing.safety_margin above in absurd cc
    ]

before_cutoff :
    (now : ℤ) (cutoff : ℕ)
    → is_negative now ≡ false
    → is_past now cutoff ≡ false
    → (at : ℕ) × (now ≡ pos at) × (at < cutoff)
unfolding is_past
before_cutoff (negsuc n) cutoff valid before = absurd cc
before_cutoff (pos at) cutoff valid before = elim (lt-or-le at cutoff) [
  | inl early ↦ (at, refl, early)
  | inr late ↦ let past = le→leb cutoff at late in absurd cc
]

-- Where a lease says that a lock may be granted for a generation, a registration has allocated that
-- generation and the server has set its key to expire after the time to live. That command, or one
-- that has set the expiry of the same key to the same time, was sent at a time from which the time to
-- live, less the safety margin, has not passed.
pub can_grant-IsHeld :
    (timing : Timing) (history : List Event) (generation : ℕ) (now : ℤ)
    → (can_grant generation now (run timing history)).0 ≡ true
    → IsHeld timing history generation now
can_grant-IsHeld timing history generation now agreed =
    let (same, state, valid, before) =
      asked-granted (can_grant-Asked generation now (run timing history)) agreed in
    let backed = run-IsBacked timing history state in
    let (at, now_at, early) = before_cutoff now _ valid before in
    let below = margin_below_ttl timing backed.registered.valid in
    record {
      registered = subst (IsRegistered timing history) (sym same) backed.registered;
      event = backed.event;
      among = backed.among;
      send = backed.send;
      confirmed =
          subst (λ n. IsConfirmed timing n backed.event (pos backed.send)) (sym same)
            backed.confirmed;
      at = at;
      now_at = now_at;
      in_time = omega (arith, early, below, backed.cutoff);
    }

asked-terminal :
    {generation : ℕ} {now : ℤ} {lease : Lease} {answer : Bool × Lease}
    → Asked generation now lease answer
    → lease.state ≡ LeaseState.terminal
    → (answer.0 ≡ false) × ((answer.1).state ≡ LeaseState.terminal)
asked-terminal turned_down over = (refl, over)
asked-terminal ended over = (refl, refl)
asked-terminal (granted same state valid before) over = absurd cc

module _ (timing : Timing) where
  renew_granted-terminal :
      (call : Renewal) (granting : Bool) (lease : Lease)
      → granting ≡ false
      → lease.state ≡ LeaseState.terminal
      → ((renew_granted timing call (granting, lease)).1).state ≡ LeaseState.terminal
  unfolding renew_granted
  renew_granted-terminal call false lease turned over = over
  renew_granted-terminal call true lease turned over = absurd cc

  apply-terminal :
      (event : Event) (lease : Lease)
      → lease.state ≡ LeaseState.terminal
      → (apply timing event lease).state ≡ LeaseState.terminal
  unfolding apply register renew is_unregistered
  apply-terminal (registers call) lease over = rw (register, over) refl
  apply-terminal (asks generation now) lease over =
      (asked-terminal (can_grant-Asked generation now lease) over).1
  apply-terminal (renews call) lease over =
      let (turned, still_over) =
        asked-terminal (can_grant-Asked lease.generation call.asked lease) over in
      renew_granted-terminal call _ _ turned still_over
  apply-terminal (revokes reply) lease over = revoke-terminal reply lease

  run-terminal :
      (later : List Event) (reply : Reply ℕ) (history : List Event)
      → (run timing (later ++ revokes reply ∷ history)).state ≡ LeaseState.terminal
  unfolding run apply
  run-terminal [] reply history = revoke-terminal reply (run timing history)
  run-terminal (event ∷ later) reply history =
      apply-terminal event (run timing (later ++ revokes reply ∷ history))
        (run-terminal later reply history)

-- Behind a revocation, whatever the server answers to it, no lock is granted any more, whatever other
-- calls come between, a new registration and a renewal included.
pub can_grant-revoked :
    (timing : Timing) (later : List Event) (reply : Reply ℕ) (history : List Event) (generation : ℕ)
    (now : ℤ)
    → (can_grant generation now (run timing (later ++ revokes reply ∷ history))).0 ≡ false
can_grant-revoked timing later reply history generation now =
    (asked-terminal (can_grant-Asked generation now _) (run-terminal timing later reply history)).0
