-- ===== src/Lock/Lease/Changes.antt =====
-- What a call of a lease does where the lease is active behind it.
use sword_fs.Prelude.{
  ℕ, ◌+◌, ◌-◌, ◌≡◌, ◌⊎◌, inl, inr, refl, sym, ap, ◌∙◌, subst, Bool, true, false, ◌||◌, not, ltb,
  ◌==◌, ==_iff, Bool-cases, either_false, not-false, List, [], ◌∷◌,
}
use sword_fs.Prelude.Int.{ℤ, pos, negsuc, is_negative}
use sword_fs.Status.{Result, ok, err, Code, Status, fail_if, fail_if-eq-ok, Result-cases}
use sword_fs.Status
use sword_fs.Engine.Transact.{transact}
use sword_fs.Engine.Client.{Reply, replied, refused, unreachable, changing}
use sword_fs.Engine.Reclaim.{is_unknown_outcome}
use sword_fs.Prelude.Text.{Text}
use sword_fs.Lock.Lease.{
  SetLease, ExpireLease, LeaseState, Timing, Lease, validate_timing, allocate_generation, created,
  create_owner_lease, renewed, renew_owner_lease, int64_max, lifetime_ns, cutoff_of, is_past,
  is_active, is_unregistered, terminated, can_grant, ask_all, Registration, with_heartbeat,
  confirm_registration, send_registration, register_generation, register_valid, register, Renewal,
  store_cutoff, left_uncertain, after_reply, send_renewal, renew_granted, renew,
}

-- How a question is answered
pub data Asked (generation : ℕ) (now : ℤ) (lease : Lease) : Bool × Lease → Type 0 where
  turned_down : Asked generation now lease (false, lease)
  ended : Asked generation now lease (false, terminated lease)
  granted :
      generation ≡ lease.generation
      → lease.state ≡ LeaseState.active
      → is_negative now ≡ false
      → is_past now lease.cutoff_ns ≡ false
      → Asked generation now lease (true, lease)

is_active_inv : (state : LeaseState) → is_active state ≡ true → state ≡ LeaseState.active
unfolding is_active
is_active_inv LeaseState.active e = refl
is_active_inv _ e = cc

pub can_grant-Asked :
    (generation : ℕ) (now : ℤ) (lease : Lease)
    → Asked generation now lease (can_grant generation now lease)
unfolding can_grant
can_grant-Asked generation now lease =
    elim (Bool-cases
      (generation == 0 || not (generation == lease.generation) || not (is_active lease.state))) [
        | inl other ↦ rw (can_grant, other) turned_down
        | inr own ↦ elim (Bool-cases (is_negative now || is_past now lease.cutoff_ns)) [
          | inl late ↦ rw (can_grant, own, late) ended
          | inr early ↦
              let (numbered, state) = either_false _ _ own in
              let (_, same) = either_false _ _ numbered in
              let (valid, before) = either_false _ _ early in
              rw (can_grant, own, early)
                (granted ((==_iff _ _).0 (not-false _ same)) (is_active_inv _ (not-false _ state))
                  valid before)
        ]
      ]

-- Behind a question the lease is active only where nothing has changed.
pub asked-keeps :
    {generation : ℕ} {now : ℤ} {lease : Lease} {answer : Bool × Lease}
    → Asked generation now lease answer
    → (answer.1).state ≡ LeaseState.active
    → answer.1 ≡ lease
asked-keeps turned_down active = refl
asked-keeps ended active = absurd cc
asked-keeps (granted same state valid before) active = refl

pub asked-granted :
    {generation : ℕ} {now : ℤ} {lease : Lease} {answer : Bool × Lease}
    → Asked generation now lease answer
    → answer.0 ≡ true
    → (generation ≡ lease.generation)
      × (lease.state ≡ LeaseState.active)
      × (is_negative now ≡ false)
      × (is_past now lease.cutoff_ns ≡ false)
asked-granted turned_down agreed = absurd cc
asked-granted ended agreed = absurd cc
asked-granted (granted same state valid before) agreed = (same, state, valid, before)

ask_all-keeps :
    (questions : List (ℕ × ℤ)) (lease : Lease)
    → (ask_all questions lease).state ≡ LeaseState.active
    → ask_all questions lease ≡ lease
unfolding ask_all
ask_all-keeps [] lease active = refl
ask_all-keeps ((generation, now) ∷ questions) lease active =
    let same = ask_all-keeps questions ((can_grant generation now lease).1) active in
    same
    ∙ asked-keeps (can_grant-Asked generation now lease) (sym (ap (λ l. l.state) same) ∙ active)

created-true : (r : Reply Bool) → Status.◌>>=◌ (changing r) created ≡ ok tt → r ≡ replied true
unfolding changing
created-true (replied true) e = refl
created-true (replied false) e = absurd cc
created-true refused e = absurd cc
created-true unreachable e = absurd cc

create_owner_lease-eq-ok :
    (generation : ℕ) (nonce : Text) (ttl : ℕ) (reply : SetLease → Reply Bool)
    → create_owner_lease generation nonce ttl reply ≡ ok tt
    → reply (record { generation = generation; nonce = nonce; px = ttl }) ≡ replied true
unfolding create_owner_lease
create_owner_lease-eq-ok generation nonce ttl reply done = elim (Bool-cases (ttl == 0)) [
  | inl zero_ttl ↦ let failed = rw (create_owner_lease, zero_ttl) at done in absurd cc
  | inr timed ↦ created-true _ (rw (create_owner_lease, timed) at done)
]

renewed-one : (r : Reply ℕ) → Status.◌>>=◌ (changing r) renewed ≡ ok tt → r ≡ replied 1
unfolding changing
renewed-one (replied count) e = ap replied ((==_iff count 1).0 (not-false _ (fail_if-eq-ok _ _ e)))
renewed-one refused e = absurd cc
renewed-one unreachable e = absurd cc

renew_owner_lease-eq-ok :
    (generation ttl : ℕ) (reply : ExpireLease → Reply ℕ)
    → renew_owner_lease generation ttl reply ≡ ok tt
    → reply (record { generation = generation; milliseconds = ttl }) ≡ replied 1
unfolding renew_owner_lease
renew_owner_lease-eq-ok generation ttl reply done = elim (Bool-cases (ttl == 0)) [
  | inl zero_ttl ↦ let failed = rw (renew_owner_lease, zero_ttl) at done in absurd cc
  | inr timed ↦ renewed-one _ (rw (renew_owner_lease, timed) at done)
]

-- The commands that the server is asked to carry out, for the timing and a generation
abbrev pub set_of : Timing → Registration → ℕ → SetLease
set_of timing call generation = record {
  generation = generation;
  nonce = call.nonce;
  px = timing.ttl;
}

abbrev pub expire_of : Timing → ℕ → ExpireLease
expire_of timing generation = record { generation = generation; milliseconds = timing.ttl }

cutoff_of-eq-ok :
    (timing : Timing) (time : ℤ) {cutoff : ℕ}
    → cutoff_of timing time ≡ ok cutoff
    → (send : ℕ) × (time ≡ pos send) × (cutoff ≡ send + lifetime_ns timing)
unfolding cutoff_of
cutoff_of-eq-ok timing (negsuc n) found = absurd cc
cutoff_of-eq-ok timing (pos send) found =
    elim (Bool-cases (ltb (int64_max - lifetime_ns timing) send)) [
      | inl beyond ↦ let failed = rw beyond at found in absurd cc
      | inr within ↦ let same = rw within at found in (send, refl, cc)
    ]

-- A registration that has made the lease what it is
pub record IsRegistration (timing : Timing) (call : Registration) (lease : Lease) : Type 0 where
  pub valid : validate_timing timing ≡ ok tt
  pub allocated :
      (transact allocate_generation 1 call.allocation_rounds).status ≡ ok lease.generation
  pub acknowledged : call.reply (set_of timing call lease.generation) ≡ replied true
  pub send : ℕ
  pub sent : call.send_time ≡ pos send
  pub cutoff : lease.cutoff_ns ≡ send + lifetime_ns timing

-- A renewal that has stored a cutoff
pub record IsRenewal (timing : Timing) (call : Renewal) (generation cutoff_ns : ℕ) : Type 0 where
  pub acknowledged : call.reply (expire_of timing generation) ≡ replied 1
  pub send : ℕ
  pub sent : call.send_time ≡ pos send
  pub cutoff : cutoff_ns ≡ send + lifetime_ns timing

with_heartbeat-active :
    (starts : Bool) (lease : Lease)
    → ((with_heartbeat starts lease).1).state ≡ LeaseState.active
    → (with_heartbeat starts lease).1 ≡ lease
with_heartbeat-active true lease active = refl
with_heartbeat-active false lease active = absurd cc

module _ (timing : Timing) where
  confirm_registration-active :
      (call : Registration) (lease : Lease) (generation cutoff : ℕ) (status : Status)
      → ((confirm_registration timing call lease generation cutoff status).1).state
        ≡ LeaseState.active
      → (status ≡ ok tt)
        × ((confirm_registration timing call lease generation cutoff status).1 ≡ record lease {
          state = LeaseState.active;
          generation = generation;
          cutoff_ns = cutoff;
        })
  unfolding confirm_registration
  confirm_registration-active call lease generation cutoff (err code) active = absurd cc
  confirm_registration-active call lease generation cutoff (ok tt) active =
      elim (Bool-cases (is_past call.received cutoff)) [
        | inl late ↦ let failed = rw late at active in absurd cc
        | inr early ↦
            (refl, rw early (with_heartbeat-active call.starts_heartbeat _ (rw early at active)))
      ]

  register_valid-active :
      (call : Registration) (lease : Lease) (status : Status)
      → status ≡ validate_timing timing
      → ((register_valid timing call lease status).1).state ≡ LeaseState.active
      → IsRegistration timing call ((register_valid timing call lease status).1)
  unfolding register_valid register_generation send_registration
  register_valid-active call lease (err code) valid active = absurd cc
  register_valid-active call lease (ok tt) valid active =
      elim (Result-cases ((transact allocate_generation 1 call.allocation_rounds).status)) [
        | inr (code, failed) ↦ let ended = rw failed at active in absurd cc
        | inl (generation, allocated) ↦ elim (Result-cases (cutoff_of timing call.send_time)) [
          | inr (code, failed) ↦ let ended = rw (allocated, failed) at active in absurd cc
          | inl (cutoff, found) ↦
              let (acknowledged, same) =
                confirm_registration-active call lease generation cutoff _
                  (rw (allocated, found) at active) in
              let (send, sent, sum) = cutoff_of-eq-ok timing call.send_time found in
              rw (allocated, found)
                (subst (IsRegistration timing call) (sym same) (record {
                  valid = sym valid;
                  allocated = allocated;
                  acknowledged =
                      create_owner_lease-eq-ok generation call.nonce timing.ttl call.reply
                        acknowledged;
                  send = send;
                  sent = sent;
                  cutoff = sum;
                }))
        ]
      ]

  pub register-active :
      (call : Registration) (lease : Lease)
      → ((register timing call lease).1).state ≡ LeaseState.active
      → ((register timing call lease).1 ≡ lease)
        ⊎ IsRegistration timing call ((register timing call lease).1)
  unfolding register
  register-active call lease active = elim (Bool-cases (not (is_unregistered lease.state))) [
    | inl other ↦ inl (rw (register, other) refl)
    | inr first ↦ inr (
        rw (register, first)
          (register_valid-active call lease _ refl (rw (register, first) at active)))
  ]

abbrev pub with_cutoff : ℕ → Lease → Lease
with_cutoff cutoff lease = record lease { cutoff_ns = cutoff }

store_cutoff-active :
    (call : Renewal) (cutoff : ℕ) {generation : ℕ} {now : ℤ} {lease : Lease} {answer : Bool × Lease}
    → Asked generation now lease answer
    → ((store_cutoff call cutoff answer).1).state ≡ LeaseState.active
    → (store_cutoff call cutoff answer).1 ≡ with_cutoff cutoff lease
unfolding store_cutoff
store_cutoff-active call cutoff turned_down active = absurd cc
store_cutoff-active call cutoff ended active = absurd cc
store_cutoff-active call cutoff {lease = lease} (granted same state valid before) active =
    elim (Bool-cases (is_past call.received cutoff)) [
      | inl late ↦ let failed = rw late at active in absurd cc
      | inr early ↦
          rw early
            (ap (with_cutoff cutoff) (ask_all-keeps call.before_store lease (rw early at active)))
    ]

left_uncertain-active :
    {generation : ℕ} {now : ℤ} {lease : Lease} {answer : Bool × Lease}
    → Asked generation now lease answer
    → ((left_uncertain answer).1).state ≡ LeaseState.active
    → (left_uncertain answer).1 ≡ lease
left_uncertain-active turned_down active = refl
left_uncertain-active ended active = absurd cc
left_uncertain-active (granted same state valid before) active = refl

-- What the reply to a renewal leads to
after_reply-active :
    (call : Renewal) (cutoff : ℕ) (lease : Lease) (status : Status)
    → ((after_reply call cutoff lease status).1).state ≡ LeaseState.active
    → ((after_reply call cutoff lease status).1 ≡ lease)
      ⊎ ((status ≡ ok tt) × ((after_reply call cutoff lease status).1 ≡ with_cutoff cutoff lease))
unfolding after_reply
after_reply-active call cutoff lease (ok tt) active =
    inr (refl, store_cutoff-active call cutoff (can_grant-Asked _ call.asked_again lease) active)
after_reply-active call cutoff lease (err code) active =
    elim (Bool-cases (is_unknown_outcome code)) [
      | inl unknown ↦ inl (
          rw unknown (
            left_uncertain-active (can_grant-Asked _ call.asked_again lease)
              (rw unknown at active)))
      | inr known ↦ let failed = rw known at active in absurd cc
    ]

module _ (timing : Timing) where
  send_renewal-active :
      (call : Renewal) (lease : Lease)
      → ((send_renewal timing call lease (cutoff_of timing call.send_time)).1).state
        ≡ LeaseState.active
      → ((send_renewal timing call lease (cutoff_of timing call.send_time)).1 ≡ lease)
        ⊎ ((cutoff : ℕ) × ((send_renewal timing call lease (cutoff_of timing call.send_time)).1
              ≡ with_cutoff cutoff lease)
            × IsRenewal timing call lease.generation cutoff)
  unfolding send_renewal
  send_renewal-active call lease active = elim (Result-cases (cutoff_of timing call.send_time)) [
    | inr (code, failed) ↦ let ended = rw failed at active in absurd cc
    | inl (cutoff, found) ↦
        let reply : Status = renew_owner_lease lease.generation timing.ttl call.reply in
        let asked : Lease = ask_all call.meanwhile lease in
        let still : ((after_reply call cutoff asked reply).1).state ≡ LeaseState.active =
          rw found at active in
        elim (after_reply-active call cutoff asked reply still) [
          | inl same ↦
              let kept =
                ask_all-keeps call.meanwhile lease (sym (ap (λ l. l.state) same) ∙ still) in
              inl (rw found (same ∙ kept))
          | inr (acknowledged, same) ↦
              let kept =
                ask_all-keeps call.meanwhile lease (sym (ap (λ l. l.state) same) ∙ still) in
              let (send, sent, sum) = cutoff_of-eq-ok timing call.send_time found in
              inr (
                cutoff,
                rw found (same ∙ ap (with_cutoff cutoff) kept),
                record {
                  acknowledged =
                      renew_owner_lease-eq-ok lease.generation timing.ttl call.reply acknowledged;
                  send = send;
                  sent = sent;
                  cutoff = sum;
                },
              )
        ]
  ]

  renew_granted-active :
      (call : Renewal) {generation : ℕ} {lease : Lease} {answer : Bool × Lease}
      → Asked generation call.asked lease answer
      → ((renew_granted timing call answer).1).state ≡ LeaseState.active
      → ((renew_granted timing call answer).1 ≡ lease)
        ⊎ ((cutoff : ℕ) × ((renew_granted timing call answer).1 ≡ with_cutoff cutoff lease)
            × IsRenewal timing call lease.generation cutoff)
  unfolding renew_granted
  renew_granted-active call turned_down active = inl refl
  renew_granted-active call ended active = absurd cc
  renew_granted-active call {lease = lease} (granted same state valid before) active =
      send_renewal-active call lease active

  pub renew-active :
      (call : Renewal) (lease : Lease)
      → ((renew timing call lease).1).state ≡ LeaseState.active
      → ((renew timing call lease).1 ≡ lease)
        ⊎ ((cutoff : ℕ) × ((renew timing call lease).1 ≡ with_cutoff cutoff lease)
            × IsRenewal timing call lease.generation cutoff)
  unfolding renew
  renew-active call lease active =
      renew_granted-active call (can_grant-Asked lease.generation call.asked lease) active
