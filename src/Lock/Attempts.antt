-- ===== src/Lock/Attempts.antt =====
-- The bounded retries of `SetPosix` and `SetFlock`, around their transactions. What happens in an
-- attempt, the state of the lease and how the transaction ends, is told by the environment.
use sword_fs.Prelude.{
  ℕ, zero, suc, ◌+◌, ◌<◌, ◌≡◌, refl, sym, ap, ◌∙◌, inl, inr, Bool, true, false, not, ◌||◌,
  if◌then◌else◌, arith, Bool-cases,
}
use sword_fs.Status.{ok, err, Code, Status, fail_if, ◌>>◌, fail_if-eq-ok, >>-eq-ok}

-- `can_grant` is the answer of the lease before the transaction, `can_still_grant` that behind it;
-- `released` is the flag that the transaction of `SetFlock` sets.
pub record Attempt : Type 0 where
  pub can_grant : Bool
  pub outcome : Status
  pub saw_stale : Bool
  pub released : Bool
  pub can_still_grant : Bool

abbrev pub check_lease : Bool → Status
check_lease can_grant = fail_if (not can_grant) Code.unavailable

abbrev pub is_outcome_unknown : Status → Bool
is_outcome_unknown (err Code.outcome_unknown) = true
is_outcome_unknown _ = false

abbrev pub is_no_locks : Status → Bool
is_no_locks (err Code.no_locks) = true
is_no_locks _ = false

-- A status, and whether the stale records were cleaned up on the way to it.
pub record Reply : Type 0 where
  pub status : Status
  pub cleaned : Bool

-- `kUncertainAttempts`
abbrev pub uncertain_attempts : ℕ
uncertain_attempts = 3

-- The reply behind a transaction whose outcome is known.
unfoldable pub posix_reply : Attempt → Reply
posix_reply a = record {
  status = a.outcome >> check_lease a.can_still_grant;
  cleaned = a.saw_stale || is_no_locks a.outcome;
}

unfoldable pub flock_reply : Attempt → Reply
flock_reply a = record {
  status = a.outcome >> (check_lease a.can_still_grant >> fail_if a.released Code.would_block);
  cleaned = a.saw_stale || is_no_locks a.outcome;
}

module _ (reply : Attempt → Reply) (environment : ℕ → Attempt) where
  -- The loop, with the attempts that are left and the number of this one.
  unfoldable pub attempts : ℕ → ℕ → Reply
  attempts zero i = record { status = err Code.io_error; cleaned = false }
  attempts (suc left) i =
      let a = environment i in
      let later = attempts left (i + 1) in
      if not a.can_grant
      then record { status = err Code.unavailable; cleaned = false }
      else if is_outcome_unknown a.outcome
      then later
      else reply a

abbrev pub set_posix_attempts : (ℕ → Attempt) → Reply
set_posix_attempts environment = attempts posix_reply environment uncertain_attempts 0

abbrev pub set_flock_attempts : (ℕ → Attempt) → Reply
set_flock_attempts environment = attempts flock_reply environment uncertain_attempts 0

still : {can_grant : Bool} → check_lease can_grant ≡ ok tt → can_grant ≡ true
still e = ground (arith, fail_if-eq-ok _ _ e)

-- Attempt `i` is the one that a success stands on.
pub record IsGrantedAt (environment : ℕ → Attempt) (i : ℕ) : Type 0 where
  pub committed : (environment i).outcome ≡ ok tt
  pub held_before : (environment i).can_grant ≡ true
  pub held_after : (environment i).can_still_grant ≡ true

attempts_none :
    (reply : Attempt → Reply) (environment : ℕ → Attempt) (i : ℕ)
    → (attempts reply environment zero i).status ≡ err Code.io_error
unfolding attempts
attempts_none reply environment i = refl

module _ (reply : Attempt → Reply) (environment : ℕ → Attempt) (left i : ℕ) where
  attempts_lost :
      (environment i).can_grant ≡ false
      → (attempts reply environment (suc left) i).status ≡ err Code.unavailable
  unfolding attempts
  attempts_lost lost = rw lost

  attempts_later :
      (environment i).can_grant ≡ true
      → is_outcome_unknown (environment i).outcome ≡ true
      → attempts reply environment (suc left) i ≡ attempts reply environment left (i + 1)
  unfolding attempts
  attempts_later held unknown = rw (held, unknown)

  attempts_known :
      (environment i).can_grant ≡ true
      → is_outcome_unknown (environment i).outcome ≡ false
      → attempts reply environment (suc left) i ≡ reply (environment i)
  unfolding attempts
  attempts_known held known = rw (held, known)

module _ (reply : Attempt → Reply) (environment : ℕ → Attempt) (IsGranted : ℕ → Type 0)
    (granted : (i : ℕ)
      → (environment i).can_grant ≡ true
      → (reply (environment i)).status ≡ ok tt
      → IsGranted i) where
  attempts-IsGranted :
      (left i : ℕ)
      → (attempts reply environment left i).status ≡ ok tt
      → (k : ℕ) × (k < i + left) × IsGranted k
  attempts-IsGranted zero i e = let refused = attempts_none reply environment i in absurd (cc)
  attempts-IsGranted (suc left) i e = elim (Bool-cases (environment i).can_grant) [
    | inr lost ↦ let refused = attempts_lost reply environment left i lost in absurd (cc)
    | inl held ↦ elim (Bool-cases (is_outcome_unknown (environment i).outcome)) [
      | inl unknown ↦
          let (k, below, there) =
            attempts-IsGranted left (i + 1) (
              sym (ap (λ r. r.status) (attempts_later reply environment left i held unknown))
              ∙ e) in
          (k, (omega arith), there)
      | inr known ↦ (
        i,
        omega arith,
        granted i held
            (sym (ap (λ r. r.status) (attempts_known reply environment left i held known)) ∙ e),
      )
    ]
  ]

module _ (environment : ℕ → Attempt) where
  posix_granted :
      (i : ℕ)
      → (environment i).can_grant ≡ true
      → (posix_reply (environment i)).status ≡ ok tt
      → IsGrantedAt environment i
  unfolding posix_reply
  posix_granted i held e =
      let (committed, after) = >>-eq-ok (environment i).outcome _ e in
      record { committed = committed; held_before = held; held_after = still after }

  flock_granted :
      (i : ℕ)
      → (environment i).can_grant ≡ true
      → (flock_reply (environment i)).status ≡ ok tt
      → IsGrantedAt environment i × ((environment i).released ≡ false)
  unfolding flock_reply
  flock_granted i held e =
      let (committed, behind) = >>-eq-ok (environment i).outcome _ e in
      let (after, kept) = >>-eq-ok (check_lease (environment i).can_still_grant) _ behind in
      (
        record { committed = committed; held_before = held; held_after = still after },
        fail_if-eq-ok (environment i).released Code.would_block kept,
      )

  -- Where `SetPosix` reports success, one of its three attempts committed its transaction, with the
  -- lease of the mount valid before it and behind it.
  pub set_posix_attempts-IsGrantedAt :
      (set_posix_attempts environment).status ≡ ok tt
      → (k : ℕ) × (k < uncertain_attempts) × IsGrantedAt environment k
  set_posix_attempts-IsGrantedAt e =
      attempts-IsGranted posix_reply environment (IsGrantedAt environment) posix_granted
        uncertain_attempts 0 e

  -- Where `SetFlock` reports success, one of its three attempts committed its transaction, with the
  -- lease of the mount valid before it and behind it, and that transaction did not give a lock up.
  pub set_flock_attempts-IsGrantedAt :
      (set_flock_attempts environment).status ≡ ok tt
      → (k : ℕ) × (k < uncertain_attempts)
        × (IsGrantedAt environment k × ((environment k).released ≡ false))
  set_flock_attempts-IsGrantedAt e =
      attempts-IsGranted flock_reply environment
        (λ k. IsGrantedAt environment k × ((environment k).released ≡ false)) flock_granted
        uncertain_attempts 0 e
