-- ===== src/Engine/Reclaim.antt =====
-- src/metadata/redis/RedisReclaimCoordinator.cpp: a reclaim whose outcome is unknown is looked up.
use sword_fs.Prelude.{
  ℕ, zero, suc, ◌+◌, ◌<◌, ◌≤◌, Bool, true, false, ◌==◌, ==_iff, if◌then◌else◌, ◌≡◌, ◌≢◌, ◌⊎◌, refl,
  inl, inr, Bool-cases, arith, subst, ◌∙◌, ap,
}
use sword_fs.Status.{Result, ok, err, Code, Status, Result-cases}
use sword_fs.Inode.{Inode}
use sword_fs.Meta.Inodes.{is_not_found}
use sword_fs.Meta.Proofs.Absent.{is_not_found_inv}

-- `IsOutcomeUnknown`
abbrev pub is_unknown_outcome : Code → Bool
is_unknown_outcome Code.outcome_unknown = true
is_unknown_outcome _ = false

-- What an attempt returns, and what a lookup behind it finds.
pub record ReclaimAttempt : Type 0 where
  pub status : Status
  pub looked_up : Result Inode

-- Behind an attempt whose outcome is unknown: a missing inode has been reclaimed, a link has revived
-- it, and else there is another attempt.
unfoldable pub reconcile : Result Inode → Status → Status
reconcile (err code) rest = if is_not_found code then ok tt else err code
reconcile (ok inode) rest = if (inode.attr).nlink == 0 then rest else ok tt

unfoldable pub after_attempt : ReclaimAttempt → Status → Status
after_attempt attempt rest = elim attempt.status [
  | ok done ↦ ok tt
  | err code ↦ if is_unknown_outcome code then reconcile attempt.looked_up rest else err code
]

-- The attempts from number `attempt` on, as many as are left.
unfoldable pub run_reclaim_from : ℕ → ℕ → (ℕ → ReclaimAttempt) → Status
run_reclaim_from zero attempt attempts = err Code.outcome_unknown
run_reclaim_from (suc left) attempt attempts =
    after_attempt (attempts attempt) (run_reclaim_from left (attempt + 1) attempts)

-- `RunReclaimWithOutcomeReconciliation`
unfoldable pub run_reclaim : ℕ → (ℕ → ReclaimAttempt) → Status
run_reclaim max_attempts attempts =
    if max_attempts == 0
    then err Code.invalid_argument
    else run_reclaim_from max_attempts 0 attempts

-- An attempt that leaves the question open: its outcome is unknown, and the inode is there without a
-- link.
pub record IsOpen (attempt : ReclaimAttempt) : Type 0 where
  pub inode : Inode
  pub unknown : attempt.status ≡ err Code.outcome_unknown
  pub looked_up : attempt.looked_up ≡ ok inode
  pub unlinked : (inode.attr).nlink ≡ 0

-- One that settles it: it succeeds, or its outcome is unknown and the inode is gone or has a link.
pub data IsSettled (attempt : ReclaimAttempt) : Type 0 where
  succeeded : attempt.status ≡ ok tt → IsSettled attempt
  gone :
      attempt.status ≡ err Code.outcome_unknown
      → attempt.looked_up ≡ err Code.not_found
      → IsSettled attempt
  revived :
      (inode : Inode)
      → attempt.status ≡ err Code.outcome_unknown
      → attempt.looked_up ≡ ok inode
      → (inode.attr).nlink ≢ 0
      → IsSettled attempt

is_outcome_unknown_inv :
    (code : Code) → is_unknown_outcome code ≡ true → code ≡ Code.outcome_unknown
is_outcome_unknown_inv Code.outcome_unknown e = refl
is_outcome_unknown_inv _ e = cc

reconcile-cases :
    (attempt : ReclaimAttempt) (rest : Status)
    → attempt.status ≡ err Code.outcome_unknown
    → reconcile attempt.looked_up rest ≡ ok tt
    → IsSettled attempt ⊎ (IsOpen attempt × (rest ≡ ok tt))
unfolding reconcile
reconcile-cases attempt rest unknown e = elim (Result-cases attempt.looked_up) [
  | inl (inode, found) ↦ elim (Bool-cases ((inode.attr).nlink == 0)) [
    | inl none_left ↦ inr (
      record {
        inode = inode;
        unknown = unknown;
        looked_up = found;
        unlinked = (==_iff _ 0).0 none_left;
      },
      rw (reconcile, found, none_left) at e,
    )
    | inr linked ↦
        inl (revived inode unknown found (λ zero_links. let met = (==_iff _ 0).1 zero_links in cc))
  ]
  | inr (code, failed) ↦ elim (Bool-cases (is_not_found code)) [
    | inl missing ↦ inl (gone unknown (failed ∙ ap err (is_not_found_inv code missing)))
    | inr other ↦ let given = rw (reconcile, failed, other) at e in absurd cc
  ]
]

after_attempt-cases :
    (attempt : ReclaimAttempt) (rest : Status)
    → after_attempt attempt rest ≡ ok tt
    → IsSettled attempt ⊎ (IsOpen attempt × (rest ≡ ok tt))
unfolding after_attempt
after_attempt-cases attempt rest e = elim (Result-cases attempt.status) [
  | inl (done, passed) ↦ inl (succeeded passed)
  | inr (code, failed) ↦ elim (Bool-cases (is_unknown_outcome code)) [
    | inl unknown ↦
        reconcile-cases attempt rest (failed ∙ ap err (is_outcome_unknown_inv code unknown))
          (rw (after_attempt, failed, unknown) at e)
    | inr known ↦ let given = rw (after_attempt, failed, known) at e in absurd cc
  ]
]

pub record IsReclaimed (first last : ℕ) (attempts : ℕ → ReclaimAttempt) : Type 0 where
  pub attempt : ℕ
  pub from_first : first ≤ attempt
  pub before_last : attempt < last
  pub open_before : (j : ℕ) → first ≤ j → j < attempt → IsOpen (attempts j)
  pub settled : IsSettled (attempts attempt)

pub here_or_later : (n j : ℕ) → n ≤ j → (n ≡ j) ⊎ (n + 1 ≤ j)
here_or_later n j first = ground arith

run_reclaim_from-IsReclaimed :
    (left attempt : ℕ) (attempts : ℕ → ReclaimAttempt)
    → run_reclaim_from left attempt attempts ≡ ok tt
    → IsReclaimed attempt (attempt + left) attempts
unfolding run_reclaim_from
run_reclaim_from-IsReclaimed zero attempt attempts e = absurd cc
run_reclaim_from-IsReclaimed (suc left) attempt attempts e =
    elim (after_attempt-cases (attempts attempt) (run_reclaim_from left (attempt + 1) attempts) e) [
      | inl settled ↦ record {
        attempt = attempt;
        from_first = omega arith;
        before_last = omega arith;
        open_before = λ j first below. absurd (omega (arith, first, below));
        settled = settled;
      }
      | inr (still_open, behind) ↦
          let later = run_reclaim_from-IsReclaimed left (attempt + 1) attempts behind in
          record {
            attempt = later.attempt;
            from_first = omega (arith, later.from_first);
            before_last = omega (arith, later.before_last);
            open_before = λ j first below. elim (here_or_later attempt j first) [
              | inl same ↦ subst (λ (n : ℕ). IsOpen (attempts n)) same still_open
              | inr beyond ↦ later.open_before j beyond below
            ];
            settled = later.settled;
          }
    ]

-- A reclaim that reports success has been settled by one of its attempts: that attempt succeeded, or
-- its outcome was unknown, and the inode was gone or had a link again. In every attempt before, the
-- outcome was unknown and the inode still there without a link.
pub run_reclaim-IsReclaimed :
    (max_attempts : ℕ) (attempts : ℕ → ReclaimAttempt)
    → run_reclaim max_attempts attempts ≡ ok tt
    → IsReclaimed 0 max_attempts attempts
unfolding run_reclaim
run_reclaim-IsReclaimed max_attempts attempts e = elim (Bool-cases (max_attempts == 0)) [
  | inl none_allowed ↦ let failed = rw (run_reclaim, none_allowed) at e in absurd cc
  | inr allowed ↦
      subst (λ (n : ℕ). IsReclaimed 0 n attempts) {x = 0 + max_attempts} (omega arith)
        (run_reclaim_from-IsReclaimed max_attempts 0 attempts (rw (run_reclaim, allowed) at e))
]
