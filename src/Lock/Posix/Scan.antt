-- ===== src/Lock/Posix/Scan.antt =====
-- The loop of `SetPosix` over the holders: when two owners' locks clash, and what a scan that passes
-- has checked.
use sword_fs.Prelude.{
  ℕ, ◌≤◌, ◌<◌, ◌≡◌, refl, sym, ap, ◌⊎◌, inl, inr, Bool, true, false, not, ◌&&◌, ◌||◌, if◌then◌else◌,
  List, [], ◌∷◌, Option, none, some, Elem, All, arith, lt-or-le, lt→ltb, Bool-cases,
}
use sword_fs.Prelude.Int.{ℤ}
use sword_fs.Status.{ok, Code, ok_injective, fail_if, fail_if-eq-ok, >>-eq-ok}
use sword_fs.Lock.{PosixType, Interval, overlaps, is_unlock}
use sword_fs.Lock.Ranges.{IsCanonical, mode_at, mode_in, mode_low, mode_high}
use sword_fs.Lock.Holders.{Holder, is_owner, same_owner}
use sword_fs.Lock.Posix.{is_write, is_conflict, has_conflict, scan_posix, Owned}

-- Two owners may not hold a byte like this.
abbrev pub clash : Option (PosixType × ℤ) → Option (PosixType × ℤ) → Bool
clash none n = false
clash (some m) none = false
clash (some m) (some n) = is_write m.0 || is_write n.0

pub clash_comm : (m n : Option (PosixType × ℤ)) → clash m n ≡ clash n m
clash_comm none none = refl
clash_comm none (some n) = refl
clash_comm (some m) none = refl
clash_comm (some m) (some n) = ground arith

pub clash-none : (m : Option (PosixType × ℤ)) → clash m none ≡ false
clash-none none = refl
clash-none (some m) = refl

-- Each holder's ranges are canonical, and no two owners' locks clash on any byte.
pub record IsLocked (holders : List Holder) : Type 0 where
  pub canonical : (h : Holder) → Elem h holders → IsCanonical h.ranges
  pub exclusive :
      (h k : Holder) (b : ℕ)
      → Elem h holders
      → Elem k holders
      → same_owner h k ≡ false
      → clash (mode_at h.ranges b) (mode_at k.ranges b) ≡ false

has_conflict_cons :
    (interval x : Interval) (xs : List Interval)
    → has_conflict interval (x ∷ xs) ≡ false
    → (is_conflict interval x ≡ false) × (has_conflict interval xs ≡ false)
unfolding has_conflict
has_conflict_cons interval x xs e = ground arith

is_conflict_at :
    (interval x : Interval) (b : ℕ)
    → is_conflict interval x ≡ false
    → interval.start ≤ b
    → b < interval.end
    → x.start ≤ b
    → b < x.end
    → (is_write interval.mode || is_write x.mode) ≡ false
unfolding is_conflict overlaps
is_conflict_at interval x b e h k a c =
    rw (sym e, lt→ltb interval.start x.end (omega arith), lt→ltb x.start interval.end (omega arith))

-- A request that no stored range stands against clashes with none of them.
pub no_clash :
    (interval : Interval) (ranges : List Interval) (b : ℕ)
    → has_conflict interval ranges ≡ false
    → interval.start ≤ b
    → b < interval.end
    → clash (some (interval.mode, interval.pid)) (mode_at ranges b) ≡ false
no_clash interval [] b e h k = unfold mode_at in refl
no_clash interval (x ∷ xs) b e h k =
    let (here, later) = has_conflict_cons interval x xs e in
    elim (lt-or-le b x.start) [
      | inl low ↦ rw (mode_low x xs b low) (no_clash interval xs b later h k)
      | inr above ↦ elim (lt-or-le b x.end) [
        | inr high ↦ rw (mode_high x xs b high) (no_clash interval xs b later h k)
        | inl below ↦
            rw (mode_in x xs b above below) (is_conflict_at interval x b here h k above below)
      ]
    ]

module _ (generation kernel_owner : ℕ) (interval : Interval) where
  -- A scanned holder is the requester itself, or the request has nothing against it.
  abbrev pub IsAllowed : Holder → Type 0
  IsAllowed h =
      (is_owner generation kernel_owner h ≡ true)
      ⊎ ((is_unlock interval.mode ≡ true) ⊎ (has_conflict interval h.ranges ≡ false))

  -- Where the ranges that the scan ends with come from.
  abbrev pub IsOrigin : List Holder → List Interval → List Interval → Type 0
  IsOrigin holders before after =
      (after ≡ before)
      ⊎ ((h : Holder) × Elem h holders
          × (is_owner generation kernel_owner h ≡ true)
          × (after ≡ h.ranges))

  allowed :
      (own unlocks conflict : Bool)
      → fail_if (not own && not unlocks && conflict) Code.would_block ≡ ok tt
      → (own ≡ true) ⊎ ((unlocks ≡ true) ⊎ (conflict ≡ false))
  allowed own unlocks conflict e = ground (arith, fail_if-eq-ok _ _ e)

  scan_step :
      (h : Holder) (rest : List Holder) (owned : Owned) {found : Owned}
      → scan_posix generation kernel_owner interval (h ∷ rest) owned ≡ ok found
      → IsAllowed h
        × (scan_posix generation kernel_owner interval rest (
              if is_owner generation kernel_owner h
              then record { ranges = h.ranges; exists = true }
              else owned)
            ≡ ok found)
  unfolding scan_posix
  scan_step h rest owned e =
      let (passed, later) = >>-eq-ok (fail_if _ Code.would_block) _ e in
      (allowed (is_owner generation kernel_owner h) (is_unlock interval.mode) _ passed, later)

  scan_end :
      (owned : Owned) {found : Owned}
      → scan_posix generation kernel_owner interval [] owned ≡ ok found
      → found.ranges ≡ owned.ranges
  unfolding scan_posix
  scan_end owned e = sym (ap (λ o. o.ranges) (ok_injective e))

  pub scan_posix_inv :
      (holders : List Holder) (owned : Owned) {found : Owned}
      → scan_posix generation kernel_owner interval holders owned ≡ ok found
      → All IsAllowed holders × IsOrigin holders owned.ranges found.ranges
  scan_posix_inv [] owned e = (tt, inl (scan_end owned e))
  scan_posix_inv (h ∷ rest) owned e =
      let (first, later) = scan_step h rest owned e in
      elim (Bool-cases (is_owner generation kernel_owner h)) [
        | inl own ↦
            let mine : Owned = record { ranges = h.ranges; exists = true } in
            let (others, origin) = scan_posix_inv rest mine (rw own at later) in
            (
              (first, others),
              elim origin [
                | inl same ↦ inr (h, inl refl, own, same)
                | inr (k, there, its, same) ↦ inr (k, inr there, its, same)
              ],
            )
        | inr other ↦
            let (others, origin) = scan_posix_inv rest owned (rw other at later) in
            (
              (first, others),
              elim origin [
                | inl same ↦ inl same
                | inr (k, there, its, same) ↦ inr (k, inr there, its, same)
              ],
            )
      ]
