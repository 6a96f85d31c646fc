-- ===== src/Lock/Posix/Query.antt =====
-- The search of `GetPosix` of RedisLockAuthority.cpp beside the loop of `SetPosix`.
use sword_fs.Prelude.{
  ℕ, ◌≡◌, ◌≢◌, refl, ◌↔◌, ◌⊎◌, inl, inr, true, false, List, [], ◌∷◌, none, Bool-cases, Option-cases,
}
use sword_fs.Status.{ok, err, Code}
use sword_fs.Lock.{Interval, is_unlock}
use sword_fs.Lock.Holders.{Holder, is_owner}
use sword_fs.Lock.Posix.{is_conflict, has_conflict, scan_posix, Owned, first_conflict, get_posix}

module _ (generation kernel_owner : ℕ) (interval : Interval) where
  first_conflict_iff :
      (holder : ℕ) (ranges : List Interval)
      → first_conflict generation kernel_owner interval holder ranges ≡ none
        ↔ has_conflict interval ranges ≡ false
  unfolding first_conflict has_conflict
  first_conflict_iff holder [] = (λ e. refl, λ e. refl)
  first_conflict_iff holder (x ∷ xs) = elim (Bool-cases (is_conflict interval x)) [
    | inl found ↦ rw found (λ e. cc, λ e. cc)
    | inr clear ↦ rw clear (first_conflict_iff holder xs)
  ]

  scan_refuses :
      (h : Holder) (rest : List Holder) (owned : Owned)
      → is_unlock interval.mode ≡ false
      → is_owner generation kernel_owner h ≡ false
      → has_conflict interval h.ranges ≡ true
      → scan_posix generation kernel_owner interval (h ∷ rest) owned ≡ err Code.would_block
  unfolding scan_posix
  scan_refuses h rest owned e other found = rw (e, other, found)

  scan_own :
      (h : Holder) (rest : List Holder) (owned : Owned)
      → is_owner generation kernel_owner h ≡ true
      → scan_posix generation kernel_owner interval (h ∷ rest) owned
        ≡ scan_posix generation kernel_owner interval rest
            (record { ranges = h.ranges; exists = true })
  unfolding scan_posix
  scan_own h rest owned own = rw own

  scan_clear :
      (h : Holder) (rest : List Holder) (owned : Owned)
      → is_owner generation kernel_owner h ≡ false
      → has_conflict interval h.ranges ≡ false
      → is_unlock interval.mode ≡ false
      → scan_posix generation kernel_owner interval (h ∷ rest) owned
        ≡ scan_posix generation kernel_owner interval rest owned
  unfolding scan_posix
  scan_clear h rest owned other clear locks = rw (other, clear, locks)

  module _ (h : Holder) (rest : List Holder) where
    get_own :
        is_owner generation kernel_owner h ≡ true
        → get_posix generation kernel_owner interval (h ∷ rest)
          ≡ get_posix generation kernel_owner interval rest
    unfolding get_posix
    get_own own = rw own

    get_clear :
        is_owner generation kernel_owner h ≡ false
        → has_conflict interval h.ranges ≡ false
        → get_posix generation kernel_owner interval (h ∷ rest)
          ≡ get_posix generation kernel_owner interval rest
    unfolding get_posix
    get_clear other clear = rw (other, (first_conflict_iff h.kernel_owner h.ranges).1 clear)

    get_found :
        is_owner generation kernel_owner h ≡ false
        → has_conflict interval h.ranges ≡ true
        → get_posix generation kernel_owner interval (h ∷ rest) ≢ none
    unfolding get_posix
    get_found other found none_found =
        elim (Option-cases
          (first_conflict generation kernel_owner interval h.kernel_owner h.ranges)) [
            | inl e ↦ let clear = (first_conflict_iff h.kernel_owner h.ranges).0 e in cc
            | inr (c, e) ↦ let there = rw (other, e) at none_found in cc
          ]

  -- A test for a lock reports nothing exactly where no other owner's range stands against it, so
  -- that the request for that lock passes the loop over the holders; where it reports a range, the
  -- request is refused as one that would block. The lock asked for is not an unlock.
  pub get_posix-scan_posix :
      (holders : List Holder) (owned : Owned)
      → is_unlock interval.mode ≡ false
      → ((get_posix generation kernel_owner interval holders ≡ none)
          × ((found : Owned) × (scan_posix generation kernel_owner interval holders owned
                ≡ ok found)))
        ⊎ ((get_posix generation kernel_owner interval holders ≢ none)
            × (scan_posix generation kernel_owner interval holders owned ≡ err Code.would_block))
  get_posix-scan_posix [] owned e =
      inl (unfold get_posix in refl, (owned, unfold scan_posix in refl))
  get_posix-scan_posix (h ∷ rest) owned e = elim (Bool-cases (is_owner generation kernel_owner h)) [
    | inl own ↦
        rw (get_own h rest own, scan_own h rest owned own)
          (get_posix-scan_posix rest (record { ranges = h.ranges; exists = true }) e)
    | inr other ↦ elim (Bool-cases (has_conflict interval h.ranges)) [
      | inl found ↦ inr (get_found h rest other found, scan_refuses h rest owned e other found)
      | inr clear ↦
          rw (get_clear h rest other clear, scan_clear h rest owned other clear e)
            (get_posix-scan_posix rest owned e)
    ]
  ]
