-- ===== src/Lock/Posix/Exclusion.antt =====
-- The transaction of `SetPosix` of RedisLockAuthority.cpp and its write, on the holders of an inode.
use sword_fs.Prelude.{
  ℕ, ◌<◌, ◌≡◌, refl, sym, ap, ◌∙◌, subst, ◌⊎◌, inl, inr, Bool, true, false, List, [], ◌∷◌, Elem,
  All, All-Elem, lt-or-le, Bool-cases,
}
use sword_fs.Status.{ok, Code, ok_injective, fail_if, >>-eq-ok, >>=-eq-ok}
use sword_fs.Lock.{Interval, is_unlock, Format, update_ranges, updated_ranges}
use sword_fs.Lock.Ranges.{IsCanonical, mode_at}
use sword_fs.Lock.Update.{
  lock_inside, lock_outside, updated_ranges-IsCanonical, updated_ranges-mode, update_ranges_inv,
}
use sword_fs.Lock.Holders.{Holder, Write, is_owner, set_state, LockHash, commit}
use sword_fs.Lock.Owners.{owner_iff, owner_same, owner_apart}
use sword_fs.Lock.Posix.{scan_posix, Owned, set_posix, posix_record}
use sword_fs.Lock.Posix.Scan.{
  clash, clash_comm, IsLocked, no_clash, IsAllowed, IsOrigin, scan_posix_inv,
}

module _ (format : Format) (generation kernel_owner : ℕ) (interval : Interval)
    (holders : List Holder) (stored_fields : ℕ) where
  -- What an accepted request writes.
  record IsAccepted (write : Write) : Type 0 where
    owned : Owned
    scanned :
        scan_posix generation kernel_owner interval holders (record { ranges = []; exists = false })
        ≡ ok owned
    written :
        write
        ≡ set_state generation kernel_owner
            (posix_record generation kernel_owner interval (updated_ranges owned.ranges interval))
            owned.exists

  set_posix-IsAccepted :
      {write : Write}
      → set_posix generation kernel_owner interval format holders stored_fields ≡ ok write
      → IsAccepted write
  unfolding set_posix
  set_posix-IsAccepted e =
      let (owned, scanned, behind) =
        >>=-eq-ok (scan_posix generation kernel_owner interval holders _) _ e in
      let (next, fits, last) = >>=-eq-ok (update_ranges format owned.ranges interval) _ behind in
      let (room, done) = >>-eq-ok (fail_if _ Code.no_locks) _ last in
      record {
        owned = owned;
        scanned = scanned;
        written =
            rw (← (update_ranges_inv format owned.ranges interval fits).0)
              (sym (ok_injective done));
      }

  module _ (locked : IsLocked holders) (filled : interval.start < interval.end)
      {found : List Interval}
      (origin : IsOrigin generation kernel_owner interval holders [] found) where
    found-IsCanonical : IsCanonical found
    found-IsCanonical = elim origin [
      | inl none_held ↦ subst IsCanonical (sym none_held) (tt, tt)
      | inr (h, there, own, same) ↦ subst IsCanonical (sym same) (locked.canonical h there)
    ]

    -- Before the request, what the owner held clashed with no other owner.
    found-exclusive :
        (k : Holder) (b : ℕ)
        → Elem k holders
        → is_owner generation kernel_owner k ≡ false
        → clash (mode_at found b) (mode_at k.ranges b) ≡ false
    found-exclusive k b there other = elim origin [
      | inl none_held ↦ rw none_held (unfold mode_at in refl)
      | inr (h, held, own, same) ↦
          rw same
            (locked.exclusive h k b held there (owner_apart generation kernel_owner h k own other))
    ]

    -- Nor does it after the request.
    updated-exclusive :
        All (IsAllowed generation kernel_owner interval) holders
        → (k : Holder) (b : ℕ) → Elem k holders
        → is_owner generation kernel_owner k ≡ false
        → clash (mode_at (updated_ranges found interval) b) (mode_at k.ranges b) ≡ false
    updated-exclusive allowed k b there other =
        rw (updated_ranges-mode found interval found-IsCanonical filled b)
          (elim (lt-or-le b interval.start) [
            | inl low ↦
                rw (lock_outside interval found b (inl low)) (found-exclusive k b there other)
            | inr above ↦ elim (lt-or-le b interval.end) [
              | inr high ↦
                  rw (lock_outside interval found b (inr high)) (found-exclusive k b there other)
              | inl inside ↦
                  rw (lock_inside interval found b above inside)
                    (elim (All-Elem _ k holders allowed there) [
                      | inl own ↦ absurd (cc)
                      | inr (inl unlocks) ↦ rw unlocks refl
                      | inr (inr free) ↦ elim (Bool-cases (is_unlock interval.mode)) [
                        | inl unlocks ↦ rw unlocks refl
                        | inr locks ↦ rw locks (no_clash interval k.ranges b free above inside)
                      ]
                    ])
            ]
          ])

module _ (hash : LockHash) (s : hash.Store) (generation kernel_owner : ℕ)
    (interval : Interval) where
  -- After the write a holder is another owner's, as before, or the requester's with its new ranges.
  commit-holders :
      (next : List Interval) (exists : Bool) (h : Holder)
      → Elem h (
          hash.holders (
            commit hash
              (set_state generation kernel_owner
                (posix_record generation kernel_owner interval next)
                exists)
              s))
      → (Elem h (hash.holders s) × (is_owner generation kernel_owner h ≡ false))
        ⊎ ((h.ranges ≡ next) × (is_owner generation kernel_owner h ≡ true))
  unfolding commit set_state
  commit-holders [] true h e = inl (hash.holders-hdel h generation kernel_owner s e)
  commit-holders [] false h e = inl (hash.holders-hdel h generation kernel_owner s e)
  commit-holders (x ∷ xs) exists h e = elim (hash.holders-hset h _ s e) [
    | inr kept ↦ inl kept
    | inl new ↦ inr (
      ap (λ k. k.ranges) new,
      (owner_iff generation kernel_owner h).1
          (ap (λ k. k.generation) new, ap (λ k. k.kernel_owner) new),
    )
  ]

  commit-IsLocked :
      (next : List Interval) (exists : Bool)
      → IsLocked (hash.holders s)
      → IsCanonical next
      → ((k : Holder) (b : ℕ)
          → Elem k (hash.holders s)
          → is_owner generation kernel_owner k ≡ false
          → clash (mode_at next b) (mode_at k.ranges b) ≡ false)
      → IsLocked (
          hash.holders (
            commit hash
              (set_state generation kernel_owner
                (posix_record generation kernel_owner interval next)
                exists)
              s))
  commit-IsLocked next exists locked canonical free = record {
    canonical = λ h there. elim (commit-holders next exists h there) [
      | inl (old, other) ↦ locked.canonical h old
      | inr (new, own) ↦ subst IsCanonical (sym new) canonical
    ];
    exclusive = λ h k b at_h at_k apart. elim (commit-holders next exists h at_h) [
      | inl (old, other) ↦ elim (commit-holders next exists k at_k) [
        | inl (also_old, also_other) ↦ locked.exclusive h k b old also_old apart
        | inr (new, own) ↦ rw new (clash_comm _ (mode_at next b) ∙ free h b old other)
      ]
      | inr (new, own) ↦ elim (commit-holders next exists k at_k) [
        | inl (old, other) ↦ rw new (free k b old other)
        | inr (also_new, also_own) ↦
            let same = owner_same generation kernel_owner h k own also_own in absurd (cc)
      ]
    ];
  }

module _ (hash : LockHash) (format : Format) (generation kernel_owner : ℕ) (interval : Interval)
    (s : hash.Store) (stored_fields : ℕ) where
  -- Mutual exclusion. Where the holders of an inode are canonical and clash nowhere, and the
  -- request's interval is not empty, a transaction of `SetPosix` that is accepted leaves them so.
  pub set_posix-IsLocked :
      {write : Write}
      → interval.start < interval.end
      → IsLocked (hash.holders s)
      → set_posix generation kernel_owner interval format (hash.holders s) stored_fields ≡ ok write
      → IsLocked (hash.holders (commit hash write s))
  set_posix-IsLocked filled locked e =
      let accepted =
        set_posix-IsAccepted format generation kernel_owner interval (hash.holders s) stored_fields
          e in
      let (allowed, origin) =
        scan_posix_inv generation kernel_owner interval (hash.holders s) _ accepted.scanned in
      let found = accepted.owned.ranges in
      let canonical =
        found-IsCanonical format generation kernel_owner interval (hash.holders s) stored_fields
          locked filled origin in
      rw accepted.written (
        commit-IsLocked hash s generation kernel_owner interval (updated_ranges found interval)
          accepted.owned.exists locked (updated_ranges-IsCanonical found interval canonical filled)
          (updated-exclusive format generation kernel_owner interval (hash.holders s) stored_fields
            locked filled origin allowed))
