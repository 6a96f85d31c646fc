-- ===== src/Lock/Flock/Exclusive.antt =====
-- The transaction of `SetFlock` of RedisLockAuthority.cpp and its write, on the holders of an inode.
use sword_fs.Prelude.{
  ℕ, ◌≡◌, refl, sym, ap, ◌∙◌, ◌⊎◌, inl, inr, Bool, true, false, not, ◌&&◌, ◌||◌, if◌then◌else◌,
  List, [], ◌∷◌, none, Elem, All, All-Elem, arith, Bool-cases,
}
use sword_fs.Status.{ok, Code, ok_injective, fail_if, >>-eq-ok}
use sword_fs.Lock.Holders.{Holder, FlockType, is_owner, same_owner, set_state, LockHash, commit}
use sword_fs.Lock.Owners.{owner_iff, owner_same}
use sword_fs.Lock.Flock.{
  same_type, Scan, FlockChange, scan_flock, flock_record, finish_flock, set_flock,
}

-- Two owners may not hold a file like this.
abbrev pub clash : FlockType → FlockType → Bool
clash FlockType.unlock n = false
clash m FlockType.unlock = false
clash m n = same_type m FlockType.exclusive || same_type n FlockType.exclusive

clash_comm : (m n : FlockType) → clash m n ≡ clash n m
clash_comm FlockType.unlock FlockType.unlock = refl
clash_comm FlockType.unlock FlockType.shared = refl
clash_comm FlockType.unlock FlockType.exclusive = refl
clash_comm FlockType.shared FlockType.unlock = refl
clash_comm FlockType.shared FlockType.shared = refl
clash_comm FlockType.shared FlockType.exclusive = refl
clash_comm FlockType.exclusive FlockType.unlock = refl
clash_comm FlockType.exclusive FlockType.shared = refl
clash_comm FlockType.exclusive FlockType.exclusive = refl

-- No two owners' locks clash.
abbrev pub IsExclusive : List Holder → Type 0
IsExclusive holders =
    (h k : Holder)
    → Elem h holders
    → Elem k holders
    → same_owner h k ≡ false
    → clash h.flock k.flock ≡ false

module _ (generation kernel_owner : ℕ) (wanted : FlockType) where
  -- The loop's test of one holder.
  abbrev conflicts : Holder → Bool
  conflicts h =
      not (is_owner generation kernel_owner h)
      && not (same_type wanted FlockType.unlock)
      && (same_type wanted FlockType.exclusive || same_type h.flock FlockType.exclusive)

  abbrev scanned : Holder → Scan → Scan
  scanned h found =
      if is_owner generation kernel_owner h
      then record found { exists = true; owned_type = h.flock }
      else if not (same_type wanted FlockType.unlock)
          && (same_type wanted FlockType.exclusive || same_type h.flock FlockType.exclusive)
      then record found { conflict = true }
      else found

  scanned-conflict :
      (h : Holder) (found : Scan) → (scanned h found).conflict ≡ (conflicts h || found.conflict)
  scanned-conflict h found = elim (Bool-cases (is_owner generation kernel_owner h)) [
    | inl own ↦ rw own
    | inr other ↦
        rw other
          (elim (Bool-cases (
            not (same_type wanted FlockType.unlock)
            && (same_type wanted FlockType.exclusive || same_type h.flock FlockType.exclusive))) [
              | inl found ↦ rw found
              | inr clear ↦ rw clear
            ])
  ]

  -- A scan without a conflict met none.
  scan_flock_inv :
      (holders : List Holder) (found : Scan)
      → (scan_flock generation kernel_owner wanted holders found).conflict ≡ false
      → (found.conflict ≡ false) × All (λ h. conflicts h ≡ false) holders
  unfolding scan_flock
  scan_flock_inv [] found e = (e, tt)
  scan_flock_inv (h ∷ rest) found e =
      let (clear, others) = scan_flock_inv rest (scanned h found) e in
      let (here, before) =
        neither (conflicts h) found.conflict (sym (scanned-conflict h found) ∙ clear) in
      (before, (here, others))
    where
      neither : (a b : Bool) → (a || b) ≡ false → (a ≡ false) × (b ≡ false)
      neither a b e = ground arith

compatible :
    (wanted held : FlockType)
    → (not (same_type wanted FlockType.unlock)
        && (same_type wanted FlockType.exclusive || same_type held FlockType.exclusive))
      ≡ false
    → clash wanted held ≡ false
compatible FlockType.unlock held e = refl
compatible FlockType.shared FlockType.unlock e = refl
compatible FlockType.shared FlockType.shared e = refl
compatible FlockType.shared FlockType.exclusive e = e
compatible FlockType.exclusive FlockType.unlock e = refl
compatible FlockType.exclusive FlockType.shared e = e
compatible FlockType.exclusive FlockType.exclusive e = e

module _ (hash : LockHash) (s : hash.Store) (generation kernel_owner : ℕ) where
  put-holders :
      (held : FlockType) (h : Holder)
      → Elem h (
          hash.holders (
            hash.hset
              (record {
                generation = generation;
                kernel_owner = kernel_owner;
                ranges = [];
                flock = held;
              })
              s))
      → (Elem h (hash.holders s) × (is_owner generation kernel_owner h ≡ false))
        ⊎ ((h.flock ≡ held) × (is_owner generation kernel_owner h ≡ true))
  put-holders held h e = elim (hash.holders-hset h _ s e) [
    | inl kept ↦ inr (
      ap (λ k. k.flock) kept,
      (owner_iff generation kernel_owner h).1
          (ap (λ k. k.generation) kept, ap (λ k. k.kernel_owner) kept),
    )
    | inr old ↦ inl old
  ]

  -- After the write a holder is another owner's, as before, or the requester's with its new lock.
  commit-holders :
      (wanted : FlockType) (exists : Bool) (h : Holder)
      → Elem h (
          hash.holders (
            commit hash
              (set_state generation kernel_owner
                (flock_record generation kernel_owner wanted)
                exists)
              s))
      → (Elem h (hash.holders s) × (is_owner generation kernel_owner h ≡ false))
        ⊎ ((h.flock ≡ wanted) × (is_owner generation kernel_owner h ≡ true))
  unfolding commit set_state
  commit-holders FlockType.unlock true h e = inl (hash.holders-hdel h generation kernel_owner s e)
  commit-holders FlockType.unlock false h e = inl (hash.holders-hdel h generation kernel_owner s e)
  commit-holders FlockType.shared exists h e = put-holders FlockType.shared h e
  commit-holders FlockType.exclusive exists h e = put-holders FlockType.exclusive h e

  -- A write that removes the requester's lock, or gives it one that clashes with nobody's.
  commit-IsExclusive :
      (wanted : FlockType) (exists : Bool)
      → IsExclusive (hash.holders s)
      → ((k : Holder)
          → Elem k (hash.holders s)
          → is_owner generation kernel_owner k ≡ false
          → clash wanted k.flock ≡ false)
      → IsExclusive (
          hash.holders (
            commit hash
              (set_state generation kernel_owner
                (flock_record generation kernel_owner wanted)
                exists)
              s))
  commit-IsExclusive wanted exists before free h k at_h at_k apart =
      elim (commit-holders wanted exists h at_h) [
        | inl (old, other) ↦ elim (commit-holders wanted exists k at_k) [
          | inl (also_old, also_other) ↦ before h k old also_old apart
          | inr (new, own) ↦ rw new (clash_comm h.flock wanted ∙ free h old other)
        ]
        | inr (new, own) ↦ elim (commit-holders wanted exists k at_k) [
          | inl (old, other) ↦ rw new (free k old other)
          | inr (also_new, also_own) ↦
              let same = owner_same generation kernel_owner h k own also_own in absurd (cc)
        ]
      ]

module _ (generation kernel_owner : ℕ) (wanted : FlockType) where
  finish_flock_inv :
      (found : Scan) (stored_fields : ℕ) {change : FlockChange}
      → finish_flock generation kernel_owner wanted found stored_fields ≡ ok change
      → (change.write ≡ set_state generation kernel_owner none true)
        ⊎ ((found.conflict ≡ false)
            × (change.write
                ≡ set_state generation kernel_owner
                    (flock_record generation kernel_owner wanted)
                    found.exists))
  unfolding finish_flock
  finish_flock_inv found stored_fields e = elim (Bool-cases found.conflict) [
    | inr clear ↦
        let (room, done) = >>-eq-ok (fail_if _ Code.no_locks) _ (rw clear at e) in
        inr (clear, ap (λ c. c.write) (sym (ok_injective done)))
    | inl conflict ↦ elim (Bool-cases (found.exists && not (same_type found.owned_type wanted))) [
      | inl yields ↦ inl (ap (λ c. c.write) (sym (ok_injective (rw (conflict, yields) at e))))
      | inr blocked ↦ let refused = rw (conflict, blocked) at e in absurd (cc)
    ]
  ]

module _ (hash : LockHash) (s : hash.Store) (generation kernel_owner : ℕ) (wanted : FlockType)
    (stored_fields : ℕ) where
  -- Mutual exclusion. Where no two owners' whole-file locks clash, a transaction of `SetFlock`
  -- that succeeds leaves it so, also where it gives its old lock up before it waits for another.
  pub set_flock-IsExclusive :
      {change : FlockChange}
      → IsExclusive (hash.holders s)
      → set_flock generation kernel_owner wanted (hash.holders s) stored_fields ≡ ok change
      → IsExclusive (hash.holders (commit hash change.write s))
  unfolding set_flock
  set_flock-IsExclusive before e =
      elim (finish_flock_inv generation kernel_owner wanted _ stored_fields e) [
        | inl yields ↦ rw yields (
            commit-IsExclusive hash s generation kernel_owner FlockType.unlock true before
              (λ k there other. refl))
        | inr (clear, written) ↦
            let (start, checked) =
              scan_flock_inv generation kernel_owner wanted (hash.holders s) _ clear in
            rw written (
              commit-IsExclusive hash s generation kernel_owner wanted _ before (λ k there other.
                let free : conflicts generation kernel_owner wanted k ≡ false =
                  All-Elem (λ h. conflicts generation kernel_owner wanted h ≡ false) k _ checked
                    there in
                compatible wanted k.flock (rw other at free)))
      ]
