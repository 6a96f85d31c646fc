-- ===== src/Lock/Tests.antt =====
-- Locks of one inode at concrete requests.
use sword_fs.Prelude.{
  ◌<◌, zero, suc, ℕ, ◌≡◌, ◌⊎◌, inl, inr, refl, true, false, arith, List, [], ◌∷◌, Elem,
  if◌then◌else◌, Bool-cases, lt-or-le, subst, sym, ap,
}
use sword_fs.Prelude.Int.{pos}
use sword_fs.Status.{ok, err, Code}
use sword_fs.Lock.{PosixRange, PosixType, Interval, Format, updated_ranges, update_ranges, overlaps}
use sword_fs.Lock.Attempts.{
  Attempt, attempts, posix_reply, flock_reply, uncertain_attempts, set_posix_attempts,
  set_flock_attempts, IsGrantedAt, set_posix_attempts-IsGrantedAt,
}
use sword_fs.Lock.Inspect.{inspect, range_of}
use sword_fs.Lock.Ranges.{IsCanonical, mode_at, mode_low, mode_high}
use sword_fs.Lock.Update.{lock_after, updated_ranges-IsCanonical, updated_ranges-mode}
use sword_fs.Lock.Holders.{Holder, FlockType, Write, LockHash, is_owner, commit, set_state}
use sword_fs.Lock.Posix.{set_posix, Owned}
use sword_fs.Lock.Posix.Scan.{IsLocked, clash, clash-none}
use sword_fs.Lock.Posix.Exclusion.{set_posix-IsLocked}
use sword_fs.Lock.Flock.{FlockChange, set_flock}
use sword_fs.Lock.Flock.Exclusive.{IsExclusive, set_flock-IsExclusive}

-- Without the other owner's fields: every holder but the owner's.
abbrev others : ℕ → ℕ → List Holder → List Holder
others generation kernel_owner [] = []
others generation kernel_owner (h ∷ hs) =
    if is_owner generation kernel_owner h
    then others generation kernel_owner hs
    else h ∷ others generation kernel_owner hs

Elem-others :
    (h : Holder) (generation kernel_owner : ℕ) (s : List Holder)
    → Elem h (others generation kernel_owner s)
    → Elem h s × (is_owner generation kernel_owner h ≡ false)
Elem-others h generation kernel_owner [] e = absurd e
Elem-others h generation kernel_owner (x ∷ xs) e =
    elim (Bool-cases (is_owner generation kernel_owner x)) [
      | inl own ↦
          let (there, other) = Elem-others h generation kernel_owner xs (rw own at e) in
          (inr there, other)
      | inr apart ↦ elim (found (rw apart at e)) [
        | inl same ↦
            (inl same, subst (λ k. is_owner generation kernel_owner k ≡ false) (sym same) apart)
        | inr later ↦
            let (there, other) = Elem-others h generation kernel_owner xs later in
            (inr there, other)
      ]
    ]
  where
    found :
        Elem h (x ∷ others generation kernel_owner xs)
        → (h ≡ x) ⊎ Elem h (others generation kernel_owner xs)
    found e = e

abbrev list_hash : LockHash
list_hash = record {
  Store = List Holder;
  holders = λ s. s;
  hset = λ new s. new ∷ others new.generation new.kernel_owner s;
  hdel = λ generation kernel_owner s. others generation kernel_owner s;
  holders-hset = λ h new s e. elim e [
    | inl same ↦ inl same
    | inr old ↦ inr (Elem-others h new.generation new.kernel_owner s old)
  ];
  holders-hdel = λ h generation kernel_owner s e. Elem-others h generation kernel_owner s e;
}

-- A decimal text is never empty; its length is all that a budget reads.
abbrev format : Format
format = record { unsigned = λ n. b'0' ∷ []; signed = λ n. b'0' ∷ [] }

abbrev mine : Interval
mine = record { start = 5; end = 15; mode = PosixType.write; pid = pos 70 }

abbrev reads : Interval
reads = record { start = 0; end = 10; mode = PosixType.read; pid = pos 70 }

abbrev theirs : Interval
theirs = record { start = 20; end = 30; mode = PosixType.write; pid = pos 80 }

abbrev other_holder : Holder
other_holder = record {
  generation = 1;
  kernel_owner = 8;
  ranges = theirs ∷ [];
  flock = FlockType.unlock;
}

abbrev own_holder : Holder
own_holder = record {
  generation = 1;
  kernel_owner = 7;
  ranges = reads ∷ [];
  flock = FlockType.unlock;
}

abbrev nothing_owned : Owned
nothing_owned = record { ranges = []; exists = false }

abbrev holders : List Holder
holders = own_holder ∷ other_holder ∷ []

abbrev split : List Interval
split = record reads { end = 5 } ∷ mine ∷ []

updated_reads : updated_ranges (reads ∷ []) mine ≡ split
unfolding updated_ranges overlaps
updated_reads = refl

reads-IsCanonical : IsCanonical (reads ∷ [])
reads-IsCanonical = ((omega arith, omega arith, tt), tt)

updated_ranges-IsCanonical_example : IsCanonical (updated_ranges (reads ∷ []) mine)
updated_ranges-IsCanonical_example =
    updated_ranges-IsCanonical (reads ∷ []) mine reads-IsCanonical (omega arith)

updated_ranges-mode_example :
    mode_at (updated_ranges (reads ∷ []) mine) 3 ≡ lock_after mine (reads ∷ []) 3
updated_ranges-mode_example =
    updated_ranges-mode (reads ∷ []) mine reads-IsCanonical (omega arith) 3

set_both :
    set_posix 1 7 mine format holders 2 ≡ ok (Write.put (record own_holder { ranges = split }))
unfolding set_posix update_ranges updated_ranges overlaps set_state
set_both = refl

set_blocked : set_posix 1 7 (record mine { end = 25 }) format holders 2 ≡ err Code.would_block
unfolding set_posix overlaps
set_blocked = refl

bytes_apart : (b : ℕ) → clash (mode_at (reads ∷ []) b) (mode_at (theirs ∷ []) b) ≡ false
bytes_apart b = elim (lt-or-le b 20) [
  | inl low ↦ rw (mode_low theirs [] b low) (unfold mode_at in clash-none (mode_at (reads ∷ []) b))
  | inr high ↦ rw (mode_high reads [] b (omega arith)) (unfold mode_at in refl)
]

bytes_apart_too : (b : ℕ) → clash (mode_at (theirs ∷ []) b) (mode_at (reads ∷ []) b) ≡ false
bytes_apart_too b = elim (lt-or-le b 20) [
  | inl low ↦ rw (mode_low theirs [] b low) (unfold mode_at in refl)
  | inr high ↦
      rw (mode_high reads [] b (omega arith))
        (unfold mode_at in clash-none (mode_at (theirs ∷ []) b))
]

holders-IsLocked : IsLocked (list_hash.holders holders)
holders-IsLocked = record {
  canonical = λ h there. elim there [
    | inl e ↦ subst (λ k. IsCanonical k.ranges) (sym e) reads-IsCanonical
    | inr (inl e) ↦ subst (λ k. IsCanonical k.ranges) (sym e) ((omega arith, omega arith, tt), tt)
    | inr (inr e) ↦ absurd e
  ];
  exclusive = λ h k b at_h at_k apart. elim at_h [
    | inl e ↦ elim at_k [
      | inl f ↦ let same = rw (e, f) at apart in absurd (cc)
      | inr (inl f) ↦ rw (e, f) (bytes_apart b)
      | inr (inr f) ↦ absurd f
    ]
    | inr (inl e) ↦ elim at_k [
      | inl f ↦ rw (e, f) (bytes_apart_too b)
      | inr (inl f) ↦ let same = rw (e, f) at apart in absurd (cc)
      | inr (inr f) ↦ absurd f
    ]
    | inr (inr e) ↦ absurd e
  ];
}

set_posix-IsLocked_example : IsLocked (
    list_hash.holders (commit list_hash (Write.put (record own_holder { ranges = split })) holders))
set_posix-IsLocked_example =
    set_posix-IsLocked list_hash format 1 7 mine holders 2 (omega arith) holders-IsLocked set_both

-- Two owners share the file; one of them asks for it alone, and gives its lock up.
abbrev sharing : List Holder
sharing =
    record own_holder { ranges = []; flock = FlockType.shared }
    ∷ record other_holder { ranges = []; flock = FlockType.shared }
    ∷ []

abbrev yields : FlockChange
yields = record { write = Write.remove 1 7; released_on_conflict = true }

upgrade_yields : set_flock 1 7 FlockType.exclusive sharing 2 ≡ ok yields
unfolding set_flock
upgrade_yields = refl

sharing-IsExclusive : IsExclusive (list_hash.holders sharing)
sharing-IsExclusive h k at_h at_k apart = rw (shared h at_h, shared k at_k)
  where
    shared : (x : Holder) → Elem x sharing → x.flock ≡ FlockType.shared
    shared x (inl e) = ap (λ y. y.flock) e
    shared x (inr (inl e)) = ap (λ y. y.flock) e
    shared x (inr (inr e)) = absurd e

set_flock-IsExclusive_example :
    IsExclusive (list_hash.holders (commit list_hash yields.write sharing))
set_flock-IsExclusive_example =
    set_flock-IsExclusive list_hash sharing 1 7 FlockType.exclusive 2 sharing-IsExclusive
      upgrade_yields

-- The first attempt's outcome is unknown, the second one commits.
abbrev environment : ℕ → Attempt
environment zero = record {
  can_grant = true;
  outcome = err Code.outcome_unknown;
  saw_stale = false;
  released = false;
  can_still_grant = true;
}
environment (suc i) = record {
  can_grant = true;
  outcome = ok tt;
  saw_stale = true;
  released = false;
  can_still_grant = true;
}

granted_second : set_posix_attempts environment ≡ record { status = ok tt; cleaned = true }
unfolding attempts posix_reply
granted_second = refl

flock_second : set_flock_attempts environment ≡ record { status = ok tt; cleaned = true }
unfolding attempts flock_reply
flock_second = refl

set_posix_attempts-IsGrantedAt_example :
    (k : ℕ) × (k < uncertain_attempts) × IsGrantedAt environment k
set_posix_attempts-IsGrantedAt_example =
    set_posix_attempts-IsGrantedAt environment (ap (λ r. r.status) granted_second)

abbrev asked : PosixRange
asked = record { start = 5; length = 10; mode = PosixType.write; pid = pos 70 }

inspected :
    inspect 1 (other_holder ∷ [])
    ≡ record {
      kernel_owner = 8;
      local_generation = true;
      ranges = record { start = 20; length = 10; mode = PosixType.write; pid = pos 80 } ∷ [];
      flock = FlockType.unlock;
    }
      ∷ []
unfolding inspect range_of
inspected = refl
