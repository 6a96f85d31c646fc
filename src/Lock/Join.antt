-- ===== src/Lock/Join.antt =====
-- Joining neighbours, the second loop of `UpdateRanges` of RedisLockAuthority.cpp.
use sword_fs.Prelude.{
  ℕ, ◌<◌, ◌≡◌, refl, sym, ap, ◌∙◌, inl, inr, true, List, [], ◌∷◌, ◌++◌, arith, Option, none, some,
  Bool-cases, append-nil, ◌&&◌, append_assoc, subst, leb, ltb,
}
use sword_fs.Prelude.Int.{ℤ, pos, negsuc}
use sword_fs.Lock.{PosixType, Interval, touches, append_range, coalesce, same_mode, same_pid}
use sword_fs.Lock.Remove.{mode_cons}
use sword_fs.Lock.Ranges.{IsRanges, IsJoined, mode_at}

same_mode-eq : (a b : PosixType) → same_mode a b ≡ true → a ≡ b
same_mode-eq PosixType.read b e = ground arith
same_mode-eq PosixType.write b e = ground arith
same_mode-eq PosixType.unlock b e = ground arith

same_pid-eq : (a b : ℤ) → same_pid a b ≡ true → a ≡ b
same_pid-eq (pos a) (pos b) e = ground arith
same_pid-eq (negsuc a) (negsuc b) e = ground arith
same_pid-eq (pos a) (negsuc b) e = absurd (cc)
same_pid-eq (negsuc a) (pos b) e = absurd (cc)

touches-eq :
    (x y : Interval) → touches x y ≡ true → (x.end ≡ y.start) × (x.mode ≡ y.mode) × (x.pid ≡ y.pid)
touches-eq x y e = ground (arith, same_mode-eq x.mode y.mode, same_pid-eq x.pid y.pid)

-- One range behind another at which it begins: the two locks as one.
mode_joined :
    (x y : Interval) (b : ℕ)
    → x.start < x.end
    → y.start < y.end
    → touches x y ≡ true
    → mode_at (record x { end = y.end } ∷ []) b ≡ mode_at (x ∷ y ∷ []) b
unfolding mode_at
mode_joined x y b h k e = let (at, mode, pid) = touches-eq x y e in ground arith

append_range-mode :
    (part : Interval) (n b : ℕ) (xs : List Interval)
    → part.start < part.end
    → IsRanges n (xs ++ part ∷ [])
    → mode_at (append_range part xs) b ≡ mode_at (xs ++ part ∷ []) b
unfolding append_range
append_range-mode part n b [] h r = refl
append_range-mode part n b (x ∷ []) h r = elim (Bool-cases (touches x part)) [
  | inl joined ↦ rw joined (mode_joined x part b r.1 h joined)
  | inr apart ↦ rw apart
]
append_range-mode part n b (x ∷ y ∷ rest) h r =
    mode_cons x b _ _ (append_range-mode part x.end b (y ∷ rest) h r.2)

append_range-IsRanges :
    (part : Interval) (n : ℕ) (xs : List Interval)
    → IsRanges n (xs ++ part ∷ [])
    → IsRanges n (append_range part xs)
unfolding append_range
append_range-IsRanges part n [] r = r
append_range-IsRanges part n (x ∷ []) r = elim (Bool-cases (touches x part)) [
  | inl joined ↦ rw joined (omega arith)
  | inr apart ↦ rw apart r
]
append_range-IsRanges part n (x ∷ y ∷ rest) r =
    (r.0, r.1, append_range-IsRanges part x.end (y ∷ rest) r.2)

-- The joined range may end further on: what stands behind it must begin there.
append_range-rest :
    (part : Interval) (n : ℕ) (xs rest : List Interval)
    → IsRanges n (xs ++ part ∷ rest)
    → IsRanges n (append_range part xs ++ rest)
unfolding append_range
append_range-rest part n [] rest r = r
append_range-rest part n (x ∷ []) rest r = elim (Bool-cases (touches x part)) [
  | inl joined ↦ rw joined (r.0, omega arith, r.2.2)
  | inr apart ↦ rw apart r
]
append_range-rest part n (x ∷ y ∷ ys) rest r =
    (r.0, r.1, append_range-rest part x.end (y ∷ ys) rest r.2)

append_range-IsJoined :
    (part : Interval) (xs : List Interval) → IsJoined xs → IsJoined (append_range part xs)
unfolding append_range
append_range-IsJoined part [] j = tt
append_range-IsJoined part (x ∷ []) j = elim (Bool-cases (touches x part)) [
  | inl joined ↦ rw joined tt
  | inr apart ↦ rw apart (apart, tt)
]
append_range-IsJoined part (x ∷ y ∷ []) j = elim (Bool-cases (touches y part)) [
  | inl joined ↦ rw joined j
  | inr apart ↦ rw apart (j.0, (apart, tt))
]
append_range-IsJoined part (x ∷ y ∷ z ∷ rest) j =
    (j.0, append_range-IsJoined part (y ∷ z ∷ rest) j.1)

abbrev or_else : {A : Type 0} → Option A → Option A → Option A
or_else none y = y
or_else (some x) y = some x

mode_append :
    (xs zs : List Interval) (b : ℕ) → mode_at (xs ++ zs) b ≡ or_else (mode_at xs b) (mode_at zs b)
unfolding mode_at
mode_append [] zs b = refl
mode_append (x ∷ xs) zs b = elim (Bool-cases (leb x.start b && ltb b x.end)) [
  | inl here ↦ rw here
  | inr beyond ↦ rw beyond (mode_append xs zs b)
]

IsRanges-prefix : (n : ℕ) (xs zs : List Interval) → IsRanges n (xs ++ zs) → IsRanges n xs
IsRanges-prefix n [] zs r = tt
IsRanges-prefix n (x ∷ xs) zs r = (r.0, r.1, IsRanges-prefix x.end xs zs r.2)

IsRanges-filled :
    (n : ℕ) (xs : List Interval) (part : Interval) (zs : List Interval)
    → IsRanges n (xs ++ part ∷ zs)
    → part.start < part.end
IsRanges-filled n [] part zs r = r.1
IsRanges-filled n (x ∷ xs) part zs r = IsRanges-filled x.end xs part zs r.2

append_range-mode_rest :
    (part : Interval) (n b : ℕ) (xs rest : List Interval)
    → IsRanges n (xs ++ part ∷ rest)
    → mode_at (append_range part xs ++ rest) b ≡ mode_at (xs ++ part ∷ rest) b
append_range-mode_rest part n b xs rest r =
    mode_append (append_range part xs) rest b
    ∙ ap (λ m. or_else m (mode_at rest b))
        (append_range-mode part n b xs (IsRanges-filled n xs part rest r) front)
    ∙ sym (mode_append (xs ++ part ∷ []) rest b)
    ∙ ap (λ l. mode_at l b) (append_assoc xs (part ∷ []) rest)
  where
    front : IsRanges n (xs ++ part ∷ [])
    front =
        IsRanges-prefix n (xs ++ part ∷ []) rest
          (subst (IsRanges n) (sym (append_assoc xs (part ∷ []) rest)) r)

pub coalesce-mode :
    (n b : ℕ) (xs rest : List Interval)
    → IsRanges n (xs ++ rest)
    → mode_at (coalesce xs rest) b ≡ mode_at (xs ++ rest) b
unfolding coalesce
coalesce-mode n b xs [] r = rw (append-nil xs)
coalesce-mode n b xs (part ∷ rest) r =
    coalesce-mode n b (append_range part xs) rest (append_range-rest part n xs rest r)
    ∙ append_range-mode_rest part n b xs rest r

pub coalesce-IsRanges :
    (n : ℕ) (xs rest : List Interval) → IsRanges n (xs ++ rest) → IsRanges n (coalesce xs rest)
unfolding coalesce
coalesce-IsRanges n xs [] r = IsRanges-prefix n xs [] r
coalesce-IsRanges n xs (part ∷ rest) r =
    coalesce-IsRanges n (append_range part xs) rest (append_range-rest part n xs rest r)

pub coalesce-IsJoined : (xs rest : List Interval) → IsJoined xs → IsJoined (coalesce xs rest)
unfolding coalesce
coalesce-IsJoined xs [] j = j
coalesce-IsJoined xs (part ∷ rest) j =
    coalesce-IsJoined (append_range part xs) rest (append_range-IsJoined part xs j)
