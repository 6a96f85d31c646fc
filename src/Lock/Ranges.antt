-- ===== src/Lock/Ranges.antt =====
-- The ranges of one owner, as RedisLockAuthority.cpp stores them, and the lock of each byte.
use sword_fs.Prelude.{
  ℕ, ◌≤◌, ◌<◌, ◌≡◌, refl, ◌∙◌, inl, inr, false, ◌&&◌, ltb, leb, if◌then◌else◌, List, [], ◌∷◌, arith,
  Option, none, some, lt-or-le, le→leb, lt→leb, lt→ltb, le→ltb,
}
use sword_fs.Prelude.Int.{ℤ}
use sword_fs.Lock.{PosixType, Interval, overlaps, keep_outside, touches}

-- Nonempty ranges in order from a bound on, none of which overlap.
abbrev pub IsRanges : ℕ → List Interval → Type 0
IsRanges n [] = Unit {0}
IsRanges n (x ∷ xs) = (n ≤ x.start) × (x.start < x.end) × IsRanges x.end xs

-- No range could be joined with the next one.
abbrev pub IsJoined : List Interval → Type 0
IsJoined [] = Unit {0}
IsJoined (x ∷ []) = Unit {0}
IsJoined (x ∷ y ∷ rest) = (touches x y ≡ false) × IsJoined (y ∷ rest)

-- What `Decode` demands of a stored record.
abbrev pub IsCanonical : List Interval → Type 0
IsCanonical xs = IsRanges 0 xs × IsJoined xs

-- The lock that ranges hold on a byte: its mode and its process.
unfoldable pub mode_at : List Interval → ℕ → Option (PosixType × ℤ)
mode_at [] b = none
mode_at (x ∷ xs) b = if leb x.start b && ltb b x.end then some (x.mode, x.pid) else mode_at xs b

module _ (x : Interval) (xs : List Interval) (b : ℕ) where
  pub mode_in : x.start ≤ b → b < x.end → mode_at (x ∷ xs) b ≡ some (x.mode, x.pid)
  unfolding mode_at
  mode_in h k = rw (le→leb x.start b h, lt→ltb b x.end k)

  pub mode_low : b < x.start → mode_at (x ∷ xs) b ≡ mode_at xs b
  unfolding mode_at
  mode_low h = rw (lt→leb x.start b h)

  pub mode_high : x.end ≤ b → mode_at (x ∷ xs) b ≡ mode_at xs b
  unfolding mode_at
  mode_high k = elim (lt-or-le b x.start) [
    | inl h ↦ rw (lt→leb x.start b h)
    | inr h ↦ rw (le→leb x.start b h, le→ltb b x.end k)
  ]

pub IsRanges-mono : (m n : ℕ) (xs : List Interval) → m ≤ n → IsRanges n xs → IsRanges m xs
IsRanges-mono m n [] h r = tt
IsRanges-mono m n (x ∷ xs) h r = (omega arith, r.1, r.2)

pub mode_below : (n b : ℕ) (xs : List Interval) → IsRanges n xs → b < n → mode_at xs b ≡ none
mode_below n b [] r h = unfold mode_at in refl
mode_below n b (x ∷ xs) r h =
    mode_low x xs b (omega arith) ∙ mode_below x.end b xs r.2 (omega arith)

-- The ranges of a list that lie beside the request.
module _ (part request : Interval) (rest : List Interval) where
  pub keep_before : part.end ≤ request.start → keep_outside part request rest ≡ part ∷ rest
  unfolding keep_outside overlaps
  keep_before h = ground arith

  pub keep_after : request.end ≤ part.start → keep_outside part request rest ≡ part ∷ rest
  unfolding keep_outside overlaps
  keep_after h = ground arith

abbrev pub left_part : Interval → Interval → List Interval → List Interval
left_part part request rest =
    if ltb part.start request.start then record part { end = request.start } ∷ rest else rest

abbrev pub right_part : Interval → Interval → List Interval → List Interval
right_part part request rest =
    if ltb request.end part.end then record part { start = request.end } ∷ rest else rest

pub keep_meets :
    (part request : Interval) (rest : List Interval)
    → request.start < part.end
    → part.start < request.end
    → keep_outside part request rest ≡ left_part part request (right_part part request rest)
unfolding keep_outside overlaps
keep_meets part request rest h k =
    rw (lt→ltb part.start request.end k, lt→ltb request.start part.end h)
