-- ===== src/Lock/Update.antt =====
-- The whole of `UpdateRanges` of RedisLockAuthority.cpp: the ranges that a request leaves, and the
-- bytes that they lock.
use sword_fs.Prelude.{
  ℕ, ◌≤◌, ◌<◌, ◌≡◌, refl, sym, ap, ◌∙◌, ◌⊎◌, inl, inr, true, false, ◌&&◌, if◌then◌else◌, List, [],
  ◌∷◌, ◌++◌, arith, Option, none, some, All, lt-or-le, lt→leb, le→leb, lt→ltb, le→ltb, leb, ltb,
  Bool-cases, insert_by, sort_by, length,
}
use sword_fs.Prelude.Int.{ℤ}
use sword_fs.Status.{ok}
use sword_fs.Lock.{
  PosixType, Interval, remove_overlap, coalesce, is_unlock, updated_ranges, Format, update_ranges,
  start_of, encode, max_intervals, max_value_bytes,
}
use sword_fs.Lock.Ranges.{
  IsRanges, IsRanges-mono, IsCanonical, mode_at, mode_in, mode_low, mode_high,
}
use sword_fs.Lock.Remove.{
  IsBeside, remove_overlap-IsRanges, remove_overlap-IsBeside, mode_at-remove_overlap,
  mode_at-inside, mode_cons,
}
use sword_fs.Lock.Join.{coalesce-mode, coalesce-IsRanges, coalesce-IsJoined}

insert_front :
    (x : Interval) (xs : List Interval)
    → IsRanges x.end xs
    → x.start < x.end
    → insert_by start_of x xs ≡ x ∷ xs
insert_front x [] r h = refl
insert_front x (y ∷ ys) r h = rw (le→leb x.start y.start (omega arith))

-- Ranges in order are sorted already.
sort_IsRanges : (n : ℕ) (xs : List Interval) → IsRanges n xs → sort_by start_of xs ≡ xs
sort_IsRanges n [] r = refl
sort_IsRanges n (x ∷ xs) r = rw (sort_IsRanges x.end xs r.2) (insert_front x xs r.2 r.1)

insert_swap :
    (q x : Interval) (xs : List Interval)
    → x.end ≤ q.start
    → x.start < x.end
    → IsRanges x.end xs
    → insert_by start_of x (insert_by start_of q xs) ≡ x ∷ insert_by start_of q xs
insert_swap q x [] a h r = rw (le→leb x.start q.start (omega arith))
insert_swap q x (y ∷ ys) a h r = elim (lt-or-le y.start q.start) [
  | inl after ↦ rw (lt→leb q.start y.start after, le→leb x.start y.start (omega arith))
  | inr before ↦ rw (le→leb q.start y.start before, le→leb x.start q.start (omega arith))
]

module _ (request : Interval) (filled : request.start < request.end) where
  insert-IsRanges :
      (n : ℕ) (xs : List Interval)
      → n ≤ request.start
      → IsRanges n xs
      → All (IsBeside request) xs
      → IsRanges n (insert_by start_of request xs)
  insert-IsRanges n [] h r a = (h, filled, tt)
  insert-IsRanges n (x ∷ xs) h r a = elim (lt-or-le x.start request.start) [
    | inl after ↦
        rw (lt→leb request.start x.start after)
          (r.0, r.1, insert-IsRanges x.end xs (omega (arith, a.0)) r.2 a.1)
    | inr before ↦
        rw (le→leb request.start x.start before) (h, filled, (omega (arith, a.0), r.1, r.2))
  ]

  -- A request behind the ranges kept is sorted to its place.
  sort_kept :
      (n : ℕ) (xs : List Interval)
      → IsRanges n xs
      → All (IsBeside request) xs
      → sort_by start_of (xs ++ request ∷ []) ≡ insert_by start_of request xs
  sort_kept n [] r a = refl
  sort_kept n (x ∷ xs) r a =
      rw (sort_kept x.end xs r.2 a.1) (elim (lt-or-le x.start request.start) [
        | inl after ↦
            rw (lt→leb request.start x.start after)
              (insert_swap request x xs (omega (arith, a.0)) r.1 r.2)
        | inr before ↦ rw (le→leb request.start x.start before) (in_front (omega (arith, a.0)))
      ])
    where
      in_front :
          request.end ≤ x.start
          → insert_by start_of x (insert_by start_of request xs) ≡ request ∷ x ∷ xs
      in_front h =
          rw
            (insert_front request xs (IsRanges-mono request.end x.end xs (omega (arith, r.1)) r.2)
              filled)
            (rw (lt→leb x.start request.start (omega arith))
              (ap (◌∷◌ request) (insert_front x xs r.2 r.1)))

  mode_outside :
      (x : Interval) (b : ℕ)
      → IsBeside request x
      → request.start ≤ b
      → b < request.end
      → (xs : List Interval) → mode_at (x ∷ request ∷ xs) b ≡ mode_at (request ∷ xs) b
  mode_outside x b a h k xs = elim a [
    | inl before ↦ mode_high x (request ∷ xs) b (omega arith)
    | inr after ↦ mode_low x (request ∷ xs) b (omega arith)
  ]

  mode_swap :
      (x : Interval) (xs : List Interval) (b : ℕ)
      → IsBeside request x
      → x.start < x.end
      → mode_at (x ∷ request ∷ xs) b ≡ mode_at (request ∷ x ∷ xs) b
  mode_swap x xs b a h = elim (lt-or-le b request.start) [
    | inl low ↦
        mode_cons x b _ _ (mode_low request xs b low) ∙ sym (mode_low request (x ∷ xs) b low)
    | inr above ↦ elim (lt-or-le b request.end) [
      | inr high ↦
          mode_cons x b _ _ (mode_high request xs b high) ∙ sym (mode_high request (x ∷ xs) b high)
      | inl inside ↦
          mode_outside x b a above inside xs
          ∙ mode_in request xs b above inside
          ∙ sym (mode_in request (x ∷ xs) b above inside)
    ]
  ]

  insert-mode :
      (n b : ℕ) (xs : List Interval)
      → IsRanges n xs
      → All (IsBeside request) xs
      → mode_at (insert_by start_of request xs) b ≡ mode_at (request ∷ xs) b
  insert-mode n b [] r a = refl
  insert-mode n b (x ∷ xs) r a = elim (lt-or-le x.start request.start) [
    | inl after ↦
        rw (lt→leb request.start x.start after)
          (mode_cons x b _ _ (insert-mode x.end b xs r.2 a.1) ∙ mode_swap x xs b a.0 r.1)
    | inr before ↦ rw (le→leb request.start x.start before)
  ]

-- What the bytes are locked for after a request, as POSIX says it.
abbrev pub lock_after : Interval → List Interval → ℕ → Option (PosixType × ℤ)
lock_after request ranges b =
    if leb request.start b && ltb b request.end
    then if is_unlock request.mode then none else some (request.mode, request.pid)
    else mode_at ranges b

pub lock_inside :
    (request : Interval) (ranges : List Interval) (b : ℕ)
    → request.start ≤ b
    → b < request.end
    → lock_after request ranges b
      ≡ (if is_unlock request.mode then none else some (request.mode, request.pid))
lock_inside request ranges b h k = rw (le→leb request.start b h, lt→ltb b request.end k)

pub lock_outside :
    (request : Interval) (ranges : List Interval) (b : ℕ)
    → (b < request.start) ⊎ (request.end ≤ b)
    → lock_after request ranges b ≡ mode_at ranges b
lock_outside request ranges b (inl h) = rw (lt→leb request.start b h)
lock_outside request ranges b (inr h) = elim (lt-or-le b request.start) [
  | inl k ↦ rw (lt→leb request.start b k)
  | inr k ↦ rw (le→leb request.start b k, le→ltb b request.end h)
]

module _ (ranges : List Interval) (request : Interval) (canonical : IsCanonical ranges)
    (filled : request.start < request.end) where
  kept-IsRanges : IsRanges 0 (remove_overlap ranges request)
  kept-IsRanges = remove_overlap-IsRanges request filled 0 ranges canonical.0

  beside : All (IsBeside request) (remove_overlap ranges request)
  beside = remove_overlap-IsBeside request filled ranges

  updated_unlock :
      is_unlock request.mode ≡ true
      → updated_ranges ranges request ≡ coalesce [] (remove_overlap ranges request)
  updated_unlock e = unfold updated_ranges in rw (e, sort_IsRanges 0 _ kept-IsRanges)

  updated_lock :
      is_unlock request.mode ≡ false
      → updated_ranges ranges request
        ≡ coalesce [] (insert_by start_of request (remove_overlap ranges request))
  updated_lock e =
      unfold updated_ranges in rw (e, sort_kept request filled 0 _ kept-IsRanges beside)

  -- The ranges before neighbours are joined.
  inserted : IsRanges 0 (insert_by start_of request (remove_overlap ranges request))
  inserted = insert-IsRanges request filled 0 _ (omega arith) kept-IsRanges beside

  kept-mode :
      (b : ℕ)
      → (b < request.start) ⊎ (request.end ≤ b)
      → mode_at (remove_overlap ranges request) b ≡ mode_at ranges b
  kept-mode b out = mode_at-remove_overlap request filled ranges 0 b canonical.0 out

  -- An update of canonical ranges by a nonempty interval gives canonical ranges: nonempty, in order,
  -- none overlapping, and no range that could be joined with the next.
  pub updated_ranges-IsCanonical : IsCanonical (updated_ranges ranges request)
  updated_ranges-IsCanonical = elim (Bool-cases (is_unlock request.mode)) [
    | inl e ↦
        rw (updated_unlock e) (coalesce-IsRanges 0 [] _ kept-IsRanges, coalesce-IsJoined [] _ tt)
    | inr e ↦ rw (updated_lock e) (coalesce-IsRanges 0 [] _ inserted, coalesce-IsJoined [] _ tt)
  ]

  mode_unlock :
      (b : ℕ)
      → is_unlock request.mode ≡ true
      → mode_at (updated_ranges ranges request) b ≡ lock_after request ranges b
  mode_unlock b e = rw (updated_unlock e) (
      coalesce-mode 0 b [] _ kept-IsRanges ∙ elim (lt-or-le b request.start) [
        | inl low ↦ kept-mode b (inl low) ∙ sym (lock_outside request ranges b (inl low))
        | inr above ↦ elim (lt-or-le b request.end) [
          | inr high ↦ kept-mode b (inr high) ∙ sym (lock_outside request ranges b (inr high))
          | inl inside ↦
              mode_at-inside request filled _ b beside above inside
              ∙ sym (lock_inside request ranges b above inside ∙ rw e)
        ]
      ])

  mode_lock :
      (b : ℕ)
      → is_unlock request.mode ≡ false
      → mode_at (updated_ranges ranges request) b ≡ lock_after request ranges b
  mode_lock b e = rw (updated_lock e) (
      coalesce-mode 0 b [] _ inserted
      ∙ insert-mode request filled 0 b _ kept-IsRanges beside
      ∙ elim (lt-or-le b request.start) [
        | inl low ↦
            mode_low request _ b low
            ∙ kept-mode b (inl low)
            ∙ sym (lock_outside request ranges b (inl low))
        | inr above ↦ elim (lt-or-le b request.end) [
          | inr high ↦
              mode_high request _ b high
              ∙ kept-mode b (inr high)
              ∙ sym (lock_outside request ranges b (inr high))
          | inl inside ↦
              mode_in request _ b above inside
              ∙ sym (lock_inside request ranges b above inside ∙ rw e)
        ]
      ])

  -- After an update of canonical ranges by a nonempty interval, each byte of the interval has the
  -- request's mode and process, or no lock where the request unlocks, and every other byte has the
  -- lock that it had.
  pub updated_ranges-mode :
      (b : ℕ) → mode_at (updated_ranges ranges request) b ≡ lock_after request ranges b
  updated_ranges-mode b = elim (Bool-cases (is_unlock request.mode)) [
    | inl e ↦ mode_unlock b e
    | inr e ↦ mode_lock b e
  ]

-- An update that fits its budget returns the updated ranges, within it.
pub update_ranges_inv :
    (format : Format) (ranges : List Interval) (request : Interval) {next : List Interval}
    → update_ranges format ranges request ≡ ok next
    → (next ≡ updated_ranges ranges request)
      × (length next ≤ max_intervals)
      × (length (encode format next) ≤ max_value_bytes)
unfolding update_ranges
update_ranges_inv format ranges request h = ground arith
