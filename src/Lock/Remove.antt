-- ===== src/Lock/Remove.antt =====
-- Taking a request's bytes out of the stored ranges, the first loop of `UpdateRanges`.
use sword_fs.Prelude.{
  ℕ, ◌≤◌, ◌<◌, ◌≡◌, refl, sym, ◌∙◌, ◌⊎◌, inl, inr, List, [], ◌∷◌, arith, none, some, All, lt-or-le,
  lt→ltb, le→ltb,
}
use sword_fs.Lock.{Interval, remove_overlap}
use sword_fs.Lock.Ranges.{
  IsRanges, IsRanges-mono, mode_at, mode_in, mode_low, mode_high, keep_before, keep_after,
  keep_meets, left_part, right_part,
}

-- The range has no byte of the request.
abbrev pub IsBeside : Interval → Interval → Type 0
IsBeside request x = (x.end ≤ request.start) ⊎ (request.end ≤ x.start)

module _ (part request : Interval) (rest : List Interval) where
  module _ (b : ℕ) where
    left_in :
        part.start ≤ b
        → b < request.start
        → mode_at (left_part part request rest) b ≡ some (part.mode, part.pid)
    left_in h k =
        rw (lt→ltb part.start request.start (omega arith))
          (mode_in (record part { end = request.start }) rest b h k)

    left_out :
        (b < part.start) ⊎ (request.start ≤ b)
        → mode_at (left_part part request rest) b ≡ mode_at rest b
    left_out h = elim (lt-or-le part.start request.start) [
      | inr none_left ↦ rw (le→ltb part.start request.start none_left)
      | inl left ↦ rw (lt→ltb part.start request.start left) (elim h [
        | inl low ↦ mode_low (record part { end = request.start }) rest b low
        | inr high ↦ mode_high (record part { end = request.start }) rest b high
      ])
    ]

    right_in :
        request.end ≤ b
        → b < part.end
        → mode_at (right_part part request rest) b ≡ some (part.mode, part.pid)
    right_in h k =
        rw (lt→ltb request.end part.end (omega arith))
          (mode_in (record part { start = request.end }) rest b h k)

    right_out :
        (b < request.end) ⊎ (part.end ≤ b)
        → mode_at (right_part part request rest) b ≡ mode_at rest b
    right_out h = elim (lt-or-le request.end part.end) [
      | inr none_right ↦ rw (le→ltb request.end part.end none_right)
      | inl right ↦ rw (lt→ltb request.end part.end right) (elim h [
        | inl low ↦ mode_low (record part { start = request.end }) rest b low
        | inr high ↦ mode_high (record part { start = request.end }) rest b high
      ])
    ]

  pieces-IsRanges :
      (n : ℕ)
      → n ≤ part.start
      → part.start < part.end
      → request.start < part.end
      → part.start < request.end
      → request.start < request.end
      → IsRanges part.end rest
      → IsRanges n (left_part part request (right_part part request rest))
  pieces-IsRanges n h w k l m r = elim (lt-or-le part.start request.start) [
    | inl left ↦
        rw (lt→ltb part.start request.start left)
          (h, left, after request.start (omega arith) (omega arith))
    | inr none_left ↦
        rw (le→ltb part.start request.start none_left) (after n (omega arith) (omega arith))
  ]
    where
      after : (k : ℕ) → k ≤ request.end → k ≤ part.end → IsRanges k (right_part part request rest)
      after k a c = elim (lt-or-le request.end part.end) [
        | inl right ↦ rw (lt→ltb request.end part.end right) (a, right, r)
        | inr none_right ↦
            rw (le→ltb request.end part.end none_right) (IsRanges-mono k part.end rest c r)
      ]

  pieces-IsBeside :
      All (IsBeside request) rest
      → All (IsBeside request) (left_part part request (right_part part request rest))
  pieces-IsBeside a = elim (lt-or-le part.start request.start) [
    | inl left ↦ rw (lt→ltb part.start request.start left) (inl (omega arith), after)
    | inr none_left ↦ rw (le→ltb part.start request.start none_left) after
  ]
    where
      after : All (IsBeside request) (right_part part request rest)
      after = elim (lt-or-le request.end part.end) [
        | inl right ↦ rw (lt→ltb request.end part.end right) (inr (omega arith), a)
        | inr none_right ↦ rw (le→ltb request.end part.end none_right) a
      ]

pub mode_cons :
    (x : Interval) (b : ℕ) (xs ys : List Interval)
    → mode_at xs b ≡ mode_at ys b
    → mode_at (x ∷ xs) b ≡ mode_at (x ∷ ys) b
unfolding mode_at
mode_cons x b xs ys e = rw e

mode_pieces :
    (x request : Interval) (rest xs : List Interval) (b : ℕ)
    → request.start < request.end
    → (b < request.start) ⊎ (request.end ≤ b)
    → request.start < x.end
    → x.start < request.end
    → mode_at rest b ≡ mode_at xs b
    → mode_at (left_part x request (right_part x request rest)) b ≡ mode_at (x ∷ xs) b
mode_pieces x request rest xs b filled out meets both e = elim (lt-or-le b x.start) [
  | inl low ↦
      left_out x request _ b (inl low)
      ∙ right_out x request rest b (inl (omega arith))
      ∙ e
      ∙ sym (mode_low x xs b low)
  | inr above ↦ elim (lt-or-le b x.end) [
    | inr high ↦
        left_out x request _ b (inr (omega arith))
        ∙ right_out x request rest b (inr high)
        ∙ e
        ∙ sym (mode_high x xs b high)
    | inl in_it ↦ elim out [
      | inl before ↦ left_in x request _ b above before ∙ sym (mode_in x xs b above in_it)
      | inr after ↦
          left_out x request _ b (inr (omega arith))
          ∙ right_in x request rest b after in_it
          ∙ sym (mode_in x xs b above in_it)
    ]
  ]
]

module _ (request : Interval) (filled : request.start < request.end) where
  pub remove_overlap-IsRanges :
      (n : ℕ) (xs : List Interval) → IsRanges n xs → IsRanges n (remove_overlap xs request)
  unfolding remove_overlap
  remove_overlap-IsRanges n [] r = tt
  remove_overlap-IsRanges n (x ∷ xs) r =
      let ih = remove_overlap-IsRanges x.end xs r.2 in
      elim (lt-or-le request.start x.end) [
        | inr before ↦ rw (keep_before x request _ before) (r.0, r.1, ih)
        | inl meets ↦ elim (lt-or-le x.start request.end) [
          | inr after ↦ rw (keep_after x request _ after) (r.0, r.1, ih)
          | inl both ↦
              rw (keep_meets x request _ meets both)
                (pieces-IsRanges x request _ n r.0 r.1 meets both filled ih)
        ]
      ]

  -- No byte of the request is left.
  pub remove_overlap-IsBeside :
      (xs : List Interval) → All (IsBeside request) (remove_overlap xs request)
  unfolding remove_overlap
  remove_overlap-IsBeside [] = tt
  remove_overlap-IsBeside (x ∷ xs) =
      let ih = remove_overlap-IsBeside xs in
      elim (lt-or-le request.start x.end) [
        | inr before ↦ rw (keep_before x request _ before) (inl before, ih)
        | inl meets ↦ elim (lt-or-le x.start request.end) [
          | inr after ↦ rw (keep_after x request _ after) (inr after, ih)
          | inl both ↦ rw (keep_meets x request _ meets both) (pieces-IsBeside x request _ ih)
        ]
      ]

  -- Every other byte keeps its lock.
  pub mode_at-remove_overlap :
      (xs : List Interval) (n b : ℕ)
      → IsRanges n xs
      → (b < request.start) ⊎ (request.end ≤ b)
      → mode_at (remove_overlap xs request) b ≡ mode_at xs b
  unfolding remove_overlap
  mode_at-remove_overlap [] n b r out = refl
  mode_at-remove_overlap (x ∷ xs) n b r out =
      let ih = mode_at-remove_overlap xs x.end b r.2 out in
      elim (lt-or-le request.start x.end) [
        | inr before ↦ rw (keep_before x request _ before) (mode_cons x b _ _ ih)
        | inl meets ↦ elim (lt-or-le x.start request.end) [
          | inr after ↦ rw (keep_after x request _ after) (mode_cons x b _ _ ih)
          | inl both ↦
              rw (keep_meets x request _ meets both)
                (mode_pieces x request _ xs b filled out meets both ih)
        ]
      ]

  -- In the request's own bytes nothing is locked any more.
  pub mode_at-inside :
      (xs : List Interval) (b : ℕ)
      → All (IsBeside request) xs
      → request.start ≤ b
      → b < request.end
      → mode_at xs b ≡ none
  mode_at-inside [] b a h k = unfold mode_at in refl
  mode_at-inside (x ∷ xs) b a h k = elim a.0 [
    | inl before ↦ mode_high x xs b (omega arith) ∙ mode_at-inside xs b a.1 h k
    | inr after ↦ mode_low x xs b (omega arith) ∙ mode_at-inside xs b a.1 h k
  ]
