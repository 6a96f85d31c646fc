-- ===== src/Slice/Cut.antt =====
-- What one record does to the gaps of `ResolveRange`, address by address.
use sword_fs.Prelude.{
  ℕ, ◌+◌, ◌-◌, ◌≤◌, ◌<◌, ◌≡◌, refl, ◌⊎◌, ap, min, max, ltb, leb, ◌&&◌, if◌then◌else◌, List, [], ◌∷◌,
  ◌++◌, arith, All, lt-or-le, lt→ltb, le→ltb, le→leb, lt→leb, inl, inr,
}
use sword_fs.Slice.{SliceRecord, ResolvedSlice, Gaps, covered_span}
use sword_fs.Slice.Gaps.{IsGaps, IsGaps-mono, left_piece, cut_gaps, cut_spans}

-- 1 inside `[s, e)`, 0 outside.
pub inside : ℕ → ℕ → ℕ → ℕ
inside s e a = if leb s a && ltb a e then 1 else 0

pub inside_cases :
    (s e a : ℕ)
    → ((s ≤ a) × (a < e) × (inside s e a ≡ 1)) ⊎ (((a < s) ⊎ (e ≤ a)) × (inside s e a ≡ 0))
unfolding inside
inside_cases s e a = elim (lt-or-le a s) [
  | inl low ↦ rw (lt→leb s a low) (inr (inl low, refl))
  | inr above ↦ elim (lt-or-le a e) [
    | inl in_it ↦ rw (le→leb s a above, lt→ltb a e in_it) (inl (above, in_it, refl))
    | inr high ↦ rw (le→leb s a above, le→ltb a e high) (inr (inr high, refl))
  ]
]

abbrev pub count_gaps : Gaps → ℕ → ℕ
count_gaps [] a = 0
count_gaps ((s, e) ∷ m) a = inside s e a + count_gaps m a

abbrev pub count_spans : List ResolvedSlice → ℕ → ℕ
count_spans [] a = 0
count_spans (x ∷ xs) a = inside x.pos (x.pos + x.len) a + count_spans xs a

pub count_gaps-below : (m : Gaps) (n a : ℕ) → IsGaps n m → a < n → count_gaps m a ≡ 0
count_gaps-below [] n a g h = refl
count_gaps-below ((s, e) ∷ m) n a g h =
    omega (arith, inside_cases s e a, count_gaps-below m e a g.2 (omega arith))

-- The three ways in which a record `[p, q)` lies to the first gap `[s, e)`.
module _ (p q s e : ℕ) (m : Gaps) where
  pub cut_behind : e ≤ p → cut_gaps p q ((s, e) ∷ m) ≡ (s, e) ∷ cut_gaps p q m
  unfolding cut_gaps
  cut_behind h = rw (le→leb e p h)

  pub cut_beyond : p < e → q ≤ s → cut_gaps p q ((s, e) ∷ m) ≡ (s, e) ∷ m
  unfolding cut_gaps
  cut_beyond h k = rw (lt→leb e p h, le→leb q s k)

  pub cut_end : p < e → s < q → q < e → cut_gaps p q ((s, e) ∷ m) ≡ left_piece s p ++ (q, e) ∷ m
  unfolding cut_gaps
  cut_end h k l = rw (lt→leb e p h, lt→leb q s k, lt→ltb q e l)

  pub cut_on : p < e → s < q → e ≤ q → cut_gaps p q ((s, e) ∷ m) ≡ left_piece s p ++ cut_gaps p q m
  unfolding cut_gaps
  cut_on h k l = rw (lt→leb e p h, lt→leb q s k, le→ltb q e l)

module _ (r : SliceRecord) (q s e : ℕ) (m : Gaps) where
  pub span_behind : e ≤ r.pos → cut_spans r q ((s, e) ∷ m) ≡ cut_spans r q m
  unfolding cut_spans
  span_behind h = rw (le→leb e r.pos h)

  pub span_beyond : r.pos < e → q ≤ s → cut_spans r q ((s, e) ∷ m) ≡ []
  unfolding cut_spans
  span_beyond h k = rw (lt→leb e r.pos h, le→leb q s k)

  pub span_end :
      r.pos < e
      → s < q
      → q < e
      → cut_spans r q ((s, e) ∷ m) ≡ covered_span r (max r.pos s) (min q e) ∷ []
  unfolding cut_spans
  span_end h k l = rw (lt→leb e r.pos h, lt→leb q s k, lt→ltb q e l)

  pub span_on :
      r.pos < e
      → s < q
      → e ≤ q
      → cut_spans r q ((s, e) ∷ m) ≡ covered_span r (max r.pos s) (min q e) ∷ cut_spans r q m
  unfolding cut_spans
  span_on h k l = rw (lt→leb e r.pos h, lt→leb q s k, le→ltb q e l)

count_left :
    (s p a : ℕ) (m : Gaps) → count_gaps (left_piece s p ++ m) a ≡ inside s p a + count_gaps m a
count_left s p a m = elim (lt-or-le s p) [
  | inl left ↦ rw (lt→ltb s p left)
  | inr none_left ↦ rw (le→ltb s p none_left) (omega (arith, inside_cases s p a))
]

IsGaps-left :
    (s p n k : ℕ) (m : Gaps) → n ≤ s → p ≤ k → s ≤ k → IsGaps k m → IsGaps n (left_piece s p ++ m)
IsGaps-left s p n k m h above past g = elim (lt-or-le s p) [
  | inl left ↦ rw (lt→ltb s p left) (h, left, IsGaps-mono p k m above g)
  | inr none_left ↦ rw (le→ltb s p none_left) (IsGaps-mono n k m (omega arith) g)
]

-- Gaps stay gaps.
pub cut_gaps-IsGaps : (p q : ℕ) (m : Gaps) (n : ℕ) → p < q → IsGaps n m → IsGaps n (cut_gaps p q m)
cut_gaps-IsGaps p q [] n h g = unfold cut_gaps in tt
cut_gaps-IsGaps p q ((s, e) ∷ m) n h g = elim (lt-or-le p e) [
  | inr behind ↦ rw (cut_behind p q s e m behind) (g.0, g.1, cut_gaps-IsGaps p q m e h g.2)
  | inl ahead ↦ elim (lt-or-le s q) [
    | inr beyond ↦ rw (cut_beyond p q s e m ahead beyond) g
    | inl meets ↦ elim (lt-or-le q e) [
      | inl right ↦ rw (cut_end p q s e m ahead meets right) (
          IsGaps-left s p n q ((q, e) ∷ m) g.0 (omega arith) (omega arith)
            (omega arith, right, g.2))
      | inr none_right ↦ rw (cut_on p q s e m ahead meets none_right) (
          IsGaps-left s p n e (cut_gaps p q m) g.0 (omega arith) (omega arith)
            (cut_gaps-IsGaps p q m e h g.2))
    ]
  ]
]

-- An address of the record is in no gap any more.
pub count_gaps-cut_gaps :
    (p q a : ℕ) (m : Gaps) (n : ℕ) → IsGaps n m → p ≤ a → a < q → count_gaps (cut_gaps p q m) a ≡ 0
count_gaps-cut_gaps p q a [] n g h k = unfold cut_gaps in refl
count_gaps-cut_gaps p q a ((s, e) ∷ m) n g h k = elim (lt-or-le p e) [
  | inr behind ↦
      rw (cut_behind p q s e m behind)
        (omega (arith, inside_cases s e a, count_gaps-cut_gaps p q a m e g.2 h k))
  | inl ahead ↦ elim (lt-or-le s q) [
    | inr beyond ↦
        rw (cut_beyond p q s e m ahead beyond)
          (omega (arith, inside_cases s e a, count_gaps-below m e a g.2 (omega arith)))
    | inl meets ↦ elim (lt-or-le q e) [
      | inl right ↦
          rw (cut_end p q s e m ahead meets right, count_left s p a ((q, e) ∷ m))
            (omega (
              arith,
              inside_cases s p a,
              inside_cases q e a,
              count_gaps-below m e a g.2 (omega arith),
            ))
      | inr none_right ↦
          rw (cut_on p q s e m ahead meets none_right, count_left s p a (cut_gaps p q m))
            (omega (arith, inside_cases s p a, count_gaps-cut_gaps p q a m e g.2 h k))
    ]
  ]
]

-- What leaves the gaps goes to the spans.
pub count-cut :
    (r : SliceRecord) (q a : ℕ) (m : Gaps) (n : ℕ)
    → IsGaps n m
    → r.pos < q
    → count_gaps (cut_gaps r.pos q m) a + count_spans (cut_spans r q m) a ≡ count_gaps m a
count-cut r q a [] n g h = unfold cut_gaps cut_spans in refl
count-cut r q a ((s, e) ∷ m) n g h = elim (lt-or-le r.pos e) [
  | inr behind ↦
      rw (cut_behind r.pos q s e m behind, span_behind r q s e m behind)
        (omega (arith, count-cut r q a m e g.2 h))
  | inl ahead ↦ elim (lt-or-le s q) [
    | inr beyond ↦
        rw (cut_beyond r.pos q s e m ahead beyond, span_beyond r q s e m ahead beyond) (omega arith)
    | inl meets ↦
        let c = max r.pos s in
        let d = min q e in
        elim (lt-or-le q e) [
          | inl right ↦
              rw
                (
                  cut_end r.pos q s e m ahead meets right,
                  span_end r q s e m ahead meets right,
                  count_left s r.pos a ((q, e) ∷ m),
                )
                (omega (
                  arith,
                  inside_cases s e a,
                  inside_cases s r.pos a,
                  inside_cases q e a,
                  inside_cases c (c + (d - c)) a,
                ))
          | inr none_right ↦
              rw
                (
                  cut_on r.pos q s e m ahead meets none_right,
                  span_on r q s e m ahead meets none_right,
                  count_left s r.pos a (cut_gaps r.pos q m),
                )
                (omega (
                  arith,
                  count-cut r q a m e g.2 h,
                  inside_cases s e a,
                  inside_cases s r.pos a,
                  inside_cases c (c + (d - c)) a,
                ))
        ]
  ]
]

-- A nonempty span of a record's bytes.
pub record IsTaken (r : SliceRecord) (q : ℕ) (x : ResolvedSlice) : Type 0 where
  pub after : r.pos ≤ x.pos
  pub nonempty : 0 < x.len
  pub before : x.pos + x.len ≤ q
  pub same : x ≡ covered_span r x.pos (x.pos + x.len)

pub cut_spans-IsTaken :
    (r : SliceRecord) (q : ℕ) (m : Gaps) (n : ℕ)
    → r.pos < q
    → IsGaps n m
    → All (IsTaken r q) (cut_spans r q m)
cut_spans-IsTaken r q [] n h g = unfold cut_spans in tt
cut_spans-IsTaken r q ((s, e) ∷ m) n h g = elim (lt-or-le r.pos e) [
  | inr behind ↦ rw (span_behind r q s e m behind) (cut_spans-IsTaken r q m e h g.2)
  | inl ahead ↦ elim (lt-or-le s q) [
    | inr beyond ↦ rw (span_beyond r q s e m ahead beyond) tt
    | inl meets ↦
        let taken : IsTaken r q (covered_span r (max r.pos s) (min q e)) = record {
          after = omega arith;
          nonempty = omega arith;
          before = omega arith;
          same = ap (covered_span r (max r.pos s)) (omega arith);
        } in
        elim (lt-or-le q e) [
          | inl right ↦ rw (span_end r q s e m ahead meets right) (taken, tt)
          | inr none_right ↦
              rw (span_on r q s e m ahead meets none_right) (taken, cut_spans-IsTaken r q m e h g.2)
        ]
  ]
]
