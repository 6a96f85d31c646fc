-- ===== src/Slice/Gaps.antt =====
-- The loop of `ResolveRange` over the ordered map of gaps, and the pass that cuts the record's range
-- out of every gap.
use mathlib.Core.Path.{ap₂}
use native.Mathlib.Nat.{mod-eq_of_lt}
use sword_fs.Prelude.{
  ◌^◌, ℕ, zero, suc, ◌+◌, ◌≤◌, ◌<◌, ◌≡◌, refl, sym, ap, ◌∙◌, min, max, ltb, leb, if◌then◌else◌,
  none, some, List, [], ◌∷◌, ◌++◌, length, arith, head?, append_assoc, append-nil, lt-or-le, lt→ltb,
  le→ltb, le→leb, lt→leb, Option-cases, inl, inr,
}
use sword_fs.Slice.{
  SliceRecord, ResolvedSlice, Gaps, erase_key, emplace, lower_bound, upper_bound,
  before_upper_bound, first_gap, covered_span, split_gap, overlay_loop, overlay_record,
}

-- Nonempty gaps in rising order from a bound on, none of which overlap.
abbrev pub IsGaps : ℕ → Gaps → Type 0
IsGaps n [] = Unit {0}
IsGaps n ((s, e) ∷ m) = (n ≤ s) × (s < e) × IsGaps e m

-- Every key is below the bound.
abbrev Below : ℕ → Gaps → Type 0
Below k [] = Unit {0}
Below k ((s, e) ∷ m) = (s < k) × Below k m

-- What a range that begins at `p` leaves on its left of a gap that begins at `s`.
abbrev pub left_piece : ℕ → ℕ → Gaps
left_piece s p = if ltb s p then (s, p) ∷ [] else []

-- What `[p, q)` leaves of the gaps, and the spans that a record takes of them up to `q`.
unfoldable pub cut_gaps : ℕ → ℕ → Gaps → Gaps
cut_gaps p q [] = []
cut_gaps p q ((s, e) ∷ m) =
    let rest = cut_gaps p q m in
    if leb e p
    then (s, e) ∷ rest
    else if leb q s
    then (s, e) ∷ m
    else left_piece s p ++ (if ltb q e then (q, e) ∷ m else rest)

unfoldable pub cut_spans : SliceRecord → ℕ → Gaps → List ResolvedSlice
cut_spans r q [] = []
cut_spans r q ((s, e) ∷ m) =
    let rest = cut_spans r q m in
    if leb e r.pos
    then rest
    else if leb q s
    then []
    else covered_span r (max r.pos s) (min q e) ∷ (if ltb q e then [] else rest)

Below-append : (k : ℕ) (l : Gaps) (s e : ℕ) → Below k l → s < k → Below k (l ++ (s, e) ∷ [])
Below-append k [] s e b h = (h, tt)
Below-append k (x ∷ l) s e b h = (b.0, Below-append k l s e b.1 h)

Below-mono : (j k : ℕ) (l : Gaps) → j ≤ k → Below j l → Below k l
Below-mono j k [] h b = tt
Below-mono j k (x ∷ l) h b = (omega arith, Below-mono j k l h b.1)

erase_key-append :
    (l : Gaps) (s e : ℕ) (m : Gaps) → Below s l → erase_key s (l ++ (s, e) ∷ m) ≡ l ++ m
unfolding erase_key
erase_key-append [] s e m b = ground arith
erase_key-append (x ∷ l) s e m b = ground (arith, erase_key-append l s e m b.1)

emplace-append :
    (l : Gaps) (k v : ℕ) (m : Gaps)
    → Below k l
    → IsGaps (suc k) m
    → emplace k v (l ++ m) ≡ l ++ (k, v) ∷ m
unfolding emplace
emplace-append [] k v [] b g = refl
emplace-append [] k v (x ∷ m) b g = ground arith
emplace-append (x ∷ l) k v m b g = ground (arith, emplace-append l k v m b.1 g)

lower_bound-append :
    (l : Gaps) (k : ℕ) (m : Gaps) → Below k l → IsGaps k m → lower_bound k (l ++ m) ≡ head? m
unfolding lower_bound
lower_bound-append [] k [] b g = refl
lower_bound-append [] k (x ∷ m) b g = ground arith
lower_bound-append (x ∷ l) k m b g = ground (arith, lower_bound-append l k m b.1 g)

cut_gaps-above : (p q : ℕ) (m : Gaps) → IsGaps q m → p < q → cut_gaps p q m ≡ m
unfolding cut_gaps
cut_gaps-above p q [] g h = refl
cut_gaps-above p q (x ∷ m) g h = ground arith

cut_spans-above :
    (r : SliceRecord) (q : ℕ) (m : Gaps) → IsGaps q m → r.pos < q → cut_spans r q m ≡ []
unfolding cut_spans
cut_spans-above r q [] g h = refl
cut_spans-above r q (x ∷ m) g h = ground arith

pub IsGaps-mono : (a b : ℕ) (m : Gaps) → a ≤ b → IsGaps b m → IsGaps a m
IsGaps-mono a b [] h g = tt
IsGaps-mono a b (x ∷ m) h g = (omega arith, g.1, g.2)

left_step :
    (p s : ℕ) (l m : Gaps)
    → Below s l
    → IsGaps (suc s) m
    → (if ltb s (max p s) then emplace s (max p s) (l ++ m) else l ++ m)
      ≡ (l ++ left_piece s p) ++ m
left_step p s l m b g = elim (lt-or-le s p) [
  | inl left ↦
      let at : max p s ≡ p = omega arith in
      rw (at, lt→ltb s p left) (emplace-append l s p m b g ∙ sym (append_assoc l _ m))
  | inr none_left ↦
      let at : max p s ≡ s = omega arith in
      rw (at, le→ltb s s (omega arith), le→ltb s p none_left)
        (ap (λ t. t ++ m) (sym (append-nil l)))
]

Below-left_piece : (p s k : ℕ) (l : Gaps) → Below s l → s < k → Below k (l ++ left_piece s p)
Below-left_piece p s k l b h = elim (lt-or-le s p) [
  | inl left ↦ rw (lt→ltb s p left) (Below-append k l s p (Below-mono s k l (omega arith) b) h)
  | inr none_left ↦ rw (le→ltb s p none_left, append-nil l) (Below-mono s k l (omega arith) b)
]

split_gap-append :
    (p q s e : ℕ) (l m : Gaps)
    → s < q
    → s < e
    → Below s l
    → IsGaps e m
    → split_gap s e (max p s) (min q e) (l ++ (s, e) ∷ m)
      ≡ (l ++ left_piece s p) ++ (if ltb q e then (q, e) ∷ m else m)
unfolding split_gap
split_gap-append p q s e l m meets filled b g =
    rw (erase_key-append l s e m b, left_step p s l m b (IsGaps-mono (suc s) e m filled g))
      (elim (lt-or-le q e) [
        | inl right ↦
            let at : min q e ≡ q = omega arith in
            rw (at, lt→ltb q e right)
              (emplace-append (l ++ left_piece s p) q e m (Below-left_piece p s q l b meets)
                (IsGaps-mono (suc q) e m right g))
        | inr none_right ↦
            let at : min q e ≡ e = omega arith in
            rw (at, le→ltb q e none_right, le→ltb e e (omega arith))
      ])

-- The first gap, if there is one, ends behind the position.
abbrev Past : ℕ → Gaps → Type 0
Past p [] = Unit {0}
Past p ((s, e) ∷ m) = p < e

overlay_loop-stop :
    (r : SliceRecord) (q fuel s e : ℕ) (m : Gaps) (acc : List ResolvedSlice)
    → q ≤ s
    → overlay_loop fuel r q (some (s, e)) m acc ≡ (m, acc)
unfolding overlay_loop
overlay_loop-stop r q zero s e m acc h = refl
overlay_loop-stop r q (suc fuel) s e m acc h = rw (le→ltb s q h)

Past-next : (p e : ℕ) (m : Gaps) → p < e → IsGaps e m → Past p m
Past-next p e [] h g = tt
Past-next p e (x ∷ m) h g = omega arith

-- From any gap on, the loop cuts the record's range out of the gaps that are left.
overlay_loop-cut :
    (r : SliceRecord) (q : ℕ)
    → r.pos < q
    → (fuel b : ℕ) (l m : Gaps) (acc : List ResolvedSlice) → length m < fuel
    → Below b l
    → IsGaps b m
    → Past r.pos m
    → overlay_loop fuel r q (head? m) (l ++ m) acc
      ≡ (l ++ cut_gaps r.pos q m, acc ++ cut_spans r q m)
unfolding overlay_loop cut_gaps cut_spans
overlay_loop-cut r q h zero b l m acc f bl g past = absurd (omega arith)
overlay_loop-cut r q h (suc fuel) b l [] acc f bl g past = rw (append-nil acc)
overlay_loop-cut r q h (suc fuel) b l ((s, e) ∷ m) acc f bl g past = elim (lt-or-le s q) [
  | inr beyond ↦ rw (le→ltb s q beyond, lt→leb e r.pos past, le→leb q s beyond, append-nil acc)
  | inl meets ↦
      let filled = g.1 in
      let rest = g.2 in
      let below = Below-mono b s l g.0 bl in
      let left = l ++ left_piece s r.pos in
      rw
        (
          lt→ltb s q meets,
          lt→leb e r.pos past,
          lt→leb q s meets,
          split_gap-append r.pos q s e l m meets filled below rest,
        )
        (elim (lt-or-le q e) [
          | inl right ↦
              let at : min q e ≡ q = omega arith in
              rw (
                lt→ltb q e right,
                at,
                lower_bound-append left q ((q, e) ∷ m) (Below-left_piece r.pos s q l below meets)
                    (omega arith, right, rest),
                overlay_loop-stop r q fuel q e (left ++ (q, e) ∷ m)
                    (acc ++ covered_span r (max r.pos s) q ∷ []) (omega arith),
                append_assoc l (left_piece s r.pos) ((q, e) ∷ m),
              )
          | inr none_right ↦
              let at : min q e ≡ e = omega arith in
              let under = Below-left_piece r.pos s e l below filled in
              rw (
                le→ltb q e none_right,
                at,
                lower_bound-append left e m under rest,
                overlay_loop-cut r q h fuel e left m (acc ++ covered_span r (max r.pos s) e ∷ [])
                    (omega arith) under rest (Past-next r.pos e m past rest),
                append_assoc l (left_piece s r.pos) (cut_gaps r.pos q m),
                append_assoc acc (covered_span r (max r.pos s) e ∷ []) (cut_spans r q m),
              )
        ])
]

-- The gaps that end at or before the position, and the others.
ended : ℕ → Gaps → Gaps
ended p [] = []
ended p ((s, e) ∷ m) = let rest = ended p m in if leb e p then (s, e) ∷ rest else []

open_from : ℕ → Gaps → Gaps
open_from p [] = []
open_from p ((s, e) ∷ m) = let rest = open_from p m in if leb e p then rest else (s, e) ∷ m

ended-append-open_from : (p : ℕ) (m : Gaps) → ended p m ++ open_from p m ≡ m
unfolding ended open_from
ended-append-open_from p [] = refl
ended-append-open_from p ((s, e) ∷ m) = ground (arith, ended-append-open_from p m)

before_upper_bound-above : (p : ℕ) (m : Gaps) → IsGaps (suc p) m → before_upper_bound p m ≡ none
unfolding before_upper_bound
before_upper_bound-above p [] g = refl
before_upper_bound-above p (x ∷ m) g = ground arith

upper_bound-above : (p : ℕ) (m : Gaps) → IsGaps (suc p) m → upper_bound p m ≡ head? m
unfolding upper_bound
upper_bound-above p [] g = refl
upper_bound-above p (x ∷ m) g = ground arith

-- The loop begins with the first gap that ends behind the record's start.
first_gap_lem : (p n : ℕ) (m : Gaps) → IsGaps n m → first_gap p m ≡ head? (open_from p m)
unfolding first_gap before_upper_bound upper_bound open_from
first_gap_lem p n [] g = refl
first_gap_lem p n ((s, e) ∷ m) g = elim (lt-or-le p e) [
  | inl ahead ↦
      let rest = before_upper_bound-above p m (IsGaps-mono (suc p) e m ahead g.2) in ground arith
  | inr behind ↦ elim (Option-cases (before_upper_bound p m)) [
    | inl first ↦ ground (arith, first_gap_lem p e m g.2)
    | inr ((a, b), found) ↦ ground (arith, first_gap_lem p e m g.2)
  ]
]

-- One pass over the gaps that end at or before the record, and the cut of the others.
module _ (r : SliceRecord) (q : ℕ) where
  cut_gaps-ended :
      (m : Gaps) → ended r.pos m ++ cut_gaps r.pos q (open_from r.pos m) ≡ cut_gaps r.pos q m
  unfolding ended open_from cut_gaps
  cut_gaps-ended [] = refl
  cut_gaps-ended ((s, e) ∷ m) = elim (lt-or-le r.pos e) [
    | inl ahead ↦ rw (lt→leb e r.pos ahead, lt→leb e r.pos ahead)
    | inr behind ↦ rw (le→leb e r.pos behind) (ap (◌∷◌ (s, e)) (cut_gaps-ended m))
  ]

  cut_spans-ended : (m : Gaps) → cut_spans r q (open_from r.pos m) ≡ cut_spans r q m
  unfolding open_from cut_spans
  cut_spans-ended [] = refl
  cut_spans-ended ((s, e) ∷ m) = elim (lt-or-le r.pos e) [
    | inl ahead ↦ rw (lt→leb e r.pos ahead, lt→leb e r.pos ahead)
    | inr behind ↦ rw (le→leb e r.pos behind) (cut_spans-ended m)
  ]

-- A bound between the two parts.
parting :
    (p n : ℕ) (m : Gaps)
    → IsGaps n m
    → (b : ℕ) × (n ≤ b) × Below b (ended p m) × IsGaps b (open_from p m) × Past p (open_from p m)
unfolding ended open_from
parting p n [] g = (n, omega arith, tt, tt, tt)
parting p n ((s, e) ∷ m) g = elim (lt-or-le p e) [
  | inl ahead ↦ rw (lt→leb e p ahead) (s, g.0, tt, (omega arith, g.1, g.2), ahead)
  | inr behind ↦
      let (b, above, below, rest, past) = parting p e m g.2 in
      rw (le→leb e p behind) (b, omega arith, (omega arith, below), rest, past)
]

length-open_from : (p : ℕ) (m : Gaps) → length (open_from p m) ≤ length m
unfolding open_from
length-open_from p [] = omega arith
length-open_from p ((s, e) ∷ m) = ground (arith, length-open_from p m)

-- One record: its range is cut out of every gap, and what it takes is added to the spans.
pub overlay_record_lem :
    (r : SliceRecord) (n : ℕ) (m : Gaps) (acc : List ResolvedSlice)
    → IsGaps n m
    → 0 < r.len
    → r.pos + r.len < 2 ^ 32
    → overlay_record r m acc
      ≡ (cut_gaps r.pos (r.pos + r.len) m, acc ++ cut_spans r (r.pos + r.len) m)
unfolding overlay_record
overlay_record_lem r n m acc g some_bytes small =
    let q = r.pos + r.len in
    let (b, _, below, rest, past) = parting r.pos n m g in
    let opened = open_from r.pos m in
    let looped =
      overlay_loop-cut r q (omega arith) (suc (length m)) b (ended r.pos m) opened acc
        (omega (arith, length-open_from r.pos m)) below rest past in
    ap₂ (λ k gap. overlay_loop (suc (length m)) r k gap m acc) (mod-eq_of_lt small)
      (first_gap_lem r.pos n m g)
    ∙ (rw (ended-append-open_from r.pos m, cut_gaps-ended r q m, cut_spans-ended r q m) at looped)
