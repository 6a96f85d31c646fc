-- ===== src/Slice/Merge.antt =====
-- The sorting of the spans and the merging of neighbours in `ResolveRange`.
use sword_fs.Prelude.{
  ℕ, ◌+◌, ◌-◌, ◌^◌, ◌≤◌, ◌<◌, ◌≡◌, refl, sym, subst, ◌∙◌, ◌⊎◌, inl, inr, true, false, List, [], ◌∷◌,
  arith, All, sort_by, insert_by, IsSortedFrom, lt-or-le, le→leb, lt→leb, Bool-cases,
}
use native.Mathlib.Nat.{mod-eq_of_lt}
use sword_fs.Slice.{SliceRecord, ResolvedSlice, pos_of, append_coalesced, merge_all, extends, u32}
use sword_fs.Slice.Cut.{inside, inside_cases, count_spans}
use sword_fs.Slice.Visible.{span_byte}
use sword_fs.Slice.Overlay.{IsShown}

count_spans-insert_by :
    (x : ResolvedSlice) (xs : List ResolvedSlice) (a : ℕ)
    → count_spans (insert_by pos_of x xs) a ≡ inside x.pos (x.pos + x.len) a + count_spans xs a
count_spans-insert_by x [] a = refl
count_spans-insert_by x (y ∷ ys) a = elim (lt-or-le y.pos x.pos) [
  | inl after ↦ rw (lt→leb x.pos y.pos after) (omega (arith, count_spans-insert_by x ys a))
  | inr before ↦ rw (le→leb x.pos y.pos before)
]

pub count_spans-sort_by :
    (xs : List ResolvedSlice) (a : ℕ) → count_spans (sort_by pos_of xs) a ≡ count_spans xs a
count_spans-sort_by [] a = refl
count_spans-sort_by (x ∷ xs) a =
    omega (arith, count_spans-insert_by x (sort_by pos_of xs) a, count_spans-sort_by xs a)

-- Nonempty spans that follow one another from `lo` to `hi` without a break.
abbrev pub IsChain : ℕ → ℕ → List ResolvedSlice → Type 0
IsChain lo hi [] = lo ≡ hi
IsChain lo hi (x ∷ xs) = (x.pos ≡ lo) × (0 < x.len) × IsChain (x.pos + x.len) hi xs

abbrev IsNonempty : ResolvedSlice → Type 0
IsNonempty x = 0 < x.len

count_spans-below :
    (xs : List ResolvedSlice) (n a : ℕ) → IsSortedFrom pos_of n xs → a < n → count_spans xs a ≡ 0
count_spans-below [] n a s h = refl
count_spans-below (x ∷ xs) n a s h =
    omega
      (arith, inside_cases x.pos (x.pos + x.len) a, count_spans-below xs x.pos a s.1 (omega arith))

-- Sorted spans that meet every address of the range once, and no other, are a chain.
pub IsChain-of_once :
    (xs : List ResolvedSlice) (lo hi : ℕ)
    → lo ≤ hi
    → IsSortedFrom pos_of lo xs
    → All IsNonempty xs
    → ((a : ℕ) → count_spans xs a ≡ inside lo hi a)
    → IsChain lo hi xs
IsChain-of_once [] lo hi h s e once = omega (arith, once lo, inside_cases lo hi lo)
IsChain-of_once (x ∷ xs) lo hi h s e once =
    (first, e.0, IsChain-of_once xs (x.pos + x.len) hi ends (later xs s.1 e.1 rest) e.1 rest)
  where
    first : x.pos ≡ lo
    first = elim (lt-or-le lo x.pos) [
      | inr at ↦ omega (arith, s.0)
      | inl late ↦ absurd (
          omega (
            arith,
            once x.pos,
            once lo,
            inside_cases x.pos (x.pos + x.len) x.pos,
            inside_cases x.pos (x.pos + x.len) lo,
            inside_cases lo hi x.pos,
            inside_cases lo hi lo,
            count_spans-below xs x.pos lo s.1 late,
            e.0,
          ))
    ]

    ends : x.pos + x.len ≤ hi
    ends = omega (
      arith,
      once (x.pos + x.len - 1),
      inside_cases x.pos (x.pos + x.len) (x.pos + x.len - 1),
      inside_cases lo hi (x.pos + x.len - 1),
      e.0,
    )

    rest : (a : ℕ) → count_spans xs a ≡ inside (x.pos + x.len) hi a
    rest a = omega (
      arith,
      once a,
      first,
      ends,
      inside_cases x.pos (x.pos + x.len) a,
      inside_cases lo hi a,
      inside_cases (x.pos + x.len) hi a,
    )

    later :
        (ys : List ResolvedSlice)
        → IsSortedFrom pos_of x.pos ys
        → All IsNonempty ys
        → ((a : ℕ) → count_spans ys a ≡ inside (x.pos + x.len) hi a)
        → IsSortedFrom pos_of (x.pos + x.len) ys
    later [] s' e' once' = tt
    later (y ∷ ys) s' e' once' = (
      omega (
        arith,
        once' y.pos,
        inside_cases y.pos (y.pos + y.len) y.pos,
        inside_cases (x.pos + x.len) hi y.pos,
        e'.0,
      ),
      s'.1,
    )

module _ (last span : ResolvedSlice) where
  extends_origin :
      extends last span ≡ true
      → ((last.id ≡ 0) × (last.off ≡ 0)) ⊎ ((0 < last.id) × (last.off + last.len < 2 ^ 32))
      → (last.id ≡ span.id) × ((span.id ≡ 0) ⊎ (last.off + last.len ≡ span.off))
  extends_origin e (inl none) = (ground arith, inl (ground arith))
  extends_origin e (inr (real, small)) =
      let whole = mod-eq_of_lt small in (ground arith, inr (ground arith))

  same_byte :
      (a : ℕ)
      → last.pos + last.len ≡ span.pos
      → span.pos ≤ a
      → last.pos ≤ a
      → last.id ≡ span.id
      → (span.id ≡ 0) ⊎ (last.off + last.len ≡ span.off)
      → span_byte last a ≡ span_byte span a
  same_byte a next h k same origin = ground arith

  merged_offset :
      last.id ≡ span.id
      → (span.id ≡ 0) ⊎ (last.off + last.len ≡ span.off)
      → ((last.id ≡ 0) × (last.off ≡ 0)) ⊎ ((0 < last.id) × (last.off + last.len < 2 ^ 32))
      → ((span.id ≡ 0) × (span.off ≡ 0)) ⊎ ((0 < span.id) × (span.off + span.len < 2 ^ 32))
      → ((last.id ≡ 0) × (last.off ≡ 0))
        ⊎ ((0 < last.id) × (last.off + (last.len + span.len) < 2 ^ 32))
  merged_offset same origin l s = omega arith

module _ (records : List SliceRecord) where
  -- Two neighbours that are merged show what they showed apart.
  merged_IsShown :
      (last span : ResolvedSlice)
      → last.pos + last.len ≡ span.pos
      → span.pos + span.len < 2 ^ 32
      → extends last span ≡ true
      → IsShown records last
      → IsShown records span
      → (u32 (last.len + span.len) ≡ last.len + span.len)
        × IsShown records (record last { len = last.len + span.len })
  merged_IsShown last span next small e l s =
      let (same, origin) = extends_origin last span e l.offset in
      (
        mod-eq_of_lt (omega (arith, next)),
        record {
          nonempty = omega (arith, l.nonempty);
          shows = λ a h k. elim (lt-or-le a span.pos) [
            | inl old ↦ l.shows a h (omega (arith, next))
            | inr new ↦
                same_byte last span a next new (omega (arith, l.nonempty)) same origin
                ∙ s.shows a new (omega (arith, next))
          ];
          offset = merged_offset last span same origin l.offset s.offset;
        },
      )

  append_coalesced-IsChain :
      (span : ResolvedSlice) (lo : ℕ) (xs : List ResolvedSlice)
      → span.pos + span.len < 2 ^ 32
      → IsShown records span
      → All (IsShown records) xs
      → IsChain lo span.pos xs
      → IsChain lo (span.pos + span.len) (append_coalesced span xs)
        × All (IsShown records) (append_coalesced span xs)
  unfolding append_coalesced
  append_coalesced-IsChain span lo [] small s shown chain = ((sym chain, s.nonempty, refl), (s, tt))
  append_coalesced-IsChain span lo (last ∷ []) small s shown chain =
      elim (Bool-cases (extends last span)) [
        | inr apart ↦
            rw apart ((chain.0, chain.1, (sym chain.2, s.nonempty, refl)), (shown.0, (s, tt)))
        | inl joined ↦
            let (whole, both) = merged_IsShown last span chain.2 small joined shown.0 s in
            rw (joined, whole) ((chain.0, both.nonempty, omega (arith, chain.2)), (both, tt))
      ]
  append_coalesced-IsChain span lo (x ∷ y ∷ rest) small s shown chain =
      let (c, all) =
        append_coalesced-IsChain span (x.pos + x.len) (y ∷ rest) small s shown.1 chain.2 in
      ((chain.0, chain.1, c), (shown.0, all))

IsChain-le : (lo hi : ℕ) (xs : List ResolvedSlice) → IsChain lo hi xs → lo ≤ hi
IsChain-le lo hi [] c = omega arith
IsChain-le lo hi (x ∷ xs) c = omega (arith, IsChain-le (x.pos + x.len) hi xs c.2)

-- Merging keeps the chain, and what each address shows.
pub merge_all-IsChain :
    (records : List SliceRecord) (lo mid hi : ℕ) (merged rest : List ResolvedSlice)
    → hi < 2 ^ 32
    → All (IsShown records) merged
    → All (IsShown records) rest
    → IsChain lo mid merged
    → IsChain mid hi rest
    → IsChain lo hi (merge_all merged rest) × All (IsShown records) (merge_all merged rest)
unfolding merge_all
merge_all-IsChain records lo mid hi merged [] h s t c d = (subst (λ k. IsChain lo k merged) d c, s)
merge_all-IsChain records lo mid hi merged (x ∷ rest) h s t c d =
    let small : x.pos + x.len < 2 ^ 32 = omega (arith, IsChain-le (x.pos + x.len) hi rest d.2) in
    let (c', s') =
      append_coalesced-IsChain records x lo merged small t.0 s
        (subst (λ k. IsChain lo k merged) (sym d.0) c) in
    merge_all-IsChain records lo (x.pos + x.len) hi (append_coalesced x merged) rest h s' t.1 c' d.2

-- No two neighbours could be merged.
abbrev pub IsCoalesced : List ResolvedSlice → Type 0
IsCoalesced [] = Unit {0}
IsCoalesced (x ∷ []) = Unit {0}
IsCoalesced (x ∷ y ∷ rest) = (extends x y ≡ false) × IsCoalesced (y ∷ rest)

append_coalesced-IsCoalesced :
    (span : ResolvedSlice) (xs : List ResolvedSlice)
    → IsCoalesced xs
    → IsCoalesced (append_coalesced span xs)
unfolding append_coalesced
append_coalesced-IsCoalesced span [] c = tt
append_coalesced-IsCoalesced span (x ∷ []) c = elim (Bool-cases (extends x span)) [
  | inl joined ↦ rw joined tt
  | inr apart ↦ rw apart (apart, tt)
]
append_coalesced-IsCoalesced span (x ∷ y ∷ []) c = elim (Bool-cases (extends y span)) [
  | inl joined ↦ rw joined c
  | inr apart ↦ rw apart (c.0, (apart, tt))
]
append_coalesced-IsCoalesced span (x ∷ y ∷ z ∷ rest) c =
    (c.0, append_coalesced-IsCoalesced span (y ∷ z ∷ rest) c.1)

pub merge_all-IsCoalesced :
    (merged rest : List ResolvedSlice) → IsCoalesced merged → IsCoalesced (merge_all merged rest)
unfolding merge_all
merge_all-IsCoalesced merged [] c = c
merge_all-IsCoalesced merged (x ∷ rest) c =
    merge_all-IsCoalesced (append_coalesced x merged) rest (append_coalesced-IsCoalesced x merged c)
