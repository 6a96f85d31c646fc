-- ===== src/Slice/Resolve.antt =====
-- `ResolveRange` as a whole: what it returns, and when.
use mathlib.Core.List.{reverse, reverse-cons}
use sword_fs.Prelude.{
  ℕ, ◌+◌, ◌-◌, ◌^◌, ◌≤◌, ◌<◌, ◌≡◌, refl, sym, subst, ◌⊎◌, inl, inr, List, [], ◌∷◌, ◌++◌, map, arith,
  All, All-append, sort_by, IsSortedFrom, sort_by-IsSortedFrom, All-sort_by, Bool-cases, ◌==◌,
  ==_iff,
}
use native.Mathlib.Nat.{mod-eq_of_lt}
use sword_fs.Status.{ok, err, Code}
use sword_fs.Slice.{
  SliceRecord, ResolvedSlice, Gaps, hole, pos_of, overlay_all, merge_all, resolve_spans,
  resolve_range, u32,
}
use sword_fs.Slice.Gaps.{IsGaps}
use sword_fs.Slice.Cut.{inside, inside_cases, count_gaps, count_spans}
use sword_fs.Slice.Visible.{newest, IsValidRecord, validate_all_cases}
use sword_fs.Slice.Overlay.{IsShown, IsOverlay, overlay_all-IsOverlay, count_spans-append}
use sword_fs.Slice.Merge.{
  IsChain, IsCoalesced, IsChain-of_once, count_spans-sort_by, merge_all-IsChain,
  merge_all-IsCoalesced,
}

count_spans-hole : (m : Gaps) (n a : ℕ) → IsGaps n m → count_spans (map hole m) a ≡ count_gaps m a
count_spans-hole [] n a g = refl
count_spans-hole ((s, e) ∷ m) n a g =
    let same : s + (e - s) ≡ e = omega (arith, g.1) in
    rw same (omega (arith, count_spans-hole m e a g.2))

-- A gap that is left shows zeroes.
hole-IsShown :
    (all : List SliceRecord) (m : Gaps) (n : ℕ)
    → IsGaps n m
    → ((a : ℕ) → 0 < count_gaps m a → newest all a ≡ newest [] a)
    → All (IsShown all) (map hole m)
hole-IsShown all [] n g p = tt
hole-IsShown all ((s, e) ∷ m) n g p = (
  record {
    nonempty = omega (arith, g.1);
    shows = λ a h k. sym (p a (omega (arith, inside_cases s e a)));
    offset = inl (refl, refl);
  },
  hole-IsShown all m e g.2 (λ a h. p a (omega arith)),
)

All-reverse {κ} : {A : Type 0} (P : A → Type κ) (xs : List A) → All P xs → All P (reverse xs)
All-reverse P [] h = tt
All-reverse P (x ∷ xs) h =
    rw (reverse-cons x xs) (All-append P (reverse xs) (x ∷ []) (All-reverse P xs h.1) (h.0, tt))

IsOverlay-start :
    (all : List SliceRecord) (lo hi : ℕ) → lo < hi → IsOverlay all all lo hi ((lo, hi) ∷ []) []
IsOverlay-start all lo hi h = record {
  gaps = (omega arith, h, tt);
  once = λ a. omega arith;
  pending = λ a k. refl;
  shown = tt;
}

sorted_from :
    (xs : List ResolvedSlice) (lo hi : ℕ)
    → IsSortedFrom pos_of 0 xs
    → All (λ (x : ResolvedSlice). 0 < x.len) xs
    → ((a : ℕ) → count_spans xs a ≡ inside lo hi a)
    → IsSortedFrom pos_of lo xs
sorted_from [] lo hi s e once = tt
sorted_from (x ∷ xs) lo hi s e once = (
  omega
      (arith, once x.pos, inside_cases x.pos (x.pos + x.len) x.pos, inside_cases lo hi x.pos, e.0),
  s.1,
)

All-nonempty :
    (all : List SliceRecord) (xs : List ResolvedSlice)
    → All (IsShown all) xs
    → All (λ (x : ResolvedSlice). 0 < x.len) xs
All-nonempty all [] h = tt
All-nonempty all (x ∷ xs) h = let shown = h.0 in (shown.nonempty, All-nonempty all xs h.1)

-- The sorted pieces after the loop, before neighbours are merged.
pieces :
    (all : List SliceRecord) (lo hi : ℕ) (m : Gaps) (out : List ResolvedSlice)
    → lo ≤ hi
    → IsOverlay all [] lo hi m out
    → let sorted = sort_by pos_of (out ++ map hole m) in
      IsChain lo hi sorted × All (IsShown all) sorted
pieces all lo hi m out h i = (
  IsChain-of_once sorted lo hi h
      (sorted_from sorted lo hi (sort_by-IsSortedFrom pos_of both) full once) full once,
  shown,
)
  where
    both : List ResolvedSlice
    both = out ++ map hole m

    sorted : List ResolvedSlice
    sorted = sort_by pos_of both

    shown : All (IsShown all) sorted
    shown =
        All-sort_by pos_of (IsShown all) both (
          All-append (IsShown all) out (map hole m) i.shown
            (hole-IsShown all m lo i.gaps i.pending))

    full : All (λ (x : ResolvedSlice). 0 < x.len) sorted
    full = All-nonempty all sorted shown

    once : (a : ℕ) → count_spans sorted a ≡ inside lo hi a
    once a = omega (
      arith,
      count_spans-sort_by both a,
      count_spans-append out (map hole m) a,
      count_spans-hole m lo a i.gaps,
      i.once a,
    )

module _ (records : List SliceRecord) (chunk_size pos len : ℕ) where
  resolve_spans-IsChain :
      chunk_size < 2 ^ 32
      → pos + len ≤ chunk_size
      → All (IsValidRecord chunk_size) records
      → All (λ (r : SliceRecord). r.size < 2 ^ 32) records
      → IsChain pos (pos + len) (resolve_spans records pos len)
        × All (IsShown (reverse records)) (resolve_spans records pos len)
        × IsCoalesced (resolve_spans records pos len)
  unfolding resolve_spans
  resolve_spans-IsChain c h v w = elim (Bool-cases (len == 0)) [
    | inl none ↦ rw none (omega (arith, (==_iff len 0).0 none), tt, tt)
    | inr some_bytes ↦
        let newest_first = reverse records in
        let hi = u32 (pos + len) in
        let whole : hi ≡ pos + len = mod-eq_of_lt (omega arith) in
        let rising : pos < hi = ground arith in
        let after = overlay_all newest_first ((pos, hi) ∷ []) [] in
        let i =
          overlay_all-IsOverlay newest_first newest_first chunk_size pos hi ((pos, hi) ∷ []) [] c
            (All-reverse (IsValidRecord chunk_size) records v)
            (All-reverse (λ (r : SliceRecord). r.size < 2 ^ 32) records w)
            (IsOverlay-start newest_first pos hi rising) in
        let (chain, shown) = pieces newest_first pos hi after.0 after.1 (omega arith) i in
        let sorted = sort_by pos_of (after.1 ++ map hole after.0) in
        let (merged, all) =
          merge_all-IsChain newest_first pos pos hi [] sorted (omega arith) tt shown refl chain in
        rw some_bytes (
          subst (λ k. IsChain pos k (merge_all [] sorted)) whole merged,
          all,
          merge_all-IsCoalesced [] sorted tt,
        )
  ]

  -- A read that succeeds returns spans that tile the range `[pos, pos + len)`: nonempty, in order,
  -- without a break, no two neighbours left to merge; and each span shows, at each of its addresses,
  -- the byte of the newest record that covers it, or a zero where none does.
  -- It holds for 32-bit chunk and object sizes.
  pub resolve_range_sound :
      (out : List ResolvedSlice)
      → chunk_size < 2 ^ 32
      → All (λ (r : SliceRecord). r.size < 2 ^ 32) records
      → resolve_range records chunk_size pos len ≡ ok out
      → IsChain pos (pos + len) out × All (IsShown (reverse records)) out × IsCoalesced out
  unfolding resolve_range
  resolve_range_sound out c w e =
      let h : pos + len ≤ chunk_size = ground arith in
      elim (validate_all_cases records chunk_size) [
        | inr (bad, failed) ↦ absurd (ground arith)
        | inl (valid, checked) ↦
            let same : resolve_spans records pos len ≡ out = ground arith in
            rw (← same) (resolve_spans-IsChain c h valid w)
      ]

  -- A read succeeds exactly when the range lies in the chunk and every record of the history is valid,
  -- and otherwise tells a wrong request from a malformed history.
  pub resolve_range_total :
      ((0 < chunk_size)
        × (pos + len ≤ chunk_size)
        × All (IsValidRecord chunk_size) records
        × ((out : List ResolvedSlice) × (resolve_range records chunk_size pos len ≡ ok out)))
      ⊎ (((chunk_size ≡ 0) ⊎ (chunk_size < pos + len))
          × (resolve_range records chunk_size pos len ≡ err Code.invalid_argument))
      ⊎ ((0 < chunk_size)
          × (pos + len ≤ chunk_size)
          × (¬ All (IsValidRecord chunk_size) records)
          × (resolve_range records chunk_size pos len ≡ err Code.malformed))
  unfolding resolve_range
  resolve_range_total = elim (validate_all_cases records chunk_size) [
    | inr (bad, failed) ↦ ground (arith, bad, failed)
    | inl (valid, checked) ↦ ground (arith, valid, checked)
  ]
