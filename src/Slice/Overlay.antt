-- ===== src/Slice/Overlay.antt =====
-- The loop over the records, newest first: what it knows between two records.
use native.Mathlib.Nat.{mod-eq_of_lt}
use sword_fs.Prelude.{
  ℕ, ◌+◌, ◌-◌, ◌^◌, ◌≤◌, ◌<◌, ◌≡◌, sym, ap, subst, ◌∙◌, ◌⊎◌, inl, inr, List, [], ◌∷◌, ◌++◌, arith,
  All, Elem, All-Elem, All-of_Elem, All-append, lt-or-le, le→leb, lt→ltb,
}
use sword_fs.Slice.{SliceRecord, ResolvedSlice, Gaps, overlay_all, overlay_record}
use sword_fs.Slice.Gaps.{IsGaps, cut_gaps, cut_spans, overlay_record_lem}
use sword_fs.Slice.Cut.{
  inside, inside_cases, count_gaps, count_spans, count_gaps-cut_gaps, count-cut, cut_gaps-IsGaps,
  IsTaken, cut_spans-IsTaken,
}
use sword_fs.Slice.Visible.{newest, record_byte, span_byte, IsValidRecord}

-- A span shows, at each of its addresses, what the records show there.
pub record IsShown (records : List SliceRecord) (x : ResolvedSlice) : Type 0 where
  pub nonempty : 0 < x.len
  pub shows : (a : ℕ) → x.pos ≤ a → a < x.pos + x.len → span_byte x a ≡ newest records a
  pub offset : ((x.id ≡ 0) × (x.off ≡ 0)) ⊎ ((0 < x.id) × (x.off + x.len < 2 ^ 32))

-- Between two records: every address of the range is in one gap or one span, what is in a gap is
-- decided by the records that are left, and what is in a span is decided.
pub record IsOverlay (all rest : List SliceRecord) (lo hi : ℕ) (m : Gaps) (out : List ResolvedSlice)
    : Type 0 where
  pub gaps : IsGaps lo m
  pub once : (a : ℕ) → count_gaps m a + count_spans out a ≡ inside lo hi a
  pub pending : (a : ℕ) → 0 < count_gaps m a → newest all a ≡ newest rest a
  pub shown : All (IsShown all) out

pub count_spans-append :
    (xs ys : List ResolvedSlice) (a : ℕ)
    → count_spans (xs ++ ys) a ≡ count_spans xs a + count_spans ys a
count_spans-append [] ys a = omega arith
count_spans-append (x ∷ xs) ys a = omega (arith, count_spans-append xs ys a)

count_spans-Elem :
    (x : ResolvedSlice) (xs : List ResolvedSlice) (a : ℕ)
    → Elem x xs
    → x.pos ≤ a
    → a < x.pos + x.len
    → 0 < count_spans xs a
count_spans-Elem x [] a e h k = absurd e
count_spans-Elem x (y ∷ ys) a (inl e) h k =
    rw (← e) (omega (arith, inside_cases x.pos (x.pos + x.len) a))
count_spans-Elem x (y ∷ ys) a (inr e) h k = omega (arith, count_spans-Elem x ys a e h k)

newest_here :
    (r : SliceRecord) (older : List SliceRecord) (a : ℕ)
    → r.pos ≤ a
    → a < r.pos + r.len
    → newest (r ∷ older) a ≡ record_byte r a
newest_here r older a h k = rw (le→leb r.pos a h, lt→ltb a (r.pos + r.len) k)

newest_older :
    (r : SliceRecord) (older : List SliceRecord) (a : ℕ)
    → (a < r.pos) ⊎ (r.pos + r.len ≤ a)
    → newest (r ∷ older) a ≡ newest older a
newest_older r older a h = ground arith

-- A span that was taken of a record names its object at the right offset.
taken_origin :
    (r : SliceRecord) (x : ResolvedSlice) (chunk_size : ℕ)
    → IsValidRecord chunk_size r
    → r.size < 2 ^ 32
    → IsTaken r (r.pos + r.len) x
    → ((r.id ≡ 0) × (x.id ≡ 0) × (x.off ≡ 0))
      ⊎ ((0 < r.id) × (x.id ≡ r.id) × (x.off ≡ r.off + (x.pos - r.pos)) × (x.off + x.len < 2 ^ 32))
taken_origin r x chunk_size v w t =
    let same_id = ap (λ (y : ResolvedSlice). y.id) t.same in
    let same_off = ap (λ (y : ResolvedSlice). y.off) t.same in
    elim v.object [
      | inl (zero_id, _, _) ↦ inl (zero_id, same_id ∙ zero_id, ground arith)
      | inr (real, _, _, room) ↦
          let whole =
            mod-eq_of_lt {n = r.off + (x.pos - r.pos)} {m = 2 ^ 32}
              (omega (arith, t.after, t.nonempty, t.before)) in
          let at : x.off ≡ r.off + (x.pos - r.pos) = ground arith in
          inr (real, same_id, at, omega (arith, at, t.after, t.nonempty, t.before))
    ]

taken_byte :
    (r : SliceRecord) (x : ResolvedSlice) (chunk_size a : ℕ)
    → IsValidRecord chunk_size r
    → r.size < 2 ^ 32
    → IsTaken r (r.pos + r.len) x
    → x.pos ≤ a
    → span_byte x a ≡ record_byte r a
taken_byte r x chunk_size a v w t h =
    let origin = taken_origin r x chunk_size v w t in let after = t.after in ground arith

IsOverlay-step :
    (all older : List SliceRecord) (r : SliceRecord) (chunk_size lo hi : ℕ) (m : Gaps)
    (out : List ResolvedSlice)
    → IsValidRecord chunk_size r
    → r.size < 2 ^ 32
    → IsOverlay all (r ∷ older) lo hi m out
    → IsOverlay all older lo hi
        (cut_gaps r.pos (r.pos + r.len) m)
        (out ++ cut_spans r (r.pos + r.len) m)
IsOverlay-step all older r chunk_size lo hi m out v w i = record {
  gaps = cut_gaps-IsGaps r.pos q m lo rising i.gaps;
  once = λ a. omega (
    arith,
    i.once a,
    count_spans-append out (cut_spans r q m) a,
    count-cut r q a m lo i.gaps rising,
  );
  pending = λ a left.
      i.pending a (omega (arith, count-cut r q a m lo i.gaps rising))
      ∙ newest_older r older a (outside a left);
  shown =
      All-append (IsShown all) out (cut_spans r q m) i.shown
        (All-of_Elem (IsShown all) (cut_spans r q m) fresh);
}
  where
    q : ℕ
    q = r.pos + r.len

    rising : r.pos < q
    rising = omega (arith, v.nonempty)

    outside : (a : ℕ) → 0 < count_gaps (cut_gaps r.pos q m) a → (a < r.pos) ⊎ (q ≤ a)
    outside a left = elim (lt-or-le a r.pos) [
      | inl low ↦ inl low
      | inr above ↦ elim (lt-or-le a q) [
        | inl in_it ↦ absurd (omega (arith, count_gaps-cut_gaps r.pos q a m lo i.gaps above in_it))
        | inr high ↦ inr high
      ]
    ]

    fresh : (x : ResolvedSlice) → Elem x (cut_spans r q m) → IsShown all x
    fresh x e = record {
      nonempty = t.nonempty;
      shows = λ a h k.
          taken_byte r x chunk_size a v w t h
          ∙ sym (newest_here r older a (omega (arith, t.after)) (omega (arith, t.before)))
          ∙ sym (
              i.pending a (
                omega (
                  arith,
                  count-cut r q a m lo i.gaps rising,
                  count_spans-Elem x (cut_spans r q m) a e h k,
                )));
      offset = ground (arith, taken_origin r x chunk_size v w t);
    }
      where
        t : IsTaken r q x
        t = All-Elem (IsTaken r q) x (cut_spans r q m) (cut_spans-IsTaken r q m lo rising i.gaps) e

-- No gap is left: the records that were not looked at do not matter.
IsOverlay-early :
    (all rest : List SliceRecord) (lo hi : ℕ) (out : List ResolvedSlice)
    → IsOverlay all rest lo hi [] out
    → IsOverlay all [] lo hi [] out
IsOverlay-early all rest lo hi out i = record {
  gaps = tt;
  once = i.once;
  pending = λ a left. absurd (omega arith);
  shown = i.shown;
}

pub overlay_all-IsOverlay :
    (all rest : List SliceRecord) (chunk_size lo hi : ℕ) (m : Gaps) (out : List ResolvedSlice)
    → chunk_size < 2 ^ 32
    → All (IsValidRecord chunk_size) rest
    → All (λ (r : SliceRecord). r.size < 2 ^ 32) rest
    → IsOverlay all rest lo hi m out
    → IsOverlay all [] lo hi (overlay_all rest m out).0 (overlay_all rest m out).1
unfolding overlay_all
overlay_all-IsOverlay all [] chunk_size lo hi m out c v w i = i
overlay_all-IsOverlay all (r ∷ older) chunk_size lo hi [] out c v w i =
    IsOverlay-early all (r ∷ older) lo hi out i
overlay_all-IsOverlay all (r ∷ older) chunk_size lo hi (g ∷ gs) out c v w i =
    let valid = v.0 in
    let same =
      overlay_record_lem r lo (g ∷ gs) out i.gaps valid.nonempty (omega (arith, valid.fits)) in
    overlay_all-IsOverlay all older chunk_size lo hi (overlay_record r (g ∷ gs) out).0
      (overlay_record r (g ∷ gs) out).1 c v.1 w.1
      (subst (λ s. IsOverlay all older lo hi s.0 s.1) (sym same)
        (IsOverlay-step all older r chunk_size lo hi (g ∷ gs) out valid w.0 i))
