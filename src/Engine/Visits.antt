-- ===== src/Engine/Visits.antt =====
-- What a visit of a page, and a batch of the objects to delete, leave behind.
use sword_fs.Prelude.{
  ℕ, zero, suc, ◌≤◌, List, [], ◌∷◌, ◌++◌, length, ◌≡◌, ◌⊎◌, refl, inl, inr, arith, ap,
}
use sword_fs.Status.{ok, err, Code, Status}
use sword_fs.Engine.Scans.{Visit, visited, visit_some}

module _ {A S : Type 0} (visitor : A → S → Status × S) where
  -- The items are visited in their order, each from the state that the one before has left.
  pub data AreVisited : List A → S → S → Type 0 where
    none_more : (state : S) → AreVisited [] state state
    one_more :
        (item : A) (items : List A) (state middle after : S)
        → visitor item state ≡ (ok tt, middle)
        → AreVisited items middle after
        → AreVisited (item ∷ items) state after

  -- The end of a visit of some items, `seen` of them without a failure: at the end of the page, at
  -- the bound, or at an item that fails, which is left with all that come behind it.
  pub data IsEnded (n : ℕ) (seen : List A) (middle : S) (visit : Visit A S) : Type 0 where
    at_end :
        visit.status ≡ ok tt → visit.left ≡ [] → visit.state ≡ middle → IsEnded n seen middle visit
    at_bound :
        (item : A) (rest : List A)
        → visit.left ≡ item ∷ rest
        → visit.status ≡ ok tt
        → visit.state ≡ middle
        → length seen ≡ n
        → IsEnded n seen middle visit
    at_failure :
        (item : A) (rest : List A) (code : Code)
        → visit.left ≡ item ∷ rest
        → visit.status ≡ err code
        → visitor item middle ≡ (err code, visit.state)
        → IsEnded n seen middle visit

  pub record IsPart (n : ℕ) (items : List A) (state : S) (visit : Visit A S) : Type 0 where
    pub seen : List A
    pub middle : S
    pub split : items ≡ seen ++ visit.left
    pub bounded : length seen ≤ n
    pub in_order : AreVisited seen state middle
    pub ended : IsEnded n seen middle visit

  Visitor-cases :
      (item : A) (state : S)
      → ((middle : S) × (visitor item state ≡ (ok tt, middle)))
        ⊎ ((code : Code) × (middle : S) × (visitor item state ≡ (err code, middle)))
  Visitor-cases item state = pair_cases (visitor item state)
    where
      pair_cases :
          (p : Status × S)
          → ((middle : S) × (p ≡ (ok tt, middle)))
            ⊎ ((code : Code) × (middle : S) × (p ≡ (err code, middle)))
      pair_cases (ok done, middle) = inl (middle, refl)
      pair_cases (err code, middle) = inr (code, middle, refl)

  IsEnded-more :
      {n : ℕ} {seen : List A} {middle : S} {visit : Visit A S} (item : A)
      → IsEnded n seen middle visit
      → IsEnded (suc n) (item ∷ seen) middle visit
  IsEnded-more item (at_end passed empty same) = at_end passed empty same
  IsEnded-more item (at_bound next rest left passed same full) =
      at_bound next rest left passed same (omega (arith, full))
  IsEnded-more item (at_failure next rest code left failed at_it) =
      at_failure next rest code left failed at_it

  -- The items of a page are visited in order, at most so many; what is left is the rest of the page,
  -- from the item on that has failed or that the bound has excluded.
  pub visit_some-IsPart :
      (n : ℕ) (items : List A) (state : S) → IsPart n items state (visit_some visitor n items state)
  unfolding visit_some visited
  visit_some-IsPart n [] state = record {
    seen = [];
    middle = state;
    split = refl;
    bounded = omega arith;
    in_order = none_more state;
    ended = at_end refl refl refl;
  }
  visit_some-IsPart zero (item ∷ items) state = record {
    seen = [];
    middle = state;
    split = refl;
    bounded = omega arith;
    in_order = none_more state;
    ended = at_bound item items refl refl refl refl;
  }
  visit_some-IsPart (suc n) (item ∷ items) state = elim (Visitor-cases item state) [
    | inl (middle, e) ↦
        let later = visit_some-IsPart n items middle in
        rw (visited, e)
          (record {
            seen = item ∷ later.seen;
            middle = later.middle;
            split = ap (λ l. item ∷ l) later.split;
            bounded = omega (arith, later.bounded);
            in_order = one_more item later.seen state middle later.middle e later.in_order;
            ended = IsEnded-more item later.ended;
          })
    | inr (code, middle, e) ↦
        rw (visited, e)
          (record {
            seen = [];
            middle = state;
            split = refl;
            bounded = omega arith;
            in_order = none_more state;
            ended = at_failure item items code refl refl e;
          })
  ]
