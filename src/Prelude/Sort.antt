-- ===== src/Prelude/Sort.antt =====
-- std::sort by a numeric key. It is modelled by insertion, which keeps the order of equal keys;
-- the modules that use it rely on the result being ordered and holding the same elements only.
use Prim.Native.Nat.{ℕ, ◌≤◌}
use mathlib.Core.Logic.{◌↔◌, ◌⊎◌, inl, inr}
use mathlib.Core.List.{List, [], ◌∷◌, Permᴰ}
use mathlib.Core.Path.{◌≡◌, refl}
use native.Mathlib.Omega.{arith}
use sword_fs.Prelude.Tests.{leb, if◌then◌else◌, lt-or-le, le→leb, lt→leb}
use sword_fs.Prelude.Lists.{Elem, All}

module _ {A : Type 0} (key : A → ℕ) where
  abbrev pub insert_by : A → List A → List A
  insert_by a [] = a ∷ []
  insert_by a (x ∷ xs) = if leb (key a) (key x) then a ∷ x ∷ xs else x ∷ insert_by a xs

  abbrev pub sort_by : List A → List A
  sort_by [] = []
  sort_by (x ∷ xs) = insert_by x (sort_by xs)

  -- Every key is at least the bound, and the keys do not fall.
  abbrev pub IsSortedFrom : ℕ → List A → Type 0
  IsSortedFrom n [] = Unit {0}
  IsSortedFrom n (x ∷ xs) = (n ≤ key x) × IsSortedFrom (key x) xs

  pub IsSortedFrom-mono : (m n : ℕ) (xs : List A) → m ≤ n → IsSortedFrom n xs → IsSortedFrom m xs
  IsSortedFrom-mono m n [] h s = tt
  IsSortedFrom-mono m n (x ∷ xs) h s = (omega arith, s.1)

  insert_by-IsSortedFrom :
      (n : ℕ) (a : A) (xs : List A)
      → n ≤ key a
      → IsSortedFrom n xs
      → IsSortedFrom n (insert_by a xs)
  insert_by-IsSortedFrom n a [] h s = (h, tt)
  insert_by-IsSortedFrom n a (x ∷ xs) h s = elim (lt-or-le (key x) (key a)) [
    | inl after ↦
        rw (lt→leb (key a) (key x) after)
          (s.0, insert_by-IsSortedFrom (key x) a xs (omega arith) s.1)
    | inr before ↦ rw (le→leb (key a) (key x) before) (h, (before, s.1))
  ]

  pub sort_by-IsSortedFrom : (xs : List A) → IsSortedFrom 0 (sort_by xs)
  sort_by-IsSortedFrom [] = tt
  sort_by-IsSortedFrom (x ∷ xs) =
      insert_by-IsSortedFrom 0 x (sort_by xs) (omega arith) (sort_by-IsSortedFrom xs)

  Elem-insert_by : (b a : A) (xs : List A) → Elem b (insert_by a xs) ↔ ((b ≡ a) ⊎ Elem b xs)
  Elem-insert_by b a [] = (λ h. h, λ h. h)
  Elem-insert_by b a (x ∷ xs) = elim (lt-or-le (key x) (key a)) [
    | inl after ↦ rw (lt→leb (key a) (key x) after) (ground (arith, Elem-insert_by b a xs))
    | inr before ↦ rw (le→leb (key a) (key x) before) (λ h. h, λ h. h)
  ]

  pub Elem-sort_by : (b : A) (xs : List A) → Elem b (sort_by xs) ↔ Elem b xs
  Elem-sort_by b [] = (λ h. h, λ h. h)
  Elem-sort_by b (x ∷ xs) = ground (arith, Elem-insert_by b x (sort_by xs), Elem-sort_by b xs)

  All-insert_by {κ} :
      (P : A → Type κ) (a : A) (xs : List A) → P a → All P xs → All P (insert_by a xs)
  All-insert_by P a [] h k = (h, tt)
  All-insert_by P a (x ∷ xs) h k = elim (lt-or-le (key x) (key a)) [
    | inl after ↦ rw (lt→leb (key a) (key x) after) (k.0, All-insert_by P a xs h k.1)
    | inr before ↦ rw (le→leb (key a) (key x) before) (h, k)
  ]

  pub All-sort_by {κ} : (P : A → Type κ) (xs : List A) → All P xs → All P (sort_by xs)
  All-sort_by P [] h = tt
  All-sort_by P (x ∷ xs) h = All-insert_by P x (sort_by xs) h.0 (All-sort_by P xs h.1)

  permutes_itself : (xs : List A) → Permᴰ xs xs
  permutes_itself [] = Permᴰ.nil
  permutes_itself (x ∷ xs) = Permᴰ.cons refl (permutes_itself xs)

  insert_by-Perm : (a : A) (xs : List A) → Permᴰ (insert_by a xs) (a ∷ xs)
  insert_by-Perm a [] = permutes_itself (a ∷ [])
  insert_by-Perm a (x ∷ xs) = elim (lt-or-le (key x) (key a)) [
    | inl after ↦
        rw (lt→leb (key a) (key x) after)
          (Permᴰ.trans (Permᴰ.cons refl (insert_by-Perm a xs)) (Permᴰ.swap refl refl))
    | inr before ↦ rw (le→leb (key a) (key x) before) (permutes_itself (a ∷ x ∷ xs))
  ]

  pub sort_by-Perm : (xs : List A) → Permᴰ (sort_by xs) xs
  sort_by-Perm [] = Permᴰ.nil
  sort_by-Perm (x ∷ xs) =
      Permᴰ.trans (insert_by-Perm x (sort_by xs)) (Permᴰ.cons refl (sort_by-Perm xs))

  -- What std::sort promises: the same elements, each as often, in the order of the keys. The order of
  -- elements with one key is open.
  pub record SortBy : Type 0 where
    pub sorted : List A → List A
    pub permutes : (xs : List A) → Permᴰ (sorted xs) xs
    pub ordered : (xs : List A) → IsSortedFrom 0 (sorted xs)

  abbrev pub insertion_sort : SortBy
  insertion_sort = record {
    sorted = sort_by;
    permutes = sort_by-Perm;
    ordered = sort_by-IsSortedFrom;
  }
