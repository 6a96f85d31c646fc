-- ===== src/Prelude/Text.antt =====
-- Strings as lists of bytes, and an ordered map from strings to strings.
use Prim.Native.Nat.{ℕ}
use mathlib.Core.Path.{◌≡◌, refl, sym}
use mathlib.Core.Logic.{inl, inr}
use mathlib.Core.Bool.{Bool, true, false}
use mathlib.Core.Option.{Option, none, some}
use mathlib.Core.List.{List, [], ◌∷◌}
use sword_fs.Prelude.Tests.{ltb, ◌==◌, ==_iff, ==_refl, if◌then◌else◌, Bool-cases}

-- The bytes of a `std::string`.
abbrev pub Text : Type 0
Text = List ℕ

abbrev pub is_empty {ℓ} : {A : Type ℓ} → List A → Bool
is_empty [] = true
is_empty (x ∷ xs) = false

unfoldable pub same_text : Text → Text → Bool
same_text [] [] = true
same_text [] (b ∷ t) = false
same_text (a ∷ s) [] = false
same_text (a ∷ s) (b ∷ t) = if a == b then same_text s t else false

-- The order of the keys of a `std::map`.
unfoldable pub text_less : Text → Text → Bool
text_less [] [] = false
text_less [] (b ∷ t) = true
text_less (a ∷ s) [] = false
text_less (a ∷ s) (b ∷ t) = if a == b then text_less s t else ltb a b

pub same_text_refl : (t : Text) → same_text t t ≡ true
unfolding same_text
same_text_refl [] = refl
same_text_refl (a ∷ s) = rw (==_refl a) (same_text_refl s)

pub same_text_inv : (s t : Text) → same_text s t ≡ true → s ≡ t
unfolding same_text
same_text_inv [] [] h = refl
same_text_inv [] (b ∷ t) h = cc
same_text_inv (a ∷ s) [] h = cc
same_text_inv (a ∷ s) (b ∷ t) h = elim (Bool-cases (a == b)) [
  | inl e ↦ rw ((==_iff a b).0 e, same_text_inv s t (rw e at h))
  | inr n ↦ absurd (cc (rw n at h))
]

abbrev pub Dict : Type 0
Dict = List (Text × Text)

-- `find`; `none` is `end()`.
unfoldable pub lookup : Text → Dict → Option Text
unfolding same_text
lookup key [] = none
lookup key ((name, value) ∷ rest) = if same_text key name then some value else lookup key rest

-- `map[key] = value`
unfoldable pub assign : Text → Text → Dict → Dict
unfolding same_text text_less
assign key new [] = (key, new) ∷ []
assign key new ((name, value) ∷ rest) =
    if same_text key name
    then (key, new) ∷ rest
    else if text_less key name
    then (key, new) ∷ (name, value) ∷ rest
    else (name, value) ∷ assign key new rest

-- `erase`; a map has a key once at most.
unfoldable pub erase : Text → Dict → Dict
unfolding same_text
erase key [] = []
erase key ((name, value) ∷ rest) =
    let left = erase key rest in if same_text key name then left else (name, value) ∷ left

pub lookup-assign : (key new : Text) (d : Dict) → lookup key (assign key new d) ≡ some new
unfolding lookup assign
lookup-assign key new [] = rw (same_text_refl key)
lookup-assign key new ((name, value) ∷ rest) = elim (Bool-cases (same_text key name)) [
  | inl e ↦ rw (e, same_text_refl key)
  | inr n ↦ elim (Bool-cases (text_less key name)) [
    | inl before ↦ rw (n, before, same_text_refl key)
    | inr behind ↦ rw (n, behind, n) (lookup-assign key new rest)
  ]
]

-- Another key keeps its value.
pub lookup-assign_apart :
    (key other new : Text) (d : Dict)
    → same_text other key ≡ false
    → lookup other (assign key new d) ≡ lookup other d
unfolding lookup assign
lookup-assign_apart key other new [] apart = rw apart
lookup-assign_apart key other new ((name, value) ∷ rest) apart =
    elim (Bool-cases (same_text key name)) [
      | inl e ↦ rw (e, sym (same_text_inv key name e), apart)
      | inr n ↦ elim (Bool-cases (text_less key name)) [
        | inl before ↦ rw (n, before, apart)
        | inr behind ↦ rw (n, behind, lookup-assign_apart key other new rest apart)
      ]
    ]

pub lookup-erase : (key : Text) (d : Dict) → lookup key (erase key d) ≡ none
unfolding lookup erase
lookup-erase key [] = refl
lookup-erase key ((name, value) ∷ rest) = elim (Bool-cases (same_text key name)) [
  | inl e ↦ rw e (lookup-erase key rest)
  | inr n ↦ rw (n, n) (lookup-erase key rest)
]

pub lookup-erase_apart :
    (key other : Text) (d : Dict)
    → same_text other key ≡ false
    → lookup other (erase key d) ≡ lookup other d
unfolding lookup erase
lookup-erase_apart key other [] apart = refl
lookup-erase_apart key other ((name, value) ∷ rest) apart = elim (Bool-cases (same_text key name)) [
  | inl e ↦ rw (e, sym (same_text_inv key name e), apart) (lookup-erase_apart key other rest apart)
  | inr n ↦ rw (n, lookup-erase_apart key other rest apart)
]
