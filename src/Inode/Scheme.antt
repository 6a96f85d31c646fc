-- ===== src/Inode/Scheme.antt =====
-- src/metadata/Utils.cpp: the scheme in front of a URL.
use sword_fs.Prelude.{
  if◌then◌else◌, ℕ, Option, none, some, [], ◌∷◌, ◌++◌, take-append-drop, subst, take, drop, map,
  ◌≡◌, sym, ◌∙◌, ap, inl, inr, Bool-cases, Option-cases,
}
use sword_fs.Prelude.Text.{Text, same_text, same_text_inv}
use sword_fs.Status.{Result, ok, err, Code}

-- "://"
abbrev pub separator : Text
separator = 58 ∷ 47 ∷ 47 ∷ []

-- `url.find("://")`, as what stands in front of the first of them; `none` is `npos`.
unfoldable pub before_separator : Text → Option Text
before_separator [] = none
before_separator (c ∷ rest) =
    let later = before_separator rest in
    if same_text (take 3 (c ∷ rest)) separator
    then some []
    else elim later [ none ↦ none | some front ↦ some (c ∷ front) ]

abbrev pub lowered : (ℕ → ℕ) → Option Text → Result Text
lowered to_lower none = err Code.invalid_argument
lowered to_lower (some []) = err Code.invalid_argument
lowered to_lower (some (c ∷ front)) = ok (map to_lower (c ∷ front))

-- `std::tolower` of the locale is the argument.
unfoldable pub parse_url_scheme : (ℕ → ℕ) → Text → Result Text
parse_url_scheme to_lower url = lowered to_lower (before_separator url)

front_of : {a b : Text} → some a ≡ some b → a ≡ b
front_of e = cc

-- A scheme that is found stands in front of a separator.
pub before_separator_inv :
    (url : Text) {front : Text}
    → before_separator url ≡ some front
    → (rest : Text) × (url ≡ front ++ (separator ++ rest))
unfolding before_separator
before_separator_inv [] e = absurd cc
before_separator_inv (c ∷ rest) {front} e =
    elim (Bool-cases (same_text (take 3 (c ∷ rest)) separator)) [
      | inl here ↦
          let same : [] ≡ front = let found : some [] ≡ some front = rw here at e in cc in
          (
            drop 3 (c ∷ rest),
            subst (λ f. c ∷ rest ≡ f ++ (separator ++ drop 3 (c ∷ rest))) same
                (sym (take-append-drop 3 (c ∷ rest))
                  ∙ ap (λ t. t ++ drop 3 (c ∷ rest))
                      (same_text_inv (take 3 (c ∷ rest)) separator here)),
          )
      | inr beyond ↦ elim (Option-cases (before_separator rest)) [
        | inl missing ↦ let gone = rw (beyond, missing) at e in absurd cc
        | inr (behind, found) ↦
            let same : some (c ∷ behind) ≡ some front = rw (beyond, found) at e in
            let (tail, split) = before_separator_inv rest found in
            (tail, ap (λ t. c ∷ t) split ∙ ap (λ t. t ++ (separator ++ tail)) (front_of same))
      ]
    ]
