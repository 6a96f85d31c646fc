-- ===== src/Record/LittleEndian.antt =====
-- The words of the records as their bytes, the lowest first: what folly is documented to read and
-- write, and a concrete instance of the interface.
use sword_fs.Prelude.{
  ℕ, ◌+◌, ◌-◌, ◌*◌, ◌/◌, ◌%◌, ◌^◌, ◌<◌, ltb, lt→ltb, le→ltb, if◌then◌else◌, Option, none, some, [],
  ◌∷◌, ◌++◌, ◌≡◌, ap, ◌∙◌, arith,
}
use sword_fs.Prelude.Int.{ℤ, pos, negsuc}
use sword_fs.Prelude.Text.{Text}
use sword_fs.Record.{Words, IsInt64}

abbrev pub four_bytes : ℕ → Text → Text
four_bytes n behind = n % 256 ∷ n / 2 ^ 8 % 256 ∷ n / 2 ^ 16 % 256 ∷ n / 2 ^ 24 % 256 ∷ behind

abbrev pub put_four : ℕ → Text
put_four n = four_bytes n []

abbrev pub put_eight : ℕ → Text
put_eight n = four_bytes (n % 2 ^ 32) (put_four (n / 2 ^ 32))

abbrev pub value_of : ℕ → ℕ → ℕ → ℕ → ℕ
value_of a b c d = a + b * 2 ^ 8 + c * 2 ^ 16 + d * 2 ^ 24

unfoldable pub get_four : Text → Option (ℕ × Text)
get_four (a ∷ b ∷ c ∷ d ∷ rest) = some (value_of a b c d, rest)
get_four _ = none

unfoldable pub get_eight : Text → Option (ℕ × Text)
get_eight (a ∷ b ∷ c ∷ d ∷ e ∷ f ∷ g ∷ h ∷ rest) =
    some (value_of a b c d + value_of e f g h * 2 ^ 32, rest)
get_eight _ = none

abbrev pub signed_of : ℕ → ℤ
signed_of n = if ltb n (2 ^ 63) then pos n else negsuc (2 ^ 64 - 1 - n)

abbrev pub word_of : ℤ → ℕ
word_of (pos n) = n
word_of (negsuc n) = 2 ^ 64 - 1 - n

abbrev pub as_signed : Option (ℕ × Text) → Option (ℤ × Text)
as_signed none = none
as_signed (some (n, rest)) = some (signed_of n, rest)

four :
    (n : ℕ)
    → n < 2 ^ 32
    → value_of (n % 256) (n / 2 ^ 8 % 256) (n / 2 ^ 16 % 256) (n / 2 ^ 24 % 256) ≡ n
four n small = omega arith

pub get_four-put_four :
    (n : ℕ) (rest : Text) → n < 2 ^ 32 → get_four (put_four n ++ rest) ≡ some (n, rest)
unfolding get_four
get_four-put_four n rest small = ap (λ v. some (v, rest)) (four n small)

join_halves : (n : ℕ) → n % 2 ^ 32 + n / 2 ^ 32 * 2 ^ 32 ≡ n
join_halves n = omega arith

pub get_eight-put_eight :
    (n : ℕ) (rest : Text) → n < 2 ^ 64 → get_eight (put_eight n ++ rest) ≡ some (n, rest)
unfolding get_eight
get_eight-put_eight n rest small =
    rw (four (n % 2 ^ 32) (omega arith), four (n / 2 ^ 32) (omega arith), join_halves n)

pub get_signed-put_signed :
    (i : ℤ) (rest : Text)
    → IsInt64 i
    → as_signed (get_eight (put_eight (word_of i) ++ rest)) ≡ some (i, rest)
get_signed-put_signed (pos n) rest small =
    ap as_signed (get_eight-put_eight n rest (omega arith)) ∙ rw (lt→ltb n (2 ^ 63) small)
get_signed-put_signed (negsuc n) rest small =
    ap as_signed (get_eight-put_eight (2 ^ 64 - 1 - n) rest (omega arith))
    ∙ rw (le→ltb (2 ^ 64 - 1 - n) (2 ^ 63) (omega arith))
        (ap (λ m. some (negsuc m, rest)) (omega arith))

unfoldable pub little_endian : Words
unfolding get_four get_eight
little_endian = record {
  put32 = put_four;
  put64 = put_eight;
  put_int = λ i. put_eight (word_of i);
  get32 = get_four;
  get64 = get_eight;
  get_int = λ bytes. as_signed (get_eight bytes);
  get-put32 = get_four-put_four;
  get-put64 = get_eight-put_eight;
  get-put_int = get_signed-put_signed;
}
