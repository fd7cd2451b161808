-- ===== src/Common/Text/Numbers.antt =====
-- Printing a number and reading it again.
use Prim.Native.Nat.{ℕ, zero, suc, ◌+◌, ◌/◌, ◌%◌, ◌<◌}
use mathlib.Core.Path.{◌≡◌, refl, ap, sym, ◌∙◌}
use mathlib.Core.Logic.{inl, inr}
use mathlib.Core.Bool.{Bool, true, false}
use mathlib.Core.List.{[], ◌∷◌, ◌++◌, append-nil, append_assoc}
use mathlib.Core.Option.{some, Option}
use native.Mathlib.Omega.{arith}
use aegis_cpp.Common.Tests.{ltb, Bool-cases}
use aegis_cpp.Common.Int.{ℤ, pos, negsuc}
use aegis_cpp.Common.Text.{
  Text, digits, decimal, to_text, read_digits, read_number, skip_spaces, read_signed, stoll,
  is_digit, in_range, signed_number, read_unsigned, stoul, fits_64, negated,
}

read_digits-digits :
    (f n : ℕ) (rest : Text) → n < f → read_digits 0 (digits f n ++ rest) ≡ read_digits n rest
unfolding digits read_digits
read_digits-digits zero n rest h = elim h [ ]
read_digits-digits (suc f) n rest h = elim (Bool-cases (ltb n 10)) [
  | inl e ↦ rw e (ground (arith, e))
  | inr e ↦ rw e (
      rw (append_assoc (digits f (n / 10)) ((48 + n % 10) ∷ []) rest) (
        read_digits-digits f (n / 10) ((48 + n % 10) ∷ rest) (ground (arith, e, h)) ∙ ground arith))
]

-- The first character of a decimal is a digit.
begins : ℕ → Text → Bool
begins d [] = false
begins d (c ∷ s) = is_digit c

begins-digits : (f n : ℕ) (rest : Text) → n < f → begins 0 (digits f n ++ rest) ≡ true
unfolding digits begins
begins-digits zero n rest h = elim h [ ]
begins-digits (suc f) n rest h = elim (Bool-cases (ltb n 10)) [
  | inl e ↦ rw e (ground (arith, e))
  | inr e ↦ rw e (
      rw (append_assoc (digits f (n / 10)) ((48 + n % 10) ∷ []) rest)
        (begins-digits f (n / 10) ((48 + n % 10) ∷ rest) (ground (arith, e, h))))
]

read_number-begins : (s : Text) → begins 0 s ≡ true → read_number s ≡ some (read_digits 0 s)
unfolding read_number begins
read_number-begins [] h = ground (arith, h)
read_number-begins (c ∷ s) h = rw h refl

begins-decimal : (n : ℕ) → begins 0 (decimal n) ≡ true
unfolding decimal
begins-decimal n = rw (append-nil (digits (suc n) n)) at (begins-digits (suc n) n [] (omega arith))

read_digits-decimal : (n : ℕ) → read_digits 0 (decimal n) ≡ n
unfolding decimal read_digits
read_digits-decimal n =
    ap (read_digits 0) (sym (append-nil (digits (suc n) n)))
    ∙ read_digits-digits (suc n) n [] (omega arith)

read_number-decimal : (n : ℕ) → read_number (decimal n) ≡ some n
read_number-decimal n =
    read_number-begins (decimal n) (begins-decimal n) ∙ ap some (read_digits-decimal n)

skip_spaces-begins : (s : Text) → begins 0 s ≡ true → skip_spaces s ≡ s
unfolding skip_spaces begins
skip_spaces-begins [] h = refl
skip_spaces-begins (c ∷ s) h = ground (arith, h)

read_signed-begins :
    (s : Text) → begins 0 s ≡ true → read_signed s ≡ signed_number false (read_number s)
unfolding begins
read_signed-begins [] h = ground (arith, h)
read_signed-begins (c ∷ s) h = ground (arith, h)

stoll-decimal : (n : ℕ) → stoll (decimal n) ≡ in_range (pos n)
unfolding stoll
stoll-decimal n =
    ap read_signed (skip_spaces-begins (decimal n) (begins-decimal n))
    ∙ read_signed-begins (decimal n) (begins-decimal n)
    ∙ ap (signed_number false) (read_number-decimal n)

stoll_minus : (s : Text) → stoll (b'-' ∷ s) ≡ signed_number true (read_number s)
unfolding stoll skip_spaces
stoll_minus s = refl

-- What `std::to_string` writes of a number is read by `std::stoll` as that number, if it fits.
pub stoll-to_text : (z : ℤ) → stoll (to_text z) ≡ in_range z
unfolding to_text
stoll-to_text (pos n) = stoll-decimal n
stoll-to_text (negsuc n) =
    stoll_minus (decimal (suc n)) ∙ ap (signed_number true) (read_number-decimal (suc n))

read_unsigned-begins : (s : Text) → begins 0 s ≡ true → read_unsigned s ≡ fits_64 (read_number s)
unfolding begins
read_unsigned-begins [] h = ground (arith, h)
read_unsigned-begins (c ∷ s) h = ground (arith, h)

stoul-decimal : (n : ℕ) → stoul (decimal n) ≡ fits_64 (some n)
unfolding stoul
stoul-decimal n =
    ap read_unsigned (skip_spaces-begins (decimal n) (begins-decimal n))
    ∙ read_unsigned-begins (decimal n) (begins-decimal n)
    ∙ ap fits_64 (read_number-decimal n)

stoul_minus : (s : Text) → stoul (b'-' ∷ s) ≡ negated (fits_64 (read_number s))
unfolding stoul skip_spaces
stoul_minus s = refl

abbrev pub as_unsigned : ℤ → Option ℕ
as_unsigned (pos n) = fits_64 (some n)
as_unsigned (negsuc n) = negated (fits_64 (some (suc n)))

-- std::stoul reads what is written of a number as a word of 64 bits.
pub stoul-to_text : (z : ℤ) → stoul (to_text z) ≡ as_unsigned z
unfolding to_text
stoul-to_text (pos n) = stoul-decimal n
stoul-to_text (negsuc n) =
    stoul_minus (decimal (suc n)) ∙ ap (λ x. negated (fits_64 x)) (read_number-decimal (suc n))
