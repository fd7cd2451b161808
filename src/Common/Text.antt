-- ===== src/Common/Text.antt =====
-- Texts as the bytes of a `std::string`, and the parts of the C++ standard library that print and
-- read them: `std::to_string`, the `{}` of a format, `std::stoll` and the classes of characters.
pub mod Numbers
use Prim.Native.Nat.{ℕ, zero, suc, ◌+◌, ◌-◌, ◌*◌, ◌/◌, ◌%◌, ◌^◌, ◌≤◌, ◌<◌}
use Prim.Native.Char.{code}
use Prim.Native.String.{String}
use mathlib.Core.Path.{◌≡◌, refl, ap, ◌∙◌}
use mathlib.Core.Logic.{inl, inr}
use mathlib.Core.Bool.{Bool, true, false, not, ◌&&◌, ◌||◌}
use mathlib.Core.List.{List, [], ◌∷◌, ◌++◌, append-nil, append_assoc}
use mathlib.Core.Option.{Option, none, some}
use native.Mathlib.Omega.{arith}
use aegis_cpp.Common.Tests.{ltb, leb, ◌==◌, if◌then◌else◌, Bool-cases}
use aegis_cpp.Common.Int.{ℤ, pos, negsuc}

abbrev pub Text : Type 0
Text = List ℕ

-- The bytes of an ASCII literal.
abbrev pub bytes : String → Text
bytes String.[] = []
bytes (String.◌∷◌ c s) = code c ∷ bytes s

abbrev pub is_empty_text : Text → Bool
is_empty_text [] = true
is_empty_text (c ∷ s) = false

abbrev pub eq_text : Text → Text → Bool
eq_text [] [] = true
eq_text [] (d ∷ t) = false
eq_text (c ∷ s) [] = false
eq_text (c ∷ s) (d ∷ t) = c == d && eq_text s t

pub eq_text_iff_true : (s t : Text) → eq_text s t ≡ true → s ≡ t
eq_text_iff_true [] [] h = refl
eq_text_iff_true [] (d ∷ t) h = ground (arith, h)
eq_text_iff_true (c ∷ s) [] h = ground (arith, h)
eq_text_iff_true (c ∷ s) (d ∷ t) h = ground (arith, eq_text_iff_true s t)

pub eq_text_refl : (s : Text) → eq_text s s ≡ true
eq_text_refl [] = refl
eq_text_refl (c ∷ s) = ground (arith, eq_text_refl s)

abbrev pub is_digit : ℕ → Bool
is_digit c = leb b'0' c && leb c b'9'

-- isalnum in the "C" locale.
abbrev pub is_alnum : ℕ → Bool
is_alnum c = is_digit c || (leb b'A' c && leb c b'Z' || leb b'a' c && leb c b'z')

abbrev pub is_space : ℕ → Bool
is_space c = c == 32 || leb 9 c && leb c 13

-- The decimal digits of a number, the highest first; the fuel is above the number.
unfoldable pub digits : ℕ → ℕ → Text
digits zero n = []
digits (suc f) n =
    let rest = digits f (n / 10) in if ltb n 10 then (48 + n) ∷ [] else rest ++ (48 + n % 10) ∷ []

unfoldable pub decimal : ℕ → Text
unfolding digits
decimal n = digits (suc n) n

-- std::to_string of a signed number.
unfoldable pub to_text : ℤ → Text
unfolding decimal
to_text (pos n) = decimal n
to_text (negsuc n) = b'-' ∷ decimal (suc n)

-- The value of the digits that a text begins with, behind those already read.
unfoldable pub read_digits : ℕ → Text → ℕ
read_digits acc [] = acc
read_digits acc (c ∷ s) = if is_digit c then read_digits (acc * 10 + (c - 48)) s else acc

-- The number that a text begins with; `none` if it does not begin with a digit.
unfoldable pub read_number : Text → Option ℕ
unfolding read_digits
read_number [] = none
read_number (c ∷ s) = if is_digit c then some (read_digits 0 (c ∷ s)) else none

unfoldable pub skip_spaces : Text → Text
skip_spaces [] = []
skip_spaces (c ∷ s) = if is_space c then skip_spaces s else c ∷ s

abbrev pub in_range : ℤ → Option ℤ
in_range (pos n) = if ltb n (2 ^ 63) then some (pos n) else none
in_range (negsuc n) = if ltb n (2 ^ 63) then some (negsuc n) else none

abbrev pub negate : ℕ → ℤ
negate zero = pos 0
negate (suc n) = negsuc n

abbrev pub signed_number : Bool → Option ℕ → Option ℤ
signed_number minus none = none
signed_number true (some n) = in_range (negate n)
signed_number false (some n) = in_range (pos n)

abbrev pub read_signed : Text → Option ℤ
read_signed [] = none
read_signed (c ∷ s) =
    if c == b'-'
    then signed_number true (read_number s)
    else if c == b'+'
    then signed_number false (read_number s)
    else signed_number false (read_number (c ∷ s))

-- std::stoll: what follows the number is not read, and `none` is an exception, for a text without a
-- number or a number that does not fit.
unfoldable pub stoll : Text → Option ℤ
unfolding skip_spaces read_number
stoll s = read_signed (skip_spaces s)

abbrev pub fits_64 : Option ℕ → Option ℕ
fits_64 none = none
fits_64 (some n) = if ltb n (2 ^ 64) then some n else none

abbrev pub negated : Option ℕ → Option ℕ
negated none = none
negated (some n) = some ((2 ^ 64 - n) % 2 ^ 64)

abbrev pub read_unsigned : Text → Option ℕ
read_unsigned [] = none
read_unsigned (c ∷ s) =
    if c == b'-'
    then negated (fits_64 (read_number s))
    else if c == b'+'
    then fits_64 (read_number s)
    else fits_64 (read_number (c ∷ s))

-- std::stoul with 64 bits; a number behind `-` is taken modulo 2 ^ 64, and `none` is an exception.
unfoldable pub stoul : Text → Option ℕ
unfolding skip_spaces read_number
stoul s = read_unsigned (skip_spaces s)

abbrev pub in_range_32 : ℤ → Option ℤ
in_range_32 (pos n) = if ltb n (2 ^ 31) then some (pos n) else none
in_range_32 (negsuc n) = if ltb n (2 ^ 31) then some (negsuc n) else none

abbrev pub narrow : Option ℤ → Option ℤ
narrow none = none
narrow (some z) = in_range_32 z

-- std::stoi with an `int` of 32 bits.
unfoldable pub stoi : Text → Option ℤ
unfolding stoll
stoi s = narrow (stoll s)
