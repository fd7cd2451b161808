-- ===== src/Common/Bits.antt =====
-- 64-bit words as native numbers, read one bit at a time: `test_bit x i` is bit i of x. The word
-- operations are characterised by their bits, and a word by the bits that it has.
use Prim.Native.Nat.{min, max, digits, bit_and-bitwise, bit_or-bitwise, bit_and, bit_or}
use Prim.Native.Nat.{ℕ, zero, suc, ◌+◌, ◌-◌, ◌*◌, ◌/◌, ◌%◌, ◌^◌, ◌≤◌, ◌<◌}
use mathlib.Core.Path.{◌≡◌, refl, ap, sym, ◌∙◌}
use mathlib.Core.Bool.{Bool, true, false, not, ◌&&◌, ◌||◌}
use native.Mathlib.Omega.{arith}
use native.Mathlib.Nat.{
  pow-suc, add-zero, add-suc, add_comm, le_refl, mul_comm, mul-one, div-one, div-add-mod,
  add-mul-mod_self_left, mod-eq_of_lt, mod-lt, one-le-pow, div-div-eq-div-mul,
}
use aegis_cpp.Common.Tests.{◌==◌}

unfoldable pub test_bit : ℕ → ℕ → Bool
test_bit x zero = x % 2 == 1
test_bit x (suc i) = test_bit (x / 2) i

-- The word 2 ^ w - 1 - x, which is `~x` for a word x of w bits.
unfoldable pub complement : ℕ → ℕ → ℕ
complement w x = 2 ^ w - 1 - x

pub test_bit-zero : (i : ℕ) → test_bit 0 i ≡ false
unfolding test_bit
test_bit-zero zero = refl
test_bit-zero (suc i) = test_bit-zero i

-- A word that is `r` in its lowest place over the word `q`.
test_bit_cons : (q r i : ℕ) → r < 2 → test_bit (q * 2 + r) (suc i) ≡ test_bit q i
unfolding test_bit
test_bit_cons q r i h = let e : (q * 2 + r) / 2 ≡ q = omega arith in ap (λ x. test_bit x i) e

and_digits :
    (n a b i : ℕ) → a ≤ n → test_bit (digits (λ _. 0) min n a b) i ≡ (test_bit a i && test_bit b i)
unfolding test_bit
and_digits zero zero b i h = rw test_bit-zero refl
and_digits zero (suc a) b i h = absurd (omega arith)
and_digits (suc n) zero b i h = rw test_bit-zero refl
and_digits (suc n) (suc a) b zero h = ground arith
and_digits (suc n) (suc a) b (suc i) h =
    test_bit_cons _ (min (suc a % 2) (b % 2)) i (omega arith)
    ∙ and_digits n (suc a / 2) (b / 2) i (omega arith)

or_digits :
    (n a b i : ℕ) → a ≤ n → test_bit (digits (λ y. y) max n a b) i ≡ (test_bit a i || test_bit b i)
unfolding test_bit
or_digits zero zero b i h = rw test_bit-zero refl
or_digits zero (suc a) b i h = absurd (omega arith)
or_digits (suc n) zero b i h = rw test_bit-zero refl
or_digits (suc n) (suc a) b zero h = ground arith
or_digits (suc n) (suc a) b (suc i) h =
    test_bit_cons _ (max (suc a % 2) (b % 2)) i (omega arith)
    ∙ or_digits n (suc a / 2) (b / 2) i (omega arith)

pub test_bit-bit_and : (a b i : ℕ) → test_bit (bit_and a b) i ≡ (test_bit a i && test_bit b i)
test_bit-bit_and a b i = rw (bit_and-bitwise a b) (and_digits a a b i (omega arith))

pub test_bit-bit_or : (a b i : ℕ) → test_bit (bit_or a b) i ≡ (test_bit a i || test_bit b i)
test_bit-bit_or a b i = rw (bit_or-bitwise a b) (or_digits a a b i (omega arith))

complement_half : (w x : ℕ) → complement (suc w) x / 2 ≡ complement w (x / 2)
unfolding complement
complement_half w x = omega (arith, pow-suc 2 w)

-- Complement turns each bit of the word.
pub test_bit-complement :
    (w x i : ℕ) → x < 2 ^ w → i < w → test_bit (complement w x) i ≡ not (test_bit x i)
unfolding test_bit
test_bit-complement zero x i h k = absurd (omega arith)
test_bit-complement (suc w) x zero h k = unfold complement in ground (arith, pow-suc 2 w)
test_bit-complement (suc w) x (suc i) h k =
    ap (λ y. test_bit y i) (complement_half w x)
    ∙ test_bit-complement w (x / 2) i (omega (arith, pow-suc 2 w)) (omega arith)

lowest_bit : (x y : ℕ) → test_bit x 0 ≡ test_bit y 0 → x % 2 ≡ y % 2
unfolding test_bit
lowest_bit x y h = ground arith

-- Words of w bits with the same bits are equal.
pub eq_of_test_bit :
    (w x y : ℕ) → x < 2 ^ w → y < 2 ^ w → ((i : ℕ) → i < w → test_bit x i ≡ test_bit y i) → x ≡ y
unfolding test_bit
eq_of_test_bit zero x y hx hy same = omega arith
eq_of_test_bit (suc w) x y hx hy same = omega (
  arith,
  lowest_bit x y (same 0 (omega arith)),
  eq_of_test_bit w (x / 2) (y / 2) (omega (arith, pow-suc 2 w)) (omega (arith, pow-suc 2 w))
      (λ i h. same (suc i) (omega arith)),
)

lt-two_pow : (n : ℕ) → n < 2 ^ n
lt-two_pow zero = omega arith
lt-two_pow (suc n) = omega (arith, pow-suc 2 n, lt-two_pow n)

two_pow_mono : (n m : ℕ) → 2 ^ n ≤ 2 ^ (n + m)
two_pow_mono n zero = rw add-zero (le_refl _)
two_pow_mono n (suc m) = rw (add-suc, pow-suc 2 (n + m)) (omega (arith, two_pow_mono n m))

-- Numbers with the same bits are equal.
pub test_bit_ext : (x y : ℕ) → ((i : ℕ) → test_bit x i ≡ test_bit y i) → x ≡ y
test_bit_ext x y same =
    eq_of_test_bit (x + y) x y (omega (arith, lt-two_pow x, two_pow_mono x y))
      (rw (add_comm x y) (omega (arith, lt-two_pow y, two_pow_mono y x))) (λ i _. same i)

div_two_pow : (k x : ℕ) → x / 2 ^ suc k ≡ x / 2 / 2 ^ k
div_two_pow k x = rw (pow-suc 2 k, mul_comm (2 ^ k) 2) (sym (div-div-eq-div-mul x 2 (2 ^ k)))

bit_and_half : (a b : ℕ) → bit_and a b / 2 ≡ bit_and (a / 2) (b / 2)
bit_and_half a b =
    test_bit_ext _ _
      λ i. rw (test_bit-bit_and (a / 2) (b / 2) i) (unfold test_bit in test_bit-bit_and a b (suc i))

bit_and_low : (a b : ℕ) → bit_and a b % 2 ≡ min (a % 2) (b % 2)
bit_and_low a b = unfold test_bit in ground (arith, test_bit-bit_and a b 0)

mod_double : (p x : ℕ) → 0 < p → x % (p * 2) ≡ x / 2 % p * 2 + x % 2
mod_double p x h =
    ap (λ t. t % (p * 2)) split
    ∙ add-mul-mod_self_left (x / 2 % p * 2 + x % 2) (p * 2) (x / 2 / p)
    ∙ mod-eq_of_lt (omega (arith, mod-lt (x / 2) h))
  where
    split : x ≡ x / 2 % p * 2 + x % 2 + p * 2 * (x / 2 / p)
    split = omega (arith, div-add-mod (x / 2) p)

mask_low : (j : ℕ) → (2 ^ suc j - 1) / 2 ≡ 2 ^ j - 1
mask_low j = omega (arith, pow-suc 2 j, one-le-pow j 2 (omega arith))

-- A mask of j low bits is the remainder by 2 ^ j.
pub bit_and_mask : (j x : ℕ) → bit_and x (2 ^ j - 1) ≡ x % 2 ^ j
bit_and_mask zero x = test_bit_ext _ _ λ i. ground (arith, test_bit-bit_and x 0 i, test_bit-zero i)
bit_and_mask (suc j) x = omega (
  arith,
  bit_and_half x (2 ^ suc j - 1),
  bit_and_low x (2 ^ suc j - 1),
  ap (bit_and (x / 2)) (mask_low j),
  bit_and_mask j (x / 2),
  mod_double (2 ^ j) x (one-le-pow j 2 (omega arith)),
  ap (λ (t : ℕ). x % t) (pow-suc 2 j),
  pow-suc 2 j,
  one-le-pow j 2 (omega arith),
)

shifted_double : (m k : ℕ) → m * 2 ^ suc k ≡ m * 2 ^ k * 2
shifted_double m k = rw (pow-suc 2 k) (omega arith)

-- A mask moved up by k places reads the word moved down by k places.
bit_and_shifted : (k x m : ℕ) → bit_and x (m * 2 ^ k) ≡ bit_and (x / 2 ^ k) m * 2 ^ k
bit_and_shifted zero x m = rw (mul-one m, mul-one (bit_and (x / 1) m), div-one x)
bit_and_shifted (suc k) x m =
    rw (shifted_double m k, div_two_pow k x, shifted_double (bit_and (x / 2 / 2 ^ k) m) k)
      (omega (
        arith,
        bit_and_half x (m * 2 ^ k * 2),
        bit_and_low x (m * 2 ^ k * 2),
        ap (bit_and (x / 2)) (halved (m * 2 ^ k)),
        bit_and_shifted k (x / 2) m,
      ))
  where
    halved : (a : ℕ) → a * 2 / 2 ≡ a
    halved a = omega arith

-- A field of j bits at place k, taken out with its mask.
pub bit_and_field : (j k x : ℕ) → bit_and x ((2 ^ j - 1) * 2 ^ k) ≡ x / 2 ^ k % 2 ^ j * 2 ^ k
bit_and_field j k x = rw (bit_and_shifted k x (2 ^ j - 1), bit_and_mask j (x / 2 ^ k))

-- Bit k of a word is the parity of what is left after k shifts.
pub test_bit_value : (k x : ℕ) → test_bit x k ≡ (x / 2 ^ k % 2 == 1)
unfolding test_bit
test_bit_value zero x = rw div-one
test_bit_value (suc k) x = rw (div_two_pow k x) (test_bit_value k (x / 2))

pub test_bit_two_pow : (j i : ℕ) → test_bit (2 ^ j) i ≡ (j == i)
unfolding test_bit
test_bit_two_pow zero zero = refl
test_bit_two_pow zero (suc i) = test_bit-zero i ∙ ground arith
test_bit_two_pow (suc j) zero = ground (arith, pow-suc 2 j)
test_bit_two_pow (suc j) (suc i) =
    ap (λ x. test_bit x i) (let e : 2 ^ suc j / 2 ≡ 2 ^ j = omega (arith, pow-suc 2 j) in e)
    ∙ test_bit_two_pow j i
    ∙ ground arith

bit_or_half : (a b : ℕ) → bit_or a b / 2 ≡ bit_or (a / 2) (b / 2)
bit_or_half a b =
    test_bit_ext _ _
      λ i. rw (test_bit-bit_or (a / 2) (b / 2) i) (unfold test_bit in test_bit-bit_or a b (suc i))

pub bit_or-lt : (w a b : ℕ) → a < 2 ^ w → b < 2 ^ w → bit_or a b < 2 ^ w
bit_or-lt zero a b ha hb =
    let ea : a ≡ 0 = omega arith in let eb : b ≡ 0 = omega arith in rw (ea, eb) (omega arith)
bit_or-lt (suc w) a b ha hb = omega (
  arith,
  pow-suc 2 w,
  bit_or_half a b,
  bit_or-lt w (a / 2) (b / 2) (omega (arith, pow-suc 2 w)) (omega (arith, pow-suc 2 w)),
)

-- All ones is the complement of nothing.
pub test_bit-ones : (w i : ℕ) → i < w → test_bit (2 ^ w - 1) i ≡ true
unfolding complement
test_bit-ones w i h =
    ap (λ x. test_bit x i) (let e : 2 ^ w - 1 ≡ complement w 0 = omega arith in e)
    ∙ test_bit-complement w 0 i (one-le-pow w 2 (omega arith)) h
    ∙ ap not (test_bit-zero i)
