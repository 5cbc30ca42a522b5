-- ===== src/Bits.antt =====
-- The bits of a number, and how `|` and `>>` act on them at any position.
pub mod Xor
use Prim.Native.Nat.{bit_or, digits, bit_or-bitwise}
use native.Mathlib.Nat.{div-div-eq-div-mul, pow-suc, pow-succ'}
use elbencho.Prelude.{
  ℕ, zero, suc, ◌+◌, ◌*◌, ◌/◌, ◌%◌, ◌^◌, ◌≤◌, ◌<◌, ◌≡◌, refl, max, arith, ap, sym, ◌∙◌,
}

-- Bit `i` of `n`, 0 or 1.
abbrev pub bit : ℕ → ℕ → ℕ
bit n zero = n % 2
bit n (suc i) = bit (n / 2) i

abbrev or_digits : ℕ → ℕ → ℕ → ℕ
or_digits n a b = digits (λ b. b) max n a b

or_digits_fuel : (n m a b : ℕ) → a ≤ n → a ≤ m → or_digits n a b ≡ or_digits m a b
or_digits_fuel zero zero a b p q = refl
or_digits_fuel zero (suc m) zero b p q = refl
or_digits_fuel zero (suc m) (suc a) b p q = absurd (omega arith)
or_digits_fuel (suc n) zero zero b p q = refl
or_digits_fuel (suc n) zero (suc a) b p q = absurd (omega arith)
or_digits_fuel (suc n) (suc m) zero b p q = refl
or_digits_fuel (suc n) (suc m) (suc a) b p q =
    omega (arith, or_digits_fuel n m (suc a / 2) (b / 2) (omega arith) (omega arith))

zero-bit_or : (b : ℕ) → bit_or 0 b ≡ b
zero-bit_or b = bit_or-bitwise 0 b

bit_or_step : (a b : ℕ) → bit_or a b ≡ bit_or (a / 2) (b / 2) * 2 + max (a % 2) (b % 2)
bit_or_step zero b = omega (arith, zero-bit_or b, zero-bit_or (b / 2))
bit_or_step (suc a) b = omega (
  arith,
  bit_or-bitwise (suc a) b,
  bit_or-bitwise (suc a / 2) (b / 2),
  or_digits_fuel a (suc a / 2) (suc a / 2) (b / 2) (omega arith) (omega arith),
)

pub bit-bit_or : (i a b : ℕ) → bit (bit_or a b) i ≡ max (bit a i) (bit b i)
bit-bit_or zero a b = omega (arith, bit_or_step a b)
bit-bit_or (suc i) a b =
    let half : bit_or a b / 2 ≡ bit_or (a / 2) (b / 2) = omega (arith, bit_or_step a b) in
    rw half (bit-bit_or i (a / 2) (b / 2))

pub bit-shift : (s n i : ℕ) → bit (n / 2 ^ s) i ≡ bit n (s + i)
bit-shift zero n i =
    let one : n / 1 ≡ n = omega arith in let none : 0 + i ≡ i = omega arith in rw (one, none)
bit-shift (suc s) n i =
    let split : n / 2 ^ suc s ≡ n / 2 / 2 ^ s =
      ap (λ d. n / d) (pow-succ' 2 s) ∙ sym (div-div-eq-div-mul n 2 (2 ^ s)) in
    let next : suc s + i ≡ suc (s + i) = omega arith in rw (split, next) (bit-shift s (n / 2) i)

pub bit-le-one : (i n : ℕ) → bit n i ≤ 1
bit-le-one zero n = omega arith
bit-le-one (suc i) n = bit-le-one i (n / 2)

zero_bits_fuel : (f n : ℕ) → n ≤ f → ((i : ℕ) → bit n i ≡ 0) → n ≡ 0
zero_bits_fuel zero n h z = omega arith
zero_bits_fuel (suc f) zero h z = refl
zero_bits_fuel (suc f) (suc n) h z =
    let half : suc n / 2 ≡ 0 = zero_bits_fuel f (suc n / 2) (omega arith) (λ i. z (suc i)) in
    omega (arith, half, z 0)

pub zero_bits : (n : ℕ) → ((i : ℕ) → bit n i ≡ 0) → n ≡ 0
zero_bits n = zero_bits_fuel n n (omega arith)

-- A number whose bits below `k` are all 1, and no others, is 2^k - 1.
pub one_bits :
    (k n : ℕ) → ((i : ℕ) → i < k → bit n i ≡ 1) → ((i : ℕ) → k ≤ i → bit n i ≡ 0) → n + 1 ≡ 2 ^ k
one_bits zero n ones zeros = omega (arith, zero_bits n (λ i. zeros i (omega arith)))
one_bits (suc k) n ones zeros =
    let half : n / 2 + 1 ≡ 2 ^ k =
      one_bits k (n / 2) (λ i h. ones (suc i) (omega arith)) (λ i h. zeros (suc i) (omega arith)) in
    omega (arith, half, ones 0 (omega arith), pow-suc 2 k)
