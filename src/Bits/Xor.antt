-- ===== src/Bits/Xor.antt =====
-- `^` at any position of its operands.
use Prim.Native.Nat.{bit_xor, digits, differ, bit_xor-bitwise}
use elbencho.Prelude.{
  ℕ, zero, suc, ◌+◌, ◌*◌, ◌/◌, ◌%◌, ◌^◌, ◌≤◌, ◌<◌, ◌≡◌, refl, arith, ap, sym, ◌∙◌,
}
use elbencho.Bits.{bit, bit-shift, bit-le-one, zero_bits}

differ-parity : (x y : ℕ) → x < 2 → y < 2 → differ x y ≡ (x + y) % 2
differ-parity zero y h k = omega arith
differ-parity (suc zero) zero h k = refl
differ-parity (suc zero) (suc zero) h k = refl
differ-parity (suc zero) (suc (suc y)) h k = absurd (omega arith)
differ-parity (suc (suc x)) y h k = absurd (omega arith)

-- More rounds than digits change nothing.
xor_rounds :
    (n m a b : ℕ) → a ≤ n → a ≤ m → digits (λ b. b) differ n a b ≡ digits (λ b. b) differ m a b
xor_rounds zero zero a b p q = refl
xor_rounds zero (suc m) zero b p q = refl
xor_rounds (suc n) zero zero b p q = refl
xor_rounds (suc n) (suc m) zero b p q = refl
xor_rounds zero m (suc a) b p q = absurd (omega arith)
xor_rounds (suc n) zero (suc a) b p q = absurd (omega arith)
xor_rounds (suc n) (suc m) (suc a) b p q =
    let halves = xor_rounds n m (suc a / 2) (b / 2) (omega arith) (omega arith) in
    ap (λ h. h * 2 + differ (suc a % 2) (b % 2)) halves

bit_xor-halves : (a b : ℕ) → bit_xor a b ≡ bit_xor (a / 2) (b / 2) * 2 + (a % 2 + b % 2) % 2
bit_xor-halves zero b =
    let x = bit_xor-bitwise 0 b in let y = bit_xor-bitwise 0 (b / 2) in omega (arith, x, y)
bit_xor-halves (suc a) b =
    let whole = bit_xor-bitwise (suc a) b in
    let half = bit_xor-bitwise (suc a / 2) (b / 2) in
    let rounds = xor_rounds a (suc a / 2) (suc a / 2) (b / 2) (omega arith) (omega arith) in
    let low = differ-parity (suc a % 2) (b % 2) (omega arith) (omega arith) in
    omega (arith, whole, half, rounds, low)

bit-bit_xor : (i a b : ℕ) → bit (bit_xor a b) i ≡ (bit a i + bit b i) % 2
bit-bit_xor zero a b = omega (arith, bit_xor-halves a b)
bit-bit_xor (suc i) a b =
    let half : bit_xor a b / 2 ≡ bit_xor (a / 2) (b / 2) = omega (arith, bit_xor-halves a b) in
    rw half (bit-bit_xor i (a / 2) (b / 2))

same_bits_fuel : (f a b : ℕ) → a ≤ f → ((i : ℕ) → bit a i ≡ bit b i) → a ≡ b
same_bits_fuel zero zero b h same = sym (zero_bits b (λ i. sym (same i) ∙ no_bit i))
  where
    no_bit : (i : ℕ) → bit 0 i ≡ 0
    no_bit zero = refl
    no_bit (suc i) = no_bit i
same_bits_fuel zero (suc a) b h same = absurd (omega arith)
same_bits_fuel (suc f) a b h same =
    let halves : a / 2 ≡ b / 2 =
      same_bits_fuel f (a / 2) (b / 2) (omega arith) (λ i. same (suc i)) in
    omega (arith, halves, same 0)

same_bits : (a b : ℕ) → ((i : ℕ) → bit a i ≡ bit b i) → a ≡ b
same_bits a b = same_bits_fuel a a b (omega arith)

pub bit_xor-cancel : (a b : ℕ) → bit_xor (bit_xor a b) b ≡ a
bit_xor-cancel a b = same_bits _ _ λ i.
    let x = bit-bit_xor i (bit_xor a b) b in
    let y = bit-bit_xor i a b in omega (arith, x, y, bit-le-one i a, bit-le-one i b)

pub bit_xor_comm : (a b : ℕ) → bit_xor a b ≡ bit_xor b a
bit_xor_comm a b = same_bits _ _ λ i. omega (arith, bit-bit_xor i a b, bit-bit_xor i b a)

pub bit_xor_zero : (a : ℕ) → bit_xor a 0 ≡ a
bit_xor_zero a = bit_xor_comm a 0 ∙ bit_xor-bitwise 0 a

-- `^` goes through a shift to the right.
pub bit_xor-shift : (s a b : ℕ) → bit_xor a b / 2 ^ s ≡ bit_xor (a / 2 ^ s) (b / 2 ^ s)
bit_xor-shift s a b = same_bits _ _ λ i.
    bit-shift s (bit_xor a b) i
    ∙ (bit-bit_xor (s + i) a b
        ∙ (sym (ap (λ x. (x + bit b (s + i)) % 2) (bit-shift s a i))
            ∙ sym (ap (λ x. (bit (a / 2 ^ s) i + x) % 2) (bit-shift s b i))
            ∙ sym (bit-bit_xor i (a / 2 ^ s) (b / 2 ^ s))))
