-- ===== src/OffsetGen/FullCoverage/PowerOfTwo.antt =====
-- `CoveringRandomGenerator::next_power_of_two` of
-- source/toolkits/offsetgen/OffsetGenRandomAlignedFullCoverageV2.h.
use native.Mathlib.Nat.{pow-suc, pow-le-pow_right}
use elbencho.Prelude.{
  ℕ, zero, suc, ◌+◌, ◌-◌, ◌/◌, ◌^◌, ◌≤◌, ◌<◌, ◌≡◌, refl, arith, add64, add64-eq, sub64, sub64-eq,
  inl, inr, zero_or_pos, ◌⊎◌, ◌==◌, false, ◌∙◌, subst, sym,
}
use elbencho.Bits.{bit, bit-bit_or, bit-shift, bit-le-one, one_bits}
use elbencho.OffsetGen.FullCoverage.{smear, next_power_of_two}

le_cases : (a b : ℕ) → (a ≤ b) ⊎ (b < a)
le_cases a b = ground arith

some_bits : (k m : ℕ) → 0 < m → m < 2 ^ k → 0 < k
some_bits zero m p h = omega arith
some_bits (suc k) m p h = omega arith

-- `n` has `k` bits, of which the highest `j` are 1.
record Ones (j k n : ℕ) : Type 0 where
  top : (i : ℕ) → i < k → k ≤ i + j → bit n i ≡ 1
  above : (i : ℕ) → k ≤ i → bit n i ≡ 0

-- Or-ing a number with itself, moved down by `s`, makes `j + s` ones of `j` ones, for `s` up to `j`.
smear-Ones : (s j k n : ℕ) → s ≤ j → Ones j k n → Ones (j + s) k (smear s n)
unfolding smear
smear-Ones s j k n h o = record {
  top = λ i lt le. elim (le_cases k (i + j)) [
    | inl near ↦
        omega (arith, bit-bit_or i n (n / 2 ^ s), bit-le-one i (n / 2 ^ s), o.top i lt near)
    | inr far ↦ omega (
      arith,
      bit-bit_or i n (n / 2 ^ s),
      bit-shift s n i,
      bit-le-one i n,
      o.top (s + i) (omega arith) (omega arith),
    )
  ];
  above = λ i le. omega (
    arith,
    bit-bit_or i n (n / 2 ^ s),
    bit-shift s n i,
    o.above i le,
    o.above (s + i) (omega arith),
  );
}

bit-zero : (i : ℕ) → bit 0 i ≡ 0
bit-zero zero = refl
bit-zero (suc i) = bit-zero i

zero-Ones : Ones 1 0 0
zero-Ones = record { top = λ i lt le. elim lt [ ]; above = λ i le. bit-zero i }

one-Ones : Ones 1 1 1
one-Ones = record { top = one_top; above = one_above }
  where
    one_top : (i : ℕ) → i < 1 → 1 ≤ i + 1 → bit 1 i ≡ 1
    one_top zero lt le = refl
    one_top (suc i) lt le = absurd (omega arith)

    one_above : (i : ℕ) → 1 ≤ i → bit 1 i ≡ 0
    one_above zero le = absurd (omega arith)
    one_above (suc i) le = bit-zero i

double-Ones : (k n : ℕ) → 0 < k → Ones 1 k (n / 2) → Ones 1 (suc k) n
double-Ones k n p o = record { top = top; above = above }
  where
    top : (i : ℕ) → i < suc k → suc k ≤ i + 1 → bit n i ≡ 1
    top zero lt le = absurd (omega arith)
    top (suc i) lt le = o.top i (omega arith) (omega arith)

    above : (i : ℕ) → suc k ≤ i → bit n i ≡ 0
    above zero le = absurd (omega arith)
    above (suc i) le = o.above i (omega arith)

-- The number of bits of a word.
bit_length : (w n : ℕ) → n < 2 ^ w → (k : ℕ) × (k ≤ w) × (n < 2 ^ k) × Ones 1 k n
bit_length zero n h =
    let e : n ≡ 0 = omega arith in (0, omega arith, omega arith, subst (Ones 1 0) (sym e) zero-Ones)
bit_length (suc w) n h = elim (zero_or_pos (n / 2)) [
  | inl small ↦ elim (zero_or_pos n) [
    | inl e ↦ (0, omega arith, omega arith, subst (Ones 1 0) (sym e) zero-Ones)
    | inr p ↦
        let e : n ≡ 1 = omega arith in
        (1, omega arith, omega arith, subst (Ones 1 1) (sym e) one-Ones)
  ]
  | inr large ↦
      let (k, le, lt, o) = bit_length w (n / 2) (omega (arith, pow-suc 2 w)) in
      let p : 0 < k = some_bits k (n / 2) large lt in
      (suc k, omega arith, omega (arith, pow-suc 2 k), double-Ones k n p o)
]

abbrev smears : ℕ → ℕ
smears n = smear 32 (smear 16 (smear 8 (smear 4 (smear 2 (smear 1 n)))))

next_power_of_two-smears :
    (n : ℕ) → 0 < n → n ≤ 2 ^ 63 → next_power_of_two n ≡ add64 (smears (n - 1)) 1
unfolding next_power_of_two
next_power_of_two-smears n p h =
    let nonzero : (n == 0) ≡ false = ground arith in
    let before : sub64 n 1 ≡ n - 1 = sub64-eq n 1 p (omega arith) in rw (nonzero, before)

-- `next_power_of_two` of a range size up to 2^63 is a power of two that is no smaller, up to 2^63.
pub next_power_of_two_lem :
    (n : ℕ) → 0 < n → n ≤ 2 ^ 63 → (k : ℕ) × (k ≤ 63) × (next_power_of_two n ≡ 2 ^ k) × (n ≤ 2 ^ k)
next_power_of_two_lem n p h =
    let (k, le, lt, o) = bit_length 63 (n - 1) (omega arith) in
    let full = smear-Ones 32 32 k _ (omega arith) (
      smear-Ones 16 16 k _ (omega arith) (
        smear-Ones 8 8 k _ (omega arith) (
          smear-Ones 4 4 k _ (omega arith)
            (smear-Ones 2 2 k _ (omega arith) (smear-Ones 1 1 k (n - 1) (omega arith) o))))) in
    let all_ones = one_bits k (smears (n - 1)) (λ i lt'. full.top i lt' (omega arith)) full.above in
    let fits : 2 ^ k ≤ 2 ^ 63 = pow-le-pow_right (omega arith) le in
    (
      k,
      le,
      next_power_of_two-smears n p h
          ∙ (add64-eq (smears (n - 1)) 1 (omega (arith, all_ones, fits)) ∙ all_ones),
      omega arith,
    )
