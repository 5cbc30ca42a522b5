-- ===== src/LatencyHistogram/Decades.antt =====
-- The decades of `getHistogramGroupedStr`: `decadeExponent`, and the sums of the counts by decade.
use native.Mathlib.Nat.{mul-le-mul, pow-suc, pow-le-pow_right}
use elbencho.Prelude.{
  ℕ, zero, suc, ◌+◌, ◌-◌, ◌*◌, ◌/◌, ◌%◌, ◌^◌, ◌≤◌, ◌<◌, ◌≡◌, ◌∙◌, refl, arith, List, [], ◌∷◌, ltb,
  leb, leb→le, leb→gt, if◌then◌else◌, Bool-cases, inl, inr, ◌⊎◌, mul64, mul64-eq, add64, get_or,
  set,
}
use elbencho.LatencyHistogram.{index_to_upper_bound, num_buckets}

-- The loop from a threshold on, which wraps for values from 10^19 on. Twenty rounds are enough below.
unfoldable pub count_decades : ℕ → ℕ → ℕ → ℕ → ℕ
count_decades zero threshold v decade_exp = decade_exp
count_decades (suc fuel) threshold v decade_exp =
    let rest = count_decades fuel (mul64 threshold 10) v (suc decade_exp) in
    if leb threshold v then rest else decade_exp

unfoldable pub decade_exponent : ℕ → ℕ
decade_exponent v = count_decades 20 10 v 0

abbrev pub num_decades : ℕ
num_decades = 20

-- The loop that sums up the counts by decade, from bucket `i` on.
unfoldable pub category_sums : ℕ → List ℕ → List ℕ → List ℕ
category_sums i [] sums = sums
category_sums i (zero ∷ bs) sums = category_sums (suc i) bs sums
category_sums i (suc n ∷ bs) sums =
    let decade = decade_exponent (index_to_upper_bound i) in
    category_sums (suc i) bs (set sums decade (add64 (get_or sums decade 0) (suc n)))

ten_pow : (k : ℕ) → 10 ^ suc k ≡ 10 * 10 ^ k
ten_pow k = omega (arith, pow-suc 10 k)

below_nineteen : (k v : ℕ) → 10 ^ k ≤ v → v < 10 ^ 19 → k < 19
below_nineteen k v a b = elim (Bool-cases (ltb k 19)) [
  | inl small ↦ ground arith
  | inr large ↦
      let far : 19 ≤ k = ground arith in
      let c : 10 ^ 19 ≤ 10 ^ k = pow-le-pow_right (omega arith) far in absurd (omega arith)
]

count_decades_lem :
    (fuel k v : ℕ)
    → v < 10 ^ 19
    → (k ≡ 0) ⊎ (10 ^ k ≤ v)
    → 19 ≤ fuel + k
    → let e = count_decades fuel (10 ^ suc k) v k in ((e ≡ 0) ⊎ (10 ^ e ≤ v)) × (v < 10 ^ suc e)
unfolding count_decades
count_decades_lem zero k v h p f = elim p [
  | inl first ↦ absurd (omega arith)
  | inr le ↦ absurd (let lt = below_nineteen k v le h in omega arith)
]
count_decades_lem (suc fuel) k v h p f = elim (Bool-cases (leb (10 ^ suc k) v)) [
  | inl more ↦
      let le : 10 ^ suc k ≤ v = leb→le (10 ^ suc k) v more in
      let lt = below_nineteen (suc k) v le h in
      let near : suc (suc k) ≤ 19 = omega arith in
      let bound : 10 ^ suc (suc k) ≤ 10 ^ 19 = pow-le-pow_right (omega arith) near in
      let e : mul64 (10 ^ suc k) 10 ≡ 10 ^ suc (suc k) =
        mul64-eq (10 ^ suc k) 10 (omega (arith, ten_pow (suc k)))
        ∙ omega (arith, ten_pow (suc k)) in
      rw (more, e) (count_decades_lem fuel (suc k) v h (inr le) (omega arith))
  | inr done ↦ rw done (p, leb→gt (10 ^ suc k) v done)
]

-- The decade of a value below 10^19 microseconds: the value lies from that power of 10 on, or
-- anywhere in the decade of 0, and below the next power of 10.
pub decade_exponent_lem :
    (v : ℕ)
    → v < 10 ^ 19
    → ((decade_exponent v ≡ 0) ⊎ (10 ^ decade_exponent v ≤ v)) × (v < 10 ^ suc (decade_exponent v))
unfolding decade_exponent
decade_exponent_lem v h = count_decades_lem 20 0 v h (inl refl) (omega arith)

upper_at_most : (x s : ℕ) → x ≤ 38 → s < 64 → (64 + s + 1) * 2 ^ x ≤ 2 ^ 45
upper_at_most x s a b =
    let p : 2 ^ x ≤ 2 ^ 38 = pow-le-pow_right (omega arith) a in
    let q : (64 + s + 1) * 2 ^ x ≤ 128 * 2 ^ 38 =
      mul-le-mul {n₁ = 64 + s + 1} {m₁ = 2 ^ x} {n₂ = 128} {m₂ = 2 ^ 38} (omega arith) p in
    omega arith

index_to_upper_bound-le : (i : ℕ) → i < num_buckets → index_to_upper_bound i ≤ 2 ^ 45
unfolding index_to_upper_bound mul64
index_to_upper_bound-le i h = elim (Bool-cases (ltb i 128)) [
  | inl small ↦ rw small (ground arith)
  | inr large ↦
      let octave : 1 + (i - 128) / 64 ≤ 38 = ground arith in
      let s : (i - 128) % 64 < 64 = omega arith in
      rw large (mod_le (upper_at_most (1 + (i - 128) / 64) ((i - 128) % 64) octave s))
]
  where
    mod_le : {n : ℕ} → n ≤ 2 ^ 45 → n % 2 ^ 64 ≤ 2 ^ 45
    mod_le h = omega arith

-- The upper bound of every slot of the histogram has one of the twenty decades for which the
-- grouped output keeps a sum, so none of its writes leaves that array.
pub decade_exponent-lt :
    (i : ℕ) → i < num_buckets → decade_exponent (index_to_upper_bound i) < num_decades
decade_exponent-lt i h =
    let le = index_to_upper_bound-le i h in
    let (p, q) = decade_exponent_lem (index_to_upper_bound i) (omega arith) in
    elim p [
      | inl first ↦ omega arith
      | inr above ↦
          let lt =
            below_nineteen (decade_exponent (index_to_upper_bound i)) (index_to_upper_bound i) above
              (omega arith) in
          omega arith
    ]
