-- ===== src/LatencyHistogram/Percentile.antt =====
-- `findPercentileBucketIndex` of source/LatencyHistogram.h.
use native.Mathlib.Nat.{mul-le-mul_right}
use elbencho.Prelude.{
  ℕ, zero, suc, ◌+◌, ◌*◌, ◌^◌, ◌<◌, ◌≤◌, ◌≡◌, ◌∙◌, sym, arith, List, [], ◌∷◌, Bool-cases, inl, inr,
  ◌⊎◌, subst, add64, add64-eq, length, leb, leb→le, leb→gt,
}
use elbencho.LatencyHistogram.{
  Histogram, Doubles, is_reached, find_from, find_percentile_bucket_index,
}

-- The number of values in the first `n` slots.
abbrev pub count_below : ℕ → List ℕ → ℕ
count_below zero bs = 0
count_below (suc n) [] = 0
count_below (suc n) (b ∷ bs) = b + count_below n bs

-- What IEEE 754 says of quotients of small integers: each is rounded to the nearest double, so that of
-- two such fractions up to 1 the comparison is that of the exact ones, as long as the product of the
-- denominators is below 2^53.
abbrev pub IsExact : {Double : Type 0} → Doubles Double → Type 0
IsExact fp =
    (a b c d : ℕ)
    → 0 < b
    → 0 < d
    → a ≤ b
    → c ≤ d
    → b * d < 2 ^ 53
    → fp.is_ge (fp.divide (fp.to_double a) (fp.to_double b))
        (fp.divide (fp.to_double c) (fp.to_double d))
      ≡ leb (c * b) (a * d)

module _ {Double : Type 0} (fp : Doubles Double) (exact : IsExact fp) (percent stored : ℕ)
    (some_values : 0 < stored) (few_values : stored < 2 ^ 46) (at_most : percent ≤ 100) where
  reached_iff :
      (n : ℕ)
      → n ≤ stored
      → is_reached fp (fp.to_double percent) stored n ≡ leb (percent * stored) (n * 100)
  unfolding is_reached
  reached_iff n le = exact n stored percent 100 some_values (omega arith) le at_most (omega arith)

  -- The slot found is the first whose cumulative count is the percentage.
  abbrev IsFound : ℕ → List ℕ → ℕ → Type 0
  IsFound so_far bs k =
      (k < length bs)
      × (percent * stored ≤ (so_far + count_below (suc k) bs) * 100)
      × ((j : ℕ) → j < k → (so_far + count_below (suc j) bs) * 100 < percent * stored)

  IsFound-suc :
      (so_far b k : ℕ) (bs : List ℕ)
      → (so_far + b) * 100 < percent * stored
      → IsFound (so_far + b) bs k
      → IsFound so_far (b ∷ bs) (suc k)
  IsFound-suc so_far b k bs low (lt, at, before) = (omega arith, omega (arith, at), earlier)
    where
      earlier :
          (j : ℕ) → j < suc k → (so_far + count_below (suc j) (b ∷ bs)) * 100 < percent * stored
      earlier zero h = omega (arith, low)
      earlier (suc j) h = let e = before j (omega arith) in omega (arith, e)

  all_percent : percent * stored ≤ stored * 100
  all_percent =
      let le : percent * stored ≤ 100 * stored = mul-le-mul_right stored at_most in omega arith

  find_from-IsFound :
      (bs : List ℕ) (i so_far : ℕ)
      → so_far + count_below (length bs) bs ≡ stored
      → (so_far * 100 < percent * stored) ⊎ (0 < length bs)
      → (k : ℕ) × (find_from fp (fp.to_double percent) stored i so_far bs ≡ i + k)
        × IsFound so_far bs k
  unfolding find_from
  find_from-IsFound [] i so_far sum (inl low) =
      let all = all_percent in
      let e : so_far ≡ stored = omega (arith, sum) in
      let h : stored * 100 < percent * stored = subst (λ n. n * 100 < percent * stored) e low in
      absurd (omega (arith, all, h))
  find_from-IsFound [] i so_far sum (inr some_slot) = absurd (omega arith)
  find_from-IsFound (b ∷ bs) i so_far sum start =
      let now : add64 so_far b ≡ so_far + b = add64-eq so_far b (omega (arith, sum)) in
      let reached : is_reached fp (fp.to_double percent) stored (so_far + b)
          ≡ leb (percent * stored) ((so_far + b) * 100) =
        reached_iff (so_far + b) (omega (arith, sum)) in
      elim (Bool-cases (leb (percent * stored) ((so_far + b) * 100))) [
        | inl high ↦
            let enough = leb→le (percent * stored) ((so_far + b) * 100) high in
            rw (now, reached, high)
              (0, omega arith, (omega arith, omega (arith, enough), λ j lt. elim lt [ ]))
        | inr low ↦
            let less = leb→gt (percent * stored) ((so_far + b) * 100) low in
            let (k, e, found) =
              find_from-IsFound bs (suc i) (so_far + b) (omega (arith, sum)) (inl less) in
            rw (now, reached, low) (suc k, e ∙ omega arith, IsFound-suc so_far b k bs less found)
      ]

-- The slot found for a percentage is the first whose cumulative count is that percentage of the stored
-- values, and there is such a slot. The percentage is a whole number up to 100, there is a stored
-- value, the buckets add up to the stored values, of which there are fewer than 2^46, and the
-- comparison of quotients of small integers in doubles is exact.
pub find_percentile_bucket_index-IsFound :
    {Double : Type 0} (fp : Doubles Double) (percent : ℕ) (h : Histogram)
    → IsExact fp
    → percent ≤ 100
    → 0 < h.num_stored_values
    → h.num_stored_values < 2 ^ 46
    → count_below (length h.buckets) h.buckets ≡ h.num_stored_values
    → let k = find_percentile_bucket_index fp (fp.to_double percent) h in
      (k < length h.buckets)
      × (percent * h.num_stored_values ≤ count_below (suc k) h.buckets * 100)
      × ((j : ℕ) → j < k → count_below (suc j) h.buckets * 100 < percent * h.num_stored_values)
unfolding find_percentile_bucket_index
find_percentile_bucket_index-IsFound fp percent h exact at_most some_values few_values sum =
    let stored = h.num_stored_values in
    let (k, e, found) =
      find_from-IsFound fp exact percent stored some_values few_values at_most h.buckets 0 0
        (omega (arith, sum)) (inr (some_slot h.buckets (omega (arith, sum)))) in
    let e' : find_from fp (fp.to_double percent) stored 0 0 h.buckets ≡ k = omega (arith, e) in
    subst
      (λ x.
        (x < length h.buckets)
        × (percent * stored ≤ count_below (suc x) h.buckets * 100)
        × ((j : ℕ) → j < x → count_below (suc j) h.buckets * 100 < percent * stored))
      (sym e')
      (found.0, omega (arith, found.1), λ j lt. let before = found.2 j lt in omega (arith, before))
  where
    some_slot : (bs : List ℕ) → 0 < count_below (length bs) bs → 0 < length bs
    some_slot [] z = absurd (omega arith)
    some_slot (b ∷ bs) z = omega arith
