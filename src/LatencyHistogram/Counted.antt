-- ===== src/LatencyHistogram/Counted.antt =====
-- No latency is lost: the buckets against the number of stored values.
use elbencho.Prelude.{
  ℕ, zero, suc, ◌+◌, ◌%◌, ◌^◌, ◌<◌, ◌≡◌, ◌∙◌, sym, ap, refl, arith, List, [], ◌∷◌, replicate,
  length, add64, length-set, length-replicate, All,
}
use elbencho.LatencyHistogram.{
  Histogram, num_buckets, new, value_to_index, increment, add_latency, add_buckets, merge,
}
use elbencho.LatencyHistogram.Buckets.{value_to_index-lt}
use elbencho.LatencyHistogram.Merge.{add_all}

abbrev pub sum64 : List ℕ → ℕ
sum64 [] = 0
sum64 (n ∷ ns) = (n + sum64 ns) % 2 ^ 64

increment-sum64 :
    (bs : List ℕ) (i : ℕ) → i < length bs → sum64 (increment bs i) ≡ add64 (sum64 bs) 1
unfolding increment add64
increment-sum64 [] i h = elim h [ ]
increment-sum64 (b ∷ bs) zero h = omega arith
increment-sum64 (b ∷ bs) (suc i) h =
    let ih = increment-sum64 bs i (omega arith) in omega (arith, ih)

-- The number of stored values is the sum of the buckets, both modulo 2^64.
pub record IsCounted (h : Histogram) : Type 0 where
  pub size : length h.buckets ≡ num_buckets
  pub counted : sum64 h.buckets ≡ h.num_stored_values

pub new-IsCounted : IsCounted new
unfolding new
new-IsCounted = record {
  size = length-replicate {A = ℕ} num_buckets 0;
  counted = zeros num_buckets;
}
  where
    zeros : (n : ℕ) → sum64 (replicate n 0) ≡ 0
    zeros zero = refl
    zeros (suc n) = omega (arith, zeros n)

add_latency-IsCounted :
    (v : ℕ) (h : Histogram) → v < 2 ^ 64 → IsCounted h → IsCounted (add_latency v h)
unfolding add_latency increment
add_latency-IsCounted v h lt c = record {
  size = length-set h.buckets (value_to_index v) _ ∙ c.size;
  counted =
      increment-sum64 h.buckets (value_to_index v) (omega (arith, value_to_index-lt v lt, c.size))
      ∙ ap (λ n. add64 n 1) c.counted;
}

-- Every latency is counted: whatever 64-bit latencies were added, the buckets add up to the number
-- of stored values, modulo 2^64.
pub add_all-IsCounted :
    (vs : List ℕ) (h : Histogram)
    → All (λ (v : ℕ). v < 2 ^ 64) vs
    → IsCounted h
    → IsCounted (add_all vs h)
add_all-IsCounted [] h p c = c
add_all-IsCounted (v ∷ vs) h p c =
    add_all-IsCounted vs (add_latency v h) p.1 (add_latency-IsCounted v h p.0 c)

add_buckets-sum64 :
    (xs ys : List ℕ)
    → length xs ≡ length ys
    → sum64 (add_buckets xs ys) ≡ add64 (sum64 xs) (sum64 ys)
unfolding add_buckets add64
add_buckets-sum64 [] [] h = refl
add_buckets-sum64 [] (y ∷ ys) h = absurd (omega arith)
add_buckets-sum64 (x ∷ xs) [] h = absurd (omega arith)
add_buckets-sum64 (x ∷ xs) (y ∷ ys) h =
    let ih = add_buckets-sum64 xs ys (omega arith) in omega (arith, ih)

length-add_buckets : (xs ys : List ℕ) → length (add_buckets xs ys) ≡ length xs
unfolding add_buckets
length-add_buckets [] ys = refl
length-add_buckets (x ∷ xs) [] = refl
length-add_buckets (x ∷ xs) (y ∷ ys) = ap suc (length-add_buckets xs ys)

-- A sum of two histograms is counted where both are.
pub merge-IsCounted : (a b : Histogram) → IsCounted a → IsCounted b → IsCounted (merge a b)
unfolding merge
merge-IsCounted a b p q = record {
  size = length-add_buckets a.buckets b.buckets ∙ p.size;
  counted =
      add_buckets-sum64 a.buckets b.buckets (p.size ∙ sym q.size)
      ∙ (ap (λ n. add64 n (sum64 b.buckets)) p.counted ∙ ap (add64 a.num_stored_values) q.counted);
}
