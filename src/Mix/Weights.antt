-- ===== src/Mix/Weights.antt =====
-- How `getNextSize` of source/toolkits/BlockSizeMix.h draws: by prefix sums of the weights.
use elbencho.Prelude.{
  ℕ, ◌+◌, ◌%◌, ◌≤◌, ◌<◌, ◌≡◌, List, [], ◌∷◌, ◌++◌, add64, add64-eq, u64_mod, ok, throws, Error,
  arith, length,
}
use elbencho.Mix.{Mix, cumulate, total_of, of_entries, find_size, back_size, get_next_size}

abbrev pub sum_weights : List (ℕ × ℕ) → ℕ
sum_weights [] = 0
sum_weights ((s, w) ∷ rest) = w + sum_weights rest

sum_weights-append :
    (xs ys : List (ℕ × ℕ)) → sum_weights (xs ++ ys) ≡ sum_weights xs + sum_weights ys
sum_weights-append [] ys = omega arith
sum_weights-append ((s, w) ∷ xs) ys = omega (arith, sum_weights-append xs ys)

total_of-sum_weights :
    (t : ℕ) (es : List (ℕ × ℕ)) → t < u64_mod → total_of t es ≡ (t + sum_weights es) % u64_mod
unfolding total_of add64
total_of-sum_weights t [] h = omega arith
total_of-sum_weights t ((s, w) ∷ es) h =
    omega (arith, total_of-sum_weights ((t + w) % u64_mod) es (omega arith))

-- The search stops at the entry into whose share of the weights the draw falls.
find_size-cumulate :
    (t d x s w : ℕ) (pre post : List (ℕ × ℕ))
    → t + sum_weights (pre ++ (s, w) ∷ post) < u64_mod
    → t + sum_weights pre ≤ d
    → d < t + sum_weights pre + w
    → find_size d (cumulate t (pre ++ (s, w) ∷ post)) (pre ++ (s, w) ∷ post) x ≡ s
unfolding find_size cumulate
find_size-cumulate t d x s w [] post h lo hi = ground (arith, add64-eq t w)
find_size-cumulate t d x s w ((a, b) ∷ pre) post h lo hi =
    rw (add64-eq t b (omega (arith))) (ground (arith, find_size-cumulate (t + b) d x s w pre post))

pub of_entries-fields :
    (es : List (ℕ × ℕ)) (m : Mix)
    → of_entries es ≡ ok m
    → (m.sizes_and_weights ≡ es)
      × (m.cumulative_weights ≡ cumulate 0 es)
      × (m.total_weight ≡ total_of 0 es)
unfolding of_entries
of_entries-fields [] m e = cc
of_entries-fields ((s, w) ∷ es) m e = ground arith

module _ {G : Type 0} (next : G → ℕ × G) where
  get_next_size-mix :
      (m : Mix) (g : G)
      → 1 < length m.sizes_and_weights
      → 0 < m.total_weight
      → get_next_size next m g
        ≡ ok (
          find_size
              ((next g).0 % m.total_weight)
              m.cumulative_weights
              m.sizes_and_weights
              (back_size m.sizes_and_weights),
          (next g).1,
        )
  unfolding get_next_size
  get_next_size-mix m g l h = ground arith

  -- In a mix of two or more entries whose weights sum to less than 2^64 the draw returns the size
  -- of an entry whenever the generator's value, modulo the total weight, falls into the entry's
  -- share: as many values as its weight, behind those of the entries before it. The total weight
  -- is the sum of the weights.
  pub get_next_size-share :
      (m : Mix) (pre post : List (ℕ × ℕ)) (s w : ℕ) (g : G)
      → of_entries (pre ++ (s, w) ∷ post) ≡ ok m
      → 1 < length (pre ++ (s, w) ∷ post)
      → sum_weights (pre ++ (s, w) ∷ post) < u64_mod
      → sum_weights pre ≤ (next g).0 % m.total_weight
      → (next g).0 % m.total_weight < sum_weights pre + w
      → (m.total_weight ≡ sum_weights (pre ++ (s, w) ∷ post))
        × (get_next_size next m g ≡ ok (s, (next g).1))
  get_next_size-share m pre post s w g e l h lo hi =
      let es = pre ++ (s, w) ∷ post in
      let (sizes, cumulative, total) = of_entries-fields es m e in
      let sum : m.total_weight ≡ sum_weights es =
        omega (arith, total, total_of-sum_weights 0 es (omega arith)) in
      let pos : 0 < m.total_weight = omega (arith, sum, sum_weights-append pre ((s, w) ∷ post)) in
      let d = (next g).0 % m.total_weight in
      let found : find_size d (cumulate 0 es) es (back_size es) ≡ s =
        find_size-cumulate 0 d (back_size es) s w pre post (omega arith) (omega arith)
          (omega arith) in
      (sum, cc (get_next_size-mix m g (rw sizes l) pos, found, sizes, cumulative))

  pub get_next_size-divides :
      (m : Mix) (es : List (ℕ × ℕ)) (g : G)
      → of_entries es ≡ ok m
      → 1 < length es
      → sum_weights es % u64_mod ≡ 0
      → get_next_size next m g ≡ throws Error.division_by_zero
  unfolding get_next_size
  get_next_size-divides m es g e l h =
      let (sizes, cumulative, total) = of_entries-fields es m e in
      let zero_total : m.total_weight ≡ 0 =
        omega (arith, total, total_of-sum_weights 0 es (omega arith)) in
      let mixed : 1 < length m.sizes_and_weights = rw sizes l in ground arith
