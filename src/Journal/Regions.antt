-- ===== src/Journal/Regions.antt =====
-- The lock regions of a journal: the loop of `initRunOptions`, and the locks of one I/O.
use native.Mathlib.Nat.{pow-suc, mod-lt, le-div_iff_mul-le, div-lt_iff_lt-mul}
use native.Mathlib.Omega.{div_any}
use Prim.Native.Nat.{bit_xor}
use elbencho.Prelude.{
  ℕ, zero, suc, ◌+◌, ◌-◌, ◌*◌, ◌/◌, ◌^◌, ◌≤◌, ◌<◌, ◌≡◌, refl, sym, subst, arith, ltb, ltb→lt,
  ltb→le, ◌==◌, ==_iff, if◌then◌else◌, List, [], ◌∷◌, Bool-cases, inl, inr, ◌⊎◌, min, max, length,
  add64, add64-eq, sub64, sub64-eq, mul64,
}
use elbencho.Journal.{Journal, region_shift, block_index_to_stripe, stripes_of, num_stripes}
use elbencho.Journal.BlockIo.Ranges.{Covers}

abbrev pub IsIn : ℕ → List ℕ → Type 0
IsIn x [] = ◌≡◌ {A = ℕ} 0 1
IsIn x (y ∷ ys) = (x ≡ y) ⊎ IsIn x ys

pow-pos : (x : ℕ) → 0 < 2 ^ x
pow-pos zero = omega arith
pow-pos (suc x) = let h = pow-pos x in omega (arith, pow-suc 2 x)

region_shift-bounds :
    (fuel m shift : ℕ)
    → m ≤ 2 ^ (fuel + shift)
    → (shift ≡ 0) ⊎ (2 ^ shift < 2 * m)
    → (m ≤ 2 ^ region_shift fuel m shift)
      × ((region_shift fuel m shift ≡ 0) ⊎ (2 ^ region_shift fuel m shift < 2 * m))
unfolding region_shift
region_shift-bounds zero m shift h p = (subst (λ x. m ≤ 2 ^ x) (omega arith) h, p)
region_shift-bounds (suc fuel) m shift h p = elim (Bool-cases (ltb (2 ^ shift) m)) [
  | inl less ↦
      let lt : 2 ^ shift < m = ltb→lt (2 ^ shift) m less in
      let e : suc fuel + shift ≡ fuel + suc shift = omega arith in
      rw less (
        region_shift-bounds fuel m (suc shift) (subst (λ x. m ≤ 2 ^ x) e h)
          (inr (omega (arith, pow-suc 2 shift))))
  | inr enough ↦ rw enough (ltb→le (2 ^ shift) m enough, p)
]

-- The loop of `initRunOptions` ends for any number of blocks up to 2^64: then the lock region holds
-- at least the blocks of the largest I/O, and fewer than twice as many, unless it is a single block.
pub region_shift_lem :
    (max_blocks : ℕ)
    → max_blocks ≤ 2 ^ 64
    → (max_blocks ≤ 2 ^ region_shift 64 max_blocks 0)
      × ((region_shift 64 max_blocks 0 ≡ 0) ⊎ (2 ^ region_shift 64 max_blocks 0 < 2 * max_blocks))
region_shift_lem m h = region_shift-bounds 64 m 0 h (inl refl)

-- A block of a range that is no longer than a region lies in the region of the range's first block,
-- or in that of its last.
two_regions :
    (d first n k : ℕ)
    → 0 < d
    → n ≤ d
    → Covers first n k
    → (k / d ≡ first / d) ⊎ (k / d ≡ (first + n - 1) / d)
two_regions d first n k p h (a, b) =
    let q = first / d in
    let f = div_any first d in
    let rf = mod-lt first p in
    let start : q * d ≤ first = omega (arith, f) in
    let end : first + n ≤ (q + 2) * d = omega (arith, f, rf) in
    let k1 : q ≤ k / d = (le-div_iff_mul-le p).1 (omega arith) in
    let k2 : k / d < q + 2 = (div-lt_iff_lt-mul p).1 (omega arith) in
    let l2 : (first + n - 1) / d < q + 2 = (div-lt_iff_lt-mul p).1 (omega arith) in
    elim (Bool-cases (k / d == q)) [
      | inl e ↦ inl ((==_iff (k / d) q).0 e)
      | inr ne ↦
          let k3 : q + 1 ≤ k / d = ground arith in
          let k4 : (q + 1) * d ≤ k = (le-div_iff_mul-le p).0 k3 in
          let l1 : q + 1 ≤ (first + n - 1) / d = (le-div_iff_mul-le p).1 (omega arith) in
          inr (omega arith)
    ]

pick_lock : (a b : ℕ) → IsIn a (if a == b then a ∷ [] else min a b ∷ max a b ∷ [])
pick_lock a b = elim (Bool-cases (a == b)) [
  | inl e ↦ rw e (inl refl)
  | inr ne ↦ rw ne (elim (Bool-cases (ltb a b)) [
    | inl lt ↦ let h = ltb→lt a b lt in inl (omega arith)
    | inr ge ↦ let h = ltb→le a b ge in inr (inl (omega arith))
  ])
]

pick_last : (a b : ℕ) → IsIn b (if a == b then a ∷ [] else min a b ∷ max a b ∷ [])
pick_last a b = elim (Bool-cases (a == b)) [
  | inl e ↦ let q = (==_iff a b).0 e in rw e (inl (sym q))
  | inr ne ↦ rw ne (elim (Bool-cases (ltb a b)) [
    | inl lt ↦ let h = ltb→lt a b lt in inr (inl (omega arith))
    | inr ge ↦ let h = ltb→le a b ge in inl (omega arith)
  ])
]

own_stripe :
    (j : Journal) (first n k : ℕ)
    → 0 < n
    → n ≤ 2 ^ j.lock_region_shift
    → first + n < 2 ^ 64
    → Covers first n k
    → IsIn (block_index_to_stripe j k) (stripes_of j first n)
unfolding stripes_of block_index_to_stripe
own_stripe j first n k p h w c =
    let a : add64 first n ≡ first + n = add64-eq first n w in
    let b : sub64 (first + n) 1 ≡ first + n - 1 = sub64-eq (first + n) 1 (omega arith) w in
    let stripe : ℕ → ℕ = λ r. mul64 (bit_xor r j.stripe_salt) 0x9E3779B97F4A7C15 / 2 ^ 48 in
    let d = 2 ^ j.lock_region_shift in
    elim (two_regions d first n k (pow-pos j.lock_region_shift) h c) [
      | inl e ↦
          rw (a, b)
            (subst
              (λ r. IsIn (stripe r) (
                if stripe (first / d) == stripe ((first + n - 1) / d)
                then stripe (first / d) ∷ []
                else min (stripe (first / d)) (stripe ((first + n - 1) / d))
                  ∷ max (stripe (first / d)) (stripe ((first + n - 1) / d))
                  ∷ []))
              (sym e) (pick_lock (stripe (first / d)) (stripe ((first + n - 1) / d))))
      | inr e ↦
          rw (a, b)
            (subst
              (λ r. IsIn (stripe r) (
                if stripe (first / d) == stripe ((first + n - 1) / d)
                then stripe (first / d) ∷ []
                else min (stripe (first / d)) (stripe ((first + n - 1) / d))
                  ∷ max (stripe (first / d)) (stripe ((first + n - 1) / d))
                  ∷ []))
              (sym e) (pick_last (stripe (first / d)) (stripe ((first + n - 1) / d))))
    ]

two_at_most : (a b : ℕ) → length (if a == b then a ∷ [] else min a b ∷ max a b ∷ []) ≤ 2
two_at_most a b = elim (Bool-cases (a == b)) [
  | inl e ↦ rw e (omega arith)
  | inr ne ↦ rw ne (omega arith)
]

length-stripes_of : (j : Journal) (first n : ℕ) → length (stripes_of j first n) ≤ 2
unfolding stripes_of
length-stripes_of j first n = two_at_most _ _

-- An I/O of no more blocks than a lock region holds takes at most two locks, and among them is the
-- lock of each of its blocks.
pub stripes_of-Covers :
    (j : Journal) (first n k : ℕ)
    → 0 < n
    → n ≤ 2 ^ j.lock_region_shift
    → first + n < 2 ^ 64
    → Covers first n k
    → (length (stripes_of j first n) ≤ 2) × IsIn (block_index_to_stripe j k) (stripes_of j first n)
stripes_of-Covers j first n k p h w c =
    (length-stripes_of j first n, own_stripe j first n k p h w c)

-- The locks of an I/O stand in ascending order, each once, and are locks of the stripe array.
abbrev pub Ascends : List ℕ → Type 0
Ascends [] = Unit {0}
Ascends (x ∷ []) = x < num_stripes
Ascends (x ∷ y ∷ ys) = (x < y) × Ascends (y ∷ ys)

stripe-lt : (j : Journal) (i : ℕ) → block_index_to_stripe j i < num_stripes
unfolding block_index_to_stripe mul64
stripe-lt j i = omega arith

pub stripes_of-Ascends : (j : Journal) (first n : ℕ) → Ascends (stripes_of j first n)
unfolding stripes_of
stripes_of-Ascends j first n =
    ascends (block_index_to_stripe j first) (block_index_to_stripe j (sub64 (add64 first n) 1))
      (stripe-lt j first) (stripe-lt j _)
  where
    ascends :
        (a b : ℕ)
        → a < num_stripes
        → b < num_stripes
        → Ascends (if a == b then a ∷ [] else min a b ∷ max a b ∷ [])
    ascends a b h k = elim (Bool-cases (a == b)) [
      | inl e ↦ rw e h
      | inr ne ↦ rw ne (ground arith, omega arith)
    ]
