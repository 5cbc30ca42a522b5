-- ===== src/LatencyHistogram/Buckets.antt =====
-- The mapping of latencies to slots: `valueToIndex` and `indexToUpperBoundMicroSec`.
use native.Mathlib.Nat.{
  le-div_iff_mul-le, div-lt_iff_lt-mul, mod-lt, mul-le-mul, pow-suc, pow-le-pow_right,
}
use native.Mathlib.Omega.{div_any}
use elbencho.Prelude.{
  ℕ, max, mul64-eq, zero, suc, ◌+◌, ◌-◌, ◌*◌, ◌/◌, ◌%◌, ◌^◌, ◌≤◌, ◌<◌, ◌≡◌, arith, ltb, min, false,
  Bool-cases, inl, inr, subst, sym, add64, sub64,
}
use elbencho.LatencyHistogram.{
  highest_bit, sub32, octave_of, value_to_index, index_to_upper_bound, num_buckets,
}

-- The highest bit of a word bounds it on both sides.
highest_bit_lem :
    (w v : ℕ)
    → 0 < v
    → v < 2 ^ w
    → (2 ^ highest_bit w v ≤ v) × (v < 2 * 2 ^ highest_bit w v) × (highest_bit w v < w)
unfolding highest_bit
highest_bit_lem zero v p h = absurd (omega arith)
highest_bit_lem (suc w) v p h = elim (Bool-cases (ltb v 2)) [
  | inl small ↦ rw small (ground arith)
  | inr large ↦
      let (a, b, c) = highest_bit_lem w (v / 2) (ground arith) (omega (arith, pow-suc 2 w)) in
      rw large (
        omega (arith, a, b, c, pow-suc 2 (highest_bit w (v / 2))),
        omega (arith, a, b, c, pow-suc 2 (highest_bit w (v / 2))),
        omega (arith, c),
      )
]

pow-pos : (x : ℕ) → 0 < 2 ^ x
pow-pos zero = omega arith
pow-pos (suc x) = let h = pow-pos x in omega (arith, pow-suc 2 x)

pow-six : (k : ℕ) → 2 ^ suc (suc (suc (suc (suc (suc k))))) ≡ 64 * 2 ^ k
pow-six k = omega (
  arith,
  pow-suc 2 k,
  pow-suc 2 (suc k),
  pow-suc 2 (suc (suc k)),
  pow-suc 2 (suc (suc (suc k))),
  pow-suc 2 (suc (suc (suc (suc k)))),
  pow-suc 2 (suc (suc (suc (suc (suc k))))),
)

octave_at :
    (g v : ℕ)
    → 2 ^ g ≤ v
    → v < 2 * 2 ^ g
    → 7 ≤ g
    → g < 64
    → let x = min (sub32 g 6) 38 in
      (1 ≤ x) × (x ≤ 38) × (64 * 2 ^ x ≤ v) × (v < 2 ^ 45 → v < 128 * 2 ^ x)
unfolding sub32
octave_at g v a b h k =
    let e : (g + (2 ^ 32 - 6)) % 2 ^ 32 ≡ g - 6 = omega arith in
    let p : 2 ^ min (g - 6) 38 ≤ 2 ^ (g - 6) = pow-le-pow_right (omega arith) (omega arith) in
    let q : 2 ^ g ≡ 64 * 2 ^ (g - 6) =
      subst (λ x. 2 ^ x ≡ 64 * 2 ^ (g - 6)) (omega arith) (pow-six (g - 6)) in
    let last : v < 2 ^ 45 → v < 128 * 2 ^ min (g - 6) 38 = elim (Bool-cases (ltb (g - 6) 38)) [
      | inl low ↦ λ small.
          (let m : min (g - 6) 38 ≡ g - 6 = ground arith in
            subst (λ x. v < 128 * 2 ^ x) (sym m) (omega arith))
      | inr high ↦ λ small.
          (let m : min (g - 6) 38 ≡ 38 = ground arith in
            subst (λ x. v < 128 * 2 ^ x) (sym m) (omega arith))
    ] in
    subst
      (λ x.
        (1 ≤ min x 38)
        × (min x 38 ≤ 38)
        × (64 * 2 ^ min x 38 ≤ v)
        × (v < 2 ^ 45 → v < 128 * 2 ^ min x 38))
      (sym e) (omega arith, omega arith, omega arith, last)

-- The octave of a value above the linear slots.
octave_of_lem :
    (v : ℕ)
    → 128 ≤ v
    → v < 2 ^ 64
    → (1 ≤ octave_of v)
      × (octave_of v ≤ 38)
      × (64 * 2 ^ octave_of v ≤ v)
      × (v < 2 ^ 45 → v < 128 * 2 ^ octave_of v)
unfolding octave_of
octave_of_lem v le lt =
    let (a, b, c) = highest_bit_lem 64 v (omega arith) lt in
    let high : 7 ≤ highest_bit 64 v = elim (Bool-cases (ltb (highest_bit 64 v) 7)) [
      | inl small ↦
          let small' : highest_bit 64 v ≤ 6 = ground arith in
          let p : 2 ^ highest_bit 64 v ≤ 2 ^ 6 = pow-le-pow_right (omega arith) small' in
          absurd (omega arith)
      | inr large ↦ ground arith
    ] in
    octave_at (highest_bit 64 v) v a b high c

-- The slot of a value above the linear slots, without overflow.
slot_at :
    (x s : ℕ)
    → 1 ≤ x
    → x ≤ 38
    → 64 ≤ s
    → s ≤ 127
    → add64 (add64 128 (sub32 x 1 * 64)) (sub64 s 64) ≡ 128 + (x - 1) * 64 + (s - 64)
unfolding add64 sub64 sub32
slot_at x s a b c d =
    let e : (x + (2 ^ 32 - 1)) % 2 ^ 32 ≡ x - 1 = omega arith in
    let f : (s + (2 ^ 64 - 64)) % 2 ^ 64 ≡ s - 64 = omega arith in rw (e, f) (omega arith)

-- The sub-bucket of a value in an octave.
sub_bucket_at : (x v : ℕ) → 64 * 2 ^ x ≤ v → 64 ≤ min (v / 2 ^ x) 127
sub_bucket_at x v h =
    let p : 0 < 2 ^ x = pow-pos x in
    let q : 64 ≤ v / 2 ^ x = (le-div_iff_mul-le p).1 h in omega arith

upper_fits : (s d : ℕ) → s ≤ 127 → d ≤ 2 ^ 38 → (s + 1) * d < 2 ^ 64
upper_fits s d a b =
    let h : (s + 1) * d ≤ 128 * 2 ^ 38 = mul-le-mul {n₂ = 128} (omega arith) b in omega arith

linear_upper : (v : ℕ) → v < 128 → index_to_upper_bound v ≡ v + 1
unfolding index_to_upper_bound
linear_upper v h = ground arith

within :
    (d v : ℕ)
    → 0 < d
    → 64 * d ≤ v
    → v < 128 * d
    → (v < (min (v / d) 127 + 1) * d) × (64 * ((min (v / d) 127 + 1) * d - v) ≤ max 64 v)
within d v p h k =
    let q : v / d < 128 = (div-lt_iff_lt-mul p).1 k in
    let m : min (v / d) 127 ≡ v / d = omega arith in
    let e : d * (v / d) + v % d ≡ v = div_any v d in
    let r : v % d < d = mod-lt v p in rw m (omega arith, omega arith)

-- Every 64-bit latency has a slot of the histogram, which no write of `addLatency` leaves.
pub value_to_index-lt : (v : ℕ) → v < 2 ^ 64 → value_to_index v < num_buckets
unfolding value_to_index
value_to_index-lt v lt = elim (Bool-cases (ltb v 128)) [
  | inl small ↦ rw small (ground arith)
  | inr large ↦
      let (a, b, c, d) = octave_of_lem v (ground arith) lt in
      let s = sub_bucket_at (octave_of v) v c in
      rw large
        (omega (arith, slot_at (octave_of v) (min (v / 2 ^ octave_of v) 127) a b s (omega arith)))
]

-- The upper bound of a slot above the linear ones.
upper_at :
    (x s : ℕ)
    → 1 ≤ x
    → x ≤ 38
    → 64 ≤ s
    → s ≤ 127
    → index_to_upper_bound (128 + (x - 1) * 64 + (s - 64)) ≡ (s + 1) * 2 ^ x
unfolding index_to_upper_bound
upper_at x s a b c d =
    let n : ℕ = 128 + (x - 1) * 64 + (s - 64) in
    let beyond : ltb n 128 ≡ false = ground arith in
    let octave : 1 + (n - 128) / 64 ≡ x = omega arith in
    let sub : 64 + (n - 128) % 64 ≡ s = omega arith in
    let fits : 2 ^ x ≤ 2 ^ 38 = pow-le-pow_right (omega arith) b in
    let small : (s + 1) * 2 ^ x < 2 ^ 64 = upper_fits s (2 ^ x) d fits in
    rw (beyond, octave, sub) (mul64-eq (s + 1) (2 ^ x) small)

-- The upper bound of the slot of a latency, up to the top of the histogram's range, lies above the
-- latency by no more than a 64th of it, or by 1 in the slots below 128 microseconds.
pub index_to_upper_bound-value_to_index :
    (v : ℕ)
    → v < 2 ^ 45
    → (v < index_to_upper_bound (value_to_index v))
      × (64 * (index_to_upper_bound (value_to_index v) - v) ≤ max 64 v)
unfolding value_to_index
index_to_upper_bound-value_to_index v lt = elim (Bool-cases (ltb v 128)) [
  | inl small ↦ rw small (let e = linear_upper v (ground arith) in (omega arith, omega arith))
  | inr large ↦
      let (a, b, c, d) = octave_of_lem v (ground arith) (omega arith) in
      let s = sub_bucket_at (octave_of v) v c in
      let e = slot_at (octave_of v) (min (v / 2 ^ octave_of v) 127) a b s (omega arith) in
      let f = upper_at (octave_of v) (min (v / 2 ^ octave_of v) 127) a b s (omega arith) in
      rw (large, e, f) (within (2 ^ octave_of v) v (pow-pos (octave_of v)) c (d lt))
]
