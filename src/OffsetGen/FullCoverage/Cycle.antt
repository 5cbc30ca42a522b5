-- ===== src/OffsetGen/FullCoverage/Cycle.antt =====
-- The linear congruential generator of
-- source/toolkits/offsetgen/OffsetGenRandomAlignedFullCoverageV2.h visits every state: with an odd
-- increment and a multiplier of the form 4k + 1 its period is the whole modulus, a power of two.
use native.Mathlib.Nat.{
  pow-suc, one-le-pow, mod-lt, div-lt_iff_lt-mul, mod-add-div', add-mul-mod_self_right,
  mod-eq_of_lt,
}
use elbencho.Prelude.{ℕ, zero, suc, ◌+◌, ◌*◌, ◌/◌, ◌%◌, ◌^◌, ◌<◌, ◌≡◌, arith, ap, ◌∙◌, subst}

-- `n` steps of the generator, before any reduction.
abbrev pub iterate : ℕ → ℕ → ℕ → ℕ → ℕ
iterate zero a c x = x
iterate (suc n) a c x = iterate n a c (a * x + c)

pub iterate-add : (n k a c x : ℕ) → iterate (n + k) a c x ≡ iterate k a c (iterate n a c x)
iterate-add zero k a c x = let e : 0 + k ≡ k = omega arith in rw e
iterate-add (suc n) k a c x =
    let e : suc n + k ≡ suc (n + k) = omega arith in rw e (iterate-add n k a c (a * x + c))

-- What 2^k steps do, at t = 2^k.
record Jump (a c t : ℕ) : Type 0 where
  p : ℕ
  q : ℕ
  steps : (x : ℕ) → iterate t a c x ≡ (1 + 4 * t * p) * x + t * (2 * q + 1)

double-Jump : (a c t : ℕ) → Jump a c t → Jump a c (t + t)
double-Jump a c t j = record {
  p = j.p + 2 * t * j.p * j.p;
  q = j.q + t * j.p * (2 * j.q + 1);
  steps = λ x. omega (
    arith,
    iterate-add t t a c x,
    j.steps x,
    j.steps (iterate t a c x),
    ap (λ y. (1 + 4 * t * j.p) * y) (j.steps x),
  );
}

module _ (a c p0 q0 : ℕ) (a_form : a ≡ 4 * p0 + 1) (c_odd : c ≡ 2 * q0 + 1) where
  jump : (k : ℕ) → Jump a c (2 ^ k)
  jump zero = record { p = p0; q = q0; steps = λ x. omega (arith, ap (λ y. y * x) a_form) }
  jump (suc k) =
      let e : 2 ^ k + 2 ^ k ≡ 2 ^ suc k = omega (arith, pow-suc 2 k) in
      subst (Jump a c) e (double-Jump a c (2 ^ k) (jump k))

  -- From every start each residue modulo t = 2^k comes up within the first t steps.
  Meets : ℕ → ℕ → ℕ → Type 0
  Meets t x y = (n : ℕ) × (d : ℕ) × (n < t) × (iterate n a c x ≡ y + d * t)

  -- One more bit: the residue is met at `n`, or 2^k steps later.
  widen :
      (t x y n d : ℕ)
      → Jump a c t
      → n < t
      → (r e h : ℕ) → iterate n a c x ≡ y + d * t
      → d ≡ 2 * h + r
      → r < 2
      → e < 2
      → Meets (t + t) x (y + e * t)
  unfolding Meets
  widen t x y n d j lt zero zero h met half r2 e2 =
      (n, h, omega arith, omega (arith, met, ap (λ z. z * t) half))
  widen t x y n d j lt (suc zero) (suc zero) h met half r2 e2 =
      (n, h, omega arith, omega (arith, met, ap (λ z. z * t) half))
  widen t x y n d j lt zero (suc zero) h met half r2 e2 = (
    n + t,
    h + 2 * j.p * iterate n a c x + j.q,
    omega arith,
    omega (arith, met, ap (λ z. z * t) half, iterate-add n t a c x, j.steps (iterate n a c x)),
  )
  widen t x y n d j lt (suc zero) zero h met half r2 e2 = (
    n + t,
    h + 1 + 2 * j.p * iterate n a c x + j.q,
    omega arith,
    omega (arith, met, ap (λ z. z * t) half, iterate-add n t a c x, j.steps (iterate n a c x)),
  )
  widen t x y n d j lt (suc (suc r)) e h met half r2 e2 = absurd (omega arith)
  widen t x y n d j lt zero (suc (suc e)) h met half r2 e2 = absurd (omega arith)
  widen t x y n d j lt (suc zero) (suc (suc e)) h met half r2 e2 = absurd (omega arith)

  meets : (k x y : ℕ) → y < 2 ^ k → Meets (2 ^ k) x y
  unfolding Meets
  meets zero x y h = (0, x, omega arith, omega arith)
  meets (suc k) x y h =
      let t = 2 ^ k in
      let t_pos : 0 < t = one-le-pow k 2 (omega arith) in
      let y0 = y % t in
      let e = y / t in
      let (n, d, lt, met) = meets k x y0 (mod-lt y t_pos) in
      let e2 : e < 2 = (div-lt_iff_lt-mul t_pos).1 (omega (arith, pow-suc 2 k)) in
      let (n', d', lt', met') =
        widen t x y0 n d (jump k) lt (d % 2) e (d / 2) met (omega arith) (omega arith) e2 in
      let whole : y0 + e * t ≡ y = mod-add-div' y t in
      let doubled : t + t ≡ 2 ^ suc k = omega (arith, pow-suc 2 k) in
      (
        n',
        d',
        omega (arith, lt', doubled),
        met' ∙ (ap (λ z. z + d' * (t + t)) whole ∙ ap (λ z. y + d' * z) doubled),
      )

  -- The states of the generator, from the one behind `x`.
  pub residue_met : (k x y : ℕ) → y < 2 ^ k → (n : ℕ) × (n < 2 ^ k) × (iterate n a c x % 2 ^ k ≡ y)
  unfolding meets Meets
  residue_met k x y h =
      let (n, d, lt, met) = meets k x y h in
      (n, lt, ap (λ z. z % 2 ^ k) met ∙ (add-mul-mod_self_right y d (2 ^ k) ∙ mod-eq_of_lt h))
