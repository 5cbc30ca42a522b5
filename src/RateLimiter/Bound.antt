-- ===== src/RateLimiter/Bound.antt =====
-- The rate that `RateLimiter::wait` lets through.
use native.Mathlib.Nat.{mul-le-mul}
use elbencho.Prelude.{
  leb→le, subst, sym, ℕ, ◌+◌, ◌-◌, ◌*◌, ◌/◌, ◌^◌, ◌≤◌, ◌<◌, ◌≡◌, refl, arith, true, false, ltb,
  List, [], ◌∷◌, add64, add64-eq, Bool-cases, inl, inr,
}
use elbencho.RateLimiter.{RateLimiter, is_new_second, must_wait, wait}

abbrev pub second : ℕ
second = 1000000000

-- A call of `wait`: its two readings of the clock, and the size asked for.
pub record Call : Type 0 where
  pub now : ℕ
  pub later : ℕ
  pub size : ℕ

abbrev pub after : Call → RateLimiter → RateLimiter
after c r = (wait c.now c.later c.size r).1

abbrev pub run : List Call → RateLimiter → RateLimiter
run [] r = r
run (c ∷ cs) r = run cs (after c r)

abbrev pub sum_sizes : List Call → ℕ
sum_sizes [] = 0
sum_sizes (c ∷ cs) = c.size + sum_sizes cs

-- The clock does not run backwards, a sleep ends no earlier than it was asked to, and no single
-- size is beyond the limit.
pub record IsTimely (c : Call) (r : RateLimiter) : Type 0 where
  pub started : r.start_t ≤ c.now
  pub monotonic : c.now ≤ c.later
  pub slept : (wait c.now c.later c.size r).0 ≡ true → r.start_t + second ≤ c.later
  pub fits : c.size ≤ r.limit_per_sec

abbrev pub AllTimely : List Call → RateLimiter → Type 0
AllTimely [] r = Unit {0}
AllTimely (c ∷ cs) r = IsTimely c r × AllTimely cs (after c r)

pub record IsLimited (r : RateLimiter) : Type 0 where
  pub within : r.num_done_this_sec ≤ r.limit_per_sec
  pub word : r.limit_per_sec < 2 ^ 63

-- One call: the limit stays, the state stays within it, and what is let through is paid for by the
-- rest of the limit and by seconds that have passed.
pub record Step (c : Call) (r r' : RateLimiter) : Type 0 where
  pub limited : IsLimited r'
  pub limit : r'.limit_per_sec ≡ r.limit_per_sec
  pub forward : r.start_t ≤ r'.start_t
  pub paid :
      (r.num_done_this_sec + c.size) * second
      ≤ r'.num_done_this_sec * second + r.limit_per_sec * (r'.start_t - r.start_t)

new_second : (d n l s t : ℕ) → d ≤ l → s + second ≤ t → (d + n) * second ≤ n * second + l * (t - s)
new_second d n l s t a b =
    let p : d * second ≤ l * (t - s) =
      mul-le-mul {n₁ = d} {m₁ = second} {n₂ = l} {m₂ = t - s} a (omega arith) in
    omega (arith, p)

-- The state after a second has ended.
restart :
    (c : Call) (r : RateLimiter)
    → IsLimited r
    → c.size ≤ r.limit_per_sec
    → r.start_t + second ≤ c.later
    → Step c r
        (record { limit_per_sec = r.limit_per_sec; num_done_this_sec = c.size; start_t = c.later })
restart c r l fits ended = record {
  limited = record { within = fits; word = l.word };
  limit = refl;
  forward = omega arith;
  paid = new_second r.num_done_this_sec c.size r.limit_per_sec r.start_t c.later l.within ended;
}

proceed :
    (c : Call) (r : RateLimiter)
    → IsLimited r
    → c.size ≤ r.limit_per_sec
    → must_wait c.size r ≡ false
    → Step c r (record {
      limit_per_sec = r.limit_per_sec;
      num_done_this_sec = add64 r.num_done_this_sec c.size;
      start_t = r.start_t;
    })
unfolding must_wait
proceed c r l fits m =
    let word = l.word in
    let within = l.within in
    let e : add64 r.num_done_this_sec c.size ≡ r.num_done_this_sec + c.size =
      add64-eq r.num_done_this_sec c.size (omega arith) in
    let m' : ltb r.limit_per_sec (add64 r.num_done_this_sec c.size) ≡ false = m in
    record {
      limited = record { within = ground arith; word = word };
      limit = refl;
      forward = omega arith;
      paid = omega (arith, e);
    }

elapsed :
    (c : Call) (r : RateLimiter)
    → is_new_second c.now r ≡ true
    → r.start_t ≤ c.now
    → c.now ≤ c.later
    → r.start_t + second ≤ c.later
unfolding is_new_second
elapsed c r n a b = let h : 1000000 ≤ (c.now - r.start_t) / 1000 = leb→le _ _ n in omega arith

wait-Step : (c : Call) (r : RateLimiter) → IsTimely c r → IsLimited r → Step c r (after c r)
unfolding wait
wait-Step c r t l = elim (Bool-cases (is_new_second c.now r)) [
  | inl n ↦ rw (after, n) (restart c r l t.fits (elapsed c r n t.started t.monotonic))
  | inr n ↦ elim (Bool-cases (must_wait c.size r)) [
    | inl m ↦ let ended = t.slept (rw (n, m) refl) in rw (after, n, m) (restart c r l t.fits ended)
    | inr m ↦ rw (after, n, m) (proceed c r l t.fits m)
  ]
]

two_runs :
    (d n m d1 l1 l s s1 d2 s2 : ℕ)
    → l1 ≡ l
    → s ≤ s1
    → s1 ≤ s2
    → (d + n) * second ≤ d1 * second + l * (s1 - s)
    → (d1 + m) * second ≤ d2 * second + l1 * (s2 - s1)
    → (s ≤ s2) × ((d + (n + m)) * second ≤ d2 * second + l * (s2 - s))
two_runs d n m d1 l1 l s s1 d2 s2 e a b p q =
    let q' : (d1 + m) * second ≤ d2 * second + l * (s2 - s1) =
      subst (λ x. (d1 + m) * second ≤ d2 * second + x * (s2 - s1)) e q in
    let span : s2 - s ≡ (s2 - s1) + (s1 - s) = omega arith in
    let f : l * (s2 - s) ≡ l * (s2 - s1) + l * (s1 - s) =
      subst (λ x. l * x ≡ l * (s2 - s1) + l * (s1 - s)) (sym span) (omega arith) in
    (omega arith, omega (arith, p, q', f))

-- Whatever sequence of calls a thread makes, all that the limiter lets through is at most the limit
-- for each second that passed from its start to the start of its current second, and what it has
-- let through in that second, which is within the limit too. The clock is monotonic, a sleep ends
-- no earlier than asked to, the limit is below 2^63, and no single size is beyond the limit.
pub wait-IsRateLimited :
    (cs : List Call) (r : RateLimiter)
    → AllTimely cs r
    → IsLimited r
    → ((run cs r).num_done_this_sec ≤ r.limit_per_sec)
      × ((r.num_done_this_sec + sum_sizes cs) * second
          ≤ (run cs r).num_done_this_sec * second
            + r.limit_per_sec * ((run cs r).start_t - r.start_t))
wait-IsRateLimited cs r t l = let (a, b, c) = go cs r t l in (a, c)
  where
    go :
        (cs : List Call) (r : RateLimiter)
        → AllTimely cs r
        → IsLimited r
        → ((run cs r).num_done_this_sec ≤ r.limit_per_sec)
          × (r.start_t ≤ (run cs r).start_t)
          × ((r.num_done_this_sec + sum_sizes cs) * second
              ≤ (run cs r).num_done_this_sec * second
                + r.limit_per_sec * ((run cs r).start_t - r.start_t))
    go [] r t l = (l.within, omega arith, omega arith)
    go (c ∷ cs) r t l =
        let st = wait-Step c r t.0 l in
        let (a, b, p) = go cs (after c r) t.1 st.limited in
        let (b', p') =
          two_runs r.num_done_this_sec c.size (sum_sizes cs) (after c r).num_done_this_sec
            (after c r).limit_per_sec r.limit_per_sec r.start_t (after c r).start_t
            (run cs (after c r)).num_done_this_sec (run cs (after c r)).start_t st.limit st.forward
            b st.paid p in
        (subst (λ n. (run cs (after c r)).num_done_this_sec ≤ n) st.limit a, b', p')
