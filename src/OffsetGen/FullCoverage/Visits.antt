-- ===== src/OffsetGen/FullCoverage/Visits.antt =====
-- One cycle of `CoveringRandomGenerator` of
-- source/toolkits/offsetgen/OffsetGenRandomAlignedFullCoverageV2.h.
use native.Mathlib.Nat.{
  pow-le-pow_right, one-le-pow, mod-add-mod, mod-add-div, add-mul-mod_self_right, pow-suc,
}
use elbencho.Prelude.{
  ℕ, zero, suc, ◌+◌, ◌*◌, ◌-◌, ◌%◌, ◌/◌, ◌^◌, ◌≤◌, ◌<◌, ◌≡◌, refl, arith, ap, ◌∙◌, sym, List, [],
  ◌∷◌, ◌==◌, ltb, if◌then◌else◌, All, length, true, false, u64_mod, add64, add64-eq, mul64, Result,
  ok, ◌>>=◌, map, inl, inr, Bool-cases, subst, ltb→lt, le→ltb, sub64, sub64-eq,
}
use elbencho.Pigeonhole.{count, length-eq-bound}
use elbencho.OffsetGen.FullCoverage.{
  Covering, multiplier, increment, lcg_step, walk, next, make, has_next, modulus, next_power_of_two,
}
use elbencho.OffsetGen.FullCoverage.PowerOfTwo.{next_power_of_two_lem}
use elbencho.OffsetGen.FullCoverage.Orbit.{step, orbit, count-orbit_one}

-- What the constructor sets up, for a range of up to 2^63 values.
pub record IsReady (k : ℕ) (g : Covering) : Type 0 where
  pub width : k ≤ 63
  pub m_eq : g.m_lcg ≡ 2 ^ k
  pub a_eq : g.a_lcg ≡ multiplier
  pub c_eq : g.c_lcg ≡ increment
  pub room : g.range_size ≤ 2 ^ k
  pub nonempty : 0 < g.range_size
  pub no_wrap : g.min_value + g.range_size ≤ u64_mod

two_pow_add : (i j : ℕ) → 2 ^ (i + j) ≡ 2 ^ i * 2 ^ j
two_pow_add zero j = let e : 0 + j ≡ j = omega arith in rw e (omega arith)
two_pow_add (suc i) j =
    let e : suc i + j ≡ suc (i + j) = omega arith in
    rw e (omega (arith, two_pow_add i j, pow-suc 2 (i + j), ap (λ z. z * 2 ^ j) (pow-suc 2 i)))

-- The wrap-around of the 64-bit product and sum does not disturb the residue modulo 2^k.
wrap_mod : (k y : ℕ) → k ≤ 64 → y % u64_mod % 2 ^ k ≡ y % 2 ^ k
wrap_mod k y h =
    let whole : 64 - k + k ≡ 64 = omega arith in
    let split : u64_mod ≡ 2 ^ (64 - k) * 2 ^ k =
      ap (λ n. 2 ^ n) (sym whole) ∙ two_pow_add (64 - k) k in
    let parts : y ≡ y % u64_mod + y / u64_mod * 2 ^ (64 - k) * 2 ^ k =
      omega (arith, mod-add-div y u64_mod, ap (λ w. y / u64_mod * w) split) in
    sym (
      ap (λ z. z % 2 ^ k) parts
      ∙ add-mul-mod_self_right (y % u64_mod) (y / u64_mod * 2 ^ (64 - k)) (2 ^ k))

add_mod : (m y c : ℕ) → (y % m + c) % m ≡ (y + c) % m
add_mod m y c = mod-add-mod y m c

lcg_step-step : (k : ℕ) (g : Covering) (x : ℕ) → IsReady k g → lcg_step g x ≡ step (2 ^ k) x
unfolding lcg_step add64 mul64
lcg_step-step k g x r =
    rw (r.m_eq, r.a_eq, r.c_eq)
      (wrap_mod k (multiplier * x % u64_mod + increment) (omega (arith, r.width))
        ∙ (sym (add_mod (2 ^ k) (multiplier * x % u64_mod) increment)
            ∙ (ap (λ z. (z + increment) % 2 ^ k)
                  (wrap_mod k (multiplier * x) (omega (arith, r.width)))
                ∙ add_mod (2 ^ k) (multiplier * x) increment)))

-- The values below the range size: those that `next` does not reject.
abbrev hits : ℕ → List ℕ → List ℕ
hits r [] = []
hits r (y ∷ ys) = if ltb y r then y ∷ hits r ys else hits r ys

hits-hit : (r y : ℕ) (ys : List ℕ) → ltb y r ≡ true → hits r (y ∷ ys) ≡ y ∷ hits r ys
hits-hit r y ys h = ground arith

hits-miss : (r y : ℕ) (ys : List ℕ) → ltb y r ≡ false → hits r (y ∷ ys) ≡ hits r ys
hits-miss r y ys h = ground arith

walk-hit :
    (fuel : ℕ) (g : Covering) (x s : ℕ)
    → lcg_step g x ≡ s
    → ltb s g.range_size ≡ true
    → walk (suc fuel) g x ≡ ok s
unfolding walk
walk-hit fuel g x s e h = rw e (ground arith)

walk-miss :
    (fuel : ℕ) (g : Covering) (x s : ℕ)
    → lcg_step g x ≡ s
    → ltb s g.range_size ≡ false
    → walk (suc fuel) g x ≡ walk fuel g s
unfolding walk
walk-miss fuel g x s e h = rw e (ground arith)

has_next-lt : (g : Covering) → g.current_count < g.range_size → has_next g ≡ true
unfolding has_next
has_next-lt g h = ground arith

next-walk :
    (fuel seed : ℕ) (g : Covering) (y : ℕ)
    → g.current_count < g.range_size
    → walk fuel g g.current_lcg_state ≡ ok y
    → next fuel seed g
      ≡ ok (
        add64 g.min_value y,
        record g { current_lcg_state = y; current_count = add64 g.current_count 1 },
      )
unfolding next
next-walk fuel seed g y h w = let more : has_next g ≡ true = has_next-lt g h in rw (more, w)

module _ (k : ℕ) where
  first_hit :
      (n fuel x : ℕ) (g : Covering)
      → IsReady k g
      → n ≤ fuel
      → (y : ℕ) (rest : List ℕ) → hits g.range_size (orbit (2 ^ k) n x) ≡ y ∷ rest
      → (n' : ℕ) × (walk fuel g x ≡ ok y)
        × (hits g.range_size (orbit (2 ^ k) n' y) ≡ rest)
        × (n' ≤ n)
        × (y < g.range_size)
  first_hit zero fuel x g r f y rest e = cc
  first_hit (suc n) zero x g r f y rest e = elim f [ ]
  first_hit (suc n) (suc fuel) x g r f y rest e =
      let s = step (2 ^ k) x in
      let stepped : lcg_step g x ≡ s = lcg_step-step k g x r in
      elim (Bool-cases (ltb s g.range_size)) [
        | inl hit ↦
            let e' : s ∷ hits g.range_size (orbit (2 ^ k) n s) ≡ y ∷ rest =
              sym (hits-hit g.range_size s (orbit (2 ^ k) n s) hit) ∙ e in
            let heads : s ≡ y = cc in
            let tails : hits g.range_size (orbit (2 ^ k) n s) ≡ rest = cc in
            (
              n,
              walk-hit fuel g x s stepped hit ∙ ap ok heads,
              subst (λ z. hits g.range_size (orbit (2 ^ k) n z) ≡ rest) heads tails,
              omega arith,
              subst (λ z. z < g.range_size) heads (ltb→lt _ _ hit),
            )
        | inr miss ↦
            let e' : hits g.range_size (orbit (2 ^ k) n s) ≡ y ∷ rest =
              sym (hits-miss g.range_size s (orbit (2 ^ k) n s) miss) ∙ e in
            let (n', w, h, le, lt) = first_hit n fuel s g r (omega arith) y rest e' in
            (n', walk-miss fuel g x s stepped miss ∙ w, h, omega arith, lt)
      ]

  -- `n` calls of `next`, each with as many rounds as the modulus for its loop.
  unfoldable pub nexts : ℕ → ℕ → ℕ → Covering → Result (List ℕ × Covering)
  nexts zero fuel seed g = ok ([], g)
  nexts (suc n) fuel seed g = do
    (v, g1) ← next fuel seed g
    (vs, g2) ← nexts n fuel seed g1
    ok (v ∷ vs, g2)

  nexts-hits :
      (vs : List ℕ) (n fuel seed : ℕ) (g : Covering)
      → IsReady k g
      → n ≤ fuel
      → hits g.range_size (orbit (2 ^ k) n g.current_lcg_state) ≡ vs
      → g.current_count + length vs ≡ g.range_size
      → (g' : Covering) × (nexts (length vs) fuel seed g ≡ ok (map (λ v. g.min_value + v) vs, g'))
  unfolding nexts
  nexts-hits [] n fuel seed g r f e c = (g, refl)
  nexts-hits (y ∷ vs) n fuel seed g r f e c =
      let (n', w, h, le, lt) = first_hit n fuel g.current_lcg_state g r f y vs e in
      let g1 : Covering = record g {
        current_lcg_state = y;
        current_count = add64 g.current_count 1;
      } in
      let fits : 2 ^ k ≤ 2 ^ 63 = pow-le-pow_right (omega arith) r.width in
      let counted : add64 g.current_count 1 ≡ g.current_count + 1 =
        add64-eq _ _ (omega (arith, c, r.room, fits)) in
      let value : add64 g.min_value y ≡ g.min_value + y = add64-eq _ _ (omega (arith, r.no_wrap)) in
      let r1 : IsReady k g1 = record {
        width = r.width;
        m_eq = r.m_eq;
        a_eq = r.a_eq;
        c_eq = r.c_eq;
        room = r.room;
        nonempty = r.nonempty;
        no_wrap = r.no_wrap;
      } in
      let (g', rest) = nexts-hits vs n' fuel seed g1 r1 (omega arith) h (omega (arith, counted)) in
      (
        g',
        rw (next-walk fuel seed g y (omega arith) w)
            (rw rest (ap (λ z. ok (z ∷ map (λ u. g.min_value + u) vs, g')) value)),
      )

count-hits : (r v : ℕ) (ys : List ℕ) → v < r → count v (hits r ys) ≡ count v ys
count-hits r v [] h = refl
count-hits r v (y ∷ ys) h = ground (arith, count-hits r v ys h)

count-map : (m v : ℕ) (ys : List ℕ) → count (m + v) (map (λ u. m + u) ys) ≡ count v ys
count-map m v [] = refl
count-map m v (y ∷ ys) = ground (arith, count-map m v ys)

All-hits : (r : ℕ) (ys : List ℕ) → All (λ (y : ℕ). y < r) (hits r ys)
All-hits r [] = tt
All-hits r (y ∷ ys) = ground (arith, All-hits r ys)

length-map {ℓ κ} :
    {A : Type ℓ} {B : Type κ} (f : A → B) (xs : List A) → length (map f xs) ≡ length xs
length-map f [] = refl
length-map f (x ∷ xs) = ap suc (length-map f xs)

modulus-power : (n k : ℕ) → next_power_of_two n ≡ 2 ^ k → modulus n ≡ ok (2 ^ k)
unfolding modulus
modulus-power n k e =
    let positive : 0 < 2 ^ k = one-le-pow k 2 (omega arith) in
    let nonzero : (2 ^ k == 0) ≡ false = ground arith in rw (e, nonzero)

succ_nonzero : (n : ℕ) → (n + 1 == 0) ≡ false
succ_nonzero n = ground arith

-- The constructor succeeds for every range of up to 2^63 words, with a modulus that is a power of
-- two no smaller than the range.
pub make-IsReady :
    (seed lo hi : ℕ)
    → lo ≤ hi
    → hi < u64_mod
    → hi - lo < 2 ^ 63
    → (k : ℕ) × (g : Covering) × (make seed lo hi ≡ ok g)
      × IsReady k g
      × (g.current_count ≡ 0)
      × (g.min_value ≡ lo)
      × (g.range_size ≡ hi - lo + 1)
unfolding make
make-IsReady seed lo hi le fits span =
    let n = hi - lo + 1 in
    let (k, width, power, room) = next_power_of_two_lem n (omega arith) (omega arith) in
    let m = modulus-power n k power in
    let size : add64 (sub64 hi lo) 1 ≡ n =
      ap (λ d. add64 d 1) (sub64-eq hi lo le fits) ∙ add64-eq (hi - lo) 1 (omega arith) in
    (
      k,
      record {
        min_value = lo;
        max_value = hi;
        range_size = n;
        current_count = 0;
        m_lcg = 2 ^ k;
        a_lcg = multiplier;
        c_lcg = increment;
        current_lcg_state = seed % 2 ^ k;
      },
      rw (le→ltb hi lo le, size) (rw (succ_nonzero (hi - lo), m)),
      record {
        width = width;
        m_eq = refl;
        a_eq = refl;
        c_eq = refl;
        room = room;
        nonempty = omega arith;
        no_wrap = omega arith;
      },
      refl,
      refl,
      refl,
    )

-- From a generator that is set up and at the start of a cycle, as many calls of `next` as the range
-- has values return each value of the range exactly once. As many rounds as the modulus are
-- enough for the loop of each call.
pub nexts_once :
    (k seed : ℕ) (g : Covering)
    → IsReady k g
    → g.current_count ≡ 0
    → (vs : List ℕ) × (g' : Covering) × (nexts k g.range_size (2 ^ k) seed g ≡ ok (vs, g'))
      × (length vs ≡ g.range_size)
      × ((i : ℕ) → i < g.range_size → count (g.min_value + i) vs ≡ 1)
nexts_once k seed g r fresh =
    let ys = hits g.range_size (orbit (2 ^ k) (2 ^ k) g.current_lcg_state) in
    let each : (v : ℕ) → v < g.range_size → count v ys ≡ 1 = λ v lt.
      count-hits g.range_size v _ lt
      ∙ count-orbit_one k g.current_lcg_state v (omega (arith, r.room)) in
    let len : length ys ≡ g.range_size =
      length-eq-bound g.range_size ys (All-hits g.range_size _) each in
    let (g', e) =
      nexts-hits k ys (2 ^ k) (2 ^ k) seed g r (omega arith) refl (omega (arith, fresh, len)) in
    (
      map (λ u. g.min_value + u) ys,
      g',
      subst (λ n. nexts k n (2 ^ k) seed g ≡ ok (map (λ u. g.min_value + u) ys, g')) len e,
      length-map _ ys ∙ len,
      λ i lt. count-map g.min_value i ys ∙ each i lt,
    )
