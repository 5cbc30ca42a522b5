-- ===== src/OffsetGen/FullCoverage/Orbit.antt =====
-- The states that the generator of
-- source/toolkits/offsetgen/OffsetGenRandomAlignedFullCoverageV2.h runs through.
use native.Mathlib.Nat.{mod-lt, one-le-pow, add-mul-mod_self_right, mod-add-div, mod-mod}
use elbencho.Prelude.{
  ℕ, zero, suc, ◌+◌, ◌*◌, ◌/◌, ◌%◌, ◌^◌, ◌≤◌, ◌<◌, ◌≡◌, refl, arith, ap, ◌∙◌, sym, subst, List, [],
  ◌∷◌, ◌==◌, ==_iff, All, length, true,
}
use elbencho.Pigeonhole.{count, count-eq-one}
use elbencho.OffsetGen.FullCoverage.{multiplier, increment}
use elbencho.OffsetGen.FullCoverage.Cycle.{iterate, residue_met}

abbrev pub step : ℕ → ℕ → ℕ
step m x = (multiplier * x + increment) % m

-- The `n` states behind `x`.
abbrev pub orbit : ℕ → ℕ → ℕ → List ℕ
orbit m zero x = []
orbit m (suc n) x = step m x ∷ orbit m n (step m x)

pub length-orbit : (m n x : ℕ) → length (orbit m n x) ≡ n
length-orbit m zero x = refl
length-orbit m (suc n) x = ap suc (length-orbit m n (step m x))

pub All-orbit : (m n x : ℕ) → 0 < m → All (λ (y : ℕ). y < m) (orbit m n x)
All-orbit m zero x h = tt
All-orbit m (suc n) x h = (mod-lt (multiplier * x + increment) h, All-orbit m n (step m x) h)

affine_mod : (a c m x : ℕ) → (a * (x % m) + c) % m ≡ (a * x + c) % m
affine_mod a c m x =
    let e : a * x + c ≡ a * (x % m) + c + a * (x / m) * m =
      ap (λ z. a * z + c) (sym (mod-add-div x m)) ∙ omega arith in
    sym (ap (λ z. z % m) e ∙ add-mul-mod_self_right (a * (x % m) + c) (a * (x / m)) m)

iterate-mod : (n a c m x : ℕ) → iterate n a c (x % m) % m ≡ iterate n a c x % m
iterate-mod zero a c m x = mod-mod x m
iterate-mod (suc n) a c m x =
    sym (iterate-mod n a c m (a * (x % m) + c))
    ∙ (ap (λ z. iterate n a c z % m) (affine_mod a c m x) ∙ iterate-mod n a c m (a * x + c))

-- What an unreduced iteration reaches stands, reduced, in the orbit.
count-orbit :
    (m n j x : ℕ) → j < n → 1 ≤ count (iterate (suc j) multiplier increment x % m) (orbit m n x)
count-orbit m zero j x h = absurd (omega arith)
count-orbit m (suc n) zero x h =
    let s = step m x in let hit : (s == s) ≡ true = (==_iff s s).1 refl in rw hit (omega arith)
count-orbit m (suc n) (suc j) x h =
    let y = multiplier * x + increment in
    let later : 1 ≤ count (iterate (suc j) multiplier increment y % m) (orbit m n (y % m)) =
      subst (λ z. 1 ≤ count z (orbit m n (y % m))) (iterate-mod (suc j) multiplier increment m y)
        (count-orbit m n j (y % m) (omega arith)) in
    omega (arith, later)

-- In as many steps as its modulus 2^k the generator takes each state once, wherever it starts.
pub count-orbit_one : (k x v : ℕ) → v < 2 ^ k → count v (orbit (2 ^ k) (2 ^ k) x) ≡ 1
count-orbit_one k x v lt =
    count-eq-one (2 ^ k) v (orbit (2 ^ k) (2 ^ k) x) (length-orbit (2 ^ k) (2 ^ k) x)
      (All-orbit (2 ^ k) (2 ^ k) x (one-le-pow k 2 (omega arith))) met lt
  where
    met : (w : ℕ) → w < 2 ^ k → 1 ≤ count w (orbit (2 ^ k) (2 ^ k) x)
    met w h =
        let (n, few, e) =
          residue_met multiplier increment 1591034055961698251 721347520444481703 refl refl k
            (multiplier * x + increment) w h in
        subst (λ z. 1 ≤ count z (orbit (2 ^ k) (2 ^ k) x)) e (count-orbit (2 ^ k) (2 ^ k) n x few)
