-- ===== src/Workers/Counts.antt =====
-- Lists of workers measured by a Boolean test.
use elbencho.Prelude.{
  ℕ, zero, suc, ◌+◌, ◌≤◌, ◌≡◌, refl, ap, subst, arith, Bool, true, false, Bool-cases, inl, inr,
  List, [], ◌∷◌, map, length, set, All, some,
}
use elbencho.Workers.{Worker, worker_at}

abbrev pub num : Bool → ℕ
num true = 1
num false = 0

-- The workers that pass a test.
abbrev pub count : (Worker → Bool) → List Worker → ℕ
count p [] = 0
count p (w ∷ ws) = num (p w) + count p ws

pub some-injective : {w v : Worker} → some w ≡ some v → w ≡ v
some-injective e = cc

module _ (p : Worker → Bool) where
  pub count-set :
      (ws : List Worker) (i : ℕ) (w w' : Worker)
      → worker_at ws i ≡ some w
      → count p (set ws i w') + num (p w) ≡ count p ws + num (p w')
  count-set [] i w w' h = cc
  count-set (v ∷ ws) zero w w' h =
      let e : v ≡ w = some-injective h in
      let f : num (p v) ≡ num (p w) = ap (λ x. num (p x)) e in omega (arith, f)
  count-set (v ∷ ws) (suc i) w w' h = omega (arith, count-set ws i w w' h)

  pub count-map :
      (f : Worker → Worker)
      → ((w : Worker) → p (f w) ≡ p w)
      → (ws : List Worker) → count p (map f ws) ≡ count p ws
  count-map f same [] = refl
  count-map f same (w ∷ ws) =
      let e : num (p (f w)) ≡ num (p w) = ap num (same w) in omega (arith, e, count-map f same ws)

  num_le : (b : Bool) → num b ≤ 1
  num_le true = omega arith
  num_le false = omega arith

  pub count_le : (ws : List Worker) → count p ws ≤ length ws
  count_le [] = omega arith
  count_le (w ∷ ws) = omega (arith, num_le (p w), count_le ws)

  pub count_none : (ws : List Worker) → All (λ w. p w ≡ false) ws → count p ws ≡ 0
  count_none [] h = refl
  count_none (w ∷ ws) (out, h) = rw out (omega (arith, count_none ws h))

  pub count_every : (ws : List Worker) → count p ws ≡ length ws → All (λ w. p w ≡ true) ws
  count_every [] h = tt
  count_every (w ∷ ws) h = elim (Bool-cases (p w)) [
    | inl passes ↦ let e : num (p w) ≡ 1 = ap num passes in (passes, count_every ws (omega arith))
    | inr out ↦ let e : num (p w) ≡ 0 = ap num out in let le = count_le ws in absurd (omega arith)
  ]

module _ (P : Worker → Type 0) where
  pub All-set : (ws : List Worker) (i : ℕ) (w : Worker) → All P ws → P w → All P (set ws i w)
  All-set [] i w h q = tt
  All-set (v ∷ ws) zero w (at, h) q = (q, h)
  All-set (v ∷ ws) (suc i) w (at, h) q = (at, All-set ws i w h q)

  pub All-at : (ws : List Worker) (i : ℕ) (w : Worker) → All P ws → worker_at ws i ≡ some w → P w
  All-at [] i w h e = cc
  All-at (v ∷ ws) zero w (at, h) e = subst P (some-injective e) at
  All-at (v ∷ ws) (suc i) w (at, h) e = All-at ws i w h e

pub All-map :
    (P Q : Worker → Type 0) (f : Worker → Worker)
    → ((w : Worker) → P w → Q (f w))
    → (ws : List Worker) → All P ws
    → All Q (map f ws)
All-map P Q f keep [] h = tt
All-map P Q f keep (w ∷ ws) (at, h) = (keep w at, All-map P Q f keep ws h)

pub All-zip :
    (P Q R : Worker → Type 0)
    → ((w : Worker) → P w → Q w → R w)
    → (ws : List Worker) → All P ws
    → All Q ws
    → All R ws
All-zip P Q R both [] h k = tt
All-zip P Q R both (w ∷ ws) (p, h) (q, k) = (both w p q, All-zip P Q R both ws h k)

pub length-map : (f : Worker → Worker) (ws : List Worker) → length (map f ws) ≡ length ws
length-map f [] = refl
length-map f (w ∷ ws) = ap suc (length-map f ws)

module _ (p : Worker → Bool) where
  pub count_zero : (ws : List Worker) → 0 ≡ count p ws → All (λ w. p w ≡ false) ws
  count_zero [] h = tt
  count_zero (w ∷ ws) h = elim (Bool-cases (p w)) [
    | inl passes ↦ let e : num (p w) ≡ 1 = ap num passes in absurd (omega arith)
    | inr out ↦ let e : num (p w) ≡ 0 = ap num out in (out, count_zero ws (omega arith))
  ]

  pub count_full : (ws : List Worker) → All (λ w. p w ≡ true) ws → count p ws ≡ length ws
  count_full [] h = refl
  count_full (w ∷ ws) (passes, h) =
      let e : num (p w) ≡ 1 = ap num passes in omega (arith, count_full ws h)
