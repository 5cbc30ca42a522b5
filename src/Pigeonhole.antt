-- ===== src/Pigeonhole.antt =====
-- A list of n numbers below n that holds each of them holds each of them once.
use elbencho.Prelude.{
  ℕ, zero, suc, ◌+◌, ◌≤◌, ◌<◌, ◌≡◌, refl, arith, inl, inr, ◌⊎◌, ◌∙◌, sym, List, [], ◌∷◌, ◌==◌, All,
  length, Bool, true, false,
}

abbrev pub once : Bool → ℕ
once true = 1
once false = 0

-- How often a number stands in a list.
abbrev pub count : ℕ → List ℕ → ℕ
count v [] = 0
count v (x ∷ xs) = once (x == v) + count v xs

abbrev sum_below : ℕ → (ℕ → ℕ) → ℕ
sum_below zero f = 0
sum_below (suc n) f = f n + sum_below n f

sum_below-add : (n : ℕ) (f g : ℕ → ℕ) → sum_below n (λ v. f v + g v) ≡ sum_below n f + sum_below n g
sum_below-add zero f g = omega arith
sum_below-add (suc n) f g = omega (arith, sum_below-add n f g)

sum_below-zero : (n : ℕ) → sum_below n (λ v. 0) ≡ 0
sum_below-zero zero = refl
sum_below-zero (suc n) = omega (arith, sum_below-zero n)

once_above : (n x : ℕ) → n ≤ x → sum_below n (λ v. once (x == v)) ≡ 0
once_above zero x h = refl
once_above (suc n) x h = ground (arith, once_above n x)

once_below : (n x : ℕ) → x < n → sum_below n (λ v. once (x == v)) ≡ 1
once_below zero x h = absurd (omega arith)
once_below (suc n) x h = ground (arith, once_above n x, once_below n x)

sum_below-count :
    (n : ℕ) (xs : List ℕ) → All (λ (x : ℕ). x < n) xs → sum_below n (λ v. count v xs) ≡ length xs
sum_below-count n [] h = sum_below-zero n
sum_below-count n (x ∷ xs) h = omega (
  arith,
  sum_below-add n (λ v. once (x == v)) (λ v. count v xs),
  once_below n x h.0,
  sum_below-count n xs h.1,
)

sum_below-ge : (n : ℕ) (f : ℕ → ℕ) → ((v : ℕ) → v < n → 1 ≤ f v) → n ≤ sum_below n f
sum_below-ge zero f h = omega arith
sum_below-ge (suc n) f h =
    omega (arith, h n (omega arith), sum_below-ge n f (λ v lt. h v (omega arith)))

eq_or_lt : (v n : ℕ) → v < suc n → (v ≡ n) ⊎ (v < n)
eq_or_lt v n h = ground arith

sum_below-exact :
    (n : ℕ) (f : ℕ → ℕ) (v : ℕ) → ((v : ℕ) → v < n → 1 ≤ f v) → sum_below n f ≡ n → v < n → f v ≡ 1
sum_below-exact zero f v h e lt = absurd (omega arith)
sum_below-exact (suc n) f v h e lt =
    let below : (v : ℕ) → v < n → 1 ≤ f v = λ v l. h v (omega arith) in
    let head : f n ≡ 1 = omega (arith, h n (omega arith), sum_below-ge n f below) in
    elim (eq_or_lt v n lt) [
      | inl same ↦ rw same head
      | inr less ↦ sum_below-exact n f v below (omega (arith, head)) less
    ]

pub count-eq-one :
    (n v : ℕ) (xs : List ℕ)
    → length xs ≡ n
    → All (λ (x : ℕ). x < n) xs
    → ((v : ℕ) → v < n → 1 ≤ count v xs)
    → v < n
    → count v xs ≡ 1
count-eq-one n v xs len below each lt =
    sum_below-exact n (λ v. count v xs) v each (sum_below-count n xs below ∙ len) lt

sum_below-ones : (n : ℕ) (f : ℕ → ℕ) → ((v : ℕ) → v < n → f v ≡ 1) → sum_below n f ≡ n
sum_below-ones zero f h = refl
sum_below-ones (suc n) f h =
    omega (arith, h n (omega arith), sum_below-ones n f (λ v lt. h v (omega arith)))

pub length-eq-bound :
    (n : ℕ) (xs : List ℕ)
    → All (λ (x : ℕ). x < n) xs
    → ((v : ℕ) → v < n → count v xs ≡ 1)
    → length xs ≡ n
length-eq-bound n xs below each =
    sym (sum_below-count n xs below) ∙ sum_below-ones n (λ v. count v xs) each
