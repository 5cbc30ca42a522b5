-- ===== src/Prelude/Tabulate.antt =====
-- Lists of the values of a function at consecutive numbers.
use Prim.Native.Nat.{ℕ, zero, suc, ◌+◌, ◌<◌}
use mathlib.Core.Path.{◌≡◌, refl, ap, ◌∙◌, subst}
use mathlib.Core.List.{List, [], ◌∷◌, ◌++◌}
use native.Mathlib.Omega.{arith}
use elbencho.Prelude.Lists.{length, get_or}

module _ {ℓ} {A : Type ℓ} where
  abbrev pub tabulate : (ℕ → A) → ℕ → ℕ → List A
  tabulate f start zero = []
  tabulate f start (suc n) = f start ∷ tabulate f (suc start) n

  pub length-tabulate : (f : ℕ → A) (start n : ℕ) → length (tabulate f start n) ≡ n
  length-tabulate f start zero = refl
  length-tabulate f start (suc n) = ap suc (length-tabulate f (suc start) n)

  pub tabulate_ext :
      (f g : ℕ → A) (a b n : ℕ)
      → ((k : ℕ) → k < n → f (a + k) ≡ g (b + k))
      → tabulate f a n ≡ tabulate g b n
  tabulate_ext f g a b zero h = refl
  tabulate_ext f g a b (suc n) h =
      let first : f a ≡ g b =
        subst (λ x. f x ≡ g b) (omega arith)
          (subst (λ x. f (a + 0) ≡ g x) (omega arith) (h 0 (omega arith))) in
      let rest = tabulate_ext f g (suc a) (suc b) n (λ k lt.
        subst (λ x. f x ≡ g (suc b + k)) (omega arith)
          (subst (λ x. f (a + suc k) ≡ g x) (omega arith) (h (suc k) (omega arith)))) in
      ap (λ x. x ∷ tabulate f (suc a) n) first ∙ ap (λ xs. g b ∷ xs) rest

  pub tabulate-append :
      (f : ℕ → A) (start m n : ℕ)
      → tabulate f start (m + n) ≡ tabulate f start m ++ tabulate f (start + m) n
  tabulate-append f start zero n =
      let e : start + 0 ≡ start = omega arith in let z : 0 + n ≡ n = omega arith in rw (e, z) refl
  tabulate-append f start (suc m) n =
      let z : suc m + n ≡ suc (m + n) = omega arith in
      let e : start + suc m ≡ suc start + m = omega arith in
      rw (z, e) (ap (λ xs. f start ∷ xs) (tabulate-append f (suc start) m n))

  pub get_or-tabulate :
      (f : ℕ → A) (start n i : ℕ) (d : A) → i < n → get_or (tabulate f start n) i d ≡ f (start + i)
  get_or-tabulate f start zero i d h = elim h [ ]
  get_or-tabulate f start (suc n) zero d h = ap f (omega arith)
  get_or-tabulate f start (suc n) (suc i) d h =
      get_or-tabulate f (suc start) n i d (omega arith) ∙ ap f (omega arith)
