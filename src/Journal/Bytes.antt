-- ===== src/Journal/Bytes.antt =====
-- The four cells of one byte of a journal.
use elbencho.Prelude.{
  ℕ, zero, suc, ◌*◌, ◌<◌, ◌≡◌, refl, arith, Bool, true, false, ◌&&◌, ◌||◌, not, ltb, ltb→lt, ==_iff,
  inl, inr, ◌⊎◌, subst, sym, ◌==◌, if◌then◌else◌,
}
use elbencho.Journal.{load_cell, clear_cell, or_cell, cell_mask}

-- A test of all numbers below a bound.
unfoldable holds_below : ℕ → (ℕ → Bool) → Bool
holds_below zero p = true
holds_below (suc n) p = p n && holds_below n p

and-both : (a b : Bool) → (a && b) ≡ true → (a ≡ true) × (b ≡ true)
and-both true b h = (refl, h)
and-both false b h = cc

last_or_below : (i n : ℕ) → i < suc n → (i ≡ n) ⊎ (i < n)
last_or_below i n h = ground arith

holds_below-lt : (n : ℕ) (p : ℕ → Bool) → holds_below n p ≡ true → (i : ℕ) → i < n → p i ≡ true
unfolding holds_below
holds_below-lt zero p h i lt = elim lt [ ]
holds_below-lt (suc n) p h i lt =
    let (here, below) = and-both (p n) (holds_below n p) h in
    elim (last_or_below i n lt) [
      | inl e ↦ subst (λ x. p x ≡ true) (sym e) here
      | inr lt' ↦ holds_below-lt n p below i lt'
    ]

unfoldable clear_test : ℕ → ℕ → ℕ → Bool
clear_test b c d =
    ltb (clear_cell b (c * 2)) 256
    && (load_cell (clear_cell b (c * 2)) (d * 2) == (if c == d then 0 else load_cell b (d * 2)))

unfoldable clear_tests : Bool
clear_tests = holds_below 256 λ b. holds_below 4 λ c. holds_below 4 λ d. clear_test b c d

clear_tests_run : clear_tests ≡ true
unfolding clear_tests clear_test holds_below load_cell clear_cell cell_mask
clear_tests_run = refl

clear_tests_run_open :
    holds_below 256 (λ b. holds_below 4 (λ c. holds_below 4 (λ d. clear_test b c d))) ≡ true
unfolding clear_tests
clear_tests_run_open = clear_tests_run

clear_test_open :
    (b c d : ℕ)
    → clear_test b c d ≡ true
    → (ltb (clear_cell b (c * 2)) 256
        && (load_cell (clear_cell b (c * 2)) (d * 2)
            == (if c == d then 0 else load_cell b (d * 2))))
      ≡ true
unfolding clear_test
clear_test_open b c d h = h

-- Clearing a cell empties that cell, and leaves the other cells of the byte alone.
pub clear_cell-load_cell :
    (b c d : ℕ)
    → b < 256
    → c < 4
    → d < 4
    → (clear_cell b (c * 2) < 256)
      × (load_cell (clear_cell b (c * 2)) (d * 2) ≡ (if c == d then 0 else load_cell b (d * 2)))
clear_cell-load_cell b c d hb hc hd =
    let t1 = holds_below-lt 256 _ clear_tests_run_open b hb in
    let t2 = holds_below-lt 4 _ t1 c hc in
    let t3 = holds_below-lt 4 _ t2 d hd in
    let (small, same) = and-both _ _ (clear_test_open b c d t3) in
    (ltb→lt _ _ small, (==_iff _ _).0 same)

unfoldable or_test : ℕ → ℕ → ℕ → ℕ → Bool
or_test b c d g =
    not (load_cell b (c * 2) == 0)
    || (ltb (or_cell b (c * 2) g) 256
        && (load_cell (or_cell b (c * 2) g) (d * 2) == (if c == d then g else load_cell b (d * 2))))

unfoldable or_tests : Bool
or_tests =
    holds_below 256 λ b. holds_below 4 λ c. holds_below 4 λ d. holds_below 4 λ g. or_test b c d g

or_tests_run : or_tests ≡ true
unfolding or_tests or_test holds_below load_cell or_cell cell_mask
or_tests_run = refl

or_tests_run_open :
    holds_below 256
      (λ b. holds_below 4 (λ c. holds_below 4 (λ d. holds_below 4 (λ g. or_test b c d g))))
    ≡ true
unfolding or_tests
or_tests_run_open = or_tests_run

or_test_open :
    (b c d g : ℕ)
    → or_test b c d g ≡ true
    → load_cell b (c * 2) ≡ 0
    → (ltb (or_cell b (c * 2) g) 256
        && (load_cell (or_cell b (c * 2) g) (d * 2) == (if c == d then g else load_cell b (d * 2))))
      ≡ true
unfolding or_test
or_test_open b c d g h e =
    let z : (load_cell b (c * 2) == 0) ≡ true = (==_iff _ _).1 e in drop_test _ _ z h
  where
    drop_test : (t r : Bool) → t ≡ true → (not t || r) ≡ true → r ≡ true
    drop_test true r z h = h
    drop_test false r z h = cc

-- A generation in an empty cell fills that cell, and leaves the other cells of the byte alone.
pub or_cell-load_cell :
    (b c d g : ℕ)
    → b < 256
    → c < 4
    → d < 4
    → g < 4
    → load_cell b (c * 2) ≡ 0
    → (or_cell b (c * 2) g < 256)
      × (load_cell (or_cell b (c * 2) g) (d * 2) ≡ (if c == d then g else load_cell b (d * 2)))
or_cell-load_cell b c d g hb hc hd hg e =
    let t1 = holds_below-lt 256 _ or_tests_run_open b hb in
    let t2 = holds_below-lt 4 _ t1 c hc in
    let t3 = holds_below-lt 4 _ t2 d hd in
    let t4 = holds_below-lt 4 _ t3 g hg in
    let (small, same) = and-both _ _ (or_test_open b c d g t4 e) in
    (ltb→lt _ _ small, (==_iff _ _).0 same)

load_tests_run : holds_below 256 (λ b. holds_below 4 (λ c. ltb (load_cell b (c * 2)) 4)) ≡ true
unfolding holds_below load_cell cell_mask
load_tests_run = refl

pub load_cell-lt : (b c : ℕ) → b < 256 → c < 4 → load_cell b (c * 2) < 4
load_cell-lt b c hb hc =
    ltb→lt _ _ (holds_below-lt 4 _ (holds_below-lt 256 _ load_tests_run b hb) c hc)
