-- ===== src/PathStore/Share.antt =====
-- The blocks of each worker of `getWorkerSublistShared`.
use native.Mathlib.Nat.{mul-le-mul_right, mod-lt}
use native.Mathlib.Omega.{div_any}
use elbencho.Prelude.{
  ℕ, suc, ◌+◌, ◌-◌, ◌*◌, ◌/◌, ◌%◌, ◌^◌, ◌≤◌, ◌<◌, ◌≡◌, ◌∙◌, sym, subst, refl, arith, true, false,
  ◌==◌, Bool-cases, inl, inr, sub64, sub64-eq, mul64, mul64-eq,
}
use elbencho.PathStore.{worker_num_blocks, worker_start_block}

module _ (n total : ℕ) (threads : 0 < n) (bounded : n < 2 ^ 32) (word : total < 2 ^ 64) where
  division : n * (total / n) + total % n ≡ total
  division = div_any total n

  last_of : (n - 1) * (total / n) + total / n ≡ n * (total / n)
  last_of =
      let e : (n - 1) + 1 ≡ n = omega arith in
      subst (λ x. (n - 1) * (total / n) + total / n ≡ x * (total / n)) e (omega arith)

  pub start_of : (r : ℕ) → r ≤ n → worker_start_block r n total ≡ r * (total / n)
  unfolding worker_start_block
  start_of r h =
      let p : r * (total / n) ≤ n * (total / n) = mul-le-mul_right (total / n) h in
      mul64-eq r (total / n) (omega (arith, p, division))

  num_of_first : (r : ℕ) → suc r < n → worker_num_blocks r n total ≡ total / n
  unfolding worker_num_blocks
  num_of_first r h =
      let e : sub64 n 1 ≡ n - 1 = sub64-eq n 1 (omega arith) (omega arith) in
      let t : (r == sub64 n 1) ≡ false = ground (arith, e) in rw t refl

  num_of_last : worker_num_blocks (n - 1) n total ≡ total - (n - 1) * (total / n)
  unfolding worker_num_blocks
  num_of_last =
      let e : sub64 n 1 ≡ n - 1 = sub64-eq n 1 (omega arith) (omega arith) in
      let t : ((n - 1) == sub64 n 1) ≡ true = ground (arith, e) in
      let p : (n - 1) * (total / n) ≤ n * (total / n) =
        mul-le-mul_right (total / n) (omega arith) in
      let c : (total / n) * (n - 1) ≡ (n - 1) * (total / n) = omega arith in
      let f : mul64 (total / n) (sub64 n 1) ≡ (n - 1) * (total / n) =
        subst (λ x. mul64 (total / n) x ≡ (n - 1) * (total / n)) (sym e)
          (mul64-eq (total / n) (n - 1) (omega (arith, p, c, division)) ∙ c) in
      let g : sub64 total ((n - 1) * (total / n)) ≡ total - (n - 1) * (total / n) =
        sub64-eq total ((n - 1) * (total / n)) (omega (arith, p, division)) word in
      elim (Bool-cases (total % n == 0)) [
        | inl even ↦
            rw (t, even)
              (let z : total % n ≡ 0 = ground arith in omega (arith, z, last_of, division))
        | inr odd ↦ rw (t, odd, f) g
      ]

-- The block ranges of the workers, in the order of their ranks, follow one another without a gap or
-- an overlap from the first block to the last: the first begins at block 0, each ends where the
-- next begins, and that of the last worker ends at the total. The last worker has at most
-- `threads - 1` blocks more than the others. There is at least one thread.
pub worker_start_block-Partition :
    (n total : ℕ)
    → 0 < n
    → n < 2 ^ 32
    → total < 2 ^ 64
    → (worker_start_block 0 n total ≡ 0)
      × ((r : ℕ)
          → suc r < n
          → worker_start_block r n total + worker_num_blocks r n total
            ≡ worker_start_block (suc r) n total)
      × (worker_start_block (n - 1) n total + worker_num_blocks (n - 1) n total ≡ total)
      × ((r : ℕ)
          → suc r < n
          → worker_num_blocks (n - 1) n total ≤ worker_num_blocks r n total + (n - 1))
worker_start_block-Partition n total h b w =
    let d = division n total h b w in
    let l = last_of n total h b w in
    let m : total % n < n = mod-lt total h in
    let last = num_of_last n total h b w in
    let last_start = start_of n total h b w (n - 1) (omega arith) in
    (
      start_of n total h b w 0 (omega arith) ∙ omega arith,
      λ r lt. omega (
        arith,
        start_of n total h b w r (omega arith),
        start_of n total h b w (suc r) (omega arith),
        num_of_first n total h b w r lt,
      ),
      omega (arith, last, last_start, d, l),
      λ r lt. omega (arith, last, d, l, m, num_of_first n total h b w r lt),
    )
