-- ===== src/OffsetGen/Strided/Cover.antt =====
-- The strided generators of all workers share out the blocks of a range.
use elbencho.Prelude.{
  ℕ, zero, suc, ◌+◌, ◌*◌, ◌/◌, ◌%◌, ◌≤◌, ◌<◌, ◌≡◌, refl, min, ◌==◌, ==_iff, add64, add64-eq, mul64,
  mul64-eq, sub64, sub64-eq, u64_mod, ok, some, arith, List, [], ◌∷◌, inl, inr, sym, ap, ◌∙◌,
  Bool-cases, true, ◌&&◌, leb, ltb,
}
use native.Mathlib.Nat.{
  mod-lt, add-mul-mod_self_right, mod-eq_of_lt, eq_of_mul-eq-mul_left, eq_of_mul-eq-mul_right,
  div-lt_iff_lt-mul, mod-add-div',
}
use elbencho.Pigeonhole.{once}
use elbencho.OffsetGen.{rw_block_sized, complete_io}
use elbencho.OffsetGen.Loop.{rw_block_sized-done, rw_block_sized-round}
use elbencho.OffsetGen.Strided.{Strided, make, generator}

-- `n` transfers of one block, `step` bytes apart.
abbrev pub strides : ℕ → ℕ → ℕ → ℕ → List (ℕ × ℕ)
strides zero offset step bs = []
strides (suc n) offset step bs = (offset, bs) ∷ strides n (offset + step) step bs

abbrev pub count_at : ℕ → List (ℕ × ℕ) → ℕ
count_at offset [] = 0
count_at offset ((o, n) ∷ rest) = once (o == offset) + count_at offset rest

loop-strides :
    (fuel n : ℕ) (s : Strided)
    → 0 < s.block_size
    → s.num_bytes_left ≡ n * s.block_size
    → s.num_bytes_left < u64_mod
    → s.current_offset + n * (s.block_size * s.num_data_set_threads) < u64_mod
    → n ≤ fuel
    → let t = rw_block_sized generator complete_io fuel s in
      (t.ios ≡ strides n s.current_offset (s.block_size * s.num_data_set_threads) s.block_size)
      × (t.ending ≡ ok (some s.num_bytes_total))
unfolding generator
loop-strides fuel zero s p e l b f =
    rw (rw_block_sized-done generator complete_io fuel s (omega arith)) (refl, refl)
loop-strides zero (suc n) s p e l b f = elim f [ ]
loop-strides (suc fuel) (suc n) s p e l b f =
    let bs = s.block_size in
    let step = bs * s.num_data_set_threads in
    let min_is : min s.num_bytes_left bs ≡ bs = omega arith in
    let size_is : generator.get_next_block_size_to_submit s ≡ ok (bs, s) =
      ap (λ k. ok (k, s)) min_is in
    let s' : Strided = generator.add_bytes_submitted bs s in
    let left : sub64 s.num_bytes_left bs ≡ n * bs =
      omega (arith, sub64-eq s.num_bytes_left bs (omega arith) l) in
    let product : mul64 bs s.num_data_set_threads ≡ step = mul64-eq _ _ (omega arith) in
    let next : add64 s.current_offset step ≡ s.current_offset + step = add64-eq _ _ (omega arith) in
    let cur : s'.current_offset ≡ s.current_offset + step =
      ap (add64 s.current_offset) product ∙ next in
    let (ios, end) =
      loop-strides fuel n s' p left (omega (arith, left)) (omega (arith, cur)) (omega arith) in
    rw
      (rw_block_sized-round generator complete_io fuel s s s s.current_offset bs bs (omega arith)
        refl size_is refl p)
      (ap (λ r. (s.current_offset, bs) ∷ r) (ios ∙ ap (λ o. strides n o step bs) cur), end)

scaled_mono : (c a b : ℕ) → a ≤ b → c * a ≤ c * b
scaled_mono c a b h = grind arith

-- Blocks r + j * T and w + i * T start at the same byte only if they are one block.
same_block :
    (bs T w i r j : ℕ)
    → 0 < bs
    → w < T
    → r < T
    → bs * (w + i * T) ≡ bs * (r + j * T)
    → (w ≡ r) × (i ≡ j)
same_block bs T w i r j p hw hr e =
    let sums : w + i * T ≡ r + j * T = eq_of_mul-eq-mul_left bs p _ _ e in
    let rems : w ≡ r = cc (
      mod-eq_of_lt hw,
      mod-eq_of_lt hr,
      add-mul-mod_self_right w i T,
      add-mul-mod_self_right r j T,
      sums,
    ) in
    let products : i * T ≡ j * T = omega (arith, sums, rems) in
    (rems, eq_of_mul-eq-mul_right T (omega arith) i j products)

head_count :
    (bs T w i r j : ℕ)
    → 0 < bs
    → w < T
    → r < T
    → once (bs * (w + i * T) == bs * (r + j * T)) ≡ once ((w == r) && (i == j))
head_count bs T w i r j p hw hr = elim (Bool-cases (bs * (w + i * T) == bs * (r + j * T))) [
  | inl e ↦ let (a, b) = same_block bs T w i r j p hw hr ((==_iff _ _).0 e) in rw e (ground arith)
  | inr d ↦ elim (Bool-cases ((w == r) && (i == j))) [
    | inl both ↦
        let a : w ≡ r = ground arith in
        let b : i ≡ j = ground arith in
        let e : (bs * (w + i * T) == bs * (r + j * T)) ≡ true = (==_iff _ _).1 (rw (a, b)) in cc
    | inr other ↦ rw (d, other)
  ]
]

count-strides :
    (n bs T w i r j : ℕ)
    → 0 < bs
    → w < T
    → r < T
    → count_at (bs * (r + j * T)) (strides n (bs * (w + i * T)) (bs * T) bs)
      ≡ once ((w == r) && (leb i j && ltb j (i + n)))
count-strides zero bs T w i r j p hw hr = ground arith
count-strides (suc n) bs T w i r j p hw hr =
    let shift : bs * (w + i * T) + bs * T ≡ bs * (w + (i + 1) * T) = omega arith in
    rw (shift, head_count bs T w i r j p hw hr, count-strides n bs T w (i + 1) r j p hw hr)
      (ground arith)

-- The workers of `LocalWorker::fileModeIterateFilesRand` in strided mode, `T` of them with `k` full
-- blocks each: every block of the first `k * T` blocks is transferred exactly once by the worker
-- whose rank is the block's number modulo `T`, and never by another; each worker's loop returns its
-- `k` blocks' bytes. This holds for I/O that is done in full, and `k` rounds are enough.
pub rw_block_sized-share :
    (k bs T w b fuel : ℕ)
    → 0 < bs
    → w < T
    → bs * (w + k * T) < u64_mod
    → b < k * T
    → k ≤ fuel
    → let t = rw_block_sized generator complete_io fuel (make (k * bs) (bs * w) bs T) in
      (count_at (bs * b) t.ios ≡ once (w == b % T)) × (t.ending ≡ ok (some (k * bs)))
unfolding make
rw_block_sized-share k bs T w b fuel p hw fits hb f =
    let T_pos : 0 < T = omega arith in
    let grows : k * 1 ≤ k * T = scaled_mono k 1 T T_pos in
    let scaled : bs * (k * 1) ≤ bs * (k * T) = scaled_mono bs (k * 1) (k * T) grows in
    let total_fits : k * bs < u64_mod = omega arith in
    let (ios, end) =
      loop-strides fuel k (make (k * bs) (bs * w) bs T) p refl total_fits (omega arith) f in
    let index : b / T < k = (div-lt_iff_lt-mul T_pos).1 hb in
    let start : bs * w ≡ bs * (w + 0 * T) = omega arith in
    let block : bs * b ≡ bs * (b % T + b / T * T) = ap (λ x. bs * x) (sym (mod-add-div' b T)) in
    (
      rw (ios, start, block, count-strides k bs T w 0 (b % T) (b / T) p hw (mod-lt b T_pos))
          (ground (arith, index)),
      end,
    )
