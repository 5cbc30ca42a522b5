-- ===== src/BlockContent/Blocks.antt =====
-- Buffers that repeat a word.
use native.Mathlib.Nat.{mul-le-mul_left}
use elbencho.Prelude.{
  ℕ, zero, suc, ◌+◌, ◌-◌, ◌*◌, ◌/◌, ◌%◌, ◌^◌, ◌≤◌, ◌<◌, ◌≡◌, ◌∙◌, refl, ap, sym, arith, List, ◌++◌,
  length, length-append, tabulate, tabulate_ext, tabulate-append, length-tabulate, mul64, mul64-eq,
}
use elbencho.BlockContent.{byte_of, fill_words, buf_fill, pre_write_buf_rand_refill}

join_byte : (a b : ℕ) → a / 256 ≡ b / 256 → a % 256 ≡ b % 256 → a ≡ b
join_byte a b h k = omega arith

-- A word is known by its bytes.
pub byte_of_injective :
    (v w : ℕ) → v < 2 ^ 64 → w < 2 ^ 64 → ((i : ℕ) → i < 8 → byte_of v i ≡ byte_of w i) → v ≡ w
unfolding byte_of
byte_of_injective v w p q h =
    let h7 : v / 2 ^ 56 % 256 ≡ w / 2 ^ 56 % 256 = h 7 (omega arith) in
    let h6 : v / 2 ^ 48 % 256 ≡ w / 2 ^ 48 % 256 = h 6 (omega arith) in
    let h5 : v / 2 ^ 40 % 256 ≡ w / 2 ^ 40 % 256 = h 5 (omega arith) in
    let h4 : v / 2 ^ 32 % 256 ≡ w / 2 ^ 32 % 256 = h 4 (omega arith) in
    let h3 : v / 2 ^ 24 % 256 ≡ w / 2 ^ 24 % 256 = h 3 (omega arith) in
    let h2 : v / 2 ^ 16 % 256 ≡ w / 2 ^ 16 % 256 = h 2 (omega arith) in
    let h1 : v / 2 ^ 8 % 256 ≡ w / 2 ^ 8 % 256 = h 1 (omega arith) in
    let h0 : v / 1 % 256 ≡ w / 1 % 256 = h 0 (omega arith) in
    let e7 : v / 2 ^ 56 ≡ w / 2 ^ 56 = omega (arith, h7) in
    let e6 : v / 2 ^ 48 ≡ w / 2 ^ 48 = join_byte _ _ (omega (arith, e7)) h6 in
    let e5 : v / 2 ^ 40 ≡ w / 2 ^ 40 = join_byte _ _ (omega (arith, e6)) h5 in
    let e4 : v / 2 ^ 32 ≡ w / 2 ^ 32 = join_byte _ _ (omega (arith, e5)) h4 in
    let e3 : v / 2 ^ 24 ≡ w / 2 ^ 24 = join_byte _ _ (omega (arith, e4)) h3 in
    let e2 : v / 2 ^ 16 ≡ w / 2 ^ 16 = join_byte _ _ (omega (arith, e3)) h2 in
    let e1 : v / 2 ^ 8 ≡ w / 2 ^ 8 = join_byte _ _ (omega (arith, e2)) h1 in
    join_byte v w (omega (arith, e1)) (omega (arith, h0))

abbrev pub repeats : ℕ → ℕ → ℕ
repeats value i = byte_of value (i % 8)

fill_words-eq :
    (value n start : ℕ)
    → start % 8 ≡ 0
    → fill_words value n ≡ tabulate (repeats value) start (n * 8)
unfolding fill_words
fill_words-eq value zero start h = refl
fill_words-eq value (suc n) start h =
    let word : tabulate (byte_of value) 0 8 ≡ tabulate (repeats value) start 8 =
      tabulate_ext (byte_of value) (repeats value) 0 start 8
        (λ k lt. ap (byte_of value) (omega arith)) in
    let size : 8 + n * 8 ≡ suc n * 8 = omega arith in
    ap (λ xs. xs ++ fill_words value n) word
    ∙ (ap (λ xs. tabulate (repeats value) start 8 ++ xs)
          (fill_words-eq value n (start + 8) (omega arith))
        ∙ (sym (tabulate-append (repeats value) start 8 (n * 8))
            ∙ ap (tabulate (repeats value) start) size))

-- The word is repeated over the whole buffer, its first bytes in the remainder.
pub buf_fill-eq : (value len : ℕ) → buf_fill value len ≡ tabulate (repeats value) 0 len
unfolding buf_fill
buf_fill-eq value len =
    let n = len / 8 in
    let rest : tabulate (byte_of value) 0 (len - n * 8)
        ≡ tabulate (repeats value) (0 + n * 8) (len - n * 8) =
      tabulate_ext (byte_of value) (repeats value) 0 (0 + n * 8) (len - n * 8)
        (λ k lt. ap (byte_of value) (omega arith)) in
    let size : n * 8 + (len - n * 8) ≡ len = omega arith in
    rw (fill_words-eq value n 0 refl, rest)
      (sym (tabulate-append (repeats value) 0 (n * 8) (len - n * 8))
        ∙ ap (tabulate (repeats value) 0) size)

-- A refill fills the buffer, no more and no less.
pub length-pre_write_buf_rand_refill :
    (random : ℕ → List ℕ × ℕ) (percent len : ℕ)
    → ((n : ℕ) → length (random n).0 ≡ n)
    → percent ≤ 100
    → len < 2 ^ 56
    → length (pre_write_buf_rand_refill random percent len) ≡ len
unfolding pre_write_buf_rand_refill
length-pre_write_buf_rand_refill random percent len full p small =
    let most : len * percent ≤ len * 100 = mul-le-mul_left len p in
    let e : mul64 len percent ≡ len * percent = mul64-eq len percent (omega (arith, most)) in
    let n = mul64 len percent / 100 in
    let fits : n ≤ len = omega (arith, e, most) in
    rw
      (
        length-append (random n).0 (buf_fill (random n).1 (len - n)),
        full n,
        buf_fill-eq (random n).1 (len - n),
        length-tabulate (repeats (random n).1) 0 (len - n),
      )
      (omega arith)
