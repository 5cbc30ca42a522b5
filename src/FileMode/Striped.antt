-- ===== src/FileMode/Striped.antt =====
-- `calcFileIdxAndOffsetStriped` and the ranges of `fileModeIterateFilesRand` of
-- source/workers/LocalWorker.cpp.
use native.Mathlib.Nat.{mul-le-mul_left, mul-le-mul_right, mod-lt}
use native.Mathlib.Omega.{div_any}
use elbencho.Prelude.{
  ℕ, ◌+◌, ◌-◌, ◌*◌, ◌/◌, ◌%◌, ◌^◌, ◌≤◌, ◌<◌, ◌≡◌, ◌∙◌, refl, ap, sym, arith, false, Bool-cases, inl,
  inr, ◌==◌, ==_iff, ltb, ltb→lt, ltb→le, add64, add64-eq, mul64, mul64-eq, ok,
}
use elbencho.FileMode.{calc_file_idx_and_offset_striped, rand_range_len, rand_range_offset}
use elbencho.FileMode.Pass.{quotient, remainder}

-- The blocks that each of `n` workers gets.
abbrev share : ℕ → ℕ → ℕ → ℕ → ℕ
share fs bs num_files n = fs / bs * num_files / n

module _ (fs bs num_files n : ℕ) (pos : 0 < bs) (even : fs % bs ≡ 0)
    (word : num_files * fs < 2 ^ 62) where
  per_file : fs ≡ fs / bs * bs
  per_file = omega (arith, div_any fs bs, even)

  all_blocks : fs / bs * num_files * bs ≡ num_files * fs
  all_blocks =
      let e : num_files * fs ≡ num_files * (fs / bs * bs) = ap (λ x. num_files * x) per_file in
      omega (arith, e)

  blocks_word : fs / bs * num_files < 2 ^ 62
  blocks_word =
      let grows : fs / bs * num_files * 1 ≤ fs / bs * num_files * bs =
        mul-le-mul_left (fs / bs * num_files) pos in
      omega (arith, grows, all_blocks)

  blocks_eq : mul64 (fs / bs) num_files ≡ fs / bs * num_files
  blocks_eq = mul64-eq (fs / bs) num_files (omega (arith, blocks_word))

  module _ (threads : 0 < n) where
    shares_le : n * share fs bs num_files n ≤ fs / bs * num_files
    shares_le = omega (arith, div_any (fs / bs * num_files) n)

    shares_bytes : n * share fs bs num_files n * bs ≤ num_files * fs
    shares_bytes = omega (arith, mul-le-mul_right bs shares_le, all_blocks)

    -- The ranges lie one after the other.
    pub range_end_le : (r : ℕ) → r < n → (r + 1) * share fs bs num_files n * bs ≤ num_files * fs
    range_end_le r lt =
        let le : (r + 1) * share fs bs num_files n ≤ n * share fs bs num_files n =
          mul-le-mul_right (share fs bs num_files n) (omega arith) in
        omega (arith, mul-le-mul_right bs le, shares_bytes)

    pub rand_range_len-eq : rand_range_len fs bs num_files n ≡ share fs bs num_files n * bs
    unfolding rand_range_len
    rand_range_len-eq =
        let le : 1 * share fs bs num_files n ≤ n * share fs bs num_files n =
          mul-le-mul_right (share fs bs num_files n) threads in
        let bytes = mul-le-mul_right bs le in
        let small : bs * share fs bs num_files n < 2 ^ 64 = omega (arith, bytes, shares_bytes) in
        rw blocks_eq (mul64-eq bs (share fs bs num_files n) small ∙ omega arith)

    pub rand_range_offset-eq :
        (r : ℕ) → r < n → rand_range_offset fs bs num_files n r ≡ r * share fs bs num_files n * bs
    unfolding rand_range_offset
    rand_range_offset-eq r lt = elim (Bool-cases (share fs bs num_files n == 0)) [
      | inl none ↦
          let z : share fs bs num_files n ≡ 0 = ground arith in
          rw (blocks_eq, z) (mul64-eq (mul64 r bs) 0 (omega arith) ∙ omega arith)
      | inr some ↦
          let q = share fs bs num_files n in
          let one : 1 ≤ q = ground arith in
          let le : r * q ≤ (r + 1) * q = mul-le-mul_right q (omega arith) in
          let bytes = mul-le-mul_right bs le in
          let rank : r * 1 ≤ r * q = mul-le-mul_left r one in
          let rank_bytes = mul-le-mul_right bs rank in
          let most = range_end_le r lt in
          let a : mul64 r bs ≡ r * bs = mul64-eq r bs (omega (arith, bytes, rank_bytes, most)) in
          let b : r * bs * q ≡ r * q * bs = omega arith in
          let c : mul64 (r * bs) q ≡ r * bs * q =
            mul64-eq (r * bs) q (omega (arith, bytes, most, b)) in
          rw (blocks_eq, a) (c ∙ b)
    ]

-- Where a block of a random access goes: `base` is the user's offset within each file.
pub record Placed (fs bs num_files base position : ℕ) (place : ℕ × ℕ) : Type 0 where
  pub in_list : place.0 < num_files
  pub min_offset : base ≤ place.1
  pub in_file : place.1 + bs ≤ base + fs
  pub same_byte : place.0 * fs + (place.1 - base) ≡ position

place_block :
    (fs bs num_files base block : ℕ)
    → 0 < bs
    → fs % bs ≡ 0
    → num_files * fs < 2 ^ 62
    → base < 2 ^ 62
    → block * bs < num_files * fs
    → (place : ℕ × ℕ) × (calc_file_idx_and_offset_striped (block * bs) fs base false ≡ ok place)
      × Placed fs bs num_files base (block * bs) place
unfolding calc_file_idx_and_offset_striped
place_block fs bs num_files base block pos even word base_word inside =
    let per = fs / bs in
    let f = per_file fs bs num_files 0 pos even word in
    let split = div_any block per in
    let fs_some : 0 < fs = elim (Bool-cases (fs == 0)) [
      | inl z ↦
          let zero_size : fs ≡ 0 = (==_iff fs 0).0 z in
          let none : num_files * fs ≡ num_files * 0 = ap (λ x. num_files * x) zero_size in
          absurd (omega (arith, none, inside))
      | inr some ↦ ground arith
    ] in
    let some : (fs == 0) ≡ false = ground arith in
    let per_some : 0 < per = elim (Bool-cases (per == 0)) [
      | inl z ↦
          let none : per * bs ≡ 0 * bs = ap (λ x. x * bs) ((==_iff per 0).0 z) in
          absurd (omega (arith, none, f))
      | inr some_block ↦ ground arith
    ] in
    let in_block : block % per < per = mod-lt block per_some in
    let q = block / per in
    let r = block % per in
    let blocks : block * bs ≡ (per * q + r) * bs = ap (λ x. x * bs) (sym split) in
    let files : q * fs ≡ q * (per * bs) = ap (λ x. q * x) f in
    let e : block * bs ≡ q * fs + r * bs = omega (arith, blocks, files) in
    let fits : (r + 1) * bs ≤ per * bs = mul-le-mul_right bs (omega arith) in
    let low : r * bs < fs = omega (arith, fits, f) in
    let quot : block * bs / fs ≡ q = ap (λ x. x / fs) e ∙ quotient q (r * bs) fs low in
    let rem : block * bs % fs ≡ r * bs = ap (λ x. x % fs) e ∙ remainder q (r * bs) fs low in
    let sum : add64 (r * bs) base ≡ r * bs + base =
      add64-eq (r * bs) base (omega (arith, low, e, inside, word, base_word)) in
    let in_list : q < num_files = elim (Bool-cases (ltb q num_files)) [
      | inl lt ↦ ltb→lt q num_files lt
      | inr ge ↦
          let le : num_files * fs ≤ q * fs = mul-le-mul_right fs (ltb→le q num_files ge) in
          absurd (omega (arith, le, e, inside))
    ] in
    (
      (q, r * bs + base),
      rw (some, quot, rem, sum) refl,
      record {
        in_list = in_list;
        min_offset = omega arith;
        in_file = omega (arith, fits, f);
        same_byte = omega (arith, e);
      },
    )

-- The blocks of the range of a worker are placed within the files, at the byte that the offset stands
-- for, and the ranges of the ranks lie in their order one behind the other.
pub calc_file_idx_and_offset_striped-block :
    (file_size block_size num_files num_threads base : ℕ)
    → 0 < block_size
    → file_size % block_size ≡ 0
    → num_files * file_size < 2 ^ 62
    → 0 < num_threads
    → base < 2 ^ 62
    → ((r block : ℕ)
        → r < num_threads
        → rand_range_offset file_size block_size num_files num_threads r ≤ block * block_size
        → block * block_size
          < rand_range_offset file_size block_size num_files num_threads r
            + rand_range_len file_size block_size num_files num_threads
        → (place : ℕ × ℕ) × (calc_file_idx_and_offset_striped
              (block * block_size)
              file_size
              base
              false
            ≡ ok place)
          × Placed file_size block_size num_files base (block * block_size) place)
      × ((r s : ℕ)
          → r < s
          → s < num_threads
          → rand_range_offset file_size block_size num_files num_threads r
              + rand_range_len file_size block_size num_files num_threads
            ≤ rand_range_offset file_size block_size num_files num_threads s)
calc_file_idx_and_offset_striped-block fs bs num_files n base pos even word threads base_word =
    let len = rand_range_len-eq fs bs num_files n pos even word threads in
    let at = rand_range_offset-eq fs bs num_files n pos even word threads in
    let q = share fs bs num_files n in
    (
      λ r block lt from to.
          let end_le = range_end_le fs bs num_files n pos even word threads r lt in
          let start = at r lt in
          let inside : block * bs < num_files * fs = omega (arith, end_le, start, len, to) in
          place_block fs bs num_files base block pos even word base_word inside,
      λ r s lt in_range.
          let a = at r (omega arith) in
          let b = at s in_range in
          let le : (r + 1) * q * bs ≤ s * q * bs =
            mul-le-mul_right bs (mul-le-mul_right q (omega arith)) in
          omega (arith, a, b, len, le),
    )
