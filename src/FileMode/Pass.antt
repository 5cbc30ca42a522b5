-- ===== src/FileMode/Pass.antt =====
-- One pass of `fileModeIterateFilesSeq` of source/workers/LocalWorker.cpp.
use native.Mathlib.Nat.{mul-le-mul_right, mod-lt, le-div_iff_mul-le, div-lt_iff_lt-mul}
use native.Mathlib.Omega.{div_any}
use elbencho.Prelude.{
  ℕ, ◌+◌, ◌-◌, ◌*◌, ◌/◌, ◌%◌, ◌≤◌, ◌<◌, ◌≡◌, ◌∙◌, ap, arith, Bool-cases, inl, inr, List, [], ◌∷◌,
  ltb, ltb→lt, ltb→le, min, Result, ok, Option, some,
}
use elbencho.PathStore.{num_file_blocks}
use elbencho.PathStore.Ranges.{IsCeil, num_file_blocks-IsCeil}
use elbencho.FileMode.{Piece}

-- The files one after the other are a range of bytes; the first byte of a block in there.
abbrev pub byte_position : ℕ → ℕ → ℕ → ℕ
byte_position file_size block_size block =
    let per_file = num_file_blocks file_size block_size in
    block / per_file * file_size + block % per_file * block_size

-- The pieces cover the bytes from `from` to `to` in order, each inside its file.
abbrev pub TilesFiles : ℕ → ℕ → ℕ → List Piece → Type 0
TilesFiles file_size from to [] = from ≡ to
TilesFiles file_size from to (p ∷ ps) =
    (p.file_index * file_size + p.io_start ≡ from)
    × (0 < p.io_len)
    × (p.io_start + p.io_len ≤ file_size)
    × TilesFiles file_size (from + p.io_len) to ps

-- Every transfer of a range is done in full.
abbrev pub IsFull : (ℕ → ℕ → ℕ → Result (Option ℕ)) → Type 0
IsFull rw_file = (file start len : ℕ) → 0 < len → rw_file file start len ≡ ok (some len)

-- A number of blocks is fixed by what it has to hold.
ceil_unique : (size bs n k : ℕ) → IsCeil size bs n → (k - 1) * bs < size → size ≤ k * bs → n ≡ k
ceil_unique size bs n k c last enough = elim (Bool-cases (ltb n k)) [
  | inl less ↦
      let lt = ltb→lt n k less in
      let le : n * bs ≤ (k - 1) * bs = mul-le-mul_right bs (omega arith) in
      absurd (omega (arith, le, last, c.enough))
  | inr more ↦
      let ge = ltb→le n k more in
      elim (Bool-cases (ltb k n)) [
        | inl greater ↦
            let lt = ltb→lt k n greater in
            let le : k * bs ≤ (n - 1) * bs = mul-le-mul_right bs (omega arith) in
            absurd (omega (arith, le, c.last_used, enough))
        | inr e ↦ let le = ltb→le k n e in omega arith
      ]
]

pub quotient : (q r d : ℕ) → r < d → (q * d + r) / d ≡ q
quotient q r d h =
    let pos : 0 < d = omega arith in
    let lo : q ≤ (q * d + r) / d = (le-div_iff_mul-le pos).1 (omega arith) in
    let hi : (q * d + r) / d < q + 1 = (div-lt_iff_lt-mul pos).1 (omega arith) in omega arith

pub remainder : (q r d : ℕ) → r < d → (q * d + r) % d ≡ r
remainder q r d h =
    let e = quotient q r d h in
    let f = div_any (q * d + r) d in
    let g : d * ((q * d + r) / d) ≡ d * q = ap (λ x. d * x) e in omega (arith, f, g)

pub split_mul : (a b c d : ℕ) → a ≡ b + c → a * d ≡ b * d + c * d
split_mul a b c d e = ap (λ x. x * d) e ∙ omega arith

-- One pass over a file of `per` blocks, from block `b` of file `f` on, with `left` blocks to go.
module _ (fs bs per f b left : ℕ) (pos : 0 < bs) (ceil : IsCeil fs bs per) (inside : b < per)
    (some_left : 0 < left) where
  start_in_file : b * bs < fs
  start_in_file =
      let le : b * bs ≤ (per - 1) * bs = mul-le-mul_right bs (omega arith) in
      omega (arith, le, ceil.last_used)

  -- The worker's blocks end inside the file.
  len_inside :
      b + left < per → (min (left * bs) (fs - b * bs) ≡ left * bs) × (b * bs + left * bs < fs)
  len_inside h =
      let le : (b + left) * bs ≤ (per - 1) * bs = mul-le-mul_right bs (omega arith) in
      let last = ceil.last_used in (omega arith, omega arith)

  -- They do not, so the pass ends where the file does.
  len_to_end : per ≤ b + left → min (left * bs) (fs - b * bs) ≡ fs - b * bs
  len_to_end h =
      let le : per * bs ≤ (b + left) * bs = mul-le-mul_right bs h in
      let fits = ceil.enough in omega arith

  blocks_inside : b + left < per → num_file_blocks (left * bs) bs ≡ left
  blocks_inside h =
      let grows : 1 * bs ≤ left * bs = mul-le-mul_right bs some_left in
      let split = split_mul left (left - 1) 1 bs (omega arith) in
      ceil_unique (left * bs) bs (num_file_blocks (left * bs) bs) left
        (num_file_blocks-IsCeil (left * bs) bs pos (omega (arith, grows))) (omega (arith, split))
        (omega arith)

  blocks_to_end : num_file_blocks (fs - b * bs) bs ≡ per - b
  blocks_to_end =
      let start = start_in_file in
      let all = split_mul per b (per - b) bs (omega arith) in
      let most = split_mul (per - 1) b (per - b - 1) bs (omega arith) in
      ceil_unique (fs - b * bs) bs (num_file_blocks (fs - b * bs) bs) (per - b)
        (num_file_blocks-IsCeil (fs - b * bs) bs pos (omega arith))
        (omega (arith, most, ceil.last_used)) (omega (arith, all, ceil.enough))

-- What a pass does from block `current` on, with `left` blocks to go.
pub record Pass (fs bs current left len done : ℕ) : Type 0 where
  pub length_of : min (left * bs) (fs - current % num_file_blocks fs bs * bs) ≡ len
  pub blocks_of : num_file_blocks len bs ≡ done
  pub progress : 0 < done
  pub no_more : done ≤ left
  pub some_bytes : 0 < len
  pub in_file : current % num_file_blocks fs bs * bs + len ≤ fs
  pub moves : byte_position fs bs (current + done) ≡ byte_position fs bs current + len

pub one_round :
    (fs bs current left : ℕ)
    → 0 < bs
    → 0 < fs
    → 0 < left
    → (len : ℕ) × (done : ℕ) × Pass fs bs current left len done
one_round fs bs current left pos size some_left =
    let per = num_file_blocks fs bs in
    let ceil = num_file_blocks-IsCeil fs bs pos size in
    let f = current / per in
    let b = current % per in
    let inside : b < per = mod-lt current ceil.some_block in
    let here : current ≡ f * per + b = omega (arith, div_any current per) in
    let start = start_in_file fs bs per f b left pos ceil inside some_left in
    elim (Bool-cases (ltb (b + left) per)) [
      | inl ends ↦
          let h = ltb→lt (b + left) per ends in
          let (len, fits) = len_inside fs bs per f b left pos ceil inside some_left h in
          let target : current + left ≡ f * per + (b + left) = omega (arith, here) in
          let grows : 1 * bs ≤ left * bs = mul-le-mul_right bs some_left in
          let q : (current + left) / per ≡ f =
            ap (λ x. x / per) target ∙ quotient f (b + left) per h in
          let r : (current + left) % per ≡ b + left =
            ap (λ x. x % per) target ∙ remainder f (b + left) per h in
          (
            left * bs,
            left,
            record {
              length_of = len;
              blocks_of = blocks_inside fs bs per f b left pos ceil inside some_left h;
              progress = some_left;
              no_more = omega arith;
              some_bytes = omega (arith, grows);
              in_file = omega (arith, fits);
              moves = rw (q, r) (omega arith);
            },
          )
      | inr beyond ↦
          let h = ltb→le (b + left) per beyond in
          let len = len_to_end fs bs per f b left pos ceil inside some_left h in
          let target : current + (per - b) ≡ (f + 1) * per + 0 = omega (arith, here) in
          let q : (current + (per - b)) / per ≡ f + 1 =
            ap (λ x. x / per) target ∙ quotient (f + 1) 0 per ceil.some_block in
          let r : (current + (per - b)) % per ≡ 0 =
            ap (λ x. x % per) target ∙ remainder (f + 1) 0 per ceil.some_block in
          (
            fs - b * bs,
            per - b,
            record {
              length_of = len;
              blocks_of = blocks_to_end fs bs per f b left pos ceil inside some_left;
              progress = omega arith;
              no_more = omega arith;
              some_bytes = omega (arith, start);
              in_file = omega (arith, start);
              moves = rw (q, r) (omega (arith, start));
            },
          )
    ]
