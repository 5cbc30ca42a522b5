-- ===== src/BlockContent/Offsets.antt =====
-- The content of a file with integrity checks depends on the offset alone.
use elbencho.Prelude.{
  ℕ, zero, suc, ◌+◌, ◌-◌, ◌%◌, ◌≤◌, ◌<◌, ◌≡◌, ◌≢◌, ◌∙◌, refl, ap, sym, subst, arith, true, false,
  Bool-cases, inl, inr, ◌⊎◌, ◌==◌, ==_iff, min, tabulate, tabulate_ext, tabulate-append,
  length-tabulate, add64, none, some,
}
use elbencho.BlockContent.{
  byte_of, fill_checksums, pre_write_integrity_check_fill_buf, Mismatch, find_mismatch, same_bytes,
  post_read_integrity_check_verify_buf,
}

-- The byte at an offset of a file: its place in the word that holds the sum of the salt and the
-- offset of the word.
unfoldable pub expected_byte : ℕ → ℕ → ℕ
expected_byte salt offset = byte_of (add64 (offset - offset % 8) salt) (offset % 8)

fill_checksums-eq :
    (fuel salt offset left : ℕ)
    → left ≤ fuel
    → fill_checksums fuel salt offset left ≡ tabulate (expected_byte salt) offset left
unfolding fill_checksums expected_byte
fill_checksums-eq zero salt offset left h = let e : left ≡ 0 = omega arith in rw e refl
fill_checksums-eq (suc fuel) salt offset left h = elim (Bool-cases (left == 0)) [
  | inl e ↦ let z : left ≡ 0 = (==_iff left 0).0 e in rw z refl
  | inr ne ↦
      let pos : 0 < left = ground arith in
      let start = offset - offset % 8 in
      let idx = offset - start in
      let len = min left (8 - idx) in
      let chunk : tabulate (byte_of (add64 start salt)) idx len
          ≡ tabulate (expected_byte salt) offset len =
        tabulate_ext (byte_of (add64 start salt)) (expected_byte salt) idx offset len (λ k lt.
          let a : (offset + k) % 8 ≡ idx + k = omega arith in
          let b : offset + k - (idx + k) ≡ start = omega arith in rw (a, b) refl) in
      let rest : fill_checksums fuel salt (offset + len) (left - len)
          ≡ tabulate (expected_byte salt) (offset + len) (left - len) =
        fill_checksums-eq fuel salt (offset + len) (left - len) (omega arith) in
      let whole : len + (left - len) ≡ left = omega arith in
      rw (ne, chunk, rest)
        (sym (tabulate-append (expected_byte salt) offset len (left - len))
          ∙ ap (tabulate (expected_byte salt) offset) whole)
]

-- The filled buffer has, for each of its bytes, the byte that belongs to its offset in the file: how
-- the file was split into blocks does not show, not even where a block begins inside a word.
pub pre_write_integrity_check_fill_buf-eq :
    (salt len offset : ℕ)
    → pre_write_integrity_check_fill_buf salt len offset ≡ tabulate (expected_byte salt) offset len
unfolding pre_write_integrity_check_fill_buf
pre_write_integrity_check_fill_buf-eq salt len offset =
    fill_checksums-eq len salt offset len (omega arith)

-- What a search for a mismatch says of two buffers of one length.
pub record IsFirst (expected actual : ℕ → ℕ) (offset len : ℕ) (m : Mismatch) : Type 0 where
  pub from : offset ≤ m.offset
  pub to : m.offset < offset + len
  pub expected_there : m.expected_val ≡ expected m.offset
  pub actual_there : m.actual_val ≡ actual m.offset
  pub differs : m.expected_val ≢ m.actual_val
  pub same_before : (k : ℕ) → offset ≤ k → k < m.offset → expected k ≡ actual k

same_later :
    (f g : ℕ → ℕ) (offset k : ℕ)
    → f offset ≡ g offset
    → offset ≤ k
    → ((offset + 1 ≤ k) → f k ≡ g k)
    → f k ≡ g k
same_later f g offset k e le later = elim (Bool-cases (offset == k)) [
  | inl same ↦ let q = (==_iff offset k).0 same in subst (λ x. f x ≡ g x) q e
  | inr ne ↦ later (ground arith)
]

-- Buffers of one length either are the same, or the search finds the first difference.
pub find_mismatch_lem :
    (f g : ℕ → ℕ) (offset len : ℕ)
    → ((find_mismatch offset (tabulate f offset len) (tabulate g offset len) ≡ none)
        × (same_bytes (tabulate g offset len) (tabulate f offset len) ≡ true)
        × ((k : ℕ) → offset ≤ k → k < offset + len → f k ≡ g k))
      ⊎ ((m : Mismatch) × (find_mismatch offset (tabulate f offset len) (tabulate g offset len)
            ≡ some m)
          × (same_bytes (tabulate g offset len) (tabulate f offset len) ≡ false)
          × IsFirst f g offset len m)
unfolding find_mismatch same_bytes
find_mismatch_lem f g offset zero = inl (refl, refl, λ k a b. absurd (omega arith))
find_mismatch_lem f g offset (suc len) = elim (Bool-cases (f offset == g offset)) [
  | inl e ↦
      let q = (==_iff (f offset) (g offset)).0 e in
      let next : suc offset ≡ offset + 1 = omega arith in
      let swapped : (g offset == f offset) ≡ true = (==_iff (g offset) (f offset)).1 (sym q) in
      elim (find_mismatch_lem f g (suc offset) len) [
        | inl (a, b, all) ↦ inl (
          rw (e, sym next) a,
          rw swapped b,
          λ k from to. same_later f g offset k q from (λ later. all k (omega arith) (omega arith)),
        )
        | inr (m, a, b, first) ↦
            let from = first.from in
            let to = first.to in
            inr (
              m,
              rw (e, sym next) a,
              rw swapped b,
              record {
                from = omega arith;
                to = omega arith;
                expected_there = first.expected_there;
                actual_there = first.actual_there;
                differs = first.differs;
                same_before = λ k after before.
                    same_later f g offset k q after
                      (λ later. first.same_before k (omega arith) before);
              },
            )
      ]
  | inr ne ↦
      let swapped : (g offset == f offset) ≡ false = ground arith in
      inr (
        record { offset = offset; expected_val = f offset; actual_val = g offset },
        rw ne refl,
        rw swapped refl,
        record {
          from = omega arith;
          to = omega arith;
          expected_there = refl;
          actual_there = refl;
          differs = λ q. let t = (==_iff (f offset) (g offset)).1 q in cc;
          same_before = λ k after before. absurd (omega arith);
        },
      )
]

-- A verification of a buffer that was read from offset `offset` on passes exactly where each of its
-- bytes is the expected one, and else reports the first byte that is not, with both values.
pub post_read_integrity_check_verify_buf_lem :
    (salt offset len : ℕ) (file : ℕ → ℕ)
    → ((post_read_integrity_check_verify_buf salt (tabulate file offset len) offset ≡ none)
        × ((k : ℕ) → offset ≤ k → k < offset + len → expected_byte salt k ≡ file k))
      ⊎ ((m : Mismatch) × (post_read_integrity_check_verify_buf salt
              (tabulate file offset len)
              offset
            ≡ some m)
          × IsFirst (expected_byte salt) file offset len m)
unfolding post_read_integrity_check_verify_buf
post_read_integrity_check_verify_buf_lem salt offset len file =
    let size = length-tabulate file offset len in
    let filled = pre_write_integrity_check_fill_buf-eq salt len offset in
    elim (Bool-cases (len == 0)) [
      | inl e ↦
          let z : len ≡ 0 = (==_iff len 0).0 e in
          inl (rw (size, e) refl, λ k a b. absurd (omega arith))
      | inr some_bytes ↦ elim (find_mismatch_lem (expected_byte salt) file offset len) [
        | inl (a, b, all) ↦ inl (rw (size, some_bytes, filled, b) refl, all)
        | inr (m, a, b, first) ↦ inr (m, rw (size, some_bytes, filled, b) a, first)
      ]
    ]
