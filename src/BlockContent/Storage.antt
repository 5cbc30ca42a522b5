-- ===== src/BlockContent/Storage.antt =====
-- Writing a file with integrity checks and verifying it in other blocks.
use elbencho.Prelude.{
  ℕ, zero, suc, ◌+◌, ◌-◌, ◌≤◌, ◌<◌, ◌≡◌, ◌∙◌, refl, ap, sym, arith, true, ◌&&◌, Bool-cases, inl,
  inr, List, [], ◌∷◌, ltb, leb, ltb→lt, ltb→le, if◌then◌else◌, length, get_or, tabulate,
  length-tabulate, get_or-tabulate, Option, none, u64_mod,
}
use elbencho.OffsetGen.{Tiles, rw_block_sized, MakesProgress}
use elbencho.OffsetGen.Sequential.{make, generator}
use elbencho.OffsetGen.Sequential.Cover.{rw_block_sized-Tiles}
use elbencho.Mix.{Mix}
use elbencho.Mix.Extremes.{IsValid}
use elbencho.BlockContent.{
  pre_write_integrity_check_fill_buf, first_bytes, post_read_integrity_check_verify_buf,
}
use elbencho.BlockContent.Offsets.{
  expected_byte, pre_write_integrity_check_fill_buf-eq, post_read_integrity_check_verify_buf_lem,
}

-- A file as the bytes at its offsets, and a write of some bytes into it.
unfoldable pub store : ℕ → List ℕ → (ℕ → ℕ) → ℕ → ℕ
store offset bytes file p =
    if leb offset p && ltb p (offset + length bytes) then get_or bytes (p - offset) 0 else file p

-- The transfers of a write, each its offset and the bytes done: the buffer is filled for a whole
-- block of `size` bytes, of which the first ones are written.
unfoldable pub write_ios : ℕ → (ℕ × ℕ → ℕ) → List (ℕ × ℕ) → (ℕ → ℕ) → ℕ → ℕ
write_ios salt size [] file = file
write_ios salt size ((offset, done) ∷ ios) file = write_ios salt size ios (
    store offset
      (first_bytes done (pre_write_integrity_check_fill_buf salt (size (offset, done)) offset))
      file)

first_bytes-tabulate :
    (f : ℕ → ℕ) (start n k : ℕ) → k ≤ n → first_bytes k (tabulate f start n) ≡ tabulate f start k
unfolding first_bytes
first_bytes-tabulate f start n zero h = refl
first_bytes-tabulate f start zero (suc k) h = absurd (omega arith)
first_bytes-tabulate f start (suc n) (suc k) h =
    ap (λ xs. f start ∷ xs) (first_bytes-tabulate f (suc start) n k (omega arith))

inside :
    (offset len p : ℕ)
    → offset ≤ p
    → p < offset + len
    → (leb offset p && ltb p (offset + len)) ≡ true
inside offset len p a b = ground arith

store_inside :
    (f file : ℕ → ℕ) (offset len p : ℕ)
    → offset ≤ p
    → p < offset + len
    → store offset (tabulate f offset len) file p ≡ f p
unfolding store
store_inside f file offset len p a b =
    let size = length-tabulate f offset len in
    let there = get_or-tabulate f offset len (p - offset) 0 (omega arith) in
    let e : offset + (p - offset) ≡ p = omega arith in
    rw (size, inside offset len p a b, there, e) refl

hit_bounds :
    (offset len p : ℕ)
    → (leb offset p && ltb p (offset + len)) ≡ true
    → (offset ≤ p) × (p < offset + len)
hit_bounds offset len p h = ground arith

-- A write of expected bytes leaves expected bytes as they are.
store_keeps :
    (f file : ℕ → ℕ) (offset len p : ℕ)
    → file p ≡ f p
    → store offset (tabulate f offset len) file p ≡ f p
unfolding store
store_keeps f file offset len p h = elim (Bool-cases (leb offset p && ltb p (offset + len))) [
  | inl hit ↦ let (a, b) = hit_bounds offset len p hit in store_inside f file offset len p a b
  | inr miss ↦ let size = length-tabulate f offset len in rw (size, miss) h
]

-- One transfer, in terms of expected bytes.
abbrev pub IsWhole : (ℕ × ℕ → ℕ) → List (ℕ × ℕ) → Type 0
IsWhole size [] = Unit {0}
IsWhole size (io ∷ ios) = (io.1 ≤ size io) × IsWhole size ios

filled :
    (salt size offset done : ℕ)
    → done ≤ size
    → first_bytes done (pre_write_integrity_check_fill_buf salt size offset)
      ≡ tabulate (expected_byte salt) offset done
filled salt size offset done h =
    ap (first_bytes done) (pre_write_integrity_check_fill_buf-eq salt size offset)
    ∙ first_bytes-tabulate (expected_byte salt) offset size done h

module _ (salt : ℕ) (size : ℕ × ℕ → ℕ) where
  write_ios-keeps :
      (ios : List (ℕ × ℕ)) (file : ℕ → ℕ) (p : ℕ)
      → IsWhole size ios
      → file p ≡ expected_byte salt p
      → write_ios salt size ios file p ≡ expected_byte salt p
  unfolding write_ios
  write_ios-keeps [] file p w h = h
  write_ios-keeps ((offset, done) ∷ ios) file p w h =
      rw (filled salt (size (offset, done)) offset done w.0)
        (write_ios-keeps ios _ p w.1 (store_keeps (expected_byte salt) file offset done p h))

  write_ios-Tiles :
      (ios : List (ℕ × ℕ)) (file : ℕ → ℕ) (from to p : ℕ)
      → IsWhole size ios
      → Tiles from to ios
      → from ≤ p
      → p < to
      → write_ios salt size ios file p ≡ expected_byte salt p
  unfolding write_ios
  write_ios-Tiles [] file from to p w t a b = absurd (omega arith)
  write_ios-Tiles ((offset, done) ∷ ios) file from to p w t a b =
      rw (filled salt (size (offset, done)) offset done w.0)
        (elim (Bool-cases (ltb p (offset + done))) [
          | inl here ↦
              let lt = ltb→lt p (offset + done) here in
              write_ios-keeps ios _ p w.1
                (store_inside (expected_byte salt) file offset done p (omega arith) lt)
          | inr later ↦
              write_ios-Tiles ios _ (offset + done) to p w.1 t.2 (ltb→le p (offset + done) later) b
        ])

  -- A buffer of which every byte is expected passes.
  verify-passes :
      (offset len : ℕ) (file : ℕ → ℕ)
      → ((p : ℕ) → offset ≤ p → p < offset + len → file p ≡ expected_byte salt p)
      → post_read_integrity_check_verify_buf salt (tabulate file offset len) offset ≡ none
  verify-passes offset len file h =
      elim (post_read_integrity_check_verify_buf_lem salt offset len file) [
        | inl (passes, all) ↦ passes
        | inr (m, fails, first) ↦
            let same = h m.offset first.from first.to in
            absurd (first.differs (first.expected_there ∙ (sym same ∙ sym first.actual_there)))
      ]

-- What a worker wrote with integrity checks is verified without an error: after the sequential write
-- of a range, with any mix of block sizes and with short transfers, every buffer that is read back
-- from inside the range passes the verification, whatever its offset and length. The range ends
-- below 2^64, the block filled is at least as large as what is written of it, and the file is one
-- whose bytes are those of the writes.
pub rw_block_sized-post_read_integrity_check :
    {G : Type 0} (next : G → ℕ × G) (io : ℕ → ℕ → Option ℕ) (salt : ℕ) (size : ℕ × ℕ → ℕ)
    (len offset : ℕ) (mix : Mix) (g : G) (file : ℕ → ℕ) (read_offset read_len : ℕ)
    → MakesProgress io
    → IsValid mix
    → 0 < mix.total_weight
    → offset + len < u64_mod
    → IsWhole size (rw_block_sized (generator next) io len (make next len offset mix g)).ios
    → offset ≤ read_offset
    → read_offset + read_len ≤ offset + len
    → let ios = (rw_block_sized (generator next) io len (make next len offset mix g)).ios in
      post_read_integrity_check_verify_buf salt
        (tabulate (write_ios salt size ios file) read_offset read_len)
        read_offset
      ≡ none
rw_block_sized-post_read_integrity_check next io salt size len offset mix g file read_offset
      read_len progress valid weight small whole from to =
    let (tiles, returns) =
      rw_block_sized-Tiles next io progress len offset len mix g valid weight small (omega arith) in
    let ios = (rw_block_sized (generator next) io len (make next len offset mix g)).ios in
    verify-passes salt size read_offset read_len (write_ios salt size ios file) (λ p a b.
      write_ios-Tiles salt size ios file offset (offset + len) p whole tiles (omega arith)
        (omega arith))
