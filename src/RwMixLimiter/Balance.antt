-- ===== src/RwMixLimiter/Balance.antt =====
-- The balance of readers and writers.
use native.Mathlib.Nat.{mul-le-mul, mul-le-mul_left, mul-le-mul_right}
use elbencho.Prelude.{
  ℕ, suc, ◌+◌, ◌-◌, ◌*◌, ◌/◌, ◌^◌, ◌<◌, ◌≤◌, ◌≡◌, refl, ap, sym, subst, arith, true, leb, leb→le,
  leb→gt, Bool-cases, inl, inr, ◌⊎◌, add64, add64-eq, mul64, mul64-eq, sub64, sub64-eq,
}
use elbencho.RwMixLimiter.{
  Limiter, bytes_allowed_read, bytes_allowed_write, may_read, may_write, Counters, Step, pass_read,
  pass_write, add_read, add_write, clear_read, clear_write, IsSmall, Reach, start, later,
}

-- Limits of a run within which nothing overflows.
pub record IsSane (l : Limiter) : Type 0 where
  pub percent : l.read_ratio_percent ≤ 100
  pub reader_room : l.max_block_size * l.num_reader_threads < 2 ^ 55
  pub writer_room : l.max_block_size * l.num_writer_threads < 2 ^ 55

share_word : (n p : ℕ) → p ≤ 100 → n < 2 ^ 57 + 2 ^ 55 → n * p < 2 ^ 64
share_word n p h k =
    let le : n * p ≤ (2 ^ 57 + 2 ^ 55) * 100 = mul-le-mul {n₂ = 2 ^ 57 + 2 ^ 55} (omega arith) h in
    omega arith

module _ (l : Limiter) (sane : IsSane l) (r w : ℕ) (r_small : r < 2 ^ 56)
    (w_small : w < 2 ^ 56) where
  allowed_read :
      bytes_allowed_read l r w
      ≡ (w + l.max_block_size * l.num_writer_threads + r) * l.read_ratio_percent / 100
  unfolding bytes_allowed_read
  allowed_read =
      let h = l.max_block_size * l.num_writer_threads in
      let room = sane.writer_room in
      let a : mul64 l.max_block_size l.num_writer_threads ≡ h =
        mul64-eq l.max_block_size l.num_writer_threads (omega arith) in
      let b : add64 w h ≡ w + h = add64-eq w h (omega arith) in
      let c : add64 (w + h) r ≡ w + h + r = add64-eq (w + h) r (omega arith) in
      let d : mul64 (w + h + r) l.read_ratio_percent ≡ (w + h + r) * l.read_ratio_percent =
        mul64-eq (w + h + r) l.read_ratio_percent
          (share_word (w + h + r) l.read_ratio_percent sane.percent (omega arith)) in
      rw (a, b, c, d) refl

  allowed_write :
      bytes_allowed_write l r w
      ≡ (r + l.max_block_size * l.num_reader_threads + w) * (100 - l.read_ratio_percent) / 100
  unfolding bytes_allowed_write
  allowed_write =
      let h = l.max_block_size * l.num_reader_threads in
      let room = sane.reader_room in
      let percent = sane.percent in
      let a : mul64 l.max_block_size l.num_reader_threads ≡ h =
        mul64-eq l.max_block_size l.num_reader_threads (omega arith) in
      let b : add64 r h ≡ r + h = add64-eq r h (omega arith) in
      let c : add64 (r + h) w ≡ r + h + w = add64-eq (r + h) w (omega arith) in
      let e : sub64 100 l.read_ratio_percent ≡ 100 - l.read_ratio_percent =
        sub64-eq 100 l.read_ratio_percent percent (omega arith) in
      let d : mul64 (r + h + w) (100 - l.read_ratio_percent)
          ≡ (r + h + w) * (100 - l.read_ratio_percent) =
        mul64-eq (r + h + w) (100 - l.read_ratio_percent)
          (share_word (r + h + w) (100 - l.read_ratio_percent) (omega arith) (omega arith)) in
      rw (a, b, c, e, d) refl

-- A share and the rest.
two_shares : (n p : ℕ) → p ≤ 100 → n * p + n * (100 - p) ≡ n * 100
two_shares n p h =
    let e : 100 ≡ p + (100 - p) = omega arith in
    subst (λ x. n * p + n * (100 - p) ≡ n * x) (sym e) (omega arith)

both_wait :
    (r w hw hr p : ℕ)
    → p ≤ 100
    → (w + hw + r) * p / 100 < r
    → ¬ ((r + hr + w) * (100 - p) / 100 < w)
both_wait r w hw hr p h a b =
    let s = two_shares (w + r) p h in
    let c : (w + r) * p ≤ (w + hw + r) * p = mul-le-mul_right p (omega arith) in
    let d : (w + r) * (100 - p) ≤ (r + hr + w) * (100 - p) =
      mul-le-mul_right (100 - p) (omega arith) in
    omega (arith, s, c, d)

-- In no state of the counters do the readers and the writers wait for each other: at least one of the
-- two checks passes. The ratio is at most 100 percent, both counters are below 2^56 and the head
-- room below 2^55, so that nothing overflows.
pub may_read-or-may_write :
    (l : Limiter) (r w : ℕ)
    → IsSane l
    → r < 2 ^ 56
    → w < 2 ^ 56
    → (may_read l r w ≡ true) ⊎ (may_write l r w ≡ true)
unfolding may_read may_write
may_read-or-may_write l r w sane rs ws = elim (Bool-cases (leb r (bytes_allowed_read l r w))) [
  | inl reads ↦ inl reads
  | inr no_read ↦ elim (Bool-cases (leb w (bytes_allowed_write l r w))) [
    | inl writes ↦ inr writes
    | inr no_write ↦
        (let a : (w + l.max_block_size * l.num_writer_threads + r) * l.read_ratio_percent / 100
              < r =
            subst (λ x. x < r) (allowed_read l sane r w rs ws)
              (leb→gt r (bytes_allowed_read l r w) no_read) in
          let b : (r + l.max_block_size * l.num_reader_threads + w)
                * (100 - l.read_ratio_percent)
                / 100
              < w =
            subst (λ x. x < w) (allowed_write l sane r w rs ws)
              (leb→gt w (bytes_allowed_write l r w) no_write) in
          absurd (
            both_wait r w (l.max_block_size * l.num_writer_threads)
              (l.max_block_size * l.num_reader_threads) l.read_ratio_percent sane.percent a b))
  ]
]

-- One side of the balance: `r` bytes and `passed` threads of `n` with blocks of at most `b`, beside
-- `w` bytes with head room `h`, for a share of `p` percent and a rest of `q`. It is `ahead` bytes more
-- where the other side's counter was cleared.
record Bound (p q r passed n b w h ahead : ℕ) : Type 0 where
  threads : passed ≤ n
  bytes : q * (r + passed * b) ≤ (w + h) * p + q * (n * b + ahead)

Bound-pass :
    (p q r passed n b w h ahead : ℕ)
    → p + q ≡ 100
    → r ≤ (w + h + r) * p / 100
    → passed < n
    → Bound p q r passed n b w h ahead
    → Bound p q r (suc passed) n b w h ahead
Bound-pass p q r passed n b w h ahead e le lt old = record {
  threads = lt;
  bytes =
      let a : r * (p + q) ≡ r * 100 = ap (λ x. r * x) e in
      let c : r * 100 ≤ (w + h + r) * p = omega arith in
      let d : suc passed * b ≤ n * b = mul-le-mul_right b lt in
      let f : q * (suc passed * b) ≤ q * (n * b) = mul-le-mul_left q d in omega (arith, a, c, f);
}

Bound-add :
    (p q r passed n b w h ahead s : ℕ)
    → s ≤ b
    → 0 < passed
    → Bound p q r passed n b w h ahead
    → Bound p q (r + s) (passed - 1) n b w h ahead
Bound-add p q r passed n b w h ahead s small pos old = record {
  threads = omega (arith, old.threads);
  bytes =
      let e : passed ≡ suc (passed - 1) = omega arith in
      let a : passed * b ≡ (passed - 1) * b + b =
        subst (λ x. x * b ≡ (passed - 1) * b + b) (sym e) (omega arith) in
      let c : q * (r + s + (passed - 1) * b) ≤ q * (r + passed * b) =
        mul-le-mul_left q (omega (arith, a)) in
      omega (arith, c, old.bytes);
}

Bound-other :
    (p q r passed n b w h ahead s : ℕ)
    → Bound p q r passed n b w h ahead
    → Bound p q r passed n b (w + s) h ahead
Bound-other p q r passed n b w h ahead s old = record {
  threads = old.threads;
  bytes =
      let a : (w + h) * p ≤ (w + s + h) * p = mul-le-mul_right p (omega arith) in
      omega (arith, a, old.bytes);
}

abbrev ReadBound : Limiter → Counters → Type 0
ReadBound l c =
    Bound l.read_ratio_percent (100 - l.read_ratio_percent) c.num_bytes_read c.readers_passed
      l.num_reader_threads l.max_block_size c.num_bytes_write
      (l.max_block_size * l.num_writer_threads) c.read_ahead

abbrev WriteBound : Limiter → Counters → Type 0
WriteBound l c =
    Bound (100 - l.read_ratio_percent) l.read_ratio_percent c.num_bytes_write c.writers_passed
      l.num_writer_threads l.max_block_size c.num_bytes_read
      (l.max_block_size * l.num_reader_threads) c.write_ahead

Bound-clear :
    (p q r passed n b w h ahead : ℕ) → r ≤ ahead → passed ≤ n → Bound p q r passed n b w h ahead
Bound-clear p q r passed n b w h ahead low some = record {
  threads = some;
  bytes =
      let a : passed * b ≤ n * b = mul-le-mul_right b some in
      let c : q * (r + passed * b) ≤ q * (n * b + ahead) = mul-le-mul_left q (omega (arith, a)) in
      omega (arith, c);
}

block_word : (b n : ℕ) → 0 < n → b * n < 2 ^ 55 → b < 2 ^ 55
block_word b n h k = let a : b * 1 ≤ b * n = mul-le-mul_left b h in omega arith

module _ (l : Limiter) (sane : IsSane l) where
  Step-Bound :
      {c d : Counters}
      → Step l c d
      → IsSmall c
      → ReadBound l c × WriteBound l c
      → ReadBound l d × WriteBound l d
  unfolding may_read may_write
  Step-Bound {c} (pass_read m lt) (rs, ws) (r, w) =
      let percent = sane.percent in
      let le =
        subst (λ x. c.num_bytes_read ≤ x)
          (allowed_read l sane c.num_bytes_read c.num_bytes_write rs ws)
          (leb→le c.num_bytes_read (bytes_allowed_read l c.num_bytes_read c.num_bytes_write) m) in
      (
        Bound-pass _ _ c.num_bytes_read c.readers_passed _ _ c.num_bytes_write _ _ (omega arith) le
            lt r,
        w,
      )
  Step-Bound {c} (pass_write m lt) (rs, ws) (r, w) =
      let percent = sane.percent in
      let le =
        subst (λ x. c.num_bytes_write ≤ x)
          (allowed_write l sane c.num_bytes_read c.num_bytes_write rs ws)
          (leb→le c.num_bytes_write (bytes_allowed_write l c.num_bytes_read c.num_bytes_write) m) in
      (
        r,
        Bound-pass _ _ c.num_bytes_write c.writers_passed _ _ c.num_bytes_read _ _ (omega arith) le
            lt w,
      )
  Step-Bound {c} (add_read s small pos) (rs, ws) (r, w) =
      let room =
        block_word l.max_block_size l.num_reader_threads (omega (arith, r.threads))
          sane.reader_room in
      let e = add64-eq c.num_bytes_read s (omega arith) in
      subst
        (λ x.
          ReadBound l (record c { num_bytes_read = x; readers_passed = c.readers_passed - 1 })
          × WriteBound l (record c { num_bytes_read = x; readers_passed = c.readers_passed - 1 }))
        (sym e)
        (
          Bound-add _ _ c.num_bytes_read c.readers_passed _ _ c.num_bytes_write _ _ s small pos r,
          Bound-other _ _ c.num_bytes_write c.writers_passed _ _ c.num_bytes_read _ _ s w,
        )
  Step-Bound {c} (add_write s small pos) (rs, ws) (r, w) =
      let room =
        block_word l.max_block_size l.num_writer_threads (omega (arith, w.threads))
          sane.writer_room in
      let e = add64-eq c.num_bytes_write s (omega arith) in
      subst
        (λ x.
          ReadBound l (record c { num_bytes_write = x; writers_passed = c.writers_passed - 1 })
          × WriteBound l (record c { num_bytes_write = x; writers_passed = c.writers_passed - 1 }))
        (sym e)
        (
          Bound-other _ _ c.num_bytes_read c.readers_passed _ _ c.num_bytes_write _ _ s r,
          Bound-add _ _ c.num_bytes_write c.writers_passed _ _ c.num_bytes_read _ _ s small pos w,
        )
  Step-Bound {c} (clear_read readers writers more some more' some') (rs, ws) (r, w) = (
    Bound-clear _ _ 0 readers _ _ c.num_bytes_write _ 0 (omega arith) some,
    Bound-clear _ _ c.num_bytes_write writers _ _ 0 _ c.num_bytes_write (omega arith) some',
  )
  Step-Bound {c} (clear_write readers writers more some more' some') (rs, ws) (r, w) = (
    Bound-clear _ _ c.num_bytes_read readers _ _ 0 _ c.num_bytes_read (omega arith) some,
    Bound-clear _ _ 0 writers _ _ c.num_bytes_read _ 0 (omega arith) some',
  )

  Reach-Bound : {c : Counters} → Reach l c → IsSmall c × ReadBound l c × WriteBound l c
  Reach-Bound start = (
    (omega arith, omega arith),
    record { threads = omega arith; bytes = omega arith },
    record { threads = omega arith; bytes = omega arith },
  )
  Reach-Bound (later r st small) =
      let (old, a, b) = Reach-Bound r in let (a', b') = Step-Bound st old (a, b) in (small, a', b')

-- In every state that the readers and writers reach, in any order of their checks, their additions and
-- their resets of the counters: the bytes read are at most the readers' share of what was written with
-- the head room, one block more for each reader, and what the readers were ahead when the writers'
-- counter was last cleared alone; and the same for the writers. Shares are percentages, so the bounds
-- stand multiplied by the other side's. The ratio is at most 100 percent and nothing overflows.
pub Reach-IsBalanced :
    (l : Limiter) (c : Counters)
    → IsSane l
    → Reach l c
    → let p = l.read_ratio_percent in
      let q = 100 - l.read_ratio_percent in
      (q * c.num_bytes_read
        ≤ (c.num_bytes_write + l.max_block_size * l.num_writer_threads) * p
          + q * (l.num_reader_threads * l.max_block_size + c.read_ahead))
      × (p * c.num_bytes_write
          ≤ (c.num_bytes_read + l.max_block_size * l.num_reader_threads) * q
            + p * (l.num_writer_threads * l.max_block_size + c.write_ahead))
Reach-IsBalanced l c sane h =
    let (_, r, w) = Reach-Bound l sane h in
    let p = l.read_ratio_percent in
    let q = 100 - l.read_ratio_percent in
    let a : q * c.num_bytes_read ≤ q * (c.num_bytes_read + c.readers_passed * l.max_block_size) =
      mul-le-mul_left q (omega arith) in
    let b : p * c.num_bytes_write ≤ p * (c.num_bytes_write + c.writers_passed * l.max_block_size) =
      mul-le-mul_left p (omega arith) in
    (omega (arith, a, r.bytes), omega (arith, b, w.bytes))
