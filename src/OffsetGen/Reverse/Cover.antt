-- ===== src/OffsetGen/Reverse/Cover.antt =====
-- The reverse sequential generator covers its range from the end to the start.
use elbencho.Prelude.{
  ℕ, zero, suc, ◌+◌, ◌-◌, ◌*◌, ◌/◌, ◌%◌, ◌≤◌, ◌<◌, ◌≡◌, refl, min, add64, add64-eq, sub64, sub64-eq,
  u64_mod, ok, some, arith, List, [], ◌∷◌, inl, inr, subst, ap, ◌∙◌, zero_or_pos,
}
use native.Mathlib.Nat.{div-add-mod', mod-lt}
use elbencho.OffsetGen.{Trace, prepend, rw_block_sized, complete_io}
use elbencho.OffsetGen.Loop.{rw_block_sized-done, rw_block_sized-round}
use elbencho.OffsetGen.Reverse.{Reverse, make, generator}

-- The transfers cover a range from its end to its start, each byte once.
abbrev pub TilesDown : ℕ → ℕ → List (ℕ × ℕ) → Type 0
TilesDown from to [] = from ≡ to
TilesDown from to ((offset, n) ∷ rest) = (offset + n ≡ to) × (0 < n) × TilesDown from offset rest

abbrev CoversDown : ℕ → ℕ → ℕ → Trace → Type 0
CoversDown from to total t = TilesDown from to t.ios × (t.ending ≡ ok (some total))

-- Before the block of number `q`: its offset, and what is left up to its end.
record At (s : Reverse) (q size : ℕ) : Type 0 where
  offset : s.current_offset ≡ s.start_offset + q * s.block_size
  fits : s.start_offset + s.num_bytes_total < u64_mod
  pos : 0 < size
  inside : s.current_offset + size ≤ s.start_offset + s.num_bytes_total
  size_eq : min (s.start_offset + s.num_bytes_total - s.current_offset) s.block_size ≡ size
  left : s.num_bytes_left ≡ q * s.block_size + size

module _ (s : Reverse) (q size : ℕ) (a : At s q size) where
  round-At :
      (fuel : ℕ)
      → rw_block_sized generator complete_io (suc fuel) s
        ≡ prepend
            (s.current_offset, size)
            (rw_block_sized generator complete_io fuel (generator.add_bytes_submitted size s))
  unfolding generator
  round-At fuel =
      rw_block_sized-round generator complete_io fuel s s s s.current_offset size size
        (omega (arith, a.left, a.pos)) refl size_is refl a.pos
    where
      end : add64 s.start_offset s.num_bytes_total ≡ s.start_offset + s.num_bytes_total
      end = add64-eq _ _ a.fits

      room :
          sub64 (add64 s.start_offset s.num_bytes_total) s.current_offset
          ≡ s.start_offset + s.num_bytes_total - s.current_offset
      room = rw end (sub64-eq _ _ (omega (arith, a.inside)) a.fits)

      size_is : generator.get_next_block_size_to_submit s ≡ ok (size, s)
      size_is = ap (λ n. ok (n, s)) (ap (λ r. min r s.block_size) room ∙ a.size_eq)

  left_after : sub64 s.num_bytes_left size ≡ q * s.block_size
  left_after =
      omega (arith, a, sub64-eq s.num_bytes_left size (omega (arith, a)) (omega (arith, a)))

loop-CoversDown :
    (fuel q size : ℕ) (s : Reverse)
    → At s q size
    → q < fuel
    → CoversDown s.start_offset
        (s.current_offset + size)
        s.num_bytes_total
        (rw_block_sized generator complete_io fuel s)
unfolding generator make
loop-CoversDown zero q size s a f = elim f [ ]
loop-CoversDown (suc fuel) zero size s a f = rw (round-At s zero size a fuel) (
    rw
      (rw_block_sized-done generator complete_io fuel (generator.add_bytes_submitted size s)
        (omega (arith, left_after s zero size a)))
      ((refl, a.pos, omega (arith, a.offset)), refl))
loop-CoversDown (suc fuel) (suc q) size s a f =
    let s' : Reverse = generator.add_bytes_submitted size s in
    let bs = s.block_size in
    let cur : sub64 s.current_offset bs ≡ s.start_offset + q * bs =
      omega (arith, a, sub64-eq s.current_offset bs (omega (arith, a)) (omega (arith, a))) in
    let at : At s' q bs = record {
      offset = cur;
      fits = a.fits;
      pos = omega (arith, a);
      inside = omega (arith, cur, a);
      size_eq = omega (arith, cur, a);
      left = omega (arith, left_after s (suc q) size a);
    } in
    let rest : Trace = rw_block_sized generator complete_io fuel s' in
    let ih = loop-CoversDown fuel q bs s' at (omega arith) in
    let joined : sub64 s.current_offset bs + bs ≡ s.current_offset = omega (arith, cur, a.offset) in
    rw (round-At s (suc q) size a fuel)
      ((refl, a.pos, subst (λ e. TilesDown s.start_offset e rest.ios) joined ih.0), ih.1)

abbrev state : ℕ → ℕ → ℕ → ℕ → Reverse
state len offset bs current = record {
  num_bytes_total = len;
  num_bytes_left = len;
  start_offset = offset;
  current_offset = current;
  block_size = bs;
}

-- The number of full blocks before the last one, where the block size divides the length.
before_last :
    (k len bs : ℕ) → 0 < len → k * bs + 0 ≡ len → (q : ℕ) × (len ≡ q * bs + bs) × (suc q ≡ k)
before_last zero len bs h e = absurd (omega arith)
before_last (suc q) len bs h e = (q, omega arith, refl)

module _ (len offset bs : ℕ) (pos : 0 < len) (bs_pos : 0 < bs) (fits : offset + len < u64_mod) where
  state-At :
      (q size : ℕ)
      → len ≡ q * bs + size
      → 0 < size
      → size ≤ bs
      → At (state len offset bs (offset + len - size)) q size
  state-At q size e p h = record {
    offset = omega arith;
    fits = fits;
    pos = p;
    inside = omega arith;
    size_eq = omega arith;
    left = e;
  }

  -- The first block of the loop: the last one of the range, partial or full.
  make_lem :
      (q : ℕ) × (size : ℕ) × (make len offset bs ≡ ok (state len offset bs (offset + len - size)))
      × (len ≡ q * bs + size)
      × (0 < size)
      × (size ≤ bs)
      × (q ≤ len / bs)
  unfolding make
  make_lem = elim (zero_or_pos (len % bs)) [
    | inl none_over ↦
        let exact : len / bs * bs + 0 ≡ len = omega (arith, div-add-mod' len bs) in
        let (q, e, k) = before_last (len / bs) len bs pos exact in
        let bs_le : bs ≤ offset + len = omega (arith, e) in
        (
          q,
          bs,
          ground
              (arith, none_over, add64-eq offset len fits, sub64-eq (offset + len) bs bs_le fits),
          e,
          bs_pos,
          omega arith,
          omega arith,
        )
    | inr over ↦ (
      len / bs,
      len % bs,
      ground (
        arith,
        over,
        add64-eq offset len fits,
        sub64-eq (offset + len) (len % bs) (omega arith) fits,
      ),
      omega (arith, div-add-mod' len bs),
      over,
      omega (arith, mod-lt len {m = bs} bs_pos),
      omega arith,
    )
  ]

-- For every range [offset, offset + len) of words and every block size but 0, the reverse
-- sequential generator is constructed, and with I/O that is done in full its loop covers exactly
-- the range, from its end to its start, each byte once, and returns `len`. One round more than
-- there are full blocks is enough.
pub rw_block_sized-TilesDown :
    (len offset bs fuel : ℕ)
    → 0 < bs
    → offset + len < u64_mod
    → len / bs < fuel
    → (s : Reverse) × (make len offset bs ≡ ok s)
      × (let t = rw_block_sized generator complete_io fuel s in
          TilesDown offset (offset + len) t.ios × (t.ending ≡ ok (some len)))
unfolding generator make
rw_block_sized-TilesDown zero offset bs fuel h b f = (
  state 0 offset bs 0,
  refl,
  rw (rw_block_sized-done generator complete_io fuel (state 0 offset bs 0) refl)
      (omega arith, refl),
)
rw_block_sized-TilesDown (suc l) offset bs fuel h b f =
    let (q, size, made, e, p, le, few) = make_lem (suc l) offset bs (omega arith) h b in
    let s : Reverse = state (suc l) offset bs (offset + suc l - size) in
    let (tiles, end) =
      loop-CoversDown fuel q size s (state-At (suc l) offset bs (omega arith) h b q size e p le)
        (omega arith) in
    let top : offset + suc l - size + size ≡ offset + suc l = omega (arith, e) in
    let t : Trace = rw_block_sized generator complete_io fuel s in
    (s, made, (subst (λ x. TilesDown offset x t.ios) top tiles, end))
