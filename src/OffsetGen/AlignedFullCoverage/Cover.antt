-- ===== src/OffsetGen/AlignedFullCoverage/Cover.antt =====
-- A pass of the full coverage generator visits each block once.
use native.Mathlib.Nat.{mul-div_cancel}
use elbencho.Prelude.{
  ℕ, zero, suc, ◌+◌, ◌-◌, ◌*◌, ◌≤◌, ◌<◌, ◌≡◌, ◌^◌, refl, min, ◌==◌, add64-eq, mul64, mul64-eq,
  sub64, sub64-eq, u64_mod, ok, >>=-eq-ok, ok-injective, some, arith, List, [], ◌∷◌, map, length,
  ap, sym, ◌∙◌, subst, Bool-cases, inl, inr, false,
}
use elbencho.Pigeonhole.{count}
use elbencho.OffsetGen.{rw_block_sized, complete_io}
use elbencho.OffsetGen.Loop.{rw_block_sized-done, rw_block_sized-round}
use elbencho.OffsetGen.FullCoverage.{Covering, next, walk, has_next, reset}
use elbencho.OffsetGen.FullCoverage
use elbencho.OffsetGen.FullCoverage.Visits.{nexts, nexts_once, make-IsReady}
use elbencho.OffsetGen.AlignedFullCoverage.{
  AlignedFullCoverage, make, generator, calc_start_block_idx, calc_end_block_idx,
}

-- The offset of a block, from a draw.
offset_of :
    (seed fuel : ℕ) (s : AlignedFullCoverage) (v : ℕ) (g1 : Covering)
    → s.random_gen.m_lcg ≡ fuel
    → next fuel seed s.random_gen ≡ ok (v, g1)
    → (generator seed).get_next_offset s ≡ ok (mul64 v s.block_size, record s { random_gen = g1 })
unfolding generator
offset_of seed fuel s v g1 m e =
    let drawn : next s.random_gen.m_lcg seed s.random_gen ≡ ok (v, g1) =
      ap (λ n. next n seed s.random_gen) m ∙ e in
    rw drawn

-- A call of `next` leaves the modulus alone.
m_lcg-next :
    (fuel seed : ℕ) (g g' : Covering) (v : ℕ) → next fuel seed g ≡ ok (v, g') → g'.m_lcg ≡ g.m_lcg
unfolding next reset
m_lcg-next fuel seed g g' v e = elim (Bool-cases (has_next g)) [
  | inl more ↦
      let (y, w, f) = >>=-eq-ok (walk fuel g g.current_lcg_state) _ (rw more at e) in
      sym (ap (λ r. r.1.m_lcg) (ok-injective f))
  | inr over ↦
      let (y, w, f) =
        >>=-eq-ok (walk fuel (reset seed g) (reset seed g).current_lcg_state) _ (rw over at e) in
      sym (ap (λ r. r.1.m_lcg) (ok-injective f))
]

abbrev block_io : ℕ → ℕ → ℕ × ℕ
block_io bs v = (mul64 v bs, bs)

loop-nexts :
    (fuel j k seed : ℕ) (s : AlignedFullCoverage) (vs : List ℕ) (g' : Covering)
    → 0 < s.block_size
    → s.num_bytes_left ≡ j * s.block_size
    → s.num_bytes_left < u64_mod
    → s.random_gen.m_lcg ≡ 2 ^ k
    → nexts k j (2 ^ k) seed s.random_gen ≡ ok (vs, g')
    → j ≤ fuel
    → let t = rw_block_sized (generator seed) complete_io fuel s in
      (t.ios ≡ map (block_io s.block_size) vs) × (t.ending ≡ ok (some s.num_bytes_total))
unfolding generator nexts
loop-nexts fuel zero k seed s vs g' p l b m e f =
    let none_left : [] ≡ vs = ap (λ r. r.0) (ok-injective e) in
    rw (rw_block_sized-done (generator seed) complete_io fuel s (omega arith))
      (ap (map (block_io s.block_size)) none_left, refl)
loop-nexts zero (suc j) k seed s vs g' p l b m e f = elim f [ ]
loop-nexts (suc fuel) (suc j) k seed s vs g' p l b m e f =
    let bs = s.block_size in
    let ((v, g1), first, later) = >>=-eq-ok (next (2 ^ k) seed s.random_gen) _ e in
    let ((ws, g2), rest, last) = >>=-eq-ok (nexts k j (2 ^ k) seed g1) _ later in
    let whole : v ∷ ws ≡ vs = ap (λ r. r.0) (ok-injective last) in
    let s1 : AlignedFullCoverage = record s { random_gen = g1 } in
    let offset_is : (generator seed).get_next_offset s ≡ ok (mul64 v bs, s1) =
      offset_of seed (2 ^ k) s v g1 m first in
    let min_is : min s.num_bytes_left bs ≡ bs = omega arith in
    let size_is : (generator seed).get_next_block_size_to_submit s1 ≡ ok (bs, s1) =
      ap (λ n. ok (n, s1)) min_is in
    let left : sub64 s.num_bytes_left bs ≡ j * bs =
      omega (arith, sub64-eq s.num_bytes_left bs (omega arith) b) in
    let s2 : AlignedFullCoverage = (generator seed).add_bytes_submitted bs s1 in
    let (ios, end) =
      loop-nexts fuel j k seed s2 ws g2 p left (omega (arith, left))
        (m_lcg-next (2 ^ k) seed s.random_gen g1 v first ∙ m) rest (omega arith) in
    rw
      (rw_block_sized-round (generator seed) complete_io fuel s s1 s1 (mul64 v bs) bs bs
        (omega arith) offset_is size_is refl p)
      (ap (λ r. block_io bs v ∷ r) ios ∙ ap (map (block_io bs)) whole, end)

scaled_mono : (c a b : ℕ) → a ≤ b → c * a ≤ c * b
scaled_mono c a b h = grind arith

below_product : (a b c : ℕ) → a ≤ b → b * c < u64_mod → a * c < u64_mod
below_product a b c h k = grind arith

-- The two range bounds of the constructor, for a range of `n` full blocks that starts at block `i`.
start_block : (i bs : ℕ) → 0 < bs → calc_start_block_idx (i * bs) bs ≡ i
unfolding calc_start_block_idx
start_block i bs p =
    let nonzero : (bs == 0) ≡ false = ground arith in rw nonzero (mul-div_cancel i p)

end_block :
    (i n bs : ℕ)
    → 0 < bs
    → 0 < n
    → i + n ≤ u64_mod
    → calc_end_block_idx (i * bs) (n * bs) bs ≡ i + (n - 1)
unfolding calc_end_block_idx
end_block i n bs p q h =
    let nonzero : (bs == 0) ≡ false = ground arith in
    let some_blocks : (n == 0) ≡ false = ground arith in
    rw (start_block i bs p, nonzero, mul-div_cancel n p)
      (rw some_blocks (add64-eq i (n - 1) (omega arith)))

make-ok :
    (seed total len offset bs lo hi : ℕ) (g : Covering)
    → calc_start_block_idx offset bs ≡ lo
    → calc_end_block_idx offset len bs ≡ hi
    → FullCoverage.make seed lo hi ≡ ok g
    → make seed total len offset bs
      ≡ ok (record {
        num_bytes_total = total;
        num_bytes_left = total;
        range_len = len;
        block_size = bs;
        random_gen = g;
      })
unfolding make
make-ok seed total len offset bs lo hi g a b c = rw (a, b, c)

-- A write pass over a range of `n` full blocks of `bs` bytes, from block `i` on, that asks for as
-- many bytes as the range holds: for every two seeds the full coverage generator is constructed,
-- and with I/O that is done in full its loop transfers `n` blocks and returns their bytes. Each
-- block of the range is transferred exactly once. `n` rounds are enough, and as many as the
-- modulus for each draw.
pub rw_block_sized-once :
    (seed seed' i n bs fuel : ℕ)
    → 0 < bs
    → 0 < n
    → n ≤ 2 ^ 63
    → (i + n) * bs < u64_mod
    → n ≤ fuel
    → (s : AlignedFullCoverage) × (blocks : List ℕ) × (make seed (n * bs) (n * bs) (i * bs) bs
        ≡ ok s)
      × (let t = rw_block_sized (generator seed') complete_io fuel s in
          (t.ios ≡ map (λ v. (mul64 v bs, bs)) blocks) × (t.ending ≡ ok (some (n * bs))))
      × (length blocks ≡ n)
      × ((j : ℕ) → j < n → (count (i + j) blocks ≡ 1) × (mul64 (i + j) bs ≡ (i + j) * bs))
rw_block_sized-once seed seed' i n bs fuel p q few fits f =
    let wide : (i + n) * 1 ≤ (i + n) * bs = scaled_mono (i + n) 1 bs p in
    let last : calc_end_block_idx (i * bs) (n * bs) bs ≡ i + (n - 1) =
      end_block i n bs p q (omega arith) in
    let (k, g, made, ready, fresh, low, size) =
      make-IsReady seed i (i + (n - 1)) (omega arith) (omega arith) (omega arith) in
    let count_is : g.range_size ≡ n = omega (arith, size) in
    let (vs, g', drawn, len, once_each) = nexts_once k seed' g ready fresh in
    let s : AlignedFullCoverage = record {
      num_bytes_total = n * bs;
      num_bytes_left = n * bs;
      range_len = n * bs;
      block_size = bs;
      random_gen = g;
    } in
    let short : n * bs < u64_mod = omega arith in
    (
      s,
      vs,
      make-ok seed (n * bs) (n * bs) (i * bs) bs i (i + (n - 1)) g (start_block i bs p) last made,
      loop-nexts fuel n k seed' s vs g' p refl short ready.m_eq
          (subst (λ c. nexts k c (2 ^ k) seed' g ≡ ok (vs, g')) count_is drawn) f,
      len ∙ count_is,
      λ j lt. (
        subst (λ b. count (b + j) vs ≡ 1) low (once_each j (omega (arith, count_is))),
        mul64-eq (i + j) bs (below_product (i + j) (i + n) bs (omega arith) fits),
      ),
    )
