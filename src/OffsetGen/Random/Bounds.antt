-- ===== src/OffsetGen/Random/Bounds.antt =====
-- The unaligned random generator stays within its range.
use elbencho.Prelude.{
  ℕ, ◌+◌, ◌-◌, ◌≤◌, ◌<◌, ◌≡◌, refl, min, add64-eq, sub64, sub64-eq, u64_mod, ok, Option, some,
  arith, All, inl, inr, ◌⊎◌,
}
use elbencho.Mix.{Mix}
use elbencho.Mix.Extremes.{IsValid, get_next_size-Within, get_next_size-total}
use elbencho.OffsetGen.{rw_block_sized, sum_bytes, MakesProgress}
use elbencho.OffsetGen.Range.{Range, Encloses, draw-Encloses, make_lem}
use elbencho.OffsetGen.Loop.{Round, rw_block_sized-Completes}
use elbencho.OffsetGen.Random.{Random, range_of, make, generator}

-- A transfer lies between two offsets.
abbrev pub InRange : ℕ → ℕ → ℕ × ℕ → Type 0
InRange from to io = (from ≤ io.0) × (io.0 + io.1 ≤ to)

module _ {G : Type 0} (next : G → ℕ × G) (from len : ℕ) where
  record Inv (s : Random G) : Type 0 where
    valid : IsValid s.mix
    drawable : 0 < s.mix.total_weight
    no_wrap : from + len < u64_mod
    left_fits : s.num_bytes_left < u64_mod
    encloses : Encloses from (from + len - min s.mix.max_size len) s.rand_range
    fits : (s.mix.max_size ≤ len) ⊎ (s.num_bytes_left ≤ len)

  fits_less :
      (s : Random G) (n : ℕ)
      → (s.mix.max_size ≤ len) ⊎ (s.num_bytes_left ≤ len)
      → n ≤ s.num_bytes_left
      → (s.mix.max_size ≤ len) ⊎ (n ≤ len)
  fits_less s n (inl a) h = inl a
  fits_less s n (inr b) h = inr (omega arith)

  round :
      (io : ℕ → ℕ → Option ℕ) (progress : MakesProgress io) (s : Random G)
      → Inv s
      → 0 < s.num_bytes_left
      → Round (generator next) io progress Inv (InRange from (from + len)) s
  unfolding generator
  round io progress s v pos =
      let (o, e, lo, hi) =
        draw-Encloses next from (from + len - min s.mix.max_size len) s.rand_range s.rand
          (omega arith) v.encloses in
      let g1 = (next s.rand).1 in
      let (n, g2, d) = get_next_size-total next s.mix g1 v.drawable in
      let bounds = get_next_size-Within next s.mix g1 g2 n v.valid d in
      record {
        offset = o;
        size = min s.num_bytes_left n;
        s1 = record s { rand = g1 };
        s2 = record s { rand = g2 };
        offset_eq = rw e;
        size_eq = rw d;
        size_pos = omega arith;
        after = λ k kpos kle.
            let left : sub64 s.num_bytes_left k ≡ s.num_bytes_left - k =
              sub64-eq _ _ (omega arith) v.left_fits in
            record {
              did = omega (arith, v.fits);
              kept = record {
                valid = v.valid;
                drawable = v.drawable;
                no_wrap = v.no_wrap;
                left_fits = omega (arith, left);
                encloses = v.encloses;
                fits = fits_less s (sub64 s.num_bytes_left k) v.fits (omega (arith, left));
              };
              counted = omega (arith, left);
              same_total = refl;
            };
      }

  range : Mix → Range
  range mix = record {
    start = from;
    length_plus_one = from + len - min mix.max_size len - from + 1;
  }

  range_of_lem :
      (mix : Mix) → from + len < u64_mod → 0 < mix.max_size → range_of len from mix ≡ ok (range mix)
  unfolding range_of range
  range_of_lem mix h p =
      rw (add64-eq from len h, sub64-eq (from + len) (min mix.max_size len) (omega arith) h)
        (make_lem from (from + len - min mix.max_size len) (omega arith))

  -- For every range [from, from + len) of words, every valid mix and every random generator: where
  -- the largest block fits the range, or no more bytes than the range holds are asked for, the
  -- unaligned random generator is constructed, and its loop transfers exactly `total` bytes and
  -- returns `total`, with every transfer inside the range. `total` rounds are enough.
  pub rw_block_sized-InRange :
      (io : ℕ → ℕ → Option ℕ)
      → MakesProgress io
      → (total fuel : ℕ) (mix : Mix) (g : G) → IsValid mix
      → 0 < mix.total_weight
      → from + len < u64_mod
      → total < u64_mod
      → (mix.max_size ≤ len) ⊎ (total ≤ len)
      → total ≤ fuel
      → (s : Random G) × (make next total len from mix g ≡ ok s)
        × (let t = rw_block_sized (generator next) io fuel s in
            All (InRange from (from + len)) t.ios
            × (sum_bytes t.ios ≡ total)
            × (t.ending ≡ ok (some total)))
  unfolding make range generator
  rw_block_sized-InRange io progress total fuel mix g v w h b fit f =
      let s : Random G = record {
        rand_range = range mix;
        num_bytes_total = total;
        num_bytes_left = total;
        mix = mix;
        rand = g;
      } in
      let inv : Inv s = record {
        valid = v;
        drawable = w;
        no_wrap = h;
        left_fits = b;
        encloses = omega arith;
        fits = fit;
      } in
      (
        s,
        rw (range_of_lem mix h (omega (arith, v.positive, v.ordered)), make),
        rw_block_sized-Completes (generator next) io progress Inv (InRange from (from + len))
            (round io progress) fuel s inv f,
      )
