-- ===== src/OffsetGen/Aligned/Bounds.antt =====
-- The aligned random generator stays within its range and on its grid.
use elbencho.Prelude.{
  ℕ, ◌+◌, ◌-◌, ◌≤◌, ◌<◌, ◌≡◌, refl, min, add64, add64-eq, sub64, sub64-eq, u64_mod, ok, Option,
  some, arith, All, inl, inr, ◌⊎◌, List, [], ◌∷◌, ◌*◌, ◌/◌, ◌%◌, ltb, Bool-cases, zero_or_pos,
  mul64, mul64-eq,
}
use elbencho.Mix.{Mix}
use elbencho.Mix.Extremes.{IsValid, get_next_size-Within, get_next_size-total}
use elbencho.OffsetGen.{rw_block_sized, sum_bytes, MakesProgress}
use elbencho.OffsetGen.Range.{Range, Encloses, draw-Encloses, make_lem}
use elbencho.OffsetGen.Loop.{Round, rw_block_sized-Completes}
use elbencho.OffsetGen.Random.Bounds.{InRange}
use elbencho.OffsetGen.Aligned.{Aligned, range_of, make, generator}
use native.Mathlib.Nat.{div-le_self, div-mul-le_self, mul-mod_left}

-- A transfer starts on a grid that itself starts at `from`.
abbrev pub OnGrid : ℕ → ℕ → ℕ × ℕ → Type 0
OnGrid from grid io = (io.0 - from) % grid ≡ 0

abbrev pub InRangeOnGrid : ℕ → ℕ → ℕ → ℕ × ℕ → Type 0
InRangeOnGrid from to grid io = InRange from to io × OnGrid from grid io

-- It lies in the range and on the grid, and has at least a byte and at most `largest`.
abbrev pub IsBlockOnGrid : ℕ → ℕ → ℕ → ℕ → ℕ × ℕ → Type 0
IsBlockOnGrid from to grid largest io =
    InRangeOnGrid from to grid io × (0 < io.1) × (io.1 ≤ largest)

All-InRangeOnGrid :
    (from to grid largest : ℕ) (ios : List (ℕ × ℕ))
    → All (IsBlockOnGrid from to grid largest) ios
    → All (InRangeOnGrid from to grid) ios
All-InRangeOnGrid from to grid largest [] h = tt
All-InRangeOnGrid from to grid largest (io ∷ ios) h =
    (h.0.0, All-InRangeOnGrid from to grid largest ios h.1)

abbrev grid_steps : ℕ → Mix → ℕ
grid_steps len mix = (len - min mix.max_size len) / min mix.min_size len

scaled_le : (i n g r : ℕ) → i ≤ n → n * g ≤ r → i * g ≤ r
scaled_le i n g r h k = grind arith

grid_steps_le : (len : ℕ) (mix : Mix) → grid_steps len mix ≤ len - min mix.max_size len
grid_steps_le len mix = div-le_self _ _

grid_multiple : (from i grid : ℕ) → (from + i * grid - from) % grid ≡ 0
grid_multiple from i grid =
    let e : from + i * grid - from ≡ i * grid = omega arith in rw e (mul-mod_left i grid)

-- The last grid step leaves room for the largest block.
grid_steps_room :
    (len : ℕ) (mix : Mix)
    → 0 < mix.min_size
    → mix.min_size ≤ mix.max_size
    → grid_steps len mix * mix.min_size ≤ len - min mix.max_size len
grid_steps_room len mix p o = elim (Bool-cases (ltb len mix.min_size)) [
  | inl small ↦
      scaled_le (grid_steps len mix) 0 mix.min_size _ (ground (arith, grid_steps_le len mix))
        (omega arith)
  | inr large ↦
      let e : min mix.min_size len ≡ mix.min_size = ground arith in rw e (div-mul-le_self _ _)
]

module _ {G : Type 0} (next : G → ℕ × G) (from len grid largest : ℕ) where
  record Inv (s : Aligned G) : Type 0 where
    valid : IsValid s.mix
    no_larger : s.mix.max_size ≤ largest
    drawable : 0 < s.mix.total_weight
    no_wrap : from + len < u64_mod
    left_fits : s.num_bytes_left < u64_mod
    starts : s.offset ≡ from
    on_grid : s.align_grid ≡ grid
    steps : ℕ
    steps_fit : steps < u64_mod
    encloses : Encloses 0 steps s.rand_range
    room : steps * grid ≤ len - min s.mix.max_size len
    fits : (s.mix.max_size ≤ len) ⊎ (s.num_bytes_left ≤ len)

  fits_less :
      (s : Aligned G) (n : ℕ)
      → (s.mix.max_size ≤ len) ⊎ (s.num_bytes_left ≤ len)
      → n ≤ s.num_bytes_left
      → (s.mix.max_size ≤ len) ⊎ (n ≤ len)
  fits_less s n (inl a) h = inl a
  fits_less s n (inr b) h = inr (omega arith)

  round :
      (io : ℕ → ℕ → Option ℕ) (progress : MakesProgress io) (s : Aligned G)
      → Inv s
      → 0 < s.num_bytes_left
      → Round (generator next) io progress Inv (IsBlockOnGrid from (from + len) grid largest) s
  unfolding generator
  round io progress s v pos =
      let (o, e, lo, hi) =
        draw-Encloses next 0 v.steps s.rand_range s.rand v.steps_fit v.encloses in
      let within : o * grid ≤ len - min s.mix.max_size len = scaled_le o v.steps grid _ hi v.room in
      let scaled : mul64 o grid ≡ o * grid = mul64-eq _ _ (omega arith) in
      let at : add64 from (o * grid) ≡ from + o * grid = add64-eq _ _ (omega arith) in
      let g1 = (next s.rand).1 in
      let (n, g2, d) = get_next_size-total next s.mix g1 v.drawable in
      let bounds = get_next_size-Within next s.mix g1 g2 n v.valid d in
      record {
        offset = from + o * grid;
        size = min s.num_bytes_left n;
        s1 = record s { rand = g1 };
        s2 = record s { rand = g2 };
        offset_eq = ground (arith, e, v.starts, v.on_grid, scaled, at);
        size_eq = rw d;
        size_pos = omega arith;
        after = λ k kpos kle.
            let left : sub64 s.num_bytes_left k ≡ s.num_bytes_left - k =
              sub64-eq _ _ (omega arith) v.left_fits in
            record {
              did = (
                (omega (arith, v.fits), grid_multiple from o grid),
                kpos,
                omega (arith, v.no_larger),
              );
              kept = record {
                valid = v.valid;
                no_larger = v.no_larger;
                drawable = v.drawable;
                no_wrap = v.no_wrap;
                left_fits = omega (arith, left);
                starts = v.starts;
                on_grid = v.on_grid;
                steps = v.steps;
                steps_fit = v.steps_fit;
                encloses = v.encloses;
                room = v.room;
                fits = fits_less s (sub64 s.num_bytes_left k) v.fits (omega (arith, left));
              };
              counted = omega (arith, left);
              same_total = refl;
            };
      }

  range : Mix → Range
  range mix = record { start = 0; length_plus_one = grid_steps len mix + 1 }

  range_of_lem :
      (mix : Mix)
      → len < u64_mod
      → 0 < mix.min_size
      → mix.min_size ≤ mix.max_size
      → range_of len mix ≡ ok (range mix)
  unfolding range_of range
  range_of_lem mix h p o = elim (zero_or_pos (min mix.min_size len)) [
    | inl e ↦
        let z : grid_steps len mix ≡ 0 = omega (arith, grid_steps_le len mix) in
        ground (arith, make_lem 0 0 (omega arith), z)
    | inr pos ↦ ground (
      arith,
      sub64-eq len (min mix.max_size len) (omega arith) h,
      make_lem 0 (grid_steps len mix) (omega (arith, grid_steps_le len mix)),
    )
  ]

  -- The aligned random generator completes, with every transfer in the range and on the grid and no
  -- larger than the largest block.
  pub rw_block_sized-IsBlockOnGrid :
      (io : ℕ → ℕ → Option ℕ)
      → MakesProgress io
      → (total fuel : ℕ) (mix : Mix) (g : G) → mix.min_size ≡ grid
      → IsValid mix
      → mix.max_size ≤ largest
      → 0 < mix.total_weight
      → from + len < u64_mod
      → total < u64_mod
      → (mix.max_size ≤ len) ⊎ (total ≤ len)
      → total ≤ fuel
      → (s : Aligned G) × (make next total len from mix g ≡ ok s)
        × (let t = rw_block_sized (generator next) io fuel s in
            All (IsBlockOnGrid from (from + len) grid largest) t.ios
            × (sum_bytes t.ios ≡ total)
            × (t.ending ≡ ok (some total)))
  unfolding make range generator
  rw_block_sized-IsBlockOnGrid io progress total fuel mix g grid_eq v no_larger w h b fit f =
      let s : Aligned G = record {
        rand_range = range mix;
        num_bytes_total = total;
        num_bytes_left = total;
        offset = from;
        mix = mix;
        align_grid = mix.min_size;
        rand = g;
      } in
      let inv : Inv s = record {
        valid = v;
        no_larger = no_larger;
        drawable = w;
        no_wrap = h;
        left_fits = b;
        starts = refl;
        on_grid = grid_eq;
        steps = grid_steps len mix;
        steps_fit = omega (arith, grid_steps_le len mix);
        encloses = omega arith;
        room = rw (← grid_eq) (grid_steps_room len mix v.positive v.ordered);
        fits = fit;
      } in
      (
        s,
        rw (range_of_lem mix (omega arith) v.positive v.ordered, make),
        rw_block_sized-Completes (generator next) io progress Inv
            (IsBlockOnGrid from (from + len) grid largest) (round io progress) fuel s inv f,
      )

module _ {G : Type 0} (next : G → ℕ × G) (from len grid : ℕ) where
  -- For every range [from, from + len) of words, every valid mix and every random generator: where
  -- the largest block fits the range, or no more bytes than the range holds are asked for, the
  -- aligned random generator is constructed, and its loop transfers exactly `total` bytes and
  -- returns `total`, with every transfer inside the range and at a multiple of the smallest block
  -- size from its start. `total` rounds are enough.
  pub rw_block_sized-InRangeOnGrid :
      (io : ℕ → ℕ → Option ℕ)
      → MakesProgress io
      → (total fuel : ℕ) (mix : Mix) (g : G) → mix.min_size ≡ grid
      → IsValid mix
      → 0 < mix.total_weight
      → from + len < u64_mod
      → total < u64_mod
      → (mix.max_size ≤ len) ⊎ (total ≤ len)
      → total ≤ fuel
      → (s : Aligned G) × (make next total len from mix g ≡ ok s)
        × (let t = rw_block_sized (generator next) io fuel s in
            All (InRangeOnGrid from (from + len) grid) t.ios
            × (sum_bytes t.ios ≡ total)
            × (t.ending ≡ ok (some total)))
  rw_block_sized-InRangeOnGrid io progress total fuel mix g grid_eq v w h b fit f =
      let (s, made, (blocks, sum, end)) =
        rw_block_sized-IsBlockOnGrid next from len grid mix.max_size io progress total fuel mix g
          grid_eq v (omega arith) w h b fit f in
      (
        s,
        made,
        (
          All-InRangeOnGrid from (from + len) grid mix.max_size
              (rw_block_sized (generator next) io fuel s).ios blocks,
          sum,
          end,
        ),
      )
