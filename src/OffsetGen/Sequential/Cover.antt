-- ===== src/OffsetGen/Sequential/Cover.antt =====
-- The sequential generator covers its range, whatever the mix draws.
use elbencho.Prelude.{
  ℕ, zero, suc, ◌+◌, ◌-◌, ◌≤◌, ◌<◌, ◌≡◌, refl, min, add64, add64-eq, sub64, sub64-eq, u64_mod, ok,
  Option, some, arith, inl, inr, subst, zero_or_pos,
}
use elbencho.Mix.{Mix, get_next_size}
use elbencho.Mix.Extremes.{IsValid, get_next_size-Within, get_next_size-total}
use elbencho.OffsetGen.{Trace, rw_block_sized, Tiles, MakesProgress}
use elbencho.OffsetGen.Loop.{rw_block_sized-done, rw_block_sized-round}
use elbencho.OffsetGen.Sequential.{Sequential, make, generator}

module _ {G : Type 0} (next : G → ℕ × G) (io : ℕ → ℕ → Option ℕ) (progress : MakesProgress io) where
  abbrev Covers : ℕ → ℕ → ℕ → Trace → Type 0
  Covers from to total t = Tiles from to t.ios × (t.ending ≡ ok (some total))

  drawn :
      (s : Sequential G) (n : ℕ) (g' : G)
      → get_next_size next s.mix s.rand ≡ ok (n, g')
      → (generator next).get_next_block_size_to_submit s
        ≡ ok (min s.num_bytes_left n, record s { rand = g' })
  unfolding generator
  drawn s n g' e = rw e

  loop-Covers :
      (fuel : ℕ) (s : Sequential G) (to : ℕ)
      → IsValid s.mix
      → 0 < s.mix.total_weight
      → s.current_offset + s.num_bytes_left ≡ to
      → to < u64_mod
      → s.num_bytes_left ≤ fuel
      → Covers s.current_offset to s.num_bytes_total (rw_block_sized (generator next) io fuel s)
  unfolding generator
  loop-Covers zero s to v w h b f =
      rw (rw_block_sized-done (generator next) io zero s (omega arith)) (omega arith, refl)
  loop-Covers (suc fuel) s to v w h b f = elim (zero_or_pos s.num_bytes_left) [
    | inl e ↦ rw (rw_block_sized-done (generator next) io (suc fuel) s e) (omega arith, refl)
    | inr pos ↦
        let (n, g', draw) = get_next_size-total next s.mix s.rand w in
        let bounds = get_next_size-Within next s.mix s.rand g' n v draw in
        let size : ℕ = min s.num_bytes_left n in
        let (k, did, kpos, kle) = progress s.current_offset size (omega arith) in
        let s2 : Sequential G = record s { rand = g' } in
        let left : sub64 s.num_bytes_left k ≡ s.num_bytes_left - k =
          sub64-eq _ _ (omega arith) (omega arith) in
        let cur : add64 s.current_offset k ≡ s.current_offset + k = add64-eq _ _ (omega arith) in
        let s3 : Sequential G = (generator next).add_bytes_submitted k s2 in
        let rest : Trace = rw_block_sized (generator next) io fuel s3 in
        let ih = loop-Covers fuel s3 to v w (omega (arith, left, cur)) b (omega (arith, left)) in
        rw
          (rw_block_sized-round (generator next) io fuel s s s2 s.current_offset size k pos refl
            (drawn s n g' draw) did kpos)
          ((refl, kpos, subst (λ c. Tiles c to rest.ios) cur ih.0), ih.1)
  ]

  -- The sequential generator makes the loop cover exactly the range [offset, offset + len), in
  -- order, each byte once, and return `len`: for every random generator, every valid mix of block
  -- sizes whose total weight has not wrapped to 0, and every I/O function that makes progress,
  -- short transfers included. `len` rounds are enough.
  pub rw_block_sized-Tiles :
      (len offset fuel : ℕ) (mix : Mix) (g : G)
      → IsValid mix
      → 0 < mix.total_weight
      → offset + len < u64_mod
      → len ≤ fuel
      → let t = rw_block_sized (generator next) io fuel (make next len offset mix g) in
        Tiles offset (offset + len) t.ios × (t.ending ≡ ok (some len))
  unfolding make
  rw_block_sized-Tiles len offset fuel mix g v w b f =
      loop-Covers fuel (make next len offset mix g) (offset + len) v w refl b f
