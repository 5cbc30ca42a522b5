-- ===== src/FileMode/RandomBlocks.antt =====
-- `fileModeIterateFilesRand` of source/workers/LocalWorker.cpp with the aligned random generator: where
-- in the files its transfers go.
use native.Mathlib.Nat.{div-le_self}
use native.Mathlib.Omega.{div_any}
use elbencho.Prelude.{
  ℕ, ◌+◌, ◌-◌, ◌*◌, ◌/◌, ◌%◌, ◌^◌, ◌≤◌, ◌<◌, ◌≡◌, refl, sym, subst, arith, false, true, ◌||◌, not,
  ◌==◌, List, [], ◌∷◌, All, Option, some, ok, ◌⊎◌, u64_mod,
}
use elbencho.Mix.{Mix}
use elbencho.Mix.Extremes.{IsValid}
use elbencho.OffsetGen.{rw_block_sized, sum_bytes, MakesProgress}
use elbencho.OffsetGen.Aligned.{Aligned, make, generator}
use elbencho.OffsetGen.Aligned.Bounds.{IsBlockOnGrid, rw_block_sized-IsBlockOnGrid}
use elbencho.FileMode.{
  RandOptions, random_aligned, calc_file_idx_and_offset_striped, rand_range_len, rand_range_offset,
  file_mode_rand_gen,
}
use elbencho.FileMode.Striped.{
  Placed, calc_file_idx_and_offset_striped-block, rand_range_len-eq, rand_range_offset-eq,
  range_end_le,
}

-- A transfer whose block is placed within the files, and which goes no further than its block.
abbrev pub IsPlaced : ℕ → ℕ → ℕ → ℕ → ℕ × ℕ → Type 0
IsPlaced fs bs num_files base io =
    (place : ℕ × ℕ) × (calc_file_idx_and_offset_striped io.0 fs base false ≡ ok place)
    × Placed fs bs num_files base io.0 place
    × (place.1 + io.1 ≤ base + fs)

module _ (fs bs num_files n base : ℕ) (pos : 0 < bs) (even : fs % bs ≡ 0)
    (word : num_files * fs < 2 ^ 62) (threads : 0 < n) (base_word : base < 2 ^ 62) (r : ℕ)
    (rank : r < n) where
  on_block :
      (share from k : ℕ)
      → from ≡ r * share * bs
      → from ≤ k
      → (k - from) % bs ≡ 0
      → k ≡ (r * share + (k - from) / bs) * bs
  on_block share from k start le grid =
      let split = div_any (k - from) bs in omega (arith, start, le, grid, split)

  place_one :
      (io : ℕ × ℕ)
      → (let from = rand_range_offset fs bs num_files n r in
          IsBlockOnGrid from (from + rand_range_len fs bs num_files n) bs bs io)
      → IsPlaced fs bs num_files base io
  place_one io (((low, high), grid), some_bytes, in_block) =
      let from = rand_range_offset fs bs num_files n r in
      let share = fs / bs * num_files / n in
      let block = r * share + (io.0 - from) / bs in
      let start = rand_range_offset-eq fs bs num_files n pos even word threads r rank in
      let e : io.0 ≡ block * bs = on_block share from io.0 start low grid in
      let blocks =
        (calc_file_idx_and_offset_striped-block fs bs num_files n base pos even word threads
          base_word).0 in
      let (place, at, placed) =
        blocks r block rank (omega (arith, low, e)) (omega (arith, high, e, some_bytes)) in
      subst
        (λ x.
          (place : ℕ × ℕ) × (calc_file_idx_and_offset_striped x fs base false ≡ ok place)
          × Placed fs bs num_files base x place
          × (place.1 + io.1 ≤ base + fs))
        (sym e) (place, at, placed, omega (arith, placed.in_file, in_block))

  All-IsPlaced :
      (ios : List (ℕ × ℕ))
      → (let from = rand_range_offset fs bs num_files n r in
          All (IsBlockOnGrid from (from + rand_range_len fs bs num_files n) bs bs) ios)
      → All (IsPlaced fs bs num_files base) ios
  All-IsPlaced [] h = tt
  All-IsPlaced (io ∷ ios) h = (place_one io h.0, All-IsPlaced ios h.1)

  range_word : rand_range_offset fs bs num_files n r + rand_range_len fs bs num_files n < u64_mod
  range_word =
      let start = rand_range_offset-eq fs bs num_files n pos even word threads r rank in
      let len = rand_range_len-eq fs bs num_files n pos even word threads in
      let end = range_end_le fs bs num_files n pos even word threads r rank in
      omega (arith, start, len, end)

aligned_gen :
    (o : RandOptions) (fs bs num_files n r : ℕ)
    → 0 < bs
    → 0 < n
    → o.use_strided_access ≡ false
    → o.use_random_unaligned ≡ false
    → (o.has_rand_offset_algo || (not o.is_write_phase || o.is_block_size_mix_defined)) ≡ true
    → file_mode_rand_gen o fs bs num_files n r
      ≡ ok (
          random_aligned
            (o.random_amount / n)
            (rand_range_len fs bs num_files n)
            (rand_range_offset fs bs num_files n r))
unfolding file_mode_rand_gen
aligned_gen o fs bs num_files n r pos threads no_stride aligned chosen =
    let some_bytes : (bs == 0) ≡ false = ground (arith, pos) in
    let some_threads : (n == 0) ≡ false = ground (arith, threads) in
    rw (some_bytes, some_threads, no_stride, aligned, chosen) refl

-- Where the random benchmark of several files makes an aligned random generator for a worker, this
-- generator is constructed in the worker's range and its loop transfers the worker's amount; every
-- transfer is placed within one of the files, at the byte that its offset stands for, and so is the
-- whole block at this offset. The ranges of the ranks lie in their order one behind the other. The
-- file size is a multiple of the block size and there is no mix of block sizes; the I/O makes
-- progress; a worker's range holds a block, or its amount; there is at least one worker, and the
-- sizes are below 2^62. As many rounds as the amount has bytes are enough.
pub calc_file_idx_and_offset_striped-Placed :
    {G : Type 0} (next : G → ℕ × G) (o : RandOptions) (io : ℕ → ℕ → Option ℕ)
    (file_size block_size num_files num_threads base worker_rank fuel : ℕ) (mix : Mix) (g : G)
    → MakesProgress io
    → 0 < block_size
    → file_size % block_size ≡ 0
    → num_files * file_size < 2 ^ 62
    → 0 < num_threads
    → base < 2 ^ 62
    → worker_rank < num_threads
    → IsValid mix
    → 0 < mix.total_weight
    → (mix.min_size ≡ block_size) × (mix.max_size ≡ block_size)
    → (o.use_strided_access ≡ false) × (o.use_random_unaligned ≡ false)
    → (o.has_rand_offset_algo || (not o.is_write_phase || o.is_block_size_mix_defined)) ≡ true
    → o.random_amount < 2 ^ 64
    → (let amount = o.random_amount / num_threads in
        let len = rand_range_len file_size block_size num_files num_threads in
        (block_size ≤ len) ⊎ (amount ≤ len))
    → o.random_amount / num_threads ≤ fuel
    → (let amount = o.random_amount / num_threads in
        let len = rand_range_len file_size block_size num_files num_threads in
        let from = rand_range_offset file_size block_size num_files num_threads worker_rank in
        (file_mode_rand_gen o file_size block_size num_files num_threads worker_rank
          ≡ ok (random_aligned amount len from))
        × ((s : Aligned G) × (make next amount len from mix g ≡ ok s)
            × (let t = rw_block_sized (generator next) io fuel s in
                All (IsPlaced file_size block_size num_files base) t.ios
                × (sum_bytes t.ios ≡ amount)
                × (t.ending ≡ ok (some amount))))
        × ((later_rank : ℕ)
            → worker_rank < later_rank
            → later_rank < num_threads
            → from + len ≤ rand_range_offset file_size block_size num_files num_threads later_rank))
calc_file_idx_and_offset_striped-Placed next o io fs bs num_files n base r fuel mix g progress pos
      even word threads base_word rank v w (least, most) (no_stride, aligned) chosen small room f =
    let amount = o.random_amount / n in
    let len = rand_range_len fs bs num_files n in
    let from = rand_range_offset fs bs num_files n r in
    let no_more : amount ≤ o.random_amount = div-le_self _ _ in
    let (s, made, (blocks, sum, end)) =
      rw_block_sized-IsBlockOnGrid next from len bs bs io progress amount fuel mix g least v
        (omega arith) w (range_word fs bs num_files n base pos even word threads base_word r rank)
        (omega arith) (omega arith) f in
    (
      aligned_gen o fs bs num_files n r pos threads no_stride aligned chosen,
      (
        s,
        made,
        (
          All-IsPlaced fs bs num_files n base pos even word threads base_word r rank
              (rw_block_sized (generator next) io fuel s).ios blocks,
          sum,
          end,
        ),
      ),
      λ later_rank lt in_range.
          (calc_file_idx_and_offset_striped-block fs bs num_files n base pos even word threads
              base_word).1
            r later_rank lt in_range,
    )
