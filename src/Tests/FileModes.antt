-- ===== src/Tests/FileModes.antt =====
-- The distribution of files over workers in source/workers/LocalWorker.cpp at concrete inputs.
use elbencho.Prelude.{
  inl, All, ◌/◌, ℕ, ◌+◌, ◌*◌, ◌^◌, ◌≤◌, ◌<◌, ◌≡◌, refl, arith, false, [], ◌∷◌, ltb, Option, some,
  Result, ok, add64, sub64, mul64,
}
use elbencho.PathStore.{num_file_blocks, worker_num_blocks, worker_start_block}
use elbencho.FileMode.{
  file_mode_iterate_files_seq, iterate, piece_at, pass_ending, calc_file_idx_and_offset_striped,
  rand_range_len, rand_range_offset, file_mode_rand_gen, RandOptions, random_aligned,
}
use elbencho.FileMode.Pass.{TilesFiles, IsFull}
use elbencho.FileMode.Shares.{all_pieces, file_mode_iterate_files_seq-TilesFiles}
use elbencho.FileMode.RandomBlocks.{IsPlaced, calc_file_idx_and_offset_striped-Placed}
use elbencho.Mix.{Mix}
use elbencho.Mix.Extremes.{IsValid}
use elbencho.OffsetGen.{rw_block_sized, sum_bytes}
use elbencho.OffsetGen.Aligned.{Aligned}
use elbencho.OffsetGen.Aligned
use elbencho.Tests.OffsetGens.{counting, short_io, short_io-MakesProgress}

abbrev full_io : ℕ → ℕ → ℕ → Result (Option ℕ)
full_io file start len = ok (some len)

full_io-IsFull : IsFull full_io
full_io-IsFull file start len some_bytes = refl

-- Three files of 10 bytes in blocks of 4, for two workers: the first one's range ends inside the
-- second file.
first_worker :
    (file_mode_iterate_files_seq full_io 10 4 3 2 0).1.pieces
    ≡ record { file_index = 0; io_start = 0; io_len = 10 }
      ∷ record { file_index = 1; io_start = 0; io_len = 4 }
      ∷ []
unfolding file_mode_iterate_files_seq iterate piece_at pass_ending num_file_blocks worker_num_blocks
    worker_start_block add64 sub64 mul64
first_worker = refl

second_worker :
    (file_mode_iterate_files_seq full_io 10 4 3 2 1).1.pieces
    ≡ record { file_index = 1; io_start = 4; io_len = 6 }
      ∷ record { file_index = 2; io_start = 0; io_len = 10 }
      ∷ []
unfolding file_mode_iterate_files_seq iterate piece_at pass_ending num_file_blocks worker_num_blocks
    worker_start_block add64 sub64 mul64
second_worker = refl

blocks_small : (num_file_blocks 10 4 * 3 < 2 ^ 62) × (num_file_blocks 10 4 * 3 * 4 < 2 ^ 62)
unfolding num_file_blocks
blocks_small = (omega arith, omega arith)

file_mode_iterate_files_seq-TilesFiles_example :
    TilesFiles 10 0 (3 * 10) (all_pieces full_io 10 4 3 2 2)
    × ((r : ℕ)
        → r < 2
        → (let out = file_mode_iterate_files_seq full_io 10 4 3 2 r in
            (out.1.ending ≡ ok tt)
            × (out.0 ≡ ltb 0 (worker_num_blocks r 2 (num_file_blocks 10 4 * 3)))))
file_mode_iterate_files_seq-TilesFiles_example =
    file_mode_iterate_files_seq-TilesFiles full_io 10 4 3 2 full_io-IsFull (omega arith)
      (omega arith) (omega arith) (omega arith) (omega arith) blocks_small.0 blocks_small.1

-- Byte 20 of files of 16 bytes, which begin at the offset 100.
striped_run : calc_file_idx_and_offset_striped 20 16 100 false ≡ ok (1, 104)
unfolding calc_file_idx_and_offset_striped add64
striped_run = refl

-- Random reads of blocks of 4 bytes of these files, with I/O that may do half of what it is asked for.
abbrev read_options : RandOptions
read_options = record {
  use_strided_access = false;
  use_random_unaligned = false;
  has_rand_offset_algo = false;
  is_write_phase = false;
  is_block_size_mix_defined = false;
  random_amount = 41;
}

abbrev one_size : Mix
one_size = record {
  sizes_and_weights = (4, 1) ∷ [];
  cumulative_weights = 1 ∷ [];
  total_weight = 1;
  max_size = 4;
  min_size = 4;
}

one_size-IsValid : IsValid one_size
one_size-IsValid = record {
  nonempty = omega arith;
  entries = omega arith;
  within = omega arith;
  positive = omega arith;
  ordered = omega arith;
}

range_holds : 4 ≤ rand_range_len 16 4 3 2
unfolding rand_range_len mul64
range_holds = omega arith

calc_file_idx_and_offset_striped-Placed_example :
    (file_mode_rand_gen read_options 16 4 3 2 1
      ≡ ok (random_aligned (41 / 2) (rand_range_len 16 4 3 2) (rand_range_offset 16 4 3 2 1)))
    × ((s : Aligned ℕ) × (Aligned.make counting
            (41 / 2)
            (rand_range_len 16 4 3 2)
            (rand_range_offset 16 4 3 2 1)
            one_size
            5
          ≡ ok s)
        × (let t = rw_block_sized (Aligned.generator counting) short_io 20 s in
            All (IsPlaced 16 4 3 100) t.ios
            × (sum_bytes t.ios ≡ 41 / 2)
            × (t.ending ≡ ok (some (41 / 2)))))
    × ((later_rank : ℕ)
        → 1 < later_rank
        → later_rank < 2
        → rand_range_offset 16 4 3 2 1 + rand_range_len 16 4 3 2
          ≤ rand_range_offset 16 4 3 2 later_rank)
calc_file_idx_and_offset_striped-Placed_example =
    calc_file_idx_and_offset_striped-Placed counting read_options short_io 16 4 3 2 100 1 20
      one_size 5 short_io-MakesProgress (omega arith) refl (omega arith) (omega arith) (omega arith)
      (omega arith) one_size-IsValid (omega arith) (refl, refl) (refl, refl) refl (omega arith)
      (inl range_holds) (omega arith)
