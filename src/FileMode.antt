-- ===== src/FileMode.antt =====
-- The files of a file or block device benchmark, shared among the workers: `fileModeIterateFilesSeq`,
-- `fileModeIterateFilesRand` and `calcFileIdxAndOffsetStriped` of source/workers/LocalWorker.cpp. All
-- files have one size, and are taken as one range of blocks, one file after the other.
pub mod Pass
pub mod Seq
pub mod Shares
pub mod Striped
pub mod RandomBlocks
use elbencho.Prelude.{
  ℕ, zero, suc, ◌+◌, ◌-◌, ◌*◌, ◌/◌, ◌%◌, Bool, true, false, not, ◌||◌, ◌&&◌, List, [], ◌∷◌, ltb,
  leb, ◌==◌, if◌then◌else◌, min, add64, sub64, mul64, Result, ok, throws, Error, Option, none, some,
}
use elbencho.PathStore.{num_file_blocks, worker_num_blocks, worker_start_block}

-- One pass of the loop: a file, and the range of it that the offset generator is reset to.
pub record Piece : Type 0 where
  pub file_index : ℕ
  pub io_start : ℕ
  pub io_len : ℕ

-- The passes of a worker in turn, and how they ended.
pub record Passes : Type 0 where
  pub pieces : List Piece
  pub ending : Result (Unit {0})

abbrev pub prepend : Piece → Passes → Passes
prepend p t = record { pieces = p ∷ t.pieces; ending = t.ending }

abbrev pub stop : Result (Unit {0}) → Passes
stop r = record { pieces = []; ending = r }

-- `funcRWBlockSized` for a range of a file: an exception, -1 as `none`, or the bytes it returns.
module _ (rw_file : ℕ → ℕ → ℕ → Result (Option ℕ)) (file_size block_size : ℕ) where
  -- The range of the pass that begins at block `current`.
  unfoldable pub piece_at : ℕ → ℕ → Piece
  piece_at current end_block =
      let num_blocks_per_file = num_file_blocks file_size block_size in
      let current_block_in_file = current % num_blocks_per_file in
      let remaining_worker_len = mul64 (sub64 end_block current) block_size in
      let remaining_file_len = sub64 file_size (mul64 current_block_in_file block_size) in
      record {
        file_index = current / num_blocks_per_file;
        io_start = mul64 current_block_in_file block_size;
        io_len = min remaining_worker_len remaining_file_len;
      }

  -- What the result of a pass is taken for.
  unfoldable pub pass_ending : Result (Option ℕ) → ℕ → Result (Unit {0})
  pass_ending (throws e) io_len = throws e
  pass_ending (ok none) io_len = throws Error.worker_exception
  pass_ending (ok (some n)) io_len = if n == io_len then ok tt else throws Error.worker_exception

  -- The loop, which finishes at least a block in each pass.
  unfoldable pub iterate : ℕ → ℕ → ℕ → Passes
  iterate zero current end_block =
      if ltb current end_block then stop (throws Error.out_of_fuel) else stop (ok tt)
  iterate (suc fuel) current end_block =
      let piece = piece_at current end_block in
      let num_blocks_done = num_file_blocks piece.io_len block_size in
      let rest = iterate fuel (add64 current num_blocks_done) end_block in
      if ltb current end_block
      then elim (pass_ending (rw_file piece.file_index piece.io_start piece.io_len) piece.io_len) [
        | ok u ↦ prepend piece rest
        | throws e ↦ prepend piece (stop (throws e))
      ]
      else stop (ok tt)

  -- `fileModeIterateFilesSeq`; the Boolean is `workerGotPhaseWork`.
  unfoldable pub file_mode_iterate_files_seq : ℕ → ℕ → ℕ → Bool × Passes
  file_mode_iterate_files_seq num_files num_threads worker_rank =
      let num_blocks_total = mul64 (num_file_blocks file_size block_size) num_files in
      let this_worker = worker_num_blocks worker_rank num_threads num_blocks_total in
      let start_block = worker_start_block worker_rank num_threads num_blocks_total in
      let end_block = add64 start_block this_worker in
      if (block_size == 0) || (num_threads == 0)
      then (true, stop (throws Error.division_by_zero))
      else if leb end_block start_block
      then (false, stop (ok tt))
      else (true, iterate this_worker start_block end_block)

-- `calcFileIdxAndOffsetStriped`: the index of the file, and the offset in it.
unfoldable pub calc_file_idx_and_offset_striped : ℕ → ℕ → ℕ → Bool → Result (ℕ × ℕ)
calc_file_idx_and_offset_striped rw_offset_gen_next file_size file_offset_base is_single_file =
    if is_single_file
    then ok (0, add64 rw_offset_gen_next file_offset_base)
    else if file_size == 0
    then throws Error.division_by_zero
    else ok
        (rw_offset_gen_next / file_size, add64 (rw_offset_gen_next % file_size) file_offset_base)

-- The generators of `fileModeIterateFilesRand`, each with what it is made of.
pub data RandGen : Type 0 where
  strided : (range_len offset block_size num_threads : ℕ) → RandGen
  random random_aligned full_coverage : (amount range_len offset : ℕ) → RandGen

-- What it reads of the program's arguments and of the phase.
pub record RandOptions : Type 0 where
  pub use_strided_access : Bool
  pub use_random_unaligned : Bool
  pub has_rand_offset_algo : Bool
  pub is_write_phase : Bool
  pub is_block_size_mix_defined : Bool
  pub random_amount : ℕ

unfoldable pub rand_range_len : ℕ → ℕ → ℕ → ℕ → ℕ
rand_range_len file_size block_size num_files num_threads =
    mul64 block_size (mul64 (file_size / block_size) num_files / num_threads)

unfoldable pub rand_range_offset : ℕ → ℕ → ℕ → ℕ → ℕ → ℕ
rand_range_offset file_size block_size num_files num_threads worker_rank =
    mul64 (mul64 worker_rank block_size) (mul64 (file_size / block_size) num_files / num_threads)

unfoldable pub file_mode_rand_gen : RandOptions → ℕ → ℕ → ℕ → ℕ → ℕ → Result RandGen
file_mode_rand_gen o file_size block_size num_files num_threads worker_rank =
    let range_len = rand_range_len file_size block_size num_files num_threads in
    let offset = rand_range_offset file_size block_size num_files num_threads worker_rank in
    let amount = o.random_amount / num_threads in
    if (block_size == 0) || (num_threads == 0)
    then throws Error.division_by_zero
    else if o.use_strided_access
    then ok (strided range_len (mul64 block_size worker_rank) block_size num_threads)
    else if o.use_random_unaligned
    then ok (random amount range_len offset)
    else if o.has_rand_offset_algo || (not o.is_write_phase || o.is_block_size_mix_defined)
    then ok (random_aligned amount range_len offset)
    else ok (full_coverage amount range_len offset)
