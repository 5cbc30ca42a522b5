-- ===== src/PathStore.antt =====
-- source/PathStore.h and source/PathStore.cpp: the list of files (or directories) of a custom tree,
-- and the sublist of it that each worker gets. Reading and sorting the list are not modelled here.
pub mod Share
pub mod EachNth
pub mod Load
pub mod Ranges
pub mod Sublist
use elbencho.Prelude.{
  ℕ, zero, suc, ◌+◌, ◌-◌, ◌/◌, ◌%◌, Bool, true, false, ◌&&◌, not, List, [], ◌∷◌, ◌++◌, ltb, leb,
  ◌==◌, if◌then◌else◌, add64, sub64, mul64, Result, ok, throws, throw_if, ◌>>=◌, ◌>>◌, Error,
}
use elbencho.Units.{Text}

pub record PathStoreElem : Type 0 where
  pub path : Text
  pub total_len : ℕ
  pub range_start : ℕ
  pub range_len : ℕ

pub record PathStore : Type 0 where
  pub block_size : ℕ
  pub num_blocks_total : ℕ
  pub num_bytes_total : ℕ
  pub num_paths : ℕ
  pub paths : List PathStoreElem

unfoldable pub is_empty {ℓ} : {A : Type ℓ} → List A → Bool
is_empty [] = true
is_empty (e ∷ es) = false

unfoldable pub set_block_size : ℕ → PathStore → Result PathStore
set_block_size size s = do
  throw_if (not (is_empty s.paths)) Error.prog_exception
  ok (record {
    block_size = size;
    num_blocks_total = s.num_blocks_total;
    num_bytes_total = s.num_bytes_total;
    num_paths = s.num_paths;
    paths = s.paths;
  })

unfoldable pub clear : PathStore → PathStore
clear s = record {
  block_size = 0;
  num_blocks_total = 0;
  num_bytes_total = 0;
  num_paths = 0;
  paths = [];
}

-- `(fileSize / blockSize) + ( (fileSize % blockSize) ? 1 : 0)`, for a block size that is not 0.
unfoldable pub num_file_blocks : ℕ → ℕ → ℕ
num_file_blocks file_size block_size =
    file_size / block_size + (if file_size % block_size == 0 then 0 else 1)

-- What the functions below append to `outPathStore`: an element, and its blocks and bytes.
unfoldable pub push : PathStoreElem → ℕ → ℕ → PathStore → PathStore
push e blocks bytes s = record {
  block_size = s.block_size;
  num_blocks_total = add64 s.num_blocks_total blocks;
  num_bytes_total = add64 s.num_bytes_total bytes;
  num_paths = add64 s.num_paths 1;
  paths = s.paths ++ e ∷ [];
}

unfoldable pub slice : PathStoreElem → ℕ → ℕ → PathStoreElem
slice e start len = record {
  path = e.path;
  total_len = e.total_len;
  range_start = start;
  range_len = len;
}

-- The size of a file after the rounding of `loadFilesFromFile`.
unfoldable pub round_up : ℕ → ℕ → ℕ
round_up zero total_len = total_len
round_up (suc n) total_len =
    let modulo_res = total_len % suc n in
    if modulo_res == 0 then total_len else add64 (sub64 total_len modulo_res) (suc n)

-- The new element: a whole file.
unfoldable pub loaded : Text → ℕ → PathStoreElem
loaded path file_size = record {
  path = path;
  total_len = file_size;
  range_start = 0;
  range_len = file_size;
}

-- What `loadFilesFromFile` does with a line once its size and path are read: it rounds the size up,
-- skips the file if that is not within the given range, and else adds it.
unfoldable pub load_file : ℕ → ℕ → ℕ → ℕ → Text → PathStore → Result PathStore
load_file min_file_size max_file_size round_up_size size path s =
    let file_size = round_up round_up_size size in
    if ltb file_size min_file_size
    then ok s
    else if ltb max_file_size file_size
    then ok s
    else if s.block_size == 0
    then throws Error.division_by_zero
    else if is_empty path
    then throws Error.prog_exception
    else ok (push (loaded path file_size) (num_file_blocks file_size s.block_size) file_size s)

-- `getWorkerSublistNonShared` from the iterator's position on. `skip` is how many elements the
-- iterator still has to advance over before the next one that is taken.
module _ (num_threads : ℕ) (block_size : ℕ) (throw_on_smaller : Bool) where
  unfoldable pub take_each : ℕ → List PathStoreElem → PathStore → Result PathStore
  take_each skip [] out = ok out
  take_each (suc skip) (e ∷ es) out = take_each skip es out
  take_each zero (e ∷ es) out = do
    throw_if (throw_on_smaller && ltb e.total_len block_size) Error.prog_exception
    let blocks = if block_size == 0 then 0 else num_file_blocks e.total_len block_size
    take_each (num_threads - 1) es (push e blocks e.total_len out)

-- Without threads to advance by the loop of the source would never end.
unfoldable pub get_worker_sublist_non_shared :
    ℕ → ℕ → Bool → PathStore → PathStore → Result PathStore
get_worker_sublist_non_shared worker_rank num_threads throw_on_smaller s out =
    if leb s.num_paths worker_rank
    then ok out
    else if num_threads == 0
    then throws Error.out_of_fuel
    else take_each num_threads s.block_size throw_on_smaller worker_rank s.paths out

-- The blocks `[start, end)` of a worker of `getWorkerSublistShared`, for at least one thread.
unfoldable pub worker_num_blocks : ℕ → ℕ → ℕ → ℕ
worker_num_blocks worker_rank num_threads num_blocks_total =
    let standard = num_blocks_total / num_threads in
    if (worker_rank == sub64 num_threads 1) && not (num_blocks_total % num_threads == 0)
    then sub64 num_blocks_total (mul64 standard (sub64 num_threads 1))
    else standard

unfoldable pub worker_start_block : ℕ → ℕ → ℕ → ℕ
worker_start_block worker_rank num_threads num_blocks_total =
    mul64 worker_rank (num_blocks_total / num_threads)

-- The loop of `getWorkerSublistShared` over the paths, for a block size that is not 0.
module _ (block_size : ℕ) (start_block end_block : ℕ) (throw_on_smaller : Bool) where
  -- One file that the worker gets a part of: the start of the range, and the blocks left in the file.
  unfoldable pub range_in_file : ℕ → ℕ → ℕ × ℕ
  range_in_file first_file_block file_blocks =
      if leb start_block first_file_block
      then (0, file_blocks)
      else (let inner_offset = sub64 start_block first_file_block in
          (mul64 inner_offset block_size, sub64 file_blocks inner_offset))

  -- The length of the range, and the blocks that are left for the worker afterwards.
  unfoldable pub range_len_in_file : ℕ → ℕ × ℕ → ℕ → ℕ × ℕ
  range_len_in_file file_size (range_start, remaining_file_blocks) num_blocks_left =
      if ltb num_blocks_left remaining_file_blocks
      then (mul64 num_blocks_left block_size, 0)
      else (sub64 file_size range_start, sub64 num_blocks_left remaining_file_blocks)

  unfoldable pub assign_ranges : ℕ → ℕ → List PathStoreElem → PathStore → Result PathStore
  assign_ranges current left [] out = ok out
  assign_ranges current left (e ∷ es) out =
      let file_blocks = num_file_blocks e.total_len block_size in
      let range = range_in_file current file_blocks in
      let len = range_len_in_file e.total_len range left in
      let before = ltb (sub64 (add64 current file_blocks) 1) start_block in
      let left' = if before then left else len.1 in
      let out' = if before then out else push (slice e range.0 len.0) 0 len.0 out in
      let rest = assign_ranges (add64 current file_blocks) left' es out' in
      if leb end_block current
      then ok out
      else if e.total_len == 0
      then throws Error.prog_exception
      else if not before && (throw_on_smaller && ltb len.0 block_size)
      then throws Error.prog_exception
      else rest

-- `outPathStore.numBlocksTotal += thisWorkerNumBlocks`
unfoldable pub add_blocks : ℕ → PathStore → PathStore
add_blocks blocks s = record {
  block_size = s.block_size;
  num_blocks_total = add64 s.num_blocks_total blocks;
  num_bytes_total = s.num_bytes_total;
  num_paths = s.num_paths;
  paths = s.paths;
}

unfoldable pub get_worker_sublist_shared : ℕ → ℕ → Bool → PathStore → PathStore → Result PathStore
get_worker_sublist_shared worker_rank num_threads throw_on_smaller s out =
    if is_empty s.paths
    then ok out
    else if num_threads == 0
    then throws Error.division_by_zero
    else (let this_worker = worker_num_blocks worker_rank num_threads s.num_blocks_total in
        let start = worker_start_block worker_rank num_threads s.num_blocks_total in
        if this_worker == 0
        then ok out
        else if s.block_size == 0
        then throws Error.division_by_zero
        else (assign_ranges s.block_size start (add64 start this_worker) throw_on_smaller 0
              this_worker s.paths out
            >>= λ out'. ok (add_blocks this_worker out')))

-- The loops of `getWorkerSublistSharedRoundRobin`, the inner one on fuel. Both return the index of
-- the next block too.
module _ (block_size worker_rank num_threads : ℕ) (throw_on_smaller : Bool) where
  unfoldable pub assign_block : ℕ → ℕ → PathStoreElem → PathStore → Result PathStore
  assign_block current offset e out =
      let file_size_left = sub64 e.total_len offset in
      let len = if ltb file_size_left block_size then file_size_left else block_size in
      if worker_rank == current % num_threads
      then throw_if (throw_on_smaller && ltb file_size_left block_size) Error.prog_exception
        >> ok (push (slice e offset len) 1 len out)
      else ok out

  unfoldable pub assign_blocks : ℕ → ℕ → ℕ → PathStoreElem → PathStore → Result (ℕ × PathStore)
  assign_blocks zero current offset e out =
      if ltb offset e.total_len then throws Error.out_of_fuel else ok (current, out)
  assign_blocks (suc fuel) current offset e out = elim (ltb offset e.total_len) [
    | false ↦ ok (current, out)
    | true ↦ assign_block current offset e out >>= λ out'.
        assign_blocks fuel (add64 current 1) (add64 offset block_size) e out'
  ]

  unfoldable pub assign_files : ℕ → List PathStoreElem → PathStore → Result PathStore
  assign_files current [] out = ok out
  assign_files current (e ∷ es) out =
      throw_if (e.total_len == 0) Error.prog_exception
      >> (assign_blocks e.total_len current 0 e out >>= λ (current', out').
          assign_files current' es out')

unfoldable pub get_worker_sublist_shared_round_robin :
    ℕ → ℕ → Bool → PathStore → PathStore → Result PathStore
get_worker_sublist_shared_round_robin worker_rank num_threads throw_on_smaller s out =
    if num_threads == 0
    then elim s.paths [
      | [] ↦ ok out
      | e ∷ es ↦ throw_if (e.total_len == 0) Error.prog_exception >> throws Error.division_by_zero
    ]
    else assign_files s.block_size worker_rank num_threads throw_on_smaller 0 s.paths out
