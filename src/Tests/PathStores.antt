-- ===== src/Tests/PathStores.antt =====
-- source/PathStore.h and PathStore.cpp at concrete inputs.
use elbencho.Prelude.{
  ℕ, suc, ◌+◌, ◌*◌, ◌≤◌, ◌<◌, ◌≡◌, refl, false, arith, [], ◌∷◌, ◌++◌, get_or, ok, add64, sub64,
  mul64,
}
use elbencho.PathStore.{
  PathStoreElem, PathStore, get_worker_sublist_non_shared, get_worker_sublist_shared,
  get_worker_sublist_shared_round_robin, worker_start_block, worker_num_blocks, round_up, load_file,
  push, num_file_blocks, assign_ranges, range_in_file, range_len_in_file, slice, add_blocks,
  is_empty, assign_files, assign_blocks, assign_block, loaded,
}
use elbencho.PathStore.Share.{worker_start_block-Partition}
use elbencho.PathStore.EachNth.{get_worker_sublist_non_shared_lem}
use elbencho.PathStore.Ranges.{cut, AreSmall}
use elbencho.PathStore.Sublist.{get_worker_sublist_shared-cut}
use elbencho.PathStore.Load.{IsConsistent}

abbrev file : ℕ → ℕ → ℕ → PathStoreElem
file size start len = record {
  path = b'f' ∷ [];
  total_len = size;
  range_start = start;
  range_len = len;
}

abbrev empty : PathStore
empty = record {
  block_size = 4;
  num_blocks_total = 0;
  num_bytes_total = 0;
  num_paths = 0;
  paths = [];
}

-- Files of 10, 4 and 7 bytes, in blocks of 4: six blocks.
abbrev three_files : PathStore
three_files = record {
  block_size = 4;
  num_blocks_total = 6;
  num_bytes_total = 21;
  num_paths = 3;
  paths = file 10 0 10 ∷ file 4 0 4 ∷ file 7 0 7 ∷ [];
}

-- The last of four workers gets the blocks 3, 4 and 5.
last_of_four :
    get_worker_sublist_shared 3 4 false three_files empty
    ≡ ok (record {
      block_size = 4;
      num_blocks_total = 3;
      num_bytes_total = 11;
      num_paths = 2;
      paths = file 4 0 4 ∷ file 7 0 7 ∷ [];
    })
unfolding get_worker_sublist_shared is_empty worker_num_blocks sub64 mul64 assign_ranges add64
    worker_start_block num_file_blocks add_blocks push range_len_in_file slice range_in_file
last_of_four = refl

second_of_four_round_robin :
    get_worker_sublist_shared_round_robin 1 4 false three_files empty
    ≡ ok (record {
      block_size = 4;
      num_blocks_total = 2;
      num_bytes_total = 7;
      num_paths = 2;
      paths = file 10 4 4 ∷ file 7 4 3 ∷ [];
    })
unfolding get_worker_sublist_shared_round_robin assign_files assign_blocks assign_block add64 push
    sub64 slice
second_of_four_round_robin = refl

worker_start_block-Partition_example :
    (worker_start_block 0 4 6 ≡ 0)
    × ((r : ℕ)
        → suc r < 4
        → worker_start_block r 4 6 + worker_num_blocks r 4 6 ≡ worker_start_block (suc r) 4 6)
    × (worker_start_block 3 4 6 + worker_num_blocks 3 4 6 ≡ 6)
    × ((r : ℕ) → suc r < 4 → worker_num_blocks 3 4 6 ≤ worker_num_blocks r 4 6 + 3)
worker_start_block-Partition_example =
    worker_start_block-Partition 4 6 (omega arith) (omega arith) (omega arith)

get_worker_sublist_non_shared_lem_example :
    (out' : PathStore) × (get_worker_sublist_non_shared 1 2 false three_files empty ≡ ok out')
    × ((k : ℕ) (d : PathStoreElem) → get_or out'.paths k d ≡ get_or three_files.paths (1 + k * 2) d)
get_worker_sublist_non_shared_lem_example =
    get_worker_sublist_non_shared_lem 1 2 three_files empty (omega arith) refl refl

empty-IsConsistent : IsConsistent empty
empty-IsConsistent = record { blocks = refl; bytes = refl; paths = refl }

-- A file of 7 bytes that is rounded up to 8.
abbrev one_file : PathStore
one_file = record {
  block_size = 4;
  num_blocks_total = 2;
  num_bytes_total = 8;
  num_paths = 1;
  paths = file 8 0 8 ∷ [];
}

one_file_run : load_file 1 100 4 7 (b'f' ∷ []) empty ≡ ok one_file
unfolding load_file round_up add64 sub64 is_empty push num_file_blocks loaded
one_file_run = refl

three_files-AreSmall : AreSmall 4 0 three_files.paths
unfolding num_file_blocks
three_files-AreSmall = (omega arith, (omega arith, (omega arith, tt)))

second_half : cut 4 3 6 0 three_files.paths ≡ file 4 0 4 ∷ file 7 0 7 ∷ []
unfolding num_file_blocks slice
second_half = refl

get_worker_sublist_shared-cut_example :
    (out' : PathStore) × (get_worker_sublist_shared 1 2 false three_files empty ≡ ok out')
    × (out'.paths
        ≡ []
          ++ cut 4
              (worker_start_block 1 2 6)
              (worker_start_block 1 2 6 + worker_num_blocks 1 2 6)
              0
              three_files.paths)
get_worker_sublist_shared-cut_example =
    get_worker_sublist_shared-cut 1 2 three_files empty (omega arith) (omega arith) (omega arith)
      (omega arith) three_files-AreSmall (omega arith, (omega arith, (omega arith, tt)))
