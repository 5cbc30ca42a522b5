-- ===== src/DirMode/Totals.antt =====
-- What a worker is expected to do in a phase: `getPhaseNumEntriesAndBytes` of
-- source/workers/WorkerManager.cpp.
use elbencho.Prelude.{
  ℕ, ◌/◌, Bool, true, false, not, ◌&&◌, ◌==◌, if◌then◌else◌, add64, mul64, Result, ok, throws,
  Error, Option, none, some, ◌>>=◌,
}
use elbencho.Workers.{
  BenchPhase, createdirs, deletedirs, createfiles, deletefiles, readfiles, statfiles, putbucketacl,
  getbucketacl, putobjacl, getobjacl, listobjparallel, s3mpucomplete,
}

-- The custom tree: `getCustomTreeDirs`, `getCustomTreeFilesNonShared` and `getCustomTreeFilesShared`.
pub record TreeSums : Type 0 where
  pub num_tree_dirs : ℕ
  pub num_files_non_shared : ℕ
  pub num_files_shared : ℕ
  pub num_bytes_non_shared : ℕ
  pub num_bytes_shared : ℕ

-- What it reads of the program's arguments.
pub record TotalsArgs : Type 0 where
  pub is_dir_path : Bool
  pub is_netbench : Bool
  pub is_s3_rand_obj_select : Bool
  pub use_random_offsets : Bool
  pub tree : Option TreeSums
  pub block_size : ℕ
  pub net_bench_resp_size : ℕ
  pub file_size : ℕ
  pub num_threads : ℕ
  pub num_dirs : ℕ
  pub num_files : ℕ
  pub num_data_set_threads : ℕ
  pub random_amount : ℕ
  pub num_bench_paths : ℕ
  pub num_hosts : ℕ

-- What the cases of a switch have in common.
pub data Kind : Type 0 where
  dirs data_files entries_only others : Kind

abbrev pub dir_kind : BenchPhase → Kind
dir_kind createdirs = dirs
dir_kind deletedirs = dirs
dir_kind putbucketacl = dirs
dir_kind getbucketacl = dirs
dir_kind createfiles = data_files
dir_kind readfiles = data_files
dir_kind deletefiles = entries_only
dir_kind statfiles = entries_only
dir_kind putobjacl = entries_only
dir_kind getobjacl = entries_only
dir_kind listobjparallel = entries_only
dir_kind _ = others

abbrev pub tree_kind : BenchPhase → Kind
tree_kind createdirs = dirs
tree_kind deletedirs = dirs
tree_kind createfiles = data_files
tree_kind readfiles = data_files
tree_kind deletefiles = entries_only
tree_kind statfiles = entries_only
tree_kind putobjacl = entries_only
tree_kind getobjacl = entries_only
tree_kind s3mpucomplete = entries_only
tree_kind _ = others

abbrev pub is_readfiles : BenchPhase → Bool
is_readfiles readfiles = true
is_readfiles _ = false

abbrev pub is_data_phase : BenchPhase → Bool
is_data_phase createfiles = true
is_data_phase readfiles = true
is_data_phase _ = false

-- `a / b` in C++
abbrev pub divide : ℕ → ℕ → Result ℕ
divide a b = if b == 0 then throws Error.division_by_zero else ok (a / b)

unfoldable pub dir_totals : TotalsArgs → BenchPhase → Kind → Result (ℕ × ℕ)
dir_totals a phase dirs = ok (a.num_dirs, 0)
dir_totals a phase data_files =
    let num_dirs = if not (a.num_dirs == 0) then a.num_dirs else 1 in
    let num_entries = mul64 num_dirs a.num_files in
    if is_readfiles phase && a.is_s3_rand_obj_select
    then (divide a.random_amount a.num_data_set_threads >>= λ bytes. ok (0, bytes))
    else ok (num_entries, mul64 num_entries a.file_size)
dir_totals a phase entries_only =
    let num_dirs = if not (a.num_dirs == 0) then a.num_dirs else 1 in
    ok (mul64 num_dirs a.num_files, 0)
dir_totals a phase others = ok (0, 0)

unfoldable pub tree_totals : TotalsArgs → TreeSums → Kind → Result (ℕ × ℕ)
tree_totals a t dirs = divide t.num_tree_dirs a.num_data_set_threads >>= λ n. ok (n, 0)
tree_totals a t data_files =
    divide (add64 t.num_files_non_shared t.num_files_shared) a.num_data_set_threads >>= λ n.
    divide (add64 t.num_bytes_non_shared t.num_bytes_shared) a.num_data_set_threads >>= λ bytes.
    ok (n, bytes)
tree_totals a t entries_only =
    divide (add64 t.num_files_non_shared t.num_files_shared) a.num_data_set_threads >>= λ n.
    ok (n, 0)
tree_totals a t others = ok (0, 0)

unfoldable pub file_totals : TotalsArgs → BenchPhase → Result (ℕ × ℕ)
file_totals a phase =
    if is_data_phase phase
    then (divide
          (if a.use_random_offsets then a.random_amount else mul64 a.num_bench_paths a.file_size)
          a.num_data_set_threads
        >>= λ bytes. ok (a.num_bench_paths, bytes))
    else ok (a.num_bench_paths, 0)

unfoldable pub netbench_bytes : TotalsArgs → ℕ
netbench_bytes a =
    let num_blocks = if a.block_size == 0 then 0 else a.file_size / a.block_size in
    mul64 (mul64 a.num_threads num_blocks) (add64 a.block_size a.net_bench_resp_size)

-- The values of a remote worker are those of all its threads.
unfoldable pub for_hosts : TotalsArgs → ℕ × ℕ → ℕ × ℕ
for_hosts a (entries, bytes) =
    if a.num_hosts == 0
    then (entries, bytes)
    else (mul64 entries a.num_threads, mul64 bytes a.num_threads)

-- `getPhaseNumEntriesAndBytes`; network benchmarks return before the multiplication for hosts.
unfoldable pub get_phase_num_entries_and_bytes : TotalsArgs → BenchPhase → Result (ℕ × ℕ)
get_phase_num_entries_and_bytes a phase =
    if a.is_dir_path && a.is_netbench
    then ok (0, netbench_bytes a)
    else ((if a.is_dir_path
          then elim (a.tree) [
            | none ↦ dir_totals a phase (dir_kind phase)
            | some t ↦ tree_totals a t (tree_kind phase)
          ]
          else file_totals a phase)
        >>= λ totals. ok (for_hosts a totals))
