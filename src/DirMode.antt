-- ===== src/DirMode.antt =====
-- The directories and files of a benchmark in directory mode: `dirModeIterateDirs` and
-- `dirModeIterateFiles` of source/workers/LocalWorker.cpp. The checks for an interruption, the
-- latencies and inline stats are left out, and a path is taken to fit into its buffer.
pub mod Totals
pub mod Entries
pub mod Parents
use elbencho.Prelude.{
  ℕ, zero, suc, ◌+◌, ◌%◌, Bool, true, false, not, ◌||◌, ◌&&◌, List, [], ◌∷◌, ◌++◌, ◌==◌,
  if◌then◌else◌, add64, Result, ok, throws, Error, Option, none, some,
}
use elbencho.Workers.{
  BenchPhase, createdirs, deletedirs, createfiles, deletefiles, readfiles, statfiles,
}

-- "r%zu", "r%zu/d%zu", "r%zu/d%zu/r%zu-f%zu" and "r%zu-f%zu"
pub data PathName : Type 0 where
  rank_dir : (worker_dir_rank : ℕ) → PathName
  sub_dir : (worker_dir_rank dir_index : ℕ) → PathName
  sub_file : (worker_dir_rank dir_index worker_rank file_index : ℕ) → PathName
  top_file : (worker_rank file_index : ℕ) → PathName

pub record Target : Type 0 where
  pub path_fds_index : ℕ
  pub path : PathName

-- How a system call ends: with 0, or with EEXIST, ENOENT or another error.
pub data Outcome : Type 0 where
  success exists no_entry failure : Outcome

pub record DirOptions : Type 0 where
  pub num_dirs : ℕ
  pub num_files : ℕ
  pub file_size : ℕ
  pub num_path_fds : ℕ
  pub do_dir_sharing : Bool
  pub ignore_del_errors : Bool

-- What a worker has called until it ended: the calls for rank directories, and those that count as
-- entries done.
pub record Visits : Type 0 where
  pub rank_dirs : List Target
  pub entries : List Target
  pub ending : Result (Unit {0})

abbrev pub ended : Result (Unit {0}) → Visits
ended r = record { rank_dirs = []; entries = []; ending = r }

-- What comes after something that may have ended the function.
unfoldable pub then_visit : Visits → Visits → Visits
then_visit a b = elim (a.ending) [
  | ok u ↦ record {
    rank_dirs = a.rank_dirs ++ b.rank_dirs;
    entries = a.entries ++ b.entries;
    ending = b.ending;
  }
  | throws e ↦ a
]

unfoldable pub entry : Target → Result (Unit {0}) → Visits
entry t r = elim r [
  | ok u ↦ record { rank_dirs = []; entries = t ∷ []; ending = ok tt }
  | throws e ↦ ended (throws e)
]

unfoldable pub rank_entry : Target → Result (Unit {0}) → Visits
rank_entry t r = elim r [
  | ok u ↦ record { rank_dirs = t ∷ []; entries = []; ending = ok tt }
  | throws e ↦ ended (throws e)
]

-- `for(index = start; …)` over `n` indices.
unfoldable pub for_each : ℕ → ℕ → (ℕ → Visits) → Visits
for_each zero start body = ended (ok tt)
for_each (suc n) start body = let rest = for_each n (suc start) body in then_visit (body start) rest

abbrev pub worker_dir_rank : DirOptions → ℕ → ℕ
worker_dir_rank o rank = if o.do_dir_sharing then 0 else rank

abbrev pub path_fds_index_of : DirOptions → ℕ → ℕ → ℕ
path_fds_index_of o rank dir_index = add64 rank dir_index % o.num_path_fds

-- `mkdirat`
abbrev pub mkdir_result : Outcome → Result (Unit {0})
mkdir_result success = ok tt
mkdir_result exists = ok tt
mkdir_result _ = throws Error.worker_exception

-- `unlinkat`, where a missing entry is no error if errors of that kind are ignored.
abbrev pub remove_result : Bool → Outcome → Result (Unit {0})
remove_result ignore success = ok tt
remove_result ignore no_entry = if ignore then ok tt else throws Error.worker_exception
remove_result ignore _ = throws Error.worker_exception

abbrev pub stat_result : Outcome → Result (Unit {0})
stat_result success = ok tt
stat_result _ = throws Error.worker_exception

-- What an open, a transfer of the whole file and a close are taken for.
abbrev pub transfer_result : ℕ → Result (Option ℕ) → Result (Unit {0})
transfer_result file_size (throws e) = throws e
transfer_result file_size (ok none) = throws Error.worker_exception
transfer_result file_size (ok (some n)) =
    if n == file_size then ok tt else throws Error.worker_exception

abbrev pub dir_target : DirOptions → ℕ → ℕ → Target
dir_target o rank dir_index = record {
  path_fds_index = path_fds_index_of o rank dir_index;
  path = sub_dir (worker_dir_rank o rank) dir_index;
}

abbrev pub is_createdirs : BenchPhase → Bool
is_createdirs createdirs = true
is_createdirs _ = false

abbrev pub is_deletedirs : BenchPhase → Bool
is_deletedirs deletedirs = true
is_deletedirs _ = false

abbrev pub file_target : DirOptions → ℕ → ℕ → ℕ → Target
file_target o rank dir_index file_index = record {
  path_fds_index = path_fds_index_of o rank dir_index;
  path =
      if not (o.num_dirs == 0)
      then sub_file (worker_dir_rank o rank) dir_index rank file_index
      else top_file rank file_index;
}

-- The number of rounds of the loop over directories.
abbrev pub num_dir_rounds : DirOptions → ℕ
num_dir_rounds o = if not (o.num_dirs == 0) then o.num_dirs else 1

module _ (call : Target → Outcome) (rw_file : Target → Result (Option ℕ)) (o : DirOptions) where
  unfoldable pub dir_result : BenchPhase → Target → Result (Unit {0})
  dir_result createdirs t = mkdir_result (call t)
  dir_result deletedirs t = remove_result (o.do_dir_sharing || o.ignore_del_errors) (call t)
  dir_result _ t = ok tt

  unfoldable pub file_result : BenchPhase → Target → Result (Unit {0})
  file_result createfiles t = transfer_result o.file_size (rw_file t)
  file_result readfiles t = transfer_result o.file_size (rw_file t)
  file_result statfiles t = stat_result (call t)
  file_result deletefiles t = remove_result o.ignore_del_errors (call t)
  file_result _ t = ok tt

  -- A loop over the benchmark paths, for the directory of the rank.
  unfoldable pub rank_dirs_of : BenchPhase → ℕ → Visits
  rank_dirs_of phase rank = for_each o.num_path_fds 0 (λ i.
      let t : Target = record { path_fds_index = i; path = rank_dir (worker_dir_rank o rank) } in
      rank_entry t (dir_result phase t))

  unfoldable pub sub_dirs_of : BenchPhase → ℕ → Visits
  sub_dirs_of phase rank = for_each o.num_dirs 0 (λ dir_index.
      let t = dir_target o rank dir_index in
      if o.num_path_fds == 0
      then ended (throws Error.division_by_zero)
      else entry t (dir_result phase t))

  -- `dirModeIterateDirs`
  unfoldable pub dir_mode_iterate_dirs : BenchPhase → ℕ → Visits
  dir_mode_iterate_dirs phase rank =
      let before = if is_createdirs phase then rank_dirs_of phase rank else ended (ok tt) in
      let after = if is_deletedirs phase then rank_dirs_of phase rank else ended (ok tt) in
      if o.num_dirs == 0
      then ended (ok tt)
      else then_visit before (then_visit (sub_dirs_of phase rank) after)

  -- `dirModeIterateFiles`
  unfoldable pub dir_mode_iterate_files : BenchPhase → ℕ → Visits
  dir_mode_iterate_files phase rank = for_each (num_dir_rounds o) 0 (λ dir_index.
      for_each o.num_files 0 (λ file_index.
        let t = file_target o rank dir_index file_index in
        if o.num_path_fds == 0
        then ended (throws Error.division_by_zero)
        else entry t (file_result phase t)))
