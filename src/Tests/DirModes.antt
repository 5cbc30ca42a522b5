-- ===== src/Tests/DirModes.antt =====
-- Directories and files of directory mode in source/workers/LocalWorker.cpp at concrete inputs.
use elbencho.Prelude.{
  ℕ, ◌*◌, ◌≡◌, refl, arith, true, false, [], ◌∷◌, length, All, tabulate, Result, ok, throws, Error,
  Option, none, some, add64, mul64, if◌then◌else◌,
}
use elbencho.Workers.{createdirs, createfiles, deletefiles}
use elbencho.DirMode.{
  Target, Outcome, success, no_entry, DirOptions, sub_file, then_visit, entry, for_each,
  file_result, dir_target, dir_mode_iterate_dirs, file_target, dir_mode_iterate_files,
}
use elbencho.DirMode.Totals.{
  TotalsArgs, is_data_phase, dir_totals, for_hosts, get_phase_num_entries_and_bytes,
}
use elbencho.DirMode.Entries.{
  IsFine, writes, phase_of, dir_args, dir_mode_iterate_files-get_phase_num_entries_and_bytes,
}
use elbencho.DirMode.Parents.{rank_dir_target, IsInside, dir_mode_iterate_files-IsInside}

-- Two directories with three files of 4096 bytes for each worker, on two paths, in shared
-- directories.
abbrev options : DirOptions
options = record {
  num_dirs = 2;
  num_files = 3;
  file_size = 4096;
  num_path_fds = 2;
  do_dir_sharing = true;
  ignore_del_errors = false;
}

abbrev all_succeed : Target → Outcome
all_succeed t = success

abbrev all_written : Target → Result (Option ℕ)
all_written t = ok (some 4096)

options-IsFine : IsFine all_succeed all_written options
options-IsFine = record { calls = λ t. refl; transfers = λ t. refl; some_path = omega arith }

abbrev other_args : TotalsArgs
other_args = record {
  is_dir_path = true;
  is_netbench = false;
  is_s3_rand_obj_select = false;
  use_random_offsets = false;
  tree = none;
  block_size = 4096;
  net_bench_resp_size = 1;
  file_size = 4096;
  num_threads = 4;
  num_dirs = 2;
  num_files = 3;
  num_data_set_threads = 4;
  random_amount = 0;
  num_bench_paths = 2;
  num_hosts = 0;
}

totals_run :
    get_phase_num_entries_and_bytes (dir_args options other_args) createfiles ≡ ok (6, 24576)
unfolding get_phase_num_entries_and_bytes dir_totals for_hosts mul64
totals_run = refl

-- The second worker in the shared directories, whose first one it finds on the second path.
second_worker :
    (dir_mode_iterate_files all_succeed all_written options createfiles 1).entries
    ≡ record { path_fds_index = 1; path = sub_file 0 0 1 0 }
      ∷ record { path_fds_index = 1; path = sub_file 0 0 1 1 }
      ∷ record { path_fds_index = 1; path = sub_file 0 0 1 2 }
      ∷ record { path_fds_index = 0; path = sub_file 0 1 1 0 }
      ∷ record { path_fds_index = 0; path = sub_file 0 1 1 1 }
      ∷ record { path_fds_index = 0; path = sub_file 0 1 1 2 }
      ∷ []
unfolding dir_mode_iterate_files for_each then_visit entry file_result add64
second_worker = refl

-- A missing file ends a deletion unless such errors are ignored.
abbrev all_missing : Target → Outcome
all_missing t = no_entry

missing_run :
    (dir_mode_iterate_files all_missing all_written options deletefiles 1).ending
    ≡ throws Error.worker_exception
unfolding dir_mode_iterate_files for_each then_visit entry file_result add64
missing_run = refl

dir_mode_iterate_files-get_phase_num_entries_and_bytes_example :
    let v = dir_mode_iterate_files all_succeed all_written options (phase_of writes) 1 in
    (v.ending ≡ ok tt)
    × (get_phase_num_entries_and_bytes (dir_args options other_args) (phase_of writes)
        ≡ ok (
          length v.entries,
          if is_data_phase (phase_of writes) then length v.entries * 4096 else 0,
        ))
dir_mode_iterate_files-get_phase_num_entries_and_bytes_example =
    dir_mode_iterate_files-get_phase_num_entries_and_bytes all_succeed all_written options
      other_args writes 1 options-IsFine (omega arith) (omega arith)

dir_mode_iterate_files-IsInside_example :
    (dir_mode_iterate_dirs all_succeed all_written options createdirs 1 ≡ record {
      rank_dirs = tabulate (rank_dir_target options 1) 0 2;
      entries = tabulate (dir_target options 1) 0 2;
      ending = ok tt;
    })
    × All
        (IsInside options 1)
        (dir_mode_iterate_files all_succeed all_written options (phase_of writes) 1).entries
    × ((other d f d' f' : ℕ)
        → file_target options 1 d f ≡ file_target options other d' f'
        → (d ≡ d') × (1 ≡ other) × (f ≡ f'))
dir_mode_iterate_files-IsInside_example =
    dir_mode_iterate_files-IsInside all_succeed all_written options writes 1 options-IsFine
      (omega arith)
