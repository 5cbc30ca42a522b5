-- ===== src/DirMode/Entries.antt =====
-- `dirModeIterateFiles` and `dirModeIterateDirs` against the totals that the statistics expect.
use elbencho.Prelude.{
  ℕ, zero, suc, ◌*◌, ◌^◌, ◌<◌, ◌≡◌, ◌∙◌, refl, ap, sym, subst, arith, true, false, [], ◌∷◌, ◌++◌,
  length, length-append, ◌==◌, ==_iff, if◌then◌else◌, mul64, mul64-eq, Result, ok, throws, Error,
  Option, none, some,
}
use elbencho.Workers.{BenchPhase, createfiles, deletefiles, readfiles, statfiles}
use elbencho.DirMode.{
  Target, Outcome, success, DirOptions, Visits, ended, then_visit, entry, for_each, transfer_result,
  file_result, file_target, num_dir_rounds, dir_mode_iterate_files,
}
use elbencho.DirMode.Totals.{
  TotalsArgs, is_data_phase, dir_totals, for_hosts, get_phase_num_entries_and_bytes,
}

pub then_visit-ok :
    (a b : Visits)
    → a.ending ≡ ok tt
    → then_visit a b ≡ record {
      rank_dirs = a.rank_dirs ++ b.rank_dirs;
      entries = a.entries ++ b.entries;
      ending = b.ending;
    }
unfolding then_visit
then_visit-ok a b e = rw e refl

-- A loop of which no round ends the function.
pub for_each-ends :
    (n start : ℕ) (body : ℕ → Visits)
    → ((k : ℕ) → (body k).ending ≡ ok tt)
    → (for_each n start body).ending ≡ ok tt
unfolding for_each
for_each-ends zero start body h = refl
for_each-ends (suc n) start body h =
    ap (λ (v : Visits). v.ending)
      (then_visit-ok (body start) (for_each n (suc start) body) (h start))
    ∙ for_each-ends n (suc start) body h

length-for_each :
    (n start c : ℕ) (body : ℕ → Visits)
    → ((k : ℕ) → (body k).ending ≡ ok tt)
    → ((k : ℕ) → length (body k).entries ≡ c)
    → length (for_each n start body).entries ≡ n * c
unfolding for_each
length-for_each zero start c body h e = omega arith
length-for_each (suc n) start c body h e =
    let rest = for_each n (suc start) body in
    let joined : length (then_visit (body start) rest).entries
        ≡ length ((body start).entries ++ rest.entries) =
      ap (λ (v : Visits). length v.entries) (then_visit-ok (body start) rest (h start)) in
    omega (
      arith,
      joined,
      length-append (body start).entries rest.entries,
      e start,
      length-for_each n (suc start) c body h e,
    )

-- Every call succeeds, and every file is transferred in full.
pub record IsFine (call : Target → Outcome) (rw_file : Target → Result (Option ℕ)) (o : DirOptions)
    : Type 0 where
  pub calls : (t : Target) → call t ≡ success
  pub transfers : (t : Target) → rw_file t ≡ ok (some o.file_size)
  pub some_path : 0 < o.num_path_fds

pub data FilePhase : Type 0 where
  writes reads stats deletes : FilePhase

abbrev pub phase_of : FilePhase → BenchPhase
phase_of writes = createfiles
phase_of reads = readfiles
phase_of stats = statfiles
phase_of deletes = deletefiles

module _ (call : Target → Outcome) (rw_file : Target → Result (Option ℕ)) (o : DirOptions)
    (fine : IsFine call rw_file o) where
  pub some_path_lem : (o.num_path_fds == 0) ≡ false
  some_path_lem = let h = fine.some_path in ground arith

  transfer_lem : (t : Target) → transfer_result o.file_size (rw_file t) ≡ ok tt
  transfer_lem t =
      let same : (o.file_size == o.file_size) ≡ true = (==_iff o.file_size o.file_size).1 refl in
      rw (fine.transfers t, same) refl

  file_result_lem : (p : FilePhase) (t : Target) → file_result call rw_file o (phase_of p) t ≡ ok tt
  unfolding file_result
  file_result_lem writes t = transfer_lem t
  file_result_lem reads t = transfer_lem t
  file_result_lem stats t = rw (fine.calls t) refl
  file_result_lem deletes t = rw (fine.calls t) refl

  -- One round of the inner loop.
  pub file_round : FilePhase → ℕ → ℕ → ℕ → Visits
  file_round p rank dir_index file_index =
      let t = file_target o rank dir_index file_index in
      if o.num_path_fds == 0
      then ended (throws Error.division_by_zero)
      else entry t (file_result call rw_file o (phase_of p) t)

  pub file_round_lem :
      (p : FilePhase) (rank d f : ℕ)
      → file_round p rank d f
        ≡ record { rank_dirs = []; entries = file_target o rank d f ∷ []; ending = ok tt }
  unfolding file_round entry
  file_round_lem p rank d f = rw (some_path_lem, file_result_lem p (file_target o rank d f)) refl

  unfoldable pub files_of_dir : FilePhase → ℕ → ℕ → Visits
  unfolding file_round
  files_of_dir p rank d = for_each o.num_files 0 (file_round p rank d)

  pub files_of_dir-ends : (p : FilePhase) (rank d : ℕ) → (files_of_dir p rank d).ending ≡ ok tt
  unfolding files_of_dir
  files_of_dir-ends p rank d =
      for_each-ends o.num_files 0 (file_round p rank d)
        (λ f. ap (λ (v : Visits). v.ending) (file_round_lem p rank d f))

  length-files_of_dir :
      (p : FilePhase) (rank d : ℕ) → length (files_of_dir p rank d).entries ≡ o.num_files
  unfolding files_of_dir
  length-files_of_dir p rank d =
      length-for_each o.num_files 0 1 (file_round p rank d)
        (λ f. ap (λ (v : Visits). v.ending) (file_round_lem p rank d f))
        (λ f. ap (λ (v : Visits). length v.entries) (file_round_lem p rank d f))
      ∙ omega arith

  pub dir_mode_iterate_files-rounds :
      (p : FilePhase) (rank : ℕ)
      → dir_mode_iterate_files call rw_file o (phase_of p) rank
        ≡ for_each (num_dir_rounds o) 0 (files_of_dir p rank)
  unfolding dir_mode_iterate_files files_of_dir file_round
  dir_mode_iterate_files-rounds p rank = refl

  pub dir_mode_iterate_files-length :
      (p : FilePhase) (rank : ℕ)
      → ((dir_mode_iterate_files call rw_file o (phase_of p) rank).ending ≡ ok tt)
        × (length (dir_mode_iterate_files call rw_file o (phase_of p) rank).entries
            ≡ num_dir_rounds o * o.num_files)
  dir_mode_iterate_files-length p rank =
      let n = num_dir_rounds o in
      let e = sym (dir_mode_iterate_files-rounds p rank) in
      subst (λ (v : Visits). (v.ending ≡ ok tt) × (length v.entries ≡ n * o.num_files)) e
        (
          for_each-ends n 0 (files_of_dir p rank) (files_of_dir-ends p rank),
          length-for_each n 0 o.num_files (files_of_dir p rank) (files_of_dir-ends p rank)
              (length-files_of_dir p rank),
        )

-- The arguments of a local run in directory mode, with anything else of them.
abbrev pub dir_args : DirOptions → TotalsArgs → TotalsArgs
dir_args o a = record a {
  is_dir_path = true;
  is_netbench = false;
  is_s3_rand_obj_select = false;
  tree = none;
  num_dirs = o.num_dirs;
  num_files = o.num_files;
  file_size = o.file_size;
  num_hosts = 0;
}

totals_lem :
    (o : DirOptions) (a : TotalsArgs) (p : FilePhase) (n : ℕ)
    → n ≡ num_dir_rounds o
    → mul64 n o.num_files ≡ n * o.num_files
    → mul64 (n * o.num_files) o.file_size ≡ n * o.num_files * o.file_size
    → get_phase_num_entries_and_bytes (dir_args o a) (phase_of p)
      ≡ ok
          (n * o.num_files, if is_data_phase (phase_of p) then n * o.num_files * o.file_size else 0)
unfolding get_phase_num_entries_and_bytes dir_totals for_hosts
totals_lem o a writes n rounds e b = rw (sym rounds, e, b) refl
totals_lem o a reads n rounds e b = rw (sym rounds, e, b) refl
totals_lem o a stats n rounds e b = rw (sym rounds, e) refl
totals_lem o a deletes n rounds e b = rw (sym rounds, e) refl

-- In the phases that write, read, stat or delete files in directory mode, where every call succeeds
-- and every transfer is done in full, a worker ends without an error and has done as many entries as
-- the statistics expect of it, and in a write or read phase as many bytes, each entry a file of full
-- size. The totals are those of a local run without a custom tree, and are below 2^62.
pub dir_mode_iterate_files-get_phase_num_entries_and_bytes :
    (call : Target → Outcome) (rw_file : Target → Result (Option ℕ)) (o : DirOptions)
    (a : TotalsArgs) (p : FilePhase) (rank : ℕ)
    → IsFine call rw_file o
    → num_dir_rounds o * o.num_files < 2 ^ 62
    → num_dir_rounds o * o.num_files * o.file_size < 2 ^ 62
    → let v = dir_mode_iterate_files call rw_file o (phase_of p) rank in
      (v.ending ≡ ok tt)
      × (get_phase_num_entries_and_bytes (dir_args o a) (phase_of p)
          ≡ ok (
            length v.entries,
            if is_data_phase (phase_of p) then length v.entries * o.file_size else 0,
          ))
dir_mode_iterate_files-get_phase_num_entries_and_bytes call rw_file o a p rank fine entries_word
      bytes_word =
    let (ends, len) = dir_mode_iterate_files-length call rw_file o fine p rank in
    let n = num_dir_rounds o in
    let e = mul64-eq n o.num_files (omega arith) in
    let b = mul64-eq (n * o.num_files) o.file_size (omega arith) in
    (
      ends,
      subst
          (λ k.
            get_phase_num_entries_and_bytes (dir_args o a) (phase_of p)
            ≡ ok (k, if is_data_phase (phase_of p) then k * o.file_size else 0))
          (sym len) (totals_lem o a p n refl e b),
    )
