-- ===== src/DirMode/Parents.antt =====
-- The files that a worker touches against the directories that it has made.
use native.Mathlib.Nat.{mod-lt}
use elbencho.Prelude.{
  ℕ, zero, suc, ◌+◌, ◌<◌, ◌≡◌, ◌∙◌, refl, ap, sym, subst, arith, false, List, [], ◌∷◌, ◌++◌, All,
  tabulate, ◌==◌, if◌then◌else◌, Result, ok, throws, Error, Option,
}
use elbencho.Workers.{createdirs}
use elbencho.DirMode.{
  Target, Outcome, DirOptions, rank_dir, sub_file, worker_dir_rank, Visits, ended, then_visit,
  entry, rank_entry, for_each, mkdir_result, dir_result, rank_dirs_of, dir_target, sub_dirs_of,
  dir_mode_iterate_dirs, file_target, num_dir_rounds, dir_mode_iterate_files,
}
use elbencho.DirMode.Entries.{
  then_visit-ok, IsFine, FilePhase, phase_of, some_path_lem, file_round, file_round_lem,
  files_of_dir, files_of_dir-ends, dir_mode_iterate_files-rounds,
}

append_nil : {A : Type 0} (xs : List A) → xs ++ [] ≡ xs
append_nil [] = refl
append_nil (x ∷ xs) = ap (λ ys. x ∷ ys) (append_nil xs)

-- A loop that makes an entry, or a rank directory, in each round.
for_each-entries :
    (n start : ℕ) (body : ℕ → Visits) (f : ℕ → Target)
    → ((k : ℕ) → body k ≡ record { rank_dirs = []; entries = f k ∷ []; ending = ok tt })
    → for_each n start body
      ≡ record { rank_dirs = []; entries = tabulate f start n; ending = ok tt }
unfolding for_each
for_each-entries zero start body f h = refl
for_each-entries (suc n) start body f h =
    let rest = for_each-entries n (suc start) body f h in
    ap (λ v. then_visit v (for_each n (suc start) body)) (h start)
    ∙ ap (λ v. then_visit (record { rank_dirs = []; entries = f start ∷ []; ending = ok tt }) v)
        rest
    ∙ then_visit-ok (record { rank_dirs = []; entries = f start ∷ []; ending = ok tt })
        (record { rank_dirs = []; entries = tabulate f (suc start) n; ending = ok tt }) refl

for_each-rank_dirs :
    (n start : ℕ) (body : ℕ → Visits) (f : ℕ → Target)
    → ((k : ℕ) → body k ≡ record { rank_dirs = f k ∷ []; entries = []; ending = ok tt })
    → for_each n start body
      ≡ record { rank_dirs = tabulate f start n; entries = []; ending = ok tt }
unfolding for_each
for_each-rank_dirs zero start body f h = refl
for_each-rank_dirs (suc n) start body f h =
    let rest = for_each-rank_dirs n (suc start) body f h in
    ap (λ v. then_visit v (for_each n (suc start) body)) (h start)
    ∙ ap (λ v. then_visit (record { rank_dirs = f start ∷ []; entries = []; ending = ok tt }) v)
        rest
    ∙ then_visit-ok (record { rank_dirs = f start ∷ []; entries = []; ending = ok tt })
        (record { rank_dirs = tabulate f (suc start) n; entries = []; ending = ok tt }) refl

All-append : (P : Target → Type 0) (xs ys : List Target) → All P xs → All P ys → All P (xs ++ ys)
All-append P [] ys h k = k
All-append P (x ∷ xs) ys (at, h) k = (at, All-append P xs ys h k)

-- What holds of the entries of each round holds of those of the loop.
for_each-All :
    (P : Target → Type 0) (n start : ℕ) (body : ℕ → Visits)
    → ((k : ℕ) → (body k).ending ≡ ok tt)
    → ((k : ℕ) → k < start + n → All P (body k).entries)
    → All P (for_each n start body).entries
unfolding for_each
for_each-All P zero start body h all = tt
for_each-All P (suc n) start body h all =
    let rest = for_each n (suc start) body in
    subst (λ (v : Visits). All P v.entries) (sym (then_visit-ok (body start) rest (h start)))
      (All-append P (body start).entries rest.entries (all start (omega arith))
        (for_each-All P n (suc start) body h (λ k lt. all k (omega arith))))

abbrev pub rank_dir_target : DirOptions → ℕ → ℕ → Target
rank_dir_target o rank i = record { path_fds_index = i; path = rank_dir (worker_dir_rank o rank) }

-- A file of a worker: in its directory `d`, on the benchmark path that has the directory.
abbrev pub IsInside : DirOptions → ℕ → Target → Type 0
IsInside o rank t =
    (d : ℕ) × (f : ℕ) × (d < o.num_dirs)
    × (f < o.num_files)
    × (t.path ≡ sub_file (worker_dir_rank o rank) d rank f)
    × (t.path_fds_index ≡ (dir_target o rank d).path_fds_index)
    × (t.path_fds_index < o.num_path_fds)

module _ (call : Target → Outcome) (rw_file : Target → Result (Option ℕ)) (o : DirOptions)
    (fine : IsFine call rw_file o) (some_dirs : 0 < o.num_dirs) where
  dirs_lem : (o.num_dirs == 0) ≡ false
  dirs_lem = ground arith

  made :
      (rank : ℕ)
      → dir_mode_iterate_dirs call rw_file o createdirs rank ≡ record {
        rank_dirs = tabulate (rank_dir_target o rank) 0 o.num_path_fds;
        entries = tabulate (dir_target o rank) 0 o.num_dirs;
        ending = ok tt;
      }
  unfolding dir_mode_iterate_dirs rank_dirs_of sub_dirs_of dir_result entry rank_entry then_visit
  made rank =
      let ranks =
        for_each-rank_dirs o.num_path_fds 0
          (λ i.
            rank_entry (rank_dir_target o rank i) (mkdir_result (call (rank_dir_target o rank i))))
          (rank_dir_target o rank) (λ i. rw (fine.calls (rank_dir_target o rank i)) refl) in
      let subs =
        for_each-entries o.num_dirs 0
          (λ d.
            if o.num_path_fds == 0
            then ended (throws Error.division_by_zero)
            else entry (dir_target o rank d) (mkdir_result (call (dir_target o rank d))))
          (dir_target o rank)
          (λ d. rw (some_path_lem call rw_file o fine, fine.calls (dir_target o rank d)) refl) in
      rw
        (
          dirs_lem,
          ranks,
          subs,
          append_nil (tabulate (rank_dir_target o rank) 0 o.num_path_fds),
          append_nil (tabulate (dir_target o rank) 0 o.num_dirs),
        )
        refl

  inside :
      (p : FilePhase) (rank : ℕ)
      → All (IsInside o rank) (dir_mode_iterate_files call rw_file o (phase_of p) rank).entries
  unfolding files_of_dir
  inside p rank =
      let rounds : num_dir_rounds o ≡ o.num_dirs = rw dirs_lem refl in
      let round = file_round_lem call rw_file o fine p rank in
      subst (λ (v : Visits). All (IsInside o rank) v.entries)
        (sym (dir_mode_iterate_files-rounds call rw_file o fine p rank))
        (for_each-All (IsInside o rank) (num_dir_rounds o) 0
          (files_of_dir call rw_file o fine p rank) (files_of_dir-ends call rw_file o fine p rank)
          (λ d d_lt.
            for_each-All (IsInside o rank) o.num_files 0 (file_round call rw_file o fine p rank d)
              (λ f. ap (λ (v : Visits). v.ending) (round d f))
              (λ f f_lt.
                subst (λ (v : Visits). All (IsInside o rank) v.entries) (sym (round d f))
                  (
                    (
                      d,
                      f,
                      omega (arith, rounds),
                      omega arith,
                      rw dirs_lem refl,
                      refl,
                      mod-lt _ fine.some_path,
                    ),
                    tt,
                  ))))

sub_file-injective :
    {a b c d a' b' c' d' : ℕ}
    → sub_file a b c d ≡ sub_file a' b' c' d'
    → (b ≡ b') × (c ≡ c') × (d ≡ d')
sub_file-injective e = (cc, cc, cc)

-- With directories, where every call succeeds: the directory phase of a worker makes its rank
-- directory on every benchmark path and each of its directories once, on the path that the round
-- robin gives it; every file that the worker then touches is inside one of these directories on the
-- path that has it; and two files that are the same one are of the same worker, directory and index,
-- also if the workers share their directories.
pub dir_mode_iterate_files-IsInside :
    (call : Target → Outcome) (rw_file : Target → Result (Option ℕ)) (o : DirOptions)
    (p : FilePhase) (rank : ℕ)
    → IsFine call rw_file o
    → 0 < o.num_dirs
    → (dir_mode_iterate_dirs call rw_file o createdirs rank ≡ record {
      rank_dirs = tabulate (rank_dir_target o rank) 0 o.num_path_fds;
      entries = tabulate (dir_target o rank) 0 o.num_dirs;
      ending = ok tt;
    })
      × All (IsInside o rank) (dir_mode_iterate_files call rw_file o (phase_of p) rank).entries
      × ((other d f d' f' : ℕ)
          → file_target o rank d f ≡ file_target o other d' f'
          → (d ≡ d') × (rank ≡ other) × (f ≡ f'))
dir_mode_iterate_files-IsInside call rw_file o p rank fine some_dirs =
    let yes_dirs = dirs_lem call rw_file o fine some_dirs in
    (
      made call rw_file o fine some_dirs rank,
      inside call rw_file o fine some_dirs p rank,
      λ other d f d' f' e.
          let q : (file_target o rank d f).path ≡ (file_target o other d' f').path =
            ap (λ (t : Target). t.path) e in
          let q' : sub_file (worker_dir_rank o rank) d rank f
              ≡ sub_file (worker_dir_rank o other) d' other f' =
            rw yes_dirs at q in
          sub_file-injective q',
    )
