-- ===== src/Workers/Starts.antt =====
-- The start of a phase, and the end that the manager waits for before it.
use elbencho.Prelude.{
  ℕ, zero, suc, ◌+◌, ◌^◌, ◌<◌, ◌≡◌, ◌≢◌, ◌∙◌, refl, ap, sym, subst, arith, Bool, true, false, ◌||◌,
  Bool-cases, inl, inr, map, length, length-set, replicate, length-replicate, set, All, ◌==◌,
  ==_iff, add64, add64-eq, ok, throws, ok-injective, Error, some,
}
use elbencho.Workers.{
  BenchPhase, is_terminate, Stage, preparing, counting, waiting, running, leaving, stopped, failing,
  failed, Worker, WorkersSharedData, worker_at, reset_stats, inc_num_workers_done_with_error,
  check_workers_done_unlocked, start_next_phase, new_worker,
}
use elbencho.Workers.Counts.{
  num, count, count-set, count_le, count_none, count_every, All-set, All-map, All-zip, length-map,
}
use elbencho.Workers.Phases.{prepare_threads}
use elbencho.Workers.Invariant.{counted_at, counted, failed_at, has_failed, Fits, IsFit, Inv}

pub inc_num_workers_done_with_error-Inv :
    (n : ℕ) (s : WorkersSharedData) (i : ℕ) (w : Worker)
    → n < 2 ^ 64
    → Inv n s
    → worker_at s.workers i ≡ some w
    → w.stage ≡ failing
    → Inv n (inc_num_workers_done_with_error s i w)
unfolding inc_num_workers_done_with_error
inc_num_workers_done_with_error-Inv n s i w small h at stage =
    let w' : Worker = record w { stage = failed } in
    let c = count-set (counted s.current_bench_id) s.workers i w w' at in
    let f = count-set has_failed s.workers i w w' at in
    let before : num (counted s.current_bench_id w) ≡ 0 =
      ap (λ st. num (counted_at st (w.bench_id == s.current_bench_id))) stage in
    let failed_before : num (has_failed w) ≡ 0 = ap (λ st. num (failed_at st)) stage in
    let most = count_le has_failed (set s.workers i w') in
    let len = length-set s.workers i w' in
    let total = h.total in
    let sum : add64 s.num_workers_done_with_error 1 ≡ s.num_workers_done_with_error + 1 =
      add64-eq s.num_workers_done_with_error 1 (omega (arith, h.errors)) in
    record {
      total = len ∙ total;
      fits = All-set (IsFit s) s.workers i w' h.fits tt;
      done = omega (arith, c, before, h.done);
      errors = sum ∙ omega (arith, h.errors);
    }

-- The manager found the workers done without an error: each of them is counted, none has failed.
pub everyone_counted :
    (n : ℕ) (signal : Bool) (s : WorkersSharedData)
    → n < 2 ^ 64
    → Inv n s
    → (check_workers_done_unlocked signal s).1 ≡ ok true
    → All (λ w. counted s.current_bench_id w ≡ true) s.workers
unfolding check_workers_done_unlocked
everyone_counted n signal s small h success =
    elim (Bool-cases (s.num_workers_done_with_error == 0)) [
      | inr errors ↦ let e : throws Error.worker_exception ≡ ok true = rw errors at success in cc
      | inl none_failed ↦
          let zero : s.num_workers_done_with_error ≡ 0 =
            (==_iff s.num_workers_done_with_error 0).0 none_failed in
          let e : ok (add64 s.num_workers_done s.num_workers_done_with_error == length s.workers)
              ≡ ok true =
            rw none_failed at success in
          let all =
            (==_iff (add64 s.num_workers_done s.num_workers_done_with_error) (length s.workers)).0
              (ok-injective e) in
          let most = count_le (counted s.current_bench_id) s.workers in
          let total = h.total in
          let done = h.done in
          let sum : add64 s.num_workers_done s.num_workers_done_with_error
              ≡ s.num_workers_done + s.num_workers_done_with_error =
            add64-eq s.num_workers_done s.num_workers_done_with_error (omega arith) in
          count_every (counted s.current_bench_id) s.workers (omega arith)
    ]

-- A counted worker that nobody has interrupted, in a phase that does not end the threads.
counted_waits :
    (id : ℕ) (st : Stage) (w : Worker)
    → Fits id false st w
    → counted_at st (w.bench_id == id) ≡ true
    → w.is_interruption_requested ≡ false
    → (st ≡ waiting) × (w.bench_id ≡ id)
counted_waits id preparing w h c i = cc
counted_waits id running w h c i = cc
counted_waits id counting w h c i = cc
counted_waits id waiting w h c i = (refl, (==_iff w.bench_id id).0 c)
counted_waits id leaving w h c i = cc
counted_waits id stopped w h c i = let e : (false || false) ≡ true = rw i at h in cc
counted_waits id failing w h c i = cc
counted_waits id failed w h c i = cc

-- A worker that waits with another ID fits the new phase, and is in no counter.
abbrev IsFresh : ℕ → Bool → Worker → Type 0
IsFresh id quits w = Fits id quits w.stage w × (counted id w ≡ false) × (has_failed w ≡ false)

reset_stats-IsFresh :
    (id new_id : ℕ) (quits : Bool) (w : Worker)
    → new_id ≢ id
    → (w.stage ≡ waiting) × (w.bench_id ≡ id)
    → IsFresh new_id quits (reset_stats w)
unfolding reset_stats
reset_stats-IsFresh id new_id quits w ne (stage, same) =
    let other : (w.bench_id == new_id) ≡ false = elim (Bool-cases (w.bench_id == new_id)) [
      | inl eq ↦ absurd (ne (sym ((==_iff w.bench_id new_id).0 eq) ∙ same))
      | inr e ↦ e
    ] in
    let at_waiting : Fits new_id quits waiting (reset_stats w)
        × (counted_at waiting (w.bench_id == new_id) ≡ false)
        × (failed_at waiting ≡ false) =
      (sym other, other, refl) in
    subst
      (λ st.
        Fits new_id quits st (reset_stats w)
        × (counted_at st (w.bench_id == new_id) ≡ false)
        × (failed_at st ≡ false))
      (sym stage) at_waiting

pub start_next_phase-Inv :
    (n : ℕ) (s : WorkersSharedData) (phase : BenchPhase) (bench_id now : ℕ) (signal : Bool)
    → n < 2 ^ 64
    → Inv n s
    → (check_workers_done_unlocked signal s).1 ≡ ok true
    → All (λ (w : Worker). w.is_interruption_requested ≡ false) s.workers
    → is_terminate s.current_bench_phase ≡ false
    → bench_id ≢ s.current_bench_id
    → Inv n (start_next_phase s phase bench_id now)
unfolding start_next_phase
start_next_phase-Inv n s phase bench_id now signal small h success friendly goes_on ne =
    let id = s.current_bench_id in
    let Waits : Worker → Type 0 = λ w. (w.stage ≡ waiting) × (w.bench_id ≡ id) in
    let Counted : Worker → Type 0 = λ w. IsFit s w × (counted id w ≡ true) in
    let both =
      All-zip (IsFit s) (λ w. counted id w ≡ true) Counted (λ w f c. (f, c)) s.workers h.fits
        (everyone_counted n signal s small h success) in
    let waits =
      All-zip Counted (λ w. w.is_interruption_requested ≡ false) Waits
        (λ w x i. counted_waits id w.stage w (subst (λ q. Fits id q w.stage w) goes_on x.0) x.1 i)
        s.workers both friendly in
    let fresh =
      All-map Waits (IsFresh bench_id (is_terminate phase)) reset_stats
        (λ w x. reset_stats-IsFresh id bench_id (is_terminate phase) w ne x) s.workers waits in
    let new = map reset_stats s.workers in
    let Fresh = IsFresh bench_id (is_terminate phase) in
    record {
      total = length-map reset_stats s.workers ∙ h.total;
      fits =
          All-zip Fresh Fresh (λ w. Fits bench_id (is_terminate phase) w.stage w) (λ w x y. x.0) new
            fresh fresh;
      done = sym (
          count_none (counted bench_id) new
            (All-zip Fresh Fresh (λ w. counted bench_id w ≡ false) (λ w x y. x.1) new fresh fresh));
      errors = sym (
          count_none has_failed new
            (All-zip Fresh Fresh (λ w. has_failed w ≡ false) (λ w x y. x.2) new fresh fresh));
    }

pub prepare_threads-Inv : (n now : ℕ) → Inv n (prepare_threads n now)
unfolding prepare_threads
prepare_threads-Inv n now = record {
  total = length-replicate n new_worker;
  fits = new_fits n;
  done = new_counted n;
  errors = new_failed n;
}
  where
    new_fits : (k : ℕ) → All (λ (w : Worker). Fits 0 false w.stage w) (replicate k new_worker)
    new_fits zero = tt
    new_fits (suc k) = ((refl, refl), new_fits k)

    new_counted : (k : ℕ) → 0 ≡ count (counted 0) (replicate k new_worker)
    new_counted zero = refl
    new_counted (suc k) = omega (arith, new_counted k)

    new_failed : (k : ℕ) → 0 ≡ count has_failed (replicate k new_worker)
    new_failed zero = refl
    new_failed (suc k) = omega (arith, new_failed k)
