-- ===== src/Workers/Idle.antt =====
-- What the invariant means for the manager.
use elbencho.Prelude.{
  ℕ, ◌^◌, ◌<◌, ◌≡◌, ◌∙◌, refl, ap, arith, Bool, true, false, inl, inr, ◌⊎◌, ◌↔◌, length, All, ◌==◌,
  ==_iff, add64, add64-eq, ok,
}
use elbencho.Workers.{
  is_terminate, Stage, preparing, counting, waiting, running, leaving, stopped, failing, failed,
  Worker, WorkersSharedData, check_workers_done_unlocked,
}
use elbencho.Workers.Counts.{count_none, count_full, All-zip}
use elbencho.Workers.Phases.{Reach}
use elbencho.Workers.Invariant.{counted_at, counted, failed_at, has_failed, Fits, IsFit}
use elbencho.Workers.Starts.{everyone_counted}
use elbencho.Workers.Steps.{Reach-Inv}

-- The worker has finished the phase that the manager started: it waits for another ID, or it has
-- returned without an error.
abbrev pub IsIdle : WorkersSharedData → Worker → Type 0
IsIdle s w =
    ((w.stage ≡ waiting) × (w.bench_id ≡ s.current_bench_id) × (w.phase_finished ≡ true))
    ⊎ (w.stage ≡ stopped)

idle_at :
    (id : ℕ) (st : Stage) (w : Worker)
    → (quits : Bool) → Fits id quits st w
    → counted_at st (w.bench_id == id) ≡ true
    → ((st ≡ waiting) × (w.bench_id ≡ id) × (w.phase_finished ≡ true)) ⊎ (st ≡ stopped)
idle_at id preparing w quits h c = cc
idle_at id running w quits h c = cc
idle_at id counting w quits h c = cc
idle_at id waiting w quits h c = inl (refl, (==_iff w.bench_id id).0 c, h ∙ c)
idle_at id leaving w quits h c = cc
idle_at id stopped w quits h c = inr refl
idle_at id failing w quits h c = cc
idle_at id failed w quits h c = cc

idle_counted :
    (s : WorkersSharedData) (w : Worker)
    → IsIdle s w
    → (counted s.current_bench_id w ≡ true) × (has_failed w ≡ false)
idle_counted s w (inl (stage, same, finished)) = (
  ap (λ x. counted_at x (w.bench_id == s.current_bench_id)) stage
      ∙ (==_iff w.bench_id s.current_bench_id).1 same,
  ap failed_at stage,
)
idle_counted s w (inr stage) =
    (ap (λ x. counted_at x (w.bench_id == s.current_bench_id)) stage, ap failed_at stage)

-- In every state that the threads and the manager can reach, the check of the manager says that
-- the workers are done exactly when each worker has finished the phase that was started last, and
-- waits for the next ID or has returned without an error. There are fewer than 2^64 workers.
pub check_workers_done_unlocked-IsIdle :
    (n : ℕ) (run_as_service signal : Bool) (s : WorkersSharedData)
    → n < 2 ^ 64
    → Reach run_as_service n s
    → ((check_workers_done_unlocked signal s).1 ≡ ok true) ↔ All (IsIdle s) s.workers
unfolding check_workers_done_unlocked
check_workers_done_unlocked-IsIdle n service signal s small r =
    let h = Reach-Inv n service small r in
    let id = s.current_bench_id in
    let quits = is_terminate s.current_bench_phase in
    let IsCounted : Worker → Type 0 = λ w. counted id w ≡ true in
    let HasNot : Worker → Type 0 = λ w. has_failed w ≡ false in
    (
      λ success.
          All-zip (IsFit s) IsCounted (IsIdle s) (λ w f c. idle_at id w.stage w quits f c) s.workers
            h.fits (everyone_counted n signal s small h success),
      λ idle.
          let full = count_full (counted id) s.workers (
            All-zip (IsIdle s) (IsIdle s) IsCounted (λ w x y. (idle_counted s w x).0) s.workers idle
              idle) in
          let none = count_none has_failed s.workers (
            All-zip (IsIdle s) (IsIdle s) HasNot (λ w x y. (idle_counted s w x).1) s.workers idle
              idle) in
          let total = h.total in
          let done : s.num_workers_done ≡ length s.workers = h.done ∙ full in
          let no_errors : s.num_workers_done_with_error ≡ 0 = h.errors ∙ none in
          let zero : (s.num_workers_done_with_error == 0) ≡ true =
            (==_iff s.num_workers_done_with_error 0).1 no_errors in
          let sum : add64 s.num_workers_done s.num_workers_done_with_error ≡ length s.workers =
            add64-eq s.num_workers_done s.num_workers_done_with_error (omega arith) ∙ omega arith in
          let all : (add64 s.num_workers_done s.num_workers_done_with_error == length s.workers)
              ≡ true =
            (==_iff (add64 s.num_workers_done s.num_workers_done_with_error) (length s.workers)).1
              sum in
          rw (zero, all) refl,
    )
