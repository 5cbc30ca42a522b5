-- ===== src/Workers/StoneWall.antt =====
-- The stonewall statistics: what the first worker to finish with work has recorded of all of them.
use elbencho.Prelude.{
  ℕ, ◌^◌, ◌<◌, ◌≡◌, ◌∙◌, refl, ap, sym, subst, arith, Bool, true, false, Bool-cases, inl, inr, All,
  ◌==◌, if◌then◌else◌, ok, some,
}
use elbencho.Workers.{
  is_terminate, get_and_add_ops, counting, waiting, running, leaving, stopped, failing, failed,
  Worker, WorkersSharedData, worker_at, put, finish_phase, inc_num_workers_done_with_error,
  check_workers_done_unlocked,
}
use elbencho.Workers.Counts.{count_full, All-at}
use elbencho.Workers.Phases.{
  is_interruptible, interrupted, Step, prepared, count_done, count_leaving, count_failed, wake,
  work, work_read_mix, set_work, finish, quit, catch_interrupted, catch_exception, interrupt, start,
  Reach, begin, later,
}
use elbencho.Workers.Invariant.{counted_at, counted, IsFit, Inv}
use elbencho.Workers.Starts.{everyone_counted}
use elbencho.Workers.Steps.{finished_counted, Step-Inv, Reach-Inv}
use elbencho.Workers.Wall.{
  GotNoWork, IsRecorded, Wall, get_and_add_ops-IsBelow, inc_num_workers_done-Wall, interrupt-Wall,
  move-Wall, prepare_threads-Wall, put-Wall, start_next_phase-Wall,
}

catch_interrupted-Wall :
    (service b : Bool) (s : WorkersSharedData) (i now : ℕ) (w : Worker)
    → Wall service b s
    → worker_at s.workers i ≡ some w
    → IsFit s w
    → is_interruptible w.stage ≡ true
    → Wall service b (put s i (interrupted s now w))
unfolding interrupted finish_phase
catch_interrupted-Wall service b s i now w h at fit can =
    let was =
      finished_counted s.current_bench_id (is_terminate s.current_bench_phase) w.stage w fit can in
    let handler : Bool → Worker = λ f.
      if f
      then record w { stage = stopped }
      else record (finish_phase s now w) { stage = leaving } in
    elim (Bool-cases w.phase_finished) [
      | inl twice ↦
          let e =
            put-Wall service b s i w h at (record w { stage = stopped }) refl
              (λ late c. late (was ∙ twice)) (λ x. x) in
          subst (λ x. Wall service b (put s i x)) (sym (ap handler twice)) e
      | inr once ↦
          let e =
            move-Wall service b s i w h at (record (finish_phase s now w) { stage = leaving }) refl
              refl (λ x. x) in
          subst (λ x. Wall service b (put s i x)) (sym (ap handler once)) e
    ]

count_failed-Wall :
    (service b : Bool) (s : WorkersSharedData) (i : ℕ) (w : Worker)
    → Wall service b s
    → worker_at s.workers i ≡ some w
    → Wall service b (inc_num_workers_done_with_error s i w)
unfolding inc_num_workers_done_with_error
count_failed-Wall service b s i w h at =
    let moved = move-Wall service b s i w h at (record w { stage = failed }) refl refl (λ x. x) in
    record {
      all_same = moved.all_same;
      too_early = moved.too_early;
      not_last = moved.not_last;
      recorded = moved.recorded;
    }

-- A worker in a phase is in no counter.
counted_running : (id : ℕ) (w : Worker) → w.stage ≡ running → counted id w ≡ false
counted_running id w stage = ap (λ x. counted_at x (w.bench_id == id)) stage

Step-Wall :
    (n : ℕ) (service b : Bool) {s t : WorkersSharedData}
    → 0 < n
    → n < 2 ^ 64
    → Inv n s
    → Wall service b s
    → Step service s t
    → (b' : Bool) × Wall service b' t
unfolding finish_phase
Step-Wall n service b {s} some_workers small inv h (prepared i w at stage) = (
  b,
  move-Wall service b s i w h at (record w { phase_finished = true; stage = counting }) refl refl
      (λ x. x),
)
Step-Wall n service b {s} some_workers small inv h (count_done i w at stage) =
    inc_num_workers_done-Wall n service b s i w waiting small inv h at
Step-Wall n service b {s} some_workers small inv h (count_leaving i w at stage) =
    inc_num_workers_done-Wall n service b s i w stopped small inv h at
Step-Wall n service b {s} some_workers small inv h (count_failed i w at stage) =
    (b, count_failed-Wall service b s i w h at)
Step-Wall n service b {s} some_workers small inv h (wake i w at stage friendly other) = (
  b,
  move-Wall service b s i w h at (record w { stage = running; bench_id = s.current_bench_id }) refl
      refl (λ x. x),
)
Step-Wall n service b {s} some_workers small inv h (work i w ops at stage room) = (
  b,
  move-Wall service b s i w h at (record w { live_ops = get_and_add_ops ops w.live_ops }) refl
      (counted_running s.current_bench_id w stage)
      (λ x. (get_and_add_ops-IsBelow w.stone_wall_ops ops w.live_ops room x.0, x.1)),
)
Step-Wall n service b {s} some_workers small inv h (work_read_mix i w ops at stage room) = (
  b,
  move-Wall service b s i w h at
      (record w { live_ops_read_mix = get_and_add_ops ops w.live_ops_read_mix }) refl
      (counted_running s.current_bench_id w stage)
      (λ x.
        (x.0, get_and_add_ops-IsBelow w.stone_wall_ops_read_mix ops w.live_ops_read_mix room x.1)),
)
Step-Wall n service b {s} some_workers small inv h (set_work i w got at stage) = (
  b,
  move-Wall service b s i w h at (record w { worker_got_phase_work = got }) refl
      (counted_running s.current_bench_id w stage) (λ x. x),
)
Step-Wall n service b {s} some_workers small inv h (finish i w now at stage goes_on) = (
  b,
  move-Wall service b s i w h at (record (finish_phase s now w) { stage = counting }) refl refl
      (λ x. x),
)
Step-Wall n service b {s} some_workers small inv h (quit i w at stage ends) =
    (b, move-Wall service b s i w h at (record w { stage = leaving }) refl refl (λ x. x))
Step-Wall n service b {s} some_workers small inv h (catch_interrupted i w now at can asked) = (
  b,
  catch_interrupted-Wall service b s i now w h at (All-at (IsFit s) s.workers i w inv.fits at) can,
)
Step-Wall n service b {s} some_workers small inv h (catch_exception i w at can) =
    (b, move-Wall service b s i w h at (record w { stage = failing }) refl refl (λ x. x))
Step-Wall n service b {s} some_workers small inv h interrupt = (b, interrupt-Wall service b s h)
Step-Wall n service b {s} some_workers small inv h
      (start phase bench_id now signal success friendly goes_on ne) =
    (
      false,
      start_next_phase-Wall n service s phase bench_id now some_workers inv.total
          (Step-Inv n service small inv
            (start phase bench_id now signal success friendly goes_on ne))
          h.recorded,
    )

Reach-Wall :
    (n : ℕ) (service : Bool) {s : WorkersSharedData}
    → 0 < n
    → n < 2 ^ 64
    → Reach service n s
    → (b : Bool) × Wall service b s
Reach-Wall n service some_workers small (begin now) =
    (false, prepare_threads-Wall n now service some_workers)
Reach-Wall n service some_workers small (later r step) =
    let (b, h) = Reach-Wall n service some_workers small r in
    Step-Wall n service b some_workers small (Reach-Inv n service small r) h step

abbrev pub IsTaken : Worker → Type 0
IsTaken w = w.stone_wall_triggered ≡ true

taken :
    (n : ℕ) (service b signal : Bool) (s : WorkersSharedData)
    → Wall service b s
    → Inv n s
    → ((check_workers_done_unlocked signal s).1 ≡ ok true
        → All (λ w. counted s.current_bench_id w ≡ true) s.workers)
    → All IsRecorded s.workers
      × ((i : ℕ) (w : Worker)
          → worker_at s.workers i ≡ some w
          → counted s.current_bench_id w ≡ true
          → w.worker_got_phase_work ≡ true
          → All IsTaken s.workers)
      × (service ≡ false
          → (check_workers_done_unlocked signal s).1 ≡ ok true
          → All IsTaken s.workers)
taken n service true signal s h inv all =
    (h.recorded, λ i w at c got. h.all_same, λ local success. h.all_same)
taken n service false signal s h inv all = (
  h.recorded,
  λ i w at c got.
      let late = All-at (GotNoWork s.current_bench_id) s.workers i w (h.too_early refl) at c in
      let e : true ≡ false = sym got ∙ late in cc,
  λ local success.
      let full = count_full (counted s.current_bench_id) s.workers (all success) in
      let open_still = h.not_last local refl in absurd (omega (arith, inv.done)),
)

-- In every state that the threads and the manager can reach: no worker's stonewall counters are
-- above its live counters, nor those of the read mix above theirs; once a worker that had work is counted as done, the statistics have been
-- taken of every worker; and, unless the program is a service, they have been taken of every worker
-- when the manager finds the workers done, even if none had work. There is at least one worker
-- and fewer than 2^64, and no live counter wraps around in a phase (a condition of the steps that
-- count operations).
pub create_stone_wall_stats-IsTaken :
    (n : ℕ) (run_as_service signal : Bool) (s : WorkersSharedData)
    → 0 < n
    → n < 2 ^ 64
    → Reach run_as_service n s
    → All IsRecorded s.workers
      × ((i : ℕ) (w : Worker)
          → worker_at s.workers i ≡ some w
          → counted s.current_bench_id w ≡ true
          → w.worker_got_phase_work ≡ true
          → All IsTaken s.workers)
      × (run_as_service ≡ false
          → (check_workers_done_unlocked signal s).1 ≡ ok true
          → All IsTaken s.workers)
create_stone_wall_stats-IsTaken n service signal s some_workers small r =
    let (b, h) = Reach-Wall n service some_workers small r in
    let inv = Reach-Inv n service small r in
    let all = everyone_counted n signal s small inv in taken n service b signal s h inv all
