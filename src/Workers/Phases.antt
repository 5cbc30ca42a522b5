-- ===== src/Workers/Phases.antt =====
-- The steps of the workers' threads and of the manager.
use elbencho.Prelude.{
  ℕ, ◌+◌, ◌^◌, ◌<◌, ◌≡◌, ◌≢◌, Bool, true, false, replicate, All, ◌==◌, if◌then◌else◌, ok, some,
}
use elbencho.Workers.{
  BenchPhase, idle, is_terminate, LiveOps, get_and_add_ops, Stage, preparing, counting, waiting,
  running, leaving, stopped, failing, Worker, WorkersSharedData, worker_at, put, finish_phase,
  inc_num_workers_done, inc_num_workers_done_with_error, interrupt_and_notify_workers_unlocked,
  check_workers_done_unlocked, start_next_phase, new_worker,
}

-- `WorkerInterruptedException` can come of a stage, and another exception.
abbrev pub is_interruptible : Stage → Bool
is_interruptible preparing = true
is_interruptible waiting = true
is_interruptible running = true
is_interruptible _ = false

abbrev pub can_fail : Stage → Bool
can_fail preparing = true
can_fail running = true
can_fail _ = false

-- The handler of `WorkerInterruptedException`.
unfoldable pub interrupted : WorkersSharedData → ℕ → Worker → Worker
interrupted s now w =
    if w.phase_finished
    then record w { stage = stopped }
    else record (finish_phase s now w) { stage = leaving }

-- The counters of a worker do not wrap around when it adds to them.
abbrev pub IsRoom : LiveOps → LiveOps → Type 0
IsRoom a b =
    (a.num_entries_done + b.num_entries_done < 2 ^ 64)
    × (a.num_bytes_done + b.num_bytes_done < 2 ^ 64)
    × (a.num_iops_done + b.num_iops_done < 2 ^ 64)

-- One step of worker `i`, that is `w`, or of the manager. The Boolean is `getRunAsService`.
pub data Step (run_as_service : Bool) (s : WorkersSharedData) : WorkersSharedData → Type 0 where
  prepared :
      (i : ℕ) (w : Worker)
      → worker_at s.workers i ≡ some w
      → w.stage ≡ preparing
      → Step run_as_service s (put s i (record w { phase_finished = true; stage = counting }))
  count_done :
      (i : ℕ) (w : Worker)
      → worker_at s.workers i ≡ some w
      → w.stage ≡ counting
      → Step run_as_service s (inc_num_workers_done run_as_service s i w waiting)
  count_leaving :
      (i : ℕ) (w : Worker)
      → worker_at s.workers i ≡ some w
      → w.stage ≡ leaving
      → Step run_as_service s (inc_num_workers_done run_as_service s i w stopped)
  count_failed :
      (i : ℕ) (w : Worker)
      → worker_at s.workers i ≡ some w
      → w.stage ≡ failing
      → Step run_as_service s (inc_num_workers_done_with_error s i w)
  -- `waitForNextPhase` returns, and `run` takes the new ID: one step, since the manager starts no
  -- other phase while this worker is not done.
  wake :
      (i : ℕ) (w : Worker)
      → worker_at s.workers i ≡ some w
      → w.stage ≡ waiting
      → w.is_interruption_requested ≡ false
      → (w.bench_id == s.current_bench_id) ≡ false
      → Step run_as_service s
          (put s i (record w { stage = running; bench_id = s.current_bench_id }))
  work :
      (i : ℕ) (w : Worker) (ops : LiveOps)
      → worker_at s.workers i ≡ some w
      → w.stage ≡ running
      → IsRoom w.live_ops ops
      → Step run_as_service s (put s i (record w { live_ops = get_and_add_ops ops w.live_ops }))
  work_read_mix :
      (i : ℕ) (w : Worker) (ops : LiveOps)
      → worker_at s.workers i ≡ some w
      → w.stage ≡ running
      → IsRoom w.live_ops_read_mix ops
      → Step run_as_service s
          (put s i (record w { live_ops_read_mix = get_and_add_ops ops w.live_ops_read_mix }))
  -- A phase sets the flag where it finds that the worker has nothing to do, and back where it does.
  set_work :
      (i : ℕ) (w : Worker) (got : Bool)
      → worker_at s.workers i ≡ some w
      → w.stage ≡ running
      → Step run_as_service s (put s i (record w { worker_got_phase_work = got }))
  finish :
      (i : ℕ) (w : Worker) (now : ℕ)
      → worker_at s.workers i ≡ some w
      → w.stage ≡ running
      → is_terminate s.current_bench_phase ≡ false
      → Step run_as_service s (put s i (record (finish_phase s now w) { stage = counting }))
  -- The case `BenchPhase_TERMINATE` of the switch.
  quit :
      (i : ℕ) (w : Worker)
      → worker_at s.workers i ≡ some w
      → w.stage ≡ running
      → is_terminate s.current_bench_phase ≡ true
      → Step run_as_service s (put s i (record w { stage = leaving }))
  catch_interrupted :
      (i : ℕ) (w : Worker) (now : ℕ)
      → worker_at s.workers i ≡ some w
      → is_interruptible w.stage ≡ true
      → w.is_interruption_requested ≡ true
      → Step run_as_service s (put s i (interrupted s now w))
  catch_exception :
      (i : ℕ) (w : Worker)
      → worker_at s.workers i ≡ some w
      → can_fail w.stage ≡ true
      → Step run_as_service s (put s i (record w { stage = failing }))
  -- On an error, a signal, a time limit or an exception of the main thread.
  interrupt : Step run_as_service s (interrupt_and_notify_workers_unlocked s)
  -- The main thread starts a phase after it found the workers done without an error, unless it
  -- has interrupted them or has told them to terminate; a new UUID is none that was used before.
  start :
      (phase : BenchPhase) (bench_id now : ℕ) (signal : Bool)
      → (check_workers_done_unlocked signal s).1 ≡ ok true
      → All (λ (w : Worker). w.is_interruption_requested ≡ false) s.workers
      → is_terminate s.current_bench_phase ≡ false
      → bench_id ≢ s.current_bench_id
      → Step run_as_service s (start_next_phase s phase bench_id now)

-- `prepareThreads` up to the start of the threads.
unfoldable pub prepare_threads : ℕ → ℕ → WorkersSharedData
prepare_threads num_threads now = record {
  workers = replicate num_threads new_worker;
  current_bench_phase = idle;
  current_bench_id = 0;
  phase_start = now;
  num_workers_done = 0;
  num_workers_done_with_error = 0;
}

pub data Reach (run_as_service : Bool) (num_threads : ℕ) : WorkersSharedData → Type 0 where
  begin : (now : ℕ) → Reach run_as_service num_threads (prepare_threads num_threads now)
  later :
      {s t : WorkersSharedData}
      → Reach run_as_service num_threads s
      → Step run_as_service s t
      → Reach run_as_service num_threads t
