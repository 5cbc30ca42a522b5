-- ===== src/Workers.antt =====
-- The workers of a benchmark and their manager: source/workers/Worker.h, Worker.cpp,
-- WorkersSharedData.h, WorkersSharedData.cpp, WorkerManager.cpp, the phases of `LocalWorker::run` in
-- LocalWorker.cpp and source/LiveOps.h. The state is what the mutex protects together with the
-- atomic members of the workers; a step is what a thread does between two accesses to it.
pub mod Counts
pub mod Phases
pub mod Invariant
pub mod Starts
pub mod Steps
pub mod Idle
pub mod Wall
pub mod StoneWall
pub mod Snapshot
use elbencho.Prelude.{
  ℕ, zero, suc, ◌+◌, ◌^◌, ◌<◌, ◌≡◌, ◌≢◌, Bool, true, false, not, ◌||◌, ◌&&◌, List, [], ◌∷◌, map,
  length, set, ◌==◌, if◌then◌else◌, add64, sub64, Result, ok, throws, Error, Option, none, some,
}

pub data BenchPhase : Type 0 where
  idle terminate createdirs deletedirs createfiles deletefiles readfiles sync dropcaches :
      BenchPhase
  statfiles statdirs listobjects listobjparallel multidelobj : BenchPhase
  putobjacl getobjacl putbucketacl getbucketacl : BenchPhase
  get_s3_object_md put_s3_object_md del_s3_object_md : BenchPhase
  get_s3_bucket_md put_s3_bucket_md del_s3_bucket_md s3mpucomplete : BenchPhase

abbrev pub is_terminate : BenchPhase → Bool
is_terminate terminate = true
is_terminate _ = false

pub record LiveOps : Type 0 where
  pub num_entries_done : ℕ
  pub num_bytes_done : ℕ
  pub num_iops_done : ℕ

abbrev pub zero_ops : LiveOps
zero_ops = record { num_entries_done = 0; num_bytes_done = 0; num_iops_done = 0 }

-- `getAndAddOps`: the sum with `this` added.
unfoldable pub get_and_add_ops : LiveOps → LiveOps → LiveOps
get_and_add_ops this sum = record {
  num_entries_done = add64 sum.num_entries_done this.num_entries_done;
  num_bytes_done = add64 sum.num_bytes_done this.num_bytes_done;
  num_iops_done = add64 sum.num_iops_done this.num_iops_done;
}

-- Where a worker's thread is in `run`: in `preparePhase`; before `incNumWorkersDone` and the next
-- round of the loop; in `waitForNextPhase`; in a phase; before `incNumWorkersDone` and the return;
-- returned; before `incNumWorkersDoneWithError`; returned with an error.
pub data Stage : Type 0 where
  preparing counting waiting running leaving stopped failing failed : Stage

-- `bench_id` is the `currentBenchID` of `run`.
pub record Worker : Type 0 where
  pub stage : Stage
  pub bench_id : ℕ
  pub phase_finished : Bool
  pub is_interruption_requested : Bool
  pub stone_wall_triggered : Bool
  pub worker_got_phase_work : Bool
  pub elapsed_usec_vec : List ℕ
  pub live_ops : LiveOps
  pub live_ops_read_mix : LiveOps
  pub stone_wall_ops : LiveOps
  pub stone_wall_ops_read_mix : LiveOps

pub record WorkersSharedData : Type 0 where
  pub workers : List Worker
  pub current_bench_phase : BenchPhase
  pub current_bench_id : ℕ
  pub phase_start : ℕ
  pub num_workers_done : ℕ
  pub num_workers_done_with_error : ℕ

abbrev pub worker_at : List Worker → ℕ → Option Worker
worker_at [] i = none
worker_at (w ∷ ws) zero = some w
worker_at (w ∷ ws) (suc i) = worker_at ws i

abbrev pub put : WorkersSharedData → ℕ → Worker → WorkersSharedData
put s i w = record s { workers = set s.workers i w }

unfoldable pub reset_stats : Worker → Worker
reset_stats w = record w {
  phase_finished = false;
  worker_got_phase_work = true;
  elapsed_usec_vec = [];
  live_ops = zero_ops;
  live_ops_read_mix = zero_ops;
  stone_wall_triggered = false;
  stone_wall_ops = zero_ops;
  stone_wall_ops_read_mix = zero_ops;
}

unfoldable pub create_stone_wall_stats : Worker → Worker
create_stone_wall_stats w = record w {
  stone_wall_triggered = true;
  stone_wall_ops = w.live_ops;
  stone_wall_ops_read_mix = w.live_ops_read_mix;
}

unfoldable pub interrupt_execution : Worker → Worker
interrupt_execution w = record w { is_interruption_requested = true }

-- Up to the call of `incNumWorkersDone`, at the time `now`.
unfoldable pub finish_phase : WorkersSharedData → ℕ → Worker → Worker
finish_phase s now w = record w {
  elapsed_usec_vec = if w.worker_got_phase_work then sub64 now s.phase_start ∷ [] else [];
  phase_finished = true;
}

-- `incNumWorkersDone` of worker `i`, that is `w`, and the step of its thread to `next`.
unfoldable pub inc_num_workers_done :
    Bool → WorkersSharedData → ℕ → Worker → Stage → WorkersSharedData
inc_num_workers_done run_as_service s i w next =
    let num_workers_total = length s.workers in
    let last_finisher_trigger =
      if run_as_service then false else add64 s.num_workers_done 1 == num_workers_total in
    let trigger_stone_wall =
      not w.stone_wall_triggered && (w.worker_got_phase_work || last_finisher_trigger) in
    let workers = set s.workers i (record w { stage = next }) in
    record s {
      num_workers_done = add64 s.num_workers_done 1;
      workers = if trigger_stone_wall then map create_stone_wall_stats workers else workers;
    }

unfoldable pub inc_num_workers_done_with_error : WorkersSharedData → ℕ → Worker → WorkersSharedData
inc_num_workers_done_with_error s i w = record s {
  num_workers_done_with_error = add64 s.num_workers_done_with_error 1;
  workers = set s.workers i (record w { stage = failed });
}

unfoldable pub interrupt_and_notify_workers_unlocked : WorkersSharedData → WorkersSharedData
interrupt_and_notify_workers_unlocked s = record s { workers = map interrupt_execution s.workers }

-- The Boolean is `gotUserInterruptSignalT`.
unfoldable pub check_workers_done_unlocked :
    Bool → WorkersSharedData → WorkersSharedData × Result Bool
check_workers_done_unlocked got_user_interrupt_signal s =
    let out_num_workers_done = add64 s.num_workers_done s.num_workers_done_with_error in
    if not (s.num_workers_done_with_error == 0)
    then (interrupt_and_notify_workers_unlocked s, throws Error.worker_exception)
    else (
      if got_user_interrupt_signal then interrupt_and_notify_workers_unlocked s else s,
      ok (out_num_workers_done == length s.workers),
    )

unfoldable pub start_next_phase : WorkersSharedData → BenchPhase → ℕ → ℕ → WorkersSharedData
start_next_phase s new_bench_phase bench_id now = record s {
  num_workers_done = 0;
  num_workers_done_with_error = 0;
  workers = map reset_stats s.workers;
  current_bench_id = bench_id;
  current_bench_phase = new_bench_phase;
  phase_start = now;
}

abbrev pub new_worker : Worker
new_worker = record {
  stage = preparing;
  bench_id = 0;
  phase_finished = false;
  is_interruption_requested = false;
  stone_wall_triggered = false;
  worker_got_phase_work = true;
  elapsed_usec_vec = [];
  live_ops = zero_ops;
  live_ops_read_mix = zero_ops;
  stone_wall_ops = zero_ops;
  stone_wall_ops_read_mix = zero_ops;
}
