-- ===== src/Tests/WorkerPhases.antt =====
-- A preparation and a write phase of two workers: source/workers/Worker.cpp and WorkerManager.cpp
-- at concrete inputs.
use elbencho.Prelude.{ℕ, ◌≡◌, ◌↔◌, refl, arith, true, false, [], ◌∷◌, All, some, ok, add64}
use elbencho.Workers.{
  createfiles, LiveOps, zero_ops, get_and_add_ops, counting, waiting, running, Worker,
  WorkersSharedData, worker_at, put, reset_stats, create_stone_wall_stats, finish_phase,
  inc_num_workers_done, check_workers_done_unlocked, start_next_phase, new_worker,
}
use elbencho.Workers.Invariant.{counted}
use elbencho.Workers.Phases.{
  Step, prepared, count_done, wake, work, finish, start, prepare_threads, Reach, begin, later,
}
use elbencho.Workers.Idle.{IsIdle, check_workers_done_unlocked-IsIdle}
use elbencho.Workers.Wall.{IsRecorded}
use elbencho.Workers.StoneWall.{IsTaken, create_stone_wall_stats-IsTaken}
use elbencho.Workers.Snapshot.{snapshot, here, next, snapshot-Runs}

abbrev ready : Worker → Worker
ready w = record w { phase_finished = true; stage = counting }

-- Both workers prepare; the first one takes the statistics.
abbrev prepared_state : WorkersSharedData
prepared_state =
    let first =
      inc_num_workers_done false (put (prepare_threads 2 5) 0 (ready new_worker)) 0
        (ready new_worker) waiting in
    let other = create_stone_wall_stats new_worker in
    inc_num_workers_done false (put first 1 (ready other)) 1 (ready other) waiting

prepared_state-Reach : Reach false 2 prepared_state
unfolding prepare_threads inc_num_workers_done create_stone_wall_stats add64
prepared_state-Reach =
    later
      (later
        (later (later (begin 5) (prepared 0 new_worker refl refl))
          (count_done 0 (ready new_worker) refl refl))
        (prepared 1 (create_stone_wall_stats new_worker) refl refl))
      (count_done 1 (ready (create_stone_wall_stats new_worker)) refl refl)

abbrev started : WorkersSharedData
started = start_next_phase prepared_state createfiles 7 100

-- A worker between the phases, after the reset.
abbrev reset_worker : Worker
reset_worker = record new_worker { stage = waiting }

abbrev some_ops : LiveOps
some_ops = record { num_entries_done = 0; num_bytes_done = 4096; num_iops_done = 1 }

abbrev awake : Worker
awake = record reset_worker { stage = running; bench_id = 7 }

abbrev busy : Worker
busy = record awake { live_ops = get_and_add_ops some_ops zero_ops }

abbrev finished : Worker
finished = record (finish_phase started 130 busy) { stage = counting }

-- The first worker has written a block, and is done.
abbrev one_done : WorkersSharedData
one_done =
    inc_num_workers_done false (put (put (put started 0 awake) 0 busy) 0 finished) 0 finished
      waiting

one_done-Reach : Reach false 2 one_done
unfolding prepare_threads inc_num_workers_done create_stone_wall_stats reset_stats start_next_phase
    finish_phase check_workers_done_unlocked get_and_add_ops add64
one_done-Reach =
    later
      (later
        (later
          (later
            (later prepared_state-Reach
              (start createfiles 7 100 false refl (refl, (refl, tt)) refl (λ e. omega (arith, e))))
            (wake 0 reset_worker refl refl refl refl))
          (work 0 awake some_ops refl refl (omega arith, omega arith, omega arith)))
        (finish 0 busy 130 refl refl refl))
      (count_done 0 finished refl refl)

recorded_run : snapshot one_done.workers ≡ (some_ops, zero_ops) ∷ (zero_ops, zero_ops) ∷ []
unfolding prepare_threads inc_num_workers_done create_stone_wall_stats reset_stats start_next_phase
    finish_phase get_and_add_ops add64
recorded_run = refl

check_workers_done_unlocked-IsIdle_example :
    ((check_workers_done_unlocked false one_done).1 ≡ ok true)
    ↔ All (IsIdle one_done) one_done.workers
check_workers_done_unlocked-IsIdle_example =
    check_workers_done_unlocked-IsIdle 2 false false one_done (omega arith) one_done-Reach

create_stone_wall_stats-IsTaken_example :
    All IsRecorded one_done.workers
    × ((i : ℕ) (w : Worker)
        → worker_at one_done.workers i ≡ some w
        → counted one_done.current_bench_id w ≡ true
        → w.worker_got_phase_work ≡ true
        → All IsTaken one_done.workers)
    × (false ≡ false
        → (check_workers_done_unlocked false one_done).1 ≡ ok true
        → All IsTaken one_done.workers)
create_stone_wall_stats-IsTaken_example =
    create_stone_wall_stats-IsTaken 2 false false one_done (omega arith) (omega arith)
      one_done-Reach

-- The second worker wakes up after the statistics were taken.
abbrev late : Worker
late = create_stone_wall_stats reset_worker

abbrev woken : WorkersSharedData
woken = put one_done 1 (record late { stage = running; bench_id = one_done.current_bench_id })

late_wake : Step false one_done woken
unfolding prepare_threads inc_num_workers_done create_stone_wall_stats reset_stats start_next_phase
    finish_phase get_and_add_ops add64
late_wake = wake 1 late refl refl refl refl

one_done-IsTaken : All IsTaken one_done.workers
unfolding prepare_threads inc_num_workers_done create_stone_wall_stats reset_stats start_next_phase
    finish_phase get_and_add_ops add64
one_done-IsTaken = (refl, (refl, tt))

abbrev at_work : Worker
at_work = record late { stage = running; bench_id = one_done.current_bench_id }

-- It goes on to write a block.
abbrev later_on : WorkersSharedData
later_on = put woken 1 (record at_work { live_ops = get_and_add_ops some_ops at_work.live_ops })

late_work : Step false woken later_on
unfolding prepare_threads inc_num_workers_done create_stone_wall_stats reset_stats start_next_phase
    finish_phase get_and_add_ops add64
late_work = work 1 at_work some_ops refl refl (omega arith, omega arith, omega arith)

snapshot-Runs_example :
    All IsTaken later_on.workers × (snapshot later_on.workers ≡ snapshot one_done.workers)
snapshot-Runs_example =
    snapshot-Runs false one_done later_on (next (next here late_wake refl) late_work refl)
      one_done-IsTaken
