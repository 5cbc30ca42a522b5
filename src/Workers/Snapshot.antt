-- ===== src/Workers/Snapshot.antt =====
-- The stonewall statistics of a phase stay what they are.
use elbencho.Prelude.{
  subst, ℕ, zero, suc, ◌≡◌, ◌∙◌, refl, ap, sym, Bool, false, not, ◌||◌, ◌&&◌, Bool-cases, inl, inr,
  List, [], ◌∷◌, map, length, set, All, ◌==◌, if◌then◌else◌, add64, some,
}
use elbencho.Workers.{
  LiveOps, Stage, waiting, stopped, Worker, WorkersSharedData, worker_at, create_stone_wall_stats,
  interrupt_execution, finish_phase, inc_num_workers_done, inc_num_workers_done_with_error,
  interrupt_and_notify_workers_unlocked, start_next_phase,
}
use elbencho.Workers.Counts.{some-injective, All-at, All-map, All-set}
use elbencho.Workers.Phases.{
  interrupted, Step, prepared, count_done, count_leaving, count_failed, wake, work, work_read_mix,
  set_work, finish, quit, catch_interrupted, catch_exception, interrupt, start,
}
use elbencho.Workers.StoneWall.{IsTaken}

-- The recorded counters of a worker: of its operations, and of the reads of a mixed phase.
abbrev pub stone_wall : Worker → LiveOps × LiveOps
stone_wall w = (w.stone_wall_ops, w.stone_wall_ops_read_mix)

abbrev pub snapshot : List Worker → List (LiveOps × LiveOps)
snapshot ws = map stone_wall ws

-- The statistics are taken, and are those of `ws`.
abbrev IsKept : List Worker → List Worker → Type 0
IsKept ws later_on = All IsTaken later_on × (snapshot later_on ≡ snapshot ws)

snapshot-set :
    (ws : List Worker) (i : ℕ) (w w' : Worker)
    → worker_at ws i ≡ some w
    → stone_wall w' ≡ stone_wall w
    → snapshot (set ws i w') ≡ snapshot ws
snapshot-set [] i w w' at same = refl
snapshot-set (v ∷ ws) zero w w' at same =
    let e : v ≡ w = some-injective at in ap (λ x. x ∷ snapshot ws) (same ∙ sym (ap stone_wall e))
snapshot-set (v ∷ ws) (suc i) w w' at same =
    ap (λ x. stone_wall v ∷ x) (snapshot-set ws i w w' at same)

set-IsKept :
    (ws : List Worker) (i : ℕ) (w w' : Worker)
    → worker_at ws i ≡ some w
    → All IsTaken ws
    → w'.stone_wall_triggered ≡ w.stone_wall_triggered
    → stone_wall w' ≡ stone_wall w
    → IsKept ws (set ws i w')
set-IsKept ws i w w' at taken still same = (
  All-set IsTaken ws i w' taken (still ∙ All-at IsTaken ws i w taken at),
  snapshot-set ws i w w' at same,
)

snapshot-interrupt : (ws : List Worker) → snapshot (map interrupt_execution ws) ≡ snapshot ws
unfolding interrupt_execution
snapshot-interrupt [] = refl
snapshot-interrupt (w ∷ ws) = ap (λ x. stone_wall w ∷ x) (snapshot-interrupt ws)

interrupt-IsKept : (ws : List Worker) → All IsTaken ws → IsKept ws (map interrupt_execution ws)
unfolding interrupt_execution
interrupt-IsKept ws taken =
    (All-map IsTaken IsTaken interrupt_execution (λ w x. x) ws taken, snapshot-interrupt ws)

interrupted_same :
    (s : WorkersSharedData) (now : ℕ) (w : Worker)
    → ((interrupted s now w).stone_wall_triggered ≡ w.stone_wall_triggered)
      × (stone_wall (interrupted s now w) ≡ stone_wall w)
unfolding interrupted finish_phase
interrupted_same s now w = elim (Bool-cases w.phase_finished) [
  | inl twice ↦ rw twice (refl, refl)
  | inr once ↦ rw once (refl, refl)
]

inc_num_workers_done-IsKept :
    (service : Bool) (s : WorkersSharedData) (i : ℕ) (w : Worker) (next : Stage)
    → worker_at s.workers i ≡ some w
    → All IsTaken s.workers
    → IsKept s.workers (inc_num_workers_done service s i w next).workers
unfolding inc_num_workers_done
inc_num_workers_done-IsKept service s i w next at taken =
    let e = All-at IsTaken s.workers i w taken at in
    let w' : Worker = record w { stage = next } in
    let last = if service then false else add64 s.num_workers_done 1 == length s.workers in
    let ws = set s.workers i w' in
    subst
      (λ t.
        IsKept s.workers (
          if not t && (w.worker_got_phase_work || last)
          then map create_stone_wall_stats ws
          else ws))
      (sym e) (set-IsKept s.workers i w w' at taken refl refl)

Step-IsKept :
    (service : Bool) (s t : WorkersSharedData)
    → Step service s t
    → All IsTaken s.workers
    → t.current_bench_id ≡ s.current_bench_id
    → IsKept s.workers t.workers
unfolding finish_phase inc_num_workers_done_with_error interrupt_and_notify_workers_unlocked
    start_next_phase
Step-IsKept service s t (prepared i w at stage) taken same =
    set-IsKept s.workers i w _ at taken refl refl
Step-IsKept service s t (count_done i w at stage) taken same =
    inc_num_workers_done-IsKept service s i w waiting at taken
Step-IsKept service s t (count_leaving i w at stage) taken same =
    inc_num_workers_done-IsKept service s i w stopped at taken
Step-IsKept service s t (count_failed i w at stage) taken same =
    set-IsKept s.workers i w _ at taken refl refl
Step-IsKept service s t (wake i w at stage friendly other) taken same =
    set-IsKept s.workers i w _ at taken refl refl
Step-IsKept service s t (work i w ops at stage room) taken same =
    set-IsKept s.workers i w _ at taken refl refl
Step-IsKept service s t (work_read_mix i w ops at stage room) taken same =
    set-IsKept s.workers i w _ at taken refl refl
Step-IsKept service s t (set_work i w got at stage) taken same =
    set-IsKept s.workers i w _ at taken refl refl
Step-IsKept service s t (finish i w now at stage goes_on) taken same =
    set-IsKept s.workers i w _ at taken refl refl
Step-IsKept service s t (quit i w at stage ends) taken same =
    set-IsKept s.workers i w _ at taken refl refl
Step-IsKept service s t (catch_interrupted i w now at can asked) taken same =
    let (still, kept) = interrupted_same s now w in
    set-IsKept s.workers i w (interrupted s now w) at taken still kept
Step-IsKept service s t (catch_exception i w at can) taken same =
    set-IsKept s.workers i w _ at taken refl refl
Step-IsKept service s t interrupt taken same = interrupt-IsKept s.workers taken
Step-IsKept service s t (start phase bench_id now signal success friendly goes_on ne) taken same =
    absurd (ne same)

-- Any number of steps of the workers and of the manager within one phase.
pub data Runs (run_as_service : Bool) (s : WorkersSharedData) : WorkersSharedData → Type 0 where
  here : Runs run_as_service s s
  next :
      {t u : WorkersSharedData}
      → Runs run_as_service s t
      → Step run_as_service t u
      → u.current_bench_id ≡ t.current_bench_id
      → Runs run_as_service s u

-- Once the stonewall statistics of a phase have been taken of every worker, they stay taken, and the
-- recorded counters of every worker stay what they are, over any steps of the workers and of the
-- manager, until the manager starts another phase. This is for every state.
pub snapshot-Runs :
    (run_as_service : Bool) (s t : WorkersSharedData)
    → Runs run_as_service s t
    → All IsTaken s.workers
    → All IsTaken t.workers × (snapshot t.workers ≡ snapshot s.workers)
snapshot-Runs service s _ here taken = (taken, refl)
snapshot-Runs service s u (next {t} runs step same) taken =
    let (still, kept) = snapshot-Runs service s t runs taken in
    let (after, same_after) = Step-IsKept service t u step still same in (after, same_after ∙ kept)
