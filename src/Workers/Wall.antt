-- ===== src/Workers/Wall.antt =====
-- The stonewall statistics: what holds of them between two steps, and the steps that change it.
use elbencho.Prelude.{
  ℕ, zero, suc, ◌+◌, ◌^◌, ◌<◌, ◌≤◌, ◌≡◌, ◌∙◌, refl, sym, subst, arith, Bool, true, false, not, ◌||◌,
  ◌&&◌, Bool-cases, inl, inr, map, length, length-set, replicate, length-replicate, set, All, ◌==◌,
  if◌then◌else◌, add64, add64-eq, some,
}
use elbencho.Workers.{
  BenchPhase, LiveOps, get_and_add_ops, zero_ops, Stage, Worker, WorkersSharedData, worker_at, put,
  reset_stats, create_stone_wall_stats, interrupt_execution, inc_num_workers_done,
  interrupt_and_notify_workers_unlocked, start_next_phase, new_worker,
}
use elbencho.Workers.Counts.{count_zero, All-set, All-at, All-map, All-zip, length-map}
use elbencho.Workers.Phases.{IsRoom, prepare_threads}
use elbencho.Workers.Invariant.{counted, Inv}

abbrev pub IsBelow : LiveOps → LiveOps → Type 0
IsBelow a b =
    (a.num_entries_done ≤ b.num_entries_done)
    × (a.num_bytes_done ≤ b.num_bytes_done)
    × (a.num_iops_done ≤ b.num_iops_done)

abbrev pub IsRecorded : Worker → Type 0
IsRecorded w =
    IsBelow w.stone_wall_ops w.live_ops × IsBelow w.stone_wall_ops_read_mix w.live_ops_read_mix

abbrev HasTriggered : Bool → Worker → Type 0
HasTriggered b w = w.stone_wall_triggered ≡ b

-- Before the trigger, no worker that is counted had work.
abbrev pub GotNoWork : ℕ → Worker → Type 0
GotNoWork id w = counted id w ≡ true → w.worker_got_phase_work ≡ false

-- `b` tells that the statistics are taken.
pub record Wall (service b : Bool) (s : WorkersSharedData) : Type 0 where
  pub all_same : All (HasTriggered b) s.workers
  pub too_early : b ≡ false → All (GotNoWork s.current_bench_id) s.workers
  pub not_last : service ≡ false → b ≡ false → s.num_workers_done < length s.workers
  pub recorded : All IsRecorded s.workers

IsBelow-refl : (a : LiveOps) → IsBelow a a
IsBelow-refl a = (omega arith, omega arith, omega arith)

pub get_and_add_ops-IsBelow :
    (a ops live : LiveOps) → IsRoom live ops → IsBelow a live → IsBelow a (get_and_add_ops ops live)
unfolding get_and_add_ops
get_and_add_ops-IsBelow a ops live (e, b, i) (p, q, r) =
    let entries = add64-eq live.num_entries_done ops.num_entries_done e in
    let bytes = add64-eq live.num_bytes_done ops.num_bytes_done b in
    let iops = add64-eq live.num_iops_done ops.num_iops_done i in
    (omega (arith, entries), omega (arith, bytes), omega (arith, iops))

module _ (service b : Bool) (s : WorkersSharedData) (i : ℕ) (w : Worker) (h : Wall service b s)
    (at : worker_at s.workers i ≡ some w) where
  -- A step of one worker that takes no statistics.
  pub put-Wall :
      (w' : Worker)
      → w'.stone_wall_triggered ≡ w.stone_wall_triggered
      → (GotNoWork s.current_bench_id w → GotNoWork s.current_bench_id w')
      → (IsRecorded w → IsRecorded w')
      → Wall service b (put s i w')
  put-Wall w' same late keeps = record {
    all_same =
        All-set (HasTriggered b) s.workers i w' h.all_same
          (same ∙ All-at (HasTriggered b) s.workers i w h.all_same at);
    too_early = λ early.
        All-set (GotNoWork s.current_bench_id) s.workers i w' (h.too_early early)
          (late (All-at (GotNoWork s.current_bench_id) s.workers i w (h.too_early early) at));
    not_last = λ local early.
        subst (λ x. s.num_workers_done < x) (sym (length-set s.workers i w'))
          (h.not_last local early);
    recorded =
        All-set IsRecorded s.workers i w' h.recorded
          (keeps (All-at IsRecorded s.workers i w h.recorded at));
  }

  -- One that counts the worker nowhere.
  pub move-Wall :
      (w' : Worker)
      → w'.stone_wall_triggered ≡ w.stone_wall_triggered
      → counted s.current_bench_id w' ≡ false
      → (IsRecorded w → IsRecorded w')
      → Wall service b (put s i w')
  move-Wall w' same not_counted keeps =
      put-Wall w' same (λ old c. let e : true ≡ false = sym c ∙ not_counted in cc) keeps

no_trigger_lem : (t x : Bool) → t ≡ false → (not t && x) ≡ false → x ≡ false
no_trigger_lem true x e h = cc
no_trigger_lem false x e h = h

neither : (x y : Bool) → (x || y) ≡ false → (x ≡ false) × (y ≡ false)
neither true y h = cc
neither false y h = (refl, h)

still_open :
    (service : Bool) (s : WorkersSharedData) (len : ℕ)
    → length s.workers < 2 ^ 64
    → service ≡ false
    → s.num_workers_done < length s.workers
    → len ≡ length s.workers
    → (if service then false else add64 s.num_workers_done 1 == length s.workers) ≡ false
    → add64 s.num_workers_done 1 < len
still_open true s len small local lt same last = cc
still_open false s len small local lt same last =
    let sum : add64 s.num_workers_done 1 ≡ s.num_workers_done + 1 =
      add64-eq s.num_workers_done 1 (omega arith) in
    let ne : (s.num_workers_done + 1 == length s.workers) ≡ false = rw sum at last in
    ground (arith, sum, ne)

-- The statistics are taken of all workers, or stay as they are.
pub inc_num_workers_done-Wall :
    (n : ℕ) (service b : Bool) (s : WorkersSharedData) (i : ℕ) (w : Worker) (next : Stage)
    → n < 2 ^ 64
    → Inv n s
    → Wall service b s
    → worker_at s.workers i ≡ some w
    → (b' : Bool) × Wall service b' (inc_num_workers_done service s i w next)
unfolding inc_num_workers_done create_stone_wall_stats
inc_num_workers_done-Wall n service b s i w next small old h at =
    let w' : Worker = record w { stage = next } in
    let total = old.total in
    let old_small : length s.workers < 2 ^ 64 = omega arith in
    let triggered = All-at (HasTriggered b) s.workers i w h.all_same at in
    let last = if service then false else add64 s.num_workers_done 1 == length s.workers in
    let ws = set s.workers i w' in
    let rec =
      All-set IsRecorded s.workers i w' h.recorded
        (All-at IsRecorded s.workers i w h.recorded at) in
    let same = All-set (HasTriggered b) s.workers i w' h.all_same triggered in
    let after : Bool → WorkersSharedData = λ t. record s {
      num_workers_done = add64 s.num_workers_done 1;
      workers = if t then map create_stone_wall_stats ws else ws;
    } in
    let trigger = not w.stone_wall_triggered && (w.worker_got_phase_work || last) in
    elim (Bool-cases trigger) [
      | inl takes ↦
          let wall : Wall service true (after true) = record {
            all_same =
                All-map (HasTriggered b) (HasTriggered true) create_stone_wall_stats (λ v x. refl)
                  ws same;
            too_early = λ early. cc;
            not_last = λ local early. cc;
            recorded =
                All-map IsRecorded IsRecorded create_stone_wall_stats
                  (λ v x. (IsBelow-refl v.live_ops, IsBelow-refl v.live_ops_read_mix)) ws rec;
          } in
          (true, subst (λ t. Wall service true (after t)) (sym takes) wall)
      | inr keeps ↦
          let no_trigger : b ≡ false → (w.worker_got_phase_work || last) ≡ false = λ early.
            no_trigger_lem w.stone_wall_triggered (w.worker_got_phase_work || last)
              (triggered ∙ early) keeps in
          let wall : Wall service b (after false) = record {
            all_same = same;
            too_early = λ early.
                All-set (GotNoWork s.current_bench_id) s.workers i w' (h.too_early early)
                  (λ c. (neither w.worker_got_phase_work last (no_trigger early)).0);
            not_last = λ local early.
                still_open service s (length ws) old_small local (h.not_last local early)
                  (length-set s.workers i w')
                  (neither w.worker_got_phase_work last (no_trigger early)).1;
            recorded = rec;
          } in
          (b, subst (λ t. Wall service b (after t)) (sym keeps) wall)
    ]

pub interrupt-Wall :
    (service b : Bool) (s : WorkersSharedData)
    → Wall service b s
    → Wall service b (interrupt_and_notify_workers_unlocked s)
unfolding interrupt_and_notify_workers_unlocked interrupt_execution
interrupt-Wall service b s h = record {
  all_same =
      All-map (HasTriggered b) (HasTriggered b) interrupt_execution (λ w x. x) s.workers h.all_same;
  too_early = λ early.
      All-map (GotNoWork s.current_bench_id) (GotNoWork s.current_bench_id) interrupt_execution
        (λ w x. x) s.workers (h.too_early early);
  not_last = λ local early.
      subst (λ x. s.num_workers_done < x) (sym (length-map interrupt_execution s.workers))
        (h.not_last local early);
  recorded = All-map IsRecorded IsRecorded interrupt_execution (λ w x. x) s.workers h.recorded;
}

pub start_next_phase-Wall :
    (n : ℕ) (service : Bool) (s : WorkersSharedData) (phase : BenchPhase) (bench_id now : ℕ)
    → 0 < n
    → length s.workers ≡ n
    → Inv n (start_next_phase s phase bench_id now)
    → All IsRecorded s.workers
    → Wall service false (start_next_phase s phase bench_id now)
unfolding start_next_phase reset_stats
start_next_phase-Wall n service s phase bench_id now some_workers total new h =
    let none = count_zero (counted bench_id) (map reset_stats s.workers) new.done in
    record {
      all_same = All-map IsRecorded (HasTriggered false) reset_stats (λ w x. refl) s.workers h;
      too_early = λ early.
          All-zip (λ w. counted bench_id w ≡ false) (λ w. counted bench_id w ≡ false)
            (GotNoWork bench_id) (λ w x y c. let e : true ≡ false = sym c ∙ x in cc)
            (map reset_stats s.workers) none none;
      not_last = λ local early. omega (arith, length-map reset_stats s.workers);
      recorded =
          All-map IsRecorded IsRecorded reset_stats
            (λ w x. (IsBelow-refl zero_ops, IsBelow-refl zero_ops)) s.workers h;
    }

pub prepare_threads-Wall :
    (n now : ℕ) (service : Bool) → 0 < n → Wall service false (prepare_threads n now)
unfolding prepare_threads
prepare_threads-Wall n now service some_workers = record {
  all_same = new_same n;
  too_early = λ early. new_early n;
  not_last = λ local early. omega (arith, length-replicate n new_worker);
  recorded = new_recorded n;
}
  where
    new_same : (k : ℕ) → All (HasTriggered false) (replicate k new_worker)
    new_same zero = tt
    new_same (suc k) = (refl, new_same k)

    new_early : (k : ℕ) → All (GotNoWork 0) (replicate k new_worker)
    new_early zero = tt
    new_early (suc k) = (λ c. cc, new_early k)

    new_recorded : (k : ℕ) → All IsRecorded (replicate k new_worker)
    new_recorded zero = tt
    new_recorded (suc k) = ((IsBelow-refl zero_ops, IsBelow-refl zero_ops), new_recorded k)
