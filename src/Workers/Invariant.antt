-- ===== src/Workers/Invariant.antt =====
-- What holds of the workers and of the counters that the manager waits for, between two steps.
use elbencho.Prelude.{
  ℕ, ◌+◌, ◌^◌, ◌<◌, ◌≡◌, ◌∙◌, refl, ap, sym, subst, arith, Bool, true, false, not, ◌||◌, ◌&&◌, map,
  length, length-set, set, All, ◌==◌, if◌then◌else◌, add64, add64-eq, some,
}
use elbencho.Workers.{
  is_terminate, Stage, preparing, counting, waiting, running, leaving, stopped, failing, failed,
  Worker, WorkersSharedData, worker_at, put, create_stone_wall_stats, interrupt_execution,
  inc_num_workers_done, interrupt_and_notify_workers_unlocked,
}
use elbencho.Workers.Counts.{
  num, count, count-set, count-map, count_le, All-set, All-map, length-map,
}

-- The worker has added itself to the done counter of the phase `id`.
abbrev pub counted_at : Stage → Bool → Bool
counted_at waiting same = same
counted_at stopped same = true
counted_at _ same = false

abbrev pub counted : ℕ → Worker → Bool
counted id w = counted_at w.stage (w.bench_id == id)

abbrev pub failed_at : Stage → Bool
failed_at failed = true
failed_at _ = false

abbrev pub has_failed : Worker → Bool
has_failed w = failed_at w.stage

-- `phaseFinished` and the ID that the worker holds, in each stage. `quits` tells a phase that ends
-- the threads.
abbrev pub Fits : ℕ → Bool → Stage → Worker → Type 0
Fits id quits preparing w = (w.bench_id ≡ id) × (w.phase_finished ≡ false)
Fits id quits running w = (w.bench_id ≡ id) × (w.phase_finished ≡ false)
Fits id quits counting w = (w.bench_id ≡ id) × (w.phase_finished ≡ true)
Fits id quits waiting w = w.phase_finished ≡ (w.bench_id == id)
Fits id quits leaving w = (w.is_interruption_requested || quits) ≡ true
Fits id quits stopped w = (w.is_interruption_requested || quits) ≡ true
Fits id quits failing w = Unit
Fits id quits failed w = Unit

abbrev pub IsFit : WorkersSharedData → Worker → Type 0
IsFit s w = Fits s.current_bench_id (is_terminate s.current_bench_phase) w.stage w

pub record Inv (n : ℕ) (s : WorkersSharedData) : Type 0 where
  pub total : length s.workers ≡ n
  pub fits : All (IsFit s) s.workers
  pub done : s.num_workers_done ≡ count (counted s.current_bench_id) s.workers
  pub errors : s.num_workers_done_with_error ≡ count has_failed s.workers

-- A stage is known: what the invariant tells of a worker there.
pub known_stage :
    (s : WorkersSharedData) (w : Worker) (st : Stage)
    → w.stage ≡ st
    → IsFit s w
    → Fits s.current_bench_id (is_terminate s.current_bench_phase) st w
known_stage s w st e h =
    subst (λ x. Fits s.current_bench_id (is_terminate s.current_bench_phase) x w) e h

-- A step of one worker that adds it to no counter.
pub put-Inv :
    (n : ℕ) (s : WorkersSharedData) (i : ℕ) (w w' : Worker)
    → Inv n s
    → worker_at s.workers i ≡ some w
    → IsFit s w'
    → counted s.current_bench_id w' ≡ counted s.current_bench_id w
    → has_failed w' ≡ has_failed w
    → Inv n (put s i w')
put-Inv n s i w w' h at fit same same_failed =
    let c = count-set (counted s.current_bench_id) s.workers i w w' at in
    let f = count-set has_failed s.workers i w w' at in
    let same_num = ap num same in
    let same_num_failed = ap num same_failed in
    record {
      total = length-set s.workers i w' ∙ h.total;
      fits = All-set (IsFit s) s.workers i w' h.fits fit;
      done = omega (arith, c, same_num, h.done);
      errors = omega (arith, f, same_num_failed, h.errors);
    }

keep_stone_wall :
    (id : ℕ) (quits : Bool) (st : Stage) (w : Worker)
    → Fits id quits st w
    → Fits id quits st (create_stone_wall_stats w)
unfolding create_stone_wall_stats
keep_stone_wall id quits preparing w h = h
keep_stone_wall id quits running w h = h
keep_stone_wall id quits counting w h = h
keep_stone_wall id quits waiting w h = h
keep_stone_wall id quits leaving w h = h
keep_stone_wall id quits stopped w h = h
keep_stone_wall id quits failing w h = h
keep_stone_wall id quits failed w h = h

keep_interrupt :
    (id : ℕ) (quits : Bool) (st : Stage) (w : Worker)
    → Fits id quits st w
    → Fits id quits st (interrupt_execution w)
unfolding interrupt_execution
keep_interrupt id quits preparing w h = h
keep_interrupt id quits running w h = h
keep_interrupt id quits counting w h = h
keep_interrupt id quits waiting w h = h
keep_interrupt id quits leaving w h = refl
keep_interrupt id quits stopped w h = refl
keep_interrupt id quits failing w h = h
keep_interrupt id quits failed w h = h

stone_wall-Inv :
    (n : ℕ) (s : WorkersSharedData) (t : Bool)
    → Inv n s
    → Inv n (record s { workers = if t then map create_stone_wall_stats s.workers else s.workers })
unfolding create_stone_wall_stats
stone_wall-Inv n s false h = h
stone_wall-Inv n s true h = record {
  total = length-map create_stone_wall_stats s.workers ∙ h.total;
  fits =
      All-map (IsFit s) (IsFit s) create_stone_wall_stats
        (λ w. keep_stone_wall s.current_bench_id (is_terminate s.current_bench_phase) w.stage w)
        s.workers h.fits;
  done =
      h.done
      ∙ sym (count-map (counted s.current_bench_id) create_stone_wall_stats (λ w. refl) s.workers);
  errors = h.errors ∙ sym (count-map has_failed create_stone_wall_stats (λ w. refl) s.workers);
}

pub interrupt-Inv :
    (n : ℕ) (s : WorkersSharedData) → Inv n s → Inv n (interrupt_and_notify_workers_unlocked s)
unfolding interrupt_execution interrupt_and_notify_workers_unlocked
interrupt-Inv n s h = record {
  total = length-map interrupt_execution s.workers ∙ h.total;
  fits =
      All-map (IsFit s) (IsFit s) interrupt_execution
        (λ w. keep_interrupt s.current_bench_id (is_terminate s.current_bench_phase) w.stage w)
        s.workers h.fits;
  done =
      h.done
      ∙ sym (count-map (counted s.current_bench_id) interrupt_execution (λ w. refl) s.workers);
  errors = h.errors ∙ sym (count-map has_failed interrupt_execution (λ w. refl) s.workers);
}

-- A worker that is not counted adds itself to the done counter.
pub inc_num_workers_done-Inv :
    (n : ℕ) (service : Bool) (s : WorkersSharedData) (i : ℕ) (w : Worker) (next : Stage)
    → n < 2 ^ 64
    → Inv n s
    → worker_at s.workers i ≡ some w
    → counted s.current_bench_id w ≡ false
    → has_failed w ≡ false
    → IsFit s (record w { stage = next })
    → counted_at next (w.bench_id == s.current_bench_id) ≡ true
    → failed_at next ≡ false
    → Inv n (inc_num_workers_done service s i w next)
unfolding inc_num_workers_done
inc_num_workers_done-Inv n service s i w next small h at not_counted not_failed fit counts
      no_failure =
    let w' : Worker = record w { stage = next } in
    let c = count-set (counted s.current_bench_id) s.workers i w w' at in
    let f = count-set has_failed s.workers i w w' at in
    let before = ap num not_counted in
    let after : num (counted s.current_bench_id w') ≡ 1 = ap num counts in
    let failed_before = ap num not_failed in
    let failed_after : num (has_failed w') ≡ 0 = ap num no_failure in
    let most = count_le (counted s.current_bench_id) (set s.workers i w') in
    let len = length-set s.workers i w' in
    let total = h.total in
    let sum : add64 s.num_workers_done 1 ≡ s.num_workers_done + 1 =
      add64-eq s.num_workers_done 1 (omega (arith, h.done)) in
    let s' : WorkersSharedData = record s {
      num_workers_done = add64 s.num_workers_done 1;
      workers = set s.workers i w';
    } in
    let h' : Inv n s' = record {
      total = len ∙ total;
      fits = All-set (IsFit s) s.workers i w' h.fits fit;
      done = sum ∙ omega (arith, h.done);
      errors = omega (arith, f, failed_before, failed_after, h.errors);
    } in
    stone_wall-Inv n s'
      (not w.stone_wall_triggered
        && (w.worker_got_phase_work
            || (if service then false else add64 s.num_workers_done 1 == length s.workers)))
      h'
