-- ===== src/Workers/Steps.antt =====
-- Every step of a worker or of the manager keeps the invariant.
use elbencho.Prelude.{
  ℕ, ◌^◌, ◌<◌, ◌≡◌, ◌∙◌, refl, ap, sym, subst, arith, Bool, true, false, ◌||◌, Bool-cases, inl, inr,
  ◌==◌, ==_iff, if◌then◌else◌, some,
}
use elbencho.Workers.{
  is_terminate, get_and_add_ops, Stage, preparing, counting, waiting, running, leaving, stopped,
  failing, failed, Worker, WorkersSharedData, worker_at, put, finish_phase,
}
use elbencho.Workers.Counts.{All-at}
use elbencho.Workers.Phases.{
  is_interruptible, can_fail, interrupted, Step, prepared, count_done, count_leaving, count_failed,
  wake, work, work_read_mix, set_work, finish, quit, catch_interrupted, catch_exception, interrupt,
  start, Reach, begin, later,
}
use elbencho.Workers.Invariant.{
  counted_at, counted, failed_at, has_failed, Fits, IsFit, Inv, known_stage, put-Inv, interrupt-Inv,
  inc_num_workers_done-Inv,
}
use elbencho.Workers.Starts.{
  inc_num_workers_done_with_error-Inv, prepare_threads-Inv, start_next_phase-Inv,
}

pub finished_counted :
    (id : ℕ) (quits : Bool) (st : Stage) (w : Worker)
    → Fits id quits st w
    → is_interruptible st ≡ true
    → counted_at st (w.bench_id == id) ≡ w.phase_finished
finished_counted id quits preparing w h i = sym h.1
finished_counted id quits running w h i = sym h.1
finished_counted id quits waiting w h i = sym h
finished_counted id quits counting w h i = cc
finished_counted id quits leaving w h i = cc
finished_counted id quits stopped w h i = cc
finished_counted id quits failing w h i = cc
finished_counted id quits failed w h i = cc

interruptible_lem : (st : Stage) → is_interruptible st ≡ true → failed_at st ≡ false
interruptible_lem failed i = cc
interruptible_lem preparing i = refl
interruptible_lem running i = refl
interruptible_lem waiting i = refl
interruptible_lem counting i = refl
interruptible_lem leaving i = refl
interruptible_lem stopped i = refl
interruptible_lem failing i = refl

pub can_fail_lem :
    (st : Stage) (same : Bool)
    → can_fail st ≡ true
    → (counted_at st same ≡ false) × (failed_at st ≡ false)
can_fail_lem preparing same i = (refl, refl)
can_fail_lem running same i = (refl, refl)
can_fail_lem waiting same i = cc
can_fail_lem counting same i = cc
can_fail_lem leaving same i = cc
can_fail_lem stopped same i = cc
can_fail_lem failing same i = cc
can_fail_lem failed same i = cc

-- The guard `phaseFinished` keeps an interrupted worker from adding itself twice.
catch_interrupted-Inv :
    (n : ℕ) (s : WorkersSharedData) (i now : ℕ) (w : Worker)
    → Inv n s
    → worker_at s.workers i ≡ some w
    → is_interruptible w.stage ≡ true
    → w.is_interruption_requested ≡ true
    → Inv n (put s i (interrupted s now w))
unfolding interrupted finish_phase
catch_interrupted-Inv n s i now w h at can asked =
    let quits = is_terminate s.current_bench_phase in
    let fit = All-at (IsFit s) s.workers i w h.fits at in
    let was : counted s.current_bench_id w ≡ w.phase_finished =
      finished_counted s.current_bench_id quits w.stage w fit can in
    let not_failed = interruptible_lem w.stage can in
    let goes : (w.is_interruption_requested || quits) ≡ true = rw asked refl in
    let handler : Bool → Worker = λ b.
      if b
      then record w { stage = stopped }
      else record (finish_phase s now w) { stage = leaving } in
    elim (Bool-cases w.phase_finished) [
      | inl twice ↦
          let e =
            put-Inv n s i w (record w { stage = stopped }) h at goes (sym (was ∙ twice))
              (sym not_failed) in
          subst (λ x. Inv n (put s i x)) (sym (ap handler twice)) e
      | inr once ↦
          let e =
            put-Inv n s i w (record (finish_phase s now w) { stage = leaving }) h at goes
              (sym (was ∙ once)) (sym not_failed) in
          subst (λ x. Inv n (put s i x)) (sym (ap handler once)) e
    ]

-- A step of a worker whose stage is known.
module _ (n : ℕ) (s : WorkersSharedData) (i : ℕ) (w : Worker) (h : Inv n s)
    (at : worker_at s.workers i ≡ some w) (st : Stage) (stage : w.stage ≡ st) where
  fit_there : Fits s.current_bench_id (is_terminate s.current_bench_phase) st w
  fit_there = known_stage s w st stage (All-at (IsFit s) s.workers i w h.fits at)

  counted_there : counted s.current_bench_id w ≡ counted_at st (w.bench_id == s.current_bench_id)
  counted_there = ap (λ x. counted_at x (w.bench_id == s.current_bench_id)) stage

  failed_there : has_failed w ≡ failed_at st
  failed_there = ap failed_at stage

  stays-Inv :
      (w' : Worker)
      → w'.stage ≡ st
      → w'.bench_id ≡ w.bench_id
      → Fits s.current_bench_id (is_terminate s.current_bench_phase) st w'
      → Inv n (put s i w')
  stays-Inv w' same_stage same_id fit =
      put-Inv n s i w w' h at
        (subst (λ x. Fits s.current_bench_id (is_terminate s.current_bench_phase) x w')
          (sym same_stage) fit)
        (ap (λ x. counted_at x (w'.bench_id == s.current_bench_id)) same_stage
          ∙ ap (λ x. counted_at st (x == s.current_bench_id)) same_id
          ∙ sym counted_there)
        (ap failed_at same_stage ∙ sym failed_there)

pub Step-Inv :
    (n : ℕ) (service : Bool) {s t : WorkersSharedData}
    → n < 2 ^ 64
    → Inv n s
    → Step service s t
    → Inv n t
unfolding finish_phase
Step-Inv n service {s} small h (prepared i w at stage) =
    let fit = fit_there n s i w h at preparing stage in
    put-Inv n s i w (record w { phase_finished = true; stage = counting }) h at (fit.0, refl)
      (sym (counted_there n s i w h at preparing stage))
      (sym (failed_there n s i w h at preparing stage))
Step-Inv n service {s} small h (count_done i w at stage) =
    let fit = fit_there n s i w h at counting stage in
    let same : (w.bench_id == s.current_bench_id) ≡ true =
      (==_iff w.bench_id s.current_bench_id).1 fit.0 in
    inc_num_workers_done-Inv n service s i w waiting small h at
      (counted_there n s i w h at counting stage) (failed_there n s i w h at counting stage)
      (fit.1 ∙ sym same) same refl
Step-Inv n service {s} small h (count_leaving i w at stage) =
    inc_num_workers_done-Inv n service s i w stopped small h at
      (counted_there n s i w h at leaving stage) (failed_there n s i w h at leaving stage)
      (fit_there n s i w h at leaving stage) refl refl
Step-Inv n service {s} small h (count_failed i w at stage) =
    inc_num_workers_done_with_error-Inv n s i w small h at stage
Step-Inv n service {s} small h (wake i w at stage friendly other) =
    let fit = fit_there n s i w h at waiting stage in
    put-Inv n s i w (record w { stage = running; bench_id = s.current_bench_id }) h at
      (refl, fit ∙ other) (sym (counted_there n s i w h at waiting stage ∙ other))
      (sym (failed_there n s i w h at waiting stage))
Step-Inv n service {s} small h (work i w ops at stage room) =
    stays-Inv n s i w h at running stage (record w { live_ops = get_and_add_ops ops w.live_ops })
      stage refl (fit_there n s i w h at running stage)
Step-Inv n service {s} small h (work_read_mix i w ops at stage room) =
    stays-Inv n s i w h at running stage
      (record w { live_ops_read_mix = get_and_add_ops ops w.live_ops_read_mix }) stage refl
      (fit_there n s i w h at running stage)
Step-Inv n service {s} small h (set_work i w got at stage) =
    stays-Inv n s i w h at running stage (record w { worker_got_phase_work = got }) stage refl
      (fit_there n s i w h at running stage)
Step-Inv n service {s} small h (finish i w now at stage goes_on) =
    let fit = fit_there n s i w h at running stage in
    put-Inv n s i w (record (finish_phase s now w) { stage = counting }) h at (fit.0, refl)
      (sym (counted_there n s i w h at running stage))
      (sym (failed_there n s i w h at running stage))
Step-Inv n service {s} small h (quit i w at stage ends) =
    let goes : (w.is_interruption_requested || is_terminate s.current_bench_phase) ≡ true =
      ground (arith, ends) in
    put-Inv n s i w (record w { stage = leaving }) h at goes
      (sym (counted_there n s i w h at running stage))
      (sym (failed_there n s i w h at running stage))
Step-Inv n service {s} small h (catch_interrupted i w now at can asked) =
    catch_interrupted-Inv n s i now w h at can asked
Step-Inv n service {s} small h (catch_exception i w at can) =
    let (not_counted, not_failed) = can_fail_lem w.stage (w.bench_id == s.current_bench_id) can in
    put-Inv n s i w (record w { stage = failing }) h at tt (sym not_counted) (sym not_failed)
Step-Inv n service {s} small h interrupt = interrupt-Inv n s h
Step-Inv n service {s} small h (start phase bench_id now signal success friendly goes_on ne) =
    start_next_phase-Inv n s phase bench_id now signal small h success friendly goes_on ne

pub Reach-Inv :
    (n : ℕ) (service : Bool) {s : WorkersSharedData} → n < 2 ^ 64 → Reach service n s → Inv n s
Reach-Inv n service small (begin now) = prepare_threads-Inv n now
Reach-Inv n service small (later r step) =
    Step-Inv n service small (Reach-Inv n service small r) step
