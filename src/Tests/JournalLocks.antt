-- ===== src/Tests/JournalLocks.antt =====
-- The stripe locks of source/toolkits/Journal.h under two threads.
use elbencho.Prelude.{ℕ, ◌≡◌, refl, arith, true, [], ◌∷◌, ◌∙◌, sym}
use elbencho.Journal.{stripes_of}
use elbencho.Journal.Locks.{Thread, update, idle, Reach, start, later, start_waiting}
use elbencho.Journal.Locks.Progress.{CanGoOn, Reach-CanGoOn}
use elbencho.Tests.Journals.{journal, low_stripes}

abbrev one_waits : ℕ → Thread
one_waits =
    update idle 0 (record { held = []; is_exclusive = true; wanted = stripes_of journal 0 2 })

one_waits-Reach : Reach 2 one_waits
one_waits-Reach = later start (start_waiting 0 journal true 0 2 (omega arith) refl refl)

Reach-CanGoOn_example : CanGoOn 2 one_waits
Reach-CanGoOn_example =
    Reach-CanGoOn 0 one_waits-Reach (omega arith)
      (λ e. let f : (21380 ∷ []) ≡ [] = sym low_stripes ∙ e in cc)
