-- ===== src/Journal/Locks.antt =====
-- The stripe locks under the threads of a run: `acquireRange` and `JournalRangeGuard::release` of
-- source/toolkits/Journal.cpp and Journal.h, and the rule of `LocalWorker::journalBeginIO` that a
-- thread waits for locks only while it holds none. A `std::shared_mutex` can be locked where no
-- thread holds it in exclusive mode, and exclusively where no thread holds it at all.
pub mod Progress
use elbencho.Prelude.{
  ℕ, zero, suc, ◌+◌, ◌<◌, ◌≡◌, ◌≢◌, refl, Bool, true, false, ◌&&◌, ◌||◌, not, List, [], ◌∷◌, ◌++◌,
  ◌==◌, if◌then◌else◌,
}
use elbencho.Journal.{Journal, stripes_of}

-- A lock that a thread holds: its mode, true for exclusive, and its stripe.
abbrev pub Held : Type 0
Held = Bool × ℕ

-- A thread with the locks of its guards, and those that an `acquireRange` which it is inside of
-- still has to take, in this mode and order.
pub record Thread : Type 0 where
  pub held : List Held
  pub is_exclusive : Bool
  pub wanted : List ℕ

unfoldable pub conflicts : Bool → ℕ → List Held → Bool
conflicts exclusive stripe [] = false
conflicts exclusive stripe ((mode, s) ∷ held) =
    ((s == stripe) && (exclusive || mode)) || conflicts exclusive stripe held

-- Whether none of the first `n` threads holds the stripe in a conflicting mode.
unfoldable pub is_available : (ℕ → Thread) → ℕ → Bool → ℕ → Bool
is_available threads zero exclusive stripe = true
is_available threads (suc n) exclusive stripe =
    not (conflicts exclusive stripe (threads n).held) && is_available threads n exclusive stripe

unfoldable pub all_available : (ℕ → Thread) → ℕ → Bool → List ℕ → Bool
all_available threads n exclusive [] = true
all_available threads n exclusive (s ∷ ss) =
    is_available threads n exclusive s && all_available threads n exclusive ss

unfoldable pub hold_all : Bool → List ℕ → List Held → List Held
hold_all mode [] held = held
hold_all mode (s ∷ ss) held = (mode, s) ∷ hold_all mode ss held

abbrev pub update : (ℕ → Thread) → ℕ → Thread → ℕ → Thread
update threads u t v = if u == v then t else threads v

-- What thread `u` of `n` threads may do next.
pub data Step (n : ℕ) (threads : ℕ → Thread) : (ℕ → Thread) → Type 0 where
  -- `acquireRange` with `mayBlock`, of a thread without a guard.
  start_waiting :
      (u : ℕ) (j : Journal) (mode : Bool) (first num_blocks : ℕ)
      → u < n
      → (threads u).held ≡ []
      → (threads u).wanted ≡ []
      → Step n threads (
          update threads u
            (record { held = []; is_exclusive = mode; wanted = stripes_of j first num_blocks }))
  -- The next round of its loop, once the lock is free.
  take_next :
      (u s : ℕ) (ss : List ℕ)
      → u < n
      → (threads u).wanted ≡ s ∷ ss
      → is_available threads n (threads u).is_exclusive s ≡ true
      → Step n threads (
          update threads u (record {
            held = ((threads u).is_exclusive, s) ∷ (threads u).held;
            is_exclusive = (threads u).is_exclusive;
            wanted = ss;
          }))
  -- `acquireRange` without `mayBlock`, where it returns true. Where it does not it keeps nothing, and
  -- in neither case does it wait.
  try_all :
      (u : ℕ) (j : Journal) (mode : Bool) (first num_blocks : ℕ)
      → u < n
      → (threads u).wanted ≡ []
      → all_available threads n mode (stripes_of j first num_blocks) ≡ true
      → Step n threads (
          update threads u (record {
            held = hold_all mode (stripes_of j first num_blocks) (threads u).held;
            is_exclusive = mode;
            wanted = [];
          }))
  -- `release` of one guard, whose locks are `guard`.
  release :
      (u : ℕ) (before guard after : List Held)
      → u < n
      → (threads u).held ≡ before ++ (guard ++ after)
      → (threads u).wanted ≡ []
      → Step n threads (
          update threads u (record {
            held = before ++ after;
            is_exclusive = (threads u).is_exclusive;
            wanted = [];
          }))

-- The threads of a run start without a lock.
abbrev pub idle : ℕ → Thread
idle u = record { held = []; is_exclusive = false; wanted = [] }

pub data Reach (n : ℕ) : (ℕ → Thread) → Type 0 where
  start : Reach n idle
  later :
      {threads threads' : ℕ → Thread} → Reach n threads → Step n threads threads' → Reach n threads'
