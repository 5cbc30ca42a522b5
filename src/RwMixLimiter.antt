-- ===== src/RwMixLimiter.antt =====
-- source/toolkits/RateLimiterRWMixThreads.h: reader and writer threads that keep a ratio of the bytes
-- read and written. The two counters are shared by all threads.
pub mod Balance
pub mod Waits
use elbencho.Prelude.{
  ℕ, suc, ◌+◌, ◌-◌, ◌/◌, ◌<◌, ◌≤◌, ◌≡◌, Bool, true, false, leb, if◌then◌else◌, add64, mul64, sub64,
  Error, Result, ok, throws, List, [], ◌∷◌, Option, none, some,
}

-- The members that `initStart` sets, the same for all threads of a run.
pub record Limiter : Type 0 where
  pub read_ratio_percent : ℕ
  pub num_reader_threads : ℕ
  pub num_writer_threads : ℕ
  pub max_block_size : ℕ

-- `numBytesAllowedRead` and `numBytesAllowedWrite`
unfoldable pub bytes_allowed_read : Limiter → ℕ → ℕ → ℕ
bytes_allowed_read l num_bytes_read num_bytes_write =
    let head_room = mul64 l.max_block_size l.num_writer_threads in
    let writes_with_head_room = add64 num_bytes_write head_room in
    mul64 (add64 writes_with_head_room num_bytes_read) l.read_ratio_percent / 100

unfoldable pub bytes_allowed_write : Limiter → ℕ → ℕ → ℕ
bytes_allowed_write l num_bytes_read num_bytes_write =
    let head_room = mul64 l.max_block_size l.num_reader_threads in
    let reads_with_head_room = add64 num_bytes_read head_room in
    mul64 (add64 reads_with_head_room num_bytes_write) (sub64 100 l.read_ratio_percent) / 100

-- The checks of the two loops.
unfoldable pub may_read : Limiter → ℕ → ℕ → Bool
may_read l num_bytes_read num_bytes_write =
    leb num_bytes_read (bytes_allowed_read l num_bytes_read num_bytes_write)

unfoldable pub may_write : Limiter → ℕ → ℕ → Bool
may_write l num_bytes_read num_bytes_write =
    leb num_bytes_write (bytes_allowed_write l num_bytes_read num_bytes_write)

-- How a round of a loop ends: with the check passed, with an exception, or with a wait of at most
-- 20 milliseconds before the next round.
pub data Round : Type 0 where
  passes waits : Round
  stops : Error → Round

-- `elapsed` is the time in seconds since the call began, as read in the round.
unfoldable pub round_of : Bool → Bool → ℕ → Round
round_of may_go is_interruption_requested elapsed =
    if may_go
    then passes
    else if is_interruption_requested
    then stops Error.interrupted_exception
    else if leb 600 elapsed
    then stops Error.worker_exception
    else waits

-- What one round reads: the two counters, the flag, and the seconds since the call began.
pub record Reading : Type 0 where
  pub num_bytes_read : ℕ
  pub num_bytes_write : ℕ
  pub is_interruption_requested : Bool
  pub elapsed : ℕ

-- The loop of `waitRead` over the readings of its rounds: `none` while it is still waiting, or
-- whether it had to wait and the reader counter it leaves behind.
unfoldable pub wait_read : Limiter → ℕ → Bool → List Reading → Option (Result (Bool × ℕ))
wait_read l next_block_size had_to_wait [] = none
wait_read l next_block_size had_to_wait (now ∷ later_on) =
    let rest = wait_read l next_block_size true later_on in
    let round =
      round_of (may_read l now.num_bytes_read now.num_bytes_write) now.is_interruption_requested
        now.elapsed in
    elim round [
      | passes ↦ some (ok (had_to_wait, add64 now.num_bytes_read next_block_size))
      | waits ↦ rest
      | stops e ↦ some (throws e)
    ]

-- The loop of `waitWrite`, with the writer counter.
unfoldable pub wait_write : Limiter → ℕ → Bool → List Reading → Option (Result (Bool × ℕ))
wait_write l next_block_size had_to_wait [] = none
wait_write l next_block_size had_to_wait (now ∷ later_on) =
    let rest = wait_write l next_block_size true later_on in
    let round =
      round_of (may_write l now.num_bytes_read now.num_bytes_write) now.is_interruption_requested
        now.elapsed in
    elim round [
      | passes ↦ some (ok (had_to_wait, add64 now.num_bytes_write next_block_size))
      | waits ↦ rest
      | stops e ↦ some (throws e)
    ]

-- The counters, and how many readers and writers have passed their check but not yet added their
-- bytes. The last two fields are for the statements: how many bytes a counter stood at when the other
-- one was last cleared, or 0 if it was itself cleared since.
pub record Counters : Type 0 where
  pub num_bytes_read : ℕ
  pub num_bytes_write : ℕ
  pub readers_passed : ℕ
  pub writers_passed : ℕ
  pub read_ahead : ℕ
  pub write_ahead : ℕ

-- What a thread does to the counters, in any order with the others. A check loads the counters one
-- after the other, the one of its own side last; between two resets they only grow, so it passes only
-- where the counters of its last load pass.
pub data Step (l : Limiter) (c : Counters) : Counters → Type 0 where
  pass_read :
      may_read l c.num_bytes_read c.num_bytes_write ≡ true
      → c.readers_passed < l.num_reader_threads
      → Step l c (record c { readers_passed = suc c.readers_passed })
  pass_write :
      may_write l c.num_bytes_read c.num_bytes_write ≡ true
      → c.writers_passed < l.num_writer_threads
      → Step l c (record c { writers_passed = suc c.writers_passed })
  add_read :
      (next_block_size : ℕ)
      → next_block_size ≤ l.max_block_size
      → 0 < c.readers_passed
      → Step l c (record c {
        num_bytes_read = add64 c.num_bytes_read next_block_size;
        readers_passed = c.readers_passed - 1;
      })
  add_write :
      (next_block_size : ℕ)
      → next_block_size ≤ l.max_block_size
      → 0 < c.writers_passed
      → Step l c (record c {
        num_bytes_write = add64 c.num_bytes_write next_block_size;
        writers_passed = c.writers_passed - 1;
      })
  -- The two stores of `initStart`, which every thread calls at the start of a phase and of each of
  -- its rounds, whatever the others are doing. A thread in the middle of a check may have loaded a
  -- counter before the store, and pass by that: these threads count as passed from here on.
  clear_read :
      (readers writers : ℕ)
      → c.readers_passed ≤ readers
      → readers ≤ l.num_reader_threads
      → c.writers_passed ≤ writers
      → writers ≤ l.num_writer_threads
      → Step l c (record c {
        num_bytes_read = 0;
        readers_passed = readers;
        writers_passed = writers;
        read_ahead = 0;
        write_ahead = c.num_bytes_write;
      })
  clear_write :
      (readers writers : ℕ)
      → c.readers_passed ≤ readers
      → readers ≤ l.num_reader_threads
      → c.writers_passed ≤ writers
      → writers ≤ l.num_writer_threads
      → Step l c (record c {
        num_bytes_write = 0;
        readers_passed = readers;
        writers_passed = writers;
        read_ahead = c.num_bytes_read;
        write_ahead = 0;
      })

abbrev pub init_counters : Counters
init_counters = record {
  num_bytes_read = 0;
  num_bytes_write = 0;
  readers_passed = 0;
  writers_passed = 0;
  read_ahead = 0;
  write_ahead = 0;
}

-- The states of a run of less than 2^56 bytes each way.
abbrev pub IsSmall : Counters → Type 0
IsSmall c = (c.num_bytes_read < 0x100000000000000) × (c.num_bytes_write < 0x100000000000000)

pub data Reach (l : Limiter) : Counters → Type 0 where
  start : Reach l init_counters
  later : {c d : Counters} → Reach l c → Step l c d → IsSmall d → Reach l d
