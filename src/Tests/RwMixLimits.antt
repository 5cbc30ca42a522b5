-- ===== src/Tests/RwMixLimits.antt =====
-- source/toolkits/RateLimiterRWMixThreads.h at concrete inputs.
use elbencho.Prelude.{
  ◌+◌, ◌-◌, ◌*◌, ◌≤◌, ◌≡◌, ◌⊎◌, refl, arith, false, true, ◌≢◌, add64, mul64, [], ◌∷◌, ◌++◌, some,
  none, ok,
}
use elbencho.RwMixLimiter.{
  Limiter, Reading, round_of, wait_read, wait_write, may_read, may_write, bytes_allowed_read,
  Counters, Step, pass_read, add_read, clear_write, Reach, start, later,
}
use elbencho.RwMixLimiter.Waits.{waits-end}
use elbencho.RwMixLimiter.Balance.{IsSane, may_read-or-may_write, Reach-IsBalanced}

-- Two readers with three quarters of the bytes, and one writer.
abbrev three_quarters : Limiter
three_quarters = record {
  read_ratio_percent = 75;
  num_reader_threads = 2;
  num_writer_threads = 1;
  max_block_size = 4096;
}

three_quarters-IsSane : IsSane three_quarters
three_quarters-IsSane = record {
  percent = omega arith;
  reader_room = omega arith;
  writer_room = omega arith;
}

-- The readers are ahead of their share, the writer is not.
readers_wait : may_read three_quarters 40960 4096 ≡ false
unfolding may_read bytes_allowed_read add64 mul64
readers_wait = refl

may_read-or-may_write_example :
    (may_read three_quarters 40960 4096 ≡ true) ⊎ (may_write three_quarters 40960 4096 ≡ true)
may_read-or-may_write_example =
    may_read-or-may_write three_quarters 40960 4096 three_quarters-IsSane (omega arith)
      (omega arith)

abbrev one_passed : Counters
one_passed = record {
  num_bytes_read = 0;
  num_bytes_write = 0;
  readers_passed = 1;
  writers_passed = 0;
  read_ahead = 0;
  write_ahead = 0;
}

abbrev one_read : Counters
one_read = record {
  num_bytes_read = 4096;
  num_bytes_write = 0;
  readers_passed = 0;
  writers_passed = 0;
  read_ahead = 0;
  write_ahead = 0;
}

first_may_read : may_read three_quarters 0 0 ≡ true
unfolding may_read bytes_allowed_read add64 mul64
first_may_read = refl

passed-Reach : Reach three_quarters one_passed
passed-Reach = later start (pass_read first_may_read (omega arith)) (omega arith, omega arith)

read-Step : Step three_quarters one_passed one_read
unfolding add64
read-Step = add_read 4096 (omega arith) (omega arith)

-- A thread clears the counters, one after the other.
abbrev half_cleared : Counters
half_cleared = record {
  num_bytes_read = 4096;
  num_bytes_write = 0;
  readers_passed = 1;
  writers_passed = 0;
  read_ahead = 4096;
  write_ahead = 0;
}

read-Reach : Reach three_quarters one_read
read-Reach = later passed-Reach read-Step (omega arith, omega arith)

half_cleared-Step : Step three_quarters one_read half_cleared
half_cleared-Step = clear_write 1 0 (omega arith) (omega arith) (omega arith) (omega arith)

Reach-IsBalanced_example :
    ((100 - 75) * 4096 ≤ (0 + 4096 * 1) * 75 + (100 - 75) * (2 * 4096 + 4096))
    × (75 * 0 ≤ (4096 + 4096 * 2) * (100 - 75) + 75 * (1 * 4096 + 0))
Reach-IsBalanced_example =
    Reach-IsBalanced three_quarters half_cleared three_quarters-IsSane
      (later read-Reach half_cleared-Step (omega arith, omega arith))

-- The readers are ahead, until the writer has caught up in the second round.
abbrev ahead : Reading
ahead = record {
  num_bytes_read = 40960;
  num_bytes_write = 4096;
  is_interruption_requested = false;
  elapsed = 0;
}

abbrev caught_up : Reading
caught_up = record {
  num_bytes_read = 40960;
  num_bytes_write = 16384;
  is_interruption_requested = false;
  elapsed = 1;
}

abbrev timed_out : Reading
timed_out = record ahead { elapsed = 600 }

second_round :
    wait_read three_quarters 4096 false (ahead ∷ caught_up ∷ []) ≡ some (ok (true, 45056))
unfolding wait_read round_of may_read bytes_allowed_read add64 mul64
second_round = refl

waits-end_example :
    (wait_read three_quarters 4096 false ((ahead ∷ []) ++ (timed_out ∷ [])) ≢ none)
    × (wait_write three_quarters 4096 false ((ahead ∷ []) ++ (timed_out ∷ [])) ≢ none)
waits-end_example = waits-end three_quarters 4096 false (ahead ∷ []) timed_out [] (omega arith)
