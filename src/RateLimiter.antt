-- ===== src/RateLimiter.antt =====
-- source/toolkits/RateLimiter.h: a thread sleeps for the rest of a second when it has used up its
-- limit for that second. The readings of the clock are arguments, in nanoseconds.
pub mod Bound
use elbencho.Prelude.{ℕ, ◌+◌, ◌-◌, ◌/◌, Bool, true, false, leb, ltb, if◌then◌else◌, add64}

pub record RateLimiter : Type 0 where
  pub limit_per_sec : ℕ
  pub num_done_this_sec : ℕ
  pub start_t : ℕ

unfoldable pub init_start : ℕ → ℕ → RateLimiter
init_start now limit = record { limit_per_sec = limit; num_done_this_sec = 0; start_t = now }

-- Whether the call takes the branch that starts a new second without a wait: `duration_cast` cuts
-- the elapsed time off to microseconds.
unfoldable pub is_new_second : ℕ → RateLimiter → Bool
is_new_second now r = leb 1000000 ((now - r.start_t) / 1000)

-- Whether the call sleeps until the end of the current second.
unfoldable pub must_wait : ℕ → RateLimiter → Bool
must_wait next_size r = ltb r.limit_per_sec (add64 r.num_done_this_sec next_size)

-- `wait`: `now` is the first reading of the clock, which is monotonic, and `later` the second, that
-- of a new second, after the sleep where there is one.
unfoldable pub wait : ℕ → ℕ → ℕ → RateLimiter → Bool × RateLimiter
wait now later next_size r =
    if is_new_second now r
    then (
      false,
      record { limit_per_sec = r.limit_per_sec; num_done_this_sec = next_size; start_t = later },
    )
    else if must_wait next_size r
    then (
      true,
      record { limit_per_sec = r.limit_per_sec; num_done_this_sec = next_size; start_t = later },
    )
    else (
      false,
      record {
        limit_per_sec = r.limit_per_sec;
        num_done_this_sec = add64 r.num_done_this_sec next_size;
        start_t = r.start_t;
      },
    )
