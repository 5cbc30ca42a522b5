-- ===== src/Tests/RateLimits.antt =====
-- source/toolkits/RateLimiter.h at concrete inputs.
use elbencho.Prelude.{◌+◌, ◌-◌, ◌*◌, ◌≤◌, ◌≡◌, refl, true, arith, [], ◌∷◌, add64}
use elbencho.RateLimiter.{RateLimiter, wait, is_new_second, must_wait}
use elbencho.RateLimiter.Bound.{Call, AllTimely, run, sum_sizes, second, wait-IsRateLimited}

-- A limit of 100 per second, and two calls for 60 in its first second: the second one sleeps.
abbrev limiter : RateLimiter
limiter = record { limit_per_sec = 100; num_done_this_sec = 0; start_t = 0 }

abbrev first_call : Call
first_call = record { now = 10; later = 20; size = 60 }

abbrev second_call : Call
second_call = record { now = 30; later = second; size = 60 }

abbrev limiter_later : RateLimiter
limiter_later = record { limit_per_sec = 100; num_done_this_sec = 60; start_t = 0 }

second_call_waits : (wait 30 second 60 limiter_later).0 ≡ true
unfolding wait is_new_second must_wait add64
second_call_waits = refl

limiter-AllTimely : AllTimely (first_call ∷ second_call ∷ []) limiter
unfolding wait is_new_second must_wait add64
limiter-AllTimely = (
  record { started = omega arith; monotonic = omega arith; slept = λ e. cc; fits = omega arith },
  (
    record {
      started = omega arith;
      monotonic = omega arith;
      slept = λ e. omega arith;
      fits = omega arith;
    },
    tt,
  ),
)

wait-IsRateLimited_example :
    ((run (first_call ∷ second_call ∷ []) limiter).num_done_this_sec ≤ 100)
    × ((0 + sum_sizes (first_call ∷ second_call ∷ [])) * second
        ≤ (run (first_call ∷ second_call ∷ []) limiter).num_done_this_sec * second
          + 100 * ((run (first_call ∷ second_call ∷ []) limiter).start_t - 0))
wait-IsRateLimited_example =
    wait-IsRateLimited (first_call ∷ second_call ∷ []) limiter limiter-AllTimely
      (record { within = omega arith; word = omega arith })
