-- ===== src/OffsetGen/FullCoverage.antt =====
-- source/toolkits/offsetgen/OffsetGenRandomAlignedFullCoverageV2.h: random block offsets that visit
-- each block once, from a linear congruential generator with rejection. `seed` is the value of
-- `std::random_device`, which is not the program's, at the call that reads it.
pub mod PowerOfTwo
pub mod Cycle
pub mod Orbit
pub mod Visits
use Prim.Native.Nat.{bit_and, bit_or}
use elbencho.Prelude.{
  ℕ, zero, suc, ◌+◌, ◌-◌, ◌*◌, ◌/◌, ◌%◌, ◌^◌, Bool, true, false, not, ltb, ◌==◌, if◌then◌else◌, min,
  add64, sub64, mul64, Result, ok, throws, throw_if, ◌>>=◌, ◌>>◌, Error,
}

-- `CoveringRandomGenerator`
pub record Covering : Type 0 where
  pub min_value : ℕ
  pub max_value : ℕ
  pub range_size : ℕ
  pub current_count : ℕ
  pub m_lcg : ℕ
  pub a_lcg : ℕ
  pub c_lcg : ℕ
  pub current_lcg_state : ℕ

-- `n |= n >> s`
unfoldable pub smear : ℕ → ℕ → ℕ
smear s n = bit_or n (n / 2 ^ s)

unfoldable pub next_power_of_two : ℕ → ℕ
next_power_of_two n =
    if n == 0
    then 1
    else add64 (smear 32 (smear 16 (smear 8 (smear 4 (smear 2 (smear 1 (sub64 n 1))))))) 1

abbrev pub multiplier : ℕ
multiplier = 6364136223846793005

abbrev pub increment : ℕ
increment = 1442695040888963407

-- The modulus of the constructor, with its cases for an overflow of `next_power_of_two`.
unfoldable pub modulus : ℕ → Result ℕ
modulus range_size =
    let m = next_power_of_two range_size in
    if m == 0
    then (if ltb (2 ^ 63) range_size
        then (if bit_and range_size (range_size - 1) == 0
            then ok range_size
            else throws Error.worker_exception)
        else ok range_size)
    else ok m

unfoldable pub make : ℕ → ℕ → ℕ → Result Covering
make seed min_val max_val = do
  throw_if (ltb max_val min_val) Error.worker_exception
  let range_size = add64 (sub64 max_val min_val) 1
  throw_if (range_size == 0) Error.worker_exception
  m ← modulus range_size
  ok (record {
    min_value = min_val;
    max_value = max_val;
    range_size = range_size;
    current_count = 0;
    m_lcg = m;
    a_lcg = multiplier;
    c_lcg = increment;
    current_lcg_state = seed % m;
  })

unfoldable pub has_next : Covering → Bool
has_next g = ltb g.current_count g.range_size

unfoldable pub reset : ℕ → Covering → Covering
reset seed g = record g { current_count = 0; current_lcg_state = seed % g.m_lcg }

unfoldable pub lcg_step : Covering → ℕ → ℕ
lcg_step g x = add64 (mul64 g.a_lcg x) g.c_lcg % g.m_lcg

-- The do-while loop of `next`: the first state below the range size, of those behind `x`.
unfoldable pub walk : ℕ → Covering → ℕ → Result ℕ
walk zero g x = throws Error.out_of_fuel
walk (suc fuel) g x =
    let y = lcg_step g x in let rest = walk fuel g y in if ltb y g.range_size then ok y else rest

-- `next`, with `fuel` rounds for its loop.
unfoldable pub next : ℕ → ℕ → Covering → Result (ℕ × Covering)
next fuel seed g =
    let g1 = if has_next g then g else reset seed g in
    do
      y ← walk fuel g1 g1.current_lcg_state
      ok (
        add64 g1.min_value y,
        record g1 { current_lcg_state = y; current_count = add64 g1.current_count 1 },
      )
