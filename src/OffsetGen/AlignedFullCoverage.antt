-- ===== src/OffsetGen/AlignedFullCoverage.antt =====
-- `OffsetGenRandomAlignedFullCoverageV2` of
-- source/toolkits/offsetgen/OffsetGenRandomAlignedFullCoverageV2.h: the offset generator over the
-- covering random generator.
pub mod Cover
use elbencho.Prelude.{
  ℕ, ◌-◌, ◌/◌, min, ◌==◌, if◌then◌else◌, add64, sub64, mul64, Result, ok, throws, ◌>>=◌, not, ◌||◌,
}
use elbencho.OffsetGen.{OffsetGenerator}
use elbencho.OffsetGen.FullCoverage.{Covering, next}
use elbencho.OffsetGen.FullCoverage

pub record AlignedFullCoverage : Type 0 where
  pub num_bytes_total : ℕ
  pub num_bytes_left : ℕ
  pub range_len : ℕ
  pub block_size : ℕ
  pub random_gen : Covering

unfoldable pub calc_start_block_idx : ℕ → ℕ → ℕ
calc_start_block_idx offset block_size = if block_size == 0 then 0 else offset / block_size

unfoldable pub calc_end_block_idx : ℕ → ℕ → ℕ → ℕ
calc_end_block_idx offset range_len block_size =
    add64 (calc_start_block_idx offset block_size)
      (if (block_size == 0) || (range_len / block_size == 0) then 0 else range_len / block_size - 1)

-- The constructor. `seed` is the value of `std::random_device` at this call.
unfoldable pub make : ℕ → ℕ → ℕ → ℕ → ℕ → Result AlignedFullCoverage
make seed num_bytes_total len offset block_size = do
  gen ←
      FullCoverage.make seed (calc_start_block_idx offset block_size)
        (calc_end_block_idx offset len block_size)
  ok (record {
    num_bytes_total = num_bytes_total;
    num_bytes_left = num_bytes_total;
    range_len = len;
    block_size = block_size;
    random_gen = gen;
  })

-- The loop of the covering generator's `next` gets as many rounds as its modulus. `seed` is the
-- value of `std::random_device` at a call that starts a new cycle.
unfoldable pub generator : ℕ → OffsetGenerator AlignedFullCoverage
generator seed = record {
  reset = λ s. ok (record s {
    num_bytes_left = s.num_bytes_total;
    random_gen = FullCoverage.reset seed s.random_gen;
  });
  reset_range = λ len offset s. do
    gen ←
        FullCoverage.make seed (calc_start_block_idx offset s.block_size)
          (calc_end_block_idx offset len s.block_size)
    ok (record s {
      num_bytes_total = len;
      num_bytes_left = len;
      range_len = len;
      random_gen = gen;
    });
  get_next_offset = λ s. do
    (idx, gen) ← next s.random_gen.m_lcg seed s.random_gen
    ok (mul64 idx s.block_size, record s { random_gen = gen });
  get_block_size = λ s. s.block_size;
  get_next_block_size_to_submit = λ s. ok (min s.num_bytes_left s.block_size, s);
  get_num_bytes_total = λ s. s.num_bytes_total;
  get_num_bytes_left_to_submit = λ s. s.num_bytes_left;
  add_bytes_submitted = λ n s. record s { num_bytes_left = sub64 s.num_bytes_left n };
}
