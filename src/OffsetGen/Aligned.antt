-- ===== src/OffsetGen/Aligned.antt =====
-- `OffsetGenRandomAligned` of source/toolkits/offsetgen/OffsetGenerator.h: random offsets on a grid
-- of the smallest block size.
pub mod Bounds
use elbencho.Prelude.{
  ℕ, ◌/◌, min, ◌==◌, if◌then◌else◌, add64, sub64, mul64, Result, ok, throws, ◌>>=◌,
}
use elbencho.Mix.{Mix, get_next_size}
use elbencho.OffsetGen.{OffsetGenerator}
use elbencho.OffsetGen.Range.{Range, draw}
use elbencho.OffsetGen.Range

pub record Aligned (G : Type 0) : Type 0 where
  pub rand_range : Range
  pub num_bytes_total : ℕ
  pub num_bytes_left : ℕ
  pub offset : ℕ
  pub mix : Mix
  pub align_grid : ℕ
  pub rand : G

-- The random range, in grid steps: of the constructor and of `reset(len, offset)`.
unfoldable pub range_of : ℕ → Mix → Result Range
range_of len mix =
    if min mix.min_size len == 0
    then Range.make 0 0
    else Range.make 0 ((sub64 len (min mix.max_size len)) / min mix.min_size len)

module _ {G : Type 0} (next : G → ℕ × G) where
  unfoldable pub make : ℕ → ℕ → ℕ → Mix → G → Result (Aligned G)
  make num_bytes_total len offset mix rand = do
    range ← range_of len mix
    ok (record {
      rand_range = range;
      num_bytes_total = num_bytes_total;
      num_bytes_left = num_bytes_total;
      offset = offset;
      mix = mix;
      align_grid = mix.min_size;
      rand = rand;
    })

  unfoldable pub generator : OffsetGenerator (Aligned G)
  generator = record {
    reset = λ s. ok (record s { num_bytes_left = s.num_bytes_total });
    reset_range = λ len offset s. do
      range ← range_of len s.mix
      ok (record s {
        num_bytes_total = len;
        num_bytes_left = len;
        offset = offset;
        rand_range = range;
      });
    get_next_offset = λ s. do
      (step, rand') ← draw next s.rand_range s.rand
      ok (add64 s.offset (mul64 step s.align_grid), record s { rand = rand' });
    get_block_size = λ s. s.mix.max_size;
    get_next_block_size_to_submit = λ s. do
      (size, rand') ← get_next_size next s.mix s.rand
      ok (min s.num_bytes_left size, record s { rand = rand' });
    get_num_bytes_total = λ s. s.num_bytes_total;
    get_num_bytes_left_to_submit = λ s. s.num_bytes_left;
    add_bytes_submitted = λ n s. record s { num_bytes_left = sub64 s.num_bytes_left n };
  }
