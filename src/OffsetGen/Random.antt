-- ===== src/OffsetGen/Random.antt =====
-- `OffsetGenRandom` of source/toolkits/offsetgen/OffsetGenerator.h: unaligned random offsets.
pub mod Bounds
use elbencho.Prelude.{ℕ, ◌+◌, min, add64, sub64, Result, ok, throws, ◌>>=◌}
use elbencho.Mix.{Mix, get_next_size}
use elbencho.OffsetGen.{OffsetGenerator}
use elbencho.OffsetGen.Range.{Range, draw}
use elbencho.OffsetGen.Range

-- The state of the random generator is `rand`; the range and the mix draw from the same one.
pub record Random (G : Type 0) : Type 0 where
  pub rand_range : Range
  pub num_bytes_total : ℕ
  pub num_bytes_left : ℕ
  pub mix : Mix
  pub rand : G

-- The bounds of the random range, in the constructor and in `reset(len, offset)`.
unfoldable pub range_of : ℕ → ℕ → Mix → Result Range
range_of len offset mix = Range.make offset (sub64 (add64 offset len) (min mix.max_size len))

module _ {G : Type 0} (next : G → ℕ × G) where
  unfoldable pub make : ℕ → ℕ → ℕ → Mix → G → Result (Random G)
  make num_bytes_total len offset mix rand = do
    range ← range_of len offset mix
    ok (record {
      rand_range = range;
      num_bytes_total = num_bytes_total;
      num_bytes_left = num_bytes_total;
      mix = mix;
      rand = rand;
    })

  unfoldable pub generator : OffsetGenerator (Random G)
  generator = record {
    reset = λ s. ok (record s { num_bytes_left = s.num_bytes_total });
    reset_range = λ len offset s. do
      range ← range_of len offset s.mix
      ok (record s { num_bytes_total = len; num_bytes_left = len; rand_range = range });
    get_next_offset = λ s. do
      (offset, rand') ← draw next s.rand_range s.rand
      ok (offset, record s { rand = rand' });
    get_block_size = λ s. s.mix.max_size;
    get_next_block_size_to_submit = λ s. do
      (size, rand') ← get_next_size next s.mix s.rand
      ok (min s.num_bytes_left size, record s { rand = rand' });
    get_num_bytes_total = λ s. s.num_bytes_total;
    get_num_bytes_left_to_submit = λ s. s.num_bytes_left;
    add_bytes_submitted = λ n s. record s { num_bytes_left = sub64 s.num_bytes_left n };
  }
