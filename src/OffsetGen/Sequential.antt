-- ===== src/OffsetGen/Sequential.antt =====
-- `OffsetGenSequential` of source/toolkits/offsetgen/OffsetGenerator.h.
pub mod Cover
use elbencho.Prelude.{
  ℕ, zero, suc, ◌+◌, ◌-◌, ◌≤◌, ◌<◌, ◌≡◌, refl, min, ltb, ◌==◌, if◌then◌else◌, add64, sub64, u64_mod,
  Result, ok, throws, ◌>>=◌, Error, Option, none, some, arith, List,
}
use elbencho.Mix.{Mix, get_next_size}
use elbencho.Mix.Extremes.{IsValid, get_next_size-Within}
use elbencho.OffsetGen.{
  OffsetGenerator, Trace, prepend, finish, rw_block_sized, Tiles, MakesProgress,
}

-- `rand` is the state of the random generator that `randAlgo` refers to.
pub record Sequential (G : Type 0) : Type 0 where
  pub num_bytes_total : ℕ
  pub num_bytes_left : ℕ
  pub start_offset : ℕ
  pub current_offset : ℕ
  pub mix : Mix
  pub rand : G

module _ {G : Type 0} (next : G → ℕ × G) where
  unfoldable pub make : ℕ → ℕ → Mix → G → Sequential G
  make len offset mix rand = record {
    num_bytes_total = len;
    num_bytes_left = len;
    start_offset = offset;
    current_offset = offset;
    mix = mix;
    rand = rand;
  }

  unfoldable pub generator : OffsetGenerator (Sequential G)
  generator = record {
    reset =
        λ s. ok (record s { num_bytes_left = s.num_bytes_total; current_offset = s.start_offset });
    reset_range = λ len offset s. ok (record s {
      num_bytes_total = len;
      num_bytes_left = len;
      start_offset = offset;
      current_offset = offset;
    });
    get_next_offset = λ s. ok (s.current_offset, s);
    get_block_size = λ s. s.mix.max_size;
    get_next_block_size_to_submit = λ s. do
      (size, rand') ← get_next_size next s.mix s.rand
      ok (min s.num_bytes_left size, record s { rand = rand' });
    get_num_bytes_total = λ s. s.num_bytes_total;
    get_num_bytes_left_to_submit = λ s. s.num_bytes_left;
    add_bytes_submitted = λ n s. record s {
      num_bytes_left = sub64 s.num_bytes_left n;
      current_offset = add64 s.current_offset n;
    };
  }
