-- ===== src/OffsetGen/Reverse.antt =====
-- `OffsetGenReverseSeq` of source/toolkits/offsetgen/OffsetGenerator.h.
pub mod Cover
use elbencho.Prelude.{
  ℕ, zero, suc, ◌+◌, ◌-◌, ◌%◌, ◌≡◌, min, ◌==◌, if◌then◌else◌, add64, sub64, Result, ok, throws,
  ◌>>=◌, Error,
}
use elbencho.OffsetGen.{OffsetGenerator}

pub record Reverse : Type 0 where
  pub num_bytes_total : ℕ
  pub num_bytes_left : ℕ
  pub start_offset : ℕ
  pub current_offset : ℕ
  pub block_size : ℕ

-- `reset()`: the remainder by a block size of 0 faults, unless the range is empty.
unfoldable pub reset : Reverse → Result Reverse
reset s =
    let fresh = record s { num_bytes_left = s.num_bytes_total } in
    let remainder = s.num_bytes_total % s.block_size in
    let end = add64 s.start_offset s.num_bytes_total in
    if s.num_bytes_total == 0
    then ok (record fresh { current_offset = 0 })
    else if s.block_size == 0
    then throws Error.division_by_zero
    else if remainder == 0
    then ok (record fresh { current_offset = sub64 end s.block_size })
    else ok (record fresh { current_offset = sub64 end remainder })

unfoldable pub reset_range : ℕ → ℕ → Reverse → Result Reverse
unfolding reset
reset_range len offset s = reset (record s {
  num_bytes_total = len;
  num_bytes_left = len;
  start_offset = offset;
  current_offset = offset;
})

-- The constructor.
unfoldable pub make : ℕ → ℕ → ℕ → Result Reverse
unfolding reset
make len offset block_size = reset (record {
  num_bytes_total = len;
  num_bytes_left = len;
  start_offset = offset;
  current_offset = offset;
  block_size = block_size;
})

unfoldable pub generator : OffsetGenerator Reverse
unfolding reset reset_range
generator = record {
  reset = reset;
  reset_range = reset_range;
  get_next_offset = λ s. ok (s.current_offset, s);
  get_block_size = λ s. s.block_size;
  get_next_block_size_to_submit = λ s.
      ok (min (sub64 (add64 s.start_offset s.num_bytes_total) s.current_offset) s.block_size, s);
  get_num_bytes_total = λ s. s.num_bytes_total;
  get_num_bytes_left_to_submit = λ s. s.num_bytes_left;
  add_bytes_submitted = λ n s. record s {
    num_bytes_left = sub64 s.num_bytes_left n;
    current_offset = sub64 s.current_offset s.block_size;
  };
}
