-- ===== src/OffsetGen/Strided.antt =====
-- `OffsetGenStrided` of source/toolkits/offsetgen/OffsetGenerator.h.
pub mod Cover
use elbencho.Prelude.{ℕ, min, add64, sub64, mul64, Result, ok}
use elbencho.OffsetGen.{OffsetGenerator}

pub record Strided : Type 0 where
  pub num_bytes_total : ℕ
  pub num_bytes_left : ℕ
  pub start_offset : ℕ
  pub current_offset : ℕ
  pub block_size : ℕ
  pub num_data_set_threads : ℕ

unfoldable pub make : ℕ → ℕ → ℕ → ℕ → Strided
make len offset block_size num_data_set_threads = record {
  num_bytes_total = len;
  num_bytes_left = len;
  start_offset = offset;
  current_offset = offset;
  block_size = block_size;
  num_data_set_threads = num_data_set_threads;
}

unfoldable pub generator : OffsetGenerator Strided
generator = record {
  reset =
      λ s. ok (record s { num_bytes_left = s.num_bytes_total; current_offset = s.start_offset });
  reset_range = λ len offset s. ok (record s {
    num_bytes_total = len;
    num_bytes_left = len;
    start_offset = offset;
    current_offset = offset;
  });
  get_next_offset = λ s. ok (s.current_offset, s);
  get_block_size = λ s. s.block_size;
  get_next_block_size_to_submit = λ s. ok (min s.num_bytes_left s.block_size, s);
  get_num_bytes_total = λ s. s.num_bytes_total;
  get_num_bytes_left_to_submit = λ s. s.num_bytes_left;
  add_bytes_submitted = λ n s. record s {
    num_bytes_left = sub64 s.num_bytes_left n;
    current_offset = add64 s.current_offset (mul64 s.block_size s.num_data_set_threads);
  };
}
