-- ===== src/OffsetGen.antt =====
-- source/toolkits/offsetgen/OffsetGenerator.h: the class that all offset generators implement, and
-- the loop of `LocalWorker::rwBlockSized` (source/workers/LocalWorker.cpp) that drives them.
pub mod Loop
pub mod Range
pub mod Sequential
pub mod Reverse
pub mod Random
pub mod Aligned
pub mod Strided
pub mod FullCoverage
pub mod AlignedFullCoverage
use elbencho.Prelude.{
  ℕ, zero, suc, ◌+◌, ◌≤◌, ◌<◌, ◌≡◌, Bool, true, false, List, [], ◌∷◌, ltb, ◌==◌, if◌then◌else◌,
  sub64, Result, ok, throws, ◌>>=◌, Error, Option, none, some,
}

-- The virtual functions, over the state `S` of an implementation. A call that draws from the
-- random generator changes that part of the state, also where the method is `const`.
pub record OffsetGenerator (S : Type 0) : Type 0 where
  pub reset : S → Result S
  pub reset_range : ℕ → ℕ → S → Result S
  pub get_next_offset : S → Result (ℕ × S)
  pub get_block_size : S → ℕ
  pub get_next_block_size_to_submit : S → Result (ℕ × S)
  pub get_num_bytes_total : S → ℕ
  pub get_num_bytes_left_to_submit : S → ℕ
  pub add_bytes_submitted : ℕ → S → S

-- The transfers of one call, each its offset and the bytes done, and how the call ended: with the
-- return value, -1 being `none`, or by an exception.
pub record Trace : Type 0 where
  pub ios : List (ℕ × ℕ)
  pub ending : Result (Option ℕ)

abbrev pub prepend : ℕ × ℕ → Trace → Trace
prepend io t = record { ios = io ∷ t.ios; ending = t.ending }

abbrev pub finish : Result (Option ℕ) → Trace
finish r = record { ios = []; ending = r }

-- `io offset size` is the result of the positional read or write at the offset that the generator
-- gave, behind the striping over files, the rate limit and the lock: `none` for -1, else the number
-- of bytes done. It stands for a call that does not throw.
module _ {S : Type 0} (gen : OffsetGenerator S) (io : ℕ → ℕ → Option ℕ) where
  open gen use {
    get_next_offset, get_next_block_size_to_submit, get_num_bytes_total,
    get_num_bytes_left_to_submit, add_bytes_submitted,
  }

  -- The loop of a run that is not interrupted, without the journal. `rwRes <= 0` ends it: -1 is
  -- returned as it is, and 0 as the number of bytes done before. Which of read and write a round is,
  -- the buffers, the file locks, the statistics and the latencies do not act on the generator.
  unfoldable pub rw_block_sized : ℕ → S → Trace
  rw_block_sized zero s =
      if get_num_bytes_left_to_submit s == 0
      then finish (ok (some (get_num_bytes_total s)))
      else finish (throws Error.out_of_fuel)
  rw_block_sized (suc fuel) s =
      if get_num_bytes_left_to_submit s == 0
      then finish (ok (some (get_num_bytes_total s)))
      else elim (get_next_offset s) [
        | throws e ↦ finish (throws e)
        | ok (offset, s1) ↦ elim (get_next_block_size_to_submit s1) [
          | throws e ↦ finish (throws e)
          | ok (size, s2) ↦ elim (io offset size) [
            | none ↦ finish (ok none)
            | some zero ↦
                finish
                  (ok (some (sub64 (get_num_bytes_total s2) (get_num_bytes_left_to_submit s2))))
            | some (suc n) ↦
                prepend (offset, suc n) (rw_block_sized fuel (add_bytes_submitted (suc n) s2))
          ]
        ]
      ]

-- The transfers cover a range from its start to its end, each byte once and in order.
abbrev pub Tiles : ℕ → ℕ → List (ℕ × ℕ) → Type 0
Tiles from to [] = from ≡ to
Tiles from to ((offset, n) ∷ rest) = (offset ≡ from) × (0 < n) × Tiles (offset + n) to rest

abbrev pub sum_bytes : List (ℕ × ℕ) → ℕ
sum_bytes [] = 0
sum_bytes ((offset, n) ∷ rest) = n + sum_bytes rest

-- An I/O that makes progress, and does no more than it was asked for.
abbrev pub MakesProgress : (ℕ → ℕ → Option ℕ) → Type 0
MakesProgress io =
    (offset size : ℕ) → 0 < size → (n : ℕ) × (io offset size ≡ some n) × (0 < n) × (n ≤ size)

-- An I/O that does what it was asked for.
abbrev pub complete_io : ℕ → ℕ → Option ℕ
complete_io offset size = some size
