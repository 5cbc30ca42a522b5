-- ===== src/Tests/OffsetGens.antt =====
-- source/toolkits/offsetgen/OffsetGenerator.h and OffsetGenRandomAlignedFullCoverageV2.h at
-- concrete inputs.
use elbencho.Prelude.{
  ℕ, ◌+◌, ◌*◌, ◌%◌, ◌<◌, ◌≡◌, refl, ◌/◌, ◌==◌, min, mul64, ok, Option, some, arith, List, [], ◌∷◌,
  All, map, length, inl,
}
use elbencho.Pigeonhole.{count}
use elbencho.Mix.{Mix}
use elbencho.Mix.Extremes.{IsValid}
use elbencho.OffsetGen.{rw_block_sized, Tiles, sum_bytes, complete_io, MakesProgress}
use elbencho.OffsetGen.Sequential
use elbencho.OffsetGen.Sequential.Cover.{rw_block_sized-Tiles}
use elbencho.OffsetGen.Reverse.{Reverse}
use elbencho.OffsetGen.Reverse
use elbencho.OffsetGen.Reverse.Cover.{TilesDown, rw_block_sized-TilesDown}
use elbencho.OffsetGen.Random.{Random}
use elbencho.OffsetGen.Random
use elbencho.OffsetGen.Random.Bounds.{InRange, rw_block_sized-InRange}
use elbencho.OffsetGen.Aligned.{Aligned}
use elbencho.OffsetGen.Aligned
use elbencho.OffsetGen.Aligned.Bounds.{InRangeOnGrid, rw_block_sized-InRangeOnGrid}
use elbencho.OffsetGen.Strided
use elbencho.OffsetGen.Strided.Cover.{count_at, rw_block_sized-share}
use elbencho.OffsetGen.AlignedFullCoverage.{AlignedFullCoverage}
use elbencho.OffsetGen.AlignedFullCoverage
use elbencho.OffsetGen.AlignedFullCoverage.Cover.{rw_block_sized-once}
use elbencho.Pigeonhole.{once}

-- A random generator that counts.
abbrev pub counting : ℕ → ℕ × ℕ
counting g = (g, g + 1)

-- "4k:3,64k:1"
abbrev pub two_sizes : Mix
two_sizes = record {
  sizes_and_weights = (4096, 3) ∷ (65536, 1) ∷ [];
  cumulative_weights = 3 ∷ 4 ∷ [];
  total_weight = 4;
  max_size = 65536;
  min_size = 4096;
}

pub two_sizes-IsValid : IsValid two_sizes
two_sizes-IsValid = record {
  nonempty = omega arith;
  entries = omega arith;
  within = omega arith;
  positive = omega arith;
  ordered = omega arith;
}

-- I/O that does half of what it is asked for, and at least one byte.
abbrev pub short_io : ℕ → ℕ → Option ℕ
short_io offset size = some (min size (size / 2 + 1))

pub short_io-MakesProgress : MakesProgress short_io
short_io-MakesProgress offset size h = (min size (size / 2 + 1), refl, omega arith, omega arith)

rw_block_sized-Tiles_example :
    let t =
      rw_block_sized
        (Sequential.generator counting)
        short_io
        100000
        (Sequential.make counting 100000 8192 two_sizes 7) in
    Tiles 8192 (8192 + 100000) t.ios × (t.ending ≡ ok (some 100000))
rw_block_sized-Tiles_example =
    rw_block_sized-Tiles counting short_io short_io-MakesProgress 100000 8192 100000 two_sizes 7
      two_sizes-IsValid (omega arith) (omega arith) (omega arith)

rw_block_sized-TilesDown_example :
    (s : Reverse) × (Reverse.make 10000 8192 4096 ≡ ok s)
    × (let t = rw_block_sized Reverse.generator complete_io 3 s in
        TilesDown 8192 (8192 + 10000) t.ios × (t.ending ≡ ok (some 10000)))
rw_block_sized-TilesDown_example =
    rw_block_sized-TilesDown 10000 8192 4096 3 (omega arith) (omega arith) (omega arith)

rw_block_sized-InRange_example :
    (s : Random ℕ) × (Random.make counting 300000 1000000 512 two_sizes 5 ≡ ok s)
    × (let t = rw_block_sized (Random.generator counting) short_io 300000 s in
        All (InRange 512 (512 + 1000000)) t.ios
        × (sum_bytes t.ios ≡ 300000)
        × (t.ending ≡ ok (some 300000)))
rw_block_sized-InRange_example =
    rw_block_sized-InRange counting 512 1000000 short_io short_io-MakesProgress 300000 300000
      two_sizes 5 two_sizes-IsValid (omega arith) (omega arith) (omega arith) (inl (omega arith))
      (omega arith)

rw_block_sized-InRangeOnGrid_example :
    (s : Aligned ℕ) × (Aligned.make counting 300000 1000000 512 two_sizes 5 ≡ ok s)
    × (let t = rw_block_sized (Aligned.generator counting) short_io 300000 s in
        All (InRangeOnGrid 512 (512 + 1000000) 4096) t.ios
        × (sum_bytes t.ios ≡ 300000)
        × (t.ending ≡ ok (some 300000)))
rw_block_sized-InRangeOnGrid_example =
    rw_block_sized-InRangeOnGrid counting 512 1000000 4096 short_io short_io-MakesProgress 300000
      300000 two_sizes 5 refl two_sizes-IsValid (omega arith) (omega arith) (omega arith)
      (inl (omega arith)) (omega arith)

rw_block_sized-share_example :
    let t =
      rw_block_sized Strided.generator complete_io 10
        (Strided.make (10 * 4096) (4096 * 2) 4096 3) in
    (count_at (4096 * 17) t.ios ≡ once (2 == 17 % 3)) × (t.ending ≡ ok (some (10 * 4096)))
rw_block_sized-share_example =
    rw_block_sized-share 10 4096 3 2 17 10 (omega arith) (omega arith) (omega arith) (omega arith)
      (omega arith)

rw_block_sized-once_example :
    (s : AlignedFullCoverage) × (blocks : List ℕ) × (AlignedFullCoverage.make 1234
        (5 * 4096)
        (5 * 4096)
        (2 * 4096)
        4096
      ≡ ok s)
    × (let t = rw_block_sized (AlignedFullCoverage.generator 99) complete_io 5 s in
        (t.ios ≡ map (λ v. (mul64 v 4096, 4096)) blocks) × (t.ending ≡ ok (some (5 * 4096))))
    × (length blocks ≡ 5)
    × ((j : ℕ) → j < 5 → (count (2 + j) blocks ≡ 1) × (mul64 (2 + j) 4096 ≡ (2 + j) * 4096))
rw_block_sized-once_example =
    rw_block_sized-once 1234 99 2 5 4096 5 (omega arith) (omega arith) (omega arith) (omega arith)
      (omega arith)
