-- ===== src/Tests/BlockContents.antt =====
-- The buffer functions of source/workers/LocalWorker.cpp at concrete inputs.
use elbencho.Prelude.{
  ℕ, ◌+◌, ◌*◌, ◌≤◌, ◌<◌, ◌≡◌, ◌≢◌, ◌⊎◌, refl, arith, List, [], ◌∷◌, ◌++◌, tabulate, none, some,
  replicate, add64,
}
use elbencho.OffsetGen.{rw_block_sized}
use elbencho.OffsetGen.Sequential
use elbencho.BlockContent.{
  byte_of, fill_checksums, pre_write_integrity_check_fill_buf, Mismatch, find_mismatch, same_bytes,
  post_read_integrity_check_verify_buf, journal_fill_tile_block, pre_write_journal_fill_buf,
  post_read_journal_verify_buf, buf_fill, fill_words,
}
use elbencho.BlockContent.Offsets.{expected_byte, IsFirst, post_read_integrity_check_verify_buf_lem}
use elbencho.BlockContent.Storage.{write_ios, IsWhole, rw_block_sized-post_read_integrity_check}
use elbencho.BlockContent.Journaled.{
  post_read_journal_verify_buf-pre_write_journal_fill_buf, post_read_journal_verify_buf-stale,
}
use elbencho.BlockContent.Misplaced.{post_read_journal_verify_buf-misplaced}
use elbencho.Tests.OffsetGens.{
  two_sizes, two_sizes-IsValid, counting, short_io, short_io-MakesProgress,
}

-- From the middle of a word to the middle of the next: the words at 8 and 16, plus the salt 1.
filled_run : pre_write_integrity_check_fill_buf 1 6 13 ≡ 0 ∷ 0 ∷ 0 ∷ 17 ∷ 0 ∷ 0 ∷ []
unfolding pre_write_integrity_check_fill_buf fill_checksums byte_of add64
filled_run = refl

verify_run :
    post_read_integrity_check_verify_buf 1 (0 ∷ 0 ∷ 0 ∷ 16 ∷ 0 ∷ 0 ∷ []) 13
    ≡ some (record { offset = 16; expected_val = 17; actual_val = 16 })
unfolding post_read_integrity_check_verify_buf pre_write_integrity_check_fill_buf fill_checksums
    byte_of same_bytes find_mismatch add64
verify_run = refl

buf_fill_run : buf_fill 513 11 ≡ 1 ∷ 2 ∷ 0 ∷ 0 ∷ 0 ∷ 0 ∷ 0 ∷ 0 ∷ 1 ∷ 2 ∷ 0 ∷ []
unfolding buf_fill fill_words byte_of
buf_fill_run = refl

-- A file of zeros, read from an offset in the middle of a word.
abbrev zeros : ℕ → ℕ
zeros k = 0

post_read_integrity_check_verify_buf_lem_example :
    ((post_read_integrity_check_verify_buf 7 (tabulate zeros 4093 10) 4093 ≡ none)
      × ((k : ℕ) → 4093 ≤ k → k < 4103 → expected_byte 7 k ≡ zeros k))
    ⊎ ((m : Mismatch) × (post_read_integrity_check_verify_buf 7 (tabulate zeros 4093 10) 4093
          ≡ some m)
        × IsFirst (expected_byte 7) zeros 4093 10 m)
post_read_integrity_check_verify_buf_lem_example =
    post_read_integrity_check_verify_buf_lem 7 4093 10 zeros

-- Blocks that are filled no further than they are written.
abbrev written : ℕ × ℕ → ℕ
written io = io.1

written-IsWhole : (ios : List (ℕ × ℕ)) → IsWhole written ios
written-IsWhole [] = tt
written-IsWhole (io ∷ ios) = (omega arith, written-IsWhole ios)

rw_block_sized-post_read_integrity_check_example :
    let ios =
      (rw_block_sized
        (Sequential.generator counting)
        short_io
        100000
        (Sequential.make counting 100000 8192 two_sizes 7)).ios in
    post_read_integrity_check_verify_buf 7 (tabulate (write_ios 7 written ios zeros) 9001 5000) 9001
    ≡ none
rw_block_sized-post_read_integrity_check_example =
    rw_block_sized-post_read_integrity_check counting short_io 7 written 100000 8192 two_sizes 7
      zeros 9001 5000 short_io-MakesProgress two_sizes-IsValid (omega arith) (omega arith)
      (written-IsWhole
        (rw_block_sized (Sequential.generator counting) short_io 100000
          (Sequential.make counting 100000 8192 two_sizes 7)).ios)
      (omega arith) (omega arith)

post_read_journal_verify_buf-pre_write_journal_fill_buf_example :
    post_read_journal_verify_buf 4096 7
      (1 ∷ 0 ∷ 3 ∷ [])
      (pre_write_journal_fill_buf 4096 7 (1 ∷ 0 ∷ 3 ∷ []) 10000 8192)
      8192
    ≡ none
post_read_journal_verify_buf-pre_write_journal_fill_buf_example =
    post_read_journal_verify_buf-pre_write_journal_fill_buf 4096 7 10000 8192 (1 ∷ 0 ∷ 3 ∷ [])

post_read_journal_verify_buf-stale_example :
    post_read_journal_verify_buf 8 7
      ((1 ∷ []) ++ (2 ∷ []))
      (replicate 8 0 ++ (journal_fill_tile_block 8 (64 + 1 * 8) 7 1 ++ []))
      64
    ≢ none
post_read_journal_verify_buf-stale_example =
    post_read_journal_verify_buf-stale 8 7 2 1 64 (1 ∷ []) [] (replicate 8 0) [] (omega arith)
      (omega arith) (omega arith) (omega arith) (omega arith) refl (omega arith)

post_read_journal_verify_buf-misplaced_example :
    post_read_journal_verify_buf 8 7
      ((1 ∷ []) ++ (2 ∷ []))
      (replicate 8 0 ++ (journal_fill_tile_block 8 64 7 2 ++ []))
      64
    ≢ none
post_read_journal_verify_buf-misplaced_example =
    post_read_journal_verify_buf-misplaced 8 7 2 64 64 (1 ∷ []) [] (replicate 8 0) [] (omega arith)
      (omega arith) (omega arith) (omega arith) refl (omega arith)
