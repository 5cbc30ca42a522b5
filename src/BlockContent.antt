-- ===== src/BlockContent.antt =====
-- What a worker writes into its I/O buffer and expects to find there after a read: the buffer
-- functions of source/workers/LocalWorker.cpp. A `uint64_t` stands in memory with its lowest byte
-- first. The offsets of a file are not negative, and a buffer is the list of its bytes.
pub mod Offsets
pub mod Storage
pub mod Blocks
pub mod Journaled
pub mod Misplaced
use elbencho.Prelude.{
  ℕ, zero, suc, ◌+◌, ◌-◌, ◌*◌, ◌/◌, ◌%◌, ◌^◌, Bool, true, false, List, [], ◌∷◌, ◌++◌, ltb, ◌==◌,
  if◌then◌else◌, min, length, get_or, tabulate, add64, mul64, Option, none, some, Result, ok,
  throws, Error,
}
use elbencho.Journal.{compute_expected_tile_value}

-- Byte `i` of a word in memory.
unfoldable pub byte_of : ℕ → ℕ → ℕ
byte_of word i = word / 2 ^ (8 * i) % 256

-- The loop of `preWriteIntegrityCheckFillBuf`; a pass fills at least a byte, so a pass for each byte
-- is enough.
unfoldable pub fill_checksums : ℕ → ℕ → ℕ → ℕ → List ℕ
fill_checksums zero salt current_offset num_bytes_left = []
fill_checksums (suc fuel) salt current_offset num_bytes_left =
    let start_offset = current_offset - current_offset % 8 in
    let check_sum = add64 start_offset salt in
    let start_idx = current_offset - start_offset in
    let copy_len = min num_bytes_left (8 - start_idx) in
    let rest = fill_checksums fuel salt (current_offset + copy_len) (num_bytes_left - copy_len) in
    if num_bytes_left == 0 then [] else tabulate (byte_of check_sum) start_idx copy_len ++ rest

-- The bytes that `preWriteIntegrityCheckFillBuf` puts into the buffer.
unfoldable pub pre_write_integrity_check_fill_buf : ℕ → ℕ → ℕ → List ℕ
pre_write_integrity_check_fill_buf salt buf_len file_offset =
    fill_checksums buf_len salt file_offset buf_len

-- What the message of a failed verification says.
pub record Mismatch : Type 0 where
  pub offset : ℕ
  pub expected_val : ℕ
  pub actual_val : ℕ

-- The loop that finds the first byte that differs, from the file offset of the first bytes on.
unfoldable pub find_mismatch : ℕ → List ℕ → List ℕ → Option Mismatch
find_mismatch offset [] actual = none
find_mismatch offset (e ∷ expected) [] = none
find_mismatch offset (e ∷ expected) (a ∷ actual) =
    let rest = find_mismatch (offset + 1) expected actual in
    if e == a then rest else some (record { offset = offset; expected_val = e; actual_val = a })

-- `memcmp` of two buffers of one length.
unfoldable pub same_bytes : List ℕ → List ℕ → Bool
same_bytes [] ys = true
same_bytes (x ∷ xs) [] = true
same_bytes (x ∷ xs) (y ∷ ys) = let rest = same_bytes xs ys in if x == y then rest else false

-- How `postReadIntegrityCheckVerifyBuf` ends, where the memory for its second buffer is there: with
-- the mismatch that its exception reports, if there is one.
unfoldable pub post_read_integrity_check_verify_buf : ℕ → List ℕ → ℕ → Option Mismatch
post_read_integrity_check_verify_buf salt host_io_buf file_offset =
    let verify_buf = pre_write_integrity_check_fill_buf salt (length host_io_buf) file_offset in
    if length host_io_buf == 0
    then none
    else if same_bytes host_io_buf verify_buf
    then none
    else find_mismatch file_offset verify_buf host_io_buf

-- `journalFillTileBlock`
unfoldable pub journal_fill_tile_block : ℕ → ℕ → ℕ → ℕ → List ℕ
journal_fill_tile_block len block_aligned_offset journal_seed generation =
    let tile_value = compute_expected_tile_value block_aligned_offset journal_seed generation in
    tabulate (λ i. byte_of tile_value (i % 8)) 0 len

-- The loop of `preWriteJournalFillBuf`, of an I/O that writes. The source goes on while there are bytes
-- left; `begin` has given the I/O a generation for each block of its buffer, so the loop over these
-- generations makes the same rounds. Each fills `journal_block_size` bytes or what is left.
unfoldable pub pre_write_journal_fill_buf : ℕ → ℕ → List ℕ → ℕ → ℕ → List ℕ
pre_write_journal_fill_buf journal_block_size journal_seed [] bytes_left file_offset = []
pre_write_journal_fill_buf journal_block_size journal_seed (g ∷ gens) bytes_left file_offset =
    let copy_len = min bytes_left journal_block_size in
    journal_fill_tile_block copy_len file_offset journal_seed g
    ++ pre_write_journal_fill_buf journal_block_size journal_seed gens (bytes_left - copy_len)
        (file_offset + copy_len)

-- The first `n` bytes of a buffer, and the others.
unfoldable pub bytes_from : ℕ → List ℕ → List ℕ
bytes_from zero buf = buf
bytes_from (suc n) [] = []
bytes_from (suc n) (b ∷ buf) = bytes_from n buf

unfoldable pub first_bytes : ℕ → List ℕ → List ℕ
first_bytes zero buf = []
first_bytes (suc n) [] = []
first_bytes (suc n) (b ∷ buf) = b ∷ first_bytes n buf

-- The loop of `postReadJournalVerifyBuf`, of an I/O that reads, in the same way.
unfoldable pub post_read_journal_verify_buf : ℕ → ℕ → List ℕ → List ℕ → ℕ → Option Mismatch
post_read_journal_verify_buf journal_block_size journal_seed [] buf file_offset = none
post_read_journal_verify_buf journal_block_size journal_seed (g ∷ gens) buf file_offset =
    let copy_len = min (length buf) journal_block_size in
    let rest =
      post_read_journal_verify_buf journal_block_size journal_seed gens (bytes_from copy_len buf)
        (file_offset + copy_len) in
    let verify_buf = journal_fill_tile_block copy_len file_offset journal_seed g in
    if g == 0
    then rest
    else if same_bytes (first_bytes copy_len buf) verify_buf
    then rest
    else find_mismatch file_offset verify_buf (first_bytes copy_len buf)

-- The loop of `bufFill` over whole words, and the bytes of the remainder.
unfoldable pub fill_words : ℕ → ℕ → List ℕ
fill_words fill_value zero = []
fill_words fill_value (suc n) = tabulate (byte_of fill_value) 0 8 ++ fill_words fill_value n

unfoldable pub buf_fill : ℕ → ℕ → List ℕ
buf_fill fill_value buf_len =
    fill_words fill_value (buf_len / 8)
    ++ tabulate (byte_of fill_value) 0 (buf_len - buf_len / 8 * 8)

-- `preWriteBufRandRefill` of a write: `random n` is what the random algorithm puts into `n` bytes,
-- and its next number after that.
unfoldable pub pre_write_buf_rand_refill : (ℕ → List ℕ × ℕ) → ℕ → ℕ → List ℕ
pre_write_buf_rand_refill random block_variance_percent buf_len =
    let var_fill_len = mul64 buf_len block_variance_percent / 100 in
    let drawn = random var_fill_len in drawn.0 ++ buf_fill drawn.1 (buf_len - var_fill_len)
