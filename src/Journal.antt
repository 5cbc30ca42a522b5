-- ===== src/Journal.antt =====
-- source/toolkits/Journal.h and source/toolkits/Journal.cpp: the write journal of a target, two bits
-- for each block of it.
pub mod Bytes
pub mod Cells
pub mod BlockIo
pub mod Regions
pub mod Locks
pub mod Flight
pub mod Store
pub mod Tiles
use Prim.Native.Nat.{bit_and, bit_or, bit_xor}
use elbencho.Prelude.{
  ℕ, zero, suc, ◌+◌, ◌-◌, ◌*◌, ◌/◌, ◌%◌, ◌^◌, Bool, true, false, not, ◌||◌, ◌&&◌, List, [], ◌∷◌,
  ltb, leb, ◌==◌, if◌then◌else◌, min, max, get_or, set, replicate, length, add64, sub64, mul64,
  Result, ok, throws, throw_if, ◌>>=◌, ◌>>◌, Error,
}

-- The mapped bytes of the binary journal, and the values that its methods read.
pub record Journal : Type 0 where
  pub map_base : List ℕ
  pub map_length : ℕ
  pub journal_block_size : ℕ
  pub target_offset : ℕ
  pub target_size : ℕ
  pub num_journal_blocks : ℕ
  pub journal_seed : ℕ
  pub journal_sync_enabled : Bool
  pub lock_region_shift : ℕ
  pub stripe_salt : ℕ

-- `(size + journalBlockSize - 1) / journalBlockSize`, for a block size that is not 0.
unfoldable pub blocks_of : ℕ → ℕ → ℕ
blocks_of size block_size = sub64 (add64 size block_size) 1 / block_size

unfoldable pub map_length_of : ℕ → ℕ
map_length_of num_blocks = add64 (mul64 num_blocks 2) 7 / 8

-- `createNew` where the file operations succeed: the new file holds zeros. `seed` is the value of
-- the two readings of `std::random_device`.
unfoldable pub create_new : ℕ → ℕ → ℕ → ℕ → Result Journal
create_new seed block_size offset size = do
  throw_if (block_size == 0) Error.division_by_zero
  ok (record {
    map_base = replicate (map_length_of (blocks_of size block_size)) 0;
    map_length = map_length_of (blocks_of size block_size);
    journal_block_size = block_size;
    target_offset = offset;
    target_size = size;
    num_journal_blocks = blocks_of size block_size;
    journal_seed = seed;
    journal_sync_enabled = false;
    lock_region_shift = 0;
    stripe_salt = 0;
  })

-- `openExisting` on a file with the bytes `file`.
unfoldable pub open_existing : List ℕ → ℕ → ℕ → ℕ → ℕ → Result Journal
open_existing file block_size offset size seed = do
  throw_if (block_size == 0) Error.division_by_zero
  throw_if (not (length file == map_length_of (blocks_of size block_size))) Error.prog_exception
  ok (record {
    map_base = file;
    map_length = map_length_of (blocks_of size block_size);
    journal_block_size = block_size;
    target_offset = offset;
    target_size = size;
    num_journal_blocks = blocks_of size block_size;
    journal_seed = seed;
    journal_sync_enabled = false;
    lock_region_shift = 0;
    stripe_salt = 0;
  })

-- The loop of `initRunOptions` from a shift on. It ends before the shift reaches 64, so 64 rounds do.
unfoldable pub region_shift : ℕ → ℕ → ℕ → ℕ
region_shift zero max_blocks shift = shift
region_shift (suc fuel) max_blocks shift =
    let rest = region_shift fuel max_blocks (suc shift) in
    if ltb (2 ^ shift) max_blocks then rest else shift

unfoldable pub init_run_options : ℕ → Bool → Journal → Journal
init_run_options max_io_size sync_enabled j = record j {
  journal_sync_enabled = sync_enabled;
  lock_region_shift = region_shift 64 (blocks_of max_io_size j.journal_block_size) 0;
  stripe_salt = j.journal_seed;
}

unfoldable pub offset_to_block_index : Journal → ℕ → ℕ
offset_to_block_index j offset = sub64 offset j.target_offset / j.journal_block_size

-- Never 0, which means "uninitialized".
unfoldable pub next_gen : ℕ → ℕ
next_gen prev = if prev == 0 then 1 else prev % 3 + 1

-- `cellLocation`: the byte of a block, and the bit of its cell in there.
unfoldable pub cell_byte : ℕ → ℕ
cell_byte i = i / 4

unfoldable pub cell_shift : ℕ → ℕ
cell_shift i = i % 4 * 2

unfoldable pub cell_mask : ℕ → ℕ
cell_mask shift = (3 * 2 ^ shift) % 256

-- The three accesses on the byte that holds the cell.
unfoldable pub load_cell : ℕ → ℕ → ℕ
load_cell byte shift = bit_and byte (cell_mask shift) / 2 ^ shift

unfoldable pub clear_cell : ℕ → ℕ → ℕ
clear_cell byte shift = bit_and byte (255 - cell_mask shift)

unfoldable pub or_cell : ℕ → ℕ → ℕ → ℕ
or_cell byte shift gen = bit_or byte (bit_and (gen * 2 ^ shift) (cell_mask shift))

-- The methods on the mapped bytes. A block of the journal has its cell inside the mapping.
unfoldable pub load_block_gen : List ℕ → ℕ → ℕ
load_block_gen bytes i = load_cell (get_or bytes (cell_byte i) 0) (cell_shift i)

unfoldable pub mark_block_busy : List ℕ → ℕ → List ℕ
mark_block_busy bytes i =
    set bytes (cell_byte i) (clear_cell (get_or bytes (cell_byte i) 0) (cell_shift i))

unfoldable pub commit_block_gen : List ℕ → ℕ → ℕ → List ℕ
commit_block_gen bytes i gen =
    set bytes (cell_byte i) (or_cell (get_or bytes (cell_byte i) 0) (cell_shift i) gen)

abbrev pub num_stripes : ℕ
num_stripes = 65536

unfoldable pub block_index_to_stripe : Journal → ℕ → ℕ
block_index_to_stripe j i =
    mul64 (bit_xor (i / 2 ^ j.lock_region_shift) j.stripe_salt) 0x9E3779B97F4A7C15 / 2 ^ 48

-- The locks of `acquireRange`, in the order in which it takes them.
unfoldable pub stripes_of : Journal → ℕ → ℕ → List ℕ
stripes_of j first num_blocks =
    let first_stripe = block_index_to_stripe j first in
    let last_stripe = block_index_to_stripe j (sub64 (add64 first num_blocks) 1) in
    if first_stripe == last_stripe
    then first_stripe ∷ []
    else min first_stripe last_stripe ∷ max first_stripe last_stripe ∷ []

-- `x ^= x >> 33`
unfoldable pub fold33 : ℕ → ℕ
fold33 x = bit_xor x (x / 2 ^ 33)

-- The three lines of `computeExpectedTileValue` after the first.
unfoldable pub mix : ℕ → ℕ
mix x = fold33 (mul64 (fold33 (mul64 (fold33 x) 0xFF51AFD7ED558CCD)) 0xC4CEB9FE1A85EC53)

-- The 8 bytes that a block's content repeats.
unfoldable pub compute_expected_tile_value : ℕ → ℕ → ℕ → ℕ
compute_expected_tile_value block_aligned_offset journal_seed generation = mix (
    bit_xor (bit_xor block_aligned_offset (mul64 journal_seed 0x9E3779B97F4A7C15))
      (mul64 generation 0xBF58476D1CE4E5B9))
