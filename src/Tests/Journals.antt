-- ===== src/Tests/Journals.antt =====
-- source/toolkits/Journal.h, Journal.cpp and JournalStore.cpp at concrete inputs.
use elbencho.Prelude.{
  length, ◌≤◌, ℕ, ◌+◌, ◌<◌, ◌≡◌, refl, sym, subst, arith, true, List, [], ◌∷◌, none, some, inl, inr,
  get_or, add64, sub64, mul64,
}
use elbencho.Journal.{
  Journal, cell_byte, cell_shift, cell_mask, load_cell, load_block_gen, block_index_to_stripe,
  stripes_of, mark_block_busy, clear_cell, next_gen, offset_to_block_index, blocks_of,
}
use elbencho.Journal.Regions.{IsIn, stripes_of-Covers}
use elbencho.Journal.BlockIo.{
  Intent, Action, load_gens, decide_read, claim_blocks, commit_blocks, sync_range, any_uninit,
  Begun, exclusive, begin, begin_read, begin_decided, claim_for_write,
}
use elbencho.Journal.BlockIo.Ranges.{Mapped, IsApart}
use elbencho.Journal.BlockIo.Begins.{IsBegun, begin-IsBegun}
use elbencho.Journal.Flight.{BlockIo, System, put, IsFree, IsRange, claim, Reach, start, later}
use elbencho.Journal.Flight.Consistent.{IsConsistent, put-cases}
use elbencho.Journal.Flight.Safety.{Reach-IsConsistent, Reach-Committed}

-- Eight blocks of 4 bytes, never written.
abbrev pub journal : Journal
journal = record {
  map_base = 0 ∷ 0 ∷ [];
  map_length = 2;
  journal_block_size = 4;
  target_offset = 0;
  target_size = 32;
  num_journal_blocks = 8;
  journal_seed = 7;
  journal_sync_enabled = true;
  lock_region_shift = 1;
  stripe_salt = 7;
}

journal-Mapped : Mapped 8 (0 ∷ 0 ∷ [])
journal-Mapped = record { are = (omega arith, (omega arith, tt)); inside = λ i lt. omega arith }

pub low_stripes : stripes_of journal 0 2 ≡ 21380 ∷ []
unfolding stripes_of block_index_to_stripe add64 sub64 mul64
low_stripes = refl

high_stripes : stripes_of journal 4 1 ≡ 5909 ∷ []
unfolding stripes_of block_index_to_stripe add64 sub64 mul64
high_stripes = refl

-- A write of the blocks 0 and 1 on the new journal.
abbrev first_bytes : List ℕ
first_bytes = (claim_blocks (0 ∷ 0 ∷ []) 0 2).bytes

abbrev first_write : BlockIo
first_write = record {
  base_block_idx = 0;
  num_blocks = 2;
  is_write = true;
  gens = (claim_blocks (0 ∷ 0 ∷ []) 0 2).gens;
}

abbrev one_write : System
one_write = record { bytes = first_bytes; slots = put (λ _. none) 0 (some first_write) }

low_range : IsRange journal 0 2
low_range = record { some_block = omega arith; in_region = omega arith; in_journal = omega arith }

high_range : IsRange journal 4 1
high_range = record { some_block = omega arith; in_region = omega arith; in_journal = omega arith }

one_write-Reach : Reach journal one_write
one_write-Reach = later start (claim 0 0 2 refl low_range (λ i io q. cc))

-- While it is in flight the locks of block 4 are free.
high-IsFree : IsFree journal (put (λ _. none) 0 (some first_write)) true 4 1
high-IsFree i io q one s h k = elim (put-cases (λ _. none) 0 i (some first_write) io q) [
  | inl (e, same) ↦
      let io_first : first_write ≡ io = cc in
      let h' = subst (IsIn s) high_stripes h in
      let k' =
        subst (IsIn s) low_stripes (
          subst (λ x. IsIn s (stripes_of journal x.base_block_idx x.num_blocks)) (sym io_first)
            k) in
      apart h' k'
  | inr (ne, other) ↦ cc
]
  where
    apart : IsIn s (5909 ∷ []) → IsIn s (21380 ∷ []) → ⊥
    apart (inl a) (inl b) = absurd (omega arith)
    apart (inr a) b = absurd (omega arith)
    apart (inl a) (inr b) = absurd (omega arith)

abbrev second_write : BlockIo
second_write = record {
  base_block_idx = 4;
  num_blocks = 1;
  is_write = true;
  gens = (claim_blocks first_bytes 4 1).gens;
}

-- Both writes in flight.
abbrev two_writes : System
two_writes = record {
  bytes = (claim_blocks first_bytes 4 1).bytes;
  slots = put (put (λ _. none) 0 (some first_write)) 1 (some second_write);
}

two_writes-Reach : Reach journal two_writes
two_writes-Reach = later one_write-Reach (claim 1 4 1 refl high_range high-IsFree)

Reach-IsConsistent_example : IsConsistent journal two_writes
Reach-IsConsistent_example =
    Reach-IsConsistent journal (omega arith) journal-Mapped two_writes-Reach

Reach-Committed_example :
    ((k : ℕ)
      → k < 1
      → load_block_gen (commit_blocks two_writes.bytes 4 second_write.gens) (4 + k)
        ≡ get_or second_write.gens k 0)
    × ((k : ℕ)
        → IsApart 4 1 k
        → load_block_gen (commit_blocks two_writes.bytes 4 second_write.gens) k
          ≡ load_block_gen two_writes.bytes k)
Reach-Committed_example =
    Reach-Committed journal two_writes 1 second_write (omega arith) journal-Mapped two_writes-Reach
      refl refl

stripes_of-Covers_example :
    (length (stripes_of journal 0 2) ≤ 2)
    × IsIn (block_index_to_stripe journal 1) (stripes_of journal 0 2)
stripes_of-Covers_example =
    stripes_of-Covers journal 0 2 1 (omega arith) (omega arith) (omega arith)
      (omega arith, omega arith)

-- The blocks 0 to 3 of a journal whose block 1 was written twice.
abbrev written_bytes : List ℕ
written_bytes = 8 ∷ 0 ∷ []

mixed_read : decide_read Intent.intent_read_or_init (load_gens written_bytes 0 4) ≡ none
unfolding decide_read load_gens load_block_gen load_cell cell_mask cell_byte cell_shift any_uninit
mixed_read = refl

-- The read that has to initialize blocks gets both guards, one after the other.
abbrev initializing : Begun
initializing = begin journal 0 16 Intent.intent_read_or_init true true written_bytes written_bytes

initializing_run : initializing ≡ record {
  action = Action.action_write;
  gens = 1 ∷ 3 ∷ 1 ∷ 1 ∷ [];
  written = some (0 ∷ 0 ∷ []);
  is_synced = true;
  guard = exclusive;
}
unfolding begin begin_read begin_decided claim_for_write claim_blocks decide_read load_gens
    load_block_gen load_cell cell_mask cell_byte cell_shift any_uninit mark_block_busy clear_cell
    next_gen offset_to_block_index blocks_of add64 sub64
initializing_run = refl

written_bytes-Mapped : Mapped 8 written_bytes
written_bytes-Mapped = record {
  are = (omega arith, (omega arith, tt));
  inside = λ i lt. omega arith;
}

four_blocks : offset_to_block_index journal 0 + blocks_of 16 4 ≤ 8
unfolding offset_to_block_index blocks_of add64 sub64
four_blocks = omega arith

begin-IsBegun_example :
    IsBegun Intent.intent_read_or_init true true written_bytes written_bytes
      (offset_to_block_index journal 0)
      (blocks_of 16 4)
      initializing
begin-IsBegun_example =
    begin-IsBegun 8 journal 0 16 Intent.intent_read_or_init true true written_bytes written_bytes
      written_bytes-Mapped four_blocks

one_page : sync_range 4096 journal 0 2 ≡ some (0, 1)
unfolding sync_range
one_page = refl
