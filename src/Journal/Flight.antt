-- ===== src/Journal/Flight.antt =====
-- All I/Os of a run that are in flight on one journal: `JournalBlockIO::begin`, `commit` and `release`
-- of source/toolkits/Journal.cpp as steps of the slots of all threads, in any order.
pub mod Consistent
pub mod Safety
use elbencho.Prelude.{
  ℕ, ◌+◌, ◌≤◌, ◌<◌, ◌^◌, ◌≡◌, Bool, true, false, List, ◌==◌, if◌then◌else◌, Option, none, some, ◌⊎◌,
}
use elbencho.Journal.{Journal, stripes_of}
use elbencho.Journal.Regions.{IsIn}
use elbencho.Journal.BlockIo.{Intent, Action, load_gens, decide_read, claim_blocks, commit_blocks}

-- A `JournalBlockIO` that holds its guard.
pub record BlockIo : Type 0 where
  pub base_block_idx : ℕ
  pub num_blocks : ℕ
  pub is_write : Bool
  pub gens : List ℕ

-- The mapped bytes of the journal, and the slots of all threads.
pub record System : Type 0 where
  pub bytes : List ℕ
  pub slots : ℕ → Option BlockIo

abbrev pub put : (ℕ → Option BlockIo) → ℕ → Option BlockIo → ℕ → Option BlockIo
put slots i io k = if i == k then io else slots k

-- A guard for the range can be had: no other I/O holds one of its locks, but for readers that share.
abbrev pub IsFree : Journal → (ℕ → Option BlockIo) → Bool → ℕ → ℕ → Type 0
IsFree j slots exclusive base n =
    (i : ℕ) (io : BlockIo)
    → slots i ≡ some io
    → (exclusive ≡ true) ⊎ (io.is_write ≡ true)
    → (s : ℕ) → IsIn s (stripes_of j base n)
    → ¬ IsIn s (stripes_of j io.base_block_idx io.num_blocks)

-- A range of an I/O of this run: inside the journal, and no longer than a lock region.
pub record IsRange (j : Journal) (base n : ℕ) : Type 0 where
  pub some_block : 0 < n
  pub in_region : n ≤ 2 ^ j.lock_region_shift
  pub in_journal : base + n ≤ j.num_journal_blocks

pub data Step (j : Journal) (s : System) : System → Type 0 where
  -- `claimForWrite`, once it has the exclusive guard.
  claim :
      (i base n : ℕ)
      → s.slots i ≡ none
      → IsRange j base n
      → IsFree j s.slots true base n
      → Step j s (record {
        bytes = (claim_blocks s.bytes base n).bytes;
        slots = put s.slots i (
            some (record {
              base_block_idx = base;
              num_blocks = n;
              is_write = true;
              gens = (claim_blocks s.bytes base n).gens;
            }));
      })
  -- `begin` of a read that stays one, once it has the shared guard.
  begin_read :
      (i base n : ℕ) (intent : Intent)
      → s.slots i ≡ none
      → IsRange j base n
      → IsFree j s.slots false base n
      → decide_read intent (load_gens s.bytes base n) ≡ some Action.action_read
      → Step j s (record {
        bytes = s.bytes;
        slots = put s.slots i (
            some (record {
              base_block_idx = base;
              num_blocks = n;
              is_write = false;
              gens = load_gens s.bytes base n;
            }));
      })
  -- `commit`
  commit :
      (i : ℕ) (io : BlockIo)
      → s.slots i ≡ some io
      → Step j s (record {
        bytes = if io.is_write then commit_blocks s.bytes io.base_block_idx io.gens else s.bytes;
        slots = put s.slots i none;
      })
  -- `release`, after a failed I/O.
  release :
      (i : ℕ) (io : BlockIo)
      → s.slots i ≡ some io
      → Step j s (record { bytes = s.bytes; slots = put s.slots i none })

-- A run begins on the bytes of a new or an existing journal.
pub data Reach (j : Journal) : System → Type 0 where
  start : Reach j (record { bytes = j.map_base; slots = λ _. none })
  later : {s t : System} → Reach j s → Step j s t → Reach j t
