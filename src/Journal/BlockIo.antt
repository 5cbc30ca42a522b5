-- ===== src/Journal/BlockIo.antt =====
-- The journal side of one I/O: `JournalBlockIO` of source/toolkits/Journal.cpp, over the mapped
-- bytes. The indices of the blocks of an I/O lie inside the target, so their sums do not wrap.
pub mod Ranges
pub mod Decisions
pub mod Begins
use elbencho.Prelude.{
  ℕ, zero, suc, ◌+◌, ◌-◌, ◌*◌, ◌/◌, Bool, true, false, not, ◌||◌, ◌&&◌, List, [], ◌∷◌, ◌==◌,
  if◌then◌else◌, min, Option, none, some,
}
use elbencho.Journal.{
  Journal, blocks_of, offset_to_block_index, next_gen, load_block_gen, mark_block_busy,
  commit_block_gen,
}

pub data Intent : Type 0 where
  intent_write intent_read_skip_uninit intent_read_or_init : Intent

pub data Action : Type 0 where
  action_read action_write action_skip action_defer : Action

-- The loop of `begin` that takes the generations of the blocks from `base` on.
unfoldable pub load_gens : List ℕ → ℕ → ℕ → List ℕ
load_gens bytes base zero = []
load_gens bytes base (suc n) = load_block_gen bytes base ∷ load_gens bytes (suc base) n

unfoldable pub any_uninit : List ℕ → Bool
any_uninit [] = false
any_uninit (g ∷ gs) = (g == 0) || any_uninit gs

unfoldable pub all_uninit : List ℕ → Bool
all_uninit [] = true
all_uninit (g ∷ gs) = (g == 0) && all_uninit gs

-- What a read does with its generations: `none` stands for giving the shared guard back, to claim
-- the range for a write.
unfoldable pub decide_read : Intent → List ℕ → Option Action
decide_read intent gens = if not (any_uninit gens) then some Action.action_read else elim intent [
  | intent_read_skip_uninit ↦
      if all_uninit gens then some Action.action_skip else some Action.action_read
  | _ ↦ none
]

-- What `claimForWrite` leaves behind once it has the exclusive guard.
pub record Claim : Type 0 where
  pub gens : List ℕ
  pub bytes : List ℕ
  pub any_was_verifiable : Bool

unfoldable pub claim_blocks : List ℕ → ℕ → ℕ → Claim
claim_blocks bytes base zero = record { gens = []; bytes = bytes; any_was_verifiable = false }
claim_blocks bytes base (suc n) =
    let old_gen = load_block_gen bytes base in
    let rest = claim_blocks (mark_block_busy bytes base) (suc base) n in
    record {
      gens = next_gen old_gen ∷ rest.gens;
      bytes = rest.bytes;
      any_was_verifiable = not (old_gen == 0) || rest.any_was_verifiable;
    }

-- What stays locked after `begin`.
pub data Guard : Type 0 where
  released shared exclusive : Guard

-- What `begin` leaves behind. `written` are the mapped bytes after a claim, where it wrote to them;
-- `is_synced` tells whether it went on to call `syncRange`.
pub record Begun : Type 0 where
  pub action : Action
  pub gens : List ℕ
  pub written : Option (List ℕ)
  pub is_synced : Bool
  pub guard : Guard

unfoldable pub deferred : List ℕ → Begun
deferred gens = record {
  action = Action.action_defer;
  gens = gens;
  written = none;
  is_synced = false;
  guard = released;
}

-- `claimForWrite`: whether `acquireRangeExclusive` gets its guard, the generations up to then and the
-- mapped bytes of that time.
unfoldable pub claim_for_write : Bool → List ℕ → List ℕ → ℕ → ℕ → Begun
claim_for_write got_exclusive gens bytes base n =
    let c = claim_blocks bytes base n in
    if got_exclusive
    then record {
      action = Action.action_write;
      gens = c.gens;
      written = some c.bytes;
      is_synced = c.any_was_verifiable;
      guard = exclusive;
    }
    else deferred gens

unfoldable pub guard_of : Action → Guard
guard_of Action.action_skip = released
guard_of _ = shared

-- The rest of a read that has the shared guard, for the range of `n` blocks from `base` on. `bytes`
-- are the mapped bytes while it holds this guard, `later_bytes` those when the claim gets the other.
unfoldable pub begin_decided : Option Action → Bool → List ℕ → List ℕ → ℕ → ℕ → Begun
begin_decided (some action) got_exclusive gens later_bytes base n = record {
  action = action;
  gens = gens;
  written = none;
  is_synced = false;
  guard = guard_of action;
}
begin_decided none got_exclusive gens later_bytes base n =
    claim_for_write got_exclusive gens later_bytes base n

unfoldable pub begin_read : Intent → Bool → Bool → List ℕ → List ℕ → ℕ → ℕ → Begun
begin_read intent got_shared got_exclusive bytes later_bytes base n =
    let gens = load_gens bytes base n in
    if got_shared
    then begin_decided (decide_read intent gens) got_exclusive gens later_bytes base n
    else deferred []

-- `begin`. Whether the guards can be had is up to the other I/Os and to `mayBlock`, with which they
-- always can. The generations of a deferred I/O are not read before it begins again.
unfoldable pub begin : Journal → ℕ → ℕ → Intent → Bool → Bool → List ℕ → List ℕ → Begun
begin j absolute_offset io_len intent got_shared got_exclusive bytes later_bytes =
    let base = offset_to_block_index j absolute_offset in
    let n = blocks_of io_len j.journal_block_size in
    elim intent [
      | intent_write ↦ claim_for_write got_exclusive [] later_bytes base n
      | intent_read_skip_uninit ↦
          begin_read Intent.intent_read_skip_uninit got_shared got_exclusive bytes later_bytes base
            n
      | intent_read_or_init ↦
          begin_read Intent.intent_read_or_init got_shared got_exclusive bytes later_bytes base n
    ]

-- The loop of `commit` for a write.
unfoldable pub commit_blocks : List ℕ → ℕ → List ℕ → List ℕ
commit_blocks bytes base [] = bytes
commit_blocks bytes base (g ∷ gs) = commit_blocks (commit_block_gen bytes base g) (suc base) gs

-- The offset in the mapping and the length of the msync of `syncRange`, where it makes one.
unfoldable pub sync_range : ℕ → Journal → ℕ → ℕ → Option (ℕ × ℕ)
sync_range page_size j first num_blocks =
    let start = first / 4 in
    let end = min ((first + num_blocks + 3) / 4) j.map_length in
    let aligned = start / page_size * page_size in
    if j.journal_sync_enabled then some (aligned, end - aligned) else none
