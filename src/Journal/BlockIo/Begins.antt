-- ===== src/Journal/BlockIo/Begins.antt =====
-- What `JournalBlockIO::begin` of source/toolkits/Journal.cpp makes of an I/O: which action it takes,
-- which locks it keeps and what it does to the cells.
use elbencho.Prelude.{
  ℕ, ◌+◌, ◌≤◌, ◌<◌, ◌≡◌, ◌≢◌, refl, sym, subst, Bool, true, false, List, [], inl, inr, ◌⊎◌, Option,
  none, some,
}
use elbencho.Journal.{Journal, blocks_of, load_block_gen, offset_to_block_index}
use elbencho.Journal.BlockIo.{
  Intent, Action, Claim, released, shared, exclusive, Begun, load_gens, claim_blocks, deferred,
  claim_for_write, guard_of, begin_decided, begin_read, begin,
}
use elbencho.Journal.BlockIo.Ranges.{Covers, Mapped, Claimed, claim_blocks-Claimed}
use elbencho.Journal.BlockIo.Decisions.{decide_read_lem}

-- The range as the shared guard finds it.
module _ (bytes : List ℕ) (base n : ℕ) where
  abbrev pub IsInitialized : Type 0
  IsInitialized = (k : ℕ) → Covers base n k → 0 < load_block_gen bytes k

  abbrev pub HasInitialized : Type 0
  HasInitialized = (k : ℕ) × Covers base n k × (0 < load_block_gen bytes k)

  abbrev pub HasUninitialized : Type 0
  HasUninitialized = (k : ℕ) × Covers base n k × (load_block_gen bytes k ≡ 0)

  -- An I/O has to write: as it was meant to, or because a block has to be initialized.
  abbrev pub HasToWrite : Intent → Bool → Type 0
  HasToWrite intent got_shared =
      (intent ≡ Intent.intent_write)
      ⊎ ((intent ≡ Intent.intent_read_or_init) × (got_shared ≡ true) × HasUninitialized)

module _ (intent : Intent) (got_shared got_exclusive : Bool) (bytes later_bytes : List ℕ)
    (base n : ℕ) where
  -- It stays a read.
  pub record IsRead (b : Begun) : Type 0 where
    pub action : b.action ≡ Action.action_read
    pub guard : (b.guard ≡ shared) × (got_shared ≡ true)
    pub unwritten : b.written ≡ none
    pub gens : b.gens ≡ load_gens bytes base n
    pub reads : intent ≢ Intent.intent_write
    pub why :
        IsInitialized bytes base n
        ⊎ ((intent ≡ Intent.intent_read_skip_uninit)
            × HasUninitialized bytes base n
            × HasInitialized bytes base n)

  -- It is skipped.
  pub record IsSkipped (b : Begun) : Type 0 where
    pub action : b.action ≡ Action.action_skip
    pub guard : (b.guard ≡ released) × (got_shared ≡ true)
    pub unwritten : b.written ≡ none
    pub reads : intent ≡ Intent.intent_read_skip_uninit
    pub why : (k : ℕ) → Covers base n k → load_block_gen bytes k ≡ 0

  -- It claims its blocks.
  pub record IsClaimed (b : Begun) : Type 0 where
    pub action : b.action ≡ Action.action_write
    pub guard : (b.guard ≡ exclusive) × (got_exclusive ≡ true)
    pub why : HasToWrite bytes base n intent got_shared
    pub claim : Claim
    pub claimed : Claimed later_bytes base n claim
    pub written : b.written ≡ some claim.bytes
    pub gens : b.gens ≡ claim.gens
    pub synced : b.is_synced ≡ claim.any_was_verifiable

  -- It has to wait for the locks.
  pub record IsDeferred (b : Begun) : Type 0 where
    pub action : b.action ≡ Action.action_defer
    pub guard : b.guard ≡ released
    pub unwritten : b.written ≡ none
    pub why :
        ((intent ≢ Intent.intent_write) × (got_shared ≡ false))
        ⊎ (HasToWrite bytes base n intent got_shared × (got_exclusive ≡ false))

  abbrev pub IsBegun : Begun → Type 0
  IsBegun b = IsRead b ⊎ IsSkipped b ⊎ IsClaimed b ⊎ IsDeferred b

claim_for_write-IsBegun :
    (count : ℕ) (intent : Intent) (got_shared got_exclusive : Bool)
    (gens bytes later_bytes : List ℕ) (base n : ℕ)
    → Mapped count later_bytes
    → base + n ≤ count
    → HasToWrite bytes base n intent got_shared
    → IsBegun intent got_shared got_exclusive bytes later_bytes base n
        (claim_for_write got_exclusive gens later_bytes base n)
unfolding claim_for_write deferred
claim_for_write-IsBegun count intent got true gens bytes later base n m inside why = inr (
    inr (
      inl (record {
        action = refl;
        guard = (refl, refl);
        why = why;
        claim = claim_blocks later base n;
        claimed = (claim_blocks-Claimed count n base later m inside).0;
        written = refl;
        gens = refl;
        synced = refl;
      })))
claim_for_write-IsBegun count intent got false gens bytes later base n m inside why =
    inr
      (inr (inr (record { action = refl; guard = refl; unwritten = refl; why = inr (why, refl) })))

module _ (count : ℕ) (intent : Intent) (got_exclusive : Bool) (bytes later_bytes : List ℕ)
    (base n : ℕ) (m : Mapped count later_bytes) (inside : base + n ≤ count)
    (reads : intent ≢ Intent.intent_write) where
  abbrev IsBegunAs : Option Action → Type 0
  IsBegunAs decision =
      IsBegun intent true got_exclusive bytes later_bytes base n
        (begin_decided decision got_exclusive (load_gens bytes base n) later_bytes base n)

  stays_read :
      IsInitialized bytes base n
        ⊎ ((intent ≡ Intent.intent_read_skip_uninit)
            × HasUninitialized bytes base n
            × HasInitialized bytes base n)
      → IsBegunAs (some Action.action_read)
  unfolding begin_decided guard_of
  stays_read why = inl (record {
    action = refl;
    guard = (refl, refl);
    unwritten = refl;
    gens = refl;
    reads = reads;
    why = why;
  })

  is_skipped :
      intent ≡ Intent.intent_read_skip_uninit
      → ((k : ℕ) → Covers base n k → load_block_gen bytes k ≡ 0)
      → IsBegunAs (some Action.action_skip)
  unfolding begin_decided guard_of
  is_skipped skips all = inr (
      inl (record {
        action = refl;
        guard = (refl, refl);
        unwritten = refl;
        reads = skips;
        why = all;
      }))

  to_write : intent ≡ Intent.intent_read_or_init → HasUninitialized bytes base n → IsBegunAs none
  unfolding begin_decided
  to_write e some_block =
      claim_for_write-IsBegun count intent true got_exclusive (load_gens bytes base n) bytes
        later_bytes base n m inside (inr (e, refl, some_block))

  begin_read-IsBegun :
      (got_shared : Bool)
      → (intent ≢ Intent.intent_read_skip_uninit → intent ≡ Intent.intent_read_or_init)
      → IsBegun intent got_shared got_exclusive bytes later_bytes base n
          (begin_read intent got_shared got_exclusive bytes later_bytes base n)
  unfolding begin_read deferred
  begin_read-IsBegun false or_init = inr (
      inr (inr (record { action = refl; guard = refl; unwritten = refl; why = inl (reads, refl) })))
  begin_read-IsBegun true or_init = elim (decide_read_lem bytes intent base n) [
    | inl (e, all) ↦ subst IsBegunAs (sym e) (stays_read (inl all))
    | inr (inl (e, skips, all)) ↦ subst IsBegunAs (sym e) (is_skipped skips all)
    | inr (inr (inl (e, skips, missing, found))) ↦
        subst IsBegunAs (sym e) (stays_read (inr (skips, missing, found)))
    | inr (inr (inr (e, ne, missing))) ↦ subst IsBegunAs (sym e) (to_write (or_init ne) missing)
  ]

-- What `begin` makes of an I/O whose blocks lie in the journal, in all cases. It stays a read, with the
-- shared locks and the generations of its blocks, where all of them are initialized, or of a read
-- phase's reads where some are; a read phase's read of no initialized block is skipped, with no lock
-- kept. A write, and any other read with an uninitialized block, claims its blocks and keeps the
-- exclusive locks: their cells are cleared, the other cells are kept, the generations are the next
-- ones of those before, and unless the cells were synced, none of the blocks had a generation.
-- Otherwise a lock was not available: then the I/O is deferred with no lock kept. Only a claim writes
-- to the cells.
pub begin-IsBegun :
    (count : ℕ) (j : Journal) (absolute_offset io_len : ℕ) (intent : Intent)
    (got_shared got_exclusive : Bool) (bytes later_bytes : List ℕ)
    → Mapped count later_bytes
    → offset_to_block_index j absolute_offset + blocks_of io_len j.journal_block_size ≤ count
    → IsBegun intent got_shared got_exclusive bytes later_bytes
        (offset_to_block_index j absolute_offset)
        (blocks_of io_len j.journal_block_size)
        (begin j absolute_offset io_len intent got_shared got_exclusive bytes later_bytes)
unfolding begin
begin-IsBegun count j off len Intent.intent_write got_shared got bytes later m inside =
    claim_for_write-IsBegun count Intent.intent_write got_shared got [] bytes later _ _ m inside
      (inl refl)
begin-IsBegun count j off len Intent.intent_read_skip_uninit got_shared got bytes later m inside =
    begin_read-IsBegun count Intent.intent_read_skip_uninit got bytes later _ _ m inside (λ e. cc)
      got_shared (λ ne. absurd (ne refl))
begin-IsBegun count j off len Intent.intent_read_or_init got_shared got bytes later m inside =
    begin_read-IsBegun count Intent.intent_read_or_init got bytes later _ _ m inside (λ e. cc)
      got_shared (λ ne. refl)
