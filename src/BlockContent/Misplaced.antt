-- ===== src/BlockContent/Misplaced.antt =====
-- The verification of journaled blocks, where a write went to a wrong place.
use elbencho.Prelude.{ℕ, ◌+◌, ◌*◌, ◌^◌, ◌≤◌, ◌<◌, ◌≡◌, ◌≢◌, List, ◌∷◌, ◌++◌, length, none}
use elbencho.Journal.Tiles.{compute_expected_tile_value_injective}
use elbencho.BlockContent.{journal_fill_tile_block, post_read_journal_verify_buf}
use elbencho.BlockContent.Journaled.{length-journal_fill_tile_block, passed_block, tiles_agree}

-- A read finds every misplaced block: where a block of the buffer holds what the journal expects of a
-- block at another offset in the same generation, as after a write to the wrong place, the
-- verification reports a mismatch, whatever the blocks around it hold. The block has a generation,
-- and no fewer bytes than a word.
pub post_read_journal_verify_buf-misplaced :
    (bs seed g other offset : ℕ) (before after buf rest : List ℕ)
    → 8 ≤ bs
    → 0 < g
    → other < 2 ^ 64
    → other ≢ offset + length before * bs
    → length buf ≡ length before * bs
    → offset + length before * bs < 2 ^ 64
    → post_read_journal_verify_buf bs seed
        (before ++ (g ∷ after))
        (buf ++ (journal_fill_tile_block bs other seed g ++ rest))
        offset
      ≢ none
post_read_journal_verify_buf-misplaced bs seed g other offset before after buf rest word some_gen
      small differ size place passes =
    let tile = journal_fill_tile_block bs other seed g in
    let tile_len = length-journal_fill_tile_block bs other seed g in
    let e =
      passed_block bs seed g offset before after buf tile rest some_gen tile_len size passes in
    compute_expected_tile_value_injective other (offset + length before * bs) seed g small place
      differ (tiles_agree bs other (offset + length before * bs) seed g g word e)
