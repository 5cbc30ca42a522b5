-- ===== src/Tests/JournalStores.antt =====
-- source/toolkits/JournalStore.cpp at a concrete input.
use elbencho.Prelude.{◌≡◌, refl, arith, true, [], ◌∷◌, ok, add64, sub64, mul64}
use elbencho.Units.{Text}
use elbencho.Journal.{
  blocks_of, map_length_of, open_existing, region_shift, init_run_options, offset_to_block_index,
}
use elbencho.Journal.Flight.{IsRange}
use elbencho.Journal.Store.{
  SidecarInfo, RunOptions, init_target, same_text, matches_of, journal_of, resume,
}
use elbencho.Journal.Store.Range.{AreWords, init_target-IsRange}
use elbencho.Tests.Journals.{journal}

abbrev target : Text
target = b'd' ∷ b'a' ∷ []

abbrev sidecar : SidecarInfo
sidecar = record {
  target = b'd' ∷ b'a' ∷ [];
  journal_block_size = 4;
  target_offset = 0;
  target_size = 32;
  journal_seed = 7;
  binary_file = 0 ∷ 0 ∷ [];
}

abbrev other : SidecarInfo
other = record sidecar { target = b'd' ∷ b'b' ∷ [] }

-- The bytes 8 to 24 of the target, with I/Os of up to 8 bytes.
abbrev run : RunOptions
run = record {
  journal_block_size = 4;
  file_offset = 8;
  file_size = 16;
  max_block_size = 8;
  journal_sync = true;
}

resumed : init_target 5 run (other ∷ sidecar ∷ []) target ≡ ok journal
unfolding init_target journal_of matches_of same_text resume open_existing init_run_options
    region_shift blocks_of map_length_of add64 sub64 mul64
resumed = refl

init_target-IsRange_example : IsRange journal (offset_to_block_index journal 12) (blocks_of 8 4)
init_target-IsRange_example =
    init_target-IsRange 5 run (other ∷ sidecar ∷ []) target journal 3 12 8 (small, (small, tt))
      resumed (omega arith) (omega arith) (omega arith) refl (omega arith) (omega arith)
      (omega arith) (omega arith)
  where
    small : {t : Text} → AreWords run (record sidecar { target = t })
    small = record { run_end = omega arith; sidecar_end = omega arith }
