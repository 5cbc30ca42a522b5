-- ===== src/Journal/Store.antt =====
-- source/toolkits/JournalStore.cpp: the journal that a run uses for each of its targets. The scan of
-- the journal directory is an argument, and so are the bytes of an existing journal.
pub mod Range
use elbencho.Prelude.{
  ℕ, ◌+◌, ◌-◌, Bool, true, false, not, ◌||◌, List, [], ◌∷◌, ◌++◌, ltb, ◌==◌, if◌then◌else◌, add64,
  Result, ok, throws, throw_if, ◌>>=◌, ◌>>◌, Error, Option, none, some,
}
use elbencho.Units.{Text}
use elbencho.Journal.{Journal, create_new, open_existing, init_run_options}

pub record SidecarInfo : Type 0 where
  pub target : Text
  pub journal_block_size : ℕ
  pub target_offset : ℕ
  pub target_size : ℕ
  pub journal_seed : ℕ
  pub binary_file : List ℕ

-- What `init` reads of the program's arguments.
pub record RunOptions : Type 0 where
  pub journal_block_size : ℕ
  pub file_offset : ℕ
  pub file_size : ℕ
  pub max_block_size : ℕ
  pub journal_sync : Bool

-- `sidecar.target == targetPath`
unfoldable pub same_text : Text → Text → Bool
same_text [] [] = true
same_text [] (d ∷ ds) = false
same_text (c ∷ cs) [] = false
same_text (c ∷ cs) (d ∷ ds) = if c == d then same_text cs ds else false

unfoldable pub matches_of : Text → List SidecarInfo → List SidecarInfo
matches_of target [] = []
matches_of target (s ∷ ss) =
    let rest = matches_of target ss in if same_text s.target target then s ∷ rest else rest

-- The checks of a journal that exists, and its opening.
unfoldable pub resume : RunOptions → SidecarInfo → Result Journal
resume run s = do
  throw_if (not (s.journal_block_size == run.journal_block_size)) Error.prog_exception
  throw_if
      (ltb run.file_offset s.target_offset
        || ltb (add64 s.target_offset s.target_size) (add64 run.file_offset run.file_size))
      Error.prog_exception
  open_existing s.binary_file s.journal_block_size s.target_offset s.target_size s.journal_seed

unfoldable pub journal_of : ℕ → RunOptions → List SidecarInfo → Result Journal
journal_of seed run [] = create_new seed run.journal_block_size run.file_offset run.file_size
journal_of seed run (s ∷ []) = resume run s
journal_of seed run (s ∷ t ∷ rest) = throws Error.prog_exception

-- The body of the loop of `init` over the targets.
unfoldable pub init_target : ℕ → RunOptions → List SidecarInfo → Text → Result Journal
init_target seed run sidecars target = journal_of seed run (matches_of target sidecars) >>= λ j.
    ok (init_run_options run.max_block_size run.journal_sync j)

-- `init`, with a seed for each target.
unfoldable pub init : (Text → ℕ) → RunOptions → List SidecarInfo → List Text → Result (List Journal)
init seeds run sidecars [] = ok []
init seeds run sidecars (target ∷ targets) = do
  j ← init_target (seeds target) run sidecars target
  js ← init seeds run sidecars targets
  ok (j ∷ js)

-- `getJournalForTarget` of an enabled store.
unfoldable pub get_journal_for_target : List Journal → ℕ → Option Journal
get_journal_for_target [] i = none
get_journal_for_target (j ∷ js) i = if i == 0 then some j else get_journal_for_target js (i - 1)
