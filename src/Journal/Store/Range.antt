-- ===== src/Journal/Store/Range.antt =====
-- The I/Os of a run against the journal of their target.
use native.Mathlib.Nat.{div-mul-le_self, le-div_iff_mul-le, mul-div_cancel, div-le_self}
use elbencho.Prelude.{
  ℕ, ◌+◌, ◌-◌, ◌*◌, ◌/◌, ◌^◌, ◌≤◌, ◌<◌, ◌≡◌, ◌∙◌, refl, sym, subst, arith, Bool, true, false, not,
  ◌||◌, List, [], ◌∷◌, ltb, ltb→le, ◌==◌, Bool-cases, inl, inr, add64, add64-eq, sub64, sub64-eq,
  ok, throw_if, >>=-eq-ok, throw_if-false, ok-injective, Error, length, length-replicate, All,
}
use elbencho.Units.{Text}
use elbencho.Journal.{
  Journal, blocks_of, create_new, open_existing, region_shift, init_run_options,
  offset_to_block_index, map_length_of,
}
use elbencho.Journal.Regions.{region_shift_lem}
use elbencho.Journal.Flight.{IsRange}
use elbencho.Journal.Store.{
  SidecarInfo, RunOptions, same_text, matches_of, resume, journal_of, init_target,
}

-- A journal that a run can use: it has the run's block size and covers the run's range.
pub record Fits (run : RunOptions) (j : Journal) : Type 0 where
  pub block_size : j.journal_block_size ≡ run.journal_block_size
  pub positive : 0 < j.journal_block_size
  pub starts : j.target_offset ≤ run.file_offset
  pub ends : run.file_offset + run.file_size ≤ j.target_offset + j.target_size
  pub blocks : j.num_journal_blocks ≡ blocks_of j.target_size j.journal_block_size
  pub mapped : length j.map_base ≡ map_length_of j.num_journal_blocks

-- The ranges of the run and of the sidecars end below 2^62.
pub record AreWords (run : RunOptions) (s : SidecarInfo) : Type 0 where
  pub run_end : run.file_offset + run.file_size < 2 ^ 62
  pub sidecar_end : s.target_offset + s.target_size < 2 ^ 62

or-false : (a b : Bool) → (a || b) ≡ false → (a ≡ false) × (b ≡ false)
or-false true b h = cc
or-false false b h = (refl, h)

not-false : (a b : ℕ) → not (a == b) ≡ false → a ≡ b
not-false a b h = ground arith

positive_of : (n : ℕ) → (n == 0) ≡ false → 0 < n
positive_of n h = ground arith

resume-Fits :
    (run : RunOptions) (s : SidecarInfo) (j : Journal)
    → AreWords run s
    → resume run s ≡ ok j
    → Fits run j
unfolding resume open_existing
resume-Fits run s j w h =
    let (_, a, h1) =
      >>=-eq-ok
        (throw_if (not (s.journal_block_size == run.journal_block_size)) Error.prog_exception) _
        h in
    let (_, b, h2) =
      >>=-eq-ok
        (throw_if
          (ltb run.file_offset s.target_offset
            || ltb (add64 s.target_offset s.target_size) (add64 run.file_offset run.file_size))
          Error.prog_exception)
        _ h1 in
    let (_, c, h3) = >>=-eq-ok (throw_if (s.journal_block_size == 0) Error.division_by_zero) _ h2 in
    let (_, d, h4) =
      >>=-eq-ok
        (throw_if
          (not
            (length s.binary_file == map_length_of (blocks_of s.target_size s.journal_block_size)))
          Error.prog_exception)
        _ h3 in
    let e1 = add64-eq s.target_offset s.target_size (omega (arith, w.sidecar_end)) in
    let e2 = add64-eq run.file_offset run.file_size (omega (arith, w.run_end)) in
    let (early, late) = or-false _ _ (throw_if-false _ _ b) in
    subst (Fits run) (ok-injective h4) (record {
      block_size = not-false _ _ (throw_if-false _ _ a);
      positive = let z = throw_if-false _ _ c in positive_of s.journal_block_size z;
      starts = ltb→le _ _ early;
      ends = let le = ltb→le _ _ late in omega (arith, e1, e2, le);
      blocks = refl;
      mapped = not-false _ _ (throw_if-false _ _ d);
    })

create-Fits :
    (seed : ℕ) (run : RunOptions) (j : Journal)
    → create_new seed run.journal_block_size run.file_offset run.file_size ≡ ok j
    → Fits run j
unfolding create_new
create-Fits seed run j h =
    let (_, c, h1) =
      >>=-eq-ok (throw_if (run.journal_block_size == 0) Error.division_by_zero) _ h in
    subst (Fits run) (ok-injective h1) (record {
      block_size = refl;
      positive = positive_of run.journal_block_size (throw_if-false _ _ c);
      starts = omega arith;
      ends = omega arith;
      blocks = refl;
      mapped = length-replicate (map_length_of (blocks_of run.file_size run.journal_block_size)) 0;
    })

journal_of-Fits :
    (seed : ℕ) (run : RunOptions) (ss : List SidecarInfo) (j : Journal)
    → All (AreWords run) ss
    → journal_of seed run ss ≡ ok j
    → Fits run j
unfolding journal_of
journal_of-Fits seed run [] j w h = create-Fits seed run j h
journal_of-Fits seed run (s ∷ []) j w h = resume-Fits run s j w.0 h
journal_of-Fits seed run (s ∷ t ∷ ss) j w h = cc

matches_of-All :
    (run : RunOptions) (target : Text) (ss : List SidecarInfo)
    → All (AreWords run) ss
    → All (AreWords run) (matches_of target ss)
unfolding matches_of
matches_of-All run target [] w = tt
matches_of-All run target (s ∷ ss) w = elim (Bool-cases (same_text s.target target)) [
  | inl e ↦ rw e (w.0, matches_of-All run target ss w.1)
  | inr e ↦ rw e (matches_of-All run target ss w.1)
]

-- The journal that a run gets for a target, with the lock regions of the run.
record IsReady (run : RunOptions) (j : Journal) : Type 0 where
  fits : Fits run j
  region :
      j.lock_region_shift ≡ region_shift 64 (blocks_of run.max_block_size j.journal_block_size) 0

init_target-IsReady :
    (seed : ℕ) (run : RunOptions) (ss : List SidecarInfo) (target : Text) (j : Journal)
    → All (AreWords run) ss
    → init_target seed run ss target ≡ ok j
    → IsReady run j
unfolding init_target init_run_options
init_target-IsReady seed run ss target j w h =
    let (j0, a, b) = >>=-eq-ok (journal_of seed run (matches_of target ss)) _ h in
    let f = journal_of-Fits seed run (matches_of target ss) j0 (matches_of-All run target ss w) a in
    subst (IsReady run) (ok-injective b) (record {
      fits = record {
        block_size = f.block_size;
        positive = f.positive;
        starts = f.starts;
        ends = f.ends;
        blocks = f.blocks;
        mapped = f.mapped;
      };
      region = refl;
    })

-- `ceil(len / bs)` for words.
blocks_of-eq : (len bs : ℕ) → 0 < bs → len + bs < 2 ^ 64 → blocks_of len bs ≡ (len + bs - 1) / bs
unfolding blocks_of
blocks_of-eq len bs p h =
    let a : add64 len bs ≡ len + bs = add64-eq len bs h in
    let b : sub64 (len + bs) 1 ≡ len + bs - 1 = sub64-eq (len + bs) 1 (omega arith) h in
    rw (a, b) refl

-- The blocks of an aligned range within a size.
blocks_within :
    (bs q len size : ℕ)
    → 0 < bs
    → q * bs + len ≤ size
    → q + (len + bs - 1) / bs ≤ (size + bs - 1) / bs
blocks_within bs q len size p h =
    let n = (len + bs - 1) / bs in
    let a : n * bs ≤ len + bs - 1 = div-mul-le_self (len + bs - 1) bs in
    (le-div_iff_mul-le p).1 (omega (arith, a))

-- Where the store gives a run a journal for a target, new or resumed, an I/O of the run gets a range
-- of at least one block that lies in the journal and is no longer than a lock region. The I/O lies
-- in the run's range, has between one byte and the largest block of the run, and begins at a
-- multiple of the journal's block size from the start of the journal; all sizes are below 2^62.
pub init_target-IsRange :
    (seed : ℕ) (run : RunOptions) (ss : List SidecarInfo) (target : Text) (j : Journal)
    (q offset len : ℕ)
    → All (AreWords run) ss
    → init_target seed run ss target ≡ ok j
    → run.journal_block_size < 2 ^ 62
    → run.max_block_size < 2 ^ 62
    → j.target_offset + j.target_size < 2 ^ 62
    → offset ≡ j.target_offset + q * j.journal_block_size
    → run.file_offset ≤ offset
    → offset + len ≤ run.file_offset + run.file_size
    → 0 < len
    → len ≤ run.max_block_size
    → IsRange j (offset_to_block_index j offset) (blocks_of len j.journal_block_size)
unfolding offset_to_block_index
init_target-IsRange seed run ss target j q offset len w h bs_word max_word end_word e from to p
      most =
    let ready = init_target-IsReady seed run ss target j w h in
    let f = ready.fits in
    let bs = j.journal_block_size in
    let pos = f.positive in
    let small : bs < 2 ^ 62 = omega (arith, f.block_size, bs_word) in
    let sub : sub64 offset j.target_offset ≡ q * bs =
      sub64-eq offset j.target_offset (omega arith) (omega (arith, f.ends)) ∙ omega (arith, e) in
    let index : q * bs / bs ≡ q = mul-div_cancel q pos in
    let n = blocks_of-eq len bs pos (omega (arith, max_word, small)) in
    let total = blocks_of-eq j.target_size bs pos (omega (arith, small)) in
    let largest = blocks_of-eq run.max_block_size bs pos (omega (arith, max_word, small)) in
    let inside = blocks_within bs q len j.target_size pos (omega (arith, f.ends, e)) in
    let one : 1 ≤ (len + bs - 1) / bs = (le-div_iff_mul-le pos).1 (omega arith) in
    let at_most = blocks_within bs 0 len run.max_block_size pos (omega arith) in
    let few : (run.max_block_size + bs - 1) / bs ≤ run.max_block_size + bs - 1 =
      div-le_self (run.max_block_size + bs - 1) bs in
    let (shift, _) =
      region_shift_lem (blocks_of run.max_block_size bs)
        (omega (arith, largest, few, max_word, small)) in
    let region : blocks_of run.max_block_size bs ≤ 2 ^ j.lock_region_shift =
      subst (λ x. blocks_of run.max_block_size bs ≤ 2 ^ x) (sym ready.region) shift in
    rw (sub, index)
      (record {
        some_block = omega (arith, n, one);
        in_region = omega (arith, n, largest, at_most, region);
        in_journal = omega (arith, n, total, inside, f.blocks);
      })
