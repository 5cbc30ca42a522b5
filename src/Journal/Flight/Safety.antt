-- ===== src/Journal/Flight/Safety.antt =====
-- Every step of a run keeps the state consistent.
use elbencho.Prelude.{
  ℕ, ◌+◌, ◌<◌, ◌^◌, ◌≡◌, refl, sym, subst, arith, true, false, if◌then◌else◌, none, some,
  Bool-cases, inl, inr, ◌⊎◌, get_or, length,
}
use elbencho.Journal.{Journal, load_block_gen}
use elbencho.Journal.Cells.{load_block_gen-lt, next_gen_lem}
use elbencho.Journal.BlockIo.{load_gens, claim_blocks, commit_blocks}
use elbencho.Journal.BlockIo.Ranges.{
  Mapped, IsApart, Claimed, Committed, claim_blocks-Claimed, commit_blocks-Committed,
}
use elbencho.Journal.Flight.{
  BlockIo, System, put, IsFree, IsRange, Step, claim, begin_read, commit, release, Reach, start,
  later,
}
use elbencho.Journal.Flight.Consistent.{
  IsConsistent, not-Covers, length-load_gens, get_or-load_gens, All-get, free-apart,
  start-IsConsistent, leave-IsConsistent, take-IsConsistent,
}

module _ (j : Journal) (shut : j.num_journal_blocks < 2 ^ 62) where
  claim-IsConsistent :
      (s : System) (i base n : ℕ)
      → IsConsistent j s
      → IsRange j base n
      → IsFree j s.slots true base n
      → IsConsistent j (record {
        bytes = (claim_blocks s.bytes base n).bytes;
        slots = put s.slots i (
            some (record {
              base_block_idx = base;
              num_blocks = n;
              is_write = true;
              gens = (claim_blocks s.bytes base n).gens;
            }));
      })
  claim-IsConsistent s i base n c r free =
      let (cl, m) =
        claim_blocks-Claimed j.num_journal_blocks n base s.bytes c.mapped r.in_journal in
      let apart = λ (i' : ℕ) (io' : BlockIo) (q : s.slots i' ≡ some io').
        free-apart j shut s.slots true base n i' io' free r (c.accurate i' io' q).range q
          (inl refl) in
      take-IsConsistent j shut s i _ (claim_blocks s.bytes base n).bytes c m
        (record {
          range = r;
          size = cl.size;
          small = All-get (claim_blocks s.bytes base n).gens (small_gens cl);
          write_cleared = λ w. cl.cleared;
          read_gens = λ w. cc;
        })
        (λ i' io' q k cov. cl.kept k (not-Covers base n k (λ mine. apart i' io' q k mine cov)))
        (λ i' io' q one. apart i' io' q)
    where
      small_gens :
          Claimed s.bytes base n (claim_blocks s.bytes base n)
          → (k : ℕ) → k < length (claim_blocks s.bytes base n).gens
          → get_or (claim_blocks s.bytes base n).gens k 0 < 4
      small_gens cl k lt =
          let e = cl.rotated k (omega (arith, cl.size)) in
          let (a, b, _, _) =
            next_gen_lem (load_block_gen s.bytes (base + k))
              (load_block_gen-lt s.bytes (base + k) c.mapped.are) in
          omega (arith, e, b)

  read-IsConsistent :
      (s : System) (i base n : ℕ)
      → IsConsistent j s
      → IsRange j base n
      → IsFree j s.slots false base n
      → IsConsistent j (record {
        bytes = s.bytes;
        slots = put s.slots i (
            some (record {
              base_block_idx = base;
              num_blocks = n;
              is_write = false;
              gens = load_gens s.bytes base n;
            }));
      })
  read-IsConsistent s i base n c r free =
      let e = length-load_gens s.bytes base n in
      take-IsConsistent j shut s i _ s.bytes c c.mapped
        (record {
          range = r;
          size = e;
          small = All-get (load_gens s.bytes base n) (λ k lt.
              let g = get_or-load_gens s.bytes base n k (omega (arith, e)) in
              omega (arith, g, load_block_gen-lt s.bytes (base + k) c.mapped.are));
          write_cleared = λ w. cc;
          read_gens = λ w. get_or-load_gens s.bytes base n;
        })
        (λ i' io' q k cov. refl)
        (λ i' io' q one.
          free-apart j shut s.slots false base n i' io' free r (c.accurate i' io' q).range q
            (written one))
    where
      written : {P : Type 0} → (false ≡ true) ⊎ P → (false ≡ true) ⊎ P
      written h = h

  -- What `commit` of a write does, in a consistent state.
  commit-Committed :
      (s : System) (i : ℕ) (io : BlockIo)
      → IsConsistent j s
      → s.slots i ≡ some io
      → io.is_write ≡ true
      → Committed s.bytes io.base_block_idx io.gens
          (commit_blocks s.bytes io.base_block_idx io.gens)
        × Mapped j.num_journal_blocks (commit_blocks s.bytes io.base_block_idx io.gens)
  commit-Committed s i io c q w =
      let a = c.accurate i io q in
      commit_blocks-Committed j.num_journal_blocks io.gens io.base_block_idx s.bytes c.mapped
        (omega (arith, a.size, a.range.in_journal)) a.small
        (λ k cov. a.write_cleared w k (omega (arith, a.size), omega (arith, a.size)))

  commit-IsConsistent :
      (s : System) (i : ℕ) (io : BlockIo)
      → IsConsistent j s
      → s.slots i ≡ some io
      → IsConsistent j (record {
        bytes = if io.is_write then commit_blocks s.bytes io.base_block_idx io.gens else s.bytes;
        slots = put s.slots i none;
      })
  commit-IsConsistent s i io c q = elim (Bool-cases io.is_write) [
    | inl w ↦
        let (done, m) = commit-Committed s i io c q w in
        let a = c.accurate i io q in
        subst
          (λ t. IsConsistent j (record {
            bytes = if t then commit_blocks s.bytes io.base_block_idx io.gens else s.bytes;
            slots = put s.slots i none;
          }))
          (sym w)
          (leave-IsConsistent j shut s i _ c m (λ k io' ne q' b cov. done.kept b (
            not-Covers io.base_block_idx (length io.gens) b (λ mine.
              c.apart i k io io' ne q q' (inl w) b
                (omega (arith, mine), omega (arith, mine, a.size)) cov))))
    | inr r ↦
        subst
          (λ t. IsConsistent j (record {
            bytes = if t then commit_blocks s.bytes io.base_block_idx io.gens else s.bytes;
            slots = put s.slots i none;
          }))
          (sym r) (leave-IsConsistent j shut s i s.bytes c c.mapped (λ k io' ne q' b cov. refl))
  ]

  Step-IsConsistent : {s t : System} → Step j s t → IsConsistent j s → IsConsistent j t
  Step-IsConsistent {s} (claim i base n empty r free) c = claim-IsConsistent s i base n c r free
  Step-IsConsistent {s} (begin_read i base n intent empty r free d) c =
      read-IsConsistent s i base n c r free
  Step-IsConsistent {s} (commit i io q) c = commit-IsConsistent s i io c q
  Step-IsConsistent {s} (release i io q) c =
      leave-IsConsistent j shut s i s.bytes c c.mapped (λ k io' ne q' b cov. refl)

-- In every state of a run, whatever I/Os its threads begin, commit and give up and in whatever order:
-- no block is written by one I/O while another one reads or writes it, the blocks of a write in
-- flight read as uninitialized, so that a crash leaves them so, and the generations that a read in
-- flight verifies against are still those of its blocks.
pub Reach-IsConsistent :
    (j : Journal)
    → j.num_journal_blocks < 2 ^ 62
    → Mapped j.num_journal_blocks j.map_base
    → {s : System} → Reach j s
    → IsConsistent j s
Reach-IsConsistent j shut m start = start-IsConsistent j shut m
Reach-IsConsistent j shut m (later r st) =
    Step-IsConsistent j shut st (Reach-IsConsistent j shut m r)

-- In every state of a run, the commit of a write in flight gives each of its blocks the generation
-- that was chosen for it, and leaves all other blocks as they are.
pub Reach-Committed :
    (j : Journal) (s : System) (i : ℕ) (io : BlockIo)
    → j.num_journal_blocks < 2 ^ 62
    → Mapped j.num_journal_blocks j.map_base
    → Reach j s
    → s.slots i ≡ some io
    → io.is_write ≡ true
    → ((k : ℕ)
        → k < io.num_blocks
        → load_block_gen (commit_blocks s.bytes io.base_block_idx io.gens) (io.base_block_idx + k)
          ≡ get_or io.gens k 0)
      × ((k : ℕ)
          → IsApart io.base_block_idx io.num_blocks k
          → load_block_gen (commit_blocks s.bytes io.base_block_idx io.gens) k
            ≡ load_block_gen s.bytes k)
Reach-Committed j s i io shut m r q w =
    let c = Reach-IsConsistent j shut m r in
    let (done, _) = commit-Committed j shut s i io c q w in
    let e = (c.accurate i io q).size in
    (
      λ k lt. done.written k (omega (arith, e)),
      λ k a. done.kept k (subst (λ n. IsApart io.base_block_idx n k) (sym e) a),
    )
