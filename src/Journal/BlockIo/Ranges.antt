-- ===== src/Journal/BlockIo/Ranges.antt =====
-- Claiming and committing a range of blocks.
use elbencho.Prelude.{
  ℕ, zero, suc, ◌+◌, ◌/◌, ◌≤◌, ◌<◌, ◌≡◌, ◌≢◌, ◌∙◌, ap, refl, sym, subst, arith, Bool, false, not,
  ◌||◌, ◌==◌, ==_iff, if◌then◌else◌, List, [], ◌∷◌, length, All, get_or, Bool-cases, inl, inr, ◌⊎◌,
}
use elbencho.Journal.{load_block_gen, mark_block_busy, commit_block_gen, next_gen}
use elbencho.Journal.Cells.{
  AreBytes, load_block_gen-mark_block_busy, load_block_gen-commit_block_gen, mark_block_busy-bytes,
  commit_block_gen-bytes, length-mark_block_busy, length-commit_block_gen,
}
use elbencho.Journal.BlockIo.{Claim, claim_blocks, commit_blocks}

-- The mapped bytes, with the cells of all blocks below `count`.
pub record Mapped (count : ℕ) (bytes : List ℕ) : Type 0 where
  pub are : AreBytes bytes
  pub inside : (i : ℕ) → i < count → i / 4 < length bytes

-- Whether block `k` is one of the `n` blocks from `base` on.
abbrev pub Covers : ℕ → ℕ → ℕ → Type 0
Covers base n k = (base ≤ k) × (k < base + n)

abbrev pub IsApart : ℕ → ℕ → ℕ → Type 0
IsApart base n k = (k < base) ⊎ (base + n ≤ k)

mark-Mapped :
    (count i : ℕ) (bytes : List ℕ) → Mapped count bytes → Mapped count (mark_block_busy bytes i)
mark-Mapped count i bytes m = record {
  are = mark_block_busy-bytes bytes i m.are;
  inside = λ k lt. subst (λ n. k / 4 < n) (sym (length-mark_block_busy bytes i)) (m.inside k lt);
}

commit-Mapped :
    (count i g : ℕ) (bytes : List ℕ)
    → g < 4
    → load_block_gen bytes i ≡ 0
    → Mapped count bytes
    → Mapped count (commit_block_gen bytes i g)
commit-Mapped count i g bytes h z m = record {
  are = commit_block_gen-bytes bytes i g m.are h z;
  inside = λ k lt. subst (λ n. k / 4 < n) (sym (length-commit_block_gen bytes i g)) (m.inside k lt);
}

at_self : (i x y : ℕ) → (if i == i then x else y) ≡ x
at_self i x y = ground arith

at_other : (i k x y : ℕ) → i ≢ k → (if i == k then x else y) ≡ y
at_other i k x y h = elim (Bool-cases (i == k)) [
  | inl e ↦ absurd (h ((==_iff i k).0 e))
  | inr e ↦ rw e refl
]

-- What a claim does.
pub record Claimed (bytes : List ℕ) (base n : ℕ) (c : Claim) : Type 0 where
  pub cleared : (k : ℕ) → Covers base n k → load_block_gen c.bytes k ≡ 0
  pub kept : (k : ℕ) → IsApart base n k → load_block_gen c.bytes k ≡ load_block_gen bytes k
  pub size : length c.gens ≡ n
  pub rotated : (i : ℕ) → i < n → get_or c.gens i 0 ≡ next_gen (load_block_gen bytes (base + i))
  pub verifiable :
      c.any_was_verifiable ≡ false → (k : ℕ) → Covers base n k → load_block_gen bytes k ≡ 0

first_or_rest : (base n k : ℕ) → Covers base (suc n) k → (base ≡ k) ⊎ Covers (suc base) n k
first_or_rest base n k (a, b) = elim (Bool-cases (base == k)) [
  | inl e ↦ inl ((==_iff base k).0 e)
  | inr e ↦ inr (ground arith, omega arith)
]

IsApart-rest : (base n k : ℕ) → IsApart base (suc n) k → IsApart (suc base) n k × (base ≢ k)
IsApart-rest base n k (inl h) = (inl (omega arith), λ e. absurd (omega arith))
IsApart-rest base n k (inr h) = (inr (omega arith), λ e. absurd (omega arith))

no_old : (g : ℕ) (b : Bool) → (not (g == 0) || b) ≡ false → (g ≡ 0) × (b ≡ false)
no_old g b h = elim (Bool-cases (g == 0)) [
  | inl e ↦ ((==_iff g 0).0 e, ground arith)
  | inr e ↦ ground arith
]

-- One block, then the others.
module _ (n base : ℕ) (bytes : List ℕ)
    (mark : (k : ℕ)
      → load_block_gen (mark_block_busy bytes base) k
        ≡ (if base == k then 0 else load_block_gen bytes k))
    (c : Claim) (rest : Claimed (mark_block_busy bytes base) (suc base) n c) where
  cleared_all : (k : ℕ) → Covers base (suc n) k → load_block_gen c.bytes k ≡ 0
  cleared_all k h = elim (first_or_rest base n k h) [
    | inl e ↦
        subst (λ x. load_block_gen c.bytes x ≡ 0) e
          (rest.kept base (inl (omega arith))
            ∙ (mark base ∙ at_self base 0 (load_block_gen bytes base)))
    | inr later ↦ rest.cleared k later
  ]

  unmarked :
      (k : ℕ) → base ≢ k → load_block_gen (mark_block_busy bytes base) k ≡ load_block_gen bytes k
  unmarked k h = mark k ∙ at_other base k 0 (load_block_gen bytes k) h

  kept_all : (k : ℕ) → IsApart base (suc n) k → load_block_gen c.bytes k ≡ load_block_gen bytes k
  kept_all k h = let (a, ne) = IsApart-rest base n k h in rest.kept k a ∙ unmarked k ne

  rotated_all :
      (i : ℕ)
      → i < suc n
      → get_or (next_gen (load_block_gen bytes base) ∷ c.gens) i 0
        ≡ next_gen (load_block_gen bytes (base + i))
  rotated_all zero h =
      let e : base ≡ base + 0 = omega arith in ap (λ x. next_gen (load_block_gen bytes x)) e
  rotated_all (suc i) h =
      let e : suc base + i ≡ base + suc i = omega arith in
      subst (λ x. get_or c.gens i 0 ≡ next_gen (load_block_gen bytes x)) e
        (rest.rotated i (omega arith)
          ∙ ap next_gen (unmarked (suc base + i) (λ q. absurd (omega arith))))

  verifiable_all :
      (not (load_block_gen bytes base == 0) || c.any_was_verifiable) ≡ false
      → (k : ℕ) → Covers base (suc n) k
      → load_block_gen bytes k ≡ 0
  verifiable_all h k cov =
      let (z, r) = no_old (load_block_gen bytes base) c.any_was_verifiable h in
      elim (first_or_rest base n k cov) [
        | inl e ↦ subst (λ x. load_block_gen bytes x ≡ 0) e z
        | inr later ↦
            sym (unmarked k (λ q. absurd (omega (arith, later)))) ∙ rest.verifiable r k later
      ]

pub claim_blocks-Claimed :
    (count n base : ℕ) (bytes : List ℕ)
    → Mapped count bytes
    → base + n ≤ count
    → Claimed bytes base n (claim_blocks bytes base n)
      × Mapped count (claim_blocks bytes base n).bytes
unfolding claim_blocks
claim_blocks-Claimed count zero base bytes m h = (
  record {
    cleared = λ k c. absurd (omega arith);
    kept = λ k c. refl;
    size = refl;
    rotated = λ i lt. elim lt [ ];
    verifiable = λ e k c. absurd (omega arith);
  },
  m,
)
claim_blocks-Claimed count (suc n) base bytes m h =
    let (rest, m') =
      claim_blocks-Claimed count n (suc base) (mark_block_busy bytes base)
        (mark-Mapped count base bytes m) (omega arith) in
    let mark =
      λ (k : ℕ). load_block_gen-mark_block_busy bytes base k m.are (m.inside base (omega arith)) in
    let c : Claim = claim_blocks (mark_block_busy bytes base) (suc base) n in
    (
      record {
        cleared = cleared_all n base bytes mark c rest;
        kept = kept_all n base bytes mark c rest;
        size = ap suc rest.size;
        rotated = rotated_all n base bytes mark c rest;
        verifiable = verifiable_all n base bytes mark c rest;
      },
      m',
    )

-- What a commit does.
pub record Committed (bytes : List ℕ) (base : ℕ) (gens : List ℕ) (bytes' : List ℕ) : Type 0 where
  pub written : (i : ℕ) → i < length gens → load_block_gen bytes' (base + i) ≡ get_or gens i 0
  pub kept :
      (k : ℕ) → IsApart base (length gens) k → load_block_gen bytes' k ≡ load_block_gen bytes k

-- One block, then the others.
module _ (g : ℕ) (gs : List ℕ) (base : ℕ) (bytes : List ℕ)
    (law : (k : ℕ)
      → load_block_gen (commit_block_gen bytes base g) k
        ≡ (if base == k then g else load_block_gen bytes k))
    (bytes' : List ℕ) (rest : Committed (commit_block_gen bytes base g) (suc base) gs bytes') where
  written_all :
      (i : ℕ) → i < suc (length gs) → load_block_gen bytes' (base + i) ≡ get_or (g ∷ gs) i 0
  written_all zero h =
      let e : base ≡ base + 0 = omega arith in
      subst (λ x. load_block_gen bytes' x ≡ g) e
        (rest.kept base (inl (omega arith))
          ∙ (law base ∙ at_self base g (load_block_gen bytes base)))
  written_all (suc i) h =
      let e : suc base + i ≡ base + suc i = omega arith in
      subst (λ x. load_block_gen bytes' x ≡ get_or gs i 0) e (rest.written i (omega arith))

  kept_too :
      (k : ℕ) → IsApart base (suc (length gs)) k → load_block_gen bytes' k ≡ load_block_gen bytes k
  kept_too k h =
      let (a, ne) = IsApart-rest base (length gs) k h in
      rest.kept k a ∙ (law k ∙ at_other base k g (load_block_gen bytes k) ne)

pub commit_blocks-Committed :
    (count : ℕ) (gens : List ℕ) (base : ℕ) (bytes : List ℕ)
    → Mapped count bytes
    → base + length gens ≤ count
    → All (λ (g : ℕ). g < 4) gens
    → ((k : ℕ) → Covers base (length gens) k → load_block_gen bytes k ≡ 0)
    → Committed bytes base gens (commit_blocks bytes base gens)
      × Mapped count (commit_blocks bytes base gens)
unfolding commit_blocks
commit_blocks-Committed count [] base bytes m h small z =
    (record { written = λ i lt. elim lt [ ]; kept = λ k a. refl }, m)
commit_blocks-Committed count (g ∷ gs) base bytes m h small z =
    let z0 = z base (omega arith, omega arith) in
    let law = λ (k : ℕ).
      load_block_gen-commit_block_gen bytes base g k m.are (m.inside base (omega arith)) small.0
        z0 in
    let z' : (k : ℕ)
        → Covers (suc base) (length gs) k
        → load_block_gen (commit_block_gen bytes base g) k ≡ 0 =
      λ k c.
        law k
        ∙ (at_other base k g (load_block_gen bytes k) (λ q. absurd (omega (arith, c)))
            ∙ z k (omega (arith, c), omega (arith, c))) in
    let (rest, m') =
      commit_blocks-Committed count gs (suc base) (commit_block_gen bytes base g)
        (commit-Mapped count base g bytes small.0 z0 m) (omega arith) small.1 z' in
    (
      record {
        written = written_all g gs base bytes law _ rest;
        kept = kept_too g gs base bytes law _ rest;
      },
      m',
    )
