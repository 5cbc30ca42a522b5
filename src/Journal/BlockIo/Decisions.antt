-- ===== src/Journal/BlockIo/Decisions.antt =====
-- What `JournalBlockIO::begin` makes of a read, and what `syncRange` writes.
use native.Mathlib.Nat.{div-mul-le_self}
use elbencho.Prelude.{
  ℕ, zero, suc, ◌+◌, ◌-◌, ◌*◌, ◌/◌, ◌≤◌, ◌<◌, ◌≡◌, ◌≢◌, ◌∙◌, ap, refl, sym, subst, arith, true,
  false, List, ◌==◌, ==_iff, Bool-cases, inl, inr, ◌⊎◌, Option, none, some, min,
}
use elbencho.Journal.{Journal, load_block_gen, cell_byte}
use elbencho.Journal.BlockIo.{
  Intent, Action, load_gens, any_uninit, all_uninit, decide_read, sync_range,
}
use elbencho.Journal.BlockIo.Ranges.{Covers}

first_or_rest : (base n k : ℕ) → Covers base (suc n) k → (base ≡ k) ⊎ Covers (suc base) n k
first_or_rest base n k (a, b) = elim (Bool-cases (base == k)) [
  | inl e ↦ inl ((==_iff base k).0 e)
  | inr e ↦ inr (ground arith, omega arith)
]

read_decision :
    (intent : Intent) (gens : List ℕ)
    → any_uninit gens ≡ false
    → decide_read intent gens ≡ some Action.action_read
unfolding decide_read
read_decision intent gens h = rw h refl

skip_decision :
    (gens : List ℕ)
    → any_uninit gens ≡ true
    → all_uninit gens ≡ true
    → decide_read Intent.intent_read_skip_uninit gens ≡ some Action.action_skip
unfolding decide_read
skip_decision gens h k = rw (h, k) refl

partial_decision :
    (gens : List ℕ)
    → all_uninit gens ≡ false
    → decide_read Intent.intent_read_skip_uninit gens ≡ some Action.action_read
unfolding decide_read
partial_decision gens k = elim (Bool-cases (any_uninit gens)) [
  | inl h ↦ rw (h, k) refl
  | inr h ↦ rw h refl
]

upgrade_decision :
    (intent : Intent) (gens : List ℕ)
    → intent ≢ Intent.intent_read_skip_uninit
    → any_uninit gens ≡ true
    → decide_read intent gens ≡ none
unfolding decide_read
upgrade_decision Intent.intent_write gens ne h = rw h refl
upgrade_decision Intent.intent_read_skip_uninit gens ne h = absurd (ne refl)
upgrade_decision Intent.intent_read_or_init gens ne h = rw h refl

is_skip :
    (intent : Intent)
    → (intent ≡ Intent.intent_read_skip_uninit) ⊎ (intent ≢ Intent.intent_read_skip_uninit)
is_skip Intent.intent_write = inr (λ e. cc)
is_skip Intent.intent_read_skip_uninit = inl refl
is_skip Intent.intent_read_or_init = inr (λ e. cc)

module _ (bytes : List ℕ) where
  all_uninit-load_gens :
      (base n k : ℕ)
      → all_uninit (load_gens bytes base n) ≡ true
      → Covers base n k
      → load_block_gen bytes k ≡ 0
  unfolding all_uninit load_gens
  all_uninit-load_gens base zero k h c = absurd (omega arith)
  all_uninit-load_gens base (suc n) k h c = elim (Bool-cases (load_block_gen bytes base == 0)) [
    | inl z ↦ elim (first_or_rest base n k c) [
      | inl e ↦ subst (λ x. load_block_gen bytes x ≡ 0) e ((==_iff _ _).0 z)
      | inr later ↦ all_uninit-load_gens (suc base) n k (rw z at h) later
    ]
    | inr nz ↦ let f : false ≡ true = rw nz at h in cc
  ]

  any_uninit-load_gens :
      (base n : ℕ)
      → any_uninit (load_gens bytes base n) ≡ true
      → (k : ℕ) × Covers base n k × (load_block_gen bytes k ≡ 0)
  unfolding any_uninit load_gens
  any_uninit-load_gens base zero h = cc
  any_uninit-load_gens base (suc n) h = elim (Bool-cases (load_block_gen bytes base == 0)) [
    | inl z ↦ (base, (omega arith, omega arith), (==_iff _ _).0 z)
    | inr nz ↦
        let (k, (a, b), z) = any_uninit-load_gens (suc base) n (rw nz at h) in
        (k, (omega arith, omega arith), z)
  ]

  any_init-load_gens :
      (base n : ℕ)
      → all_uninit (load_gens bytes base n) ≡ false
      → (k : ℕ) × Covers base n k × (0 < load_block_gen bytes k)
  unfolding all_uninit load_gens
  any_init-load_gens base zero h = cc
  any_init-load_gens base (suc n) h = elim (Bool-cases (load_block_gen bytes base == 0)) [
    | inl z ↦
        let (k, (a, b), p) = any_init-load_gens (suc base) n (rw z at h) in
        (k, (omega arith, omega arith), p)
    | inr nz ↦ (base, (omega arith, omega arith), ground arith)
  ]

  all_init-load_gens :
      (base n k : ℕ)
      → any_uninit (load_gens bytes base n) ≡ false
      → Covers base n k
      → 0 < load_block_gen bytes k
  unfolding any_uninit load_gens
  all_init-load_gens base zero k h c = absurd (omega arith)
  all_init-load_gens base (suc n) k h c = elim (Bool-cases (load_block_gen bytes base == 0)) [
    | inl z ↦ let f : true ≡ false = rw z at h in cc
    | inr nz ↦ elim (first_or_rest base n k c) [
      | inl e ↦ subst (λ x. 0 < load_block_gen bytes x) e (ground arith)
      | inr later ↦ all_init-load_gens (suc base) n k (rw nz at h) later
    ]
  ]

  -- What `begin` makes of a read that has its guard, in all cases.
  pub decide_read_lem :
      (intent : Intent) (base n : ℕ)
      → ((decide_read intent (load_gens bytes base n) ≡ some Action.action_read)
          × ((k : ℕ) → Covers base n k → 0 < load_block_gen bytes k))
        ⊎ ((decide_read intent (load_gens bytes base n) ≡ some Action.action_skip)
            × (intent ≡ Intent.intent_read_skip_uninit)
            × ((k : ℕ) → Covers base n k → load_block_gen bytes k ≡ 0))
        ⊎ ((decide_read intent (load_gens bytes base n) ≡ some Action.action_read)
            × (intent ≡ Intent.intent_read_skip_uninit)
            × ((k : ℕ) × Covers base n k × (load_block_gen bytes k ≡ 0))
            × ((k : ℕ) × Covers base n k × (0 < load_block_gen bytes k)))
        ⊎ ((decide_read intent (load_gens bytes base n) ≡ none)
            × (intent ≢ Intent.intent_read_skip_uninit)
            × ((k : ℕ) × Covers base n k × (load_block_gen bytes k ≡ 0)))
  decide_read_lem intent base n =
      let gens = load_gens bytes base n in
      elim (Bool-cases (any_uninit gens)) [
        | inr ready ↦ inl (read_decision intent gens ready, λ k. all_init-load_gens base n k ready)
        | inl missing ↦ elim (is_skip intent) [
          | inr ne ↦ inr (
              inr (
                inr (
                  upgrade_decision intent gens ne missing,
                  ne,
                  any_uninit-load_gens base n missing,
                )))
          | inl e ↦ elim (Bool-cases (all_uninit gens)) [
            | inl all ↦ inr (
                inl (
                  ap (λ i. decide_read i gens) e ∙ skip_decision gens missing all,
                  e,
                  λ k. all_uninit-load_gens base n k all,
                ))
            | inr partial ↦ inr (
                inr (
                  inl (
                    ap (λ i. decide_read i gens) e ∙ partial_decision gens partial,
                    e,
                    any_uninit-load_gens base n missing,
                    any_init-load_gens base n partial,
                  )))
          ]
        ]
      ]

-- The msync of a range, where the run asks for it, begins at a page boundary and takes in the byte
-- of the cell of every block of the range that lies in the mapping.
pub sync_range-Covers :
    (page_size first n k : ℕ) (j : Journal) (start len : ℕ)
    → sync_range page_size j first n ≡ some (start, len)
    → 0 < page_size
    → Covers first n k
    → cell_byte k < j.map_length
    → (start ≤ cell_byte k) × (cell_byte k < start + len) × ((q : ℕ) × (start ≡ q * page_size))
unfolding sync_range cell_byte
sync_range-Covers page_size first n k j start len h p c inside =
    elim (Bool-cases j.journal_sync_enabled) [
      | inl on ↦
          let e : ◌≡◌ {A = Option (ℕ × ℕ)}
              (some (
                first / 4 / page_size * page_size,
                min ((first + n + 3) / 4) j.map_length - first / 4 / page_size * page_size,
              ))
              (some (start, len)) =
            rw on at h in
          let le : first / 4 / page_size * page_size ≤ first / 4 =
            div-mul-le_self (first / 4) page_size in
          let a : first / 4 / page_size * page_size ≡ start = cc in
          let b : min ((first + n + 3) / 4) j.map_length - first / 4 / page_size * page_size ≡ len =
            cc in
          (omega arith, omega arith, (first / 4 / page_size, sym a))
      | inr off ↦ let e : ◌≡◌ {A = Option (ℕ × ℕ)} none (some (start, len)) = rw off at h in cc
    ]
