-- ===== src/Journal/Cells.antt =====
-- The cells of a journal: `loadBlockGen`, `markBlockBusy` and `commitBlockGen`.
use native.Mathlib.Nat.{div-le_self}
use elbencho.Prelude.{
  ℕ, zero, suc, ◌+◌, ◌-◌, ◌*◌, ◌/◌, ◌%◌, ◌^◌, ◌≤◌, ◌<◌, ◌≡◌, ◌≢◌, ◌∙◌, ap, subst, arith, true,
  false, ◌==◌, ==_iff, if◌then◌else◌, List, [], ◌∷◌, get_or, set, length, length-set,
  get_or-set_self, get_or-set_ne, All, Bool-cases, inl, inr, ◌⊎◌, add64, mul64, add64-eq, mul64-eq,
  sub64, sub64-eq,
}
use elbencho.Journal.{
  load_block_gen, mark_block_busy, commit_block_gen, cell_byte, cell_shift, load_cell, next_gen,
  map_length_of, blocks_of,
}
use elbencho.Journal.Bytes.{clear_cell-load_cell, or_cell-load_cell, load_cell-lt}

abbrev pub AreBytes : List ℕ → Type 0
AreBytes = All (λ (b : ℕ). b < 256)

get_or-byte : (bytes : List ℕ) (i : ℕ) → AreBytes bytes → get_or bytes i 0 < 256
get_or-byte [] i h = omega arith
get_or-byte (b ∷ bs) zero h = h.0
get_or-byte (b ∷ bs) (suc i) h = get_or-byte bs i h.1

set-bytes : (bytes : List ℕ) (i v : ℕ) → v < 256 → AreBytes bytes → AreBytes (set bytes i v)
set-bytes [] i v h p = tt
set-bytes (b ∷ bs) zero v h p = (h, p.1)
set-bytes (b ∷ bs) (suc i) v h p = (p.0, set-bytes bs i v h p.1)

same_cell : (i k : ℕ) → i / 4 ≡ k / 4 → (i % 4 == k % 4) ≡ (i == k)
same_cell i k h = ground arith

not_same_cell : (i k : ℕ) → i / 4 ≢ k / 4 → (i == k) ≡ false
not_same_cell i k h = elim (Bool-cases (i == k)) [
  | inl e ↦ absurd (h (ap (λ (x : ℕ). x / 4) ((==_iff i k).0 e)))
  | inr e ↦ e
]

ne_or_eq : (a b : ℕ) → (a ≡ b) ⊎ (a ≢ b)
ne_or_eq a b = elim (Bool-cases (a == b)) [
  | inl e ↦ inl ((==_iff a b).0 e)
  | inr e ↦ inr (λ h. let t : (a == b) ≡ true = (==_iff a b).1 h in cc)
]

-- A write of the byte that holds cell `i`, as seen by the load of cell `k`.
module _ (bytes : List ℕ) (i k v new : ℕ) (inside : i / 4 < length bytes) where
  load-set :
      ((i / 4 ≡ k / 4)
        → load_cell v (k % 4 * 2)
          ≡ (if i % 4 == k % 4 then new else load_cell (get_or bytes (i / 4) 0) (k % 4 * 2)))
      → load_block_gen (set bytes (i / 4) v) k ≡ (if i == k then new else load_block_gen bytes k)
  unfolding load_block_gen cell_byte cell_shift
  load-set h = elim (ne_or_eq (i / 4) (k / 4)) [
    | inl e ↦
        let here =
          ap (λ b. load_cell b (k % 4 * 2)) (get_or-set_self bytes (i / 4) v 0 inside)
          ∙ (h e
              ∙ ap (λ t. if t then new else load_cell (get_or bytes (i / 4) 0) (k % 4 * 2))
                  (same_cell i k e)) in
        subst
          (λ q.
            load_cell (get_or (set bytes (i / 4) v) q 0) (k % 4 * 2)
            ≡ (if i == k then new else load_cell (get_or bytes q 0) (k % 4 * 2)))
          e here
    | inr ne ↦
        rw (not_same_cell i k ne)
          (ap (λ b. load_cell b (k % 4 * 2)) (get_or-set_ne bytes (i / 4) (k / 4) v 0 ne))
  ]

load_open :
    (bytes : List ℕ) (i : ℕ)
    → load_block_gen bytes i ≡ 0
    → load_cell (get_or bytes (i / 4) 0) (i % 4 * 2) ≡ 0
unfolding load_block_gen cell_byte cell_shift
load_open bytes i h = h

-- Clearing the cell of block `i`, in the mapping, makes that block uninitialized, and no other.
pub load_block_gen-mark_block_busy :
    (bytes : List ℕ) (i k : ℕ)
    → AreBytes bytes
    → i / 4 < length bytes
    → load_block_gen (mark_block_busy bytes i) k ≡ (if i == k then 0 else load_block_gen bytes k)
unfolding mark_block_busy cell_byte cell_shift
load_block_gen-mark_block_busy bytes i k are h = load-set bytes i k _ 0 h (λ e.
    (clear_cell-load_cell (get_or bytes (i / 4) 0) (i % 4) (k % 4) (get_or-byte bytes (i / 4) are)
      (omega arith) (omega arith)).1)

-- A generation 1 to 3 that is committed to an uninitialized block, in the mapping, is what that
-- block loads afterwards, and no other block changes.
pub load_block_gen-commit_block_gen :
    (bytes : List ℕ) (i g k : ℕ)
    → AreBytes bytes
    → i / 4 < length bytes
    → g < 4
    → load_block_gen bytes i ≡ 0
    → load_block_gen (commit_block_gen bytes i g) k ≡ (if i == k then g else load_block_gen bytes k)
unfolding commit_block_gen cell_byte cell_shift
load_block_gen-commit_block_gen bytes i g k are h small z = load-set bytes i k _ g h (λ e.
    (or_cell-load_cell (get_or bytes (i / 4) 0) (i % 4) (k % 4) g (get_or-byte bytes (i / 4) are)
      (omega arith) (omega arith) small (load_open bytes i z)).1)

pub mark_block_busy-bytes :
    (bytes : List ℕ) (i : ℕ) → AreBytes bytes → AreBytes (mark_block_busy bytes i)
unfolding mark_block_busy cell_byte cell_shift
mark_block_busy-bytes bytes i are =
    set-bytes bytes (i / 4) _
      (clear_cell-load_cell (get_or bytes (i / 4) 0) (i % 4) 0 (get_or-byte bytes (i / 4) are)
        (omega arith) (omega arith)).0
      are

pub commit_block_gen-bytes :
    (bytes : List ℕ) (i g : ℕ)
    → AreBytes bytes
    → g < 4
    → load_block_gen bytes i ≡ 0
    → AreBytes (commit_block_gen bytes i g)
unfolding commit_block_gen cell_byte cell_shift
commit_block_gen-bytes bytes i g are small z =
    set-bytes bytes (i / 4) _
      (or_cell-load_cell (get_or bytes (i / 4) 0) (i % 4) 0 g (get_or-byte bytes (i / 4) are)
        (omega arith) (omega arith) small (load_open bytes i z)).0
      are

pub length-mark_block_busy :
    (bytes : List ℕ) (i : ℕ) → length (mark_block_busy bytes i) ≡ length bytes
unfolding mark_block_busy
length-mark_block_busy bytes i = length-set bytes (cell_byte i) _

pub length-commit_block_gen :
    (bytes : List ℕ) (i g : ℕ) → length (commit_block_gen bytes i g) ≡ length bytes
unfolding commit_block_gen
length-commit_block_gen bytes i g = length-set bytes (cell_byte i) _

pub load_block_gen-lt : (bytes : List ℕ) (i : ℕ) → AreBytes bytes → load_block_gen bytes i < 4
unfolding load_block_gen cell_byte cell_shift
load_block_gen-lt bytes i are =
    load_cell-lt (get_or bytes (i / 4) 0) (i % 4) (get_or-byte bytes (i / 4) are) (omega arith)

-- The next generation of any generation is 1 to 3 and differs from it, so rewriting a block always
-- changes its expected content; and three rewrites come back to the first one.
pub next_gen_lem :
    (g : ℕ)
    → g < 4
    → (0 < next_gen g)
      × (next_gen g < 4)
      × (next_gen g ≢ g)
      × (0 < g → next_gen (next_gen (next_gen g)) ≡ g)
unfolding next_gen
next_gen_lem g h = (ground arith, ground arith, λ e. ground arith, λ p. ground arith)

blocks_of-le : (size bs : ℕ) → 0 < bs → size + bs < 2 ^ 60 → blocks_of size bs ≤ 2 ^ 60
unfolding blocks_of
blocks_of-le size bs p h =
    let a : add64 size bs ≡ size + bs = add64-eq size bs (omega arith) in
    let b : sub64 (size + bs) 1 ≡ size + bs - 1 =
      sub64-eq (size + bs) 1 (omega arith) (omega arith) in
    let c : (size + bs - 1) / bs ≤ size + bs - 1 = div-le_self (size + bs - 1) bs in
    rw (a, b) (omega arith)

-- The cell of every block of a journal lies inside the mapped file, whose length is `mapLength`.
pub cell_byte-lt :
    (size bs i : ℕ)
    → 0 < bs
    → size + bs < 2 ^ 60
    → i < blocks_of size bs
    → cell_byte i < map_length_of (blocks_of size bs)
unfolding cell_byte map_length_of
cell_byte-lt size bs i p h lt =
    let n = blocks_of-le size bs p h in
    let a : mul64 (blocks_of size bs) 2 ≡ blocks_of size bs * 2 =
      mul64-eq (blocks_of size bs) 2 (omega arith) in
    let b : add64 (blocks_of size bs * 2) 7 ≡ blocks_of size bs * 2 + 7 =
      add64-eq (blocks_of size bs * 2) 7 (omega arith) in
    rw (a, b) (omega arith)
