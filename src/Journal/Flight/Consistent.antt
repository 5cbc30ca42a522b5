-- ===== src/Journal/Flight/Consistent.antt =====
-- What holds of the cells of a journal while I/Os are in flight.
use elbencho.Prelude.{
  ℕ, zero, suc, ◌+◌, ◌≤◌, ◌<◌, ◌^◌, ◌≡◌, ◌≢◌, ◌∙◌, refl, ap, sym, subst, arith, Bool, true, false,
  List, [], ◌∷◌, ltb, ltb→lt, ltb→le, ◌==◌, ==_iff, Option, none, some, Bool-cases, inl, inr, ◌⊎◌,
  All, get_or, length,
}
use elbencho.Journal.{Journal, load_block_gen}
use elbencho.Journal.Regions.{stripes_of-Covers}
use elbencho.Journal.BlockIo.{load_gens}
use elbencho.Journal.BlockIo.Ranges.{Mapped, Covers, IsApart}
use elbencho.Journal.Flight.{BlockIo, System, put, IsFree, IsRange}

-- What holds of one I/O in flight.
pub record IsAccurate (j : Journal) (bytes : List ℕ) (io : BlockIo) : Type 0 where
  pub range : IsRange j io.base_block_idx io.num_blocks
  pub size : length io.gens ≡ io.num_blocks
  pub small : All (λ (g : ℕ). g < 4) io.gens
  -- The blocks of a write read as uninitialized until it is committed.
  pub write_cleared :
      io.is_write ≡ true
      → (k : ℕ) → Covers io.base_block_idx io.num_blocks k
      → load_block_gen bytes k ≡ 0
  -- The generations that a read verifies against are those of its blocks.
  pub read_gens :
      io.is_write ≡ false
      → (i : ℕ) → i < io.num_blocks
      → get_or io.gens i 0 ≡ load_block_gen bytes (io.base_block_idx + i)

pub record IsConsistent (j : Journal) (s : System) : Type 0 where
  pub mapped : Mapped j.num_journal_blocks s.bytes
  pub accurate : (i : ℕ) (io : BlockIo) → s.slots i ≡ some io → IsAccurate j s.bytes io
  -- A block is written by one I/O, or read by any number of them.
  pub apart :
      (i i' : ℕ) (io io' : BlockIo)
      → i ≢ i'
      → s.slots i ≡ some io
      → s.slots i' ≡ some io'
      → (io.is_write ≡ true) ⊎ (io'.is_write ≡ true)
      → (k : ℕ) → Covers io.base_block_idx io.num_blocks k
      → ¬ Covers io'.base_block_idx io'.num_blocks k

pub put-cases :
    (slots : ℕ → Option BlockIo) (i k : ℕ) (o : Option BlockIo) (io : BlockIo)
    → put slots i o k ≡ some io
    → ((i ≡ k) × (o ≡ some io)) ⊎ ((i ≢ k) × (slots k ≡ some io))
put-cases slots i k o io h = elim (Bool-cases (i == k)) [
  | inl e ↦ inl ((==_iff i k).0 e, rw e at h)
  | inr e ↦ inr (λ q. let t : (i == k) ≡ true = (==_iff i k).1 q in cc, rw e at h)
]

pub not-Covers : (base n k : ℕ) → ¬ Covers base n k → IsApart base n k
not-Covers base n k h = elim (Bool-cases (ltb k base)) [
  | inl lt ↦ inl (ltb→lt k base lt)
  | inr ge ↦ elim (Bool-cases (ltb k (base + n))) [
    | inl lt ↦ absurd (h (ltb→le k base ge, ltb→lt k (base + n) lt))
    | inr beyond ↦ inr (ltb→le k (base + n) beyond)
  ]
]

pub length-load_gens : (bytes : List ℕ) (base n : ℕ) → length (load_gens bytes base n) ≡ n
unfolding load_gens
length-load_gens bytes base zero = refl
length-load_gens bytes base (suc n) = ap suc (length-load_gens bytes (suc base) n)

pub get_or-load_gens :
    (bytes : List ℕ) (base n i : ℕ)
    → i < n
    → get_or (load_gens bytes base n) i 0 ≡ load_block_gen bytes (base + i)
unfolding load_gens
get_or-load_gens bytes base zero i h = elim h [ ]
get_or-load_gens bytes base (suc n) zero h =
    let e : base ≡ base + 0 = omega arith in ap (load_block_gen bytes) e
get_or-load_gens bytes base (suc n) (suc i) h =
    let e : suc base + i ≡ base + suc i = omega arith in
    get_or-load_gens bytes (suc base) n i (omega arith) ∙ ap (load_block_gen bytes) e

pub All-get :
    (gs : List ℕ) → ((i : ℕ) → i < length gs → get_or gs i 0 < 4) → All (λ (g : ℕ). g < 4) gs
All-get [] h = tt
All-get (g ∷ gs) h = (h 0 (omega arith), All-get gs (λ i lt. h (suc i) (omega arith)))

-- Two ranges of which one was locked exclusively beside the other have no block in common.
module _ (j : Journal) (shut : j.num_journal_blocks < 2 ^ 62) where
  pub free-apart :
      (slots : ℕ → Option BlockIo) (exclusive : Bool) (base n i : ℕ) (io : BlockIo)
      → IsFree j slots exclusive base n
      → IsRange j base n
      → IsRange j io.base_block_idx io.num_blocks
      → slots i ≡ some io
      → (exclusive ≡ true) ⊎ (io.is_write ≡ true)
      → (k : ℕ) → Covers base n k
      → ¬ Covers io.base_block_idx io.num_blocks k
  free-apart slots exclusive base n i io free r r' at one k c c' =
      free i io at one _
        (stripes_of-Covers j base n k r.some_block r.in_region (bounded base n r.in_journal) c).1
        (stripes_of-Covers j io.base_block_idx io.num_blocks k r'.some_block r'.in_region
          (bounded io.base_block_idx io.num_blocks r'.in_journal) c').1
    where
      bounded : (a b : ℕ) → a + b ≤ j.num_journal_blocks → a + b < 2 ^ 64
      bounded a b h = omega arith

-- Steps that keep the loads of all blocks of an I/O keep it accurate.
keep-IsAccurate :
    (j : Journal) (bytes bytes' : List ℕ) (io : BlockIo)
    → ((k : ℕ)
        → Covers io.base_block_idx io.num_blocks k
        → load_block_gen bytes' k ≡ load_block_gen bytes k)
    → IsAccurate j bytes io
    → IsAccurate j bytes' io
keep-IsAccurate j bytes bytes' io same a = record {
  range = a.range;
  size = a.size;
  small = a.small;
  write_cleared = λ w k c. same k c ∙ a.write_cleared w k c;
  read_gens =
      λ r i lt. a.read_gens r i lt ∙ sym (same (io.base_block_idx + i) (omega arith, omega arith));
}

module _ (j : Journal) (shut : j.num_journal_blocks < 2 ^ 62) where
  pub start-IsConsistent :
      Mapped j.num_journal_blocks j.map_base
      → IsConsistent j (record { bytes = j.map_base; slots = λ _. none })
  start-IsConsistent m = record {
    mapped = m;
    accurate = λ i io h. cc;
    apart = λ i i' io io' ne h h' one k c c'. cc;
  }

  -- Giving up a slot, where the loads of the blocks of all other I/Os stay.
  pub leave-IsConsistent :
      (s : System) (i : ℕ) (bytes : List ℕ)
      → IsConsistent j s
      → Mapped j.num_journal_blocks bytes
      → ((k : ℕ) (io : BlockIo)
          → i ≢ k
          → s.slots k ≡ some io
          → (b : ℕ) → Covers io.base_block_idx io.num_blocks b
          → load_block_gen bytes b ≡ load_block_gen s.bytes b)
      → IsConsistent j (record { bytes = bytes; slots = put s.slots i none })
  leave-IsConsistent s i bytes c m same = record {
    mapped = m;
    accurate = λ k io h.
        let (ne, q) = kept k io h in
        keep-IsAccurate j s.bytes bytes io (same k io ne q) (c.accurate k io q);
    apart = λ a b io io' ne h h' one. c.apart a b io io' ne (kept a io h).1 (kept b io' h').1 one;
  }
    where
      kept :
          (k : ℕ) (io : BlockIo) → put s.slots i none k ≡ some io → (i ≢ k) × (s.slots k ≡ some io)
      kept k io h = elim (put-cases s.slots i k none io h) [
        | inl (e, q) ↦ cc
        | inr (ne, q) ↦ (ne, q)
      ]

  -- Taking a slot, where the new I/O is accurate, the loads of the other I/Os' blocks stay, and the
  -- new I/O is apart from those that it does not share its blocks with.
  pub take-IsConsistent :
      (s : System) (i : ℕ) (io : BlockIo) (bytes : List ℕ)
      → IsConsistent j s
      → Mapped j.num_journal_blocks bytes
      → IsAccurate j bytes io
      → ((i' : ℕ) (io' : BlockIo)
          → s.slots i' ≡ some io'
          → (k : ℕ) → Covers io'.base_block_idx io'.num_blocks k
          → load_block_gen bytes k ≡ load_block_gen s.bytes k)
      → ((i' : ℕ) (io' : BlockIo)
          → s.slots i' ≡ some io'
          → (io.is_write ≡ true) ⊎ (io'.is_write ≡ true)
          → (k : ℕ) → Covers io.base_block_idx io.num_blocks k
          → ¬ Covers io'.base_block_idx io'.num_blocks k)
      → IsConsistent j (record { bytes = bytes; slots = put s.slots i (some io) })
  take-IsConsistent s i io bytes c m acc same sep = record {
    mapped = m;
    accurate = λ k io' h. elim (put-cases s.slots i k (some io) io' h) [
      | inl (e, q) ↦ subst (IsAccurate j bytes) (some-injective q) acc
      | inr (ne, q) ↦ keep-IsAccurate j s.bytes bytes io' (same k io' q) (c.accurate k io' q)
    ];
    apart = λ a b x y ne h h' one k cx cy. elim (put-cases s.slots i a (some io) x h) [
      | inl (e, q) ↦ elim (put-cases s.slots i b (some io) y h') [
        | inl (e', q') ↦ absurd (ne (sym e ∙ e'))
        | inr (ne', q') ↦ own b y q' x q one k cx cy
      ]
      | inr (ne1, q) ↦ elim (put-cases s.slots i b (some io) y h') [
        | inl (e', q') ↦ own a x q y q' (swap one) k cy cx
        | inr (ne', q') ↦ c.apart a b x y ne q q' one k cx cy
      ]
    ];
  }
    where
      some-injective : {x y : BlockIo} → some x ≡ some y → x ≡ y
      some-injective e = cc

      own :
          (b : ℕ) (y : BlockIo)
          → s.slots b ≡ some y
          → (x : BlockIo) → some io ≡ some x
          → (x.is_write ≡ true) ⊎ (y.is_write ≡ true)
          → (k : ℕ) → Covers x.base_block_idx x.num_blocks k
          → ¬ Covers y.base_block_idx y.num_blocks k
      own b y q' x q =
          subst
            (λ (z : BlockIo).
              (z.is_write ≡ true) ⊎ (y.is_write ≡ true)
              → (k : ℕ) → Covers z.base_block_idx z.num_blocks k
              → ¬ Covers y.base_block_idx y.num_blocks k)
            (some-injective q) (sep b y q')

      swap : {A B : Type 0} → A ⊎ B → B ⊎ A
      swap (inl a) = inr a
      swap (inr b) = inl b
