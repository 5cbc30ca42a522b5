-- ===== src/BlockContent/Journaled.antt =====
-- The content of journaled blocks, written and verified.
use elbencho.Prelude.{
  ℕ, zero, suc, ◌+◌, ◌-◌, ◌*◌, ◌%◌, ◌^◌, ◌≤◌, ◌<◌, ◌≡◌, ◌≢◌, ◌∙◌, refl, ap, sym, subst, arith, true,
  false, Bool-cases, inl, inr, ◌⊎◌, List, [], ◌∷◌, ◌++◌, ◌==◌, ==_iff, min, length, length-append,
  get_or, length-tabulate, get_or-tabulate, Option, none, some,
}
use elbencho.Journal.{compute_expected_tile_value}
use elbencho.Journal.Tiles.{tile_generation, compute_expected_tile_value-lt}
use elbencho.BlockContent.{
  byte_of, Mismatch, find_mismatch, same_bytes, journal_fill_tile_block, pre_write_journal_fill_buf,
  bytes_from, first_bytes, post_read_journal_verify_buf,
}
use elbencho.BlockContent.Blocks.{byte_of_injective}

same_bytes_refl : (xs : List ℕ) → same_bytes xs xs ≡ true
unfolding same_bytes
same_bytes_refl [] = refl
same_bytes_refl (x ∷ xs) =
    let e : (x == x) ≡ true = (==_iff x x).1 refl in rw e (same_bytes_refl xs)

same_bytes-eq : (xs ys : List ℕ) → length xs ≡ length ys → same_bytes xs ys ≡ true → xs ≡ ys
unfolding same_bytes
same_bytes-eq [] [] l h = refl
same_bytes-eq [] (y ∷ ys) l h = absurd (omega arith)
same_bytes-eq (x ∷ xs) [] l h = absurd (omega arith)
same_bytes-eq (x ∷ xs) (y ∷ ys) l h = elim (Bool-cases (x == y)) [
  | inl e ↦
      let q = (==_iff x y).0 e in
      ap (λ z. z ∷ xs) q ∙ ap (λ zs. y ∷ zs) (same_bytes-eq xs ys (omega (arith, l)) (rw e at h))
  | inr ne ↦ let f : false ≡ true = rw ne at h in cc
]

find_mismatch-eq :
    (offset : ℕ) (xs ys : List ℕ)
    → length xs ≡ length ys
    → find_mismatch offset xs ys ≡ none
    → xs ≡ ys
unfolding find_mismatch
find_mismatch-eq offset [] [] l h = refl
find_mismatch-eq offset [] (y ∷ ys) l h = absurd (omega arith)
find_mismatch-eq offset (x ∷ xs) [] l h = absurd (omega arith)
find_mismatch-eq offset (x ∷ xs) (y ∷ ys) l h = elim (Bool-cases (x == y)) [
  | inl e ↦
      let q = (==_iff x y).0 e in
      ap (λ z. z ∷ xs) q
      ∙ ap (λ zs. y ∷ zs) (find_mismatch-eq (offset + 1) xs ys (omega (arith, l)) (rw e at h))
  | inr ne ↦
      let f : ◌≡◌ {A = Option Mismatch}
          (some (record { offset = offset; expected_val = x; actual_val = y })) none =
        rw ne at h in
      cc
]

length-first_bytes : (n : ℕ) (buf : List ℕ) → n ≤ length buf → length (first_bytes n buf) ≡ n
unfolding first_bytes
length-first_bytes zero buf h = refl
length-first_bytes (suc n) [] h = absurd (omega arith)
length-first_bytes (suc n) (b ∷ buf) h = ap suc (length-first_bytes n buf (omega arith))

first_bytes-append : (n : ℕ) (xs ys : List ℕ) → length xs ≡ n → first_bytes n (xs ++ ys) ≡ xs
unfolding first_bytes
first_bytes-append zero [] ys h = refl
first_bytes-append zero (x ∷ xs) ys h = absurd (omega arith)
first_bytes-append (suc n) [] ys h = absurd (omega arith)
first_bytes-append (suc n) (x ∷ xs) ys h =
    ap (λ zs. x ∷ zs) (first_bytes-append n xs ys (omega (arith, h)))

bytes_from-append : (n : ℕ) (xs ys : List ℕ) → length xs ≡ n → bytes_from n (xs ++ ys) ≡ ys
unfolding bytes_from
bytes_from-append zero [] ys h = refl
bytes_from-append zero (x ∷ xs) ys h = absurd (omega arith)
bytes_from-append (suc n) [] ys h = absurd (omega arith)
bytes_from-append (suc n) (x ∷ xs) ys h = bytes_from-append n xs ys (omega (arith, h))

pub length-journal_fill_tile_block :
    (len offset seed g : ℕ) → length (journal_fill_tile_block len offset seed g) ≡ len
unfolding journal_fill_tile_block
length-journal_fill_tile_block len offset seed g = length-tabulate _ 0 len

module _ (bs seed : ℕ) where
  -- Every block with a generation has its content in the buffer.
  abbrev pub IsTiled : List ℕ → List ℕ → ℕ → Type 0
  IsTiled [] buf offset = Unit {0}
  IsTiled (g ∷ gens) buf offset =
      ((g ≡ 0)
        ⊎ (first_bytes (min (length buf) bs) buf
            ≡ journal_fill_tile_block (min (length buf) bs) offset seed g))
      × IsTiled gens (bytes_from (min (length buf) bs) buf) (offset + min (length buf) bs)

  verify-IsTiled :
      (gens buf : List ℕ) (offset : ℕ)
      → post_read_journal_verify_buf bs seed gens buf offset ≡ none
      → IsTiled gens buf offset
  unfolding post_read_journal_verify_buf
  verify-IsTiled [] buf offset h = tt
  verify-IsTiled (g ∷ gens) buf offset h =
      let n = min (length buf) bs in
      let tile = journal_fill_tile_block n offset seed g in
      let len : length (first_bytes n buf) ≡ n = length-first_bytes n buf (omega arith) in
      let tile_len = length-journal_fill_tile_block n offset seed g in
      elim (Bool-cases (g == 0)) [
        | inl z ↦ (
          inl ((==_iff g 0).0 z),
          verify-IsTiled gens (bytes_from n buf) (offset + n) (rw z at h),
        )
        | inr nz ↦ elim (Bool-cases (same_bytes (first_bytes n buf) tile)) [
          | inl same ↦ (
            inr (same_bytes-eq (first_bytes n buf) tile (len ∙ sym tile_len) same),
            verify-IsTiled gens (bytes_from n buf) (offset + n) (rw (nz, same) at h),
          )
          | inr differ ↦
              let found : find_mismatch offset tile (first_bytes n buf) ≡ none =
                rw (nz, differ) at h in
              let eq =
                find_mismatch-eq offset tile (first_bytes n buf) (tile_len ∙ sym len) found in
              let f : true ≡ false =
                sym (
                  subst (λ x. same_bytes (first_bytes n buf) x ≡ true) (sym eq)
                    (same_bytes_refl (first_bytes n buf)))
                ∙ differ in
              cc
        ]
      ]

  IsTiled-verify :
      (gens buf : List ℕ) (offset : ℕ)
      → IsTiled gens buf offset
      → post_read_journal_verify_buf bs seed gens buf offset ≡ none
  unfolding post_read_journal_verify_buf
  IsTiled-verify [] buf offset h = refl
  IsTiled-verify (g ∷ gens) buf offset (this, others) =
      let n = min (length buf) bs in
      elim (Bool-cases (g == 0)) [
        | inl z ↦ rw z (IsTiled-verify gens (bytes_from n buf) (offset + n) others)
        | inr nz ↦ rw nz (elim this [
          | inl z ↦ let t = (==_iff g 0).1 z in cc
          | inr e ↦
              let same =
                subst (λ x. same_bytes (first_bytes n buf) x ≡ true) e
                  (same_bytes_refl (first_bytes n buf)) in
              rw same (IsTiled-verify gens (bytes_from n buf) (offset + n) others)
        ])
      ]

  length-fill :
      (gens : List ℕ) (left offset : ℕ)
      → length (pre_write_journal_fill_buf bs seed gens left offset) ≤ left
  unfolding pre_write_journal_fill_buf
  length-fill [] left offset = omega arith
  length-fill (g ∷ gens) left offset =
      let n = min left bs in
      let tile_len = length-journal_fill_tile_block n offset seed g in
      let rest = length-fill gens (left - n) (offset + n) in
      omega (
        arith,
        tile_len,
        rest,
        length-append (journal_fill_tile_block n offset seed g)
            (pre_write_journal_fill_buf bs seed gens (left - n) (offset + n)),
      )

  fill-IsTiled :
      (gens : List ℕ) (left offset : ℕ)
      → IsTiled gens (pre_write_journal_fill_buf bs seed gens left offset) offset
  unfolding pre_write_journal_fill_buf
  fill-IsTiled [] left offset = tt
  fill-IsTiled (g ∷ gens) left offset =
      let n = min left bs in
      let tile = journal_fill_tile_block n offset seed g in
      let rest = pre_write_journal_fill_buf bs seed gens (left - n) (offset + n) in
      let tile_len = length-journal_fill_tile_block n offset seed g in
      let rest_len = length-fill gens (left - n) (offset + n) in
      let size : min (length (tile ++ rest)) bs ≡ n =
        omega (arith, length-append tile rest, tile_len, rest_len) in
      subst
        (λ k.
          ((g ≡ 0) ⊎ (first_bytes k (tile ++ rest) ≡ journal_fill_tile_block k offset seed g))
          × IsTiled gens (bytes_from k (tile ++ rest)) (offset + k))
        (sym size)
        (
          inr (first_bytes-append n tile rest tile_len),
          subst (λ b. IsTiled gens b (offset + n)) (sym (bytes_from-append n tile rest tile_len))
              (fill-IsTiled gens (left - n) (offset + n)),
        )

-- What an I/O fills into its buffer for a write passes the verification of a read with the same
-- generations, whatever the length of the buffer.
pub post_read_journal_verify_buf-pre_write_journal_fill_buf :
    (bs seed len offset : ℕ) (gens : List ℕ)
    → post_read_journal_verify_buf bs seed gens
        (pre_write_journal_fill_buf bs seed gens len offset)
        offset
      ≡ none
post_read_journal_verify_buf-pre_write_journal_fill_buf bs seed len offset gens =
    IsTiled-verify bs seed gens (pre_write_journal_fill_buf bs seed gens len offset) offset
      (fill-IsTiled bs seed gens len offset)

-- Blocks with the same content of at least a word are filled with the same word.
pub tiles_agree :
    (n offset offset' seed g h : ℕ)
    → 8 ≤ n
    → journal_fill_tile_block n offset seed g ≡ journal_fill_tile_block n offset' seed h
    → compute_expected_tile_value offset seed g ≡ compute_expected_tile_value offset' seed h
unfolding journal_fill_tile_block
tiles_agree n offset offset' seed g h word e =
    let v = compute_expected_tile_value offset seed g in
    let w = compute_expected_tile_value offset' seed h in
    byte_of_injective v w (compute_expected_tile_value-lt offset seed g)
      (compute_expected_tile_value-lt offset' seed h)
      (λ i lt.
        let a = get_or-tabulate (λ k. byte_of v (k % 8)) 0 n i 0 (omega arith) in
        let b = get_or-tabulate (λ k. byte_of w (k % 8)) 0 n i 0 (omega arith) in
        let m : (0 + i) % 8 ≡ i = omega arith in
        ap (byte_of v) (sym m) ∙ (sym a ∙ (ap (λ xs. get_or xs i 0) e ∙ (b ∙ ap (byte_of w) m))))

bytes_from-inside :
    (n : ℕ) (xs ys : List ℕ) → n ≤ length xs → bytes_from n (xs ++ ys) ≡ bytes_from n xs ++ ys
unfolding bytes_from
bytes_from-inside zero xs ys h = refl
bytes_from-inside (suc n) [] ys h = absurd (omega arith)
bytes_from-inside (suc n) (x ∷ xs) ys h = bytes_from-inside n xs ys (omega arith)

length-bytes_from : (n : ℕ) (xs : List ℕ) → length (bytes_from n xs) ≡ length xs - n
unfolding bytes_from
length-bytes_from zero xs = omega arith
length-bytes_from (suc n) [] = omega arith
length-bytes_from (suc n) (x ∷ xs) = length-bytes_from n xs ∙ omega arith

IsTiled-rest :
    (bs seed : ℕ) (before after buf rest : List ℕ) (offset : ℕ)
    → length buf ≡ length before * bs
    → IsTiled bs seed (before ++ after) (buf ++ rest) offset
    → IsTiled bs seed after rest (offset + length before * bs)
IsTiled-rest bs seed [] after [] rest offset e h =
    subst (IsTiled bs seed after rest) (omega arith) h
IsTiled-rest bs seed [] after (x ∷ buf) rest offset e h = absurd (omega (arith, e))
IsTiled-rest bs seed (b ∷ before) after buf rest offset e h =
    let size : length buf ≡ bs + length before * bs = omega (arith, e) in
    let n : min (length (buf ++ rest)) bs ≡ bs = omega (arith, length-append buf rest, size) in
    let tail : bytes_from bs (buf ++ rest) ≡ bytes_from bs buf ++ rest =
      bytes_from-inside bs buf rest (omega (arith, size)) in
    let others : IsTiled bs seed (before ++ after) (bytes_from bs buf ++ rest) (offset + bs) =
      subst (λ x. IsTiled bs seed (before ++ after) x (offset + bs)) tail
        (subst (λ k. IsTiled bs seed (before ++ after) (bytes_from k (buf ++ rest)) (offset + k)) n
          h.1) in
    let place : offset + bs + length before * bs ≡ offset + length (b ∷ before) * bs =
      omega arith in
    subst (IsTiled bs seed after rest) place (
      IsTiled-rest bs seed before after (bytes_from bs buf) rest (offset + bs)
        (length-bytes_from bs buf ∙ omega (arith, size)) others)

-- A whole block with a generation that passes the verification is filled as the journal expects.
pub passed_block :
    (bs seed g offset : ℕ) (before after buf tile rest : List ℕ)
    → 0 < g
    → length tile ≡ bs
    → length buf ≡ length before * bs
    → post_read_journal_verify_buf bs seed (before ++ (g ∷ after)) (buf ++ (tile ++ rest)) offset
      ≡ none
    → tile ≡ journal_fill_tile_block bs (offset + length before * bs) seed g
passed_block bs seed g offset before after buf tile rest some_gen tile_len size passes =
    let at = offset + length before * bs in
    let tiled =
      IsTiled-rest bs seed before (g ∷ after) buf (tile ++ rest) offset size
        (verify-IsTiled bs seed (before ++ (g ∷ after)) (buf ++ (tile ++ rest)) offset passes) in
    let n : min (length (tile ++ rest)) bs ≡ bs =
      omega (arith, length-append tile rest, tile_len) in
    elim (tiled.0) [
      | inl z ↦ absurd (omega arith)
      | inr e ↦
          sym (first_bytes-append bs tile rest tile_len)
          ∙ subst (λ k. first_bytes k (tile ++ rest) ≡ journal_fill_tile_block k at seed g) n e
    ]

-- A read finds every stale block: where a block of the buffer holds what the journal expects of
-- another generation of it, as after a lost write, the verification reports a mismatch, whatever the
-- blocks around it hold. The block has a generation, and no fewer bytes than a word.
pub post_read_journal_verify_buf-stale :
    (bs seed g stale offset : ℕ) (before after buf rest : List ℕ)
    → 8 ≤ bs
    → 0 < g
    → g < 4
    → stale < 4
    → g ≢ stale
    → length buf ≡ length before * bs
    → offset + length before * bs < 2 ^ 64
    → post_read_journal_verify_buf bs seed
        (before ++ (g ∷ after))
        (buf ++ (journal_fill_tile_block bs (offset + length before * bs) seed stale ++ rest))
        offset
      ≢ none
post_read_journal_verify_buf-stale bs seed g stale offset before after buf rest word some_gen small
      stale_small differ size place passes =
    let at = offset + length before * bs in
    let tile = journal_fill_tile_block bs at seed stale in
    let tile_len = length-journal_fill_tile_block bs at seed stale in
    let e =
      passed_block bs seed g offset before after buf tile rest some_gen tile_len size passes in
    differ (
      tile_generation at seed g stale place small stale_small
        (tiles_agree bs at at seed g stale word (sym e)))
