-- ===== src/PathStore/Load.antt =====
-- The files that `loadFilesFromFile` adds to a store.
use native.Mathlib.Nat.{mod-lt, mul-mod_right}
use native.Mathlib.Omega.{div_any}
use elbencho.Prelude.{
  ℕ, zero, suc, ◌+◌, ◌-◌, ◌*◌, ◌/◌, ◌%◌, ◌^◌, ◌≤◌, ◌<◌, ◌≡◌, ◌∙◌, sym, subst, refl, ap, arith, List,
  [], ◌∷◌, ◌++◌, ltb, ◌==◌, Bool-cases, inl, inr, length, length-append, ok, throws, Error, add64,
  add64-eq, sub64, sub64-eq, ok-injective,
}
use elbencho.Units.{Text}
use elbencho.PathStore.{
  PathStoreElem, PathStore, push, num_file_blocks, round_up, load_file, loaded, is_empty,
}

-- The blocks and the bytes of the ranges of a list, modulo 2^64.
abbrev pub blocks_of : ℕ → List PathStoreElem → ℕ
blocks_of bs [] = 0
blocks_of bs (e ∷ es) = (num_file_blocks e.total_len bs + blocks_of bs es) % 2 ^ 64

abbrev pub bytes_of : List PathStoreElem → ℕ
bytes_of [] = 0
bytes_of (e ∷ es) = (e.range_len + bytes_of es) % 2 ^ 64

abbrev pub IsWholeFile : PathStoreElem → Type 0
IsWholeFile e = (e.range_start ≡ 0) × (e.range_len ≡ e.total_len)

-- The counters of a store agree with its list.
pub record IsConsistent (s : PathStore) : Type 0 where
  pub blocks : s.num_blocks_total ≡ blocks_of s.block_size s.paths
  pub bytes : s.num_bytes_total ≡ bytes_of s.paths
  pub paths : s.num_paths ≡ length s.paths % 2 ^ 64

blocks_of-append :
    (bs : ℕ) (es : List PathStoreElem) (e : PathStoreElem)
    → blocks_of bs (es ++ e ∷ []) ≡ add64 (blocks_of bs es) (num_file_blocks e.total_len bs)
unfolding add64
blocks_of-append bs [] e = omega arith
blocks_of-append bs (e' ∷ es) e = let ih = blocks_of-append bs es e in omega (arith, ih)

bytes_of-append :
    (es : List PathStoreElem) (e : PathStoreElem)
    → bytes_of (es ++ e ∷ []) ≡ add64 (bytes_of es) e.range_len
unfolding add64
bytes_of-append [] e = omega arith
bytes_of-append (e' ∷ es) e = let ih = bytes_of-append es e in omega (arith, ih)

push-IsConsistent :
    (e : PathStoreElem) (s : PathStore)
    → IsConsistent s
    → IsConsistent (push e (num_file_blocks e.total_len s.block_size) e.range_len s)
unfolding push add64
push-IsConsistent e s c = record {
  blocks =
      ap (λ n. (n + num_file_blocks e.total_len s.block_size) % 2 ^ 64) c.blocks
      ∙ sym (blocks_of-append s.block_size s.paths e);
  bytes = ap (λ n. (n + e.range_len) % 2 ^ 64) c.bytes ∙ sym (bytes_of-append s.paths e);
  paths = omega (arith, c.paths, length-append s.paths (e ∷ []));
}

-- A line of a tree file keeps the counters of the store in agreement with its list, whether its
-- file is added or skipped for its size.
pub load_file-IsConsistent :
    (least most round size : ℕ) (path : Text) (s s' : PathStore)
    → load_file least most round size path s ≡ ok s'
    → IsConsistent s
    → IsConsistent s'
unfolding load_file loaded
load_file-IsConsistent least most round size path s s' r c =
    elim (Bool-cases (ltb (round_up round size) least)) [
      | inl small ↦ skipped (rw small refl)
      | inr large ↦ elim (Bool-cases (ltb most (round_up round size))) [
        | inl huge ↦ skipped (rw (large, huge) refl)
        | inr fits ↦ elim (Bool-cases (s.block_size == 0)) [
          | inl no_size ↦ refused Error.division_by_zero (rw (large, fits, no_size) refl)
          | inr sized ↦ elim (Bool-cases (is_empty path)) [
            | inl no_path ↦ refused Error.prog_exception (rw (large, fits, sized, no_path) refl)
            | inr named ↦
                let e : load_file least most round size path s ≡ ok added =
                  rw (large, fits, sized, named) refl in
                subst IsConsistent (ok-injective (sym e ∙ r))
                  (push-IsConsistent (loaded path (round_up round size)) s c)
          ]
        ]
      ]
    ]
  where
    added : PathStore
    added =
        push (loaded path (round_up round size))
          (num_file_blocks (round_up round size) s.block_size) (round_up round size) s

    skipped : load_file least most round size path s ≡ ok s → IsConsistent s'
    skipped e = subst IsConsistent (ok-injective (sym e ∙ r)) c

    refused : (x : Error) → load_file least most round size path s ≡ throws x → IsConsistent s'
    refused x e = cc

-- Rounding up a size gives the least multiple of the step that is no smaller, where that is a word.
pub round_up_lem :
    (step size : ℕ)
    → 0 < step
    → size + step < 2 ^ 64
    → (round_up step size % step ≡ 0)
      × (size ≤ round_up step size)
      × (round_up step size < size + step)
unfolding round_up
round_up_lem zero size h w = elim h [ ]
round_up_lem (suc n) size h w = elim (Bool-cases (size % suc n == 0)) [
  | inl even ↦ rw even (ground arith, omega arith, omega arith)
  | inr odd ↦
      let m = mod-lt size h in
      let d : suc n * (size / suc n) + size % suc n ≡ size = div_any size (suc n) in
      let a : sub64 size (size % suc n) ≡ size - size % suc n =
        sub64-eq size (size % suc n) (omega arith) (omega arith) in
      let b : add64 (size - size % suc n) (suc n) ≡ size - size % suc n + suc n =
        add64-eq (size - size % suc n) (suc n) (omega arith) in
      let e : size - size % suc n + suc n ≡ suc n * suc (size / suc n) = omega (arith, d) in
      rw (odd, a, b)
        (
          subst (λ x. x % suc n ≡ 0) (sym e) (mul-mod_right (suc n) (suc (size / suc n))),
          omega (arith, m),
          ground (arith, m),
        )
]
