-- ===== src/OffsetGen/Loop.antt =====
-- The rounds of the loop of `LocalWorker::rwBlockSized` (source/workers/LocalWorker.cpp).
use elbencho.Prelude.{
  ℕ, zero, suc, ◌≤◌, ◌<◌, ◌≡◌, refl, ok, Option, some, arith, ◌+◌, All, inl, inr, zero_or_pos, ◌∙◌,
  ap,
}
use elbencho.OffsetGen.{
  OffsetGenerator, Trace, prepend, finish, rw_block_sized, sum_bytes, MakesProgress,
}

module _ {S : Type 0} (gen : OffsetGenerator S) (io : ℕ → ℕ → Option ℕ) where
  open gen use {
    get_next_offset, get_next_block_size_to_submit, get_num_bytes_total,
    get_num_bytes_left_to_submit, add_bytes_submitted,
  }

  pub rw_block_sized-done :
      (fuel : ℕ) (s : S)
      → get_num_bytes_left_to_submit s ≡ 0
      → rw_block_sized gen io fuel s ≡ finish (ok (some (get_num_bytes_total s)))
  unfolding rw_block_sized
  rw_block_sized-done zero s h = rw h
  rw_block_sized-done (suc fuel) s h = rw h

  pub rw_block_sized-round :
      (fuel : ℕ) (s s1 s2 : S) (offset size n : ℕ)
      → 0 < get_num_bytes_left_to_submit s
      → get_next_offset s ≡ ok (offset, s1)
      → get_next_block_size_to_submit s1 ≡ ok (size, s2)
      → io offset size ≡ some n
      → 0 < n
      → rw_block_sized gen io (suc fuel) s
        ≡ prepend (offset, n) (rw_block_sized gen io fuel (add_bytes_submitted n s2))
  unfolding rw_block_sized
  rw_block_sized-round fuel s s1 s2 offset size zero left a b c h = elim h [ ]
  rw_block_sized-round fuel s s1 s2 offset size (suc n) left a b c h = ground arith

-- The rule for a generator whose rounds keep an invariant and take off as many bytes as are done.
module _ {S : Type 0} (gen : OffsetGenerator S) (io : ℕ → ℕ → Option ℕ)
    (progress : MakesProgress io) (Inv : S → Type 0) (P : ℕ × ℕ → Type 0) where
  open gen use {
    get_next_offset, get_next_block_size_to_submit, get_num_bytes_total,
    get_num_bytes_left_to_submit, add_bytes_submitted,
  }

  -- What holds behind a transfer of `k` bytes.
  pub record After (s s2 : S) (offset k : ℕ) : Type 0 where
    pub did : P (offset, k)
    pub kept : Inv (add_bytes_submitted k s2)
    pub counted :
        get_num_bytes_left_to_submit (add_bytes_submitted k s2) + k ≡ get_num_bytes_left_to_submit s
    pub same_total : get_num_bytes_total (add_bytes_submitted k s2) ≡ get_num_bytes_total s

  pub record Round (s : S) : Type 0 where
    pub offset : ℕ
    pub size : ℕ
    pub s1 : S
    pub s2 : S
    pub offset_eq : get_next_offset s ≡ ok (offset, s1)
    pub size_eq : get_next_block_size_to_submit s1 ≡ ok (size, s2)
    pub size_pos : 0 < size
    pub after : (k : ℕ) → 0 < k → k ≤ size → After s s2 offset k

  abbrev pub Completes : ℕ → ℕ → Trace → Type 0
  Completes left total t = All P t.ios × (sum_bytes t.ios ≡ left) × (t.ending ≡ ok (some total))

  pub rw_block_sized-Completes :
      ((s : S) → Inv s → 0 < get_num_bytes_left_to_submit s → Round s)
      → (fuel : ℕ) (s : S) → Inv s
      → get_num_bytes_left_to_submit s ≤ fuel
      → Completes
          (get_num_bytes_left_to_submit s)
          (get_num_bytes_total s)
          (rw_block_sized gen io fuel s)
  rw_block_sized-Completes round zero s v f =
      rw (rw_block_sized-done gen io zero s (omega arith)) (tt, omega arith, refl)
  rw_block_sized-Completes round (suc fuel) s v f =
      elim (zero_or_pos (get_num_bytes_left_to_submit s)) [
        | inl e ↦ rw (rw_block_sized-done gen io (suc fuel) s e) (tt, omega arith, refl)
        | inr pos ↦
            let r = round s v pos in
            let (k, did, kpos, kle) = progress r.offset r.size r.size_pos in
            let a = r.after k kpos kle in
            let s3 = add_bytes_submitted k r.s2 in
            let (ps, sum, end) =
              rw_block_sized-Completes round fuel s3 a.kept (omega (arith, a.counted)) in
            rw
              (rw_block_sized-round gen io fuel s r.s1 r.s2 r.offset r.size k pos r.offset_eq
                r.size_eq did kpos)
              ((a.did, ps), omega (arith, sum, a.counted), end ∙ ap (λ n. ok (some n)) a.same_total)
      ]
