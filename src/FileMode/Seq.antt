-- ===== src/FileMode/Seq.antt =====
-- The passes of `fileModeIterateFilesSeq` of source/workers/LocalWorker.cpp, one after the other.
use native.Mathlib.Nat.{mul-le-mul_right}
use elbencho.Prelude.{
  ℕ, zero, suc, ◌+◌, ◌-◌, ◌*◌, ◌/◌, ◌%◌, ◌^◌, ◌≤◌, ◌<◌, ◌≡◌, ◌∙◌, refl, ap, sym, subst, arith, true,
  Bool-cases, inl, inr, ltb, ltb→lt, ltb→le, lt→ltb, le→ltb, ◌==◌, ==_iff, min, add64, add64-eq,
  sub64, sub64-eq, mul64, mul64-eq, Result, ok, Option,
}
use elbencho.PathStore.{num_file_blocks}
use elbencho.FileMode.{Piece, piece_at, pass_ending, prepend, stop, iterate}
use elbencho.FileMode.Pass.{IsFull, Pass, TilesFiles, byte_position, one_round}

module _ (rw_file : ℕ → ℕ → ℕ → Result (Option ℕ)) (full : IsFull rw_file) (fs bs : ℕ)
    (pos : 0 < bs) (size : 0 < fs) (fs_word : fs < 2 ^ 62) where
  piece_at-eq :
      (current end len : ℕ)
      → current ≤ end
      → end * bs < 2 ^ 62
      → end < 2 ^ 62
      → min ((end - current) * bs) (fs - current % num_file_blocks fs bs * bs) ≡ len
      → current % num_file_blocks fs bs * bs + len ≤ fs
      → piece_at rw_file fs bs current end ≡ record {
        file_index = current / num_file_blocks fs bs;
        io_start = current % num_file_blocks fs bs * bs;
        io_len = len;
      }
  unfolding piece_at
  piece_at-eq current end len le word end_word e fits =
      let b = current % num_file_blocks fs bs in
      let a : sub64 end current ≡ end - current = sub64-eq end current le (omega arith) in
      let most : (end - current) * bs ≤ end * bs = mul-le-mul_right bs (omega arith) in
      let c : mul64 (end - current) bs ≡ (end - current) * bs =
        mul64-eq (end - current) bs (omega (arith, most)) in
      let d : mul64 b bs ≡ b * bs = mul64-eq b bs (omega arith) in
      let g : sub64 fs (b * bs) ≡ fs - b * bs = sub64-eq fs (b * bs) (omega arith) (omega arith) in
      rw (a, c, d, g, e) refl

  iterate_done :
      (fuel current end : ℕ) → end ≤ current → iterate rw_file fs bs fuel current end ≡ stop (ok tt)
  unfolding iterate
  iterate_done zero current end le = rw (le→ltb current end le) refl
  iterate_done (suc fuel) current end le = rw (le→ltb current end le) refl

  -- One pass of the loop, and the loop from the block after it.
  iterate_step :
      (fuel current end len done : ℕ)
      → current < end
      → end * bs < 2 ^ 62
      → end < 2 ^ 62
      → Pass fs bs current (end - current) len done
      → iterate rw_file fs bs (suc fuel) current end
        ≡ prepend
            record {
              file_index = current / num_file_blocks fs bs;
              io_start = current % num_file_blocks fs bs * bs;
              io_len = len;
            }
            (iterate rw_file fs bs fuel (current + done) end)
  unfolding iterate pass_ending
  iterate_step fuel current end len done lt word end_word pass =
      let goes = lt→ltb current end lt in
      let piece =
        piece_at-eq current end len (omega arith) word end_word pass.length_of pass.in_file in
      let no_more = pass.no_more in
      let next : add64 current done ≡ current + done = add64-eq current done (omega arith) in
      let ran =
        full (current / num_file_blocks fs bs) (current % num_file_blocks fs bs * bs) len
          pass.some_bytes in
      let all : (len == len) ≡ true = (==_iff len len).1 refl in
      let blocks = pass.blocks_of in
      let fin : pass_ending rw_file fs bs
            (rw_file (current / num_file_blocks fs bs) (current % num_file_blocks fs bs * bs) len)
            len
          ≡ ok tt =
        rw (ran, all) refl in
      let fin_at =
        subst
          (λ (x : Piece).
            pass_ending rw_file fs bs (rw_file x.file_index x.io_start x.io_len) x.io_len ≡ ok tt)
          (sym piece) fin in
      let goes_on : iterate rw_file fs bs (suc fuel) current end
          ≡ prepend (piece_at rw_file fs bs current end) (
              iterate rw_file fs bs fuel
                (add64 current (num_file_blocks (piece_at rw_file fs bs current end).io_len bs))
                end) =
        rw (goes, fin_at) refl in
      goes_on
      ∙ ap
          (λ (x : Piece).
            prepend x
              (iterate rw_file fs bs fuel (add64 current (num_file_blocks x.io_len bs)) end))
          piece
      ∙ ap
          (λ c.
            prepend
              record {
                file_index = current / num_file_blocks fs bs;
                io_start = current % num_file_blocks fs bs * bs;
                io_len = len;
              }
              (iterate rw_file fs bs fuel c end))
          (ap (λ d. add64 current d) blocks ∙ next)

  pub iterate-TilesFiles :
      (fuel current end : ℕ)
      → current ≤ end
      → end ≤ current + fuel
      → end * bs < 2 ^ 62
      → end < 2 ^ 62
      → TilesFiles fs
          (byte_position fs bs current)
          (byte_position fs bs end)
          (iterate rw_file fs bs fuel current end).pieces
        × ((iterate rw_file fs bs fuel current end).ending ≡ ok tt)
  iterate-TilesFiles zero current end le enough word end_word =
      let e : current ≡ end = omega arith in
      subst
        (λ t.
          TilesFiles fs (byte_position fs bs current) (byte_position fs bs end) t.pieces
          × (t.ending ≡ ok tt))
        (sym (iterate_done zero current end (omega arith))) (ap (byte_position fs bs) e, refl)
  iterate-TilesFiles (suc fuel) current end le enough word end_word =
      elim (Bool-cases (ltb current end)) [
        | inr stops ↦
            let ge = ltb→le current end stops in
            let e : current ≡ end = omega arith in
            subst
              (λ t.
                TilesFiles fs (byte_position fs bs current) (byte_position fs bs end) t.pieces
                × (t.ending ≡ ok tt))
              (sym (iterate_done (suc fuel) current end ge)) (ap (byte_position fs bs) e, refl)
        | inl goes ↦
            let lt = ltb→lt current end goes in
            let (len, done, pass) =
              one_round fs bs current (end - current) pos size (omega arith) in
            let no_more = pass.no_more in
            let progress = pass.progress in
            let (tiles, ended) =
              iterate-TilesFiles fuel (current + done) end (omega arith) (omega arith) word
                end_word in
            subst
              (λ t.
                TilesFiles fs (byte_position fs bs current) (byte_position fs bs end) t.pieces
                × (t.ending ≡ ok tt))
              (sym (iterate_step fuel current end len done lt word end_word pass))
              (
                (
                  refl,
                  pass.some_bytes,
                  pass.in_file,
                  subst
                      (λ x.
                        TilesFiles fs x (byte_position fs bs end)
                          (iterate rw_file fs bs fuel (current + done) end).pieces)
                      pass.moves tiles,
                ),
                ended,
              )
      ]
