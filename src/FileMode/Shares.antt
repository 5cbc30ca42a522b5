-- ===== src/FileMode/Shares.antt =====
-- `fileModeIterateFilesSeq` of source/workers/LocalWorker.cpp, run by all workers of a phase.
use native.Mathlib.Nat.{mul-le-mul_right}
use elbencho.Prelude.{
  ℕ, zero, suc, ◌+◌, ◌-◌, ◌*◌, ◌/◌, ◌%◌, ◌^◌, ◌≤◌, ◌<◌, ◌≡◌, ◌∙◌, refl, ap, sym, subst, arith, true,
  false, Bool-cases, inl, inr, List, [], ◌∷◌, ◌++◌, ltb, leb, leb→le, leb→gt, ◌==◌, add64, add64-eq,
  mul64, mul64-eq, Result, ok, Option,
}
use elbencho.PathStore.{num_file_blocks, worker_num_blocks, worker_start_block}
use elbencho.PathStore.Ranges.{num_file_blocks-IsCeil}
use elbencho.PathStore.Share.{worker_start_block-Partition}
use elbencho.PathStore.Sublist.{worker_end-le}
use elbencho.FileMode.{Piece, file_mode_iterate_files_seq}
use elbencho.FileMode.Pass.{byte_position, TilesFiles, IsFull, quotient, remainder}
use elbencho.FileMode.Seq.{iterate-TilesFiles}

TilesFiles-append :
    (fs a b c : ℕ)
    → (ps qs : List Piece) → TilesFiles fs a b ps
    → TilesFiles fs b c qs
    → TilesFiles fs a c (ps ++ qs)
TilesFiles-append fs a b c [] qs h k = subst (λ x. TilesFiles fs x c qs) (sym h) k
TilesFiles-append fs a b c (p ∷ ps) qs (at, some, inside, h) k =
    (at, some, inside, TilesFiles-append fs (a + p.io_len) b c ps qs h k)

module _ (rw_file : ℕ → ℕ → ℕ → Result (Option ℕ)) (fs bs num_files n : ℕ) where
  -- What the workers of the ranks below `k` do, in the order of their ranks.
  abbrev pub all_pieces : ℕ → List Piece
  all_pieces zero = []
  all_pieces (suc k) =
      all_pieces k ++ (file_mode_iterate_files_seq rw_file fs bs num_files n k).1.pieces

  module _ (full : IsFull rw_file) (pos : 0 < bs) (size : 0 < fs) (fs_word : fs < 2 ^ 62)
      (threads : 0 < n) (small : n < 2 ^ 32)
      (blocks_word : num_file_blocks fs bs * num_files < 2 ^ 62)
      (word : num_file_blocks fs bs * num_files * bs < 2 ^ 62) where
    -- A worker's passes cover its blocks, and it says that it got work if there is any.
    worker_tiles :
        (r : ℕ)
        → r < n
        → (let total = num_file_blocks fs bs * num_files in
            let out = file_mode_iterate_files_seq rw_file fs bs num_files n r in
            TilesFiles fs
              (byte_position fs bs (worker_start_block r n total))
              (byte_position fs bs (worker_start_block r n total + worker_num_blocks r n total))
              out.1.pieces
            × (out.1.ending ≡ ok tt)
            × (out.0 ≡ ltb 0 (worker_num_blocks r n total)))
    unfolding file_mode_iterate_files_seq
    worker_tiles r lt =
        let total = num_file_blocks fs bs * num_files in
        let start = worker_start_block r n total in
        let num = worker_num_blocks r n total in
        let end_le = worker_end-le r n total lt small (omega arith) in
        let m : mul64 (num_file_blocks fs bs) num_files ≡ total =
          mul64-eq (num_file_blocks fs bs) num_files (omega arith) in
        let e : add64 start num ≡ start + num = add64-eq start num (omega arith) in
        let bytes : (start + num) * bs ≤ total * bs = mul-le-mul_right bs end_le in
        let b : (bs == 0) ≡ false = ground arith in
        let t : (n == 0) ≡ false = ground arith in
        elim (Bool-cases (leb (start + num) start)) [
          | inl idle ↦
              let le = leb→le (start + num) start idle in
              let none : start ≡ start + num = omega arith in
              let f : ltb 0 num ≡ false = ground arith in
              rw (m, b, t, e, idle, f) (ap (byte_position fs bs) none, refl, refl)
          | inr busy ↦
              let gt = leb→gt (start + num) start busy in
              let f : ltb 0 num ≡ true = ground arith in
              let (tiles, ended) =
                iterate-TilesFiles rw_file full fs bs pos size fs_word num start (start + num)
                  (omega arith) (omega arith) (omega (arith, bytes)) (omega arith) in
              rw (m, b, t, e, busy, f) (tiles, ended, refl)
        ]

    byte_position-first : byte_position fs bs 0 ≡ 0
    byte_position-first =
        let ceil = num_file_blocks-IsCeil fs bs pos size in
        let per = num_file_blocks fs bs in
        let zero_block : 0 ≡ 0 * per + 0 = omega arith in
        let q : 0 / per ≡ 0 = ap (λ x. x / per) zero_block ∙ quotient 0 0 per ceil.some_block in
        let r : 0 % per ≡ 0 = ap (λ x. x % per) zero_block ∙ remainder 0 0 per ceil.some_block in
        rw (q, r) (omega arith)

    byte_position-end : byte_position fs bs (num_file_blocks fs bs * num_files) ≡ num_files * fs
    byte_position-end =
        let per = num_file_blocks fs bs in
        let ceil = num_file_blocks-IsCeil fs bs pos size in
        let swap : per * num_files ≡ num_files * per + 0 = omega arith in
        let q : per * num_files / per ≡ num_files =
          ap (λ x. x / per) swap ∙ quotient num_files 0 per ceil.some_block in
        let r : per * num_files % per ≡ 0 =
          ap (λ x. x % per) swap ∙ remainder num_files 0 per ceil.some_block in
        rw (q, r) (omega arith)

    ranks_tile :
        (k : ℕ)
        → k < n
        → (let total = num_file_blocks fs bs * num_files in
            TilesFiles fs 0
              (byte_position fs bs (worker_start_block k n total + worker_num_blocks k n total))
              (all_pieces (suc k)))
    ranks_tile zero lt =
        let total = num_file_blocks fs bs * num_files in
        let (first, _, _, _) = worker_start_block-Partition n total threads small (omega arith) in
        let (tiles, _, _) = worker_tiles 0 lt in
        let from : byte_position fs bs (worker_start_block 0 n total) ≡ 0 =
          ap (byte_position fs bs) first ∙ byte_position-first in
        subst
          (λ x.
            TilesFiles fs x
              (byte_position fs bs (worker_start_block 0 n total + worker_num_blocks 0 n total))
              (all_pieces 1))
          from tiles
    ranks_tile (suc k) lt =
        let total = num_file_blocks fs bs * num_files in
        let (_, next, _, _) = worker_start_block-Partition n total threads small (omega arith) in
        let (tiles, _, _) = worker_tiles (suc k) lt in
        let end =
          byte_position fs bs
            (worker_start_block (suc k) n total + worker_num_blocks (suc k) n total) in
        let mine = (file_mode_iterate_files_seq rw_file fs bs num_files n (suc k)).1.pieces in
        TilesFiles-append fs 0
          (byte_position fs bs (worker_start_block k n total + worker_num_blocks k n total)) end
          (all_pieces (suc k)) mine (ranks_tile k (omega arith))
          (subst (λ x. TilesFiles fs (byte_position fs bs x) end mine) (sym (next k lt)) tiles)

-- When each transfer of a range is done in full, the passes of all workers, in the order of the
-- ranks, cover the bytes of all files from the first byte of the first file to the last of the last
-- one, each exactly once and each pass inside one file, and every worker ends without an error and
-- says that it got work if its share of blocks is not empty. The files and the blocks are not empty,
-- there is at least one thread, and the sizes are below 2^62.
pub file_mode_iterate_files_seq-TilesFiles :
    (rw_file : ℕ → ℕ → ℕ → Result (Option ℕ))
    → (file_size block_size num_files num_threads : ℕ) → IsFull rw_file
    → 0 < block_size
    → 0 < file_size
    → file_size < 2 ^ 62
    → 0 < num_threads
    → num_threads < 2 ^ 32
    → num_file_blocks file_size block_size * num_files < 2 ^ 62
    → num_file_blocks file_size block_size * num_files * block_size < 2 ^ 62
    → TilesFiles file_size 0
        (num_files * file_size)
        (all_pieces rw_file file_size block_size num_files num_threads num_threads)
      × ((r : ℕ)
          → r < num_threads
          → (let out =
                file_mode_iterate_files_seq rw_file file_size block_size num_files num_threads r in
              (out.1.ending ≡ ok tt)
              × (out.0
                  ≡ ltb 0 (
                      worker_num_blocks r num_threads
                        (num_file_blocks file_size block_size * num_files)))))
file_mode_iterate_files_seq-TilesFiles rw_file fs bs num_files n full pos size fs_word threads small
      blocks_word word =
    let total = num_file_blocks fs bs * num_files in
    let (_, _, last, _) = worker_start_block-Partition n total threads small (omega arith) in
    let tiles =
      ranks_tile rw_file fs bs num_files n full pos size fs_word threads small blocks_word word
        (n - 1) (omega arith) in
    let to : byte_position fs bs
          (worker_start_block (n - 1) n total + worker_num_blocks (n - 1) n total)
        ≡ num_files * fs =
      ap (byte_position fs bs) last
      ∙ byte_position-end rw_file fs bs num_files n full pos size fs_word threads small blocks_word
          word in
    let count : suc (n - 1) ≡ n = omega arith in
    (
      subst (λ x. TilesFiles fs 0 (num_files * fs) (all_pieces rw_file fs bs num_files n x)) count
          (subst (λ x. TilesFiles fs 0 x (all_pieces rw_file fs bs num_files n (suc (n - 1)))) to
            tiles),
      λ r lt.
          let (_, ended, got) =
            worker_tiles rw_file fs bs num_files n full pos size fs_word threads small blocks_word
              word r lt in
          (ended, got),
    )
