-- ===== src/PathStore/Sublist.antt =====
-- What each worker gets of the files of a shared store.
use native.Mathlib.Nat.{mul-le-mul_right}
use native.Mathlib.Omega.{div_any}
use elbencho.Prelude.{
  ℕ, suc, ◌+◌, ◌-◌, ◌*◌, ◌/◌, ◌^◌, ◌≤◌, ◌<◌, ◌≡◌, ◌∙◌, ap, sym, subst, refl, arith, Bool, true,
  false, List, [], ◌∷◌, ◌++◌, ltb, ltb→lt, ltb→le, ◌==◌, ==_iff, max, Bool-cases, inl, inr, add64,
  add64-eq, ok, throws, ◌>>=◌, >>=-eq-ok, ok-injective, Error, All, leb, sub64,
}
use elbencho.PathStore.{
  PathStoreElem, PathStore, assign_ranges, is_empty, get_worker_sublist_shared, worker_num_blocks,
  worker_start_block, add_blocks, num_file_blocks,
}
use elbencho.PathStore.Share.{start_of, worker_start_block-Partition}
use elbencho.PathStore.Ranges.{cut, cut_none, AreSmall, append_nil, assign_ranges-cut}

-- The blocks of a worker lie within the total.
pub worker_end-le :
    (r n total : ℕ)
    → r < n
    → n < 2 ^ 32
    → total < 2 ^ 64
    → worker_start_block r n total + worker_num_blocks r n total ≤ total
worker_end-le r n total lt small word =
    let (_, next, last, _) = worker_start_block-Partition n total (omega arith) small word in
    elim (Bool-cases (ltb (suc r) n)) [
      | inl inner ↦
          let h = ltb→lt (suc r) n inner in
          let e = next r h in
          let s = start_of n total (omega arith) small word (suc r) lt in
          let le : suc r * (total / n) ≤ n * (total / n) = mul-le-mul_right (total / n) lt in
          omega (arith, e, s, le, div_any total n)
      | inr outer ↦
          let h = ltb→le (suc r) n outer in
          let e : r ≡ n - 1 = omega arith in
          subst (λ x. worker_start_block x n total + worker_num_blocks x n total ≤ total) (sym e)
            (omega (arith, last))
    ]

empty_list : {A : Type 0} (xs : List A) → is_empty xs ≡ true → xs ≡ []
unfolding is_empty
empty_list [] h = refl
empty_list (x ∷ xs) h = cc

sublist-cut :
    (r n : ℕ) (throw : Bool) (s out out' : PathStore)
    → get_worker_sublist_shared r n throw s out ≡ ok out'
    → r < n
    → n < 2 ^ 32
    → s.num_blocks_total < 2 ^ 62
    → AreSmall s.block_size 0 s.paths
    → out'.paths
      ≡ out.paths
        ++ cut s.block_size
            (worker_start_block r n s.num_blocks_total)
            (worker_start_block r n s.num_blocks_total + worker_num_blocks r n s.num_blocks_total)
            0
            s.paths
unfolding get_worker_sublist_shared add_blocks
sublist-cut r n throw s out out' h lt small word sizes =
    let start = worker_start_block r n s.num_blocks_total in
    let num = worker_num_blocks r n s.num_blocks_total in
    let end_le = worker_end-le r n s.num_blocks_total lt small (omega arith) in
    let threads : (n == 0) ≡ false = ground arith in
    elim (Bool-cases (is_empty s.paths)) [
      | inl empty ↦
          let same : ok out ≡ ok out' = rw empty at h in
          rw (empty_list s.paths empty)
            (sym (ap (λ (x : PathStore). x.paths) (ok-injective same)) ∙ append_nil out.paths)
      | inr full ↦ elim (Bool-cases (num == 0)) [
        | inl idle ↦
            let same : ok out ≡ ok out' = rw (full, threads, idle) at h in
            let none : num ≡ 0 = (==_iff num 0).0 idle in
            rw (cut_none s.block_size start (start + num) 0 s.paths (omega arith))
              (sym (ap (λ (x : PathStore). x.paths) (ok-injective same)) ∙ append_nil out.paths)
        | inr busy ↦ elim (Bool-cases (s.block_size == 0)) [
          | inl zero_size ↦
              let f : throws Error.division_by_zero ≡ ok out' =
                rw (full, threads, busy, zero_size) at h in
              cc
          | inr block ↦
              let pos : 0 < s.block_size = ground arith in
              let some_left : 0 < num = ground arith in
              let a : add64 start num ≡ start + num = add64-eq start num (omega arith) in
              let left : num ≡ start + num - max start 0 = omega arith in
              let h' : (assign_ranges s.block_size start (start + num) throw 0 num s.paths out
                    >>= λ x. ok (add_blocks num x))
                  ≡ ok out' =
                rw (full, threads, busy, block, a) at h in
              let (mid, run, done) =
                >>=-eq-ok (assign_ranges s.block_size start (start + num) throw 0 num s.paths out) _
                  h' in
              let ranges =
                assign_ranges-cut s.block_size start (start + num) throw pos (omega arith)
                  (omega arith) 0 s.paths out mid sizes
                  (subst
                    (λ x.
                      assign_ranges s.block_size start (start + num) throw 0 x s.paths out ≡ ok mid)
                    left run) in
              sym (ap (λ (x : PathStore). x.paths) (ok-injective done)) ∙ ranges
        ]
      ]
    ]

assign_ranges-ok :
    (bs start end current left : ℕ) (es : List PathStoreElem) (out : PathStore)
    → All (λ (e : PathStoreElem). 0 < e.total_len) es
    → (out' : PathStore) × (assign_ranges bs start end false current left es out ≡ ok out')
unfolding assign_ranges
assign_ranges-ok bs start end current left [] out all = (out, refl)
assign_ranges-ok bs start end current left (e ∷ es) out all = elim (Bool-cases (leb end current)) [
  | inl over ↦ (out, rw over refl)
  | inr more ↦
      let filled = all.0 in
      let full : (e.total_len == 0) ≡ false = ground arith in
      let blocks = num_file_blocks e.total_len bs in
      elim (Bool-cases (ltb (sub64 (add64 current blocks) 1) start)) [
        | inl before ↦
            rw (more, full, before)
              (assign_ranges-ok bs start end (add64 current blocks) left es out all.1)
        | inr meets ↦
            rw (more, full, meets)
              (assign_ranges-ok bs start end (add64 current blocks) _ es _ all.1)
      ]
]

sublist-ok :
    (r n : ℕ) (s out : PathStore)
    → 0 < n
    → 0 < s.block_size
    → All (λ (e : PathStoreElem). 0 < e.total_len) s.paths
    → (out' : PathStore) × (get_worker_sublist_shared r n false s out ≡ ok out')
unfolding get_worker_sublist_shared
sublist-ok r n s out threads block all =
    let start = worker_start_block r n s.num_blocks_total in
    let num = worker_num_blocks r n s.num_blocks_total in
    let some_thread : (n == 0) ≡ false = ground arith in
    let some_size : (s.block_size == 0) ≡ false = ground arith in
    elim (Bool-cases (is_empty s.paths)) [
      | inl empty ↦ (out, rw empty refl)
      | inr full ↦ elim (Bool-cases (num == 0)) [
        | inl idle ↦ (out, rw (full, some_thread, idle) refl)
        | inr busy ↦
            let (mid, run) =
              assign_ranges-ok s.block_size start (add64 start num) 0 num s.paths out all in
            (add_blocks num mid, rw (full, some_thread, busy, some_size, run) refl)
      ]
    ]

-- The sublist of a worker is the worker's blocks cut out of the files of the store, laid one after
-- another: of each file that reaches into the blocks it holds the bytes in them, and of no other file
-- anything. The call succeeds. The store's files are not empty and follow one another from block 0,
-- the worker is one of the threads, sizes and the number of blocks are below 2^62, and slices that
-- are smaller than a block are allowed.
pub get_worker_sublist_shared-cut :
    (r n : ℕ) (s out : PathStore)
    → r < n
    → n < 2 ^ 32
    → 0 < s.block_size
    → s.num_blocks_total < 2 ^ 62
    → AreSmall s.block_size 0 s.paths
    → All (λ (e : PathStoreElem). 0 < e.total_len) s.paths
    → (out' : PathStore) × (get_worker_sublist_shared r n false s out ≡ ok out')
      × (out'.paths
          ≡ out.paths
            ++ cut s.block_size
                (worker_start_block r n s.num_blocks_total)
                (worker_start_block r n s.num_blocks_total
                  + worker_num_blocks r n s.num_blocks_total)
                0
                s.paths)
get_worker_sublist_shared-cut r n s out lt small block word sizes all =
    let (out', run) = sublist-ok r n s out (omega arith) block all in
    (out', run, sublist-cut r n false s out out' run lt small word sizes)
