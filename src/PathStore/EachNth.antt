-- ===== src/PathStore/EachNth.antt =====
-- The files of each worker of `getWorkerSublistNonShared`.
use elbencho.Prelude.{
  ℕ, zero, suc, ◌+◌, ◌-◌, ◌*◌, ◌≤◌, ◌<◌, ◌≡◌, ◌∙◌, sym, subst, refl, ap, arith, false, List, [],
  ◌∷◌, ◌++◌, leb, ◌==◌, if◌then◌else◌, Bool-cases, inl, inr, length, get_or, ok,
}
use elbencho.PathStore.{
  PathStoreElem, PathStore, push, take_each, get_worker_sublist_non_shared, num_file_blocks,
}

-- Every `n`-th element, after the first `skip` ones.
abbrev each_nth : ℕ → ℕ → List PathStoreElem → List PathStoreElem
each_nth n skip [] = []
each_nth n zero (e ∷ es) = e ∷ each_nth n (n - 1) es
each_nth n (suc skip) (e ∷ es) = each_nth n skip es

append_assoc :
    (xs ys : List PathStoreElem) (x : PathStoreElem) → (xs ++ x ∷ []) ++ ys ≡ xs ++ x ∷ ys
append_assoc [] ys x = refl
append_assoc (x' ∷ xs) ys x = ap (λ l. x' ∷ l) (append_assoc xs ys x)

append_nil : (xs : List PathStoreElem) → xs ≡ xs ++ []
append_nil [] = refl
append_nil (x ∷ xs) = ap (λ l. x ∷ l) (append_nil xs)

take_each-each_nth :
    (n bs skip : ℕ) (es : List PathStoreElem) (out : PathStore)
    → (out' : PathStore) × (take_each n bs false skip es out ≡ ok out')
      × (out'.paths ≡ out.paths ++ each_nth n skip es)
unfolding take_each push
take_each-each_nth n bs skip [] out = (out, refl, append_nil out.paths)
take_each-each_nth n bs (suc skip) (e ∷ es) out = take_each-each_nth n bs skip es out
take_each-each_nth n bs zero (e ∷ es) out =
    let (out', p, q) =
      take_each-each_nth n bs (n - 1) es
        (push e (if bs == 0 then 0 else num_file_blocks e.total_len bs) e.total_len out) in
    (out', p, q ∙ append_assoc out.paths (each_nth n (n - 1) es) e)

-- The `k`-th of every `n`-th elements, where an index beyond the end gives `d` on both sides.
get_or-each_nth :
    (n skip k : ℕ) (es : List PathStoreElem) (d : PathStoreElem)
    → 0 < n
    → get_or (each_nth n skip es) k d ≡ get_or es (skip + k * n) d
get_or-each_nth n skip k [] d h = refl
get_or-each_nth n zero zero (e ∷ es) d h =
    let i : 0 + 0 * n ≡ 0 = omega arith in subst (λ x. e ≡ get_or (e ∷ es) x d) (sym i) refl
get_or-each_nth n zero (suc k) (e ∷ es) d h =
    let i : 0 + suc k * n ≡ suc ((n - 1) + k * n) = omega arith in
    subst (λ x. get_or (each_nth n (n - 1) es) k d ≡ get_or (e ∷ es) x d) (sym i)
      (get_or-each_nth n (n - 1) k es d h)
get_or-each_nth n (suc skip) k (e ∷ es) d h =
    let i : suc skip + k * n ≡ suc (skip + k * n) = omega arith in
    subst (λ x. get_or (each_nth n skip es) k d ≡ get_or (e ∷ es) x d) (sym i)
      (get_or-each_nth n skip k es d h)

get_or-beyond :
    (es : List PathStoreElem) (i : ℕ) (d : PathStoreElem) → length es ≤ i → get_or es i d ≡ d
get_or-beyond [] i d h = refl
get_or-beyond (e ∷ es) zero d h = absurd (omega arith)
get_or-beyond (e ∷ es) (suc i) d h = get_or-beyond es i d (omega arith)

-- Without the check for small files the sublist of a worker always succeeds, and its `k`-th path is
-- path number `rank + k * threads` of the store, and there is none where that is beyond the end. So
-- each path of the store is in the sublist of one worker, and stands there once.
pub get_worker_sublist_non_shared_lem :
    (rank n : ℕ) (s out : PathStore)
    → 0 < n
    → s.num_paths ≡ length s.paths
    → out.paths ≡ []
    → (out' : PathStore) × (get_worker_sublist_non_shared rank n false s out ≡ ok out')
      × ((k : ℕ) (d : PathStoreElem) → get_or out'.paths k d ≡ get_or s.paths (rank + k * n) d)
unfolding get_worker_sublist_non_shared
get_worker_sublist_non_shared_lem rank n s out h len fresh =
    elim (Bool-cases (leb s.num_paths rank)) [
      | inl beyond ↦
          let le : s.num_paths ≤ rank = ground arith in
          rw beyond (
            out,
            refl,
            λ k d.
                ap (λ l. get_or l k d) fresh
                ∙ sym (get_or-beyond s.paths (rank + k * n) d (omega arith)),
          )
      | inr within ↦
          let some_threads : (n == 0) ≡ false = ground arith in
          let (out', p, q) = take_each-each_nth n s.block_size rank s.paths out in
          let q' : out'.paths ≡ each_nth n rank s.paths =
            subst (λ l. out'.paths ≡ l ++ each_nth n rank s.paths) fresh q in
          rw (within, some_threads)
            (out', p, λ k d. ap (λ l. get_or l k d) q' ∙ get_or-each_nth n rank k s.paths d h)
    ]
