-- ===== src/LatencyHistogram/Service.antt =====
-- The encoding of a histogram for the service protocol: `getAsPropertyTreeForService` and
-- `setFromPropertyTreeForService`. A property tree is taken by its entries under the prefix.
use elbencho.Prelude.{
  ℕ, zero, suc, ◌+◌, ◌≤◌, ◌<◌, ◌≡◌, ◌∙◌, sym, ap, refl, subst, arith, List, [], ◌∷◌, ◌++◌, leb,
  if◌then◌else◌, false, set, replicate, length, length-append,
}
use elbencho.LatencyHistogram.{Histogram, num_buckets}

pub record ServiceTree : Type 0 where
  pub lat_num_values : ℕ
  pub lat_micro_sec_total : ℕ
  pub lat_min_micro_sec : ℕ
  pub lat_max_micro_sec : ℕ
  pub histo_list : List (ℕ × ℕ)

-- The loop over the buckets from index `i`: an index and a count for each that is not empty.
unfoldable pub sparse_from : ℕ → List ℕ → List (ℕ × ℕ)
sparse_from i [] = []
sparse_from i (zero ∷ bs) = sparse_from (suc i) bs
sparse_from i (suc n ∷ bs) = (i, suc n) ∷ sparse_from (suc i) bs

unfoldable pub get_as_property_tree_for_service : Histogram → ServiceTree
get_as_property_tree_for_service h = record {
  lat_num_values = h.num_stored_values;
  lat_micro_sec_total = h.num_micro_sec_total;
  lat_min_micro_sec = h.min_micro_sec_lat;
  lat_max_micro_sec = h.max_micro_sec_lat;
  histo_list = sparse_from 0 h.buckets;
}

-- The loop over the received pairs.
unfoldable pub apply_items : List (ℕ × ℕ) → List ℕ → List ℕ
apply_items [] bs = bs
apply_items ((i, n) ∷ items) bs = apply_items items (if leb num_buckets i then bs else set bs i n)

unfoldable pub set_from_property_tree_for_service : ServiceTree → Histogram → Histogram
set_from_property_tree_for_service tree h = record {
  num_stored_values = tree.lat_num_values;
  num_micro_sec_total = tree.lat_micro_sec_total;
  min_micro_sec_lat = tree.lat_min_micro_sec;
  max_micro_sec_lat = tree.lat_max_micro_sec;
  buckets = apply_items tree.histo_list (replicate num_buckets 0);
  num_stored_values_live = h.num_stored_values_live;
  num_micro_secs_total_live = h.num_micro_secs_total_live;
}

set-at_end : (xs ys : List ℕ) (x v : ℕ) → set (xs ++ x ∷ ys) (length xs) v ≡ xs ++ v ∷ ys
set-at_end [] ys x v = refl
set-at_end (x' ∷ xs) ys x v = ap (λ l. x' ∷ l) (set-at_end xs ys x v)

append_one : (xs ys : List ℕ) (x : ℕ) → (xs ++ x ∷ []) ++ ys ≡ xs ++ x ∷ ys
append_one [] ys x = refl
append_one (x' ∷ xs) ys x = ap (λ l. x' ∷ l) (append_one xs ys x)

append_nil : (xs : List ℕ) → xs ++ [] ≡ xs
append_nil [] = refl
append_nil (x ∷ xs) = ap (λ l. x ∷ l) (append_nil xs)

apply_items-cons :
    (i n : ℕ) (items : List (ℕ × ℕ)) (bs : List ℕ)
    → i < num_buckets
    → apply_items ((i, n) ∷ items) bs ≡ apply_items items (set bs i n)
unfolding apply_items
apply_items-cons i n items bs h =
    let test : leb num_buckets i ≡ false = ground arith in rw test refl

-- Applying the pairs of the buckets `bs` to zeros behind `done` puts `bs` there.
apply_items-sparse_from :
    (done bs : List ℕ)
    → length done + length bs ≤ num_buckets
    → apply_items (sparse_from (length done) bs) (done ++ replicate (length bs) 0) ≡ done ++ bs
unfolding apply_items sparse_from
apply_items-sparse_from done [] h = refl
apply_items-sparse_from done (zero ∷ bs) h =
    let e : suc (length done) ≡ length (done ++ zero ∷ []) =
      omega (arith, length-append done (zero ∷ [])) in
    let ih = apply_items-sparse_from (done ++ zero ∷ []) bs (omega arith) in
    let ih' =
      subst
        (λ n.
          apply_items (sparse_from n bs) ((done ++ zero ∷ []) ++ replicate (length bs) 0)
          ≡ (done ++ zero ∷ []) ++ bs)
        (sym e) ih in
    ap (apply_items (sparse_from (suc (length done)) bs))
      (sym (append_one done (replicate (length bs) 0) zero))
    ∙ (ih' ∙ append_one done bs zero)
apply_items-sparse_from done (suc n ∷ bs) h =
    let e : suc (length done) ≡ length (done ++ suc n ∷ []) =
      omega (arith, length-append done (suc n ∷ [])) in
    let ih = apply_items-sparse_from (done ++ suc n ∷ []) bs (omega arith) in
    let ih' =
      subst
        (λ m.
          apply_items (sparse_from m bs) ((done ++ suc n ∷ []) ++ replicate (length bs) 0)
          ≡ (done ++ suc n ∷ []) ++ bs)
        (sym e) ih in
    apply_items-cons (length done) (suc n) (sparse_from (suc (length done)) bs)
      (done ++ 0 ∷ replicate (length bs) 0) (omega arith)
    ∙ (ap (apply_items (sparse_from (suc (length done)) bs))
          (set-at_end done (replicate (length bs) 0) 0 (suc n))
        ∙ (ap (apply_items (sparse_from (suc (length done)) bs))
              (sym (append_one done (replicate (length bs) 0) (suc n)))
            ∙ (ih' ∙ append_one done bs (suc n))))

-- The fields that the protocol carries.
pub record SameValues (h k : Histogram) : Type 0 where
  pub num_stored_values : h.num_stored_values ≡ k.num_stored_values
  pub num_micro_sec_total : h.num_micro_sec_total ≡ k.num_micro_sec_total
  pub min_micro_sec_lat : h.min_micro_sec_lat ≡ k.min_micro_sec_lat
  pub max_micro_sec_lat : h.max_micro_sec_lat ≡ k.max_micro_sec_lat
  pub buckets : h.buckets ≡ k.buckets

-- A histogram that is sent to the service protocol and received into any other one arrives with
-- all its values and all its buckets, the empty ones included, whatever the receiver held before.
pub set_from_property_tree-get_as_property_tree :
    (h receiver : Histogram)
    → length h.buckets ≡ num_buckets
    → SameValues
        (set_from_property_tree_for_service (get_as_property_tree_for_service h) receiver)
        h
unfolding set_from_property_tree_for_service get_as_property_tree_for_service
set_from_property_tree-get_as_property_tree h receiver len = record {
  num_stored_values = refl;
  num_micro_sec_total = refl;
  min_micro_sec_lat = refl;
  max_micro_sec_lat = refl;
  buckets =
      subst (λ n. apply_items (sparse_from 0 h.buckets) (replicate n 0) ≡ h.buckets) len
        (apply_items-sparse_from [] h.buckets (omega arith));
}
