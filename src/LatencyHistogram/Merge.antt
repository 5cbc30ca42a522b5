-- ===== src/LatencyHistogram/Merge.antt =====
-- `addLatency` and `operator+=`: the histograms of several workers, added up.
use elbencho.Prelude.{
  ℕ, zero, suc, ◌+◌, ◌-◌, ◌%◌, ◌^◌, ◌<◌, ◌≡◌, ◌∙◌, sym, ap, refl, subst, arith, List, [], ◌∷◌, ◌++◌,
  ltb, if◌then◌else◌, set, replicate, length, add64, add64-lt, length-set, length-replicate, All,
}
use elbencho.LatencyHistogram.{
  Histogram, num_buckets, new, value_to_index, increment, add_latency, add_buckets, merge,
}
use elbencho.LatencyHistogram.Service.{SameValues}

-- `addLatency` for each latency of a list, in order.
abbrev pub add_all : List ℕ → Histogram → Histogram
add_all [] h = h
add_all (v ∷ vs) h = add_all vs (add_latency v h)

add64_assoc : (a b c : ℕ) → add64 (add64 a b) c ≡ add64 a (add64 b c)
unfolding add64
add64_assoc a b c = omega arith

add_buckets-increment :
    (xs ys : List ℕ) (i : ℕ)
    → length xs ≡ length ys
    → increment (add_buckets xs ys) i ≡ add_buckets xs (increment ys i)
unfolding add_buckets increment
add_buckets-increment [] ys i h = refl
add_buckets-increment (x ∷ xs) [] i h = absurd (omega arith)
add_buckets-increment (x ∷ xs) (y ∷ ys) zero h = ap (λ n. n ∷ add_buckets xs ys) (add64_assoc x y 1)
add_buckets-increment (x ∷ xs) (y ∷ ys) (suc i) h =
    ap (λ l. add64 x y ∷ l) (add_buckets-increment xs ys i (omega arith))

min_comm :
    (v a b : ℕ)
    → (if ltb v (if ltb b a then b else a) then v else (if ltb b a then b else a))
      ≡ (let w = (if ltb v b then v else b) in if ltb w a then w else a)
min_comm v a b = ground arith

max_comm :
    (v a b : ℕ)
    → (if ltb (if ltb a b then b else a) v then v else (if ltb a b then b else a))
      ≡ (let w = (if ltb b v then v else b) in if ltb a w then w else a)
max_comm v a b = ground arith

SameValues-trans : (a b c : Histogram) → SameValues a b → SameValues b c → SameValues a c
SameValues-trans a b c p q = record {
  num_stored_values = p.num_stored_values ∙ q.num_stored_values;
  num_micro_sec_total = p.num_micro_sec_total ∙ q.num_micro_sec_total;
  min_micro_sec_lat = p.min_micro_sec_lat ∙ q.min_micro_sec_lat;
  max_micro_sec_lat = p.max_micro_sec_lat ∙ q.max_micro_sec_lat;
  buckets = p.buckets ∙ q.buckets;
}

add_latency-SameValues :
    (v : ℕ) (a b : Histogram) → SameValues a b → SameValues (add_latency v a) (add_latency v b)
unfolding add_latency
add_latency-SameValues v a b p = record {
  num_stored_values = ap (λ n. add64 n 1) p.num_stored_values;
  num_micro_sec_total = ap (λ n. add64 n v) p.num_micro_sec_total;
  min_micro_sec_lat = ap (λ n. if ltb v n then v else n) p.min_micro_sec_lat;
  max_micro_sec_lat = ap (λ n. if ltb n v then v else n) p.max_micro_sec_lat;
  buckets = ap (λ l. increment l (value_to_index v)) p.buckets;
}

add_all-SameValues :
    (vs : List ℕ) (a b : Histogram) → SameValues a b → SameValues (add_all vs a) (add_all vs b)
add_all-SameValues [] a b p = p
add_all-SameValues (v ∷ vs) a b p =
    add_all-SameValues vs (add_latency v a) (add_latency v b) (add_latency-SameValues v a b p)

-- A latency added to a sum of histograms is a latency added to its second summand.
add_latency-merge :
    (v : ℕ) (a b : Histogram)
    → length a.buckets ≡ length b.buckets
    → SameValues (add_latency v (merge a b)) (merge a (add_latency v b))
unfolding add_latency merge
add_latency-merge v a b len = record {
  num_stored_values = add64_assoc a.num_stored_values b.num_stored_values 1;
  num_micro_sec_total = add64_assoc a.num_micro_sec_total b.num_micro_sec_total v;
  min_micro_sec_lat = min_comm v a.min_micro_sec_lat b.min_micro_sec_lat;
  max_micro_sec_lat = max_comm v a.max_micro_sec_lat b.max_micro_sec_lat;
  buckets = add_buckets-increment a.buckets b.buckets (value_to_index v) len;
}

length-add_latency : (v : ℕ) (h : Histogram) → length (add_latency v h).buckets ≡ length h.buckets
unfolding add_latency increment
length-add_latency v h = length-set h.buckets (value_to_index v) _

add_all-merge :
    (vs : List ℕ) (a b : Histogram)
    → length a.buckets ≡ length b.buckets
    → SameValues (add_all vs (merge a b)) (merge a (add_all vs b))
add_all-merge [] a b len = record {
  num_stored_values = refl;
  num_micro_sec_total = refl;
  min_micro_sec_lat = refl;
  max_micro_sec_lat = refl;
  buckets = refl;
}
add_all-merge (v ∷ vs) a b len =
    SameValues-trans (add_all vs (add_latency v (merge a b)))
      (add_all vs (merge a (add_latency v b))) (merge a (add_all vs (add_latency v b)))
      (add_all-SameValues vs (add_latency v (merge a b)) (merge a (add_latency v b))
        (add_latency-merge v a b len))
      (add_all-merge vs a (add_latency v b) (len ∙ sym (length-add_latency v b)))

-- What the words and the vector of a histogram hold at any time.
pub record IsWordSized (h : Histogram) : Type 0 where
  pub num_stored_values : h.num_stored_values < 2 ^ 64
  pub num_micro_sec_total : h.num_micro_sec_total < 2 ^ 64
  pub min_micro_sec_lat : h.min_micro_sec_lat < 2 ^ 64
  pub buckets : All (λ (n : ℕ). n < 2 ^ 64) h.buckets
  pub size : length h.buckets ≡ num_buckets

add_buckets-zeros :
    (xs : List ℕ) → All (λ (n : ℕ). n < 2 ^ 64) xs → add_buckets xs (replicate (length xs) 0) ≡ xs
unfolding add_buckets add64
add_buckets-zeros [] h = refl
add_buckets-zeros (x ∷ xs) h =
    let e : (x + 0) % 2 ^ 64 ≡ x = omega (arith, h.0) in
    subst (λ n. n ∷ add_buckets xs (replicate (length xs) 0) ≡ x ∷ xs) (sym e)
      (ap (λ l. x ∷ l) (add_buckets-zeros xs h.1))

add64-zero : (n : ℕ) → n < 2 ^ 64 → add64 n 0 ≡ n
unfolding add64
add64-zero n h = omega arith

merge-new : (a : Histogram) → IsWordSized a → SameValues a (merge a new)
unfolding merge new
merge-new a w = record {
  num_stored_values = sym (add64-zero a.num_stored_values w.num_stored_values);
  num_micro_sec_total = sym (add64-zero a.num_micro_sec_total w.num_micro_sec_total);
  min_micro_sec_lat = at_most a.min_micro_sec_lat w.min_micro_sec_lat;
  max_micro_sec_lat = at_least a.max_micro_sec_lat;
  buckets = sym (
      subst (λ n. add_buckets a.buckets (replicate n 0) ≡ a.buckets) w.size
        (add_buckets-zeros a.buckets w.buckets));
}
  where
    at_most : (n : ℕ) → n < 2 ^ 64 → n ≡ (if ltb (2 ^ 64 - 1) n then 2 ^ 64 - 1 else n)
    at_most n h = ground arith

    at_least : (n : ℕ) → n ≡ (if ltb n 0 then 0 else n)
    at_least n = ground arith

pub new-IsWordSized : IsWordSized new
unfolding new
new-IsWordSized = record {
  num_stored_values = omega arith;
  num_micro_sec_total = omega arith;
  min_micro_sec_lat = omega arith;
  buckets = zeros num_buckets;
  size = length-replicate {A = ℕ} num_buckets 0;
}
  where
    zeros : (n : ℕ) → All (λ (n : ℕ). n < 2 ^ 64) (replicate n 0)
    zeros zero = tt
    zeros (suc n) = (omega arith, zeros n)

set-All :
    (xs : List ℕ) (i v : ℕ)
    → v < 2 ^ 64
    → All (λ (n : ℕ). n < 2 ^ 64) xs
    → All (λ (n : ℕ). n < 2 ^ 64) (set xs i v)
set-All [] i v h p = tt
set-All (x ∷ xs) zero v h p = (h, p.1)
set-All (x ∷ xs) (suc i) v h p = (p.0, set-All xs i v h p.1)

pub add_latency-IsWordSized :
    (v : ℕ) (h : Histogram) → IsWordSized h → IsWordSized (add_latency v h)
unfolding add_latency increment
add_latency-IsWordSized v h w = record {
  num_stored_values = add64-lt h.num_stored_values 1;
  num_micro_sec_total = add64-lt h.num_micro_sec_total v;
  min_micro_sec_lat = smaller v h.min_micro_sec_lat w.min_micro_sec_lat;
  buckets = set-All h.buckets (value_to_index v) _ (add64-lt _ 1) w.buckets;
  size = length-set h.buckets (value_to_index v) _ ∙ w.size;
}
  where
    smaller : (v m : ℕ) → m < 2 ^ 64 → (if ltb v m then v else m) < 2 ^ 64
    smaller v m h = ground arith

pub add_all-IsWordSized : (vs : List ℕ) (h : Histogram) → IsWordSized h → IsWordSized (add_all vs h)
add_all-IsWordSized [] h w = w
add_all-IsWordSized (v ∷ vs) h w =
    add_all-IsWordSized vs (add_latency v h) (add_latency-IsWordSized v h w)

merge-add_all :
    (a : Histogram) (vs : List ℕ)
    → IsWordSized a
    → SameValues (add_all vs a) (merge a (add_all vs new))
merge-add_all a vs w =
    SameValues-trans (add_all vs a) (add_all vs (merge a new)) (merge a (add_all vs new))
      (add_all-SameValues vs a (merge a new) (merge-new a w))
      (add_all-merge vs a new (w.size ∙ sym new-IsWordSized.size))

add_all-append : (us vs : List ℕ) (h : Histogram) → add_all (us ++ vs) h ≡ add_all vs (add_all us h)
add_all-append [] vs h = refl
add_all-append (u ∷ us) vs h = add_all-append us vs (add_latency u h)

-- Adding up the histograms of two workers gives the counters, the minimum, the maximum and all the
-- buckets of one histogram to which the latencies of both workers were added.
pub merge-add_all-append :
    (us vs : List ℕ) → SameValues (add_all (us ++ vs) new) (merge (add_all us new) (add_all vs new))
merge-add_all-append us vs =
    subst (λ h. SameValues h (merge (add_all us new) (add_all vs new)))
      (sym (add_all-append us vs new))
      (merge-add_all (add_all us new) vs (add_all-IsWordSized us new new-IsWordSized))
