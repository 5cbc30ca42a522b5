-- ===== src/Tests/Histograms.antt =====
-- source/LatencyHistogram.h and LatencyHistogram.cpp at concrete inputs.
use elbencho.Prelude.{
  suc, add64, sub64, mul64, ℕ, ◌-◌, ◌*◌, ◌≤◌, ◌<◌, ◌≡◌, refl, leb, arith, List, [], ◌∷◌, ◌++◌,
  length, max,
}
use elbencho.LatencyHistogram.{
  sub32, octave_of, highest_bit, Histogram, num_buckets, new, value_to_index, index_to_upper_bound,
  merge, find_percentile_bucket_index, Doubles, find_from, is_reached,
}
use elbencho.LatencyHistogram.Buckets.{index_to_upper_bound-value_to_index}
use elbencho.LatencyHistogram.Merge.{add_all, merge-add_all-append}
use elbencho.LatencyHistogram.Counted.{IsCounted, new-IsCounted, add_all-IsCounted}
use elbencho.LatencyHistogram.Percentile.{
  count_below, IsExact, find_percentile_bucket_index-IsFound,
}
use elbencho.LatencyHistogram.Service.{
  SameValues, get_as_property_tree_for_service, set_from_property_tree_for_service,
  set_from_property_tree-get_as_property_tree,
}

slot_of_1000 : value_to_index 1000 ≡ 317
unfolding value_to_index add64 sub32 octave_of highest_bit sub64
slot_of_1000 = refl

bound_of_slot_317 : index_to_upper_bound 317 ≡ 1008
unfolding index_to_upper_bound mul64
bound_of_slot_317 = refl

index_to_upper_bound-value_to_index_example :
    (1000 < index_to_upper_bound (value_to_index 1000))
    × (64 * (index_to_upper_bound (value_to_index 1000) - 1000) ≤ max 64 1000)
index_to_upper_bound-value_to_index_example = index_to_upper_bound-value_to_index 1000 (omega arith)

abbrev reader_latencies : List ℕ
reader_latencies = 90 ∷ 1000 ∷ []

abbrev writer_latencies : List ℕ
writer_latencies = 70000 ∷ []

abbrev reader : Histogram
reader = add_all reader_latencies new

abbrev writer : Histogram
writer = add_all writer_latencies new

merge-add_all-append_example :
    SameValues (add_all (reader_latencies ++ writer_latencies) new) (merge reader writer)
merge-add_all-append_example = merge-add_all-append reader_latencies writer_latencies

writer-IsCounted : IsCounted writer
writer-IsCounted = add_all-IsCounted writer_latencies new (omega arith, tt) new-IsCounted

reader-IsCounted : IsCounted reader
reader-IsCounted =
    add_all-IsCounted reader_latencies new (omega arith, (omega arith, tt)) new-IsCounted

reader-size : length reader.buckets ≡ num_buckets
reader-size = reader-IsCounted.size

set_from_property_tree-get_as_property_tree_example :
    SameValues
      (set_from_property_tree_for_service (get_as_property_tree_for_service reader) writer)
      reader
set_from_property_tree-get_as_property_tree_example =
    set_from_property_tree-get_as_property_tree reader writer reader-size

-- Four stored values, two of them in the slot of 1 microsecond.
abbrev few : Histogram
few = record {
  num_stored_values = 4;
  num_micro_sec_total = 5;
  min_micro_sec_lat = 0;
  max_micro_sec_lat = 2;
  buckets = 1 ∷ 2 ∷ 1 ∷ [];
  num_stored_values_live = 0;
  num_micro_secs_total_live = 0;
}

-- Fractions, compared exactly.
abbrev fractions : Doubles (ℕ × ℕ)
fractions = record {
  to_double = λ n. (n, 1);
  divide = λ x y. (x.0 * y.1, x.1 * y.0);
  is_ge = λ x y. leb (y.0 * x.1) (x.0 * y.1);
}

fractions-IsExact : IsExact fractions
fractions-IsExact a b c d some_b some_d le le' small =
    let p : c * 1 * (1 * b) ≡ c * b = omega arith in
    let q : a * 1 * (1 * d) ≡ a * d = omega arith in rw (p, q) refl

third_quartile : find_percentile_bucket_index fractions (75, 1) few ≡ 1
unfolding find_percentile_bucket_index find_from is_reached add64
third_quartile = refl

find_percentile_bucket_index-IsFound_example :
    let k = find_percentile_bucket_index fractions (75, 1) few in
    (k < 3)
    × (75 * 4 ≤ count_below (suc k) (1 ∷ 2 ∷ 1 ∷ []) * 100)
    × ((j : ℕ) → j < k → count_below (suc j) (1 ∷ 2 ∷ 1 ∷ []) * 100 < 75 * 4)
find_percentile_bucket_index-IsFound_example =
    find_percentile_bucket_index-IsFound fractions 75 few fractions-IsExact (omega arith)
      (omega arith) (omega arith) refl
