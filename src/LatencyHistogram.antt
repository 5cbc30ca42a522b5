-- ===== src/LatencyHistogram.antt =====
-- source/LatencyHistogram.h and source/LatencyHistogram.cpp: the log-linear histogram of I/O
-- latencies that each worker keeps, and its encoding for the service protocol.
pub mod Buckets
pub mod Merge
pub mod Counted
pub mod Service
pub mod Percentile
pub mod Decades
use elbencho.Prelude.{
  ℕ, zero, suc, ◌+◌, ◌-◌, ◌*◌, ◌/◌, ◌%◌, ◌^◌, Bool, true, false, List, [], ◌∷◌, ltb, leb, ◌==◌,
  if◌then◌else◌, min, add64, sub64, mul64, Result, ok, throws, Error, get_or, set, replicate,
  length,
}

abbrev pub num_buckets : ℕ
num_buckets = 2560

abbrev pub max_bucket_idx : ℕ
max_bucket_idx = 38

pub record Histogram : Type 0 where
  pub num_stored_values : ℕ
  pub num_micro_sec_total : ℕ
  pub min_micro_sec_lat : ℕ
  pub max_micro_sec_lat : ℕ
  pub buckets : List ℕ
  pub num_stored_values_live : ℕ
  pub num_micro_secs_total_live : ℕ

-- The constructor, with the initial values of the members.
unfoldable pub new : Histogram
new = record {
  num_stored_values = 0;
  num_micro_sec_total = 0;
  min_micro_sec_lat = 2 ^ 64 - 1;
  max_micro_sec_lat = 0;
  buckets = replicate num_buckets 0;
  num_stored_values_live = 0;
  num_micro_secs_total_live = 0;
}

-- `63 - __builtin_clzll(v)`, the index of the highest bit that is set, of a word of at most as many
-- bits as the first argument says. Like the builtin it is for `v` that is not 0.
unfoldable pub highest_bit : ℕ → ℕ → ℕ
highest_bit zero v = 0
highest_bit (suc w) v = let rest = highest_bit w (v / 2) in if ltb v 2 then 0 else suc rest

-- The difference of `unsigned` values.
unfoldable pub sub32 : ℕ → ℕ → ℕ
sub32 a b = (a + (2 ^ 32 - b)) % 2 ^ 32

unfoldable pub octave_of : ℕ → ℕ
octave_of v = min (sub32 (highest_bit 64 v) 6) max_bucket_idx

unfoldable pub value_to_index : ℕ → ℕ
value_to_index v =
    if ltb v 128
    then v
    else (let bucket_index = octave_of v in
        let sub_bucket_index = min (v / 2 ^ bucket_index) 127 in
        add64 (add64 128 (sub32 bucket_index 1 * 64)) (sub64 sub_bucket_index 64))

unfoldable pub index_to_upper_bound : ℕ → ℕ
index_to_upper_bound bucket_index =
    if ltb bucket_index 128
    then bucket_index + 1
    else (let octave = 1 + (bucket_index - 128) / 64 in
        let sub_bucket_index = 64 + (bucket_index - 128) % 64 in
        mul64 (sub_bucket_index + 1) (2 ^ octave))

-- `buckets[i]++`
unfoldable pub increment : List ℕ → ℕ → List ℕ
increment bs i = set bs i (add64 (get_or bs i 0) 1)

unfoldable pub add_latency : ℕ → Histogram → Histogram
add_latency v h = record {
  num_stored_values_live = add64 h.num_stored_values_live 1;
  num_micro_secs_total_live = add64 h.num_micro_secs_total_live v;
  num_stored_values = add64 h.num_stored_values 1;
  num_micro_sec_total = add64 h.num_micro_sec_total v;
  min_micro_sec_lat = if ltb v h.min_micro_sec_lat then v else h.min_micro_sec_lat;
  max_micro_sec_lat = if ltb h.max_micro_sec_lat v then v else h.max_micro_sec_lat;
  buckets = increment h.buckets (value_to_index v);
}

-- The two results are the caller's variables, after the call.
unfoldable pub add_and_reset_average_live : ℕ → ℕ → Histogram → (ℕ × ℕ) × Histogram
add_and_reset_average_live num_values micro_secs h = (
  (add64 num_values h.num_stored_values_live, add64 micro_secs h.num_micro_secs_total_live),
  record {
    num_stored_values = h.num_stored_values;
    num_micro_sec_total = h.num_micro_sec_total;
    min_micro_sec_lat = h.min_micro_sec_lat;
    max_micro_sec_lat = h.max_micro_sec_lat;
    buckets = h.buckets;
    num_stored_values_live = 0;
    num_micro_secs_total_live = 0;
  },
)

unfoldable pub get_average_micro_sec : Histogram → ℕ
get_average_micro_sec h = elim h.num_stored_values [
  | zero ↦ 0
  | suc n ↦ h.num_micro_sec_total / suc n
]

unfoldable pub reset : Histogram → Histogram
reset h = record {
  num_stored_values = 0;
  num_micro_sec_total = 0;
  min_micro_sec_lat = 2 ^ 64 - 1;
  max_micro_sec_lat = 0;
  buckets = replicate num_buckets 0;
  num_stored_values_live = h.num_stored_values_live;
  num_micro_secs_total_live = h.num_micro_secs_total_live;
}

unfoldable pub get_histogram_exceeded : Histogram → Bool
get_histogram_exceeded h = if get_or h.buckets (num_buckets - 1) 0 == 0 then false else true

-- The loop of `operator+=` over the buckets.
unfoldable pub add_buckets : List ℕ → List ℕ → List ℕ
add_buckets [] ys = []
add_buckets (x ∷ xs) [] = x ∷ xs
add_buckets (x ∷ xs) (y ∷ ys) = add64 x y ∷ add_buckets xs ys

-- `h += rhs`
unfoldable pub merge : Histogram → Histogram → Histogram
merge h rhs = record {
  buckets = add_buckets h.buckets rhs.buckets;
  num_stored_values = add64 h.num_stored_values rhs.num_stored_values;
  num_micro_sec_total = add64 h.num_micro_sec_total rhs.num_micro_sec_total;
  min_micro_sec_lat =
      if ltb rhs.min_micro_sec_lat h.min_micro_sec_lat
      then rhs.min_micro_sec_lat
      else h.min_micro_sec_lat;
  max_micro_sec_lat =
      if ltb h.max_micro_sec_lat rhs.max_micro_sec_lat
      then rhs.max_micro_sec_lat
      else h.max_micro_sec_lat;
  num_stored_values_live = h.num_stored_values_live;
  num_micro_secs_total_live = h.num_micro_secs_total_live;
}

-- The operations on doubles that `findPercentileBucketIndex` uses, which are the compiler's.
pub record Doubles (Double : Type 0) : Type 0 where
  pub to_double : ℕ → Double
  pub divide : Double → Double → Double
  pub is_ge : Double → Double → Bool

module _ {Double : Type 0} (fp : Doubles Double) (percentage : Double) where
  -- `percentileSoFar >= percentage / 100`
  unfoldable pub is_reached : ℕ → ℕ → Bool
  is_reached num_stored_values num_values_so_far =
      let percentile_so_far =
        fp.divide (fp.to_double num_values_so_far) (fp.to_double num_stored_values) in
      fp.is_ge percentile_so_far (fp.divide percentage (fp.to_double 100))

  -- The loop of `findPercentileBucketIndex`.
  unfoldable pub find_from : ℕ → ℕ → ℕ → List ℕ → ℕ
  find_from num_stored_values i so_far [] = num_buckets - 1
  find_from num_stored_values i so_far (b ∷ bs) =
      let num_values_so_far = add64 so_far b in
      let rest = find_from num_stored_values (suc i) num_values_so_far bs in
      if is_reached num_stored_values num_values_so_far then i else rest

  unfoldable pub find_percentile_bucket_index : Histogram → ℕ
  find_percentile_bucket_index h = find_from h.num_stored_values 0 0 h.buckets

  unfoldable pub get_percentile : Histogram → ℕ
  get_percentile h = index_to_upper_bound (find_percentile_bucket_index h)
