-- ===== src/Mix.antt =====
-- source/toolkits/BlockSizeMix.h and BlockSizeMix.cpp: a weighted mix of block sizes, as given by
-- "--block". `boost::split` is not the program's: it is the parameter `split` of the parser.
pub mod Weights
pub mod Extremes
pub mod Overflow
use mathlib.Core.List.{reverse}
use elbencho.Prelude.{
  ℕ, zero, suc, ◌+◌, ◌-◌, ◌*◌, ◌%◌, ◌^◌, Bool, true, false, not, ◌&&◌, ◌||◌, List, [], ◌∷◌, ◌++◌,
  ltb, leb, ◌==◌, if◌then◌else◌, add64, u64_mod, Result, ok, throws, throw_if, ◌>>=◌, ◌>>◌, Error,
  min, max, length, get_or,
}
use elbencho.Units.{Text, is_digit, read_digits, skip_space, skip_plus, num_human_to_bytes_binary}

pub record Mix : Type 0 where
  pub sizes_and_weights : List (ℕ × ℕ)
  pub cumulative_weights : List ℕ
  pub total_weight : ℕ
  pub max_size : ℕ
  pub min_size : ℕ

-- The digits of a number text: `std::stoull` throws where there are none and past 64 bits.
unfoldable pub stoull_digits : Text → Result ℕ
unfolding is_digit read_digits
stoull_digits [] = throws Error.prog_exception
stoull_digits (c ∷ cs) =
    let value = read_digits 0 (c ∷ cs) in
    if not (is_digit c) || leb u64_mod value then throws Error.prog_exception else ok value

-- `std::stoull`, whose exceptions the caller turns into a ProgException: white space, a sign, and
-- digits. A minus sign is accepted and negates modulo 2^64.
unfoldable pub stoull_signed : Text → Result ℕ
unfolding stoull_digits
stoull_signed [] = throws Error.prog_exception
stoull_signed (c ∷ cs) =
    if c == b'-'
    then (do value ← stoull_digits cs; ok ((u64_mod - value) % u64_mod))
    else if c == b'+'
    then stoull_digits cs
    else stoull_digits (c ∷ cs)

unfoldable pub stoull : Text → Result ℕ
unfolding stoull_signed skip_space
stoull s = stoull_signed (skip_space s)

unfoldable pub is_seen : ℕ → List (ℕ × ℕ) → Bool
is_seen size [] = false
is_seen size ((s, w) ∷ rest) = (s == size) || is_seen size rest

-- The body of the loop behind the parsing of one entry: the tests for zero and for a duplicate.
-- `seenSizes` holds the sizes that are in the mix already.
unfoldable pub add_entry : ℕ → ℕ → List (ℕ × ℕ) → Result (List (ℕ × ℕ))
unfolding is_seen
add_entry size weight acc = do
  throw_if (size == 0) Error.prog_exception
  throw_if (weight == 0) Error.prog_exception
  throw_if (is_seen size acc) Error.prog_exception
  ok (acc ++ (size, weight) ∷ [])

-- The size and weight of one entry, split at ':'.
unfoldable pub parse_parts : List Text → Result (ℕ × ℕ)
unfolding stoull num_human_to_bytes_binary
parse_parts (s ∷ []) = do size ← num_human_to_bytes_binary s true; ok (size, 1)
parse_parts (s ∷ w ∷ []) = do
  size ← num_human_to_bytes_binary s true
  weight ← stoull w
  ok (size, weight)
parse_parts _ = throws Error.prog_exception

-- The two loops over the finished entries: prefix sums of the weights, and the extreme sizes.
unfoldable pub cumulate : ℕ → List (ℕ × ℕ) → List ℕ
cumulate total [] = []
cumulate total ((s, w) ∷ rest) = add64 total w ∷ cumulate (add64 total w) rest

unfoldable pub total_of : ℕ → List (ℕ × ℕ) → ℕ
total_of total [] = total
total_of total ((s, w) ∷ rest) = total_of (add64 total w) rest

unfoldable pub max_of : ℕ → List (ℕ × ℕ) → ℕ
max_of m [] = m
max_of m ((s, w) ∷ rest) = max_of (max m s) rest

unfoldable pub min_of : ℕ → List (ℕ × ℕ) → ℕ
min_of m [] = m
min_of m ((s, w) ∷ rest) = min_of (min m s) rest

-- What `parse` does with the entries that it has collected.
unfoldable pub of_entries : List (ℕ × ℕ) → Result Mix
unfolding cumulate total_of max_of min_of
of_entries [] = throws Error.prog_exception
of_entries ((s, w) ∷ rest) =
    let entries = (s, w) ∷ rest in
    ok (record {
      sizes_and_weights = entries;
      cumulative_weights = cumulate 0 entries;
      total_weight = total_of 0 entries;
      max_size = max_of s entries;
      min_size = min_of s entries;
    })

module _ (split : ℕ → Text → List Text) where
  unfoldable pub parse_entries : List Text → List (ℕ × ℕ) → Result (List (ℕ × ℕ))
  unfolding parse_parts add_entry
  parse_entries [] acc = ok acc
  parse_entries ([] ∷ rest) acc = parse_entries rest acc
  parse_entries ((c ∷ cs) ∷ rest) acc = do
    (size, weight) ← parse_parts (split b':' (c ∷ cs))
    acc' ← add_entry size weight acc
    parse_entries rest acc'

  unfoldable pub parse : Text → Result Mix
  unfolding parse_entries of_entries
  parse block_size_str = do
    entries ← parse_entries (split b',' block_size_str) []
    of_entries entries

unfoldable pub is_mix : Mix → Bool
is_mix m = ltb 1 (length m.sizes_and_weights)

-- The loop of `getNextSize`: the first size whose cumulative weight is past the drawn weight. The
-- last argument is what stands behind the loop, the size of the last entry.
unfoldable pub find_size : ℕ → List ℕ → List (ℕ × ℕ) → ℕ → ℕ
find_size drawn [] entries d = d
find_size drawn (c ∷ cs) [] d = d
find_size drawn (c ∷ cs) ((s, w) ∷ entries) d =
    if ltb drawn c then s else find_size drawn cs entries d

unfoldable pub back_size : List (ℕ × ℕ) → ℕ
back_size [] = 0
back_size ((s, w) ∷ []) = s
back_size (e ∷ f ∷ rest) = back_size (f ∷ rest)

module _ {G : Type 0} (next : G → ℕ × G) where
  -- `next` is `RandAlgoInterface::next`, over the generator's state.
  unfoldable pub get_next_size : Mix → G → Result (ℕ × G)
  unfolding is_mix find_size back_size
  get_next_size m g =
      if not (is_mix m)
      then ok (m.max_size, g)
      else if m.total_weight == 0
      then throws Error.division_by_zero
      else (let (value, g') = next g in
          ok (
            find_size (value % m.total_weight) m.cumulative_weights m.sizes_and_weights
                (back_size m.sizes_and_weights),
            g',
          ))
