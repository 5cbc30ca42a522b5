-- ===== src/Tests/Mixes.antt =====
-- source/toolkits/BlockSizeMix.h and BlockSizeMix.cpp at concrete inputs.
use elbencho.Prelude.{
  ℕ, ◌+◌, ◌≡◌, refl, ◌==◌, if◌then◌else◌, ok, throws, Error, arith, List, [], ◌∷◌, ◌++◌, mul64,
  add64,
}
use elbencho.Units.{Text}
use elbencho.Mix.{Mix, parse, of_entries, get_next_size}
use elbencho.Mix.Extremes.{IsValid, parse-IsValid}
use elbencho.Mix.Weights.{sum_weights, get_next_size-share}
use elbencho.Mix.Overflow.{get_next_size-overflow}

abbrev counting : ℕ → ℕ × ℕ
counting g = (g, g + 1)

-- Splitting at every separator, as `boost::split` does but for runs of separators.
abbrev first_piece : ℕ → Text → Text
first_piece c [] = []
first_piece c (x ∷ xs) = if x == c then [] else x ∷ first_piece c xs

abbrev push_char : ℕ → List Text → List Text
push_char x [] = (x ∷ []) ∷ []
push_char x (p ∷ ps) = (x ∷ p) ∷ ps

abbrev split_at : ℕ → Text → List Text
split_at c [] = [] ∷ []
split_at c (x ∷ xs) = if x == c then [] ∷ split_at c xs else push_char x (split_at c xs)

-- "4k:3,64k"
abbrev mix_text : Text
mix_text = b'4' ∷ b'k' ∷ b':' ∷ b'3' ∷ b',' ∷ b'6' ∷ b'4' ∷ b'k' ∷ []

abbrev parsed : Mix
parsed = record {
  sizes_and_weights = (4096, 3) ∷ (65536, 1) ∷ [];
  cumulative_weights = 3 ∷ 4 ∷ [];
  total_weight = 4;
  max_size = 65536;
  min_size = 4096;
}

parse_run : parse split_at mix_text ≡ ok parsed
unfolding parse mul64 add64
parse_run = refl

parse-IsValid_example : IsValid parsed
parse-IsValid_example = parse-IsValid split_at mix_text parsed parse_run

get_next_size-share_example :
    (4 ≡ sum_weights (((4096, 3) ∷ []) ++ (65536, 1) ∷ []))
    × (get_next_size counting parsed 7 ≡ ok (65536, 8))
unfolding of_entries add64
get_next_size-share_example =
    get_next_size-share counting parsed ((4096, 3) ∷ []) [] 65536 1 7 refl (omega arith)
      (omega arith) (omega arith) (omega arith)

-- "4k:1,8k:-1": the second weight reads as 2^64 - 1.
abbrev wrapped_text : Text
wrapped_text = b'4' ∷ b'k' ∷ b':' ∷ b'1' ∷ b',' ∷ b'8' ∷ b'k' ∷ b':' ∷ b'-' ∷ b'1' ∷ []

abbrev wrapped : Mix
wrapped = record {
  sizes_and_weights = (4096, 1) ∷ (8192, 18446744073709551615) ∷ [];
  cumulative_weights = 1 ∷ 0 ∷ [];
  total_weight = 0;
  max_size = 8192;
  min_size = 4096;
}

wrapped_run : parse split_at wrapped_text ≡ ok wrapped
unfolding parse mul64 add64
wrapped_run = refl

get_next_size-overflow_example :
    (m : Mix) × (parse split_at wrapped_text ≡ ok m)
    × (get_next_size counting m 7 ≡ throws Error.division_by_zero)
unfolding parse mul64 add64
get_next_size-overflow_example =
    get_next_size-overflow split_at counting wrapped_text
      ((4096, 1) ∷ (8192, 18446744073709551615) ∷ []) 7 (omega arith, refl, (omega arith, refl, tt))
      (
        ((omega arith, omega arith), ((omega arith, omega arith), tt)),
        ((λ e. absurd (omega arith), tt), (tt, tt)),
      )
      (omega arith) refl
