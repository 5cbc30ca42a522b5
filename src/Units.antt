-- ===== src/Units.antt =====
-- source/toolkits/UnitTk.cpp: numbers with a unit suffix, as given on the command line, and
-- elapsed times. A text is the list of its character codes.
use elbencho.Prelude.{
  ℕ, ◌+◌, ◌-◌, ◌*◌, ◌^◌, Bool, true, false, ◌&&◌, ◌||◌, List, [], ◌∷◌, leb, ◌==◌, if◌then◌else◌,
  mul64, Result, ok, throws, throw_if, ◌>>◌, Error, min,
}

abbrev pub Text : Type 0
Text = List ℕ

unfoldable pub is_digit : ℕ → Bool
is_digit c = leb b'0' c && leb c b'9'

-- `isspace` of the C locale
unfoldable pub is_space : ℕ → Bool
is_space c = (c == 32) || (leb 9 c && leb c 13)

unfoldable pub contains : ℕ → Text → Bool
contains c [] = false
contains c (x ∷ xs) = (x == c) || contains c xs

-- The digits at the front of a text, behind a value read so far; stops at any other character.
unfoldable pub read_digits : ℕ → Text → ℕ
unfolding is_digit
read_digits acc [] = acc
read_digits acc (c ∷ cs) = elim (is_digit c) [
  | true ↦ read_digits (acc * 10 + (c - b'0')) cs
  | false ↦ acc
]

unfoldable pub skip_space : Text → Text
unfolding is_space
skip_space [] = []
skip_space (c ∷ cs) = elim (is_space c) [ true ↦ skip_space cs | false ↦ c ∷ cs ]

unfoldable pub skip_plus : Text → Text
skip_plus [] = []
skip_plus (c ∷ cs) = if c == b'+' then cs else c ∷ cs

-- `std::atoll` on a text without '-': characters behind the digits are ignored, and a value past
-- the largest `long long` is cut to it, as `strtoll` does.
unfoldable pub atoll : Text → ℕ
unfolding read_digits skip_space skip_plus
atoll s = min (read_digits 0 (skip_plus (skip_space s))) (2 ^ 63 - 1)

unfoldable pub last_char : ℕ → Text → ℕ
last_char d [] = d
last_char d (c ∷ cs) = last_char c cs

-- `std::toupper` of the C locale
unfoldable pub to_upper : ℕ → ℕ
to_upper c = if leb b'a' c && leb c b'z' then c - 32 else c

-- The switch of `numHumanToBytesBinary` over the upper-case unit.
unfoldable pub scale_by_unit : ℕ → ℕ → Result ℕ
scale_by_unit bytes unit =
    if unit == b'K'
    then ok (mul64 bytes (2 ^ 10))
    else if unit == b'M'
    then ok (mul64 bytes (2 ^ 20))
    else if unit == b'G'
    then ok (mul64 bytes (2 ^ 30))
    else if unit == b'T'
    then ok (mul64 bytes (2 ^ 40))
    else if unit == b'P'
    then ok (mul64 bytes (2 ^ 50))
    else if unit == b'E'
    then ok (mul64 bytes (2 ^ 60))
    else throws Error.prog_exception

-- `UnitTk::numHumanToBytesBinary` behind its test for the empty text.
unfoldable pub non_empty_to_bytes : Text → Result ℕ
unfolding contains atoll last_char is_digit scale_by_unit to_upper
non_empty_to_bytes s = do
  throw_if (contains b'.' s) Error.prog_exception
  throw_if (contains b',' s) Error.prog_exception
  throw_if (contains b'-' s) Error.prog_exception
  let bytes = atoll s
  let last = last_char 0 s
  if is_digit last then ok bytes else scale_by_unit bytes (to_upper last)

unfoldable pub num_human_to_bytes_binary : Text → Bool → Result ℕ
unfolding non_empty_to_bytes
num_human_to_bytes_binary [] throw_on_empty =
    if throw_on_empty then throws Error.prog_exception else ok 0
num_human_to_bytes_binary (c ∷ cs) throw_on_empty = non_empty_to_bytes (c ∷ cs)
