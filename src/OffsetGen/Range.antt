-- ===== src/OffsetGen/Range.antt =====
-- source/toolkits/random/RandAlgoRange.h: random numbers within a range.
use elbencho.Prelude.{
  ℕ, ◌+◌, ◌-◌, ◌%◌, ◌≤◌, ◌<◌, ◌≡◌, ltb, ◌==◌, if◌then◌else◌, add64, sub64, u64_mod, Result, ok,
  throws, Error, arith,
}

pub record Range : Type 0 where
  pub start : ℕ
  pub length_plus_one : ℕ

-- The constructor, and `reset` alike.
unfoldable pub make : ℕ → ℕ → Result Range
make min max =
    if ltb max min
    then throws Error.prog_exception
    else ok (record { start = min; length_plus_one = add64 (sub64 max min) 1 })

module _ {G : Type 0} (next : G → ℕ × G) where
  unfoldable pub draw : Range → G → Result (ℕ × G)
  draw r g =
      if r.length_plus_one == 0
      then throws Error.division_by_zero
      else (let (value, g') = next g in ok (add64 (value % r.length_plus_one) r.start, g'))

-- A range of all 2^64 words is the only one that cannot be drawn from.
abbrev pub IsDrawable : ℕ → ℕ → Type 0
IsDrawable min max = (min ≤ max) × (max < u64_mod) × (max - min + 1 < u64_mod)

pub make_lem :
    (min max : ℕ)
    → IsDrawable min max
    → make min max ≡ ok (record { start = min; length_plus_one = max - min + 1 })
unfolding make add64 sub64
make_lem min max h = ground arith

pub record Encloses (min max : ℕ) (r : Range) : Type 0 where
  pub above : min ≤ r.start
  pub below : r.start + r.length_plus_one ≤ max + 1
  pub nonempty : 0 < r.length_plus_one

-- A draw from a range that lies between two words succeeds, with a value between them.
pub draw-Encloses :
    {G : Type 0} (next : G → ℕ × G) (min max : ℕ) (r : Range) (g : G)
    → max < u64_mod
    → Encloses min max r
    → (n : ℕ) × (draw next r g ≡ ok (n, (next g).1)) × (min ≤ n) × (n ≤ max)
unfolding draw add64
draw-Encloses next min max r g h v =
    (r.start + (next g).0 % r.length_plus_one, ground arith, ground arith, ground arith)
