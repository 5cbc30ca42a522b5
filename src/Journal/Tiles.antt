-- ===== src/Journal/Tiles.antt =====
-- The expected content of the blocks of a journal.
use Prim.Native.Nat.{bit_xor}
use elbencho.Prelude.{ℕ, ◌/◌, ◌^◌, ◌<◌, ◌≡◌, ◌≢◌, ◌∙◌, ap, sym, arith, mul64}
use elbencho.Bits.Xor.{bit_xor-cancel, bit_xor_comm, bit_xor_zero, bit_xor-shift}
use elbencho.Journal.{next_gen, fold33, mix, compute_expected_tile_value}
use elbencho.Journal.Cells.{next_gen_lem}

bit_xor-lt : (a b : ℕ) → a < 2 ^ 64 → b < 2 ^ 64 → bit_xor a b < 2 ^ 64
bit_xor-lt a b h k =
    let x : a / 2 ^ 64 ≡ 0 = omega arith in
    let y : b / 2 ^ 64 ≡ 0 = omega arith in
    let z : bit_xor a b / 2 ^ 64 ≡ 0 =
      bit_xor-shift 64 a b ∙ (ap (λ n. bit_xor n (b / 2 ^ 64)) x ∙ ap (bit_xor 0) y) in
    omega (arith, z)

fold33-lt : (x : ℕ) → x < 2 ^ 64 → fold33 x < 2 ^ 64
unfolding fold33
fold33-lt x h = bit_xor-lt x (x / 2 ^ 33) h (omega arith)

-- Done twice it is undone.
fold33-fold33 : (x : ℕ) → x < 2 ^ 64 → fold33 (fold33 x) ≡ x
unfolding fold33
fold33-fold33 x h =
    let far : x / 2 ^ 33 / 2 ^ 33 ≡ 0 = omega arith in
    let high : bit_xor x (x / 2 ^ 33) / 2 ^ 33 ≡ x / 2 ^ 33 =
      bit_xor-shift 33 x (x / 2 ^ 33)
      ∙ (ap (bit_xor (x / 2 ^ 33)) far ∙ bit_xor_zero (x / 2 ^ 33)) in
    ap (bit_xor (bit_xor x (x / 2 ^ 33))) high ∙ bit_xor-cancel x (x / 2 ^ 33)

mul64-lt : (a b : ℕ) → mul64 a b < 2 ^ 64
unfolding mul64
mul64-lt a b = omega arith

-- The two factors are odd, so they have inverses.
first_inverse : (x : ℕ) → x < 2 ^ 64 → mul64 (mul64 x 0xFF51AFD7ED558CCD) 0x4F74430C22A54005 ≡ x
unfolding mul64
first_inverse x h = omega arith

second_inverse : (x : ℕ) → x < 2 ^ 64 → mul64 (mul64 x 0xC4CEB9FE1A85EC53) 0x9CB4B2F8129337DB ≡ x
unfolding mul64
second_inverse x h = omega arith

-- The mixing of a word can be undone.
unmix : ℕ → ℕ
unmix y = fold33 (mul64 (fold33 (mul64 (fold33 y) 0x9CB4B2F8129337DB)) 0x4F74430C22A54005)

unmix-mix : (x : ℕ) → x < 2 ^ 64 → unmix (mix x) ≡ x
unfolding unmix mix
unmix-mix x h =
    let a = fold33 x in
    let b = mul64 a 0xFF51AFD7ED558CCD in
    let c = fold33 b in
    let d = mul64 c 0xC4CEB9FE1A85EC53 in
    let b_lt : b < 2 ^ 64 = mul64-lt a 0xFF51AFD7ED558CCD in
    let d_back : fold33 (fold33 d) ≡ d = fold33-fold33 d (mul64-lt c 0xC4CEB9FE1A85EC53) in
    let c_back = second_inverse c (fold33-lt b b_lt) in
    let b_back : fold33 (fold33 b) ≡ b = fold33-fold33 b b_lt in
    let a_back = first_inverse a (fold33-lt x h) in
    ap (λ n. fold33 (mul64 (fold33 (mul64 n 0x9CB4B2F8129337DB)) 0x4F74430C22A54005)) d_back
    ∙ (ap (λ n. fold33 (mul64 (fold33 n) 0x4F74430C22A54005)) c_back
        ∙ (ap (λ n. fold33 (mul64 n 0x4F74430C22A54005)) b_back
            ∙ (ap fold33 a_back ∙ fold33-fold33 x h)))

mix_injective : (x y : ℕ) → x < 2 ^ 64 → y < 2 ^ 64 → mix x ≡ mix y → x ≡ y
mix_injective x y h k e = sym (unmix-mix x h) ∙ (ap unmix e ∙ unmix-mix y k)

bit_xor_injective : (a b c : ℕ) → bit_xor a c ≡ bit_xor b c → a ≡ b
bit_xor_injective a b c e =
    sym (bit_xor-cancel a c) ∙ (ap (λ n. bit_xor n c) e ∙ bit_xor-cancel b c)

generation_injective :
    (g h : ℕ) → g < 4 → h < 4 → mul64 g 0xBF58476D1CE4E5B9 ≡ mul64 h 0xBF58476D1CE4E5B9 → g ≡ h
unfolding mul64
generation_injective g h p q e = omega arith

tile_word : ℕ → ℕ → ℕ → ℕ
tile_word offset seed g =
    bit_xor (bit_xor offset (mul64 seed 0x9E3779B97F4A7C15)) (mul64 g 0xBF58476D1CE4E5B9)

tile_word-lt : (offset seed g : ℕ) → offset < 2 ^ 64 → tile_word offset seed g < 2 ^ 64
unfolding tile_word
tile_word-lt offset seed g h =
    bit_xor-lt _ _ (bit_xor-lt offset _ h (mul64-lt seed 0x9E3779B97F4A7C15))
      (mul64-lt g 0xBF58476D1CE4E5B9)

tile_injective :
    (offset offset' seed g g' : ℕ)
    → offset < 2 ^ 64
    → offset' < 2 ^ 64
    → compute_expected_tile_value offset seed g ≡ compute_expected_tile_value offset' seed g'
    → tile_word offset seed g ≡ tile_word offset' seed g'
unfolding tile_word compute_expected_tile_value
tile_injective offset offset' seed g g' h k e =
    mix_injective _ _ (tile_word-lt offset seed g h) (tile_word-lt offset' seed g' k) e

-- The generation of a block can be told from its content.
pub tile_generation :
    (offset seed g h : ℕ)
    → offset < 2 ^ 64
    → g < 4
    → h < 4
    → compute_expected_tile_value offset seed g ≡ compute_expected_tile_value offset seed h
    → g ≡ h
unfolding tile_word
tile_generation offset seed g h word small small' e =
    let base = bit_xor offset (mul64 seed 0x9E3779B97F4A7C15) in
    let same = tile_injective offset offset seed g h word word e in
    let swapped =
      bit_xor_comm (mul64 g 0xBF58476D1CE4E5B9) base
      ∙ (same ∙ bit_xor_comm base (mul64 h 0xBF58476D1CE4E5B9)) in
    generation_injective g h small small' (bit_xor_injective _ _ base swapped)

pub compute_expected_tile_value-lt :
    (offset seed g : ℕ) → compute_expected_tile_value offset seed g < 2 ^ 64
unfolding compute_expected_tile_value mix
compute_expected_tile_value-lt offset seed g = fold33-lt _ (mul64-lt _ 0xC4CEB9FE1A85EC53)

-- A block that is rewritten gets another content: whatever its offset, the journal's seed and its
-- generation, the value after the next generation differs from the value before.
pub compute_expected_tile_value-next_gen :
    (offset seed g : ℕ)
    → offset < 2 ^ 64
    → g < 4
    → compute_expected_tile_value offset seed (next_gen g)
      ≢ compute_expected_tile_value offset seed g
compute_expected_tile_value-next_gen offset seed g h small e =
    let (_, next_small, changed, _) = next_gen_lem g small in
    changed (tile_generation offset seed (next_gen g) g h next_small small e)

-- Different blocks of a journal are filled with different words in the same generation.
pub compute_expected_tile_value_injective :
    (offset offset' seed g : ℕ)
    → offset < 2 ^ 64
    → offset' < 2 ^ 64
    → offset ≢ offset'
    → compute_expected_tile_value offset seed g ≢ compute_expected_tile_value offset' seed g
unfolding tile_word
compute_expected_tile_value_injective offset offset' seed g h k differ e = differ (
    bit_xor_injective _ _ (mul64 seed 0x9E3779B97F4A7C15) (
      bit_xor_injective _ _ (mul64 g 0xBF58476D1CE4E5B9)
        (tile_injective offset offset' seed g g h k e)))
