-- ===== src/Mix/Overflow.antt =====
-- Weights whose sum wraps around: what source/toolkits/BlockSizeMix.cpp makes of them.
use elbencho.Prelude.{
  ℕ, ◌%◌, ◌<◌, ◌≡◌, ◌≢◌, ◌∙◌, refl, ap, sym, subst, arith, false, List, [], ◌∷◌, ◌++◌, All, length,
  ok, throws, Error, u64_mod, ◌>>=◌, ◌==◌,
}
use elbencho.Units.{Text}
use elbencho.Mix.{
  Mix, is_seen, add_entry, parse_parts, parse_entries, parse, of_entries, get_next_size,
}
use elbencho.Mix.Extremes.{Entries, HasDistinctSizes, IsPositive}
use elbencho.Mix.Weights.{sum_weights, get_next_size-divides}

last_first :
    (xs : List (ℕ × ℕ)) (e : ℕ × ℕ) (ys : List (ℕ × ℕ)) → (xs ++ (e ∷ [])) ++ ys ≡ xs ++ (e ∷ ys)
last_first [] e ys = refl
last_first (x ∷ xs) e ys = ap (λ zs. x ∷ zs) (last_first xs e ys)

middle :
    (P : ℕ × ℕ → Type 0) (xs : List (ℕ × ℕ)) (e : ℕ × ℕ) (ys : List (ℕ × ℕ))
    → All P (xs ++ (e ∷ ys))
    → P e
middle P [] e ys h = h.0
middle P (x ∷ xs) e ys h = middle P xs e ys h.1

is_seen-new :
    (xs : List (ℕ × ℕ)) (s w : ℕ) (ys : List (ℕ × ℕ))
    → HasDistinctSizes (xs ++ ((s, w) ∷ ys))
    → is_seen s xs ≡ false
unfolding is_seen
is_seen-new [] s w ys h = refl
is_seen-new ((a, b) ∷ xs) s w ys h =
    let differ = middle (λ (f : ℕ × ℕ). a ≢ f.0) xs (s, w) ys h.0 in
    let rest = is_seen-new xs s w ys h.1 in ground (arith, differ, rest)

add_entry-new :
    (xs : List (ℕ × ℕ)) (s w : ℕ) (ys : List (ℕ × ℕ))
    → Entries (xs ++ ((s, w) ∷ ys))
    → add_entry s w xs ≡ ok (xs ++ ((s, w) ∷ []))
unfolding add_entry
add_entry-new xs s w ys (p, d) =
    let (size, weight) = middle IsPositive xs (s, w) ys p in
    let new = is_seen-new xs s w ys d in
    let some_size : (s == 0) ≡ false = ground (arith, size) in
    let some_weight : (w == 0) ≡ false = ground (arith, weight) in
    rw (some_size, some_weight, new) refl

module _ (split : ℕ → Text → List Text) where
  -- The entries as the parser reads them off the pieces of the text between the commas.
  abbrev pub AreRead : List Text → List (ℕ × ℕ) → Type 0
  AreRead [] [] = Unit {0}
  AreRead [] (e ∷ es) = ◌≡◌ {A = ℕ} 0 1
  AreRead (t ∷ ts) [] = ◌≡◌ {A = ℕ} 0 1
  AreRead (t ∷ ts) (e ∷ es) = (0 < length t) × (parse_parts (split b':' t) ≡ ok e) × AreRead ts es

  parse_entries-AreRead :
      (ts : List Text) (acc es : List (ℕ × ℕ))
      → AreRead ts es
      → Entries (acc ++ es)
      → parse_entries split ts acc ≡ ok (acc ++ es)
  unfolding parse_entries
  parse_entries-AreRead [] acc [] r h = ap ok (append_none acc)
    where
      append_none : (xs : List (ℕ × ℕ)) → xs ≡ xs ++ []
      append_none [] = refl
      append_none (x ∷ xs) = ap (λ ys. x ∷ ys) (append_none xs)
  parse_entries-AreRead [] acc (e ∷ es) r h = absurd (omega arith)
  parse_entries-AreRead (t ∷ ts) acc [] r h = absurd (omega arith)
  parse_entries-AreRead ([] ∷ ts) acc (e ∷ es) r h = absurd (omega (arith, r.0))
  parse_entries-AreRead ((c ∷ cs) ∷ ts) acc ((s, w) ∷ es) (some_text, piece, r) h =
      let added = add_entry-new acc s w es h in
      let order = last_first acc (s, w) es in
      let rest =
        parse_entries-AreRead ts (acc ++ ((s, w) ∷ [])) es r (subst Entries (sym order) h) in
      rw piece (rw added (rest ∙ ap ok order))

  -- Weights whose sum is a multiple of 2^64, such as 1 and 2^64 - 1, get past the parser, and make
  -- every draw from the mix divide by zero: this is so of any text whose pieces read as two or more
  -- entries with such weights and with different sizes, none of the sizes and weights being zero.
  pub get_next_size-overflow :
      {G : Type 0} (next : G → ℕ × G) (text : Text) (es : List (ℕ × ℕ)) (g : G)
      → AreRead (split b',' text) es
      → Entries es
      → 1 < length es
      → sum_weights es % u64_mod ≡ 0
      → (m : Mix) × (parse split text ≡ ok m)
        × (get_next_size next m g ≡ throws Error.division_by_zero)
  unfolding parse of_entries
  get_next_size-overflow next text [] g r h two sum = absurd (omega arith)
  get_next_size-overflow next text ((s, w) ∷ es) g r h two sum =
      let read = parse_entries-AreRead (split b',' text) [] ((s, w) ∷ es) r h in
      (
        _,
        ap (λ x. x >>= of_entries) read,
        get_next_size-divides next _ ((s, w) ∷ es) g refl two sum,
      )
