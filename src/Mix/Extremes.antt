-- ===== src/Mix/Extremes.antt =====
-- What `BlockSizeMix::parse` guarantees of a mix, and what `getNextSize` then returns.
use elbencho.Prelude.{
  ℕ, ◌%◌, ◌≤◌, ◌<◌, ◌≡◌, ◌≢◌, false, List, [], ◌∷◌, ◌++◌, ok, Error, arith, length, min, max, All,
  subst, throw_if, ◌==◌, ok-injective, >>=-eq-ok, Bool-cases, inl, inr,
}
use elbencho.Units.{Text}
use elbencho.Mix.{
  Mix, is_seen, add_entry, parse_parts, parse_entries, parse, max_of, min_of, of_entries, find_size,
  back_size, is_mix, get_next_size,
}

abbrev pub IsPositive : ℕ × ℕ → Type 0
IsPositive e = (0 < e.0) × (0 < e.1)

abbrev pub Within : ℕ → ℕ → ℕ × ℕ → Type 0
Within lo hi e = (lo ≤ e.0) × (e.0 ≤ hi)

-- No size stands twice in the list.
abbrev pub HasDistinctSizes : List (ℕ × ℕ) → Type 0
HasDistinctSizes [] = Unit {0}
HasDistinctSizes (e ∷ es) = All (λ (f : ℕ × ℕ). e.0 ≢ f.0) es × HasDistinctSizes es

abbrev pub Entries : List (ℕ × ℕ) → Type 0
Entries es = All IsPositive es × HasDistinctSizes es

pub record IsValid (m : Mix) : Type 0 where
  pub nonempty : 0 < length m.sizes_and_weights
  pub entries : Entries m.sizes_and_weights
  pub within : All (Within m.min_size m.max_size) m.sizes_and_weights
  pub positive : 0 < m.min_size
  pub ordered : m.min_size ≤ m.max_size

All-append_one {ℓ κ} :
    {A : Type ℓ} (P : A → Type κ) (xs : List A) (x : A) → All P xs → P x → All P (xs ++ x ∷ [])
All-append_one P [] x h p = (p, tt)
All-append_one P (y ∷ xs) x h p = (h.0, All-append_one P xs x h.1 p)

is_seen-ne :
    (size w : ℕ) (es : List (ℕ × ℕ))
    → is_seen size es ≡ false
    → HasDistinctSizes es
    → HasDistinctSizes (es ++ (size, w) ∷ [])
unfolding is_seen
is_seen-ne size w [] h d = (tt, tt)
is_seen-ne size w ((s, v) ∷ es) h d = (
  All-append_one (λ (f : ℕ × ℕ). s ≢ f.0) es (size, w) d.0 (ground arith),
  is_seen-ne size w es (ground arith) d.1,
)

add_entry-Entries :
    (size w : ℕ) (es fs : List (ℕ × ℕ)) → add_entry size w es ≡ ok fs → Entries es → Entries fs
unfolding add_entry
add_entry-Entries size w es fs e (p, d) =
    let (_, a, e1) = >>=-eq-ok (throw_if (size == 0) Error.prog_exception) _ e in
    let (_, b, e2) = >>=-eq-ok (throw_if (w == 0) Error.prog_exception) _ e1 in
    let (_, c, e3) = >>=-eq-ok (throw_if (is_seen size es) Error.prog_exception) _ e2 in
    subst Entries (ok-injective e3) (
      All-append_one IsPositive es (size, w) p (ground arith),
      is_seen-ne size w es (ground arith) d,
    )

module _ (split : ℕ → Text → List Text) where
  parse_entries-Entries :
      (ts : List Text) (es fs : List (ℕ × ℕ))
      → parse_entries split ts es ≡ ok fs
      → Entries es
      → Entries fs
  unfolding parse_entries
  parse_entries-Entries [] es fs e h = subst Entries (ok-injective e) h
  parse_entries-Entries ([] ∷ ts) es fs e h = parse_entries-Entries ts es fs e h
  parse_entries-Entries ((c ∷ cs) ∷ ts) es fs e h =
      let ((size, w), p, q) = >>=-eq-ok (parse_parts (split b':' (c ∷ cs))) _ e in
      let (es', r, t) = >>=-eq-ok (add_entry size w es) _ q in
      parse_entries-Entries ts es' fs t (add_entry-Entries size w es es' r h)

-- The loops over the sizes bound each of them, and end at a bound that is at most (least) theirs.
max_of-ge :
    (m : ℕ) (es : List (ℕ × ℕ)) → (m ≤ max_of m es) × All (λ (e : ℕ × ℕ). e.0 ≤ max_of m es) es
unfolding max_of
max_of-ge m [] = (omega arith, tt)
max_of-ge m ((s, w) ∷ es) =
    let (h, rest) = max_of-ge (max m s) es in (omega arith, (omega arith, rest))

min_of-le :
    (m : ℕ) (es : List (ℕ × ℕ)) → (min_of m es ≤ m) × All (λ (e : ℕ × ℕ). min_of m es ≤ e.0) es
unfolding min_of
min_of-le m [] = (omega arith, tt)
min_of-le m ((s, w) ∷ es) =
    let (h, rest) = min_of-le (min m s) es in (omega arith, (omega arith, rest))

min_of-pos : (m : ℕ) (es : List (ℕ × ℕ)) → 0 < m → All IsPositive es → 0 < min_of m es
unfolding min_of
min_of-pos m [] h p = h
min_of-pos m ((s, w) ∷ es) h p = min_of-pos (min m s) es (omega arith) p.1

All-Within :
    (lo hi : ℕ) (es : List (ℕ × ℕ))
    → All (λ (e : ℕ × ℕ). lo ≤ e.0) es
    → All (λ (e : ℕ × ℕ). e.0 ≤ hi) es
    → All (Within lo hi) es
All-Within lo hi [] p q = tt
All-Within lo hi (e ∷ es) p q = ((p.0, q.0), All-Within lo hi es p.1 q.1)

of_entries-IsValid : (es : List (ℕ × ℕ)) (m : Mix) → of_entries es ≡ ok m → Entries es → IsValid m
unfolding of_entries
of_entries-IsValid [] m e h = cc
of_entries-IsValid ((s, w) ∷ es) m e h =
    let (a, above) = max_of-ge s ((s, w) ∷ es) in
    let (b, below) = min_of-le s ((s, w) ∷ es) in
    subst IsValid (ok-injective e) (record {
      nonempty = omega arith;
      entries = h;
      within = All-Within _ _ ((s, w) ∷ es) below above;
      positive = min_of-pos s ((s, w) ∷ es) h.0.0.0 h.0;
      ordered = omega arith;
    })

-- Whatever text the parser accepts gives a mix of at least one entry, without a zero size, a zero
-- weight or a size that stands twice, whose `minSize` and `maxSize` enclose all its sizes.
pub parse-IsValid :
    (split : ℕ → Text → List Text) (s : Text) (m : Mix) → parse split s ≡ ok m → IsValid m
unfolding parse
parse-IsValid split s m e =
    let (es, p, q) = >>=-eq-ok (parse_entries split (split b',' s) []) _ e in
    of_entries-IsValid es m q (parse_entries-Entries split (split b',' s) [] es p (tt, tt))

find_size-Within :
    (lo hi d x : ℕ) (cs : List ℕ) (es : List (ℕ × ℕ))
    → All (Within lo hi) es
    → (lo ≤ x) × (x ≤ hi)
    → (lo ≤ find_size d cs es x) × (find_size d cs es x ≤ hi)
unfolding find_size
find_size-Within lo hi d x [] es h p = p
find_size-Within lo hi d x (c ∷ cs) [] h p = p
find_size-Within lo hi d x (c ∷ cs) ((s, w) ∷ es) h p =
    let ih = find_size-Within lo hi d x cs es h.1 p in ground arith

back_size-Within :
    (lo hi : ℕ) (es : List (ℕ × ℕ))
    → 0 < length es
    → All (Within lo hi) es
    → (lo ≤ back_size es) × (back_size es ≤ hi)
unfolding back_size
back_size-Within lo hi [] l h = absurd (omega arith)
back_size-Within lo hi ((s, w) ∷ []) l h = h.0
back_size-Within lo hi (e ∷ f ∷ es) l h = back_size-Within lo hi (f ∷ es) (omega arith) h.1

-- A block size that is drawn from a valid mix lies between its `minSize` and its `maxSize`, so it
-- is never zero.
pub get_next_size-Within :
    {G : Type 0} (next : G → ℕ × G) (m : Mix) (g g' : G) (n : ℕ)
    → IsValid m
    → get_next_size next m g ≡ ok (n, g')
    → (0 < n) × (m.min_size ≤ n) × (n ≤ m.max_size)
unfolding get_next_size
get_next_size-Within next m g g' n v e = ground (
  arith,
  v,
  find_size-Within m.min_size m.max_size ((next g).0 % m.total_weight)
      (back_size m.sizes_and_weights) m.cumulative_weights m.sizes_and_weights v.within
      (back_size-Within m.min_size m.max_size m.sizes_and_weights v.nonempty v.within),
)

-- A draw succeeds where the total weight has not wrapped to zero.
pub get_next_size-total :
    {G : Type 0} (next : G → ℕ × G) (m : Mix) (g : G)
    → 0 < m.total_weight
    → (n : ℕ) × (g' : G) × (get_next_size next m g ≡ ok (n, g'))
unfolding get_next_size
get_next_size-total next m g h = elim (Bool-cases (is_mix m)) [
  | inl mixed ↦ (
    find_size ((next g).0 % m.total_weight) m.cumulative_weights m.sizes_and_weights
        (back_size m.sizes_and_weights),
    (next g).1,
    ground arith,
  )
  | inr single ↦ (m.max_size, g, ground arith)
]
