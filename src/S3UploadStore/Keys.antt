-- ===== src/S3UploadStore/Keys.antt =====
-- The order of the keys of the upload store.
use elbencho.Prelude.{
  ℕ, ◌≡◌, ◌<◌, refl, sym, subst, arith, Bool, true, false, not, ◌&&◌, [], ◌∷◌, ltb, ltb→lt, ltb→le,
  lt→ltb, length, Bool-cases, inl, inr, ◌⊎◌, ◌∙◌,
}
use elbencho.Units.{Text}
use elbencho.S3UploadStore.{UploadKey, text_less, key_less, same_key}

ltb-asym : (a b : ℕ) → ltb a b ≡ true → ltb b a ≡ false
ltb-asym a b h = ground arith

ltb_irrefl : (a : ℕ) → ltb a a ≡ false
ltb_irrefl a = ground arith

neither : (a b : ℕ) → ltb a b ≡ false → ltb b a ≡ false → a ≡ b
neither a b h k = let x = ltb→le a b h in let y = ltb→le b a k in omega arith

text_less_irrefl : (s : Text) → text_less s s ≡ false
unfolding text_less
text_less_irrefl [] = refl
text_less_irrefl (c ∷ cs) = rw (ltb_irrefl c, text_less_irrefl cs) refl

text_less-total : (s t : Text) → text_less s t ≡ false → text_less t s ≡ false → s ≡ t
unfolding text_less
text_less-total [] [] h k = refl
text_less-total [] (d ∷ ds) h k = cc
text_less-total (c ∷ cs) [] h k = cc
text_less-total (c ∷ cs) (d ∷ ds) h k = elim (Bool-cases (ltb c d)) [
  | inl less ↦ let f : true ≡ false = rw less at h in cc
  | inr a ↦ elim (Bool-cases (ltb d c)) [
    | inl more ↦ let f : true ≡ false = rw more at k in cc
    | inr b ↦
        let e : c ≡ d = neither c d a b in
        let r : cs ≡ ds = text_less-total cs ds (rw (a, b) at h) (rw (a, b) at k) in cc
  ]
]

text_less-asym : (s t : Text) → text_less s t ≡ true → text_less t s ≡ false
unfolding text_less
text_less-asym [] [] h = refl
text_less-asym [] (d ∷ ds) h = refl
text_less-asym (c ∷ cs) [] h = cc
text_less-asym (c ∷ cs) (d ∷ ds) h = elim (Bool-cases (ltb c d)) [
  | inl less ↦ rw (ltb-asym c d less, less) refl
  | inr a ↦ elim (Bool-cases (ltb d c)) [
    | inl more ↦ let f : false ≡ true = rw (a, more) at h in cc
    | inr b ↦ rw (a, b) (text_less-asym cs ds (rw (a, b) at h))
  ]
]

pub same_key_refl : (a : UploadKey) → same_key a a ≡ true
unfolding same_key key_less
same_key_refl a =
    rw
      (
        ltb_irrefl (length a.object_name),
        text_less_irrefl a.object_name,
        text_less_irrefl a.bucket_name,
      )
      refl

text_less_trans :
    (s t u : Text) → text_less s t ≡ true → text_less t u ≡ true → text_less s u ≡ true
unfolding text_less
text_less_trans s [] u h k = cc
text_less_trans s (d ∷ ds) [] h k = cc
text_less_trans [] (d ∷ ds) (e ∷ es) h k = refl
text_less_trans (c ∷ cs) (d ∷ ds) (e ∷ es) h k = elim (Bool-cases (ltb c d)) [
  | inl cd ↦ elim (Bool-cases (ltb e d)) [
    | inl ed ↦ let f : false ≡ true = rw (ed, ltb-asym e d ed) at k in cc
    | inr de ↦ rw (less_le c d e cd de) refl
  ]
  | inr a ↦ elim (Bool-cases (ltb d c)) [
    | inl dc ↦ let f : false ≡ true = rw (a, dc) at h in cc
    | inr b ↦
        let same : c ≡ d = neither c d a b in
        elim (Bool-cases (ltb c e)) [
          | inl ce ↦ rw ce refl
          | inr ce ↦ elim (Bool-cases (ltb e c)) [
            | inl ec ↦
                let x : ltb d e ≡ false = subst (λ n. ltb n e ≡ false) same ce in
                let y : ltb e d ≡ true = subst (λ n. ltb e n ≡ true) same ec in
                let f : false ≡ true = rw (x, y) at k in cc
            | inr ec ↦
                let x : ltb d e ≡ false = subst (λ n. ltb n e ≡ false) same ce in
                let y : ltb e d ≡ false = subst (λ n. ltb e n ≡ false) same ec in
                rw (ce, ec) (text_less_trans cs ds es (rw (a, b) at h) (rw (x, y) at k))
          ]
        ]
  ]
]
  where
    less_le : (c d e : ℕ) → ltb c d ≡ true → ltb e d ≡ false → ltb c e ≡ true
    less_le c d e h k = ground arith

-- One key before another, in words.
abbrev IsBefore : UploadKey → UploadKey → Type 0
IsBefore a b =
    (length a.object_name < length b.object_name)
    ⊎ ((length a.object_name ≡ length b.object_name)
        × ((text_less a.object_name b.object_name ≡ true)
            ⊎ ((a.object_name ≡ b.object_name) × (text_less a.bucket_name b.bucket_name ≡ true))))

key_less-IsBefore : (a b : UploadKey) → key_less a b ≡ true → IsBefore a b
unfolding key_less
key_less-IsBefore a b h = elim (Bool-cases (ltb (length a.object_name) (length b.object_name))) [
  | inl less ↦ inl (ltb→lt _ _ less)
  | inr p ↦ elim (Bool-cases (ltb (length b.object_name) (length a.object_name))) [
    | inl more ↦ let f : false ≡ true = rw (p, more) at h in cc
    | inr q ↦ inr (
      neither _ _ p q,
      (elim (Bool-cases (text_less a.object_name b.object_name)) [
        | inl less ↦ inl less
        | inr x ↦ elim (Bool-cases (text_less b.object_name a.object_name)) [
          | inl more ↦ let f : false ≡ true = rw (p, q, x, more) at h in cc
          | inr y ↦ elim (Bool-cases (text_less a.bucket_name b.bucket_name)) [
            | inl less ↦ inr (text_less-total a.object_name b.object_name x y, less)
            | inr z ↦ let f : false ≡ true = rw (p, q, x, y, z) at h in cc
          ]
        ]
      ]),
    )
  ]
]

IsBefore-key_less : (a b : UploadKey) → IsBefore a b → key_less a b ≡ true
unfolding key_less
IsBefore-key_less a b (inl h) = rw (lt→ltb _ _ h) refl
IsBefore-key_less a b (inr (e, inl h)) = rw (e, ltb_irrefl (length b.object_name), h) refl
IsBefore-key_less a b (inr (e, inr (o, h))) =
    rw (o, ltb_irrefl (length b.object_name), text_less_irrefl b.object_name, h) refl

IsBefore-trans : (a b c : UploadKey) → IsBefore a b → IsBefore b c → IsBefore a c
IsBefore-trans a b c (inl h) (inl k) = inl (omega arith)
IsBefore-trans a b c (inl h) (inr (e, k)) = inl (omega arith)
IsBefore-trans a b c (inr (e, h)) (inl k) = inl (omega arith)
IsBefore-trans a b c (inr (e, h)) (inr (f, k)) = inr (e ∙ f, names h k)
  where
    names :
        (text_less a.object_name b.object_name ≡ true)
          ⊎ ((a.object_name ≡ b.object_name) × (text_less a.bucket_name b.bucket_name ≡ true))
        → (text_less b.object_name c.object_name ≡ true)
          ⊎ ((b.object_name ≡ c.object_name) × (text_less b.bucket_name c.bucket_name ≡ true))
        → (text_less a.object_name c.object_name ≡ true)
          ⊎ ((a.object_name ≡ c.object_name) × (text_less a.bucket_name c.bucket_name ≡ true))
    names (inl x) (inl y) = inl (text_less_trans _ b.object_name _ x y)
    names (inl x) (inr (p, y)) = inl (subst (λ o. text_less a.object_name o ≡ true) p x)
    names (inr (p, x)) (inl y) = inl (subst (λ o. text_less o c.object_name ≡ true) (sym p) y)
    names (inr (p, x)) (inr (q, y)) = inr (p ∙ q, text_less_trans _ b.bucket_name _ x y)

IsBefore-irrefl : (a : UploadKey) → ¬ IsBefore a a
IsBefore-irrefl a (inl h) = absurd (omega arith)
IsBefore-irrefl a (inr (e, inl h)) = let f = text_less_irrefl a.object_name in cc
IsBefore-irrefl a (inr (e, inr (o, h))) = let f = text_less_irrefl a.bucket_name in cc

not-both : (a b : Bool) → (not a && not b) ≡ true → (a ≡ false) × (b ≡ false)
not-both true b h = cc
not-both false true h = cc
not-both false false h = (refl, refl)

-- Keys that the map takes for the same are equal: none of the two strings is ignored.
pub same_key-eq : (a b : UploadKey) → same_key a b ≡ true → a ≡ b
unfolding same_key key_less
same_key-eq a b h =
    let (k, l) = not-both (key_less a b) (key_less b a) h in
    elim (Bool-cases (ltb (length a.object_name) (length b.object_name))) [
      | inl less ↦ let f : true ≡ false = rw less at k in cc
      | inr p ↦ elim (Bool-cases (ltb (length b.object_name) (length a.object_name))) [
        | inl more ↦ let f : true ≡ false = rw more at l in cc
        | inr q ↦ elim (Bool-cases (text_less a.object_name b.object_name)) [
          | inl less ↦ let f : true ≡ false = rw (p, q, less) at k in cc
          | inr x ↦ elim (Bool-cases (text_less b.object_name a.object_name)) [
            | inl more ↦ let f : true ≡ false = rw (p, q, x, more) at l in cc
            | inr y ↦ elim (Bool-cases (text_less a.bucket_name b.bucket_name)) [
              | inl less ↦ let f : true ≡ false = rw (p, q, x, y, less) at k in cc
              | inr z ↦ elim (Bool-cases (text_less b.bucket_name a.bucket_name)) [
                | inl more ↦ let f : true ≡ false = rw (p, q, x, y, more) at l in cc
                | inr w ↦
                    let objects = text_less-total a.object_name b.object_name x y in
                    let buckets = text_less-total a.bucket_name b.bucket_name z w in cc
              ]
            ]
          ]
        ]
      ]
    ]

pub record IsStrictOrder {A : Type 0} (less : A → A → Bool) : Type 0 where
  pub irreflexive : (a : A) → less a a ≡ false
  pub transitive : (a b c : A) → less a b ≡ true → less b c ≡ true → less a c ≡ true
  pub total : (a b : A) → (a ≡ b) ⊎ ((less a b ≡ true) ⊎ (less b a ≡ true))

key_less_irrefl : (a : UploadKey) → key_less a a ≡ false
key_less_irrefl a = elim (Bool-cases (key_less a a)) [
  | inl less ↦ absurd (IsBefore-irrefl a (key_less-IsBefore a a less))
  | inr e ↦ e
]

key_less_trans :
    (a b c : UploadKey) → key_less a b ≡ true → key_less b c ≡ true → key_less a c ≡ true
key_less_trans a b c h k =
    IsBefore-key_less a c (IsBefore-trans a b c (key_less-IsBefore a b h) (key_less-IsBefore b c k))

key_less-total : (a b : UploadKey) → (a ≡ b) ⊎ ((key_less a b ≡ true) ⊎ (key_less b a ≡ true))
unfolding same_key
key_less-total a b = elim (Bool-cases (key_less a b)) [
  | inl h ↦ inr (inl h)
  | inr h ↦ elim (Bool-cases (key_less b a)) [
    | inl k ↦ inr (inr k)
    | inr k ↦ inl (same_key-eq a b (rw (h, k) refl))
  ]
]

-- The order of the keys is what `std::map` asks for, and total: no key comes before itself, it is
-- transitive, and of two different keys one comes before the other.
pub key_less-IsStrictOrder : IsStrictOrder key_less
key_less-IsStrictOrder = record {
  irreflexive = key_less_irrefl;
  transitive = key_less_trans;
  total = key_less-total;
}
