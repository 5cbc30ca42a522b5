-- ===== src/S3UploadStore/Uploads.antt =====
-- What the operations of the upload store leave under each key.
use elbencho.Prelude.{
  ℕ, ◌≡◌, ◌≢◌, refl, ap, sym, subst, ◌∙◌, true, false, [], ◌∷◌, ltb, if◌then◌else◌, Option, none,
  some, Bool-cases, inl, inr, ◌⊎◌, Result, ok, throws,
}
use elbencho.Units.{Text}
use elbencho.S3UploadStore.{
  UploadKey, UploadElem, UploadMap, key_less, same_key, find, put, erase, fresh,
  get_multipart_upload_id, add_completed_part, get_found, add_found, with_part,
}
use elbencho.S3UploadStore.Keys.{same_key_refl, same_key-eq}

pub Option-cases : {A : Type 0} (x : Option A) → (x ≡ none) ⊎ ((a : A) × (x ≡ some a))
Option-cases none = inl refl
Option-cases (some a) = inr (a, refl)

pub same_key-ne : (a b : UploadKey) → a ≢ b → same_key a b ≡ false
same_key-ne a b ne = elim (Bool-cases (same_key a b)) [
  | inl e ↦ absurd (ne (same_key-eq a b e))
  | inr e ↦ e
]

pub key_eq-or-ne : (a b : UploadKey) → (a ≡ b) ⊎ (a ≢ b)
key_eq-or-ne a b = elim (Bool-cases (same_key a b)) [
  | inl e ↦ inl (same_key-eq a b e)
  | inr e ↦ inr (λ p.
      let f : true ≡ false = sym (subst (λ x. same_key a x ≡ true) p (same_key_refl a)) ∙ e in cc)
]

module _ {Part : Type 0} where
  find-put_same :
      (key : UploadKey) (elem : UploadElem Part) (m : UploadMap Part)
      → find key (put key elem m) ≡ some elem
  unfolding find put
  find-put_same key elem [] = rw (same_key_refl key) refl
  find-put_same key elem ((k, e) ∷ m) = elim (Bool-cases (same_key key k)) [
    | inl same ↦ rw (same, same) refl
    | inr ne ↦ elim (Bool-cases (key_less key k)) [
      | inl less ↦ rw (ne, less, same_key_refl key) refl
      | inr more ↦ rw (ne, more, ne) (find-put_same key elem m)
    ]
  ]

  find-put_other :
      (key other : UploadKey) (elem : UploadElem Part) (m : UploadMap Part)
      → other ≢ key
      → find other (put key elem m) ≡ find other m
  unfolding find put
  find-put_other key other elem [] ne = rw (same_key-ne other key ne) refl
  find-put_other key other elem ((k, e) ∷ m) ne = elim (Bool-cases (same_key key k)) [
    | inl same ↦
        let differ =
          subst (λ x. same_key other x ≡ false) (same_key-eq key k same)
            (same_key-ne other key ne) in
        rw (same, differ) refl
    | inr n ↦ elim (Bool-cases (key_less key k)) [
      | inl less ↦ rw (n, less, same_key-ne other key ne) refl
      | inr more ↦
          rw (n, more)
            (ap (λ x. if same_key other k then some e else x) (find-put_other key other elem m ne))
    ]
  ]

  find-erase_same : (key : UploadKey) (m : UploadMap Part) → find key (erase key m) ≡ none
  unfolding find erase
  find-erase_same key [] = refl
  find-erase_same key ((k, e) ∷ m) = elim (Bool-cases (same_key key k)) [
    | inl same ↦ rw same (find-erase_same key m)
    | inr n ↦ rw (n, n) (find-erase_same key m)
  ]

  find-erase_other :
      (key other : UploadKey) (m : UploadMap Part)
      → other ≢ key
      → find other (erase key m) ≡ find other m
  unfolding find erase
  find-erase_other key other [] ne = refl
  find-erase_other key other ((k, e) ∷ m) ne = elim (Bool-cases (same_key key k)) [
    | inl same ↦
        let differ =
          subst (λ x. same_key other x ≡ false) (same_key-eq key k same)
            (same_key-ne other key ne) in
        rw (same, differ) (find-erase_other key other m ne)
    | inr n ↦
        rw n (ap (λ x. if same_key other k then some e else x) (find-erase_other key other m ne))
  ]

  -- The three outcomes of adding a part, where uploads are completed.
  pub add-missing :
      (key : UploadKey) (n total : ℕ) (part : Part) (m : UploadMap Part)
      → find key m ≡ none
      → add_completed_part false key n total part m ≡ (none, m)
  unfolding add_completed_part add_found
  add-missing key n total part m h = ap (λ x. add_found x false key n total part m) h

  pub add-more :
      (key : UploadKey) (n total : ℕ) (part : Part) (m : UploadMap Part) (e : UploadElem Part)
      → find key m ≡ some e
      → ltb (with_part e n part).num_bytes_done total ≡ true
      → add_completed_part false key n total part m ≡ (none, put key (with_part e n part) m)
  unfolding add_completed_part add_found
  add-more key n total part m e h less =
      ap (λ x. add_found x false key n total part m) h ∙ (rw less refl)

  pub add-last :
      (key : UploadKey) (n total : ℕ) (part : Part) (m : UploadMap Part) (e : UploadElem Part)
      → find key m ≡ some e
      → ltb (with_part e n part).num_bytes_done total ≡ false
      → add_completed_part false key n total part m
        ≡ (some (with_part e n part).completed_parts, erase key m)
  unfolding add_completed_part add_found
  add-last key n total part m e h full =
      ap (λ x. add_found x false key n total part m) h ∙ (rw full refl)

  -- Other keys are not touched.
  pub add-other :
      (key other : UploadKey) (n total : ℕ) (part : Part) (m : UploadMap Part)
      → other ≢ key
      → find other (add_completed_part false key n total part m).1 ≡ find other m
  add-other key other n total part m ne = elim (Option-cases (find key m)) [
    | inl missing ↦ rw (add-missing key n total part m missing) refl
    | inr (e, found) ↦ elim (Bool-cases (ltb (with_part e n part).num_bytes_done total)) [
      | inl less ↦ rw (add-more key n total part m e found less) (find-put_other key other _ m ne)
      | inr full ↦ rw (add-last key n total part m e found full) (find-erase_other key other m ne)
    ]
  ]

  pub find-added :
      (key : UploadKey) (n total : ℕ) (part : Part) (m : UploadMap Part) (e : UploadElem Part)
      → find key m ≡ some e
      → ltb (with_part e n part).num_bytes_done total ≡ true
      → find key (add_completed_part false key n total part m).1 ≡ some (with_part e n part)
  find-added key n total part m e found less =
      rw (add-more key n total part m e found less) (find-put_same key _ m)

  -- An id that was made is the one that every later call gets.
  pub get-same :
      (key : UploadKey) (answer : Result Text) (m : UploadMap Part) (e : UploadElem Part)
      → find key m ≡ some e
      → get_multipart_upload_id key answer m ≡ (ok e.upload_id, m)
  unfolding get_multipart_upload_id get_found
  get-same key answer m e found = ap (λ x. get_found x key answer m) found

  get-missing :
      (key other : UploadKey) (answer : Result Text) (m : UploadMap Part)
      → find key m ≡ none
      → other ≢ key
      → find other (get_multipart_upload_id key answer m).1 ≡ find other m
  unfolding get_multipart_upload_id get_found
  get-missing key other (ok id) m missing ne =
      ap (λ x. find other (get_found x key (ok id) m).1) missing
      ∙ find-put_other key other (fresh id) m ne
  get-missing key other (throws x) m missing ne =
      ap (λ f. find other (get_found f key (throws x) m).1) missing

  -- An upload that exists keeps what it has when any worker asks for an id.
  pub get-kept :
      (key other : UploadKey) (answer : Result Text) (m : UploadMap Part) (e : UploadElem Part)
      → find other m ≡ some e
      → find other (get_multipart_upload_id key answer m).1 ≡ some e
  get-kept key other answer m e found = elim (Option-cases (find key m)) [
    | inr (e', there) ↦ rw (get-same key answer m e' there) found
    | inl missing ↦
        get-missing key other answer m missing
          (λ same. let there = subst (λ k. find k m ≡ some e) same found in cc)
        ∙ found
  ]
