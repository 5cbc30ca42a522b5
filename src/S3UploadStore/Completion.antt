-- ===== src/S3UploadStore/Completion.antt =====
-- The calls of all workers on the shared uploads, in the order in which they get the mutex.
use elbencho.Prelude.{
  ℕ, ◌+◌, ◌<◌, ◌^◌, ◌≡◌, refl, ap, sym, subst, ◌∙◌, arith, Bool, true, ◌||◌, false, List, [], ◌∷◌,
  ◌++◌, ltb, ltb→lt, ltb→le, if◌then◌else◌, Option, none, some, Bool-cases, inl, inr, Result, add64,
  add64-eq,
}
use elbencho.Units.{Text}
use elbencho.S3UploadStore.{
  UploadKey, UploadElem, UploadMap, same_key, find, erase, fresh, with_part,
  get_multipart_upload_id, add_found, add_completed_part,
}
use elbencho.S3UploadStore.Keys.{same_key_refl}
use elbencho.S3UploadStore.Uploads.{
  same_key-ne, key_eq-or-ne, add-more, add-last, add-other, find-added, get-kept,
}

pub data Call (Part : Type 0) : Type 0 where
  get_id : UploadKey → Result Text → Call Part
  add_part : UploadKey → ℕ → Part → Call Part

or_true : (b : Bool) → (b || true) ≡ true
or_true true = refl
or_true false = refl

module _ {Part : Type 0} where
  unfoldable pub handed :
      UploadKey → Option (List Part) → List (UploadKey × List Part) → List (UploadKey × List Part)
  handed key none later = later
  handed key (some parts) later = (key, parts) ∷ later

  -- What the workers are handed to complete, in turn. `no_mpu_completion` is `getS3NoMpuCompletion`,
  -- which is set with the option of this name and for uploads shared among services; `total` is the
  -- size of each object.
  unfoldable pub run :
      Bool → (UploadKey → ℕ) → List (Call Part) → UploadMap Part → List (UploadKey × List Part)
  run no_mpu_completion total [] m = []
  run no_mpu_completion total (get_id key answer ∷ calls) m =
      run no_mpu_completion total calls (get_multipart_upload_id key answer m).1
  run no_mpu_completion total (add_part key n part ∷ calls) m =
      let added = add_completed_part no_mpu_completion key n (total key) part m in
      handed key added.0 (run no_mpu_completion total calls added.1)

  unfoldable pub completions_of : UploadKey → List (UploadKey × List Part) → List (List Part)
  completions_of key [] = []
  completions_of key ((k, parts) ∷ events) =
      let rest = completions_of key events in if same_key key k then parts ∷ rest else rest

  -- The parts of one object, in the order of the calls, and their bytes.
  unfoldable pub parts_of : UploadKey → List (Call Part) → List Part
  parts_of key [] = []
  parts_of key (get_id k answer ∷ calls) = parts_of key calls
  parts_of key (add_part k n part ∷ calls) =
      let rest = parts_of key calls in if same_key key k then part ∷ rest else rest

  unfoldable pub bytes_of : UploadKey → List (Call Part) → ℕ
  bytes_of key [] = 0
  bytes_of key (get_id k answer ∷ calls) = bytes_of key calls
  bytes_of key (add_part k n part ∷ calls) =
      let rest = bytes_of key calls in if same_key key k then n + rest else rest

  -- No part is empty.
  abbrev pub IsFilled : List (Call Part) → Type 0
  IsFilled [] = Unit {0}
  IsFilled (get_id k answer ∷ calls) = IsFilled calls
  IsFilled (add_part k n part ∷ calls) = (0 < n) × IsFilled calls

  handed-other :
      (key k : UploadKey) (r : Option (List Part)) (later : List (UploadKey × List Part))
      → same_key key k ≡ false
      → completions_of key (handed k r later) ≡ completions_of key later
  unfolding handed completions_of
  handed-other key k none later ne = refl
  handed-other key k (some parts) later ne = rw ne refl

  no_parts :
      (key : UploadKey) (calls : List (Call Part))
      → IsFilled calls
      → bytes_of key calls ≡ 0
      → parts_of key calls ≡ []
  unfolding bytes_of parts_of
  no_parts key [] f z = refl
  no_parts key (get_id k answer ∷ calls) f z = no_parts key calls f z
  no_parts key (add_part k n part ∷ calls) f z = elim (Bool-cases (same_key key k)) [
    | inl same ↦ let s : n + bytes_of key calls ≡ 0 = rw same at z in absurd (omega (arith, f.0))
    | inr ne ↦ rw ne (no_parts key calls f.1 (rw ne at z))
  ]

  -- Calls without a part of an object complete nothing of it.
  no_completion :
      (total : UploadKey → ℕ) (key : UploadKey) (calls : List (Call Part)) (m : UploadMap Part)
      → IsFilled calls
      → bytes_of key calls ≡ 0
      → completions_of key (run false total calls m) ≡ []
  unfolding run bytes_of completions_of
  no_completion total key [] m f z = refl
  no_completion total key (get_id k answer ∷ calls) m f z = no_completion total key calls _ f z
  no_completion total key (add_part k n part ∷ calls) m f z = elim (Bool-cases (same_key key k)) [
    | inl same ↦ let s : n + bytes_of key calls ≡ 0 = rw same at z in absurd (omega (arith, f.0))
    | inr ne ↦ handed-other key k _ _ ne ∙ no_completion total key calls _ f.1 (rw ne at z)
  ]

  append_one :
      (xs : List Part) (x : Part) (ys : List Part) → (xs ++ (x ∷ [])) ++ ys ≡ xs ++ (x ∷ ys)
  append_one [] x ys = refl
  append_one (y ∷ xs) x ys = ap (λ zs. y ∷ zs) (append_one xs x ys)

  append_nil : (xs : List Part) → xs ≡ xs ++ []
  append_nil [] = refl
  append_nil (x ∷ xs) = ap (λ ys. x ∷ ys) (append_nil xs)

  -- One part, where the remaining calls complete what it leaves.
  own_part :
      (total : UploadKey → ℕ) (key : UploadKey) (n : ℕ) (part : Part) (calls : List (Call Part))
      (m : UploadMap Part) (e : UploadElem Part)
      → total key < 2 ^ 64
      → IsFilled calls
      → find key m ≡ some e
      → e.num_bytes_done + (n + bytes_of key calls) ≡ total key
      → ((m' : UploadMap Part) (e' : UploadElem Part)
          → find key m' ≡ some e'
          → e'.num_bytes_done < total key
          → e'.num_bytes_done + bytes_of key calls ≡ total key
          → completions_of key (run false total calls m')
            ≡ (e'.completed_parts ++ parts_of key calls) ∷ [])
      → completions_of key (
          handed key
            (add_completed_part false key n (total key) part m).0
            (run false total calls (add_completed_part false key n (total key) part m).1))
        ≡ (e.completed_parts ++ (part ∷ parts_of key calls)) ∷ []
  unfolding handed completions_of with_part
  own_part total key n part calls m e w f found sum rest =
      let fits : add64 e.num_bytes_done n ≡ e.num_bytes_done + n =
        add64-eq e.num_bytes_done n (omega arith) in
      elim (Bool-cases (ltb (add64 e.num_bytes_done n) (total key))) [
        | inl less ↦
            let more = add-more key n (total key) part m e found less in
            rw (ap (λ r. r.0) more) (
              rest _ (with_part e n part) (find-added key n (total key) part m e found less)
                (ltb→lt _ _ less) (omega (arith, fits))
              ∙ ap (λ ps. ps ∷ []) (append_one e.completed_parts part (parts_of key calls)))
        | inr full ↦
            let le = ltb→le _ _ full in
            let done : bytes_of key calls ≡ 0 = omega (arith, fits) in
            let none_left = no_completion total key calls (erase key m) f done in
            rw (add-last key n (total key) part m e found full, same_key_refl key, none_left)
              (ap (λ ps. ps ∷ [])
                (ap (λ ps. e.completed_parts ++ (part ∷ ps)) (sym (no_parts key calls f done))))
      ]

  -- The same from the middle of an upload.
  complete_rest :
      (total : UploadKey → ℕ) (key : UploadKey) (calls : List (Call Part)) (m : UploadMap Part)
      (e : UploadElem Part)
      → total key < 2 ^ 64
      → IsFilled calls
      → find key m ≡ some e
      → e.num_bytes_done < total key
      → e.num_bytes_done + bytes_of key calls ≡ total key
      → completions_of key (run false total calls m)
        ≡ (e.completed_parts ++ parts_of key calls) ∷ []
  unfolding run bytes_of completions_of parts_of
  complete_rest total key [] m e w f found lt sum = absurd (omega arith)
  complete_rest total key (get_id k answer ∷ calls) m e w f found lt sum =
      complete_rest total key calls _ e w f (get-kept k key answer m e found) lt sum
  complete_rest total key (add_part k n part ∷ calls) m e w f found lt sum =
      elim (key_eq-or-ne key k) [
        | inr other ↦
            let ne = same_key-ne key k other in
            handed-other key k _ _ ne
            ∙ rw ne (
                complete_rest total key calls _ e w f.1
                  (add-other k key n (total k) part m other ∙ found) lt (rw ne at sum))
        | inl same ↦
            let r : same_key key k ≡ true =
              subst (λ x. same_key key x ≡ true) same (same_key_refl key) in
            rw r (
              subst
                (λ x.
                  completions_of key (
                    handed x (add_completed_part false x n (total x) part m).0
                      (run false total calls (add_completed_part false x n (total x) part m).1))
                  ≡ (e.completed_parts ++ (part ∷ parts_of key calls)) ∷ [])
                same
                (own_part total key n part calls m e w f.1 found (rw r at sum)
                  (λ m' e' found' lt' sum'.
                    complete_rest total key calls m' e' w f.1 found' lt' sum')))
      ]

  add_found-withheld :
      (found : Option (UploadElem Part)) (key : UploadKey) (n total : ℕ) (part : Part)
      (m : UploadMap Part)
      → (add_found found true key n total part m).0 ≡ none
  unfolding add_found
  add_found-withheld none key n total part m = refl
  add_found-withheld (some e) key n total part m =
      rw (or_true (ltb (with_part e n part).num_bytes_done total)) refl

  -- Where the completion is left to others, no call hands out parts.
  run-withheld :
      (total : UploadKey → ℕ) (calls : List (Call Part)) (m : UploadMap Part)
      → run true total calls m ≡ []
  unfolding run handed add_completed_part
  run-withheld total [] m = refl
  run-withheld total (get_id key answer ∷ calls) m = run-withheld total calls _
  run-withheld total (add_part key n part ∷ calls) m =
      ap
        (λ r.
          handed key r (run true total calls (add_completed_part true key n (total key) part m).1))
        (add_found-withheld (find key m) key n (total key) part m)
      ∙ run-withheld total calls _

  -- A shared upload that was begun is completed once, whatever the order in which the workers get to
  -- the store and whatever else they do there: over any sequence of calls that brings in parts of the
  -- object whose sizes add up to the object's, exactly one call hands out parts to complete the
  -- object with, and these are all its parts. With `no_mpu_completion` no call ever does. No part is
  -- empty, and no worker was interrupted.
  pub run-once :
      (no_mpu_completion : Bool) (total : UploadKey → ℕ) (key : UploadKey)
      (calls : List (Call Part)) (m : UploadMap Part) (id : Text)
      → find key m ≡ some (fresh id)
      → IsFilled calls
      → bytes_of key calls ≡ total key
      → 0 < total key
      → total key < 2 ^ 64
      → completions_of key (run no_mpu_completion total calls m)
        ≡ (if no_mpu_completion then [] else parts_of key calls ∷ [])
  unfolding fresh completions_of
  run-once true total key calls m id found f sum pos w =
      ap (completions_of key) (run-withheld total calls m)
  run-once false total key calls m id found f sum pos w =
      complete_rest total key calls m (fresh id) w f found pos (omega (arith, sum))
