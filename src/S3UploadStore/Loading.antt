-- ===== src/S3UploadStore/Loading.antt =====
-- The ids of shared uploads that a service reads from a file.
use elbencho.Prelude.{
  suc, ◌<◌, ◌==◌, ==_iff, Bool-cases, inl, inr, ◌⊎◌, ◌≡◌, ◌≢◌, refl, ap, arith, List, [], ◌∷◌,
  length, ok, throws, Error,
}
use elbencho.Units.{Text}
use elbencho.S3UploadStore.{UploadMap, load_lines, load_svc_mpu_sharing_file}

-- The lines that are not empty.
abbrev pub ids_of : List Text → List Text
ids_of [] = []
ids_of ([] ∷ lines) = ids_of lines
ids_of ((c ∷ cs) ∷ lines) = (c ∷ cs) ∷ ids_of lines

module _ {Part : Type 0} (bucket prefix : Text) where
  load_lines-same :
      (lines paths : List Text) (m : UploadMap Part)
      → length (ids_of lines) ≡ length paths
      → (m' : UploadMap Part) × (load_lines bucket prefix lines paths m ≡ ok m')
  unfolding load_lines
  load_lines-same [] [] m h = (m, refl)
  load_lines-same [] (path ∷ paths) m h = absurd (omega arith)
  load_lines-same ([] ∷ lines) paths m h = load_lines-same lines paths m h
  load_lines-same ((c ∷ cs) ∷ lines) [] m h = absurd (omega arith)
  load_lines-same ((c ∷ cs) ∷ lines) (path ∷ paths) m h =
      load_lines-same lines paths _ (omega (arith, h))

  load_lines-other :
      (lines paths : List Text) (m : UploadMap Part)
      → length (ids_of lines) ≢ length paths
      → load_lines bucket prefix lines paths m ≡ throws Error.worker_exception
  unfolding load_lines
  load_lines-other [] [] m h = absurd (h refl)
  load_lines-other [] (path ∷ paths) m h = refl
  load_lines-other ([] ∷ lines) paths m h = load_lines-other lines paths m h
  load_lines-other ((c ∷ cs) ∷ lines) [] m h = refl
  load_lines-other ((c ∷ cs) ∷ lines) (path ∷ paths) m h =
      load_lines-other lines paths _ (λ e. h (ap suc e))

  -- The file is taken exactly where the tree has a path and the file has as many lines that are not
  -- empty as the tree has paths; in all other cases the call throws.
  pub load_svc_mpu_sharing_file_lem :
      (lines paths : List Text) (m : UploadMap Part)
      → ((m' : UploadMap Part) × (load_svc_mpu_sharing_file bucket prefix lines paths m ≡ ok m')
          × (0 < length paths)
          × (length (ids_of lines) ≡ length paths))
        ⊎ ((load_svc_mpu_sharing_file bucket prefix lines paths m ≡ throws Error.worker_exception)
            × ((length paths ≡ 0) ⊎ (length (ids_of lines) ≢ length paths)))
  unfolding load_svc_mpu_sharing_file
  load_svc_mpu_sharing_file_lem lines [] m = inr (refl, inl refl)
  load_svc_mpu_sharing_file_lem lines (path ∷ paths) m =
      elim (Bool-cases (length (ids_of lines) == length (path ∷ paths))) [
        | inl same ↦
            let e = (==_iff (length (ids_of lines)) (length (path ∷ paths))).0 same in
            let (m', taken) = load_lines-same lines (path ∷ paths) m e in
            inl (m', taken, omega arith, e)
        | inr other ↦
            let ne : length (ids_of lines) ≢ length (path ∷ paths) =
              λ e. let t = (==_iff (length (ids_of lines)) (length (path ∷ paths))).1 e in cc in
            inr (load_lines-other lines (path ∷ paths) m ne, inr ne)
      ]
