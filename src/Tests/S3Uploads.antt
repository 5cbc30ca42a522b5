-- ===== src/Tests/S3Uploads.antt =====
-- source/S3UploadStore.h and S3UploadStore.cpp at concrete inputs.
use elbencho.Prelude.{
  false, ℕ, ◌<◌, ◌⊎◌, ◌≡◌, ◌≢◌, refl, arith, List, [], ◌∷◌, length, ok, throws, add64, some, Error,
}
use elbencho.Units.{Text}
use elbencho.S3UploadStore.{
  UploadKey, UploadMap, text_less, key_less, same_key, find, put, erase, fresh,
  get_multipart_upload_id, get_found, add_completed_part, add_found, with_part,
  load_svc_mpu_sharing_file,
}
use elbencho.S3UploadStore.Completion.{
  Call, get_id, add_part, handed, run, completions_of, parts_of, bytes_of, run-once,
}
use elbencho.S3UploadStore.Loading.{ids_of, load_svc_mpu_sharing_file_lem}

abbrev object : ℕ → UploadKey
object c = record { bucket_name = b'b' ∷ []; object_name = c ∷ [] }

-- Two objects of 10 bytes, begun by one worker each.
abbrev begun : UploadMap ℕ
begun = (object b'x', fresh (b'1' ∷ [])) ∷ (object b'y', fresh (b'2' ∷ [])) ∷ []

-- Their parts come in from two workers, which also ask for ids.
abbrev calls : List (Call ℕ)
calls =
    get_id (object b'y') (ok (b'3' ∷ []))
    ∷ add_part (object b'y') 4 1
    ∷ add_part (object b'x') 4 2
    ∷ add_part (object b'x') 6 1
    ∷ get_id (object b'x') (throws Error.worker_exception)
    ∷ add_part (object b'y') 6 2
    ∷ []

both_complete :
    run false (λ k. 10) calls begun ≡ (object b'x', 2 ∷ 1 ∷ []) ∷ (object b'y', 1 ∷ 2 ∷ []) ∷ []
unfolding run handed get_multipart_upload_id get_found add_completed_part add_found with_part find
    put erase fresh same_key key_less text_less add64
both_complete = refl

found : find (object b'y') begun ≡ some (fresh (b'2' ∷ []))
unfolding find same_key key_less text_less
found = refl

all_bytes : bytes_of (object b'y') calls ≡ 10
unfolding bytes_of same_key key_less text_less
all_bytes = refl

run-once_example :
    completions_of (object b'y') (run false (λ k. 10) calls begun)
    ≡ parts_of (object b'y') calls ∷ []
run-once_example =
    run-once false (λ k. 10) (object b'y') calls begun (b'2' ∷ []) found
      (omega arith, (omega arith, (omega arith, (omega arith, tt)))) all_bytes (omega arith)
      (omega arith)

-- Two ids with an empty line between them, for two objects.
abbrev lines : List Text
lines = (b'1' ∷ []) ∷ [] ∷ (b'2' ∷ []) ∷ []

abbrev paths : List Text
paths = (b'x' ∷ []) ∷ (b'y' ∷ []) ∷ []

abbrev no_uploads : UploadMap ℕ
no_uploads = []

load_svc_mpu_sharing_file_lem_example :
    ((m' : UploadMap ℕ) × (load_svc_mpu_sharing_file (b'b' ∷ []) [] lines paths no_uploads ≡ ok m')
      × (0 < length paths)
      × (length (ids_of lines) ≡ length paths))
    ⊎ ((load_svc_mpu_sharing_file (b'b' ∷ []) [] lines paths no_uploads
          ≡ throws Error.worker_exception)
        × ((length paths ≡ 0) ⊎ (length (ids_of lines) ≢ length paths)))
load_svc_mpu_sharing_file_lem_example =
    load_svc_mpu_sharing_file_lem (b'b' ∷ []) [] lines paths no_uploads
