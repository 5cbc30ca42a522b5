-- ===== src/S3UploadStore.antt =====
-- source/S3UploadStore.h and S3UploadStore.cpp: the multipart uploads that the workers of a run
-- share. Each method holds the mutex of the store, so calls of different workers follow each other.
-- The server's answers are arguments, and completed parts are opaque.
pub mod Keys
pub mod Uploads
pub mod Completion
pub mod Loading
use elbencho.Prelude.{
  ℕ, suc, ◌+◌, Bool, true, false, not, ◌||◌, ◌&&◌, List, [], ◌∷◌, ◌++◌, ltb, leb, ◌==◌,
  if◌then◌else◌, length, add64, Option, none, some, Result, ok, throws, Error,
}
use elbencho.Units.{Text}

pub record UploadKey : Type 0 where
  pub bucket_name : Text
  pub object_name : Text

pub record UploadElem (Part : Type 0) : Type 0 where
  pub num_bytes_done : ℕ
  pub upload_id : Text
  pub completed_parts : List Part

-- `<` of `std::string`.
unfoldable pub text_less : Text → Text → Bool
text_less s [] = false
text_less [] (d ∷ ds) = true
text_less (c ∷ cs) (d ∷ ds) =
    let rest = text_less cs ds in if ltb c d then true else if ltb d c then false else rest

-- `S3UploadKey::operator<`
unfoldable pub key_less : UploadKey → UploadKey → Bool
key_less a b =
    if ltb (length a.object_name) (length b.object_name)
    then true
    else if ltb (length b.object_name) (length a.object_name)
    then false
    else if text_less a.object_name b.object_name
    then true
    else if text_less b.object_name a.object_name
    then false
    else if text_less a.bucket_name b.bucket_name
    then true
    else false

-- The equality of keys that `std::map` uses.
unfoldable pub same_key : UploadKey → UploadKey → Bool
same_key a b = not (key_less a b) && not (key_less b a)

-- The map, in the order of its keys.
abbrev pub UploadMap : Type 0 → Type 0
UploadMap Part = List (UploadKey × UploadElem Part)

unfoldable pub find : {Part : Type 0} → UploadKey → UploadMap Part → Option (UploadElem Part)
find key [] = none
find key ((k, e) ∷ uploads) = let rest = find key uploads in if same_key key k then some e else rest

-- The element of a key, put in the place of an old one or where the order wants it.
unfoldable pub put : {Part : Type 0} → UploadKey → UploadElem Part → UploadMap Part → UploadMap Part
put key elem [] = (key, elem) ∷ []
put key elem ((k, e) ∷ uploads) =
    let rest = put key elem uploads in
    if same_key key k
    then (k, elem) ∷ uploads
    else if key_less key k
    then (key, elem) ∷ (k, e) ∷ uploads
    else (k, e) ∷ rest

unfoldable pub erase : {Part : Type 0} → UploadKey → UploadMap Part → UploadMap Part
erase key [] = []
erase key ((k, e) ∷ uploads) =
    let rest = erase key uploads in if same_key key k then rest else (k, e) ∷ rest

unfoldable pub fresh : {Part : Type 0} → Text → UploadElem Part
fresh id = record { num_bytes_done = 0; upload_id = id; completed_parts = [] }

-- The rest of `getMultipartUploadID` after its look into the map.
unfoldable pub get_found :
    {Part : Type 0}
    → Option (UploadElem Part)
    → UploadKey
    → Result Text
    → UploadMap Part
    → Result Text × UploadMap Part
get_found (some elem) key answer uploads = (ok elem.upload_id, uploads)
get_found none key (ok id) uploads = (ok id, put key (fresh id) uploads)
get_found none key (throws e) uploads = (throws Error.worker_exception, uploads)

-- `answer` is what the server says to a CreateMultipartUpload request, if it comes to that.
unfoldable pub get_multipart_upload_id :
    {Part : Type 0} → UploadKey → Result Text → UploadMap Part → Result Text × UploadMap Part
get_multipart_upload_id key answer uploads = get_found (find key uploads) key answer uploads

-- An element with one more part.
unfoldable pub with_part : {Part : Type 0} → UploadElem Part → ℕ → Part → UploadElem Part
with_part elem num_progress_bytes part = record {
  num_bytes_done = add64 elem.num_bytes_done num_progress_bytes;
  upload_id = elem.upload_id;
  completed_parts = elem.completed_parts ++ (part ∷ []);
}

-- The rest of `addCompletedPart` after its look into the map.
unfoldable pub add_found :
    {Part : Type 0}
    → Option (UploadElem Part)
    → Bool
    → UploadKey
    → ℕ
    → ℕ
    → Part
    → UploadMap Part
    → Option (List Part) × UploadMap Part
add_found none no_mpu_completion key num_progress_bytes object_total_size part uploads =
    (none, uploads)
add_found (some elem) no_mpu_completion key num_progress_bytes object_total_size part uploads =
    let now = with_part elem num_progress_bytes part in
    if ltb now.num_bytes_done object_total_size || no_mpu_completion
    then (none, put key now uploads)
    else (some now.completed_parts, erase key uploads)

-- `addCompletedPart`: all parts of the upload, where this part completes it.
unfoldable pub add_completed_part :
    {Part : Type 0}
    → Bool
    → UploadKey
    → ℕ
    → ℕ
    → Part
    → UploadMap Part
    → Option (List Part) × UploadMap Part
add_completed_part no_mpu_completion key num_progress_bytes object_total_size part uploads =
    add_found (find key uploads) no_mpu_completion key num_progress_bytes object_total_size part
      uploads

-- `getNextUnfinishedUpload`: an upload that the caller has to abort, if there is one.
unfoldable pub get_next_unfinished_upload :
    {Part : Type 0} → UploadMap Part → Option (UploadKey × Text) × UploadMap Part
get_next_unfinished_upload [] = (none, [])
get_next_unfinished_upload ((k, e) ∷ uploads) = (some (k, e.upload_id), uploads)

unfoldable pub reset : {Part : Type 0} → UploadMap Part → UploadMap Part
reset uploads = []

-- `map[key]` with an id and an empty list of parts; an old element keeps its bytes.
unfoldable pub bytes_of_found : {Part : Type 0} → Option (UploadElem Part) → ℕ
bytes_of_found none = 0
bytes_of_found (some elem) = elem.num_bytes_done

unfoldable pub put_id : {Part : Type 0} → UploadKey → Text → UploadMap Part → UploadMap Part
put_id key id uploads =
    put key
      (record {
        num_bytes_done = bytes_of_found (find key uploads);
        upload_id = id;
        completed_parts = [];
      })
      uploads

-- The loop of `loadSvcMPUSharingFile` over the lines of the file, beside the paths of the tree.
unfoldable pub load_lines :
    {Part : Type 0} → Text → Text → List Text → List Text → UploadMap Part → Result (UploadMap Part)
load_lines bucket prefix [] [] uploads = ok uploads
load_lines bucket prefix [] (path ∷ paths) uploads = throws Error.worker_exception
load_lines bucket prefix ([] ∷ lines) paths uploads = load_lines bucket prefix lines paths uploads
load_lines bucket prefix ((c ∷ cs) ∷ lines) [] uploads = throws Error.worker_exception
load_lines bucket prefix ((c ∷ cs) ∷ lines) (path ∷ paths) uploads =
    let key : UploadKey = record { bucket_name = bucket; object_name = prefix ++ path } in
    load_lines bucket prefix lines paths (put_id key (c ∷ cs) uploads)

unfoldable pub load_svc_mpu_sharing_file :
    {Part : Type 0} → Text → Text → List Text → List Text → UploadMap Part → Result (UploadMap Part)
load_svc_mpu_sharing_file bucket prefix lines [] uploads = throws Error.worker_exception
load_svc_mpu_sharing_file bucket prefix lines (path ∷ paths) uploads =
    load_lines bucket prefix lines (path ∷ paths) uploads
