-- ===== src/Upload/Single.antt =====
-- uploadGame of internal/handler/http/upload.go: a whole file in one request. The body is the list
-- of the parts that multipart.Reader gives; a part that cannot be read, by which
-- http.MaxBytesReader ends a body that is too long, is `broken`. The random source gives the names
-- of temporary files. A failing call is answered with its error's text.
pub mod Apart
pub mod Leftovers
pub mod Stored
pub mod Succeeds
mod Tests
use cache_22_server.Prelude.{
  ℕ, Bool, true, false, Option, none, some, List, [], ◌∷◌, ◌++◌, Bytes, codes, take, nat_beq, ◌==◌,
  nat_eq, list_eq, if◌then◌else◌,
}
use cache_22_server.Prelude.Assoc.{Assoc, lookup, insert}
use cache_22_server.Go.Text.{to_lower, has_suffix, trim_space}
use cache_22_server.Go.FilePath.{FilePath}
use cache_22_server.World.{World, Proc, Action, Error, fault, ok, err, attempt, handle, ◌>>=◌, ◌>>◌}
use cache_22_server.External.{External}
use cache_22_server.Http.{raise_with, Response, refuse}
use cache_22_server.Disk.{remove_file}
use cache_22_server.Upload.Finalize.{temp, finalize_upload}

pub data Part : Type 0 where
  -- the field's name, the name of the file, which is empty for a plain field, what arrives of the
  -- content, and whether that is all
  part : Bytes → Bytes → Bytes → Bool → Part
  broken : Part

-- What the loop has so far: the temporary file with the name of the file in it, and the title.
pub record Received : Type 0 where
  pub tmp : Option (FilePath × Bytes)
  pub title : Bytes

-- .upload-*.part
abbrev pub part_path : FilePath → Bytes → FilePath
part_path dir random = dir ++ (codes ".upload-" ++ (random ++ codes ".part")) ∷ []

-- os.CreateTemp: the first random name that is free, and the names behind it
pub free_temp : FilePath → List Bytes → Assoc FilePath Bytes → Option (FilePath × List Bytes)
free_temp dir [] files = none
free_temp dir (r ∷ rs) files = elim (lookup (part_path dir r) files) [
  | none ↦ some (part_path dir r, rs)
  | some raw ↦ free_temp dir rs files
]

abbrev pub made_temp : Option (FilePath × List Bytes) → Action FilePath
made_temp none w = (err fault, w)
made_temp (some (path, rest)) w =
    (ok path, record w { randoms = rest; files = insert path [] w.files })

unfoldable pub create_temp : FilePath → Action FilePath
unfolding attempt free_temp
create_temp dir = attempt >> λ w. made_temp (free_temp dir w.randoms w.files) w

-- io.Copy into the temporary file; it fails where a write fails or the part breaks off.
unfoldable pub copy_part : FilePath → Bytes → Bool → Action (Unit {0})
unfolding attempt
copy_part path raw whole =
    handle attempt (λ e w. (err e, record w { files = insert path (take w.torn raw) w.files }))
      λ u w. (if whole then ok tt else err fault, record w { files = insert path raw w.files })

-- MkdirAll, CreateTemp and Copy, before the next round of the loop
unfoldable pub receive : FilePath → Bytes → Bool → (FilePath → Proc Response) → Proc Response
unfolding create_temp copy_part attempt remove_file
receive dir raw whole next = handle attempt (raise_with 500) λ u.
    handle (create_temp dir) (raise_with 500) λ path.
      handle (copy_part path raw whole)
        (λ e w. refuse 400 "upload too large or interrupted" (remove_file path w)) (λ v. next path)

-- A plain field; of its content at most 512 bytes are read.
abbrev pub with_field : Bytes → Bytes → Received → Received
with_field name text got =
    if name == codes "title" then record got { title = trim_space (take 512 text) } else got

abbrev pub is_iso_name : Bytes → Bool
is_iso_name filename = has_suffix (to_lower filename) (codes ".iso")

-- the tests of a file part, before `file` reads it
pub first_iso : Option (FilePath × Bytes) → Bytes → Proc Response → Proc Response
first_iso (some held) filename file = refuse 400 "one file per upload"
first_iso none filename file = if is_iso_name filename then file else refuse 415 "raw .iso only"

module _ (x : External) (dir : FilePath) where
  -- behind the loop
  pub finish_parts : Received → Proc Response
  unfolding finalize_upload remove_file
  finish_parts got w = elim got.tmp [
    | none ↦ refuse 400 "no file part in upload" w
    | some (path, filename) ↦
        let (r, w') = finalize_upload x dir (temp path) filename got.title w in
        if nat_beq r.code 201 then (r, w') else (r, remove_file path w')
  ]

  -- The loop.
  pub read_parts : List Part → Received → Proc Response
  read_parts [] got = finish_parts got
  read_parts (broken ∷ ps) got = refuse 400 "bad multipart body"
  read_parts (part name filename raw whole ∷ ps) got =
      let field = read_parts ps (with_field name raw got) in
      let file : Proc Response =
        receive dir raw whole
          (λ path. read_parts ps (record got { tmp = some (path, filename) })) in
      if filename == [] then field else first_iso got.tmp filename file

  -- POST /v1/games/upload; `none` is a body that is not multipart.
  unfoldable pub upload_game : Option (List Part) → Proc Response
  unfolding read_parts
  upload_game none = refuse 400 "want multipart upload with a file part"
  upload_game (some parts) = read_parts parts (record { tmp = none; title = [] })
