-- ===== src/Upload/Chunked/Whole.antt =====
-- A chunked upload from its init to its completion, over the handlers of
-- internal/handler/http/upload_chunked.go.
use cache_22_server.Prelude.{
  ℕ, ◌≤◌, ◌<◌, true, none, some, ◌≡◌, refl, ap, ◌∙◌, subst, List, Bytes, length, arith, All,
  list_eq, nat_eq,
}
use cache_22_server.Prelude.Assoc.{lookup}
use cache_22_server.Go.FilePath.{FilePath}
use cache_22_server.Go.Number.{value}
use cache_22_server.World.{World, quiet}
use cache_22_server.External.{External}
use cache_22_server.Http.{Body}
use cache_22_server.Serial.{sanitize}
use cache_22_server.Upload.Store.{valid_upload_id}
use cache_22_server.Upload.Finalize.{iso_path}
use cache_22_server.Upload.Init.{InitRequest, upload_init, max_upload_bytes}
use cache_22_server.Upload.Chunked.{upload_complete}
use cache_22_server.Upload.Chunked.Start.{upload_init_begins}
use cache_22_server.Upload.Chunked.Delivery.{
  Chunk, IsChunk, Session, sent, run_chunks, chunks_deliver,
}

-- The completion answers 201, and the library has the content.
abbrev pub Delivered : External → FilePath → Bytes → Bytes → Bytes → List Chunk → World → Type 0
Delivered x dir content serial id cs w =
    let (r, w') = upload_complete x dir (some id) (run_chunks id cs w) in
    (r.code ≡ 201) × (lookup (iso_path dir serial) w'.files ≡ some content)

-- An init that is answered with an id took the size.
upload_init_sized :
    (dir : FilePath) (req : InitRequest) (size c : ℕ) (id : Bytes) (w : World)
    → req.size ≡ value size
    → (upload_init dir (some req) w).0.body ≡ Body.upload_created id c
    → (1 ≤ size) × (size ≤ max_upload_bytes)
unfolding upload_init
upload_init_sized dir req size c id w e h = ground arith

-- If an init is answered with an id, whatever calls fail in it, and afterwards no call fails and the
-- library has no file under the serial of the request's name, then chunks that are slices of a file of
-- the requested size and reach every byte of it make the completion answer 201 and put exactly that
-- file into the library.
pub upload_delivers :
    (x : External) (dir : FilePath) (content id serial : Bytes) (req : InitRequest) (c : ℕ)
    (cs : List Chunk) (w : World)
    → req.size ≡ value (length content)
    → sanitize req.filename ≡ some serial
    → (upload_init dir (some req) w).0.body ≡ Body.upload_created id c
    → valid_upload_id id ≡ true
    → All (IsChunk content) cs
    → ((i : ℕ) → i < length content → sent cs i ≡ true)
    → lookup (iso_path dir serial) (upload_init dir (some req) w).1.files ≡ none
    → Delivered x dir content serial id cs (quiet (upload_init dir (some req) w).1)
upload_delivers x dir content id serial req c cs w sized es h valid ks all free =
    let w1 = (upload_init dir (some req) w).1 in
    let (low, high) = upload_init_sized dir req (length content) c id w sized h in
    let (m, raw, found, good, name, own_serial, ranges) =
      upload_init_begins content id req dir c w sized h in
    let started : Session content id m raw (quiet w1) = record {
      calm = refl;
      dir = found;
      good = good;
    } in
    subst
      (λ j.
        valid_upload_id j ≡ true
        → Session content j m raw (quiet w1)
        → Delivered x dir content serial j cs (quiet w1))
      good.own
      (λ v s.
        chunks_deliver content (omega (arith, high)) x dir m raw serial cs (quiet w1) v
          (omega (arith, low)) s ks all (ap sanitize name ∙ es) free)
      valid started
