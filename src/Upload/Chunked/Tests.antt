-- ===== src/Upload/Chunked/Tests.antt =====
-- A file of three bytes, sent in two chunks, the later one first.
use cache_22_server.Prelude.{
  ℕ, zero, suc, ◌<◌, true, false, some, List, [], ◌∷◌, ◌≡◌, refl, arith, Bytes, codes, get_elem?,
  ◌+◌, subst, list_eq, nat_eq,
}
use cache_22_server.Prelude.Assoc.{lookup, insert, erase}
use cache_22_server.Go.Number.{parse_int}
use cache_22_server.Go.FilePath.{FilePath}
use cache_22_server.Go.Sort.{sort_names}
use cache_22_server.World.{World, UploadMeta, empty_world, quiet}
use cache_22_server.Upload.Chunked.Whole.{upload_delivers}
use cache_22_server.Samples.{plain}
use cache_22_server.Upload.Store.{valid_upload_id}
use cache_22_server.Serial.{sanitize}
use cache_22_server.Upload.Finalize.{iso_path, register}
use cache_22_server.Go.Text.{to_lower, has_suffix}
use cache_22_server.Go.Number.{value}
use cache_22_server.Http.{Body}
use cache_22_server.Upload.Store.{create_part, write_meta}
use cache_22_server.Upload.Chunked.Start.{Begun, upload_init_begins}
use cache_22_server.Upload.Init.{InitRequest, upload_init, sweep_stale_uploads, other_upload}
use cache_22_server.Upload.Chunked.{chunk_offset, upload_chunk, upload_complete}
use cache_22_server.Upload.Chunked.Integrity.{IsSlice, Good, Holds}
use cache_22_server.Upload.Chunked.Requests.{upload_chunk-Holds}
use cache_22_server.Upload.Chunked.Complete.{upload_complete_delivers}
use cache_22_server.Upload.Chunked.Delivery.{
  Chunk, IsChunk, Session, run_chunks, sent, chunks_deliver,
}

abbrev pub content : Bytes
content = codes "abc"

abbrev pub id : Bytes
id = codes "0123456789abcdef0123456789abcdef"

abbrev pub library : FilePath
library = codes "lib" ∷ []

abbrev pub meta_with : List (ℕ × ℕ) → UploadMeta
meta_with rs = record {
  id = id;
  serial = codes "ico";
  filename = codes "ico.iso";
  size = 3;
  title = [];
  ranges = rs;
  created = 0;
}

abbrev session : List (ℕ × ℕ) → Bytes → World
session rs raw = record empty_world {
  uploads = (id, record { meta = some (meta_with rs); part = some raw }) ∷ [];
}

abbrev pub zeros : Bytes
zeros = 0 ∷ 0 ∷ 0 ∷ []

abbrev pub start : World
start = session [] zeros

abbrev pub tail_chunk : Chunk
tail_chunk = record { text = codes "1"; offset = 1; body = codes "bc" }

abbrev pub head_chunk : Chunk
head_chunk = record { text = codes "0"; offset = 0; body = codes "ab" }

pub start-Good : Good content id (meta_with []) zeros
start-Good = record {
  own = refl;
  sized = refl;
  filled = refl;
  normal = tt;
  within = tt;
  agrees = λ i e. cc;
}

start-Session : Session content id (meta_with []) zeros start
unfolding lookup
start-Session = record { calm = refl; dir = refl; good = start-Good }

tail-IsSlice : IsSlice content 1 (codes "bc")
tail-IsSlice = (omega arith, go)
  where
    go : (i : ℕ) → i < 2 → get_elem? (codes "bc") i ≡ get_elem? content (1 + i)
    go zero h = refl
    go (suc zero) h = refl
    go (suc (suc i)) h = absurd (omega arith)

head-IsSlice : IsSlice content 0 (codes "ab")
head-IsSlice = (omega arith, go)
  where
    go : (i : ℕ) → i < 2 → get_elem? (codes "ab") i ≡ get_elem? content (0 + i)
    go zero h = refl
    go (suc zero) h = refl
    go (suc (suc i)) h = absurd (omega arith)

pub tail-IsChunk : IsChunk content tail_chunk
unfolding parse_int
tail-IsChunk = record {
  reads = refl;
  slice = tail-IsSlice;
  some_bytes = omega arith;
  small = omega arith;
}

pub head-IsChunk : IsChunk content head_chunk
unfolding parse_int
head-IsChunk = record {
  reads = refl;
  slice = head-IsSlice;
  some_bytes = omega arith;
  small = omega arith;
}

abbrev pub both : List Chunk
both = tail_chunk ∷ head_chunk ∷ []

pub both-sent : (i : ℕ) → i < 3 → sent both i ≡ true
both-sent i h = ground arith

chunks_arrive :
    let (r, w') = upload_complete plain library (some id) (run_chunks id both start) in
    (r.code ≡ 201) × (lookup (iso_path library (codes "ico")) w'.files ≡ some content)
unfolding sanitize lookup valid_upload_id
chunks_arrive =
    chunks_deliver content (omega arith) plain library (meta_with []) zeros (codes "ico") both start
      refl (omega arith) start-Session (tail-IsChunk, (head-IsChunk, tt)) both-sent refl refl

abbrev received : World
received = session ((0, 3) ∷ []) content

received-Holds : Holds content id received
unfolding lookup
received-Holds = record {
  own = refl;
  sized = refl;
  filled = refl;
  normal = (omega arith, omega arith, tt);
  within = (omega arith, tt);
  agrees = λ i e. refl;
}

received_created : (upload_complete plain library (some id) received).0.code ≡ 201
unfolding upload_complete register lookup insert erase sanitize
received_created = refl

upload_complete_delivers_example :
    lookup
      (iso_path library (codes "ico"))
      (upload_complete plain library (some id) received).1.files
    ≡ some content
unfolding lookup sanitize
upload_complete_delivers_example =
    upload_complete_delivers plain library content id (codes "ico") (meta_with ((0, 3) ∷ []))
      received refl refl received-Holds received_created

start-Holds : Holds content id start
unfolding lookup
start-Holds = start-Good

first-IsSlice :
    (offset : ℕ)
    → chunk_offset (parse_int (codes "1")) ≡ some offset
    → IsSlice content offset (codes "bc")
unfolding parse_int
first-IsSlice offset e =
    let same : ◌≡◌ {A = ℕ} 1 offset = cc in
    subst (λ n. IsSlice content n (codes "bc")) same tail-IsSlice

-- The disk is full: the write fails after one byte.
abbrev failing : World
failing = record start { faults = false ∷ false ∷ true ∷ []; torn = 1 }

upload_chunk-Holds_example :
    Holds content id (upload_chunk id (codes "1") (some (codes "bc")) failing).1
upload_chunk-Holds_example =
    upload_chunk-Holds content id (codes "1") (codes "bc") failing first-IsSlice start-Holds

abbrev request : InitRequest
request = record { filename = codes "ico.iso"; size = value 3; title = [] }

-- There is room for a session, and the next id is drawn.
abbrev fresh : World
fresh = record empty_world { randoms = id ∷ [] }

init_answers : (upload_init library (some request) fresh).0.body ≡ Body.upload_created id 50331648
unfolding upload_init create_part write_meta sweep_stale_uploads other_upload lookup insert sanitize
    to_lower has_suffix sort_names
init_answers = refl

ico_session_starts : Begun content id request (upload_init library (some request) fresh).1
ico_session_starts = upload_init_begins content id request library 50331648 fresh refl init_answers

-- The same file, from the init on.
abbrev begun : World
begun = quiet (upload_init library (some request) fresh).1

upload_delivers_example :
    let (r, w') = upload_complete plain library (some id) (run_chunks id both begun) in
    (r.code ≡ 201) × (lookup (iso_path library (codes "ico")) w'.files ≡ some content)
unfolding sanitize lookup valid_upload_id upload_init create_part write_meta sweep_stale_uploads
    other_upload insert to_lower has_suffix sort_names
upload_delivers_example =
    upload_delivers plain library content id (codes "ico") request 50331648 both fresh refl refl
      init_answers refl (tail-IsChunk, (head-IsChunk, tt)) both-sent refl
