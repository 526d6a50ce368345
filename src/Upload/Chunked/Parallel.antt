-- ===== src/Upload/Chunked/Parallel.antt =====
-- A chunked upload whose chunks are sent at the same time.
use mathlib.Core.List.{Permᴰ}
use cache_22_server.Prelude.{
  ℕ, Bool-cases, inl, inr, ◌+◌, ◌<◌, Bool, true, false, ◌||◌, none, some, List, [], ◌∷◌, map, ◌≡◌,
  refl, sym, ap, subst, ◌∙◌, Bytes, length, arith, All, exists_if, ◌==◌, list_eq, nat_eq,
}
use cache_22_server.Prelude.Assoc.{Assoc, lookup}
use cache_22_server.Go.FilePath.{FilePath}
use cache_22_server.Go.Number.{int64_limit}
use cache_22_server.World.{World, UploadMeta}
use cache_22_server.External.{External}
use cache_22_server.Http.{Response}
use cache_22_server.Serial.{sanitize}
use cache_22_server.Upload.Ranges.Coverage.{holds}
use cache_22_server.Upload.Store.{valid_upload_id, upload_lock}
use cache_22_server.Upload.Finalize.{iso_path}
use cache_22_server.Upload.Chunked.{locked_chunk, upload_chunk, upload_complete}
use cache_22_server.Upload.Chunked.Tasks.{Request}
use cache_22_server.Upload.Chunked.Locks.{Locks}
use cache_22_server.Upload.Chunked.Interleaved.{Turns, all_arrived, all_left, in_order}
use cache_22_server.Upload.Chunked.Unlocked.{
  HasLock, locked_chunk_locks, upload_lock_again, upload_lock-HasLock, in_order-upload_lock,
  upload_complete-upload_lock,
}
use cache_22_server.Upload.Chunked.Exclusion.{turns_lem}
use cache_22_server.Upload.Chunked.Delivery.{
  Chunk, IsChunk, Session, sent, run_chunks, range_of, upload_chunk_quiet, chunks_deliver,
}

-- A chunk once its offset is read.
abbrev pub request_of : Chunk → Request
request_of c = record { offset = c.offset; body = c.body }

-- The chunks in one order, by their requests.
run_chunks-in_order :
    (content id : Bytes) (cs : List Chunk) (w : World)
    → valid_upload_id id ≡ true
    → HasLock id w
    → All (IsChunk content) cs
    → run_chunks id cs w ≡ (in_order id (map request_of cs) w).1
unfolding run_chunks in_order
run_chunks-in_order content id [] w valid h ks = refl
run_chunks-in_order content id (c ∷ cs) w valid h (k, ks) =
    let same : upload_chunk id c.text (some c.body) w ≡ locked_chunk id c.offset c.body w =
      upload_chunk_quiet id c w valid k.reads k.some_bytes k.small
      ∙ ap (locked_chunk id c.offset c.body) (upload_lock_again id w h) in
    let w1 = (locked_chunk id c.offset c.body w).1 in
    ap (λ (r : Response × World). run_chunks id cs r.1) same
    ∙ run_chunks-in_order content id cs w1 valid
        (ap (exists_if (λ j. j == id)) (locked_chunk_locks id c.offset c.body w) ∙ h) ks

-- Some request holds the byte.
abbrev asked : List Request → ℕ → Bool
asked [] i = false
asked (r ∷ rs) i = holds i (r.offset, r.offset + length r.body) || asked rs i

asked-map : (cs : List Chunk) (i : ℕ) → asked (map request_of cs) i ≡ sent cs i
asked-map [] i = refl
asked-map (c ∷ cs) i = ap (λ b. holds i (range_of c) || b) (asked-map cs i)

or_swap : (a b c : Bool) → (a || (b || c)) ≡ (b || (a || c))
or_swap a b c = ground arith

asked-Permᴰ : {rs qs : List Request} (i : ℕ) → Permᴰ rs qs → asked rs i ≡ asked qs i
asked-Permᴰ i Permᴰ.nil = refl
asked-Permᴰ i (Permᴰ.cons {b = b} {l₁ = rs} e p) =
    ap (λ r. asked (r ∷ rs) i) e
    ∙ ap (λ z. holds i (b.offset, b.offset + length b.body) || z) (asked-Permᴰ i p)
asked-Permᴰ i (Permᴰ.swap {b = b} {a' = a'} {b' = b'} {l = rs} e f) =
    ap (λ r. asked (r ∷ b ∷ rs) i) e
    ∙ ap (λ r. asked (b' ∷ r ∷ rs) i) f
    ∙ or_swap (holds i (b'.offset, b'.offset + length b'.body))
        (holds i (a'.offset, a'.offset + length a'.body)) (asked rs i)
asked-Permᴰ i (Permᴰ.trans p q) = asked-Permᴰ i p ∙ asked-Permᴰ i q

All-Permᴰ : (P : Request → Type 0) {rs qs : List Request} → Permᴰ rs qs → All P rs → All P qs
All-Permᴰ P Permᴰ.nil h = tt
All-Permᴰ P (Permᴰ.cons e p) (k, h) = (subst P e k, All-Permᴰ P p h)
All-Permᴰ P (Permᴰ.swap e f) (k, (l, h)) = (subst P f l, (subst P e k, h))
All-Permᴰ P (Permᴰ.trans p q) h = All-Permᴰ P q (All-Permᴰ P p h)

-- The request is that of a chunk of the content.
abbrev FromChunk : Bytes → Request → Type 0
FromChunk content r = (c : Chunk) × IsChunk content c × (request_of c ≡ r)

All-FromChunk :
    (content : Bytes) (cs : List Chunk)
    → All (IsChunk content) cs
    → All (FromChunk content) (map request_of cs)
All-FromChunk content [] h = tt
All-FromChunk content (c ∷ cs) (k, h) = ((c, k, refl), All-FromChunk content cs h)

chunks_of :
    (content : Bytes) (rs : List Request)
    → All (FromChunk content) rs
    → (cs : List Chunk) × All (IsChunk content) cs × (map request_of cs ≡ rs)
chunks_of content [] h = ([], tt, refl)
chunks_of content (r ∷ rs) ((c, k, e), h) =
    let (cs, ks, es) = chunks_of content rs h in
    (c ∷ cs, (k, ks), ap (λ q. q ∷ map request_of cs) e ∙ ap (λ qs. r ∷ qs) es)

upload_lock_files : (id : Bytes) (w : World) → (upload_lock id w).files ≡ w.files
unfolding upload_lock
upload_lock_files id w = ground arith

upload_lock-Session :
    (content id : Bytes) (m : UploadMeta) (raw : Bytes) (w : World)
    → Session content id m raw w
    → Session content id m raw (upload_lock id w)
unfolding upload_lock
upload_lock-Session content id m raw w h =
    elim (Bool-cases (exists_if (λ j. j == id) w.upload_locks)) [
      | inl e ↦ rw e h
      | inr e ↦ rw e (record { calm = h.calm; dir = h.dir; good = h.good })
    ]

-- Chunks of one session whose requests run at the same time, each of which asks uploadLock for the
-- mutex, locks it, makes its calls and unlocks it. The id is valid; the file is not empty and below
-- 2^63 bytes; the session is well-formed for this file and no call fails; no mutex is locked at first
-- and no other request runs meanwhile; the chunks are slices of the file of at most 64 MiB that
-- together reach every byte; sanitizeSerial accepts the file name of the session, and the library has
-- no file under that serial. Then in whatever way the calls take turns, once all requests have been
-- answered the completion answers 201 and puts exactly that file into the library.
pub parallel_chunks_deliver :
    (x : External) (dir : FilePath) (content raw serial : Bytes) (m : UploadMeta) (cs : List Chunk)
    (order : List Request) (answers : List Response) (table : Assoc Bytes ℕ) (fresh : ℕ) (l : Locks)
    (start w : World)
    → valid_upload_id m.id ≡ true
    → 0 < length content
    → length content < int64_limit
    → Session content m.id m raw start
    → All (IsChunk content) cs
    → ((i : ℕ) → i < length content → sent cs i ≡ true)
    → sanitize m.filename ≡ some serial
    → lookup (iso_path dir serial) start.files ≡ none
    → Turns m.id (all_arrived (map request_of cs) table fresh start) (all_left order answers l w)
    → let (r, w') = upload_complete x dir (some m.id) w in
      (r.code ≡ 201) × (lookup (iso_path dir serial) w'.files ≡ some content)
parallel_chunks_deliver x dir content raw serial m cs order answers table fresh l start w valid
      some_bytes short session ks all es free turns =
    let (perm, same) =
      turns_lem m.id (map request_of cs) order answers table fresh l start w turns in
    let (qs, js, back) =
      chunks_of content order (All-Permᴰ (FromChunk content) perm (All-FromChunk content cs ks)) in
    let ready = upload_lock m.id start in
    let ended : run_chunks m.id qs ready ≡ upload_lock m.id w =
      run_chunks-in_order content m.id qs ready valid (upload_lock-HasLock m.id start) js
      ∙ ap (λ rs. (in_order m.id rs ready).1) back
      ∙ ap (λ (p : List Response × World). p.1) (in_order-upload_lock m.id order start)
      ∙ ap (λ (p : List Response × World). upload_lock m.id p.1) same in
    let reached : (i : ℕ) → i < length content → sent qs i ≡ true = λ i h.
      sym (asked-map qs i)
      ∙ ap (λ rs. asked rs i) back
      ∙ sym (asked-Permᴰ i perm)
      ∙ asked-map cs i
      ∙ all i h in
    subst Finished
      (ap (upload_complete x dir (some m.id)) ended
        ∙ upload_complete-upload_lock x dir m.id w valid)
      (chunks_deliver content short x dir m raw serial qs ready valid some_bytes
        (upload_lock-Session content m.id m raw start session) js reached es
        (ap (λ fs. lookup (iso_path dir serial) fs) (upload_lock_files m.id start) ∙ free))
  where
    Finished : Response × World → Type 0
    Finished a = (a.0.code ≡ 201) × (lookup (iso_path dir serial) a.1.files ≡ some content)
