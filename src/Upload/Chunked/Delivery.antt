-- ===== src/Upload/Chunked/Delivery.antt =====
-- A whole chunked upload in a world where no call fails.
use cache_22_server.Prelude.{
  ℕ, ◌+◌, ◌≤◌, ◌<◌, Bool, true, false, ◌||◌, none, some, List, [], ◌∷◌, ◌≡◌, refl, subst, Bytes,
  arith, length, sym, ap, ◌∙◌, list_eq, nat_eq, beq_refl, All,
}
use cache_22_server.Prelude.Assoc.{lookup, insert, lookup-insert}
use cache_22_server.Go.Number.{parse_int, int64_limit}
use cache_22_server.Go.FilePath.{FilePath}
use cache_22_server.World.{World, UploadMeta, UploadDir, later_faults, attempt}
use cache_22_server.External.{External}
use cache_22_server.Http.{Response}
use cache_22_server.Serial.{sanitize}
use cache_22_server.Upload.Ranges.{ByteRange, is_full}
use cache_22_server.Upload.Ranges.Coverage.{covers, holds, covers-merge_range}
use cache_22_server.Upload.Ranges.Normal.{covers_is_full, covers-Within}
use cache_22_server.Upload.Store.{
  or_empty, write_meta, dir_of, upload_lock, valid_upload_id, write_at,
}
use cache_22_server.Upload.Finalize.{iso_path}
use cache_22_server.Upload.Chunked.{
  chunk_offset, max_chunk_bytes, upload_chunk, upload_complete, locked_chunk, store_chunk,
  write_part,
}
use cache_22_server.Upload.Chunked.Complete.{complete_quiet, upload_complete_delivers}
use cache_22_server.Upload.Chunked.Integrity.{IsSlice, Good, Partial, recorded, merge-Good}

-- One request: the text of its offset, the number that it stands for, and its body.
pub record Chunk : Type 0 where
  pub text : Bytes
  pub offset : ℕ
  pub body : Bytes

abbrev pub range_of : Chunk → ByteRange
range_of c = (c.offset, c.offset + length c.body)

-- Some chunk holds the byte.
abbrev pub sent : List Chunk → ℕ → Bool
sent [] i = false
sent (c ∷ cs) i = holds i (range_of c) || sent cs i

-- A chunk that the client cut out of the content, of a size that the server takes.
pub record IsChunk (content : Bytes) (c : Chunk) : Type 0 where
  pub reads : chunk_offset (parse_int c.text) ≡ some c.offset
  pub slice : IsSlice content c.offset c.body
  pub some_bytes : 0 < length c.body
  pub small : length c.body ≤ max_chunk_bytes

unfoldable pub run_chunks : Bytes → List Chunk → World → World
run_chunks id [] w = w
run_chunks id (c ∷ cs) w = run_chunks id cs (upload_chunk id c.text (some c.body) w).1

-- A session in a world where no call fails.
pub record Session (content id : Bytes) (m : UploadMeta) (raw : Bytes) (w : World) : Type 0 where
  pub calm : w.faults ≡ []
  pub dir : dir_of id w ≡ record { meta = some m; part = some raw }
  pub good : Good content id m raw

-- What a stored chunk leaves, where nothing fails.
abbrev StoredWell : UploadMeta → Bytes → ℕ → Bytes → World → Response × World → Type 0
StoredWell m raw offset body w (r, w') =
    (r.code ≡ 200)
    × (w'.faults ≡ [])
    × (w'.files ≡ w.files)
    × (dir_of m.id w'
        ≡ record { meta = some (recorded m offset body); part = some (write_at raw offset body) })

store_chunk-StoredWell :
    (m : UploadMeta) (raw : Bytes) (offset : ℕ) (body : Bytes) (w : World)
    → w.faults ≡ []
    → dir_of m.id w ≡ record { meta = some m; part = some raw }
    → offset + length body < int64_limit
    → StoredWell m raw offset body w (store_chunk m m.id offset body w)
unfolding store_chunk write_part write_meta
store_chunk-StoredWell m raw offset body w calm e h =
    let u1 =
      insert m.id (record { meta = some m; part = some (write_at raw offset body) }) w.uploads in
    let u2 = insert m.id (record { meta = none; part = some (write_at raw offset body) }) u1 in
    ground (
      arith,
      beq_refl m.id,
      lookup-insert m.id m.id (record { meta = some m; part = some (write_at raw offset body) })
          w.uploads,
      lookup-insert m.id m.id (record { meta = none; part = some (write_at raw offset body) }) u1,
      lookup-insert m.id m.id
          (record { meta = some (recorded m offset body); part = some (write_at raw offset body) })
          u2,
    )

locked_chunk_quiet :
    (m : UploadMeta) (raw : Bytes) (offset : ℕ) (body : Bytes) (w : World)
    → w.faults ≡ []
    → dir_of m.id w ≡ record { meta = some m; part = some raw }
    → offset + length body < int64_limit
    → offset + length body ≤ m.size
    → locked_chunk m.id offset body w ≡ store_chunk m m.id offset body (attempt w).1
unfolding locked_chunk attempt
locked_chunk_quiet m raw offset body w calm e h fits = ground arith

pub upload_chunk_quiet :
    (id : Bytes) (c : Chunk) (w : World)
    → valid_upload_id id ≡ true
    → chunk_offset (parse_int c.text) ≡ some c.offset
    → 0 < length c.body
    → length c.body ≤ max_chunk_bytes
    → upload_chunk id c.text (some c.body) w ≡ locked_chunk id c.offset c.body (upload_lock id w)
unfolding upload_chunk
upload_chunk_quiet id c w valid e h small = ground arith

upload_lock_same :
    (id : Bytes) (w : World)
    → ((upload_lock id w).faults ≡ w.faults)
      × ((upload_lock id w).files ≡ w.files)
      × ((upload_lock id w).uploads ≡ w.uploads)
unfolding upload_lock
upload_lock_same id w = ground arith

module _ (content : Bytes) (short : length content < int64_limit) where
  upload_chunk-StoredWell :
      (m : UploadMeta) (raw : Bytes) (c : Chunk) (w : World)
      → valid_upload_id m.id ≡ true
      → Session content m.id m raw w
      → IsChunk content c
      → StoredWell m raw c.offset c.body w (upload_chunk m.id c.text (some c.body) w)
  unfolding attempt
  upload_chunk-StoredWell m raw c w valid s k =
      let (f, g, u) = upload_lock_same m.id w in
      let w1 = upload_lock m.id w in
      let calm : w1.faults ≡ [] = f ∙ s.calm in
      let dir : dir_of m.id w1 ≡ record { meta = some m; part = some raw } =
        ap (λ v. or_empty (lookup m.id v)) u ∙ s.dir in
      rw (upload_chunk_quiet m.id c w valid k.reads k.some_bytes k.small) (
        rw
          (locked_chunk_quiet m raw c.offset c.body w1 calm dir (omega (arith, k.slice.0, short))
            (omega (arith, k.slice.0, s.good.sized)))
          (stored calm dir g))
    where
      stored :
          (upload_lock m.id w).faults ≡ []
          → dir_of m.id (upload_lock m.id w) ≡ record { meta = some m; part = some raw }
          → (upload_lock m.id w).files ≡ w.files
          → StoredWell m raw c.offset c.body w
              (store_chunk m m.id c.offset c.body (attempt (upload_lock m.id w)).1)
      stored calm dir g =
          let (answered, quiet_after, files, left) =
            store_chunk-StoredWell m raw c.offset c.body (attempt (upload_lock m.id w)).1
              (ap later_faults calm) dir (omega (arith, k.slice.0, short)) in
          (answered, quiet_after, files ∙ g, left)

  -- After the chunks the session is full of the content wherever one of them has been.
  run_chunks-Session :
      (m : UploadMeta) (raw : Bytes) (cs : List Chunk) (w : World)
      → valid_upload_id m.id ≡ true
      → Session content m.id m raw w
      → All (IsChunk content) cs
      → (m' : UploadMeta) × (raw' : Bytes) × (m'.id ≡ m.id)
        × (m'.filename ≡ m.filename)
        × Session content m.id m' raw' (run_chunks m.id cs w)
        × ((run_chunks m.id cs w).files ≡ w.files)
        × ((i : ℕ) → covers m'.ranges i ≡ (covers m.ranges i || sent cs i))
  unfolding run_chunks
  run_chunks-Session m raw [] w valid s k = (m, raw, refl, refl, s, refl, λ i. ground arith)
  run_chunks-Session m raw (c ∷ cs) w valid s (k, ks) =
      let (answered, calm, files, dir) = upload_chunk-StoredWell m raw c w valid s k in
      let next : Session content m.id (recorded m c.offset c.body) (write_at raw c.offset c.body)
          (upload_chunk m.id c.text (some c.body) w).1 =
        record {
          calm = calm;
          dir = dir;
          good = merge-Good content m.id m raw c.offset c.body k.slice k.some_bytes s.good;
        } in
      let (m', raw', own, name, s', files', covered) =
        run_chunks-Session (recorded m c.offset c.body) (write_at raw c.offset c.body) cs
          (upload_chunk m.id c.text (some c.body) w).1 valid next ks in
      (
        m',
        raw',
        own,
        name,
        s',
        files' ∙ files,
        λ i. ground (arith, covered i, covers-merge_range m.ranges m.size (range_of c) i),
      )

  -- Chunks that together cover every byte of the content, in any order, overlapping or sent twice,
  -- deliver it: the completion answers 201 and the library holds the content.
  pub chunks_deliver :
      (x : External) (dir : FilePath) (m : UploadMeta) (raw serial : Bytes) (cs : List Chunk)
      (w : World)
      → valid_upload_id m.id ≡ true
      → 0 < length content
      → Session content m.id m raw w
      → All (IsChunk content) cs
      → ((i : ℕ) → i < length content → sent cs i ≡ true)
      → sanitize m.filename ≡ some serial
      → lookup (iso_path dir serial) w.files ≡ none
      → let (r, w') = upload_complete x dir (some m.id) (run_chunks m.id cs w) in
        (r.code ≡ 201) × (lookup (iso_path dir serial) w'.files ≡ some content)
  chunks_deliver x dir m raw serial cs w valid h s ks all es free =
      let (m', raw', own, name, s', files, covered) = run_chunks-Session m raw cs w valid s ks in
      let w' = run_chunks m.id cs w in
      let full : is_full m'.ranges m'.size ≡ true =
        covers_is_full m'.ranges m'.size s'.good.normal (omega (arith, s'.good.sized))
          (λ i. covers-Within m'.ranges m'.size i s'.good.within)
          (λ i inside. ground (arith, covered i, all i (rw (← s'.good.sized) inside))) in
      let answered =
        complete_quiet x dir m.id serial raw' m' w' valid s'.calm s'.dir full
          (ap sanitize name ∙ es) (ap (lookup (iso_path dir serial)) files ∙ free) in
      (
        answered,
        upload_complete_delivers x dir content m.id serial m' w'
            (ap (λ (d : UploadDir). d.meta) s'.dir) (ap sanitize name ∙ es)
            (subst (λ (d : UploadDir). Partial content m.id d.meta d.part) (sym s'.dir) s'.good)
            answered,
      )
