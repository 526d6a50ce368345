-- ===== src/Upload/Chunked/Integrity.antt =====
-- What the file of an upload session holds, against the content of the file that is being uploaded:
-- the invariant of the chunk handler in internal/handler/http/upload_chunked.go.
use cache_22_server.Prelude.{
  ℕ, ◌+◌, ◌-◌, ◌≤◌, ◌<◌, true, Option, none, some, List, ◌≡◌, ◌⊎◌, inl, inr, refl, Bytes, length,
  take, subst, Option-cases, get_elem?, get_elem?-take, length-take, arith, beq_refl, list_eq,
  nat_eq,
}
use cache_22_server.Prelude.Assoc.{lookup-insert}
use cache_22_server.World.{World, UploadMeta, UploadDir, Result, ok, err, fault, attempt}
use cache_22_server.Upload.Ranges.{ByteRange, merge_range}
use cache_22_server.Upload.Ranges.Coverage.{covers, covers-merge_range}
use cache_22_server.Upload.Ranges.Normal.{
  IsNormal, Within, merge_range-IsNormal, merge_range-Within,
}
use cache_22_server.Upload.Store.{dir_of, write_at}
use cache_22_server.Upload.Store.Content.{get_elem?-write_at, length-write_at}
use cache_22_server.Upload.Store.Laws.{write_meta-Written}
use cache_22_server.Upload.Chunked.{write_part, store_chunk}

module _ (content : Bytes) where
  -- The bytes at hand are those of the content from `offset` on.
  abbrev pub IsSlice : ℕ → Bytes → Type 0
  IsSlice offset body =
      (offset + length body ≤ length content)
      × ((i : ℕ) → i < length body → get_elem? body i ≡ get_elem? content (offset + i))

  -- On the ranges the file agrees with the content.
  abbrev pub Agrees : List ByteRange → Bytes → Type 0
  Agrees rs raw = (i : ℕ) → covers rs i ≡ true → get_elem? raw i ≡ get_elem? content i

  pub record Good (id : Bytes) (m : UploadMeta) (raw : Bytes) : Type 0 where
    pub own : m.id ≡ id
    pub sized : m.size ≡ length content
    pub filled : length raw ≡ length content
    pub normal : IsNormal m.ranges
    pub within : Within m.size m.ranges
    pub agrees : Agrees m.ranges raw

  -- A session with no readable meta, or whose file has moved on, promises nothing.
  abbrev pub Partial : Bytes → Option UploadMeta → Option Bytes → Type 0
  Partial id none part = Unit
  Partial id (some m) none = Unit
  Partial id (some m) (some raw) = Good id m raw

  abbrev pub Holds : Bytes → World → Type 0
  Holds id w = Partial id (dir_of id w).meta (dir_of id w).part

  take-IsSlice : (n offset : ℕ) (body : Bytes) → IsSlice offset body → IsSlice offset (take n body)
  take-IsSlice n offset body (fits, same) = (
    omega (arith, length-take n body),
    λ i h. ground (arith, get_elem?-take n body i, length-take n body, same i),
  )

  -- Writing a slice of the content keeps what was right, also where the ranges overlap.
  write_at-Good :
      (id : Bytes) (m : UploadMeta) (raw : Bytes) (offset : ℕ) (body : Bytes)
      → IsSlice offset body
      → Good id m raw
      → Good id m (write_at raw offset body)
  write_at-Good id m raw offset body (fits, same) g = record {
    own = g.own;
    sized = g.sized;
    filled = omega (arith, g.filled, length-write_at raw offset body (omega (arith, g.filled)));
    normal = g.normal;
    within = g.within;
    agrees = λ i c.
        ground
          (arith, g.agrees i c, g.filled, get_elem?-write_at raw offset body i, same (i - offset));
  }

  -- Recording the slice that was written, too.
  pub merge-Good :
      (id : Bytes) (m : UploadMeta) (raw : Bytes) (offset : ℕ) (body : Bytes)
      → IsSlice offset body
      → 0 < length body
      → Good id m raw
      → Good id
          (record m { ranges = (merge_range m.ranges m.size (offset, offset + length body)).0 })
          (write_at raw offset body)
  merge-Good id m raw offset body (fits, same) h g = record {
    own = g.own;
    sized = g.sized;
    filled = omega (arith, g.filled, length-write_at raw offset body (omega (arith, g.filled)));
    normal = merge_range-IsNormal m.ranges m.size _ g.normal (omega arith);
    within =
        merge_range-Within m.ranges m.size _ g.normal g.within (omega arith)
          (omega (arith, g.sized));
    agrees = λ i c. ground (
      arith,
      g.agrees i,
      g.filled,
      covers-merge_range m.ranges m.size (offset, offset + length body) i,
      get_elem?-write_at raw offset body i,
      same (i - offset),
    );
  }

-- How writing to data.part may end.
abbrev Stored : ℕ → Bytes → ℕ → Bytes → UploadDir → Result (Unit {0}) → UploadDir → Type 0
Stored torn raw offset body d r d' =
    ((r ≡ err fault) × (d' ≡ d))
    ⊎ ((r ≡ err fault) × (d' ≡ record d { part = some (write_at raw offset (take torn body)) }))
    ⊎ ((r ≡ ok tt) × (d' ≡ record d { part = some (write_at raw offset body) }))

write_part-Stored :
    (id : Bytes) (offset : ℕ) (body raw : Bytes) (w : World)
    → (dir_of id w).part ≡ some raw
    → let (r, w') = write_part id offset body w in
      Stored w.torn raw offset body (dir_of id w) r (dir_of id w')
unfolding write_part
write_part-Stored id offset body raw w e = ground (
  arith,
  beq_refl id,
  lookup-insert id id
      (record (dir_of id w) { part = some (write_at raw offset (take w.torn body)) }) w.uploads,
  lookup-insert id id (record (dir_of id w) { part = some (write_at raw offset body) }) w.uploads,
)

attempt_uploads : (w : World) → (attempt w).1.uploads ≡ w.uploads
unfolding attempt
attempt_uploads w = refl

write_part_lost :
    (id : Bytes) (offset : ℕ) (body : Bytes) (w : World)
    → (dir_of id w).part ≡ none
    → write_part id offset body w ≡ (err fault, w)
unfolding write_part
write_part_lost id offset body w e = ground arith

-- The meta of the session once the chunk is recorded.
abbrev pub recorded : UploadMeta → ℕ → Bytes → UploadMeta
recorded m offset body = record m {
  ranges = (merge_range m.ranges m.size (offset, offset + length body)).0;
}

-- How a chunk may leave the session's folder.
abbrev Chunked : ℕ → Bytes → UploadMeta → ℕ → Bytes → UploadDir → UploadDir → Type 0
Chunked torn raw m offset body d d' =
    (d' ≡ d)
    ⊎ (d' ≡ record d { part = some (write_at raw offset (take torn body)) })
    ⊎ (d' ≡ record d { part = some (write_at raw offset body) })
    ⊎ (d' ≡ record { meta = none; part = some (write_at raw offset body) })
    ⊎ (d' ≡ record { meta = some (recorded m offset body); part = some (write_at raw offset body) })

store_chunk-Chunked :
    (id : Bytes) (m : UploadMeta) (offset : ℕ) (body raw : Bytes) (w : World)
    → m.id ≡ id
    → (dir_of id w).part ≡ some raw
    → Chunked w.torn raw m offset body (dir_of id w) (dir_of id (store_chunk m id offset body w).1)
unfolding store_chunk attempt
store_chunk-Chunked id m offset body raw w own e =
    let w1 = (attempt w).1 in
    let w2 = (write_part id offset body w1).1 in
    ground (
      arith,
      write_part-Stored id offset body raw w1 e,
      write_meta-Written (recorded m offset body) w2,
    )

store_chunk_lost :
    (id : Bytes) (m : UploadMeta) (offset : ℕ) (body : Bytes) (w : World)
    → (dir_of id w).part ≡ none
    → dir_of id (store_chunk m id offset body w).1 ≡ dir_of id w
unfolding store_chunk attempt
store_chunk_lost id m offset body w e =
    ground (arith, write_part_lost id offset body (attempt w).1 e)

module _ (content : Bytes) (id : Bytes) (m : UploadMeta) (offset : ℕ) (body : Bytes)
    (slice : IsSlice content offset body) (h : 0 < length body) where
  Chunked-Partial :
      (torn : ℕ) (raw : Bytes) (d : UploadDir)
      → Good content id m raw
      → Chunked torn raw m offset body (record { meta = some m; part = some raw }) d
      → Partial content id d.meta d.part
  Chunked-Partial torn raw d g (inl e) = rw e g
  Chunked-Partial torn raw d g (inr (inl e)) = rw e (
      write_at-Good content id m raw offset (take torn body)
        (take-IsSlice content torn offset body slice) g)
  Chunked-Partial torn raw d g (inr (inr (inl e))) =
      rw e (write_at-Good content id m raw offset body slice g)
  Chunked-Partial torn raw d g (inr (inr (inr (inl e)))) = rw e tt
  Chunked-Partial torn raw d g (inr (inr (inr (inr e)))) =
      rw e (merge-Good content id m raw offset body slice h g)

  pub store_chunk-Holds :
      (w : World)
      → (dir_of id w).meta ≡ some m
      → Holds content id w
      → Holds content id (store_chunk m id offset body w).1
  store_chunk-Holds w em held = elim (Option-cases (dir_of id w).part) [
    | inl lost ↦ rw (store_chunk_lost id m offset body w lost) held
    | inr (raw, ep) ↦
        let g : Good content id m raw =
          subst (λ (d : UploadDir). Partial content id d.meta d.part) (λ i. whole raw ep i) held in
        Chunked-Partial w.torn raw _ g (
          subst
            (λ d. Chunked w.torn raw m offset body d (dir_of id (store_chunk m id offset body w).1))
            (whole raw ep) (store_chunk-Chunked id m offset body raw w g.own ep))
  ]
    where
      whole :
          (raw : Bytes)
          → (dir_of id w).part ≡ some raw
          → dir_of id w ≡ record { meta = some m; part = some raw }
      whole raw ep = λ i. record { meta = em i; part = ep i }
