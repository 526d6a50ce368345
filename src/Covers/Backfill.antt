-- ===== src/Covers/Backfill.antt =====
-- Backfill and fetchOne of internal/app/usecase/cover/cover.go: how many covers one call fetches, and
-- what a fetched cover leaves for GET /v1/games/{serial}/cover.
use cache_22_server.Prelude.{
  ℕ, suc, ◌≤◌, ◌<◌, ◌≡◌, refl, sym, ap, ◌∙◌, subst, map, codes, List, [], ◌∷◌, Bytes, arith, length,
  length-take, beq_refl, find_if, ◌==◌, nat_eq, list_eq, inl, inr, some, Option-cases,
}
use cache_22_server.Prelude.Assoc.{lookup}
use cache_22_server.Go.FilePath.{FilePath}
use cache_22_server.Entity.{Game, Cover}
use cache_22_server.World.{World, ok, quiet, attempt, Result-cases}
use cache_22_server.External.{External}
use cache_22_server.Http.{Body}
use cache_22_server.Disk.{write_file}
use cache_22_server.Disk.Laws.{lookup-write_file}
use cache_22_server.Db
use cache_22_server.Db.Covers.{put_cover}
use cache_22_server.Remote.{Reply, download}
use cache_22_server.Igdb.{
  platform_id, search_games, clean_title, FoundGame, max_cover_bytes, limited, fetch, write_limited,
  body_of, send,
}
use cache_22_server.Games.{serve_cover}
use cache_22_server.Covers.{
  image_path, fetch_one, keep_cover, fetch_all, backfill, row_of, pause, title_in, pick_cover,
}

length-limited : (raw : Bytes) → length (limited raw) ≤ max_cover_bytes
unfolding limited
length-limited raw = omega (arith, length-take max_cover_bytes raw)

write_limited_ok :
    (raw : Bytes) (dest : FilePath) (w : World)
    → (write_limited raw dest w).0 ≡ ok tt
    → let kept = limited raw in
      let w2 = (attempt (attempt w).1).1 in
      ((write_file dest kept w2).0 ≡ ok tt)
      × ((write_limited raw dest w).1 ≡ (write_file dest kept w2).1)
      × (0 < length kept)
unfolding write_limited
write_limited_ok raw dest w h = ground arith

lookup-write_limited :
    (raw : Bytes) (dest : FilePath) (w : World)
    → (write_limited raw dest w).0 ≡ ok tt
    → (lookup dest (write_limited raw dest w).1.files ≡ some (limited raw))
      × (0 < length (limited raw))
lookup-write_limited raw dest w h =
    let (done, same, some_bytes) = write_limited_ok raw dest w h in
    (
      ap (λ (w' : World). lookup dest w'.files) same
          ∙ lookup-write_file dest (limited raw) (attempt (attempt w).1).1 done,
      some_bytes,
    )

-- The file is there, with at least one byte and no more than the limit.
abbrev Kept : FilePath → Bytes → World → Type 0
Kept dest raw w =
    (lookup dest w.files ≡ some raw) × (0 < length raw) × (length raw ≤ max_cover_bytes)

fetch_lookup :
    (url : Bytes) (dest : FilePath) (reply : Reply) (w : World)
    → (send (download url) w).0 ≡ ok reply
    → (fetch url dest w).0 ≡ ok tt
    → Kept dest (limited (body_of reply)) (fetch url dest w).1
unfolding fetch
fetch_lookup url dest reply w e h =
    let raw = body_of reply in
    ground (arith, lookup-write_limited raw dest (send (download url) w).1, length-limited raw)

fetch-Kept :
    (url : Bytes) (dest : FilePath) (w : World)
    → (fetch url dest w).0 ≡ ok tt
    → (raw : Bytes) × Kept dest raw (fetch url dest w).1
unfolding fetch
fetch-Kept url dest w h = elim (Result-cases (send (download url) w).0) [
  | inl (c, e) ↦ absurd (ground arith)
  | inr (reply, e) ↦ let raw = body_of reply in (limited raw, fetch_lookup url dest reply w e h)
]

put_cover_found :
    (now : ℕ) (c : Cover) (cs : List Cover)
    → find_if (λ (d : Cover). d.serial == c.serial) (put_cover now c cs)
      ≡ some (record c { fetched_at = now })
unfolding put_cover
put_cover_found now c [] = ground (arith, beq_refl c.serial)
put_cover_found now c (d ∷ cs) = ground (arith, beq_refl c.serial, put_cover_found now c cs)

-- The row of a cover names the file, which is there.
abbrev pub HasCover : FilePath → Bytes → Bytes → World → Type 0
HasCover dir serial raw w =
    (c : Cover) × (find_if (λ (d : Cover). d.serial == serial) w.covers ≡ some c)
    × (c.image_path ≡ image_path dir serial)
    × Kept (image_path dir serial) raw w

module _ (dir : FilePath) where
  keep_cover_ok :
      (serial : Bytes) (g : FoundGame) (w : World)
      → (keep_cover dir serial g w).0 ≡ ok tt
      → let dest = image_path dir serial in
        let w1 = (fetch g.cover_url dest w).1 in
        ((fetch g.cover_url dest w).0 ≡ ok tt)
        × ((keep_cover dir serial g w).1.files ≡ w1.files)
        × ((keep_cover dir serial g w).1.covers ≡ put_cover w1.now (row_of serial dest g) w1.covers)
  unfolding keep_cover
  keep_cover_ok serial g w h = ground arith

  fetch_all-le :
      (limit platform : ℕ) (games : List Game) (serials : List Bytes) (done n : ℕ) (w : World)
      → 0 < limit
      → done ≤ limit
      → (fetch_all dir limit platform games serials done w).0 ≡ ok n
      → n ≤ limit
  unfolding fetch_all attempt
  fetch_all-le limit platform games [] done n w h k e = ground arith
  fetch_all-le limit platform games (serial ∷ serials) done n w h k e =
      let one = fetch_one dir serial (title_in serial [] games) platform (attempt w).1 in
      ground (
        arith,
        fetch_all-le limit platform games serials done n one.1 h k,
        fetch_all-le limit platform games serials (suc done) n (pause one.1) h,
      )

  keep_cover-HasCover :
      (serial : Bytes) (g : FoundGame) (w : World)
      → (keep_cover dir serial g w).0 ≡ ok tt
      → (raw : Bytes) × HasCover dir serial raw (keep_cover dir serial g w).1
  keep_cover-HasCover serial g w h =
      let dest = image_path dir serial in
      let w1 = (fetch g.cover_url dest w).1 in
      let (done, files, covers) = keep_cover_ok serial g w h in
      let (raw, (there, some_bytes, small)) = fetch-Kept g.cover_url dest w done in
      (
        raw,
        (
          record (row_of serial dest g) { fetched_at = w1.now },
          ap (find_if (λ (d : Cover). d.serial == serial)) covers
              ∙ put_cover_found w1.now (row_of serial dest g) w1.covers,
          refl,
          (ap (lookup dest) files ∙ there, some_bytes, small),
        ),
      )

  picked_ok :
      (serial title : Bytes) (platform : ℕ) (results : List FoundGame) (g : FoundGame) (w : World)
      → (search_games (clean_title title) platform w).0 ≡ ok results
      → pick_cover results ≡ some g
      → (fetch_one dir serial title platform w).0 ≡ ok tt
      → let w1 = (search_games (clean_title title) platform w).1 in
        ((keep_cover dir serial g w1).0 ≡ ok tt)
        × ((fetch_one dir serial title platform w).1 ≡ (keep_cover dir serial g w1).1)
  unfolding fetch_one
  picked_ok serial title platform results g w e f h = ground arith

  -- A cover that fetchOne has fetched is a file of 1 byte to 8 MiB, and its row names that file.
  pub fetch_one-HasCover :
      (serial title : Bytes) (platform : ℕ) (w : World)
      → (fetch_one dir serial title platform w).0 ≡ ok tt
      → (raw : Bytes) × HasCover dir serial raw (fetch_one dir serial title platform w).1
  unfolding fetch_one
  fetch_one-HasCover serial title platform w h =
      elim (Result-cases (search_games (clean_title title) platform w).0) [
        | inl (c, e) ↦ absurd (ground arith)
        | inr (results, e) ↦ elim (Option-cases (pick_cover results)) [
          | inl n ↦ absurd (ground arith)
          | inr (g, f) ↦
              let w1 = (search_games (clean_title title) platform w).1 in
              let (done, same) = picked_ok serial title platform results g w e f h in
              subst (λ (w' : World). (raw : Bytes) × HasCover dir serial raw w') (sym same)
                (keep_cover-HasCover serial g w1 done)
        ]
      ]

  serve-HasCover :
      (serial raw : Bytes) (w : World)
      → HasCover dir serial raw w
      → (serve_cover serial (quiet w)).0 ≡ record { code = 200; body = Body.content [] raw }
  unfolding serve_cover
  serve-HasCover serial raw w (c, row, path, (there, some_bytes, small)) =
      ground (arith, row, ap (λ p. lookup p w.files) path, there)

  -- A cover that fetchOne has fetched is, where no call fails, what the request for the game's cover
  -- answers with 200: an image of 1 byte to 8 MiB.
  pub fetched_cover_served :
      (serial title : Bytes) (platform : ℕ) (w : World)
      → (fetch_one dir serial title platform w).0 ≡ ok tt
      → (raw : Bytes) × ((serve_cover serial (quiet (fetch_one dir serial title platform w).1)).0
          ≡ record { code = 200; body = Body.content [] raw })
        × (0 < length raw)
        × (length raw ≤ max_cover_bytes)
  fetched_cover_served serial title platform w h =
      let (raw, kept) = fetch_one-HasCover serial title platform w h in
      let (c, row, path, (there, some_bytes, small)) = kept in
      (
        raw,
        serve-HasCover serial raw (fetch_one dir serial title platform w).1 kept,
        some_bytes,
        small,
      )

  -- A backfill that succeeds has fetched no more covers than its limit, where it has one.
  pub backfill-le :
      (x : External) (client_id secret : Bytes) (limit n : ℕ) (w : World)
      → 0 < limit
      → (backfill dir x client_id secret limit w).0 ≡ ok n
      → n ≤ limit
  unfolding backfill
  backfill-le x client_id secret limit n w h e =
      let listed = Db.Games.list x.sorted_titles w in
      elim (Result-cases listed.0) [
        | inl (c, f) ↦ absurd (ground arith)
        | inr (games, f) ↦
            let searched =
              Db.Covers.missing_serials (map (λ (g : Game). g.serial) games) listed.1 in
            elim (Result-cases searched.0) [
              | inl (c, k) ↦ absurd (ground arith)
              | inr (missing, k) ↦
                  let named = platform_id (codes "PlayStation 2") searched.1 in
                  elim (Result-cases named.0) [
                    | inl (c, l) ↦ absurd (ground arith)
                    | inr (platform, l) ↦
                        fetch_all-le limit platform games missing 0 n named.1 h (omega arith)
                          (ground arith)
                  ]
            ]
      ]
