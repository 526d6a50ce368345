-- ===== src/Covers/Apart.antt =====
-- The backfill of covers leaves the accounts alone.
use cache_22_server.Prelude.{
  refl, ℕ, suc, List, [], ◌∷◌, map, codes, Bytes, arith, inl, inr, Option-cases,
}
use cache_22_server.Go.FilePath.{FilePath}
use cache_22_server.Entity.{Game}
use cache_22_server.World.{attempt, Result-cases}
use cache_22_server.External.{External}
use cache_22_server.Apart.{Apart, attempt-Apart}
use cache_22_server.Db
use cache_22_server.Db.Apart.{games_list-Apart, missing_serials-Apart, upsert_cover-Apart}
use cache_22_server.Igdb.{FoundGame, platform_id, search_games, clean_title, fetch}
use cache_22_server.Igdb.Apart.{platform_id-Apart, search_games-Apart, fetch-Apart}
use cache_22_server.Covers.{
  image_path, pick_cover, title_in, row_of, pause, keep_cover, fetch_one, fetch_all, backfill,
  admin_backfill_covers,
}

module _ (dir : FilePath) where
  keep_cover-Apart : (serial : Bytes) (g : FoundGame) → Apart (keep_cover dir serial g)
  unfolding keep_cover
  keep_cover-Apart serial g w =
      let dest = image_path dir serial in
      let w1 = (fetch g.cover_url dest w).1 in
      ground (arith, fetch-Apart g.cover_url dest w, upsert_cover-Apart (row_of serial dest g) w1)

  fetch_one-Apart :
      (serial title : Bytes) (platform : ℕ) → Apart (fetch_one dir serial title platform)
  unfolding fetch_one
  fetch_one-Apart serial title platform w =
      let asked = search_games (clean_title title) platform w in
      let sent = search_games-Apart (clean_title title) platform w in
      elim (Result-cases asked.0) [
        | inl (e, h) ↦ ground (arith, sent)
        | inr (results, h) ↦ elim (Option-cases (pick_cover results)) [
          | inl n ↦ ground (arith, sent)
          | inr (g, n) ↦ ground (arith, sent, keep_cover-Apart serial g asked.1)
        ]
      ]

  fetch_all-Apart :
      (limit platform : ℕ) (games : List Game) (serials : List Bytes) (done : ℕ)
      → Apart (fetch_all dir limit platform games serials done)
  unfolding fetch_all
  fetch_all-Apart limit platform games [] done w = (refl, refl, refl)
  fetch_all-Apart limit platform games (serial ∷ serials) done w =
      let w1 = (attempt w).1 in
      let title = title_in serial [] games in
      let w2 = (fetch_one dir serial title platform w1).1 in
      ground (
        arith,
        attempt-Apart w,
        fetch_one-Apart serial title platform w1,
        fetch_all-Apart limit platform games serials done w2,
        fetch_all-Apart limit platform games serials (suc done) (pause w2),
      )

  backfill-Apart :
      (x : External) (client_id secret : Bytes) (limit : ℕ)
      → Apart (backfill dir x client_id secret limit)
  unfolding backfill
  backfill-Apart x client_id secret limit w =
      let listed = Db.Games.list x.sorted_titles w in
      elim (Result-cases listed.0) [
        | inl (e, h) ↦ ground (arith, games_list-Apart x.sorted_titles w)
        | inr (games, h) ↦
            let serials = map (λ (g : Game). g.serial) games in
            let searched = Db.Covers.missing_serials serials listed.1 in
            elim (Result-cases searched.0) [
              | inl (e, k) ↦ ground (
                arith,
                games_list-Apart x.sorted_titles w,
                missing_serials-Apart serials listed.1,
              )
              | inr (missing, k) ↦
                  let named = platform_id (codes "PlayStation 2") searched.1 in
                  elim (Result-cases named.0) [
                    | inl (e, j) ↦ ground (
                      arith,
                      games_list-Apart x.sorted_titles w,
                      missing_serials-Apart serials listed.1,
                      platform_id-Apart (codes "PlayStation 2") searched.1,
                    )
                    | inr (platform, j) ↦ ground (
                      arith,
                      games_list-Apart x.sorted_titles w,
                      missing_serials-Apart serials listed.1,
                      platform_id-Apart (codes "PlayStation 2") searched.1,
                      fetch_all-Apart limit platform games missing 0 named.1,
                    )
                  ]
            ]
      ]

  pub admin_backfill_covers-Apart :
      (x : External) (client_id secret : Bytes)
      → Apart (admin_backfill_covers dir x client_id secret)
  unfolding admin_backfill_covers
  admin_backfill_covers-Apart x client_id secret w =
      ground (arith, backfill-Apart x client_id secret 25 w)
