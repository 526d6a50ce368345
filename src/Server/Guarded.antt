-- ===== src/Server/Guarded.antt =====
-- The requests that are not for accounts, and the pages that only show something, behind their
-- guards.
use cache_22_server.Prelude.{◌≢◌, refl, Bytes, some, arith}
use cache_22_server.Entity.{User}
use cache_22_server.World.{Proc}
use cache_22_server.External.{External}
use cache_22_server.Http.{Response}
use cache_22_server.Guard.{require_auth, require_admin, admin_only}
use cache_22_server.Guard.Access.{require_auth_keeps}
use cache_22_server.Apart.{Apart, SameAccounts, SameAccounts-trans}
use cache_22_server.Games.{list_games, get_game_page, serve_manifest, serve_cover, serve_file, scan}
use cache_22_server.Upload.Single.{upload_game}
use cache_22_server.Upload.Init.{upload_init}
use cache_22_server.Upload.Chunked.{upload_chunk, upload_complete, upload_abort}
use cache_22_server.Saves.Handlers.{serve_save, put_save, delete_save}
use cache_22_server.Covers.{admin_backfill_covers}
use cache_22_server.Games.Apart.{
  health-Apart, get_game_page-Apart, serve_manifest-Apart, serve_file-Apart, serve_cover-Apart,
  list_games-Apart, scan-Apart,
}
use cache_22_server.Upload.Single.Apart.{upload_game-Apart}
use cache_22_server.Upload.Chunked.Apart.{
  upload_init-Apart, upload_chunk-Apart, upload_complete-Apart, upload_abort-Apart,
}
use cache_22_server.Saves.Handlers.Apart.{serve_save-Apart, put_save-Apart, delete_save-Apart}
use cache_22_server.Covers.Apart.{admin_backfill_covers-Apart}
use cache_22_server.Accounts.{AccountRequest}
use cache_22_server.Server

module _ (x : External) where
  guarded-Apart :
      (next : User → Proc Response) (token : Bytes)
      → ((u : User) → Apart (next u))
      → Apart (require_auth x next token)
  guarded-Apart next token h w =
      require_auth_keeps x (SameAccounts w) next token w
        (λ w' (users, sessions, s2, s3, s4, s5, s6, next_id). (users, sessions, next_id))
        (λ u w' k. SameAccounts-trans w w' (next u w').1 k (h u w'))

  admin_only-Apart :
      (next : User → Proc Response)
      → ((u : User) → Apart (next u))
      → (u : User) → Apart (admin_only next u)
  admin_only-Apart next h u w = ground (arith, h u w)

  admin-Apart :
      (next : User → Proc Response) (token : Bytes)
      → ((u : User) → Apart (next u))
      → Apart (require_admin x next token)
  unfolding require_admin
  admin-Apart next token h = guarded-Apart (admin_only next) token (admin_only-Apart next h)

  module _ (s : Server.Settings) where
    -- A request that is not for accounts leaves the accounts alone, on every path.
    pub serve_api-Apart :
        (token : Bytes) (req : Server.ApiRequest)
        → ((r : AccountRequest) → req ≢ Server.account r)
        → Apart (Server.serve_api x s token req)
    unfolding Server.serve_api
    serve_api-Apart token (Server.account r) n = absurd (n r refl)
    serve_api-Apart token Server.health_check n = health-Apart
    serve_api-Apart token Server.all_games n =
        guarded-Apart (λ u. list_games x) token (λ u. list_games-Apart x)
    serve_api-Apart token (Server.game serial) n =
        guarded-Apart (λ u. get_game_page serial) token (λ u. get_game_page-Apart serial)
    serve_api-Apart token (Server.manifest serial) n =
        guarded-Apart (λ u. serve_manifest serial) token (λ u. serve_manifest-Apart serial)
    serve_api-Apart token (Server.cover serial) n =
        guarded-Apart (λ u. serve_cover serial) token (λ u. serve_cover-Apart serial)
    serve_api-Apart token (Server.file serial) n =
        guarded-Apart (λ u. serve_file serial) token (λ u. serve_file-Apart serial)
    serve_api-Apart token (Server.upload parts) n =
        admin-Apart (λ u. upload_game x s.library_path parts) token
          (λ u. upload_game-Apart x s.library_path parts)
    serve_api-Apart token (Server.init req) n =
        admin-Apart (λ u. upload_init s.library_path req) token
          (λ u. upload_init-Apart s.library_path req)
    serve_api-Apart token (Server.chunk id offset body) n =
        admin-Apart (λ u. upload_chunk id offset body) token
          (λ u. upload_chunk-Apart id offset body)
    serve_api-Apart token (Server.complete id) n =
        admin-Apart (λ u. upload_complete x s.library_path id) token
          (λ u. upload_complete-Apart x s.library_path id)
    serve_api-Apart token (Server.abort id) n =
        admin-Apart (λ u. upload_abort id) token (λ u. upload_abort-Apart id)
    serve_api-Apart token (Server.card serial slot with_body) n =
        guarded-Apart (λ u. serve_save x s.saves_dir (some u) serial slot with_body) token
          (λ u. serve_save-Apart x s.saves_dir u serial slot with_body)
    serve_api-Apart token (Server.store_card serial slot raw) n =
        guarded-Apart (λ u. put_save x s.saves_dir (some u) serial slot raw) token
          (λ u. put_save-Apart x s.saves_dir u serial slot raw)
    serve_api-Apart token (Server.drop_card serial slot) n =
        guarded-Apart (λ u. delete_save x s.saves_dir (some u) serial slot) token
          (λ u. delete_save-Apart x s.saves_dir u serial slot)
    serve_api-Apart token Server.rescan n =
        admin-Apart (λ u. scan x s.library_path) token (λ u. scan-Apart x s.library_path)
    serve_api-Apart token Server.fetch_covers n =
        admin-Apart (λ u. admin_backfill_covers s.cover_dir x s.igdb_client s.igdb_secret) token
          (λ u. admin_backfill_covers-Apart s.cover_dir x s.igdb_client s.igdb_secret)
