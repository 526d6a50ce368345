-- ===== src/Server.antt =====
-- The whole server: Routes of internal/handler/http/handler.go with the settings that
-- internal/xmodule/xmodule.go hands to the parts, the pages beside it, and the steps of the world in
-- which both run.
pub mod Guarded
pub mod Kept
pub mod Admins
pub mod Closed
pub mod Logins
mod Tests
use cache_22_server.Prelude.{ℕ, ◌≤◌, Bool, Option, none, some, List, [], ◌∷◌, Bytes}
use cache_22_server.Prelude.Assoc.{Assoc}
use cache_22_server.Go.FilePath.{FilePath}
use cache_22_server.Remote.{Reply}
use cache_22_server.World.{World, Proc}
use cache_22_server.External.{External}
use cache_22_server.Http.{Response, Body, respond}
use cache_22_server.Guard.{token_from, require_auth, require_admin}
use cache_22_server.Accounts.{AccountRequest, serve_account}
use cache_22_server.Games.{
  health, list_games, get_game_page, serve_manifest, serve_cover, serve_file, scan,
}
use cache_22_server.Upload.Single.{Part, upload_game}
use cache_22_server.Upload.Init.{InitRequest, upload_init}
use cache_22_server.Upload.Chunked.{upload_chunk, upload_complete, upload_abort}
use cache_22_server.Saves.Handlers.{serve_save, put_save, delete_save}
use cache_22_server.Covers.{admin_backfill_covers}
use cache_22_server.Web.Routes.{PageRequest, serve_page}

-- The settings that the handlers work with; a folder is its path.
pub record Settings : Type 0 where
  pub library_path : FilePath
  pub saves_dir : FilePath
  pub cover_dir : FilePath
  pub admin_token : Bytes
  pub igdb_client : Bytes
  pub igdb_secret : Bytes

-- The requests of the API besides those for accounts.
pub data ApiRequest : Type 0 where
  account : AccountRequest → ApiRequest
  health_check all_games rescan fetch_covers : ApiRequest
  game : Bytes → ApiRequest
  manifest : Bytes → ApiRequest
  cover : Bytes → ApiRequest
  file : Bytes → ApiRequest
  upload : Option (List Part) → ApiRequest
  init : Option InitRequest → ApiRequest
  chunk : Bytes → Bytes → Option Bytes → ApiRequest
  complete : Option Bytes → ApiRequest
  abort : Bytes → ApiRequest
  -- serial, slot, and whether it is GET or HEAD
  card : Bytes → Bytes → Bool → ApiRequest
  store_card : Bytes → Bytes → Option Bytes → ApiRequest
  drop_card : Bytes → Bytes → ApiRequest

module _ (x : External) (s : Settings) where
  -- Routes. `token` is what tokenFrom finds.
  unfoldable pub serve_api : Bytes → ApiRequest → Proc Response
  serve_api token (account req) = serve_account x s.admin_token token req
  serve_api token health_check = health
  serve_api token all_games = require_auth x (λ u. list_games x) token
  serve_api token (game serial) = require_auth x (λ u. get_game_page serial) token
  serve_api token (manifest serial) = require_auth x (λ u. serve_manifest serial) token
  serve_api token (cover serial) = require_auth x (λ u. serve_cover serial) token
  serve_api token (file serial) = require_auth x (λ u. serve_file serial) token
  serve_api token (upload parts) = require_admin x (λ u. upload_game x s.library_path parts) token
  serve_api token (init req) = require_admin x (λ u. upload_init s.library_path req) token
  serve_api token (chunk id offset body) = require_admin x (λ u. upload_chunk id offset body) token
  serve_api token (complete id) = require_admin x (λ u. upload_complete x s.library_path id) token
  serve_api token (abort id) = require_admin x (λ u. upload_abort id) token
  serve_api token (card serial slot with_body) =
      require_auth x (λ u. serve_save x s.saves_dir (some u) serial slot with_body) token
  serve_api token (store_card serial slot raw) =
      require_auth x (λ u. put_save x s.saves_dir (some u) serial slot raw) token
  serve_api token (drop_card serial slot) =
      require_auth x (λ u. delete_save x s.saves_dir (some u) serial slot) token
  serve_api token rescan = require_admin x (λ u. scan x s.library_path) token
  serve_api token fetch_covers =
      require_admin x (λ u. admin_backfill_covers s.cover_dir x s.igdb_client s.igdb_secret) token

  -- One step of the world: a request of the API with its two places for a token, a page with its
  -- cookie, or what happens around the server: time passes, files come and go, calls begin or cease
  -- to fail, and the random source and the remote service go on.
  pub data Step : World → World → Type 0 where
    calls :
        (authorization : Bytes) (cookie : Option Bytes) (req : ApiRequest) (w : World)
        → Step w (serve_api (token_from authorization cookie) req w).1
    visits :
        (cookie : Option Bytes) (req : PageRequest) (w : World)
        → Step w (serve_page x s.admin_token s.library_path cookie req w).1
    passes : (later : ℕ) (w : World) → w.now ≤ later → Step w (record w { now = later })
    touches : (files : Assoc FilePath Bytes) (w : World) → Step w (record w { files = files })
    around :
        (faults : List Bool) (torn : ℕ) (randoms : List Bytes) (replies : List Reply) (w : World)
        → Step w (record w { faults = faults; torn = torn; randoms = randoms; replies = replies })

  -- Any number of steps.
  pub data Reach : World → World → Type 0 where
    start : (w : World) → Reach w w
    next : (u v w : World) → Reach u v → Step v w → Reach u w
