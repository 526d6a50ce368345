-- ===== src/Games.antt =====
-- internal/app/usecase/game (usecase.go, iso.go), and the handlers of games and files in
-- internal/handler/http (handler.go, files.go). The backfill of covers that a scan starts runs apart
-- from it.
pub mod Apart
pub mod Manifests
pub mod Download
mod Tests
use cache_22_server.Disk.{last_part, open_file}
use cache_22_server.Prelude.{
  ℕ, Bool, true, false, List, [], ◌∷◌, ◌++◌, Bytes, codes, ltb, if◌then◌else◌,
}
use cache_22_server.Go.Text.{to_lower, has_suffix}
use cache_22_server.Go.FilePath.{FilePath}
use cache_22_server.Entity.{
  Game, Manifest, HealthCheck, Cover, boot_bytes, block_size, manifest_version,
}
use cache_22_server.World.{World, Action, Proc, Error, no_rows, attempt, pure, handle, ◌>>=◌}
use cache_22_server.External.{External}
use cache_22_server.Http.{Response, Body, problem_response, respond, refuse, internal_err}
use cache_22_server.Scanner.{run}
use cache_22_server.Db

-- isRawISO and isISO, which are the same: a path's text ends like its last component here.
pub is_iso : FilePath → Bool
unfolding last_part to_lower has_suffix
is_iso path = has_suffix (to_lower (last_part path)) (codes ".iso")

-- GetGame
abbrev pub get_game : Bytes → Action Game
get_game serial = Db.Games.get_by_serial serial

-- `boot`, at most the size of the file
abbrev pub boot_of : ℕ → ℕ
boot_of size = if ltb size boot_bytes then size else boot_bytes

abbrev pub boot_ranges_of : ℕ → List (ℕ × ℕ)
boot_ranges_of size = if ltb 0 (boot_of size) then (0, boot_of size) ∷ [] else []

unfoldable pub manifest_of : Game → Manifest
unfolding is_iso
manifest_of g = record {
  version = manifest_version;
  serial = g.serial;
  redump_hash = g.redump_hash;
  title = g.title;
  size_bytes = g.size_bytes;
  block_size = block_size;
  boot_ranges = boot_ranges_of g.size_bytes;
  file_url = codes "/v1/files/" ++ g.serial;
  manifest_url = codes "/v1/games/" ++ (g.serial ++ codes "/manifest.json");
  supported = is_iso g.file_path;
  unsupported_hint = [];
}

-- GetManifest
unfoldable pub get_manifest : Bytes → Action Manifest
unfolding Db.Games.get_by_serial manifest_of
get_manifest serial = do g ← Db.Games.get_by_serial serial; pure (manifest_of g)

-- HealthCheck
unfoldable pub health_check : Bytes → Action HealthCheck
unfolding Db.Health.get_status
health_check source = do
  status ← Db.Health.get_status source
  pure (record { status = status; message = codes "service is healthy" })

-- GET /v1/health
unfoldable pub health : Proc Response
unfolding health_check
health =
    handle (health_check (codes "http")) (λ e. internal_err) λ res. respond 200 (Body.health res)

-- the answers to an error of GetGame and GetManifest
abbrev pub game_missing : Error → Proc Response
game_missing no_rows w = (problem_response 404 "game not found", w)
game_missing e w = (problem_response 500 "internal error", w)

-- GET /v1/games/{serial}
unfoldable pub get_game_page : Bytes → Proc Response
unfolding Db.Games.get_by_serial
get_game_page serial = handle (get_game serial) game_missing λ g. respond 200 (Body.game g)

abbrev pub hinted : Manifest → Manifest
hinted m =
    if m.supported
    then m
    else record m { unsupported_hint = codes "compressed image needs extract first, raw .iso only" }

-- GET /v1/games/{serial}/manifest.json
unfoldable pub serve_manifest : Bytes → Proc Response
unfolding get_manifest
serve_manifest serial =
    handle (get_manifest serial) game_missing λ m. respond 200 (Body.manifest (hinted m))

-- `"` + g.RedumpHash + `"`
abbrev pub etag_of : Game → Bytes
etag_of g = codes "\"" ++ (g.redump_hash ++ codes "\"")

-- os.Open and Stat, and ServeContent of the whole file
pub send_file : Game → Proc Response
unfolding open_file attempt
send_file g =
    handle (open_file g.file_path) (λ e. refuse 404 "backing file missing")
      λ raw. handle attempt (λ e. internal_err) λ u. respond 200 (Body.content (etag_of g) raw)

pub serve_game : Game → Proc Response
unfolding send_file is_iso
serve_game g =
    if is_iso g.file_path
    then send_file g
    else refuse 415 "compressed image needs extract first, raw .iso only"

-- GET /v1/files/{serial}
unfoldable pub serve_file : Bytes → Proc Response
unfolding serve_game Db.Games.get_by_serial
serve_file serial = handle (get_game serial) game_missing serve_game

-- GET /v1/games/{serial}/cover
unfoldable pub serve_cover : Bytes → Proc Response
unfolding Db.Covers.get_by_serial open_file attempt
serve_cover serial =
    handle (Db.Covers.get_by_serial serial) (λ e. refuse 404 "no cover art")
      λ c.
        handle (open_file c.image_path) (λ e. refuse 404 "no cover art")
          λ raw. handle attempt (λ e. internal_err) λ u. respond 200 (Body.content [] raw)

module _ (x : External) where
  -- GET /v1/games
  unfoldable pub list_games : Proc Response
  unfolding Db.Games.list
  list_games =
      handle (Db.Games.list x.sorted_titles) (λ e. internal_err)
        λ games. respond 200 (Body.games games)

  -- POST /v1/scan
  unfoldable pub scan : FilePath → Proc Response
  unfolding run
  scan dir = handle (run x dir) (λ e. internal_err) λ n. respond 200 (Body.scanned n)
