-- ===== src/Games/Apart.antt =====
-- The handlers of games and files leave the accounts alone.
use cache_22_server.Prelude.{Bytes, arith}
use cache_22_server.Go.FilePath.{FilePath}
use cache_22_server.External.{External}
use cache_22_server.Apart.{Apart}
use cache_22_server.Disk.{open_file}
use cache_22_server.Db
use cache_22_server.Scanner.Apart.{run-Apart}
use cache_22_server.Games.{
  health, health_check, get_game_page, get_manifest, serve_manifest, serve_game, send_file,
  serve_file, serve_cover, list_games, scan,
}

pub health-Apart : Apart health
unfolding health health_check Db.Health.get_status
health-Apart w = ground arith

pub get_game_page-Apart : (serial : Bytes) → Apart (get_game_page serial)
unfolding get_game_page Db.Games.get_by_serial
get_game_page-Apart serial w = ground arith

pub serve_manifest-Apart : (serial : Bytes) → Apart (serve_manifest serial)
unfolding serve_manifest get_manifest Db.Games.get_by_serial
serve_manifest-Apart serial w = ground arith

pub serve_file-Apart : (serial : Bytes) → Apart (serve_file serial)
unfolding serve_file serve_game send_file open_file Db.Games.get_by_serial
serve_file-Apart serial w = ground arith

pub serve_cover-Apart : (serial : Bytes) → Apart (serve_cover serial)
unfolding serve_cover open_file Db.Covers.get_by_serial
serve_cover-Apart serial w = ground arith

module _ (x : External) where
  pub list_games-Apart : Apart (list_games x)
  unfolding list_games Db.Games.list
  list_games-Apart w = ground arith

  pub scan-Apart : (dir : FilePath) → Apart (scan x dir)
  unfolding scan
  scan-Apart dir w = ground (arith, run-Apart x dir w)
