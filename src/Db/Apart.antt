-- ===== src/Db/Apart.antt =====
-- The tables of games, covers and memory cards stand apart from those of accounts.
use cache_22_server.Prelude.{ℕ, List, Bytes, arith}
use cache_22_server.Entity.{Game, Cover, Save}
use cache_22_server.Apart.{Apart}
use cache_22_server.Db

pub games_list-Apart : (order : List Game → List Game) → Apart (Db.Games.list order)
unfolding Db.Games.list
games_list-Apart order w = ground arith

pub get_by_serial-Apart : (serial : Bytes) → Apart (Db.Games.get_by_serial serial)
unfolding Db.Games.get_by_serial
get_by_serial-Apart serial w = ground arith

pub upsert-Apart : (g : Game) → Apart (Db.Games.upsert g)
unfolding Db.Games.upsert
upsert-Apart g w = ground arith

pub cover-Apart : (serial : Bytes) → Apart (Db.Covers.get_by_serial serial)
unfolding Db.Covers.get_by_serial
cover-Apart serial w = ground arith

pub upsert_cover-Apart : (c : Cover) → Apart (Db.Covers.upsert c)
unfolding Db.Covers.upsert
upsert_cover-Apart c w = ground arith

pub missing_serials-Apart : (serials : List Bytes) → Apart (Db.Covers.missing_serials serials)
unfolding Db.Covers.missing_serials
missing_serials-Apart serials w = ground arith

pub get_save-Apart :
    (user_id : ℕ) (serial : Bytes) (slot : ℕ) → Apart (Db.Saves.get user_id serial slot)
unfolding Db.Saves.get
get_save-Apart user_id serial slot w = ground arith

pub upsert_save-Apart : (s : Save) → Apart (Db.Saves.upsert s)
unfolding Db.Saves.upsert
upsert_save-Apart s w = ground arith

pub delete_save-Apart :
    (user_id : ℕ) (serial : Bytes) (slot : ℕ) → Apart (Db.Saves.delete user_id serial slot)
unfolding Db.Saves.delete
delete_save-Apart user_id serial slot w = ground arith

pub get_status-Apart : (source : Bytes) → Apart (Db.Health.get_status source)
unfolding Db.Health.get_status
get_status-Apart source w = ground arith
