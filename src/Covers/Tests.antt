-- ===== src/Covers/Tests.antt =====
-- A backfill of one game, and two serials that share an image.
use cache_22_server.Prelude.{◌<◌, ◌≤◌, ◌≡◌, some, refl, [], ◌∷◌, ◌++◌, Bytes, codes, arith, length}
use cache_22_server.Go.FilePath.{FilePath}
use cache_22_server.Go.FilePath.Laws.{IsPlain}
use cache_22_server.Remote.{Reply, Match}
use cache_22_server.Entity.{Game}
use cache_22_server.World.{World, ok, quiet, empty_world}
use cache_22_server.Samples.{plain}
use cache_22_server.Http.{Body}
use cache_22_server.Igdb.{
  max_cover_bytes, limited, run_query, token_locked, platform_id, search_games, clean_title, fetch,
  write_limited,
}
use cache_22_server.Games.{serve_cover}
use cache_22_server.Go.Runes.{rune_tail, follows}
use cache_22_server.Covers.{
  kept_from, kept_name, image_path, fetch_one, keep_cover, fetch_all, backfill,
}
use cache_22_server.Covers.Images.{image_path-IsPlain, image_path_collides}
use cache_22_server.Covers.Backfill.{fetched_cover_served, backfill-le}
use cache_22_server.Db
use cache_22_server.Disk.{write_file}

abbrev art : FilePath
art = codes "covers" ∷ []

odd_serial_stays_inside :
    (name : Bytes) × (image_path art (codes "../ico") ≡ art ++ name ∷ []) × IsPlain name
odd_serial_stays_inside = image_path-IsPlain art (codes "../ico")

image_path_collides_example :
    image_path art (codes "ico" ++ b' ' ∷ codes "eu")
    ≡ image_path art (codes "ico" ++ b'_' ∷ codes "eu")
image_path_collides_example =
    image_path_collides art (codes "ico") (codes "eu") b' ' (omega arith) refl

abbrev ico : Game
ico = record {
  serial = codes "ico";
  redump_hash = [];
  title = codes "Ico (USA)";
  size_bytes = 3;
  file_path = codes "lib" ∷ codes "ico.iso" ∷ [];
  created_at = 0;
  updated_at = 0;
}

abbrev hit : Match
hit = record { id = 5; name = codes "Ico"; cover = some (codes "//x/t_thumb/a.jpg") }

abbrev connected : World
connected = record empty_world {
  games = ico ∷ [];
  token = codes "key";
  expiry = 3600000000000;
  replies =
      Reply.platforms
        (record { id = 8; name = codes "playstation 2"; abbreviation = codes "PS2" } ∷ [])
      ∷ Reply.matches (hit ∷ [])
      ∷ Reply.image (codes "jpg")
      ∷ [];
}

one_fetched : (backfill art plain (codes "id") (codes "key") 25 connected).0 ≡ ok 1
unfolding backfill fetch_all fetch_one Db.Games.list Db.Covers.missing_serials platform_id
    search_games clean_title fetch write_limited limited run_query token_locked keep_cover
    write_file
one_fetched = refl

backfill_bounded : 1 ≤ 25
backfill_bounded =
    backfill-le art plain (codes "id") (codes "key") 25 1 connected (omega arith) one_fetched

abbrev searching : World
searching = record connected { replies = Reply.matches (hit ∷ []) ∷ Reply.image (codes "jpg") ∷ [] }

ico_fetched : (fetch_one art (codes "ico") (codes "Ico (USA)") 8 searching).0 ≡ ok tt
unfolding fetch_one search_games clean_title fetch write_limited limited run_query token_locked
    keep_cover write_file
ico_fetched = refl

fetched_cover_served_example :
    (raw : Bytes) × ((serve_cover
        (codes "ico")
        (quiet (fetch_one art (codes "ico") (codes "Ico (USA)") 8 searching).1)).0
      ≡ record { code = 200; body = Body.content [] raw })
    × (0 < length raw)
    × (length raw ≤ max_cover_bytes)
fetched_cover_served_example =
    fetched_cover_served art (codes "ico") (codes "Ico (USA)") 8 searching ico_fetched

-- A character of two bytes becomes one `_`, and so does each byte of a text that is no UTF-8.
one_for_each : kept_name (b'a' ∷ 195 ∷ 169 ∷ b'b' ∷ 195 ∷ b'c' ∷ 169 ∷ 169 ∷ []) ≡ codes "a_b_c__"
unfolding kept_from rune_tail follows
one_for_each = refl
