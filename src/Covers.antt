-- ===== src/Covers.antt =====
-- internal/app/usecase/cover/cover.go: the covers of games, fetched by the client of Igdb, and the
-- handler of their backfill in internal/handler/http/admin.go.
pub mod Apart
pub mod Images
pub mod Backfill
mod Tests
use cache_22_server.Prelude.{
  ℕ, zero, suc, ◌+◌, Bool, true, false, not, ◌&&◌, ◌||◌, Option, none, some, List, [], ◌∷◌, ◌++◌,
  map, Bytes, codes, ltb, leb, nat_beq, ◌==◌, nat_eq, list_eq, if◌then◌else◌,
}
use cache_22_server.Go.FilePath.{FilePath}
use cache_22_server.Go.Runes.{rune_tail}
use cache_22_server.Entity.{Game, Cover}
use cache_22_server.World.{
  World, Action, Proc, ok, err, Error, covers_disabled, no_match, no_cover_art, attempt, pure, fail,
  fail_if, or_fail, modify, handle, ◌>>=◌, ◌>>◌,
}
use cache_22_server.External.{External}
use cache_22_server.Http.{Response, Body, respond, internal_err}
use cache_22_server.Igdb.{FoundGame, enabled, platform_id, search_games, clean_title, fetch}
use cache_22_server.Db

-- the characters that the name of an image keeps
abbrev pub is_safe : ℕ → Bool
is_safe c =
    (leb b'a' c && leb c b'z')
    || ((leb b'A' c && leb c b'Z')
        || ((leb b'0' c && leb c b'9') || (nat_beq c b'-' || (nat_beq c b'_' || nat_beq c b'.'))))

-- strings.Map of `safe`: each character that is not kept becomes one `_`; the number is how many bytes
-- of the last character are still to come
unfoldable pub kept_from : ℕ → Bytes → Bytes
unfolding rune_tail
kept_from n [] = []
kept_from zero (c ∷ s) = (if is_safe c then c else b'_') ∷ kept_from (rune_tail c s) s
kept_from (suc n) (c ∷ s) = kept_from n s

abbrev pub kept_name : Bytes → Bytes
kept_name = kept_from 0

-- imagePath
unfoldable pub image_path : FilePath → Bytes → FilePath
unfolding kept_from
image_path dir serial = dir ++ (kept_name serial ++ codes ".jpg") ∷ []

-- the first result with a cover
pub pick_cover : List FoundGame → Option FoundGame
pick_cover [] = none
pick_cover (g ∷ gs) = if g.cover_url == [] then pick_cover gs else some g

abbrev pub is_empty : List FoundGame → Bool
is_empty [] = true
is_empty (g ∷ gs) = false

-- `titles[serial]`; a later game of the list with the same serial wins, as in the Go map.
pub title_in : Bytes → Bytes → List Game → Bytes
title_in serial title [] = title
title_in serial title (g ∷ gs) = title_in serial (if g.serial == serial then g.title else title) gs

abbrev pub row_of : Bytes → FilePath → FoundGame → Cover
row_of serial dest g = record {
  serial = serial;
  provider = codes "igdb";
  provider_id = g.id;
  image_path = dest;
  fetched_at = 0;
}

-- `limit > 0 && done >= limit`
abbrev pub at_limit : ℕ → ℕ → Bool
at_limit limit done = ltb 0 limit && leb limit done

-- time.Sleep of 300 ms
abbrev pub pause : World → World
pause w = record w { now = w.now + 300000000 }

module _ (dir : FilePath) where
  -- Download and Upsert
  unfoldable pub keep_cover : Bytes → FoundGame → Action (Unit {0})
  unfolding Db.Covers.upsert
  keep_cover serial g = do
    fetch g.cover_url (image_path dir serial)
    Db.Covers.upsert (row_of serial (image_path dir serial) g)

  -- fetchOne
  unfoldable pub fetch_one : Bytes → Bytes → ℕ → Action (Unit {0})
  unfolding pick_cover
  fetch_one serial title platform = do
    results ← search_games (clean_title title) platform
    fail_if (is_empty results) no_match
    picked ← or_fail (pick_cover results) no_cover_art
    keep_cover serial picked

  -- The loop. `attempt` is the test of ctx.Err(), the end of the request.
  unfoldable pub fetch_all : ℕ → ℕ → List Game → List Bytes → ℕ → Action ℕ
  unfolding attempt fetch_one title_in
  fetch_all limit platform games [] done = pure done
  fetch_all limit platform games (serial ∷ serials) done =
      let stop = pure done in
      let go_on : Action ℕ = attempt >> (λ w.
        handle (fetch_one serial (title_in serial [] games) platform)
          (λ e. fetch_all limit platform games serials done)
          (λ u w'. fetch_all limit platform games serials (suc done) (pause w')) w) in
      if at_limit limit done then stop else go_on

  -- Backfill
  unfoldable pub backfill : External → Bytes → Bytes → ℕ → Action ℕ
  unfolding enabled
  backfill x client_id secret limit = do
    fail_if (not (enabled client_id secret)) covers_disabled
    games ← Db.Games.list x.sorted_titles
    missing ← Db.Covers.missing_serials (map (λ (g : Game). g.serial) games)
    platform ← platform_id (codes "PlayStation 2")
    fetch_all limit platform games missing 0

  -- POST /v1/admin/covers/backfill
  unfoldable pub admin_backfill_covers : External → Bytes → Bytes → Proc Response
  unfolding backfill
  admin_backfill_covers x client_id secret =
      handle (backfill x client_id secret 25) (λ e. internal_err) λ n. respond 200 (Body.fetched n)
