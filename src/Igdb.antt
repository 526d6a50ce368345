-- ===== src/Igdb.antt =====
-- internal/infra/igdb/igdb.go: the client of the service that has the covers. Its token and the
-- time until which it is valid stand in the world, and so do the answers of the service.
pub mod Apart
pub mod Titles
pub mod Tokens
mod Tests
use cache_22_server.Prelude.{
  ℕ, zero, suc, ◌+◌, ◌*◌, Bool, true, false, not, ◌&&◌, ◌||◌, Option, none, some, List, [], ◌∷◌,
  ◌++◌, map, Bytes, codes, length, take, ltb, nat_beq, ◌==◌, nat_eq, list_eq, if◌then◌else◌,
}
use cache_22_server.Go.Text.{
  trim_space, has_prefix, has_suffix, last_index, replace_first, without_byte, equal_fold,
}
use cache_22_server.Go.Number.{sprint}
use cache_22_server.Go.FilePath.{FilePath}
use cache_22_server.Remote.{
  Platform, Match, Reply, unreachable, status, undecodable, granted, platforms, matches, image,
  Outgoing, ask_token, query, download,
}
use cache_22_server.World.{
  World, Action, ok, err, Error, fault, bad_status, bad_json, no_platform, empty_cover, attempt,
  pure, fail, fail_if, modify, ◌>>=◌, ◌>>◌,
}
use cache_22_server.Disk.{write_file}

-- Client.Enabled; the client of the server is never nil.
unfoldable pub enabled : Bytes → Bytes → Bool
enabled client_id secret = not (client_id == []) && not (secret == [])

abbrev pub next_reply : List Reply → Reply
next_reply [] = unreachable
next_reply (r ∷ rs) = r

abbrev pub later_replies : List Reply → List Reply
later_replies [] = []
later_replies (r ∷ rs) = rs

-- c.http.Do and the test of the status; past its last answer the service cannot be reached.
abbrev pub received : Reply → Action Reply
received unreachable w = (err fault, w)
received (status code) w = (err bad_status, w)
received undecodable w = (ok undecodable, w)
received (granted token seconds) w = (ok (granted token seconds), w)
received (platforms ps) w = (ok (platforms ps), w)
received (matches ms) w = (ok (matches ms), w)
received (image raw) w = (ok (image raw), w)

unfoldable pub send : Outgoing → Action Reply
send out w =
    received (next_reply w.replies)
      (record w { replies = later_replies w.replies; requests = out ∷ w.requests })

-- The expiry of a token that is granted now; the service counts in seconds.
abbrev pub keep_token : Reply → Action Bytes
keep_token (granted token seconds) w =
    (ok token, record w { token = token; expiry = w.now + seconds * 1000000000 })
keep_token unreachable w = (err bad_json, w)
keep_token (status code) w = (err bad_json, w)
keep_token undecodable w = (err bad_json, w)
keep_token (platforms ps) w = (err bad_json, w)
keep_token (matches ms) w = (err bad_json, w)
keep_token (image raw) w = (err bad_json, w)

-- A token is there, and is valid for more than a minute.
abbrev pub has_token : World → Bool
has_token w = not (w.token == []) && ltb (w.now + 60000000000) w.expiry

-- tokenLocked
unfoldable pub token_locked : Action Bytes
unfolding send
token_locked w = if has_token w then (ok w.token, w) else (send ask_token >>= keep_token) w

-- Client.query, up to the decoding of the body
unfoldable pub run_query : Bytes → Bytes → Action Reply
unfolding send
run_query path body = do token ← token_locked; send (query token path body)

abbrev pub as_platforms : Reply → Action (List Platform)
as_platforms (platforms ps) w = (ok ps, w)
as_platforms unreachable w = (err bad_json, w)
as_platforms (status code) w = (err bad_json, w)
as_platforms undecodable w = (err bad_json, w)
as_platforms (granted token seconds) w = (err bad_json, w)
as_platforms (matches ms) w = (err bad_json, w)
as_platforms (image raw) w = (err bad_json, w)

abbrev pub as_matches : Reply → Action (List Match)
as_matches (matches ms) w = (ok ms, w)
as_matches unreachable w = (err bad_json, w)
as_matches (status code) w = (err bad_json, w)
as_matches undecodable w = (err bad_json, w)
as_matches (granted token seconds) w = (err bad_json, w)
as_matches (platforms ps) w = (err bad_json, w)
as_matches (image raw) w = (err bad_json, w)

-- the platform of that name or abbreviation
pub named_platform : Bytes → List Platform → Option ℕ
unfolding equal_fold
named_platform name [] = none
named_platform name (p ∷ ps) =
    if equal_fold p.name name || equal_fold p.abbreviation name
    then some p.id
    else named_platform name ps

-- and the first one where there is none
pub pick_platform : Bytes → List Platform → Option ℕ
unfolding named_platform
pick_platform name [] = none
pick_platform name (p ∷ ps) = elim (named_platform name (p ∷ ps)) [
  | some id ↦ some id
  | none ↦ some p.id
]

abbrev pub platform_found : Option ℕ → Action ℕ
platform_found none = fail no_platform
platform_found (some id) = pure id

-- PlatformID
unfoldable pub platform_id : Bytes → Action ℕ
unfolding pick_platform
platform_id name = do
  reply ←
      run_query (codes "/platforms")
        (codes "search \"" ++ (name ++ codes "\"; fields id,name,abbreviation; limit 10;"))
  ps ← as_platforms reply
  platform_found (pick_platform name ps)

-- CoverBig
unfoldable pub cover_big : Bytes → Bytes
unfolding replace_first has_prefix
cover_big url =
    let u = replace_first url (codes "/t_thumb/") (codes "/t_cover_big/") in
    if has_prefix u (codes "//") then codes "https:" ++ u else u

-- igdb.Game, which has the empty url where there is no cover
pub record FoundGame : Type 0 where
  pub id : ℕ
  pub name : Bytes
  pub cover_url : Bytes

pub found_game : Match → FoundGame
unfolding cover_big
found_game m = record {
  id = m.id;
  name = m.name;
  cover_url = elim m.cover [ none ↦ [] | some url ↦ cover_big url ];
}

-- Search; escapeQuery drops the quotes.
unfoldable pub search_games : Bytes → ℕ → Action (List FoundGame)
unfolding found_game without_byte sprint
search_games title platform = do
  reply ← run_query (codes "/games") (
      codes "search \""
      ++ (without_byte b'"' title
          ++ (codes "\"; fields name,cover.url; where platforms = ("
              ++ (sprint platform ++ codes "); limit 5;"))))
  ms ← as_matches reply
  pure (map found_game ms)

abbrev pub open_paren : ℕ
open_paren = b'('

-- What one round of the loop of CleanTitle does: go on with a shorter text, or stop.
pub cut_title : Bytes → Option Bytes
unfolding has_suffix last_index trim_space
cut_title s =
    if has_suffix s (codes ")")
    then elim (last_index s open_paren) [
      | none ↦ none
      | some i ↦ if nat_beq i 0 then none else some (trim_space (take i s))
    ]
    else none

pub clean_from : ℕ → Bytes → Bytes
clean_from zero s = s
clean_from (suc fuel) s = elim (cut_title s) [ none ↦ s | some t ↦ clean_from fuel t ]

-- CleanTitle: each round cuts a byte off at least, so one round for each byte is enough.
unfoldable pub clean_title : Bytes → Bytes
unfolding clean_from cut_title trim_space
clean_title serial = clean_from (length (trim_space serial)) (trim_space serial)

abbrev pub max_cover_bytes : ℕ
max_cover_bytes = 8388608

-- io.LimitReader
unfoldable pub limited : Bytes → Bytes
limited raw = take max_cover_bytes raw

-- writeLimited of a body that arrives in whole or breaks off
unfoldable pub write_limited : Bytes → FilePath → Action (Unit {0})
unfolding attempt
write_limited raw dest = do
  attempt
  attempt
  fail_if (nat_beq (length (limited raw)) 0) empty_cover
  write_file dest (limited raw)

abbrev pub body_of : Reply → Bytes
body_of (image raw) = raw
body_of unreachable = []
body_of (status code) = []
body_of undecodable = []
body_of (granted token seconds) = []
body_of (platforms ps) = []
body_of (matches ms) = []

-- Download. The answer to a download is an `image`, whatever its bytes are.
unfoldable pub fetch : Bytes → FilePath → Action (Unit {0})
unfolding send
fetch url dest = do reply ← send (download url); write_limited (body_of reply) dest
