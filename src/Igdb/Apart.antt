-- ===== src/Igdb/Apart.antt =====
-- The client leaves the accounts alone.
use cache_22_server.Prelude.{Bytes, codes, ◌++◌, arith, ℕ, inl, inr}
use cache_22_server.Go.FilePath.{FilePath}
use cache_22_server.Go.Text.{without_byte}
use cache_22_server.Go.Number.{sprint}
use cache_22_server.Remote.{Reply, Outgoing, download}
use cache_22_server.World.{attempt, Result-cases}
use cache_22_server.Apart.{Apart, attempt-Apart}
use cache_22_server.Disk.Apart.{write_file-Apart}
use cache_22_server.Igdb.{
  send, token_locked, run_query, platform_id, search_games, limited, write_limited, fetch, body_of,
  received, as_platforms, as_matches,
}

received-Apart : (reply : Reply) → Apart (received reply)
received-Apart reply w = ground arith

as_platforms-Apart : (reply : Reply) → Apart (as_platforms reply)
as_platforms-Apart reply w = ground arith

as_matches-Apart : (reply : Reply) → Apart (as_matches reply)
as_matches-Apart reply w = ground arith

send-Apart : (out : Outgoing) → Apart (send out)
unfolding send
send-Apart out w = ground arith

token_locked-Apart : Apart token_locked
unfolding token_locked send
token_locked-Apart w = ground arith

run_query-Apart : (path body : Bytes) → Apart (run_query path body)
unfolding run_query send
run_query-Apart path body w = ground (arith, token_locked-Apart w)

pub platform_id-Apart : (name : Bytes) → Apart (platform_id name)
unfolding platform_id
platform_id-Apart name w =
    let text = codes "search \"" ++ (name ++ codes "\"; fields id,name,abbreviation; limit 10;") in
    let asked = run_query (codes "/platforms") text w in
    elim (Result-cases asked.0) [
      | inl (e, h) ↦ ground (arith, run_query-Apart (codes "/platforms") text w)
      | inr (reply, h) ↦
          ground
            (arith, run_query-Apart (codes "/platforms") text w, as_platforms-Apart reply asked.1)
    ]

pub search_games-Apart : (title : Bytes) (platform : ℕ) → Apart (search_games title platform)
unfolding search_games
search_games-Apart title platform w =
    let text =
      codes "search \""
      ++ (without_byte b'"' title
          ++ (codes "\"; fields name,cover.url; where platforms = ("
              ++ (sprint platform ++ codes "); limit 5;"))) in
    let asked = run_query (codes "/games") text w in
    elim (Result-cases asked.0) [
      | inl (e, h) ↦ ground (arith, run_query-Apart (codes "/games") text w)
      | inr (reply, h) ↦
          ground (arith, run_query-Apart (codes "/games") text w, as_matches-Apart reply asked.1)
    ]

write_limited-Apart : (raw : Bytes) (dest : FilePath) → Apart (write_limited raw dest)
unfolding write_limited
write_limited-Apart raw dest w =
    let w1 = (attempt w).1 in
    let w2 = (attempt w1).1 in
    ground (arith, attempt-Apart w, attempt-Apart w1, write_file-Apart dest (limited raw) w2)

pub fetch-Apart : (url : Bytes) (dest : FilePath) → Apart (fetch url dest)
unfolding fetch
fetch-Apart url dest w = elim (Result-cases (send (download url) w).0) [
  | inl (e, h) ↦ ground (arith, send-Apart (download url) w)
  | inr (reply, h) ↦ ground (
    arith,
    send-Apart (download url) w,
    write_limited-Apart (body_of reply) dest (send (download url) w).1,
  )
]
