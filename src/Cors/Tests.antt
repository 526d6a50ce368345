-- ===== src/Cors/Tests.antt =====
-- A server with one configured origin.
use cache_22_server.Prelude.{
  none, some, [], ◌≡◌, inr, refl, Bytes, codes, ◌==◌, nat_eq, list_eq, if◌then◌else◌,
}
use cache_22_server.World.{Proc, empty_world}
use cache_22_server.Http.{Response, Body, respond}
use cache_22_server.Go.Text.{trim_space}
use cache_22_server.Config
use cache_22_server.Config.{csv_or, keep_parts, split_at}
use cache_22_server.Cors.{preflight, passed_on, with_cors, with_cors_closed}

abbrev one_origin : Bytes → Bytes
one_origin key = if key == codes "CORS_ORIGINS" then codes "http://a, ,http://b" else []

abbrev hello : Proc Response
hello = respond 200 Body.status_ok

with_cors_closed_example :
    with_cors (Config.new one_origin) (codes "OPTIONS") [] hello empty_world
    ≡ ((none, passed_on (hello empty_world).0), empty_world)
with_cors_closed_example =
    with_cors_closed one_origin (codes "OPTIONS") [] hello empty_world (inr refl)

preflight_answered :
    with_cors (Config.new one_origin) (codes "OPTIONS") (codes "http://b") hello empty_world
    ≡ ((some (codes "http://b"), preflight), empty_world)
unfolding with_cors Config.new csv_or keep_parts split_at trim_space
preflight_answered = refl
