-- ===== src/Cors.antt =====
-- withCORS of internal/xmodule/xmodule.go: which requests get CORS headers. `origin` is the header
-- Origin, empty where there is none.
mod Tests
use cache_22_server.Prelude.{
  Bool, true, false, Option, none, some, List, [], ◌∷◌, ◌≡◌, ◌⊎◌, inl, inr, refl, Bytes, codes,
  exists_if, ◌==◌, nat_eq, list_eq, list_beq_iff, if◌then◌else◌, arith, beq_refl,
}
use cache_22_server.Go.Text.{trim_space}
use cache_22_server.World.{World, Proc}
use cache_22_server.Config.{Config, csv_or}
use cache_22_server.Config.Origins.{csv_or_closed}
use cache_22_server.Config

-- The answer to a preflight is 204 with no body; any other request is passed on.
pub data Served (A : Type 0) : Type 0 where
  preflight : Served A
  passed_on : A → Served A

-- `origins[o]`, a map with the configured origins as its keys
abbrev pub is_allowed : Bytes → Config → Bool
is_allowed origin cfg = exists_if (λ o. o == origin) cfg.cors_origins

-- withCORS; the option is the value of Access-Control-Allow-Origin.
unfoldable pub with_cors :
    {A : Type 0} → Config → Bytes → Bytes → Proc A → Proc (Option Bytes × Served A)
with_cors cfg method origin next w =
    let (a, w') = next w in
    if is_allowed origin cfg
    then if method == codes "OPTIONS"
      then ((some origin, preflight), w)
      else ((some origin, passed_on a), w')
    else ((none, passed_on a), w')

-- With the settings read from the environment: where CORS_ORIGINS is not set, or the request has no
-- header Origin, it is passed on, whatever its method, and no CORS header is sent.
pub with_cors_closed :
    {A : Type 0} (getenv : Bytes → Bytes) (method origin : Bytes) (next : Proc A) (w : World)
    → (getenv (codes "CORS_ORIGINS") ≡ []) ⊎ (origin ≡ [])
    → with_cors (Config.new getenv) method origin next w
      ≡ ((none, passed_on (next w).0), (next w).1)
unfolding with_cors Config.new
with_cors_closed getenv method origin next w h =
    ground (arith, csv_or_closed getenv (codes "CORS_ORIGINS") origin h)
