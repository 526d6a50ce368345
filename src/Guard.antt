-- ===== src/Guard.antt =====
-- internal/handler/http/auth.go: who may call a handler. `authorization` is the header's value, and
-- `cookie` that of the cookie cache22_sess.
pub mod Access
mod Tests
use cache_22_server.Prelude.{
  ℕ, Bool, true, false, Option, none, some, List, [], ◌∷◌, Bytes, codes, ◌==◌, nat_eq, list_eq,
  if◌then◌else◌,
}
use cache_22_server.Go.Text.{trim_prefix}
use cache_22_server.Entity.{User}
use cache_22_server.World.{World, Proc, Result, handle}
use cache_22_server.External.{External}
use cache_22_server.Http.{Response, Body, problem_response, refuse, raise_with}
use cache_22_server.Auth.{authenticate}

abbrev pub cookie_value : Option Bytes → Bytes
cookie_value none = []
cookie_value (some v) = v

-- tokenFrom
unfoldable pub token_from : Bytes → Option Bytes → Bytes
unfolding trim_prefix
token_from authorization cookie =
    if trim_prefix authorization (codes "Bearer ") == []
    then cookie_value cookie
    else trim_prefix authorization (codes "Bearer ")

pub run_as : (User → Proc Response) → Option User → Proc Response
run_as next none = refuse 401 "login required"
run_as next (some u) = next u

-- requireAuth
unfoldable pub require_auth : External → (User → Proc Response) → Bytes → Proc Response
unfolding run_as
require_auth x next token = handle (authenticate x token) (raise_with 500) (run_as next)

abbrev pub admin_only : (User → Proc Response) → User → Proc Response
admin_only next u = if u.is_admin then next u else refuse 403 "admin required"

-- requireAdmin
unfoldable pub require_admin : External → (User → Proc Response) → Bytes → Proc Response
unfolding require_auth
require_admin x next = require_auth x (admin_only next)
