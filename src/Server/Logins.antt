-- ===== src/Server/Logins.antt =====
-- Logins on a server to which anything has happened.
use cache_22_server.Prelude.{◌≡◌, ◌≢◌, sym, subst, some, [], Bytes, arith}
use cache_22_server.Entity.{User}
use cache_22_server.World.{World, ok, quiet}
use cache_22_server.External.{External}
use cache_22_server.Auth
use cache_22_server.Auth.{authenticate}
use cache_22_server.Auth.Tables.{Ordered}
use cache_22_server.Auth.Sessions.{login_authenticates}
use cache_22_server.Accounts.Order.{InOrder}
use cache_22_server.Accounts.Logins.{serve_account-InOrder, setup_first-InOrder}
use cache_22_server.Server.{Settings, Reach}
use cache_22_server.Server.Kept.{SameUsers, reach_keeps}

InOrder-same : (w v : World) → SameUsers w v → InOrder w → InOrder v
InOrder-same w v (users, next_id) o =
    subst (λ n. Ordered 0 n v.users) (sym next_id) (subst (Ordered 0 w.next_id) (sym users) o)

-- The table of users is in order in every world that the server reaches from one where it is.
pub reach-InOrder :
    (x : External) (s : Settings) (w v : World) → Reach x s w v → InOrder w → InOrder v
reach-InOrder x s =
    reach_keeps x s InOrder InOrder-same (serve_account-InOrder x s.admin_token)
      (setup_first-InOrder x s.admin_token)

-- From a server without accounts, after any steps of the API, the pages and the surroundings: the
-- token of a login that succeeds, if it is not empty, authenticates as the user that the login
-- answered, where no call fails.
pub reach-login :
    (x : External) (s : Settings) (w v : World) (username password token : Bytes) (u : User)
    → w.users ≡ []
    → Reach x s w v
    → token ≢ []
    → (Auth.login x username password v).0 ≡ ok (token, u)
    → (authenticate x token (quiet (Auth.login x username password v).1)).0 ≡ ok (some u)
reach-login x s w v username password token u e reach t h =
    login_authenticates x username password token u v
      (reach-InOrder x s w v reach (subst (Ordered 0 w.next_id) (sym e) (omega arith))) t h
