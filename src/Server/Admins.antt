-- ===== src/Server/Admins.antt =====
-- The administrators of the server, whatever happens to it.
use cache_22_server.Prelude.{sym, ap, ◌∙◌, subst, find_if, Bytes}
use cache_22_server.World.{World}
use cache_22_server.External.{External}
use cache_22_server.Auth
use cache_22_server.Auth.Tables.{has_id}
use cache_22_server.Accounts.Flags.{IsAdminId}
use cache_22_server.Accounts.Lockout.{HasAdmin, serve_account_keeps_admin, setup_same, found_some}
use cache_22_server.Server.{Settings, Reach}
use cache_22_server.Server.Kept.{SameUsers, reach_keeps}

HasAdmin-same : (w v : World) → SameUsers w v → HasAdmin w → HasAdmin v
HasAdmin-same w v (users, next_id) (id, a) = (id, subst (IsAdminId id) (sym users) a)

HasAdmin-set_up :
    (x : External) (expected token username password : Bytes) (w : World)
    → HasAdmin w
    → HasAdmin (Auth.setup_first_admin x expected token username password w).1
HasAdmin-set_up x expected token username password w (id, (v, e, t)) = (
  id,
  (
    v,
    ap (find_if (has_id id))
          (setup_same x expected token username password w (found_some (has_id id) v w.users e))
        ∙ e,
    t,
  ),
)

-- Whatever requests of the API and of the pages arrive, in any order, by anyone, whatever calls fail,
-- and whatever happens to the files, the clock and the remote service meanwhile: where there was an
-- administrator, there is one.
pub reach-HasAdmin :
    (x : External) (s : Settings) (w v : World) → Reach x s w v → HasAdmin w → HasAdmin v
reach-HasAdmin x s =
    reach_keeps x s HasAdmin HasAdmin-same (serve_account_keeps_admin x s.admin_token)
      (HasAdmin-set_up x s.admin_token)
