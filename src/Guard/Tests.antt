-- ===== src/Guard/Tests.antt =====
-- A user without the flag, at a handler for administrators.
use cache_22_server.Prelude.{true, false, some, ◌⊎◌, ◌≡◌, ◌∷◌, [], refl, codes}
use cache_22_server.Entity.{User}
use cache_22_server.World.{ok, World, Proc, empty_world}
use cache_22_server.Samples.{plain}
use cache_22_server.Http.{Response, Body, respond}
use cache_22_server.Auth.{authenticate}
use cache_22_server.Guard.{require_admin}
use cache_22_server.Guard.Access.{Refused, Owns, require_admin_guards}

abbrev bob : User
bob = record {
  id = 2;
  username = codes "bob";
  password_hash = codes "h";
  is_admin = false;
  created_at = 0;
}

abbrev signed_in : World
signed_in = record empty_world {
  users = bob ∷ [];
  sessions = record { token_hash = codes "cap"; user_id = 2; expires_at = 9 } ∷ [];
}

abbrev greet : User → Proc Response
greet u = respond 200 Body.status_ok

require_admin_guards_example :
    Refused signed_in (require_admin plain greet (codes "cap") signed_in)
    ⊎ ((u : User) × (u.is_admin ≡ true)
        × ((authenticate plain (codes "cap") signed_in).0 ≡ ok (some u))
        × Owns plain signed_in (codes "cap") u
        × (require_admin plain greet (codes "cap") signed_in
            ≡ greet u (authenticate plain (codes "cap") signed_in).1))
require_admin_guards_example = require_admin_guards plain greet (codes "cap") signed_in

bob_is_refused : (require_admin plain greet (codes "cap") signed_in).0.code ≡ 403
unfolding require_admin authenticate
bob_is_refused = refl
