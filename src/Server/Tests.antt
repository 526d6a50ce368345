-- ===== src/Server/Tests.antt =====
-- An administrator on a server that serves the API and the pages.
use cache_22_server.Prelude.{Bytes, true, false, none, some, ◌≡◌, ◌≢◌, ◌∷◌, [], refl, codes}
use cache_22_server.Go.Text.{trim_space, to_lower}
use cache_22_server.Entity.{User}
use cache_22_server.World.{World, ok, empty_world, quiet}
use cache_22_server.Samples.{plain}
use cache_22_server.Guard.{token_from}
use cache_22_server.Auth
use cache_22_server.Auth.{authenticate}
use cache_22_server.Apart.{SameAccounts}
use cache_22_server.Accounts.{AccountRequest}
use cache_22_server.Accounts.Lockout.{HasAdmin}
use cache_22_server.Web
use cache_22_server.Web.Routes.{PageRequest, serve_page}
use cache_22_server.Server.{Settings, ApiRequest, serve_api, Reach, calls, visits, start, next}
use cache_22_server.Server.Guarded.{serve_api-Apart}
use cache_22_server.Config
use cache_22_server.Server.Closed.{NoUsers, reach-NoUsers}
use cache_22_server.Server.Admins.{reach-HasAdmin}
use cache_22_server.Server.Logins.{reach-login}

abbrev settings : Settings
settings = record {
  library_path = codes "lib" ∷ [];
  saves_dir = codes "saves" ∷ [];
  cover_dir = codes "covers" ∷ [];
  admin_token = codes "t";
  igdb_client = [];
  igdb_secret = [];
}

abbrev ann : User
ann = record {
  id = 1;
  username = codes "ann";
  password_hash = codes "h";
  is_admin = true;
  created_at = 0;
}

abbrev known : World
known = record empty_world {
  users = ann ∷ [];
  sessions = record { token_hash = codes "tok"; user_id = 1; expires_at = 9 } ∷ [];
}

serve_api-Apart_example :
    SameAccounts known (serve_api plain settings (codes "tok") ApiRequest.rescan known).1
serve_api-Apart_example =
    serve_api-Apart plain settings (codes "tok") ApiRequest.rescan (λ r e. cc) known

-- Ann tries to demote herself by the API, and then to delete herself by the page.
abbrev demoted : World
demoted =
    (serve_api plain settings (token_from (codes "Bearer tok") none)
      (ApiRequest.account (AccountRequest.set_admin (codes "1") (some false))) known).1

abbrev deleted : World
deleted =
    (serve_page plain (codes "t") (codes "lib" ∷ []) (some (codes "tok"))
      (PageRequest.delete_user (codes "1")) demoted).1

both_tried : Reach plain settings known deleted
both_tried =
    next known demoted deleted
      (next known known demoted (start known) (
        calls (codes "Bearer tok") none
          (ApiRequest.account (AccountRequest.set_admin (codes "1") (some false))) known))
      (visits (some (codes "tok")) (PageRequest.delete_user (codes "1")) demoted)

reach-HasAdmin_example : HasAdmin deleted
reach-HasAdmin_example =
    reach-HasAdmin plain settings known deleted both_tried (1, (ann, refl, refl))

abbrev blank : World
blank = record empty_world { randoms = codes "salt" ∷ codes "cap" ∷ codes "new" ∷ [] }

abbrev opened : World
opened =
    (serve_page plain (codes "t") (codes "lib" ∷ []) none
      (PageRequest.login (
        some (record {
          setup_token = codes "t";
          username = codes "Bob";
          password = codes "password";
        })))
      blank).1

set_up : Reach plain settings blank opened
set_up = next blank blank opened (start blank) (
    visits none
      (PageRequest.login (
        some (record {
          setup_token = codes "t";
          username = codes "Bob";
          password = codes "password";
        })))
      blank)

abbrev bob : User
bob = record { id = 1; username = codes "bob"; password_hash = []; is_admin = true; created_at = 0 }

bob_logs_in : (Auth.login plain (codes "bob") (codes "password") opened).0 ≡ ok (codes "new", bob)
unfolding serve_page Web.login Web.sign_in_or_set_up Web.sign_in Auth.needs_setup
    Auth.setup_first_admin Auth.login Auth.create_user trim_space to_lower
bob_logs_in = refl

new_not_empty : codes "new" ≢ []
new_not_empty e = cc

reach-login_example :
    (authenticate plain
      (codes "new")
      (quiet (Auth.login plain (codes "bob") (codes "password") opened).1)).0
    ≡ ok (some bob)
reach-login_example =
    reach-login plain settings blank opened (codes "bob") (codes "password") (codes "new") bob refl
      set_up new_not_empty bob_logs_in

-- The same form on a server whose environment has no setup token.
abbrev no_environment : Bytes → Bytes
no_environment key = []

abbrev without_token : Settings
without_token = record settings { admin_token = [] }

abbrev setup_form : PageRequest
setup_form =
    PageRequest.login
      (some (record { setup_token = []; username = codes "Bob"; password = codes "password" }))

abbrev refused : World
refused = (serve_page plain [] (codes "lib" ∷ []) none setup_form blank).1

tried_to_set_up : Reach plain without_token blank refused
tried_to_set_up = next blank blank refused (start blank) (visits none setup_form blank)

token_is_empty : without_token.admin_token ≡ (Config.new no_environment).admin_token
unfolding Config.new Config.env_or
token_is_empty = refl

reach-NoUsers_example : NoUsers refused
reach-NoUsers_example =
    reach-NoUsers plain without_token no_environment blank refused token_is_empty refl refl
      tried_to_set_up
