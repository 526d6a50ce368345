-- ===== src/Web/Tests.antt =====
-- An administrator deletes an account by its page, and the first administrator signs in.
use cache_22_server.Prelude.{
  some, ◌≡◌, ◌≢◌, ◌∷◌, [], Bytes, refl, codes, arith, ℕ, Bool, true, false,
}
use cache_22_server.Go.FilePath.{FilePath}
use cache_22_server.Go.Text.{trim_space, to_lower}
use cache_22_server.Go.Number.{parse_int}
use cache_22_server.Entity.{User}
use cache_22_server.World.{World, empty_world}
use cache_22_server.Samples.{plain}
use cache_22_server.Db.Users.{normal_name}
use cache_22_server.Auth
use cache_22_server.Accounts.{AccountRequest, serve_account}
use cache_22_server.Web.{Answer, SignIn, CookieChange, set_cookie, current_user}
use cache_22_server.Web.Routes.{PageRequest, serve_page}
use cache_22_server.Web.Agreement.{Agrees, deletes, serve_page-Agrees}
use cache_22_server.Web.Login.{SignsIn, login-SignsIn}
use cache_22_server.Web

abbrev account : Bytes → Bool → ℕ → User
account name admin id = record {
  id = id;
  username = name;
  password_hash = codes "h";
  is_admin = admin;
  created_at = 0;
}

abbrev two_users : World
two_users = record empty_world {
  users = account (codes "ann") true 1 ∷ account (codes "bob") false 2 ∷ [];
  sessions = record { token_hash = codes "tok"; user_id = 1; expires_at = 9 } ∷ [];
}

abbrev shelf : FilePath
shelf = codes "lib" ∷ []

serve_page-Agrees_example :
    Agrees 200
      (serve_page plain
        (codes "t")
        shelf
        (some (codes "tok"))
        (PageRequest.delete_user (codes "2"))
        two_users)
      (serve_account plain
        (codes "t")
        (codes "tok")
        (AccountRequest.delete_user (codes "2"))
        two_users)
serve_page-Agrees_example =
    serve_page-Agrees plain (codes "t") (codes "tok") shelf (PageRequest.delete_user (codes "2"))
      200 (AccountRequest.delete_user (codes "2")) two_users (deletes (codes "2"))

bob_is_gone :
    (serve_page plain
      (codes "t")
      shelf
      (some (codes "tok"))
      (PageRequest.delete_user (codes "2"))
      two_users).1.users
    ≡ account (codes "ann") true 1 ∷ []
unfolding serve_page Web.require_admin_page Auth.authenticate Auth.delete_user parse_int
bob_is_gone = refl

abbrev blank : World
blank = record empty_world { randoms = codes "salt" ∷ codes "cap" ∷ [] }

abbrev first : SignIn
first = record { setup_token = codes "t"; username = codes " Bob"; password = codes "password" }

cookie_is_set : (Web.login plain (codes "t") (some first) blank).0.cookie ≡ set_cookie (codes "cap")
unfolding Web.login Auth.needs_setup Auth.setup_first_admin Auth.login Auth.create_user trim_space
    to_lower
cookie_is_set = refl

cap_not_empty : codes "cap" ≢ []
cap_not_empty e = cc

login-SignsIn_example :
    (f : SignIn) × (some first ≡ some f)
    × SignsIn plain
        (codes "cap")
        (normal_name f.username)
        (Web.login plain (codes "t") (some first) blank).1
login-SignsIn_example =
    login-SignsIn plain (codes "t") (some first) (codes "cap") blank (omega arith) cap_not_empty
      cookie_is_set
