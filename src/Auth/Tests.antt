-- ===== src/Auth/Tests.antt =====
-- The first account, its login and what ends its session.
use cache_22_server.Prelude.{
  ℕ, ◌≢◌, ◌≤◌, true, false, some, none, List, [], ◌∷◌, ◌≡◌, refl, arith, Bytes, codes, ◌==◌, nat_eq,
  list_eq,
}
use cache_22_server.Entity.{User}
use cache_22_server.World.{World, SessionRow, ok, err, setup_done, empty_world, quiet}
use cache_22_server.External.{External}
use cache_22_server.Auth.{
  without_hash, setup_first_admin, create_user, login, logout, authenticate, delete_user,
  reset_password, begin_reset, finish_reset, valid_username, min_pass_len,
}
use cache_22_server.Auth.Race.{login_outlives_reset}
use cache_22_server.Auth.Setup.{setup_guarded, setup_once}
use cache_22_server.Auth.Sessions.{
  authenticate_sound, logout_ends, reset_password_ends, delete_user_ends, login_authenticates,
}
use cache_22_server.Db.Sessions.{is_live}
use cache_22_server.Prelude.{find_if, length}
use cache_22_server.Go.Text.{trim_space, to_lower}

abbrev open_book : External
open_book = record {
  sha1 = λ s. s;
  sha256 = λ s. s;
  hash_password = λ p s. some p;
  compare_password = λ h p. h == p;
  sorted_titles = λ l. l;
}

abbrev start : World
start = record empty_world { randoms = codes "salt" ∷ codes "tok" ∷ []; next_id = 1 }

abbrev secret : Bytes
secret = codes "password"

abbrev ann : User
ann = record {
  id = 1;
  username = codes "ann";
  password_hash = secret;
  is_admin = true;
  created_at = 0;
}

abbrev bob : User
bob = record {
  id = 2;
  username = codes "bob";
  password_hash = secret;
  is_admin = false;
  created_at = 0;
}

setup_makes_ann :
    (setup_first_admin open_book (codes "t") (codes "t") (codes " ann") secret start).0 ≡ ok ann
unfolding setup_first_admin trim_space to_lower create_user
setup_makes_ann = refl

setup_guarded_example :
    (length start.users ≡ 0)
    × (codes "t" ≢ [])
    × (codes "t" ≡ codes "t")
    × (ann.is_admin ≡ true)
    × (valid_username (codes " ann") ≡ true)
    × (min_pass_len ≤ length secret)
setup_guarded_example =
    setup_guarded open_book (codes "t") (codes "t") (codes " ann") secret ann start setup_makes_ann

setup_once_example :
    let w' = (setup_first_admin open_book (codes "t") (codes "t") (codes " ann") secret start).1 in
    (setup_first_admin open_book (codes "t") (codes "t") (codes "bob") secret (quiet w')).0
    ≡ err setup_done
setup_once_example =
    setup_once open_book (codes "t") (codes "t") (codes " ann") secret (codes "t") (codes "bob")
      secret ann start setup_makes_ann

-- Both accounts are there; `rows` are the sessions.
abbrev with_sessions : List SessionRow → World
with_sessions rows = record empty_world {
  randoms = codes "tok" ∷ [];
  next_id = 3;
  users = ann ∷ bob ∷ [];
  sessions = rows;
}

ann_logs_in :
    (login open_book (codes "Ann") secret (with_sessions [])).0 ≡ ok (codes "tok", without_hash ann)
unfolding login trim_space to_lower
ann_logs_in = refl

tok_not_empty : codes "tok" ≢ []
tok_not_empty e = cc

login_token_accepted :
    (authenticate open_book
      (codes "tok")
      (quiet (login open_book (codes "Ann") secret (with_sessions [])).1)).0
    ≡ ok (some (without_hash ann))
login_token_accepted =
    login_authenticates open_book (codes "Ann") secret (codes "tok") (without_hash ann)
      (with_sessions []) (omega arith, (omega arith, omega arith)) tok_not_empty ann_logs_in

abbrev tok_of : ℕ → SessionRow
tok_of id = record { token_hash = codes "tok"; user_id = id; expires_at = 9 }

abbrev cap_of : ℕ → SessionRow
cap_of id = record { token_hash = codes "cap"; user_id = id; expires_at = 9 }

token_gone :
    (authenticate open_book
      (codes "tok")
      (quiet (logout open_book (codes "tok") (quiet (with_sessions (tok_of 1 ∷ [])))).1)).0
    ≡ ok none
token_gone = logout_ends open_book (codes "tok") (with_sessions (tok_of 1 ∷ []))

abbrev signed_in : World
signed_in = with_sessions (tok_of 1 ∷ cap_of 2 ∷ [])

tok_is_ann : (authenticate open_book (codes "tok") signed_in).0 ≡ ok (some (without_hash ann))
unfolding authenticate
tok_is_ann = refl

authenticate_sound_example :
    (s : SessionRow) × (find_if
        (is_live open_book.sha256 (codes "tok") 0)
        (tok_of 1 ∷ cap_of 2 ∷ [])
      ≡ some s)
    × (s.user_id ≡ 1)
    × ((without_hash ann).password_hash ≡ [])
authenticate_sound_example =
    authenticate_sound open_book (codes "tok") (without_hash ann) signed_in tok_is_ann

reset_ok : (reset_password open_book 1 secret signed_in).0 ≡ ok tt
unfolding reset_password begin_reset finish_reset
reset_ok = refl

reset_leaves_bob :
    (authenticate open_book (codes "cap") (reset_password open_book 1 secret signed_in).1).0
    ≡ ok (some (without_hash bob))
unfolding reset_password begin_reset finish_reset authenticate
reset_leaves_bob = refl

reset_password_ends_example : bob.id ≢ ann.id
reset_password_ends_example =
    reset_password_ends open_book 1 secret (codes "cap") (without_hash bob) signed_in reset_ok
      reset_leaves_bob

delete_ok : (delete_user 1 signed_in).0 ≡ ok tt
unfolding delete_user
delete_ok = refl

delete_leaves_bob :
    (authenticate open_book (codes "cap") (delete_user 1 signed_in).1).0
    ≡ ok (some (without_hash bob))
unfolding delete_user authenticate
delete_leaves_bob = refl

delete_user_ends_example : bob.id ≢ ann.id
delete_user_ends_example =
    delete_user_ends open_book 1 (codes "cap") (without_hash bob) signed_in delete_ok
      delete_leaves_bob

-- The reset draws a salt before the login draws its token.
abbrev two_draws : World
two_draws = record (with_sessions (cap_of 2 ∷ [])) { randoms = codes "salt" ∷ codes "tok" ∷ [] }

abbrev begun : World
begun = (begin_reset open_book 2 (codes "new secret") two_draws).1

bob_comes_back : (login open_book (codes "bob") secret begun).0 ≡ ok (codes "tok", without_hash bob)
unfolding login trim_space to_lower begin_reset
bob_comes_back = refl

reset_begins : (begin_reset open_book 2 (codes "new secret") two_draws).0 ≡ ok (codes "new secret")
unfolding begin_reset
reset_begins = refl

reset_finishes :
    (finish_reset 2 (codes "new secret") (login open_book (codes "bob") secret begun).1).0 ≡ ok tt
unfolding login trim_space to_lower begin_reset finish_reset
reset_finishes = refl

login_outlives_reset_example :
    let w2 = (login open_book (codes "bob") secret begun).1 in
    (authenticate open_book (codes "tok") (quiet (finish_reset 2 (codes "new secret") w2).1)).0
    ≡ ok (some (without_hash bob))
login_outlives_reset_example =
    login_outlives_reset open_book 2 (codes "bob") secret (codes "new secret") (codes "new secret")
      (codes "tok") (without_hash bob) two_draws (omega arith) tok_not_empty reset_begins
      bob_comes_back refl reset_finishes
