-- ===== src/Auth.antt =====
-- internal/app/usecase/auth/auth.go: accounts and sessions.
pub mod Setup
pub mod Sessions
pub mod Tables
pub mod Race
mod Tests
use cache_22_server.Prelude.{
  ℕ, ◌*◌, Bool, true, false, not, ◌&&◌, ◌||◌, Option, none, some, List, [], ◌∷◌, map, Bytes, length,
  ltb, leb, nat_beq, ◌==◌, nat_eq, list_eq, if◌then◌else◌,
}
use cache_22_server.Go.Text.{trim_space}
use cache_22_server.Entity.{User}
use cache_22_server.World.{
  World, Action, Result, ok, err, Error, setup_done, bad_setup_token, bad_credentials,
  weak_password, bad_username, password_too_long, pure, fail, or_fail, fail_if, handle, read_random,
  ◌>>=◌, ◌>>◌,
}
use cache_22_server.External.{External}
use cache_22_server.Db

-- 30 days in nanoseconds
abbrev pub session_ttl : ℕ
session_ttl = 2592000000000000

abbrev pub min_pass_len : ℕ
min_pass_len = 8

pub valid_username : Bytes → Bool
unfolding trim_space
valid_username name = leb 1 (length (trim_space name)) && leb (length (trim_space name)) 64

-- `u.PasswordHash = ""`
abbrev pub without_hash : User → User
without_hash u = record u { password_hash = [] }

-- newToken
abbrev pub new_token : Action Bytes
new_token = read_random

unfoldable pub needs_setup : Action Bool
unfolding Db.Users.count
needs_setup = do n ← Db.Users.count; pure (nat_beq n 0)

unfoldable pub list_users : Action (List User)
unfolding Db.Users.list
list_users = do users ← Db.Users.list; pure (map without_hash users)

unfoldable pub delete_user : ℕ → Action (Unit {0})
unfolding Db.Sessions.revoke_user Db.Users.delete
delete_user id = Db.Sessions.revoke_user id >> Db.Users.delete id

unfoldable pub set_admin : ℕ → Bool → Action (Unit {0})
unfolding Db.Users.set_admin
set_admin id admin = Db.Users.set_admin id admin

-- `return a.users.SetPassword(ctx, id, hash)`, the last call of ResetPassword
unfoldable pub finish_reset : ℕ → Bytes → Action (Unit {0})
unfolding Db.Users.set_password
finish_reset id hash = Db.Users.set_password id hash

module _ (x : External) where
  -- hashPassword: bcrypt draws a salt
  unfoldable pub hash_password : Bytes → Action Bytes
  unfolding read_random
  hash_password password = do
    salt ← read_random
    or_fail (x.hash_password password salt) password_too_long

  -- createUser, and CreateUser, which is the same
  unfoldable pub create_user : Bytes → Bytes → Bool → Action User
  unfolding valid_username hash_password Db.Users.create
  create_user username password admin = do
    fail_if (not (valid_username username)) bad_username
    fail_if (ltb (length password) min_pass_len) weak_password
    hash ← hash_password password
    Db.Users.create username hash admin

  -- SetupFirstAdmin; `expected` is the server's setup token.
  unfoldable pub setup_first_admin : Bytes → Bytes → Bytes → Bytes → Action User
  unfolding needs_setup
  setup_first_admin expected setup_token username password = do
    needs ← needs_setup
    fail_if (not needs) setup_done
    fail_if (expected == [] || not (setup_token == expected)) bad_setup_token
    create_user username password true

  unfoldable pub login : Bytes → Bytes → Action (Bytes × User)
  unfolding Db.Users.get_by_username read_random Db.Sessions.create
  login username password =
      handle (Db.Users.get_by_username username) (λ e. fail bad_credentials)
        λ u. do
          fail_if (not (x.compare_password u.password_hash password)) bad_credentials
          token ← new_token
          Db.Sessions.create x.sha256 token u.id session_ttl
          pure (token, without_hash u)

  unfoldable pub logout : Bytes → Action (Unit {0})
  unfolding Db.Sessions.revoke
  logout token = Db.Sessions.revoke x.sha256 token

  owner_of : Option ℕ → Action (Option User)
  unfolding Db.Users.get_by_id
  owner_of none = pure none
  owner_of (some id) = do u ← Db.Users.get_by_id id; pure (some (without_hash u))

  -- The user of a live session; `none` where there is no such session.
  unfoldable pub authenticate : Bytes → Action (Option User)
  unfolding Db.Sessions.user_id owner_of
  authenticate token =
      if token == []
      then pure none
      else do owner ← Db.Sessions.user_id x.sha256 token; owner_of owner

  -- ResetPassword up to its last call, SetPassword; the answer is the hash that this one stores
  unfoldable pub begin_reset : ℕ → Bytes → Action Bytes
  unfolding hash_password Db.Sessions.revoke_user
  begin_reset id password = do
    fail_if (ltb (length password) min_pass_len) weak_password
    hash ← hash_password password
    Db.Sessions.revoke_user id
    pure hash

  unfoldable pub reset_password : ℕ → Bytes → Action (Unit {0})
  unfolding begin_reset finish_reset
  reset_password id password = do hash ← begin_reset id password; finish_reset id hash
