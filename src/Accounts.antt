-- ===== src/Accounts.antt =====
-- internal/handler/http/admin.go: the handlers of accounts, and the part of Routes in handler.go
-- that sends requests to them. A body that does not decode is `none`. A negative id names no row:
-- the statements run and change nothing.
pub mod Flags
pub mod Lockout
pub mod Order
pub mod Logins
pub mod Race
mod Tests
use Prim.Native.String.{String}
use cache_22_server.Prelude.{
  ℕ, Bool, true, false, not, ◌&&◌, Option, none, some, Bytes, length, ltb, nat_beq, if◌then◌else◌,
}
use cache_22_server.Go.Number.{Parsed, value, negative, syntax_error, range_error, parse_int}
use cache_22_server.Entity.{User}
use cache_22_server.World.{
  World, Proc, Action, Error, setup_done, bad_setup_token, bad_credentials, weak_password,
  bad_username, attempt, fail_if, handle, ◌>>=◌, ◌>>◌,
}
use cache_22_server.External.{External}
use cache_22_server.Http.{Response, Body, respond, refuse, problem_response, internal_err}
use cache_22_server.Auth
use cache_22_server.Guard.{require_admin, require_auth}

-- the bodies of the requests
pub record SetupRequest : Type 0 where
  pub setup_token : Bytes
  pub username : Bytes
  pub password : Bytes

pub record LoginRequest : Type 0 where
  pub username : Bytes
  pub password : Bytes

pub record NewUser : Type 0 where
  pub username : Bytes
  pub password : Bytes
  pub is_admin : Bool

-- the answers of authSetup to an error
abbrev pub setup_refusal : Error → Proc Response
setup_refusal setup_done w = (problem_response 409 "setup already completed", w)
setup_refusal bad_setup_token w = (problem_response 403 "bad setup token", w)
setup_refusal bad_username w = (problem_response 400 "username must be 1-64 characters", w)
setup_refusal weak_password w = (problem_response 400 "password must be 8 or more characters", w)
setup_refusal e w = (problem_response 500 "internal error", w)

-- those of authLogin
abbrev pub login_refusal : Error → Proc Response
login_refusal bad_credentials w = (problem_response 401 "bad username or password", w)
login_refusal e w = (problem_response 500 "internal error", w)

-- those of adminCreateUser
abbrev pub create_refusal : Error → Proc Response
create_refusal bad_username w = (problem_response 400 "username must be 1-64 characters", w)
create_refusal weak_password w = (problem_response 400 "password must be 8 or more characters", w)
create_refusal e w = (problem_response 500 "internal error", w)

-- those of adminResetPassword
abbrev pub reset_refusal : Error → Proc Response
reset_refusal weak_password w = (problem_response 400 "password must be 8 or more characters", w)
reset_refusal e w = (problem_response 500 "internal error", w)

-- An id of a path: `some none` is a negative number.
abbrev pub user_id_from : Parsed → Option (Option ℕ)
user_id_from (value n) = some (some n)
user_id_from (negative n) = some none
user_id_from syntax_error = none
user_id_from (range_error minus) = none

-- DeleteUser and SetAdmin
unfoldable pub delete_row : Option ℕ → Action (Unit {0})
unfolding Auth.delete_user attempt
delete_row none = attempt >> attempt
delete_row (some id) = Auth.delete_user id

pub set_admin_row : Option ℕ → Bool → Action (Unit {0})
unfolding Auth.set_admin attempt
set_admin_row none admin = attempt
set_admin_row (some id) admin = Auth.set_admin id admin

-- `me.ID == id`
abbrev pub is_self : User → Option ℕ → Bool
is_self me none = false
is_self me (some id) = nat_beq me.id id

unfoldable pub delete_by : User → Option (Option ℕ) → Proc Response
unfolding delete_row
delete_by me none = refuse 400 "bad id"
delete_by me (some id) =
    if is_self me id
    then refuse 400 "cannot delete yourself"
    else handle (delete_row id) (λ e. internal_err) λ u. respond 200 Body.status_ok

-- DELETE /v1/admin/users/{id}
unfoldable pub admin_delete_user : User → Bytes → Proc Response
unfolding delete_by parse_int
admin_delete_user me id_text = delete_by me (user_id_from (parse_int id_text))

pub set_admin_by : User → Option (Option ℕ) → Option Bool → Proc Response
unfolding set_admin_row
set_admin_by me none admin = refuse 400 "bad id"
set_admin_by me (some id) none = refuse 400 "bad json body"
set_admin_by me (some id) (some admin) =
    if is_self me id && not admin
    then refuse 400 "cannot demote yourself"
    else handle (set_admin_row id admin) (λ e. internal_err) λ u. respond 200 Body.status_ok

-- POST /v1/admin/users/{id}/admin
unfoldable pub admin_set_admin : User → Bytes → Option Bool → Proc Response
unfolding set_admin_by parse_int
admin_set_admin me id_text admin = set_admin_by me (user_id_from (parse_int id_text)) admin

-- GET /v1/admin/users
unfoldable pub admin_list_users : Proc Response
unfolding Auth.list_users
admin_list_users =
    handle Auth.list_users (λ e. internal_err) λ users. respond 200 (Body.users users)

-- GET /v1/auth/me
abbrev pub auth_me : User → Proc Response
auth_me u = respond 200 (Body.user u)

module _ (x : External) where
  -- POST /v1/auth/setup; `expected` is the server's setup token.
  unfoldable pub auth_setup : Bytes → Option SetupRequest → Proc Response
  unfolding Auth.setup_first_admin
  auth_setup expected none = refuse 400 "bad json body"
  auth_setup expected (some req) =
      handle (Auth.setup_first_admin x expected req.setup_token req.username req.password)
        setup_refusal (λ u. respond 201 (Body.user u))

  -- POST /v1/auth/login
  unfoldable pub auth_login : Option LoginRequest → Proc Response
  unfolding Auth.login
  auth_login none = refuse 400 "bad json body"
  auth_login (some req) =
      handle (Auth.login x req.username req.password) login_refusal
        λ found. respond 200 (Body.logged_in found.0 found.1)

  -- POST /v1/auth/logout: the error of the call is dropped.
  unfoldable pub auth_logout : Bytes → Proc Response
  unfolding Auth.logout
  auth_logout token =
      handle (Auth.logout x token) (λ e. respond 200 Body.status_ok) λ u. respond 200 Body.status_ok

  -- POST /v1/admin/users
  unfoldable pub admin_create_user : Option NewUser → Proc Response
  unfolding Auth.create_user
  admin_create_user none = refuse 400 "bad json body"
  admin_create_user (some req) =
      handle (Auth.create_user x req.username req.password req.is_admin) create_refusal
        λ u. respond 201 (Body.user u)

  unfoldable pub reset_row : Option ℕ → Bytes → Action (Unit {0})
  unfolding Auth.reset_password Auth.begin_reset Auth.finish_reset Auth.hash_password attempt
  reset_row (some id) password = Auth.reset_password x id password
  reset_row none password = do
    fail_if (ltb (length password) Auth.min_pass_len) weak_password
    Auth.hash_password x password
    attempt
    attempt

  unfoldable pub reset_by : Option (Option ℕ) → Option Bytes → Proc Response
  unfolding reset_row
  reset_by none password = refuse 400 "bad id"
  reset_by (some id) none = refuse 400 "bad json body"
  reset_by (some id) (some password) =
      handle (reset_row id password) reset_refusal λ u. respond 200 Body.status_ok

  -- POST /v1/admin/users/{id}/password
  unfoldable pub admin_reset_password : Bytes → Option Bytes → Proc Response
  unfolding reset_by parse_int
  admin_reset_password id_text password = reset_by (user_id_from (parse_int id_text)) password

-- The requests for accounts that Routes knows.
pub data AccountRequest : Type 0 where
  setup : Option SetupRequest → AccountRequest
  log_in : Option LoginRequest → AccountRequest
  log_out me list_users : AccountRequest
  create_user : Option NewUser → AccountRequest
  delete_user : Bytes → AccountRequest
  reset_password : Bytes → Option Bytes → AccountRequest
  set_admin : Bytes → Option Bool → AccountRequest

module _ (x : External) (expected : Bytes) where
  -- Routes: each path with its guard. `token` is what tokenFrom finds.
  unfoldable pub serve_account : Bytes → AccountRequest → Proc Response
  unfolding require_auth require_admin auth_setup auth_login auth_logout admin_list_users
      admin_create_user admin_delete_user admin_reset_password admin_set_admin
  serve_account token (AccountRequest.setup req) = auth_setup x expected req
  serve_account token (AccountRequest.log_in req) = auth_login x req
  serve_account token AccountRequest.log_out = require_auth x (λ u. auth_logout x token) token
  serve_account token AccountRequest.me = require_auth x auth_me token
  serve_account token AccountRequest.list_users = require_admin x (λ u. admin_list_users) token
  serve_account token (AccountRequest.create_user req) =
      require_admin x (λ u. admin_create_user x req) token
  serve_account token (AccountRequest.delete_user id) =
      require_admin x (λ u. admin_delete_user u id) token
  serve_account token (AccountRequest.reset_password id password) =
      require_admin x (λ u. admin_reset_password x id password) token
  serve_account token (AccountRequest.set_admin id admin) =
      require_admin x (λ u. admin_set_admin u id admin) token
