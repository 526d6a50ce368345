-- ===== src/Web.antt =====
-- internal/handler/web/handler.go: the pages for browsers. `cookie` is the cookie cache22_sess of
-- the request, where it has one; a form that ParseForm refuses is `none`. A page is what is given to
-- its template.
pub mod Routes
pub mod Apart
pub mod Agreement
pub mod Login
pub mod Sizes
mod Tests
use Prim.Native.String.{String}
use cache_22_server.Prelude.{
  ℕ, Bool, true, false, Option, none, some, List, [], Bytes, codes, ◌==◌, nat_eq, list_eq,
  if◌then◌else◌,
}
use cache_22_server.Go.FilePath.{FilePath}
use cache_22_server.Go.Number.{parse_int}
use cache_22_server.Entity.{User, Game, Manifest}
use cache_22_server.World.{
  World, Proc, Action, Error, no_rows, bad_setup_token, bad_credentials, weak_password,
  bad_username, ignore, handle, ◌>>=◌, ◌>>◌,
}
use cache_22_server.External.{External}
use cache_22_server.Scanner.{run}
use cache_22_server.Db
use cache_22_server.Auth
use cache_22_server.Games.{get_game, get_manifest}
use cache_22_server.Accounts.{user_id_from, is_self, delete_row, reset_row}

pub data Page : Type 0 where
  -- http.Redirect with 303, and http.Error
  redirect : Bytes → Page
  problem : String → Page
  -- the games, and whether the user is an administrator
  game_library : List Game → Bool → Page
  game_detail : Game → Manifest → Bool → Page
  -- the message, and whether the form is that of the setup
  login_form : String → Bool → Page
  game_table : List Game → Bool → Page
  users : User → List User → String → Page

-- what becomes of the cookie cache22_sess
pub data CookieChange : Type 0 where
  keep_cookie clear_cookie : CookieChange
  set_cookie : Bytes → CookieChange

pub record Answer : Type 0 where
  pub code : ℕ
  pub page : Page
  pub cookie : CookieChange

abbrev pub show : ℕ → Page → Proc Answer
show code page w = (record { code = code; page = page; cookie = keep_cookie }, w)

abbrev pub go_to : Bytes → CookieChange → Proc Answer
go_to place cookie w = (record { code = 303; page = Page.redirect place; cookie = cookie }, w)

-- internal
abbrev pub internal : Proc Answer
internal = show 500 (Page.problem "internal error")

-- friendlyAuthErr
abbrev pub friendly_auth_err : Error → String
friendly_auth_err bad_credentials = "Wrong username or password."
friendly_auth_err bad_setup_token = "Wrong setup token."
friendly_auth_err weak_password = "Password must be 8 or more characters."
friendly_auth_err bad_username = "Username must be 1-64 characters."
friendly_auth_err e = "Something went wrong."

-- the fields of the forms that are read with FormValue
pub record SignIn : Type 0 where
  pub setup_token : Bytes
  pub username : Bytes
  pub password : Bytes

pub record NewAccount : Type 0 where
  pub username : Bytes
  pub password : Bytes
  pub is_admin : Bytes

-- h.auth.ListUsers of a handler that drops the error: no user is shown then.
pub users_with : User → String → Proc Answer
unfolding Auth.list_users
users_with me message =
    handle Auth.list_users (λ e. show 400 (Page.users me [] message))
      λ us. show 400 (Page.users me us message)

-- the answers to an error of GetGame
abbrev pub not_found : Error → Proc Answer
not_found no_rows = show 404 (Page.problem "404 page not found")
not_found e = internal

pub detail_for : User → Bytes → Proc Answer
unfolding Db.Games.get_by_serial get_manifest
detail_for u serial = handle (get_game serial) not_found λ g.
    handle (get_manifest serial) (λ e. internal) λ m. show 200 (Page.game_detail g m u.is_admin)

pub delete_by : User → Option (Option ℕ) → Proc Answer
unfolding delete_row
delete_by me none = show 400 (Page.problem "cannot delete this user")
delete_by me (some id) =
    if is_self me id
    then show 400 (Page.problem "cannot delete this user")
    else handle (delete_row id) (λ e. internal) λ u. go_to (codes "/admin/users") keep_cookie

module _ (x : External) where
  -- currentUser
  unfoldable pub current_user : Option Bytes → Proc (Option User)
  unfolding Auth.authenticate
  current_user none w = (none, w)
  current_user (some token) w =
      handle (Auth.authenticate x token) (λ e w'. (none, w')) (λ found w'. (found, w')) w

  pub signed_in : (User → Proc Answer) → Option User → Proc Answer
  signed_in next none = go_to (codes "/login") keep_cookie
  signed_in next (some u) = next u

  -- requireLogin before the rest of a handler
  unfoldable pub require_login : (User → Proc Answer) → Option Bytes → Proc Answer
  unfolding current_user signed_in
  require_login next cookie w = let (found, w') = current_user cookie w in signed_in next found w'

  abbrev pub admin_page : (User → Proc Answer) → User → Proc Answer
  admin_page next u = if u.is_admin then next u else show 403 (Page.problem "admin required")

  -- requireAdminPage before the rest of a handler
  unfoldable pub require_admin_page : (User → Proc Answer) → Option Bytes → Proc Answer
  unfolding require_login
  require_admin_page next = require_login (admin_page next)

  -- GET /
  unfoldable pub library : Option Bytes → Proc Answer
  unfolding require_login Db.Games.list
  library = require_login λ u.
      handle (Db.Games.list x.sorted_titles) (λ e. internal)
        λ games. show 200 (Page.game_library games u.is_admin)

  -- GET /games/{serial}
  unfoldable pub detail : Bytes → Option Bytes → Proc Answer
  unfolding require_login detail_for
  detail serial = require_login λ u. detail_for u serial

  pub login_page_for : Option User → Proc Answer
  unfolding Auth.needs_setup
  login_page_for (some u) = go_to (codes "/") keep_cookie
  login_page_for none =
      handle Auth.needs_setup (λ e. internal) λ needs. show 200 (Page.login_form "" needs)

  -- GET /login
  unfoldable pub login_page : Option Bytes → Proc Answer
  unfolding current_user login_page_for
  login_page cookie w = let (found, w') = current_user cookie w in login_page_for found w'

  -- the closure `fail` of login
  abbrev pub login_failed : Bool → Error → Proc Answer
  login_failed setup e = show 401 (Page.login_form (friendly_auth_err e) setup)

  -- Login and the cookie
  unfoldable pub sign_in : Bool → SignIn → Proc Answer
  unfolding Auth.login
  sign_in setup form =
      handle (Auth.login x form.username form.password) (login_failed setup)
        λ found. go_to (codes "/") (set_cookie found.0)

  unfoldable pub sign_in_or_set_up : Bytes → SignIn → Bool → Proc Answer
  unfolding Auth.setup_first_admin sign_in
  sign_in_or_set_up expected form true =
      handle (Auth.setup_first_admin x expected form.setup_token form.username form.password)
        (login_failed true) (λ u. sign_in true form)
  sign_in_or_set_up expected form false = sign_in false form

  -- POST /login; `expected` is the server's setup token.
  unfoldable pub login : Bytes → Option SignIn → Proc Answer
  unfolding Auth.needs_setup sign_in_or_set_up
  login expected none = show 401 (Page.login_form "Bad form." false)
  login expected (some form) =
      handle Auth.needs_setup (λ e. internal) (sign_in_or_set_up expected form)

  -- POST /logout
  unfoldable pub logout : Option Bytes → Proc Answer
  unfolding Auth.logout
  logout none = go_to (codes "/login") clear_cookie
  logout (some token) =
      handle (Auth.logout x token) (λ e. go_to (codes "/login") clear_cookie)
        λ u. go_to (codes "/login") clear_cookie

  pub scan_for : FilePath → Option User → Proc Answer
  unfolding run Db.Games.list
  scan_for dir none = show 401 (Page.problem "login required")
  scan_for dir (some u) =
      handle (run x dir) (λ e. internal)
        λ n.
          handle (Db.Games.list x.sorted_titles) (λ e. internal)
            λ games. show 200 (Page.game_table games true)

  -- POST /scan
  unfoldable pub scan : FilePath → Option Bytes → Proc Answer
  unfolding current_user scan_for
  scan dir cookie w = let (found, w') = current_user cookie w in scan_for dir found w'

  pub users_for : User → Proc Answer
  unfolding Auth.list_users
  users_for me = handle Auth.list_users (λ e. internal) λ us. show 200 (Page.users me us "")

  -- GET /admin/users
  unfoldable pub users_page : Option Bytes → Proc Answer
  unfolding require_admin_page users_for
  users_page = require_admin_page users_for

  pub create_by : Option NewAccount → User → Proc Answer
  unfolding Auth.create_user users_with
  create_by none me = show 400 (Page.problem "bad form")
  create_by (some form) me =
      handle (Auth.create_user x form.username form.password (form.is_admin == codes "on"))
        (λ e. users_with me (friendly_auth_err e)) (λ u. go_to (codes "/admin/users") keep_cookie)

  -- POST /admin/users
  unfoldable pub create_user : Option NewAccount → Option Bytes → Proc Answer
  unfolding require_admin_page create_by
  create_user form = require_admin_page (create_by form)

  -- POST /admin/users/{id}/delete
  unfoldable pub delete_user : Bytes → Option Bytes → Proc Answer
  unfolding require_admin_page delete_by parse_int
  delete_user id_text = require_admin_page λ me. delete_by me (user_id_from (parse_int id_text))

  pub reset_by : Option (Option ℕ) → Option Bytes → User → Proc Answer
  unfolding reset_row users_with
  reset_by none password me = show 400 (Page.problem "bad id")
  reset_by (some id) none me = show 400 (Page.problem "bad form")
  reset_by (some id) (some password) me =
      handle (reset_row x id password) (λ e. users_with me (friendly_auth_err e))
        λ u. go_to (codes "/admin/users") keep_cookie

  -- POST /admin/users/{id}/password
  unfoldable pub reset_password : Bytes → Option Bytes → Option Bytes → Proc Answer
  unfolding require_admin_page reset_by parse_int
  reset_password id_text password =
      require_admin_page (reset_by (user_id_from (parse_int id_text)) password)
