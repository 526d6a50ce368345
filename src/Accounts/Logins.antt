-- ===== src/Accounts/Logins.antt =====
-- The order of the table of users under the requests for accounts, and logins after them.
use cache_22_server.Prelude.{
  true, Option, none, some, List, [], ◌∷◌, ◌≡◌, ◌≢◌, refl, sym, subst, Bytes, arith, nat_eq,
  list_eq,
}
use cache_22_server.Entity.{User}
use cache_22_server.Go.Number.{parse_int}
use cache_22_server.World.{World, Proc, ok, attempt, quiet}
use cache_22_server.External.{External}
use cache_22_server.Http.{respond, Response, Body}
use cache_22_server.Auth
use cache_22_server.Auth.{authenticate, login}
use cache_22_server.Auth.Sessions.{login_authenticates}
use cache_22_server.Auth.Tables.{Ordered}
use cache_22_server.Guard.{require_admin, require_auth, admin_only}
use cache_22_server.Guard.Access.{require_auth_keeps, SameState}
use cache_22_server.Accounts.{
  create_refusal, setup_refusal, user_id_from, SetupRequest, LoginRequest, NewUser, AccountRequest,
  serve_account, admin_delete_user, admin_set_admin, admin_create_user, admin_reset_password,
  admin_list_users, auth_setup, auth_login, auth_logout, auth_me,
}
use cache_22_server.Accounts.Lockout.{
  run_accounts, handle_same, create_refusal_same, setup_refusal_same,
}
use cache_22_server.Accounts.Order.{
  InOrder, create-InOrder, reset_by-InOrder, delete_by-InOrder, set_admin_by-InOrder,
}

module _ (x : External) (expected : Bytes) where
  login-InOrder :
      (req : Option LoginRequest) (w : World) → InOrder w → InOrder (auth_login x req w).1
  unfolding auth_login Auth.login
  login-InOrder none w o = o
  login-InOrder (some req) w o = ground arith

  logout-InOrder : (token : Bytes) (w : World) → InOrder w → InOrder (auth_logout x token w).1
  unfolding auth_logout Auth.logout
  logout-InOrder token w o = ground arith

  list-InOrder : (w : World) → InOrder w → InOrder (admin_list_users w).1
  unfolding admin_list_users Auth.list_users
  list-InOrder w o = ground arith

  create_request-InOrder :
      (req : Option NewUser) (w : World) → InOrder w → InOrder (admin_create_user x req w).1
  unfolding admin_create_user
  create_request-InOrder none w o = o
  create_request-InOrder (some req) w o =
      let made = Auth.create_user x req.username req.password req.is_admin in
      let same =
        handle_same made create_refusal (λ u. respond 201 (Body.user u)) w create_refusal_same
          (λ u w'. refl) in
      subst InOrder (sym same) (create-InOrder x req.username req.password req.is_admin w o)

  pub setup_first-InOrder :
      (token username password : Bytes) (w : World)
      → InOrder w
      → InOrder (Auth.setup_first_admin x expected token username password w).1
  unfolding Auth.setup_first_admin attempt
  setup_first-InOrder token username password w o =
      ground (arith, create-InOrder x username password true (attempt w).1 o)

  setup-InOrder :
      (req : Option SetupRequest) (w : World) → InOrder w → InOrder (auth_setup x expected req w).1
  unfolding auth_setup
  setup-InOrder none w o = o
  setup-InOrder (some req) w o =
      let made = Auth.setup_first_admin x expected req.setup_token req.username req.password in
      let same =
        handle_same made setup_refusal (λ u. respond 201 (Body.user u)) w setup_refusal_same
          (λ u w'. refl) in
      subst InOrder (sym same) (setup_first-InOrder req.setup_token req.username req.password w o)

  pub same-InOrder : (w w' : World) → InOrder w → SameState w w' → InOrder w'
  same-InOrder w w' o (users, s1, s2, s3, s4, s5, s6, next) =
      subst (λ n. Ordered 0 n w'.users) (sym next) (subst (Ordered 0 w.next_id) (sym users) o)

  admin_only-InOrder :
      (next : User → Proc Response)
      → ((u : User) (w : World) → InOrder w → InOrder (next u w).1)
      → (u : User) (w : World) → InOrder w
      → InOrder (admin_only next u w).1
  admin_only-InOrder next keeps u w o = ground (arith, keeps u w o)

  guarded-InOrder :
      (next : User → Proc Response) (token : Bytes) (w : World)
      → ((u : User) (w' : World) → InOrder w' → InOrder (next u w').1)
      → InOrder w
      → InOrder (require_auth x next token w).1
  guarded-InOrder next token w keeps o =
      require_auth_keeps x InOrder next token w (λ w'. same-InOrder w w' o) keeps

  admin-InOrder :
      (next : User → Proc Response) (token : Bytes) (w : World)
      → ((u : User) (w' : World) → InOrder w' → InOrder (next u w').1)
      → InOrder w
      → InOrder (require_admin x next token w).1
  unfolding require_admin
  admin-InOrder next token w keeps =
      guarded-InOrder (admin_only next) token w (admin_only-InOrder next keeps)

  pub serve_account-InOrder :
      (token : Bytes) (req : AccountRequest) (w : World)
      → InOrder w
      → InOrder (serve_account x expected token req w).1
  unfolding serve_account admin_delete_user admin_set_admin admin_reset_password
  serve_account-InOrder token (AccountRequest.setup req) w = setup-InOrder req w
  serve_account-InOrder token (AccountRequest.log_in req) w = login-InOrder req w
  serve_account-InOrder token AccountRequest.log_out w =
      guarded-InOrder (λ u. auth_logout x token) token w (λ u. logout-InOrder token)
  serve_account-InOrder token AccountRequest.me w = guarded-InOrder auth_me token w (λ u w' o. o)
  serve_account-InOrder token AccountRequest.list_users w =
      admin-InOrder (λ u. admin_list_users) token w (λ u. list-InOrder)
  serve_account-InOrder token (AccountRequest.create_user req) w =
      admin-InOrder (λ u. admin_create_user x req) token w (λ u. create_request-InOrder req)
  serve_account-InOrder token (AccountRequest.delete_user id) w =
      admin-InOrder (λ u. admin_delete_user u id) token w
        (λ u. delete_by-InOrder u (user_id_from (parse_int id)))
  serve_account-InOrder token (AccountRequest.reset_password id password) w =
      admin-InOrder (λ u. admin_reset_password x id password) token w
        (λ u. reset_by-InOrder x (user_id_from (parse_int id)) password)
  serve_account-InOrder token (AccountRequest.set_admin id admin) w =
      admin-InOrder (λ u. admin_set_admin u id admin) token w
        (λ u. set_admin_by-InOrder u (user_id_from (parse_int id)) admin)

  run_accounts-InOrder :
      (reqs : List (Bytes × AccountRequest)) (w : World)
      → InOrder w
      → InOrder (run_accounts x expected reqs w)
  unfolding run_accounts
  run_accounts-InOrder [] w o = o
  run_accounts-InOrder ((token, req) ∷ reqs) w o =
      run_accounts-InOrder reqs (serve_account x expected token req w).1
        (serve_account-InOrder token req w o)

  -- From a server without accounts, after any run of requests for accounts, by anyone and with any
  -- failing calls: the token of a login that succeeds, if it is not empty, authenticates as the user
  -- that the login answered.
  pub run_accounts-login :
      (reqs : List (Bytes × AccountRequest)) (username password token : Bytes) (u : User)
      (w : World)
      → w.users ≡ []
      → token ≢ []
      → let w' = run_accounts x expected reqs w in
        (login x username password w').0 ≡ ok (token, u)
        → (authenticate x token (quiet (login x username password w').1)).0 ≡ ok (some u)
  run_accounts-login reqs username password token u w e t h =
      login_authenticates x username password token u (run_accounts x expected reqs w)
        (run_accounts-InOrder reqs w (subst (Ordered 0 w.next_id) (sym e) (omega arith))) t h
