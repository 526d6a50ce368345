-- ===== src/Accounts/Lockout.antt =====
-- The administrators of the server under the requests for accounts of internal/handler/http/admin.go.
use cache_22_server.Prelude.{
  ℕ, ◌<◌, length, Bool, Option, none, some, List, [], ◌∷◌, ◌≡◌, inl, inr, refl, Bytes, arith,
  nat_eq, list_eq, find_if, ap, sym, ◌∙◌, subst,
}
use cache_22_server.Entity.{User}
use cache_22_server.World.{Error, Action, Proc, handle, Result-cases, World}
use cache_22_server.External.{External}
use cache_22_server.Http.{respond, Response, Body}
use cache_22_server.Auth
use cache_22_server.Auth.Tables.{has_id}
use cache_22_server.Auth.{authenticate}
use cache_22_server.Auth.Sessions.{authenticate_account}
use cache_22_server.Guard.{require_admin}
use cache_22_server.Guard.Access.{require_admin_guards, require_auth_users, authenticate_same}
use cache_22_server.Accounts.Flags.{
  IsAdminId, delete_keeps, set_admin_by_keeps, reset_by_keeps, create_keeps,
}
use cache_22_server.Accounts.{
  AccountRequest, serve_account, auth_me, SetupRequest, LoginRequest, NewUser, create_refusal,
  setup_refusal, admin_delete_user, admin_set_admin, admin_create_user, admin_reset_password,
  admin_list_users, auth_setup, auth_login, auth_logout,
}

abbrev pub HasAdmin : World → Type 0
HasAdmin w = (id : ℕ) × IsAdminId id w.users

pub create_refusal_same : (e : Error) (w : World) → (create_refusal e w).1 ≡ w
create_refusal_same e w = ground arith

pub setup_refusal_same : (e : Error) (w : World) → (setup_refusal e w).1 ≡ w
setup_refusal_same e w = ground arith

pub handle_same :
    {A : Type 0} (m : Action A) (failed : Error → Proc Response) (done : A → Proc Response)
    (w : World)
    → ((e : Error) (w' : World) → (failed e w').1 ≡ w')
    → ((a : A) (w' : World) → (done a w').1 ≡ w')
    → (handle m failed done w).1 ≡ (m w).1
handle_same m failed done w f d = elim (Result-cases (m w).0) [
  | inl (c, e) ↦ ground (arith, f c (m w).1)
  | inr (a, e) ↦ ground (arith, d a (m w).1)
]

set_admin_request_keeps :
    (me : User) (text : Bytes) (admin : Option Bool) (w : World)
    → IsAdminId me.id w.users
    → IsAdminId me.id (admin_set_admin me text admin w).1.users
unfolding admin_set_admin
set_admin_request_keeps me text admin w = set_admin_by_keeps me _ admin w

pub found_some :
    (p : User → Bool) (v : User) (us : List User) → find_if p us ≡ some v → 0 < length us
found_some p v [] e = cc
found_some p v (u ∷ us) e = omega arith

module _ (x : External) (expected : Bytes) where
  pub setup_same :
      (token username password : Bytes) (w : World)
      → 0 < length w.users
      → (Auth.setup_first_admin x expected token username password w).1.users ≡ w.users
  unfolding Auth.setup_first_admin
  setup_same token username password w h = ground arith

  setup_keeps :
      (req : Option SetupRequest) (j : ℕ) (w : World)
      → IsAdminId j w.users
      → IsAdminId j (auth_setup x expected req w).1.users
  unfolding auth_setup
  setup_keeps none j w a = a
  setup_keeps (some req) j w (v, e, t) =
      let made = Auth.setup_first_admin x expected req.setup_token req.username req.password in
      let same =
        handle_same made setup_refusal (λ u. respond 201 (Body.user u)) w setup_refusal_same
          (λ u w'. refl) in
      (
        v,
        ap (λ (w' : World). find_if (has_id j) w'.users) same
            ∙ ap (find_if (has_id j)) (
                setup_same req.setup_token req.username req.password w
                  (found_some (has_id j) v w.users e))
            ∙ e,
        t,
      )

  pub login_keeps : (req : Option LoginRequest) (w : World) → (auth_login x req w).1.users ≡ w.users
  unfolding auth_login Auth.login
  login_keeps none w = refl
  login_keeps (some req) w = ground arith

  pub logout_keeps : (token : Bytes) (w : World) → (auth_logout x token w).1.users ≡ w.users
  unfolding auth_logout Auth.logout
  logout_keeps token w = ground arith

  list_keeps : (w : World) → (admin_list_users w).1.users ≡ w.users
  unfolding admin_list_users Auth.list_users
  list_keeps w = ground arith

  create_request_keeps :
      (req : Option NewUser) (j : ℕ) (w : World)
      → IsAdminId j w.users
      → IsAdminId j (admin_create_user x req w).1.users
  unfolding admin_create_user
  create_request_keeps none j w a = a
  create_request_keeps (some req) j w (v, e, t) =
      let made = Auth.create_user x req.username req.password req.is_admin in
      let same =
        handle_same made create_refusal (λ u. respond 201 (Body.user u)) w create_refusal_same
          (λ u w'. refl) in
      (
        v,
        ap (λ (w' : World). find_if (has_id j) w'.users) same
            ∙ create_keeps x req.username req.password req.is_admin j v w e,
        t,
      )

  reset_request_keeps :
      (text : Bytes) (password : Option Bytes) (j : ℕ) (w : World)
      → IsAdminId j w.users
      → IsAdminId j (admin_reset_password x text password w).1.users
  unfolding admin_reset_password
  reset_request_keeps text password j w = reset_by_keeps x _ password j w

  require_admin_keeps :
      (next : User → Proc Response) (token : Bytes) (w : World)
      → ((u : User) (w' : World) → IsAdminId u.id w'.users → IsAdminId u.id (next u w').1.users)
      → HasAdmin w
      → HasAdmin (require_admin x next token w).1
  require_admin_keeps next token w keeps (id, a) = elim (require_admin_guards x next token w) [
    | inl (code, same) ↦ (id, subst (IsAdminId id) (sym same.0) a)
    | inr (u, flag, auth, own, run) ↦
        let (v, e, t) = authenticate_account x token u w auth in
        let after = authenticate_same x token w in
        (
          u.id,
          subst (λ (r : Response × World). IsAdminId u.id r.1.users) (sym run)
              (keeps u (authenticate x token w).1
                (subst (IsAdminId u.id) (sym after.0) (v, e, t ∙ flag))),
        )
  ]

  -- Whatever request for accounts arrives, with whatever token and whatever calls fail: if there was
  -- an administrator before, there is one after it.
  pub serve_account_keeps_admin :
      (token : Bytes) (req : AccountRequest) (w : World)
      → HasAdmin w
      → HasAdmin (serve_account x expected token req w).1
  unfolding serve_account
  serve_account_keeps_admin token (AccountRequest.setup req) w (id, a) =
      (id, setup_keeps req id w a)
  serve_account_keeps_admin token (AccountRequest.log_in req) w (id, a) =
      (id, subst (IsAdminId id) (sym (login_keeps req w)) a)
  serve_account_keeps_admin token AccountRequest.log_out w (id, a) = (
    id,
    subst (IsAdminId id)
        (sym (require_auth_users x (λ u. auth_logout x token) token w (λ u. logout_keeps token))) a,
  )
  serve_account_keeps_admin token AccountRequest.me w (id, a) =
      (id, subst (IsAdminId id) (sym (require_auth_users x auth_me token w (λ u w'. refl))) a)
  serve_account_keeps_admin token AccountRequest.list_users w h =
      require_admin_keeps (λ u. admin_list_users) token w
        (λ u w'. subst (IsAdminId u.id) (sym (list_keeps w'))) h
  serve_account_keeps_admin token (AccountRequest.create_user req) w h =
      require_admin_keeps (λ u. admin_create_user x req) token w
        (λ u. create_request_keeps req u.id) h
  serve_account_keeps_admin token (AccountRequest.delete_user id) w h =
      require_admin_keeps (λ u. admin_delete_user u id) token w
        (λ u w' (v, e, t). (v, delete_keeps u id w' ∙ e, t)) h
  serve_account_keeps_admin token (AccountRequest.reset_password id password) w h =
      require_admin_keeps (λ u. admin_reset_password x id password) token w
        (λ u. reset_request_keeps id password u.id) h
  serve_account_keeps_admin token (AccountRequest.set_admin id admin) w h =
      require_admin_keeps (λ u. admin_set_admin u id admin) token w
        (λ u. set_admin_request_keeps u id admin) h

  -- The requests for accounts, with their tokens, one after the other.
  unfoldable pub run_accounts : List (Bytes × AccountRequest) → World → World
  run_accounts [] w = w
  run_accounts ((token, req) ∷ reqs) w = run_accounts reqs (serve_account x expected token req w).1

  -- Any run of requests for accounts, by anyone, with any tokens and any failing calls, leaves an
  -- administrator where there was one.
  pub run_accounts_keeps_admin :
      (reqs : List (Bytes × AccountRequest)) (w : World)
      → HasAdmin w
      → HasAdmin (run_accounts reqs w)
  unfolding run_accounts
  run_accounts_keeps_admin [] w h = h
  run_accounts_keeps_admin ((token, req) ∷ reqs) w h =
      run_accounts_keeps_admin reqs (serve_account x expected token req w).1
        (serve_account_keeps_admin token req w h)
