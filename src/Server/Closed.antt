-- ===== src/Server/Closed.antt =====
-- A server without accounts and without a setup token.
use cache_22_server.Prelude.{
  none, some, Option, ◌≡◌, ◌≢◌, refl, ap, ◌∙◌, inl, inr, [], ◌∷◌, List, Bytes, codes, arith,
  find_if, list_eq, nat_eq,
}
use cache_22_server.Entity.{User}
use cache_22_server.World.{World, Proc}
use cache_22_server.External.{External}
use cache_22_server.Http.{Response, Body, respond}
use cache_22_server.Config
use cache_22_server.Auth
use cache_22_server.Auth.{authenticate}
use cache_22_server.Auth.Sessions.{authenticate_account}
use cache_22_server.Auth.Tables.{has_id}
use cache_22_server.Guard.{require_admin}
use cache_22_server.Guard.Access.{require_admin_guards, require_auth_users}
use cache_22_server.Accounts.{
  AccountRequest, serve_account, SetupRequest, auth_setup, auth_me, auth_logout, admin_list_users,
  admin_create_user, admin_delete_user, admin_reset_password, admin_set_admin, setup_refusal,
}
use cache_22_server.Accounts.Lockout.{handle_same, setup_refusal_same, login_keeps, logout_keeps}
use cache_22_server.Server.{Settings, Reach}
use cache_22_server.Server.Kept.{SameUsers, reach_keeps}

abbrev pub NoUsers : World → Type 0
NoUsers w = w.users ≡ []

NoUsers-same : (w v : World) → SameUsers w v → NoUsers w → NoUsers v
NoUsers-same w v (users, next_id) h = users ∙ h

module _ (x : External) (expected : Bytes) (unset : expected ≡ []) where
  NoUsers-set_up :
      (token username password : Bytes) (w : World)
      → NoUsers w
      → NoUsers (Auth.setup_first_admin x expected token username password w).1
  unfolding Auth.setup_first_admin Auth.needs_setup
  NoUsers-set_up token username password w h = rw unset (ground arith)

  NoUsers-setup :
      (req : Option SetupRequest) (w : World) → NoUsers w → NoUsers (auth_setup x expected req w).1
  unfolding auth_setup
  NoUsers-setup none w h = h
  NoUsers-setup (some req) w h =
      let made = Auth.setup_first_admin x expected req.setup_token req.username req.password in
      let same =
        handle_same made setup_refusal (λ u. respond 201 (Body.user u)) w setup_refusal_same
          (λ u w'. refl) in
      ap (λ (v : World). v.users) same
      ∙ NoUsers-set_up req.setup_token req.username req.password w h

  -- Nobody passes the guard.
  NoUsers-require_admin :
      (next : User → Proc Response) (token : Bytes) (w : World)
      → NoUsers w
      → NoUsers (require_admin x next token w).1
  NoUsers-require_admin next token w h = elim (require_admin_guards x next token w) [
    | inl (code, same) ↦ same.0 ∙ h
    | inr (u, flag, auth, own, run) ↦
        let (v, e, t) = authenticate_account x token u w auth in absurd (none_found u v w.users h e)
  ]
    where
      none_found : (u v : User) (us : List User) → us ≡ [] → find_if (has_id u.id) us ≢ some v
      none_found u v [] h e = cc
      none_found u v (t ∷ us) h e = cc

  NoUsers-serve_account :
      (token : Bytes) (req : AccountRequest) (w : World)
      → NoUsers w
      → NoUsers (serve_account x expected token req w).1
  unfolding serve_account
  NoUsers-serve_account token (AccountRequest.setup req) w h = NoUsers-setup req w h
  NoUsers-serve_account token (AccountRequest.log_in req) w h = login_keeps x expected req w ∙ h
  NoUsers-serve_account token AccountRequest.log_out w h =
      require_auth_users x (λ u. auth_logout x token) token w (λ u. logout_keeps x expected token)
      ∙ h
  NoUsers-serve_account token AccountRequest.me w h =
      require_auth_users x auth_me token w (λ u w'. refl) ∙ h
  NoUsers-serve_account token AccountRequest.list_users w h =
      NoUsers-require_admin (λ u. admin_list_users) token w h
  NoUsers-serve_account token (AccountRequest.create_user req) w h =
      NoUsers-require_admin (λ u. admin_create_user x req) token w h
  NoUsers-serve_account token (AccountRequest.delete_user id) w h =
      NoUsers-require_admin (λ u. admin_delete_user u id) token w h
  NoUsers-serve_account token (AccountRequest.reset_password id password) w h =
      NoUsers-require_admin (λ u. admin_reset_password x id password) token w h
  NoUsers-serve_account token (AccountRequest.set_admin id admin) w h =
      NoUsers-require_admin (λ u. admin_set_admin u id admin) token w h

admin_token_unset :
    (getenv : Bytes → Bytes)
    → getenv (codes "ADMIN_TOKEN") ≡ []
    → (Config.new getenv).admin_token ≡ []
unfolding Config.new Config.env_or
admin_token_unset getenv e = ground arith

-- On a server that takes its setup token from an environment where ADMIN_TOKEN is empty, and that has
-- no account, there is none after any steps of the API, the pages and the surroundings.
pub reach-NoUsers :
    (x : External) (s : Settings) (getenv : Bytes → Bytes) (w v : World)
    → s.admin_token ≡ (Config.new getenv).admin_token
    → getenv (codes "ADMIN_TOKEN") ≡ []
    → NoUsers w
    → Reach x s w v
    → NoUsers v
reach-NoUsers x s getenv w v taken empty h reach =
    let unset = taken ∙ admin_token_unset getenv empty in
    reach_keeps x s NoUsers NoUsers-same (NoUsers-serve_account x s.admin_token unset)
      (NoUsers-set_up x s.admin_token unset) w v reach h
