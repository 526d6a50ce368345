-- ===== src/Server/Kept.antt =====
-- What every step of the server keeps: a property of the table of users and the next id that the
-- requests for accounts and the setup keep.
use cache_22_server.Prelude.{
  ◌≡◌, ◌≢◌, ◌⊎◌, refl, sym, ap, subst, Bytes, Bool, true, false, Option, none, some, arith, inl,
  inr, ℕ,
}
use cache_22_server.World.{World, Result-cases}
use cache_22_server.External.{External}
use cache_22_server.Auth
use cache_22_server.Guard.{token_from}
use cache_22_server.Apart.{SameAccounts}
use cache_22_server.Accounts.{AccountRequest, serve_account, user_id_from}
use cache_22_server.Go.Number.{parse_int}
use cache_22_server.Web.{SignIn, Answer, sign_in, sign_in_or_set_up, login_failed}
use cache_22_server.Web
use cache_22_server.Web.Apart
use cache_22_server.Web.Agreement.{
  StandsFor, creates, deletes, resets, as_new_user, serve_page-Agrees,
}
use cache_22_server.Web.Routes.{PageRequest, serve_page}
use cache_22_server.Server.{
  Settings, ApiRequest, account, serve_api, Step, calls, visits, passes, touches, around, Reach,
  start, next,
}
use cache_22_server.Server.Guarded.{serve_api-Apart}

abbrev pub SameUsers : World → World → Type 0
SameUsers w v = (v.users ≡ w.users) × (v.next_id ≡ w.next_id)

account_cases :
    (req : ApiRequest)
    → ((r : AccountRequest) × (req ≡ account r)) ⊎ ((r : AccountRequest) → req ≢ account r)
account_cases (ApiRequest.account r) = inl (r, refl)
account_cases ApiRequest.health_check = inr (λ r e. cc)
account_cases ApiRequest.all_games = inr (λ r e. cc)
account_cases ApiRequest.rescan = inr (λ r e. cc)
account_cases ApiRequest.fetch_covers = inr (λ r e. cc)
account_cases (ApiRequest.game serial) = inr (λ r e. cc)
account_cases (ApiRequest.manifest serial) = inr (λ r e. cc)
account_cases (ApiRequest.cover serial) = inr (λ r e. cc)
account_cases (ApiRequest.file serial) = inr (λ r e. cc)
account_cases (ApiRequest.upload parts) = inr (λ r e. cc)
account_cases (ApiRequest.init req) = inr (λ r e. cc)
account_cases (ApiRequest.chunk id offset body) = inr (λ r e. cc)
account_cases (ApiRequest.complete id) = inr (λ r e. cc)
account_cases (ApiRequest.abort id) = inr (λ r e. cc)
account_cases (ApiRequest.card serial slot with_body) = inr (λ r e. cc)
account_cases (ApiRequest.store_card serial slot raw) = inr (λ r e. cc)
account_cases (ApiRequest.drop_card serial slot) = inr (λ r e. cc)

module _ (x : External) (s : Settings) where
  sign_in_users :
      (setup : Bool) (form : SignIn) (w : World) → SameUsers w (sign_in x setup form w).1
  unfolding sign_in Auth.login
  sign_in_users setup form w = ground arith

  needs_setup_users : (w : World) → SameUsers w (Auth.needs_setup w).1
  unfolding Auth.needs_setup
  needs_setup_users w = ground arith

  module _ (P : World → Type 0) (same : (w v : World) → SameUsers w v → P w → P v)
      (accounts : (token : Bytes) (req : AccountRequest) (w : World)
        → P w
        → P (serve_account x s.admin_token token req w).1)
      (set_up : (token username password : Bytes) (w : World)
        → P w
        → P (Auth.setup_first_admin x s.admin_token token username password w).1) where
    apart_keeps : (w v : World) → SameAccounts w v → P w → P v
    apart_keeps w v (users, sessions, next_id) = same w v (users, next_id)

    agrees_keeps :
        (cookie : Bytes) (page : PageRequest) (good : ℕ) (req : AccountRequest) (w : World)
        → StandsFor page good req
        → P w
        → P (serve_page x s.admin_token s.library_path (some cookie) page w).1
    agrees_keeps cookie page good req w stands h =
        let (state, there, back) =
          serve_page-Agrees x s.admin_token cookie s.library_path page good req w stands in
        same (serve_account x s.admin_token cookie req w).1
          (serve_page x s.admin_token s.library_path (some cookie) page w).1
          (ap (λ (v : World). v.users) state, ap (λ (v : World). v.next_id) state)
          (accounts cookie req w h)

    sign_in_or_set_up_keeps :
        (form : SignIn) (needs : Bool) (w : World)
        → P w
        → P (sign_in_or_set_up x s.admin_token form needs w).1
    unfolding sign_in_or_set_up
    sign_in_or_set_up_keeps form false w h =
        same w (sign_in x false form w).1 (sign_in_users false form w) h
    sign_in_or_set_up_keeps form true w h =
        let made =
          Auth.setup_first_admin x s.admin_token form.setup_token form.username form.password w in
        let held = set_up form.setup_token form.username form.password w h in
        elim (Result-cases made.0) [
          | inl (e, k) ↦
              same made.1 (sign_in_or_set_up x s.admin_token form true w).1 (ground arith) held
          | inr (u, k) ↦
              same made.1 (sign_in_or_set_up x s.admin_token form true w).1
                (ground (arith, sign_in_users true form made.1)) held
        ]

    login_keeps : (form : Option SignIn) (w : World) → P w → P (Web.login x s.admin_token form w).1
    unfolding Web.login
    login_keeps none w h = h
    login_keeps (some form) w h =
        let asked = Auth.needs_setup w in
        let v = (Web.login x s.admin_token (some form) w).1 in
        elim (Result-cases asked.0) [
          | inl (e, k) ↦ same w v (ground (arith, needs_setup_users w)) h
          | inr (needs, k) ↦
              same (sign_in_or_set_up x s.admin_token form needs asked.1).1 v (ground arith) (
                sign_in_or_set_up_keeps form needs asked.1 (same w asked.1 (needs_setup_users w) h))
        ]

    page_keeps :
        (cookie : Option Bytes) (page : PageRequest) (w : World)
        → P w
        → P (serve_page x s.admin_token s.library_path cookie page w).1
    unfolding serve_page Web.create_user Web.delete_user Web.reset_password
    page_keeps cookie PageRequest.library w =
        apart_keeps w (Web.library x cookie w).1 (Web.Apart.library-Apart x cookie w)
    page_keeps cookie (PageRequest.detail serial) w =
        apart_keeps w (Web.detail x serial cookie w).1 (Web.Apart.detail-Apart x serial cookie w)
    page_keeps cookie PageRequest.login_page w =
        apart_keeps w (Web.login_page x cookie w).1 (Web.Apart.login_page-Apart x cookie w)
    page_keeps cookie (PageRequest.login form) w = login_keeps form w
    page_keeps cookie PageRequest.logout w =
        same w (Web.logout x cookie w).1 (Web.Apart.logout_users x cookie w)
    page_keeps cookie PageRequest.scan w =
        apart_keeps w (Web.scan x s.library_path cookie w).1
          (Web.Apart.scan-Apart x s.library_path cookie w)
    page_keeps cookie PageRequest.users_page w =
        apart_keeps w (Web.users_page x cookie w).1 (Web.Apart.users_page-Apart x cookie w)
    page_keeps (some cookie) (PageRequest.create_user form) w =
        agrees_keeps cookie (PageRequest.create_user form) 201
          (AccountRequest.create_user (as_new_user form)) w (creates form)
    page_keeps (some cookie) (PageRequest.delete_user id) w =
        agrees_keeps cookie (PageRequest.delete_user id) 200 (AccountRequest.delete_user id) w
          (deletes id)
    page_keeps (some cookie) (PageRequest.reset_password id password) w =
        agrees_keeps cookie (PageRequest.reset_password id password) 200
          (AccountRequest.reset_password id password) w (resets id password)
    page_keeps none (PageRequest.create_user form) w =
        apart_keeps w (Web.create_user x form none w).1
          (Web.Apart.no_cookie-Apart x (Web.create_by x form) w)
    page_keeps none (PageRequest.delete_user id) w =
        apart_keeps w (Web.delete_user x id none w).1
          (Web.Apart.no_cookie-Apart x (λ me. Web.delete_by me (user_id_from (parse_int id))) w)
    page_keeps none (PageRequest.reset_password id password) w =
        apart_keeps w (Web.reset_password x id password none w).1
          (Web.Apart.no_cookie-Apart x (Web.reset_by x (user_id_from (parse_int id)) password) w)

    api_keeps :
        (token : Bytes) (req : ApiRequest) (w : World) → P w → P (serve_api x s token req w).1
    unfolding serve_api
    api_keeps token req w h = elim (account_cases req) [
      | inl (r, e) ↦
          subst (λ (q : ApiRequest). P (serve_api x s token q w).1) (sym e) (accounts token r w h)
      | inr n ↦ apart_keeps w (serve_api x s token req w).1 (serve_api-Apart x s token req n w) h
    ]

    pub step_keeps : (w v : World) → Step x s w v → P w → P v
    step_keeps u v (calls authorization cookie req w) h =
        api_keeps (token_from authorization cookie) req w h
    step_keeps u v (visits cookie req w) h = page_keeps cookie req w h
    step_keeps u v (passes later w k) h = same w (record w { now = later }) (refl, refl) h
    step_keeps u v (touches files w) h = same w (record w { files = files }) (refl, refl) h
    step_keeps u v (around faults torn randoms replies w) h =
        same w (record w { faults = faults; torn = torn; randoms = randoms; replies = replies })
          (refl, refl) h

    pub reach_keeps : (w v : World) → Reach x s w v → P w → P v
    reach_keeps u v (start w) h = h
    reach_keeps u v (next first w last reach step) h =
        step_keeps w last step (reach_keeps first w reach h)
