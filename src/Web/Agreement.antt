-- ===== src/Web/Agreement.antt =====
-- The pages of accounts against the handlers of internal/handler/http/admin.go.
use cache_22_server.Prelude.{
  Option, none, some, ◌≡◌, ◌⊎◌, refl, inl, inr, Bytes, arith, Option-cases, ◌==◌, codes, nat_eq,
  list_eq, ℕ,
}
use Prim.Native.String.{String}
use cache_22_server.Go.Number.{parse_int}
use cache_22_server.Go.FilePath.{FilePath}
use cache_22_server.Entity.{User}
use cache_22_server.World.{World, Proc, Result-cases}
use cache_22_server.External.{External}
use cache_22_server.Http.{Response}
use cache_22_server.Auth
use cache_22_server.Auth.{authenticate}
use cache_22_server.Guard.{require_admin}
use cache_22_server.Accounts.{
  delete_row, reset_row, admin_delete_user, admin_reset_password, admin_create_user, NewUser,
  AccountRequest, serve_account, user_id_from, create_refusal,
}
use cache_22_server.Accounts
use cache_22_server.Web.Routes.{PageRequest, serve_page}
use cache_22_server.Web.{
  Page, Answer, NewAccount, users_with, require_admin_page, friendly_auth_err,
}
use cache_22_server.Web

-- Up to the calls that have failed, the page leaves what the handler leaves, and it leads back to
-- the list of users exactly where the handler succeeds.
abbrev pub Agrees : ℕ → Answer × World → Response × World → Type 0
Agrees good (a, v) (r, v') =
    (v ≡ record v' { faults = v.faults })
    × (a.page ≡ Page.redirect (codes "/admin/users") → r.code ≡ good)
    × (r.code ≡ good → a.page ≡ Page.redirect (codes "/admin/users"))

-- The form of the page as the body of the request; the checkbox is sent as `on`.
abbrev pub as_new_user : Option NewAccount → Option NewUser
as_new_user none = none
as_new_user (some form) = some (record {
  username = form.username;
  password = form.password;
  is_admin = form.is_admin == codes "on";
})

-- The pages that change accounts, the requests for accounts that they stand for, and the code of
-- their success.
pub data StandsFor : PageRequest → ℕ → AccountRequest → Type 0 where
  creates :
      (form : Option NewAccount)
      → StandsFor (PageRequest.create_user form) 201 (AccountRequest.create_user (as_new_user form))
  deletes :
      (id : Bytes) → StandsFor (PageRequest.delete_user id) 200 (AccountRequest.delete_user id)
  resets :
      (id : Bytes) (password : Option Bytes)
      → StandsFor
          (PageRequest.reset_password id password)
          200
          (AccountRequest.reset_password id password)

users_with_same :
    (me : User) (message : String) (w : World)
    → (users_with me message w).1 ≡ record w { faults = (users_with me message w).1.faults }
unfolding users_with Auth.list_users
users_with_same me message w = ground arith

delete_by-Agrees :
    (me : User) (id : Option (Option ℕ)) (w : World)
    → Agrees 200 (Web.delete_by me id w) (Accounts.delete_by me id w)
unfolding Web.delete_by Accounts.delete_by
delete_by-Agrees me none w = ground arith
delete_by-Agrees me (some id) w = ground arith

module _ (x : External) where
  create_by-Agrees :
      (form : Option NewAccount) (me : User) (w : World)
      → Agrees 201 (Web.create_by x form me w) (admin_create_user x (as_new_user form) w)
  unfolding Web.create_by admin_create_user
  create_by-Agrees none me w = ground arith
  create_by-Agrees (some form) me w =
      let made = Auth.create_user x form.username form.password (form.is_admin == codes "on") w in
      elim (Result-cases made.0) [
        | inl (e, h) ↦ ground (arith, users_with_same me (friendly_auth_err e) made.1)
        | inr (u, h) ↦ ground arith
      ]

  reset_by-Agrees :
      (id : Option (Option ℕ)) (password : Option Bytes) (me : User) (w : World)
      → Agrees 200 (Web.reset_by x id password me w) (Accounts.reset_by x id password w)
  unfolding Web.reset_by Accounts.reset_by
  reset_by-Agrees none password me w = ground arith
  reset_by-Agrees (some id) none me w = ground arith
  reset_by-Agrees (some id) (some password) me w =
      let made = reset_row x id password w in
      elim (Result-cases made.0) [
        | inl (e, h) ↦ ground (arith, users_with_same me (friendly_auth_err e) made.1)
        | inr (u, h) ↦ ground arith
      ]

  admin_page-Agrees :
      (good : ℕ) (page : User → Proc Answer) (next : User → Proc Response) (cookie : Bytes)
      (w : World)
      → ((u : User) (w' : World) → Agrees good (page u w') (next u w'))
      → (good ≡ 200) ⊎ (good ≡ 201)
      → Agrees good (require_admin_page x page (some cookie) w) (require_admin x next cookie w)
  unfolding require_admin_page require_admin
  admin_page-Agrees good page next cookie w agrees range =
      let found = authenticate x cookie w in
      elim (Result-cases found.0) [
        | inl (e, h) ↦ ground arith
        | inr (o, h) ↦ elim (Option-cases o) [
          | inl n ↦ ground arith
          | inr (u, n) ↦ ground (arith, agrees u found.1)
        ]
      ]

  -- A page that changes accounts, under a cookie, does what the handler of the API does under the
  -- cookie's value as its token: they leave the same state, up to the schedule of faults, and the
  -- page leads back to the list of users exactly where the handler answers its success.
  pub serve_page-Agrees :
      (expected cookie : Bytes) (dir : FilePath) (page : PageRequest) (good : ℕ)
      (req : AccountRequest) (w : World)
      → StandsFor page good req
      → Agrees good
          (serve_page x expected dir (some cookie) page w)
          (serve_account x expected cookie req w)
  unfolding serve_page serve_account Web.create_user Web.delete_user Web.reset_password
      admin_delete_user admin_reset_password
  serve_page-Agrees expected cookie dir page good req w (creates form) =
      admin_page-Agrees 201 (Web.create_by x form) (λ u. admin_create_user x (as_new_user form))
        cookie w (create_by-Agrees form) (inr refl)
  serve_page-Agrees expected cookie dir page good req w (deletes id) =
      admin_page-Agrees 200 (λ me. Web.delete_by me (user_id_from (parse_int id)))
        (λ u. admin_delete_user u id) cookie w
        (λ me. delete_by-Agrees me (user_id_from (parse_int id))) (inl refl)
  serve_page-Agrees expected cookie dir page good req w (resets id password) =
      admin_page-Agrees 200 (Web.reset_by x (user_id_from (parse_int id)) password)
        (λ u. admin_reset_password x id password) cookie w
        (reset_by-Agrees (user_id_from (parse_int id)) password) (inl refl)
