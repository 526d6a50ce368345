-- ===== src/Web/Login.antt =====
-- POST /login of internal/handler/web/handler.go, and the cookie that it sets.
use cache_22_server.Prelude.{
  true, false, Option, none, some, [], ◌≡◌, ◌≢◌, refl, sym, subst, inl, inr, Bytes, arith,
  list_beq_iff, find_if_sound, list_eq, nat_eq, Bool,
}
use cache_22_server.Entity.{User}
use cache_22_server.World.{World, Result-cases, ok, quiet}
use cache_22_server.External.{External}
use cache_22_server.Db.Users.{normal_name}
use cache_22_server.Auth
use cache_22_server.Auth.Tables.{has_name}
use cache_22_server.Auth.Sessions.{login_session, login_authenticates}
use cache_22_server.Accounts.Order.{InOrder}
use cache_22_server.Accounts.Logins.{setup_first-InOrder}
use cache_22_server.Web.{
  Answer, SignIn, CookieChange, set_cookie, current_user, sign_in, sign_in_or_set_up,
}
use cache_22_server.Web

-- The cookie of the answer is a token of that user, who signs in with it.
abbrev pub SignsIn : External → Bytes → Bytes → World → Type 0
SignsIn x token name w =
    (u : User) × ((current_user x (some token) (quiet w)).0 ≡ some u) × (u.username ≡ name)

SignsIn-same :
    (x : External) (token name : Bytes) (v w : World)
    → v ≡ w
    → SignsIn x token name w
    → SignsIn x token name v
SignsIn-same x token name v w e = subst (SignsIn x token name) (sym e)

needs_setup-InOrder : (w : World) → InOrder w → InOrder (Auth.needs_setup w).1
unfolding Auth.needs_setup
needs_setup-InOrder w o = ground arith

module _ (x : External) where
  sign_in_cookie :
      (setup : Bool) (form : SignIn) (token : Bytes) (w : World)
      → (sign_in x setup form w).0.cookie ≡ set_cookie token
      → (u : User) × ((Auth.login x form.username form.password w).0 ≡ ok (token, u))
        × ((sign_in x setup form w).1 ≡ (Auth.login x form.username form.password w).1)
  unfolding sign_in
  sign_in_cookie setup form token w h =
      elim (Result-cases (Auth.login x form.username form.password w).0) [
        | inl (e, k) ↦ absurd (ground arith)
        | inr ((t, u), k) ↦ (u, ground arith, ground arith)
      ]

  login_named :
      (username password token : Bytes) (u : User) (w : World)
      → (Auth.login x username password w).0 ≡ ok (token, u)
      → u.username ≡ normal_name username
  login_named username password token u w h =
      let (v, found, shown, users, now, sessions) = login_session x username password token u w h in
      ground (
        arith,
        shown,
        list_beq_iff nat_eq v.username (normal_name username),
        find_if_sound (has_name (normal_name username)) w.users v found,
      )

  sign_in-SignsIn :
      (setup : Bool) (form : SignIn) (token : Bytes) (w : World)
      → InOrder w
      → token ≢ []
      → (sign_in x setup form w).0.cookie ≡ set_cookie token
      → SignsIn x token (normal_name form.username) (sign_in x setup form w).1
  unfolding current_user
  sign_in-SignsIn setup form token w o t h =
      let (u, done, same) = sign_in_cookie setup form token w h in
      let own = login_authenticates x form.username form.password token u w o t done in
      subst (SignsIn x token (normal_name form.username)) (sym same)
        (u, ground (arith, own), login_named form.username form.password token u w done)

  module _ (expected : Bytes) where
    sign_in_or_set_up-SignsIn :
        (form : SignIn) (needs : Bool) (token : Bytes) (w : World)
        → InOrder w
        → token ≢ []
        → (sign_in_or_set_up x expected form needs w).0.cookie ≡ set_cookie token
        → SignsIn x token (normal_name form.username) (sign_in_or_set_up x expected form needs w).1
    unfolding sign_in_or_set_up
    sign_in_or_set_up-SignsIn form false token w o t h = sign_in-SignsIn false form token w o t h
    sign_in_or_set_up-SignsIn form true token w o t h =
        let made =
          Auth.setup_first_admin x expected form.setup_token form.username form.password w in
        elim (Result-cases made.0) [
          | inl (e, k) ↦ absurd (ground arith)
          | inr (u, k) ↦
              SignsIn-same x token (normal_name form.username)
                (sign_in_or_set_up x expected form true w).1 (sign_in x true form made.1).1
                (ground arith)
                (sign_in-SignsIn true form token made.1
                  (setup_first-InOrder x expected form.setup_token form.username form.password w o)
                  t (ground arith))
        ]

    -- Whatever calls fail, if the table of users is in order and the form is answered with a cookie
    -- that is not empty, be it after a setup or not, then where no call fails the cookie is that of
    -- a signed-in user, whose name is the one in the form, trimmed and in lower case.
    pub login-SignsIn :
        (form : Option SignIn) (token : Bytes) (w : World)
        → InOrder w
        → token ≢ []
        → (Web.login x expected form w).0.cookie ≡ set_cookie token
        → (f : SignIn) × (form ≡ some f)
          × SignsIn x token (normal_name f.username) (Web.login x expected form w).1
    unfolding Web.login
    login-SignsIn none token w o t h = absurd (ground arith)
    login-SignsIn (some form) token w o t h = elim (Result-cases (Auth.needs_setup w).0) [
      | inl (e, k) ↦ absurd (ground arith)
      | inr (needs, k) ↦ (
        form,
        refl,
        SignsIn-same x token (normal_name form.username) (Web.login x expected (some form) w).1
            (sign_in_or_set_up x expected form needs (Auth.needs_setup w).1).1 (ground arith)
            (sign_in_or_set_up-SignsIn form needs token (Auth.needs_setup w).1
              (needs_setup-InOrder w o) t (ground arith)),
      )
    ]
