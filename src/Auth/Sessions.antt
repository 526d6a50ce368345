-- ===== src/Auth/Sessions.antt =====
-- Who a token stands for: what a login grants, and what logout, a new password and a deletion take
-- away.
use cache_22_server.Prelude.{
  sym, ap, ◌∙◌, ℕ, ◌+◌, Bool, not, Option, none, some, List, [], ◌∷◌, ◌≡◌, ◌≢◌, inl, inr, Bytes,
  ◌==◌, nat_eq, list_eq, list_beq_iff, beq_refl, arith, find_if, keep_if, find_if_sound,
  find_if-keep_if, Option-cases,
}
use cache_22_server.Entity.{User}
use cache_22_server.World.{World, SessionRow, ok, quiet}
use cache_22_server.External.{External}
use cache_22_server.Db.Sessions.{is_live}
use cache_22_server.Auth.{
  authenticate, login, logout, reset_password, begin_reset, finish_reset, delete_user, without_hash,
  session_ttl,
}
use cache_22_server.Db.Users.{normal_name}
use cache_22_server.Auth.Tables.{Ordered, has_id, has_name, find_by_id}

abbrev live_row : External → Bytes → World → Option SessionRow
live_row x token w = find_if (is_live x.sha256 token w.now) w.sessions

abbrev others : ℕ → List SessionRow → List SessionRow
others id = keep_if (λ (s : SessionRow). not (s.user_id == id))

keep_if_others :
    (id : ℕ) (p : SessionRow → Bool) (rows : List SessionRow) (s : SessionRow)
    → find_if p (others id rows) ≡ some s
    → s.user_id ≢ id
keep_if_others id p [] s e = cc
keep_if_others id p (r ∷ rows) s e = ground (arith, keep_if_others id p rows s)

delete_user_sessions :
    (id : ℕ) (w : World)
    → (delete_user id w).0 ≡ ok tt
    → (delete_user id w).1.sessions ≡ others id (others id w.sessions)
unfolding delete_user
delete_user_sessions id w h = ground arith

module _ (x : External) where
  reset_password_sessions :
      (id : ℕ) (password : Bytes) (w : World)
      → (reset_password x id password w).0 ≡ ok tt
      → (reset_password x id password w).1.sessions ≡ others id w.sessions
  unfolding reset_password begin_reset finish_reset
  reset_password_sessions id password w h = ground arith

  no_session :
      (token : Bytes) (u : User) (w : World)
      → live_row x token w ≡ none
      → (authenticate x token w).0 ≢ ok (some u)
  unfolding authenticate
  no_session token u w e h = ground arith

  no_account :
      (token : Bytes) (s : SessionRow) (u : User) (w : World)
      → live_row x token w ≡ some s
      → find_if (has_id s.user_id) w.users ≡ none
      → (authenticate x token w).0 ≢ ok (some u)
  unfolding authenticate
  no_account token s u w e f h = ground arith

  with_account :
      (token : Bytes) (s : SessionRow) (u v : User) (w : World)
      → live_row x token w ≡ some s
      → find_if (has_id s.user_id) w.users ≡ some v
      → (authenticate x token w).0 ≡ ok (some u)
      → (s.user_id ≡ u.id) × (u.password_hash ≡ [])
  unfolding authenticate
  with_account token s u v w e f h = ground (arith, find_if_sound (has_id s.user_id) w.users v f)

  same_account :
      (token : Bytes) (s : SessionRow) (u v : User) (w : World)
      → live_row x token w ≡ some s
      → find_if (has_id s.user_id) w.users ≡ some v
      → (authenticate x token w).0 ≡ ok (some u)
      → (find_if (has_id u.id) w.users ≡ some v) × (v.is_admin ≡ u.is_admin)
  unfolding authenticate
  same_account token s u v w e f h = ground (arith, find_if_sound (has_id s.user_id) w.users v f)

  -- A token that authenticates has a live session of that user, and the answer hides the hash.
  pub authenticate_sound :
      (token : Bytes) (u : User) (w : World)
      → (authenticate x token w).0 ≡ ok (some u)
      → (s : SessionRow) × (find_if (is_live x.sha256 token w.now) w.sessions ≡ some s)
        × (s.user_id ≡ u.id)
        × (u.password_hash ≡ [])
  authenticate_sound token u w h = elim (Option-cases (live_row x token w)) [
    | inl e ↦ absurd (no_session token u w e h)
    | inr (s, e) ↦ elim (Option-cases (find_if (has_id s.user_id) w.users)) [
      | inl f ↦ absurd (no_account token s u w e f h)
      | inr (v, f) ↦ let (own, hidden) = with_account token s u v w e f h in (s, e, own, hidden)
    ]
  ]

  -- The user that a token stands for is an account, with its flag.
  pub authenticate_account :
      (token : Bytes) (u : User) (w : World)
      → (authenticate x token w).0 ≡ ok (some u)
      → (v : User) × (find_if (has_id u.id) w.users ≡ some v) × (v.is_admin ≡ u.is_admin)
  authenticate_account token u w h = elim (Option-cases (live_row x token w)) [
    | inl e ↦ absurd (no_session token u w e h)
    | inr (s, e) ↦ elim (Option-cases (find_if (has_id s.user_id) w.users)) [
      | inl f ↦ absurd (no_account token s u w e f h)
      | inr (v, f) ↦ let (found, flag) = same_account token s u v w e f h in (v, found, flag)
    ]
  ]

  -- After a logout the token stands for nobody.
  pub logout_ends :
      (token : Bytes) (w : World)
      → (authenticate x token (quiet (logout x token (quiet w)).1)).0 ≡ ok none
  unfolding authenticate logout
  logout_ends token w = ground (
    arith,
    find_if-keep_if (is_live x.sha256 token w.now)
        (λ (s : SessionRow). not (s.token_hash == x.sha256 token)) w.sessions (λ s e. ground arith),
  )

  -- No session of the user is left.
  abbrev Evicted : ℕ → World → Type 0
  Evicted id w =
      (p : SessionRow → Bool) (s : SessionRow) → find_if p w.sessions ≡ some s → s.user_id ≢ id

  Evicted-authenticate :
      (id : ℕ) (token : Bytes) (u : User) (w : World)
      → Evicted id w
      → (authenticate x token w).0 ≡ ok (some u)
      → u.id ≢ id
  Evicted-authenticate id token u w gone h same =
      let (s, e, own, hidden) = authenticate_sound token u w h in
      gone (is_live x.sha256 token w.now) s e (own ∙ same)

  -- After a new password no token stands for that user any more, until the next login.
  pub reset_password_ends :
      (id : ℕ) (password token : Bytes) (u : User) (w : World)
      → (reset_password x id password w).0 ≡ ok tt
      → (authenticate x token (reset_password x id password w).1).0 ≡ ok (some u)
      → u.id ≢ id
  reset_password_ends id password token u w h =
      Evicted-authenticate id token u (reset_password x id password w).1 (λ p s e.
        keep_if_others id p w.sessions s
          (ap (find_if p) (sym (reset_password_sessions id password w h)) ∙ e))

  -- Nor after the user was deleted.
  pub delete_user_ends :
      (id : ℕ) (token : Bytes) (u : User) (w : World)
      → (delete_user id w).0 ≡ ok tt
      → (authenticate x token (delete_user id w).1).0 ≡ ok (some u)
      → u.id ≢ id
  delete_user_ends id token u w h = Evicted-authenticate id token u (delete_user id w).1 (λ p s e.
      keep_if_others id p (others id w.sessions) s
        (ap (find_if p) (sym (delete_user_sessions id w h)) ∙ e))

  pub login_session :
      (username password token : Bytes) (u : User) (w : World)
      → (login x username password w).0 ≡ ok (token, u)
      → (v : User) × (find_if (has_name (normal_name username)) w.users ≡ some v)
        × (u ≡ without_hash v)
        × ((login x username password w).1.users ≡ w.users)
        × ((login x username password w).1.now ≡ w.now)
        × ((login x username password w).1.sessions
            ≡ record {
              token_hash = x.sha256 token;
              user_id = v.id;
              expires_at = w.now + session_ttl;
            }
              ∷ w.sessions)
  unfolding login
  login_session username password token u w h =
      elim (Option-cases (find_if (has_name (normal_name username)) w.users)) [
        | inl e ↦ absurd (ground arith)
        | inr (v, e) ↦ (v, e, ground arith, ground arith, ground arith, ground arith)
      ]

  -- The token of a login stands for that user, where the table is in order.
  pub login_authenticates :
      (username password token : Bytes) (u : User) (w : World)
      → Ordered 0 w.next_id w.users
      → token ≢ []
      → (login x username password w).0 ≡ ok (token, u)
      → (authenticate x token (quiet (login x username password w).1)).0 ≡ ok (some u)
  unfolding authenticate
  login_authenticates username password token u w o t h =
      let (v, e, shown, users, now, sessions) = login_session username password token u w h in
      ground (
        arith,
        e,
        shown,
        users,
        now,
        sessions,
        beq_refl (x.sha256 token),
        list_beq_iff nat_eq token [],
        find_by_id (has_name (normal_name username)) 0 w.next_id w.users v o e,
      )
