-- ===== src/Guard/Access.antt =====
-- requireAuth and requireAdmin of internal/handler/http/auth.go: for whom a handler runs.
use cache_22_server.Prelude.{
  true, false, none, some, ◌≡◌, ◌⊎◌, inl, inr, Bytes, arith, find_if, subst, Option-cases,
  Bool-cases, ap, ◌∙◌,
}
use cache_22_server.Entity.{User}
use cache_22_server.World.{Result-cases, World, SessionRow, Error, Proc, ok, err}
use cache_22_server.External.{External}
use cache_22_server.Http.{Response}
use cache_22_server.Db.Sessions.{is_live}
use cache_22_server.Auth.{authenticate}
use cache_22_server.Auth.Sessions.{authenticate_sound}
use cache_22_server.Guard.{require_admin, require_auth}

-- Only the schedule of faults may differ.
abbrev pub SameState : World → World → Type 0
SameState w w' =
    (w'.users ≡ w.users)
    × (w'.sessions ≡ w.sessions)
    × (w'.games ≡ w.games)
    × (w'.covers ≡ w.covers)
    × (w'.saves ≡ w.saves)
    × (w'.files ≡ w.files)
    × (w'.uploads ≡ w.uploads)
    × (w'.next_id ≡ w.next_id)

-- A refusal: its code, and nothing changed.
abbrev pub Refused : World → Response × World → Type 0
Refused w (r, w') = ((r.code ≡ 401) ⊎ (r.code ≡ 403) ⊎ (r.code ≡ 500)) × SameState w w'

-- The user stands behind the token by a live session.
abbrev pub Owns : External → World → Bytes → User → Type 0
Owns x w token u =
    (s : SessionRow) × (find_if (is_live x.sha256 token w.now) w.sessions ≡ some s)
    × (s.user_id ≡ u.id)

pub authenticate_same :
    (x : External) (token : Bytes) (w : World) → SameState w (authenticate x token w).1
unfolding authenticate
authenticate_same x token w = ground arith

run_unknown :
    (x : External) (next : User → Proc Response) (token : Bytes) (w : World)
    → (authenticate x token w).0 ≡ ok none
    → Refused w (require_admin x next token w)
unfolding require_admin
run_unknown x next token w e = ground (arith, authenticate_same x token w)

run_failed :
    (x : External) (next : User → Proc Response) (token : Bytes) (c : Error) (w : World)
    → (authenticate x token w).0 ≡ err c
    → Refused w (require_admin x next token w)
unfolding require_admin
run_failed x next token c w e = ground (arith, authenticate_same x token w)

run_plain_user :
    (x : External) (next : User → Proc Response) (token : Bytes) (u : User) (w : World)
    → (authenticate x token w).0 ≡ ok (some u)
    → u.is_admin ≡ false
    → Refused w (require_admin x next token w)
unfolding require_admin
run_plain_user x next token u w e h = ground (arith, authenticate_same x token w)

run_admin :
    (x : External) (next : User → Proc Response) (token : Bytes) (u : User) (w : World)
    → (authenticate x token w).0 ≡ ok (some u)
    → u.is_admin ≡ true
    → require_admin x next token w ≡ next u (authenticate x token w).1
unfolding require_admin
run_admin x next token u w e h = ground arith

-- An administrator's handler is refused, or it runs for a user with the flag `is_admin` who owns a
-- live session under the token.
pub require_admin_guards :
    (x : External) (next : User → Proc Response) (token : Bytes) (w : World)
    → Refused w (require_admin x next token w)
      ⊎ ((u : User) × (u.is_admin ≡ true)
          × ((authenticate x token w).0 ≡ ok (some u))
          × Owns x w token u
          × (require_admin x next token w ≡ next u (authenticate x token w).1))
require_admin_guards x next token w = elim (Result-cases (authenticate x token w).0) [
  | inl (c, e) ↦ inl (run_failed x next token c w e)
  | inr (o, e) ↦ elim (Option-cases o) [
    | inl n ↦ inl (run_unknown x next token w (e ∙ ap ok n))
    | inr (u, n) ↦ elim (Bool-cases u.is_admin) [
      | inl t ↦
          let (s, live, own, hidden) = authenticate_sound x token u w (e ∙ ap ok n) in
          inr (u, t, e ∙ ap ok n, (s, live, own), run_admin x next token u w (e ∙ ap ok n) t)
      | inr f ↦ inl (run_plain_user x next token u w (e ∙ ap ok n) f)
    ]
  ]
]

-- What holds of the state behind every session check holds behind requireAuth, if the handler
-- keeps it.
pub require_auth_keeps :
    (x : External) (P : World → Type 0) (next : User → Proc Response) (token : Bytes) (w : World)
    → ((w' : World) → SameState w w' → P w')
    → ((u : User) (w' : World) → P w' → P (next u w').1)
    → P (require_auth x next token w).1
unfolding require_auth
require_auth_keeps x P next token w base keeps =
    let w' = (authenticate x token w).1 in
    let held = base w' (authenticate_same x token w) in
    elim (Result-cases (authenticate x token w).0) [
      | inl (c, e) ↦ subst P (ground arith) held
      | inr (o, e) ↦ elim (Option-cases o) [
        | inl n ↦ subst P (ground arith) held
        | inr (u, n) ↦ subst P (ground arith) (keeps u w' held)
      ]
    ]

-- A guarded handler that leaves the users alone does so behind requireAuth.
pub require_auth_users :
    (x : External) (next : User → Proc Response) (token : Bytes) (w : World)
    → ((u : User) (w' : World) → (next u w').1.users ≡ w'.users)
    → (require_auth x next token w).1.users ≡ w.users
unfolding require_auth
require_auth_users x next token w f =
    let w' = (authenticate x token w).1 in
    elim (Result-cases (authenticate x token w).0) [
      | inl (c, e) ↦ ground (arith, authenticate_same x token w)
      | inr (o, e) ↦ elim (Option-cases o) [
        | inl n ↦ ground (arith, authenticate_same x token w)
        | inr (u, n) ↦ ground (arith, authenticate_same x token w, f u w')
      ]
    ]
