-- ===== src/Db/Sessions.antt =====
-- internal/infra/db/session_repository.go. `sha256` is hashToken, a parameter; tokens are stored
-- hashed only.
use cache_22_server.Prelude.{
  ℕ, ◌+◌, Bool, not, Option, none, some, ◌∷◌, Bytes, keep_if, find_if, exists_if, ltb, leb, ◌==◌,
  nat_eq, list_eq, ◌&&◌, if◌then◌else◌, ◌||◌,
}
use cache_22_server.Entity.{User}
use cache_22_server.World.{SessionRow, Action, ok, err, constraint, attempt, gets, modify, ◌>>◌}

abbrev pub owner : Option SessionRow → Option ℕ
owner none = none
owner (some s) = some s.user_id

module _ (sha256 : Bytes → Bytes) where
  -- The token is the primary key, and the user must be there.
  unfoldable pub insert_session : SessionRow → Action (Unit {0})
  insert_session row w =
      if exists_if (λ (s : SessionRow). s.token_hash == row.token_hash) w.sessions
        || not (exists_if (λ (u : User). u.id == row.user_id) w.users)
      then (err constraint, w)
      else (ok tt, record w { sessions = row ∷ w.sessions })

  unfoldable pub create : Bytes → ℕ → ℕ → Action (Unit {0})
  unfolding attempt insert_session
  create token user_id ttl w =
      (attempt
          >> insert_session
              (record { token_hash = sha256 token; user_id = user_id; expires_at = w.now + ttl }))
        w

  -- `token_hash = $1 AND expires_at > NOW()`
  abbrev pub is_live : Bytes → ℕ → SessionRow → Bool
  is_live token now s = s.token_hash == sha256 token && ltb now s.expires_at

  -- `none` where no row fits
  unfoldable pub user_id : Bytes → Action (Option ℕ)
  unfolding attempt
  user_id token = attempt >> gets (λ w. owner (find_if (is_live token w.now) w.sessions))

  unfoldable pub revoke : Bytes → Action (Unit {0})
  unfolding attempt
  revoke token =
      attempt
      >> modify λ w. record w {
        sessions = keep_if (λ (s : SessionRow). not (s.token_hash == sha256 token)) w.sessions;
      }

unfoldable pub revoke_user : ℕ → Action (Unit {0})
unfolding attempt
revoke_user id =
    attempt
    >> modify
        λ w. record w { sessions = keep_if (λ (s : SessionRow). not (s.user_id == id)) w.sessions }

-- `expires_at <= NOW()` goes.
unfoldable pub sweep : Action (Unit {0})
unfolding attempt
sweep =
    attempt
    >> modify λ w. record w {
      sessions = keep_if (λ (s : SessionRow). not (leb s.expires_at w.now)) w.sessions;
    }
