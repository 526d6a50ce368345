-- ===== src/Auth/Race.antt =====
-- A login that runs before the last call of ResetPassword.
use cache_22_server.Prelude.{
  ℕ, some, [], ◌≡◌, ◌≢◌, refl, Bytes, arith, nat_eq, list_eq, list_beq_iff, beq_refl, ap, sym, ◌∙◌,
  find_if,
}
use cache_22_server.Entity.{User}
use cache_22_server.World.{World, ok, quiet, attempt, read_random}
use cache_22_server.External.{External}
use cache_22_server.Db.Users.{normal_name, update_user}
use cache_22_server.Db
use cache_22_server.Auth.{authenticate, login, begin_reset, finish_reset, hash_password}
use cache_22_server.Auth.Sessions.{login_session}
use cache_22_server.Auth.Tables.{Ordered, has_name, find_by_id, find_if_update}

begin_reset_users :
    (x : External) (id : ℕ) (new : Bytes) (w : World)
    → ((begin_reset x id new w).1.users ≡ w.users)
      × ((begin_reset x id new w).1.next_id ≡ w.next_id)
unfolding begin_reset hash_password attempt read_random Db.Sessions.revoke_user
begin_reset_users x id new w = ground arith

finish_reset_lem :
    (id : ℕ) (hash : Bytes) (w : World)
    → (finish_reset id hash w).0 ≡ ok tt
    → ((finish_reset id hash w).1.users
        ≡ update_user id (λ u. record u { password_hash = hash }) w.users)
      × ((finish_reset id hash w).1.sessions ≡ w.sessions)
      × ((finish_reset id hash w).1.now ≡ w.now)
unfolding finish_reset attempt Db.Users.set_password
finish_reset_lem id hash w e = ground (arith, e)

-- A reset of a password is begun, which ends the sessions of the user and leaves only the call of
-- SetPassword; then the user logs in with the old password; then the reset makes that call. Where the
-- users stand in the order of their ids, all three succeed, the token of the login is not empty and no
-- call of authenticate fails, the token still authenticates as that user.
pub login_outlives_reset :
    (x : External) (id : ℕ) (username old new hash token : Bytes) (u : User) (w : World)
    → Ordered 0 w.next_id w.users
    → token ≢ []
    → (begin_reset x id new w).0 ≡ ok hash
    → let w1 = (begin_reset x id new w).1 in
      let w2 = (login x username old w1).1 in
      (login x username old w1).0 ≡ ok (token, u)
      → u.id ≡ id
      → (finish_reset id hash w2).0 ≡ ok tt
      → (authenticate x token (quiet (finish_reset id hash w2).1)).0 ≡ ok (some u)
unfolding authenticate
login_outlives_reset x id username old new hash token u w o t begun h own finished =
    let w1 = (begin_reset x id new w).1 in
    let w2 = (login x username old w1).1 in
    let (v, e, shown, users, now, sessions) = login_session x username old token u w1 h in
    let (kept, next) = begin_reset_users x id new w in
    let (changed, same, clock) = finish_reset_lem id hash w2 finished in
    let e' = ap (find_if (has_name (normal_name username))) (sym kept) ∙ e in
    ground (
      arith,
      e',
      shown,
      users,
      now,
      sessions,
      kept,
      changed,
      same,
      clock,
      beq_refl (x.sha256 token),
      list_beq_iff nat_eq token [],
      find_by_id (has_name (normal_name username)) 0 w.next_id w.users v o e',
      find_if_update id v.id (λ u. record u { password_hash = hash }) w.users v (λ u. refl),
    )
