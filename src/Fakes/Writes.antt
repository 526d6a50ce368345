-- ===== src/Fakes/Writes.antt =====
-- The calls that change the fakes of internal/testutil/fakes.go, and the statements that they stand for.
use cache_22_server.Prelude.{
  ℕ, suc, Bool, [], ◌∷◌, ◌++◌, refl, ap, ◌∙◌, Bytes, nat_eq, list_eq, arith,
}
use cache_22_server.Entity.{User}
use cache_22_server.World.{World, ok}
use cache_22_server.Db
use cache_22_server.Db.Schema.{Statement, execute}
use cache_22_server.Db.Schema.Kept.{execute-WellFormed}
use cache_22_server.Db.Sessions.{owner}
use cache_22_server.Fakes
use cache_22_server.Fakes.Users.{FakeUsers, or_no_rows}
use cache_22_server.Fakes.Tables.{undated, undated_if}
use cache_22_server.Fakes.Tokens.{keep_if_none}
use cache_22_server.Fakes.Calls.{
  Call, Given, FakeState, undated_result, call_db, call_fakes, Allowed,
}
use cache_22_server.Fakes.Maps.{
  made, Stands-same, create-Stands, delete-Stands, store-Stands, found_by_id,
}
use cache_22_server.Fakes.Rows.{
  Injective, create-StandsFor, revoke-StandsFor, revoke_user-StandsFor, same-StandsFor,
}
use cache_22_server.Fakes.Reads.{Agree, Step, ids_below, found_user}
use cache_22_server.Fakes.Effects.{
  create_effect, change_effect, flag_effect, delete_effect, session_effect, revoke_effect,
  revoke_user_effect,
}

module _ (IsToken : Bytes → Type 0) (sha256 : Bytes → Bytes)
    (injective : Injective IsToken sha256) where
  pub create-Step :
      (name hash : Bytes) (admin : Bool) (w : World) (s : FakeState)
      → Agree IsToken sha256 injective w s
      → Allowed IsToken sha256 (Call.create_user name hash admin) w
      → Step IsToken sha256 injective (Call.create_user name hash admin) w s
  unfolding call_db call_fakes execute Fakes.Users.create
  create-Step name hash admin w (f, uids) a (normal, free) =
      let v = (Db.Users.create name hash admin w).1 in
      let (given, users, next, sessions, (calm, now)) =
        create_effect name hash admin w a.calm normal free in
      let made_at : ℕ → User = λ n. record (made name hash admin w.now f) { id = n } in
      (
        ap Given.account
            (ap undated_result given ∙ ap (λ n. ok (undated (made_at n))) a.users.next_id),
        record {
          calm = calm;
          rows = execute-WellFormed sha256 (Statement.create_user name hash admin) w a.rows;
          users =
              create-Stands w v f name hash admin w.now a.users
                (ids_below 0 w.next_id (suc f.next) w.users a.rows.ids
                  (omega (arith, a.users.next_id)))
                free (users ∙ ap (λ n. w.users ++ made_at n ∷ []) a.users.next_id)
                (next ∙ ap suc a.users.next_id);
          sessions = same-StandsFor IsToken sha256 w v uids a.sessions now sessions;
        },
      )

  pub delete-Step :
      (id : ℕ) (w : World) (s : FakeState)
      → Agree IsToken sha256 injective w s
      → Allowed IsToken sha256 (Call.delete_user id) w
      → Step IsToken sha256 injective (Call.delete_user id) w s
  unfolding call_db call_fakes execute
  delete-Step id w (f, uids) a (there, idle) =
      let v = (Db.Users.delete id w).1 in
      let (given, users, next, sessions, (calm, now)) = delete_effect id w a.calm in
      let (u, found) = found_user id w.users there in
      (
        ap Given.done given,
        record {
          calm = calm;
          rows = execute-WellFormed sha256 (Statement.delete_user id) w a.rows;
          users = delete-Stands w v f id u a.users a.rows found users next;
          sessions =
              same-StandsFor IsToken sha256 w v uids a.sessions now
                (sessions ∙ keep_if_none id w.sessions idle);
        },
      )

  pub set_password-Step :
      (id : ℕ) (hash : Bytes) (w : World) (s : FakeState)
      → Agree IsToken sha256 injective w s
      → Allowed IsToken sha256 (Call.set_password id hash) w
      → Step IsToken sha256 injective (Call.set_password id hash) w s
  unfolding call_db call_fakes execute Fakes.Users.set_password
  set_password-Step id hash w (f, uids) a there =
      let v = (Db.Users.set_password id hash w).1 in
      let (given, users, next, sessions, (calm, now)) = change_effect id hash w a.calm in
      let (u, found) = found_user id w.users there in
      let held = found_by_id w f id a.users ∙ ap undated_if found in
      (
        ap Given.done given,
        record {
          calm = calm;
          rows = execute-WellFormed sha256 (Statement.set_password id hash) w a.rows;
          users = rw held (
              store-Stands w v f id (λ t. record t { password_hash = hash }) u a.users a.rows found
                refl refl users next);
          sessions = same-StandsFor IsToken sha256 w v uids a.sessions now sessions;
        },
      )

  pub set_admin-Step :
      (id : ℕ) (admin : Bool) (w : World) (s : FakeState)
      → Agree IsToken sha256 injective w s
      → Allowed IsToken sha256 (Call.set_admin id admin) w
      → Step IsToken sha256 injective (Call.set_admin id admin) w s
  unfolding call_db call_fakes execute Fakes.Users.set_admin
  set_admin-Step id admin w (f, uids) a there =
      let v = (Db.Users.set_admin id admin w).1 in
      let (given, users, next, sessions, (calm, now)) = flag_effect id admin w a.calm in
      let (u, found) = found_user id w.users there in
      let held = found_by_id w f id a.users ∙ ap undated_if found in
      (
        ap Given.done given,
        record {
          calm = calm;
          rows = execute-WellFormed sha256 (Statement.set_admin id admin) w a.rows;
          users = rw held (
              store-Stands w v f id (λ t. record t { is_admin = admin }) u a.users a.rows found refl
                refl users next);
          sessions = same-StandsFor IsToken sha256 w v uids a.sessions now sessions;
        },
      )

  pub create_session-Step :
      (token : Bytes) (id ttl : ℕ) (w : World) (s : FakeState)
      → Agree IsToken sha256 injective w s
      → Allowed IsToken sha256 (Call.create_session token id ttl) w
      → Step IsToken sha256 injective (Call.create_session token id ttl) w s
  unfolding call_db call_fakes execute
  create_session-Step token id ttl w (f, uids) a (k, new, there, later) =
      let v = (Db.Sessions.create sha256 token id ttl w).1 in
      let (given, sessions, (users, next), (calm, now)) =
        session_effect sha256 token id ttl w a.calm new there in
      (
        ap Given.done given,
        record {
          calm = calm;
          rows = execute-WellFormed sha256 (Statement.create_session token id ttl) w a.rows;
          users = Stands-same w v f users next a.users;
          sessions =
              create-StandsFor IsToken sha256 w v uids token id ttl injective k a.sessions later now
                sessions;
        },
      )

  pub revoke-Step :
      (token : Bytes) (w : World) (s : FakeState)
      → Agree IsToken sha256 injective w s
      → IsToken token
      → Step IsToken sha256 injective (Call.revoke token) w s
  unfolding call_db call_fakes execute
  revoke-Step token w (f, uids) a k =
      let v = (Db.Sessions.revoke sha256 token w).1 in
      let (given, sessions, (users, next), (calm, now)) = revoke_effect sha256 token w a.calm in
      (
        ap Given.done given,
        record {
          calm = calm;
          rows = execute-WellFormed sha256 (Statement.revoke token) w a.rows;
          users = Stands-same w v f users next a.users;
          sessions =
              revoke-StandsFor IsToken sha256 w v uids token injective k a.sessions now sessions;
        },
      )

  pub revoke_user-Step :
      (id : ℕ) (w : World) (s : FakeState)
      → Agree IsToken sha256 injective w s
      → Step IsToken sha256 injective (Call.revoke_user id) w s
  unfolding call_db call_fakes execute
  revoke_user-Step id w (f, uids) a =
      let v = (Db.Sessions.revoke_user id w).1 in
      let (given, sessions, (users, next), (calm, now)) = revoke_user_effect id w a.calm in
      (
        ap Given.done given,
        record {
          calm = calm;
          rows = execute-WellFormed sha256 (Statement.revoke_user id) w a.rows;
          users = Stands-same w v f users next a.users;
          sessions =
              revoke_user-StandsFor IsToken sha256 w v uids id a.sessions a.rows now sessions;
        },
      )
