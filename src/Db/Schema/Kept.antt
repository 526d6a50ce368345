-- ===== src/Db/Schema/Kept.antt =====
-- The statements keep the constraints.
use cache_22_server.Prelude.{
  not, List, [], ◌∷◌, refl, Bytes, keep_if, ◌==◌, nat_eq, list_eq, ◌+◌, leb,
}
use cache_22_server.Entity.{Save}
use cache_22_server.World.{World, SessionRow, modify}
use cache_22_server.Db.Users.{update_user, normal_name, without_user}
use cache_22_server.Db.Saves.{is_save}
use cache_22_server.Db
use cache_22_server.Db.Schema.{WellFormed, Statement, execute, execute_all}
use cache_22_server.Db.Schema.Writes.{
  delete-WellFormed, update-WellFormed, then-WellFormed, insert_user-WellFormed,
  insert_session-WellFormed, write_save-WellFormed, sessions-WellFormed, saves-WellFormed,
  games-WellFormed, covers-WellFormed,
}

module _ (sha256 : Bytes → Bytes) where
  pub execute-WellFormed :
      (q : Statement) (w : World) → WellFormed w → WellFormed (execute sha256 q w)
  unfolding execute Db.Users.create Db.Users.delete Db.Users.set_password Db.Users.set_admin
      Db.Sessions.create Db.Sessions.revoke Db.Sessions.revoke_user Db.Sessions.sweep
      Db.Games.upsert Db.Covers.upsert Db.Saves.upsert Db.Saves.delete
  execute-WellFormed (Statement.create_user name hash admin) w =
      then-WellFormed (Db.Users.insert_user (normal_name name) hash admin) w
        (insert_user-WellFormed (normal_name name) hash admin)
  execute-WellFormed (Statement.delete_user id) w =
      then-WellFormed (modify (without_user id)) w (delete-WellFormed id)
  execute-WellFormed (Statement.set_password id hash) w =
      then-WellFormed
        (modify
          λ v. record v { users = update_user id (λ u. record u { password_hash = hash }) v.users })
        w
        (λ v.
          update-WellFormed id (λ u. record u { password_hash = hash }) v (λ u. refl) (λ u. refl))
  execute-WellFormed (Statement.set_admin id admin) w =
      then-WellFormed
        (modify
          λ v. record v { users = update_user id (λ u. record u { is_admin = admin }) v.users })
        w (λ v. update-WellFormed id (λ u. record u { is_admin = admin }) v (λ u. refl) (λ u. refl))
  execute-WellFormed (Statement.create_session token user_id ttl) w =
      let row : SessionRow = record {
        token_hash = sha256 token;
        user_id = user_id;
        expires_at = w.now + ttl;
      } in
      then-WellFormed (Db.Sessions.insert_session sha256 row) w
        (insert_session-WellFormed sha256 row)
  execute-WellFormed (Statement.revoke token) w =
      let p = λ (s : SessionRow). not (s.token_hash == sha256 token) in
      then-WellFormed (modify λ v. record v { sessions = keep_if p v.sessions }) w
        (sessions-WellFormed p)
  execute-WellFormed (Statement.revoke_user id) w =
      let p = λ (s : SessionRow). not (s.user_id == id) in
      then-WellFormed (modify λ v. record v { sessions = keep_if p v.sessions }) w
        (sessions-WellFormed p)
  execute-WellFormed Statement.sweep w =
      then-WellFormed
        (modify λ v. record v {
          sessions = keep_if (λ (s : SessionRow). not (leb s.expires_at v.now)) v.sessions;
        })
        w (λ v. sessions-WellFormed (λ (s : SessionRow). not (leb s.expires_at v.now)) v)
  execute-WellFormed (Statement.upsert_game g) w =
      then-WellFormed (modify λ v. record v { games = Db.Games.put_game v.now g v.games }) w
        (games-WellFormed g)
  execute-WellFormed (Statement.upsert_cover c) w =
      then-WellFormed (modify λ v. record v { covers = Db.Covers.put_cover v.now c v.covers }) w
        (covers-WellFormed c)
  execute-WellFormed (Statement.upsert_card s) w =
      then-WellFormed (Db.Saves.write_save s) w (write_save-WellFormed s)
  execute-WellFormed (Statement.drop_card user_id serial slot) w =
      let p = λ (s : Save). not (is_save user_id serial slot s) in
      then-WellFormed (modify λ v. record v { saves = keep_if p v.saves }) w (saves-WellFormed p)

  -- Any sequence of statements of the repositories, of whichever requests and with whatever calls
  -- failing, keeps every primary key, UNIQUE and REFERENCES of the tables: ids, names, tokens, serials
  -- and cards stay distinct, and every session and card belongs to a user.
  pub execute_all-WellFormed :
      (qs : List Statement) (w : World) → WellFormed w → WellFormed (execute_all sha256 qs w)
  unfolding execute_all
  execute_all-WellFormed [] w h = h
  execute_all-WellFormed (q ∷ qs) w h =
      execute_all-WellFormed qs (execute sha256 q w) (execute-WellFormed q w h)
