-- ===== src/Db/Schema.antt =====
-- The constraints of the tables, `ddl` of internal/infra/db/db.go, as a property of the rows, and the
-- statements of the repositories that write rows.
pub mod Keys
pub mod Users
pub mod Writes
pub mod Kept
mod Tests
use cache_22_server.Prelude.{
  ℕ, ◌&&◌, Bool, true, false, List, [], ◌∷◌, ◌≡◌, Bytes, exists_if, ◌==◌, nat_eq, list_eq,
}
use cache_22_server.Entity.{User, Game, Cover, Save}
use cache_22_server.World.{World, SessionRow}
use cache_22_server.Auth.Tables.{Ordered, DistinctNames, has_id}
use cache_22_server.Db.Saves.{is_save}
use cache_22_server.Db
use cache_22_server.Prelude.{All}

-- No two rows have the same key; `same` says when two rows do.
abbrev pub Distinct {ℓ} : {A : Type ℓ} → (A → A → Bool) → List A → Type 0
Distinct same [] = Unit
Distinct same (a ∷ rows) = (exists_if (same a) rows ≡ false) × Distinct same rows

abbrev pub same_token : SessionRow → SessionRow → Bool
same_token s t = t.token_hash == s.token_hash

abbrev pub same_game : Game → Game → Bool
same_game g h = h.serial == g.serial

abbrev pub same_cover : Cover → Cover → Bool
same_cover c d = d.serial == c.serial

abbrev pub same_card : Save → Save → Bool
same_card s t = is_save s.user_id s.serial s.slot t

-- REFERENCES users(id)
abbrev pub IsUser : List User → ℕ → Type 0
IsUser users id = exists_if (has_id id) users ≡ true

-- The users that rows refer to are there.
abbrev pub Owned {ℓ} : {A : Type ℓ} → (A → ℕ) → List User → List A → Type 0
Owned owner users [] = Unit
Owned owner users (a ∷ rows) = IsUser users (owner a) × Owned owner users rows

abbrev pub session_owner : SessionRow → ℕ
session_owner s = s.user_id

abbrev pub card_owner : Save → ℕ
card_owner s = s.user_id

-- Every primary key, UNIQUE and REFERENCES of the tables.
pub record WellFormed (w : World) : Type 0 where
  pub ids : Ordered 0 w.next_id w.users
  pub names : DistinctNames w.users
  pub tokens : Distinct same_token w.sessions
  pub owners : Owned session_owner w.users w.sessions
  pub games : Distinct same_game w.games
  pub covers : Distinct same_cover w.covers
  pub cards : Distinct same_card w.saves
  pub card_owners : Owned card_owner w.users w.saves

-- The statements of the repositories that write.
pub data Statement : Type 0 where
  create_user : Bytes → Bytes → Bool → Statement
  delete_user : ℕ → Statement
  set_password : ℕ → Bytes → Statement
  set_admin : ℕ → Bool → Statement
  create_session : Bytes → ℕ → ℕ → Statement
  revoke : Bytes → Statement
  revoke_user : ℕ → Statement
  sweep : Statement
  upsert_game : Game → Statement
  upsert_cover : Cover → Statement
  upsert_card : Save → Statement
  drop_card : ℕ → Bytes → ℕ → Statement

module _ (sha256 : Bytes → Bytes) where
  -- what a statement leaves; its result is dropped
  unfoldable pub execute : Statement → World → World
  execute (create_user name hash admin) w = (Db.Users.create name hash admin w).1
  execute (delete_user id) w = (Db.Users.delete id w).1
  execute (set_password id hash) w = (Db.Users.set_password id hash w).1
  execute (set_admin id admin) w = (Db.Users.set_admin id admin w).1
  execute (create_session token user_id ttl) w = (Db.Sessions.create sha256 token user_id ttl w).1
  execute (revoke token) w = (Db.Sessions.revoke sha256 token w).1
  execute (revoke_user id) w = (Db.Sessions.revoke_user id w).1
  execute sweep w = (Db.Sessions.sweep w).1
  execute (upsert_game g) w = (Db.Games.upsert g w).1
  execute (upsert_cover c) w = (Db.Covers.upsert c w).1
  execute (upsert_card s) w = (Db.Saves.upsert s w).1
  execute (drop_card user_id serial slot) w = (Db.Saves.delete user_id serial slot w).1

  -- Any sequence of statements, of whichever requests.
  unfoldable pub execute_all : List Statement → World → World
  unfolding execute
  execute_all [] w = w
  execute_all (q ∷ qs) w = execute_all qs (execute q w)
