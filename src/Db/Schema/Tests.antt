-- ===== src/Db/Schema/Tests.antt =====
-- A database with one user, one session and one card; the user goes.
use cache_22_server.Prelude.{true, false, List, [], ◌∷◌, ◌≡◌, refl, Bytes, codes, arith}
use cache_22_server.Go.Text.{to_lower, trim_space}
use cache_22_server.Entity.{User, Save}
use cache_22_server.World.{World, empty_world}
use cache_22_server.Db.Schema.{WellFormed, Statement, execute, execute_all}
use cache_22_server.Db.Schema.Kept.{execute_all-WellFormed}
use cache_22_server.Db

abbrev plain : Bytes → Bytes
plain s = s

abbrev bob : User
bob = record {
  id = 1;
  username = codes "bob";
  password_hash = codes "h";
  is_admin = true;
  created_at = 0;
}

abbrev card : Save
card = record {
  user_id = 1;
  serial = codes "ico";
  slot = 1;
  sha256 = [];
  size = 3;
  public = false;
  updated_at = 0;
}

abbrev one_user : World
one_user = record empty_world {
  users = bob ∷ [];
  next_id = 2;
  sessions = record { token_hash = codes "tok"; user_id = 1; expires_at = 9 } ∷ [];
  saves = card ∷ [];
}

one_user-WellFormed : WellFormed one_user
one_user-WellFormed = record {
  ids = omega arith;
  names = (refl, tt);
  tokens = (refl, tt);
  owners = (refl, tt);
  games = tt;
  covers = tt;
  cards = (refl, tt);
  card_owners = (refl, tt);
}

abbrev changes : List Statement
changes =
    Statement.upsert_card card
    ∷ Statement.create_user (codes "Ann") (codes "h") false
    ∷ Statement.delete_user 1
    ∷ Statement.upsert_card card
    ∷ []

execute_all-WellFormed_example : WellFormed (execute_all plain changes one_user)
execute_all-WellFormed_example = execute_all-WellFormed plain changes one_user one_user-WellFormed

card_is_gone : (execute_all plain changes one_user).saves ≡ []
unfolding execute_all execute Db.Saves.upsert Db.Users.create Db.Users.delete to_lower trim_space
card_is_gone = refl
