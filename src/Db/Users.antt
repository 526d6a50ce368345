-- ===== src/Db/Users.antt =====
-- internal/infra/db/user_repository.go. The rows stand in the order of their ids.
use cache_22_server.Prelude.{
  ℕ, suc, Bool, not, List, [], ◌∷◌, ◌++◌, map, Bytes, length, keep_if, find_if, exists_if, ◌==◌,
  nat_eq, list_eq, if◌then◌else◌,
}
use cache_22_server.Go.Text.{to_lower, trim_space}
use cache_22_server.Entity.{User, Save}
use cache_22_server.World.{
  World, SessionRow, Action, err, ok, constraint, no_rows, attempt, gets, modify, or_fail, ◌>>◌,
}

-- SELECT COUNT(*)
unfoldable pub count : Action ℕ
unfolding attempt
count = attempt >> gets (λ w. length w.users)

abbrev pub normal_name : Bytes → Bytes
normal_name name = to_lower (trim_space name)

-- INSERT ... RETURNING. The sequence of ids moves on also where the name is taken.
unfoldable pub insert_user : Bytes → Bytes → Bool → Action User
insert_user name hash admin w =
    let user : User = record {
      id = w.next_id;
      username = name;
      password_hash = hash;
      is_admin = admin;
      created_at = w.now;
    } in
    if exists_if (λ (u : User). u.username == name) w.users
    then (err constraint, record w { next_id = suc w.next_id })
    else (ok user, record w { users = w.users ++ user ∷ []; next_id = suc w.next_id })

unfoldable pub create : Bytes → Bytes → Bool → Action User
unfolding attempt insert_user
create username hash admin = attempt >> insert_user (normal_name username) hash admin

unfoldable pub get_by_username : Bytes → Action User
unfolding attempt
get_by_username username w =
    (attempt
        >> or_fail (find_if (λ (u : User). u.username == normal_name username) w.users) no_rows)
      w

unfoldable pub get_by_id : ℕ → Action User
unfolding attempt
get_by_id id w = (attempt >> or_fail (find_if (λ (u : User). u.id == id) w.users) no_rows) w

-- ORDER BY id
unfoldable pub list : Action (List User)
unfolding attempt
list = attempt >> gets (λ w. w.users)

-- ON DELETE CASCADE takes the user's sessions and saves along.
abbrev pub without_user : ℕ → World → World
without_user id w = record w {
  users = keep_if (λ (u : User). not (u.id == id)) w.users;
  sessions = keep_if (λ (s : SessionRow). not (s.user_id == id)) w.sessions;
  saves = keep_if (λ (s : Save). not (s.user_id == id)) w.saves;
}

unfoldable pub delete : ℕ → Action (Unit {0})
unfolding attempt
delete id = attempt >> modify (without_user id)

abbrev pub update_user : ℕ → (User → User) → List User → List User
update_user id f = map (λ (u : User). if u.id == id then f u else u)

unfoldable pub set_password : ℕ → Bytes → Action (Unit {0})
unfolding attempt
set_password id hash =
    attempt
    >> modify
        λ w. record w { users = update_user id (λ u. record u { password_hash = hash }) w.users }

unfoldable pub set_admin : ℕ → Bool → Action (Unit {0})
unfolding attempt
set_admin id admin =
    attempt
    >> modify λ w. record w { users = update_user id (λ u. record u { is_admin = admin }) w.users }
