-- ===== src/Fakes/Users.antt =====
-- FakeUsers of internal/testutil/fakes.go: the users by name and by id.
use cache_22_server.Prelude.{
  ℕ, suc, Bool, false, Option, none, some, [], Bytes, length, nat_eq, list_eq,
}
use cache_22_server.Prelude.Assoc.{Assoc, lookup, insert, erase}
use cache_22_server.Entity.{User}
use cache_22_server.World.{Result, ok, err, no_rows}

pub record FakeUsers : Type 0 where
  pub next : ℕ
  pub by_name : Assoc Bytes User
  pub by_id : Assoc ℕ User

-- A method changes the fake and gives a result.
abbrev pub Method : Type 0 → Type 0
Method A = FakeUsers → A × FakeUsers

-- NewFakeUsers
abbrev pub new : FakeUsers
new = record { next = 0; by_name = []; by_id = [] }

abbrev pub zero_user : User
zero_user = record { id = 0; username = []; password_hash = []; is_admin = false; created_at = 0 }

-- `m[key]`, and `u, ok := m[key]`
abbrev pub or_zero : Option User → User
or_zero none = zero_user
or_zero (some u) = u

abbrev pub or_no_rows : Option User → Result User
or_no_rows none = err no_rows
or_no_rows (some u) = ok u

-- Count
unfoldable pub count : Method ℕ
count f = (length f.by_id, f)

-- Create: the name is taken as it is, also if another user has it.
unfoldable pub create : Bytes → Bytes → Bool → Method User
create username hash admin f =
    let u : User = record {
      id = suc f.next;
      username = username;
      password_hash = hash;
      is_admin = admin;
      created_at = 0;
    } in
    (
      u,
      record {
        next = suc f.next;
        by_name = insert username u f.by_name;
        by_id = insert (suc f.next) u f.by_id;
      },
    )

-- GetByUsername
unfoldable pub get_by_username : Bytes → Method (Result User)
get_by_username username f = (or_no_rows (lookup username f.by_name), f)

-- GetByID
unfoldable pub get_by_id : ℕ → Method (Result User)
get_by_id id f = (or_no_rows (lookup id f.by_id), f)

-- Delete
unfoldable pub delete : ℕ → Method (Unit {0})
delete id f =
    let u = or_zero (lookup id f.by_id) in
    (tt, record f { by_name = erase u.username f.by_name; by_id = erase id f.by_id })

-- the two writes at the end of SetPassword and of SetAdmin
abbrev pub store_user : ℕ → User → Method (Unit {0})
store_user id u f =
    (tt, record f { by_name = insert u.username u f.by_name; by_id = insert id u f.by_id })

-- SetPassword: an id that is not there makes a user.
unfoldable pub set_password : ℕ → Bytes → Method (Unit {0})
set_password id hash f =
    store_user id (record (or_zero (lookup id f.by_id)) { password_hash = hash }) f

-- SetAdmin
unfoldable pub set_admin : ℕ → Bool → Method (Unit {0})
set_admin id admin f = store_user id (record (or_zero (lookup id f.by_id)) { is_admin = admin }) f
