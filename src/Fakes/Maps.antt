-- ===== src/Fakes/Maps.antt =====
-- The maps of FakeUsers in internal/testutil/fakes.go through each of its methods.
use cache_22_server.Prelude.{
  ℕ, suc, Bool, false, not, some, [], ◌∷◌, ◌++◌, ◌≡◌, ap, sym, ◌∙◌, Bytes, keep_if, find_if,
  exists_if, nat_eq, list_eq,
}
use cache_22_server.Prelude.Assoc.{lookup, insert, erase}
use cache_22_server.Entity.{User}
use cache_22_server.World.{World}
use cache_22_server.Auth.Tables.{has_id, has_name}
use cache_22_server.Db.Users.{update_user}
use cache_22_server.Db.Schema.{WellFormed}
use cache_22_server.Fakes
use cache_22_server.Fakes.Users.{FakeUsers}
use cache_22_server.Fakes.Tables.{
  undated, undated_if, table, id_of, name_of, lookup-table, erase-table, insert-table, keep_if_name,
  insert-id_of, insert-name_of,
}

-- The users of the fake are the rows of the table.
pub record Stands (w : World) (f : FakeUsers) : Type 0 where
  pub next_id : w.next_id ≡ suc f.next
  pub by_id : f.by_id ≡ table id_of w.users
  pub by_name : f.by_name ≡ table name_of w.users

-- After a statement that changes neither users nor sessions.
pub Stands-same :
    (w v : World) (f : FakeUsers)
    → v.users ≡ w.users
    → v.next_id ≡ w.next_id
    → Stands w f
    → Stands v f
Stands-same w v f e k s = record {
  next_id = k ∙ s.next_id;
  by_id = s.by_id ∙ ap (table id_of) (sym e);
  by_name = s.by_name ∙ ap (table name_of) (sym e);
}

-- The account that a fake makes next, with the time of the database.
abbrev pub made : Bytes → Bytes → Bool → ℕ → FakeUsers → User
made name hash admin now f = record {
  id = suc f.next;
  username = name;
  password_hash = hash;
  is_admin = admin;
  created_at = now;
}

pub create-Stands :
    (w v : World) (f : FakeUsers) (name hash : Bytes) (admin : Bool) (now : ℕ)
    → Stands w f
    → exists_if (has_id (suc f.next)) w.users ≡ false
    → exists_if (has_name name) w.users ≡ false
    → v.users ≡ w.users ++ made name hash admin now f ∷ []
    → v.next_id ≡ suc (suc f.next)
    → Stands v (Fakes.Users.create name hash admin f).1
unfolding Fakes.Users.create
create-Stands w v f name hash admin now s new_id new_name users next =
    let u = made name hash admin now f in
    record {
      next_id = next;
      by_id =
          ap (insert (suc f.next) (undated u)) s.by_id
          ∙ insert-table id_of u w.users new_id
          ∙ ap (table id_of) (sym users);
      by_name =
          ap (insert name (undated u)) s.by_name
          ∙ insert-table name_of u w.users new_name
          ∙ ap (table name_of) (sym users);
    }

pub delete-Stands :
    (w v : World) (f : FakeUsers) (id : ℕ) (u : User)
    → Stands w f
    → WellFormed w
    → find_if (has_id id) w.users ≡ some u
    → v.users ≡ keep_if (λ t. not (has_id id t)) w.users
    → v.next_id ≡ w.next_id
    → Stands v (Fakes.Users.delete id f).1
unfolding Fakes.Users.delete
delete-Stands w v f id u s h found users next =
    let there = ap (lookup id) s.by_id ∙ lookup-table id_of id w.users ∙ ap undated_if found in
    record {
      next_id = next ∙ s.next_id;
      by_id = ap (erase id) s.by_id ∙ erase-table id_of id w.users ∙ ap (table id_of) (sym users);
      by_name = rw there (
          ap (erase u.username) s.by_name
          ∙ erase-table name_of u.username w.users
          ∙ ap (table name_of) (keep_if_name id w.next_id w.users u 0 h.ids h.names found)
          ∙ ap (table name_of) (sym users));
    }

-- The two changes of a user keep the id and the name.
pub store-Stands :
    (w v : World) (f : FakeUsers) (id : ℕ) (g : User → User) (u : User)
    → Stands w f
    → WellFormed w
    → find_if (has_id id) w.users ≡ some u
    → (g u).id ≡ u.id
    → (g u).username ≡ u.username
    → v.users ≡ update_user id g w.users
    → v.next_id ≡ w.next_id
    → Stands v (record f {
      by_name = insert u.username (undated (g u)) f.by_name;
      by_id = insert id (undated (g u)) f.by_id;
    })
store-Stands w v f id g u s h found same_id same_name users next = record {
  next_id = next ∙ s.next_id;
  by_id =
      ap (insert id (undated (g u))) s.by_id
      ∙ insert-id_of id w.next_id g w.users u 0 h.ids found same_id
      ∙ ap (table id_of) (sym users);
  by_name =
      ap (insert u.username (undated (g u))) s.by_name
      ∙ insert-name_of id w.next_id g w.users u 0 h.ids h.names found same_name
      ∙ ap (table name_of) (sym users);
}

-- What the fake finds.
pub found_by_id :
    (w : World) (f : FakeUsers) (id : ℕ)
    → Stands w f
    → lookup id f.by_id ≡ undated_if (find_if (has_id id) w.users)
found_by_id w f id s = ap (lookup id) s.by_id ∙ lookup-table id_of id w.users

pub found_by_name :
    (w : World) (f : FakeUsers) (name : Bytes)
    → Stands w f
    → lookup name f.by_name ≡ undated_if (find_if (has_name name) w.users)
found_by_name w f name s = ap (lookup name) s.by_name ∙ lookup-table name_of name w.users
