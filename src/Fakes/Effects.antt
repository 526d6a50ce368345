-- ===== src/Fakes/Effects.antt =====
-- What a statement of internal/infra/db does to users and sessions where no call fails.
use cache_22_server.Prelude.{
  ℕ, suc, ◌+◌, Bool, true, false, not, [], ◌∷◌, ◌++◌, ◌≡◌, refl, Bytes, length, keep_if, find_if,
  exists_if, nat_eq, list_eq, Option-cases, inl, inr,
}
use cache_22_server.Entity.{User}
use cache_22_server.World.{World, ok, attempt}
use cache_22_server.Auth.Tables.{has_id, has_name}
use cache_22_server.Db
use cache_22_server.Db.Users.{normal_name, update_user, without_user}
use cache_22_server.Db.Sessions.{owner, is_live}
use cache_22_server.Fakes.Users.{or_no_rows}
use cache_22_server.Fakes.Tokens.{has_hash, is_of}

-- The clock and the other table stay, and still nothing fails.
abbrev pub Steady : World → World → Type 0
Steady w v = (v.faults ≡ []) × (v.now ≡ w.now)

abbrev pub row_of : World → Bytes → Bytes → Bool → User
row_of w name hash admin = record {
  id = w.next_id;
  username = name;
  password_hash = hash;
  is_admin = admin;
  created_at = w.now;
}

pub create_effect :
    (name hash : Bytes) (admin : Bool) (w : World)
    → w.faults ≡ []
    → normal_name name ≡ name
    → exists_if (has_name name) w.users ≡ false
    → let (r, v) = Db.Users.create name hash admin w in
      (r ≡ ok (row_of w name hash admin))
      × (v.users ≡ w.users ++ row_of w name hash admin ∷ [])
      × (v.next_id ≡ suc w.next_id)
      × (v.sessions ≡ w.sessions)
      × Steady w v
unfolding Db.Users.create Db.Users.insert_user attempt
create_effect name hash admin w calm normal free =
    rw (calm, normal, free) (refl, refl, refl, refl, (refl, refl))

pub change_effect :
    (id : ℕ) (hash : Bytes) (w : World)
    → w.faults ≡ []
    → let (r, v) = Db.Users.set_password id hash w in
      (r ≡ ok tt)
      × (v.users ≡ update_user id (λ u. record u { password_hash = hash }) w.users)
      × (v.next_id ≡ w.next_id)
      × (v.sessions ≡ w.sessions)
      × Steady w v
unfolding Db.Users.set_password attempt
change_effect id hash w calm = rw calm (refl, refl, refl, refl, (refl, refl))

pub flag_effect :
    (id : ℕ) (admin : Bool) (w : World)
    → w.faults ≡ []
    → let (r, v) = Db.Users.set_admin id admin w in
      (r ≡ ok tt)
      × (v.users ≡ update_user id (λ u. record u { is_admin = admin }) w.users)
      × (v.next_id ≡ w.next_id)
      × (v.sessions ≡ w.sessions)
      × Steady w v
unfolding Db.Users.set_admin attempt
flag_effect id admin w calm = rw calm (refl, refl, refl, refl, (refl, refl))

pub delete_effect :
    (id : ℕ) (w : World)
    → w.faults ≡ []
    → let (r, v) = Db.Users.delete id w in
      (r ≡ ok tt)
      × (v.users ≡ keep_if (λ u. not (has_id id u)) w.users)
      × (v.next_id ≡ w.next_id)
      × (v.sessions ≡ keep_if (λ s. not (is_of id s)) w.sessions)
      × Steady w v
unfolding Db.Users.delete attempt
delete_effect id w calm = rw calm (refl, refl, refl, refl, (refl, refl))

-- the statements on sessions
abbrev SameUsers : World → World → Type 0
SameUsers w v = (v.users ≡ w.users) × (v.next_id ≡ w.next_id)

module _ (sha256 : Bytes → Bytes) where
  pub session_effect :
      (token : Bytes) (id ttl : ℕ) (w : World)
      → w.faults ≡ []
      → exists_if (has_hash (sha256 token)) w.sessions ≡ false
      → exists_if (has_id id) w.users ≡ true
      → let (r, v) = Db.Sessions.create sha256 token id ttl w in
        (r ≡ ok tt)
        × (v.sessions
            ≡ record { token_hash = sha256 token; user_id = id; expires_at = w.now + ttl }
              ∷ w.sessions)
        × SameUsers w v
        × Steady w v
  unfolding Db.Sessions.create Db.Sessions.insert_session attempt
  session_effect token id ttl w calm new there =
      rw (calm, new, there) (refl, refl, (refl, refl), (refl, refl))

  pub revoke_effect :
      (token : Bytes) (w : World)
      → w.faults ≡ []
      → let (r, v) = Db.Sessions.revoke sha256 token w in
        (r ≡ ok tt)
        × (v.sessions ≡ keep_if (λ s. not (has_hash (sha256 token) s)) w.sessions)
        × SameUsers w v
        × Steady w v
  unfolding Db.Sessions.revoke attempt
  revoke_effect token w calm = rw calm (refl, refl, (refl, refl), (refl, refl))

pub revoke_user_effect :
    (id : ℕ) (w : World)
    → w.faults ≡ []
    → let (r, v) = Db.Sessions.revoke_user id w in
      (r ≡ ok tt)
      × (v.sessions ≡ keep_if (λ s. not (is_of id s)) w.sessions)
      × SameUsers w v
      × Steady w v
unfolding Db.Sessions.revoke_user attempt
revoke_user_effect id w calm = rw calm (refl, refl, (refl, refl), (refl, refl))

-- the statements that only read
pub count_effect :
    (w : World)
    → w.faults ≡ []
    → let (r, v) = Db.Users.count w in (r ≡ ok (length w.users)) × (v ≡ (attempt w).1)
unfolding Db.Users.count attempt
count_effect w calm = rw calm (refl, refl)

pub by_name_effect :
    (name : Bytes) (w : World)
    → w.faults ≡ []
    → normal_name name ≡ name
    → let (r, v) = Db.Users.get_by_username name w in
      (r ≡ or_no_rows (find_if (has_name name) w.users)) × (v ≡ (attempt w).1)
unfolding Db.Users.get_by_username attempt
by_name_effect name w calm normal = elim (Option-cases (find_if (has_name name) w.users)) [
  | inl e ↦ rw (calm, normal, e) (refl, refl)
  | inr (u, e) ↦ rw (calm, normal, e) (refl, refl)
]

pub by_id_effect :
    (id : ℕ) (w : World)
    → w.faults ≡ []
    → let (r, v) = Db.Users.get_by_id id w in
      (r ≡ or_no_rows (find_if (has_id id) w.users)) × (v ≡ (attempt w).1)
unfolding Db.Users.get_by_id attempt
by_id_effect id w calm = elim (Option-cases (find_if (has_id id) w.users)) [
  | inl e ↦ rw (calm, e) (refl, refl)
  | inr (u, e) ↦ rw (calm, e) (refl, refl)
]

pub user_id_effect :
    (sha256 : Bytes → Bytes) (token : Bytes) (w : World)
    → w.faults ≡ []
    → let (r, v) = Db.Sessions.user_id sha256 token w in
      (r ≡ ok (owner (find_if (is_live sha256 token w.now) w.sessions))) × (v ≡ (attempt w).1)
unfolding Db.Sessions.user_id attempt
user_id_effect sha256 token w calm = rw calm (refl, refl)
