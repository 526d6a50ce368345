-- ===== src/Accounts/Order.antt =====
-- The order of the ids in the table of users under each operation on accounts.
use cache_22_server.Prelude.{
  ℕ, suc, ◌≤◌, Bool, not, Option, none, some, List, [], ◌∷◌, ◌≡◌, refl, sym, subst, Bytes, arith,
  ◌==◌, nat_eq, list_eq, inl, inr,
}
use cache_22_server.Entity.{User}
use cache_22_server.World.{World, ok, attempt, Result-cases}
use cache_22_server.External.{External}
use cache_22_server.Db.Users.{update_user}
use cache_22_server.Auth
use cache_22_server.Auth.{authenticate, login}
use cache_22_server.Auth.Tables.{
  Ordered, Ordered-append, Ordered-keep_if, Ordered-mono, create_user_adds, create_user_failed,
}
use cache_22_server.Accounts.{delete_by, set_admin_by, reset_by, reset_row}
use cache_22_server.Accounts.Flags.{hash_of, reset_users}

abbrev pub InOrder : World → Type 0
InOrder w = Ordered 0 w.next_id w.users

pub Ordered-update :
    (id lo hi : ℕ) (f : User → User) (us : List User)
    → ((u : User) → (f u).id ≡ u.id)
    → Ordered lo hi us
    → Ordered lo hi (update_user id f us)
Ordered-update id lo hi f [] same o = o
Ordered-update id lo hi f (u ∷ us) same o =
    ground (arith, same u, Ordered-update id (suc u.id) hi f us same o.1)

delete-InOrder : (id : ℕ) (w : World) → InOrder w → InOrder (Auth.delete_user id w).1
unfolding Auth.delete_user
delete-InOrder id w o =
    ground (arith, Ordered-keep_if (λ (u : User). not (u.id == id)) 0 w.next_id w.users o)

set_admin-InOrder :
    (id : ℕ) (admin : Bool) (w : World) → InOrder w → InOrder (Auth.set_admin id admin w).1
unfolding Auth.set_admin
set_admin-InOrder id admin w o = ground (
  arith,
  Ordered-update id 0 w.next_id (λ u. record u { is_admin = admin }) w.users (λ u. refl) o,
)

module _ (x : External) where
  create_next :
      (username password : Bytes) (admin : Bool) (w : World)
      → w.next_id ≤ (Auth.create_user x username password admin w).1.next_id
  unfolding Auth.create_user
  create_next username password admin w = ground arith

  create_made :
      (username password : Bytes) (admin : Bool) (u : User) (w : World)
      → (Auth.create_user x username password admin w).0 ≡ ok u
      → (Auth.create_user x username password admin w).1.next_id ≡ suc w.next_id
  unfolding Auth.create_user
  create_made username password admin u w h = ground arith

  pub create-InOrder :
      (username password : Bytes) (admin : Bool) (w : World)
      → InOrder w
      → InOrder (Auth.create_user x username password admin w).1
  create-InOrder username password admin w o =
      let w' = (Auth.create_user x username password admin w).1 in
      elim (Result-cases (Auth.create_user x username password admin w).0) [
        | inl (c, e) ↦
            subst (Ordered 0 w'.next_id) (sym (create_user_failed x username password admin c w e))
              (Ordered-mono 0 0 w.next_id w'.next_id w.users (omega arith)
                (create_next username password admin w) o)
        | inr (u, e) ↦
            let (table, own, name, flag, valid, long, free) =
              create_user_adds x username password admin u w e in
            subst (λ n. Ordered 0 n w'.users) (sym (create_made username password admin u w e))
              (subst (Ordered 0 (suc w.next_id)) (sym table)
                (Ordered-append 0 w.next_id w.users u o own))
      ]

  reset_next :
      (id : ℕ) (password : Bytes) (w : World)
      → (Auth.reset_password x id password w).1.next_id ≡ w.next_id
  unfolding Auth.reset_password Auth.begin_reset Auth.finish_reset
  reset_next id password w = ground arith

  reset-InOrder :
      (id : ℕ) (password : Bytes) (w : World)
      → InOrder w
      → InOrder (Auth.reset_password x id password w).1
  reset-InOrder id password w o =
      let w' = (Auth.reset_password x id password w).1 in
      let f : User → User = λ u. record u { password_hash = hash_of x password w } in
      subst (λ n. Ordered 0 n w'.users) (sym (reset_next id password w))
        (elim (reset_users x id password w) [
          | inl e ↦ subst (Ordered 0 w.next_id) (sym e) o
          | inr e ↦
              subst (Ordered 0 w.next_id) (sym e)
                (Ordered-update id 0 w.next_id f w.users (λ u. refl) o)
        ])

  reset_row-InOrder :
      (id : Option ℕ) (password : Bytes) (w : World)
      → InOrder w
      → InOrder (reset_row x id password w).1
  unfolding reset_row attempt
  reset_row-InOrder none password w o = ground arith
  reset_row-InOrder (some id) password w o = reset-InOrder id password w o

  pub reset_by-InOrder :
      (id : Option (Option ℕ)) (password : Option Bytes) (w : World)
      → InOrder w
      → InOrder (reset_by x id password w).1
  unfolding reset_by
  reset_by-InOrder none password w o = o
  reset_by-InOrder (some id) none w o = o
  reset_by-InOrder (some id) (some password) w o = ground (arith, reset_row-InOrder id password w o)

pub delete_by-InOrder :
    (me : User) (id : Option (Option ℕ)) (w : World) → InOrder w → InOrder (delete_by me id w).1
unfolding delete_by attempt
delete_by-InOrder me none w o = o
delete_by-InOrder me (some none) w o = ground arith
delete_by-InOrder me (some (some id)) w o = ground (arith, delete-InOrder id w o)

pub set_admin_by-InOrder :
    (me : User) (id : Option (Option ℕ)) (admin : Option Bool) (w : World)
    → InOrder w
    → InOrder (set_admin_by me id admin w).1
unfolding set_admin_by attempt
set_admin_by-InOrder me none admin w o = o
set_admin_by-InOrder me (some id) none w o = o
set_admin_by-InOrder me (some none) (some admin) w o = ground arith
set_admin_by-InOrder me (some (some id)) (some admin) w o =
    ground (arith, set_admin-InOrder id admin w o)
