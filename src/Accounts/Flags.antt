-- ===== src/Accounts/Flags.antt =====
-- What each operation on accounts does to one administrator's row in the table of users.
use cache_22_server.Prelude.{
  ℕ, Bool, true, false, not, Option, none, some, List, [], ◌∷◌, ◌++◌, ◌≡◌, ◌≢◌, ◌⊎◌, inl, inr, refl,
  Bytes, arith, ◌==◌, nat_eq, list_eq, nat_beq, Bool-cases, find_if_sound, if◌then◌else◌, find_if,
  keep_if, sym, subst,
}
use cache_22_server.Entity.{User}
use cache_22_server.World.{Result-cases, World, next_fault, ok, err, attempt}
use cache_22_server.External.{External}
use cache_22_server.Db.Users.{update_user}
use cache_22_server.Auth
use cache_22_server.Auth.Tables.{has_id, find_if_update, create_user_adds, create_user_failed}
use cache_22_server.Auth.{authenticate}
use cache_22_server.Accounts.{delete_by, set_admin_by, reset_by, reset_row, admin_delete_user}

-- The account `id` is there and is an administrator's.
abbrev pub IsAdminId : ℕ → List User → Type 0
IsAdminId id us = (v : User) × (find_if (has_id id) us ≡ some v) × (v.is_admin ≡ true)

find_if_append :
    (p : User → Bool) (v : User) (us vs : List User)
    → find_if p us ≡ some v
    → find_if p (us ++ vs) ≡ some v
find_if_append p v [] vs e = cc
find_if_append p v (u ∷ us) vs e = ground (arith, find_if_append p v us vs)

find_if_others :
    (id j : ℕ) (us : List User)
    → id ≢ j
    → find_if (has_id j) (keep_if (λ (u : User). not (u.id == id)) us) ≡ find_if (has_id j) us
find_if_others id j [] h = refl
find_if_others id j (u ∷ us) h = ground (arith, find_if_others id j us h)

abbrev flagged : ℕ → Bool → User → User
flagged id admin v = if v.id == id then record v { is_admin = admin } else v

delete_user_keeps :
    (id j : ℕ) (w : World)
    → id ≢ j
    → find_if (has_id j) (Auth.delete_user id w).1.users ≡ find_if (has_id j) w.users
unfolding Auth.delete_user
delete_user_keeps id j w h = ground (arith, find_if_others id j w.users h)

delete_by_keeps :
    (me : User) (id : Option (Option ℕ)) (w : World)
    → find_if (has_id me.id) (delete_by me id w).1.users ≡ find_if (has_id me.id) w.users
unfolding delete_by attempt
delete_by_keeps me none w = refl
delete_by_keeps me (some none) w = ground arith
delete_by_keeps me (some (some id)) w = elim (Bool-cases (nat_beq me.id id)) [
  | inl e ↦ ground arith
  | inr n ↦ ground (arith, delete_user_keeps id me.id w)
]

pub delete_keeps :
    (me : User) (text : Bytes) (w : World)
    → find_if (has_id me.id) (admin_delete_user me text w).1.users ≡ find_if (has_id me.id) w.users
unfolding admin_delete_user
delete_keeps me text w = delete_by_keeps me _ w

flag_all : ℕ → Bool → List User → List User
flag_all id admin = update_user id (λ u. record u { is_admin = admin })

set_admin_users :
    (id : ℕ) (admin : Bool) (w : World)
    → ((Auth.set_admin id admin w).1.users ≡ w.users)
      ⊎ ((Auth.set_admin id admin w).1.users ≡ flag_all id admin w.users)
unfolding Auth.set_admin attempt flag_all
set_admin_users id admin w = elim (Bool-cases (next_fault w.faults)) [
  | inl e ↦ inl (ground arith)
  | inr e ↦ inr (ground arith)
]

flag_all_keeps :
    (id j : ℕ) (admin : Bool) (us : List User)
    → (id ≢ j) ⊎ (admin ≡ true)
    → IsAdminId j us
    → IsAdminId j (flag_all id admin us)
unfolding flag_all
flag_all_keeps id j admin us h (v, e, t) = (
  (if v.id == id then record v { is_admin = admin } else v),
  find_if_update id j (λ u. record u { is_admin = admin }) us v (λ u. refl) e,
  ground (arith, find_if_sound (has_id j) us v e),
)

set_admin_keeps :
    (id j : ℕ) (admin : Bool) (w : World)
    → (id ≢ j) ⊎ (admin ≡ true)
    → IsAdminId j w.users
    → IsAdminId j (Auth.set_admin id admin w).1.users
set_admin_keeps id j admin w h a = elim (set_admin_users id admin w) [
  | inl e ↦ subst (IsAdminId j) (sym e) a
  | inr e ↦ subst (IsAdminId j) (sym e) (flag_all_keeps id j admin w.users h a)
]

set_admin_by_users :
    (me : User) (id : ℕ) (admin : Bool) (w : World)
    → ((set_admin_by me (some (some id)) (some admin) w).1.users ≡ w.users)
      ⊎ (((id ≢ me.id) ⊎ (admin ≡ true))
          × ((set_admin_by me (some (some id)) (some admin) w).1.users
              ≡ (Auth.set_admin id admin w).1.users))
unfolding set_admin_by
set_admin_by_users me id true w = inr (inr refl, ground arith)
set_admin_by_users me id false w = elim (Bool-cases (nat_beq me.id id)) [
  | inl e ↦ inl (ground arith)
  | inr n ↦ inr (inl (ground arith), ground arith)
]

pub set_admin_by_keeps :
    (me : User) (id : Option (Option ℕ)) (admin : Option Bool) (w : World)
    → IsAdminId me.id w.users
    → IsAdminId me.id (set_admin_by me id admin w).1.users
unfolding set_admin_by attempt
set_admin_by_keeps me none admin w a = a
set_admin_by_keeps me (some id) none w a = a
set_admin_by_keeps me (some none) (some admin) w (v, e, t) = (v, ground arith, t)
set_admin_by_keeps me (some (some id)) (some admin) w a = elim (set_admin_by_users me id admin w) [
  | inl e ↦ subst (IsAdminId me.id) (sym e) a
  | inr (h, e) ↦ subst (IsAdminId me.id) (sym e) (set_admin_keeps id me.id admin w h a)
]

module _ (x : External) where
  pub create_keeps :
      (username password : Bytes) (admin : Bool) (j : ℕ) (v : User) (w : World)
      → find_if (has_id j) w.users ≡ some v
      → find_if (has_id j) (Auth.create_user x username password admin w).1.users ≡ some v
  create_keeps username password admin j v w h =
      elim (Result-cases (Auth.create_user x username password admin w).0) [
        | inl (c, e) ↦ ground (arith, create_user_failed x username password admin c w e)
        | inr (u, e) ↦ ground (
          arith,
          create_user_adds x username password admin u w e,
          find_if_append (has_id j) v w.users (u ∷ []) h,
        )
      ]

  pub hash_of : Bytes → World → Bytes
  hash_of password w = elim (Auth.hash_password x password w).0 [ ok hash ↦ hash | err e ↦ [] ]

  pub reset_users :
      (id : ℕ) (password : Bytes) (w : World)
      → ((Auth.reset_password x id password w).1.users ≡ w.users)
        ⊎ ((Auth.reset_password x id password w).1.users
            ≡ update_user id (λ u. record u { password_hash = hash_of password w }) w.users)
  unfolding Auth.reset_password Auth.begin_reset Auth.finish_reset hash_of
  reset_users id password w = elim (Result-cases (Auth.reset_password x id password w).0) [
    | inl (c, e) ↦ inl (ground arith)
    | inr (u, e) ↦ inr (ground arith)
  ]

  rehash_keeps :
      (id j : ℕ) (hash : Bytes) (us : List User)
      → IsAdminId j us
      → IsAdminId j (update_user id (λ u. record u { password_hash = hash }) us)
  rehash_keeps id j hash us (v, e, t) = (
    (if v.id == id then record v { password_hash = hash } else v),
    find_if_update id j (λ u. record u { password_hash = hash }) us v (λ u. refl) e,
    ground arith,
  )

  reset_row_keeps :
      (id : Option ℕ) (j : ℕ) (password : Bytes) (w : World)
      → IsAdminId j w.users
      → IsAdminId j (reset_row x id password w).1.users
  unfolding reset_row attempt
  reset_row_keeps none j password w (v, e, t) = (v, ground arith, t)
  reset_row_keeps (some id) j password w a = elim (reset_users id password w) [
    | inl e ↦ subst (IsAdminId j) (sym e) a
    | inr e ↦ subst (IsAdminId j) (sym e) (rehash_keeps id j (hash_of password w) w.users a)
  ]

  pub reset_by_keeps :
      (id : Option (Option ℕ)) (password : Option Bytes) (j : ℕ) (w : World)
      → IsAdminId j w.users
      → IsAdminId j (reset_by x id password w).1.users
  unfolding reset_by
  reset_by_keeps none password j w a = a
  reset_by_keeps (some id) none j w a = a
  reset_by_keeps (some id) (some password) j w a =
      let (v, e, t) = reset_row_keeps id j password w a in (v, ground arith, t)
