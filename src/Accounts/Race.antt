-- ===== src/Accounts/Race.antt =====
-- Two requests of DELETE /v1/admin/users/{id} that pass their guards before either of them deletes.
use cache_22_server.Prelude.{
  ℕ, true, not, some, List, [], ◌∷◌, ◌≡◌, ◌≢◌, ◌⊎◌, sym, ap, ◌∙◌, Bytes, arith, find_if, keep_if,
  ◌==◌, nat_eq,
}
use cache_22_server.Go.Number.{parse_int, value}
use cache_22_server.Entity.{User}
use cache_22_server.World.{World, Proc, ok, quiet}
use cache_22_server.External.{External}
use cache_22_server.Auth
use cache_22_server.Auth.{authenticate}
use cache_22_server.Auth.Tables.{has_id}
use cache_22_server.Accounts.{admin_delete_user, delete_by, delete_row}
use cache_22_server.Http.{Response}
use cache_22_server.Guard.{admin_only}
use cache_22_server.Guard.Access.{authenticate_same}
use cache_22_server.Accounts.Lockout.{HasAdmin}

-- No other account is an administrator's.
abbrev pub OnlyAdmins : ℕ → ℕ → List User → Type 0
OnlyAdmins a b [] = Unit
OnlyAdmins a b (u ∷ us) = ((u.is_admin ≡ true → (u.id ≡ a) ⊎ (u.id ≡ b))) × OnlyAdmins a b us

abbrev others : ℕ → List User → List User
others id = keep_if (λ (u : User). not (u.id == id))

no_admin_left :
    (a b j : ℕ) (us : List User) (v : User)
    → OnlyAdmins a b us
    → find_if (has_id j) (others a (others b us)) ≡ some v
    → v.is_admin ≢ true
no_admin_left a b j [] v only e = cc
no_admin_left a b j (u ∷ us) v (own, only) e = ground (arith, own, no_admin_left a b j us v only)

-- What is left of the request of an administrator once the session is looked up.
abbrev pub rest_of_delete : Bytes → User → Proc Response
rest_of_delete text = admin_only (λ me. admin_delete_user me text)

rest_deletes :
    (me : User) (text : Bytes) (id : ℕ) (w : World)
    → me.is_admin ≡ true
    → parse_int text ≡ value id
    → me.id ≢ id
    → ((rest_of_delete text me (quiet w)).1.users ≡ others id w.users)
      × ((rest_of_delete text me (quiet w)).0.code ≡ 200)
unfolding admin_delete_user delete_by delete_row Auth.delete_user
rest_deletes me text id w t e n = ground arith

-- Where the accounts a and b are the only administrators, both are looked up and found, and then
-- the request of a to delete b and that of b to delete a run to their ends and no call fails, both
-- are answered with 200 and there is no administrator any more.
pub admins_delete_each_other :
    (x : External) (a b : User) (token_a token_b text_a text_b : Bytes) (w : World)
    → a.id ≢ b.id
    → OnlyAdmins a.id b.id w.users
    → a.is_admin ≡ true
    → b.is_admin ≡ true
    → parse_int text_a ≡ value a.id
    → parse_int text_b ≡ value b.id
    → let w1 = (authenticate x token_a (quiet w)).1 in
      let w2 = (authenticate x token_b w1).1 in
      let w3 = (rest_of_delete text_b a (quiet w2)).1 in
      (authenticate x token_a (quiet w)).0 ≡ ok (some a)
      → (authenticate x token_b w1).0 ≡ ok (some b)
      → ((rest_of_delete text_b a (quiet w2)).0.code ≡ 200)
        × ((rest_of_delete text_a b (quiet w3)).0.code ≡ 200)
        × ¬ HasAdmin (rest_of_delete text_a b (quiet w3)).1
admins_delete_each_other x a b token_a token_b text_a text_b w n only s t e f g h =
    let w1 = (authenticate x token_a (quiet w)).1 in
    let w2 = (authenticate x token_b w1).1 in
    let w3 = (rest_of_delete text_b a (quiet w2)).1 in
    let same_a = authenticate_same x token_a (quiet w) in
    let same_b = authenticate_same x token_b w1 in
    let first = rest_deletes a text_b b.id w2 s f n in
    let second = rest_deletes b text_a a.id w3 t e (λ k. n (sym k)) in
    let users : w2.users ≡ w.users = ground (arith, same_a, same_b) in
    let left = second.0 ∙ ap (others a.id) (first.0 ∙ ap (others b.id) users) in
    (
      first.1,
      second.1,
      λ (j, (v, found, admin)).
          no_admin_left a.id b.id j w.users v only (sym (ap (find_if (has_id j)) left) ∙ found)
            admin,
    )
