-- ===== src/Db/Schema/Users.antt =====
-- The table of users, and the rows that refer to it, under the statements.
use cache_22_server.Prelude.{
  ℕ, Bool, false, not, List, [], ◌∷◌, ◌++◌, ◌≡◌, ◌≢◌, refl, Bytes, exists_if, keep_if,
  exists_if-append, ◌==◌, nat_eq, list_eq, list_beq_iff, arith,
}
use cache_22_server.Entity.{User, Save}
use cache_22_server.Db.Users.{update_user}
use cache_22_server.Db.Saves.{put_save}
use cache_22_server.Auth.Tables.{DistinctNames, has_id, has_name}
use cache_22_server.Db.Schema.{Owned, IsUser, card_owner}
use cache_22_server.Db.Schema.Keys.{exists_if-keep_if}

pub DistinctNames-keep_if :
    (p : User → Bool) (us : List User) → DistinctNames us → DistinctNames (keep_if p us)
DistinctNames-keep_if p [] d = tt
DistinctNames-keep_if p (u ∷ us) (n, d) =
    ground (arith, exists_if-keep_if (has_name u.username) p us n, DistinctNames-keep_if p us d)

pub DistinctNames-append :
    (us : List User) (u : User)
    → DistinctNames us
    → exists_if (has_name u.username) us ≡ false
    → DistinctNames (us ++ u ∷ [])
DistinctNames-append [] u d n = (refl, tt)
DistinctNames-append (v ∷ us) u (m, d) n = ground (
  arith,
  exists_if-append (has_name v.username) us (u ∷ []),
  list_beq_iff nat_eq v.username u.username,
  list_beq_iff nat_eq u.username v.username,
  DistinctNames-append us u d,
)

module _ (id : ℕ) (f : User → User) (same_id : (u : User) → (f u).id ≡ u.id) where
  pub exists_id-update_user :
      (j : ℕ) (us : List User)
      → exists_if (has_id j) (update_user id f us) ≡ exists_if (has_id j) us
  exists_id-update_user j [] = refl
  exists_id-update_user j (u ∷ us) = ground (arith, same_id u, exists_id-update_user j us)

  module _ (same_name : (u : User) → (f u).username ≡ u.username) where
    exists_name-update_user :
        (name : Bytes) (us : List User)
        → exists_if (has_name name) (update_user id f us) ≡ exists_if (has_name name) us
    exists_name-update_user name [] = refl
    exists_name-update_user name (u ∷ us) =
        ground (arith, same_name u, exists_name-update_user name us)

    pub DistinctNames-update_user :
        (us : List User) → DistinctNames us → DistinctNames (update_user id f us)
    DistinctNames-update_user [] d = tt
    DistinctNames-update_user (u ∷ us) (n, d) =
        ground (
          arith,
          same_name u,
          exists_name-update_user u.username us,
          DistinctNames-update_user us d,
        )

exists_other :
    (id j : ℕ) (us : List User)
    → j ≢ id
    → exists_if (has_id j) (keep_if (λ (u : User). not (u.id == id)) us) ≡ exists_if (has_id j) us
exists_other id j [] n = refl
exists_other id j (u ∷ us) n = ground (arith, exists_other id j us n)

module _ {A : Type 0} (owner : A → ℕ) where
  pub Owned-mono :
      (us vs : List User) (rows : List A)
      → ((j : ℕ) → IsUser us j → IsUser vs j)
      → Owned owner us rows
      → Owned owner vs rows
  Owned-mono us vs [] more o = tt
  Owned-mono us vs (a ∷ rows) more (u, o) = (more (owner a) u, Owned-mono us vs rows more o)

  pub Owned-keep_if :
      (p : A → Bool) (us : List User) (rows : List A)
      → Owned owner us rows
      → Owned owner us (keep_if p rows)
  Owned-keep_if p us [] o = tt
  Owned-keep_if p us (a ∷ rows) (u, o) = ground (arith, Owned-keep_if p us rows o)

  -- ON DELETE CASCADE: with the user go the rows that refer to it.
  pub Owned-cascade :
      (id : ℕ) (us : List User) (rows : List A)
      → Owned owner us rows
      → Owned owner
          (keep_if (λ (u : User). not (u.id == id)) us)
          (keep_if (λ (a : A). not (owner a == id)) rows)
  Owned-cascade id us [] o = tt
  Owned-cascade id us (a ∷ rows) (u, o) =
      ground (arith, exists_other id (owner a) us, Owned-cascade id us rows o)

pub Owned-put_save :
    (now : ℕ) (s : Save) (us : List User) (ts : List Save)
    → IsUser us s.user_id
    → Owned card_owner us ts
    → Owned card_owner us (put_save now s ts)
unfolding put_save
Owned-put_save now s us [] u o = (u, tt)
Owned-put_save now s us (t ∷ ts) u (v, o) = ground (arith, Owned-put_save now s us ts u o)
