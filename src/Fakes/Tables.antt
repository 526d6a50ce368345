-- ===== src/Fakes/Tables.antt =====
-- The maps of FakeUsers in internal/testutil/fakes.go as tables of the users of the database.
use cache_22_server.Prelude.{
  ◌<◌, ℕ, suc, Bool, true, false, not, Option, none, some, List, [], ◌∷◌, ◌++◌, map, ◌≡◌, refl, ap,
  Bytes, length, keep_if, find_if, exists_if, Eq, ◌==◌, nat_eq, list_eq, beq_refl, list_beq_iff,
  arith,
}
use cache_22_server.Prelude.Assoc.{Assoc, lookup, insert, erase}
use cache_22_server.Entity.{User}
use cache_22_server.Auth.Tables.{Ordered, DistinctNames, has_id, has_name}
use cache_22_server.Db.Users.{update_user}

-- The fakes have no clock.
abbrev pub undated : User → User
undated u = record u { created_at = 0 }

abbrev pub undated_if : Option User → Option User
undated_if none = none
undated_if (some u) = some (undated u)

module _ {K : Type 0} ⦃keys : Eq K⦄ (key : User → K) where
  -- The users under their keys.
  abbrev pub table : List User → Assoc K User
  table = map (λ (u : User). (key u, undated u))

  abbrev pub has_key : K → User → Bool
  has_key k u = key u == k

  pub length-table : (us : List User) → length (table us) ≡ length us
  length-table [] = refl
  length-table (u ∷ us) = ap suc (length-table us)

  pub lookup-table :
      (k : K) (us : List User) → lookup k (table us) ≡ undated_if (find_if (has_key k) us)
  unfolding lookup
  lookup-table k [] = refl
  lookup-table k (u ∷ us) = ground (arith, lookup-table k us)

  pub erase-table :
      (k : K) (us : List User) → erase k (table us) ≡ table (keep_if (λ u. not (has_key k u)) us)
  unfolding erase
  erase-table k [] = refl
  erase-table k (u ∷ us) = ground (arith, erase-table k us)

  pub insert-table :
      (u : User) (us : List User)
      → exists_if (has_key (key u)) us ≡ false
      → insert (key u) (undated u) (table us) ≡ table (us ++ u ∷ [])
  unfolding insert
  insert-table u [] h = refl
  insert-table u (v ∷ us) h = ground (arith, insert-table u us)

abbrev pub id_of : User → ℕ
id_of u = u.id

abbrev pub name_of : User → Bytes
name_of u = u.username

keep_if_absent :
    (n : Bytes) (us : List User)
    → exists_if (has_name n) us ≡ false
    → keep_if (λ u. not (has_name n u)) us ≡ us
keep_if_absent n [] h = refl
keep_if_absent n (u ∷ us) h = ground (arith, keep_if_absent n us)

keep_if_below :
    (id hi : ℕ) (us : List User) (lo : ℕ)
    → id < lo
    → Ordered lo hi us
    → keep_if (λ u. not (has_id id u)) us ≡ us
keep_if_below id hi [] lo h o = refl
keep_if_below id hi (u ∷ us) lo h o = ground (arith, keep_if_below id hi us (suc u.id))

update_below :
    (id hi : ℕ) (f : User → User) (us : List User) (lo : ℕ)
    → id < lo
    → Ordered lo hi us
    → update_user id f us ≡ us
update_below id hi f [] lo h o = refl
update_below id hi f (u ∷ us) lo h o = ground (arith, update_below id hi f us (suc u.id))

exists_name :
    (id : ℕ) (us : List User) (u : User)
    → find_if (has_id id) us ≡ some u
    → exists_if (has_name u.username) us ≡ true
exists_name id [] u e = cc
exists_name id (v ∷ us) u e = ground (arith, exists_name id us u, beq_refl u.username)

-- Without the name of a user the table is without the id.
pub keep_if_name :
    (id hi : ℕ) (us : List User) (u : User) (lo : ℕ)
    → Ordered lo hi us
    → DistinctNames us
    → find_if (has_id id) us ≡ some u
    → keep_if (λ v. not (has_name u.username v)) us ≡ keep_if (λ v. not (has_id id v)) us
keep_if_name id hi [] u lo o d e = cc
keep_if_name id hi (v ∷ us) u lo o d e = ground (
  arith,
  keep_if_absent u.username us,
  keep_if_below id hi us (suc v.id),
  keep_if_name id hi us u (suc v.id) o.1 d.1,
  exists_name id us u,
  list_beq_iff nat_eq v.username u.username,
)

pub insert-id_of :
    (id hi : ℕ) (f : User → User) (us : List User) (u : User) (lo : ℕ)
    → Ordered lo hi us
    → find_if (has_id id) us ≡ some u
    → (f u).id ≡ u.id
    → insert id (undated (f u)) (table id_of us) ≡ table id_of (update_user id f us)
unfolding insert
insert-id_of id hi f [] u lo o e k = cc
insert-id_of id hi f (v ∷ us) u lo o e k =
    ground (arith, insert-id_of id hi f us u (suc v.id) o.1, update_below id hi f us (suc v.id))

pub insert-name_of :
    (id hi : ℕ) (f : User → User) (us : List User) (u : User) (lo : ℕ)
    → Ordered lo hi us
    → DistinctNames us
    → find_if (has_id id) us ≡ some u
    → (f u).username ≡ u.username
    → insert u.username (undated (f u)) (table name_of us) ≡ table name_of (update_user id f us)
unfolding insert
insert-name_of id hi f [] u lo o d e k = cc
insert-name_of id hi f (v ∷ us) u lo o d e k = ground (
  arith,
  insert-name_of id hi f us u (suc v.id) o.1 d.1,
  update_below id hi f us (suc v.id),
  exists_name id us u,
  list_beq_iff nat_eq v.username u.username,
)
