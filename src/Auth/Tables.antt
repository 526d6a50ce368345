-- ===== src/Auth/Tables.antt =====
-- What the operations do to the table of users.
use cache_22_server.Prelude.{
  ℕ, suc, ◌≤◌, ◌<◌, Bool, true, false, none, some, List, [], ◌∷◌, ◌++◌, ◌≡◌, refl, Bytes, length,
  ◌==◌, nat_eq, list_eq, arith, find_if, exists_if, keep_if, if◌then◌else◌,
}
use cache_22_server.Entity.{User}
use cache_22_server.World.{Error, err, World, ok}
use cache_22_server.External.{External}
use cache_22_server.Db.Users.{normal_name, update_user}
use cache_22_server.Auth.{create_user, valid_username, min_pass_len}

module _ (x : External) where
  -- A new account stands last, under its normal name and the next id; its name was free.
  pub create_user_adds :
      (username password : Bytes) (admin : Bool) (u : User) (w : World)
      → (create_user x username password admin w).0 ≡ ok u
      → ((create_user x username password admin w).1.users ≡ w.users ++ u ∷ [])
        × (u.id ≡ w.next_id)
        × (u.username ≡ normal_name username)
        × (u.is_admin ≡ admin)
        × (valid_username username ≡ true)
        × (min_pass_len ≤ length password)
        × (exists_if (λ (v : User). v.username == u.username) w.users ≡ false)
  unfolding create_user
  create_user_adds username password admin u w h = ground arith

  -- A try that fails adds none.
  pub create_user_failed :
      (username password : Bytes) (admin : Bool) (c : Error) (w : World)
      → (create_user x username password admin w).0 ≡ err c
      → (create_user x username password admin w).1.users ≡ w.users
  unfolding create_user
  create_user_failed username password admin c w h = ground arith

-- The ids go up through the table, from `lo`, and stay below `hi`.
abbrev pub Ordered : ℕ → ℕ → List User → Type 0
Ordered lo hi [] = lo ≤ hi
Ordered lo hi (u ∷ us) = (lo ≤ u.id) × Ordered (suc u.id) hi us

abbrev pub has_id : ℕ → User → Bool
has_id id u = u.id == id

abbrev pub has_name : Bytes → User → Bool
has_name name u = u.username == name

-- No two accounts share a name.
abbrev pub DistinctNames : List User → Type 0
DistinctNames [] = Unit
DistinctNames (u ∷ us) = (exists_if (has_name u.username) us ≡ false) × DistinctNames us

pub Ordered-mono :
    (lo lo' hi hi' : ℕ) (us : List User)
    → lo' ≤ lo
    → hi ≤ hi'
    → Ordered lo hi us
    → Ordered lo' hi' us
Ordered-mono lo lo' hi hi' [] h k o = omega arith
Ordered-mono lo lo' hi hi' (u ∷ us) h k o =
    (omega arith, Ordered-mono (suc u.id) (suc u.id) hi hi' us (omega arith) k o.1)

pub Ordered-append :
    (lo hi : ℕ) (us : List User) (u : User)
    → Ordered lo hi us
    → u.id ≡ hi
    → Ordered lo (suc hi) (us ++ u ∷ [])
Ordered-append lo hi [] u o e = (omega arith, omega arith)
Ordered-append lo hi (v ∷ us) u o e = (o.0, Ordered-append (suc v.id) hi us u o.1 e)

pub Ordered-keep_if :
    (p : User → Bool) (lo hi : ℕ) (us : List User) → Ordered lo hi us → Ordered lo hi (keep_if p us)
Ordered-keep_if p lo hi [] o = o
Ordered-keep_if p lo hi (u ∷ us) o =
    ground (
      arith,
      Ordered-keep_if p (suc u.id) hi us o.1,
      Ordered-mono (suc u.id) lo hi hi (keep_if p us),
    )

-- An id below `lo` is not in the table.
pub Ordered-below :
    (id lo hi : ℕ) (us : List User) → Ordered lo hi us → id < lo → find_if (has_id id) us ≡ none
Ordered-below id lo hi [] o h = refl
Ordered-below id lo hi (u ∷ us) o h = ground (arith, Ordered-below id (suc u.id) hi us o.1)

-- An account found by any test is the one that its id finds.
pub find_by_id :
    (p : User → Bool) (lo hi : ℕ) (us : List User) (u : User)
    → Ordered lo hi us
    → find_if p us ≡ some u
    → (lo ≤ u.id) × (find_if (has_id u.id) us ≡ some u)
find_by_id p lo hi [] u o e = cc
find_by_id p lo hi (v ∷ us) u o e = ground (arith, find_by_id p (suc v.id) hi us u o.1)

pub find_if_update :
    (id j : ℕ) (f : User → User) (us : List User) (v : User)
    → ((u : User) → (f u).id ≡ u.id)
    → find_if (has_id j) us ≡ some v
    → find_if (has_id j) (update_user id f us) ≡ some (if v.id == id then f v else v)
find_if_update id j f [] v same e = cc
find_if_update id j f (u ∷ us) v same e = ground (arith, same u, find_if_update id j f us v same)
