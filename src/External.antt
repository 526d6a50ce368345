-- ===== src/External.antt =====
-- What the program calls and does not implement: hashes, bcrypt and the database's collation, as
-- parameters of the model.
use cache_22_server.Prelude.{Bool, true, Option, some, List, Bytes, ◌≡◌}
use cache_22_server.Entity.{Game}

-- The hashes are printed in hex. `hash_password` takes the password and the salt, and gives nothing
-- where bcrypt refuses the password.
pub record External : Type 0 where
  pub sha1 : Bytes → Bytes
  pub sha256 : Bytes → Bytes
  pub hash_password : Bytes → Bytes → Option Bytes
  pub compare_password : Bytes → Bytes → Bool
  pub sorted_titles : List Game → List Game

-- bcrypt accepts the password that a hash was made from.
abbrev pub AcceptsOwn : External → Type 0
AcceptsOwn x =
    (password salt hash : Bytes)
    → x.hash_password password salt ≡ some hash
    → x.compare_password hash password ≡ true
