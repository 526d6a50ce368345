-- ===== src/Db/Saves.antt =====
-- internal/infra/db/save_repository.go. A save is known by its user, serial and slot.
use cache_22_server.Prelude.{
  ℕ, Bool, not, ◌&&◌, List, [], ◌∷◌, Bytes, find_if, keep_if, exists_if, ◌==◌, nat_eq, list_eq,
  if◌then◌else◌,
}
use cache_22_server.Entity.{Save, User}
use cache_22_server.World.{Action, ok, err, no_rows, constraint, attempt, modify, or_fail, ◌>>◌}

abbrev pub is_save : ℕ → Bytes → ℕ → Save → Bool
is_save user_id serial slot s = s.user_id == user_id && (s.serial == serial && s.slot == slot)

unfoldable pub get : ℕ → Bytes → ℕ → Action Save
unfolding attempt
get user_id serial slot w =
    (attempt >> or_fail (find_if (is_save user_id serial slot) w.saves) no_rows) w

-- DO UPDATE leaves the flag `public` as it was.
unfoldable pub put_save : ℕ → Save → List Save → List Save
put_save now s [] = record s { updated_at = now } ∷ []
put_save now s (t ∷ ts) =
    if is_save s.user_id s.serial s.slot t
    then record t { sha256 = s.sha256; size = s.size; updated_at = now } ∷ ts
    else t ∷ put_save now s ts

-- The user must be there.
unfoldable pub write_save : Save → Action (Unit {0})
unfolding put_save
write_save s w =
    if exists_if (λ (u : User). u.id == s.user_id) w.users
    then (ok tt, record w { saves = put_save w.now s w.saves })
    else (err constraint, w)

unfoldable pub upsert : Save → Action (Unit {0})
unfolding attempt write_save
upsert s = attempt >> write_save s

unfoldable pub delete : ℕ → Bytes → ℕ → Action (Unit {0})
unfolding attempt
delete user_id serial slot =
    attempt
    >> modify λ w. record w { saves = keep_if (λ s. not (is_save user_id serial slot s)) w.saves }
