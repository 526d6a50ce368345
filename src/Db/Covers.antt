-- ===== src/Db/Covers.antt =====
-- internal/infra/db/cover_repository.go
use cache_22_server.Prelude.{
  ℕ, not, List, [], ◌∷◌, Bytes, find_if, keep_if, exists_if, ◌==◌, nat_eq, list_eq, if◌then◌else◌,
}
use cache_22_server.Entity.{Cover}
use cache_22_server.World.{Action, no_rows, attempt, gets, modify, pure, or_fail, ◌>>◌}

unfoldable pub get_by_serial : Bytes → Action Cover
unfolding attempt
get_by_serial serial w =
    (attempt >> or_fail (find_if (λ (c : Cover). c.serial == serial) w.covers) no_rows) w

unfoldable pub put_cover : ℕ → Cover → List Cover → List Cover
put_cover now c [] = record c { fetched_at = now } ∷ []
put_cover now c (d ∷ ds) =
    if d.serial == c.serial then record c { fetched_at = now } ∷ ds else d ∷ put_cover now c ds

unfoldable pub upsert : Cover → Action (Unit {0})
unfolding attempt put_cover
upsert c = attempt >> modify λ w. record w { covers = put_cover w.now c w.covers }

-- the serials that the left join finds no cover for
unfoldable pub missing_serials : List Bytes → Action (List Bytes)
unfolding attempt
missing_serials [] = pure []
missing_serials (s ∷ ss) =
    attempt
    >> gets λ w.
      keep_if (λ serial. not (exists_if (λ (c : Cover). c.serial == serial) w.covers)) (s ∷ ss)
