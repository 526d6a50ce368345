-- ===== src/Db/Games.antt =====
-- internal/infra/db/game_repository.go. `sorted` is the database's ORDER BY title, whose collation
-- is not the program's: a parameter.
use cache_22_server.Prelude.{ℕ, List, [], ◌∷◌, Bytes, find_if, ◌==◌, nat_eq, list_eq, if◌then◌else◌}
use cache_22_server.Entity.{Game}
use cache_22_server.World.{Action, no_rows, attempt, gets, modify, or_fail, ◌>>◌}

unfoldable pub list : (List Game → List Game) → Action (List Game)
unfolding attempt
list sorted = attempt >> gets (λ w. sorted w.games)

unfoldable pub get_by_serial : Bytes → Action Game
unfolding attempt
get_by_serial serial w =
    (attempt >> or_fail (find_if (λ (g : Game). g.serial == serial) w.games) no_rows) w

-- ON CONFLICT (serial) DO UPDATE: the time of creation stays.
unfoldable pub put_game : ℕ → Game → List Game → List Game
put_game now g [] = record g { created_at = now; updated_at = now } ∷ []
put_game now g (h ∷ hs) =
    if h.serial == g.serial
    then record g { created_at = h.created_at; updated_at = now } ∷ hs
    else h ∷ put_game now g hs

unfoldable pub upsert : Game → Action (Unit {0})
unfolding attempt put_game
upsert g = attempt >> modify λ w. record w { games = put_game w.now g w.games }
