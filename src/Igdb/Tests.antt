-- ===== src/Igdb/Tests.antt =====
-- Titles as in igdb_test.go, and the requests of two queries.
use cache_22_server.Prelude.{◌≡◌, ◌⊎◌, true, false, none, some, refl, [], ◌∷◌, codes}
use cache_22_server.Go.Text.{has_suffix, last_index}
use cache_22_server.Remote.{Reply, ask_token, query}
use cache_22_server.World.{World, empty_world}
use cache_22_server.Igdb.{clean_title, cover_big, token_locked, run_query, has_token, open_paren}
use cache_22_server.Igdb.Titles.{clean_title_ends}
use cache_22_server.Igdb.Tokens.{run_query-requests}

titles :
    (clean_title (codes "Ico (USA) (v1.00)") ≡ codes "Ico")
    × (clean_title (codes "Ico)") ≡ codes "Ico)")
    × (clean_title (codes "(demo)") ≡ codes "(demo)")
unfolding clean_title
titles = (refl, refl, refl)

big_url : cover_big (codes "//x/t_thumb/a.jpg") ≡ codes "https://x/t_cover_big/a.jpg"
unfolding cover_big
big_url = refl

clean_title_ends_example :
    (has_suffix (clean_title (codes "Ico (USA)")) (codes ")") ≡ false)
    ⊎ (last_index (clean_title (codes "Ico (USA)")) open_paren ≡ none)
    ⊎ (last_index (clean_title (codes "Ico (USA)")) open_paren ≡ some 0)
clean_title_ends_example = clean_title_ends (codes "Ico (USA)")

abbrev first_query : World
first_query = record empty_world {
  replies = Reply.granted (codes "key") 3600 ∷ Reply.undecodable ∷ Reply.undecodable ∷ [];
}

abbrev asked : World
asked = (run_query (codes "/games") (codes "a") first_query).1

run_query-requests_example :
    let w' = (run_query (codes "/games") (codes "b") asked).1 in
    ((has_token asked ≡ true)
      × (w'.token ≡ asked.token)
      × (w'.requests ≡ query asked.token (codes "/games") (codes "b") ∷ asked.requests))
    ⊎ ((has_token asked ≡ false) × (w'.requests ≡ ask_token ∷ asked.requests))
    ⊎ ((has_token asked ≡ false)
        × (w'.requests ≡ query w'.token (codes "/games") (codes "b") ∷ ask_token ∷ asked.requests))
run_query-requests_example = run_query-requests (codes "/games") (codes "b") asked

one_token :
    (run_query (codes "/games") (codes "b") asked).1.requests
    ≡ query (codes "key") (codes "/games") (codes "b")
      ∷ query (codes "key") (codes "/games") (codes "a")
      ∷ ask_token
      ∷ []
unfolding run_query token_locked
one_token = refl
