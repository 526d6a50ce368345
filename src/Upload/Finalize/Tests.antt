-- ===== src/Upload/Finalize/Tests.antt =====
-- Two sessions of one serial that are completed side by side.
use cache_22_server.Prelude.{none, some, [], ◌∷◌, ◌≡◌, ◌≢◌, refl, codes, list_eq, nat_eq}
use cache_22_server.Prelude.Assoc.{lookup}
use cache_22_server.Go.FilePath.{FilePath}
use cache_22_server.World.{World, empty_world, quiet}
use cache_22_server.Samples.{plain}
use cache_22_server.Upload.Store.{dir_of}
use cache_22_server.Upload.Finalize.{part_of, stat_ok}
use cache_22_server.Upload.Finalize.Race.{rest_of_finalize, second_upload_replaces}

abbrev ico : FilePath
ico = codes "lib" ∷ codes "ico.iso" ∷ []

abbrev both_received : World
both_received = record empty_world {
  uploads =
      (codes "a", record { meta = none; part = some (codes "one") })
      ∷ (codes "aa", record { meta = none; part = some (codes "two") })
      ∷ [];
}

first_part : (dir_of (codes "a") both_received).part ≡ some (codes "one")
unfolding lookup
first_part = refl

second_part : (dir_of (codes "aa") both_received).part ≡ some (codes "two")
unfolding lookup
second_part = refl

no_game : lookup ico both_received.files ≡ none
unfolding lookup
no_game = refl

a_is_not_aa : codes "a" ≢ codes "aa"
a_is_not_aa e = cc

second_upload_replaces_example :
    let (there, w1) = stat_ok ico (quiet both_received) in
    let (there', w2) = stat_ok ico (quiet w1) in
    let (r, w3) =
      rest_of_finalize plain (codes "lib" ∷ []) there (part_of (codes "a")) ico [] (quiet w2) in
    let (r', w4) =
      rest_of_finalize plain (codes "lib" ∷ []) there' (part_of (codes "aa")) ico [] (quiet w3) in
    (r.code ≡ 201)
    × (lookup ico w3.files ≡ some (codes "one"))
    × (r'.code ≡ 201)
    × (lookup ico w4.files ≡ some (codes "two"))
second_upload_replaces_example =
    second_upload_replaces plain (codes "lib" ∷ []) (codes "a") (codes "aa") (codes "one")
      (codes "two") [] [] ico both_received a_is_not_aa first_part second_part no_game
