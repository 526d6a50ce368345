-- ===== src/Upload/Single/Tests.antt =====
-- An upload with a title behind its file, and one with two files.
use cache_22_server.Prelude.{true, none, some, [], ◌∷◌, ◌≡◌, refl, codes, Bytes, list_eq, nat_eq}
use cache_22_server.Prelude.Assoc.{lookup, insert, erase}
use cache_22_server.Go.FilePath.{FilePath}
use cache_22_server.Go.Text.{to_lower, has_suffix, trim_space}
use cache_22_server.World.{World, empty_world, quiet}
use cache_22_server.Samples.{plain}
use cache_22_server.Serial.{sanitize}
use cache_22_server.Upload.Finalize.{iso_path, finalize_upload, register}
use cache_22_server.Upload.Single.{
  Part, part, is_iso_name, part_path, read_parts, receive, create_temp, copy_part, upload_game,
  first_iso, free_temp, finish_parts,
}
use cache_22_server.Upload.Single.Stored.{HasFile, InLibrary, upload_game_stores}
use cache_22_server.Upload.Single.Succeeds.{Arrived, upload_game_succeeds}

abbrev shelf : FilePath
shelf = codes "lib" ∷ []

abbrev ready : World
ready = record empty_world { randoms = codes "77" ∷ [] }

abbrev ico_file : Part
ico_file = part (codes "file") (codes "ico.iso") (codes "abc") true

abbrev title_field : Part
title_field = part (codes "title") [] (codes "Ico") true

ico_uploaded : (upload_game plain shelf (some (ico_file ∷ title_field ∷ [])) ready).0.code ≡ 201
unfolding upload_game read_parts first_iso receive create_temp copy_part free_temp finalize_upload
    register to_lower has_suffix trim_space sanitize lookup finish_parts insert erase
ico_uploaded = refl

upload_game_stores_example :
    (filename : Bytes) × (raw : Bytes) × HasFile filename raw (ico_file ∷ title_field ∷ [])
    × InLibrary shelf filename raw
        (upload_game plain shelf (some (ico_file ∷ title_field ∷ [])) ready).1
upload_game_stores_example =
    upload_game_stores plain shelf (ico_file ∷ title_field ∷ []) ready ico_uploaded

iso_named : is_iso_name (codes "ico.iso") ≡ true
unfolding to_lower has_suffix
iso_named = refl

nothing_there : lookup (part_path shelf (codes "77")) ready.files ≡ none
unfolding lookup
nothing_there = refl

nothing_there_either : lookup (iso_path shelf (codes "ico")) ready.files ≡ none
unfolding lookup
nothing_there_either = refl

ico_named : sanitize (codes "ico.iso") ≡ some (codes "ico")
unfolding sanitize trim_space
ico_named = refl

upload_game_succeeds_example :
    Arrived
      (part_path shelf (codes "77"))
      (iso_path shelf (codes "ico"))
      (codes "abc")
      (upload_game plain shelf (some (ico_file ∷ [])) (quiet ready))
upload_game_succeeds_example =
    upload_game_succeeds plain shelf (codes "file") (codes "abc") (codes "77") (codes "ico") b'i'
      (codes "co.iso") [] ready iso_named ico_named refl nothing_there nothing_there_either
