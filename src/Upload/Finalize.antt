-- ===== src/Upload/Finalize.antt =====
-- finalizeUpload of internal/handler/http/upload.go: a file that was received in full moves into
-- the library and becomes a game. The backfill of covers that it starts runs apart from it.
pub mod Apart
pub mod Outcome
pub mod Race
mod Tests
use cache_22_server.Disk.{remove_file}
use cache_22_server.Prelude.{
  Bool, true, false, none, some, [], ◌∷◌, ◌++◌, Bytes, codes, ◌==◌, nat_eq, list_eq, if◌then◌else◌,
}
use cache_22_server.Prelude.Assoc.{Assoc, lookup, insert, erase}
use cache_22_server.Go.FilePath.{FilePath}
use cache_22_server.Entity.{Game}
use cache_22_server.World.{World, Proc, Action, ok, err, not_exist, attempt, handle, modify, ◌>>◌}
use cache_22_server.External.{External}
use cache_22_server.Http.{Response, Body, problem_response, respond}
use cache_22_server.Serial.{sanitize}
use cache_22_server.Scanner.{inspect}
use cache_22_server.Upload.Store.{dir_of, set_dir}
use cache_22_server.Db

-- Where the received bytes lie: data.part of a session, or a temporary file in the library.
pub data Source : Type 0 where
  part_of : Bytes → Source
  temp : FilePath → Source

abbrev pub exists_file : FilePath → Assoc FilePath Bytes → Bool
exists_file path files = elim (lookup path files) [ none ↦ false | some raw ↦ true ]

-- `os.Stat(path)` with no error; a failing call counts as "not there"
unfoldable pub stat_ok : FilePath → Proc Bool
unfolding attempt
stat_ok path = handle attempt (λ e w. (false, w)) (λ u w. (exists_file path w.files, w))

-- os.Rename, which replaces a file that is there
unfoldable pub move_in : Source → FilePath → Action (Unit {0})
unfolding attempt
move_in (part_of id) final w = elim (dir_of id w).part [
  | none ↦ (attempt >> (λ w'. (err not_exist, w'))) w
  | some raw ↦
      (attempt
          >> modify λ w'.
            set_dir id (record (dir_of id w') { part = none })
              (record w' { files = insert final raw w'.files }))
        w
]
move_in (temp path) final w = elim (lookup path w.files) [
  | none ↦ (attempt >> (λ w'. (err not_exist, w'))) w
  | some raw ↦
      (attempt >> modify λ w'. record w' { files = insert final raw (erase path w'.files) }) w
]

abbrev pub iso_path : FilePath → Bytes → FilePath
iso_path dir serial = dir ++ (serial ++ codes ".iso") ∷ []

abbrev pub retitled : Bytes → Game → Game
retitled title g = if title == [] then g else record g { title = title }

module _ (x : External) (dir : FilePath) where
  -- Inspect and RegisterGame; where one of them fails the file goes again.
  unfoldable pub register : FilePath → Bytes → Proc Response
  unfolding inspect Db.Games.upsert remove_file
  register final title =
      handle (inspect x final) (λ e w. (problem_response 500 "internal error", remove_file final w))
        λ g.
          handle (Db.Games.upsert (retitled title g))
            (λ e w. (problem_response 500 "internal error", remove_file final w))
            λ u. respond 201 (Body.game (retitled title g))

  unfoldable pub move_and_register : Source → FilePath → Bytes → Proc Response
  unfolding move_in
  move_and_register src final title =
      handle (move_in src final) (λ e w. (problem_response 500 "internal error", w))
        λ u. register final title

  pub finalize_serial : Source → Bytes → Bytes → Proc Response
  unfolding stat_ok move_and_register
  finalize_serial src serial title w =
      let (there, w') = stat_ok (iso_path dir serial) w in
      if there
      then (problem_response 409 "game already exists", w')
      else move_and_register src (iso_path dir serial) title w'

  -- The file's name and the title that overrides it come from the request.
  unfoldable pub finalize_upload : Source → Bytes → Bytes → Proc Response
  unfolding finalize_serial
  finalize_upload src filename title w = elim (sanitize filename) [
    | none ↦ (problem_response 400 "bad filename", w)
    | some serial ↦ finalize_serial src serial title w
  ]
