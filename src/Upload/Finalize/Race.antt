-- ===== src/Upload/Finalize/Race.antt =====
-- Two uploads of one serial that both look for the game before either of them moves its file in.
use cache_22_server.Prelude.{
  [], Bool, false, none, some, ◌≡◌, ◌≢◌, ap, ◌∙◌, Bytes, arith, beq_refl, list_eq, nat_eq,
  list_beq_iff, if◌then◌else◌,
}
use cache_22_server.Prelude.Assoc.{lookup, lookup-insert}
use cache_22_server.Go.FilePath.{FilePath}
use cache_22_server.World.{World, Proc, quiet, attempt}
use cache_22_server.External.{External}
use cache_22_server.Http.{Response, problem_response}
use cache_22_server.Upload.Store.{dir_of}
use cache_22_server.Upload.Finalize.{Source, part_of, register, move_and_register, stat_ok}

module _ (x : External) (dir : FilePath) where
  -- What is left of finalizeUpload once os.Stat has answered.
  abbrev pub rest_of_finalize : Bool → Source → FilePath → Bytes → Proc Response
  rest_of_finalize there src final title w =
      if there
      then (problem_response 409 "game already exists", w)
      else move_and_register x dir src final title w

  rest_stores :
      (id raw title : Bytes) (final : FilePath) (w : World)
      → (dir_of id w).part ≡ some raw
      → let (r, w') = rest_of_finalize false (part_of id) final title (quiet w) in
        (r.code ≡ 201) × (lookup final w'.files ≡ some raw)
  unfolding move_and_register register
  rest_stores id raw title final w e =
      ground (arith, lookup-insert final final raw w.files, beq_refl final)

  rest_keeps :
      (id other raw title : Bytes) (final : FilePath) (w : World)
      → id ≢ other
      → (dir_of id w).part ≡ some raw
      → (dir_of other (rest_of_finalize false (part_of id) final title (quiet w)).1).part
        ≡ (dir_of other w).part
  unfolding move_and_register register
  rest_keeps id other raw title final w n e = ground (
    arith,
    lookup-insert id other (record (dir_of id w) { part = none }) w.uploads,
    lookup-insert final final raw w.files,
    beq_refl final,
    list_beq_iff nat_eq id other,
  )

  stat_free :
      (final : FilePath) (w : World)
      → lookup final w.files ≡ none
      → let (there, w') = stat_ok final (quiet w) in
        (there ≡ false) × (w'.files ≡ w.files) × (w'.uploads ≡ w.uploads) × (w'.faults ≡ [])
  unfolding stat_ok attempt
  stat_free final w e = ground arith

  -- Where both of two sessions are received in full and the library has no file under the serial,
  -- both completions ask for it, and only then each of the two goes on and no call fails, both are
  -- answered with 201, and the file of the second has taken the place of that of the first.
  pub second_upload_replaces :
      (id other raw raw' title title' : Bytes) (final : FilePath) (w : World)
      → id ≢ other
      → (dir_of id w).part ≡ some raw
      → (dir_of other w).part ≡ some raw'
      → lookup final w.files ≡ none
      → let (there, w1) = stat_ok final (quiet w) in
        let (there', w2) = stat_ok final (quiet w1) in
        let (r, w3) = rest_of_finalize there (part_of id) final title (quiet w2) in
        let (r', w4) = rest_of_finalize there' (part_of other) final title' (quiet w3) in
        (r.code ≡ 201)
        × (lookup final w3.files ≡ some raw)
        × (r'.code ≡ 201)
        × (lookup final w4.files ≡ some raw')
  second_upload_replaces id other raw raw' title title' final w n e e' free =
      let w1 = (stat_ok final (quiet w)).1 in
      let w2 = (stat_ok final (quiet w1)).1 in
      let there = stat_free final w free in
      let there' = stat_free final w1 (ap (lookup final) there.1 ∙ free) in
      let uploads : w2.uploads ≡ w.uploads = ground (arith, there, there') in
      let part : (dir_of id w2).part ≡ some raw = rw uploads e in
      let part' : (dir_of other w2).part ≡ some raw' = rw uploads e' in
      let first = rest_stores id raw title final w2 part in
      let w3 = (rest_of_finalize false (part_of id) final title (quiet w2)).1 in
      let second =
        rest_stores other raw' title' final w3
          (rest_keeps id other raw title final w2 n part ∙ part') in
      rw (there.0, there'.0) (first.0, first.1, second.0, second.1)
