-- ===== src/Upload/Single/Stored.antt =====
-- What an upload in one request that succeeds leaves in the library.
use cache_22_server.Prelude.{
  ℕ, Bool, true, Option, none, some, List, [], ◌∷◌, ◌≡◌, ◌≢◌, ◌⊎◌, inl, inr, refl, sym, ap, ◌∙◌,
  subst, Bytes, arith, beq_refl, list_eq, nat_eq, Option-cases,
}
use cache_22_server.Prelude.Assoc.{lookup, insert, erase, lookup-insert}
use cache_22_server.Go.FilePath.{FilePath}
use cache_22_server.World.{World, Proc, Result-cases, ok, attempt}
use cache_22_server.External.{External}
use cache_22_server.Http.{Response}
use cache_22_server.Serial.{sanitize}
use cache_22_server.Upload.Finalize.{temp, move_in, iso_path, finalize_upload}
use cache_22_server.Upload.Finalize.Outcome.{stat_ok_world, attempt_same, register_files}
use cache_22_server.Upload.Single.{
  Part, part, broken, Received, copy_part, create_temp, receive, with_field, first_iso,
  finish_parts, read_parts, upload_game,
}

-- A file of the request, received in full.
abbrev pub HasFile : Bytes → Bytes → List Part → Type 0
HasFile filename raw [] = ⊥
HasFile filename raw (p ∷ ps) =
    ((name : Bytes) × (p ≡ part name filename raw true)) ⊎ HasFile filename raw ps

abbrev pub InLibrary : FilePath → Bytes → Bytes → World → Type 0
InLibrary dir filename raw w =
    (serial : Bytes) × (sanitize filename ≡ some serial)
    × (lookup (iso_path dir serial) w.files ≡ some raw)

copy_part_ok :
    (path : FilePath) (raw : Bytes) (whole : Bool) (w : World)
    → (copy_part path raw whole w).0 ≡ ok tt
    → (whole ≡ true) × ((copy_part path raw whole w).1.files ≡ insert path raw w.files)
unfolding copy_part
copy_part_ok path raw whole w h = ground arith

lookup-copy_part :
    (path : FilePath) (raw : Bytes) (whole : Bool) (w : World)
    → (copy_part path raw whole w).0 ≡ ok tt
    → (whole ≡ true) × (lookup path (copy_part path raw whole w).1.files ≡ some raw)
lookup-copy_part path raw whole w h =
    ground
      (arith, copy_part_ok path raw whole w h, lookup-insert path path raw w.files, beq_refl path)

first_iso_runs :
    (tmp : Option (FilePath × Bytes)) (filename : Bytes) (file : Proc Response) (w : World)
    → tmp ≡ none
    → (first_iso tmp filename file w).0.code ≡ 201
    → first_iso tmp filename file w ≡ file w
unfolding first_iso
first_iso_runs none filename file w t h = ground arith
first_iso_runs (some held) filename file w t h = cc

first_iso_held :
    (tmp : Option (FilePath × Bytes)) (held : FilePath × Bytes) (filename : Bytes)
    (file : Proc Response) (w : World)
    → tmp ≡ some held
    → (first_iso tmp filename file w).0.code ≢ 201
unfolding first_iso
first_iso_held none held filename file w t h = cc
first_iso_held (some got) held filename file w t h = ground arith

-- A part goes on to the next round only with all of its content in a temporary file.
receive_stores :
    (dir : FilePath) (raw : Bytes) (whole : Bool) (next : FilePath → Proc Response) (w : World)
    → (receive dir raw whole next w).0.code ≡ 201
    → (path : FilePath) × (v : World) × (whole ≡ true)
      × (lookup path v.files ≡ some raw)
      × (receive dir raw whole next w ≡ next path v)
unfolding receive
receive_stores dir raw whole next w h =
    let w1 = (attempt w).1 in
    elim (Result-cases (attempt w).0) [
      | inl (e, k) ↦ absurd (ground arith)
      | inr (u, k) ↦ elim (Result-cases (create_temp dir w1).0) [
        | inl (e, j) ↦ absurd (ground arith)
        | inr (path, j) ↦
            let w2 = (create_temp dir w1).1 in
            elim (Result-cases (copy_part path raw whole w2).0) [
              | inl (e, i) ↦ absurd (ground arith)
              | inr (v, i) ↦
                  let (all, there) = lookup-copy_part path raw whole w2 i in
                  (path, (copy_part path raw whole w2).1, all, there, ground arith)
            ]
      ]
    ]

module _ (x : External) (dir : FilePath) where
  move_temp_files :
      (path final : FilePath) (raw : Bytes) (w : World)
      → lookup path w.files ≡ some raw
      → (move_in (temp path) final w).0 ≡ ok tt
      → (move_in (temp path) final w).1.files ≡ insert final raw (erase path w.files)
  unfolding move_in
  move_temp_files path final raw w e h = ground arith

  finalize_temp :
      (path : FilePath) (raw filename title serial : Bytes) (w : World)
      → sanitize filename ≡ some serial
      → lookup path w.files ≡ some raw
      → (finalize_upload x dir (temp path) filename title w).0.code ≡ 201
      → lookup (iso_path dir serial) (finalize_upload x dir (temp path) filename title w).1.files
        ≡ some raw
  unfolding finalize_upload
  finalize_temp path raw filename title serial w es ep h =
      let final = iso_path dir serial in
      let w1 = (attempt w).1 in
      ground (
        arith,
        stat_ok_world x dir final w,
        attempt_same x dir w,
        move_temp_files path final raw w1,
        register_files x dir final title (move_in (temp path) final w1).1,
        lookup-insert final final raw (erase path w.files),
        beq_refl final,
      )

  finalize_unnamed :
      (path : FilePath) (filename title : Bytes) (w : World)
      → sanitize filename ≡ none
      → (finalize_upload x dir (temp path) filename title w).0.code ≢ 201
  unfolding finalize_upload
  finalize_unnamed path filename title w e h = ground arith

  finalize_named :
      (path : FilePath) (raw filename title : Bytes) (w : World)
      → lookup path w.files ≡ some raw
      → (finalize_upload x dir (temp path) filename title w).0.code ≡ 201
      → InLibrary dir filename raw (finalize_upload x dir (temp path) filename title w).1
  finalize_named path raw filename title w e h = elim (Option-cases (sanitize filename)) [
    | inl n ↦ absurd (finalize_unnamed path filename title w n h)
    | inr (serial, n) ↦ (serial, n, finalize_temp path raw filename title serial w n e h)
  ]

  finish_stored :
      (got : Received) (path : FilePath) (raw filename : Bytes) (w : World)
      → got.tmp ≡ some (path, filename)
      → lookup path w.files ≡ some raw
      → (finish_parts x dir got w).0.code ≡ 201
      → InLibrary dir filename raw (finish_parts x dir got w).1
  unfolding finish_parts
  finish_stored got path raw filename w t e h =
      let (serial, n, there) = finalize_named path raw filename got.title w e (ground arith) in
      (serial, n, ground (arith, there))

  with_field_tmp : (name text : Bytes) (got : Received) → (with_field name text got).tmp ≡ got.tmp
  with_field_tmp name text got = ground arith

  held_stored :
      (ps : List Part) (got : Received) (path : FilePath) (raw filename : Bytes) (w : World)
      → got.tmp ≡ some (path, filename)
      → lookup path w.files ≡ some raw
      → (read_parts x dir ps got w).0.code ≡ 201
      → InLibrary dir filename raw (read_parts x dir ps got w).1
  unfolding read_parts
  held_stored [] got path raw filename w t e h = finish_stored got path raw filename w t e h
  held_stored (broken ∷ ps) got path raw filename w t e h = absurd (ground arith)
  held_stored (part name [] text whole ∷ ps) got path raw filename w t e h =
      held_stored ps (with_field name text got) path raw filename w
        (with_field_tmp name text got ∙ t) e h
  held_stored (part name (c ∷ cs) text whole ∷ ps) got path raw filename w t e h = absurd (
      first_iso_held got.tmp (path, filename) (c ∷ cs)
        (receive dir text whole
          (λ path. read_parts x dir ps (record got { tmp = some (path, c ∷ cs) })))
        w t h)

  finish_empty :
      (got : Received) (w : World) → got.tmp ≡ none → (finish_parts x dir got w).0.code ≢ 201
  unfolding finish_parts
  finish_empty got w t h = ground arith

  abbrev next_round : List Part → Received → Bytes → FilePath → Proc Response
  next_round ps got filename =
      λ path. read_parts x dir ps (record got { tmp = some (path, filename) })

  read_first_file :
      (ps : List Part) (got : Received) (name raw : Bytes) (c : ℕ) (cs : Bytes) (whole : Bool)
      (w : World)
      → got.tmp ≡ none
      → (read_parts x dir (part name (c ∷ cs) raw whole ∷ ps) got w).0.code ≡ 201
      → read_parts x dir (part name (c ∷ cs) raw whole ∷ ps) got w
        ≡ receive dir raw whole
            (λ path. read_parts x dir ps (record got { tmp = some (path, c ∷ cs) }))
            w
  unfolding read_parts
  read_first_file ps got name raw c cs whole w t h =
      first_iso_runs got.tmp (c ∷ cs)
        (receive dir raw whole
          (λ path. read_parts x dir ps (record got { tmp = some (path, c ∷ cs) })))
        w t h

  InLibrary-same :
      (filename raw : Bytes) (v w : World)
      → v ≡ w
      → InLibrary dir filename raw w
      → InLibrary dir filename raw v
  InLibrary-same filename raw v w e = subst (InLibrary dir filename raw) (sym e)

  free_stored :
      (ps : List Part) (got : Received) (w : World)
      → got.tmp ≡ none
      → (read_parts x dir ps got w).0.code ≡ 201
      → (filename : Bytes) × (raw : Bytes) × HasFile filename raw ps
        × InLibrary dir filename raw (read_parts x dir ps got w).1
  unfolding read_parts
  free_stored [] got w t h = absurd (finish_empty got w t h)
  free_stored (broken ∷ ps) got w t h = absurd (ground arith)
  free_stored (part name [] text whole ∷ ps) got w t h =
      let (filename, raw, has, there) =
        free_stored ps (with_field name text got) w (with_field_tmp name text got ∙ t) h in
      (filename, raw, inr has, there)
  free_stored (part name (c ∷ cs) raw whole ∷ ps) got w t h =
      let run = read_first_file ps got name raw c cs whole w t h in
      let (path, v, all, there, step) =
        receive_stores dir raw whole (next_round ps got (c ∷ cs)) w
          (ap (λ (r : Response × World). r.0.code) (sym run) ∙ h) in
      let same = run ∙ step in
      let now : Received = record got { tmp = some (path, c ∷ cs) } in
      let stored =
        held_stored ps now path raw (c ∷ cs) v refl there
          (ap (λ (r : Response × World). r.0.code) (sym same) ∙ h) in
      (
        c ∷ cs,
        raw,
        inl (name, ap (part name (c ∷ cs) raw) all),
        InLibrary-same (c ∷ cs) raw (read_parts x dir (part name (c ∷ cs) raw whole ∷ ps) got w).1
            (read_parts x dir ps now v).1 (ap (λ (r : Response × World). r.1) same) stored,
      )

  -- Whatever calls fail: an upload in one request that answers 201 brought a file in full, and the
  -- library has that file, unchanged, under the serial of its name.
  pub upload_game_stores :
      (parts : List Part) (w : World)
      → (upload_game x dir (some parts) w).0.code ≡ 201
      → (filename : Bytes) × (raw : Bytes) × HasFile filename raw parts
        × InLibrary dir filename raw (upload_game x dir (some parts) w).1
  unfolding upload_game
  upload_game_stores parts w h = free_stored parts (record { tmp = none; title = [] }) w refl h
