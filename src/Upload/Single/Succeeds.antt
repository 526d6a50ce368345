-- ===== src/Upload/Single/Succeeds.antt =====
-- An upload in one request where no call fails.
use cache_22_server.Prelude.{
  ℕ, true, false, none, some, List, [], ◌∷◌, ◌++◌, ◌≡◌, ◌≢◌, refl, sym, ◌∙◌, Bytes, codes, arith,
  beq_refl, list_eq, nat_eq, list_beq_iff, append_cancel_left, subst,
}
use cache_22_server.Prelude.Assoc.{lookup, insert, erase, lookup-insert, lookup-erase}
use cache_22_server.Go.FilePath.{FilePath}
use cache_22_server.World.{World, quiet}
use cache_22_server.External.{External}
use cache_22_server.Http.{Response}
use cache_22_server.Serial.{sanitize, starts_with_dot}
use cache_22_server.Serial.Safety.{sanitize-starts_with_dot}
use cache_22_server.Upload.Finalize.{temp, iso_path, register, finalize_upload}
use cache_22_server.Upload.Single.{
  part, part_path, is_iso_name, finish_parts, read_parts, upload_game,
}
use cache_22_server.Upload.Single.Leftovers.{first_file, receive-quiet, found}

names_apart :
    (random serial : Bytes)
    → starts_with_dot serial ≡ false
    → codes ".upload-" ++ (random ++ codes ".part") ≢ serial ++ codes ".iso"
names_apart random [] h e = cc
names_apart random (c ∷ s) h e = ground arith

paths_apart :
    (dir : FilePath) (random serial : Bytes)
    → starts_with_dot serial ≡ false
    → part_path dir random ≢ iso_path dir serial
paths_apart dir random serial h e =
    let last =
      append_cancel_left dir ((codes ".upload-" ++ (random ++ codes ".part")) ∷ [])
        ((serial ++ codes ".iso") ∷ []) e in
    names_apart random serial h (cc)

-- The answer is 201, the file is in the library, and the temporary file is gone.
abbrev pub Arrived : FilePath → FilePath → Bytes → Response × World → Type 0
Arrived path final raw out =
    (out.0.code ≡ 201) × (lookup final out.1.files ≡ some raw) × (lookup path out.1.files ≡ none)

module _ (x : External) (dir : FilePath) where
  finalize_arrives :
      (path : FilePath) (raw filename title serial : Bytes) (w : World)
      → sanitize filename ≡ some serial
      → w.faults ≡ []
      → lookup path w.files ≡ some raw
      → lookup (iso_path dir serial) w.files ≡ none
      → path ≢ iso_path dir serial
      → Arrived path (iso_path dir serial) raw (finalize_upload x dir (temp path) filename title w)
  unfolding finalize_upload register
  finalize_arrives path raw filename title serial w es quiet there free apart =
      let final = iso_path dir serial in
      ground (
        arith,
        lookup-insert final final raw (erase path w.files),
        lookup-insert final path raw (erase path w.files),
        lookup-erase path path w.files,
        beq_refl final,
        beq_refl path,
        list_beq_iff list_eq final path,
      )

  finish_arrives :
      (path : FilePath) (raw filename title serial : Bytes) (w : World)
      → sanitize filename ≡ some serial
      → w.faults ≡ []
      → lookup path w.files ≡ some raw
      → lookup (iso_path dir serial) w.files ≡ none
      → path ≢ iso_path dir serial
      → Arrived path
          (iso_path dir serial)
          raw
          (finish_parts x dir (record { tmp = some (path, filename); title = title }) w)
  unfolding finish_parts
  finish_arrives path raw filename title serial w es quiet there free apart =
      ground (arith, finalize_arrives path raw filename title serial w es quiet there free apart)

  -- Where no call fails: a whole file with an accepted name ending in .iso, for which the library has
  -- no game file yet, is answered with 201. It is in the library then, unchanged, and no temporary
  -- file is left.
  pub upload_game_succeeds :
      (name raw random serial : Bytes) (c : ℕ) (cs : Bytes) (rest : List Bytes) (w : World)
      → is_iso_name (c ∷ cs) ≡ true
      → sanitize (c ∷ cs) ≡ some serial
      → w.randoms ≡ random ∷ rest
      → lookup (part_path dir random) w.files ≡ none
      → lookup (iso_path dir serial) w.files ≡ none
      → Arrived
          (part_path dir random)
          (iso_path dir serial)
          raw
          (upload_game x dir (some (part name (c ∷ cs) raw true ∷ [])) (quiet w))
  unfolding upload_game
  upload_game_succeeds name raw random serial c cs rest w iso es e free fresh =
      let path = part_path dir random in
      let final = iso_path dir serial in
      let apart = paths_apart dir random serial (sanitize-starts_with_dot (c ∷ cs) serial es) in
      let files = insert path raw (insert path [] w.files) in
      let v : World = record w { faults = []; randoms = rest; files = files } in
      let run =
        first_file x dir [] name raw c cs (quiet w) iso
        ∙ receive-quiet dir raw random rest
            (λ path'. read_parts x dir [] (record { tmp = some (path', c ∷ cs); title = [] })) w e
            free in
      let none_there : lookup final files ≡ none = ground (
        arith,
        lookup-insert path final raw (insert path [] w.files),
        lookup-insert path final [] w.files,
        list_beq_iff list_eq path final,
      ) in
      subst (Arrived path final raw) (sym run)
        (finish_arrives path raw (c ∷ cs) [] serial v es refl (found path raw w) none_there apart)
