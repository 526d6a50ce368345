-- ===== src/Upload/Finalize/Outcome.antt =====
-- What a finalized upload leaves behind.
use cache_22_server.Prelude.{
  none, some, ◌≡◌, ◌≢◌, refl, Bytes, arith, beq_refl, list_eq, nat_eq, Option-cases, inl, inr,
  length, take,
}
use cache_22_server.Prelude.Assoc.{lookup, insert, lookup-insert}
use cache_22_server.Go.FilePath.{FilePath}
use cache_22_server.World.{World, ok, quiet, attempt}
use cache_22_server.External.{External}
use cache_22_server.Http.{Body}
use cache_22_server.Serial.{sanitize}
use cache_22_server.Scanner.{inspected, hash_bytes}
use cache_22_server.Upload.Store.{dir_of}
use cache_22_server.Upload.Finalize.{
  part_of, move_in, register, iso_path, retitled, finalize_upload, stat_ok,
}

module _ (x : External) (dir : FilePath) where
  pub register_files :
      (final : FilePath) (title : Bytes) (w : World)
      → (register x dir final title w).0.code ≡ 201
      → (register x dir final title w).1.files ≡ w.files
  unfolding register
  register_files final title w h = ground arith

  move_in_files :
      (id raw : Bytes) (final : FilePath) (w : World)
      → (dir_of id w).part ≡ some raw
      → (move_in (part_of id) final w).0 ≡ ok tt
      → (move_in (part_of id) final w).1.files ≡ insert final raw w.files
  unfolding move_in
  move_in_files id raw final w e h = ground arith

  pub stat_ok_world : (path : FilePath) (w : World) → (stat_ok path w).1 ≡ (attempt w).1
  unfolding stat_ok attempt
  stat_ok_world path w = ground arith

  pub attempt_same :
      (w : World) → ((attempt w).1.files ≡ w.files) × ((attempt w).1.uploads ≡ w.uploads)
  unfolding attempt
  attempt_same w = (refl, refl)

  -- Whatever fails on the way: if the answer is 201, the received bytes are the library's file.
  pub finalize_created :
      (id raw filename title serial : Bytes) (w : World)
      → sanitize filename ≡ some serial
      → (dir_of id w).part ≡ some raw
      → let (r, w') = finalize_upload x dir (part_of id) filename title w in
        r.code ≡ 201 → lookup (iso_path dir serial) w'.files ≡ some raw
  unfolding finalize_upload
  finalize_created id raw filename title serial w es ep h =
      let final = iso_path dir serial in
      let w1 = (attempt w).1 in
      ground (
        arith,
        stat_ok_world final w,
        attempt_same w,
        move_in_files id raw final w1,
        register_files final title (move_in (part_of id) final w1).1,
        lookup-insert final final raw w.files,
        beq_refl final,
      )

  -- Where nothing fails and the library has no such file, the answer is 201 with the game.
  pub finalize_quiet :
      (id raw filename title serial : Bytes) (w : World)
      → sanitize filename ≡ some serial
      → (dir_of id w).part ≡ some raw
      → lookup (iso_path dir serial) w.files ≡ none
      → (finalize_upload x dir (part_of id) filename title (quiet w)).0 ≡ record {
        code = 201;
        body = Body.game (
            retitled title
              (inspected x (iso_path dir serial) (length raw) (x.sha1 (take hash_bytes raw))));
      }
  unfolding finalize_upload register
  finalize_quiet id raw filename title serial w es ep free =
      let final = iso_path dir serial in
      ground (arith, lookup-insert final final raw w.files, beq_refl final)

  -- Without the received bytes there is no 201.
  pub finalize_lost :
      (id filename title : Bytes) (w : World)
      → (dir_of id w).part ≡ none
      → (finalize_upload x dir (part_of id) filename title w).0.code ≢ 201
  unfolding finalize_upload
  finalize_lost id filename title w ep h = elim (Option-cases (sanitize filename)) [
    | inl e ↦ ground arith
    | inr (serial, e) ↦ ground (arith, stat_ok_world (iso_path dir serial) w, attempt_same w)
  ]
