-- ===== src/Upload/Finalize/Apart.antt =====
-- Finalizing an upload leaves the accounts alone.
use cache_22_server.Prelude.{Bytes, arith, Option-cases, inl, inr}
use cache_22_server.Go.FilePath.{FilePath}
use cache_22_server.World.{attempt}
use cache_22_server.External.{External}
use cache_22_server.Serial.{sanitize}
use cache_22_server.Disk.{remove_file}
use cache_22_server.Db
use cache_22_server.Scanner.Apart.{inspect-Apart}
use cache_22_server.Apart.{Apart}
use cache_22_server.Upload.Finalize.{
  Source, part_of, temp, move_in, stat_ok, iso_path, register, finalize_upload,
}

move_in-Apart : (src : Source) (final : FilePath) → Apart (move_in src final)
unfolding move_in attempt
move_in-Apart (part_of id) final w = ground arith
move_in-Apart (temp path) final w = ground arith

pub stat_ok-Apart : (path : FilePath) → Apart (stat_ok path)
unfolding stat_ok attempt
stat_ok-Apart path w = ground arith

module _ (x : External) (dir : FilePath) where
  register-Apart : (final : FilePath) (title : Bytes) → Apart (register x dir final title)
  unfolding register Db.Games.upsert remove_file
  register-Apart final title w = ground (arith, inspect-Apart x final w)

  pub finalize_upload-Apart :
      (src : Source) (filename title : Bytes) → Apart (finalize_upload x dir src filename title)
  unfolding finalize_upload
  finalize_upload-Apart src filename title w = elim (Option-cases (sanitize filename)) [
    | inl n ↦ ground arith
    | inr (serial, n) ↦
        let final = iso_path dir serial in
        let w1 = (stat_ok final w).1 in
        let w2 = (move_in src final w1).1 in
        ground
          (arith, stat_ok-Apart final w, move_in-Apart src final w1, register-Apart final title w2)
  ]
