-- ===== src/Upload/Single/Apart.antt =====
-- An upload in one request leaves the accounts alone.
use cache_22_server.Prelude.{
  refl, Option, none, some, List, [], ◌∷◌, Bytes, Bool, arith, Option-cases, inl, inr,
}
use cache_22_server.Go.FilePath.{FilePath}
use cache_22_server.World.{Proc, attempt, handle}
use cache_22_server.External.{External}
use cache_22_server.Http.{raise_with, Response, refuse}
use cache_22_server.Disk.{remove_file}
use cache_22_server.Disk.Apart.{remove_file-Apart}
use cache_22_server.Apart.{Apart, attempt-Apart, handle-Apart}
use cache_22_server.Upload.Finalize.{temp, finalize_upload}
use cache_22_server.Upload.Finalize.Apart.{finalize_upload-Apart}
use cache_22_server.Upload.Single.{
  Part, part, broken, Received, create_temp, copy_part, receive, first_iso, with_field,
  finish_parts, read_parts, upload_game,
}

create_temp-Apart : (dir : FilePath) → Apart (create_temp dir)
unfolding create_temp attempt
create_temp-Apart dir w = ground arith

copy_part-Apart : (path : FilePath) (raw : Bytes) (whole : Bool) → Apart (copy_part path raw whole)
unfolding copy_part attempt
copy_part-Apart path raw whole w = ground arith

receive-Apart :
    (dir : FilePath) (raw : Bytes) (whole : Bool) (next : FilePath → Proc Response)
    → ((path : FilePath) → Apart (next path))
    → Apart (receive dir raw whole next)
unfolding receive
receive-Apart dir raw whole next h =
    handle-Apart attempt (raise_with 500)
      (λ u. handle (create_temp dir) (raise_with 500) λ path.
        handle (copy_part path raw whole)
          (λ e w. refuse 400 "upload too large or interrupted" (remove_file path w))
          (λ v. next path))
      attempt-Apart (λ e w. (refl, refl, refl))
      λ u.
        handle-Apart (create_temp dir) (raise_with 500)
          (λ path.
            handle (copy_part path raw whole)
              (λ e w. refuse 400 "upload too large or interrupted" (remove_file path w))
              (λ v. next path))
          (create_temp-Apart dir) (λ e w. (refl, refl, refl))
          λ path.
            handle-Apart (copy_part path raw whole)
              (λ e w. refuse 400 "upload too large or interrupted" (remove_file path w))
              (λ v. next path) (copy_part-Apart path raw whole) (λ e w. remove_file-Apart path w)
              (λ v. h path)

first_iso-Apart :
    (tmp : Option (FilePath × Bytes)) (filename : Bytes) (file : Proc Response)
    → Apart file
    → Apart (first_iso tmp filename file)
unfolding first_iso
first_iso-Apart none filename file h w = ground (arith, h w)
first_iso-Apart (some held) filename file h w = ground arith

module _ (x : External) (dir : FilePath) where
  finish_parts-Apart : (got : Received) → Apart (finish_parts x dir got)
  unfolding finish_parts
  finish_parts-Apart got w = elim (Option-cases got.tmp) [
    | inl n ↦ ground (arith, n)
    | inr ((path, filename), n) ↦
        let done = finalize_upload x dir (temp path) filename got.title w in
        ground (
          arith,
          n,
          finalize_upload-Apart x dir (temp path) filename got.title w,
          remove_file-Apart path done.1,
        )
  ]

  read_parts-Apart : (ps : List Part) (got : Received) → Apart (read_parts x dir ps got)
  unfolding read_parts
  read_parts-Apart [] got w = finish_parts-Apart got w
  read_parts-Apart (broken ∷ ps) got w = (refl, refl, refl)
  read_parts-Apart (part name [] raw whole ∷ ps) got w =
      read_parts-Apart ps (with_field name raw got) w
  read_parts-Apart (part name (c ∷ cs) raw whole ∷ ps) got w =
      first_iso-Apart got.tmp (c ∷ cs)
        (receive dir raw whole
          (λ path. read_parts x dir ps (record got { tmp = some (path, c ∷ cs) })))
        (receive-Apart dir raw whole
          (λ path. read_parts x dir ps (record got { tmp = some (path, c ∷ cs) }))
          (λ path. read_parts-Apart ps (record got { tmp = some (path, c ∷ cs) })))
        w

  pub upload_game-Apart : (parts : Option (List Part)) → Apart (upload_game x dir parts)
  unfolding upload_game
  upload_game-Apart none w = (refl, refl, refl)
  upload_game-Apart (some parts) w = read_parts-Apart parts (record { tmp = none; title = [] }) w
