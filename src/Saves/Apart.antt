-- ===== src/Saves/Apart.antt =====
-- The memory cards leave the accounts alone.
use cache_22_server.Prelude.{refl, List, [], ◌∷◌, ◌++◌, Bytes, codes, arith, ℕ, keep_if, inl, inr}
use cache_22_server.Go.FilePath.{FilePath}
use cache_22_server.World.{attempt, Result-cases}
use cache_22_server.External.{External}
use cache_22_server.Apart.{Apart, attempt-Apart}
use cache_22_server.Disk.{open_file, write_file, remove_file, rename, last_part, entries_of}
use cache_22_server.Disk.Apart.{remove_file-Apart, open_file-Apart, write_file-Apart}
use cache_22_server.Db
use cache_22_server.Db.Apart.{get_save-Apart, upsert_save-Apart, delete_save-Apart}
use cache_22_server.Go.Sort.{sort_names}
use cache_22_server.Saves.{
  parent, file_path, remove_names, backups_of, surplus, prune_backups, back_up, rotate, store,
  row_of, put, get, delete, remove_belonging, belongs, backup_path,
}

remove_names-Apart : (dir : FilePath) (names : List Bytes) → Apart (remove_names dir names)
unfolding remove_names
remove_names-Apart dir [] w = (refl, refl, refl)
remove_names-Apart dir (n ∷ ns) w =
    let path = dir ++ n ∷ [] in
    ground (arith, remove_file-Apart path w, remove_names-Apart dir ns (remove_file path w))

prune_backups-Apart : (path : FilePath) → Apart (prune_backups path)
unfolding prune_backups
prune_backups-Apart path w =
    let w1 = (attempt w).1 in
    ground (
      arith,
      attempt-Apart w,
      remove_names-Apart (parent path) (surplus (sort_names (backups_of path w1.files))) w1,
    )

module _ (x : External) (dir : FilePath) where
  back_up-Apart : (path : FilePath) (old : Bytes) → Apart (back_up x dir path old)
  unfolding back_up
  back_up-Apart path old w =
      let w1 = (attempt w).1 in
      let w2 = (write_file (backup_path path w.now) old w1).1 in
      ground (
        arith,
        attempt-Apart w,
        write_file-Apart (backup_path path w.now) old w1,
        prune_backups-Apart path w2,
      )

  rotate-Apart : (path : FilePath) (raw : Bytes) → Apart (rotate x dir path raw)
  unfolding rotate
  rotate-Apart path raw w = elim (Result-cases (open_file path w).0) [
    | inl (e, h) ↦ ground (arith, open_file-Apart path w)
    | inr (old, h) ↦
        ground (arith, open_file-Apart path w, back_up-Apart path old (open_file path w).1)
  ]

  store-Apart : (path : FilePath) (raw : Bytes) → Apart (store x dir path raw)
  unfolding store write_file rename remove_file attempt
  store-Apart path raw w = ground arith

  pub put-Apart :
      (user_id : ℕ) (serial : Bytes) (slot : ℕ) (raw : Bytes)
      → Apart (put x dir user_id serial slot raw)
  unfolding put
  put-Apart user_id serial slot raw w =
      let path = file_path dir user_id serial slot in
      let w1 = (rotate x dir path raw w).1 in
      let w2 = (store x dir path raw w1).1 in
      let row = row_of x dir user_id serial slot raw in
      let w3 = (Db.Saves.upsert row w2).1 in
      ground (
        arith,
        rotate-Apart path raw w,
        store-Apart path raw w1,
        upsert_save-Apart row w2,
        get_save-Apart user_id serial slot w3,
      )

  pub get-Apart : (user_id : ℕ) (serial : Bytes) (slot : ℕ) → Apart (get x dir user_id serial slot)
  unfolding get open_file Db.Saves.get
  get-Apart user_id serial slot w = ground arith

  remove_belonging-Apart : (path : FilePath) → Apart (remove_belonging x dir path)
  unfolding remove_belonging
  remove_belonging-Apart path w =
      let w1 = (attempt w).1 in
      ground (
        arith,
        attempt-Apart w,
        remove_names-Apart (parent path)
            (keep_if (belongs x dir (last_part path ++ codes "."))
              (entries_of (parent path) w1.files))
            w1,
      )

  pub delete-Apart :
      (user_id : ℕ) (serial : Bytes) (slot : ℕ) → Apart (delete x dir user_id serial slot)
  unfolding delete
  delete-Apart user_id serial slot w =
      let path = file_path dir user_id serial slot in
      let w1 = remove_file path w in
      let w2 = (remove_belonging x dir path w1).1 in
      ground (
        arith,
        remove_file-Apart path w,
        remove_belonging-Apart path w1,
        delete_save-Apart user_id serial slot w2,
      )
