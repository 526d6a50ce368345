-- ===== src/Saves/RoundTrip.antt =====
-- Put and Get of internal/app/usecase/save/save.go, one after the other.
use cache_22_server.Disk.{rename}
use cache_22_server.Prelude.{◌≡◌, some, Bytes, ℕ, arith, beq_refl, find_if, list_eq, nat_eq}
use cache_22_server.Prelude.Assoc.{lookup, insert, erase, lookup-insert}
use cache_22_server.Go.FilePath.{FilePath}
use cache_22_server.Entity.{Save}
use cache_22_server.World.{World, ok, quiet}
use cache_22_server.External.{External}
use cache_22_server.Db.Saves.{is_save}
use cache_22_server.Saves.{file_path, temp_path, rotate, store, put, get}

module _ (x : External) (dir : FilePath) where
  store_ok :
      (path : FilePath) (raw : Bytes) (w : World)
      → (store x dir path raw w).0 ≡ ok tt
      → lookup path (store x dir path raw w).1.files ≡ some raw
  unfolding store rename
  store_ok path raw w h =
      let tmp = temp_path path w.now in
      ground (
        arith,
        lookup-insert tmp tmp raw w.files,
        lookup-insert path path raw (erase tmp (insert tmp raw w.files)),
        beq_refl tmp,
        beq_refl path,
      )

  put_ok :
      (user_id : ℕ) (serial : Bytes) (slot : ℕ) (raw : Bytes) (meta : Save) (w : World)
      → (put x dir user_id serial slot raw w).0 ≡ ok meta
      → let path = file_path dir user_id serial slot in
        let w1 = (rotate x dir path raw w).1 in
        ((store x dir path raw w1).0 ≡ ok tt)
        × ((put x dir user_id serial slot raw w).1.files ≡ (store x dir path raw w1).1.files)
        × (find_if (is_save user_id serial slot) (put x dir user_id serial slot raw w).1.saves
            ≡ some meta)
  unfolding put
  put_ok user_id serial slot raw meta w h = ground arith

  -- A put that succeeds, whatever failed in its rotation of backups, is what the next get answers,
  -- the row and the bytes, where no call fails.
  pub get-put :
      (user_id : ℕ) (serial : Bytes) (slot : ℕ) (raw : Bytes) (meta : Save) (w : World)
      → (put x dir user_id serial slot raw w).0 ≡ ok meta
      → (get x dir user_id serial slot (quiet (put x dir user_id serial slot raw w).1)).0
        ≡ ok (meta, raw)
  unfolding get
  get-put user_id serial slot raw meta w h =
      let path = file_path dir user_id serial slot in
      let w1 = (rotate x dir path raw w).1 in
      let (done, files, row) = put_ok user_id serial slot raw meta w h in
      ground (arith, files, row, store_ok path raw w1 done)
