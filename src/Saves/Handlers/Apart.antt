-- ===== src/Saves/Handlers/Apart.antt =====
-- The handlers of memory cards leave the accounts alone.
use cache_22_server.Prelude.{refl, Bytes, Bool, Option, none, some, arith, ℕ}
use cache_22_server.Go.FilePath.{FilePath}
use cache_22_server.Entity.{User}
use cache_22_server.External.{External}
use cache_22_server.Apart.{Apart}
use cache_22_server.Saves.Apart.{put-Apart, get-Apart, delete-Apart}
use cache_22_server.Saves.Handlers.{
  save_slot, serve_card, serve_save, put_card, put_save, delete_card, delete_save,
}

module _ (x : External) (dir : FilePath) (u : User) where
  serve_card-Apart :
      (with_body : Bool) (slot : Option (Bytes × ℕ)) → Apart (serve_card x dir u with_body slot)
  unfolding serve_card
  serve_card-Apart with_body none w = (refl, refl, refl)
  serve_card-Apart with_body (some (serial, slot)) w =
      ground (arith, get-Apart x dir u.id serial slot w)

  pub serve_save-Apart :
      (serial slot : Bytes) (with_body : Bool)
      → Apart (serve_save x dir (some u) serial slot with_body)
  unfolding serve_save
  serve_save-Apart serial slot with_body = serve_card-Apart with_body (save_slot serial slot)

  put_card-Apart :
      (slot : Option (Bytes × ℕ)) (raw : Option Bytes) → Apart (put_card x dir u slot raw)
  unfolding put_card
  put_card-Apart none raw w = (refl, refl, refl)
  put_card-Apart (some slot) none w = (refl, refl, refl)
  put_card-Apart (some (serial, slot)) (some raw) w =
      ground (arith, put-Apart x dir u.id serial slot raw w)

  pub put_save-Apart :
      (serial slot : Bytes) (raw : Option Bytes) → Apart (put_save x dir (some u) serial slot raw)
  unfolding put_save
  put_save-Apart serial slot raw = put_card-Apart (save_slot serial slot) raw

  delete_card-Apart : (slot : Option (Bytes × ℕ)) → Apart (delete_card x dir u slot)
  unfolding delete_card
  delete_card-Apart none w = (refl, refl, refl)
  delete_card-Apart (some (serial, slot)) w = ground (arith, delete-Apart x dir u.id serial slot w)

  pub delete_save-Apart : (serial slot : Bytes) → Apart (delete_save x dir (some u) serial slot)
  unfolding delete_save
  delete_save-Apart serial slot = delete_card-Apart (save_slot serial slot)
