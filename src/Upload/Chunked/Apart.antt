-- ===== src/Upload/Chunked/Apart.antt =====
-- The chunked uploads leave the accounts alone.
use cache_22_server.Prelude.{
  refl, Option, none, some, List, [], ◌∷◌, Bytes, arith, ℕ, length, inl, inr, nat_eq, list_eq, ◌+◌,
}
use cache_22_server.Go.FilePath.{FilePath}
use cache_22_server.Go.Number.{parse_int}
use cache_22_server.World.{World, UploadMeta, Result-cases, attempt, read_random}
use cache_22_server.External.{External}
use cache_22_server.Serial.{sanitize}
use cache_22_server.Apart.{Apart, SameAccounts, attempt-Apart}
use cache_22_server.Upload.Store.{
  upload_lock, drop_upload_lock, read_meta, write_meta, remove_upload, create_part,
}
use cache_22_server.Upload.Ranges.{merge_range}
use cache_22_server.Upload.Finalize.{part_of, stat_ok, iso_path, finalize_upload}
use cache_22_server.Upload.Finalize.Apart.{finalize_upload-Apart, stat_ok-Apart}
use cache_22_server.Upload.Init.{
  InitRequest, drop_session, sweep_one, sweep_entries, session_ids, sweep_stale_uploads,
  check_session, check_sessions, other_upload, new_session, init_session, init_serial, init_checked,
  upload_init, good_size,
}
use cache_22_server.Upload.Chunked.{
  write_part, store_chunk, locked_chunk, chunk_body, chunk_at, chunk_offset, upload_chunk, finish,
  locked_complete, upload_complete, upload_abort,
}

drop_session-Apart : (id : Bytes) (w : World) → SameAccounts w (drop_session id w)
unfolding drop_session remove_upload drop_upload_lock
drop_session-Apart id w = ground arith

upload_lock-Apart : (id : Bytes) (w : World) → SameAccounts w (upload_lock id w)
unfolding upload_lock
upload_lock-Apart id w = ground arith

read_meta-Apart : (id : Bytes) → Apart (read_meta id)
unfolding read_meta attempt
read_meta-Apart id w = ground arith

write_meta-Apart : (m : UploadMeta) → Apart (write_meta m)
unfolding write_meta attempt
write_meta-Apart m w = ground arith

create_part-Apart : (id : Bytes) (size : ℕ) → Apart (create_part id size)
unfolding create_part attempt remove_upload
create_part-Apart id size w = ground arith

sweep_one-Apart : (id : Bytes) → Apart (sweep_one id)
unfolding sweep_one
sweep_one-Apart id w =
    ground (arith, read_meta-Apart id w, drop_session-Apart id (read_meta id w).1)

sweep_entries-Apart : (ids : List Bytes) → Apart (sweep_entries ids)
unfolding sweep_entries
sweep_entries-Apart [] w = (refl, refl, refl)
sweep_entries-Apart (id ∷ ids) w =
    ground (arith, sweep_one-Apart id w, sweep_entries-Apart ids (sweep_one id w).1)

sweep-Apart : Apart sweep_stale_uploads
unfolding sweep_stale_uploads
sweep-Apart w =
    let w1 = (attempt w).1 in
    ground (arith, attempt-Apart w, sweep_entries-Apart (session_ids w1) w1)

check_session-Apart :
    (serial : Bytes) (size : ℕ) (id : Bytes) → Apart (check_session serial size id)
unfolding check_session
check_session-Apart serial size id w =
    ground (arith, read_meta-Apart id w, drop_session-Apart id (read_meta id w).1)

check_sessions-Apart :
    (serial : Bytes) (size : ℕ) (ids : List Bytes) → Apart (check_sessions serial size ids)
unfolding check_sessions
check_sessions-Apart serial size [] w = (refl, refl, refl)
check_sessions-Apart serial size (id ∷ ids) w = ground (
  arith,
  check_session-Apart serial size id w,
  check_sessions-Apart serial size ids (check_session serial size id w).1,
)

other_upload-Apart : (serial : Bytes) (size : ℕ) → Apart (other_upload serial size)
unfolding other_upload
other_upload-Apart serial size w =
    let w1 = (attempt w).1 in
    ground (arith, attempt-Apart w, check_sessions-Apart serial size (session_ids w1) w1)

new_session-Apart :
    (req : InitRequest) (serial : Bytes) (size : ℕ) → Apart (new_session req serial size)
unfolding new_session read_random create_part write_meta remove_upload attempt
new_session-Apart req serial size w = ground arith

init_session-Apart :
    (req : InitRequest) (serial : Bytes) (size : ℕ) → Apart (init_session req serial size)
unfolding init_session
init_session-Apart req serial size w =
    let w1 = (sweep_stale_uploads w).1 in
    let w2 = (other_upload serial size w1).1 in
    ground (
      arith,
      sweep-Apart w,
      other_upload-Apart serial size w1,
      new_session-Apart req serial size w2,
    )

init_checked-Apart :
    (dir : FilePath) (req : InitRequest) (size : Option ℕ) (serial : Option Bytes)
    → Apart (init_checked dir req size serial)
unfolding init_checked init_serial
init_checked-Apart dir req none serial w = (refl, refl, refl)
init_checked-Apart dir req (some size) none w = (refl, refl, refl)
init_checked-Apart dir req (some size) (some serial) w = ground (
  arith,
  stat_ok-Apart (iso_path dir serial) w,
  init_session-Apart req serial size (stat_ok (iso_path dir serial) w).1,
)

pub upload_init-Apart : (dir : FilePath) (req : Option InitRequest) → Apart (upload_init dir req)
unfolding upload_init
upload_init-Apart dir none w = (refl, refl, refl)
upload_init-Apart dir (some req) w =
    ground (arith, init_checked-Apart dir req (good_size req.size) (sanitize req.filename) w)

write_part-Apart : (id : Bytes) (offset : ℕ) (body : Bytes) → Apart (write_part id offset body)
unfolding write_part attempt
write_part-Apart id offset body w = ground arith

store_chunk-Apart :
    (m : UploadMeta) (id : Bytes) (offset : ℕ) (body : Bytes) → Apart (store_chunk m id offset body)
unfolding store_chunk
store_chunk-Apart m id offset body w =
    let w1 = (attempt w).1 in
    let w2 = (write_part id offset body w1).1 in
    let merged = merge_range m.ranges m.size (offset, offset + length body) in
    ground (
      arith,
      attempt-Apart w,
      write_part-Apart id offset body w1,
      write_meta-Apart (record m { ranges = merged.0 }) w2,
    )

chunk_at-Apart :
    (id : Bytes) (offset : Option ℕ) (body : Option Bytes) → Apart (chunk_at id offset body)
unfolding chunk_at chunk_body locked_chunk
chunk_at-Apart id none body w = (refl, refl, refl)
chunk_at-Apart id (some offset) none w = (refl, refl, refl)
chunk_at-Apart id (some offset) (some body) w =
    let w1 = upload_lock id w in
    let w2 = (read_meta id w1).1 in
    elim (Result-cases (read_meta id w1).0) [
      | inl (e, h) ↦ ground (arith, upload_lock-Apart id w, read_meta-Apart id w1)
      | inr (m, h) ↦ ground (
        arith,
        upload_lock-Apart id w,
        read_meta-Apart id w1,
        store_chunk-Apart m id offset body w2,
      )
    ]

pub upload_chunk-Apart :
    (id offset : Bytes) (body : Option Bytes) → Apart (upload_chunk id offset body)
unfolding upload_chunk
upload_chunk-Apart id offset body w =
    ground (arith, chunk_at-Apart id (chunk_offset (parse_int offset)) body w)

module _ (x : External) (dir : FilePath) where
  finish-Apart : (m : UploadMeta) (id : Bytes) → Apart (finish x dir m id)
  unfolding finish
  finish-Apart m id w =
      let w1 = (finalize_upload x dir (part_of id) m.filename m.title w).1 in
      ground (
        arith,
        finalize_upload-Apart x dir (part_of id) m.filename m.title w,
        drop_session-Apart id w1,
      )

  locked_complete-Apart : (id : Bytes) → Apart (locked_complete x dir id)
  unfolding locked_complete
  locked_complete-Apart id w = elim (Result-cases (read_meta id w).0) [
    | inl (e, h) ↦ ground (arith, read_meta-Apart id w)
    | inr (m, h) ↦ ground (arith, read_meta-Apart id w, finish-Apart m id (read_meta id w).1)
  ]

  pub upload_complete-Apart : (id : Option Bytes) → Apart (upload_complete x dir id)
  unfolding upload_complete
  upload_complete-Apart none w = (refl, refl, refl)
  upload_complete-Apart (some id) w =
      ground (arith, upload_lock-Apart id w, locked_complete-Apart id (upload_lock id w))

pub upload_abort-Apart : (id : Bytes) → Apart (upload_abort id)
unfolding upload_abort
upload_abort-Apart id w = ground (arith, drop_session-Apart id w)
