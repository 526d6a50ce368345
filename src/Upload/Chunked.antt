-- ===== src/Upload/Chunked.antt =====
-- The handlers of internal/handler/http/upload_chunked.go besides uploadInit. A body that could not be decoded or read
-- is `none`. Folders that hold no file are not told from missing ones.
pub mod Apart
pub mod Integrity
pub mod Requests
pub mod Complete
pub mod Delivery
pub mod Start
pub mod Whole
pub mod Tasks
pub mod Locks
pub mod Lists
pub mod Interleaved
pub mod Unlocked
pub mod Holder
pub mod Moves
pub mod Exclusion
pub mod Progress
pub mod Parallel
mod Together
mod Tests
use cache_22_server.Prelude.{
  ℕ, ◌+◌, ◌-◌, ◌*◌, ◌/◌, ◌^◌, Bool, true, false, not, ◌&&◌, ◌||◌, Option, none, some, List, [], ◌∷◌,
  ◌++◌, Bytes, codes, length, take, map, ltb, leb, nat_beq, ◌==◌, nat_eq, list_eq, if◌then◌else◌,
}
use cache_22_server.Prelude.Assoc.{Assoc}
use cache_22_server.Go.Text.{to_lower, has_suffix, trim_space}
use cache_22_server.Go.Number.{
  Parsed, value, negative, syntax_error, range_error, parse_int, int64_limit,
}
use cache_22_server.Go.FilePath.{FilePath}
use cache_22_server.World.{
  World, UploadMeta, UploadDir, Proc, Action, Result, ok, err, Error, fault, attempt, pure, handle,
  read_random, ◌>>=◌, ◌>>◌,
}
use cache_22_server.External.{External}
use cache_22_server.Http.{Response, Body, problem_response, respond, refuse, internal_err}
use cache_22_server.Serial.{sanitize}
use cache_22_server.Upload.Ranges.{merge_range, is_full}
use cache_22_server.Upload.Init.{
  suggested_chunk_bytes, max_upload_bytes, stale_upload_after, unix, drop_session, is_stale,
  sweep_one, sweep_entries, session_ids, sweep_stale_uploads, check_session, check_sessions,
  other_upload, InitRequest, good_size, new_session, init_session, init_serial, init_checked,
  upload_init,
}
use cache_22_server.Upload.Store.{
  valid_upload_id, upload_lock, drop_upload_lock, dir_of, set_dir, read_meta, write_meta,
  remove_upload, write_at, create_part,
}
use cache_22_server.Upload.Finalize.{Source, part_of, stat_ok, iso_path, finalize_upload}

abbrev pub max_chunk_bytes : ℕ
max_chunk_bytes = 67108864

-- `offset, _ := strconv.ParseInt(...)`: the error is dropped, and the value that comes with it is 0
-- for a syntax error and the nearest int64 for a range error. `none` is a negative offset.
abbrev pub chunk_offset : Parsed → Option ℕ
chunk_offset (value n) = some n
chunk_offset (negative n) = none
chunk_offset syntax_error = some 0
chunk_offset (range_error minus) = if minus then none else some (int64_limit - 1)

-- `offset+int64(len(body)) > m.Size` in int64: past the greatest int64 the sum is negative.
unfoldable pub past_end : ℕ → ℕ → ℕ → Bool
past_end offset len size = if leb int64_limit (offset + len) then false else ltb size (offset + len)

-- WriteAt: the system refuses an end past the greatest int64, and a failing write gets some bytes
-- through.
write_part : Bytes → ℕ → Bytes → Action (Unit {0})
unfolding attempt write_at
write_part id offset body w = elim (dir_of id w).part [
  | none ↦ (err fault, w)
  | some raw ↦
      if leb int64_limit (offset + length body)
      then (err fault, w)
      else (handle attempt
            (λ e w'. (
              err e,
              set_dir id
                  (record (dir_of id w) { part = some (write_at raw offset (take w.torn body)) })
                  w',
            ))
            (λ u w'. (
              ok tt,
              set_dir id (record (dir_of id w) { part = some (write_at raw offset body) }) w',
            )))
          w
]

-- OpenFile, WriteAt, mergeRange and writeMeta
pub store_chunk : UploadMeta → Bytes → ℕ → Bytes → Proc Response
unfolding attempt write_part write_meta merge_range
store_chunk m id offset body =
    let merged = merge_range m.ranges m.size (offset, offset + length body) in
    handle (attempt >> write_part id offset body) (λ e. internal_err)
      λ u.
        handle (write_meta (record m { ranges = merged.0 })) (λ e. internal_err)
          λ v. respond 200 (Body.chunk_received (offset + length body) merged.1)

pub locked_chunk : Bytes → ℕ → Bytes → Proc Response
unfolding read_meta store_chunk past_end
locked_chunk id offset body =
    handle (read_meta id) (λ e. refuse 404 "unknown upload")
      λ m.
        if past_end offset (length body) m.size
        then refuse 400 "chunk past end of file"
        else store_chunk m id offset body

chunk_body : Bytes → ℕ → Option Bytes → Proc Response
unfolding locked_chunk upload_lock
chunk_body id offset none w = (problem_response 400 "interrupted chunk", w)
chunk_body id offset (some body) w =
    if ltb max_chunk_bytes (length body)
    then (problem_response 400 "interrupted chunk", w)
    else if nat_beq (length body) 0
    then (problem_response 400 "empty chunk", w)
    else locked_chunk id offset body (upload_lock id w)

chunk_at : Bytes → Option ℕ → Option Bytes → Proc Response
unfolding chunk_body
chunk_at id none body = refuse 400 "bad id or offset"
chunk_at id (some offset) body = chunk_body id offset body

-- PUT /v1/games/upload/chunk
unfoldable pub upload_chunk : Bytes → Bytes → Option Bytes → Proc Response
unfolding chunk_at valid_upload_id parse_int
upload_chunk id offset_text body =
    if valid_upload_id id
    then chunk_at id (chunk_offset (parse_int offset_text)) body
    else refuse 400 "bad id or offset"

module _ (x : External) (dir : FilePath) where
  -- the answer to a finalized upload, after the session is gone
  pub finish : UploadMeta → Bytes → Proc Response
  unfolding finalize_upload drop_session
  finish m id w =
      let (r, w') = finalize_upload x dir (part_of id) m.filename m.title w in
      (r, drop_session id w')

  pub locked_complete : Bytes → Proc Response
  unfolding finish read_meta is_full
  locked_complete id =
      handle (read_meta id) (λ e. refuse 404 "unknown upload")
        λ m. if is_full m.ranges m.size then finish m id else refuse 400 "incomplete upload"

  -- POST /v1/games/upload/complete
  unfoldable pub upload_complete : Option Bytes → Proc Response
  unfolding locked_complete upload_lock valid_upload_id
  upload_complete none w = (problem_response 400 "bad json body", w)
  upload_complete (some id) w =
      if valid_upload_id id
      then locked_complete id (upload_lock id w)
      else (problem_response 400 "bad id", w)

-- DELETE /v1/games/upload
unfoldable pub upload_abort : Bytes → Proc Response
unfolding drop_session valid_upload_id
upload_abort id w =
    if valid_upload_id id
    then (record { code = 200; body = Body.status_ok }, drop_session id w)
    else (problem_response 400 "bad id", w)
