-- ===== src/Upload/Init.antt =====
-- uploadInit of internal/handler/http/upload_chunked.go, with the sweep of stale sessions. A body that
-- could not be decoded is `none`. Folders that hold no file are not told from missing ones.
use cache_22_server.Prelude.{
  ℕ, ◌+◌, ◌/◌, Bool, true, false, not, ◌||◌, Option, none, some, List, [], ◌∷◌, Bytes, codes, map,
  ltb, ◌==◌, nat_eq, list_eq, if◌then◌else◌,
}
use cache_22_server.Go.Text.{to_lower, has_suffix, trim_space}
use cache_22_server.Go.Number.{Parsed, value, negative, syntax_error, range_error}
use cache_22_server.Go.FilePath.{FilePath}
use cache_22_server.Go.Sort.{sort_names}
use cache_22_server.World.{
  World, UploadMeta, UploadDir, Proc, Action, ok, attempt, pure, handle, read_random, ◌>>=◌, ◌>>◌,
}
use cache_22_server.Http.{Response, Body, problem_response, respond, refuse, internal_err}
use cache_22_server.Serial.{sanitize}
use cache_22_server.Upload.Store.{
  drop_upload_lock, read_meta, write_meta, remove_upload, create_part,
}
use cache_22_server.Upload.Finalize.{stat_ok, iso_path}

abbrev pub suggested_chunk_bytes : ℕ
suggested_chunk_bytes = 50331648

abbrev pub max_upload_bytes : ℕ
max_upload_bytes = 9663676416

-- in seconds
abbrev pub stale_upload_after : ℕ
stale_upload_after = 86400

abbrev pub unix : ℕ → ℕ
unix now = now / 1000000000

unfoldable pub drop_session : Bytes → World → World
unfolding remove_upload drop_upload_lock
drop_session id w = drop_upload_lock id (remove_upload id w)

-- `err != nil || m.Created < cutoff`, written without a subtraction
abbrev pub is_stale : UploadMeta → ℕ → Bool
is_stale m now = ltb (m.created + stale_upload_after) (unix now)

unfoldable pub sweep_one : Bytes → Action (Unit {0})
unfolding read_meta drop_session
sweep_one id =
    handle (read_meta id) (λ e w. (ok tt, drop_session id w))
      λ m w. (ok tt, if is_stale m w.now then drop_session id w else w)

unfoldable pub sweep_entries : List Bytes → Action (Unit {0})
unfolding sweep_one
sweep_entries [] = pure tt
sweep_entries (id ∷ ids) = sweep_one id >> sweep_entries ids

-- the entries of os.ReadDir
abbrev pub session_ids : World → List Bytes
session_ids w = sort_names (map (λ (e : Bytes × UploadDir). e.0) w.uploads)

-- sweepStaleUploads
unfoldable pub sweep_stale_uploads : Action (Unit {0})
unfolding sweep_entries attempt
sweep_stale_uploads = handle attempt (λ e. pure tt) λ u w. sweep_entries (session_ids w) w

-- What uploadInit does about another session: nothing if it cannot be read or is for another game,
-- replace it if it is for a file of the same size, and stop (`true`) otherwise.
unfoldable pub check_session : Bytes → ℕ → Bytes → Action Bool
unfolding read_meta drop_session
check_session serial size id =
    handle (read_meta id) (λ e. pure false)
      λ m w.
        if not (m.serial == serial)
        then (ok false, w)
        else if m.size == size
        then (ok false, drop_session id w)
        else (ok true, w)

unfoldable pub check_sessions : Bytes → ℕ → List Bytes → Action Bool
unfolding check_session
check_sessions serial size [] = pure false
check_sessions serial size (id ∷ ids) = do
  taken ← check_session serial size id
  if taken then pure true else check_sessions serial size ids

-- ReadDir and the loop; without a listing nothing is in the way
unfoldable pub other_upload : Bytes → ℕ → Action Bool
unfolding check_sessions attempt
other_upload serial size =
    handle attempt (λ e. pure false) λ u w. check_sessions serial size (session_ids w) w

-- The body of an init request; `size` is a signed number.
pub record InitRequest : Type 0 where
  pub filename : Bytes
  pub size : Parsed
  pub title : Bytes

-- `in.Size < 1 || in.Size > maxUploadBytes`
abbrev pub good_size : Parsed → Option ℕ
good_size (value n) = if ltb n 1 || ltb max_upload_bytes n then none else some n
good_size (negative n) = none
good_size syntax_error = none
good_size (range_error minus) = none

-- newUploadID
abbrev pub new_upload_id : Action Bytes
new_upload_id = read_random

-- a new id, the part file and meta.json
unfoldable pub new_session : InitRequest → Bytes → ℕ → Proc Response
unfolding read_random trim_space
new_session req serial size =
    handle new_upload_id (λ e. internal_err)
      λ id.
        handle (create_part id size) (λ e. internal_err)
          λ u w.
            handle
              (write_meta (record {
                id = id;
                serial = serial;
                filename = req.filename;
                size = size;
                title = trim_space req.title;
                ranges = [];
                created = unix w.now;
              }))
              (λ e w'. (problem_response 500 "internal error", remove_upload id w'))
              (λ v. respond 201 (Body.upload_created id suggested_chunk_bytes)) w

unfoldable pub init_session : InitRequest → Bytes → ℕ → Proc Response
unfolding new_session
init_session req serial size =
    handle sweep_stale_uploads (λ e. internal_err)
      λ u.
        handle (other_upload serial size) (λ e. internal_err)
          λ taken.
            if taken
            then refuse 409 "another upload for this game is in progress (different file)"
            else new_session req serial size

unfoldable pub init_serial : FilePath → InitRequest → Bytes → ℕ → Proc Response
unfolding stat_ok init_session
init_serial dir req serial size w =
    let (there, w') = stat_ok (iso_path dir serial) w in
    if there
    then (problem_response 409 "game already exists", w')
    else init_session req serial size w'

unfoldable pub init_checked : FilePath → InitRequest → Option ℕ → Option Bytes → Proc Response
unfolding init_serial
init_checked dir req none serial = refuse 400 "bad size"
init_checked dir req (some size) none = refuse 400 "bad filename"
init_checked dir req (some size) (some serial) = init_serial dir req serial size

-- POST /v1/games/upload/init
unfoldable pub upload_init : FilePath → Option InitRequest → Proc Response
unfolding init_checked to_lower has_suffix sanitize
upload_init dir none = refuse 400 "bad json body"
upload_init dir (some req) =
    if has_suffix (to_lower req.filename) (codes ".iso")
    then init_checked dir req (good_size req.size) (sanitize req.filename)
    else refuse 415 "raw .iso only"
