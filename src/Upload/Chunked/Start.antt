-- ===== src/Upload/Chunked/Start.antt =====
-- uploadInit of internal/handler/http/upload_chunked.go: what an answered init leaves.
use cache_22_server.Prelude.{
  ℕ, ◌≡◌, refl, sym, ap, ◌∙◌, subst, none, some, [], Bytes, arith, length, beq_refl, nat_eq,
  list_eq, Option-cases, inl, inr,
}
use cache_22_server.Prelude.Assoc.{insert, lookup-insert}
use cache_22_server.Go.FilePath.{FilePath}
use cache_22_server.Go.Number.{value}
use cache_22_server.Go.Text.{trim_space}
use cache_22_server.World.{World, UploadMeta, UploadDir, ok, read_random}
use cache_22_server.Http.{Response, Body}
use cache_22_server.Serial.{sanitize}
use cache_22_server.Upload.Store.{dir_of, create_part, write_meta, truncate, open_part}
use cache_22_server.Upload.Store.Content.{length-truncate}
use cache_22_server.Upload.Finalize.{stat_ok, iso_path}
use cache_22_server.Upload.Init.{
  sweep_stale_uploads, other_upload, InitRequest, new_session, init_session, init_serial,
  upload_init, unix,
}
use cache_22_server.Upload.Chunked.Integrity.{Good}

abbrev pub opened : Bytes → ℕ → World → Bytes
opened id size w = truncate size (open_part (dir_of id w).part)

create_part_lem :
    (id : Bytes) (size : ℕ) (w : World)
    → (create_part id size w).0 ≡ ok tt
    → (dir_of id (create_part id size w).1
        ≡ record (dir_of id w) { part = some (opened id size w) })
      × ((create_part id size w).1.now ≡ w.now)
unfolding create_part
create_part_lem id size w h =
    let d = dir_of id w in
    let touched : UploadDir = record d { part = some (open_part d.part) } in
    let done : UploadDir = record d { part = some (truncate size (open_part d.part)) } in
    ground
      (arith, lookup-insert id id done (insert id touched (insert id d w.uploads)), beq_refl id)

write_meta_lem :
    (m : UploadMeta) (w : World)
    → (write_meta m w).0 ≡ ok tt
    → dir_of m.id (write_meta m w).1 ≡ record (dir_of m.id w) { meta = some m }
unfolding write_meta
write_meta_lem m w h =
    let d = dir_of m.id w in
    let cut : UploadDir = record d { meta = none } in
    let done : UploadDir = record d { meta = some m } in
    ground (arith, lookup-insert m.id m.id done (insert m.id cut w.uploads), beq_refl m.id)

abbrev pub first_meta : InitRequest → Bytes → Bytes → ℕ → ℕ → UploadMeta
first_meta req id serial size now = record {
  id = id;
  serial = serial;
  filename = req.filename;
  size = size;
  title = trim_space req.title;
  ranges = [];
  created = unix now;
}

-- The calls of an init that is answered, one after the other.
new_session_lem :
    (req : InitRequest) (serial id : Bytes) (size c : ℕ) (w : World)
    → (new_session req serial size w).0.body ≡ Body.upload_created id c
    → let w1 = (read_random w).1 in
      let w2 = (create_part id size w1).1 in
      ((create_part id size w1).0 ≡ ok tt)
      × ((write_meta (first_meta req id serial size w2.now) w2).0 ≡ ok tt)
      × ((new_session req serial size w).1
          ≡ (write_meta (first_meta req id serial size w2.now) w2).1)
unfolding new_session
new_session_lem req serial id size c w h = ground arith

init_session_lem :
    (req : InitRequest) (serial : Bytes) (size : ℕ) (id : Bytes) (c : ℕ) (w : World)
    → (init_session req serial size w).0.body ≡ Body.upload_created id c
    → init_session req serial size w
      ≡ new_session req serial size (other_upload serial size (sweep_stale_uploads w).1).1
unfolding init_session
init_session_lem req serial size id c w h = ground arith

init_serial_lem :
    (dir : FilePath) (req : InitRequest) (serial : Bytes) (size : ℕ) (id : Bytes) (c : ℕ)
    (w : World)
    → (init_serial dir req serial size w).0.body ≡ Body.upload_created id c
    → init_serial dir req serial size w
      ≡ init_session req serial size (stat_ok (iso_path dir serial) w).1
unfolding init_serial
init_serial_lem dir req serial size id c w h = ground arith

upload_init_lem :
    (dir : FilePath) (req : InitRequest) (size : ℕ) (id : Bytes) (c : ℕ) (w : World)
    → req.size ≡ value size
    → (upload_init dir (some req) w).0.body ≡ Body.upload_created id c
    → (serial : Bytes) × (sanitize req.filename ≡ some serial)
      × (upload_init dir (some req) w ≡ init_serial dir req serial size w)
unfolding upload_init
upload_init_lem dir req size id c w e h = elim (Option-cases (sanitize req.filename)) [
  | inl n ↦ absurd (ground arith)
  | inr (serial, es) ↦ (serial, es, ground arith)
]

-- A session for the content, with no range recorded yet, under the serial of the request's name.
abbrev pub Begun : Bytes → Bytes → InitRequest → World → Type 0
Begun content id req w =
    (m : UploadMeta) × (raw : Bytes) × (dir_of id w ≡ record { meta = some m; part = some raw })
    × Good content id m raw
    × (m.filename ≡ req.filename)
    × (sanitize req.filename ≡ some m.serial)
    × (m.ranges ≡ [])

module _ (content id : Bytes) (req : InitRequest) where
  new_session-Begun :
      (serial : Bytes) (c : ℕ) (w : World)
      → sanitize req.filename ≡ some serial
      → (new_session req serial (length content) w).0.body ≡ Body.upload_created id c
      → Begun content id req (new_session req serial (length content) w).1
  new_session-Begun serial c w es h =
      let size = length content in
      let w1 = (read_random w).1 in
      let w2 = (create_part id size w1).1 in
      let m = first_meta req id serial size w2.now in
      let (created, written, end) = new_session_lem req serial id size c w h in
      let made = (create_part_lem id size w1 created).0 in
      (
        m,
        opened id size w1,
        ap (dir_of id) end
            ∙ write_meta_lem m w2 written
            ∙ ap (λ (d : UploadDir). record d { meta = some m }) made,
        record {
          own = refl;
          sized = refl;
          filled = length-truncate size (open_part (dir_of id w1).part);
          normal = tt;
          within = tt;
          agrees = λ i e. cc;
        },
        refl,
        es,
        refl,
      )

  init_session-Begun :
      (serial : Bytes) (c : ℕ) (w : World)
      → sanitize req.filename ≡ some serial
      → (init_session req serial (length content) w).0.body ≡ Body.upload_created id c
      → Begun content id req (init_session req serial (length content) w).1
  init_session-Begun serial c w es h =
      let size = length content in
      let same = init_session_lem req serial size id c w h in
      let w' = (other_upload serial size (sweep_stale_uploads w).1).1 in
      subst (λ (r : Response × World). Begun content id req r.1) (sym same)
        (new_session-Begun serial c w' es (ap (λ (r : Response × World). r.0.body) (sym same) ∙ h))

  -- Whatever calls fail: an init that answers an id has left a session for a file of the size that
  -- it was told, under the serial of its name, which any content of that size can be sent to.
  pub upload_init_begins :
      (dir : FilePath) (c : ℕ) (w : World)
      → req.size ≡ value (length content)
      → (upload_init dir (some req) w).0.body ≡ Body.upload_created id c
      → Begun content id req (upload_init dir (some req) w).1
  upload_init_begins dir c w e h =
      let size = length content in
      let (serial, es, first) = upload_init_lem dir req size id c w e h in
      let body1 = ap (λ (r : Response × World). r.0.body) (sym first) ∙ h in
      let same = first ∙ init_serial_lem dir req serial size id c w body1 in
      subst (λ (r : Response × World). Begun content id req r.1) (sym same)
        (init_session-Begun serial c (stat_ok (iso_path dir serial) w).1 es
          (ap (λ (r : Response × World). r.0.body) (sym same) ∙ h))
