-- ===== src/Upload/Chunked/Complete.antt =====
-- uploadComplete of internal/handler/http/upload_chunked.go: what a completion leaves in the library.
use cache_22_server.Prelude.{
  true, none, some, [], ◌≡◌, inl, inr, refl, subst, Bytes, arith, length, get_elem?-beyond,
  list_ext, ltb, Option-cases, Bool-cases, sym, ap, ◌∙◌, list_eq, nat_eq,
}
use cache_22_server.Prelude.Assoc.{lookup}
use cache_22_server.Go.FilePath.{FilePath}
use cache_22_server.World.{World, UploadMeta, UploadDir, later_faults, attempt}
use cache_22_server.External.{External}
use cache_22_server.Http.{Response}
use cache_22_server.Serial.{sanitize}
use cache_22_server.Upload.Ranges.{is_full}
use cache_22_server.Upload.Ranges.Normal.{is_full_covers}
use cache_22_server.Upload.Store.{or_empty, dir_of, read_meta, upload_lock, valid_upload_id}
use cache_22_server.Upload.Finalize.{part_of, iso_path, finalize_upload}
use cache_22_server.Upload.Finalize.Outcome.{finalize_created, finalize_lost, finalize_quiet}
use cache_22_server.Upload.Init.{drop_session}
use cache_22_server.Upload.Chunked.{upload_complete, locked_complete, finish}
use cache_22_server.Upload.Chunked.Integrity.{Good, Partial, Holds}
use cache_22_server.Upload.Chunked.Requests.{upload_lock_uploads, read_meta_uploads, Holds-uploads}

drop_session_games : (id : Bytes) (w : World) → (drop_session id w).games ≡ w.games
unfolding drop_session
drop_session_games id w = ground arith

drop_session_files : (id : Bytes) (w : World) → (drop_session id w).files ≡ w.files
unfolding drop_session
drop_session_files id w = ground arith

upload_lock_faults : (id : Bytes) (w : World) → (upload_lock id w).faults ≡ w.faults
unfolding upload_lock
upload_lock_faults id w = ground arith

upload_lock_files : (id : Bytes) (w : World) → (upload_lock id w).files ≡ w.files
unfolding upload_lock
upload_lock_files id w = ground arith

-- A full file with the right bytes on its ranges is the content.
full-Good :
    (content id : Bytes) (m : UploadMeta) (raw : Bytes)
    → Good content id m raw
    → is_full m.ranges m.size ≡ true
    → raw ≡ content
full-Good content id m raw g full = list_ext raw content λ i.
    elim (Bool-cases (ltb i (length content))) [
      | inl inside ↦ g.agrees i (is_full_covers m.ranges m.size i full (ground (arith, g.sized)))
      | inr outside ↦
          get_elem?-beyond raw i (ground (arith, g.filled))
          ∙ sym (get_elem?-beyond content i (ground arith))
    ]

module _ (x : External) (dir : FilePath) where
  finish_files :
      (m : UploadMeta) (id : Bytes) (w : World)
      → let (r, w') = finalize_upload x dir (part_of id) m.filename m.title w in
        ((finish x dir m id w).0 ≡ r) × ((finish x dir m id w).1.files ≡ w'.files)
  unfolding finish
  finish_files m id w =
      (refl, drop_session_files id (finalize_upload x dir (part_of id) m.filename m.title w).1)

  pub finish_games :
      (m : UploadMeta) (id : Bytes) (w : World)
      → let (r, w') = finalize_upload x dir (part_of id) m.filename m.title w in
        ((finish x dir m id w).0 ≡ r) × ((finish x dir m id w).1.games ≡ w'.games)
  unfolding finish
  finish_games m id w =
      (refl, drop_session_games id (finalize_upload x dir (part_of id) m.filename m.title w).1)

  -- An answer 201 comes from a full session that was finalized.
  pub complete_full :
      (id : Bytes) (m : UploadMeta) (w : World)
      → (dir_of id w).meta ≡ some m
      → (upload_complete x dir (some id) w).0.code ≡ 201
      → (is_full m.ranges m.size ≡ true)
        × (upload_complete x dir (some id) w
            ≡ finish x dir m id (read_meta id (upload_lock id w)).1)
  unfolding upload_complete locked_complete attempt
  complete_full id m w e h = ground (arith, upload_lock_uploads id w)

  -- Whatever failed before or fails now: if the answer is 201, the library holds the content.
  pub upload_complete_delivers :
      (content id serial : Bytes) (m : UploadMeta) (w : World)
      → (dir_of id w).meta ≡ some m
      → sanitize m.filename ≡ some serial
      → Holds content id w
      → (upload_complete x dir (some id) w).0.code ≡ 201
      → lookup (iso_path dir serial) (upload_complete x dir (some id) w).1.files ≡ some content
  upload_complete_delivers content id serial m w em es held h =
      elim (Option-cases (dir_of id w2).part) [
        | inl lost ↦ absurd (
            finalize_lost x dir id m.filename m.title w2 lost (
              ap (λ (r : Response). r.code) (sym (finish_files m id w2).0)
              ∙ sym (ap (λ (p : Response × World). p.0.code) (full.1))
              ∙ h))
        | inr (raw, ep) ↦ rw full.1 (
            ap (lookup (iso_path dir serial)) (finish_files m id w2).1
            ∙ finalize_created x dir id raw m.filename m.title serial w2 es ep (
                ap (λ (r : Response). r.code) (sym (finish_files m id w2).0)
                ∙ sym (ap (λ (p : Response × World). p.0.code) (full.1))
                ∙ h)
            ∙ ap some (full-Good content id m raw (good raw ep) full.0))
      ]
    where
      w2 : World
      w2 = (read_meta id (upload_lock id w)).1

      same : w2.uploads ≡ w.uploads
      same = read_meta_uploads id (upload_lock id w) ∙ upload_lock_uploads id w

      full :
          (is_full m.ranges m.size ≡ true)
          × (upload_complete x dir (some id) w ≡ finish x dir m id w2)
      full = complete_full id m w em h

      good : (raw : Bytes) → (dir_of id w2).part ≡ some raw → Good content id m raw
      good raw ep =
          subst (λ (d : UploadDir). Partial content id d.meta d.part)
            (λ i. record {
              meta = (ap (λ u. (or_empty (lookup id u)).meta) same ∙ em) i;
              part = ep i;
            })
            (Holds-uploads content id w w2 same held)

  complete_opens :
      (id : Bytes) (m : UploadMeta) (w : World)
      → valid_upload_id id ≡ true
      → w.faults ≡ []
      → (dir_of id w).meta ≡ some m
      → is_full m.ranges m.size ≡ true
      → upload_complete x dir (some id) w ≡ finish x dir m id (attempt (upload_lock id w)).1
  unfolding upload_complete attempt
  complete_opens id m w valid calm e full =
      ground (arith, upload_lock_uploads id w, upload_lock_faults id w)

  complete_answers :
      (id serial raw : Bytes) (m : UploadMeta) (w : World)
      → w.faults ≡ []
      → (dir_of id w).part ≡ some raw
      → sanitize m.filename ≡ some serial
      → lookup (iso_path dir serial) w.files ≡ none
      → (finish x dir m id w).0.code ≡ 201
  complete_answers id serial raw m w calm ep es free =
      ap (λ (r : Response). r.code)
        ((finish_files m id w).0
          ∙ ap (λ v. (finalize_upload x dir (part_of id) m.filename m.title v).0)
              (λ i. record w { faults = calm i })
          ∙ finalize_quiet x dir id raw m.filename m.title serial w es ep free)

  -- A full session, where nothing fails and the library has no such game, is answered with 201.
  pub complete_quiet :
      (id serial raw : Bytes) (m : UploadMeta) (w : World)
      → valid_upload_id id ≡ true
      → w.faults ≡ []
      → dir_of id w ≡ record { meta = some m; part = some raw }
      → is_full m.ranges m.size ≡ true
      → sanitize m.filename ≡ some serial
      → lookup (iso_path dir serial) w.files ≡ none
      → (upload_complete x dir (some id) w).0.code ≡ 201
  unfolding attempt
  complete_quiet id serial raw m w valid calm e full es free =
      ap (λ (p : Response × World). p.0.code)
        (complete_opens id m w valid calm (ap (λ (d : UploadDir). d.meta) e) full)
      ∙ complete_answers id serial raw m (attempt (upload_lock id w)).1
          (ap later_faults (upload_lock_faults id w ∙ calm))
          (ap (λ v. (or_empty (lookup id v)).part) (upload_lock_uploads id w)
            ∙ ap (λ (d : UploadDir). d.part) e)
          es (ap (lookup (iso_path dir serial)) (upload_lock_files id w) ∙ free)
