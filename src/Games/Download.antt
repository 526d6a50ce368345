-- ===== src/Games/Download.antt =====
-- From the completion of an upload to the download of its file.
use mathlib.Core.List.{reverse, reverse-append}
use cache_22_server.Disk.{last_part}
use cache_22_server.Prelude.{
  ℕ, true, ◌≡◌, refl, sym, ap, ◌∙◌, subst, List, [], ◌∷◌, ◌++◌, some, Bytes, codes, arith, length,
  take, drop, find_if, ◌==◌, nat_eq, list_eq, beq_refl, inl, inr, Bool-cases, length-append,
}
use cache_22_server.Go.Text.{last_index, has_suffix, has_prefix, to_lower, lower_byte}
use cache_22_server.Go.FilePath.{FilePath, ext, dot}
use cache_22_server.Entity.{Game}
use cache_22_server.Scanner.{stem, inspect, inspected}
use cache_22_server.Prelude.Assoc.{lookup}
use cache_22_server.World.{World, UploadMeta, Result, quiet, ok, err}
use cache_22_server.External.{External}
use cache_22_server.Upload.Store.{dir_of, read_meta, upload_lock}
use cache_22_server.Upload.Chunked.{upload_complete, finish}
use cache_22_server.Upload.Chunked.Integrity.{Holds}
use cache_22_server.Upload.Chunked.Complete.{upload_complete_delivers, complete_full, finish_games}
use cache_22_server.Http.{Response, Body}
use cache_22_server.Games.{is_iso, serve_file, etag_of}
use cache_22_server.Serial.{sanitize}
use cache_22_server.Upload.Finalize.{
  iso_path, register, retitled, finalize_upload, move_in, stat_ok, part_of,
}
use cache_22_server.Db.Games.{put_game}

abbrev iso_ext : Bytes
iso_ext = codes ".iso"

last_index_ext : (s : Bytes) → last_index (s ++ iso_ext) dot ≡ some (length s)
unfolding last_index
last_index_ext [] = refl
last_index_ext (c ∷ s) = rw (last_index_ext s)

drop-length : (s t : Bytes) → drop (length s) (s ++ t) ≡ t
drop-length [] t = ground arith
drop-length (c ∷ s) t = ground (arith, drop-length s t)

take-length : (s t : Bytes) → take (length s) (s ++ t) ≡ s
take-length [] t = ground arith
take-length (c ∷ s) t = ground (arith, take-length s t)

stem_iso : (s : Bytes) → stem (s ++ iso_ext) ≡ s
unfolding stem ext
stem_iso s =
    ground (
      arith,
      last_index_ext s,
      drop-length s iso_ext,
      take-length s iso_ext,
      length-append s iso_ext,
    )

last_part_iso : (dir : FilePath) (s : Bytes) → last_part (iso_path dir s) ≡ s ++ iso_ext
unfolding last_part
last_part_iso [] s = refl
last_part_iso (d ∷ []) s = refl
last_part_iso (d ∷ e ∷ dir) s = last_part_iso (e ∷ dir) s

has_prefix_append : (s t : Bytes) → has_prefix (s ++ t) s ≡ true
unfolding has_prefix
has_prefix_append [] t = refl
has_prefix_append (c ∷ s) t = ground (arith, has_prefix_append s t)

to_lower_append : (s t : Bytes) → to_lower (s ++ t) ≡ to_lower s ++ to_lower t
unfolding to_lower
to_lower_append [] t = refl
to_lower_append (c ∷ s) t = ap (λ l. lower_byte c ∷ l) (to_lower_append s t)

is_iso_iso : (dir : FilePath) (s : Bytes) → is_iso (iso_path dir s) ≡ true
unfolding is_iso has_suffix to_lower
is_iso_iso dir s =
    ap (λ n. has_suffix (to_lower n) iso_ext) (last_part_iso dir s)
    ∙ ap (λ n. has_suffix n iso_ext) (to_lower_append s iso_ext)
    ∙ ap (λ l. has_prefix l (reverse iso_ext)) (reverse-append (to_lower s) iso_ext)
    ∙ has_prefix_append (reverse iso_ext) (reverse (to_lower s))

put_game_found :
    (now : ℕ) (g : Game) (gs : List Game)
    → (t : ℕ) × (find_if (λ (h : Game). h.serial == g.serial) (put_game now g gs)
        ≡ some (record g { created_at = t; updated_at = now }))
unfolding put_game
put_game_found now g [] = (now, ground (arith, beq_refl g.serial))
put_game_found now g (h ∷ gs) = elim (Bool-cases (h.serial == g.serial)) [
  | inl e ↦ (h.created_at, ground (arith, beq_refl g.serial))
  | inr n ↦ let (t, f) = put_game_found now g gs in (t, ground (arith, f))
]

-- The table has a game under the serial, whose file is the one named.
abbrev HasGame : Bytes → FilePath → List Game → Type 0
HasGame serial path gs =
    (g : Game) × (find_if (λ (h : Game). h.serial == serial) gs ≡ some g) × (g.file_path ≡ path)

put_game-HasGame :
    (now : ℕ) (g : Game) (gs : List Game) → HasGame g.serial g.file_path (put_game now g gs)
put_game-HasGame now g gs =
    let (t, e) = put_game_found now g gs in (record g { created_at = t; updated_at = now }, e, refl)

-- A game whose file is there is sent as it is.
serve_HasGame :
    (serial raw : Bytes) (path : FilePath) (w : World)
    → HasGame serial path w.games
    → is_iso path ≡ true
    → lookup path w.files ≡ some raw
    → (etag : Bytes) × ((serve_file serial (quiet w)).0
        ≡ record { code = 200; body = Body.content etag raw })
unfolding serve_file
serve_HasGame serial raw path w (g, e, own) iso there =
    (etag_of g, ground (arith, ap is_iso own, ap (λ p. lookup p w.files) own))

module _ (x : External) (dir : FilePath) where
  or_blank : FilePath → Result Game → Game
  or_blank final (ok g) = g
  or_blank final (err e) = inspected x final 0 []

  register_games :
      (final : FilePath) (title : Bytes) (w : World)
      → (register x dir final title w).0.code ≡ 201
      → let g = retitled title (or_blank final (inspect x final w).0) in
        (g.serial ≡ stem (last_part final))
        × (g.file_path ≡ final)
        × ((register x dir final title w).1.games ≡ put_game w.now g w.games)
  unfolding register inspect or_blank
  register_games final title w h = ground arith

  finalize_registers :
      (id filename title serial : Bytes) (w : World)
      → sanitize filename ≡ some serial
      → (finalize_upload x dir (part_of id) filename title w).0.code ≡ 201
      → finalize_upload x dir (part_of id) filename title w
        ≡ register x dir
            (iso_path dir serial)
            title
            (move_in (part_of id) (iso_path dir serial) (stat_ok (iso_path dir serial) w).1).1
  unfolding finalize_upload
  finalize_registers id filename title serial w es h = ground arith

  register-HasGame :
      (serial title : Bytes) (w : World)
      → (register x dir (iso_path dir serial) title w).0.code ≡ 201
      → HasGame serial (iso_path dir serial) (register x dir (iso_path dir serial) title w).1.games
  register-HasGame serial title w h =
      let final = iso_path dir serial in
      let g : Game = retitled title (or_blank final (inspect x final w).0) in
      let (named, at, table) = register_games final title w h in
      let same : g.serial ≡ serial = named ∙ ap stem (last_part_iso dir serial) ∙ stem_iso serial in
      subst (HasGame serial final) (sym table) (
        subst (λ s. HasGame s final (put_game w.now g w.games)) same
          (subst (λ p. HasGame g.serial p (put_game w.now g w.games)) at
            (put_game-HasGame w.now g w.games)))

  finalize-HasGame :
      (id filename title serial : Bytes) (w : World)
      → sanitize filename ≡ some serial
      → (finalize_upload x dir (part_of id) filename title w).0.code ≡ 201
      → HasGame serial
          (iso_path dir serial)
          (finalize_upload x dir (part_of id) filename title w).1.games
  finalize-HasGame id filename title serial w es h =
      let after =
        (move_in (part_of id) (iso_path dir serial) (stat_ok (iso_path dir serial) w).1).1 in
      let same = finalize_registers id filename title serial w es h in
      subst (λ (r : Response × World). HasGame serial (iso_path dir serial) r.1.games) (sym same)
        (register-HasGame serial title after
          (ap (λ (r : Response × World). r.0.code) (sym same) ∙ h))

  finish-HasGame :
      (m : UploadMeta) (id serial : Bytes) (w : World)
      → sanitize m.filename ≡ some serial
      → (finish x dir m id w).0.code ≡ 201
      → HasGame serial (iso_path dir serial) (finish x dir m id w).1.games
  finish-HasGame m id serial w es h =
      let (code, games) = finish_games x dir m id w in
      subst (HasGame serial (iso_path dir serial)) (sym games) (
        finalize-HasGame id m.filename m.title serial w es
          (ap (λ (r : Response). r.code) (sym code) ∙ h))

  -- Whatever calls failed during the upload: once its completion has answered 201, the request for
  -- the file under the game's serial, where no call fails, answers 200 with the file that was sent.
  pub completed_upload_downloads :
      (content id serial : Bytes) (m : UploadMeta) (w : World)
      → (dir_of id w).meta ≡ some m
      → sanitize m.filename ≡ some serial
      → Holds content id w
      → (upload_complete x dir (some id) w).0.code ≡ 201
      → (etag : Bytes) × ((serve_file serial (quiet (upload_complete x dir (some id) w).1)).0
          ≡ record { code = 200; body = Body.content etag content })
  completed_upload_downloads content id serial m w em es held h =
      let w1 = (read_meta id (upload_lock id w)).1 in
      let same = (complete_full x dir id m w em h).1 in
      let game =
        subst (λ (r : Response × World). HasGame serial (iso_path dir serial) r.1.games) (sym same)
          (finish-HasGame m id serial w1 es
            (ap (λ (r : Response × World). r.0.code) (sym same) ∙ h)) in
      serve_HasGame serial content (iso_path dir serial) (upload_complete x dir (some id) w).1 game
        (is_iso_iso dir serial) (upload_complete_delivers x dir content id serial m w em es held h)
