-- ===== src/Saves/Handlers.antt =====
-- internal/handler/http/saves.go. The user is the one that requireAuth put into the context.
pub mod Apart
use cache_22_server.Prelude.{
  ℕ, Bool, true, false, ◌||◌, Option, none, some, ◌++◌, Bytes, codes, length, ltb, nat_beq,
  if◌then◌else◌,
}
use mathlib.Core.Path.{◌≡◌, refl}
use cache_22_server.Go.Number.{Parsed, value, negative, syntax_error, range_error, parse_int}
use cache_22_server.Go.FilePath.{FilePath}
use cache_22_server.Entity.{User}
use cache_22_server.World.{Proc, Error, no_rows, handle}
use cache_22_server.External.{External}
use cache_22_server.Http.{Response, Body, problem_response, respond, refuse, internal_err}
use cache_22_server.Serial.{sanitize}
use cache_22_server.Saves.{get, put, delete}

abbrev pub max_save_bytes : ℕ
max_save_bytes = 16777216

abbrev pub slot_number : Parsed → Option ℕ
slot_number (value n) = if nat_beq n 1 || nat_beq n 2 then some n else none
slot_number (negative n) = none
slot_number syntax_error = none
slot_number (range_error minus) = none

abbrev pub with_serial : Bytes → Option ℕ → Option Bytes → Option (Bytes × ℕ)
with_serial serial none checked = none
with_serial serial (some slot) none = none
with_serial serial (some slot) (some checked) = some (serial, slot)

-- saveSlot. The sanitized serial is dropped: the caller gets the text of the request.
unfoldable pub save_slot : Bytes → Bytes → Option (Bytes × ℕ)
unfolding parse_int sanitize
save_slot serial slot_text =
    with_serial serial (slot_number (parse_int slot_text)) (sanitize (serial ++ codes ".iso"))

pub save_slot_lem :
    (serial slot_text : Bytes)
    → save_slot serial slot_text
      ≡ with_serial serial (slot_number (parse_int slot_text)) (sanitize (serial ++ codes ".iso"))
unfolding save_slot
save_slot_lem serial slot_text = refl

abbrev pub shown : Bool → Bytes → Option Bytes
shown true raw = some raw
shown false raw = none

abbrev pub missing_or_broken : Error → Proc Response
missing_or_broken no_rows w = (problem_response 404 "no save", w)
missing_or_broken e w = (problem_response 500 "internal error", w)

module _ (x : External) (dir : FilePath) where
  serve_card : User → Bool → Option (Bytes × ℕ) → Proc Response
  unfolding get
  serve_card u with_body none = refuse 400 "bad serial or slot"
  serve_card u with_body (some (serial, slot)) =
      handle (get x dir u.id serial slot) missing_or_broken
        λ found. respond 200 (Body.card found.0 (shown with_body found.1))

  -- GET with `true`, HEAD with `false`
  unfoldable pub serve_save : Option User → Bytes → Bytes → Bool → Proc Response
  unfolding serve_card save_slot
  serve_save none serial slot_text with_body = refuse 401 "unauthorized"
  serve_save (some u) serial slot_text with_body =
      serve_card u with_body (save_slot serial slot_text)

  put_card : User → Option (Bytes × ℕ) → Option Bytes → Proc Response
  unfolding put
  put_card u none raw = refuse 400 "bad serial or slot"
  put_card u (some slot) none = refuse 400 "empty save"
  put_card u (some (serial, slot)) (some raw) =
      if ltb max_save_bytes (length raw) || nat_beq (length raw) 0
      then refuse 400 "empty save"
      else handle (put x dir u.id serial slot raw) (λ e. internal_err)
          λ meta. respond 200 (Body.save meta)

  -- A body that breaks off is `none`.
  unfoldable pub put_save : Option User → Bytes → Bytes → Option Bytes → Proc Response
  unfolding put_card save_slot
  put_save none serial slot_text raw = refuse 401 "unauthorized"
  put_save (some u) serial slot_text raw = put_card u (save_slot serial slot_text) raw

  delete_card : User → Option (Bytes × ℕ) → Proc Response
  unfolding delete
  delete_card u none = refuse 400 "bad serial or slot"
  delete_card u (some (serial, slot)) =
      handle (delete x dir u.id serial slot) (λ e. internal_err) λ done. respond 200 Body.status_ok

  unfoldable pub delete_save : Option User → Bytes → Bytes → Proc Response
  unfolding delete_card save_slot
  delete_save none serial slot_text = refuse 401 "unauthorized"
  delete_save (some u) serial slot_text = delete_card u (save_slot serial slot_text)
