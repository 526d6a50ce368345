-- ===== src/Saves/Isolation.antt =====
-- filePath of internal/app/usecase/save/save.go and saveSlot of internal/handler/http/saves.go: which
-- file a request for a card reaches.
use cache_22_server.Prelude.{
  ℕ, some, [], ◌∷◌, ◌++◌, Bytes, codes, ◌≡◌, ◌≢◌, refl, sym, ap, ◌∙◌, arith, All, All-append,
  append_cancel_left, append_cancel_right, append_assoc, list_eq, nat_eq, ◌⊎◌,
}
use cache_22_server.Go.Number.{sprint, parse_int, value}
use cache_22_server.Go.Number.Laws.{IsDigit, sprint-IsDigit, sprint-ne-nil, sprint-injective}
use cache_22_server.Go.FilePath.{FilePath, join, slash, dot_dot}
use cache_22_server.Go.FilePath.Laws.{NoSlash, IsPlain, join_nil, join_plain, join_climb}
use cache_22_server.Serial.{sanitize}
use cache_22_server.Saves.{file_path, slot_name}
use cache_22_server.Saves.Handlers.{save_slot, save_slot_lem}

digits-NoSlash : (s : Bytes) → All IsDigit s → NoSlash s
digits-NoSlash [] h = tt
digits-NoSlash (c ∷ s) h = (omega arith, digits-NoSlash s h.1)

digits-IsPlain : (s : Bytes) → s ≢ [] → All IsDigit s → IsPlain s
digits-IsPlain [] h d = absurd (h refl)
digits-IsPlain (c ∷ s) h d = record {
  no_slash = digits-NoSlash (c ∷ s) d;
  not_empty = h;
  not_dot = λ e. ground (arith, d.0);
  not_dot_dot = λ e. ground (arith, d.0);
}

sprint-IsPlain : (n : ℕ) → IsPlain (sprint n)
sprint-IsPlain n = digits-IsPlain (sprint n) (sprint-ne-nil n) (sprint-IsDigit n)

slot_name-IsPlain : (slot : ℕ) → IsPlain (slot_name slot)
slot_name-IsPlain slot = record {
  no_slash =
      All-append (λ c. c ≢ slash) (codes "slot") (sprint slot ++ codes ".ps2") (omega arith)
        (All-append (λ c. c ≢ slash) (sprint slot) (codes ".ps2")
          (digits-NoSlash (sprint slot) (sprint-IsDigit slot)) (omega arith));
  not_empty = λ e. cc;
  not_dot = λ e. cc;
  not_dot_dot = λ e. cc;
}

-- The file of a plain serial lies in the user's folder.
pub file_path_plain :
    (dir : FilePath) (user_id : ℕ) (serial : Bytes) (slot : ℕ)
    → IsPlain serial
    → file_path dir user_id serial slot ≡ dir ++ sprint user_id ∷ serial ∷ slot_name slot ∷ []
unfolding file_path join
file_path_plain dir user_id serial slot h =
    join_plain dir (sprint user_id) (serial ∷ slot_name slot ∷ []) (sprint-IsPlain user_id)
    ∙ join_plain (dir ++ sprint user_id ∷ []) serial (slot_name slot ∷ []) h
    ∙ join_plain _ (slot_name slot) [] (slot_name-IsPlain slot)
    ∙ join_nil _
    ∙ append_assoc (dir ++ sprint user_id ∷ []) (serial ∷ []) (slot_name slot ∷ [])
    ∙ append_assoc dir (sprint user_id ∷ []) (serial ∷ slot_name slot ∷ [])

slot_name-injective : (i j : ℕ) → slot_name i ≡ slot_name j → i ≡ j
slot_name-injective i j e =
    sprint-injective i j (append_cancel_right (sprint i) (sprint j) (codes ".ps2") cc)

-- With plain serials, two cards share a file only if they are the same card of the same user.
pub file_path-injective :
    (dir : FilePath) (u v : ℕ) (s t : Bytes) (i j : ℕ)
    → IsPlain s
    → IsPlain t
    → file_path dir u s i ≡ file_path dir v t j
    → (u ≡ v) × (s ≡ t) × (i ≡ j)
file_path-injective dir u v s t i j hs ht e =
    let same : ◌≡◌ {A = FilePath} (sprint u ∷ s ∷ slot_name i ∷ [])
        (sprint v ∷ t ∷ slot_name j ∷ []) =
      append_cancel_left dir _ _
        (sym (file_path_plain dir u s i hs) ∙ e ∙ file_path_plain dir v t j ht) in
    (sprint-injective u v (cc), cc, slot_name-injective i j (cc))

-- The serial that climbs from one user's folder into another's.
abbrev pub climbing : ℕ → Bytes → Bytes
climbing victim serial = dot_dot ++ slash ∷ (sprint victim ++ slash ∷ serial)

climbing_path :
    (dir : FilePath) (attacker victim slot : ℕ) (serial : Bytes)
    → IsPlain serial
    → file_path dir attacker (climbing victim serial) slot ≡ file_path dir victim serial slot
unfolding file_path
climbing_path dir attacker victim slot serial h =
    join_plain dir (sprint attacker) (climbing victim serial ∷ slot_name slot ∷ [])
      (sprint-IsPlain attacker)
    ∙ join_climb dir (sprint attacker) (sprint victim) serial (slot_name slot ∷ [])
        (sprint-IsPlain attacker) (sprint-IsPlain victim) h
    ∙ sym (
        join_plain dir (sprint victim) (serial ∷ slot_name slot ∷ []) (sprint-IsPlain victim)
        ∙ join_plain (dir ++ sprint victim ∷ []) serial (slot_name slot ∷ []) h
        ∙ ap (λ d. join d (slot_name slot ∷ []))
            (append_assoc dir (sprint victim ∷ []) (serial ∷ [])))

save_slot_kept :
    (serial slot_text checked : Bytes) (slot : ℕ)
    → parse_int slot_text ≡ value slot
    → (slot ≡ 1) ⊎ (slot ≡ 2)
    → sanitize (serial ++ codes ".iso") ≡ some checked
    → save_slot serial slot_text ≡ some (serial, slot)
save_slot_kept serial slot_text checked slot e two ok_name =
    ground (arith, save_slot_lem serial slot_text)

-- Whenever saveSlot accepts such a serial, it passes it on as it is, and the file that the handlers
-- read, write or delete for one user is another user's card.
pub climbing_serial_escapes :
    (dir : FilePath) (attacker victim slot : ℕ) (serial slot_text checked : Bytes)
    → IsPlain serial
    → parse_int slot_text ≡ value slot
    → (slot ≡ 1) ⊎ (slot ≡ 2)
    → sanitize (climbing victim serial ++ codes ".iso") ≡ some checked
    → (save_slot (climbing victim serial) slot_text ≡ some (climbing victim serial, slot))
      × (file_path dir attacker (climbing victim serial) slot ≡ file_path dir victim serial slot)
climbing_serial_escapes dir attacker victim slot serial slot_text checked h e two ok_name = (
  save_slot_kept (climbing victim serial) slot_text checked slot e two ok_name,
  climbing_path dir attacker victim slot serial h,
)
