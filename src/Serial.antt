-- ===== src/Serial.antt =====
-- sanitizeSerial of internal/handler/http/upload.go: a game's serial from the name of a file.
pub mod Safety
mod Tests
use cache_22_server.Prelude.{
  ℕ, Bool, false, ◌||◌, Option, none, some, [], ◌∷◌, Bytes, length, take, ltb, nat_beq, ◌==◌,
  nat_eq, list_eq, if◌then◌else◌,
}
use cache_22_server.Go.Text.{trim_space, last_index, contains, contains_byte}
use cache_22_server.Go.FilePath.{base, dot, slash, dot_dot}

abbrev pub backslash : ℕ
backslash = 92

-- `if i := strings.LastIndex(base, "."); i > 0 { base = base[:i] }`
pub cut_ext : Bytes → Bytes
unfolding last_index
cut_ext s = elim (last_index s dot) [ none ↦ s | some i ↦ if nat_beq i 0 then s else take i s ]

abbrev pub starts_with_dot : Bytes → Bool
starts_with_dot [] = false
starts_with_dot (c ∷ s) = nat_beq c dot

-- the two tests that refuse a name
pub is_bad_name : Bytes → Bool
is_bad_name s =
    s == [] || s == (dot ∷ []) || s == dot_dot || starts_with_dot s || ltb 128 (length s)

pub is_unsafe : Bytes → Bool
unfolding contains_byte contains
is_unsafe s = contains_byte s slash || contains_byte s backslash || contains s dot_dot

pub check_name : Bytes → Option Bytes
unfolding is_bad_name is_unsafe
check_name s = if is_bad_name s then none else if is_unsafe s then none else some s

unfoldable pub sanitize : Bytes → Option Bytes
unfolding check_name cut_ext base trim_space
sanitize name = check_name (cut_ext (base (trim_space name)))
