-- ===== src/Serial/Safety.antt =====
-- What sanitizeSerial of internal/handler/http/upload.go lets through.
use cache_22_server.Prelude.{
  ℕ, ◌≤◌, ◌≡◌, ◌≢◌, false, some, [], ◌∷◌, Bytes, All, arith, length, list_beq_iff, nat_eq, list_eq,
}
use cache_22_server.Go.Text.{contains_byte, trim_space}
use cache_22_server.Go.FilePath.{base, slash, dot, dot_dot}
use cache_22_server.Go.FilePath.Laws.{IsPlain, NoSlash}
use cache_22_server.Serial.{
  sanitize, check_name, starts_with_dot, is_bad_name, is_unsafe, cut_ext, backslash,
}

abbrev pub Without : ℕ → Bytes → Type 0
Without b = All (λ c. c ≢ b)

contains_byte-Without : (s : Bytes) (b : ℕ) → contains_byte s b ≡ false → Without b s
unfolding contains_byte
contains_byte-Without [] b h = tt
contains_byte-Without (c ∷ s) b h = (ground arith, contains_byte-Without s b (ground arith))

-- What check_name lets through, it leaves as it is.
checked :
    (t s : Bytes)
    → check_name t ≡ some s
    → (t ≡ s) × (is_bad_name s ≡ false) × (is_unsafe s ≡ false)
unfolding check_name
checked t s h = ground arith

good_name :
    (s : Bytes)
    → is_bad_name s ≡ false
    → (s ≢ []) × (s ≢ dot ∷ []) × (s ≢ dot_dot) × (length s ≤ 128)
unfolding is_bad_name
good_name s h = ground (
  arith,
  list_beq_iff nat_eq s [],
  list_beq_iff nat_eq s (dot ∷ []),
  list_beq_iff nat_eq s dot_dot,
)

safe_name : (s : Bytes) → is_unsafe s ≡ false → NoSlash s × Without backslash s
unfolding is_unsafe
safe_name s h =
    (contains_byte-Without s slash (ground arith), contains_byte-Without s backslash (ground arith))

-- An accepted serial is a plain path component without a backslash, of at most 128 bytes.
pub sanitize-IsPlain :
    (name serial : Bytes)
    → sanitize name ≡ some serial
    → IsPlain serial × Without backslash serial × (length serial ≤ 128)
unfolding sanitize
sanitize-IsPlain name serial h =
    let (same, good, safe) = checked (cut_ext (base (trim_space name))) serial h in
    let (some_bytes, one, two, short) = good_name serial good in
    let (flat, straight) = safe_name serial safe in
    (
      record { no_slash = flat; not_empty = some_bytes; not_dot = one; not_dot_dot = two },
      straight,
      short,
    )

good_start : (s : Bytes) → is_bad_name s ≡ false → starts_with_dot s ≡ false
unfolding is_bad_name
good_start s h = ground arith

pub sanitize-starts_with_dot :
    (name serial : Bytes) → sanitize name ≡ some serial → starts_with_dot serial ≡ false
unfolding sanitize
sanitize-starts_with_dot name serial h =
    let (same, good, safe) = checked (cut_ext (base (trim_space name))) serial h in
    good_start serial good
