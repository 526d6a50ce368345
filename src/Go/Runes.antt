-- ===== src/Go/Runes.antt =====
-- Go's loop over the characters of a string, `for range` and strings.Map: a character in UTF-8 takes
-- up to four bytes, and a byte that does not begin one in full is a character by itself, U+FFFD.
pub mod Laws
use cache_22_server.Prelude.{
  ℕ, zero, suc, Bool, true, false, ◌&&◌, List, [], ◌∷◌, Bytes, ltb, leb, nat_beq, if◌then◌else◌,
}

-- how many bytes follow a byte that begins a character; none for ASCII and for a byte that begins none
abbrev pub tail_length : ℕ → ℕ
tail_length c =
    if ltb c 194
    then 0
    else if ltb c 224
    then 1
    else if ltb c 240
    then 2
    else if ltb c 245
    then 3
    else 0

-- The byte behind the first one is between these: no overlong form, no surrogate, none above U+10FFFF.
abbrev pub second_low : ℕ → ℕ
second_low c = if nat_beq c 224 then 160 else if nat_beq c 240 then 144 else 128

abbrev pub second_high : ℕ → ℕ
second_high c = if nat_beq c 237 then 159 else if nat_beq c 244 then 143 else 191

abbrev pub is_second : ℕ → Bytes → Bool
is_second c [] = false
is_second c (d ∷ s) = leb (second_low c) d && leb d (second_high c)

-- The text begins with that many continuation bytes.
unfoldable pub follows : ℕ → Bytes → Bool
follows zero s = true
follows (suc n) [] = false
follows (suc n) (c ∷ s) = leb 128 c && (leb c 191 && follows n s)

-- utf8.DecodeRune: the length of the character that starts with this byte, less 1
unfoldable pub rune_tail : ℕ → Bytes → ℕ
rune_tail c s = if is_second c s && follows (tail_length c) s then tail_length c else 0
