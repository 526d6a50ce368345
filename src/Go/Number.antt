-- ===== src/Go/Number.antt =====
-- Package `strconv` on decimal numbers, and the printing of naturals.
pub mod Laws
use cache_22_server.Prelude.{
  ℕ, zero, suc, ◌+◌, ◌-◌, ◌*◌, ◌/◌, ◌%◌, ◌^◌, Bool, true, false, ◌||◌, [], ◌∷◌, ◌≡◌, refl, Bytes,
  codes, ltb, leb, nat_beq, if◌then◌else◌,
}

-- What ParseInt returns: a value, or a value with an error. `negative n` is -n, with n positive.
pub data Parsed : Type 0 where
  value : ℕ → Parsed
  negative : ℕ → Parsed
  syntax_error : Parsed
  range_error : Bool → Parsed

abbrev pub int64_limit : ℕ
int64_limit = 2 ^ 63

-- ParseUint with 64 bits: the first bad byte or the first overflow ends the scan.
pub data Scan : Type 0 where
  number : ℕ → Scan
  bad_byte too_big : Scan

scan : Bytes → ℕ → Scan
scan [] n = Scan.number n
scan (c ∷ s) n =
    let rest = scan s (n * 10 + (c - b'0')) in
    if ltb c b'0' || ltb b'9' c
    then Scan.bad_byte
    else if leb (2 ^ 64) (n * 10 + (c - b'0'))
    then Scan.too_big
    else rest

-- The sign is `true` for a minus.
signed : Bool → Scan → Parsed
signed minus (Scan.bad_byte) = syntax_error
signed minus (Scan.too_big) = range_error minus
signed false (Scan.number n) = if leb int64_limit n then range_error false else value n
signed true (Scan.number n) =
    if ltb int64_limit n then range_error true else if nat_beq n 0 then value 0 else negative n

unsigned : Bool → Bytes → Parsed
unfolding scan signed
unsigned minus [] = syntax_error
unsigned minus (c ∷ s) = signed minus (scan (c ∷ s) 0)

-- strconv.ParseInt(s, 10, 64), which strconv.Atoi equals on 64-bit machines
unfoldable pub parse_int : Bytes → Parsed
unfolding unsigned
parse_int [] = syntax_error
parse_int (c ∷ s) =
    if nat_beq c b'+'
    then unsigned false s
    else if nat_beq c b'-'
    then unsigned true s
    else unsigned false (c ∷ s)

digits : ℕ → ℕ → Bytes → Bytes
digits zero n out = out
digits (suc fuel) n out =
    let out' = ((b'0' + n % 10) ∷ out) in
    let rest = digits fuel (n / 10) out' in if ltb n 10 then out' else rest

-- fmt.Sprint of a natural number: one round for each digit, so n + 1 rounds are enough.
unfoldable pub sprint : ℕ → Bytes
unfolding digits
sprint n = digits (suc n) n []

parse_int_examples :
    (parse_int (codes "-12") ≡ negative 12)
    × (parse_int (codes "007") ≡ value 7)
    × (parse_int (codes "9223372036854775808") ≡ range_error false)
    × (parse_int (codes "1x") ≡ syntax_error)
unfolding parse_int
parse_int_examples = (refl, refl, refl, refl)

sprint_example : sprint 1204 ≡ codes "1204"
unfolding sprint
sprint_example = refl
