-- ===== src/Go/Number/Laws.antt =====
-- Printing and reading decimal numbers, together.
use cache_22_server.Prelude.{
  ℕ, zero, suc, ◌+◌, ◌-◌, ◌*◌, ◌/◌, ◌%◌, ◌≤◌, ◌<◌, [], ◌∷◌, ◌≡◌, ◌≢◌, refl, sym, ap, ◌∙◌, Bytes,
  ltb, arith, All, Bool-cases, inl, inr,
}
use cache_22_server.Go.Number.{value, Scan, int64_limit, scan, digits, sprint, parse_int}

abbrev pub IsDigit : ℕ → Type 0
IsDigit c = (b'0' ≤ c) × (c ≤ b'9')

digits-IsDigit : (fuel n : ℕ) (out : Bytes) → All IsDigit out → All IsDigit (digits fuel n out)
unfolding digits
digits-IsDigit zero n out h = h
digits-IsDigit (suc fuel) n out h =
    ground (arith, digits-IsDigit fuel (n / 10) ((b'0' + n % 10) ∷ out))

pub sprint-IsDigit : (n : ℕ) → All IsDigit (sprint n)
unfolding sprint
sprint-IsDigit n = digits-IsDigit (suc n) n [] tt

-- The number that digits spell behind `n`, with no bound.
abbrev spelled : ℕ → Bytes → ℕ
spelled n [] = n
spelled n (c ∷ s) = spelled (n * 10 + (c - b'0')) s

spelled-digits :
    (fuel n : ℕ) (out : Bytes) → n < fuel → spelled 0 (digits fuel n out) ≡ spelled n out
unfolding digits
spelled-digits zero n out h = absurd (omega arith)
spelled-digits (suc fuel) n out h = elim (Bool-cases (ltb n 10)) [
  | inl last ↦ rw last (ap (λ k. spelled k out) (ground arith))
  | inr more ↦ rw more (
      spelled-digits fuel (n / 10) ((b'0' + n % 10) ∷ out) (ground arith)
      ∙ ap (λ k. spelled k out) (omega arith))
]

spelled-sprint : (n : ℕ) → spelled 0 (sprint n) ≡ n
unfolding sprint
spelled-sprint n = spelled-digits (suc n) n [] (omega arith)

-- Different numbers are printed differently.
pub sprint-injective : (m n : ℕ) → sprint m ≡ sprint n → m ≡ n
sprint-injective m n e = sym (spelled-sprint m) ∙ ap (spelled 0) e ∙ spelled-sprint n

digits-ne-nil : (fuel n : ℕ) (out : Bytes) → out ≢ [] → digits fuel n out ≢ []
unfolding digits
digits-ne-nil zero n out h = h
digits-ne-nil (suc fuel) n out h = elim (Bool-cases (ltb n 10)) [
  | inl last ↦ rw last (λ e. cc)
  | inr more ↦ rw more (digits-ne-nil fuel (n / 10) ((b'0' + n % 10) ∷ out) (λ e. cc))
]

pub sprint-ne-nil : (n : ℕ) → sprint n ≢ []
unfolding sprint digits
sprint-ne-nil n = elim (Bool-cases (ltb n 10)) [
  | inl last ↦ rw last (λ e. cc)
  | inr more ↦ rw more (digits-ne-nil n (n / 10) ((b'0' + n % 10) ∷ []) (λ e. cc))
]

le-spelled : (n : ℕ) (s : Bytes) → n ≤ spelled n s
le-spelled n [] = omega arith
le-spelled n (c ∷ s) = omega (arith, le-spelled (n * 10 + (c - b'0')) s)

scan-spelled :
    (s : Bytes) (n : ℕ)
    → All IsDigit s
    → spelled n s < int64_limit
    → scan s n ≡ Scan.number (spelled n s)
unfolding scan
scan-spelled [] n d h = refl
scan-spelled (c ∷ s) n (dc, ds) h =
    ground (arith, scan-spelled s (n * 10 + (c - b'0')) ds h, le-spelled (n * 10 + (c - b'0')) s)

parse_digits :
    (s : Bytes)
    → s ≢ []
    → All IsDigit s
    → spelled 0 s < int64_limit
    → parse_int s ≡ value (spelled 0 s)
unfolding parse_int
parse_digits [] h d l = absurd (h refl)
parse_digits (c ∷ s) h d l = ground (arith, scan-spelled (c ∷ s) 0 d l)

-- Every int64 that is not negative is read back from its print.
pub parse_int-sprint : (n : ℕ) → n < int64_limit → parse_int (sprint n) ≡ value n
parse_int-sprint n h =
    parse_digits (sprint n) (sprint-ne-nil n) (sprint-IsDigit n) (rw spelled-sprint h)
    ∙ ap value (spelled-sprint n)
