-- ===== src/Web/Sizes.antt =====
-- internal/web/helpers.go: FormatBytes, up to the division of floating point numbers that it prints,
-- and bootBytes.
mod Tests
use cache_22_server.Prelude.{
  ℕ, zero, suc, ◌+◌, ◌*◌, ◌/◌, ◌-◌, ◌≤◌, ◌<◌, ◌≡◌, refl, Bool, true, false, Option, none, some,
  List, [], ◌∷◌, Bytes, codes, ltb, get_elem?, length, min, arith, if◌then◌else◌, Bool-cases, inl,
  inr, subst, sym,
}
use native.Mathlib.Nat.{mul-le-mul_right}
use cache_22_server.Go.Number.{int64_limit}
use cache_22_server.Entity.{Manifest, Game, boot_bytes}
use cache_22_server.Games.{manifest_of, boot_ranges_of}

abbrev pub unit : ℕ
unit = 1024

-- The loop over `div` and `exp`. Each round makes `v` smaller, so `v` itself is enough fuel.
pub divide_down : ℕ → ℕ → ℕ → ℕ → ℕ × ℕ
divide_down zero v div exp = (div, exp)
divide_down (suc fuel) v div exp =
    let rest = divide_down fuel (v / unit) (div * unit) (suc exp) in
    if ltb v unit then (div, exp) else rest

-- What FormatBytes divides by, and the index of its letter; `none` is a size that is printed whole.
unfoldable pub scale_of : ℕ → Option (ℕ × ℕ)
unfolding divide_down
scale_of n = if ltb n unit then none else some (divide_down (n / unit) (n / unit) unit 0)

-- bootBytes
pub sum_ranges : List (ℕ × ℕ) → ℕ
sum_ranges [] = 0
sum_ranges (r ∷ rs) = (r.1 - r.0) + sum_ranges rs

-- the size goes down from 1.0 to below 1024.0
abbrev pub Scaled : ℕ → ℕ → Type 0
Scaled n div = (div ≤ n) × (n < div * unit)

last_round : (v div n : ℕ) → v < unit → 1 ≤ v → v * div ≤ n → n < suc v * div → Scaled n div
last_round v div n k p lo hi =
    let least : 1 * div ≤ v * div = mul-le-mul_right div p in
    let most : suc v * div ≤ unit * div = mul-le-mul_right div k in (omega arith, omega arith)

next_round :
    (v div n : ℕ)
    → v * div ≤ n
    → n < suc v * div
    → (v / unit * (div * unit) ≤ n) × (n < suc (v / unit) * (div * unit))
next_round v div n lo hi =
    let down : v / unit * unit ≤ v = omega arith in
    let up : suc v ≤ suc (v / unit) * unit = omega arith in
    let least : v / unit * unit * div ≤ v * div = mul-le-mul_right div down in
    let most : suc v * div ≤ suc (v / unit) * unit * div = mul-le-mul_right div up in
    (omega arith, omega arith)

divide_down-Scaled :
    (fuel v div exp n : ℕ)
    → v ≤ fuel
    → 1 ≤ v
    → v * div ≤ n
    → n < suc v * div
    → Scaled n (divide_down fuel v div exp).0
unfolding divide_down
divide_down-Scaled zero v div exp n f p lo hi = absurd (omega arith)
divide_down-Scaled (suc fuel) v div exp n f p lo hi = elim (Bool-cases (ltb v unit)) [
  | inl t ↦ ground (arith, last_round v div n (ground arith) p lo hi)
  | inr t ↦
      let (lo', hi') = next_round v div n lo hi in
      ground (
        arith,
        divide_down-Scaled fuel (v / unit) (div * unit) (suc exp) n (ground arith) (ground arith)
            lo' hi',
      )
]

-- an upper bound of `v` for each number of rounds
abbrev below : ℕ → ℕ
below zero = unit
below (suc k) = below k * unit

divide_down-le : (k fuel v div exp : ℕ) → v < below k → (divide_down fuel v div exp).1 ≤ exp + k
unfolding divide_down
divide_down-le k zero v div exp h = omega arith
divide_down-le zero (suc fuel) v div exp h = ground arith
divide_down-le (suc k) (suc fuel) v div exp h =
    ground (arith, divide_down-le k fuel (v / unit) (div * unit) (suc exp))

-- For every size of at least 1 KiB that an int64 can hold, the loop of FormatBytes stops with a
-- divisor that brings the size to at least 1 and below 1024, and with an index into its six letters.
pub scale_of-Scaled :
    (n : ℕ)
    → unit ≤ n
    → n < int64_limit
    → (div : ℕ) × (exp : ℕ) × (scale_of n ≡ some (div, exp))
      × Scaled n div
      × (exp < length (codes "KMGTPE"))
unfolding scale_of
scale_of-Scaled n lo hi =
    let r = divide_down (n / unit) (n / unit) unit 0 in
    (
      r.0,
      r.1,
      ground arith,
      divide_down-Scaled (n / unit) (n / unit) unit 0 n (omega arith) (omega arith) (omega arith)
          (omega arith),
      ground (arith, divide_down-le 5 (n / unit) (n / unit) unit 0),
    )

-- What a page shows as the boot part of a game is its size, or 64 MiB where it is larger.
pub sum_ranges_boot :
    (g : Game) → sum_ranges (manifest_of g).boot_ranges ≡ min g.size_bytes boot_bytes
unfolding manifest_of sum_ranges
sum_ranges_boot g = ground arith
