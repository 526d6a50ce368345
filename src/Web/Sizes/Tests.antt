-- ===== src/Web/Sizes/Tests.antt =====
-- A size of 3 GiB and a half.
use cache_22_server.Prelude.{ℕ, ◌<◌, ◌≡◌, some, codes, length, arith}
use cache_22_server.Web.Sizes.{scale_of, Scaled, scale_of-Scaled}

abbrev dvd : ℕ
dvd = 3758096384

dvd_fits :
    (div : ℕ) × (exp : ℕ) × (scale_of dvd ≡ some (div, exp))
    × Scaled dvd div
    × (exp < length (codes "KMGTPE"))
dvd_fits = scale_of-Scaled dvd (omega arith) (omega arith)
