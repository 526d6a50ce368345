-- ===== src/Games/Manifests.antt =====
-- GetManifest of internal/app/usecase/game/usecase.go against the file behind it.
use cache_22_server.Prelude.{ℕ, ◌<◌, true, false, ◌≡◌, ◌↔◌, Bytes, arith, nat_eq, list_eq}
use cache_22_server.Entity.{Manifest, boot_bytes}
use cache_22_server.World.{World, ok}
use cache_22_server.Upload.Ranges.Coverage.{covers}
use cache_22_server.Games.{get_manifest, serve_file, boot_ranges_of}

boot_ranges_of-covers :
    (size i : ℕ) → (covers (boot_ranges_of size) i ≡ true) ↔ ((i < boot_bytes) × (i < size))
boot_ranges_of-covers size i = ground arith

manifest_ranges :
    (serial : Bytes) (m : Manifest) (w : World)
    → (get_manifest serial w).0 ≡ ok m
    → m.boot_ranges ≡ boot_ranges_of m.size_bytes
unfolding get_manifest
manifest_ranges serial m w h = ground arith

-- A manifest's boot ranges cover exactly the bytes that lie below the boot size and in the file.
pub get_manifest-covers :
    (serial : Bytes) (m : Manifest) (w : World) (i : ℕ)
    → (get_manifest serial w).0 ≡ ok m
    → (covers m.boot_ranges i ≡ true) ↔ ((i < boot_bytes) × (i < m.size_bytes))
get_manifest-covers serial m w i h =
    ground (arith, manifest_ranges serial m w h, boot_ranges_of-covers m.size_bytes i)

-- Where a manifest is answered, the file's request is refused as compressed exactly if the manifest
-- says that the file is not supported.
pub supported_serves :
    (serial : Bytes) (m : Manifest) (w : World)
    → (get_manifest serial w).0 ≡ ok m
    → ((serve_file serial w).0.code ≡ 415) ↔ (m.supported ≡ false)
unfolding get_manifest serve_file
supported_serves serial m w h = ground arith
