-- ===== src/Entity.antt =====
-- internal/entity: the records that the layers pass round. Times are counted in nanoseconds; texts
-- are bytes. Presence and Room of presence.go are not used by any code and are left out.
use cache_22_server.Prelude.{ℕ, Bool, List, Bytes}
use cache_22_server.Go.FilePath.{FilePath}

pub record User : Type 0 where
  pub id : ℕ
  pub username : Bytes
  pub password_hash : Bytes
  pub is_admin : Bool
  pub created_at : ℕ

pub record Game : Type 0 where
  pub serial : Bytes
  pub redump_hash : Bytes
  pub title : Bytes
  pub size_bytes : ℕ
  pub file_path : FilePath
  pub created_at : ℕ
  pub updated_at : ℕ

pub record HealthCheck : Type 0 where
  pub status : Bytes
  pub message : Bytes

pub record Cover : Type 0 where
  pub serial : Bytes
  pub provider : Bytes
  pub provider_id : ℕ
  pub image_path : FilePath
  pub fetched_at : ℕ

pub record Save : Type 0 where
  pub user_id : ℕ
  pub serial : Bytes
  pub slot : ℕ
  pub sha256 : Bytes
  pub size : ℕ
  pub public : Bool
  pub updated_at : ℕ

abbrev pub sector_size : ℕ
sector_size = 2048

abbrev pub block_size : ℕ
block_size = 131072

abbrev pub boot_bytes : ℕ
boot_bytes = 67108864

abbrev pub manifest_version : ℕ
manifest_version = 2

pub record Manifest : Type 0 where
  pub version : ℕ
  pub serial : Bytes
  pub redump_hash : Bytes
  pub title : Bytes
  pub size_bytes : ℕ
  pub block_size : ℕ
  pub boot_ranges : List (ℕ × ℕ)
  pub file_url : Bytes
  pub manifest_url : Bytes
  pub supported : Bool
  pub unsupported_hint : Bytes
