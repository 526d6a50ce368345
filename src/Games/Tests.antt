-- ===== src/Games/Tests.antt =====
-- A small game: its manifest, and its file after an upload.
use cache_22_server.Prelude.{◌<◌, true, false, some, ◌≡◌, ◌↔◌, ◌∷◌, [], Bytes, refl, codes, arith}
use cache_22_server.Prelude.Assoc.{lookup, insert, erase}
use cache_22_server.Go.FilePath.{FilePath}
use cache_22_server.Entity.{Game, boot_bytes}
use cache_22_server.World.{World, UploadMeta, ok, empty_world, quiet}
use cache_22_server.Samples.{plain}
use cache_22_server.Http.{Body}
use cache_22_server.Serial.{sanitize}
use cache_22_server.Upload.Ranges.Coverage.{covers}
use cache_22_server.Upload.Finalize.{register}
use cache_22_server.Upload.Chunked.{upload_complete}
use cache_22_server.Upload.Chunked.Integrity.{Holds}
use cache_22_server.Games.{get_manifest, manifest_of, serve_file}
use cache_22_server.Games.Manifests.{get_manifest-covers, supported_serves}
use cache_22_server.Games.Download.{completed_upload_downloads}

abbrev ico : Game
ico = record {
  serial = codes "ico";
  redump_hash = codes "h";
  title = codes "Ico";
  size_bytes = 3;
  file_path = codes "lib" ∷ codes "ico.chd" ∷ [];
  created_at = 0;
  updated_at = 0;
}

abbrev shelf : World
shelf = record empty_world { games = ico ∷ [] }

ico_manifest : (get_manifest (codes "ico") shelf).0 ≡ ok (manifest_of ico)
unfolding get_manifest
ico_manifest = refl

get_manifest-covers_example :
    (covers (manifest_of ico).boot_ranges 2 ≡ true)
    ↔ ((2 < boot_bytes) × (2 < (manifest_of ico).size_bytes))
get_manifest-covers_example =
    get_manifest-covers (codes "ico") (manifest_of ico) shelf 2 ico_manifest

supported_serves_example :
    ((serve_file (codes "ico") shelf).0.code ≡ 415) ↔ ((manifest_of ico).supported ≡ false)
supported_serves_example = supported_serves (codes "ico") (manifest_of ico) shelf ico_manifest

abbrev content : Bytes
content = codes "abc"

abbrev id : Bytes
id = codes "0123456789abcdef0123456789abcdef"

abbrev library : FilePath
library = codes "lib" ∷ []

abbrev meta : UploadMeta
meta = record {
  id = id;
  serial = codes "ico";
  filename = codes "ico.iso";
  size = 3;
  title = [];
  ranges = (0, 3) ∷ [];
  created = 0;
}

-- The call that hashes the file fails.
abbrev received : World
received = record empty_world {
  uploads = (id, record { meta = some meta; part = some content }) ∷ [];
  faults = false ∷ false ∷ false ∷ false ∷ true ∷ [];
}

received-Holds : Holds content id received
unfolding lookup
received-Holds = record {
  own = refl;
  sized = refl;
  filled = refl;
  normal = (omega arith, omega arith, tt);
  within = (omega arith, tt);
  agrees = λ i e. refl;
}

received_created : (upload_complete plain library (some id) received).0.code ≡ 201
unfolding upload_complete register lookup insert erase sanitize
received_created = refl

completed_upload_downloads_example :
    (etag : Bytes) × ((serve_file
        (codes "ico")
        (quiet (upload_complete plain library (some id) received).1)).0
      ≡ record { code = 200; body = Body.content etag content })
unfolding lookup sanitize
completed_upload_downloads_example =
    completed_upload_downloads plain library content id (codes "ico") meta received refl refl
      received-Holds received_created
