-- ===== src/Serial/Tests.antt =====
-- A name with folders in front of it.
use cache_22_server.Prelude.{◌≤◌, refl, codes, length}
use cache_22_server.Go.FilePath.Laws.{IsPlain}
use cache_22_server.Serial.{sanitize, backslash}
use cache_22_server.Serial.Safety.{Without, sanitize-IsPlain}

sanitize-IsPlain_example :
    IsPlain (codes "ico") × Without backslash (codes "ico") × (length (codes "ico") ≤ 128)
unfolding sanitize
sanitize-IsPlain_example = sanitize-IsPlain (codes "../../ico.iso") (codes "ico") refl
