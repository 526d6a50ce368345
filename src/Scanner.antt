-- ===== src/Scanner.antt =====
-- internal/infra/scanner/scanner.go: the library folder read into the table of games. A text with
-- no slash is the name of a file in that folder.
pub mod Apart
use cache_22_server.Disk.{entries_of, last_part, open_file}
use cache_22_server.Prelude.{
  ℕ, suc, Bool, true, false, ◌||◌, List, [], ◌∷◌, ◌++◌, Bytes, codes, length, take, ◌==◌, nat_eq,
  list_eq, if◌then◌else◌, ◌-◌,
}
use cache_22_server.Go.Text.{to_lower}
use cache_22_server.Go.FilePath.{FilePath, ext}
use cache_22_server.Entity.{Game}
use cache_22_server.World.{Action, attempt, pure, gets, handle, ◌>>=◌, ◌>>◌}
use cache_22_server.External.{External}
use cache_22_server.Db

abbrev pub hash_bytes : ℕ
hash_bytes = 4194304

-- imageExts
pub is_image : Bytes → Bool
is_image e = e == codes ".iso" || e == codes ".chd" || e == codes ".cso" || e == codes ".zso"

-- strings.TrimSuffix(name, filepath.Ext(name))
unfoldable pub stem : Bytes → Bytes
unfolding ext
stem name = take (length name - length (ext name)) name

module _ (x : External) where
  -- the first n bytes, hashed; a failure to read fails
  pub quick_hash : FilePath → ℕ → Action Bytes
  unfolding open_file attempt
  quick_hash path n = do raw ← open_file path; attempt; pure (x.sha1 (take n raw))

  abbrev pub inspected : FilePath → ℕ → Bytes → Game
  inspected full size hash = record {
    serial = stem (last_part full);
    redump_hash = hash;
    title = stem (last_part full);
    size_bytes = size;
    file_path = full;
    created_at = 0;
    updated_at = 0;
  }

  -- A file that cannot be hashed gets an empty hash.
  unfoldable pub inspect : FilePath → Action Game
  unfolding open_file quick_hash last_part stem
  inspect full = do
    raw ← open_file full
    handle (quick_hash full hash_bytes) (λ e. pure (inspected full (length raw) []))
        (λ hash. pure (inspected full (length raw) hash))

  -- What one round of the loop does: skip the entry, stop with an error, or count it. The first
  -- test is `ctx.Err()`, the end of the request.
  scan_entry : FilePath → Bytes → Action Bool
  unfolding is_image inspect Db.Games.upsert
  scan_entry dir name =
      if is_image (to_lower (ext name))
      then (handle (inspect (dir ++ name ∷ [])) (λ e. pure false)
          (λ g. Db.Games.upsert g >> pure true))
      else pure false

  scan_entries : FilePath → List Bytes → ℕ → Action ℕ
  unfolding scan_entry attempt
  scan_entries dir [] count = pure count
  scan_entries dir (name ∷ names) count = do
    attempt
    counted ← scan_entry dir name
    scan_entries dir names (if counted then suc count else count)

  -- Scanner.Run: MkdirAll, ReadDir, and the loop
  unfoldable pub run : FilePath → Action ℕ
  unfolding attempt scan_entries entries_of
  run dir = do
    attempt
    attempt
    names ← gets (λ w. entries_of dir w.files)
    scan_entries dir names 0
