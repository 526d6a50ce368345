-- ===== src/Saves.antt =====
-- internal/app/usecase/save/save.go: memory cards, one file for each user, serial and slot, with
-- backups of the versions before.
pub mod Apart
pub mod Backups
pub mod Handlers
pub mod Intact
pub mod Isolation
pub mod Names
pub mod RoundTrip
mod Tests
use cache_22_server.Disk.{entries_of, last_part, open_file, remove_file, write_file, rename}
use cache_22_server.Prelude.{
  ℕ, suc, ◌-◌, Bool, true, false, not, ◌&&◌, ◌||◌, Option, none, some, List, [], ◌∷◌, ◌++◌, Bytes,
  codes, length, take, drop, keep_if, leb, ltb, nat_beq, ◌==◌, nat_eq, list_eq, if◌then◌else◌,
}
use cache_22_server.Prelude.Assoc.{Assoc, lookup, insert, erase}
use cache_22_server.Go.Sort.{sort_names}
use cache_22_server.Go.Text.{has_prefix, has_suffix}
use cache_22_server.Go.Number.{sprint}
use cache_22_server.Go.FilePath.{FilePath, join}
use cache_22_server.Entity.{Save}
use cache_22_server.World.{
  World, Action, Result, ok, err, Error, attempt, pure, gets, modify, handle, ignore, ◌>>=◌, ◌>>◌,
}
use cache_22_server.External.{External}
use cache_22_server.Db

abbrev pub backups_kept : ℕ
backups_kept = 3

abbrev pub slot_name : ℕ → Bytes
slot_name slot = codes "slot" ++ (sprint slot ++ codes ".ps2")

-- filePath
unfoldable pub file_path : FilePath → ℕ → Bytes → ℕ → FilePath
file_path dir user_id serial slot = join dir (sprint user_id ∷ serial ∷ slot_name slot ∷ [])

-- filepath.Dir of a path with a component
unfoldable pub parent : FilePath → FilePath
parent [] = []
parent (p ∷ []) = []
parent (p ∷ q ∷ ps) = p ∷ parent (q ∷ ps)

-- fmt.Sprintf with the path and something behind it
unfoldable pub with_suffix : FilePath → Bytes → FilePath
unfolding parent last_part
with_suffix path s = parent path ++ (last_part path ++ s) ∷ []

abbrev pub backup_path : FilePath → ℕ → FilePath
backup_path path now = with_suffix path (codes "." ++ (sprint now ++ codes ".bak"))

abbrev pub temp_path : FilePath → ℕ → FilePath
temp_path path now = with_suffix path (codes ".tmp." ++ sprint now)

-- a name that is longer than `base`, begins with it and ends in `.bak`
unfoldable pub is_backup : Bytes → Bytes → Bool
unfolding has_prefix has_suffix
is_backup base name =
    has_suffix name (codes ".bak") && (ltb (length base) (length name) && has_prefix name base)

unfoldable pub backups_of : FilePath → Assoc FilePath Bytes → List Bytes
backups_of path files =
    keep_if (is_backup (last_part path ++ codes ".")) (entries_of (parent path) files)

pub remove_names : FilePath → List Bytes → Action (Unit {0})
unfolding remove_file
remove_names dir [] w = (ok tt, w)
remove_names dir (n ∷ ns) w = remove_names dir ns (remove_file (dir ++ n ∷ []) w)

-- `for len(baks) > BackupsKept { os.Remove(baks[0]); baks = baks[1:] }`
abbrev pub surplus : List Bytes → List Bytes
surplus baks = take (length baks - backups_kept) baks

-- pruneBackups
unfoldable pub prune_backups : FilePath → Action (Unit {0})
unfolding attempt backups_of remove_names sort_names
prune_backups path =
    handle attempt (λ e. pure tt)
      λ u w. remove_names (parent path) (surplus (sort_names (backups_of path w.files))) w

module _ (x : External) (dir : FilePath) where
  -- Get
  unfoldable pub get : ℕ → Bytes → ℕ → Action (Save × Bytes)
  unfolding Db.Saves.get open_file file_path
  get user_id serial slot = do
    meta ← Db.Saves.get user_id serial slot
    raw ← open_file (file_path dir user_id serial slot)
    pure (meta, raw)

  -- the version before, as a backup
  pub back_up : FilePath → Bytes → Action (Unit {0})
  unfolding write_file prune_backups attempt
  back_up path old w = (do attempt; write_file (backup_path path w.now) old; prune_backups path) w

  -- `if old, err := os.ReadFile(path); err == nil && hashBytes(old) != hashBytes(data)`
  pub rotate : FilePath → Bytes → Action (Unit {0})
  unfolding open_file back_up
  rotate path raw =
      handle (open_file path) (λ e. pure tt)
        λ old. if x.sha256 old == x.sha256 raw then pure tt else back_up path old

  -- the write to a temporary file that takes the path's place
  pub store : FilePath → Bytes → Action (Unit {0})
  unfolding write_file rename remove_file attempt
  store path raw w =
      (do
        attempt
        write_file (temp_path path w.now) raw
        handle (rename (temp_path path w.now) path)
            (λ e w'. (err e, remove_file (temp_path path w.now) w')) pure)
        w

  abbrev pub row_of : ℕ → Bytes → ℕ → Bytes → Save
  row_of user_id serial slot raw = record {
    user_id = user_id;
    serial = serial;
    slot = slot;
    sha256 = x.sha256 raw;
    size = length raw;
    public = false;
    updated_at = 0;
  }

  -- Put
  unfoldable pub put : ℕ → Bytes → ℕ → Bytes → Action Save
  unfolding rotate store file_path Db.Saves.upsert Db.Saves.get
  put user_id serial slot raw = do
    rotate (file_path dir user_id serial slot) raw
    store (file_path dir user_id serial slot) raw
    Db.Saves.upsert (row_of user_id serial slot raw)
    Db.Saves.get user_id serial slot

  abbrev pub belongs : Bytes → Bytes → Bool
  belongs base name = has_prefix name base

  remove_belonging : FilePath → Action (Unit {0})
  unfolding attempt remove_names has_prefix
  remove_belonging path =
      handle attempt (λ e. pure tt)
        λ u w.
          remove_names (parent path)
            (keep_if (belongs (last_part path ++ codes ".")) (entries_of (parent path) w.files)) w

  -- Delete: the card, its backups and its row
  unfoldable pub delete : ℕ → Bytes → ℕ → Action (Unit {0})
  unfolding remove_file remove_belonging file_path Db.Saves.delete
  delete user_id serial slot = do
    modify (remove_file (file_path dir user_id serial slot))
    remove_belonging (file_path dir user_id serial slot)
    Db.Saves.delete user_id serial slot
