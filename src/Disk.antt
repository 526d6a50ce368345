-- ===== src/Disk.antt =====
-- The files on disk as the packages os and path/filepath give them: a file system call may fail, and
-- then changes nothing but what a failing write has got through. Folders are not kept apart: a
-- folder is there where a file can be.
pub mod Laws
pub mod Apart
use cache_22_server.Prelude.{
  Bool, List, [], ◌∷◌, ◌++◌, Bytes, codes, none, some, take, ◌==◌, list_eq, nat_eq, if◌then◌else◌,
}
use cache_22_server.Prelude.Assoc.{Assoc, lookup, insert, erase}
use cache_22_server.Go.FilePath.{FilePath}
use cache_22_server.World.{
  World, Action, ok, err, Error, not_exist, attempt, or_fail, modify, handle, ◌>>=◌, ◌>>◌,
}

-- os.Stat or os.Open: the content of a file
unfoldable pub open_file : FilePath → Action Bytes
unfolding attempt
open_file path w = (attempt >> or_fail (lookup path w.files) not_exist) w

-- the last component of a path
unfoldable pub last_part : FilePath → Bytes
last_part [] = codes "."
last_part (p ∷ []) = p
last_part (p ∷ q ∷ ps) = last_part (q ∷ ps)

-- the names of the files of a folder; folders in it are skipped by the loop
unfoldable pub entries_of : FilePath → Assoc FilePath Bytes → List Bytes
entries_of dir [] = []
entries_of dir ((path, raw) ∷ files) =
    if path == (dir ++ last_part path ∷ [])
    then last_part path ∷ entries_of dir files
    else entries_of dir files

-- os.Remove with its error dropped
unfoldable pub remove_file : FilePath → World → World
unfolding attempt
remove_file path w =
    let (r, w') = attempt w in
    elim r [ ok _ ↦ record w' { files = erase path w'.files } | err e ↦ w' ]

-- os.WriteFile: a failing write leaves what it got through.
unfoldable pub write_file : FilePath → Bytes → Action (Unit {0})
unfolding attempt
write_file path raw = do
  attempt
  handle attempt (λ e w. (err e, record w { files = insert path (take w.torn raw) w.files }))
      λ u w. (ok tt, record w { files = insert path raw w.files })

-- os.Rename
unfoldable pub rename : FilePath → FilePath → Action (Unit {0})
unfolding attempt
rename from to w =
    (do
      attempt
      raw ← (λ w'.
          (elim (lookup from w'.files) [ none ↦ err Error.not_exist | some raw ↦ ok raw ], w'))
      modify λ w'. record w' { files = insert to raw (erase from w'.files) })
      w
