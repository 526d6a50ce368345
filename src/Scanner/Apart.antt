-- ===== src/Scanner/Apart.antt =====
-- A scan leaves the accounts alone.
use cache_22_server.Prelude.{ℕ, suc, refl, List, [], ◌∷◌, ◌++◌, Bytes, arith}
use cache_22_server.Go.FilePath.{FilePath}
use cache_22_server.World.{attempt}
use cache_22_server.External.{External}
use cache_22_server.Disk.{open_file, entries_of}
use cache_22_server.Db
use cache_22_server.Apart.{Apart, attempt-Apart}
use cache_22_server.Scanner.{run, inspect, scan_entry, scan_entries}

module _ (x : External) where
  pub inspect-Apart : (path : FilePath) → Apart (inspect x path)
  unfolding inspect open_file
  inspect-Apart path w = ground arith

  scan_entry-Apart : (dir : FilePath) (name : Bytes) → Apart (scan_entry x dir name)
  unfolding scan_entry Db.Games.upsert
  scan_entry-Apart dir name w = ground (arith, inspect-Apart (dir ++ name ∷ []) w)

  scan_entries-Apart :
      (dir : FilePath) (names : List Bytes) (count : ℕ) → Apart (scan_entries x dir names count)
  unfolding scan_entries
  scan_entries-Apart dir [] count w = (refl, refl, refl)
  scan_entries-Apart dir (name ∷ names) count w =
      let w1 = (attempt w).1 in
      let w2 = (scan_entry x dir name w1).1 in
      ground (
        arith,
        attempt-Apart w,
        scan_entry-Apart dir name w1,
        scan_entries-Apart dir names count w2,
        scan_entries-Apart dir names (suc count) w2,
      )

  pub run-Apart : (dir : FilePath) → Apart (run x dir)
  unfolding run attempt
  run-Apart dir w =
      let w1 = (attempt (attempt w).1).1 in
      ground (arith, scan_entries-Apart dir (entries_of dir w1.files) 0 w1)
