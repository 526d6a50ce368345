-- ===== src/Disk/Apart.antt =====
-- The calls of the disk leave the accounts alone.
use cache_22_server.Prelude.{Bytes, arith}
use cache_22_server.Go.FilePath.{FilePath}
use cache_22_server.World.{World}
use cache_22_server.Apart.{Apart, SameAccounts}
use cache_22_server.Disk.{open_file, remove_file, write_file, rename}

pub open_file-Apart : (path : FilePath) → Apart (open_file path)
unfolding open_file
open_file-Apart path w = ground arith

pub remove_file-Apart : (path : FilePath) (w : World) → SameAccounts w (remove_file path w)
unfolding remove_file
remove_file-Apart path w = ground arith

pub write_file-Apart : (path : FilePath) (raw : Bytes) → Apart (write_file path raw)
unfolding write_file
write_file-Apart path raw w = ground arith

pub rename-Apart : (from to : FilePath) → Apart (rename from to)
unfolding rename
rename-Apart from to w = ground arith
