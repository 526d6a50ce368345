-- ===== src/Disk/Laws.antt =====
-- What a write that succeeds leaves.
use cache_22_server.Prelude.{◌≡◌, some, Bytes, arith, beq_refl, list_eq, nat_eq}
use cache_22_server.Prelude.Assoc.{lookup, insert, lookup-insert}
use cache_22_server.Go.FilePath.{FilePath}
use cache_22_server.World.{World, ok}
use cache_22_server.Disk.{write_file}

pub write_file_ok :
    (path : FilePath) (raw : Bytes) (w : World)
    → (write_file path raw w).0 ≡ ok tt
    → (write_file path raw w).1.files ≡ insert path raw w.files
unfolding write_file
write_file_ok path raw w h = ground arith

pub lookup-write_file :
    (path : FilePath) (raw : Bytes) (w : World)
    → (write_file path raw w).0 ≡ ok tt
    → lookup path (write_file path raw w).1.files ≡ some raw
lookup-write_file path raw w h =
    ground (arith, write_file_ok path raw w h, lookup-insert path path raw w.files, beq_refl path)
