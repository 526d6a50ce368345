-- ===== src/Upload/Single/Leftovers.antt =====
-- The temporary file of an upload in one request whose body goes on wrongly behind its file.
use cache_22_server.Prelude.{
  ℕ, Bool, true, none, some, List, [], ◌∷◌, ◌≡◌, Bytes, arith, beq_refl, list_eq, nat_eq,
}
use cache_22_server.Prelude.Assoc.{lookup, insert, lookup-insert}
use cache_22_server.Go.FilePath.{FilePath}
use cache_22_server.World.{World, Proc, quiet}
use cache_22_server.External.{External}
use cache_22_server.Http.{Response}
use cache_22_server.Upload.Single.{
  Part, part, broken, part_path, free_temp, create_temp, copy_part, receive, is_iso_name, first_iso,
  read_parts,
}

-- A part that ends the loop with an error, once a file is there: it cannot be read, or it is a file.
pub data Stops : Part → Type 0 where
  breaks : Stops broken
  again :
      (name raw : Bytes) (c : ℕ) (cs : Bytes) (whole : Bool) → Stops (part name (c ∷ cs) raw whole)

pub receive-quiet :
    (dir : FilePath) (raw random : Bytes) (rest : List Bytes) (next : FilePath → Proc Response)
    (w : World)
    → w.randoms ≡ random ∷ rest
    → lookup (part_path dir random) w.files ≡ none
    → let path = part_path dir random in
      receive dir raw true next (quiet w)
      ≡ next path (record w {
        faults = [];
        randoms = rest;
        files = insert path raw (insert path [] w.files);
      })
unfolding receive create_temp copy_part free_temp
receive-quiet dir raw random rest next w e free = ground arith

first_iso_takes :
    (filename : Bytes) (file : Proc Response) (w : World)
    → is_iso_name filename ≡ true
    → first_iso none filename file w ≡ file w
unfolding first_iso
first_iso_takes filename file w h = ground arith

pub found :
    (path : FilePath) (raw : Bytes) (w : World)
    → lookup path (insert path raw (insert path [] w.files)) ≡ some raw
found path raw w =
    ground (arith, lookup-insert path path raw (insert path [] w.files), beq_refl path)

module _ (x : External) (dir : FilePath) where
  pub first_file :
      (ps : List Part) (name raw : Bytes) (c : ℕ) (cs : Bytes) (w : World)
      → is_iso_name (c ∷ cs) ≡ true
      → read_parts x dir (part name (c ∷ cs) raw true ∷ ps) (record { tmp = none; title = [] }) w
        ≡ receive dir raw true
            (λ path. read_parts x dir ps (record { tmp = some (path, c ∷ cs); title = [] }))
            w
  unfolding read_parts
  first_file ps name raw c cs w iso =
      first_iso_takes (c ∷ cs)
        (receive dir raw true
          (λ path. read_parts x dir ps (record { tmp = some (path, c ∷ cs); title = [] })))
        w iso
