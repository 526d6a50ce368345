-- ===== src/Upload/Store.antt =====
-- The folder .uploads of the library, the files in it, and the locks of the upload sessions
-- (handler.go and upload_chunked.go). Every handler runs as one step: what it does between
-- `uploadLock` and `unlock` excludes the other handlers of the same session.
pub mod Content
pub mod Laws
use cache_22_server.Prelude.{
  ℕ, ◌+◌, ◌-◌, Bool, true, false, not, ◌&&◌, ◌||◌, Option, none, some, [], ◌∷◌, ◌++◌, Bytes, length,
  take, drop, replicate, keep_if, exists_if, leb, nat_beq, ◌==◌, nat_eq, list_eq, if◌then◌else◌,
}
use cache_22_server.Prelude.Assoc.{lookup, insert, erase}
use cache_22_server.World.{
  World, UploadDir, UploadMeta, Action, ok, err, not_exist, attempt, pure, or_fail, modify, handle,
  ◌>>◌,
}

abbrev pub is_hex : ℕ → Bool
is_hex c = leb b'0' c && leb c b'9' || leb b'a' c && leb c b'f'

all_hex : Bytes → Bool
all_hex [] = true
all_hex (c ∷ s) = if is_hex c then all_hex s else false

-- validUploadID
unfoldable pub valid_upload_id : Bytes → Bool
unfolding all_hex
valid_upload_id id = if nat_beq (length id) 32 then all_hex id else false

-- uploadLock: the table gets an entry for the session
unfoldable pub upload_lock : Bytes → World → World
upload_lock id w =
    if exists_if (λ j. j == id) w.upload_locks
    then w
    else record w { upload_locks = id ∷ w.upload_locks }

unfoldable pub drop_upload_lock : Bytes → World → World
drop_upload_lock id w = record w { upload_locks = keep_if (λ j. not (j == id)) w.upload_locks }

abbrev pub empty_dir : UploadDir
empty_dir = record { meta = none; part = none }

abbrev pub or_empty : Option UploadDir → UploadDir
or_empty none = empty_dir
or_empty (some d) = d

abbrev pub dir_of : Bytes → World → UploadDir
dir_of id w = or_empty (lookup id w.uploads)

abbrev pub set_dir : Bytes → UploadDir → World → World
set_dir id d w = record w { uploads = insert id d w.uploads }

-- readMeta
unfoldable pub read_meta : Bytes → Action UploadMeta
unfolding attempt
read_meta id w = (attempt >> or_fail (dir_of id w).meta not_exist) w

-- os.WriteFile cuts the file off before it writes: a failure in between leaves no readable meta.
unfoldable pub write_meta : UploadMeta → Action (Unit {0})
unfolding attempt
write_meta m w =
    (do
      attempt
      modify (set_dir m.id (record (dir_of m.id w) { meta = none }))
      attempt
      modify (set_dir m.id (record (dir_of m.id w) { meta = some m })))
      w

-- os.RemoveAll of the session's folder. Its error is dropped; a failed call removes nothing here.
unfoldable pub remove_upload : Bytes → World → World
unfolding attempt
remove_upload id w =
    let (r, w') = attempt w in
    elim r [ ok _ ↦ record w' { uploads = erase id w'.uploads } | err e ↦ w' ]

-- File.Truncate: cut off, or filled up with zeros
unfoldable pub truncate : ℕ → Bytes → Bytes
truncate n s = take n s ++ replicate (n - length s) 0

-- File.WriteAt inside of the file: the bytes from `offset` on give way to the new ones.
unfoldable pub write_at : Bytes → ℕ → Bytes → Bytes
write_at s offset body = take offset s ++ (body ++ drop (offset + length body) s)

-- OpenFile with O_CREATE on data.part
pub open_part : Option Bytes → Bytes
open_part none = []
open_part (some s) = s

-- MkdirAll, OpenFile, Truncate; the handler removes the folder if the last one fails
unfoldable pub create_part : Bytes → ℕ → Action (Unit {0})
unfolding attempt open_part truncate
create_part id size w =
    (do
      attempt
      modify (set_dir id (dir_of id w))
      attempt
      modify (set_dir id (record (dir_of id w) { part = some (open_part (dir_of id w).part) }))
      handle attempt (λ e w'. (err e, remove_upload id w')) pure
      modify (
          set_dir id
            (record (dir_of id w) { part = some (truncate size (open_part (dir_of id w).part)) })))
      w
