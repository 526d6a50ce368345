-- ===== src/Saves/Tests.antt =====
-- Cards of two users, and a put over an old card.
use cache_22_server.Prelude.{length, ◌≤◌, All}
use cache_22_server.Prelude.Assoc.{erase}
use cache_22_server.Disk.{last_part, entries_of, remove_file}
use cache_22_server.Go.Text.{has_prefix, has_suffix}
use cache_22_server.Go.Sort.{sort_names}
use cache_22_server.Saves.{parent, is_backup, backups_of, backups_kept, prune_backups, surplus}
use cache_22_server.Saves.Names.{NotAfter}
use cache_22_server.Saves.Backups.{prune_backups_keeps_latest}
use cache_22_server.Disk.{last_part}
use cache_22_server.Prelude.{ℕ, inl, ◌≡◌, refl, some, [], ◌∷◌, codes, arith}
use cache_22_server.Go.FilePath.{FilePath, join}
use cache_22_server.Go.FilePath.Laws.{IsPlain}
use cache_22_server.Go.Number.{parse_int, sprint}
use cache_22_server.Serial.{sanitize}
use cache_22_server.Prelude.{true, false}
use cache_22_server.Prelude.Assoc.{lookup, insert, erase}
use cache_22_server.Entity.{User, Save}
use cache_22_server.World.{World, ok, quiet, empty_world}
use cache_22_server.Samples.{plain}
use cache_22_server.Saves.{file_path, with_suffix, put, get}
use cache_22_server.Saves.Intact.{Untorn, put_intact}
use cache_22_server.Saves.RoundTrip.{get-put}
use cache_22_server.Saves.Handlers.{save_slot}
use cache_22_server.Saves.Isolation.{file_path-injective, climbing, climbing_serial_escapes}

abbrev cards : FilePath
cards = codes "saves" ∷ []

ico-IsPlain : IsPlain (codes "ico")
ico-IsPlain = record {
  no_slash = (λ e. omega arith, (λ e. omega arith, (λ e. omega arith, tt)));
  not_empty = λ e. cc;
  not_dot = λ e. cc;
  not_dot_dot = λ e. cc;
}

file_path-injective_example : (◌≡◌ {A = ℕ} 1 1) × (codes "ico" ≡ codes "ico") × (◌≡◌ {A = ℕ} 2 2)
file_path-injective_example =
    file_path-injective cards 1 1 (codes "ico") (codes "ico") 2 2 ico-IsPlain ico-IsPlain refl

climbing_serial_escapes_example :
    (save_slot (climbing 2 (codes "ico")) (codes "1") ≡ some (climbing 2 (codes "ico"), 1))
    × (file_path cards 1 (climbing 2 (codes "ico")) 1 ≡ file_path cards 2 (codes "ico") 1)
unfolding parse_int sanitize sprint
climbing_serial_escapes_example =
    climbing_serial_escapes cards 1 2 1 (codes "ico") (codes "1") (codes "ico") ico-IsPlain refl
      (inl refl) refl

abbrev ann : User
ann = record {
  id = 1;
  username = codes "ann";
  password_hash = codes "h";
  is_admin = true;
  created_at = 0;
}

-- A card is there already, and its backup cannot be pruned.
abbrev before : World
before = record empty_world {
  users = ann ∷ [];
  now = 7;
  files = ((codes "saves" ∷ codes "1" ∷ codes "ico" ∷ codes "slot1.ps2" ∷ []), codes "old") ∷ [];
  faults = false ∷ false ∷ false ∷ false ∷ true ∷ [];
}

abbrev new_row : Save
new_row = record {
  user_id = 1;
  serial = codes "ico";
  slot = 1;
  sha256 = codes "new";
  size = 3;
  public = false;
  updated_at = 7;
}

put_done : (put plain cards 1 (codes "ico") 1 (codes "new") before).0 ≡ ok new_row
unfolding put lookup insert erase last_part sprint join with_suffix
put_done = refl

get-put_example :
    (get plain cards 1
      (codes "ico")
      1
      (quiet (put plain cards 1 (codes "ico") 1 (codes "new") before).1)).0
    ≡ ok (new_row, codes "new")
get-put_example = get-put plain cards 1 (codes "ico") 1 (codes "new") new_row before put_done

-- A card with four backups.
abbrev card : FilePath
card = codes "m" ∷ codes "slot1.ps2" ∷ []

abbrev four_backups : World
four_backups = record empty_world {
  files =
      (codes "m" ∷ codes "slot1.ps2.13.bak" ∷ [], codes "c")
      ∷ (codes "m" ∷ codes "slot1.ps2.11.bak" ∷ [], codes "a")
      ∷ (card, codes "e")
      ∷ (codes "m" ∷ codes "slot1.ps2.14.bak" ∷ [], codes "d")
      ∷ (codes "m" ∷ codes "slot1.ps2.12.bak" ∷ [], codes "b")
      ∷ [];
}

oldest_goes :
    (backups_of card (prune_backups card four_backups).1.files)
    ≡ codes "slot1.ps2.13.bak" ∷ codes "slot1.ps2.14.bak" ∷ codes "slot1.ps2.12.bak" ∷ []
unfolding prune_backups backups_of last_part entries_of erase remove_file has_prefix has_suffix
    parent is_backup
oldest_goes = refl

prune_backups_keeps_latest_example :
    let left = backups_of card (prune_backups card (quiet four_backups)).1.files in
    (length left ≤ backups_kept)
    × All
        (λ m. All (λ n. NotAfter n m) (surplus (sort_names (backups_of card four_backups.files))))
        left
prune_backups_keeps_latest_example = prune_backups_keeps_latest card four_backups

-- The disk is full: the write of the new card fails after one byte.
abbrev full_disk : World
full_disk = record before {
  faults = false ∷ false ∷ false ∷ false ∷ false ∷ false ∷ false ∷ true ∷ [];
  torn = 1;
}

put_intact_example :
    Untorn
      (file_path cards 1 (codes "ico") 1)
      (codes "new")
      full_disk
      (put plain cards 1 (codes "ico") 1 (codes "new") full_disk).1
put_intact_example = put_intact plain cards 1 (codes "ico") 1 (codes "new") full_disk
