-- ===== src/Saves/Intact.antt =====
-- Put of internal/app/usecase/save/save.go writes a card beside its place and renames it: what a
-- failure on the way leaves.
use cache_22_server.Prelude.{
  ℕ, ◌-◌, true, some, List, [], ◌∷◌, ◌++◌, ◌≡◌, ◌≢◌, ◌⊎◌, inl, inr, ap, sym, ◌∙◌, refl, Bytes,
  codes, length, take, length-append, nat_eq, list_eq, list_beq_iff, beq_refl, arith, All,
  Option-cases,
}
use cache_22_server.Prelude.Assoc.{lookup, erase, lookup-insert, lookup-erase}
use cache_22_server.Go.FilePath.{FilePath}
use cache_22_server.Go.Number.{sprint}
use cache_22_server.World.{World, ok, Result-cases, attempt}
use cache_22_server.External.{External}
use cache_22_server.Db
use cache_22_server.Disk.{entries_of, last_part, remove_file, write_file, rename, open_file}
use cache_22_server.Go.Sort.{sort_names}
use cache_22_server.Saves.{
  with_suffix, backup_path, temp_path, parent, remove_names, prune_backups, backups_of, surplus,
  is_backup, backups_kept, rotate, back_up, store, put, file_path,
}
use cache_22_server.Disk.Laws.{lookup-write_file}
use cache_22_server.Saves.Names.{All-sort_names, All-take, All-keep_if_test, All-weaken}
use cache_22_server.Saves.Backups.{last_part_child}

with_suffix_ne : (path : FilePath) (c : ℕ) (s : Bytes) → with_suffix path (c ∷ s) ≢ path
unfolding with_suffix
with_suffix_ne path c s e =
    let same : last_part path ++ c ∷ s ≡ last_part path =
      sym (last_part_child (parent path) (last_part path ++ c ∷ s)) ∙ ap last_part e in
    omega (arith, length-append (last_part path) (c ∷ s), ap length same)

write_file_other :
    (q path : FilePath) (raw : Bytes) (w : World)
    → q ≢ path
    → lookup path (write_file q raw w).1.files ≡ lookup path w.files
unfolding write_file
write_file_other q path raw w n = ground (
  arith,
  lookup-insert q path raw w.files,
  lookup-insert q path (take w.torn raw) w.files,
  list_beq_iff list_eq q path,
)

remove_file_other :
    (q path : FilePath) (w : World)
    → q ≢ path
    → lookup path (remove_file q w).files ≡ lookup path w.files
unfolding remove_file
remove_file_other q path w n =
    ground (arith, lookup-erase q path w.files, list_beq_iff list_eq q path)

backup_ne :
    (path : FilePath) (n : Bytes)
    → is_backup (last_part path ++ codes ".") n ≡ true
    → parent path ++ n ∷ [] ≢ path
unfolding is_backup
backup_ne path n h e =
    let same : n ≡ last_part path = sym (last_part_child (parent path) n) ∙ ap last_part e in
    ground (arith, length-append (last_part path) (codes "."), same)

remove_names_other :
    (dir path : FilePath) (ns : List Bytes) (w : World)
    → All (λ n. dir ++ n ∷ [] ≢ path) ns
    → lookup path (remove_names dir ns w).1.files ≡ lookup path w.files
unfolding remove_names
remove_names_other dir path [] w h = refl
remove_names_other dir path (n ∷ ns) w (p, h) =
    remove_names_other dir path ns (remove_file (dir ++ n ∷ []) w) h
    ∙ remove_file_other (dir ++ n ∷ []) path w p

prune_backups_other :
    (path : FilePath) (w : World) → lookup path (prune_backups path w).1.files ≡ lookup path w.files
unfolding prune_backups backups_of attempt
prune_backups_other path w =
    let Other : Bytes → Type 0 = λ n. parent path ++ n ∷ [] ≢ path in
    let baks = backups_of path w.files in
    let gone = surplus (sort_names baks) in
    let w1 = (attempt w).1 in
    let others : All Other baks =
      All-weaken (λ n. is_backup (last_part path ++ codes ".") n ≡ true) Other baks (backup_ne path)
        (All-keep_if_test (is_backup (last_part path ++ codes "."))
          (entries_of (parent path) w.files)) in
    let kept = remove_names_other (parent path) path gone w1 (
      All-take Other (length (sort_names baks) - backups_kept) (sort_names baks)
        (All-sort_names Other baks others)) in
    ground (arith, kept)

open_file_same : (path : FilePath) (w : World) → (open_file path w).1.files ≡ w.files
unfolding open_file attempt
open_file_same path w = ground arith

rename_outcome :
    (from to : FilePath) (w : World)
    → let (r, w') = rename from to w in
      ((r ≢ ok tt) × (w'.files ≡ w.files))
      ⊎ ((r ≡ ok tt) × (lookup to w'.files ≡ lookup from w.files))
unfolding rename attempt
rename_outcome from to w = elim (Option-cases (lookup from w.files)) [
  | inl e ↦ ground arith
  | inr (raw, e) ↦ ground (arith, lookup-insert to to raw (erase from w.files), beq_refl to)
]

-- The file is as it was, or it is the new one in full.
abbrev pub Untorn : FilePath → Bytes → World → World → Type 0
Untorn path raw w w' =
    (lookup path w'.files ≡ lookup path w.files) ⊎ (lookup path w'.files ≡ some raw)

module _ (x : External) (dir : FilePath) where
  back_up_other :
      (path : FilePath) (old : Bytes) (w : World)
      → lookup path (back_up x dir path old w).1.files ≡ lookup path w.files
  unfolding back_up attempt
  back_up_other path old w =
      let w1 = (attempt w).1 in
      let bak = backup_path path w.now in
      let w2 = (write_file bak old w1).1 in
      ground (
        arith,
        write_file_other bak path old w1 (with_suffix_ne path b'.' (sprint w.now ++ codes ".bak")),
        prune_backups_other path w2,
      )

  rotate_other :
      (path : FilePath) (raw : Bytes) (w : World)
      → lookup path (rotate x dir path raw w).1.files ≡ lookup path w.files
  unfolding rotate open_file attempt
  rotate_other path raw w =
      let w1 = (open_file path w).1 in
      elim (Result-cases (open_file path w).0) [
        | inl (e, f) ↦ ground (arith, open_file_same path w)
        | inr (old, f) ↦ ground (arith, open_file_same path w, back_up_other path old w1)
      ]

  store_intact :
      (path : FilePath) (raw : Bytes) (w : World) → Untorn path raw w (store x dir path raw w).1
  unfolding store attempt
  store_intact path raw w =
      let tmp = temp_path path w.now in
      let apart = with_suffix_ne path b'.' (codes "tmp." ++ sprint w.now) in
      let w1 = (attempt w).1 in
      let w2 = (write_file tmp raw w1).1 in
      let w3 = (rename tmp path w2).1 in
      ground (
        arith,
        write_file_other tmp path raw w1 apart,
        lookup-write_file tmp raw w1,
        rename_outcome tmp path w2,
        remove_file_other tmp path w3 apart,
      )

  -- Whatever calls of a put fail, also in the middle of a write, the card's file is afterwards as it
  -- was before, or it is what was put in full.
  pub put_intact :
      (user_id : ℕ) (serial : Bytes) (slot : ℕ) (raw : Bytes) (w : World)
      → Untorn (file_path dir user_id serial slot) raw w (put x dir user_id serial slot raw w).1
  unfolding put Db.Saves.upsert Db.Saves.get Db.Saves.write_save attempt
  put_intact user_id serial slot raw w =
      let path = file_path dir user_id serial slot in
      let w1 = (rotate x dir path raw w).1 in
      ground (arith, rotate_other path raw w, store_intact path raw w1)
