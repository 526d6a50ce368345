-- ===== src/Saves/Backups.antt =====
-- pruneBackups of internal/app/usecase/save/save.go, and the rotation before a Put.
use cache_22_server.Prelude.{
  ◌-◌, ◌≤◌, Bool, not, List, [], ◌∷◌, ◌++◌, ◌≡◌, ap, ◌∙◌, refl, Bytes, codes, length, keep_if,
  length-drop, ◌==◌, nat_eq, list_eq, list_beq_iff, arith, All,
}
use cache_22_server.Prelude.Assoc.{Assoc, erase}
use cache_22_server.Go.FilePath.{FilePath}
use cache_22_server.World.{World, quiet, attempt}
use cache_22_server.Disk.{entries_of, last_part, remove_file}
use cache_22_server.Go.Sort.{sort_names}
use cache_22_server.Saves.{
  parent, is_backup, backups_of, backups_kept, surplus, remove_names, prune_backups,
}
use cache_22_server.Saves.Names.{
  NotAfter, is_left, Later, sort_names-Sorted, All-sort_names_back, length-keep_if-sort_names,
  length-keep_if-take, All-Later-take, All-keep_if,
}

pub last_part_child : (dir : FilePath) (n : Bytes) → last_part (dir ++ n ∷ []) ≡ n
unfolding last_part
last_part_child [] n = refl
last_part_child (p ∷ []) n = refl
last_part_child (p ∷ q ∷ ps) n = last_part_child (q ∷ ps) n

-- The names of a folder without a file of it.
entries_of-erase :
    (dir : FilePath) (n : Bytes) (files : Assoc FilePath Bytes)
    → entries_of dir (erase (dir ++ n ∷ []) files)
      ≡ keep_if (λ m. not (n == m)) (entries_of dir files)
unfolding entries_of erase
entries_of-erase dir n [] = refl
entries_of-erase dir n ((path, raw) ∷ files) = ground (
  arith,
  entries_of-erase dir n files,
  last_part_child dir n,
  list_beq_iff list_eq path (dir ++ n ∷ []),
  list_beq_iff list_eq path (dir ++ last_part path ∷ []),
  list_beq_iff nat_eq n (last_part path),
)

keep_all : (ns : List Bytes) → ns ≡ keep_if (is_left []) ns
keep_all [] = refl
keep_all (n ∷ ns) = ap (λ l. n ∷ l) (keep_all ns)

keep_if_comm :
    (p q : Bytes → Bool) (ns : List Bytes) → keep_if p (keep_if q ns) ≡ keep_if q (keep_if p ns)
keep_if_comm p q [] = refl
keep_if_comm p q (n ∷ ns) = ground (arith, keep_if_comm p q ns)

keep_if-is_left :
    (n : Bytes) (gone ns : List Bytes)
    → keep_if (is_left gone) (keep_if (λ m. not (n == m)) ns) ≡ keep_if (is_left (n ∷ gone)) ns
keep_if-is_left n gone [] = refl
keep_if-is_left n gone (m ∷ ns) = ground (arith, keep_if-is_left n gone ns)

remove_file_quiet :
    (path : FilePath) (w : World)
    → w.faults ≡ []
    → ((remove_file path w).files ≡ erase path w.files) × ((remove_file path w).faults ≡ [])
unfolding remove_file
remove_file_quiet path w calm = ground arith

backups_of-erase :
    (path : FilePath) (n : Bytes) (files : Assoc FilePath Bytes)
    → backups_of path (erase (parent path ++ n ∷ []) files)
      ≡ keep_if (λ m. not (n == m)) (backups_of path files)
unfolding backups_of
backups_of-erase path n files =
    ap (keep_if (is_backup (last_part path ++ codes "."))) (entries_of-erase (parent path) n files)
    ∙ keep_if_comm (is_backup (last_part path ++ codes ".")) (λ m. not (n == m))
        (entries_of (parent path) files)

backups_of-remove_names :
    (path : FilePath) (ns : List Bytes) (w : World)
    → w.faults ≡ []
    → backups_of path (remove_names (parent path) ns w).1.files
      ≡ keep_if (is_left ns) (backups_of path w.files)
unfolding remove_names
backups_of-remove_names path [] w calm = keep_all (backups_of path w.files)
backups_of-remove_names path (n ∷ ns) w calm =
    let w1 = remove_file (parent path ++ n ∷ []) w in
    let (files, calm1) = remove_file_quiet (parent path ++ n ∷ []) w calm in
    backups_of-remove_names path ns w1 calm1
    ∙ ap (λ f. keep_if (is_left ns) (backups_of path f)) files
    ∙ ap (keep_if (is_left ns)) (backups_of-erase path n w.files)
    ∙ keep_if-is_left n ns (backups_of path w.files)

backups_of-prune_backups :
    (path : FilePath) (w : World)
    → w.faults ≡ []
    → backups_of path (prune_backups path w).1.files
      ≡ keep_if (is_left (surplus (sort_names (backups_of path w.files)))) (backups_of path w.files)
unfolding prune_backups attempt
backups_of-prune_backups path w calm =
    let baks = backups_of path w.files in
    let w1 = record w { faults = [] } in
    rw calm (backups_of-remove_names path (surplus (sort_names baks)) w1 refl)

few_left :
    (ns : List Bytes) → length (keep_if (is_left (surplus (sort_names ns))) ns) ≤ backups_kept
few_left ns =
    let sorted = sort_names ns in
    let k = length sorted - backups_kept in
    omega (
      arith,
      length-keep_if-sort_names (is_left (surplus sorted)) ns,
      length-keep_if-take k sorted,
      length-drop k sorted,
    )

-- Where no call fails, pruneBackups leaves at most three backups of a card, and every one that it
-- leaves comes behind every one that it removes.
pub prune_backups_keeps_latest :
    (path : FilePath) (w : World)
    → let left = backups_of path (prune_backups path (quiet w)).1.files in
      (length left ≤ backups_kept)
      × All (λ m. All (λ n. NotAfter n m) (surplus (sort_names (backups_of path w.files)))) left
prune_backups_keeps_latest path w =
    let baks = backups_of path w.files in
    let sorted = sort_names baks in
    let gone = surplus sorted in
    rw (backups_of-prune_backups path (quiet w) refl) (
      few_left baks,
      All-keep_if (λ m. All (λ n. NotAfter n m) gone) (is_left gone) baks
          (All-sort_names_back (Later gone) baks
            (All-Later-take (length sorted - backups_kept) sorted (sort_names-Sorted baks))),
    )
