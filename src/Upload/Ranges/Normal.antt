-- ===== src/Upload/Ranges/Normal.antt =====
-- The shape of the ranges after merging: in order, none empty, with a gap between any two.
use cache_22_server.Prelude.{
  ℕ, suc, ◌≤◌, ◌<◌, true, false, ◌||◌, List, [], ◌∷◌, ◌++◌, ◌≡◌, refl, ◌∙◌, ap, arith, ◌↔◌, All,
  ◌-◌,
}
use cache_22_server.Upload.Ranges.{
  ByteRange, insert_range, sort_ranges, extend, merge_from, merge, merge_range, is_full,
}
use cache_22_server.Upload.Ranges.Coverage.{
  holds, covers, StartsFrom, StartsFrom-mono, sort_ranges-StartsFrom, covers-merge_range,
}

-- In order from `lo` on, none empty, with a gap between any two.
abbrev pub GapsFrom : ℕ → List ByteRange → Type 0
GapsFrom lo [] = Unit
GapsFrom lo (r ∷ rs) = (lo ≤ r.0) × (r.0 < r.1) × GapsFrom (suc r.1) rs

abbrev pub IsNormal : List ByteRange → Type 0
IsNormal = GapsFrom 0

-- No range is empty.
abbrev pub AllProper : List ByteRange → Type 0
AllProper [] = Unit
AllProper (r ∷ rs) = (r.0 < r.1) × AllProper rs

GapsFrom-AllProper : (lo : ℕ) (rs : List ByteRange) → GapsFrom lo rs → AllProper rs
GapsFrom-AllProper lo [] g = tt
GapsFrom-AllProper lo (r ∷ rs) g = (g.1, GapsFrom-AllProper (suc r.1) rs g.2)

AllProper-append : (rs ss : List ByteRange) → AllProper rs → AllProper ss → AllProper (rs ++ ss)
AllProper-append [] ss p q = q
AllProper-append (r ∷ rs) ss p q = (p.0, AllProper-append rs ss p.1 q)

insert_range-AllProper :
    (r : ByteRange) (rs : List ByteRange) → r.0 < r.1 → AllProper rs → AllProper (insert_range r rs)
unfolding insert_range
insert_range-AllProper r [] h p = (h, tt)
insert_range-AllProper r (s ∷ ss) h p = ground (arith, insert_range-AllProper r ss h p.1)

sort_ranges-AllProper : (rs : List ByteRange) → AllProper rs → AllProper (sort_ranges rs)
unfolding sort_ranges
sort_ranges-AllProper [] p = tt
sort_ranges-AllProper (r ∷ rs) p =
    insert_range-AllProper r (sort_ranges rs) p.0 (sort_ranges-AllProper rs p.1)

GapsFrom-mono : (lo hi : ℕ) (rs : List ByteRange) → lo ≤ hi → GapsFrom hi rs → GapsFrom lo rs
GapsFrom-mono lo hi [] h g = tt
GapsFrom-mono lo hi (r ∷ rs) h g = (omega arith, g.1, g.2)

merge_from-GapsFrom :
    (cur : ByteRange) (rs : List ByteRange)
    → cur.0 < cur.1
    → StartsFrom cur.0 rs
    → AllProper rs
    → GapsFrom cur.0 (merge_from cur rs)
unfolding merge_from extend
merge_from-GapsFrom cur [] h s p = (omega arith, h, tt)
merge_from-GapsFrom (a, b) ((c, d) ∷ rs) h (st, s) (q, p) =
    let weaker = StartsFrom-mono a c rs st s in
    ground (
      arith,
      merge_from-GapsFrom (a, b) rs h weaker p,
      merge_from-GapsFrom (a, d) rs (omega arith) weaker p,
      merge_from-GapsFrom (c, d) rs q s p,
      GapsFrom-mono (suc b) c (merge_from (c, d) rs),
    )

merge-IsNormal : (rs : List ByteRange) → StartsFrom 0 rs → AllProper rs → IsNormal (merge rs)
unfolding merge
merge-IsNormal [] s p = tt
merge-IsNormal (r ∷ rs) s p =
    GapsFrom-mono 0 r.0 (merge_from r rs) (omega arith) (merge_from-GapsFrom r rs p.0 s.1 p.1)

-- Recording a nonempty chunk keeps the normal form.
pub merge_range-IsNormal :
    (rs : List ByteRange) (size : ℕ) (new : ByteRange)
    → IsNormal rs
    → new.0 < new.1
    → IsNormal (merge_range rs size new).0
unfolding merge_range
merge_range-IsNormal rs size new n h =
    merge-IsNormal (sort_ranges (rs ++ new ∷ [])) (sort_ranges-StartsFrom (rs ++ new ∷ [])) (
      sort_ranges-AllProper (rs ++ new ∷ [])
        (AllProper-append rs (new ∷ []) (GapsFrom-AllProper 0 rs n) (h, tt)))

pub covers_below :
    (lo : ℕ) (rs : List ByteRange) (x : ℕ) → GapsFrom lo rs → x < lo → covers rs x ≡ false
covers_below lo [] x g h = refl
covers_below lo (r ∷ rs) x g h = ground (arith, covers_below (suc r.1) rs x g.2 (omega arith))

module _ (a b c d : ℕ) (rs ss : List ByteRange) (g : GapsFrom a ((a, b) ∷ rs))
    (k : GapsFrom c ((c, d) ∷ ss))
    (same : (x : ℕ) → covers ((a, b) ∷ rs) x ≡ covers ((c, d) ∷ ss) x) where
  same_start : a ≡ c
  same_start =
      ground
        (arith, same a, same c, covers_below c ((c, d) ∷ ss) a k, covers_below a ((a, b) ∷ rs) c g)

  same_end : b ≡ d
  same_end = ground (
    arith,
    same_start,
    same b,
    same d,
    covers_below (suc b) rs b g.2,
    covers_below (suc d) ss d k.2,
  )

  same_rest : (x : ℕ) → covers rs x ≡ covers ss x
  same_rest x = ground (
    arith,
    same_start,
    same_end,
    same x,
    covers_below (suc b) rs x g.2,
    covers_below (suc d) ss x k.2,
  )

normal_unique_from :
    (lo hi : ℕ) (rs ss : List ByteRange)
    → GapsFrom lo rs
    → GapsFrom hi ss
    → ((x : ℕ) → covers rs x ≡ covers ss x)
    → rs ≡ ss
normal_unique_from lo hi [] [] g k same = refl
normal_unique_from lo hi [] (s ∷ ss) g k same = ground (arith, same s.0)
normal_unique_from lo hi (r ∷ rs) [] g k same = ground (arith, same r.0)
normal_unique_from lo hi ((a, b) ∷ rs) ((c, d) ∷ ss) g k same =
    let g' : GapsFrom a ((a, b) ∷ rs) = (omega arith, g.1, g.2) in
    let k' : GapsFrom c ((c, d) ∷ ss) = (omega arith, k.1, k.2) in
    let rest =
      normal_unique_from (suc b) (suc d) rs ss g.2 k.2 (same_rest a b c d rs ss g' k' same) in
    ground (arith, same_start a b c d rs ss g' k' same, same_end a b c d rs ss g' k' same, rest)

-- Two normal lists that cover the same bytes are the same list.
pub normal_unique :
    (rs ss : List ByteRange)
    → IsNormal rs
    → IsNormal ss
    → ((x : ℕ) → covers rs x ≡ covers ss x)
    → rs ≡ ss
normal_unique rs ss = normal_unique_from 0 0 rs ss

merge_range_flag :
    (rs : List ByteRange) (size : ℕ) (new : ByteRange)
    → merge_range rs size new
      ≡ ((merge_range rs size new).0, is_full (merge_range rs size new).0 size)
unfolding merge_range
merge_range_flag rs size new = refl

-- Two nonempty chunks leave the same ranges behind, whichever of them arrives first.
pub merge_range_comm :
    (rs : List ByteRange) (size : ℕ) (p q : ByteRange)
    → IsNormal rs
    → p.0 < p.1
    → q.0 < q.1
    → merge_range (merge_range rs size p).0 size q ≡ merge_range (merge_range rs size q).0 size p
merge_range_comm rs size p q n hp hq = rw (merge_range_flag (merge_range rs size p).0 size q) (
    rw (merge_range_flag (merge_range rs size q).0 size p)
      (ap (λ (l : List ByteRange). (l, is_full l size)) same))
  where
    same :
        (merge_range (merge_range rs size p).0 size q).0
        ≡ (merge_range (merge_range rs size q).0 size p).0
    same =
        normal_unique _ _ (merge_range-IsNormal _ size q (merge_range-IsNormal rs size p n hp) hq)
          (merge_range-IsNormal _ size p (merge_range-IsNormal rs size q n hq) hp)
          λ x. ground (
            arith,
            covers-merge_range (merge_range rs size p).0 size q x,
            covers-merge_range (merge_range rs size q).0 size p x,
            covers-merge_range rs size p x,
            covers-merge_range rs size q x,
          )

pub is_full_covers :
    (rs : List ByteRange) (size x : ℕ) → is_full rs size ≡ true → x < size → covers rs x ≡ true
unfolding is_full
is_full_covers [] size x e h = cc
is_full_covers (r ∷ []) size x e h = ground arith
is_full_covers (r ∷ s ∷ rs) size x e h = cc

pub covers_is_full :
    (rs : List ByteRange) (size : ℕ)
    → IsNormal rs
    → 0 < size
    → ((x : ℕ) → covers rs x ≡ true → x < size)
    → ((x : ℕ) → x < size → covers rs x ≡ true)
    → is_full rs size ≡ true
unfolding is_full
covers_is_full [] size n h inside all = ground (arith, all 0)
covers_is_full (r ∷ []) size n h inside all = ground (arith, all 0, all r.1, inside size)
covers_is_full (r ∷ s ∷ rs) size n h inside all =
    ground (arith, all r.1, inside s.0, covers_below (suc r.1) (s ∷ rs) r.1 n.2)

-- Every range ends within the file.
abbrev pub Within : ℕ → List ByteRange → Type 0
Within size = All (λ r. r.1 ≤ size)

pub covers-Within :
    (rs : List ByteRange) (size x : ℕ) → Within size rs → covers rs x ≡ true → x < size
covers-Within [] size x w e = cc
covers-Within (r ∷ rs) size x w e = ground (arith, covers-Within rs size x w.1)

-- The call reports completion exactly if the ranges so far and the new one, all within the file,
-- cover every byte of it.
pub merge_range_complete :
    (rs : List ByteRange) (size : ℕ) (new : ByteRange)
    → IsNormal rs
    → Within size rs
    → new.0 < new.1
    → new.1 ≤ size
    → ((merge_range rs size new).1 ≡ true)
      ↔ ((x : ℕ) → x < size → (covers rs x || holds x new) ≡ true)
merge_range_complete rs size new n w h hs = (
  λ full x below. ground (
    arith,
    merge_range_flag rs size new,
    is_full_covers merged size x,
    covers-merge_range rs size new x,
  ),
  λ all. rw (merge_range_flag rs size new) (
      covers_is_full merged size (merge_range-IsNormal rs size new n h) (omega arith)
        (λ x e. ground (arith, covers-merge_range rs size new x, covers-Within rs size x w))
        (λ x below. covers-merge_range rs size new x ∙ all x below)),
)
  where
    merged : List ByteRange
    merged = (merge_range rs size new).0

-- The new ranges stay within the file.
Within-covers_lem :
    (lo size : ℕ) (rs : List ByteRange)
    → GapsFrom lo rs
    → ((x : ℕ) → covers rs x ≡ true → x < size)
    → Within size rs
Within-covers_lem lo size [] g inside = tt
Within-covers_lem lo size ((a, b) ∷ rs) g inside = (
  ground (arith, inside (b - 1)),
  Within-covers_lem (suc b) size rs g.2 (λ x e. ground (arith, inside x)),
)

pub merge_range-Within :
    (rs : List ByteRange) (size : ℕ) (new : ByteRange)
    → IsNormal rs
    → Within size rs
    → new.0 < new.1
    → new.1 ≤ size
    → Within size (merge_range rs size new).0
merge_range-Within rs size new n w h hs =
    Within-covers_lem 0 size _ (merge_range-IsNormal rs size new n h)
      (λ x e. ground (arith, covers-merge_range rs size new x, covers-Within rs size x w))
