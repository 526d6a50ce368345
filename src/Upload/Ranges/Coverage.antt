-- ===== src/Upload/Ranges/Coverage.antt =====
-- Which bytes a list of ranges covers, before and after sorting and merging.
use cache_22_server.Prelude.{
  ℕ, ◌≤◌, Bool, ◌&&◌, ◌||◌, List, [], ◌∷◌, ◌++◌, ◌≡◌, refl, ltb, leb, arith, exists_if,
}
use cache_22_server.Upload.Ranges.{
  ByteRange, insert_range, sort_ranges, extend, merge_from, merge, merge_range,
}

-- `x` lies in the range.
abbrev pub holds : ℕ → ByteRange → Bool
holds x r = leb r.0 x && ltb x r.1

-- Some range holds `x`.
abbrev pub covers : List ByteRange → ℕ → Bool
covers rs x = exists_if (holds x) rs

-- Every start is at least `lo`, and at least the start before it.
abbrev pub StartsFrom : ℕ → List ByteRange → Type 0
StartsFrom lo [] = Unit
StartsFrom lo (r ∷ rs) = (lo ≤ r.0) × StartsFrom r.0 rs

pub covers-append :
    (rs ss : List ByteRange) (x : ℕ) → covers (rs ++ ss) x ≡ (covers rs x || covers ss x)
covers-append [] ss x = refl
covers-append (r ∷ rs) ss x = ground (arith, covers-append rs ss x)

covers-insert_range :
    (r : ByteRange) (rs : List ByteRange) (x : ℕ) → covers (insert_range r rs) x ≡ covers (r ∷ rs) x
unfolding insert_range
covers-insert_range r [] x = refl
covers-insert_range r (s ∷ ss) x = ground (arith, covers-insert_range r ss x)

covers-sort_ranges : (rs : List ByteRange) (x : ℕ) → covers (sort_ranges rs) x ≡ covers rs x
unfolding sort_ranges
covers-sort_ranges [] x = refl
covers-sort_ranges (r ∷ rs) x =
    ground (arith, covers-insert_range r (sort_ranges rs) x, covers-sort_ranges rs x)

insert_range-StartsFrom :
    (lo : ℕ) (r : ByteRange) (rs : List ByteRange)
    → lo ≤ r.0
    → StartsFrom lo rs
    → StartsFrom lo (insert_range r rs)
unfolding insert_range
insert_range-StartsFrom lo r [] h s = (h, tt)
insert_range-StartsFrom lo r (q ∷ qs) h s = ground (arith, insert_range-StartsFrom q.0 r qs)

-- Sorting puts the starts in order.
pub sort_ranges-StartsFrom : (rs : List ByteRange) → StartsFrom 0 (sort_ranges rs)
unfolding sort_ranges
sort_ranges-StartsFrom [] = tt
sort_ranges-StartsFrom (r ∷ rs) =
    insert_range-StartsFrom 0 r (sort_ranges rs) (omega arith) (sort_ranges-StartsFrom rs)

pub StartsFrom-mono :
    (lo hi : ℕ) (rs : List ByteRange) → lo ≤ hi → StartsFrom hi rs → StartsFrom lo rs
StartsFrom-mono lo hi [] h s = tt
StartsFrom-mono lo hi (r ∷ rs) h s = (omega arith, s.1)

covers-merge_from :
    (cur : ByteRange) (rs : List ByteRange) (x : ℕ)
    → StartsFrom cur.0 rs
    → covers (merge_from cur rs) x ≡ covers (cur ∷ rs) x
unfolding merge_from extend
covers-merge_from cur [] x s = refl
covers-merge_from (a, b) ((c, d) ∷ rs) x (h, s) =
    let weaker = StartsFrom-mono a c rs h s in
    ground (
      arith,
      covers-merge_from (a, b) rs x weaker,
      covers-merge_from (a, d) rs x weaker,
      covers-merge_from (c, d) rs x s,
    )

covers-merge : (rs : List ByteRange) (x : ℕ) → StartsFrom 0 rs → covers (merge rs) x ≡ covers rs x
unfolding merge
covers-merge [] x s = refl
covers-merge (r ∷ rs) x s = covers-merge_from r rs x s.1

-- After a chunk a byte is covered exactly if it was before, or if it lies in the chunk.
pub covers-merge_range :
    (rs : List ByteRange) (size : ℕ) (new : ByteRange) (x : ℕ)
    → covers (merge_range rs size new).0 x ≡ (covers rs x || holds x new)
unfolding merge_range
covers-merge_range rs size new x = ground (
  arith,
  covers-merge (sort_ranges (rs ++ new ∷ [])) x (sort_ranges-StartsFrom (rs ++ new ∷ [])),
  covers-sort_ranges (rs ++ new ∷ []) x,
  covers-append rs (new ∷ []) x,
)
