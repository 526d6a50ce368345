-- ===== src/Upload/Ranges.antt =====
-- mergeRange of internal/handler/http/upload_chunked.go: the byte ranges received so far. sort.Slice
-- is insertion sort here, which is one of the orders that Go may give to equal starts.
pub mod Coverage
pub mod Normal
mod Tests
use cache_22_server.Prelude.{
  ℕ, Bool, true, false, ◌&&◌, List, [], ◌∷◌, ◌++◌, ltb, leb, nat_beq, if◌then◌else◌,
}

-- start and end of a half-open range
abbrev pub ByteRange : Type 0
ByteRange = ℕ × ℕ

pub insert_range : ByteRange → List ByteRange → List ByteRange
insert_range r [] = r ∷ []
insert_range r (s ∷ ss) = if leb r.0 s.0 then r ∷ s ∷ ss else s ∷ insert_range r ss

-- sort.Slice by the start
pub sort_ranges : List ByteRange → List ByteRange
sort_ranges [] = []
sort_ranges (r ∷ rs) = insert_range r (sort_ranges rs)

-- `if r[1] > cur[1] { cur[1] = r[1] }`
pub extend : ByteRange → ByteRange → ByteRange
extend cur r = if ltb cur.1 r.1 then (cur.0, r.1) else cur

-- the loop over the sorted ranges, with its variable `cur`
pub merge_from : ByteRange → List ByteRange → List ByteRange
merge_from cur [] = cur ∷ []
merge_from cur (r ∷ rs) =
    let joined = merge_from (extend cur r) rs in
    let apart = cur ∷ merge_from r rs in if leb r.0 cur.1 then joined else apart

pub merge : List ByteRange → List ByteRange
merge [] = []
merge (r ∷ rs) = merge_from r rs

-- `len(merged) == 1 && merged[0][0] == 0 && merged[0][1] == m.Size`
unfoldable pub is_full : List ByteRange → ℕ → Bool
is_full [] size = false
is_full (r ∷ []) size = nat_beq r.0 0 && nat_beq r.1 size
is_full (r ∷ s ∷ rs) size = false

-- The ranges after the call, and what it returns.
unfoldable pub merge_range : List ByteRange → ℕ → ByteRange → List ByteRange × Bool
unfolding merge sort_ranges
merge_range ranges size new =
    let merged = merge (sort_ranges (ranges ++ new ∷ [])) in (merged, is_full merged size)
