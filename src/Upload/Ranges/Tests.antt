-- ===== src/Upload/Ranges/Tests.antt =====
-- mergeRange on small inputs, as in upload_chunked_test.go.
use cache_22_server.Prelude.{ℕ, true, false, ◌||◌, List, [], ◌∷◌, ◌≡◌, refl, ◌↔◌, ◌<◌, arith}
use cache_22_server.Upload.Ranges.{
  ByteRange, merge_range, insert_range, is_full, merge_from, extend,
}
use cache_22_server.Upload.Ranges.Coverage.{covers, holds, covers-merge_range}
use cache_22_server.Upload.Ranges.Normal.{
  IsNormal, merge_range-IsNormal, merge_range_comm, merge_range_complete,
}

abbrev gap : List ByteRange
gap = (0, 10) ∷ (30, 40) ∷ []

touching : merge_range gap 40 (10, 30) ≡ ((0, 40) ∷ [], true)
unfolding merge_range insert_range is_full merge_from extend
touching = refl

apart : merge_range gap 40 (12, 20) ≡ ((0, 10) ∷ (12, 20) ∷ (30, 40) ∷ [], false)
unfolding merge_range insert_range is_full merge_from extend
apart = refl

covers-merge_range_example :
    covers (merge_range gap 40 (8, 20)).0 15 ≡ (covers gap 15 || holds 15 (8, 20))
covers-merge_range_example = covers-merge_range gap 40 (8, 20) 15

merged_in_order : IsNormal (merge_range gap 40 (8, 20)).0
merged_in_order = merge_range-IsNormal gap 40 (8, 20) (omega arith) (omega arith)

merge_range_comm_example :
    merge_range (merge_range gap 40 (8, 20)).0 40 (18, 31)
    ≡ merge_range (merge_range gap 40 (18, 31)).0 40 (8, 20)
merge_range_comm_example =
    merge_range_comm gap 40 (8, 20) (18, 31) (omega arith) (omega arith) (omega arith)

merge_range_complete_example :
    ((merge_range gap 40 (8, 30)).1 ≡ true)
    ↔ ((x : ℕ) → x < 40 → (covers gap x || holds x (8, 30)) ≡ true)
merge_range_complete_example =
    merge_range_complete gap 40 (8, 30) (omega arith) (omega arith) (omega arith) (omega arith)
