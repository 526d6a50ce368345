-- ===== src/Go/Sort.antt =====
-- sort.Strings, which is also the order of os.ReadDir.
use cache_22_server.Prelude.{Bool, true, false, List, [], ◌∷◌, Bytes, nat_beq, ltb, if◌then◌else◌}

-- the order of Go's strings
unfoldable pub bytes_leb : Bytes → Bytes → Bool
bytes_leb [] ys = true
bytes_leb (x ∷ xs) [] = false
bytes_leb (x ∷ xs) (y ∷ ys) = if nat_beq x y then bytes_leb xs ys else ltb x y

unfoldable pub insert_name : Bytes → List Bytes → List Bytes
unfolding bytes_leb
insert_name n [] = n ∷ []
insert_name n (m ∷ ms) = if bytes_leb n m then n ∷ m ∷ ms else m ∷ insert_name n ms

-- sort.Strings
unfoldable pub sort_names : List Bytes → List Bytes
unfolding insert_name
sort_names [] = []
sort_names (n ∷ ns) = insert_name n (sort_names ns)
