-- ===== src/Upload/Store/Content.antt =====
-- What a write and a truncation do to the bytes of a file.
use cache_22_server.Prelude.{
  ℕ, ◌+◌, ◌-◌, ◌≤◌, ◌&&◌, ◌++◌, ◌≡◌, Bytes, length, take, drop, get_elem?, get_elem?-append,
  get_elem?-take, get_elem?-drop, length-append, length-take, length-drop, length-replicate,
  replicate, ltb, leb, if◌then◌else◌, arith,
}
use cache_22_server.Upload.Store.{write_at, truncate}

-- A write inside of the file changes the bytes from `offset` on, and no other.
pub get_elem?-write_at :
    (s : Bytes) (offset : ℕ) (body : Bytes) (i : ℕ)
    → offset + length body ≤ length s
    → get_elem? (write_at s offset body) i ≡ (
        if leb offset i && ltb i (offset + length body)
        then get_elem? body (i - offset)
        else get_elem? s i)
unfolding write_at
get_elem?-write_at s offset body i h = ground (
  arith,
  get_elem?-append (take offset s) (body ++ drop (offset + length body) s) i,
  get_elem?-append body (drop (offset + length body) s) (i - length (take offset s)),
  get_elem?-take offset s i,
  length-take offset s,
  get_elem?-drop (offset + length body) s (i - length (take offset s) - length body),
)

pub length-write_at :
    (s : Bytes) (offset : ℕ) (body : Bytes)
    → offset + length body ≤ length s
    → length (write_at s offset body) ≡ length s
unfolding write_at
length-write_at s offset body h = omega (
  arith,
  length-append (take offset s) (body ++ drop (offset + length body) s),
  length-append body (drop (offset + length body) s),
  length-take offset s,
  length-drop (offset + length body) s,
)

pub length-truncate : (n : ℕ) (s : Bytes) → length (truncate n s) ≡ n
unfolding truncate
length-truncate n s = omega (
  arith,
  length-append (take n s) (replicate (n - length s) 0),
  length-take n s,
  length-replicate {A = ℕ} (n - length s) 0,
)
