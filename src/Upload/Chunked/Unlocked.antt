-- ===== src/Upload/Chunked/Unlocked.antt =====
-- What the chunk handler does under its lock does not depend on the table of locks.
use cache_22_server.Prelude.{
  ℕ, true, List, [], ◌∷◌, ◌≡◌, refl, ap, ◌∙◌, sym, Bytes, exists_if, beq_refl, nat_eq, list_eq,
  ◌==◌, arith, some,
}
use cache_22_server.Go.FilePath.{FilePath}
use cache_22_server.World.{World, attempt}
use cache_22_server.External.{External}
use cache_22_server.Http.{Response}
use cache_22_server.Upload.Store.{read_meta, write_meta, upload_lock, valid_upload_id}
use cache_22_server.Upload.Chunked.{locked_chunk, store_chunk, write_part, upload_complete}
use cache_22_server.Upload.Chunked.Tasks.{Request}
use cache_22_server.Upload.Chunked.Interleaved.{in_order}

abbrev pub HasLock : Bytes → World → Type 0
HasLock id w = exists_if (λ j. j == id) w.upload_locks ≡ true

abbrev pub with_locks : List Bytes → World → World
with_locks ls w = record w { upload_locks = ls }

locked_chunk_with :
    (id : Bytes) (r : Request) (ls : List Bytes) (w : World)
    → locked_chunk id r.offset r.body (with_locks ls w)
      ≡ (let (a, v) = locked_chunk id r.offset r.body w in (a, with_locks ls v))
unfolding locked_chunk store_chunk write_part write_meta attempt read_meta
locked_chunk_with id r ls w = ground arith

pub locked_chunk_locks :
    (id : Bytes) (offset : ℕ) (body : Bytes) (w : World)
    → (locked_chunk id offset body w).1.upload_locks ≡ w.upload_locks
unfolding locked_chunk store_chunk write_part write_meta attempt
locked_chunk_locks id offset body w = ground arith

pub in_order_with :
    (id : Bytes) (rs : List Request) (ls : List Bytes) (w : World)
    → in_order id rs (with_locks ls w) ≡ (let (bs, v) = in_order id rs w in (bs, with_locks ls v))
unfolding in_order
in_order_with id [] ls w = refl
in_order_with id (r ∷ rs) ls w =
    let (a, v) = locked_chunk id r.offset r.body w in
    ap (λ (p : Response × World). let (bs, u) = in_order id rs p.1 in (p.0 ∷ bs, u))
      (locked_chunk_with id r ls w)
    ∙ ap (λ (p : List Response × World). (a ∷ p.0, p.1)) (in_order_with id rs ls v)

pub in_order_locks :
    (id : Bytes) (rs : List Request) (w : World)
    → (in_order id rs w).1.upload_locks ≡ w.upload_locks
unfolding in_order
in_order_locks id [] w = refl
in_order_locks id (r ∷ rs) w =
    in_order_locks id rs (locked_chunk id r.offset r.body w).1
    ∙ locked_chunk_locks id r.offset r.body w

pub upload_lock_again : (id : Bytes) (w : World) → HasLock id w → upload_lock id w ≡ w
unfolding upload_lock
upload_lock_again id w h = rw h refl

pub upload_lock-HasLock : (id : Bytes) (w : World) → HasLock id (upload_lock id w)
unfolding upload_lock
upload_lock-HasLock id w = ground (arith, beq_refl id)

-- The entry depends only on the table.
pub upload_lock_with :
    (id : Bytes) (v w : World)
    → w.upload_locks ≡ v.upload_locks
    → upload_lock id w ≡ with_locks (upload_lock id v).upload_locks w
unfolding upload_lock
upload_lock_with id v w e = ground (arith, e)

pub in_order-upload_lock :
    (id : Bytes) (rs : List Request) (w : World)
    → in_order id rs (upload_lock id w) ≡ (let (bs, v) = in_order id rs w in (bs, upload_lock id v))
in_order-upload_lock id rs w =
    let (bs, v) = in_order id rs w in
    ap (in_order id rs) (upload_lock_with id w w refl)
    ∙ in_order_with id rs (upload_lock id w).upload_locks w
    ∙ ap (λ u. (bs, u)) (sym (upload_lock_with id w v (in_order_locks id rs w)))

pub upload_complete-upload_lock :
    (x : External) (dir : FilePath) (id : Bytes) (w : World)
    → valid_upload_id id ≡ true
    → upload_complete x dir (some id) (upload_lock id w) ≡ upload_complete x dir (some id) w
unfolding upload_complete
upload_complete-upload_lock x dir id w valid =
    rw (valid, upload_lock_again id (upload_lock id w) (upload_lock-HasLock id w)) refl
