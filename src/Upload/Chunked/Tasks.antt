-- ===== src/Upload/Chunked/Tasks.antt =====
-- uploadChunk of internal/handler/http/upload_chunked.go under the lock of its session, call by call: between any two of
-- its calls other requests may run.
use cache_22_server.Prelude.{ℕ, ◌+◌, Bool, ◌≡◌, Bytes, length, inl, inr, arith, if◌then◌else◌}
use cache_22_server.World.{World, UploadMeta, Result, Result-cases, ok, err, attempt}
use cache_22_server.Http.{Response, Body, problem_response}
use cache_22_server.Upload.Ranges.{merge_range}
use cache_22_server.Upload.Store.{read_meta, write_meta}
use cache_22_server.Upload.Chunked.{past_end, write_part, store_chunk, locked_chunk}

-- What is left of a handler: its answer, or one more call, which changes the world and from whose
-- outcome it goes on.
pub data Task : Type 0 where
  answered : Response → Task
  does : (World → Task) → (World → World) → Task

-- The rest without an interruption.
unfoldable pub run_task : Task → World → Response × World
run_task (answered r) w = (r, w)
run_task (does next effect) w = run_task (next w) (effect w)

-- A chunk that has been read from the network.
pub record Request : Type 0 where
  pub offset : ℕ
  pub body : Bytes

-- behind writeMeta
pub after_meta : ℕ → Bool → Result (Unit {0}) → Task
after_meta end complete (err e) = answered (problem_response 500 "internal error")
after_meta end complete (ok u) =
    answered (record { code = 200; body = Body.chunk_received end complete })

-- behind WriteAt
pub after_write : UploadMeta → Request → Result (Unit {0}) → Task
unfolding merge_range
after_write m r (err e) = answered (problem_response 500 "internal error")
after_write m r (ok u) =
    let end = r.offset + length r.body in
    let merged = merge_range m.ranges m.size (r.offset, end) in
    let write = write_meta (record m { ranges = merged.0 }) in
    does (λ w. after_meta end merged.1 (write w).0) (λ w. (write w).1)

-- behind OpenFile
pub after_open : Bytes → UploadMeta → Request → Result (Unit {0}) → Task
after_open id m r (err e) = answered (problem_response 500 "internal error")
after_open id m r (ok u) =
    let write = write_part id r.offset r.body in
    does (λ w. after_write m r (write w).0) (λ w. (write w).1)

-- behind readMeta
pub after_read : Bytes → Request → Result UploadMeta → Task
after_read id r (err e) = answered (problem_response 404 "unknown upload")
after_read id r (ok m) =
    if past_end r.offset (length r.body) m.size
    then answered (problem_response 400 "chunk past end of file")
    else does (λ w. after_open id m r (attempt w).0) (λ w. (attempt w).1)

unfoldable pub chunk_task : Bytes → Request → Task
chunk_task id r = does (λ w. after_read id r (read_meta id w).0) (λ w. (read_meta id w).1)

store_task_lem :
    (id : Bytes) (m : UploadMeta) (r : Request) (w : World)
    → run_task (does (λ v. after_open id m r (attempt v).0) (λ v. (attempt v).1)) w
      ≡ store_chunk m id r.offset r.body w
unfolding run_task store_chunk after_open after_write after_meta
store_task_lem id m r w = ground arith

-- Without an interruption the calls are the handler.
pub run_task-chunk_task :
    (id : Bytes) (r : Request) (w : World)
    → run_task (chunk_task id r) w ≡ locked_chunk id r.offset r.body w
unfolding run_task chunk_task locked_chunk after_read
run_task-chunk_task id r w = elim (Result-cases (read_meta id w).0) [
  | inl (e, k) ↦ ground arith
  | inr (m, k) ↦ ground (arith, store_task_lem id m r (read_meta id w).1)
]
