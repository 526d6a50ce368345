-- ===== src/Upload/Chunked/Together.antt =====
-- Two chunks that are sent at the same time; the second one gets the lock first.
use mathlib.Core.List.{Perm}
use cache_22_server.Prelude.{
  ℕ, some, List, [], ◌∷◌, ◌++◌, map, ◌≡◌, refl, arith, codes, list_eq, nat_eq,
}
use cache_22_server.Prelude.Assoc.{lookup, insert}
use cache_22_server.World.{World}
use cache_22_server.Samples.{plain}
use cache_22_server.Serial.{sanitize}
use cache_22_server.Http.{Response}
use cache_22_server.Upload.Store.{valid_upload_id}
use cache_22_server.Upload.Finalize.{iso_path}
use cache_22_server.Upload.Chunked.{upload_complete}
use cache_22_server.Upload.Chunked.Delivery.{Session}
use cache_22_server.Upload.Chunked.Tasks.{Task, answered, does, Request, run_task, chunk_task}
use cache_22_server.Upload.Chunked.Locks.{Locks, get_lock, try_lock, unlock}
use cache_22_server.Upload.Chunked.Interleaved.{
  Thread, arrives, waits, inside, System, Turns, none_yet, one_more, looks_up, enters, calls,
  leaves, all_arrived, all_left, in_order,
}
use cache_22_server.Upload.Chunked.Exclusion.{Turns-in_order}
use cache_22_server.Upload.Chunked.Parallel.{request_of, parallel_chunks_deliver}
use cache_22_server.Upload.Chunked.Tests.{
  content, id, library, meta_with, zeros, start, start-Good, tail_chunk, head_chunk, both,
  tail-IsChunk, head-IsChunk, both-sent,
}

abbrev ready : World
ready = record start { upload_locks = id ∷ [] }

abbrev tail_request : Request
tail_request = request_of tail_chunk

abbrev head_request : Request
head_request = request_of head_chunk

abbrev first : Response × World
first = run_task (chunk_task id head_request) ready

abbrev second : Response × World
second = run_task (chunk_task id tail_request) first.1

abbrev replies : List Response
replies = first.0 ∷ second.0 ∷ []

-- uploadLock has made mutex 0 for the session; these are locked.
abbrev locks_with : List ℕ → Locks
locks_with taken = record { table = (id, 0) ∷ []; fresh = 1; taken = taken }

abbrev state : List Thread → List ℕ → List Request → List Response → World → System
state threads taken left answers w = record {
  threads = threads;
  locks = locks_with taken;
  left = left;
  answers = answers;
  world = w;
}

-- The request that has the mutex makes the rest of its calls and leaves.
finish :
    (start : System) (before after : List Thread) (left : List Request) (r : Request) (t : Task)
    (answers : List Response) (w : World)
    → Turns id start (state (before ++ (r, inside 0 t) ∷ after) (0 ∷ []) left answers w)
    → Turns id start (
        state
          (before ++ after)
          []
          (left ++ r ∷ [])
          (answers ++ (run_task t w).0 ∷ [])
          (run_task t w).1)
unfolding run_task unlock
finish start before after left r (answered a) answers w turns =
    one_more start (state (before ++ (r, inside 0 (answered a)) ∷ after) (0 ∷ []) left answers w)
      (state (before ++ after) [] (left ++ r ∷ []) (answers ++ a ∷ []) w) turns
      (leaves before after left r 0 a answers (locks_with (0 ∷ [])) w)
finish start before after left r (does next effect) answers w turns =
    finish start before after left r (next w) answers (effect w) (
      one_more start
        (state (before ++ (r, inside 0 (does next effect)) ∷ after) (0 ∷ []) left answers w)
        (state (before ++ (r, inside 0 (next w)) ∷ after) (0 ∷ []) left answers (effect w)) turns
        (calls before after left r 0 next effect answers (locks_with (0 ∷ [])) w))

abbrev all_wait : System
all_wait = all_arrived (map request_of both) [] 0 ready

abbrev one_waits : System
one_waits = state ((tail_request, waits 0) ∷ (head_request, arrives) ∷ []) [] [] [] ready

abbrev both_wait : System
both_wait = state ((tail_request, waits 0) ∷ (head_request, waits 0) ∷ []) [] [] [] ready

abbrev head_inside : System
head_inside =
    state ((tail_request, waits 0) ∷ (head_request, inside 0 (chunk_task id head_request)) ∷ [])
      (0 ∷ []) [] [] ready

abbrev tail_waits : System
tail_waits = state ((tail_request, waits 0) ∷ []) [] (head_request ∷ []) (first.0 ∷ []) first.1

abbrev tail_inside : System
tail_inside =
    state ((tail_request, inside 0 (chunk_task id tail_request)) ∷ []) (0 ∷ []) (head_request ∷ [])
      (first.0 ∷ []) first.1

-- Both wait for the mutex, and the head gets it.
head_enters : Turns id all_wait head_inside
unfolding get_lock try_lock lookup insert
head_enters =
    one_more all_wait both_wait head_inside
      (one_more all_wait one_waits both_wait
        (one_more all_wait all_wait one_waits (none_yet all_wait) (
          looks_up [] ((head_request, arrives) ∷ []) [] tail_request []
            (record { table = []; fresh = 0; taken = [] }) ready))
        (looks_up ((tail_request, waits 0) ∷ []) [] [] head_request [] (locks_with []) ready))
      (enters ((tail_request, waits 0) ∷ []) [] [] head_request 0 [] (locks_with [])
        (locks_with (0 ∷ [])) ready refl)

head_left : Turns id all_wait tail_waits
head_left =
    finish all_wait ((tail_request, waits 0) ∷ []) [] [] head_request (chunk_task id head_request)
      [] ready head_enters

tail_enters : Turns id all_wait tail_inside
unfolding try_lock
tail_enters = one_more all_wait tail_waits tail_inside head_left (
    enters [] [] (head_request ∷ []) tail_request 0 (first.0 ∷ []) (locks_with [])
      (locks_with (0 ∷ [])) first.1 refl)

both_left :
    Turns id all_wait (all_left (head_request ∷ tail_request ∷ []) replies (locks_with []) second.1)
both_left =
    finish all_wait [] [] (head_request ∷ []) tail_request (chunk_task id tail_request)
      (first.0 ∷ []) first.1 tail_enters

ready-Session : Session content id (meta_with []) zeros ready
unfolding lookup
ready-Session = record { calm = refl; dir = refl; good = start-Good }

parallel_chunks_deliver_example :
    let (r, w') = upload_complete plain library (some id) second.1 in
    (r.code ≡ 201) × (lookup (iso_path library (codes "ico")) w'.files ≡ some content)
unfolding sanitize lookup valid_upload_id
parallel_chunks_deliver_example =
    parallel_chunks_deliver plain library content zeros (codes "ico") (meta_with []) both
      (head_request ∷ tail_request ∷ []) replies [] 0 (locks_with []) ready second.1 refl
      (omega arith) (omega arith) ready-Session (tail-IsChunk, (head-IsChunk, tt)) both-sent refl
      refl both_left

Turns-in_order_example :
    Perm (map request_of both) (head_request ∷ tail_request ∷ [])
    × (in_order id (head_request ∷ tail_request ∷ []) ready ≡ (replies, second.1))
Turns-in_order_example =
    Turns-in_order id (map request_of both) (head_request ∷ tail_request ∷ []) replies [] 0
      (locks_with []) ready second.1 both_left
