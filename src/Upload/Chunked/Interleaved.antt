-- ===== src/Upload/Chunked/Interleaved.antt =====
-- Chunk requests of one session that run at the same time: each of them calls uploadLock of
-- internal/handler/http/handler.go, locks the mutex that it gets, makes the calls of uploadChunk and
-- unlocks the mutex. Any of them may make its next call at any time; what keeps them apart is the
-- mutex alone. Requests that drop the lock of a session (abort, complete, init) do not run meanwhile.
use cache_22_server.Prelude.{ℕ, List, [], ◌∷◌, ◌++◌, some, ◌≡◌, map, Bytes}
use cache_22_server.Prelude.Assoc.{Assoc}
use cache_22_server.World.{World}
use cache_22_server.Http.{Response}
use cache_22_server.Upload.Chunked.{locked_chunk}
use cache_22_server.Upload.Chunked.Tasks.{Task, answered, does, Request, chunk_task}
use cache_22_server.Upload.Chunked.Locks.{Locks, get_lock, try_lock, unlock}

-- Where a request stands: before uploadLock, in the call of Lock on a mutex, or behind it with what is
-- left of it.
pub data Stage : Type 0 where
  arrives : Stage
  waits : ℕ → Stage
  inside : ℕ → Task → Stage

abbrev pub Thread : Type 0
Thread = Request × Stage

-- The requests that have no answer yet, the mutexes, those that have been answered, in the order in
-- which they left, their answers, and the world.
pub record System : Type 0 where
  pub threads : List Thread
  pub locks : Locks
  pub left : List Request
  pub answers : List Response
  pub world : World

-- The requests one after the other, each of them whole.
unfoldable pub in_order : Bytes → List Request → World → List Response × World
in_order id [] w = ([], w)
in_order id (r ∷ rs) w =
    let (a, w1) = locked_chunk id r.offset r.body w in
    let (bs, w2) = in_order id rs w1 in (a ∷ bs, w2)

module _ (id : Bytes) where
  -- One call of one of the requests, whichever.
  pub data Turn : System → System → Type 0 where
    looks_up :
        (before after : List Thread) (left : List Request) (r : Request) (answers : List Response)
        (l : Locks) (w : World)
        → Turn
            (record {
              threads = before ++ (r, arrives) ∷ after;
              locks = l;
              left = left;
              answers = answers;
              world = w;
            })
            (record {
              threads = before ++ (r, waits (get_lock id l).0) ∷ after;
              locks = (get_lock id l).1;
              left = left;
              answers = answers;
              world = w;
            })
    enters :
        (before after : List Thread) (left : List Request) (r : Request) (k : ℕ)
        (answers : List Response) (l l' : Locks) (w : World)
        → try_lock k l ≡ some l'
        → Turn
            (record {
              threads = before ++ (r, waits k) ∷ after;
              locks = l;
              left = left;
              answers = answers;
              world = w;
            })
            (record {
              threads = before ++ (r, inside k (chunk_task id r)) ∷ after;
              locks = l';
              left = left;
              answers = answers;
              world = w;
            })
    calls :
        (before after : List Thread) (left : List Request) (r : Request) (k : ℕ)
        (next : World → Task) (effect : World → World) (answers : List Response) (l : Locks)
        (w : World)
        → Turn
            (record {
              threads = before ++ (r, inside k (does next effect)) ∷ after;
              locks = l;
              left = left;
              answers = answers;
              world = w;
            })
            (record {
              threads = before ++ (r, inside k (next w)) ∷ after;
              locks = l;
              left = left;
              answers = answers;
              world = effect w;
            })
    leaves :
        (before after : List Thread) (left : List Request) (r : Request) (k : ℕ) (a : Response)
        (answers : List Response) (l : Locks) (w : World)
        → Turn
            (record {
              threads = before ++ (r, inside k (answered a)) ∷ after;
              locks = l;
              left = left;
              answers = answers;
              world = w;
            })
            (record {
              threads = before ++ after;
              locks = unlock k l;
              left = left ++ r ∷ [];
              answers = answers ++ a ∷ [];
              world = w;
            })

  -- Any number of turns.
  pub data Turns : System → System → Type 0 where
    none_yet : (s : System) → Turns s s
    one_more : (s t u : System) → Turns s t → Turn t u → Turns s u

-- All of the requests have just arrived, and no mutex is locked.
abbrev pub all_arrived : List Request → Assoc Bytes ℕ → ℕ → World → System
all_arrived rs table fresh w = record {
  threads = map (λ (r : Request). (r, arrives)) rs;
  locks = record { table = table; fresh = fresh; taken = [] };
  left = [];
  answers = [];
  world = w;
}

-- All requests have been answered, in this order.
abbrev pub all_left : List Request → List Response → Locks → World → System
all_left order answers l w = record {
  threads = [];
  locks = l;
  left = order;
  answers = answers;
  world = w;
}
