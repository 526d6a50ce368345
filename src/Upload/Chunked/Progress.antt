-- ===== src/Upload/Chunked/Progress.antt =====
-- The mutex of a session lets its chunk requests go on: uploadLock of
-- internal/handler/http/handler.go around uploadChunk.
use cache_22_server.Prelude.{
  ℕ, List, [], ◌∷◌, ◌++◌, some, ◌≡◌, ◌⊎◌, inl, inr, refl, sym, ap, subst, ◌∙◌, Bytes, arith, nat_eq,
  list_eq,
}
use cache_22_server.Prelude.Assoc.{Assoc}
use cache_22_server.World.{World}
use cache_22_server.Upload.Chunked.Tasks.{Task, answered, does, Request, chunk_task}
use cache_22_server.Upload.Chunked.Locks.{Locks, get_lock, try_lock, unlock}
use cache_22_server.Upload.Chunked.Lists.{One}
use cache_22_server.Upload.Chunked.Interleaved.{
  arrives, waits, inside, Thread, System, Turn, looks_up, enters, calls, leaves, Turns, all_arrived,
}
use cache_22_server.Upload.Chunked.Holder.{Outside, InsideAs, Apart}
use cache_22_server.Upload.Chunked.Exclusion.{Turns-Apart, all_arrived-Apart}

module _ (id : Bytes) where
  abbrev at_threads : System → List Thread → System
  at_threads s ths = record s { threads = ths }

  abbrev HasTurn : System → Type 0
  HasTurn s = (t : System) × Turn id s t

  inside-HasTurn :
      (s : System) (before after : List Thread) (r : Request) (k : ℕ) (t : Task)
      → HasTurn (at_threads s (before ++ (r, inside k t) ∷ after))
  inside-HasTurn s before after r k (answered a) = (
    record {
      threads = before ++ after;
      locks = unlock k s.locks;
      left = s.left ++ r ∷ [];
      answers = s.answers ++ a ∷ [];
      world = s.world;
    },
    leaves before after s.left r k a s.answers s.locks s.world,
  )
  inside-HasTurn s before after r k (does next effect) = (
    record {
      threads = before ++ (r, inside k (next s.world)) ∷ after;
      locks = s.locks;
      left = s.left;
      answers = s.answers;
      world = effect s.world;
    },
    calls before after s.left r k next effect s.answers s.locks s.world,
  )

  try_lock_free :
      (k : ℕ) (l : Locks) → l.taken ≡ [] → try_lock k l ≡ some (record l { taken = k ∷ l.taken })
  unfolding try_lock
  try_lock_free k l e = ground (arith, e)

  Outside-HasTurn :
      (s : System) (th : Thread) (after : List Thread)
      → Outside id s.locks th
      → s.locks.taken ≡ []
      → HasTurn (at_threads s (th ∷ after))
  Outside-HasTurn s (r, arrives) after h free = (
    record {
      threads = (r, waits (get_lock id s.locks).0) ∷ after;
      locks = (get_lock id s.locks).1;
      left = s.left;
      answers = s.answers;
      world = s.world;
    },
    looks_up [] after s.left r s.answers s.locks s.world,
  )
  Outside-HasTurn s (r, waits k) after h free =
      let l = record s.locks { taken = k ∷ s.locks.taken } in
      (
        record {
          threads = (r, inside k (chunk_task id r)) ∷ after;
          locks = l;
          left = s.left;
          answers = s.answers;
          world = s.world;
        },
        enters [] after s.left r k s.answers s.locks l s.world (try_lock_free k s.locks free),
      )
  Outside-HasTurn s (r, inside k t) after h free = absurd h

  -- Where the one stands.
  place_of :
      (P Q : Thread → Type 0) (ths : List Thread)
      → One P Q ths
      → (before : List Thread) × (th : Thread) × (after : List Thread) × (before ++ th ∷ after
          ≡ ths)
        × Q th
  place_of P Q [] h = absurd h
  place_of P Q (th ∷ ths) (inl (q, rest)) = ([], th, ths, refl, q)
  place_of P Q (th ∷ ths) (inr (p, rest)) =
      let (before, one, after, same, q) = place_of P Q ths rest in
      (th ∷ before, one, after, ap (λ us. th ∷ us) same, q)

  Apart-HasTurn :
      (start : World) (ths : List Thread) (s : System)
      → Apart id start (at_threads s ths)
      → (ths ≡ []) ⊎ HasTurn (at_threads s ths)
  Apart-HasTurn start [] s h = inl refl
  Apart-HasTurn start (th ∷ ths) s (inl ((h, rest), free, same)) =
      inr (Outside-HasTurn s th ths h free)
  Apart-HasTurn start (th ∷ ths) s (inr (q, k, t, u, one, mine, held, same, run)) =
      let (before, (r, stage), after, place, (e, f)) =
        place_of (Outside id s.locks) (InsideAs q k t) (th ∷ ths) one in
      inr (
        subst (λ us. HasTurn (at_threads s us)) (ap (λ g. before ++ (r, g) ∷ after) (sym f) ∙ place)
          (inside-HasTurn s before after r k t))

  -- From a state in which no mutex is locked and all requests of the session have just arrived, the
  -- calls of the requests never come to a state in which a request has no answer and none of the
  -- requests can make its next call.
  pub Turns-HasTurn :
      (rs : List Request) (table : Assoc Bytes ℕ) (fresh : ℕ) (start : World) (s : System)
      → Turns id (all_arrived rs table fresh start) s
      → (s.threads ≡ []) ⊎ HasTurn s
  Turns-HasTurn rs table fresh start s turns =
      Apart-HasTurn start s.threads s
        (Turns-Apart id start (all_arrived rs table fresh start) s turns
          (all_arrived-Apart id rs table fresh start)).0
