-- ===== src/Upload/Chunked/Moves.antt =====
-- Each turn of a chunk request keeps the invariant of the mutex.
use cache_22_server.Prelude.{
  ℕ, List, [], ◌∷◌, ◌++◌, some, ◌≡◌, inl, inr, refl, sym, ap, ◌∙◌, Bytes, arith, nat_eq, list_eq,
}
use cache_22_server.Prelude.Assoc.{lookup}
use cache_22_server.World.{World}
use cache_22_server.Http.{Response}
use cache_22_server.Upload.Chunked.{locked_chunk}
use cache_22_server.Upload.Chunked.Tasks.{
  Task, answered, does, run_task, Request, chunk_task, run_task-chunk_task,
}
use cache_22_server.Upload.Chunked.Locks.{Locks, get_lock, try_lock, unlock}
use cache_22_server.Upload.Chunked.Lists.{
  All-split, All-join, All-weaken, One-weaken, One-split, One-here, One-there,
}
use cache_22_server.Upload.Chunked.Interleaved.{
  arrives, waits, inside, Thread, System, Turn, looks_up, enters, calls, leaves,
}
use cache_22_server.Upload.Chunked.Holder.{
  Outside, InsideAs, Apart, add, in_order-append, get_lock_lem, Outside-get_lock, Outside-table,
  try_lock_lem, unlock_lem,
}

module _ (id : Bytes) where
  looks_up-Apart :
      (start : World) (before after : List Thread) (left : List Request) (r : Request)
      (answers : List Response) (l : Locks) (w : World)
      → Apart id start (record {
        threads = before ++ (r, arrives) ∷ after;
        locks = l;
        left = left;
        answers = answers;
        world = w;
      })
      → Apart id start (record {
        threads = before ++ (r, waits (get_lock id l).0) ∷ after;
        locks = (get_lock id l).1;
        left = left;
        answers = answers;
        world = w;
      })
  looks_up-Apart start before after left r answers l w (inl (h, free, same)) =
      let m = (get_lock id l).1 in
      let (own, taken, kept) = get_lock_lem id l in
      let rest = (All-split (Outside id l) before (r, arrives) after h).1 in
      inl (
        All-join (Outside id m) before (r, waits (get_lock id l).0) after own
            (All-weaken (Outside id l) (Outside id m) (before ++ after) (Outside-get_lock id l)
              rest),
        taken ∙ free,
        same,
      )
  looks_up-Apart start before after left r answers l w
        (inr (q, k, t, u, one, mine, held, same, run)) =
      let m = (get_lock id l).1 in
      let (own, taken, kept) = get_lock_lem id l in
      elim (One-split (Outside id l) (InsideAs q k t) before (r, arrives) after one) [
        | inl ((e, f), h) ↦ absurd (cc)
        | inr (p, rest) ↦ inr (
          q,
          k,
          t,
          u,
          One-there (Outside id m) (InsideAs q k t) before (r, waits (get_lock id l).0) after own
              (One-weaken (Outside id l) (InsideAs q k t) (Outside id m) (before ++ after)
                (Outside-get_lock id l) rest),
          kept k mine,
          taken ∙ held,
          same,
          run,
        )
      ]

  enters-Apart :
      (start : World) (before after : List Thread) (left : List Request) (r : Request) (j : ℕ)
      (answers : List Response) (l m : Locks) (w : World)
      → try_lock j l ≡ some m
      → Apart id start (record {
        threads = before ++ (r, waits j) ∷ after;
        locks = l;
        left = left;
        answers = answers;
        world = w;
      })
      → Apart id start (record {
        threads = before ++ (r, inside j (chunk_task id r)) ∷ after;
        locks = m;
        left = left;
        answers = answers;
        world = w;
      })
  enters-Apart start before after left r j answers l m w e (inl (h, free, same)) =
      let (table, taken, untaken) = try_lock_lem id j l m e in
      let (own, rest) = All-split (Outside id l) before (r, waits j) after h in
      inr (
        r,
        j,
        chunk_task id r,
        w,
        One-here (Outside id m) (InsideAs r j (chunk_task id r)) before
            (r, inside j (chunk_task id r)) after (refl, refl)
            (All-weaken (Outside id l) (Outside id m) (before ++ after)
              (λ th. Outside-table id l m th table) rest),
        ap (lookup id) table ∙ own,
        taken ∙ ap (λ ks. j ∷ ks) free,
        same,
        run_task-chunk_task id r w,
      )
  enters-Apart start before after left r j answers l m w e
        (inr (q, k, t, u, one, mine, held, same, run)) =
      let (table, taken, untaken) = try_lock_lem id j l m e in
      elim (One-split (Outside id l) (InsideAs q k t) before (r, waits j) after one) [
        | inl ((f, g), h) ↦ absurd (cc)
        | inr (own, rest) ↦ absurd (ground (arith, own, mine, held, untaken))
      ]

  calls-Apart :
      (start : World) (before after : List Thread) (left : List Request) (r : Request) (j : ℕ)
      (next : World → Task) (effect : World → World) (answers : List Response) (l : Locks)
      (w : World)
      → Apart id start (record {
        threads = before ++ (r, inside j (does next effect)) ∷ after;
        locks = l;
        left = left;
        answers = answers;
        world = w;
      })
      → Apart id start (record {
        threads = before ++ (r, inside j (next w)) ∷ after;
        locks = l;
        left = left;
        answers = answers;
        world = effect w;
      })
  unfolding run_task
  calls-Apart start before after left r j next effect answers l w (inl (h, free, same)) =
      absurd ((All-split (Outside id l) before (r, inside j (does next effect)) after h).0)
  calls-Apart start before after left r j next effect answers l w
        (inr (q, k, t, u, one, mine, held, same, run)) =
      elim (One-split (Outside id l) (InsideAs q k t) before (r, inside j (does next effect)) after
        one) [
          | inl ((f, g), rest) ↦
              let jk : j ≡ k = cc in
              let left_of : does next effect ≡ t = cc in
              inr (
                r,
                j,
                next w,
                u,
                One-here (Outside id l) (InsideAs r j (next w)) before (r, inside j (next w)) after
                    (refl, refl) rest,
                mine ∙ ap some (sym jk),
                held ∙ ap (λ i. i ∷ []) (sym jk),
                same,
                ap (λ v. run_task v w) left_of
                    ∙ run
                    ∙ ap (λ (v : Request). locked_chunk id v.offset v.body u) (sym f),
              )
          | inr (p, rest) ↦ absurd p
        ]

  leaves-Apart :
      (start : World) (before after : List Thread) (left : List Request) (r : Request) (j : ℕ)
      (a : Response) (answers : List Response) (l : Locks) (w : World)
      → Apart id start (record {
        threads = before ++ (r, inside j (answered a)) ∷ after;
        locks = l;
        left = left;
        answers = answers;
        world = w;
      })
      → Apart id start (record {
        threads = before ++ after;
        locks = unlock j l;
        left = left ++ r ∷ [];
        answers = answers ++ a ∷ [];
        world = w;
      })
  unfolding run_task
  leaves-Apart start before after left r j a answers l w (inl (h, free, same)) =
      absurd ((All-split (Outside id l) before (r, inside j (answered a)) after h).0)
  leaves-Apart start before after left r j a answers l w
        (inr (q, k, t, u, one, mine, held, same, run)) =
      elim (One-split (Outside id l) (InsideAs q k t) before (r, inside j (answered a)) after one) [
        | inl ((f, g), rest) ↦
            let jk : j ≡ k = cc in
            let left_of : answered a ≡ t = cc in
            let (table, free) = unlock_lem id j k l jk held in
            let done : (a, w) ≡ locked_chunk id r.offset r.body u =
              ap (λ v. run_task v w) left_of
              ∙ run
              ∙ ap (λ (v : Request). locked_chunk id v.offset v.body u) (sym f) in
            inl (
              All-weaken (Outside id l) (Outside id (unlock j l)) (before ++ after)
                  (λ th. Outside-table id l (unlock j l) th table) rest,
              free,
              in_order-append id left r start
                  ∙ ap (add id r) same
                  ∙ ap (λ (p : Response × World). (answers ++ p.0 ∷ [], p.1)) (sym done),
            )
        | inr (p, rest) ↦ absurd p
      ]

  pub Turn-Apart :
      (start : World) (s t : System) → Turn id s t → Apart id start s → Apart id start t
  Turn-Apart start s t (looks_up before after left r answers l w) h =
      looks_up-Apart start before after left r answers l w h
  Turn-Apart start s t (enters before after left r k answers l m w e) h =
      enters-Apart start before after left r k answers l m w e h
  Turn-Apart start s t (calls before after left r k next effect answers l w) h =
      calls-Apart start before after left r k next effect answers l w h
  Turn-Apart start s t (leaves before after left r k a answers l w) h =
      leaves-Apart start before after left r k a answers l w h
