-- ===== src/Upload/Chunked/Holder.antt =====
-- A request that has locked the mutex of a session keeps the others out: the invariant of the turns.
use cache_22_server.Prelude.{
  ℕ, false, List, [], ◌∷◌, ◌++◌, some, ◌≡◌, ◌⊎◌, inl, inr, refl, ap, ◌∙◌, Bytes, arith, All,
  list_eq, nat_eq, nat_beq, beq_refl, exists_if, Option-cases,
}
use cache_22_server.Prelude.Assoc.{lookup, lookup-insert}
use cache_22_server.World.{World}
use cache_22_server.Http.{Response}
use cache_22_server.Upload.Chunked.{locked_chunk}
use cache_22_server.Upload.Chunked.Tasks.{Task, run_task, Request}
use cache_22_server.Upload.Chunked.Locks.{Locks, get_lock, try_lock, unlock}
use cache_22_server.Upload.Chunked.Lists.{One}
use cache_22_server.Upload.Chunked.Interleaved.{
  Stage, arrives, waits, inside, Thread, System, in_order,
}

-- The request that has it.
abbrev pub InsideAs : Request → ℕ → Task → Thread → Type 0
InsideAs r k t th = (th.0 ≡ r) × (th.1 ≡ inside k t)

module _ (id : Bytes) where
  -- A request that has not locked the mutex; if it waits, then for that of the session.
  abbrev StageOutside : Locks → Stage → Type 0
  StageOutside l arrives = Unit
  StageOutside l (waits k) = lookup id l.table ≡ some k
  StageOutside l (inside k t) = ⊥

  abbrev pub Outside : Locks → Thread → Type 0
  Outside l th = StageOutside l th.1

  -- Nobody has locked the mutex: the world is that of the requests that have left, in their order.
  abbrev pub Idle : World → System → Type 0
  Idle start s =
      All (Outside s.locks) s.threads
      × (s.locks.taken ≡ [])
      × (in_order id s.left start ≡ (s.answers, s.world))

  -- One request has, and will do to the world what its handler does.
  abbrev pub Busy : World → System → Type 0
  Busy start s =
      (r : Request) × (k : ℕ) × (t : Task) × (u : World) × One (Outside s.locks) (InsideAs r k t)
        s.threads
      × (lookup id s.locks.table ≡ some k)
      × (s.locks.taken ≡ k ∷ [])
      × (in_order id s.left start ≡ (s.answers, u))
      × (run_task t s.world ≡ locked_chunk id r.offset r.body u)

  abbrev pub Apart : World → System → Type 0
  Apart start s = Idle start s ⊎ Busy start s

  -- What one more request does to the answers and the world.
  abbrev pub add : Request → List Response × World → List Response × World
  add r (bs, w) = let (a, v) = locked_chunk id r.offset r.body w in (bs ++ a ∷ [], v)

  pub in_order-append :
      (rs : List Request) (r : Request) (w : World)
      → in_order id (rs ++ r ∷ []) w ≡ add r (in_order id rs w)
  unfolding in_order
  in_order-append [] r w = refl
  in_order-append (q ∷ rs) r w =
      let (a, w1) = locked_chunk id q.offset q.body w in
      ap (λ (p : List Response × World). (a ∷ p.0, p.1)) (in_order-append rs r w1)

  pub get_lock_lem :
      (l : Locks)
      → (lookup id (get_lock id l).1.table ≡ some (get_lock id l).0)
        × ((get_lock id l).1.taken ≡ l.taken)
        × ((k : ℕ) → lookup id l.table ≡ some k → lookup id (get_lock id l).1.table ≡ some k)
  unfolding get_lock
  get_lock_lem l = elim (Option-cases (lookup id l.table)) [
    | inl e ↦ rw e (
      ground (arith, lookup-insert id id l.fresh l.table, beq_refl id),
      refl,
      λ k f. absurd (ground (arith, e, f)),
    )
    | inr (j, e) ↦ rw e (e, refl, λ k f. e ∙ f)
  ]

  pub Outside-get_lock : (l : Locks) (th : Thread) → Outside l th → Outside (get_lock id l).1 th
  Outside-get_lock l (r, arrives) h = tt
  Outside-get_lock l (r, waits k) h = (get_lock_lem l).2 k h
  Outside-get_lock l (r, inside k t) h = h

  -- What Lock leaves alone.
  pub Outside-table : (l m : Locks) (th : Thread) → m.table ≡ l.table → Outside l th → Outside m th
  Outside-table l m (r, arrives) e h = tt
  Outside-table l m (r, waits k) e h = ap (lookup id) e ∙ h
  Outside-table l m (r, inside k t) e h = h

  pub try_lock_lem :
      (k : ℕ) (l m : Locks)
      → try_lock k l ≡ some m
      → (m.table ≡ l.table) × (m.taken ≡ k ∷ l.taken) × (exists_if (nat_beq k) l.taken ≡ false)
  unfolding try_lock
  try_lock_lem k l m e = ground arith

  pub unlock_lem :
      (j k : ℕ) (l : Locks)
      → j ≡ k
      → l.taken ≡ k ∷ []
      → ((unlock j l).table ≡ l.table) × ((unlock j l).taken ≡ [])
  unfolding unlock
  unlock_lem j k l e h = ground arith
