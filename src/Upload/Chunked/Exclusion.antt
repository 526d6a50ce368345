-- ===== src/Upload/Chunked/Exclusion.antt =====
-- The mutex of a session keeps its chunk requests apart: uploadLock of
-- internal/handler/http/handler.go around uploadChunk.
use mathlib.Core.List.{Perm, Permᴰ}
use mathlib.Core.List.Permᴰ
use cache_22_server.Prelude.{
  ℕ, List, [], ◌∷◌, ◌++◌, ◌≡◌, inl, inr, refl, sym, ap, subst, map, Bytes, append_assoc, append-nil,
  All,
}
use cache_22_server.Prelude.Assoc.{Assoc}
use cache_22_server.World.{World}
use cache_22_server.Http.{Response}
use cache_22_server.Upload.Chunked.Tasks.{answered, does, Request, chunk_task}
use cache_22_server.Upload.Chunked.Locks.{Locks, get_lock}
use cache_22_server.Upload.Chunked.Interleaved.{
  Stage, arrives, waits, inside, Thread, System, Turn, looks_up, enters, calls, leaves, Turns,
  none_yet, one_more, in_order, all_arrived, all_left,
}
use cache_22_server.Upload.Chunked.Holder.{Outside, Apart}
use cache_22_server.Upload.Chunked.Moves.{Turn-Apart}

module _ (id : Bytes) where
  -- No request is lost or doubled.
  abbrev requests_of : List Thread → List Request
  requests_of = map (λ (th : Thread). th.0)

  abbrev all_of : System → List Request
  all_of s = s.left ++ requests_of s.threads

  moved :
      (before after : List Thread) (r : Request) (a b : Stage)
      → requests_of (before ++ (r, a) ∷ after) ≡ requests_of (before ++ (r, b) ∷ after)
  moved [] after r a b = refl
  moved (th ∷ before) after r a b = ap (λ rs. th.0 ∷ rs) (moved before after r a b)

  taken_out :
      (before after : List Thread) (r : Request) (a : Stage)
      → Permᴰ (requests_of (before ++ (r, a) ∷ after)) (r ∷ requests_of (before ++ after))
  taken_out [] after r a = Permᴰ.refl (r ∷ requests_of after)
  taken_out (th ∷ before) after r a =
      Permᴰ.trans (Permᴰ.cons refl (taken_out before after r a)) (Permᴰ.swap refl refl)

  moved-Permᴰ :
      (left : List Request) (before after : List Thread) (r : Request) (a b : Stage)
      → Permᴰ
          (left ++ requests_of (before ++ (r, a) ∷ after))
          (left ++ requests_of (before ++ (r, b) ∷ after))
  moved-Permᴰ left before after r a b =
      subst (λ rs. Permᴰ (left ++ requests_of (before ++ (r, a) ∷ after)) (left ++ rs))
        (moved before after r a b) (Permᴰ.refl (left ++ requests_of (before ++ (r, a) ∷ after)))

  Turn-Permᴰ : (s t : System) → Turn id s t → Permᴰ (all_of s) (all_of t)
  Turn-Permᴰ s t (looks_up before after left r answers l w) =
      moved-Permᴰ left before after r arrives (waits (get_lock id l).0)
  Turn-Permᴰ s t (enters before after left r k answers l m w e) =
      moved-Permᴰ left before after r (waits k) (inside k (chunk_task id r))
  Turn-Permᴰ s t (calls before after left r k next effect answers l w) =
      moved-Permᴰ left before after r (inside k (does next effect)) (inside k (next w))
  Turn-Permᴰ s t (leaves before after left r k a answers l w) =
      subst (Permᴰ (left ++ requests_of (before ++ (r, inside k (answered a)) ∷ after)))
        (sym (append_assoc left (r ∷ []) (requests_of (before ++ after))))
        (Permᴰ.append_left left (taken_out before after r (inside k (answered a))))

  pub Turns-Apart :
      (start : World) (s t : System)
      → Turns id s t
      → Apart id start s
      → Apart id start t × Permᴰ (all_of s) (all_of t)
  Turns-Apart start s t (none_yet u) h = (h, Permᴰ.refl (all_of u))
  Turns-Apart start s t (one_more first u last turns turn) h =
      let (k, p) = Turns-Apart start first u turns h in
      (Turn-Apart id start u last turn k, Permᴰ.trans p (Turn-Permᴰ u last turn))

  pub all_arrived-Apart :
      (rs : List Request) (table : Assoc Bytes ℕ) (fresh : ℕ) (start : World)
      → Apart id start (all_arrived rs table fresh start)
  unfolding in_order
  all_arrived-Apart rs table fresh start = inl (outside rs, refl, refl)
    where
      l : Locks
      l = record { table = table; fresh = fresh; taken = [] }

      outside : (qs : List Request) → All (Outside id l) (map (λ (r : Request). (r, arrives)) qs)
      outside [] = tt
      outside (q ∷ qs) = (tt, outside qs)

  back_again : (rs : List Request) → requests_of (map (λ (r : Request). (r, arrives)) rs) ≡ rs
  back_again [] = refl
  back_again (r ∷ rs) = ap (λ qs. r ∷ qs) (back_again rs)

  pub turns_lem :
      (rs order : List Request) (answers : List Response) (table : Assoc Bytes ℕ) (fresh : ℕ)
      (l : Locks) (start w : World)
      → Turns id (all_arrived rs table fresh start) (all_left order answers l w)
      → Permᴰ rs order × (in_order id order start ≡ (answers, w))
  turns_lem rs order answers table fresh l start w turns =
      let (apart, perm) =
        Turns-Apart start (all_arrived rs table fresh start) (all_left order answers l w) turns
          (all_arrived-Apart rs table fresh start) in
      elim apart [
        | inl (h, free, same) ↦ (
          subst (λ qs. Permᴰ qs order) (back_again rs)
              (subst (Permᴰ (requests_of (map (λ (r : Request). (r, arrives)) rs)))
                (append-nil order) perm),
          same,
        )
        | inr (q, k, t, u, none_inside, mine, held, same, run) ↦ absurd none_inside
      ]

  -- Chunk requests of one session that come at the same time, with no other request meanwhile, each of
  -- which asks uploadLock for the mutex of the session, locks it, makes its calls and unlocks it: if no
  -- mutex is locked at first, then in whatever way their calls take turns, and whatever fails, once all
  -- have been answered the answers and the world are those of the same requests, each of them whole,
  -- one after the other in the order in which they left.
  pub Turns-in_order :
      (rs order : List Request) (answers : List Response) (table : Assoc Bytes ℕ) (fresh : ℕ)
      (l : Locks) (start w : World)
      → Turns id (all_arrived rs table fresh start) (all_left order answers l w)
      → Perm rs order × (in_order id order start ≡ (answers, w))
  Turns-in_order rs order answers table fresh l start w turns =
      let (perm, same) = turns_lem rs order answers table fresh l start w turns in (∣ perm ∣₁, same)
