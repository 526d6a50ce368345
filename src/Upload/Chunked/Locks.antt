-- ===== src/Upload/Chunked/Locks.antt =====
-- The mutexes of internal/handler/http/handler.go: uploadLock finds or makes the one of a session and
-- then locks it. A mutex is a number; sync.Mutex is its place in the list of those that are locked.
use cache_22_server.Prelude.{
  ℕ, suc, true, false, not, Option, none, some, List, ◌∷◌, Bytes, exists_if, keep_if, nat_beq,
  list_eq, nat_eq,
}
use cache_22_server.Prelude.Assoc.{Assoc, lookup, insert}

-- `uploadLocks`, the mutex that is made next, and those that are locked.
pub record Locks : Type 0 where
  pub table : Assoc Bytes ℕ
  pub fresh : ℕ
  pub taken : List ℕ

abbrev pub locks_for : Option ℕ → Bytes → Locks → ℕ × Locks
locks_for (some k) id l = (k, l)
locks_for none id l = (l.fresh, record l { table = insert id l.fresh l.table; fresh = suc l.fresh })

-- `l, ok := h.uploadLocks[id]` and, if it is not there, a new mutex, under `uploadMu`
unfoldable pub get_lock : Bytes → Locks → ℕ × Locks
get_lock id l = locks_for (lookup id l.table) id l

-- l.Lock(): `none` while it is locked, where the caller goes on waiting
unfoldable pub try_lock : ℕ → Locks → Option Locks
try_lock k l = elim (exists_if (nat_beq k) l.taken) [
  | true ↦ none
  | false ↦ some (record l { taken = k ∷ l.taken })
]

-- l.Unlock()
unfoldable pub unlock : ℕ → Locks → Locks
unlock k l = record l { taken = keep_if (λ j. not (nat_beq k j)) l.taken }
