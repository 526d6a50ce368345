-- ===== src/Fakes/Tokens.antt =====
-- The map of FakeSessions in internal/testutil/fakes.go against the rows of the sessions.
use cache_22_server.Prelude.{
  ◌<◌, ◌≡◌, ℕ, Bool, false, not, Option, none, some, List, [], ◌∷◌, refl, Bytes, keep_if, find_if,
  exists_if, ◌==◌, nat_eq, list_eq, list_beq_iff, arith, All, if◌then◌else◌,
}
use cache_22_server.Prelude.Assoc.{Assoc, lookup, insert, erase, lookup-insert, lookup-erase}
use cache_22_server.World.{SessionRow}
use cache_22_server.Db.Sessions.{owner, is_live}
use cache_22_server.Db.Schema.{Distinct, same_token}

abbrev pub has_hash : Bytes → SessionRow → Bool
has_hash hash s = s.token_hash == hash

abbrev pub is_of : ℕ → SessionRow → Bool
is_of id s = s.user_id == id

-- The user behind a hash, whether the session is over or not.
abbrev pub owner_behind : Bytes → List SessionRow → Option ℕ
owner_behind hash rows = owner (find_if (has_hash hash) rows)

abbrev pub IsLive : ℕ → SessionRow → Type 0
IsLive now s = now < s.expires_at

pub find_live :
    (sha256 : Bytes → Bytes) (token : Bytes) (now : ℕ) (rows : List SessionRow)
    → All (IsLive now) rows
    → find_if (is_live sha256 token now) rows ≡ find_if (has_hash (sha256 token)) rows
find_live sha256 token now [] h = refl
find_live sha256 token now (s ∷ rows) (p, h) = ground (arith, find_live sha256 token now rows h)

pub owner_behind_revoked :
    (hash gone : Bytes) (rows : List SessionRow)
    → owner_behind hash (keep_if (λ s. not (has_hash gone s)) rows)
      ≡ (if gone == hash then none else owner_behind hash rows)
owner_behind_revoked hash gone [] = ground arith
owner_behind_revoked hash gone (s ∷ rows) = ground (
  arith,
  owner_behind_revoked hash gone rows,
  list_beq_iff nat_eq gone hash,
  list_beq_iff nat_eq s.token_hash hash,
  list_beq_iff nat_eq s.token_hash gone,
)

-- What is left of an owner when a user's sessions go.
abbrev pub unless : ℕ → Option ℕ → Option ℕ
unless id none = none
unless id (some j) = if j == id then none else some j

owner_behind_absent :
    (s : SessionRow) (rows : List SessionRow)
    → exists_if (same_token s) rows ≡ false
    → owner_behind s.token_hash rows ≡ none
owner_behind_absent s [] h = refl
owner_behind_absent s (t ∷ rows) h = ground (
  arith,
  owner_behind_absent s rows,
  list_beq_iff nat_eq s.token_hash t.token_hash,
  list_beq_iff nat_eq t.token_hash s.token_hash,
)

pub owner_behind_logged_out :
    (hash : Bytes) (id : ℕ) (rows : List SessionRow)
    → Distinct same_token rows
    → owner_behind hash (keep_if (λ s. not (is_of id s)) rows) ≡ unless id (owner_behind hash rows)
owner_behind_logged_out hash id [] d = refl
owner_behind_logged_out hash id (s ∷ rows) d = ground (
  arith,
  owner_behind_logged_out hash id rows d.1,
  owner_behind_absent s rows d.0,
  list_beq_iff nat_eq s.token_hash hash,
)

-- The keys of a map are apart.
abbrev pub DistinctKeys : Assoc Bytes ℕ → Type 0
DistinctKeys [] = Unit
DistinctKeys ((token, id) ∷ uids) = (lookup token uids ≡ none) × DistinctKeys uids

pub lookup_logged_out :
    (token : Bytes) (id : ℕ) (uids : Assoc Bytes ℕ)
    → DistinctKeys uids
    → lookup token (keep_if (λ (e : Bytes × ℕ). not (e.1 == id)) uids)
      ≡ unless id (lookup token uids)
unfolding lookup
lookup_logged_out token id [] d = refl
lookup_logged_out token id ((own, j) ∷ uids) d =
    ground (arith, lookup_logged_out token id uids d.1, d.0, list_beq_iff nat_eq own token)

lookup_kept :
    (token : Bytes) (p : Bytes × ℕ → Bool) (uids : Assoc Bytes ℕ)
    → lookup token uids ≡ none
    → lookup token (keep_if p uids) ≡ none
unfolding lookup
lookup_kept token p [] h = refl
lookup_kept token p ((own, j) ∷ uids) h = ground (arith, lookup_kept token p uids)

pub DistinctKeys-keep_if :
    (p : Bytes × ℕ → Bool) (uids : Assoc Bytes ℕ)
    → DistinctKeys uids
    → DistinctKeys (keep_if p uids)
DistinctKeys-keep_if p [] d = tt
DistinctKeys-keep_if p ((own, j) ∷ uids) d =
    ground (arith, DistinctKeys-keep_if p uids d.1, lookup_kept own p uids d.0)

pub DistinctKeys-insert :
    (token : Bytes) (id : ℕ) (uids : Assoc Bytes ℕ)
    → DistinctKeys uids
    → DistinctKeys (insert token id uids)
unfolding insert lookup
DistinctKeys-insert token id [] d = (refl, tt)
DistinctKeys-insert token id ((own, j) ∷ uids) d = ground (
  arith,
  DistinctKeys-insert token id uids d.1,
  lookup-insert token own id uids,
  d.0,
  list_beq_iff nat_eq own token,
  list_beq_iff nat_eq token own,
)

pub DistinctKeys-erase :
    (token : Bytes) (uids : Assoc Bytes ℕ) → DistinctKeys uids → DistinctKeys (erase token uids)
unfolding erase
DistinctKeys-erase token [] d = tt
DistinctKeys-erase token ((own, j) ∷ uids) d =
    ground (arith, DistinctKeys-erase token uids d.1, lookup-erase token own uids, d.0)

pub All-IsLive-keep_if :
    (now : ℕ) (p : SessionRow → Bool) (rows : List SessionRow)
    → All (IsLive now) rows
    → All (IsLive now) (keep_if p rows)
All-IsLive-keep_if now p [] h = tt
All-IsLive-keep_if now p (s ∷ rows) (q, h) = ground (arith, All-IsLive-keep_if now p rows h)

pub keep_if_none :
    (id : ℕ) (rows : List SessionRow)
    → exists_if (is_of id) rows ≡ false
    → keep_if (λ s. not (is_of id s)) rows ≡ rows
keep_if_none id [] h = refl
keep_if_none id (s ∷ rows) h = ground (arith, keep_if_none id rows)
