-- ===== src/Fakes/Sessions.antt =====
-- FakeSessions of internal/testutil/fakes.go: the users of tokens, which do not expire.
use cache_22_server.Prelude.{ℕ, not, Option, [], Bytes, keep_if, ◌==◌, nat_eq, list_eq}
use cache_22_server.Prelude.Assoc.{Assoc, lookup, insert, erase}

-- NewFakeSessions
abbrev pub new : Assoc Bytes ℕ
new = []

-- Create; the time to live is not used.
unfoldable pub create : Bytes → ℕ → ℕ → Assoc Bytes ℕ → Assoc Bytes ℕ
create token user_id ttl uids = insert token user_id uids

-- UserID
unfoldable pub user_id : Bytes → Assoc Bytes ℕ → Option ℕ
user_id token uids = lookup token uids

-- Revoke
unfoldable pub revoke : Bytes → Assoc Bytes ℕ → Assoc Bytes ℕ
revoke token uids = erase token uids

-- RevokeUser
unfoldable pub revoke_user : ℕ → Assoc Bytes ℕ → Assoc Bytes ℕ
revoke_user user_id uids = keep_if (λ (e : Bytes × ℕ). not (e.1 == user_id)) uids
