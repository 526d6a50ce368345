-- ===== src/Fakes/Rows.antt =====
-- The sessions of the fake against the rows of the table, in which no session is over.
use cache_22_server.Prelude.{
  ℕ, ◌+◌, ◌<◌, not, ◌∷◌, ◌≡◌, ap, sym, ◌∙◌, subst, Bytes, keep_if, ◌==◌, nat_eq, list_eq,
  list_beq_iff, arith, All,
}
use cache_22_server.Prelude.Assoc.{Assoc, lookup, lookup-insert, lookup-erase}
use cache_22_server.World.{World}
use cache_22_server.Db.Schema.{WellFormed}
use cache_22_server.Fakes
use cache_22_server.Fakes.Tokens.{
  unless, has_hash, is_of, owner_behind, IsLive, owner_behind_revoked, owner_behind_logged_out,
  DistinctKeys, lookup_logged_out, DistinctKeys-keep_if, DistinctKeys-insert, DistinctKeys-erase,
  All-IsLive-keep_if,
}

-- No two tokens in use have one hash.
abbrev pub Injective : (Bytes → Type 0) → (Bytes → Bytes) → Type 0
Injective IsToken sha256 = (s t : Bytes) → IsToken s → IsToken t → sha256 s ≡ sha256 t → s ≡ t

module _ (IsToken : Bytes → Type 0) (sha256 : Bytes → Bytes) where
  pub record StandsFor (w : World) (uids : Assoc Bytes ℕ) : Type 0 where
    pub same :
        (token : Bytes) → IsToken token → lookup token uids ≡ owner_behind (sha256 token) w.sessions
    pub apart : DistinctKeys uids
    pub live : All (IsLive w.now) w.sessions

  pub create-StandsFor :
      (w v : World) (uids : Assoc Bytes ℕ) (token : Bytes) (id ttl : ℕ)
      → Injective IsToken sha256
      → IsToken token
      → StandsFor w uids
      → 0 < ttl
      → v.now ≡ w.now
      → v.sessions
        ≡ record { token_hash = sha256 token; user_id = id; expires_at = w.now + ttl } ∷ w.sessions
      → StandsFor v (Fakes.Sessions.create token id ttl uids)
  unfolding Fakes.Sessions.create
  create-StandsFor w v uids token id ttl injective k s h now rows = record {
    same = λ t p. rw rows (
        ground (
          arith,
          s.same t p,
          lookup-insert token t id uids,
          list_beq_iff nat_eq token t,
          list_beq_iff nat_eq (sha256 token) (sha256 t),
          injective token t k p,
        ));
    apart = DistinctKeys-insert token id uids s.apart;
    live = subst (λ n. All (IsLive n) v.sessions) (sym now) (rw rows (omega arith, s.live));
  }

  pub revoke-StandsFor :
      (w v : World) (uids : Assoc Bytes ℕ) (token : Bytes)
      → Injective IsToken sha256
      → IsToken token
      → StandsFor w uids
      → v.now ≡ w.now
      → v.sessions ≡ keep_if (λ s. not (has_hash (sha256 token) s)) w.sessions
      → StandsFor v (Fakes.Sessions.revoke token uids)
  unfolding Fakes.Sessions.revoke
  revoke-StandsFor w v uids token injective k s now rows = record {
    same = λ t p. rw rows (
        ground (
          arith,
          s.same t p,
          lookup-erase token t uids,
          owner_behind_revoked (sha256 t) (sha256 token) w.sessions,
          list_beq_iff nat_eq token t,
          list_beq_iff nat_eq (sha256 token) (sha256 t),
          injective token t k p,
        ));
    apart = DistinctKeys-erase token uids s.apart;
    live =
        rw (rows, now)
          (All-IsLive-keep_if w.now (λ r. not (has_hash (sha256 token) r)) w.sessions s.live);
  }

  pub revoke_user-StandsFor :
      (w v : World) (uids : Assoc Bytes ℕ) (id : ℕ)
      → StandsFor w uids
      → WellFormed w
      → v.now ≡ w.now
      → v.sessions ≡ keep_if (λ s. not (is_of id s)) w.sessions
      → StandsFor v (Fakes.Sessions.revoke_user id uids)
  unfolding Fakes.Sessions.revoke_user
  revoke_user-StandsFor w v uids id s h now rows = record {
    same = λ t p. rw rows (
        lookup_logged_out t id uids s.apart
        ∙ ap (unless id) (s.same t p)
        ∙ sym (owner_behind_logged_out (sha256 t) id w.sessions h.tokens));
    apart = DistinctKeys-keep_if (λ (e : Bytes × ℕ). not (e.1 == id)) uids s.apart;
    live = rw (rows, now) (All-IsLive-keep_if w.now (λ r. not (is_of id r)) w.sessions s.live);
  }

  -- After a statement on the users only.
  pub same-StandsFor :
      (w v : World) (uids : Assoc Bytes ℕ)
      → StandsFor w uids
      → v.now ≡ w.now
      → v.sessions ≡ w.sessions
      → StandsFor v uids
  same-StandsFor w v uids s now rows = record {
    same = λ t p. rw rows (s.same t p);
    apart = s.apart;
    live = rw (rows, now) s.live;
  }
