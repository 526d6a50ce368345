-- ===== src/Igdb/Tokens.antt =====
-- tokenLocked and query of internal/infra/igdb/igdb.go: when a token is asked for.
use cache_22_server.Prelude.{
  true, false, ◌≡◌, ◌⊎◌, inl, inr, ap, ◌∙◌, ◌∷◌, Bytes, arith, Bool-cases,
}
use cache_22_server.Remote.{Reply, Outgoing, ask_token, query}
use cache_22_server.World.{World, Result, ok, Result-cases}
use cache_22_server.Igdb.{has_token, token_locked, run_query, send}

token_locked_cached : (w : World) → has_token w ≡ true → token_locked w ≡ (ok w.token, w)
unfolding token_locked
token_locked_cached w h = ground arith

token_locked_fresh :
    (w : World)
    → has_token w ≡ false
    → ((token_locked w).1.requests ≡ ask_token ∷ w.requests)
      × ((token : Bytes) → (token_locked w).0 ≡ ok token → (token_locked w).1.token ≡ token)
unfolding token_locked
token_locked_fresh w h = (ground arith, λ token e. ground arith)

run_query_with :
    (path body token : Bytes) (w : World)
    → (token_locked w).0 ≡ ok token
    → run_query path body w ≡ send (query token path body) (token_locked w).1
unfolding run_query
run_query_with path body token w e = ground arith

send_same :
    (out : Outgoing) (w : World)
    → ((send out w).1.token ≡ w.token) × ((send out w).1.requests ≡ out ∷ w.requests)
unfolding send
send_same out w = (ground arith, ground arith)

-- What is sent for one query: with a valid token only the query, which carries that token; without,
-- the request for a token first, and then the query with the new token or, where none was granted,
-- nothing more.
pub run_query-requests :
    (path body : Bytes) (w : World)
    → let w' = (run_query path body w).1 in
      ((has_token w ≡ true)
        × (w'.token ≡ w.token)
        × (w'.requests ≡ query w.token path body ∷ w.requests))
      ⊎ ((has_token w ≡ false) × (w'.requests ≡ ask_token ∷ w.requests))
      ⊎ ((has_token w ≡ false) × (w'.requests ≡ query w'.token path body ∷ ask_token ∷ w.requests))
unfolding run_query
run_query-requests path body w = elim (Bool-cases (has_token w)) [
  | inl t ↦
      let same = token_locked_cached w t in
      let sent =
        run_query_with path body w.token w (ap (λ (r : Result Bytes × World). r.0) same)
        ∙ ap (λ (r : Result Bytes × World). send (query w.token path body) r.1) same in
      let after = send_same (query w.token path body) w in
      inl (
        t,
        ap (λ (r : Result Reply × World). r.1.token) sent ∙ after.0,
        ap (λ (r : Result Reply × World). r.1.requests) sent ∙ after.1,
      )
  | inr f ↦
      let (asked, kept) = token_locked_fresh w f in
      elim (Result-cases (token_locked w).0) [
        | inl (c, e) ↦ inr (inl (f, cc))
        | inr (token, e) ↦ inr (inr (f, ground (arith, kept token e)))
      ]
]
