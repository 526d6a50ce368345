-- ===== src/Db/Schema/Writes.antt =====
-- What the statements of the repositories write keeps the constraints.
use cache_22_server.Prelude.{
  ℕ, suc, Bool, false, not, [], ◌∷◌, ◌++◌, ◌≡◌, refl, sym, subst, Bytes, exists_if, keep_if, ◌==◌,
  nat_eq, list_eq, arith, Bool-cases, inl, inr, exists_if-append,
}
use cache_22_server.Entity.{User, Game, Cover, Save}
use cache_22_server.World.{World, SessionRow, Action, Result, Result-cases, attempt, ◌>>◌}
use cache_22_server.Apart.{bind_error, bind_value}
use cache_22_server.Auth.Tables.{Ordered-append, Ordered-keep_if, Ordered-mono, has_id, has_name}
use cache_22_server.Accounts.Order.{Ordered-update}
use cache_22_server.Db.Users.{update_user, normal_name, without_user}
use cache_22_server.Db.Saves.{is_save}
use cache_22_server.Db
use cache_22_server.Db.Schema.{WellFormed, IsUser, session_owner, card_owner, same_token, same_card}
use cache_22_server.Db.Schema.Keys.{
  Distinct-keep_if, Distinct-put_game, Distinct-put_cover, Distinct-put_save,
}
use cache_22_server.Db.Schema.Users.{
  DistinctNames-keep_if, DistinctNames-append, DistinctNames-update_user, exists_id-update_user,
  Owned-mono, Owned-keep_if, Owned-cascade, Owned-put_save,
}

-- The constraints read the rows and the next id only.
abbrev SameRows : World → World → Type 0
SameRows w v =
    (v.users ≡ w.users)
    × (v.next_id ≡ w.next_id)
    × (v.sessions ≡ w.sessions)
    × (v.games ≡ w.games)
    × (v.covers ≡ w.covers)
    × (v.saves ≡ w.saves)

WellFormed-same : (w v : World) → SameRows w v → WellFormed w → WellFormed v
WellFormed-same w v (users, next_id, sessions, games, covers, saves) h = record {
  ids = ground (arith, h.ids, users, next_id);
  names = ground (arith, h.names, users);
  tokens = ground (arith, h.tokens, sessions);
  owners = ground (arith, h.owners, users, sessions);
  games = ground (arith, h.games, games);
  covers = ground (arith, h.covers, covers);
  cards = ground (arith, h.cards, saves);
  card_owners = ground (arith, h.card_owners, saves, users);
}

-- A statement that fails before it writes.
pub attempt-WellFormed : (w : World) → WellFormed w → WellFormed (attempt w).1
unfolding attempt
attempt-WellFormed w = WellFormed-same w (attempt w).1 (refl, refl, refl, refl, refl, refl)

pub delete-WellFormed : (id : ℕ) (w : World) → WellFormed w → WellFormed (without_user id w)
delete-WellFormed id w h = record {
  ids = Ordered-keep_if (λ (u : User). not (u.id == id)) 0 w.next_id w.users h.ids;
  names = DistinctNames-keep_if (λ (u : User). not (u.id == id)) w.users h.names;
  tokens =
      Distinct-keep_if same_token (λ (s : SessionRow). not (s.user_id == id)) w.sessions h.tokens;
  owners = Owned-cascade session_owner id w.users w.sessions h.owners;
  games = h.games;
  covers = h.covers;
  cards = Distinct-keep_if same_card (λ (s : Save). not (s.user_id == id)) w.saves h.cards;
  card_owners = Owned-cascade card_owner id w.users w.saves h.card_owners;
}

pub update-WellFormed :
    (id : ℕ) (f : User → User) (w : World)
    → ((u : User) → (f u).id ≡ u.id)
    → ((u : User) → (f u).username ≡ u.username)
    → WellFormed w
    → WellFormed (record w { users = update_user id f w.users })
update-WellFormed id f w same_id same_name h =
    let us = update_user id f w.users in
    let there : (j : ℕ) → IsUser w.users j → IsUser us j =
      λ j u. ground (arith, exists_id-update_user id f same_id j w.users) in
    record {
      ids = Ordered-update id 0 w.next_id f w.users same_id h.ids;
      names = DistinctNames-update_user id f same_id same_name w.users h.names;
      tokens = h.tokens;
      owners = Owned-mono session_owner w.users us w.sessions there h.owners;
      games = h.games;
      covers = h.covers;
      cards = h.cards;
      card_owners = Owned-mono card_owner w.users us w.saves there h.card_owners;
    }

-- a new account under the next id and a free name
insert-WellFormed :
    (u : User) (w : World)
    → u.id ≡ w.next_id
    → exists_if (λ (v : User). v.username == u.username) w.users ≡ false
    → WellFormed w
    → WellFormed (record w { users = w.users ++ u ∷ []; next_id = suc w.next_id })
insert-WellFormed u w own free h =
    let us = w.users ++ u ∷ [] in
    let there : (j : ℕ) → IsUser w.users j → IsUser us j =
      λ j k. ground (arith, exists_if-append (has_id j) w.users (u ∷ [])) in
    record {
      ids = Ordered-append 0 w.next_id w.users u h.ids own;
      names = DistinctNames-append w.users u h.names free;
      tokens = h.tokens;
      owners = Owned-mono session_owner w.users us w.sessions there h.owners;
      games = h.games;
      covers = h.covers;
      cards = h.cards;
      card_owners = Owned-mono card_owner w.users us w.saves there h.card_owners;
    }

skip_id-WellFormed : (w : World) → WellFormed w → WellFormed (record w { next_id = suc w.next_id })
skip_id-WellFormed w h = record {
  ids = Ordered-mono 0 0 w.next_id (suc w.next_id) w.users (omega arith) (omega arith) h.ids;
  names = h.names;
  tokens = h.tokens;
  owners = h.owners;
  games = h.games;
  covers = h.covers;
  cards = h.cards;
  card_owners = h.card_owners;
}

-- What comes behind the call itself.
pub then-WellFormed :
    {A : Type 0} (m : Action A) (w : World)
    → ((v : World) → WellFormed v → WellFormed (m v).1)
    → WellFormed w
    → WellFormed ((attempt >> m) w).1
then-WellFormed {A} m w keeps h =
    let v = (attempt w).1 in
    let k = attempt-WellFormed w h in
    elim (Result-cases (attempt w).0) [
      | inl (e, f) ↦
          subst (λ (r : Result A × World). WellFormed r.1) (sym (bind_error attempt (λ _. m) e w f))
            k
      | inr (u, f) ↦
          subst (λ (r : Result A × World). WellFormed r.1) (sym (bind_value attempt (λ _. m) u w f))
            (keeps v k)
    ]

pub insert_user-WellFormed :
    (name hash : Bytes) (admin : Bool) (w : World)
    → WellFormed w
    → WellFormed (Db.Users.insert_user name hash admin w).1
unfolding Db.Users.insert_user
insert_user-WellFormed name hash admin w h =
    let user : User = record {
      id = w.next_id;
      username = name;
      password_hash = hash;
      is_admin = admin;
      created_at = w.now;
    } in
    elim (Bool-cases (exists_if (has_name name) w.users)) [
      | inl e ↦ rw e (skip_id-WellFormed w h)
      | inr e ↦ rw e (insert-WellFormed user w refl e h)
    ]

pub insert_session-WellFormed :
    (sha256 : Bytes → Bytes) (row : SessionRow) (w : World)
    → WellFormed w
    → WellFormed (Db.Sessions.insert_session sha256 row w).1
unfolding Db.Sessions.insert_session
insert_session-WellFormed sha256 row w h =
    elim (Bool-cases (exists_if (λ (s : SessionRow). s.token_hash == row.token_hash) w.sessions)) [
      | inl e ↦ rw e h
      | inr e ↦ elim (Bool-cases (exists_if (has_id row.user_id) w.users)) [
        | inl f ↦
            rw (e, f)
              (record {
                ids = h.ids;
                names = h.names;
                tokens = (e, h.tokens);
                owners = (f, h.owners);
                games = h.games;
                covers = h.covers;
                cards = h.cards;
                card_owners = h.card_owners;
              })
        | inr f ↦ rw (e, f) h
      ]
    ]

pub write_save-WellFormed :
    (s : Save) (w : World) → WellFormed w → WellFormed (Db.Saves.write_save s w).1
unfolding Db.Saves.write_save
write_save-WellFormed s w h = elim (Bool-cases (exists_if (has_id s.user_id) w.users)) [
  | inl e ↦ rw e (record {
    ids = h.ids;
    names = h.names;
    tokens = h.tokens;
    owners = h.owners;
    games = h.games;
    covers = h.covers;
    cards = Distinct-put_save w.now s w.saves h.cards;
    card_owners = Owned-put_save w.now s w.users w.saves e h.card_owners;
  })
  | inr e ↦ rw e h
]

pub sessions-WellFormed :
    (p : SessionRow → Bool) (w : World)
    → WellFormed w
    → WellFormed (record w { sessions = keep_if p w.sessions })
sessions-WellFormed p w h = record {
  ids = h.ids;
  names = h.names;
  tokens = Distinct-keep_if same_token p w.sessions h.tokens;
  owners = Owned-keep_if session_owner p w.users w.sessions h.owners;
  games = h.games;
  covers = h.covers;
  cards = h.cards;
  card_owners = h.card_owners;
}

pub saves-WellFormed :
    (p : Save → Bool) (w : World)
    → WellFormed w
    → WellFormed (record w { saves = keep_if p w.saves })
saves-WellFormed p w h = record {
  ids = h.ids;
  names = h.names;
  tokens = h.tokens;
  owners = h.owners;
  games = h.games;
  covers = h.covers;
  cards = Distinct-keep_if same_card p w.saves h.cards;
  card_owners = Owned-keep_if card_owner p w.users w.saves h.card_owners;
}

pub games-WellFormed :
    (g : Game) (w : World)
    → WellFormed w
    → WellFormed (record w { games = Db.Games.put_game w.now g w.games })
games-WellFormed g w h = record {
  ids = h.ids;
  names = h.names;
  tokens = h.tokens;
  owners = h.owners;
  games = Distinct-put_game w.now g w.games h.games;
  covers = h.covers;
  cards = h.cards;
  card_owners = h.card_owners;
}

pub covers-WellFormed :
    (c : Cover) (w : World)
    → WellFormed w
    → WellFormed (record w { covers = Db.Covers.put_cover w.now c w.covers })
covers-WellFormed c w h = record {
  ids = h.ids;
  names = h.names;
  tokens = h.tokens;
  owners = h.owners;
  games = h.games;
  covers = Distinct-put_cover w.now c w.covers h.covers;
  cards = h.cards;
  card_owners = h.card_owners;
}
