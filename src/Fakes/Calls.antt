-- ===== src/Fakes/Calls.antt =====
-- The calls that the use case of accounts makes of its repositories, on the database and on the fakes.
use cache_22_server.Prelude.{
  ℕ, ◌<◌, Bool, true, false, Option, List, [], ◌∷◌, ◌≡◌, Bytes, exists_if,
}
use cache_22_server.Prelude.Assoc.{Assoc}
use cache_22_server.Entity.{User}
use cache_22_server.World.{World, Result, ok, err}
use cache_22_server.Auth.Tables.{has_id, has_name}
use cache_22_server.Db
use cache_22_server.Db.Users.{normal_name}
use cache_22_server.Fakes
use cache_22_server.Fakes.Users.{FakeUsers}
use cache_22_server.Fakes.Tables.{undated}
use cache_22_server.Fakes.Tokens.{has_hash, is_of}

pub data Call : Type 0 where
  count : Call
  create_user : Bytes → Bytes → Bool → Call
  get_by_username : Bytes → Call
  get_by_id : ℕ → Call
  delete_user : ℕ → Call
  set_password : ℕ → Bytes → Call
  set_admin : ℕ → Bool → Call
  create_session : Bytes → ℕ → ℕ → Call
  user_id : Bytes → Call
  revoke : Bytes → Call
  revoke_user : ℕ → Call

-- What a call gives. The fakes have no clock, so the time when a user was made is left out.
pub data Given : Type 0 where
  number : Result ℕ → Given
  account : Result User → Given
  done : Result (Unit {0}) → Given
  holder : Result (Option ℕ) → Given

abbrev pub undated_result : Result User → Result User
undated_result (ok u) = ok (undated u)
undated_result (err e) = err e

abbrev pub FakeState : Type 0
FakeState = FakeUsers × Assoc Bytes ℕ

-- on the fakes
unfoldable pub call_fakes : Call → FakeState → Given × FakeState
call_fakes Call.count (f, uids) = (Given.number (ok (Fakes.Users.count f).0), (f, uids))
call_fakes (Call.create_user name hash admin) (f, uids) =
    let (u, f') = Fakes.Users.create name hash admin f in (Given.account (ok u), (f', uids))
call_fakes (Call.get_by_username name) (f, uids) =
    (Given.account (Fakes.Users.get_by_username name f).0, (f, uids))
call_fakes (Call.get_by_id id) (f, uids) = (Given.account (Fakes.Users.get_by_id id f).0, (f, uids))
call_fakes (Call.delete_user id) (f, uids) =
    (Given.done (ok tt), ((Fakes.Users.delete id f).1, uids))
call_fakes (Call.set_password id hash) (f, uids) =
    (Given.done (ok tt), ((Fakes.Users.set_password id hash f).1, uids))
call_fakes (Call.set_admin id admin) (f, uids) =
    (Given.done (ok tt), ((Fakes.Users.set_admin id admin f).1, uids))
call_fakes (Call.create_session token id ttl) (f, uids) =
    (Given.done (ok tt), (f, Fakes.Sessions.create token id ttl uids))
call_fakes (Call.user_id token) (f, uids) =
    (Given.holder (ok (Fakes.Sessions.user_id token uids)), (f, uids))
call_fakes (Call.revoke token) (f, uids) =
    (Given.done (ok tt), (f, Fakes.Sessions.revoke token uids))
call_fakes (Call.revoke_user id) (f, uids) =
    (Given.done (ok tt), (f, Fakes.Sessions.revoke_user id uids))

module _ (sha256 : Bytes → Bytes) where
  -- on the database
  unfoldable pub call_db : Call → World → Given × World
  call_db Call.count w = let (r, w') = Db.Users.count w in (Given.number r, w')
  call_db (Call.create_user name hash admin) w =
      let (r, w') = Db.Users.create name hash admin w in (Given.account (undated_result r), w')
  call_db (Call.get_by_username name) w =
      let (r, w') = Db.Users.get_by_username name w in (Given.account (undated_result r), w')
  call_db (Call.get_by_id id) w =
      let (r, w') = Db.Users.get_by_id id w in (Given.account (undated_result r), w')
  call_db (Call.delete_user id) w = let (r, w') = Db.Users.delete id w in (Given.done r, w')
  call_db (Call.set_password id hash) w =
      let (r, w') = Db.Users.set_password id hash w in (Given.done r, w')
  call_db (Call.set_admin id admin) w =
      let (r, w') = Db.Users.set_admin id admin w in (Given.done r, w')
  call_db (Call.create_session token id ttl) w =
      let (r, w') = Db.Sessions.create sha256 token id ttl w in (Given.done r, w')
  call_db (Call.user_id token) w =
      let (r, w') = Db.Sessions.user_id sha256 token w in (Given.holder r, w')
  call_db (Call.revoke token) w =
      let (r, w') = Db.Sessions.revoke sha256 token w in (Given.done r, w')
  call_db (Call.revoke_user id) w = let (r, w') = Db.Sessions.revoke_user id w in (Given.done r, w')

  unfoldable pub given_by_db : List Call → World → List Given
  given_by_db [] w = []
  given_by_db (c ∷ cs) w = (call_db c w).0 ∷ given_by_db cs (call_db c w).1

unfoldable pub given_by_fakes : List Call → FakeState → List Given
given_by_fakes [] s = []
given_by_fakes (c ∷ cs) s = (call_fakes c s).0 ∷ given_by_fakes cs (call_fakes c s).1

module _ (IsToken : Bytes → Type 0) (sha256 : Bytes → Bytes) where
  -- A name is in its normal form, a created one is free; a user who is changed or deleted is there, and
  -- one who is deleted has no session; a token is one in use; a session that is made has a new token, a
  -- user who is there and a time to live that is not over at once.
  abbrev pub Allowed : Call → World → Type 0
  Allowed Call.count w = Unit
  Allowed (Call.create_user name hash admin) w =
      (normal_name name ≡ name) × (exists_if (has_name name) w.users ≡ false)
  Allowed (Call.get_by_username name) w = normal_name name ≡ name
  Allowed (Call.get_by_id id) w = Unit
  Allowed (Call.delete_user id) w =
      (exists_if (has_id id) w.users ≡ true) × (exists_if (is_of id) w.sessions ≡ false)
  Allowed (Call.set_password id hash) w = exists_if (has_id id) w.users ≡ true
  Allowed (Call.set_admin id admin) w = exists_if (has_id id) w.users ≡ true
  Allowed (Call.create_session token id ttl) w =
      IsToken token
      × (exists_if (has_hash (sha256 token)) w.sessions ≡ false)
      × (exists_if (has_id id) w.users ≡ true)
      × (0 < ttl)
  Allowed (Call.user_id token) w = IsToken token
  Allowed (Call.revoke token) w = IsToken token
  Allowed (Call.revoke_user id) w = Unit

  -- One call after the other: every one is allowed when it is made.
  abbrev pub AllAllowed : List Call → World → Type 0
  AllAllowed [] w = Unit
  AllAllowed (c ∷ cs) w = Allowed c w × AllAllowed cs (call_db sha256 c w).1
