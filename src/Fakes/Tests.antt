-- ===== src/Fakes/Tests.antt =====
-- A user who comes, logs in, changes the password and goes, on the fakes and on the database.
use cache_22_server.Prelude.{true, false, List, [], ◌∷◌, ◌≡◌, refl, Bytes, codes}
use cache_22_server.Prelude.Assoc.{insert}
use cache_22_server.World.{ok}
use cache_22_server.Db
use cache_22_server.Fakes
use cache_22_server.Fakes.Calls.{Call, Given, FakeState, call_fakes}

abbrev IsToken : Bytes → Type 0
IsToken token = Unit

abbrev plain : Bytes → Bytes
plain s = s

abbrev new_fakes : FakeState
new_fakes = (Fakes.Users.new, Fakes.Sessions.new)

abbrev life : List Call
life =
    Call.create_user (codes "bob") (codes "h") true
    ∷ Call.create_session (codes "tok") 1 5
    ∷ Call.user_id (codes "tok")
    ∷ Call.set_password 1 (codes "k")
    ∷ Call.get_by_username (codes "bob")
    ∷ Call.revoke_user 1
    ∷ Call.delete_user 1
    ∷ Call.get_by_id 1
    ∷ Call.count
    ∷ []

-- A name that is taken twice: the fake has two users then.
abbrev one_fake : FakeState
one_fake = (call_fakes (Call.create_user (codes "bob") (codes "h") true) new_fakes).1

abbrev counted_by_fakes : Given
counted_by_fakes =
    (call_fakes Call.count
      (call_fakes (Call.create_user (codes "bob") (codes "k") false) one_fake).1).0

fakes_take_a_name_twice : counted_by_fakes ≡ Given.number (ok 2)
unfolding call_fakes Fakes.Users.create Fakes.Users.count insert
fakes_take_a_name_twice = refl
