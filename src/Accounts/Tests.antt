-- ===== src/Accounts/Tests.antt =====
-- An administrator tries to delete and to demote herself.
use cache_22_server.Prelude.{
  inl, inr, arith, true, false, some, ◌≡◌, ◌≢◌, ◌∷◌, [], List, Bytes, refl, codes,
}
use cache_22_server.Entity.{User}
use cache_22_server.World.{ok, quiet, World, empty_world}
use cache_22_server.Samples.{plain}
use cache_22_server.Accounts.{AccountRequest, serve_account}
use cache_22_server.Accounts.Lockout.{HasAdmin, run_accounts, run_accounts_keeps_admin}
use cache_22_server.Go.Number.{parse_int, value}
use cache_22_server.Accounts.Race.{OnlyAdmins, rest_of_delete, admins_delete_each_other}
use cache_22_server.Auth.{authenticate, login, create_user}
use cache_22_server.Accounts.Logins.{run_accounts-login}
use cache_22_server.Go.Text.{trim_space, to_lower}

abbrev ann : User
ann = record {
  id = 1;
  username = codes "ann";
  password_hash = codes "h";
  is_admin = true;
  created_at = 0;
}

abbrev signed_in : World
signed_in = record empty_world {
  users = ann ∷ [];
  sessions = record { token_hash = codes "tok"; user_id = 1; expires_at = 9 } ∷ [];
}

abbrev tries : List (Bytes × AccountRequest)
tries =
    (codes "tok", AccountRequest.delete_user (codes "1"))
    ∷ (codes "tok", AccountRequest.set_admin (codes "1") (some false))
    ∷ []

admin_stays : HasAdmin (run_accounts plain (codes "t") tries signed_in)
admin_stays = run_accounts_keeps_admin plain (codes "t") tries signed_in (1, (ann, refl, refl))

deletion_refused :
    (serve_account plain
      (codes "t")
      (codes "tok")
      (AccountRequest.delete_user (codes "1"))
      signed_in).0.code
    ≡ 400
unfolding serve_account authenticate parse_int
deletion_refused = refl

abbrev blank : World
blank = record empty_world { randoms = codes "salt" ∷ codes "cap" ∷ []; next_id = 1 }

abbrev opening : List (Bytes × AccountRequest)
opening =
    (
      [],
      AccountRequest.setup (
          some (record {
            setup_token = codes "t";
            username = codes "Bob";
            password = codes "password";
          })),
    )
    ∷ []

abbrev bob : User
bob = record { id = 1; username = codes "bob"; password_hash = []; is_admin = true; created_at = 0 }

bob_logs_in :
    (login plain (codes "bob") (codes "password") (run_accounts plain (codes "t") opening blank)).0
    ≡ ok (codes "cap", bob)
unfolding login run_accounts serve_account create_user trim_space to_lower
bob_logs_in = refl

cap_not_empty : codes "cap" ≢ []
cap_not_empty e = cc

bob_authenticates :
    (authenticate plain (codes "cap") (
      quiet
        (login plain
          (codes "bob")
          (codes "password")
          (run_accounts plain (codes "t") opening blank)).1)).0
    ≡ ok (some bob)
bob_authenticates =
    run_accounts-login plain (codes "t") opening (codes "bob") (codes "password") (codes "cap") bob
      blank refl cap_not_empty bob_logs_in

-- Two administrators delete each other.
abbrev eve : User
eve = record { id = 2; username = codes "eve"; password_hash = []; is_admin = true; created_at = 0 }

abbrev two_admins : World
two_admins = record empty_world {
  users = ann ∷ eve ∷ [];
  sessions =
      record { token_hash = codes "tok"; user_id = 1; expires_at = 9 }
      ∷ record { token_hash = codes "cap"; user_id = 2; expires_at = 9 }
      ∷ [];
}

abbrev ann_shown : User
ann_shown = record ann { password_hash = [] }

abbrev ann_admitted : World
ann_admitted = (authenticate plain (codes "tok") (quiet two_admins)).1

abbrev both_admitted : World
both_admitted = (authenticate plain (codes "cap") ann_admitted).1

abbrev eve_deleted : World
eve_deleted = (rest_of_delete (codes "2") ann_shown (quiet both_admitted)).1

only_two : OnlyAdmins 1 2 two_admins.users
only_two = ((λ e. inl refl), ((λ e. inr refl), tt))

distinct_ids : two_admins.next_id ≢ 2
distinct_ids e = omega arith

one_parsed : parse_int (codes "1") ≡ value 1
unfolding parse_int
one_parsed = refl

two_parsed : parse_int (codes "2") ≡ value 2
unfolding parse_int
two_parsed = refl

ann_found : (authenticate plain (codes "tok") (quiet two_admins)).0 ≡ ok (some ann_shown)
unfolding authenticate
ann_found = refl

eve_found : (authenticate plain (codes "cap") ann_admitted).0 ≡ ok (some eve)
unfolding authenticate
eve_found = refl

admins_delete_each_other_example :
    ((rest_of_delete (codes "2") ann_shown (quiet both_admitted)).0.code ≡ 200)
    × ((rest_of_delete (codes "1") eve (quiet eve_deleted)).0.code ≡ 200)
    × ¬ HasAdmin (rest_of_delete (codes "1") eve (quiet eve_deleted)).1
admins_delete_each_other_example =
    admins_delete_each_other plain ann_shown eve (codes "tok") (codes "cap") (codes "1") (codes "2")
      two_admins distinct_ids only_two refl refl one_parsed two_parsed ann_found eve_found
