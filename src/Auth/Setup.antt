-- ===== src/Auth/Setup.antt =====
-- The setup of the first account.
use cache_22_server.Prelude.{
  ◌≤◌, ◌<◌, true, [], ◌∷◌, ◌≡◌, ◌≢◌, Bytes, length, nat_eq, list_eq, list_beq_iff, arith,
  length-append,
}
use cache_22_server.Entity.{User}
use cache_22_server.World.{World, ok, err, setup_done, quiet, attempt}
use cache_22_server.External.{External}
use cache_22_server.Auth.{setup_first_admin, create_user, valid_username, min_pass_len}
use cache_22_server.Auth.Tables.{create_user_adds}

module _ (x : External) (expected : Bytes) where
  setup_creates :
      (token username password : Bytes) (u : User) (w : World)
      → (setup_first_admin x expected token username password w).0 ≡ ok u
      → (length w.users ≡ 0)
        × (expected ≢ [])
        × (token ≡ expected)
        × (setup_first_admin x expected token username password w
            ≡ create_user x username password true (attempt w).1)
  unfolding setup_first_admin attempt
  setup_creates token username password u w h =
      ground (arith, list_beq_iff nat_eq token expected, list_beq_iff nat_eq expected [])

  -- Setup makes an account only in an empty table, only with the right token, where one is set, and
  -- the account is an administrator's, with a valid name and password.
  pub setup_guarded :
      (token username password : Bytes) (u : User) (w : World)
      → (setup_first_admin x expected token username password w).0 ≡ ok u
      → (length w.users ≡ 0)
        × (expected ≢ [])
        × (token ≡ expected)
        × (u.is_admin ≡ true)
        × (valid_username username ≡ true)
        × (min_pass_len ≤ length password)
  setup_guarded token username password u w h = ground (
    arith,
    setup_creates token username password u w h,
    create_user_adds x username password true u (attempt w).1,
  )

  setup_refused :
      (token username password : Bytes) (w : World)
      → 0 < length w.users
      → (setup_first_admin x expected token username password (quiet w)).0 ≡ err setup_done
  unfolding setup_first_admin
  setup_refused token username password w h = ground arith

  -- After it has made the account, every later try is refused, as long as no call fails.
  pub setup_once :
      (token username password token' username' password' : Bytes) (u : User) (w : World)
      → (setup_first_admin x expected token username password w).0 ≡ ok u
      → let w' = (setup_first_admin x expected token username password w).1 in
        (setup_first_admin x expected token' username' password' (quiet w')).0 ≡ err setup_done
  setup_once token username password token' username' password' u w h =
      let w' = (setup_first_admin x expected token username password w).1 in
      setup_refused token' username' password' w' (
        ground (
          arith,
          setup_creates token username password u w h,
          create_user_adds x username password true u (attempt w).1,
          length-append (attempt w).1.users (u ∷ []),
        ))
