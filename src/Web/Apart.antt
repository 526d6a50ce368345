-- ===== src/Web/Apart.antt =====
-- The pages that only show something leave the accounts alone, and those for accounts change them
-- as the handlers of the API do.
use cache_22_server.Prelude.{◌≡◌, refl, Bytes, Option, none, some, arith}
use cache_22_server.Go.FilePath.{FilePath}
use cache_22_server.Entity.{User}
use cache_22_server.World.{World, Proc}
use cache_22_server.External.{External}
use cache_22_server.Auth
use cache_22_server.Guard.Access.{authenticate_same}
use cache_22_server.Apart.{Apart, SameAccounts-trans}
use cache_22_server.Db
use cache_22_server.Db.Apart.{games_list-Apart}
use cache_22_server.Scanner.{run}
use cache_22_server.Scanner.Apart.{run-Apart}
use cache_22_server.Games.{get_manifest}
use cache_22_server.Web.{
  Answer, current_user, signed_in, require_login, require_admin_page, admin_page, detail_for,
  login_page_for, scan_for, users_for,
}
use cache_22_server.Web

module _ (x : External) where
  current_user-Apart : (cookie : Option Bytes) → Apart (current_user x cookie)
  unfolding current_user
  current_user-Apart none w = (refl, refl, refl)
  current_user-Apart (some token) w = ground (arith, authenticate_same x token w)

  signed_in-Apart :
      (next : User → Proc Answer) (found : Option User)
      → ((u : User) → Apart (next u))
      → Apart (signed_in x next found)
  unfolding signed_in
  signed_in-Apart next none h = λ w. (refl, refl, refl)
  signed_in-Apart next (some u) h = h u

  require_login-Apart :
      (next : User → Proc Answer) (cookie : Option Bytes)
      → ((u : User) → Apart (next u))
      → Apart (require_login x next cookie)
  unfolding require_login
  require_login-Apart next cookie h w =
      let (found, v) = current_user x cookie w in
      SameAccounts-trans w v (signed_in x next found v).1 (current_user-Apart cookie w)
        (signed_in-Apart next found h v)

  pub library-Apart : (cookie : Option Bytes) → Apart (Web.library x cookie)
  unfolding Web.library
  library-Apart cookie =
      require_login-Apart _ cookie λ u w. ground (arith, games_list-Apart x.sorted_titles w)

  detail_for-Apart : (u : User) (serial : Bytes) → Apart (detail_for u serial)
  unfolding detail_for get_manifest Db.Games.get_by_serial
  detail_for-Apart u serial w = ground arith

  pub detail-Apart : (serial : Bytes) (cookie : Option Bytes) → Apart (Web.detail x serial cookie)
  unfolding Web.detail
  detail-Apart serial cookie =
      require_login-Apart (λ u. detail_for u serial) cookie (λ u. detail_for-Apart u serial)

  login_page_for-Apart : (found : Option User) → Apart (login_page_for x found)
  unfolding login_page_for Auth.needs_setup
  login_page_for-Apart none w = ground arith
  login_page_for-Apart (some u) w = ground arith

  pub login_page-Apart : (cookie : Option Bytes) → Apart (Web.login_page x cookie)
  unfolding Web.login_page
  login_page-Apart cookie w =
      let (found, v) = current_user x cookie w in
      SameAccounts-trans w v (login_page_for x found v).1 (current_user-Apart cookie w)
        (login_page_for-Apart found v)

  scan_for-Apart : (dir : FilePath) (found : Option User) → Apart (scan_for x dir found)
  unfolding scan_for
  scan_for-Apart dir none w = (refl, refl, refl)
  scan_for-Apart dir (some u) w =
      ground (arith, run-Apart x dir w, games_list-Apart x.sorted_titles (run x dir w).1)

  pub scan-Apart : (dir : FilePath) (cookie : Option Bytes) → Apart (Web.scan x dir cookie)
  unfolding Web.scan
  scan-Apart dir cookie w =
      let (found, v) = current_user x cookie w in
      SameAccounts-trans w v (scan_for x dir found v).1 (current_user-Apart cookie w)
        (scan_for-Apart dir found v)

  admin_page-Apart :
      (next : User → Proc Answer)
      → ((u : User) → Apart (next u))
      → (u : User) → Apart (admin_page x next u)
  admin_page-Apart next h u w = ground (arith, h u w)

  users_for-Apart : (me : User) → Apart (users_for x me)
  unfolding users_for Auth.list_users
  users_for-Apart me w = ground arith

  pub users_page-Apart : (cookie : Option Bytes) → Apart (Web.users_page x cookie)
  unfolding Web.users_page require_admin_page
  users_page-Apart cookie =
      require_login-Apart (admin_page x (users_for x)) cookie
        (admin_page-Apart (users_for x) users_for-Apart)

  -- Without a cookie nobody gets past the guard.
  pub no_cookie-Apart : (next : User → Proc Answer) → Apart (require_admin_page x next none)
  unfolding require_admin_page require_login current_user signed_in
  no_cookie-Apart next w = (refl, refl, refl)

  pub logout_users :
      (cookie : Option Bytes) (w : World)
      → ((Web.logout x cookie w).1.users ≡ w.users)
        × ((Web.logout x cookie w).1.next_id ≡ w.next_id)
  unfolding Web.logout Auth.logout
  logout_users none w = (refl, refl)
  logout_users (some token) w = ground arith
