-- ===== src/Web/Routes.antt =====
-- Routes of internal/handler/web/handler.go.
use cache_22_server.Prelude.{Option, Bytes}
use cache_22_server.Go.FilePath.{FilePath}
use cache_22_server.World.{Proc}
use cache_22_server.External.{External}
use cache_22_server.Web.{Answer, SignIn, NewAccount}
use cache_22_server.Web

-- The requests that Routes knows.
pub data PageRequest : Type 0 where
  library login_page logout scan users_page : PageRequest
  detail : Bytes → PageRequest
  login : Option SignIn → PageRequest
  create_user : Option NewAccount → PageRequest
  delete_user : Bytes → PageRequest
  reset_password : Bytes → Option Bytes → PageRequest

-- Routes
unfoldable pub serve_page : External → Bytes → FilePath → Option Bytes → PageRequest → Proc Answer
unfolding Web.library Web.detail Web.login_page Web.login Web.logout Web.scan Web.users_page
    Web.create_user Web.delete_user Web.reset_password
serve_page x expected dir cookie PageRequest.library = Web.library x cookie
serve_page x expected dir cookie (PageRequest.detail serial) = Web.detail x serial cookie
serve_page x expected dir cookie PageRequest.login_page = Web.login_page x cookie
serve_page x expected dir cookie (PageRequest.login form) = Web.login x expected form
serve_page x expected dir cookie PageRequest.logout = Web.logout x cookie
serve_page x expected dir cookie PageRequest.scan = Web.scan x dir cookie
serve_page x expected dir cookie PageRequest.users_page = Web.users_page x cookie
serve_page x expected dir cookie (PageRequest.create_user form) = Web.create_user x form cookie
serve_page x expected dir cookie (PageRequest.delete_user id) = Web.delete_user x id cookie
serve_page x expected dir cookie (PageRequest.reset_password id password) =
    Web.reset_password x id password cookie
