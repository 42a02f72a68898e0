-- ===== src/Box/Requests/Strangers.antt =====
-- MP5/src/csiebox_server.c: what a connection can do that nobody has logged in on.
use sp.Prelude.{ℕ, ◌≡◌, refl, [], Option, none, some, Bool, true, false}
use sp.Loser.Text.{Text}
use sp.Box.Sessions.{Server, logout, check_client_and_get_homedir}
use sp.Box.Sync.{Os, sync_file, rm_file}
use sp.Box.Requests.{
  Request, closed, bad_magic, login_request, meta_request, end_request, rm_request, unknown, broken,
  keep, handle_request,
}

unfoldable pub is_login : Request → Bool
is_login (login_request user passwd_hash) = true
is_login _ = false

module _ {F : Type 0} (os : Os F) (md5 : Text → Text) (accounts : Option Text) where
  nobody :
      (server : Server) (fd client_id : ℕ)
      → server.client fd ≡ none
      → check_client_and_get_homedir server fd client_id ≡ none
  unfolding check_client_and_get_homedir
  nobody server fd client_id e = rw (check_client_and_get_homedir, e)

  -- A request other than a login, on a connection that no client is logged in on, is not answered
  -- and changes no file, whatever client number it gives.
  pub handle_request-stranger :
      (server : Server) (files : F) (fd : ℕ) (request : Request)
      → server.client fd ≡ none
      → is_login request ≡ false
      → (after : Server) × (handle_request os md5 accounts server files fd request
          ≡ some (after, record { files = files; answers = [] }))
  unfolding handle_request sync_file rm_file keep is_login
  handle_request-stranger server files fd closed e l = (logout server fd, refl)
  handle_request-stranger server files fd bad_magic e l = (server, refl)
  handle_request-stranger server files fd (login_request user passwd_hash) e l = absurd (cc)
  handle_request-stranger server files fd (meta_request meta upload) e l =
      (server, rw (handle_request, sync_file, nobody server fd meta.client_id e))
  handle_request-stranger server files fd end_request e l = (server, refl)
  handle_request-stranger server files fd (rm_request client_id file) e l =
      (server, rw (handle_request, rm_file, nobody server fd client_id e))
  handle_request-stranger server files fd unknown e l = (server, refl)
  handle_request-stranger server files fd broken e l = (server, refl)
