-- ===== src/Box/Sessions/Runs.antt =====
-- MP5/src/csiebox_server.c: over any logins and logouts, a connection is the user's that logged in last on it.
use sp.Prelude.{
  ℕ, ◌≡◌, refl, ap, ◌∙◌, List, [], ◌∷◌, ◌++◌, Option, none, some, Bool, true, false, ◌&&◌, ◌==◌,
  if◌then◌else◌, arith,
}
use sp.Loser.Text.{Text, same}
use sp.Box.Sessions.{
  Server, set_client, get_user_homedir, login, login_with, logout, check_client_and_get_homedir,
  slash,
}
use sp.Box.Sessions.Accounts.{
  Account, put_accounts, passwd_of, AreAccounts, hash_of, get_account_info-passwd_of,
}

pub data Event : Type 0 where
  logs_in : ℕ → Text → Text → Event
  logs_out : ℕ → Event

module _ (md5 : Text → Text) where
  -- The newest event stands first.
  unfoldable pub run : Option Text → Server → List Event → Server
  unfolding login logout
  run file server [] = server
  run file server (logs_in fd user sent ∷ es) = (login md5 file (run file server es) fd user sent).0
  run file server (logs_out fd ∷ es) = logout (run file server es) fd

  -- The right hash of a recorded account.
  unfoldable pub admits : List Account → Text → Text → Bool
  admits accounts user sent = elim (hash_of md5 (passwd_of user accounts)) [
    | none ↦ false
    | some hash ↦ same sent hash
  ]

  -- Who a connection belongs to: its last admitted login, unless it logged out since.
  unfoldable pub holder : List Account → List Event → ℕ → Option Text
  unfolding admits
  holder accounts [] fd = none
  holder accounts (logs_in i user sent ∷ es) fd =
      if (fd == i) && admits accounts user sent then some user else holder accounts es fd
  holder accounts (logs_out i ∷ es) fd = if fd == i then none else holder accounts es fd

  unfoldable pub home : Text → Option Text → Option Text
  home path none = none
  home path (some user) = some (path ++ (slash ++ user))

  abbrev home_of : Server → ℕ → Option Text
  home_of server fd = check_client_and_get_homedir server fd fd

  login_lem :
      (server : Server) (i fd : ℕ) (user sent : Text) (o : Option Text)
      → home_of ((login_with server i user sent o).0) fd ≡ (
          if (fd == i) && elim o [ none ↦ false | some hash ↦ same sent hash ]
          then some (server.path ++ (slash ++ user))
          else home_of server fd)
  unfolding login_with set_client get_user_homedir check_client_and_get_homedir
  login_lem server i fd user sent none = ground arith
  login_lem server i fd user sent (some hash) = ground arith

  login_path :
      (server : Server) (i : ℕ) (user sent : Text) (o : Option Text)
      → (login_with server i user sent o).0.path ≡ server.path
  unfolding login_with set_client
  login_path server i user sent none = refl
  login_path server i user sent (some hash) = ground arith

  run_path :
      (file : Option Text) (server : Server) (es : List Event)
      → (run file server es).path ≡ server.path
  unfolding run login logout set_client
  run_path file server [] = refl
  run_path file server (logs_in i user sent ∷ es) =
      login_path _ i user sent _ ∙ run_path file server es
  run_path file server (logs_out i ∷ es) = run_path file server es

  nobody :
      (server : Server) (fd : ℕ)
      → server.client fd ≡ none
      → check_client_and_get_homedir server fd fd ≡ none
  unfolding check_client_and_get_homedir
  nobody server fd e = rw (check_client_and_get_homedir, e)

  chosen :
      (b : Bool) (user path path' : Text) (x o : Option Text)
      → path' ≡ path
      → x ≡ home path o
      → (if b then some (path' ++ (slash ++ user)) else x) ≡ home path (if b then some user else o)
  unfolding home
  chosen true user path path' x o p q = ap (λ t. some (t ++ (slash ++ user))) p
  chosen false user path path' x o p q = q

  logout_lem :
      (server : Server) (i fd : ℕ)
      → check_client_and_get_homedir (logout server i) fd fd
        ≡ (if fd == i then none else check_client_and_get_homedir server fd fd)
  unfolding logout set_client check_client_and_get_homedir get_user_homedir
  logout_lem server i fd = ground arith

  left :
      (b : Bool) (path : Text) (x o : Option Text)
      → x ≡ home path o
      → (if b then none else x) ≡ home path (if b then none else o)
  unfolding home
  left true path x o q = refl
  left false path x o q = q

  -- On a server that starts with nobody logged in, after any logins and logouts against a well-formed account file, a request on a connection
  -- under its own number is let into the home directory of the holder: the user of the last admitted
  -- login on it, unless a logout came later; a refused login changes nothing.
  pub run-holder :
      (accounts : List Account) (server : Server) (es : List Event) (fd : ℕ)
      → AreAccounts accounts
      → ((i : ℕ) → server.client i ≡ none)
      → check_client_and_get_homedir (run (some (put_accounts accounts)) server es) fd fd
        ≡ home server.path (holder accounts es fd)
  unfolding run holder login admits home
  run-holder accounts server [] fd h start = nobody server fd (start fd)
  run-holder accounts server (logs_in i user sent ∷ es) fd h start =
      let before = run (some (put_accounts accounts)) server es in
      ap (λ o. home_of ((login_with before i user sent o).0) fd)
        (get_account_info-passwd_of md5 user accounts h)
      ∙ login_lem before i fd user sent (hash_of md5 (passwd_of user accounts))
      ∙ chosen _ user _ _ _ _ (run_path (some (put_accounts accounts)) server es)
          (run-holder accounts server es fd h start)
  run-holder accounts server (logs_out i ∷ es) fd h start =
      let before = run (some (put_accounts accounts)) server es in
      logout_lem before i fd ∙ left (fd == i) _ _ _ (run-holder accounts server es fd h start)
