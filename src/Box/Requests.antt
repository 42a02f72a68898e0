-- ===== src/Box/Requests.antt =====
-- MP5/src/csiebox_server.c and MP5/src/thread.c: a request is handed to a free thread of the pool,
-- or refused as busy; a thread handles one request to its end.
pub mod Dispatch
pub mod Strangers
use sp.Prelude.{
  ℕ, zero, suc, ◌+◌, List, [], ◌∷◌, ◌++◌, Option, none, some, Bool, true, false, not, ◌&&◌,
  if◌then◌else◌,
}
use sp.Loser.Text.{Text}
use sp.Box.Sessions.{
  Server, Info, Response, Status, ok, busy, Op, op_request, set_client, login, logout,
}
use sp.Box.Sync.{Os, Meta, Upload, Done, sync_file, rm_file}

-- What arrives on a connection; `broken` is a message cut short.
pub data Request : Type 0 where
  closed : Request
  bad_magic : Request
  login_request : Text → Text → Request
  meta_request : Meta → Upload → Request
  end_request : Request
  rm_request : ℕ → Text → Request
  unknown : Request
  broken : Request

module _ {F : Type 0} (os : Os F) (md5 : Text → Text) (accounts : Option Text) where
  unfoldable pub keep : Server → Option (Done F) → Option (Server × Done F)
  keep server none = none
  keep server (some d) = some (server, d)

  -- `mkdir(homedir)`, when the login is admitted.
  unfoldable pub make_home : F → Option Text → F
  make_home files none = files
  make_home files (some homedir) = os.mkdir files homedir

  unfoldable pub handle_request : Server → F → ℕ → Request → Option (Server × Done F)
  unfolding login logout sync_file rm_file keep make_home
  handle_request server files fd closed =
      some (logout server fd, record { files = files; answers = [] })
  handle_request server files fd bad_magic = some (server, record { files = files; answers = [] })
  handle_request server files fd (login_request user passwd_hash) =
      let r = login md5 accounts server fd user passwd_hash in
      some (r.0, record { files = make_home files r.1.1; answers = r.1.0 ∷ [] })
  handle_request server files fd (meta_request meta upload) =
      keep server (sync_file os md5 server files fd meta upload)
  handle_request server files fd end_request = some (server, record { files = files; answers = [] })
  handle_request server files fd (rm_request client_id file) =
      keep server (rm_file os md5 server files fd client_id file)
  handle_request server files fd unknown = some (server, record { files = files; answers = [] })
  handle_request server files fd broken = some (server, record { files = files; answers = [] })

-- A thread of the pool: `busy`, and the connection that it was launched for last.
pub record Thread : Type 0 where
  pub busy : Bool
  pub task : Option ℕ

unfoldable pub launch_behind : Thread → Option (List Thread) → Option (List Thread)
launch_behind t none = none
launch_behind t (some ts) = some (t ∷ ts)

-- The loop of `run_task`: the first thread that is not busy is launched; `none` is that all are.
unfoldable pub launch_first : ℕ → List Thread → Option (List Thread)
unfolding launch_behind
launch_first fd [] = none
launch_first fd (t ∷ ts) =
    let later = launch_first fd ts in
    if t.busy then launch_behind t later else some ((record { busy = true; task = some fd }) ∷ ts)

-- Whether it launched one.
unfoldable pub run_with : List Thread → Option (List Thread) → List Thread × Bool
run_with threads none = (threads, false)
run_with threads (some launched) = (launched, true)

unfoldable pub run_task : ℕ → List Thread → List Thread × Bool
unfolding launch_first run_with
run_task fd threads = run_with threads (launch_first fd threads)

unfoldable pub is_finished : List Thread → Bool
is_finished [] = true
is_finished (t ∷ ts) = if t.busy then false else is_finished ts

unfoldable pub set_in_thread : Server → ℕ → Bool → Server
unfolding set_client
set_in_thread server fd b = elim (server.client fd) [
  | none ↦ server
  | some info ↦ set_client server fd (some (record info { in_thread = b }))
]

-- `choose_thread`: with all threads busy the message is read and answered by the main thread,
-- or the client is logged out when it has closed the connection.
unfoldable pub choose_thread :
    Server → List Thread → ℕ → Bool → Server × (List Thread × List Response)
unfolding run_task set_in_thread logout
choose_thread server threads fd is_closed =
    let marked = set_in_thread server fd true in
    let r = run_task fd threads in
    if r.1
    then (marked, (r.0, []))
    else if is_closed
    then (logout (set_in_thread marked fd false) fd, (r.0, []))
    else (
      set_in_thread marked fd false,
      (r.0, (record { op = op_request; status = busy; client_id = fd }) ∷ []),
    )
