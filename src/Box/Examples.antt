-- ===== src/Box/Examples.antt =====
-- MP5/src/csiebox_server.c: a small file system, two accounts, and a pool of two threads.
use sp.Prelude.{
  if◌then◌else◌, ℕ, ◌+◌, ◌/◌, ◌≡◌, refl, List, [], ◌∷◌, none, some, true, false, length, take, drop,
  arith,
}
use sp.Loser.Text.{Text, codes, same, strcmp}
use sp.Loser.Text.Laws.{lacks}
use sp.Box.Transfer.{copy_loop}
use sp.Box.Transfer.Complete.{copy_loop-take}
use sp.Box.Sessions.{
  Server, ok, more, get_account_info, check_client_and_get_homedir, get_user_homedir,
}
use sp.Box.Sessions.Accounts.{
  Account, AreAccounts, put_accounts, passwd_of, hash_of, ends, get_account_info-passwd_of,
}
use sp.Box.Sessions.Runs.{Event, logs_in, logs_out, run, holder, home, run-holder}
use sp.Box.Sync.{
  Meta, Upload, Done, sync_file, meta_answer, file_answer, update_stat, current_hash, md5_file,
  is_dir,
}
use sp.Box.Sync.Mirrors.{Holds, sync_file-new, sync_file-known}
use sp.Box.SmallOs.{Tree, put, no_times, file_mode, new_dir, small_os, held, small_os-IsPosix}
use sp.Box.Client.Folders.{folder, has_slash, is_usable}
use sp.Box.Requests.{Thread}
use sp.Box.Requests.{rm_request, handle_request}
use sp.Box.Requests.Strangers.{is_login, handle_request-stranger}

abbrev short_md5 : Text → Text
short_md5 t = length t ∷ []

abbrev accounts : List Account
accounts =
    record { user = codes "ann"; passwd = codes "pw" }
    ∷ record { user = codes "bob"; passwd = codes "word" }
    ∷ []

accounts-AreAccounts : AreAccounts accounts
unfolding lacks ends
accounts-AreAccounts =
    (refl, omega arith, refl, omega arith, (refl, omega arith, refl, omega arith, tt))

abbrev fresh : Server
fresh = record { path = codes "/box"; client = λ i. none }

abbrev logged_in : Server
logged_in = record {
  path = codes "/box";
  client = λ i. some (record { user = codes "ann"; in_thread = false });
}

abbrev sent : Meta
sent = record {
  client_id = 5;
  file = codes "/a";
  stat = record { mode = file_mode; atime = 7; mtime = 9 };
  hash = 3 ∷ [];
}

abbrev upload : Upload
upload = record { datalen = 3; stream = codes "one" }

abbrev path_a : Text
path_a = codes "/box/ann/a"

abbrev only_home : Tree
only_home p = if same p (codes "/box/ann") then some new_dir else none

abbrev with_a : Tree
with_a = put only_home path_a (some (record { stat = no_times file_mode; content = codes "one" }))

copy_loop-take_example :
    copy_loop (3 / 4096 + 2) 3 0 (codes "one more") []
    ≡ some (take 3 (codes "one more"), drop 3 (codes "one more"))
copy_loop-take_example = copy_loop-take 3 (codes "one more") (omega arith)

get_account_info-passwd_of_example :
    get_account_info short_md5 (some (put_accounts accounts)) (codes "bob")
    ≡ hash_of short_md5 (passwd_of (codes "bob") accounts)
get_account_info-passwd_of_example =
    get_account_info-passwd_of short_md5 (codes "bob") accounts accounts-AreAccounts

abbrev events : List Event
events = logs_out 4 ∷ logs_in 5 (codes "bob") (1 ∷ []) ∷ logs_in 5 (codes "ann") (2 ∷ []) ∷ []

run-holder_example :
    check_client_and_get_homedir (run short_md5 (some (put_accounts accounts)) fresh events) 5 5
    ≡ home short_md5 fresh.path (holder short_md5 accounts events 5)
run-holder_example = run-holder short_md5 accounts fresh events 5 accounts-AreAccounts (λ i. refl)

sync_file-new_example :
    (d : Done Tree) × (sync_file small_os short_md5 logged_in only_home 5 sent upload ≡ some d)
    × (d.answers ≡ meta_answer small_os short_md5 5 more ∷ file_answer small_os short_md5 5 ∷ [])
    × Holds small_os held small_os-IsPosix short_md5 d.files path_a (some (codes "one")) sent.stat
unfolding check_client_and_get_homedir get_user_homedir same folder has_slash is_usable
sync_file-new_example =
    sync_file-new small_os held small_os-IsPosix short_md5 logged_in only_home
      (put only_home path_a (some (record { stat = no_times file_mode; content = codes "one" }))) 5
      sent upload (codes "/box/ann") refl (omega arith) refl (omega arith) (omega arith) refl

sync_file-known_example :
    (d : Done Tree) × (sync_file small_os short_md5 logged_in with_a 5 sent upload ≡ some d)
    × (d.answers ≡ meta_answer small_os short_md5 5 ok ∷ [])
    × (a : ℕ) × Holds small_os held small_os-IsPosix short_md5 d.files path_a
        (held with_a path_a)
        (record sent.stat { atime = a })
    × (is_dir (no_times file_mode).mode ≡ true → a ≡ sent.stat.atime)
unfolding check_client_and_get_homedir get_user_homedir same strcmp current_hash md5_file
    update_stat is_dir
sync_file-known_example =
    sync_file-known small_os held small_os-IsPosix short_md5 logged_in with_a 5 sent upload
      (codes "/box/ann") (no_times file_mode) refl (omega arith) refl (λ l. omega arith)
      (omega arith) refl

abbrev threads : List Thread
threads = record { busy = true; task = some 3 } ∷ record { busy = false; task = none } ∷ []

handle_request-stranger_example :
    (after : Server) × (handle_request small_os short_md5 none fresh with_a 5
        (rm_request 5 (codes "/a"))
      ≡ some (after, record { files = with_a; answers = [] }))
unfolding is_login
handle_request-stranger_example =
    handle_request-stranger small_os short_md5 none fresh with_a 5 (rm_request 5 (codes "/a")) refl
      refl
