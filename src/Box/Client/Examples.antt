-- ===== src/Box/Client/Examples.antt =====
-- MP5/src/csiebox_client.c: a client with the directory /home/ann, in which there are a file and a
-- directory with another file.
use sp.Prelude.{
  if◌then◌else◌, inl, ◌≡◌, refl, [], ◌∷◌, ◌++◌, none, some, true, false, ℤ, pos, arith, length,
  replicate,
}
use sp.Loser.Text.{Text, codes, same, strcmp}
use sp.Hash.{Hash, init_hash, clean_hash}
use sp.Hash.Operations.{init_hash-IsReady}
use sp.Box.Sessions.{Server, check_client_and_get_homedir, get_user_homedir}
use sp.Box.Sync.{is_dir}
use sp.Box.SmallOs.{
  Tree, file_mode, dir_mode, no_times, small_os, held, small_os-IsPosix, Apart, small_os-IsFramed,
  small_os-MakesFiles, new_dir,
}
use sp.Box.Client.{file, dir, Entries, no_more, entry, Walk, is_dot, sync_all}
use sp.Box.Client.Paths.{convert_to_relative_path, string_in, shift_loop, full_path}
use sp.Box.Client.Relative.{Whole, no_byte, one_byte, convert_to_relative_path-take}
use sp.Box.Client.Blocks.{whole_data}
use sp.Box.Client.Requested.{Goes, request_of, request_from, requests_of, numbers_of}
use sp.Box.Client.Tree.{sync_all-requests_of}
use sp.Box.Client.Folders.{folder, has_slash, is_usable}
use sp.Box.Client.Mirror.{answer_all, AllHeld}
use sp.Box.Client.Whole.{sync_all-AllHeld}

abbrev short_md5 : Text → Text
short_md5 t = length t ∷ []

-- Three characters of root, and five of path behind it.
convert_to_relative_path-take_example :
    convert_to_relative_path (codes "/me") (codes "/me") (codes "note") [] ≡ some (codes "/no")
unfolding full_path
convert_to_relative_path-take_example =
    convert_to_relative_path-take (codes "/me") (codes "/note") (codes "/me") (codes "note") [] full
      (omega arith) whole
  where
    full : full_path (codes "/me") (codes "note") ≡ codes "/me" ++ codes "/note"
    full = refl

    whole : Whole (codes "/note")
    whole = one_byte (omega arith) (
        one_byte (omega arith)
          (one_byte (omega arith) (one_byte (omega arith) (one_byte (omega arith) no_byte))))

abbrev home : Text
home = codes "/home/ann"

abbrev tree : Entries
tree = entry (file (codes "a") (no_times file_mode) (some (codes "one"))) (
    entry
      (dir (codes "d") (no_times dir_mode) (pos 12) true
        (entry (file (codes "b") (no_times file_mode) (some (codes "two"))) no_more))
      no_more)

abbrev empty_hash : Hash Text
empty_hash = (init_hash (clean_hash (record { node = none; n = 0 })) (pos 3) true).1

abbrev starting : Walk
starting = record {
  client = record {
    user = codes "ann";
    passwd = codes "pw";
    root = home;
    client_id = 5;
    dir_hash = empty_hash;
    inotify_hash = empty_hash;
    ignore_inotify_event = false;
  };
  sent = [];
}

abbrev watch : Text → ℤ
watch path = pos (length path)

starting-Goes : Goes (pos 11 ∷ numbers_of short_md5 [] watch tree []) starting
unfolding numbers_of is_dot same strcmp
starting-Goes =
    let (done, ready, empty) =
      init_hash-IsReady {V = Text} (record { node = none; n = 0 }) 3 (omega arith) in
    record {
      dirs = replicate 3 [];
      dirs_ready = ready;
      watches = replicate 3 [];
      watches_ready = ready;
      fresh = (empty (pos 11), (ground arith, tt), (empty (pos 12), tt, tt));
    }

sync_all-requests_of_example :
    (w : Walk) × (sync_all short_md5 [] watch home (pos 11) tree starting ≡ some w)
    × (w.sent ≡ requests_of short_md5 [] watch home 5 home tree)
sync_all-requests_of_example =
    sync_all-requests_of short_md5 [] watch home (pos 11) tree starting starting-Goes

abbrev logged_in : Server
logged_in = record {
  path = codes "/box";
  client = λ i. some (record { user = codes "ann"; in_thread = false });
}

abbrev only_home : Tree
only_home p = if same p (codes "/box/ann") then some new_dir else none

sync_all-AllHeld_example :
    (w : Walk) × (sync_all short_md5 [] watch home (pos 11) tree starting ≡ some w)
    × (files : Tree) × (answer_all small_os held small_os-IsPosix Apart small_os-IsFramed short_md5
          logged_in 5
          (codes "/box/ann")
          only_home
          w.sent
        ≡ some files)
    × AllHeld small_os held small_os-IsPosix Apart small_os-IsFramed short_md5 logged_in 5
        (codes "/box/ann")
        files
        (requests_of short_md5 [] watch home 5 home tree)
unfolding requests_of request_of request_from numbers_of is_dot same strcmp whole_data is_dir
    convert_to_relative_path string_in shift_loop full_path check_client_and_get_homedir
    get_user_homedir folder has_slash is_usable
sync_all-AllHeld_example =
    sync_all-AllHeld small_os held small_os-IsPosix Apart small_os-IsFramed short_md5 logged_in 5
      (codes "/box/ann") [] watch home (pos 11) tree starting only_home small_os-MakesFiles refl
      refl refl starting-Goes (refl, (((refl, refl), (refl, tt)), tt)) (omega arith)
      (refl, (refl, refl, (refl, refl, tt)), (refl, (refl, refl, tt), (refl, tt, tt)))
      (inl refl, (inl refl, (inl refl, tt))) (no_times dir_mode, refl, refl, refl)
      (refl, refl, (refl, refl, (refl, refl, tt)))
