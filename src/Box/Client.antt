-- ===== src/Box/Client.antt =====
-- MP5/src/csiebox_client.c: the client of csiebox, which sends what it finds in its directory and
-- what changes there. A request is what the client sends, with the data that it sends when the
-- server asks for it; the answers of the server are those of Box.Sync.
pub mod Paths
pub mod Relative
pub mod Blocks
pub mod Requested
pub mod Tree
pub mod Folders
pub mod Mirror
pub mod Whole
mod Examples
use sp.Prelude.{
  ℕ, zero, suc, ◌+◌, List, [], ◌∷◌, ◌++◌, Option, none, some, Bool, true, false, ◌||◌, ltb, ℤ, pos,
  if◌then◌else◌, length, take, drop,
}
use sp.Loser.Text.{Text, same, codes}
use sp.Hash.{Hash, put_into_hash, get_from_hash, get_from_hash_by_path, del_from_hash}
use sp.Box.Sessions.{Response, Op, op_login, Status, ok, slash}
use sp.Box.Sync.{Stat, Meta, Upload, is_dir, no_hash}
use sp.Box.Client.Paths.{convert_to_relative_path}

pub record Client : Type 0 where
  pub user : Text
  pub passwd : Text
  pub root : Text
  pub client_id : ℕ
  pub dir_hash : Hash Text
  pub inotify_hash : Hash Text
  pub ignore_inotify_event : Bool

-- What `readdir` and `lstat` show: a directory has its number, whether `chdir` enters it, and what
-- is in it; anything else has the content that `open` and `read` give, if it opens.
mutual
  pub data Entry : Type 0 where
    file : (name : Text) → Stat → Option Text → Entry
    dir : (name : Text) → Stat → (st_ino : ℤ) → (enters : Bool) → Entries → Entry

  pub data Entries : Type 0 where
    no_more : Entries
    entry : Entry → Entries → Entries

pub data Request : Type 0 where
  sync_request : Meta → Upload → Request
  -- with nothing behind it, whatever the server answers
  meta_request : Meta → Request
  rm_request : (client_id : ℕ) → Text → Request

-- `struct inotify_event`, the bits of its mask that are looked at, and what `lstat` and `read` show of
-- the file then.
pub record Change : Type 0 where
  pub wd : ℤ
  pub created : Bool
  pub attributes : Bool
  pub deleted : Bool
  pub is_directory : Bool
  pub name : Text
  pub stat : Stat
  pub content : Option Text

-- The client on its way, with what it has sent so far.
pub record Walk : Type 0 where
  pub client : Client
  pub sent : List Request

unfoldable pub send : Walk → Request → Walk
send w r = record w { sent = w.sent ++ r ∷ [] }

-- `login`: what is sent, and whether the answer lets the client in.
unfoldable pub login_message : (Text → Text) → Client → Text × Text
login_message md5 c = (c.user, md5 c.passwd)

unfoldable pub is_login : Op → Status → Bool
is_login op_login ok = true
is_login _ _ = false

unfoldable pub take_answer : Client → Option Response → Client × Bool
unfolding is_login
take_answer c none = (c, false)
take_answer c (some r) =
    if is_login r.op r.status then (record c { client_id = r.client_id }, true) else (c, false)

-- The loop that sends a file in blocks of 4096 bytes, with fuel.
unfoldable pub send_loop : ℕ → Text → Text
send_loop zero rest = []
send_loop (suc fuel) [] = []
send_loop (suc fuel) (c ∷ rest) = take 4096 (c ∷ rest) ++ send_loop fuel (drop 4096 (c ∷ rest))

-- `sync_file_data`: a directory, or a file that does not open, has no data.
unfoldable pub sync_file_data : Stat → Option Text → Upload
unfolding is_dir send_loop
sync_file_data stat none = record { datalen = 0; stream = [] }
sync_file_data stat (some content) =
    if is_dir stat.mode
    then record { datalen = 0; stream = [] }
    else record { datalen = length content; stream = send_loop (length content + 1) content }

unfoldable pub hash_of_file : (Text → Text) → Stat → Option Text → Text
unfolding is_dir no_hash
hash_of_file md5 stat none = no_hash
hash_of_file md5 stat (some content) = if is_dir stat.mode then no_hash else md5 content

-- `sync_file_meta`
unfoldable pub sync_file_meta : (Text → Text) → Client → Text → Stat → Option Text → Meta
unfolding hash_of_file
sync_file_meta md5 c relative stat content = record {
  client_id = c.client_id;
  file = relative;
  stat = stat;
  hash = hash_of_file md5 stat content;
}

unfoldable pub is_dot : Text → Bool
unfolding same
is_dot name = same name (codes ".") || same name (codes "..")

unfoldable pub after : Option Walk → (Walk → Option Walk) → Option Walk
after none next = none
after (some w) next = next w

-- The client with what `put_into_hash` makes of a table.
unfoldable pub watched : Walk → Option (Bool × Hash Text) → Option Walk
watched w none = none
watched w (some r) = some (record w { client = record w.client { inotify_hash = r.1 } })

unfoldable pub walked : Walk → Option (Bool × Hash Text) → Option (Bool × Walk)
walked w none = none
walked w (some r) = some (r.0, record w { client = record w.client { dir_hash = r.1 } })

-- `junk` is what the buffer of a path holds behind it, and `add_watch` what `inotify_add_watch`
-- returns.
module _ (md5 : Text → Text) (junk : Text) (add_watch : Text → ℤ) where
  -- `sync_file`: a path outside the root is not sent.
  unfoldable pub sync_file : Text → Text → Stat → Option Text → Walk → Walk
  unfolding convert_to_relative_path sync_file_meta sync_file_data send
  sync_file cwd path stat content w = elim (convert_to_relative_path w.client.root cwd path junk) [
    | none ↦ w
    | some relative ↦ send w (
        sync_request (sync_file_meta md5 w.client relative stat content)
          (sync_file_data stat content))
  ]

  -- The result of `put_into_hash` is not looked at.
  unfoldable pub add_inotify : Text → Walk → Option Walk
  unfolding watched
  add_inotify path w = watched w (put_into_hash w.client.inotify_hash path (add_watch path) true)

  -- `check_walked_dir`: the directory's number must be new.
  unfoldable pub check_walked_dir : Text → ℤ → Walk → Option (Bool × Walk)
  unfolding walked
  check_walked_dir cwd st_ino w = walked w (put_into_hash w.client.dir_hash cwd st_ino true)

  -- `sync_all` in `cwd`, with the loop over the entries as an argument.
  unfoldable pub entered : (Walk → Option Walk) → Text → Option (Bool × Walk) → Option Walk
  unfolding add_inotify after
  entered loop cwd none = none
  entered loop cwd (some (false, w)) = some w
  entered loop cwd (some (true, w)) = after (add_inotify cwd w) loop

  unfoldable pub enter : (Walk → Option Walk) → Text → ℤ → Walk → Option Walk
  unfolding check_walked_dir entered
  enter loop cwd st_ino w = entered loop cwd (check_walked_dir cwd st_ino w)

  unfoldable mutual
    unfolding sync_file enter is_dot after

    pub sync_entries : Entries → Text → Walk → Option Walk
    sync_entries no_more cwd w = some w
    sync_entries (entry e es) cwd w = after (sync_entry e cwd w) (sync_entries es cwd)

    -- One round of the loop of `sync_all`.
    pub sync_entry : Entry → Text → Walk → Option Walk
    sync_entry (file name stat content) cwd w =
        if is_dot name then some w else some (sync_file cwd name stat content w)
    sync_entry (dir name stat st_ino enters es) cwd w =
        let below = cwd ++ (slash ++ name) in
        let sent = sync_file cwd name stat none w in
        let deeper = enter (sync_entries es below) below st_ino sent in
        if is_dot name then some w else if enters then deeper else some sent

  -- `sync_all` at the directory `cwd`.
  unfoldable pub sync_all : Text → ℤ → Entries → Walk → Option Walk
  unfolding enter sync_entries
  sync_all cwd st_ino es w = enter (sync_entries es cwd) cwd st_ino w

  -- `rm_file`: the watch of a directory is looked up by its path and removed.
  unfoldable pub forget_watch : Client → Text → Option Client
  unfolding same
  forget_watch c path = elim (get_from_hash_by_path c.inotify_hash (same path)) [
    | none ↦ none
    | some (wd, h) ↦ elim (del_from_hash h (pos wd)) [
      | none ↦ none
      | some (path_held, h') ↦ some (record c { inotify_hash = h' })
    ]
  ]

  unfoldable pub rm_at : Text → Bool → Walk → Text → Option Walk
  unfolding forget_watch send
  rm_at path is_directory w relative =
      if is_directory
      then elim (forget_watch w.client path) [
        | none ↦ none
        | some c ↦ some (send (record w { client = c }) (rm_request c.client_id relative))
      ]
      else some (send w (rm_request w.client.client_id relative))

  unfoldable pub rm_file : Text → Text → Bool → Walk → Option Walk
  unfolding convert_to_relative_path rm_at
  rm_file cwd path is_directory w = elim (convert_to_relative_path w.client.root cwd path junk) [
    | none ↦ some w
    | some relative ↦ rm_at path is_directory w relative
  ]

  unfoldable pub sync_meta_only : Text → Change → Walk → Walk
  unfolding convert_to_relative_path sync_file_meta send
  sync_meta_only path e w = elim (convert_to_relative_path w.client.root [] path junk) [
    | none ↦ w
    | some relative ↦ send w (meta_request (sync_file_meta md5 w.client relative e.stat e.content))
  ]

  -- One event in the directory `wd_path`.
  unfoldable pub handle_event : Text → Change → Walk → Option Walk
  unfolding sync_file add_inotify rm_file sync_meta_only
  handle_event wd_path e w =
      let path = wd_path ++ (slash ++ e.name) in
      let sent = sync_file [] path e.stat e.content w in
      if e.created
      then if e.is_directory then add_inotify path sent else some sent
      else if e.attributes
      then some (sync_meta_only path e w)
      else if e.deleted
      then rm_file [] path e.is_directory w
      else some sent

  -- The loop over the events that were read; `none` is also the loop that never ends, at an event
  -- of a watch that the table does not hold.
  unfoldable pub event_loop : List Change → Walk → Option Walk
  unfolding handle_event after
  event_loop [] w = some w
  event_loop (e ∷ es) w = elim (get_from_hash w.client.inotify_hash e.wd) [
    | none ↦ none
    | some none ↦ none
    | some (some wd_path) ↦ after (handle_event wd_path e w) (event_loop es)
  ]

  unfoldable pub handle_inotify : List Change → Walk → Option Walk
  unfolding event_loop
  handle_inotify [] w = some w
  handle_inotify (e ∷ es) w =
      if w.client.ignore_inotify_event
      then some (record w { client = record w.client { ignore_inotify_event = false } })
      else event_loop (e ∷ es) w
