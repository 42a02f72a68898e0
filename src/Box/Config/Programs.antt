-- ===== src/Box/Config/Programs.antt =====
-- MP5/src/csiebox_client.c and MP5/src/csiebox_server.c: `parse_arg` of the two programs. `sizeof` of
-- a field is the length of its buffer. The fields that it leaves alone, `time_off` and `daemonize`,
-- are not there.
use sp.Prelude.{
  ℕ, ◌-◌, ℤ, pos, negsuc, List, [], ◌∷◌, Option, none, some, Bool, true, false, ◌==◌, leb,
  if◌then◌else◌, length, replicate, set,
}
use sp.Loser.Text.{Text, codes, same, is_space, value}
use sp.Box.Client.Paths.{string_in}
use sp.Box.Config.{strncpy, all_accepted, read_file}

pub record ClientArg : Type 0 where
  pub name : Text
  pub server : Text
  pub user : Text
  pub passwd : Text
  pub path : Text

pub record ServerArg : Type 0 where
  pub path : Text
  pub account_path : Text
  pub thread : ℤ
  pub run_path : Text

-- `accept_config` stands beside what was read.
unfoldable pub client_config : Text → Text → ClientArg × List Bool → ClientArg × List Bool
unfolding same strncpy
client_config key val (arg, accept) =
    let len = length val in
    if same (codes "name") key
    then if leb len (length arg.name)
      then (record arg { name = strncpy arg.name val len }, set accept 0 true)
      else (arg, accept)
    else if same (codes "server") key
    then if leb len (length arg.server)
      then (record arg { server = strncpy arg.server val len }, set accept 1 true)
      else (arg, accept)
    else if same (codes "user") key
    then if leb len (length arg.user)
      then (record arg { user = strncpy arg.user val len }, set accept 2 true)
      else (arg, accept)
    else if same (codes "passwd") key
    then if leb len (length arg.passwd)
      then (record arg { passwd = strncpy arg.passwd val len }, set accept 3 true)
      else (arg, accept)
    else if same (codes "path") key
    then if leb len (length arg.path)
      then (record arg { path = strncpy arg.path val len }, set accept 4 true)
      else (arg, accept)
    else (arg, accept)

-- A number with a minus.
unfoldable pub negative : ℕ → ℤ
negative n = if n == 0 then pos 0 else negsuc (n - 1)

-- `atoi`, for a number that an int holds.
unfoldable pub atoi : Text → ℤ
unfolding is_space value negative
atoi [] = pos 0
atoi (c ∷ cs) =
    let later = atoi cs in
    if is_space c
    then later
    else if c == b'-'
    then negative (value 0 cs)
    else if c == b'+'
    then pos (value 0 cs)
    else pos (value 0 (c ∷ cs))

-- The length of `run_path` is compared with the size of `account_path`, and it need not be given.
unfoldable pub server_config : Text → Text → ServerArg × List Bool → ServerArg × List Bool
unfolding same strncpy atoi string_in
server_config key val (arg, accept) =
    let len = length val in
    if same (codes "path") key
    then if leb len (length arg.path)
      then (record arg { path = strncpy arg.path val len }, set accept 0 true)
      else (arg, accept)
    else if same (codes "account_path") key
    then if leb len (length arg.account_path)
      then (record arg { account_path = strncpy arg.account_path val len }, set accept 1 true)
      else (arg, accept)
    else if same (codes "thread") key
    then (record arg { thread = atoi (string_in val) }, set accept 2 true)
    else if same (codes "run_path") key
    then if leb len (length arg.account_path)
      then (record arg { run_path = strncpy arg.run_path val len }, accept)
      else (arg, accept)
    else (arg, accept)

-- What `parse_arg` returns, behind the loop.
unfoldable pub verdict : {A : Type 0} → ℕ → Option (A × List Bool) → Option (ℕ × A)
unfolding all_accepted
verdict code none = none
verdict code (some (arg, accept)) = some (if all_accepted accept then code else 0, arg)

-- `memset` in `csiebox_client_init`: 30 bytes for a name, a server, a user and a password.
unfoldable pub empty_client : ℕ → ClientArg
empty_client path_max = record {
  name = replicate 30 0;
  server = replicate 30 0;
  user = replicate 30 0;
  passwd = replicate 30 0;
  path = replicate path_max 0;
}

-- `file` is what `argv[1]` holds, when it opens; `none` is a write out of bounds.
unfoldable pub client_parse_arg : ℕ → Option Text → ClientArg → Option (ℕ × ClientArg)
unfolding client_config verdict read_file
client_parse_arg argc none arg = some (0, arg)
client_parse_arg argc (some file) arg =
    let read = read_file client_config file (arg, replicate 5 false) in
    if argc == 2 then verdict 1 read else some (0, arg)

-- 2 is a start as a daemon.
unfoldable pub server_parse_arg : ℕ → Option Text → ServerArg → Option (ℕ × ServerArg)
unfolding server_config verdict read_file
server_parse_arg argc none arg = some (0, arg)
server_parse_arg argc (some file) arg =
    let read = read_file server_config file (arg, replicate 3 false) in
    if leb 2 argc then verdict (if argc == 3 then 2 else 1) read else some (0, arg)
