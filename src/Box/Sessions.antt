-- ===== src/Box/Sessions.antt =====
-- MP5/src/csiebox_server.c: logging in and out, and which requests a client may make. The
-- account file is read afresh at each login; `md5` is that of libbsd, a parameter.
pub mod Accounts
pub mod Runs
use sp.Prelude.{
  ℕ, zero, suc, ◌+◌, List, [], ◌∷◌, ◌++◌, Option, none, some, Bool, true, false, leb, ◌==◌,
  if◌then◌else◌, length,
}
use sp.Loser.Text.{Text, codes, same}

-- `getline`: each line with its newline; the last one may lack it.
unfoldable pub lines : Text → Text → List Text
lines [] [] = []
lines (x ∷ line) [] = (x ∷ line) ∷ []
lines line (c ∷ cs) =
    let rest = lines (if c == b'\n' then [] else line ++ c ∷ []) cs in
    if c == b'\n' then (line ++ c ∷ []) ∷ rest else rest

-- `buf[len] = 0` with `len` one less than what `getline` read.
unfoldable pub drop_last : Text → Text
drop_last [] = []
drop_last (x ∷ []) = []
drop_last (x ∷ y ∷ xs) = x ∷ drop_last (y ∷ xs)

-- `strtok(..., ",")` in a token: the token and what is behind its comma.
unfoldable pub token : Text → Text → Text × Text
token t [] = (t, [])
token t (c ∷ cs) = let more = token (t ++ c ∷ []) cs in if c == b',' then (t, cs) else more

-- `strtok` skips the commas in front; `none` is no token.
unfoldable pub strtok : Text → Option (Text × Text)
unfolding token
strtok [] = none
strtok (c ∷ cs) = let later = strtok cs in if c == b',' then later else some (token [] (c ∷ cs))

module _ (md5 : Text → Text) where
  unfoldable pub account_loop : Text → List Text → Option Text
  unfolding drop_last strtok same
  account_loop user [] = none
  account_loop user (l ∷ ls) =
      let later = account_loop user ls in
      if leb (length l) 1 then none else elim (strtok (drop_last l)) [
        | none ↦ later
        | some (u, rest) ↦
            if same user u
            then elim (strtok rest) [ none ↦ later | some (passwd, _) ↦ some (md5 passwd) ]
            else later
      ]

  -- The hash of the password of the account; the file may not open.
  unfoldable pub get_account_info : Option Text → Text → Option Text
  unfolding account_loop lines
  get_account_info none user = none
  get_account_info (some file) user = account_loop user (lines [] file)

pub data Op : Type 0 where
  op_login : Op
  op_sync_meta : Op
  op_sync_file : Op
  op_rm : Op
  op_request : Op

pub data Status : Type 0 where
  ok : Status
  fail : Status
  more : Status
  busy : Status

-- The header of an answer; `op_request` is the code of the request, sent back when all are busy.
pub record Response : Type 0 where
  pub op : Op
  pub status : Status
  pub client_id : ℕ

pub record Info : Type 0 where
  pub user : Text
  pub in_thread : Bool

pub record Server : Type 0 where
  pub path : Text
  pub client : ℕ → Option Info

unfoldable pub set_client : Server → ℕ → Option Info → Server
set_client server fd info = record server {
  client = λ i. if i == fd then info else server.client i;
}

abbrev pub slash : Text
slash = codes "/"

unfoldable pub get_user_homedir : Server → Info → Text
get_user_homedir server info = server.path ++ (slash ++ info.user)

-- The new server, the answer, and the directory to make. The last argument is the account's hash.
unfoldable pub login_with :
    Server → ℕ → Text → Text → Option Text → Server × (Response × Option Text)
unfolding set_client get_user_homedir same
login_with server fd user passwd_hash none =
    (server, (record { op = op_login; status = fail; client_id = 0 }, none))
login_with server fd user passwd_hash (some hash) =
    let info : Info = record { user = user; in_thread = false } in
    if same passwd_hash hash
    then (
      set_client server fd (some info),
      (record { op = op_login; status = ok; client_id = fd }, some (get_user_homedir server info)),
    )
    else (server, (record { op = op_login; status = fail; client_id = 0 }, none))

unfoldable pub login :
    (Text → Text) → Option Text → Server → ℕ → Text → Text → Server × (Response × Option Text)
unfolding get_account_info login_with
login md5 accounts server fd user passwd_hash =
    login_with server fd user passwd_hash (get_account_info md5 accounts user)

unfoldable pub logout : Server → ℕ → Server
unfolding set_client
logout server fd = set_client server fd none

unfoldable pub check_client_and_get_homedir : Server → ℕ → ℕ → Option Text
unfolding get_user_homedir
check_client_and_get_homedir server fd client_id = elim (server.client fd) [
  | none ↦ none
  | some info ↦ if fd == client_id then some (get_user_homedir server info) else none
]
