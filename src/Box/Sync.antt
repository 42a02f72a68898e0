-- ===== src/Box/Sync.antt =====
-- MP5/src/csiebox_server.c: `sync_file` and `rm_file`, over the calls of the
-- operating system, which are the parameter `os`. A message that a client announces is taken to
-- come whole but for the data of a file; its paths have no zero byte.
pub mod Mirrors
use sp.Prelude.{
  ℕ, zero, suc, ◌+◌, ◌/◌, ◌%◌, List, [], ◌∷◌, ◌++◌, Option, none, some, Bool, true, false, not,
  ◌||◌, ltb, leb, ◌==◌, if◌then◌else◌, length, replicate,
}
use sp.Loser.Text.{Text, same}
use sp.Box.Transfer.{copy_loop}
use sp.Box.Sessions.{
  Server, Response, Status, ok, more, Op, op_sync_meta, op_sync_file, op_rm, login, logout,
  check_client_and_get_homedir,
}

pub record Stat : Type 0 where
  pub mode : ℕ
  pub atime : ℕ
  pub mtime : ℕ

-- The calls that the server makes; each that can fail leaves the state alone then.
pub record Os (F : Type 0) : Type 0 where
  pub lstat : F → Text → Option Stat
  pub chmod : F → Text → ℕ → F
  pub utime : F → Text → ℕ → ℕ → F
  -- What a file holds, and the state when it is read: reading may set the time of the last access.
  pub read : F → Text → Option (Text × F)
  pub mkdir : F → Text → F
  -- `open` with `O_CREAT | O_WRONLY | O_TRUNC`, what is then written, and `close`
  pub create : F → Text → Text → Option F
  pub rmdir : F → Text → F
  pub unlink : F → Text → F

-- `csiebox_protocol_meta` and the path behind it.
pub record Meta : Type 0 where
  pub client_id : ℕ
  pub file : Text
  pub stat : Stat
  pub hash : Text

-- `csiebox_protocol_file`, and what the client sends behind it.
pub record Upload : Type 0 where
  pub datalen : ℕ
  pub stream : Text

-- `(mode & S_IFMT) == S_IFDIR`
unfoldable pub is_dir : ℕ → Bool
is_dir mode = mode / 4096 % 16 == 4

unfoldable pub no_hash : Text
no_hash = replicate 16 0

-- What a request leads to: the files, and the answers in order.
pub record Done (F : Type 0) : Type 0 where
  pub files : F
  pub answers : List Response

module _ {F : Type 0} (os : Os F) (md5 : Text → Text) where
  -- The digest, and the state behind the reading.
  unfoldable pub md5_file : F → Text → Text × F
  unfolding no_hash
  md5_file files path = elim (os.read files path) [
    | none ↦ (no_hash, files)
    | some (content, files') ↦ (md5 content, files')
  ]

  -- The mode and the times of a file that is there.
  unfoldable pub update_stat : F → Text → Stat → Stat → F
  update_stat files path stat sent =
      let files' = if stat.mode == sent.mode then files else os.chmod files path sent.mode in
      if not (stat.atime == sent.atime) || not (stat.mtime == sent.mtime)
      then os.utime files' path sent.atime sent.mtime
      else files'

  unfoldable pub current_hash : F → Text → Stat → Text × F
  unfolding is_dir no_hash md5_file
  current_hash files path stat = if is_dir stat.mode then (no_hash, files) else md5_file files path

  -- The data: a directory is made, a file is written as far as its data came.
  unfoldable pub store : F → Text → Meta → Upload → Option F
  unfolding is_dir copy_loop
  store files path meta upload =
      if is_dir meta.stat.mode
      then some (os.mkdir files path)
      else elim (copy_loop (upload.datalen / 4096 + 2) upload.datalen 0 upload.stream []) [
        | none ↦ none
        | some (written, rest) ↦ elim (os.create files path written) [
          | none ↦ some files
          | some files' ↦ some files'
        ]
      ]

  unfoldable pub meta_answer : ℕ → Status → Response
  meta_answer fd status = record { op = op_sync_meta; status = status; client_id = fd }

  unfoldable pub file_answer : ℕ → Response
  file_answer fd = record { op = op_sync_file; status = ok; client_id = fd }

  -- Nothing is there: the data is fetched, then the mode and the times are set.
  unfoldable pub sync_new : F → ℕ → Text → Meta → Upload → Option (Done F)
  unfolding store meta_answer file_answer
  sync_new files fd path meta upload = elim (store files path meta upload) [
    | none ↦ none
    | some stored ↦ some (record {
      files = os.utime (os.chmod stored path meta.stat.mode) path meta.stat.atime meta.stat.mtime;
      answers = meta_answer fd more ∷ file_answer fd ∷ [];
    })
  ]

  -- Something is there: the data is fetched when its digest is not the one that the client sent.
  unfoldable pub sync_old : F → ℕ → Text → Stat → Meta → Upload → Option (Done F)
  unfolding update_stat current_hash store meta_answer file_answer same
  sync_old files fd path stat meta upload =
      let (hash, read) = current_hash (update_stat files path stat meta.stat) path stat in
      if same hash meta.hash
      then some (record { files = read; answers = meta_answer fd ok ∷ [] })
      else elim (store read path meta upload) [
        | none ↦ none
        | some stored ↦
            some (record { files = stored; answers = meta_answer fd more ∷ file_answer fd ∷ [] })
      ]

  -- `none` is a path that does not fit into the buffers of `PATH_MAX` bytes.
  unfoldable pub sync_file : Server → F → ℕ → Meta → Upload → Option (Done F)
  unfolding check_client_and_get_homedir sync_new sync_old
  sync_file server files fd meta upload =
      elim (check_client_and_get_homedir server fd meta.client_id) [
        | none ↦ some (record { files = files; answers = [] })
        | some homedir ↦
            let req_path = homedir ++ meta.file in
            if leb 4096 (length req_path) then none else elim (os.lstat files req_path) [
              | none ↦ sync_new files fd req_path meta upload
              | some stat ↦ sync_old files fd req_path stat meta upload
            ]
      ]

  unfoldable pub rm_answer : ℕ → Response
  rm_answer fd = record { op = op_rm; status = ok; client_id = fd }

  -- A path where nothing is counts as no directory.
  unfoldable pub remove : F → Text → Option Stat → F
  unfolding is_dir
  remove files path none = os.unlink files path
  remove files path (some stat) =
      if is_dir stat.mode then os.rmdir files path else os.unlink files path

  unfoldable pub rm_file : Server → F → ℕ → ℕ → Text → Option (Done F)
  unfolding check_client_and_get_homedir remove rm_answer
  rm_file server files fd client_id file = elim (check_client_and_get_homedir server fd client_id) [
    | none ↦ some (record { files = files; answers = [] })
    | some homedir ↦
        let req_path = homedir ++ file in
        if leb 4096 (length req_path)
        then none
        else some (record {
          files = remove files req_path (os.lstat files req_path);
          answers = rm_answer fd ∷ [];
        })
  ]
