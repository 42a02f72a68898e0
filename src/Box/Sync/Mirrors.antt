-- ===== src/Box/Sync/Mirrors.antt =====
-- MP5/src/csiebox_server.c: after `sync_file` the server has what the client has.
use sp.Prelude.{
  ℕ, ◌/◌, ◌≤◌, ◌<◌, ◌≡◌, ◌≢◌, refl, sym, ap, ◌∙◌, [], ◌∷◌, ◌++◌, Option, none, some, Bool, true,
  false, not, ◌||◌, leb, inl, inr, Option-cases, Bool-cases, ◌==◌, if◌then◌else◌, length, take,
  arith,
}
use sp.Loser.Text.{Text}
use sp.Loser.Text.Laws.{same_refl}
use sp.Box.Transfer.Complete.{copy_loop-take}
use sp.Box.Sessions.{Server, ok, more, check_client_and_get_homedir}
use sp.Box.Sync.{
  Stat, Os, Meta, Upload, Done, is_dir, update_stat, current_hash, md5_file, store, meta_answer,
  file_answer, sync_new, sync_old, sync_file,
}

-- What POSIX says of the calls, for one path; `content` is what a file holds. A file that `open`
-- creates where nothing is is a regular one, and `chmod` does not change the type of a file. A symbolic link (the
-- type 10) is left out: `chmod` and `utime` follow it, and `lstat` does not.
pub record IsPosix {F : Type 0} (os : Os F) (content : F → Text → Option Text) : Type 0 where
  pub create-content : (f f' : F) (p w : Text) → os.create f p w ≡ some f' → content f' p ≡ some w
  pub create-stat :
      (f f' : F) (p w : Text)
      → os.lstat f p ≡ none
      → os.create f p w ≡ some f'
      → (s : Stat) × (os.lstat f' p ≡ some s) × (s.mode / 4096 ≡ 8)
  pub chmod-content : (f : F) (p : Text) (m : ℕ) → content (os.chmod f p m) p ≡ content f p
  pub chmod-stat :
      (f : F) (p : Text) (m : ℕ) (s : Stat)
      → os.lstat f p ≡ some s
      → s.mode / 4096 ≢ 10
      → s.mode / 4096 ≡ m / 4096
      → os.lstat (os.chmod f p m) p ≡ some (record s { mode = m })
  pub utime-content : (f : F) (p : Text) (a m : ℕ) → content (os.utime f p a m) p ≡ content f p
  pub utime-stat :
      (f : F) (p : Text) (a m : ℕ) (s : Stat)
      → os.lstat f p ≡ some s
      → s.mode / 4096 ≢ 10
      → os.lstat (os.utime f p a m) p ≡ some (record s { atime = a; mtime = m })
  pub read-content :
      (f f' : F) (p t : Text) → os.read f p ≡ some (t, f') → content f' p ≡ content f p
  -- Reading may set the time of the last access.
  pub read-stat :
      (f f' : F) (p t : Text) (s : Stat)
      → os.read f p ≡ some (t, f')
      → os.lstat f p ≡ some s
      → (a : ℕ) × (os.lstat f' p ≡ some (record s { atime = a }))

module _ {F : Type 0} (os : Os F) (content : F → Text → Option Text) (posix : IsPosix os content)
    (md5 : Text → Text) where
  -- The file is there with this content and this mode and these times.
  pub record Holds (files : F) (path : Text) (held : Option Text) (stat : Stat) : Type 0 where
    pub held_lem : content files path ≡ held
    pub stat_lem : os.lstat files path ≡ some stat

  pub stored :
      (files f' : F) (path : Text) (meta : Meta) (upload : Upload)
      → is_dir meta.stat.mode ≡ false
      → upload.datalen ≤ length upload.stream
      → os.create files path (take upload.datalen upload.stream) ≡ some f'
      → store os md5 files path meta upload ≡ some f'
  unfolding store
  stored files f' path meta upload d has e =
      rw (d, copy_loop-take upload.datalen upload.stream has, e)

  pub settled :
      (f : F) (path : Text) (meta : Meta) (s : Stat) (held : Option Text)
      → content f path ≡ held
      → os.lstat f path ≡ some s
      → s.mode / 4096 ≢ 10
      → s.mode / 4096 ≡ meta.stat.mode / 4096
      → Holds
          (os.utime (os.chmod f path meta.stat.mode) path meta.stat.atime meta.stat.mtime)
          path
          held
          meta.stat
  settled f path meta s held h e no_link same_type = record {
    held_lem =
        posix.utime-content _ path meta.stat.atime meta.stat.mtime
        ∙ posix.chmod-content f path meta.stat.mode
        ∙ h;
    stat_lem =
        posix.utime-stat _ path meta.stat.atime meta.stat.mtime (record s { mode = meta.stat.mode })
          (posix.chmod-stat f path meta.stat.mode s e no_link same_type)
          (λ l. no_link (same_type ∙ l));
  }

  pub regular_lem : (m : ℕ) → m / 4096 ≡ 8 → is_dir m ≡ false
  unfolding is_dir
  regular_lem m e = rw e

  -- A regular file that is new to the server of a client that is logged in, at a path below 4096
  -- bytes, whose data comes whole
  -- and which can be created: the client is asked for the data, then told that all went well, and
  -- the server has the file with the client's content, mode and times.
  pub sync_file-new :
      (server : Server) (files f' : F) (fd : ℕ) (meta : Meta) (upload : Upload) (homedir : Text)
      → check_client_and_get_homedir server fd meta.client_id ≡ some homedir
      → length (homedir ++ meta.file) < 4096
      → os.lstat files (homedir ++ meta.file) ≡ none
      → meta.stat.mode / 4096 ≡ 8
      → upload.datalen ≤ length upload.stream
      → os.create files (homedir ++ meta.file) (take upload.datalen upload.stream) ≡ some f'
      → (d : Done F) × (sync_file os md5 server files fd meta upload ≡ some d)
        × (d.answers ≡ meta_answer os md5 fd more ∷ file_answer os md5 fd ∷ [])
        × Holds d.files (homedir ++ meta.file) (some (take upload.datalen upload.stream)) meta.stat
  unfolding sync_file sync_new
  sync_file-new server files f' fd meta upload homedir known short absent regular has e =
      let path = homedir ++ meta.file in
      let l : leb 4096 (length path) ≡ false = ground arith in
      let (s, es, ts) =
        posix.create-stat files f' path (take upload.datalen upload.stream) absent e in
      (
        record {
          files = os.utime (os.chmod f' path meta.stat.mode) path meta.stat.atime meta.stat.mtime;
          answers = meta_answer os md5 fd more ∷ file_answer os md5 fd ∷ [];
        },
        rw (
          sync_file,
          known,
          l,
          absent,
          sync_new,
          stored files f' path meta upload (regular_lem meta.stat.mode regular) has e,
        ),
        refl,
        settled f' path meta s _ (posix.create-content files f' path _ e) es (λ l. omega arith)
            (ts ∙ sym regular),
      )

  mode_step :
      (files : F) (path : Text) (s : Stat) (m : ℕ) (b : Bool)
      → (s.mode == m) ≡ b
      → os.lstat files path ≡ some s
      → s.mode / 4096 ≢ 10
      → s.mode / 4096 ≡ m / 4096
      → Holds
          (if b then files else os.chmod files path m)
          path
          (content files path)
          (record s { mode = m })
  mode_step files path s m true h e no_link same_type =
      let q : s.mode ≡ m = ground arith in
      record { held_lem = refl; stat_lem = e ∙ ap (λ t. some (record s { mode = t })) q }
  mode_step files path s m false h e no_link same_type = record {
    held_lem = posix.chmod-content files path m;
    stat_lem = posix.chmod-stat files path m s e no_link same_type;
  }

  time_step :
      (f : F) (path : Text) (held : Option Text) (s : Stat) (a m : ℕ) (b : Bool)
      → (not (s.atime == a) || not (s.mtime == m)) ≡ b
      → s.mode / 4096 ≢ 10
      → Holds f path held s
      → Holds (if b then os.utime f path a m else f) path held (record s { atime = a; mtime = m })
  time_step f path held s a m true h no_link r = record {
    held_lem = posix.utime-content f path a m ∙ r.held_lem;
    stat_lem = posix.utime-stat f path a m s r.stat_lem no_link;
  }
  time_step f path held s a m false h no_link r =
      let p : s.atime ≡ a = ground arith in
      let q : s.mtime ≡ m = ground arith in
      record {
        held_lem = r.held_lem;
        stat_lem =
            r.stat_lem
            ∙ ap (λ t. some (record s { atime = t })) p
            ∙ ap (λ t. some (record s { atime = a; mtime = t })) q;
      }

  -- What `update_stat` leaves: the content, and the client's mode and times.
  updated :
      (files : F) (path : Text) (meta : Meta) (s : Stat)
      → os.lstat files path ≡ some s
      → s.mode / 4096 ≢ 10
      → s.mode / 4096 ≡ meta.stat.mode / 4096
      → Holds (update_stat os md5 files path s meta.stat) path (content files path) meta.stat
  unfolding update_stat
  updated files path meta s e no_link same_type =
      time_step _ path (content files path) (record s { mode = meta.stat.mode }) meta.stat.atime
        meta.stat.mtime _ refl (λ l. no_link (same_type ∙ l))
        (mode_step files path s meta.stat.mode _ refl e no_link same_type)

  -- What is left of a file when its digest was looked for: a directory is not read.
  HoldsRead : F → Text → Option Text → Stat → Bool → Type 0
  HoldsRead f path held stat directory =
      (a : ℕ) × Holds f path held (record stat { atime = a }) × (directory ≡ true → a ≡ stat.atime)

  md5_file-Holds :
      (f : F) (path : Text) (held : Option Text) (stat : Stat)
      → Holds f path held stat
      → (a : ℕ) × Holds (md5_file os md5 f path).1 path held (record stat { atime = a })
  unfolding md5_file
  md5_file-Holds f path held stat h = elim (Option-cases (os.read f path)) [
    | inl e ↦ rw (md5_file, e) (stat.atime, h)
    | inr ((t, f'), e) ↦
        let (a, changed) = posix.read-stat f f' path t stat e h.stat_lem in
        rw (md5_file, e)
          (
            a,
            record { held_lem = posix.read-content f f' path t e ∙ h.held_lem; stat_lem = changed },
          )
  ]

  current_hash-HoldsRead :
      (f : F) (path : Text) (held : Option Text) (stat s : Stat)
      → Holds f path held stat
      → HoldsRead (current_hash os md5 f path s).1 path held stat (is_dir s.mode)
  unfolding current_hash HoldsRead
  current_hash-HoldsRead f path held stat s h = elim (Bool-cases (is_dir s.mode)) [
    | inl d ↦ rw d (stat.atime, h, λ _. refl)
    | inr n ↦
        let (a, r) = md5_file-Holds f path held stat h in
        rw n (a, r, λ (e : false ≡ true). absurd (cc))
  ]

  -- Something but a symbolic link that the server of a client that is logged in has already, at a
  -- path below 4096 bytes, of the type and with the
  -- digest that the client sent: the only answer is that all is well, the content stays, and the
  -- mode and the time of the last change are the client's. So is the time of the last access of a
  -- directory; that of anything else is what reading it for its digest leaves.
  pub sync_file-known :
      (server : Server) (files : F) (fd : ℕ) (meta : Meta) (upload : Upload) (homedir : Text)
      (s : Stat)
      → check_client_and_get_homedir server fd meta.client_id ≡ some homedir
      → length (homedir ++ meta.file) < 4096
      → os.lstat files (homedir ++ meta.file) ≡ some s
      → s.mode / 4096 ≢ 10
      → s.mode / 4096 ≡ meta.stat.mode / 4096
      → (current_hash os md5
          (update_stat os md5 files (homedir ++ meta.file) s meta.stat)
          (homedir ++ meta.file)
          s).0
        ≡ meta.hash
      → (d : Done F) × (sync_file os md5 server files fd meta upload ≡ some d)
        × (d.answers ≡ meta_answer os md5 fd ok ∷ [])
        × (a : ℕ) × Holds d.files
            (homedir ++ meta.file)
            (content files (homedir ++ meta.file))
            (record meta.stat { atime = a })
        × (is_dir s.mode ≡ true → a ≡ meta.stat.atime)
  unfolding sync_file sync_old HoldsRead
  sync_file-known server files fd meta upload homedir s known short there no_link same_type e =
      let path = homedir ++ meta.file in
      let l : leb 4096 (length path) ≡ false = ground arith in
      let (a, h, exact) =
        current_hash-HoldsRead (update_stat os md5 files path s meta.stat) path (content files path)
          meta.stat s (updated files path meta s there no_link same_type) in
      (
        record {
          files = (current_hash os md5 (update_stat os md5 files path s meta.stat) path s).1;
          answers = meta_answer os md5 fd ok ∷ [];
        },
        rw (sync_file, known, l, there, sync_old, e, same_refl meta.hash),
        refl,
        a,
        h,
        exact,
      )
