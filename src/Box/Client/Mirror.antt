-- ===== src/Box/Client/Mirror.antt =====
-- MP5/src/csiebox_client.c and MP5/src/csiebox_server.c: what the server holds once it has answered
-- all that `sync_all` sends.
use sp.Prelude.{
  ℕ, ◌/◌, ◌<◌, ◌≡◌, ◌≢◌, refl, sym, ap, ◌∙◌, ◌⊎◌, inl, inr, List, [], ◌∷◌, ◌++◌, Option, none, some,
  Bool-cases, if◌then◌else◌, true, false, leb, arith, length, take,
}
use sp.Loser.Text.{Text}
use sp.Box.Sessions.{Server, more, check_client_and_get_homedir}
use sp.Box.Sync.{
  Stat, Os, Meta, Upload, Done, is_dir, store, sync_new, sync_file, meta_answer, file_answer,
}
use sp.Box.Sync.Mirrors.{IsPosix, Holds, stored, settled, regular_lem}
use sp.Box.Client.{Request, sync_request, meta_request, rm_request}
use sp.Box.Client.Folders.{
  folder, is_usable, Leaves, Usable, IsFramed, MakesFiles, Leaves-trans, Leaves-refl, Usable-Leaves,
}

module _ {F : Type 0} (os : Os F) (content : F → Text → Option Text) (posix : IsPosix os content)
    (Apart : Text → Text → Type 0) (framed : IsFramed os content Apart) (md5 : Text → Text)
    (server : Server) (fd : ℕ) (homedir : Text) where
  -- The server answers one request after the other.
  unfoldable pub go_on : Option (Done F) → (F → Option F) → Option F
  go_on none next = none
  go_on (some d) next = next d.files

  unfoldable pub answer_all : F → List Request → Option F
  unfolding go_on
  answer_all files [] = some files
  answer_all files (sync_request meta upload ∷ rs) =
      go_on (sync_file os md5 server files fd meta upload) (λ f. answer_all f rs)
  answer_all files (other ∷ rs) = none

  abbrev path_of : Meta → Text
  path_of meta = homedir ++ meta.file

  -- Requests of the client with this connection, of directories that their owner can use or of
  -- regular files whose data is whole, at paths that fit.
  abbrev pub Sound : Meta → Upload → Type 0
  Sound meta upload =
      (meta.client_id ≡ fd)
      × (length (homedir ++ meta.file) < 4096)
      × (((meta.stat.mode / 4096 ≡ 4) × (is_usable meta.stat.mode ≡ true))
          ⊎ ((meta.stat.mode / 4096 ≡ 8) × (upload.datalen ≡ length upload.stream)))

  abbrev pub AllSound : List Request → Type 0
  AllSound [] = Unit {0}
  AllSound (sync_request meta upload ∷ rs) = Sound meta upload × AllSound rs
  AllSound (_ ∷ rs) = ⊥

  abbrev pub AllApart : Text → List Request → Type 0
  AllApart p [] = Unit {0}
  AllApart p (sync_request meta upload ∷ rs) =
      Apart p (homedir ++ meta.file) × Apart (homedir ++ meta.file) p × AllApart p rs
  AllApart p (_ ∷ rs) = Unit {0}

  -- Nothing is there yet, and no two requests are about one file.
  abbrev pub AllNew : F → List Request → Type 0
  AllNew files [] = Unit {0}
  AllNew files (sync_request meta upload ∷ rs) =
      (os.lstat files (homedir ++ meta.file) ≡ none)
      × AllApart (homedir ++ meta.file) rs
      × AllNew files rs
  AllNew files (_ ∷ rs) = Unit {0}

  abbrev pub Among : Text → List Text → Type 0
  Among p [] = ⊥
  Among p (q ∷ qs) = (p ≡ q) ⊎ Among p qs

  -- Each path lies in one of the directories, or in one that an earlier request has made.
  abbrev pub AllInside : List Text → List Request → Type 0
  AllInside made [] = Unit {0}
  AllInside made (sync_request meta upload ∷ rs) =
      Among (folder (homedir ++ meta.file)) made
      × AllInside (if is_dir meta.stat.mode then (homedir ++ meta.file) ∷ made else made) rs
  AllInside made (_ ∷ rs) = Unit {0}

  abbrev AllUsable : F → List Text → Type 0
  AllUsable files [] = Unit {0}
  AllUsable files (p ∷ ps) = Usable os files p × AllUsable files ps

  -- No request is about one of the directories.
  abbrev AllUnsent : List Text → List Request → Type 0
  AllUnsent [] rs = Unit {0}
  AllUnsent (p ∷ ps) rs = AllApart p rs × AllUnsent ps rs

  Among-Usable :
      (files : F) (p : Text) (made : List Text)
      → Among p made
      → AllUsable files made
      → Usable os files p
  Among-Usable files p [] i u = absurd i
  Among-Usable files p (q ∷ qs) (inl e) (u, us) = rw e u
  Among-Usable files p (q ∷ qs) (inr i) (u, us) = Among-Usable files p qs i us

  -- Each regular file is there with the content, the mode and the times of the client's.
  abbrev pub AllHeld : F → List Request → Type 0
  AllHeld files [] = Unit {0}
  AllHeld files (sync_request meta upload ∷ rs) =
      (meta.stat.mode / 4096 ≡ 8
        → Holds os content posix md5 files (homedir ++ meta.file) (some upload.stream) meta.stat)
      × AllHeld files rs
  AllHeld files (_ ∷ rs) = Unit {0}

  take_all : (t : Text) → take (length t) t ≡ t
  take_all [] = refl
  take_all (c ∷ t) = ap (λ l. c ∷ l) (take_all t)

  dir_lem : (m : ℕ) → m / 4096 ≡ 4 → is_dir m ≡ true
  unfolding is_dir
  dir_lem m e = rw e

  -- What `store` leaves of a request, at its path and elsewhere.
  record Stores (files : F) (meta : Meta) (upload : Upload) : Type 0 where
    after : F
    store_lem : store os md5 files (homedir ++ meta.file) meta upload ≡ some after
    elsewhere : (q : Text) → Apart (homedir ++ meta.file) q → Leaves os content files after q
    here :
        (s : Stat) × (os.lstat after (homedir ++ meta.file) ≡ some s)
        × (s.mode / 4096 ≢ 10)
        × (s.mode / 4096 ≡ meta.stat.mode / 4096)
    holds : meta.stat.mode / 4096 ≡ 8 → content after (homedir ++ meta.file) ≡ some upload.stream

  module _ (makes : MakesFiles os) where
    store-Stores :
        (files : F) (meta : Meta) (upload : Upload)
        → Sound meta upload
        → Usable os files (folder (homedir ++ meta.file))
        → os.lstat files (homedir ++ meta.file) ≡ none
        → Stores files meta upload
    unfolding store
    store-Stores files meta upload (id, short, inl (d, _)) inside absent =
        let (s, e, t) = makes.mkdir-stat files (homedir ++ meta.file) inside absent in
        let is_directory = dir_lem meta.stat.mode d in
        record {
          after = os.mkdir files (homedir ++ meta.file);
          store_lem = rw is_directory;
          elsewhere = λ q a. framed.mkdir-Leaves files (homedir ++ meta.file) q a;
          here = (s, e, λ l. omega arith, t ∙ sym d);
          holds = λ r. absurd (omega arith);
        }
    store-Stores files meta upload (id, short, inr (regular, whole)) inside absent =
        let path = homedir ++ meta.file in
        let (f', e) =
          makes.create-some files path (take upload.datalen upload.stream) inside absent in
        let all : take upload.datalen upload.stream ≡ upload.stream =
          ap (λ n. take n upload.stream) whole ∙ take_all upload.stream in
        let (s, es, ts) =
          posix.create-stat files f' path (take upload.datalen upload.stream) absent e in
        record {
          after = f';
          store_lem =
              stored os content posix md5 files f' path meta upload
                (regular_lem os content posix md5 meta.stat.mode regular) (omega arith) e;
          elsewhere =
              λ q a. framed.create-Leaves files f' path (take upload.datalen upload.stream) q a e;
          here = (s, es, λ l. omega arith, ts ∙ sym regular);
          holds = λ r. posix.create-content files f' path _ e ∙ ap some all;
        }

    abbrev finished : F → Meta → F
    finished g meta =
        os.utime (os.chmod g (homedir ++ meta.file) meta.stat.mode) (homedir ++ meta.file)
          meta.stat.atime meta.stat.mtime

    sync_file-finished :
        (files : F) (meta : Meta) (upload : Upload)
        → check_client_and_get_homedir server fd fd ≡ some homedir
        → Sound meta upload
        → os.lstat files (homedir ++ meta.file) ≡ none
        → (s : Stores files meta upload)
        → (d : Done F) × (sync_file os md5 server files fd meta upload ≡ some d)
          × (d.files ≡ finished s.after meta)
    unfolding sync_file sync_new
    sync_file-finished files meta upload known (id, short, kind) absent s =
        let l : leb 4096 (length (homedir ++ meta.file)) ≡ false = ground arith in
        let known' : check_client_and_get_homedir server fd meta.client_id ≡ some homedir =
          ap (check_client_and_get_homedir server fd) id ∙ known in
        (
          record {
            files = finished s.after meta;
            answers = meta_answer os md5 fd more ∷ file_answer os md5 fd ∷ [];
          },
          rw (sync_file, known', l, absent, sync_new, s.store_lem),
          refl,
        )

    -- The mode that is set closes no directory.
    mode_closes_none :
        (files : F) (meta : Meta) (upload : Upload)
        → Sound meta upload
        → (s : Stores files meta upload)
        → ((t : Stat) × (os.lstat s.after (homedir ++ meta.file) ≡ some t) × (t.mode / 4096 ≡ 8))
          ⊎ (is_usable meta.stat.mode ≡ true)
    mode_closes_none files meta upload (_, _, inl (d, u)) s = inr u
    mode_closes_none files meta upload (_, _, inr (regular, _)) s =
        let (t, e, _, type_t) = s.here in inl (t, e, type_t ∙ regular)

    finished-Leaves :
        (files : F) (meta : Meta) (upload : Upload)
        → Sound meta upload
        → (s : Stores files meta upload) (q : Text) → Apart (homedir ++ meta.file) q
        → Leaves os content files (finished s.after meta) q
    finished-Leaves files meta upload sound s q a =
        let path = homedir ++ meta.file in
        let g = os.chmod s.after path meta.stat.mode in
        Leaves-trans files s.after (finished s.after meta) q (s.elsewhere q a) (
          Leaves-trans s.after g (finished s.after meta) q
            (framed.chmod-Leaves s.after path meta.stat.mode q a
              (mode_closes_none files meta upload sound s))
            (framed.utime-Leaves g path meta.stat.atime meta.stat.mtime q a))

    finished-Holds :
        (files : F) (meta : Meta) (upload : Upload) (s : Stores files meta upload)
        (held : Option Text)
        → content s.after (homedir ++ meta.file) ≡ held
        → Holds os content posix md5 (finished s.after meta) (homedir ++ meta.file) held meta.stat
    finished-Holds files meta upload s held c =
        let (st, e, no_link, t) = s.here in
        settled os content posix md5 s.after (homedir ++ meta.file) meta st held c e no_link t

    -- The directories that can be used after a request.
    next-AllUsable :
        (files : F) (meta : Meta) (upload : Upload)
        → Sound meta upload
        → (s : Stores files meta upload) (made : List Text) → AllUsable (finished s.after meta) made
        → AllUsable
            (finished s.after meta)
            (if is_dir meta.stat.mode then (homedir ++ meta.file) ∷ made else made)
    next-AllUsable files meta upload (_, _, inl (d, u)) s made us =
        let h = finished-Holds files meta upload s _ refl in
        let is_directory = dir_lem meta.stat.mode d in
        rw is_directory ((meta.stat, h.stat_lem, d, u), us)
    next-AllUsable files meta upload (_, _, inr (regular, _)) s made us =
        let not_directory = regular_lem os content posix md5 meta.stat.mode regular in
        rw not_directory us

    next-AllUnsent :
        (meta : Meta) (made : List Text) (rs : List Request)
        → AllApart (homedir ++ meta.file) rs
        → AllUnsent made rs
        → AllUnsent (if is_dir meta.stat.mode then (homedir ++ meta.file) ∷ made else made) rs
    next-AllUnsent meta made rs own us = elim (Bool-cases (is_dir meta.stat.mode)) [
      | inl d ↦ rw d (own, us)
      | inr n ↦ rw n us
    ]

    kept-AllUsable :
        (f g : F) (meta : Meta) (upload : Upload) (made : List Text) (rs : List Request)
        → ((q : Text) → Apart (homedir ++ meta.file) q → Leaves os content f g q)
        → AllUnsent made (sync_request meta upload ∷ rs)
        → AllUsable f made
        → AllUsable g made × AllUnsent made rs
    kept-AllUsable f g meta upload [] rs leaves a us = (tt, tt)
    kept-AllUsable f g meta upload (q ∷ qs) rs leaves ((_, other, rest), a) (u, us) =
        let (us', as') = kept-AllUsable f g meta upload qs rs leaves a us in
        ((Usable-Leaves f g q (leaves q other) u, us'), (rest, as'))

    new_kept :
        (f g : F) (p : Text) (rs : List Request)
        → ((q : Text) → Apart p q → Leaves os content f g q)
        → AllApart p rs
        → AllNew f rs
        → AllNew g rs
    new_kept f g p [] leaves a n = tt
    new_kept f g p (sync_request meta upload ∷ rs) leaves (a, _, rest) (absent, apart, n) = (
      (leaves (homedir ++ meta.file) a).absent_lem absent,
      apart,
      new_kept f g p rs leaves rest n,
    )
    new_kept f g p (meta_request meta ∷ rs) leaves a n = tt
    new_kept f g p (rm_request id file ∷ rs) leaves a n = tt

    Holds-Leaves :
        (f g : F) (p held : Text) (s : Stat)
        → s.mode / 4096 ≡ 8
        → Leaves os content f g p
        → Holds os content posix md5 f p (some held) s
        → Holds os content posix md5 g p (some held) s
    Holds-Leaves f g p held s regular l h = record {
      held_lem = l.content_lem s h.stat_lem regular ∙ h.held_lem;
      stat_lem = l.stat_lem s h.stat_lem regular;
    }

    -- What is left when the server has answered all: the files of the requests, and everything else
    -- as it was.
    record Mirrors (files files' : F) (rs : List Request) : Type 0 where
      answered : answer_all files rs ≡ some files'
      held : AllHeld files' rs
      others : (q : Text) → AllApart q rs → Leaves os content files files' q

    one_more :
        (files f1 files' : F) (meta : Meta) (upload : Upload) (rs : List Request) (d : Done F)
        → sync_file os md5 server files fd meta upload ≡ some d
        → d.files ≡ f1
        → AllApart (homedir ++ meta.file) rs
        → ((q : Text) → Apart (homedir ++ meta.file) q → Leaves os content files f1 q)
        → (meta.stat.mode / 4096 ≡ 8
            → Holds os content posix md5 f1 (homedir ++ meta.file) (some upload.stream) meta.stat)
        → Mirrors f1 files' rs
        → Mirrors files files' (sync_request meta upload ∷ rs)
    unfolding answer_all go_on
    one_more files f1 files' meta upload rs d e same apart leaves holds m = record {
      answered =
          ap (λ o. go_on o (λ f. answer_all f rs)) e ∙ ap (λ f. answer_all f rs) same ∙ m.answered;
      held = (
        λ regular.
            Holds-Leaves f1 files' (homedir ++ meta.file) upload.stream meta.stat regular
              (m.others (homedir ++ meta.file) apart) (holds regular),
        m.held,
      );
      others =
          λ q apart_q. Leaves-trans files f1 files' q (leaves q apart_q.1) (m.others q apart_q.2);
    }

    mirrored :
        (files : F) (made : List Text) (rs : List Request)
        → check_client_and_get_homedir server fd fd ≡ some homedir
        → AllSound rs
        → AllNew files rs
        → AllInside made rs
        → AllUsable files made
        → AllUnsent made rs
        → (files' : F) × Mirrors files files' rs
    unfolding answer_all
    mirrored files made [] known s n i u a =
        (files, record { answered = refl; held = tt; others = λ q _. Leaves-refl files q })
    mirrored files made (sync_request meta upload ∷ rs) known (s, ss) (absent, apart, n) (i, is) u
          a =
        let path = homedir ++ meta.file in
        let st =
          store-Stores files meta upload s (Among-Usable files (folder path) made i u) absent in
        let (d, e, same) = sync_file-finished files meta upload known s absent st in
        let f1 = finished st.after meta in
        let leaves = finished-Leaves files meta upload s st in
        let (u1, a1) = kept-AllUsable files f1 meta upload made rs leaves a u in
        let (files', m) =
          mirrored f1 (if is_dir meta.stat.mode then path ∷ made else made) rs known ss
            (new_kept files f1 path rs leaves apart n) is
            (next-AllUsable files meta upload s st made u1)
            (next-AllUnsent meta made rs apart a1) in
        (
          files',
          one_more files f1 files' meta upload rs d e same apart leaves
              (λ regular. finished-Holds files meta upload st _ (st.holds regular)) m,
        )
    mirrored files made (meta_request meta ∷ rs) known s n i u a = absurd s
    mirrored files made (rm_request id file ∷ rs) known s n i u a = absurd s

    -- The requests of a client that is logged in, for directories that their owner can use and for
    -- regular files whose data comes whole, of which none is there yet and no two name one file,
    -- each in the home directory or in one that an earlier request has made, which `folder` finds:
    -- all are answered, and in the end each regular file is there with the content, the mode and
    -- the times that it has on the client.
    pub answer_all-AllHeld :
        (files : F) (rs : List Request)
        → check_client_and_get_homedir server fd fd ≡ some homedir
        → AllSound rs
        → AllNew files rs
        → AllInside (homedir ∷ []) rs
        → Usable os files homedir
        → AllApart homedir rs
        → (files' : F) × (answer_all files rs ≡ some files') × AllHeld files' rs
    answer_all-AllHeld files rs known s n i u a =
        let (files', m) = mirrored files (homedir ∷ []) rs known s n i (u, tt) (a, tt) in
        (files', m.answered, m.held)
