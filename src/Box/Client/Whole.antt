-- ===== src/Box/Client/Whole.antt =====
-- MP5/src/csiebox_client.c and MP5/src/csiebox_server.c: the first walk of a client over its directory,
-- and the server that answers it.
use mathlib.Core.Path.{subst}
use sp.Prelude.{
  if◌then◌else◌, append-nil, ℕ, ◌/◌, ◌<◌, ◌≡◌, refl, ap, ◌∙◌, inl, inr, List, [], ◌∷◌, ◌++◌, Option,
  none, some, true, ℤ, Bool-cases, length,
}
use sp.Loser.Text.{Text}
use sp.Box.Sessions.{slash, Server, check_client_and_get_homedir}
use sp.Box.Sync.{Stat, Os}
use sp.Box.Sync.Mirrors.{IsPosix, regular_lem}
use sp.Box.Client.{
  Entry, file, dir, Entries, no_more, entry, Request, sync_request, meta_request, rm_request, Walk,
  is_dot, sync_all,
}
use sp.Box.Client.Paths.{convert_to_relative_path}
use sp.Box.Client.Blocks.{whole_data}
use sp.Box.Client.Requested.{Goes, request_from, request_of, requests_of, requests_at, numbers_of}
use sp.Box.Client.Tree.{sync_all-requests_of}
use sp.Box.Client.Mirror.{
  answer_all, AllSound, AllNew, AllInside, AllApart, AllHeld, answer_all-AllHeld,
}
use sp.Box.Client.Folders.{is_usable, IsFramed, MakesFiles, Usable}

-- A tree of directories that their owner can use and of regular files that open.
abbrev mutual
  pub AllPlain : Entries → Type 0
  AllPlain no_more = Unit {0}
  AllPlain (entry e es) = IsPlain e × AllPlain es

  pub IsPlain : Entry → Type 0
  IsPlain (file name stat none) = ⊥
  IsPlain (file name stat (some content)) = stat.mode / 4096 ≡ 8
  IsPlain (dir name stat st_ino enters es) =
      ((stat.mode / 4096 ≡ 4) × (is_usable stat.mode ≡ true)) × AllPlain es

-- Paths that fit into the server's buffers.
abbrev pub AllShort : Text → List Request → Type 0
AllShort homedir [] = Unit {0}
AllShort homedir (sync_request meta upload ∷ rs) =
    (length (homedir ++ meta.file) < 4096) × AllShort homedir rs
AllShort homedir (_ ∷ rs) = ⊥

AllShort-front :
    (homedir : Text) (xs ys : List Request) → AllShort homedir (xs ++ ys) → AllShort homedir xs
AllShort-front homedir [] ys h = tt
AllShort-front homedir (sync_request meta upload ∷ xs) ys h =
    (h.0, AllShort-front homedir xs ys h.1)
AllShort-front homedir (meta_request meta ∷ xs) ys h = absurd h
AllShort-front homedir (rm_request id f ∷ xs) ys h = absurd h

AllShort-back :
    (homedir : Text) (xs ys : List Request) → AllShort homedir (xs ++ ys) → AllShort homedir ys
AllShort-back homedir [] ys h = h
AllShort-back homedir (sync_request meta upload ∷ xs) ys h = AllShort-back homedir xs ys h.1
AllShort-back homedir (meta_request meta ∷ xs) ys h = absurd h
AllShort-back homedir (rm_request id f ∷ xs) ys h = absurd h

module _ {F : Type 0} (os : Os F) (content_of : F → Text → Option Text)
    (posix : IsPosix os content_of) (Apart : Text → Text → Type 0)
    (framed : IsFramed os content_of Apart) (md5 : Text → Text) (server : Server) (fd : ℕ)
    (homedir junk : Text) (add_watch : Text → ℤ) where
  abbrev Good : List Request → Type 0
  Good rs = AllSound os content_of posix Apart framed md5 server fd homedir rs

  Good-append : (xs ys : List Request) → Good xs → Good ys → Good (xs ++ ys)
  Good-append [] ys a b = b
  Good-append (sync_request meta upload ∷ xs) ys a b = (a.0, Good-append xs ys a.1 b)
  Good-append (meta_request meta ∷ xs) ys a b = absurd a
  Good-append (rm_request id f ∷ xs) ys a b = absurd a

  found-Good :
      (stat : Stat) (content : Text) (o : Option Text)
      → stat.mode / 4096 ≡ 8
      → AllShort homedir (request_from md5 junk add_watch fd stat (some content) o)
      → Good (request_from md5 junk add_watch fd stat (some content) o)
  unfolding request_from whole_data
  found-Good stat content none regular s = tt
  found-Good stat content (some relative) regular s =
      ((refl, s.0, inr (regular, rw (regular_lem os content_of posix md5 stat.mode regular))), tt)

  dir-Good :
      (stat : Stat) (o : Option Text)
      → (stat.mode / 4096 ≡ 4) × (is_usable stat.mode ≡ true)
      → AllShort homedir (request_from md5 junk add_watch fd stat none o)
      → Good (request_from md5 junk add_watch fd stat none o)
  unfolding request_from whole_data
  dir-Good stat none d s = tt
  dir-Good stat (some relative) d s = ((refl, s.0, inl d), tt)

  mutual
    unfolding requests_of request_of

    entries-Good :
        (es : Entries) (root cwd : Text)
        → AllPlain es
        → AllShort homedir (requests_of md5 junk add_watch root fd cwd es)
        → Good (requests_of md5 junk add_watch root fd cwd es)
    entries-Good no_more root cwd p s = tt
    entries-Good (entry e es) root cwd p s =
        let xs = requests_at md5 junk add_watch root fd cwd e in
        let ys = requests_of md5 junk add_watch root fd cwd es in
        Good-append xs ys (entry-Good e root cwd p.0 (AllShort-front homedir xs ys s))
          (entries-Good es root cwd p.1 (AllShort-back homedir xs ys s))

    entry-Good :
        (e : Entry) (root cwd : Text)
        → IsPlain e
        → AllShort homedir (requests_at md5 junk add_watch root fd cwd e)
        → Good (requests_at md5 junk add_watch root fd cwd e)
    entry-Good (file name stat none) root cwd p s = absurd p
    entry-Good (file name stat (some content)) root cwd p s = elim (Bool-cases (is_dot name)) [
      | inl d ↦ rw d tt
      | inr n ↦ rw n (
          found-Good stat content (convert_to_relative_path root cwd name junk) p (
            subst
              (λ b. AllShort homedir (
                if b
                then []
                else request_of md5 junk add_watch root fd cwd name stat (some content)))
              n s))
    ]
    entry-Good (dir name stat st_ino enters es) root cwd p s = elim (Bool-cases (is_dot name)) [
      | inl d ↦ rw d tt
      | inr n ↦
          let own = request_of md5 junk add_watch root fd cwd name stat none in
          let below = requests_of md5 junk add_watch root fd (cwd ++ (slash ++ name)) es in
          let short : AllShort homedir (own ++ (if enters then below else [])) =
            subst (λ b. AllShort homedir (if b then [] else own ++ (if enters then below else [])))
              n s in
          let here : Good own =
            dir-Good stat (convert_to_relative_path root cwd name junk) p.0
              (AllShort-front homedir own (if enters then below else []) short) in
          rw n (elim (Bool-cases enters) [
            | inl c ↦
                let short' =
                  subst (λ b. AllShort homedir (own ++ (if b then below else []))) c short in
                rw c (
                  Good-append own below here (
                    entries-Good es root (cwd ++ (slash ++ name)) p.1
                      (AllShort-back homedir own below short')))
            | inr c ↦ rw (c, append-nil own) here
          ])
    ]

  -- A client that is logged in, with nothing sent yet, walks over a tree of directories that their
  -- owner can use and of regular files that open. No directory that it enters has a number in its
  -- table or that of another one. The paths that it computes fit into the server's buffers, nothing
  -- is there on the server yet, no two name one file nor the home directory, and each lies in the
  -- home directory, which is there and can be used, or in a directory that was sent before it. The
  -- server can make something where nothing is, in a directory that its owner can use, while its
  -- disk is not full. Then sync_all ends, the server answers all that it sent, and in the end it has
  -- each regular file of the tree that lies below the root, with its content, mode and times.
  pub sync_all-AllHeld :
      (cwd : Text) (st_ino : ℤ) (es : Entries) (w : Walk) (files : F)
      → MakesFiles os
      → w.sent ≡ []
      → w.client.client_id ≡ fd
      → check_client_and_get_homedir server fd fd ≡ some homedir
      → Goes (st_ino ∷ numbers_of md5 junk add_watch es []) w
      → AllPlain es
      → AllShort homedir (requests_of md5 junk add_watch w.client.root fd cwd es)
      → AllNew os content_of posix Apart framed md5 server fd homedir files
          (requests_of md5 junk add_watch w.client.root fd cwd es)
      → AllInside os content_of posix Apart framed md5 server fd homedir
          (homedir ∷ [])
          (requests_of md5 junk add_watch w.client.root fd cwd es)
      → Usable os files homedir
      → AllApart os content_of posix Apart framed md5 server fd homedir homedir
          (requests_of md5 junk add_watch w.client.root fd cwd es)
      → (w' : Walk) × (sync_all md5 junk add_watch cwd st_ino es w ≡ some w')
        × (files' : F) × (answer_all os content_of posix Apart framed md5 server fd homedir files
              w'.sent
            ≡ some files')
        × AllHeld os content_of posix Apart framed md5 server fd homedir files'
            (requests_of md5 junk add_watch w.client.root fd cwd es)
  sync_all-AllHeld cwd st_ino es w files makes none_sent id known g plain short new inside home
        apart =
      let requests = requests_of md5 junk add_watch w.client.root fd cwd es in
      let (w', e, s) = sync_all-requests_of md5 junk add_watch cwd st_ino es w g in
      let (files', a, h) =
        answer_all-AllHeld os content_of posix Apart framed md5 server fd homedir makes files
          requests known (entries-Good es w.client.root cwd plain short) new inside home apart in
      let all : w'.sent ≡ requests =
        s
        ∙ ap (λ l. l ++ requests_of md5 junk add_watch w.client.root w.client.client_id cwd es)
            none_sent
        ∙ ap (λ k. requests_of md5 junk add_watch w.client.root k cwd es) id in
      (
        w',
        e,
        files',
        ap (answer_all os content_of posix Apart framed md5 server fd homedir files) all ∙ a,
        h,
      )
