-- ===== src/Box/Client/Tree.antt =====
-- MP5/src/csiebox_client.c: `sync_all` sends every entry of the tree once, each directory before what
-- is in it.
use mathlib.Core.Path.{subst}
use sp.Prelude.{
  inl, inr, ℕ, ◌≡◌, refl, ap, ◌∙◌, List, [], ◌∷◌, ◌++◌, Option, none, some, ℤ, append-nil,
  Bool-cases,
}
use sp.Loser.Text.{Text}
use sp.Box.Sessions.{slash}
use sp.Box.Client.{
  Entry, file, dir, Entries, no_more, entry, Request, Walk, sync_file, enter, entered, is_dot,
  after, sync_entries, sync_entry, sync_all,
}
use sp.Box.Client.Requested.{
  request_of, requests_of, requests_at, numbers_of, numbers_at, Sends, numbers_of_dot,
  numbers_of_entered, numbers_of_closed, nothing_sent, two_parts, add_inotify-Goes,
  check_walked_dir-Goes, file-Sends, Goes,
}

module _ (md5 : Text → Text) (junk : Text) (add_watch : Text → ℤ) where
  -- A part of the walk that ends and sends `requests`.
  Walks : (Walk → Option Walk) → List Request → List ℤ → Walk → Type 0
  Walks part requests rest w =
      (w' : Walk) × (part w ≡ some w') × Sends md5 junk add_watch requests rest w w'

  enter-Walks :
      (loop : Walk → Option Walk) (cwd : Text) (st_ino : ℤ) (requests : List Request)
      (todo rest : List ℤ) (w : Walk)
      → Goes (st_ino ∷ todo) w
      → ((w' : Walk)
          → w'.client.root ≡ w.client.root
          → w'.client.client_id ≡ w.client.client_id
          → Goes todo w'
          → Walks loop requests rest w')
      → Walks (enter md5 junk add_watch loop cwd st_ino) requests rest w
  unfolding Walks enter entered after
  enter-Walks loop cwd st_ino requests todo rest w g inside =
      let (w1, e1, s1) = check_walked_dir-Goes md5 junk add_watch cwd st_ino todo w g in
      let (w2, e2, s2) = add_inotify-Goes md5 junk add_watch cwd todo w1 s1.goes in
      let (w3, e3, s3) =
        inside w2 (s2.same_root ∙ s1.same_root) (s2.same_id ∙ s1.same_id) s2.goes in
      (
        w3,
        ap (entered md5 junk add_watch loop cwd) e1 ∙ ap (λ o. after o loop) e2 ∙ e3,
        two_parts md5 junk add_watch [] requests todo rest w w2 w3
            (two_parts md5 junk add_watch [] [] todo todo w w1 w2 s1 s2) s3,
      )

  mutual
    unfolding sync_entries requests_of numbers_of Walks after

    entries-Walks :
        (es : Entries) (root : Text) (id : ℕ) (cwd : Text) (rest : List ℤ) (w : Walk)
        → w.client.root ≡ root
        → w.client.client_id ≡ id
        → Goes (numbers_of md5 junk add_watch es rest) w
        → Walks
            (sync_entries md5 junk add_watch es cwd)
            (requests_of md5 junk add_watch root id cwd es)
            rest
            w
    entries-Walks no_more root id cwd rest w r i g =
        (w, refl, nothing_sent md5 junk add_watch rest w g)
    entries-Walks (entry e es) root id cwd rest w r i g =
        let (w1, e1, s1) =
          entry-Walks e root id cwd (numbers_of md5 junk add_watch es rest) w r i g in
        let (w2, e2, s2) =
          entries-Walks es root id cwd rest w1 (s1.same_root ∙ r) (s1.same_id ∙ i) s1.goes in
        (
          w2,
          ap (λ o. after o (sync_entries md5 junk add_watch es cwd)) e1 ∙ e2,
          two_parts md5 junk add_watch (requests_at md5 junk add_watch root id cwd e)
              (requests_of md5 junk add_watch root id cwd es)
              (numbers_of md5 junk add_watch es rest) rest w w1 w2 s1 s2,
        )

    entry-Walks :
        (e : Entry) (root : Text) (id : ℕ) (cwd : Text) (rest : List ℤ) (w : Walk)
        → w.client.root ≡ root
        → w.client.client_id ≡ id
        → Goes (numbers_at md5 junk add_watch e rest) w
        → Walks
            (sync_entry md5 junk add_watch e cwd)
            (requests_at md5 junk add_watch root id cwd e)
            rest
            w
    entry-Walks (file name stat content) root id cwd rest w r i g =
        elim (Bool-cases (is_dot name)) [
          | inl d ↦ rw d (w, refl, nothing_sent md5 junk add_watch rest w g)
          | inr n ↦
              rw n
                (_, refl, file-Sends md5 junk add_watch root id cwd name stat content rest w r i g)
        ]
    entry-Walks (dir name stat st_ino enters es) root id cwd rest w r i g =
        elim (Bool-cases (is_dot name)) [
          | inl d ↦ rw d (
            w,
            refl,
            nothing_sent md5 junk add_watch rest w (
                subst (λ l. Goes l w)
                  (numbers_of_dot md5 junk add_watch name stat st_ino enters es rest d) g),
          )
          | inr n ↦
              let sent = sync_file md5 junk add_watch cwd name stat none w in
              let below = cwd ++ (slash ++ name) in
              rw n (elim (Bool-cases enters) [
                | inl c ↦
                    let g' =
                      subst (λ l. Goes l w)
                        (numbers_of_entered md5 junk add_watch name stat st_ino enters es rest n c)
                        g in
                    let s =
                      file-Sends md5 junk add_watch root id cwd name stat none
                        (st_ino ∷ numbers_of md5 junk add_watch es rest) w r i g' in
                    let (w', e, t) =
                      enter-Walks (sync_entries md5 junk add_watch es below) below st_ino
                        (requests_of md5 junk add_watch root id below es)
                        (numbers_of md5 junk add_watch es rest) rest sent s.goes
                        (λ w'' same_r same_i g''.
                          entries-Walks es root id below rest w'' (same_r ∙ s.same_root ∙ r)
                            (same_i ∙ s.same_id ∙ i) g'') in
                    rw c (
                      w',
                      e,
                      two_parts md5 junk add_watch
                          (request_of md5 junk add_watch root id cwd name stat none)
                          (requests_of md5 junk add_watch root id below es)
                          (st_ino ∷ numbers_of md5 junk add_watch es rest) rest w sent w' s t,
                    )
                | inr c ↦
                    let g' =
                      subst (λ l. Goes l w)
                        (numbers_of_closed md5 junk add_watch name stat st_ino enters es rest n c)
                        g in
                    let s =
                      file-Sends md5 junk add_watch root id cwd name stat none rest w r i g' in
                    rw (c, append-nil (request_of md5 junk add_watch root id cwd name stat none))
                      (sent, refl, s)
              ])
        ]

  -- When no directory that the walk enters has a number that is in the table or that another one
  -- has, sync_all ends, and has sent exactly one request for each entry that is neither . nor ..
  -- and lies below the root, in the order of the tree, a directory before what is in it.
  pub sync_all-requests_of :
      (cwd : Text) (st_ino : ℤ) (es : Entries) (w : Walk)
      → Goes (st_ino ∷ numbers_of md5 junk add_watch es []) w
      → (w' : Walk) × (sync_all md5 junk add_watch cwd st_ino es w ≡ some w')
        × (w'.sent
            ≡ w.sent ++ requests_of md5 junk add_watch w.client.root w.client.client_id cwd es)
  unfolding sync_all Walks
  sync_all-requests_of cwd st_ino es w g =
      let (w', e, s) =
        enter-Walks (sync_entries md5 junk add_watch es cwd) cwd st_ino
          (requests_of md5 junk add_watch w.client.root w.client.client_id cwd es)
          (numbers_of md5 junk add_watch es []) [] w g
          (λ w'' r i g'. entries-Walks es w.client.root w.client.client_id cwd [] w'' r i g') in
      (w', e, s.sent_lem)
