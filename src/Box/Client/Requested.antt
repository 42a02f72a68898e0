-- ===== src/Box/Client/Requested.antt =====
-- MP5/src/csiebox_client.c: what a part of the walk of `sync_all` should send, and that the steps
-- for one entry do.
use mathlib.Core.Path.{subst}
use sp.Prelude.{
  ℕ, ◌≡◌, ◌≢◌, refl, sym, ap, ◌∙◌, List, [], ◌∷◌, ◌++◌, Option, none, some, Bool, true, false, ℤ,
  ℤ_discrete, if_neg, append-nil, append_assoc, if◌then◌else◌,
}
use sp.Loser.Text.{Text}
use sp.Hash.{Chain}
use sp.Hash.Table.{IsReady, view}
use sp.Hash.Operations.{put_into_hash-Puts}
use sp.Box.Sessions.{slash}
use sp.Box.Sync.{Stat, Upload}
use sp.Box.Client.{
  Entry, file, dir, Entries, no_more, entry, Request, sync_request, Walk, send, sync_file_data,
  sync_file_meta, hash_of_file, sync_file, add_inotify, check_walked_dir, watched, walked, is_dot,
}
use sp.Box.Client.Paths.{convert_to_relative_path}
use sp.Box.Client.Blocks.{whole_data, sync_file_data-whole_data}

abbrev pub AllOther : ℤ → List ℤ → Type 0
AllOther q [] = Unit {0}
AllOther q (x ∷ xs) = (q ≢ x) × AllOther q xs

-- Numbers that are new to a table, and to each other.
abbrev pub AllFresh : List (Chain Text) → List ℤ → Type 0
AllFresh bs [] = Unit {0}
AllFresh bs (x ∷ xs) = (view bs x ≡ none) × AllOther x xs × AllFresh bs xs

still_fresh :
    (bs bs' : List (Chain Text)) (k : ℤ) (xs : List ℤ)
    → ((q : ℤ) → k ≢ q → view bs' q ≡ view bs q)
    → AllOther k xs
    → AllFresh bs xs
    → AllFresh bs' xs
still_fresh bs bs' k [] h o f = tt
still_fresh bs bs' k (x ∷ xs) h o f = (h x o.0 ∙ f.0, f.1, still_fresh bs bs' k xs h o.1 f.2)

-- The tables are well formed, and the numbers still to come are new.
pub record Goes (todo : List ℤ) (w : Walk) : Type 0 where
  pub dirs : List (Chain Text)
  pub dirs_ready : IsReady w.client.dir_hash dirs
  pub watches : List (Chain Text)
  pub watches_ready : IsReady w.client.inotify_hash watches
  pub fresh : AllFresh dirs todo

module _ (md5 : Text → Text) (junk : Text) (add_watch : Text → ℤ) where
  -- What is sent for one entry, if its path lies below the root.
  unfoldable pub request_from : ℕ → Stat → Option Text → Option Text → List Request
  request_from client_id stat content none = []
  request_from client_id stat content (some relative) =
      sync_request
        (record {
          client_id = client_id;
          file = relative;
          stat = stat;
          hash = hash_of_file md5 stat content;
        })
        (whole_data stat content)
      ∷ []

  unfoldable pub request_of : Text → ℕ → Text → Text → Stat → Option Text → List Request
  unfolding request_from
  request_of root client_id cwd name stat content =
      request_from client_id stat content (convert_to_relative_path root cwd name junk)

  unfoldable mutual
    unfolding request_of is_dot

    -- The requests for a tree: each entry, and behind a directory that can be entered its own.
    pub requests_of : Text → ℕ → Text → Entries → List Request
    requests_of root id cwd no_more = []
    requests_of root id cwd (entry e es) = requests_at root id cwd e ++ requests_of root id cwd es

    pub requests_at : Text → ℕ → Text → Entry → List Request
    requests_at root id cwd (file name stat content) =
        if is_dot name then [] else request_of root id cwd name stat content
    requests_at root id cwd (dir name stat st_ino enters es) =
        let below = requests_of root id (cwd ++ (slash ++ name)) es in
        if is_dot name
        then []
        else request_of root id cwd name stat none ++ (if enters then below else [])

  unfoldable mutual
    unfolding is_dot

    -- The numbers of the directories that are entered, in front of others.
    pub numbers_of : Entries → List ℤ → List ℤ
    numbers_of no_more rest = rest
    numbers_of (entry e es) rest = numbers_at e (numbers_of es rest)

    pub numbers_at : Entry → List ℤ → List ℤ
    numbers_at (file name stat content) rest = rest
    numbers_at (dir name stat st_ino enters es) rest =
        let below = numbers_of es rest in
        if is_dot name then rest else if enters then st_ino ∷ below else rest

  -- What a part of the walk leaves.
  pub record Sends (requests : List Request) (todo : List ℤ) (w w' : Walk) : Type 0 where
    pub sent_lem : w'.sent ≡ w.sent ++ requests
    pub same_root : w'.client.root ≡ w.client.root
    pub same_id : w'.client.client_id ≡ w.client.client_id
    pub goes : Goes todo w'

  pub nothing_sent : (todo : List ℤ) (w : Walk) → Goes todo w → Sends [] todo w w
  nothing_sent todo w g = record {
    sent_lem = sym (append-nil w.sent);
    same_root = refl;
    same_id = refl;
    goes = g;
  }

  pub two_parts :
      (a b : List Request) (x y : List ℤ) (w w' w'' : Walk)
      → Sends a x w w'
      → Sends b y w' w''
      → Sends (a ++ b) y w w''
  two_parts a b x y w w' w'' s t = record {
    sent_lem = t.sent_lem ∙ ap (λ l. l ++ b) s.sent_lem ∙ append_assoc w.sent a b;
    same_root = t.same_root ∙ s.same_root;
    same_id = t.same_id ∙ s.same_id;
    goes = t.goes;
  }

  sync_file-Sends :
      (cwd name : Text) (stat : Stat) (content : Option Text) (todo : List ℤ) (w : Walk)
      → Goes todo w
      → Sends
          (request_of w.client.root w.client.client_id cwd name stat content)
          todo
          w
          (sync_file md5 junk add_watch cwd name stat content w)
  unfolding sync_file request_of sync_file_meta send
  sync_file-Sends cwd name stat content todo w g =
      by_path (convert_to_relative_path w.client.root cwd name junk)
    where
      by_path :
          (o : Option Text)
          → Sends (request_from w.client.client_id stat content o) todo w (elim o [
            | none ↦ w
            | some relative ↦ send w (
                sync_request
                  (sync_file_meta md5 w.client relative stat content)
                  (sync_file_data stat content))
          ])
      by_path none = nothing_sent todo w g
      by_path (some relative) = record {
        sent_lem =
            ap
              (λ (u : Upload).
                w.sent ++ sync_request (sync_file_meta md5 w.client relative stat content) u ∷ [])
              (sync_file_data-whole_data stat content);
        same_root = refl;
        same_id = refl;
        goes = record {
          dirs = g.dirs;
          dirs_ready = g.dirs_ready;
          watches = g.watches;
          watches_ready = g.watches_ready;
          fresh = g.fresh;
        };
      }

  pub add_inotify-Goes :
      (path : Text) (todo : List ℤ) (w : Walk)
      → Goes todo w
      → (w' : Walk) × (add_inotify md5 junk add_watch path w ≡ some w') × Sends [] todo w w'
  unfolding add_inotify watched
  add_inotify-Goes path todo w g =
      let (r, e, puts) = put_into_hash-Puts g.watches_ready (add_watch path) path in
      (
        record w { client = record w.client { inotify_hash = r.1 } },
        ap (watched w) e,
        record {
          sent_lem = sym (append-nil w.sent);
          same_root = refl;
          same_id = refl;
          goes = record {
            dirs = g.dirs;
            dirs_ready = g.dirs_ready;
            watches = puts.buckets;
            watches_ready = puts.ready;
            fresh = g.fresh;
          };
        },
      )

  pub check_walked_dir-Goes :
      (cwd : Text) (st_ino : ℤ) (todo : List ℤ) (w : Walk)
      → Goes (st_ino ∷ todo) w
      → (w' : Walk) × (check_walked_dir md5 junk add_watch cwd st_ino w ≡ some (true, w'))
        × Sends [] todo w w'
  unfolding check_walked_dir walked
  check_walked_dir-Goes cwd st_ino todo w g =
      let (r, e, puts) = put_into_hash-Puts g.dirs_ready st_ino cwd in
      let new : r.0 ≡ true =
        puts.returns ∙ ap (λ o. elim o [ none ↦ true | some _ ↦ false ]) g.fresh.0 in
      (
        record w { client = record w.client { dir_hash = r.1 } },
        ap (walked w) e
            ∙ ap (λ b. some (b, record w { client = record w.client { dir_hash = r.1 } })) new,
        record {
          sent_lem = sym (append-nil w.sent);
          same_root = refl;
          same_id = refl;
          goes = record {
            dirs = puts.buckets;
            dirs_ready = puts.ready;
            watches = g.watches;
            watches_ready = g.watches_ready;
            fresh =
                still_fresh g.dirs puts.buckets st_ino todo
                  (λ q ne. puts.reads q ∙ if_neg (ℤ_discrete st_ino q) ne _ _) g.fresh.1 g.fresh.2;
          };
        },
      )

  pub file-Sends :
      (root : Text) (id : ℕ) (cwd name : Text) (stat : Stat) (content : Option Text) (todo : List ℤ)
      (w : Walk)
      → w.client.root ≡ root
      → w.client.client_id ≡ id
      → Goes todo w
      → Sends
          (request_of root id cwd name stat content)
          todo
          w
          (sync_file md5 junk add_watch cwd name stat content w)
  file-Sends root id cwd name stat content todo w r i g =
      subst
        (λ (t : Text).
          Sends (request_of t id cwd name stat content) todo w
            (sync_file md5 junk add_watch cwd name stat content w))
        r
        (subst
          (λ (k : ℕ).
            Sends (request_of w.client.root k cwd name stat content) todo w
              (sync_file md5 junk add_watch cwd name stat content w))
          i (sync_file-Sends cwd name stat content todo w g))

  module _ (name : Text) (stat : Stat) (st_ino : ℤ) (enters : Bool) (es : Entries)
      (rest : List ℤ) where
    pub numbers_of_dot :
        is_dot name ≡ true → numbers_at (dir name stat st_ino enters es) rest ≡ rest
    unfolding numbers_of
    numbers_of_dot d = rw d

    pub numbers_of_entered :
        is_dot name ≡ false
        → enters ≡ true
        → numbers_at (dir name stat st_ino enters es) rest ≡ st_ino ∷ numbers_of es rest
    unfolding numbers_of
    numbers_of_entered n c = rw (n, c)

    pub numbers_of_closed :
        is_dot name ≡ false
        → enters ≡ false
        → numbers_at (dir name stat st_ino enters es) rest ≡ rest
    unfolding numbers_of
    numbers_of_closed n c = rw (n, c)
