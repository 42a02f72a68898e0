-- ===== src/Mine/Protocol/Searching.antt =====
-- MP3/client/miner.c: a miner that reads its pipe or tries digests keeps in step with the boss.
use mathlib.Core.Path.{subst}
use sp.Prelude.{
  ℕ, ◌-◌, ◌≡◌, refl, ap, ◌∙◌, inl, inr, List, [], ◌∷◌, ◌++◌, Bool, true, false, ◌==◌, if◌then◌else◌,
  arith, append-nil, Bool-cases, length, ltb,
}
use sp.Loser.Text.{Text}
use sp.Mine.{is_treasure, next_append}
use sp.Mine.Miner.{
  Message, assign, send, other_found, status, Reply, found, Phase, held, trying, polling, asking,
  Miner, Turn, md5_of, received, serve, turn_reading, turn_trying, first_append, begin_rounds,
}
use sp.Mine.Protocol.Flow.{
  Flow-Opens, NextJob, Working, SyncedIn, Synced, Flow-le, Flow-current, Stale-append,
}

module _ (i n size : ℕ) (mine : Text) where
  abbrev pub After : Turn → List Reply → Type 0
  After t r = Synced i n size mine t.miner t.input (r ++ t.output)

  -- A step that writes nothing.
  quiet :
      (p : Phase) (m : Miner) (q : List Message) (r : List Reply)
      → SyncedIn i n size mine p m q r
      → SyncedIn i n size mine p m q (r ++ [])
  quiet p m q r h = rw (append-nil r) h

  pub turn_reading-Synced :
      (m : Miner) (q : List Message) (r : List Reply)
      → NextJob i n size mine m q r
      → After (turn_reading m q) r
  unfolding turn_reading serve begin_rounds
  turn_reading-Synced m q r h =
      let taken = record m {
        first_assign = false;
        treasure = received m h.new;
        jobs = record { start = i; add = n; num_of_0 = h.number };
        phase = begin_rounds (first_append i 1);
      } in
      let w : Working i n size mine taken h.rest r = record {
        assigned = refl;
        own_start = refl;
        own_add = refl;
        follows = h.follows;
        stale = h.stale;
      } in
      rw (h.first) (rw (append-nil r) w)

  pub held-Synced :
      (m : Miner) (msg : Message) (q : List Message) (r : List Reply)
      → SyncedIn i n size mine (held msg) m q r
      → After (serve m msg q) r
  unfolding serve received
  held-Synced m (other_found md5 k name) q r h = rw (append-nil r) (record {
    number = h.number;
    new = h.new;
    rest = h.rest;
    first = h.first;
    follows = h.follows;
    stale = h.stale;
  })
  held-Synced m Message.server_start q r h = elim h [ ]
  held-Synced m (assign _ _ _ _) q r h = elim h [ ]
  held-Synced m send q r h = elim h [ ]
  held-Synced m status q r h = elim h [ ]
  held-Synced m Message.quit q r h = elim h [ ]

  -- A notice is kept, and the next job stands behind it.
  pub interrupted :
      (m : Miner) (md5 : Text) (k : ℕ) (name : Text) (q : List Message) (r : List Reply)
      → Working i n size mine m (other_found md5 k name ∷ q) r
      → NextJob i n size mine m q r
  unfolding received
  interrupted m md5 k name q r w =
      let (k', new, rest, e, l, first, f) = Flow-Opens i n size mine w.follows in
      record {
        number = k';
        new = new;
        rest = rest;
        first = first;
        follows = rw w.assigned f;
        stale = w.stale;
      }

  rounds_phase :
      (m : Miner) (q : List Message) (r : List Reply) (b c : Bool) (x y : Text) (left : ℕ)
      → Working i n size mine m q r
      → SyncedIn i n size mine
          (if b then polling x true else if c then polling y false else trying y left)
          m
          q
          r
  rounds_phase m q r true c x y left w = w
  rounds_phase m q r false true x y left w = w
  rounds_phase m q r false false x y left w = w

  -- A result: of the boss's size, it is the one that the boss waits for.
  finds :
      (m : Miner) (append : Text) (q : List Message) (r : List Reply)
      → Working i n size mine m q r
      → is_treasure (md5_of (m.treasure ++ append)) m.jobs.num_of_0 ≡ true
      → (let digest = md5_of (m.treasure ++ append) in
          SyncedIn i n size mine
            (asking append)
            (record m { md5 = digest; phase = asking append })
            q
            (r ++ found digest m.jobs.num_of_0 (length append) ∷ []))
  finds m append q r w t = elim (Bool-cases (ltb m.jobs.num_of_0 size)) [
    | inl l ↦ inl (record {
      working = record {
        assigned = w.assigned;
        own_start = w.own_start;
        own_add = w.own_add;
        follows = w.follows;
        stale = Stale-append _ _ _ w.stale (ground arith);
      };
      late = ground arith;
    })
    | inr g ↦
        let e : m.jobs.num_of_0 ≡ size = ground (arith, Flow-le i n size mine w.follows) in
        let (same, only) = Flow-current i n size mine w.follows e in
        inr (record {
          assigned = w.assigned;
          own_start = w.own_start;
          own_add = w.own_add;
          same_size = e;
          same_mine = same;
          only_status = only;
          before = r;
          last =
              ap (λ (k : ℕ). r ++ found (md5_of (m.treasure ++ append)) k (length append) ∷ []) e
              ∙ ap (λ (u : Text). r ++ found (md5_of (u ++ append)) size (length append) ∷ []) same;
          stale = w.stale;
          right =
              subst (λ (u : Text). is_treasure (md5_of (u ++ append)) size ≡ true) same
                (subst (λ (k : ℕ). is_treasure (md5_of (m.treasure ++ append)) k ≡ true) e t);
        })
  ]

  pub turn_trying-Synced :
      (m : Miner) (append : Text) (left : ℕ) (q : List Message) (r : List Reply)
      → Working i n size mine m q r
      → After (turn_trying m append left q) r
  unfolding turn_trying
  turn_trying-Synced m append left q r w =
      elim (Bool-cases (is_treasure (md5_of (m.treasure ++ append)) m.jobs.num_of_0)) [
        | inl t ↦ rw t (finds m append q r w t)
        | inr f ↦ rw f (
            rw (append-nil r) (
              rounds_phase _ q r (next_append append m.jobs.add).1 (left == 0) append
                (next_append append m.jobs.add).0 (left - 1)
                (record {
                  assigned = w.assigned;
                  own_start = w.own_start;
                  own_add = w.own_add;
                  follows = w.follows;
                  stale = w.stale;
                })))
      ]
