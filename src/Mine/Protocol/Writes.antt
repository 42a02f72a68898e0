-- ===== src/Mine/Protocol/Writes.antt =====
-- MP3/server/boss.c: what the boss writes leaves its miners in step.
use mathlib.Core.Path.{subst}
use sp.Prelude.{ℕ, ◌+◌, ◌≡◌, refl, sym, ap, inl, inr, List, [], ◌∷◌, ◌++◌, arith}
use sp.Loser.Text.{Text}
use sp.Mine.Miner.{
  Message, assign, send, other_found, status, Reply, bytes, Phase, reading, held, trying, polling,
  asking, Miner, received,
}
use sp.Mine.Protocol.Flow.{
  OnlyStatus, nothing, one_more, OnlyStatus-append, Stale, no_result, Stale-append, Stale-suc, Flow,
  done, stat, Flow-status, Flow-next, NextJob, Working, Claim, Late, SyncedIn,
}
use sp.Mine.Protocol.Delivery.{Agreed, DeliversIn}

OnlyStatus-Flow :
    (i n size : ℕ) (mine : Text) {q : List Message} → OnlyStatus q → Flow i n size mine size mine q
OnlyStatus-Flow i n size mine nothing = done refl refl
OnlyStatus-Flow i n size mine (one_more h) = stat (OnlyStatus-Flow i n size mine h)

module _ (i n size : ℕ) (mine : Text) where
  NextJob-status :
      (m : Miner) (q : List Message) (r : List Reply)
      → NextJob i n size mine m q r
      → NextJob i n size mine m (q ++ status ∷ []) r
  NextJob-status m q r h = record {
    number = h.number;
    new = h.new;
    rest = h.rest ++ status ∷ [];
    first = ap (λ l. l ++ status ∷ []) h.first;
    follows = Flow-status i n size mine h.follows;
    stale = h.stale;
  }

  Working-status :
      (m : Miner) (q : List Message) (r : List Reply)
      → Working i n size mine m q r
      → Working i n size mine m (q ++ status ∷ []) r
  Working-status m q r w = record {
    assigned = w.assigned;
    own_start = w.own_start;
    own_add = w.own_add;
    follows = Flow-status i n size mine w.follows;
    stale = w.stale;
  }

  -- A request for a status.
  pub Synced-status :
      (p : Phase) (m : Miner) (q : List Message) (r : List Reply)
      → SyncedIn i n size mine p m q r
      → SyncedIn i n size mine p m (q ++ status ∷ []) r
  Synced-status reading m q r h = NextJob-status m q r h
  Synced-status (trying append left) m q r h = Working-status m q r h
  Synced-status (polling append b) m q r h = Working-status m q r h
  Synced-status (asking append) m q r (inl h) =
      inl (record { working = Working-status m q r h.working; late = h.late })
  Synced-status (asking append) m q r (inr c) = inr (record {
    assigned = c.assigned;
    own_start = c.own_start;
    own_add = c.own_add;
    same_size = c.same_size;
    same_mine = c.same_mine;
    only_status = OnlyStatus-append c.only_status;
    before = c.before;
    last = c.last;
    stale = c.stale;
    right = c.right;
  })
  Synced-status (held (other_found md5 k name)) m q r h = NextJob-status m q r h
  Synced-status (held Message.server_start) m q r h = elim h [ ]
  Synced-status (held (assign _ _ _ _)) m q r h = elim h [ ]
  Synced-status (held send) m q r h = elim h [ ]
  Synced-status (held status) m q r h = elim h [ ]
  Synced-status (held Message.quit) m q r h = elim h [ ]

  module _ (md5 name new : Text) where
    abbrev behind : List Message → List Message
    behind q = (q ++ other_found md5 size name ∷ []) ++ assign i n (size + 1) new ∷ []

    NextJob-next :
        (m : Miner) (q : List Message) (r : List Reply)
        → NextJob i n size mine m q r
        → NextJob i n (size + 1) (mine ++ new) m (behind q) r
    NextJob-next m q r h = record {
      number = h.number;
      new = h.new;
      rest = behind h.rest;
      first = ap (λ l. behind l) h.first;
      follows = Flow-next md5 name new h.follows;
      stale = Stale-suc h.stale;
    }

    Working-next :
        (m : Miner) (q : List Message) (r : List Reply)
        → Working i n size mine m q r
        → Working i n (size + 1) (mine ++ new) m (behind q) r
    Working-next m q r w = record {
      assigned = w.assigned;
      own_start = w.own_start;
      own_add = w.own_add;
      follows = Flow-next md5 name new w.follows;
      stale = Stale-suc w.stale;
    }

    -- A claim that another miner has overtaken.
    Claim-next :
        (append : Text) (m : Miner) (q : List Message) (r : List Reply)
        → Claim i n size mine append m q r
        → Late i n (size + 1) (mine ++ new) m (behind q) r
    Claim-next append m q r c = record {
      working = record {
        assigned = c.assigned;
        own_start = c.own_start;
        own_add = c.own_add;
        follows =
            subst (λ (k : ℕ). Flow i n (size + 1) (mine ++ new) k m.treasure (behind q))
              (sym c.same_size)
              (subst (λ (t : Text). Flow i n (size + 1) (mine ++ new) size t (behind q))
                (sym c.same_mine)
                (Flow-next md5 name new (OnlyStatus-Flow i n size mine c.only_status)));
        stale =
            subst (Stale (size + 1)) (sym c.last)
              (Stale-append _ _ _ (Stale-suc c.stale) (omega arith));
      };
      late = omega (arith, c.same_size);
    }

    -- The notice of a treasure and the next job.
    pub Synced-next :
        (p : Phase) (m : Miner) (q : List Message) (r : List Reply)
        → SyncedIn i n size mine p m q r
        → SyncedIn i n (size + 1) (mine ++ new) p m (behind q) r
    Synced-next reading m q r h = NextJob-next m q r h
    Synced-next (trying append left) m q r h = Working-next m q r h
    Synced-next (polling append b) m q r h = Working-next m q r h
    Synced-next (asking append) m q r (inl h) =
        inl (record { working = Working-next m q r h.working; late = omega (arith, h.late) })
    Synced-next (asking append) m q r (inr c) = inl (Claim-next append m q r c)
    Synced-next (held (other_found a k b)) m q r h = NextJob-next m q r h
    Synced-next (held Message.server_start) m q r h = elim h [ ]
    Synced-next (held (assign _ _ _ _)) m q r h = elim h [ ]
    Synced-next (held send) m q r h = elim h [ ]
    Synced-next (held status) m q r h = elim h [ ]
    Synced-next (held Message.quit) m q r h = elim h [ ]

  -- The bytes are there, or not yet.
  pub data Arrives (md5 : Text) (datlen : ℕ) (m : Miner) (q : List Message)
      : Phase → List Reply → Type 0 where
    not_yet : {p : Phase} {r : List Reply} → r ≡ [] → Arrives md5 datlen m q p r
    there :
        {r : List Reply} (new : Text)
        → Agreed i n size mine md5 datlen new m
        → q ≡ []
        → r ≡ bytes new ∷ []
        → Arrives md5 datlen m q reading r

  pub Delivers-Arrives :
      (md5 : Text) (datlen : ℕ) (p : Phase) (m : Miner) (q : List Message) (r : List Reply)
      → DeliversIn i n size mine md5 datlen p m q r
      → Arrives md5 datlen m q p r
  Delivers-Arrives md5 datlen (asking new) m q r h = not_yet h.2
  Delivers-Arrives md5 datlen reading m q r (new, a, e, f) = there new a e f
  Delivers-Arrives md5 datlen (held msg) m q r h = elim h [ ]
  Delivers-Arrives md5 datlen (trying append left) m q r h = elim h [ ]
  Delivers-Arrives md5 datlen (polling append b) m q r h = elim h [ ]

  -- The winner, with its next job alone in its pipe.
  pub winner-Synced :
      (md5 : Text) (datlen : ℕ) (new : Text) (p : Phase) (m : Miner) (q : List Message)
      → Arrives md5 datlen m q p (bytes new ∷ [])
      → SyncedIn i n (size + 1) (mine ++ new) p m (q ++ assign i n (size + 1) new ∷ []) []
  unfolding received
  winner-Synced md5 datlen new p m q (not_yet e) = cc
  winner-Synced md5 datlen new _ m q (there found_bytes a e f) = record {
    number = size + 1;
    new = new;
    rest = [];
    first = ap (λ l. l ++ assign i n (size + 1) new ∷ []) e;
    follows = done refl (rw (a.assigned, a.same_mine));
    stale = no_result;
  }
