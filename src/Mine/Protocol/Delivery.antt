-- ===== src/Mine/Protocol/Delivery.antt =====
-- MP3/server/boss.c and MP3/client/miner.c: from the result that the boss accepts to its bytes.
use mathlib.Core.Path.{subst}
use sp.Prelude.{
  ℕ, ◌<◌, ◌≡◌, refl, sym, ◌∙◌, ◌⊎◌, inl, inr, List, [], ◌∷◌, ◌++◌, true, false, append-nil, length,
}
use sp.Loser.Text.{Text}
use sp.Mine.{is_treasure}
use sp.Mine.Miner.{
  Message, assign, send, other_found, status, Reply, found, bytes, Phase, reading, held, trying,
  polling, asking, Miner, md5_of, turn_reading, turn_asking, turn_in, turn, waits,
}
use sp.Mine.Protocol.Flow.{
  OnlyStatus, nothing, one_more, Stale, too_small, NextJob, Working, Claim, SyncedIn,
}

-- Requests for a status, and then the one for the bytes.
pub data ThenSend : List Message → Type 0 where
  at_once : ThenSend (send ∷ [])
  after_status : {q : List Message} → ThenSend q → ThenSend (status ∷ q)

OnlyStatus-ThenSend : {q : List Message} → OnlyStatus q → ThenSend (q ++ send ∷ [])
OnlyStatus-ThenSend nothing = at_once
OnlyStatus-ThenSend (one_more h) = after_status (OnlyStatus-ThenSend h)

Stale-front :
    {size : ℕ} {x : Reply} {rest : List Reply}
    → Stale size (x ∷ rest)
    → (md5 : Text) × (k : ℕ) × (len : ℕ) × (x ≡ found md5 k len) × (k < size) × Stale size rest
Stale-front (too_small {md5} {k} {len} l s) = (md5, k, len, refl, l, s)

module _ (i n size : ℕ) (mine : Text) where
  -- The bytes that miner `i` has found, with what its result said of them.
  pub record Agreed (md5 : Text) (datlen : ℕ) (new : Text) (m : Miner) : Type 0 where
    pub assigned : m.first_assign ≡ false
    pub same_mine : m.treasure ≡ mine
    pub right : is_treasure (md5_of (mine ++ new)) size ≡ true
    pub told : md5 ≡ md5_of (mine ++ new)
    pub as_many : datlen ≡ length new

  -- While the boss waits for the bytes: the request is on its way, or the bytes are.
  abbrev pub DeliversIn : Text → ℕ → Phase → Miner → List Message → List Reply → Type 0
  DeliversIn md5 datlen (asking new) m q r = Agreed md5 datlen new m × ThenSend q × (r ≡ [])
  DeliversIn md5 datlen reading m q r =
      (new : Text) × Agreed md5 datlen new m × (q ≡ []) × (r ≡ bytes new ∷ [])
  DeliversIn md5 datlen _ m q r = ⊥

  abbrev pub Delivers : Text → ℕ → Miner → List Message → List Reply → Type 0
  Delivers md5 datlen m q r = DeliversIn md5 datlen m.phase m q r

  Agreed-in_phase :
      (md5 : Text) (datlen : ℕ) (new : Text) (m : Miner) (p : Phase)
      → Agreed md5 datlen new m
      → Agreed md5 datlen new (record m { phase = p })
  Agreed-in_phase md5 datlen new m p a = record {
    assigned = a.assigned;
    same_mine = a.same_mine;
    right = a.right;
    told = a.told;
    as_many = a.as_many;
  }

  asking-Delivers :
      (md5 : Text) (datlen : ℕ) (new : Text) (m : Miner) (q : List Message) (r : List Reply)
      → Agreed md5 datlen new m
      → r ≡ []
      → ThenSend q
      → (let t = turn_asking m new q in Delivers md5 datlen t.miner t.input (r ++ t.output))
  unfolding turn_asking
  asking-Delivers md5 datlen new m _ r a e at_once =
      (new, Agreed-in_phase md5 datlen new m reading a, refl, rw e)
  asking-Delivers md5 datlen new m _ r a e (after_status s) =
      (Agreed-in_phase md5 datlen new m (asking new) a, s, rw e)

  turn_in-Delivers :
      (md5 : Text) (datlen : ℕ) (p : Phase) (m : Miner) (q : List Message) (r : List Reply)
      → DeliversIn md5 datlen p m q r
      → (let t = turn_in p m q in Delivers md5 datlen t.miner t.input (r ++ t.output))
  unfolding turn_in turn_reading waits
  turn_in-Delivers md5 datlen (asking new) m q r h =
      asking-Delivers md5 datlen new m q r h.0 h.2 h.1
  turn_in-Delivers md5 datlen reading m q r (new, a, none_left, e) =
      rw none_left (new, Agreed-in_phase md5 datlen new m reading a, refl, append-nil r ∙ e)
  turn_in-Delivers md5 datlen (held msg) m q r h = elim h [ ]
  turn_in-Delivers md5 datlen (trying append left) m q r h = elim h [ ]
  turn_in-Delivers md5 datlen (polling append b) m q r h = elim h [ ]

  -- Whatever the miner does next, the bytes are on their way.
  pub turn-Delivers :
      (md5 : Text) (datlen : ℕ) (m : Miner) (q : List Message) (r : List Reply)
      → Delivers md5 datlen m q r
      → Delivers md5 datlen (turn m q).miner (turn m q).input (r ++ (turn m q).output)
  unfolding turn
  turn-Delivers md5 datlen m q r h = turn_in-Delivers md5 datlen m.phase m q r h

  -- What the boss finds in front of a pipe: a result that is too small, or the one that counts.
  abbrev pub FrontIn : Phase → Miner → List Message → List Reply → Reply → Type 0
  FrontIn p m q rest (found md5 k len) =
      ((k < size) × SyncedIn i n size mine p m q rest)
      ⊎ ((k ≡ size) × DeliversIn md5 len p m (q ++ send ∷ []) rest)
  FrontIn p m q rest _ = ⊥

  Stale-Front :
      (p : Phase) (m : Miner) (q : List Message) (x : Reply) (rest : List Reply)
      → Stale size (x ∷ rest)
      → (Stale size rest → SyncedIn i n size mine p m q rest)
      → FrontIn p m q rest x
  Stale-Front p m q x rest s back =
      let (md5, k, len, e, l, older) = Stale-front s in
      subst (FrontIn p m q rest) (sym e) (inl (l, back older))

  Working-rest :
      (m : Miner) (q : List Message) (r rest : List Reply)
      → Working i n size mine m q r
      → Stale size rest
      → Working i n size mine m q rest
  Working-rest m q r rest w s = record {
    assigned = w.assigned;
    own_start = w.own_start;
    own_add = w.own_add;
    follows = w.follows;
    stale = s;
  }

  NextJob-rest :
      (m : Miner) (q : List Message) (r rest : List Reply)
      → NextJob i n size mine m q r
      → Stale size rest
      → NextJob i n size mine m q rest
  NextJob-rest m q r rest h s = record {
    number = h.number;
    new = h.new;
    rest = h.rest;
    first = h.first;
    follows = h.follows;
    stale = s;
  }

  Claim-Front :
      (append : Text) (m : Miner) (q : List Message) (x : Reply) (rest r before : List Reply)
      → Claim i n size mine append m q r
      → x ∷ rest ≡ before ++ found (md5_of (mine ++ append)) size (length append) ∷ []
      → Stale size before
      → FrontIn (asking append) m q rest x
  Claim-Front append m q x rest r [] c e s =
      let here : x ≡ found (md5_of (mine ++ append)) size (length append) = cc in
      let alone : rest ≡ [] = cc in
      subst (FrontIn (asking append) m q rest) (sym here) (
        inr (
          refl,
          (
            record {
              assigned = c.assigned;
              same_mine = c.same_mine;
              right = c.right;
              told = refl;
              as_many = refl;
            },
            OnlyStatus-ThenSend c.only_status,
            alone,
          ),
        ))
  Claim-Front append m q x rest r (y ∷ before) c e s =
      let here : x ≡ y = cc in
      let others : rest ≡ before ++ found (md5_of (mine ++ append)) size (length append) ∷ [] =
        cc in
      let (md5, k, len, shown, l, older) = Stale-front s in
      subst (FrontIn (asking append) m q rest) (sym (here ∙ shown)) (
        inl (
          l,
          inr (record {
            assigned = c.assigned;
            own_start = c.own_start;
            own_add = c.own_add;
            same_size = c.same_size;
            same_mine = c.same_mine;
            only_status = c.only_status;
            before = before;
            last = others;
            stale = older;
            right = c.right;
          }),
        ))

  -- The front of a pipe is a result, for a smaller size or for the boss's own. In the second case
  -- the miner waits for the request of its bytes, and nothing stands behind the result.
  pub front_lem :
      (p : Phase) (m : Miner) (q : List Message) (x : Reply) (rest : List Reply)
      → SyncedIn i n size mine p m q (x ∷ rest)
      → FrontIn p m q rest x
  front_lem reading m q x rest h =
      Stale-Front reading m q x rest h.stale (NextJob-rest m q (x ∷ rest) rest h)
  front_lem (trying append left) m q x rest h =
      Stale-Front (trying append left) m q x rest h.stale (Working-rest m q (x ∷ rest) rest h)
  front_lem (polling append b) m q x rest h =
      Stale-Front (polling append b) m q x rest h.stale (Working-rest m q (x ∷ rest) rest h)
  front_lem (asking append) m q x rest (inl h) =
      Stale-Front (asking append) m q x rest h.working.stale
        λ s. inl (record { working = Working-rest m q (x ∷ rest) rest h.working s; late = h.late })
  front_lem (asking append) m q x rest (inr c) =
      Claim-Front append m q x rest (x ∷ rest) c.before c c.last c.stale
  front_lem (held (other_found md5 k name)) m q x rest h =
      Stale-Front (held (other_found md5 k name)) m q x rest h.stale
        (NextJob-rest m q (x ∷ rest) rest h)
  front_lem (held Message.server_start) m q x rest h = elim h [ ]
  front_lem (held (assign _ _ _ _)) m q x rest h = elim h [ ]
  front_lem (held send) m q x rest h = elim h [ ]
  front_lem (held status) m q x rest h = elim h [ ]
  front_lem (held Message.quit) m q x rest h = elim h [ ]
