-- ===== src/Mine/Protocol/Turns.antt =====
-- MP3/client/miner.c: a step of a miner keeps it in step with the boss.
use sp.Prelude.{ℕ, inl, inr, List, [], ◌∷◌, ◌++◌, Bool, true, false, append-nil}
use sp.Loser.Text.{Text}
use sp.Mine.Miner.{
  Message, assign, send, other_found, status, Reply, Phase, reading, held, trying, polling, asking,
  Miner, turn_polling, turn_asking, turn_in, turn, resume, begin_rounds, waits,
}
use sp.Mine.Protocol.Flow.{
  Flow-Opens, OnlyStatus, nothing, one_more, Working, Claim, Late, SyncedIn, Synced,
}
use sp.Mine.Protocol.Searching.{
  After, turn_reading-Synced, held-Synced, interrupted, turn_trying-Synced,
}

module _ (i n size : ℕ) (mine : Text) where
  -- The same job with the messages that are left.
  goes_on :
      (m : Miner) (q : List Message) (r : List Reply) (p : Phase)
      → Working i n size mine m q r
      → Working i n size mine (record m { phase = p }) q r
  goes_on m q r p w = record {
    assigned = w.assigned;
    own_start = w.own_start;
    own_add = w.own_add;
    follows = w.follows;
    stale = w.stale;
  }

  past_status :
      (m : Miner) (q : List Message) (r : List Reply)
      → Working i n size mine m (status ∷ q) r
      → Working i n size mine m q r
  past_status m q r w = record {
    assigned = w.assigned;
    own_start = w.own_start;
    own_add = w.own_add;
    follows = Flow-Opens i n size mine w.follows;
    stale = w.stale;
  }

  resume_phase :
      (m : Miner) (append : Text) (b : Bool) (q : List Message) (r : List Reply)
      → Working i n size mine m q r
      → Synced i n size mine (record m { phase = resume m append b }) q r
  unfolding resume begin_rounds
  resume_phase m append true q r w = goes_on m q r _ w
  resume_phase m append false q r w = goes_on m q r _ w

  turn_polling-Synced :
      (m : Miner) (append : Text) (b : Bool) (q : List Message) (r : List Reply)
      → Working i n size mine m q r
      → After i n size mine (turn_polling m append b q) r
  unfolding turn_polling
  turn_polling-Synced m append b [] r w = rw (append-nil r) (resume_phase m append b [] r w)
  turn_polling-Synced m append b (status ∷ q) r w =
      rw (append-nil r) (resume_phase m append b q r (past_status m q r w))
  turn_polling-Synced m append b (other_found md5 k name ∷ q) r w = rw (append-nil r) (
      interrupted i n size mine (record m { phase = held (other_found md5 k name) }) md5 k name q r
        (goes_on m _ r _ w))
  turn_polling-Synced m append b (Message.server_start ∷ q) r w =
      absurd (Flow-Opens i n size mine w.follows)
  turn_polling-Synced m append b (assign _ _ _ _ ∷ q) r w =
      absurd (Flow-Opens i n size mine w.follows)
  turn_polling-Synced m append b (send ∷ q) r w = absurd (Flow-Opens i n size mine w.follows)
  turn_polling-Synced m append b (Message.quit ∷ q) r w =
      absurd (Flow-Opens i n size mine w.follows)

  turn_asking-Late :
      (m : Miner) (append : Text) (q : List Message) (r : List Reply)
      → Late i n size mine m q r
      → After i n size mine (turn_asking m append q) r
  unfolding turn_asking waits
  turn_asking-Late m append [] r h =
      rw (append-nil r)
        (inl (record { working = goes_on m [] r (asking append) h.working; late = h.late }))
  turn_asking-Late m append (status ∷ q) r h = rw (append-nil r) (
      inl (record {
        working = goes_on m q r (asking append) (past_status m q r h.working);
        late = h.late;
      }))
  turn_asking-Late m append (other_found md5 k name ∷ q) r h = rw (append-nil r) (
      interrupted i n size mine (record m { phase = held (other_found md5 k name) }) md5 k name q r
        (goes_on m _ r _ h.working))
  turn_asking-Late m append (Message.server_start ∷ q) r h =
      absurd (Flow-Opens i n size mine h.working.follows)
  turn_asking-Late m append (assign _ _ _ _ ∷ q) r h =
      absurd (Flow-Opens i n size mine h.working.follows)
  turn_asking-Late m append (send ∷ q) r h = absurd (Flow-Opens i n size mine h.working.follows)
  turn_asking-Late m append (Message.quit ∷ q) r h =
      absurd (Flow-Opens i n size mine h.working.follows)

  -- A claim stands while only requests for a status come.
  still_claims :
      (m : Miner) (append : Text) (q q' : List Message) (r : List Reply)
      → Claim i n size mine append m q r
      → OnlyStatus q'
      → Claim i n size mine append (record m { phase = asking append }) q' r
  still_claims m append q q' r c only = record {
    assigned = c.assigned;
    own_start = c.own_start;
    own_add = c.own_add;
    same_size = c.same_size;
    same_mine = c.same_mine;
    only_status = only;
    before = c.before;
    last = c.last;
    stale = c.stale;
    right = c.right;
  }

  turn_asking-Claim :
      (m : Miner) (append : Text) (q : List Message) (r : List Reply)
      → OnlyStatus q
      → Claim i n size mine append m q r
      → After i n size mine (turn_asking m append q) r
  unfolding turn_asking waits
  turn_asking-Claim m append _ r nothing c =
      rw (append-nil r) (inr (still_claims m append [] [] r c nothing))
  turn_asking-Claim m append _ r (one_more {q} only) c =
      rw (append-nil r) (inr (still_claims m append (status ∷ q) q r c only))

  turn_in-Synced :
      (p : Phase) (m : Miner) (q : List Message) (r : List Reply)
      → SyncedIn i n size mine p m q r
      → After i n size mine (turn_in p m q) r
  unfolding turn_in
  turn_in-Synced reading m q r h = turn_reading-Synced i n size mine m q r h
  turn_in-Synced (held msg) m q r h = held-Synced i n size mine m msg q r h
  turn_in-Synced (trying append left) m q r h = turn_trying-Synced i n size mine m append left q r h
  turn_in-Synced (polling append b) m q r h = turn_polling-Synced m append b q r h
  turn_in-Synced (asking append) m q r (inl h) = turn_asking-Late m append q r h
  turn_in-Synced (asking append) m q r (inr h) = turn_asking-Claim m append q r h.only_status h

  -- Whatever a miner that is in step does next, it stays in step.
  pub turn-Synced :
      (m : Miner) (q : List Message) (r : List Reply)
      → Synced i n size mine m q r
      → Synced i n size mine (turn m q).miner (turn m q).input (r ++ (turn m q).output)
  unfolding turn
  turn-Synced m q r h = turn_in-Synced m.phase m q r h
