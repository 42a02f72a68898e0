-- ===== src/Mine/Protocol/Takes.antt =====
-- MP3/server/boss.c and MP3/client/miner.c: the boss keeps the invariant when it reads a result and
-- when it takes the bytes of a treasure.
use mathlib.Core.Path.{subst}
use sp.Prelude.{
  update, update_self, update_other, ℕ, ◌+◌, ◌-◌, ◌<◌, ◌≡◌, ◌≢◌, sym, ap, ◌∙◌, inl, inr, List, [],
  ◌∷◌, ◌++◌, true, false, ◌==◌, arith, Bool-cases, append_assoc,
}
use sp.Loser.Text.{Text}
use sp.Mine.{is_treasure}
use sp.Mine.Miner.{send, other_found, Reply, named, found, bytes, Phase, md5_of}
use sp.Mine.Boss.{
  selecting, receiving, System, write_to, notice_loop, handle_found, take_bytes, read_reply,
  read_bytes,
}
use sp.Mine.Protocol.Loops.{
  write_to_self, write_to_other, assign_jobs_lem, notice_loop_lem, notice_loop-winner,
}
use sp.Mine.Protocol.Flow.{Synced}
use sp.Mine.Protocol.Delivery.{Delivers, front_lem, FrontIn}
use sp.Mine.Protocol.Invariant.{Proven, Each, AtIndex, InStep, Waiting, MinersIn, Inv}
use sp.Mine.Protocol.Writes.{Synced-next, Arrives, not_yet, there, Delivers-Arrives, winner-Synced}
use sp.Mine.Protocol.Orders.{Proven-same}

module _ (mine : Text) (n : ℕ) (names : ℕ → Text) where
  -- One miner's reply is read: the others stand as they stood.
  drop_reply : System → ℕ → List Reply → System
  drop_reply s i rest = record s { from = update s.from i rest }

  dropped-Each :
      (s : System) (i : ℕ) (rest : List Reply)
      → Each n (InStep n s) s
      → InStep n s i (s.miner i) (s.to i) rest
      → Each n (InStep n s) (drop_reply s i rest)
  unfolding drop_reply
  dropped-Each s i rest h here j l = elim (Bool-cases (j == i)) [
    | inl e ↦
        let same : i ≡ j = ground arith in
        subst (λ k. AtIndex (InStep n s) j (drop_reply s k rest)) (sym same)
          (rw (update_self s.from j rest)
            (subst (λ k. InStep n s k (s.miner k) (s.to k) rest) same here))
    | inr e ↦ rw (update_other s.from i rest j (ground arith)) (h j l)
  ]

  accepted-Waiting :
      (s : System) (i : ℕ) (md5 : Text) (len : ℕ) (rest : List Reply)
      → i < n
      → Each n (InStep n s) s
      → Delivers i n s.boss.num_of_0 s.boss.treasure md5 len (s.miner i) (s.to i ++ send ∷ []) rest
      → Waiting n i md5 len (record s {
        boss = record s.boss { stage = receiving i md5 len };
        to = write_to s.to i send;
        from = update s.from i rest;
      })
  accepted-Waiting s i md5 len rest l h d = record {
    known = l;
    delivers = rw (write_to_self s.to i send, update_self s.from i rest) d;
    others = λ j below ne.
        rw (write_to_other s.to i send j ne, update_other s.from i rest j ne) (h j below);
  }

  pub read_reply-Inv :
      (s : System) (i : ℕ) (r : List Reply)
      → i < n
      → s.from i ≡ r
      → s.boss.stage ≡ selecting
      → Proven mine s.boss
      → MinersIn n selecting s
      → Inv mine n (read_reply n names s i r)
  unfolding read_reply handle_found drop_reply
  read_reply-Inv s i [] l e st p h = record {
    proven = p;
    miners = subst (λ t. MinersIn n t s) (sym st) h;
  }
  read_reply-Inv s i (x ∷ rest) l e st p h =
      let front =
        front_lem i n s.boss.num_of_0 s.boss.treasure (s.miner i).phase (s.miner i) (s.to i) x rest
          (subst (InStep n s i (s.miner i) (s.to i)) e (h.1 i l)) in
      settle x front
    where
      settle :
          (y : Reply)
          → FrontIn i n s.boss.num_of_0 s.boss.treasure
              (s.miner i).phase
              (s.miner i)
              (s.to i)
              rest
              y
          → Inv mine n (read_reply n names s i (y ∷ rest))
      settle (found md5 k len) (inl (small, w)) =
          let no_match : (k == s.boss.num_of_0) ≡ false = ground arith in
          rw no_match (record {
            proven = p;
            miners =
                subst (λ t. MinersIn n t (drop_reply s i rest)) (sym st)
                  (h.0, dropped-Each s i rest h.1 w);
          })
      settle (found md5 k len) (inr (eq, d)) =
          let match : (k == s.boss.num_of_0) ≡ true = ground arith in
          rw match (record {
            proven = Proven-same mine n names p;
            miners = (h.0, accepted-Waiting s i md5 len rest l h.1 d);
          })
      settle (named a) f = elim f [ ]
      settle (bytes a) f = elim f [ ]

  -- The bytes of the winner are there: it and the others have their next job in front of them.
  taken-Each :
      (s : System) (w : ℕ) (md5 new : Text) (datlen : ℕ)
      → Waiting n w md5 datlen s
      → s.from w ≡ bytes new ∷ []
      → Each n
          (λ j. Synced j n (s.boss.num_of_0 + 1) (s.boss.treasure ++ new))
          (take_bytes n names (record s { from = update s.from w [] }) w md5 new)
  unfolding take_bytes
  taken-Each s w md5 new datlen h e j l = elim (Bool-cases (j == w)) [
    | inl q ↦
        let same : j ≡ w = ground arith in
        subst
          (λ k.
            AtIndex (λ i. Synced i n (s.boss.num_of_0 + 1) (s.boss.treasure ++ new)) k
              (take_bytes n names (record s { from = update s.from w [] }) w md5 new))
          (sym same)
          (rw
            (
              assign_jobs_lem (s.boss.num_of_0 + 1) n new
                  (notice_loop w (other_found md5 s.boss.num_of_0 (names w)) 0 n s.to) w h.known,
              notice_loop-winner w (other_found md5 s.boss.num_of_0 (names w)) n s.to,
              update_self s.from w ([]),
            )
            (winner-Synced w n s.boss.num_of_0 s.boss.treasure md5 datlen new (s.miner w).phase
              (s.miner w) (s.to w)
              (subst
                (Arrives w n s.boss.num_of_0 s.boss.treasure md5 datlen (s.miner w) (s.to w)
                  (s.miner w).phase)
                e
                (Delivers-Arrives w n s.boss.num_of_0 s.boss.treasure md5 datlen (s.miner w).phase
                  (s.miner w) (s.to w) (s.from w) h.delivers))))
    | inr q ↦
        let ne : j ≢ w = ground arith in
        rw
          (
            assign_jobs_lem (s.boss.num_of_0 + 1) n new
                (notice_loop w (other_found md5 s.boss.num_of_0 (names w)) 0 n s.to) j l,
            notice_loop_lem w (other_found md5 s.boss.num_of_0 (names w)) n s.to j l ne,
            update_other s.from w ([]) j ne,
          )
          (Synced-next j n s.boss.num_of_0 s.boss.treasure md5 (names w) new (s.miner j).phase
            (s.miner j) (s.to j) (s.from j) (h.others j l ne))
  ]

  taken-Inv :
      (s : System) (w : ℕ) (md5 new : Text) (datlen : ℕ)
      → Proven mine s.boss
      → s.boss.has_assign ≡ true
      → Waiting n w md5 datlen s
      → s.from w ≡ bytes new ∷ []
      → is_treasure (md5_of (s.boss.treasure ++ new)) s.boss.num_of_0 ≡ true
      → md5 ≡ md5_of (s.boss.treasure ++ new)
      → Inv mine n (take_bytes n names (record s { from = update s.from w [] }) w md5 new)
  unfolding take_bytes
  taken-Inv s w md5 new datlen p a h e right told =
      let minus : s.boss.num_of_0 + 1 - 1 ≡ s.boss.num_of_0 = omega arith in
      record {
        proven = record {
          added = p.added ++ new;
          extends = ap (λ t. t ++ new) p.extends ∙ append_assoc mine p.added new;
          positive = omega arith;
          right = λ _. rw minus right;
          shown = λ _. told;
        };
        miners = (a, taken-Each s w md5 new datlen h e);
      }

  -- What the boss finds at its read: nothing, so it waits, or the bytes, alone.
  pub read_bytes-Inv :
      (s : System) (w : ℕ) (md5 : Text) (datlen : ℕ) {p : Phase} {r : List Reply}
      → s.from w ≡ r
      → s.boss.stage ≡ receiving w md5 datlen
      → Proven mine s.boss
      → MinersIn n (receiving w md5 datlen) s
      → Arrives w n s.boss.num_of_0 s.boss.treasure md5 datlen (s.miner w) (s.to w) p r
      → Inv mine n (read_bytes n names s w md5 r)
  unfolding read_bytes
  read_bytes-Inv s w md5 datlen e st p h (not_yet none_yet) =
      rw none_yet (record { proven = p; miners = subst (λ t. MinersIn n t s) (sym st) h })
  read_bytes-Inv s w md5 datlen e st p h (there new a _ f) =
      rw f (taken-Inv s w md5 new datlen p h.0 h.1 (e ∙ f) a.right a.told)
