-- ===== src/Mine/Protocol/Orders.antt =====
-- MP3/server/boss.c and MP3/client/miner.c: the first assignment and the commands keep the
-- invariant.
use mathlib.Core.Path.{subst}
use sp.Prelude.{ℕ, ◌≡◌, refl, sym, ap, ◌∙◌, List, [], ◌∷◌, ◌++◌, Bool, true, arith, if◌then◌else◌}
use sp.Loser.Text.{Text}
use sp.Mine.Miner.{
  Message, assign, status, Reply, Phase, reading, held, trying, polling, asking, Miner, received,
}
use sp.Mine.Boss.{
  Stage, starting, selecting, receiving, ended, Boss, System, Command, status_command, quit_command,
  tell_loop, handle_command, begin_mining, obey,
}
use sp.Mine.Protocol.Loops.{assign_jobs_lem, tell_loop_lem}
use sp.Mine.Protocol.Flow.{SyncedIn, no_result, done}
use sp.Mine.Protocol.Invariant.{Proven, FreshIn, MinersIn, Inv}
use sp.Mine.Protocol.Writes.{Synced-status}

fresh_job :
    (j n size : ℕ) (mine : Text) (p : Phase) (m : Miner) (q : List Message) (r : List Reply)
    → FreshIn p m q r
    → SyncedIn j n size mine p m (q ++ assign j n size mine ∷ []) r
unfolding received
fresh_job j n size mine reading m q r (a, b, c) = record {
  number = size;
  new = mine;
  rest = [];
  first = ap (λ l. l ++ assign j n size mine ∷ []) b;
  follows = done refl (rw a);
  stale = rw c no_result;
}
fresh_job j n size mine (held msg) m q r h = elim h [ ]
fresh_job j n size mine (trying append left) m q r h = elim h [ ]
fresh_job j n size mine (polling append b) m q r h = elim h [ ]
fresh_job j n size mine (asking append) m q r h = elim h [ ]

module _ (mine : Text) (n : ℕ) (names : ℕ → Text) where
  -- The bytes, the size and the digest are as they were.
  pub Proven-same :
      {b : Boss} {assigned : Bool} {stage : Stage}
      → Proven mine b
      → Proven mine (record b { has_assign = assigned; stage = stage })
  Proven-same p = record {
    added = p.added;
    extends = p.extends;
    positive = p.positive;
    right = p.right;
    shown = p.shown;
  }

  pub begin-Inv :
      (s : System)
      → Proven mine s.boss
      → MinersIn n starting s
      → Inv mine n (begin_mining n names s)
  unfolding begin_mining
  begin-Inv s p h = record {
    proven = Proven-same p;
    miners = (
      refl,
      λ j l.
          rw (assign_jobs_lem s.boss.num_of_0 n s.boss.treasure s.to j l)
            (fresh_job j n s.boss.num_of_0 s.boss.treasure _ _ _ _ (h.1 j l)),
    );
  }

  quit-Inv : (s : System) → Proven mine s.boss → Inv mine n (handle_command n names s quit_command)
  unfolding handle_command
  quit-Inv s p = record { proven = Proven-same p; miners = tt }

  status-starting :
      (s : System) → MinersIn n starting s → handle_command n names s status_command ≡ s
  unfolding handle_command
  status-starting s h = rw h.0

  status_told :
      (s : System)
      → s.boss.has_assign ≡ true
      → handle_command n names s status_command ≡ record s { to = tell_loop status 0 n s.to }
  unfolding handle_command
  status_told s h =
      ap (λ (b : Bool). if b then record s { to = tell_loop status 0 n s.to } else s) h

  status-selecting :
      (s : System)
      → MinersIn n selecting s
      → MinersIn n selecting (handle_command n names s status_command)
  status-selecting s h = subst (MinersIn n selecting) (sym (status_told s h.0)) (
    h.0,
    λ j l.
        rw (tell_loop_lem status n s.to j l)
          (Synced-status j n s.boss.num_of_0 s.boss.treasure _ _ _ _ (h.1 j l)),
  )

  status_boss : (s : System) → (handle_command n names s status_command).boss ≡ s.boss
  unfolding handle_command
  status_boss s = ground arith

  pub obey-Inv :
      (stage : Stage) (s : System) (c : Command)
      → s.boss.stage ≡ stage
      → Proven mine s.boss
      → MinersIn n stage s
      → Inv mine n (obey n names stage s c)
  unfolding obey
  obey-Inv starting s quit_command e p h = quit-Inv s p
  obey-Inv selecting s quit_command e p h = quit-Inv s p
  obey-Inv starting s status_command e p h =
      rw (status-starting s h)
        (record { proven = p; miners = subst (λ t. MinersIn n t s) (sym e) h })
  obey-Inv selecting s status_command e p h = record {
    proven = subst (Proven mine) (sym (status_boss s)) p;
    miners =
        subst (λ t. MinersIn n t (handle_command n names s status_command))
          (sym (ap (λ (b : Boss). b.stage) (status_boss s) ∙ e)) (status-selecting s h);
  }
  obey-Inv (receiving w a k) s c e p h = record {
    proven = p;
    miners = subst (λ t. MinersIn n t s) (sym e) h;
  }
  obey-Inv ended s c e p h = record { proven = p; miners = subst (λ t. MinersIn n t s) (sym e) h }
