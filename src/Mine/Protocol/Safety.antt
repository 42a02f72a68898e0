-- ===== src/Mine/Protocol/Safety.antt =====
-- MP3/server/boss.c and MP3/client/miner.c: every step of the boss keeps the invariant, and what
-- that says of the bytes that it holds.
use mathlib.Core.Path.{subst}
use sp.Prelude.{ℕ, ◌<◌, ◌≡◌, refl, sym, List, [], ◌∷◌}
use sp.Loser.Text.{Text}
use sp.Mine.Boss.{
  Stage, starting, selecting, receiving, ended, System, Event, miner_acts, boss_reads,
  boss_continues, user_types, act_boss, continue_boss, act, run,
}
use sp.Mine.Protocol.Invariant.{Proven, MinersIn, Inv, act_miner-Inv}
use sp.Mine.Protocol.Writes.{Delivers-Arrives}
use sp.Mine.Protocol.Orders.{begin-Inv, obey-Inv}
use sp.Mine.Protocol.Takes.{read_reply-Inv, read_bytes-Inv}

module _ (mine : Text) (n : ℕ) (names : ℕ → Text) where
  continue-Inv :
      (stage : Stage) (s : System)
      → s.boss.stage ≡ stage
      → Proven mine s.boss
      → MinersIn n stage s
      → Inv mine n (continue_boss n names stage s)
  unfolding continue_boss
  continue-Inv starting s e p h = begin-Inv mine n names s p h
  continue-Inv selecting s e p h = record {
    proven = p;
    miners = subst (λ t. MinersIn n t s) (sym e) h;
  }
  continue-Inv (receiving w md5 datlen) s e p h =
      read_bytes-Inv mine n names s w md5 datlen refl e p h (
        Delivers-Arrives w n s.boss.num_of_0 s.boss.treasure md5 datlen (s.miner w).phase
          (s.miner w) (s.to w) (s.from w) h.1.delivers)
  continue-Inv ended s e p h = record { proven = p; miners = subst (λ t. MinersIn n t s) (sym e) h }

  act_boss-Inv :
      (stage : Stage) (s : System) (i : ℕ)
      → i < n
      → s.boss.stage ≡ stage
      → Proven mine s.boss
      → MinersIn n stage s
      → Inv mine n (act_boss n names stage s i)
  unfolding act_boss
  act_boss-Inv selecting s i l e p h = read_reply-Inv mine n names s i (s.from i) l refl e p h
  act_boss-Inv starting s i l e p h = record {
    proven = p;
    miners = subst (λ t. MinersIn n t s) (sym e) h;
  }
  act_boss-Inv (receiving w md5 datlen) s i l e p h = record {
    proven = p;
    miners = subst (λ t. MinersIn n t s) (sym e) h;
  }
  act_boss-Inv ended s i l e p h = record {
    proven = p;
    miners = subst (λ t. MinersIn n t s) (sym e) h;
  }

  pub act-Inv : (s : System) (e : Event n names) → Inv mine n s → Inv mine n (act n names s e)
  unfolding act
  act-Inv s (miner_acts i l) inv = act_miner-Inv mine n s i inv
  act-Inv s (boss_reads i l) inv = act_boss-Inv s.boss.stage s i l refl inv.proven inv.miners
  act-Inv s boss_continues inv = continue-Inv s.boss.stage s refl inv.proven inv.miners
  act-Inv s (user_types c) inv = obey-Inv mine n names s.boss.stage s c refl inv.proven inv.miners

  pub run-Inv :
      (s : System) (es : List (Event n names)) → Inv mine n s → Inv mine n (run n names s es)
  unfolding run
  run-Inv s [] inv = inv
  run-Inv s (e ∷ es) inv = run-Inv (act n names s e) es (act-Inv s e inv)
