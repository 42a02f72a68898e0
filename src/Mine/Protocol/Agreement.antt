-- ===== src/Mine/Protocol/Agreement.antt =====
-- MP3/server/boss.c and MP3/client/miner.c: in every state that the boss and its miners come to, in
-- whatever order they act.
use mathlib.Core.Path.{subst}
use sp.Prelude.{ℕ, ◌-◌, ◌≤◌, ◌<◌, ◌≡◌, refl, sym, List, [], ◌++◌, true, arith, append-nil}
use sp.Loser.Text.{Text}
use sp.Mine.{is_treasure}
use sp.Mine.Miner.{trying, md5_of, Phase}
use sp.Mine.Boss.{selecting, System, Event, run, start}
use sp.Mine.Protocol.Flow.{SyncedIn, Working, Flow-le, Flow-current}
use sp.Mine.Protocol.Invariant.{MinersIn, Inv}
use sp.Mine.Protocol.Safety.{run-Inv}

start-Inv : (n : ℕ) (names : ℕ → Text) (mine : Text) → Inv mine n (start names mine)
unfolding start
start-Inv n names mine = record {
  proven = record {
    added = [];
    extends = sym (append-nil mine);
    positive = omega arith;
    right = λ h. absurd (omega arith);
    shown = λ h. absurd (omega arith);
  };
  miners = (refl, λ j l. (refl, refl, refl));
}

reached-Inv :
    (n : ℕ) (names : ℕ → Text) (mine : Text) (es : List (Event n names))
    → Inv mine n (run n names (start names mine) es)
reached-Inv n names mine es = run-Inv mine n names (start names mine) es (start-Inv n names mine)

-- Whatever the boss and the miners have done, in any order: once the boss looks for a treasure of
-- a size above 1, its bytes are the mine with bytes behind it, their digest has one zero less in
-- front than that size, and no more, and it is the digest that the boss shows.
pub run-IsTreasure :
    (n : ℕ) (names : ℕ → Text) (mine : Text) (es : List (Event n names))
    → 2 ≤ (run n names (start names mine) es).boss.num_of_0
    → (let boss = (run n names (start names mine) es).boss in
        (added : Text) × (boss.treasure ≡ mine ++ added)
        × (is_treasure (md5_of boss.treasure) (boss.num_of_0 - 1) ≡ true)
        × (boss.treasure_md5 ≡ md5_of boss.treasure))
run-IsTreasure n names mine es h =
    let p = (reached-Inv n names mine es).proven in (p.added, p.extends, p.right h, p.shown h)

-- A miner that searches, seen from the boss.
pub record Agrees (j n : ℕ) (s : System) : Type 0 where
  pub own_start : (s.miner j).jobs.start ≡ j
  pub own_add : (s.miner j).jobs.add ≡ n
  pub no_larger : (s.miner j).jobs.num_of_0 ≤ s.boss.num_of_0
  pub same_bytes :
      (s.miner j).jobs.num_of_0 ≡ s.boss.num_of_0 → (s.miner j).treasure ≡ s.boss.treasure

Working-Agrees :
    (j n : ℕ) (s : System)
    → Working j n s.boss.num_of_0 s.boss.treasure (s.miner j) (s.to j) (s.from j)
    → Agrees j n s
Working-Agrees j n s w = record {
  own_start = w.own_start;
  own_add = w.own_add;
  no_larger = Flow-le j n s.boss.num_of_0 s.boss.treasure w.follows;
  same_bytes = λ e. (Flow-current j n s.boss.num_of_0 s.boss.treasure w.follows e).0;
}

-- Whatever has happened: while the boss waits for messages, each miner that searches starts at its
-- own index, steps by the number of miners and looks for no larger size than the boss; if it looks
-- for the boss's size, it does so behind the bytes that the boss has.
pub run-Agrees :
    (n : ℕ) (names : ℕ → Text) (mine : Text) (es : List (Event n names)) (j : ℕ) (append : Text)
    (left : ℕ)
    → j < n
    → (run n names (start names mine) es).boss.stage ≡ selecting
    → ((run n names (start names mine) es).miner j).phase ≡ trying append left
    → Agrees j n (run n names (start names mine) es)
run-Agrees n names mine es j append left l at p =
    let s = run n names (start names mine) es in
    let all = subst (λ t. MinersIn n t s) at (reached-Inv n names mine es).miners in
    Working-Agrees j n s (
      subst
        (λ (q : Phase).
          SyncedIn j n s.boss.num_of_0 s.boss.treasure q (s.miner j) (s.to j) (s.from j))
        p (all.1 j l))
