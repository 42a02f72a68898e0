-- ===== src/Mine/Protocol/Invariant.antt =====
-- MP3/server/boss.c and MP3/client/miner.c: what holds of the boss, its miners and their pipes.
use mathlib.Core.Path.{subst}
use sp.Prelude.{
  update_self, update_other, ℕ, ◌-◌, ◌≤◌, ◌<◌, ◌≡◌, ◌≢◌, refl, sym, ◌∙◌, inl, inr, List, [], ◌++◌,
  true, false, ◌==◌, arith, append-nil, Bool-cases,
}
use sp.Loser.Text.{Text}
use sp.Mine.{is_treasure}
use sp.Mine.Miner.{
  Message, Reply, Phase, reading, held, trying, polling, asking, Miner, md5_of, turn, turn_in,
  turn_reading, waits,
}
use sp.Mine.Boss.{Stage, starting, selecting, receiving, ended, Boss, System, act_miner}
use sp.Mine.Protocol.Flow.{Synced}
use sp.Mine.Protocol.Turns.{turn-Synced}
use sp.Mine.Protocol.Delivery.{Delivers, turn-Delivers}

-- The boss's bytes begin with the mine; they are a treasure of the size below the one that it looks
-- for, and it shows their digest; at first it looks for size 1 and has no treasure.
pub record Proven (mine : Text) (b : Boss) : Type 0 where
  pub added : Text
  pub extends : b.treasure ≡ mine ++ added
  pub positive : 1 ≤ b.num_of_0
  pub right : 2 ≤ b.num_of_0 → is_treasure (md5_of b.treasure) (b.num_of_0 - 1) ≡ true
  pub shown : 2 ≤ b.num_of_0 → b.treasure_md5 ≡ md5_of b.treasure

-- A miner before its first job.
abbrev pub FreshIn : Phase → Miner → List Message → List Reply → Type 0
FreshIn reading m q r = (m.first_assign ≡ true) × (q ≡ []) × (r ≡ [])
FreshIn _ m q r = ⊥

abbrev pub Fresh : Miner → List Message → List Reply → Type 0
Fresh m q r = FreshIn m.phase m q r

-- What is said of every miner below `n`.
abbrev pub Each : ℕ → (ℕ → Miner → List Message → List Reply → Type 0) → System → Type 0
Each n P s = (j : ℕ) → j < n → P j (s.miner j) (s.to j) (s.from j)

abbrev pub AtIndex : (ℕ → Miner → List Message → List Reply → Type 0) → ℕ → System → Type 0
AtIndex P j s = P j (s.miner j) (s.to j) (s.from j)

abbrev pub InStep : ℕ → System → ℕ → Miner → List Message → List Reply → Type 0
InStep n s j = Synced j n s.boss.num_of_0 s.boss.treasure

pub record Waiting (n w : ℕ) (md5 : Text) (datlen : ℕ) (s : System) : Type 0 where
  pub known : w < n
  pub delivers :
      Delivers w n s.boss.num_of_0 s.boss.treasure md5 datlen (s.miner w) (s.to w) (s.from w)
  pub others : (j : ℕ) → j < n → j ≢ w → AtIndex (InStep n s) j s

abbrev pub MinersIn : ℕ → Stage → System → Type 0
MinersIn n starting s = (s.boss.has_assign ≡ false) × Each n (λ j. Fresh) s
MinersIn n selecting s = (s.boss.has_assign ≡ true) × Each n (InStep n s) s
MinersIn n (receiving w md5 datlen) s = (s.boss.has_assign ≡ true) × Waiting n w md5 datlen s
MinersIn n ended s = Unit {0}

pub record Inv (mine : Text) (n : ℕ) (s : System) : Type 0 where
  pub proven : Proven mine s.boss
  pub miners : MinersIn n s.boss.stage s

turn_in-Fresh :
    (p : Phase) (m : Miner) (q : List Message) (r : List Reply)
    → FreshIn p m q r
    → Fresh (turn_in p m q).miner (turn_in p m q).input (r ++ (turn_in p m q).output)
unfolding turn_in turn_reading waits
turn_in-Fresh reading m q r (a, b, c) = rw b (a, refl, append-nil r ∙ c)
turn_in-Fresh (held msg) m q r h = elim h [ ]
turn_in-Fresh (trying append left) m q r h = elim h [ ]
turn_in-Fresh (polling append b) m q r h = elim h [ ]
turn_in-Fresh (asking append) m q r h = elim h [ ]

turn-Fresh :
    (m : Miner) (q : List Message) (r : List Reply)
    → Fresh m q r
    → Fresh (turn m q).miner (turn m q).input (r ++ (turn m q).output)
unfolding turn
turn-Fresh m q r h = turn_in-Fresh m.phase m q r h

-- A step of miner `i` changes what is said of `i`, and nothing of the others.
at_self :
    (P : ℕ → Miner → List Message → List Reply → Type 0) (s : System) (i : ℕ)
    → (let t = turn (s.miner i) (s.to i) in P i t.miner t.input (s.from i ++ t.output))
    → AtIndex P i (act_miner s i)
unfolding act_miner
at_self P s i h =
    let t = turn (s.miner i) (s.to i) in
    rw
      (
        update_self s.miner i t.miner,
        update_self s.to i t.input,
        update_self s.from i (s.from i ++ t.output),
      )
      h

at_other :
    (P : ℕ → Miner → List Message → List Reply → Type 0) (s : System) (i j : ℕ)
    → j ≢ i
    → AtIndex P j s
    → AtIndex P j (act_miner s i)
unfolding act_miner
at_other P s i j ne h =
    let t = turn (s.miner i) (s.to i) in
    rw
      (
        update_other s.miner i t.miner j ne,
        update_other s.to i t.input j ne,
        update_other s.from i (s.from i ++ t.output) j ne,
      )
      h

-- What every step of a miner keeps, all miners have behind a step of one.
act_miner-Each :
    (n : ℕ) (P : ℕ → Miner → List Message → List Reply → Type 0) (s : System) (i j : ℕ)
    → ((m : Miner) (q : List Message) (r : List Reply)
        → P j m q r
        → P j (turn m q).miner (turn m q).input (r ++ (turn m q).output))
    → AtIndex P j s
    → AtIndex P j (act_miner s i)
act_miner-Each n P s i j keeps h = elim (Bool-cases (j == i)) [
  | inl e ↦
      let same : i ≡ j = ground arith in
      subst (λ k. AtIndex P j (act_miner s k)) (sym same) (at_self P s j (keeps _ _ _ h))
  | inr e ↦ at_other P s i j (ground arith) h
]

act_miner-MinersIn :
    (n : ℕ) (stage : Stage) (s : System) (i : ℕ)
    → MinersIn n stage s
    → MinersIn n stage (act_miner s i)
unfolding act_miner
act_miner-MinersIn n starting s i h =
    (h.0, λ j l. act_miner-Each n (λ k. Fresh) s i j turn-Fresh (h.1 j l))
act_miner-MinersIn n selecting s i h = (
  h.0,
  λ j l.
      act_miner-Each n (InStep n s) s i j (turn-Synced j n s.boss.num_of_0 s.boss.treasure)
        (h.1 j l),
)
act_miner-MinersIn n (receiving w md5 datlen) s i h = (
  h.0,
  record {
    known = h.1.known;
    delivers =
        act_miner-Each n (λ j. Delivers j n s.boss.num_of_0 s.boss.treasure md5 datlen) s i w
          (turn-Delivers w n s.boss.num_of_0 s.boss.treasure md5 datlen) h.1.delivers;
    others = λ j l ne.
        act_miner-Each n (InStep n s) s i j (turn-Synced j n s.boss.num_of_0 s.boss.treasure)
          (h.1.others j l ne);
  },
)
act_miner-MinersIn n ended s i h = tt

pub act_miner-Inv :
    (mine : Text) (n : ℕ) (s : System) (i : ℕ) → Inv mine n s → Inv mine n (act_miner s i)
unfolding act_miner
act_miner-Inv mine n s i inv = record {
  proven = inv.proven;
  miners = act_miner-MinersIn n s.boss.stage s i inv.miners;
}
