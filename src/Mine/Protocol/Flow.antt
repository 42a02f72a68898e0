-- ===== src/Mine/Protocol/Flow.antt =====
-- MP3/server/boss.c and MP3/client/miner.c: what the pipes of one miner hold while it keeps up.
use sp.Prelude.{ℕ, ◌+◌, ◌≤◌, ◌<◌, ◌≡◌, refl, ◌⊎◌, List, [], ◌∷◌, ◌++◌, true, false, arith, length}
use sp.Loser.Text.{Text}
use sp.Mine.{is_treasure}
use sp.Mine.Miner.{
  Message, assign, other_found, status, Reply, found, Phase, reading, held, trying, polling, asking,
  Miner, md5_of, received,
}

-- No message but requests for a status.
pub data OnlyStatus : List Message → Type 0 where
  nothing : OnlyStatus []
  one_more : {q : List Message} → OnlyStatus q → OnlyStatus (status ∷ q)

-- Results for treasures smaller than the one that is looked for.
pub data Stale (size : ℕ) : List Reply → Type 0 where
  no_result : Stale size []
  too_small :
      {md5 : Text} {k len : ℕ} {r : List Reply}
      → k < size
      → Stale size r
      → Stale size (found md5 k len ∷ r)

-- Miner `i` of `n`, where the boss looks for a treasure of `size` behind the bytes `mine`.
module _ (i n size : ℕ) (mine : Text) where
  -- With these messages a miner that has the bytes `t` for a treasure of size `k` comes to the
  -- boss's bytes and size: each next job stands behind the notice of the treasure before it.
  pub data Flow : ℕ → Text → List Message → Type 0 where
    done : {k : ℕ} {t : Text} → k ≡ size → t ≡ mine → Flow k t []
    stat : {k : ℕ} {t : Text} {q : List Message} → Flow k t q → Flow k t (status ∷ q)
    next :
        {k : ℕ} {t : Text} {q : List Message} (k' : ℕ) (md5 name new : Text)
        → k' ≡ k + 1
        → Flow k' (t ++ new) q
        → Flow k t (other_found md5 k name ∷ assign i n k' new ∷ q)

  -- What a first message can be.
  abbrev pub Opens : ℕ → Text → List Message → Type 0
  Opens k t [] = Unit {0}
  Opens k t (status ∷ q) = Flow k t q
  Opens k t (other_found md5 size_found name ∷ q) =
      (k' : ℕ) × (new : Text) × (rest : List Message) × (size_found ≡ k)
      × (k' ≡ k + 1)
      × (q ≡ assign i n k' new ∷ rest)
      × Flow k' (t ++ new) rest
  Opens k t (_ ∷ q) = ⊥

  pub Flow-Opens : {k : ℕ} {t : Text} {q : List Message} → Flow k t q → Opens k t q
  Flow-Opens (done e f) = tt
  Flow-Opens (stat f) = f
  Flow-Opens (next k' md5 name new e f) = (k', new, _, refl, e, refl, f)

  -- At the read of the main loop: the next job comes first.
  pub record NextJob (m : Miner) (q : List Message) (r : List Reply) : Type 0 where
    pub number : ℕ
    pub new : Text
    pub rest : List Message
    pub first : q ≡ assign i n number new ∷ rest
    pub follows : Flow number (received m new) rest
    pub stale : Stale size r

  -- With a job of its own.
  pub record Working (m : Miner) (q : List Message) (r : List Reply) : Type 0 where
    pub assigned : m.first_assign ≡ false
    pub own_start : m.jobs.start ≡ i
    pub own_add : m.jobs.add ≡ n
    pub follows : Flow m.jobs.num_of_0 m.treasure q
    pub stale : Stale size r

  -- It has found the treasure that the boss looks for, and its result is the last thing it wrote.
  pub record Claim (append : Text) (m : Miner) (q : List Message) (r : List Reply) : Type 0 where
    pub assigned : m.first_assign ≡ false
    pub own_start : m.jobs.start ≡ i
    pub own_add : m.jobs.add ≡ n
    pub same_size : m.jobs.num_of_0 ≡ size
    pub same_mine : m.treasure ≡ mine
    pub only_status : OnlyStatus q
    pub before : List Reply
    pub last : r ≡ before ++ found (md5_of (mine ++ append)) size (length append) ∷ []
    pub stale : Stale size before
    pub right : is_treasure (md5_of (mine ++ append)) size ≡ true

  -- Its result came too late, and it has not seen that yet.
  pub record Late (m : Miner) (q : List Message) (r : List Reply) : Type 0 where
    pub working : Working m q r
    pub late : m.jobs.num_of_0 < size

  abbrev pub SyncedIn : Phase → Miner → List Message → List Reply → Type 0
  SyncedIn reading m q r = NextJob m q r
  SyncedIn (held (other_found md5 k name)) m q r = NextJob m q r
  SyncedIn (held _) m q r = ⊥
  SyncedIn (trying append left) m q r = Working m q r
  SyncedIn (polling append start_next) m q r = Working m q r
  SyncedIn (asking append) m q r = Late m q r ⊎ Claim append m q r

  abbrev pub Synced : Miner → List Message → List Reply → Type 0
  Synced m q r = SyncedIn m.phase m q r

  pub Flow-le : {k : ℕ} {t : Text} {q : List Message} → Flow k t q → k ≤ size
  Flow-le (done e f) = omega arith
  Flow-le (stat f) = Flow-le f
  Flow-le (next k' md5 name new e f) = omega (arith, Flow-le f)

  -- A miner with the boss's size has the boss's bytes, and only requests for a status are left.
  pub Flow-current :
      {k : ℕ} {t : Text} {q : List Message} → Flow k t q → k ≡ size → (t ≡ mine) × OnlyStatus q
  Flow-current (done e f) h = (f, nothing)
  Flow-current (stat f) h = let (e, only) = Flow-current f h in (e, one_more only)
  Flow-current (next k' md5 name new e f) h = absurd (omega (arith, Flow-le f))

  pub Flow-status : {k : ℕ} {t : Text} {q : List Message} → Flow k t q → Flow k t (q ++ status ∷ [])
  Flow-status (done e f) = stat (done e f)
  Flow-status (stat f) = stat (Flow-status f)
  Flow-status (next k' md5 name new e f) = next k' md5 name new e (Flow-status f)

pub OnlyStatus-append : {q : List Message} → OnlyStatus q → OnlyStatus (q ++ status ∷ [])
OnlyStatus-append nothing = one_more nothing
OnlyStatus-append (one_more h) = one_more (OnlyStatus-append h)

pub Stale-append :
    {size : ℕ} {r : List Reply} (md5 : Text) (k len : ℕ)
    → Stale size r
    → k < size
    → Stale size (r ++ found md5 k len ∷ [])
Stale-append md5 k len no_result l = too_small l no_result
Stale-append md5 k len (too_small h s) l = too_small h (Stale-append md5 k len s l)

pub Stale-suc : {size : ℕ} {r : List Reply} → Stale size r → Stale (size + 1) r
Stale-suc no_result = no_result
Stale-suc (too_small h s) = too_small (omega arith) (Stale-suc s)

-- A new treasure: the notice and the next job go behind what is there.
pub Flow-next :
    {i n size : ℕ} {mine : Text} (md5 name new : Text) {k : ℕ} {t : Text} {q : List Message}
    → Flow i n size mine k t q
    → Flow i n
        (size + 1)
        (mine ++ new)
        k
        t
        ((q ++ other_found md5 size name ∷ []) ++ assign i n (size + 1) new ∷ [])
Flow-next {size} md5 name new (done e f) =
    rw (e, f) (next (size + 1) md5 name new refl (done refl refl))
Flow-next md5 name new (stat f) = stat (Flow-next md5 name new f)
Flow-next md5 name new (next k' a b c e f) = next k' a b c e (Flow-next md5 name new f)
