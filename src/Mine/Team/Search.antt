-- ===== src/Mine/Team/Search.antt =====
-- MP3/client/miner.c and MP3/server/boss.c: a team finds a treasure if there is one.
use mathlib.Core.Path.{subst}
use sp.Prelude.{
  ℕ, zero, suc, ◌+◌, ◌-◌, ◌*◌, ◌/◌, ◌%◌, ◌≤◌, ◌<◌, ◌≡◌, refl, sym, ap, ◌∙◌, inl, inr, List, [], ◌∷◌,
  ◌++◌, Bool, true, false, length, arith, Bool-cases, append-nil, replicate, length-replicate,
}
use sp.Loser.Text.{Text}
use sp.Mine.{is_treasure, next_append}
use sp.Mine.Miner.{
  trying, asking, Miner, md5_of, first_append, assign, received, serve, begin_rounds,
}
use sp.Mine.Counter.{Adds, fits, over, array, number_of, limit, next_append-Adds}
use sp.Mine.Team.Bytes.{
  AreBytes, next_append-AreBytes, array-AreBytes, array-array, length-array, number_of-injective,
  number_of-lt-limit, limit-length, first_digits, first_append-array, first_digits-number,
  first_digits-AreBytes,
}
use sp.Mine.Team.Finds.{turns, judge, Finds, found_now, goes_on, longer}

-- The next bytes of a length, or none.
pub data Moves (r : List ℕ) (add : ℕ) (o : List ℕ × Bool) : Type 0 where
  further :
      (r' : List ℕ)
      → o ≡ (array r', false)
      → AreBytes r'
      → length r' ≡ length r
      → number_of r' ≡ number_of r + add
      → Moves r add o
  past : (other : List ℕ) → o ≡ (other, true) → limit r ≤ number_of r + add → Moves r add o

Adds-Moves :
    {r : List ℕ} {add : ℕ} {o : List ℕ × Bool} → Adds r [] add o → AreBytes o.0 → Moves r add o
Adds-Moves (fits r' l e small) h =
    further r' (ap (λ t. (t, false)) (append-nil (array r')))
      (subst AreBytes (array-array r')
        (array-AreBytes (array r') (subst AreBytes (append-nil (array r')) h)))
      l e
Adds-Moves (over other e) h = past other refl e

next_append-Moves :
    (x : ℕ) (r : List ℕ) (add : ℕ)
    → AreBytes (x ∷ r)
    → Moves (x ∷ r) add (next_append (array (x ∷ r)) add)
next_append-Moves x r add h =
    Adds-Moves (next_append-Adds x r add (number_of-lt-limit (x ∷ r) h))
      (next_append-AreBytes (array (x ∷ r)) add (array-AreBytes (x ∷ r) h))

module _ (m : Miner) where
  -- From one array on: it is a treasure, or the search stands at the next one of its length, or at
  -- the first of the next length.
  step_lem :
      (d : Text) (x : ℕ) (r : List ℕ) (left : ℕ)
      → AreBytes (x ∷ r)
      → ((y : ℕ) (r' : List ℕ) (d' : Text) (left' : ℕ)
          → AreBytes (y ∷ r')
          → length (y ∷ r') ≡ length (x ∷ r)
          → number_of (y ∷ r') ≡ number_of (x ∷ r) + m.jobs.add
          → Finds m d' (trying (array (y ∷ r')) left'))
      → (limit (x ∷ r) ≤ number_of (x ∷ r) + m.jobs.add
          → (d' : Text)
          → Finds m d' (trying (first_append m.jobs.start (suc (length (array (x ∷ r))))) 19999))
      → Finds m d (trying (array (x ∷ r)) left)
  step_lem d x r left h later next = elim (Bool-cases (judge m (array (x ∷ r)))) [
    | inl t ↦ found_now m d (array (x ∷ r)) left t
    | inr f ↦ moved f (next_append-Moves x r m.jobs.add h)
  ]
    where
      moved :
          judge m (array (x ∷ r)) ≡ false
          → Moves (x ∷ r) m.jobs.add (next_append (array (x ∷ r)) m.jobs.add)
          → Finds m d (trying (array (x ∷ r)) left)
      moved f (further [] q b l' e') = absurd (omega arith)
      moved f (further (y ∷ r') q b l' e') =
          goes_on m d (array (x ∷ r)) (array (y ∷ r')) left f q
            λ d' left'. later y r' d' left' b l' e'
      moved f (past other q big) = longer m d (array (x ∷ r)) other left f q (next big)

  -- At a length below the goal's, with `fuel` numbers at most before the next length.
  climb :
      (after : ℕ)
      → ((d : Text) → Finds m d (trying (first_append m.jobs.start (suc after)) 19999))
      → 1 ≤ m.jobs.add
      → (fuel : ℕ) (d : Text) (x : ℕ) (r : List ℕ) (left : ℕ) → AreBytes (x ∷ r)
      → length (x ∷ r) ≡ after
      → limit (x ∷ r) ≤ number_of (x ∷ r) + fuel
      → Finds m d (trying (array (x ∷ r)) left)
  climb after next positive zero d x r left h l few =
      absurd (omega (arith, number_of-lt-limit (x ∷ r) h))
  climb after next positive (suc fuel) d x r left h l few =
      step_lem d x r left h
        (λ y r' d' left' b l' e.
          climb after next positive fuel d' y r' left' b (omega arith)
            (omega (arith, limit-length (y ∷ r') (x ∷ r) l')))
        (λ _ d'.
          subst (λ k. Finds m d' (trying (first_append m.jobs.start (suc k)) 19999))
            (sym (length-array (x ∷ r) ∙ l)) (next d'))

module _ (m : Miner) (goal : List ℕ) (bytes : AreBytes goal)
    (right : judge m (array goal) ≡ true) where
  -- At the length of the goal, `c` steps in front of it.
  level :
      (c : ℕ) (d : Text) (x : ℕ) (r : List ℕ) (left : ℕ)
      → AreBytes (x ∷ r)
      → length (x ∷ r) ≡ length goal
      → number_of goal ≡ number_of (x ∷ r) + m.jobs.add * c
      → Finds m d (trying (array (x ∷ r)) left)
  level zero d x r left h l e =
      let same : x ∷ r ≡ goal = number_of-injective (x ∷ r) goal h bytes l (omega arith) in
      found_now m d (array (x ∷ r)) left (rw same right)
  level (suc c) d x r left h l e =
      let back : m.jobs.add * suc c ≡ m.jobs.add + m.jobs.add * c = grind arith in
      step_lem m d x r left h
        (λ y r' d' left' b l' e'. level c d' y r' left' b (omega arith) (omega (arith, back)))
        (λ big.
          absurd (omega (arith, back, number_of-lt-limit goal bytes, limit-length (x ∷ r) goal l)))

  -- At the first bytes of a length, `gap` lengths below the goal's.
  enter :
      (gap before c : ℕ) (d : Text)
      → 1 ≤ m.jobs.add
      → m.jobs.start < 256
      → length goal ≡ suc before + gap
      → number_of goal ≡ m.jobs.start + m.jobs.add * c
      → Finds m d (trying (first_append m.jobs.start (suc before)) 19999)
  enter zero before c d positive small l e = rw (first_append-array m.jobs.start before) (
      level c d (m.jobs.start % 256) (replicate before 0) 19999
        (first_digits-AreBytes m.jobs.start before)
        (omega (arith, length-replicate {A = ℕ} before 0))
        (omega (arith, first_digits-number m.jobs.start before small)))
  enter (suc gap) before c d positive small l e = rw (first_append-array m.jobs.start before) (
      climb m (suc before) (λ d'. enter gap (suc before) c d' positive small (omega arith) e)
        positive (limit (first_digits m.jobs.start before)) d (m.jobs.start % 256)
        (replicate before 0) 19999 (first_digits-AreBytes m.jobs.start before)
        (omega (arith, length-replicate {A = ℕ} before 0)) (omega arith))

-- The number of the appended bytes, the last of them the lowest.
unfoldable pub value_of : Text → ℕ
unfolding number_of array
value_of append = number_of (array append)

-- If some bytes behind `mine` make a treasure of a size, a team of at most 256 miners finds one:
-- the miner whose index is the bytes' number modulo the number of miners, once it has read its job
-- and holds `mine`, comes after finitely many steps, when no message stops it, to bytes that make
-- a treasure of that size, and sends them to the boss.
pub team-Finds :
    (mine append : Text) (size n : ℕ) (m : Miner) (new : Text)
    → 1 ≤ n
    → n ≤ 256
    → AreBytes append
    → 1 ≤ length append
    → is_treasure (md5_of (mine ++ append)) size ≡ true
    → received m new ≡ mine
    → (let job = (serve m (assign (value_of append % n) n size new) []).miner in
        (steps : ℕ) × (bytes_found : Text) × ((turns steps job).phase ≡ asking bytes_found)
        × (is_treasure (md5_of (mine ++ bytes_found)) size ≡ true))
unfolding value_of serve begin_rounds
team-Finds mine append size n m new positive few bytes some_bytes right holds =
    let job = (serve m (assign (value_of append % n) n size new) []).miner in
    let goal = array append in
    let f : Finds job m.md5 (trying (first_append (value_of append % n) 1) 19999) =
      enter job goal (array-AreBytes append bytes) (rw (array-array append) (rw holds right))
        (length append - 1) 0 (value_of append / n) m.md5 positive (omega arith)
        (omega (arith, length-array append)) (grind arith) in
    (f.steps, f.append, f.asks, rw (← holds) f.right)
