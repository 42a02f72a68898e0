-- ===== src/Box/Requests/Dispatch.antt =====
-- MP5/src/thread.c: `run_task` refuses exactly when every thread is busy.
use mathlib.Core.Path.{subst}
use sp.Prelude.{
  ℕ, ◌≡◌, refl, sym, ap, inl, inr, List, [], ◌∷◌, ◌++◌, Option, none, some, Bool, true, false,
  arith, Bool-cases,
}
use sp.Box.Requests.{Thread, launch_behind, run_with, launch_first, run_task}

-- Every thread is busy.
abbrev pub AllBusy : List Thread → Type 0
AllBusy [] = Unit {0}
AllBusy (t ∷ ts) = (t.busy ≡ true) × AllBusy ts

-- What a dispatch of `fd` makes of the threads: the first free one takes it, the others stay.
pub record Launches (fd : ℕ) (before after : List Thread) : Type 0 where
  pub front : List Thread
  pub free : Thread
  pub back : List Thread
  pub all_busy : AllBusy front
  pub was_free : free.busy ≡ false
  pub was : before ≡ front ++ free ∷ back
  pub becomes : after ≡ front ++ (record { busy = true; task = some fd }) ∷ back

Dispatched : ℕ → List Thread → Option (List Thread) → Type 0
Dispatched fd ts none = AllBusy ts
Dispatched fd ts (some after) = Launches fd ts after

launch_behind-Dispatched :
    (fd : ℕ) (t : Thread) (ts : List Thread) (o : Option (List Thread))
    → t.busy ≡ true
    → Dispatched fd ts o
    → Dispatched fd (t ∷ ts) (launch_behind t o)
unfolding Dispatched launch_behind
launch_behind-Dispatched fd t ts none b d = (b, d)
launch_behind-Dispatched fd t ts (some after) b d = record {
  front = t ∷ d.front;
  free = d.free;
  back = d.back;
  all_busy = (b, d.all_busy);
  was_free = d.was_free;
  was = ap (λ l. t ∷ l) d.was;
  becomes = ap (λ l. t ∷ l) d.becomes;
}

busy_lem :
    (fd : ℕ) (t : Thread) (ts : List Thread)
    → t.busy ≡ true
    → launch_first fd (t ∷ ts) ≡ launch_behind t (launch_first fd ts)
unfolding launch_first
busy_lem fd t ts b = ground (arith, b)

free_lem :
    (fd : ℕ) (t : Thread) (ts : List Thread)
    → t.busy ≡ false
    → launch_first fd (t ∷ ts) ≡ some ((record { busy = true; task = some fd }) ∷ ts)
unfolding launch_first
free_lem fd t ts b = ground (arith, b)

launch_first-Dispatched : (fd : ℕ) (ts : List Thread) → Dispatched fd ts (launch_first fd ts)
unfolding launch_first Dispatched
launch_first-Dispatched fd [] = tt
launch_first-Dispatched fd (t ∷ ts) = elim (Bool-cases t.busy) [
  | inl b ↦
      subst (Dispatched fd (t ∷ ts)) (sym (busy_lem fd t ts b))
        (launch_behind-Dispatched fd t ts _ b (launch_first-Dispatched fd ts))
  | inr f ↦ subst (Dispatched fd (t ∷ ts)) (sym (free_lem fd t ts f)) (record {
    front = [];
    free = t;
    back = ts;
    all_busy = tt;
    was_free = f;
    was = refl;
    becomes = refl;
  })
]

-- Whether all threads are busy and `run_task` says no, or the first free one takes the task.
pub data Answers (fd : ℕ) (before : List Thread) : List Thread × Bool → Type 0 where
  refuses : AllBusy before → Answers fd before (before, false)
  takes : (after : List Thread) → Launches fd before after → Answers fd before (after, true)

run_with-Answers :
    (fd : ℕ) (ts : List Thread) (o : Option (List Thread))
    → Dispatched fd ts o
    → Answers fd ts (run_with ts o)
unfolding run_with Dispatched
run_with-Answers fd ts none d = refuses d
run_with-Answers fd ts (some after) d = takes after d

-- `run_task` refuses exactly when every thread of the pool is busy, and changes nothing then;
-- otherwise the first thread that is not busy becomes busy with the task, and no other changes.
pub run_task-Answers : (fd : ℕ) (ts : List Thread) → Answers fd ts (run_task fd ts)
unfolding run_task
run_task-Answers fd ts = run_with-Answers fd ts _ (launch_first-Dispatched fd ts)
