-- ===== src/Chat/Match.antt =====
-- MP4/MP4main.c: `match`, which a forked child runs, and the loop of its parent in `main`.
-- The compiled filter functions are not part of the program: they are the parameters `filter`.
pub mod Search
mod Examples
use sp.Prelude.{
  ℕ, zero, suc, ◌+◌, ◌-◌, List, [], ◌∷◌, Option, none, some, Bool, true, false, ◌&&◌, ◌==◌,
  if◌then◌else◌, length, drop,
}

-- What comes of loading and calling a filter function: its answer, or no answer, when the call
-- crashes, `dlopen` fails (the assertion) or the symbol is missing (the early return).
pub data Outcome : Type 0 where
  answer : Bool → Outcome
  broken : Outcome

-- The file `res_from_child`: 0, or 1 with an index of the queue, or 2 with a client.
pub data Report : Type 0 where
  not_match : Report
  trying : ℕ → Report
  matched : ℕ → Report

-- Where the parent's loop ends: the client waits in the queue, or is paired.
pub data Decision : Type 0 where
  waits : Decision
  paired : ℕ → Decision

-- What the file says after the filters of the client `w` at index `i`; `more` is what it says later.
unfoldable pub visited : Outcome → ℕ → ℕ → Report → Report
visited broken i w more = trying i
visited (answer true) i w more = matched w
visited (answer false) i w more = more

-- `filter w fd` is the filter function of the client `w` at the user of the client `fd`.
module _ (filter : ℕ → ℕ → Outcome) where
  -- The filter of `w` first, then that of `fd`; both have to answer.
  unfoldable pub both : ℕ → ℕ → Outcome
  both fd w = elim (filter w fd) [
    | broken ↦ broken
    | answer res1 ↦ elim (filter fd w) [ broken ↦ broken | answer res2 ↦ answer (res1 && res2) ]
  ]

  -- The loop of `match` from index `i` on, over what `visit` leads to. It reads the next node
  -- before it tests `i < size`, so after the last one the child dies with `{1, i}` in the file.
  unfoldable pub match_loop : ℕ → ℕ → List ℕ → Report → Report
  unfolding visited
  match_loop fd i [] old = old
  match_loop fd i (w ∷ rest) old =
      let more = match_loop fd (i + 1) rest (trying i) in visited (both fd w) i w more

  -- `next` is `from_here + 1`. With nothing from there on the child dies before it opens the file.
  unfoldable pub match : ℕ → List ℕ → ℕ → Report → Report
  unfolding match_loop
  match fd [] next old = not_match
  match fd (w ∷ ws) next old = match_loop fd next (drop next (w ∷ ws)) old

  -- The parent: one child after the other. `none` is a loop that has not ended after `fuel` children.
  unfoldable pub fork_loop : ℕ → ℕ → List ℕ → ℕ → Report → Option Decision
  fork_loop zero fd queue next old = none
  fork_loop (suc fuel) fd queue next old = elim (match fd queue next old) [
    | not_match ↦ some waits
    | matched w ↦ some (paired w)
    | trying i ↦
        let again = fork_loop fuel fd queue (i + 1) (trying i) in
        if i + 1 == length queue then some waits else again
  ]
