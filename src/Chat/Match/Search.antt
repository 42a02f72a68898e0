-- ===== src/Chat/Match/Search.antt =====
-- MP4/MP4main.c: the children that crash and restart find what one search of the queue would find.
use sp.Prelude.{
  ℕ, zero, suc, ◌+◌, ◌-◌, ◌≤◌, ◌<◌, ◌≡◌, refl, sym, ◌∙◌, inl, inr, List, [], ◌∷◌, some, Bool, true,
  false, arith, ◌==◌, if◌then◌else◌, length, drop, Bool-cases,
}
use sp.Chat.Match.{
  Outcome, answer, broken, Report, not_match, trying, matched, Decision, waits, paired, both,
  match_loop, match, visited, fork_loop,
}

abbrev pub accepts : Outcome → Bool
accepts broken = false
accepts (answer b) = b

drop_nil : (n : ℕ) → drop {A = ℕ} n [] ≡ []
drop_nil zero = refl
drop_nil (suc n) = refl

drop-drop : (a b c : ℕ) (xs : List ℕ) → c ≡ b + a → drop a (drop b xs) ≡ drop c xs
drop-drop a zero c xs e = let e' : c ≡ a = omega arith in rw e'
drop-drop a (suc b) c [] e = drop_nil a ∙ sym (drop_nil c)
drop-drop a (suc b) zero (x ∷ xs) e = absurd (omega arith)
drop-drop a (suc b) (suc c) (x ∷ xs) e = drop-drop a b c xs (omega arith)

drop_end : (n : ℕ) (xs : List ℕ) → length xs ≤ n → drop n xs ≡ []
drop_end n [] h = drop_nil n
drop_end zero (x ∷ xs) h = absurd (omega arith)
drop_end (suc n) (x ∷ xs) h = drop_end n xs (omega arith)

drop_inside : (n : ℕ) (xs : List ℕ) → n < length xs → (y : ℕ) × (ys : List ℕ) × (drop n xs ≡ y ∷ ys)
drop_inside n [] h = absurd (omega arith)
drop_inside zero (x ∷ xs) h = (x, xs, refl)
drop_inside (suc n) (x ∷ xs) h = drop_inside n xs (omega arith)

length-drop : (n : ℕ) (xs : List ℕ) → n ≤ length xs → n + length (drop n xs) ≡ length xs
length-drop zero xs h = omega arith
length-drop (suc n) [] h = omega arith
length-drop (suc n) (x ∷ xs) h = omega (arith, length-drop n xs)

module _ (filter : ℕ → ℕ → Outcome) (fd : ℕ) where
  -- The specification: the first client of the queue that both filters accept.
  unfoldable pub search_queue : List ℕ → Decision
  search_queue [] = waits
  search_queue (w ∷ ws) = if accepts (both filter fd w) then paired w else search_queue ws

  -- A child's report on the clients `ws` from index `i`, some of which may have gone by.
  abbrev Reports : ℕ → List ℕ → Report → Type 0
  Reports i ws not_match = ⊥
  Reports i ws (matched w) = search_queue ws ≡ paired w
  Reports i ws (trying j) =
      (i ≤ j) × (j < i + length ws) × (search_queue ws ≡ search_queue (drop (j + 1 - i) ws))

  end_lem : (i w : ℕ) → search_queue [] ≡ search_queue (drop (i + 1 - i) (w ∷ []))
  end_lem i w = let one : i + 1 - i ≡ 1 = omega arith in rw one

  Reports-cons :
      (i : ℕ) (w x : ℕ) (ws : List ℕ) (r : Report)
      → accepts (both filter fd w) ≡ false
      → Reports (i + 1) (x ∷ ws) r
      → Reports i (w ∷ x ∷ ws) r
  unfolding search_queue
  Reports-cons i w x ws not_match no_w h = elim h [ ]
  Reports-cons i w x ws (matched v) no_w h = rw no_w h
  Reports-cons i w x ws (trying j) no_w (le, lt, same) =
      let e : j + 1 - i ≡ suc (j + 1 - (i + 1)) = omega arith in
      (omega arith, omega arith, rw (no_w, e) same)

  last-Reports :
      (i w : ℕ) (o : Outcome) → both filter fd w ≡ o → Reports i (w ∷ []) (visited o i w (trying i))
  unfolding search_queue visited
  last-Reports i w broken e = (omega arith, omega arith, rw e (end_lem i w))
  last-Reports i w (answer true) e = rw e
  last-Reports i w (answer false) e = (omega arith, omega arith, rw e (end_lem i w))

  next-Reports :
      (i w x : ℕ) (ws : List ℕ) (more : Report) (o : Outcome)
      → both filter fd w ≡ o
      → Reports (i + 1) (x ∷ ws) more
      → Reports i (w ∷ x ∷ ws) (visited o i w more)
  unfolding search_queue visited
  next-Reports i w x ws more broken e h =
      let one : i + 1 - i ≡ 1 = omega arith in (omega arith, omega arith, rw (e, one))
  next-Reports i w x ws more (answer true) e h = rw e
  next-Reports i w x ws more (answer false) e h = Reports-cons i w x ws more (rw e) h

  match_loop-Reports :
      (i w : ℕ) (ws : List ℕ) (old : Report)
      → Reports i (w ∷ ws) (match_loop filter fd i (w ∷ ws) old)
  unfolding match_loop
  match_loop-Reports i w [] old = last-Reports i w _ refl
  match_loop-Reports i w (x ∷ ws) old =
      next-Reports i w x ws _ _ refl (match_loop-Reports (i + 1) x ws (trying i))

  match-Reports :
      (queue : List ℕ) (next : ℕ) (old : Report)
      → next < length queue
      → Reports next (drop next queue) (match filter fd queue next old)
  unfolding match
  match-Reports [] next old inside = absurd (omega arith)
  match-Reports (w ∷ ws) next old inside =
      let (y, ys, e) = drop_inside next (w ∷ ws) inside in rw e (match_loop-Reports next y ys old)

  -- From the index `next` on the parent decides as the search of the rest of the queue.
  abbrev Decides : ℕ → List ℕ → Type 0
  Decides fuel queue =
      (next : ℕ) (old : Report)
      → next < length queue
      → length queue < next + fuel
      → fork_loop filter fuel fd queue next old ≡ some (search_queue (drop next queue))

  decided :
      (fuel : ℕ) (queue : List ℕ) (next : ℕ) (old : Report)
      → Decides fuel queue
      → next < length queue
      → length queue < next + suc fuel
      → (r : Report) → match filter fd queue next old ≡ r
      → Reports next (drop next queue) r
      → fork_loop filter (suc fuel) fd queue next old ≡ some (search_queue (drop next queue))
  unfolding fork_loop search_queue
  decided fuel queue next old ih inside enough not_match e h = elim h [ ]
  decided fuel queue next old ih inside enough (matched w) e h = rw (e, fork_loop) (rw h)
  decided fuel queue next old ih inside enough (trying i) e (le, lt, same) =
      let total = length-drop next queue (omega arith) in
      let later = drop-drop (i + 1 - next) next (i + 1) queue (omega arith) in
      elim (Bool-cases (i + 1 == length queue)) [
        | inl l ↦
            let e' : drop (i + 1) queue ≡ [] = drop_end (i + 1) queue (ground arith) in
            rw (e, fork_loop, l) (rw (same, later, e'))
        | inr m ↦
            rw (e, fork_loop, m)
              (ih (i + 1) (trying i) (ground arith) (omega arith) ∙ rw (same, later))
      ]

  fork_from : (fuel : ℕ) (queue : List ℕ) → Decides fuel queue
  fork_from zero queue next old inside enough = absurd (omega arith)
  fork_from (suc fuel) queue next old inside enough =
      decided fuel queue next old (fork_from fuel queue) inside enough _ refl
        (match-Reports queue next old inside)

  -- The parent's loop ends after at most one child for each client in the queue and one more, and
  -- decides for the first client in the queue that accepts and is accepted; a filter that
  -- crashes counts as a refusal, and so does the crash of the child at the end of the queue.
  pub fork_loop-search_queue :
      (queue : List ℕ) (fuel : ℕ) (old : Report)
      → length queue < fuel
      → fork_loop filter fuel fd queue 0 old ≡ some (search_queue queue)
  unfolding fork_loop match search_queue
  fork_loop-search_queue [] zero old enough = absurd (omega arith)
  fork_loop-search_queue [] (suc fuel) old enough = refl
  fork_loop-search_queue (w ∷ ws) fuel old enough =
      fork_from fuel (w ∷ ws) 0 old (omega arith) (omega arith)
