-- ===== src/Box/Pool/Ends.antt =====
-- MP5/src/thread.c: the tasks that were taken end when each thread gets its turn.
use mathlib.Core.Path.{subst}
use sp.Prelude.{
  ℕ, zero, suc, ◌+◌, ◌-◌, ◌≤◌, ◌<◌, ◌≡◌, refl, ap, ◌∙◌, inl, inr, List, [], ◌∷◌, true, false, ◌==◌,
  ltb, if◌then◌else◌, arith, Bool-cases, update, total-zero, count,
}
use sp.Box.Pool.{outside, Pool, work, Event, run, finished_from, is_finished, init_thread_pool}
use sp.Box.Pool.Workers.{
  is_chosen, IsLegal, rank, holds, rank-le, rank-task_thread_func, rest-free, rest-holds,
}
use sp.Box.Pool.Sound.{IsSound, work-IsSound}
use sp.Box.Pool.Tasks.{reached-IsSound}

module _ (n : ℕ) where
  -- The threads step in the order of a list, and the main thread does not.
  unfoldable pub run_threads : List ℕ → Pool → Pool
  run_threads [] p = p
  run_threads (i ∷ is) p = run_threads is (if ltb i n then work n i p else p)

  -- What a thread's step leaves alone.
  record Follows (p q : Pool) (is : List ℕ) : Type 0 where
    sound : IsSound n q
    same_dispatch : q.dispatch ≡ p.dispatch
    same_taken : q.taken ≡ p.taken
    rank_falls : (i : ℕ) → i < n → rank (q.worker i) ≡ rank (p.worker i) - count i is

  work_dispatch : (p : Pool) (k : ℕ) → (work n k p).dispatch ≡ p.dispatch
  unfolding work
  work_dispatch p k = refl

  work_taken : (p : Pool) (k : ℕ) → (work n k p).taken ≡ p.taken
  unfolding work
  work_taken p k = refl

  rank-work :
      (p : Pool) (k i : ℕ)
      → k < n
      → IsSound n p
      → rank ((work n k p).worker i) ≡ rank (p.worker i) - (if k == i then 1 else 0)
  unfolding work update
  rank-work p k i l s = ground (
    arith,
    ap (λ j. p.worker j) {x = k} {y = i},
    rank-task_thread_func (is_chosen p.dispatch k) (p.worker k) (s.legal k l),
  )

  run_threads-Follows : (is : List ℕ) (p : Pool) → IsSound n p → Follows p (run_threads is p) is
  unfolding run_threads count
  run_threads-Follows [] p s = record {
    sound = s;
    same_dispatch = refl;
    same_taken = refl;
    rank_falls = λ i l. omega arith;
  }
  run_threads-Follows (k ∷ is) p s = elim (Bool-cases (ltb k n)) [
    | inl below ↦
        let l : k < n = ground arith in
        let f = run_threads-Follows is (work n k p) (work-IsSound n p k l s) in
        rw below (record {
          sound = f.sound;
          same_dispatch = f.same_dispatch ∙ work_dispatch p k;
          same_taken = f.same_taken ∙ work_taken p k;
          rank_falls = λ i li. omega (arith, f.rank_falls i li, rank-work p k i l s);
        })
    | inr above ↦
        let f = run_threads-Follows is p s in
        rw above (record {
          sound = f.sound;
          same_dispatch = f.same_dispatch;
          same_taken = f.same_taken;
          rank_falls = λ i li.
              let other : (k == i) ≡ false = ground arith in
              rw other (omega (arith, f.rank_falls i li));
        })
  ]

  all_free :
      (p : Pool) (i left : ℕ)
      → ((j : ℕ) → i ≤ j → j < i + left → (p.worker j).busy ≡ false)
      → finished_from n i left p ≡ true
  unfolding finished_from
  all_free p i zero h = refl
  all_free p i (suc left) h =
      rw (h i (omega arith) (omega arith))
        (all_free p (i + 1) left (λ j a b. h j (omega arith) (omega arith)))

  -- From whatever the pool has come to, when the main thread is not in `run_task` and calls it no
  -- more: once each thread has had three steps, in any order, every task that was taken has ended,
  -- as often as it was taken, and `is_finished` says that the pool is free.
  pub run_threads-IsFinished :
      (es : List (Event n)) (is : List ℕ)
      → (run n init_thread_pool es).dispatch ≡ outside
      → ((i : ℕ) → i < n → 3 ≤ count i is)
      → (let p = run n init_thread_pool es in
          let q = run_threads is p in
          ((fd : ℕ) → count fd q.ended ≡ count fd p.taken) × (is_finished n q ≡ true))
  unfolding is_finished is_chosen
  run_threads-IsFinished es is out fair =
      let p = run n init_thread_pool es in
      let q = run_threads is p in
      let f = run_threads-Follows is p (reached-IsSound n es) in
      let rest : (i : ℕ) → i < n → rank (q.worker i) ≡ 0 =
        λ i l. omega (arith, f.rank_falls i l, rank-le (p.worker i), fair i l) in
      let legal : (i : ℕ) → i < n → IsLegal false (q.worker i) = λ i l.
        subst (λ d. IsLegal (is_chosen d i) (q.worker i)) (f.same_dispatch ∙ out)
          (f.sound.legal i l) in
      (
        λ fd. omega (
          arith,
          f.sound.kept fd,
          total-zero (holds fd) n q.worker (λ i l. rest-holds fd (q.worker i) (rest i l)),
          ap (count fd) f.same_taken,
        ),
        all_free q 0 n
            (λ j _ b. rest-free (q.worker j) (legal j (omega arith)) (rest j (omega arith))),
      )
