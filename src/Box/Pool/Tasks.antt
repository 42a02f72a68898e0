-- ===== src/Box/Pool/Tasks.antt =====
-- MP5/src/thread.c: over any interleaving of the threads, no task is lost or run twice, and all the
-- tasks that were taken end.
use mathlib.Core.Path.{subst}
use sp.Prelude.{
  ℕ, ◌+◌, ◌<◌, ◌≡◌, refl, sym, inl, inr, List, [], ◌∷◌, ltb, arith, Bool-cases, total, total-zero,
  count,
}
use sp.Box.Pool.{
  Dispatch, outside, testing, launching, releasing, Pool, dispatch_at, call_at, Event, works, calls,
  dispatches, act, run, init_task_thread, init_thread_pool,
}
use sp.Box.Pool.Workers.{is_chosen, is_legal, IsLegal, holds, holds_at}
use sp.Box.Pool.Sound.{
  IsSound, Proceeds, work-IsSound, claimed-IsSound, given-IsSound, released-IsSound,
}

module _ (n : ℕ) where
  -- `run_task` looks on, or refuses.
  moved-IsSound :
      (p : Pool) (d d' : Dispatch) (refused : List ℕ)
      → p.dispatch ≡ d
      → ((i : ℕ) → is_chosen d' i ≡ is_chosen d i)
      → Proceeds n p.worker d'
      → IsSound n p
      → IsSound n (record p { dispatch = d'; refused = refused })
  moved-IsSound p d d' refused e same goes s =
      let legal = subst (λ x. (j : ℕ) → j < n → IsLegal (is_chosen x j) (p.worker j)) e s.legal in
      record {
        legal = λ i l. subst (λ c. IsLegal c (p.worker i)) (sym (same i)) (legal i l);
        proceeds = goes;
        kept = s.kept;
      }

  dispatch-IsSound :
      (d : Dispatch) (p : Pool) → p.dispatch ≡ d → IsSound n p → IsSound n (dispatch_at n d p)
  unfolding dispatch_at is_chosen
  dispatch-IsSound outside p e s = s
  dispatch-IsSound (launching i fd) p e s = given-IsSound n p i fd e s
  dispatch-IsSound (releasing i fd) p e s = released-IsSound n p i fd e s
  dispatch-IsSound (testing i fd) p e s = elim (Bool-cases (ltb i n)) [
    | inl below ↦ elim (Bool-cases (p.worker i).busy) [
      | inl busy ↦
          rw (below, busy)
            (moved-IsSound p (testing i fd) (testing (i + 1) fd) p.refused e (λ _. refl) tt s)
      | inr free ↦ rw (below, free) (claimed-IsSound n p i fd e (ground arith) free s)
    ]
    | inr last ↦
        rw last (moved-IsSound p (testing i fd) outside (fd ∷ p.refused) e (λ _. refl) tt s)
  ]

  call-IsSound :
      (d : Dispatch) (p : Pool) (fd : ℕ)
      → p.dispatch ≡ d
      → IsSound n p
      → IsSound n (call_at n d fd p)
  unfolding call_at is_chosen
  call-IsSound outside p fd e s =
      moved-IsSound p outside (testing 0 fd) p.refused e (λ _. refl) tt s
  call-IsSound (testing i f) p fd e s = s
  call-IsSound (launching i f) p fd e s = s
  call-IsSound (releasing i f) p fd e s = s

  act-IsSound : (p : Pool) (e : Event n) → IsSound n p → IsSound n (act n p e)
  unfolding act
  act-IsSound p (works i l) s = work-IsSound n p i l s
  act-IsSound p (calls fd) s = call-IsSound p.dispatch p fd refl s
  act-IsSound p dispatches s = dispatch-IsSound p.dispatch p refl s

  run-IsSound : (p : Pool) (es : List (Event n)) → IsSound n p → IsSound n (run n p es)
  unfolding run
  run-IsSound p [] s = s
  run-IsSound p (e ∷ es) s = run-IsSound (act n p e) es (act-IsSound p e s)

  start-IsSound : IsSound n init_thread_pool
  unfolding init_thread_pool init_task_thread is_chosen is_legal count holds_at
  start-IsSound = record {
    legal = λ i l. refl;
    proceeds = tt;
    kept = λ fd. omega (arith, total-zero (holds fd) n (λ _. init_task_thread) (λ i l. refl));
  }

  pub reached-IsSound : (es : List (Event n)) → IsSound n (run n init_thread_pool es)
  reached-IsSound es = run-IsSound init_thread_pool es start-IsSound

  -- However the threads and the main thread interleave, each task that was taken for a connection
  -- has ended or is with exactly one thread, which waits to run it or runs it: none is lost, and
  -- none is run twice.
  pub run-keeps_tasks :
      (es : List (Event n)) (fd : ℕ)
      → (let p = run n init_thread_pool es in
          count fd p.taken ≡ count fd p.ended + total (holds fd) n p.worker)
  run-keeps_tasks es fd = (reached-IsSound es).kept fd
