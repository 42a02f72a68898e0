-- ===== src/Box/Pool/Sound.antt =====
-- MP5/src/thread.c: what holds of the pool, and how a step of a thread or of `run_task` keeps it.
use mathlib.Core.Path.{subst}
use sp.Prelude.{
  ℕ, ◌+◌, ◌<◌, ◌≡◌, ◌≢◌, refl, sym, ap, ◌∙◌, inl, inr, ◌∷◌, Bool, true, false, ◌==◌, arith,
  Bool-cases, update, update_self, update_other, total, total-update, count, count-append,
}
use sp.Box.Pool.{
  Worker, task_thread_func, Dispatch, outside, testing, launching, releasing, Pool, claim, give,
  unlock, work,
}
use sp.Box.Pool.Workers.{
  is_task, is_chosen, IsLegal, holds, task_thread_func-IsLegal, arg-task_thread_func,
  holds-task_thread_func, chosen-IsLegal, released-IsLegal, chosen-holds,
}

-- The thread that `run_task` has chosen is one of the pool, and has its task before it is let go.
abbrev pub Proceeds : ℕ → (ℕ → Worker) → Dispatch → Type 0
Proceeds n worker outside = Unit {0}
Proceeds n worker (testing i fd) = Unit {0}
Proceeds n worker (launching i fd) = i < n
Proceeds n worker (releasing i fd) = (i < n) × ((worker i).arg ≡ fd)

chosen_self : (i fd : ℕ) → is_chosen (launching i fd) i ≡ true
unfolding is_chosen
chosen_self i fd = ground arith

chosen_self_released : (i fd : ℕ) → is_chosen (releasing i fd) i ≡ true
unfolding is_chosen
chosen_self_released i fd = ground arith

chosen_other : (i fd j : ℕ) → j ≢ i → is_chosen (launching i fd) j ≡ is_chosen (testing i fd) j
unfolding is_chosen
chosen_other i fd j ne = ground arith

chosen_same : (i fd j : ℕ) → is_chosen (releasing i fd) j ≡ is_chosen (launching i fd) j
unfolding is_chosen
chosen_same i fd j = refl

chosen_other_released : (i fd j : ℕ) → j ≢ i → is_chosen (releasing i fd) j ≡ is_chosen outside j
unfolding is_chosen
chosen_other_released i fd j ne = ground arith

module _ (n : ℕ) where
  -- Each thread is in a state that goes with what `run_task` does, and each task that was taken is
  -- with one thread or has ended.
  pub record IsSound (p : Pool) : Type 0 where
    pub legal : (i : ℕ) → i < n → IsLegal (is_chosen p.dispatch i) (p.worker i)
    pub proceeds : Proceeds n p.worker p.dispatch
    pub kept : (fd : ℕ) → count fd p.taken ≡ count fd p.ended + total (holds fd) n p.worker

  -- A write of one thread that is legal leaves all of them legal.
  update-IsLegal :
      (worker : ℕ → Worker) (w : Worker) (k : ℕ) (old new : ℕ → Bool)
      → ((i : ℕ) → i < n → IsLegal (old i) (worker i))
      → ((i : ℕ) → i ≢ k → new i ≡ old i)
      → IsLegal (new k) w
      → (i : ℕ) → i < n
      → IsLegal (new i) (update worker k w i)
  update-IsLegal worker w k old new h same here i l = elim (Bool-cases (i == k)) [
    | inl e ↦
        let at : k ≡ i = ground arith in
        subst (λ j. IsLegal (new i) (update worker j w i)) (sym at)
          (rw (update_self worker i w) (subst (λ j. IsLegal (new j) w) at here))
    | inr e ↦ let ne : i ≢ k = ground arith in rw (update_other worker k w i ne, same i ne) (h i l)
  ]

  work-Proceeds :
      (worker : ℕ → Worker) (d : Dispatch) (k : ℕ) (w : Worker)
      → w.arg ≡ (worker k).arg
      → Proceeds n worker d
      → Proceeds n (update worker k w) d
  unfolding update
  work-Proceeds worker outside k w e h = tt
  work-Proceeds worker (testing i fd) k w e h = tt
  work-Proceeds worker (launching i fd) k w e h = h
  work-Proceeds worker (releasing i fd) k w e h = (
    h.0,
    elim (Bool-cases (k == i)) [
      | inl same ↦ let at : k ≡ i = ground arith in rw same (e ∙ ap (λ j. (worker j).arg) at ∙ h.1)
      | inr other ↦ rw other h.1
    ],
  )

  pub work-IsSound : (p : Pool) (k : ℕ) → k < n → IsSound p → IsSound (work n k p)
  unfolding work
  work-IsSound p k l s =
      let o = task_thread_func (p.worker k) in
      record {
        legal =
            update-IsLegal p.worker o.worker k (is_chosen p.dispatch) (is_chosen p.dispatch) s.legal
              (λ _ _. refl)
              (task_thread_func-IsLegal (is_chosen p.dispatch k) (p.worker k) (s.legal k l));
        proceeds =
            work-Proceeds p.worker p.dispatch k o.worker (arg-task_thread_func (p.worker k))
              s.proceeds;
        kept = λ fd. omega (
          arith,
          s.kept fd,
          count-append fd o.ended p.ended,
          total-update (holds fd) n p.worker k o.worker l,
          holds-task_thread_func fd (is_chosen p.dispatch k) (p.worker k) (s.legal k l),
        );
      }

  -- `run_task` takes a free thread of the pool.
  pub claimed-IsSound :
      (p : Pool) (i fd : ℕ)
      → p.dispatch ≡ testing i fd
      → i < n
      → (p.worker i).busy ≡ false
      → IsSound p
      → IsSound
          (record p { worker = update p.worker i (claim (p.worker i)); dispatch = launching i fd })
  unfolding claim is_chosen
  claimed-IsSound p i fd e l free s =
      let before : IsLegal false (p.worker i) =
        subst (λ d. IsLegal (is_chosen d i) (p.worker i)) e (s.legal i l) in
      record {
        legal =
            update-IsLegal p.worker (claim (p.worker i)) i (is_chosen (testing i fd))
              (is_chosen (launching i fd))
              (subst (λ d. (j : ℕ) → j < n → IsLegal (is_chosen d j) (p.worker j)) e s.legal)
              (λ j ne. others j ne) (here before);
        proceeds = l;
        kept = λ f.
            omega (arith, s.kept f, total-update (holds f) n p.worker i (claim (p.worker i)) l);
      }
    where
      others : (j : ℕ) → j ≢ i → is_chosen (launching i fd) j ≡ is_chosen (testing i fd) j
      others j ne = chosen_other i fd j ne

      here :
          IsLegal false (p.worker i) → IsLegal (is_chosen (launching i fd) i) (claim (p.worker i))
      here h =
          subst (λ c. IsLegal c (claim (p.worker i))) (sym (chosen_self i fd))
            (chosen-IsLegal (p.worker i) h free)

  -- Its task is written down.
  pub given-IsSound :
      (p : Pool) (i fd : ℕ)
      → p.dispatch ≡ launching i fd
      → IsSound p
      → IsSound (record p {
        worker = update p.worker i (give (p.worker i) fd);
        dispatch = releasing i fd;
      })
  unfolding give is_chosen
  given-IsSound p i fd e s =
      let l : i < n = subst (Proceeds n p.worker) e s.proceeds in
      let legal = subst (λ d. (j : ℕ) → j < n → IsLegal (is_chosen d j) (p.worker j)) e s.legal in
      let before : IsLegal true (p.worker i) =
        subst (λ c. IsLegal c (p.worker i)) (chosen_self i fd) (legal i l) in
      record {
        legal =
            update-IsLegal p.worker (give (p.worker i) fd) i (is_chosen (launching i fd))
              (is_chosen (releasing i fd)) legal (λ j ne. chosen_same i fd j) (legal i l);
        proceeds = (l, ap (λ (w : Worker). w.arg) (update_self p.worker i (give (p.worker i) fd)));
        kept = λ f. omega (
          arith,
          s.kept f,
          total-update (holds f) n p.worker i (give (p.worker i) fd) l,
          (chosen-holds f (p.worker i) fd before).0,
          (chosen-holds f (give (p.worker i) fd) fd before).0,
        );
      }

  -- Its lock is opened.
  pub released-IsSound :
      (p : Pool) (i fd : ℕ)
      → p.dispatch ≡ releasing i fd
      → IsSound p
      → IsSound (record p {
        worker = update p.worker i (unlock (p.worker i));
        dispatch = outside;
        taken = fd ∷ p.taken;
      })
  unfolding unlock count is_chosen
  released-IsSound p i fd e s =
      let at = subst (Proceeds n p.worker) e s.proceeds in
      let legal = subst (λ d. (j : ℕ) → j < n → IsLegal (is_chosen d j) (p.worker j)) e s.legal in
      let before : IsLegal true (p.worker i) =
        subst (λ c. IsLegal c (p.worker i)) (chosen_self_released i fd) (legal i at.0) in
      record {
        legal =
            update-IsLegal p.worker (unlock (p.worker i)) i (is_chosen (releasing i fd))
              (is_chosen outside) legal (λ j ne. sym (chosen_other_released i fd j ne))
              (released-IsLegal (p.worker i) before);
        proceeds = tt;
        kept = λ f. omega (
          arith,
          s.kept f,
          total-update (holds f) n p.worker i (unlock (p.worker i)) at.0,
          (chosen-holds f (p.worker i) (p.worker i).arg before).0,
          (chosen-holds f (p.worker i) (p.worker i).arg before).1 ∙ ap (is_task f) at.1,
        );
      }
