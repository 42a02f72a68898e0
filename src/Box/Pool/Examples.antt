-- ===== src/Box/Pool/Examples.antt =====
-- MP5/src/thread.c: two threads; the first takes the task of connection 7.
use sp.Prelude.{ℕ, zero, suc, ◌+◌, ◌≤◌, ◌<◌, ◌≡◌, refl, List, [], ◌∷◌, true, arith, count, total}
use sp.Box.Pool.{
  Event, works, calls, dispatches, run, init_thread_pool, init_task_thread, task_thread_func,
  is_finished,
}
use sp.Box.Pool.Workers.{holds}
use sp.Box.Pool.Tasks.{run-keeps_tasks}
use sp.Box.Pool.Ends.{run_threads, run_threads-IsFinished}

abbrev one_task : List (Event 2)
one_task =
    works 0 (omega arith)
    ∷ works 1 (omega arith)
    ∷ works 0 (omega arith)
    ∷ calls 7
    ∷ dispatches
    ∷ dispatches
    ∷ dispatches
    ∷ []

taken_once : (run 2 init_thread_pool one_task).taken ≡ 7 ∷ []
unfolding run init_thread_pool init_task_thread task_thread_func
taken_once = refl

run-keeps_tasks_example :
    (let p = run 2 init_thread_pool one_task in
      count 7 p.taken ≡ count 7 p.ended + total (holds 7) 2 p.worker)
run-keeps_tasks_example = run-keeps_tasks 2 one_task 7

abbrev fair : List ℕ
fair = 1 ∷ 0 ∷ 0 ∷ 1 ∷ 0 ∷ 1 ∷ []

fair_enough : (i : ℕ) → i < 2 → 3 ≤ count i fair
unfolding count
fair_enough zero l = omega arith
fair_enough (suc zero) l = omega arith
fair_enough (suc (suc i)) l = absurd (omega arith)

run_threads-IsFinished_example :
    (let p = run 2 init_thread_pool one_task in
      let q = run_threads 2 fair p in
      ((fd : ℕ) → count fd q.ended ≡ count fd p.taken) × (is_finished 2 q ≡ true))
unfolding run init_thread_pool init_task_thread task_thread_func
run_threads-IsFinished_example = run_threads-IsFinished 2 one_task fair refl fair_enough
