-- ===== src/Box/Pool.antt =====
-- MP5/src/thread.c: the threads of the pool and the thread that hands them tasks, one access of a
-- lock or of `busy` at a time.
pub mod Workers
pub mod Sound
pub mod Tasks
pub mod Ends
mod Examples
use sp.Prelude.{
  ℕ, zero, suc, ◌+◌, ◌<◌, List, [], ◌∷◌, ◌++◌, Option, none, some, Bool, true, false, ◌==◌, ltb,
  if◌then◌else◌, update,
}

-- Where `task_thread_func` stands: at its first lock; at `busy = 0`; at the lock that waits for a
-- task; or in the task.
pub data Point : Type 0 where
  entering : Point
  clearing : Point
  waiting : Point
  running : Point

-- `struct task_thread`: the lock, `busy` and `arg`, which is the connection of the task.
pub record Worker : Type 0 where
  pub point : Point
  pub locked : Bool
  pub busy : Bool
  pub arg : ℕ

-- `init_task_thread`: the lock is free, and `busy` is set.
unfoldable pub init_task_thread : Worker
init_task_thread = record { point = entering; locked = false; busy = true; arg = 0 }

-- What a step of a thread leaves, with the task that it ended.
pub record Outcome : Type 0 where
  pub worker : Worker
  pub ended : List ℕ

unfoldable pub step_at : Point → Worker → Outcome
step_at entering w = record {
  worker =
      if w.locked
      then record w { point = entering }
      else record w { point = clearing; locked = true };
  ended = [];
}
step_at clearing w = record { worker = record w { point = waiting; busy = false }; ended = [] }
step_at waiting w = record {
  worker =
      if w.locked
      then record w { point = waiting }
      else record w { point = running; locked = true };
  ended = [];
}
step_at running w = record { worker = record w { point = clearing }; ended = w.arg ∷ [] }

-- A thread that does not get its lock stays where it is.
unfoldable pub task_thread_func : Worker → Outcome
unfolding step_at
task_thread_func w = step_at w.point w

-- Where `run_task` stands: out of it; at the test of thread `i`; in `launch`, before `arg` is set;
-- and before the lock is released.
pub data Dispatch : Type 0 where
  outside : Dispatch
  testing : (i fd : ℕ) → Dispatch
  launching : (i fd : ℕ) → Dispatch
  releasing : (i fd : ℕ) → Dispatch

-- The pool, with the tasks that were taken, refused and ended so far.
pub record Pool : Type 0 where
  pub worker : ℕ → Worker
  pub dispatch : Dispatch
  pub taken : List ℕ
  pub refused : List ℕ
  pub ended : List ℕ

unfoldable pub claim : Worker → Worker
claim w = record w { busy = true }

unfoldable pub give : Worker → ℕ → Worker
give w fd = record w { arg = fd }

unfoldable pub unlock : Worker → Worker
unlock w = record w { locked = false }

module _ (thread_num : ℕ) where
  -- One access of `run_task`; only the main thread calls it.
  unfoldable pub dispatch_at : Dispatch → Pool → Pool
  unfolding update claim give unlock
  dispatch_at outside p = p
  dispatch_at (testing i fd) p =
      if ltb i thread_num
      then if (p.worker i).busy
        then record p { dispatch = testing (i + 1) fd }
        else record p { worker = update p.worker i (claim (p.worker i)); dispatch = launching i fd }
      else record p { dispatch = outside; refused = fd ∷ p.refused }
  dispatch_at (launching i fd) p = record p {
    worker = update p.worker i (give (p.worker i) fd);
    dispatch = releasing i fd;
  }
  dispatch_at (releasing i fd) p = record p {
    worker = update p.worker i (unlock (p.worker i));
    dispatch = outside;
    taken = fd ∷ p.taken;
  }

  unfoldable pub call_at : Dispatch → ℕ → Pool → Pool
  call_at outside fd p = record p { dispatch = testing 0 fd }
  call_at _ fd p = p

  unfoldable pub work : ℕ → Pool → Pool
  unfolding task_thread_func update
  work i p =
      let o = task_thread_func (p.worker i) in
      record p { worker = update p.worker i o.worker; ended = o.ended ++ p.ended }

  -- A thread steps, the main thread calls `run_task`, or it steps in it.
  pub data Event : Type 0 where
    works : (i : ℕ) → i < thread_num → Event
    calls : (fd : ℕ) → Event
    dispatches : Event

  unfoldable pub act : Pool → Event → Pool
  unfolding work dispatch_at call_at
  act p (works i l) = work i p
  act p (calls fd) = call_at p.dispatch fd p
  act p dispatches = dispatch_at p.dispatch p

  unfoldable pub run : Pool → List Event → Pool
  unfolding act
  run p [] = p
  run p (e ∷ es) = run (act p e) es

  -- The loop of `is_finished` from thread `i` on, `left` of them.
  unfoldable pub finished_from : ℕ → ℕ → Pool → Bool
  finished_from i zero p = true
  finished_from i (suc left) p = if (p.worker i).busy then false else finished_from (i + 1) left p

  unfoldable pub is_finished : Pool → Bool
  unfolding finished_from
  is_finished p = finished_from 0 thread_num p

-- `init_thread_pool`
unfoldable pub init_thread_pool : Pool
unfolding init_task_thread
init_thread_pool = record {
  worker = λ _. init_task_thread;
  dispatch = outside;
  taken = [];
  refused = [];
  ended = [];
}
