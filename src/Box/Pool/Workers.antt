-- ===== src/Box/Pool/Workers.antt =====
-- MP5/src/thread.c: the states that a thread of the pool can be in, and what a step of it does.
use sp.Prelude.{
  ℕ, ◌+◌, ◌-◌, ◌≤◌, ◌≡◌, refl, Bool, true, false, not, ◌&&◌, ◌==◌, if◌then◌else◌, arith, count,
}
use sp.Box.Pool.{
  Point, entering, clearing, waiting, running, Worker, step_at, task_thread_func, Dispatch, outside,
  testing, launching, releasing,
}

-- Whether `run_task` has chosen thread `i` and not yet released it.
unfoldable pub is_chosen : Dispatch → ℕ → Bool
is_chosen outside i = false
is_chosen (testing k fd) i = false
is_chosen (launching k fd) i = k == i
is_chosen (releasing k fd) i = k == i

-- A chosen thread waits with its lock held and `busy` set. Any other thread waits free, with its
-- lock held, or with a task, its lock open and `busy` set; or it is on its way, and `busy` is set.
unfoldable pub is_legal : Bool → Point → Bool → Bool → Bool
is_legal true waiting locked busy = locked && busy
is_legal false waiting locked busy = if locked then not busy else busy
is_legal true _ locked busy = false
is_legal false entering locked busy = not locked && busy
is_legal false clearing locked busy = locked && busy
is_legal false running locked busy = locked && busy

abbrev pub IsLegal : Bool → Worker → Type 0
IsLegal chosen w = is_legal chosen w.point w.locked w.busy ≡ true

-- The steps that a thread still makes before it waits without a task.
unfoldable pub rank_at : Point → Bool → ℕ
rank_at entering locked = 2
rank_at clearing locked = 1
rank_at running locked = 2
rank_at waiting locked = if locked then 0 else 3

abbrev pub rank : Worker → ℕ
rank w = rank_at w.point w.locked

abbrev pub is_task : ℕ → ℕ → ℕ
is_task fd arg = if arg == fd then 1 else 0

-- Whether a thread holds a task of `fd` that has not ended.
unfoldable pub holds_at : ℕ → Point → Bool → ℕ → ℕ
holds_at fd entering locked arg = 0
holds_at fd clearing locked arg = 0
holds_at fd running locked arg = is_task fd arg
holds_at fd waiting locked arg = if locked then 0 else is_task fd arg

abbrev pub holds : ℕ → Worker → ℕ
holds fd w = holds_at fd w.point w.locked w.arg

step_at-IsLegal :
    (p : Point) (c : Bool) (w : Worker)
    → is_legal c p w.locked w.busy ≡ true
    → IsLegal c (step_at p w).worker
unfolding is_legal step_at
step_at-IsLegal entering true w h = cc
step_at-IsLegal clearing true w h = cc
step_at-IsLegal running true w h = cc
step_at-IsLegal waiting true w h = ground arith
step_at-IsLegal entering false w h = ground arith
step_at-IsLegal clearing false w h = ground arith
step_at-IsLegal running false w h = ground arith
step_at-IsLegal waiting false w h = ground arith

pub task_thread_func-IsLegal :
    (c : Bool) (w : Worker) → IsLegal c w → IsLegal c (task_thread_func w).worker
unfolding task_thread_func
task_thread_func-IsLegal c w h = step_at-IsLegal w.point c w h

rank_step :
    (p : Point) (c : Bool) (w : Worker)
    → is_legal c p w.locked w.busy ≡ true
    → rank (step_at p w).worker ≡ rank_at p w.locked - 1
unfolding is_legal step_at rank_at
rank_step entering c w h = ground arith
rank_step clearing c w h = ground arith
rank_step running c w h = ground arith
rank_step waiting c w h = ground arith

rank_at_le : (p : Point) (locked : Bool) → rank_at p locked ≤ 3
unfolding rank_at
rank_at_le entering locked = omega arith
rank_at_le clearing locked = omega arith
rank_at_le running locked = omega arith
rank_at_le waiting locked = ground arith

pub rank-le : (w : Worker) → rank w ≤ 3
rank-le w = rank_at_le w.point w.locked

pub rank-task_thread_func :
    (c : Bool) (w : Worker) → IsLegal c w → rank (task_thread_func w).worker ≡ rank w - 1
unfolding task_thread_func
rank-task_thread_func c w h = rank_step w.point c w h

holds_step :
    (fd : ℕ) (p : Point) (c : Bool) (w : Worker)
    → is_legal c p w.locked w.busy ≡ true
    → holds fd (step_at p w).worker + count fd (step_at p w).ended ≡ holds_at fd p w.locked w.arg
unfolding holds_at step_at count is_legal
holds_step fd entering c w h = ground arith
holds_step fd clearing true w h = cc
holds_step fd clearing false w h = ground arith
holds_step fd running c w h = ground arith
holds_step fd waiting c w h = ground arith

-- A task leaves a thread when it ends.
pub holds-task_thread_func :
    (fd : ℕ) (c : Bool) (w : Worker)
    → IsLegal c w
    → holds fd (task_thread_func w).worker + count fd (task_thread_func w).ended ≡ holds fd w
unfolding task_thread_func
holds-task_thread_func fd c w h = holds_step fd w.point c w h

arg_at : (p : Point) (w : Worker) → (step_at p w).worker.arg ≡ w.arg
unfolding step_at
arg_at entering w = ground arith
arg_at clearing w = refl
arg_at running w = refl
arg_at waiting w = ground arith

-- No thread changes its own `arg`.
pub arg-task_thread_func : (w : Worker) → (task_thread_func w).worker.arg ≡ w.arg
unfolding task_thread_func
arg-task_thread_func w = arg_at w.point w

at_rest :
    (p : Point) (locked busy : Bool)
    → is_legal false p locked busy ≡ true
    → rank_at p locked ≡ 0
    → busy ≡ false
unfolding is_legal rank_at
at_rest entering l b h e = absurd (omega arith)
at_rest clearing l b h e = absurd (omega arith)
at_rest running l b h e = absurd (omega arith)
at_rest waiting l b h e = ground arith

-- A thread with no step before it is free.
pub rest-free : (w : Worker) → IsLegal false w → rank w ≡ 0 → w.busy ≡ false
rest-free w h e = at_rest w.point w.locked w.busy h e

held_at_rest :
    (fd : ℕ) (p : Point) (locked : Bool) (arg : ℕ)
    → rank_at p locked ≡ 0
    → holds_at fd p locked arg ≡ 0
unfolding holds_at rank_at
held_at_rest fd entering l a e = refl
held_at_rest fd clearing l a e = refl
held_at_rest fd running l a e = absurd (omega arith)
held_at_rest fd waiting l a e = ground arith

pub rest-holds : (fd : ℕ) (w : Worker) → rank w ≡ 0 → holds fd w ≡ 0
rest-holds fd w e = held_at_rest fd w.point w.locked w.arg e

-- What `run_task` does to the thread that it takes: a free one is chosen, and a chosen one is let go
-- with its task.
free_at :
    (p : Point) (locked busy : Bool)
    → is_legal false p locked busy ≡ true
    → busy ≡ false
    → is_legal true p locked true ≡ true
unfolding is_legal
free_at entering l b h e = ground arith
free_at clearing l b h e = ground arith
free_at running l b h e = ground arith
free_at waiting l b h e = ground arith

pub chosen-IsLegal :
    (w : Worker) → IsLegal false w → w.busy ≡ false → is_legal true w.point w.locked true ≡ true
chosen-IsLegal w h e = free_at w.point w.locked w.busy h e

let_go :
    (p : Point) (locked busy : Bool)
    → is_legal true p locked busy ≡ true
    → is_legal false p false busy ≡ true
unfolding is_legal
let_go entering l b h = cc
let_go clearing l b h = cc
let_go running l b h = cc
let_go waiting l b h = ground arith

pub released-IsLegal : (w : Worker) → IsLegal true w → is_legal false w.point false w.busy ≡ true
released-IsLegal w h = let_go w.point w.locked w.busy h

kept :
    (fd : ℕ) (p : Point) (locked busy : Bool) (arg arg' : ℕ)
    → is_legal true p locked busy ≡ true
    → (holds_at fd p locked arg ≡ 0) × (holds_at fd p false arg' ≡ is_task fd arg')
unfolding is_legal holds_at
kept fd entering l b a a' h = cc
kept fd clearing l b a a' h = cc
kept fd running l b a a' h = cc
kept fd waiting l b a a' h = ground arith

-- A chosen thread holds no task, and one task once its lock is released.
pub chosen-holds :
    (fd : ℕ) (w : Worker) (arg : ℕ)
    → IsLegal true w
    → (holds fd w ≡ 0) × (holds_at fd w.point false arg ≡ is_task fd arg)
chosen-holds fd w arg h = kept fd w.point w.locked w.busy w.arg arg h
