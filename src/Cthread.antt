-- ===== src/Cthread.antt =====
-- lecture_examples/6_threads/12_cthread_detach.c: threads that are joined or detached.
--
-- Steps of the threads and of their callers follow each other in any order. What `cthread_destroy`
-- does under `last_stack_lock` is one step. A thread has a number, which also stands for its
-- `struct cthread_stack`.
pub mod Places
pub mod Locking
pub mod Destroying
pub mod Polling
mod Tests
use sysproghw.Base.{ℕ, suc, Bool, true, false, List, [], ◌∷◌, ◌==◌, if◌then◌else◌}
use sysproghw.Base.Int.{ℤ, pos}

-- Where `cthread_runner` stands: in the function, at the lock, at the test of is_detached, in front
-- of is_finished, at the release of the lock, at its end.
pub data RunnerAt : Type 0 where
  r_running r_locking r_testing r_marking r_unlocking r_ended : RunnerAt

-- Where the caller stands: in `cthread_join` or behind it, or in `cthread_detach`, likewise.
pub data CallerAt : Type 0 where
  c_joining c_joined c_locking c_testing c_marking c_unlocking c_ended : CallerAt

-- `struct cthread`; `tid_cleared` says that the kernel has set `stack->tid` to 0, as it does when
-- the thread is gone.
pub record Thread : Type 0 where
  pub returned_code : ℤ
  pub lock : Bool
  pub is_finished : Bool
  pub is_detached : Bool
  pub tid_cleared : Bool
  pub runner : RunnerAt
  pub caller : CallerAt

-- The global list of stacks, and those that were freed.
pub record System : Type 0 where
  pub threads : ℕ → Thread
  pub stack_list : List ℕ
  pub freed : List ℕ

-- `spin_lock`: the compare-and-swap, at which the one who fails stays.
abbrev pub spin_lock : Thread → Thread → Thread
spin_lock t taken = if t.lock then t else taken

-- A step of `cthread_runner`, whose function returns `code` or calls `cthread_exit` with it; and
-- whether it calls `cthread_destroy`.
unfoldable pub cthread_runner : ℤ → Thread → Thread × Bool
cthread_runner code t = elim t.runner [
  | r_running ↦ (record t { returned_code = code; runner = r_locking }, false)
  | r_locking ↦ (spin_lock t (record t { lock = true; runner = r_testing }), false)
  | r_testing ↦ (record t { runner = r_marking }, t.is_detached)
  | r_marking ↦ (record t { is_finished = true; runner = r_unlocking }, false)
  | r_unlocking ↦ (record t { lock = false; runner = r_ended }, false)
  | r_ended ↦ (t, false)
]

-- A step of `cthread_join`, likewise.
unfoldable pub cthread_join : Thread → Thread × Bool
cthread_join t = elim t.caller [
  | c_joining ↦ if t.is_finished then (record t { caller = c_joined }, true) else (t, false)
  | _ ↦ (t, false)
]

-- A step of `cthread_detach`, likewise.
unfoldable pub cthread_detach : Thread → Thread × Bool
cthread_detach t = elim t.caller [
  | c_locking ↦ (spin_lock t (record t { lock = true; caller = c_testing }), false)
  | c_testing ↦ (record t { caller = c_marking }, t.is_finished)
  | c_marking ↦ (record t { is_detached = true; caller = c_unlocking }, false)
  | c_unlocking ↦ (record t { lock = false; caller = c_ended }, false)
  | _ ↦ (t, false)
]

-- The kernel clears the tid of a thread that has ended.
abbrev pub clear_tid : Thread → Thread
clear_tid t = elim t.runner [ r_ended ↦ record t { tid_cleared = true } | _ ↦ t ]

-- `while (iter != NULL)`: the stacks in front whose threads are gone are freed, up to the first one
-- that is not.
unfoldable pub free_stacks : (ℕ → Thread) → List ℕ → List ℕ → List ℕ × List ℕ
free_stacks threads [] freed = ([], freed)
free_stacks threads (iter ∷ next) freed =
    let rest = free_stacks threads next (iter ∷ freed) in
    if (threads iter).tid_cleared then rest else (iter ∷ next, freed)

unfoldable pub cthread_destroy : ℕ → System → System
cthread_destroy i s =
    let (iter, freed) = free_stacks s.threads s.stack_list s.freed in
    record s { stack_list = i ∷ iter; freed = freed }

-- Who does a step for a thread.
pub data Actor : Type 0 where
  runner : ℤ → Actor
  joiner : Actor
  detacher : Actor
  kernel : Actor

abbrev pub act : Actor → Thread → Thread × Bool
act (runner code) t = cthread_runner code t
act joiner t = cthread_join t
act detacher t = cthread_detach t
act kernel t = (clear_tid t, false)

abbrev pub put : ℕ → Thread → (ℕ → Thread) → ℕ → Thread
put i t threads j = if j == i then t else threads j

unfoldable pub step : Actor → ℕ → System → System
step a i s =
    let (t, destroys) = act a (s.threads i) in
    let moved = record s { threads = put i t s.threads } in
    if destroys then cthread_destroy i moved else moved

unfoldable pub steps : List (Actor × ℕ) → System → System
steps [] s = s
steps ((a, i) ∷ more) s = steps more (step a i s)

-- `cthread_create`, for a thread that is to be joined or detached.
abbrev pub cthread_create : CallerAt → Thread
cthread_create at = record {
  returned_code = pos 0;
  lock = false;
  is_finished = false;
  is_detached = false;
  tid_cleared = false;
  runner = r_running;
  caller = at;
}

abbrev pub start : (ℕ → CallerAt) → System
start plan = record { threads = λ i. cthread_create (plan i); stack_list = []; freed = [] }
