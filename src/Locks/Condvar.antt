-- ===== src/Locks/Condvar.antt =====
-- lecture_examples/6_threads/14_condvar.c: a condition variable of a mutex and a counter.
--
-- `main` signals, and any number of threads wait. A step is one access of shared memory or one call, and
-- anyone may take the next step. Of a mutex the model has what its manual says: `pthread_mutex_lock`
-- goes on when the mutex is free and takes it, and `pthread_mutex_unlock` frees it.
pub mod Holders
pub mod Counting
use sysproghw.Base.{
  ℕ, zero, suc, ◌+◌, ◌-◌, Bool, true, false, List, [], ◌∷◌, Option, none, some, ◌==◌, if◌then◌else◌,
  set, replicate, get_elem?,
}

-- Where `main` stands: in `getchar`, or in `condvar_signal` in front of the step that it takes next.
pub data SignalAt : Type 0 where
  at_getchar at_count at_set at_unlock at_spin at_lock at_clear : SignalAt

-- Where a waiter stands in `thread_f` and `condvar_wait`.
pub data WaitAt : Type 0 where
  at_add at_lock at_test at_take at_sub at_leave at_retry at_print : WaitAt

-- `locked` is the mutex; `signaled` and `processed` count the lines "condvar signaled" and
-- "processed the event" that were printed.
pub record Condvar : Type 0 where
  pub locked : Bool
  pub is_event_set : Bool
  pub wait_count : ℕ
  pub signaler : SignalAt
  pub waiters : List WaitAt
  pub signaled : ℕ
  pub processed : ℕ

abbrev pub goes : SignalAt → Condvar → Condvar
goes p c = record c { signaler = p }

-- One step of `main` and of `condvar_signal`.
unfoldable pub condvar_signal : Condvar → Condvar
condvar_signal c = elim c.signaler [
  | at_getchar ↦ goes at_count c
  | at_count ↦
      if c.wait_count == 0
      then goes at_getchar c
      else goes at_set (record c { signaled = c.signaled + 1 })
  | at_set ↦ goes at_unlock (record c { is_event_set = true })
  | at_unlock ↦ goes at_spin (record c { locked = false })
  | at_spin ↦ if c.is_event_set then c else goes at_lock c
  | at_lock ↦ if c.locked then c else goes at_clear (record c { locked = true })
  | at_clear ↦ goes at_getchar (record c { is_event_set = false })
]

abbrev pub moves : ℕ → WaitAt → Condvar → Condvar
moves i p c = record c { waiters = set c.waiters i p }

-- One step of a waiter at this place.
unfoldable pub condvar_wait : ℕ → WaitAt → Condvar → Condvar
condvar_wait i at_add c = moves i at_lock (record c { wait_count = c.wait_count + 1 })
condvar_wait i at_lock c = if c.locked then c else moves i at_test (record c { locked = true })
condvar_wait i at_test c = if c.is_event_set then moves i at_take c else moves i at_retry c
condvar_wait i at_take c = moves i at_sub (record c { is_event_set = false })
condvar_wait i at_sub c = moves i at_leave (record c { wait_count = c.wait_count - 1 })
condvar_wait i at_leave c = moves i at_print (record c { locked = false })
condvar_wait i at_retry c = moves i at_lock (record c { locked = false })
condvar_wait i at_print c = moves i at_add (record c { processed = c.processed + 1 })

pub data Actor : Type 0 where
  signals : Actor
  waits : (i : ℕ) → Actor

unfoldable pub step : Actor → Condvar → Condvar
step signals c = condvar_signal c
step (waits i) c = elim (get_elem? c.waiters i) [ none ↦ c | some p ↦ condvar_wait i p c ]

unfoldable pub run : List Actor → Condvar → Condvar
run [] c = c
run (a ∷ more) c = run more (step a c)

-- `condvar_create`, and `n` threads that were created; the mutex is held.
unfoldable pub condvar_create : ℕ → Condvar
condvar_create n = record {
  locked = true;
  is_event_set = false;
  wait_count = 0;
  signaler = at_getchar;
  waiters = replicate n at_add;
  signaled = 0;
  processed = 0;
}
