-- ===== src/Locks/Tests.antt =====
-- lecture_examples/6_threads: runs of the lock and of the condition variable.
use sysproghw.Base.{◌≡◌, refl, true, List, [], ◌∷◌, replicate, arith}
use sysproghw.Locks.Futex.{
  Event, starts, runs, step, run, created, thread_f, futex_lock, futex_wait, futex_unlock,
  futex_wake, next_round, woken, first_asleep, finished,
}
use sysproghw.Locks.Futex.Totals.{IsExact, run-IsExact}
use sysproghw.Locks.Futex.Finishing.{CanFinish, run-CanFinish}
use sysproghw.Locks.Condvar
use sysproghw.Locks.Condvar.{Actor, signals, waits, condvar_create, condvar_signal, condvar_wait}
use sysproghw.Locks.Condvar.Counting.{IsHanded, run-IsHanded}

-- Thread 0 takes the lock, thread 1 falls asleep in front of it and is woken.
abbrev contended : List Event
contended =
    starts
    ∷ runs 0 0
    ∷ runs 1 0
    ∷ runs 0 0
    ∷ runs 1 0
    ∷ runs 1 0
    ∷ runs 0 0
    ∷ runs 0 0
    ∷ runs 0 0
    ∷ runs 0 1
    ∷ replicate 5 (runs 1 0)

run-IsExact_example : IsExact 2 1 (run contended (created 2 1))
run-IsExact_example = run-IsExact 2 1 contended (omega arith)

run-CanFinish_example : CanFinish 2 (run contended (created 2 1))
run-CanFinish_example = run-CanFinish 2 1 contended (omega arith)

both_finished : run contended (created 2 1) ≡ record {
  futex = 0;
  counter = 2;
  start = true;
  threads = replicate 2 (record { place = finished; left = 0 });
}
unfolding run step created thread_f futex_lock futex_wait futex_unlock futex_wake next_round woken
    first_asleep
both_finished = refl

-- The waiter comes into its loop before the event is set, and finds it once the mutex is free.
abbrev one_signal : List Actor
one_signal =
    waits 0
    ∷ waits 0
    ∷ signals
    ∷ signals
    ∷ signals
    ∷ signals
    ∷ waits 0
    ∷ waits 0
    ∷ waits 0
    ∷ waits 0
    ∷ waits 0
    ∷ signals
    ∷ signals
    ∷ signals
    ∷ waits 0
    ∷ []

run-IsHanded_example : IsHanded (Condvar.run one_signal (condvar_create 1))
run-IsHanded_example = run-IsHanded 1 one_signal

one_processed : (Condvar.run one_signal (condvar_create 1)).processed ≡ 1
unfolding Condvar.run Condvar.step condvar_create condvar_signal condvar_wait
one_processed = refl
