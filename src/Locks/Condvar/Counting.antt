-- ===== src/Locks/Condvar/Counting.antt =====
-- lecture_examples/6_threads/14_condvar.c: what holds after every step.
use sysproghw.Base.{
  ℕ, ◌+◌, ◌-◌, ◌<◌, ◌≤◌, ◌≡◌, refl, ap, Bool, true, false, List, [], ◌∷◌, some, ◌==◌, set,
  get_elem?, arith, inl, inr, ◌⊎◌, Option-cases,
}
use sysproghw.Locks.Sums.{
  sum_of, sum_of-le, sum_of-add, rest_le, le_sum_of, sum_of-replicate, some_of_sum, branches,
}
use sysproghw.Locks.Condvar.{
  SignalAt, at_getchar, at_count, at_set, at_unlock, at_spin, at_clear, WaitAt, at_add, at_lock,
  at_test, at_take, at_sub, at_leave, at_retry, at_print, Condvar, goes, condvar_signal,
  condvar_wait, Actor, signals, waits, step, run, condvar_create,
}
use sysproghw.Locks.Condvar.Holders.{
  bit, bit-le, signaler_holds, holds, counted, looks, takes, took, announced, may_be_set, IsKept,
  set-IsMoved, announced-le, takes-le, counted-le,
}

-- A step of a waiter by which the event and the lock become what they are told.
waits-IsKept :
    (c : Condvar) (i : ℕ) (p q : WaitAt) (locked event : Bool) (n processed : ℕ)
    → IsKept c
    → get_elem? c.waiters i ≡ some p
    → bit locked + holds p ≡ bit c.locked + holds q
    → n + counted p ≡ c.wait_count + counted q
    → processed + took q + bit event ≡ c.processed + took p + bit c.is_event_set
    → bit event ≤ bit c.is_event_set
    → takes q ≤ bit event
    → 0 < holds p ⊎ (takes q ≤ takes p) × (bit event ≡ bit c.is_event_set)
    → looks p ≤ looks q ⊎ (0 < holds p) × (bit event ≡ 0)
    → IsKept (record c {
      locked = locked;
      is_event_set = event;
      wait_count = n;
      waiters = set c.waiters i q;
      processed = processed;
    })
waits-IsKept c i p q locked event n processed h e lock count events fewer takes_it inside look =
    let m = set-IsMoved c.waiters i p q e in
    record {
      held = omega (arith, m.of_holds, h.held);
      counts = omega (arith, m.of_counted, h.counts);
      events = omega (arith, m.of_took, h.events);
      quiet = omega (arith, h.quiet);
      taking = elim inside [
        | inl holding ↦ omega (
          arith,
          m.of_takes,
          h.held,
          bit-le c.locked,
          rest_le takes holds c.waiters i p e takes-le,
        )
        | inr (le, same) ↦ omega (arith, m.of_takes, h.taking)
      ];
      looked_for = λ some. elim look [
        | inl le ↦ omega (arith, m.of_looks, h.looked_for (omega arith))
        | inr (holding, z) ↦ absurd (
            omega (
              arith,
              h.held,
              bit-le c.locked,
              announced-le c.signaler,
              le_sum_of holds c.waiters i p e,
            ))
      ];
    }

-- The steps of a waiter.
condvar_wait-IsKept :
    (c : Condvar) (i : ℕ) (p : WaitAt)
    → IsKept c
    → get_elem? c.waiters i ≡ some p
    → IsKept (condvar_wait i p c)
unfolding condvar_wait
condvar_wait-IsKept c i at_add h e =
    waits-IsKept c i at_add at_lock c.locked c.is_event_set (c.wait_count + 1) c.processed h e
      (omega arith) (omega arith) (omega arith) (omega arith) (omega arith)
      (inr (omega arith, refl)) (inl (omega arith))
condvar_wait-IsKept c i at_lock h e =
    branches IsKept c.locked c _ (λ _. h)
      (λ free.
        let z : bit c.locked ≡ 0 = ap bit free in
        waits-IsKept c i at_lock at_test true c.is_event_set c.wait_count c.processed h e
          (omega (arith, z)) (omega arith) (omega arith) (omega arith) (omega arith)
          (inr (omega arith, refl)) (inl (omega arith)))
condvar_wait-IsKept c i at_test h e =
    branches IsKept c.is_event_set _ _
      (λ seen.
        let one : bit c.is_event_set ≡ 1 = ap bit seen in
        waits-IsKept c i at_test at_take c.locked c.is_event_set c.wait_count c.processed h e
          (omega arith) (omega arith) (omega arith) (omega arith) (omega (arith, one))
          (inl (omega arith)) (inl (omega arith)))
      (λ not_seen.
        waits-IsKept c i at_test at_retry c.locked c.is_event_set c.wait_count c.processed h e
          (omega arith) (omega arith) (omega arith) (omega arith) (omega arith) (inl (omega arith))
          (inl (omega arith)))
condvar_wait-IsKept c i at_take h e =
    let one : bit c.is_event_set ≡ 1 =
      omega (arith, h.taking, le_sum_of takes c.waiters i at_take e, bit-le c.is_event_set) in
    waits-IsKept c i at_take at_sub c.locked false c.wait_count c.processed h e (omega arith)
      (omega arith) (omega (arith, one)) (omega arith) (omega arith) (inl (omega arith))
      (inr (omega arith, refl))
condvar_wait-IsKept c i at_sub h e =
    let some_counted = le_sum_of counted c.waiters i at_sub e in
    waits-IsKept c i at_sub at_leave c.locked c.is_event_set (c.wait_count - 1) c.processed h e
      (omega arith) (omega (arith, some_counted, h.counts)) (omega arith) (omega arith)
      (omega arith) (inl (omega arith)) (inl (omega arith))
condvar_wait-IsKept c i at_leave h e =
    let holding = le_sum_of holds c.waiters i at_leave e in
    waits-IsKept c i at_leave at_print false c.is_event_set c.wait_count c.processed h e
      (omega (arith, holding, h.held, bit-le c.locked)) (omega arith) (omega arith) (omega arith)
      (omega arith) (inl (omega arith)) (inl (omega arith))
condvar_wait-IsKept c i at_retry h e =
    let holding = le_sum_of holds c.waiters i at_retry e in
    waits-IsKept c i at_retry at_lock false c.is_event_set c.wait_count c.processed h e
      (omega (arith, holding, h.held, bit-le c.locked)) (omega arith) (omega arith) (omega arith)
      (omega arith) (inl (omega arith)) (inl (omega arith))
condvar_wait-IsKept c i at_print h e =
    waits-IsKept c i at_print at_add c.locked c.is_event_set c.wait_count (c.processed + 1) h e
      (omega arith) (omega arith) (omega arith) (omega arith) (omega arith)
      (inr (omega arith, refl)) (inl (omega arith))

-- While the mutex is with the signaler, the waiters that are counted look for the event.
counted_look :
    (c : Condvar)
    → IsKept c
    → 0 < signaler_holds c.signaler
    → sum_of counted c.waiters ≤ sum_of looks c.waiters
counted_look c h holding = omega (
  arith,
  h.held,
  bit-le c.locked,
  sum_of-le counted (λ p. looks p + holds p) c.waiters counted-le,
  sum_of-add looks holds c.waiters,
)

-- A step of the signaler by which the event and the lock become what they are told.
signals-IsKept :
    (c : Condvar) (p q : SignalAt) (locked event : Bool) (signaled : ℕ)
    → IsKept (goes p c)
    → bit locked + signaler_holds p ≡ bit c.locked + signaler_holds q
    → signaled + bit c.is_event_set + announced p ≡ c.signaled + bit event + announced q
    → bit event ≤ may_be_set q
    → bit c.is_event_set ≤ bit event
    → (0 < bit event + announced q → 0 < sum_of looks c.waiters)
    → IsKept (record c { locked = locked; is_event_set = event; signaler = q; signaled = signaled })
signals-IsKept c p q locked event signaled h lock events may more looked = record {
  held = omega (arith, h.held);
  counts = h.counts;
  events = omega (arith, h.events);
  quiet = may;
  taking = omega (arith, h.taking);
  looked_for = looked;
}

-- The steps of the signaler, at each place.
signal_at : (c : Condvar) (p : SignalAt) → IsKept (goes p c) → IsKept (condvar_signal (goes p c))
unfolding condvar_signal
signal_at c at_getchar h =
    signals-IsKept c at_getchar at_count c.locked c.is_event_set c.signaled h (omega arith)
      (omega arith) (omega (arith, h.quiet)) (omega arith) (λ some. h.looked_for some)
signal_at c at_count h =
    branches IsKept (c.wait_count == 0) _ _
      (λ none_waits.
        signals-IsKept c at_count at_getchar c.locked c.is_event_set c.signaled h (omega arith)
          (omega arith) (omega (arith, h.quiet)) (omega arith) (λ some. h.looked_for some))
      (λ some_wait.
        signals-IsKept c at_count at_set c.locked c.is_event_set (c.signaled + 1) h (omega arith)
          (omega arith) (omega (arith, h.quiet)) (omega arith)
          (λ _. ground (arith, counted_look (goes at_count c) h (omega arith), h.counts)))
signal_at c at_set h =
    signals-IsKept c at_set at_unlock c.locked true c.signaled h (omega arith)
      (omega (arith, h.quiet)) (omega arith) (omega (arith, bit-le c.is_event_set))
      (λ some. h.looked_for (omega arith))
signal_at c at_unlock h =
    signals-IsKept c at_unlock at_spin false c.is_event_set c.signaled h
      (omega (arith, h.held, bit-le c.locked)) (omega arith) (omega (arith, h.quiet)) (omega arith)
      (λ some. h.looked_for some)
signal_at c at_spin h =
    branches IsKept c.is_event_set _ _ (λ _. h)
      (λ taken.
        let z : bit c.is_event_set ≡ 0 = ap bit taken in
        signals-IsKept c at_spin at_lock c.locked c.is_event_set c.signaled h (omega arith)
          (omega arith) (omega (arith, z)) (omega arith) (λ some. h.looked_for some))
signal_at c at_lock h =
    branches IsKept c.locked _ _ (λ _. h)
      (λ free.
        let z : bit c.locked ≡ 0 = ap bit free in
        signals-IsKept c at_lock at_clear true c.is_event_set c.signaled h (omega (arith, z))
          (omega arith) (omega (arith, h.quiet)) (omega arith) (λ some. h.looked_for some))
signal_at c at_clear h =
    signals-IsKept c at_clear at_getchar c.locked false c.signaled h (omega arith)
      (omega (arith, h.quiet)) (omega arith) (omega (arith, h.quiet)) (λ some. absurd (omega arith))

step-IsKept : (a : Actor) (c : Condvar) → IsKept c → IsKept (step a c)
unfolding step
step-IsKept signals c h = signal_at c c.signaler h
step-IsKept (waits i) c h = elim (Option-cases (get_elem? c.waiters i)) [
  | inl e ↦ simp (step, e) h
  | inr (p, e) ↦ simp (step, e) (condvar_wait-IsKept c i p h e)
]

run-IsKept : (as_told : List Actor) (c : Condvar) → IsKept c → IsKept (run as_told c)
unfolding run
run-IsKept [] c h = h
run-IsKept (a ∷ more) c h = run-IsKept more (step a c) (step-IsKept a c h)

condvar_create-IsKept : (n : ℕ) → IsKept (condvar_create n)
unfolding condvar_create
condvar_create-IsKept n = record {
  held = omega (arith, sum_of-replicate holds n at_add);
  counts = omega (arith, sum_of-replicate counted n at_add);
  events = omega (arith, sum_of-replicate took n at_add);
  quiet = omega arith;
  taking = omega (arith, sum_of-replicate takes n at_add);
  looked_for = λ some. absurd (omega arith);
}

-- What is true after any steps: `wait_count` counts the waiters that are inside `condvar_wait`; the
-- mutex is held by one at most; every signal was taken by a waiter, or the event is still to be
-- taken; the waiters have not processed more events than were signaled; and while the event is set,
-- some waiter looks for it.
pub record IsHanded (c : Condvar) : Type 0 where
  pub counts : c.wait_count ≡ sum_of counted c.waiters
  pub exclusive : signaler_holds c.signaler + sum_of holds c.waiters ≤ 1
  pub no_more : c.processed ≤ c.signaled
  pub handed : c.signaler ≡ at_getchar → c.signaled ≡ c.processed + sum_of took c.waiters
  pub looked_for :
      c.is_event_set ≡ true
      → (i : ℕ) × (p : WaitAt) × (get_elem? c.waiters i ≡ some p) × (0 < looks p)

-- Whatever the order of the steps of `main` and of any number of waiters: `wait_count` counts those
-- inside `condvar_wait`; at most one holds the mutex; the waiters have processed no more events
-- than were signaled; when `condvar_signal` has returned, every signal has been taken by exactly
-- one waiter, which has printed so or is about to; and while the event is set, some waiter looks
-- for it, so `condvar_signal` does not wait for nobody.
pub run-IsHanded : (n : ℕ) (actors : List Actor) → IsHanded (run actors (condvar_create n))
run-IsHanded n actors =
    let c = run actors (condvar_create n) in
    let h = run-IsKept actors (condvar_create n) (condvar_create-IsKept n) in
    record {
      counts = h.counts;
      exclusive = omega (arith, h.held, bit-le c.locked);
      no_more = omega (arith, h.events);
      handed = λ returned.
          let none_set : may_be_set c.signaler ≡ 0 = ap may_be_set returned in
          let none_announced : announced c.signaler ≡ 0 = ap announced returned in
          omega (arith, h.events, h.quiet);
      looked_for = λ event.
          let one : bit c.is_event_set ≡ 1 = ap bit event in
          some_of_sum looks c.waiters (h.looked_for (omega arith));
    }
