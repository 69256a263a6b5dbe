-- ===== src/Locks/Condvar/Holders.antt =====
-- lecture_examples/6_threads/14_condvar.c: what the places of the waiters are counted for.
use sysproghw.Base.{ℕ, ◌+◌, ◌<◌, ◌≤◌, ◌≡◌, Bool, true, false, List, some, set, get_elem?, arith}
use sysproghw.Locks.Sums.{sum_of, sum_of-set}
use sysproghw.Locks.Condvar.{
  SignalAt, at_getchar, at_count, at_set, at_unlock, at_spin, at_clear, WaitAt, at_add, at_lock,
  at_test, at_take, at_sub, at_leave, at_retry, at_print, Condvar,
}

abbrev pub bit : Bool → ℕ
bit true = 1
bit false = 0

pub bit-le : (b : Bool) → bit b ≤ 1
bit-le true = omega arith
bit-le false = omega arith

-- Who holds the mutex.
abbrev pub signaler_holds : SignalAt → ℕ
signaler_holds at_spin = 0
signaler_holds at_lock = 0
signaler_holds _ = 1

abbrev pub holds : WaitAt → ℕ
holds at_test = 1
holds at_take = 1
holds at_sub = 1
holds at_leave = 1
holds at_retry = 1
holds _ = 0

-- A waiter that `wait_count` counts.
abbrev pub counted : WaitAt → ℕ
counted at_add = 0
counted at_leave = 0
counted at_print = 0
counted _ = 1

-- A waiter that has not got the event yet and looks for it.
abbrev pub looks : WaitAt → ℕ
looks at_lock = 1
looks at_test = 1
looks at_take = 1
looks at_retry = 1
looks _ = 0

-- A waiter that is about to take the event.
abbrev pub takes : WaitAt → ℕ
takes at_take = 1
takes _ = 0

-- A waiter that has taken the event and has not printed so.
abbrev pub took : WaitAt → ℕ
took at_sub = 1
took at_leave = 1
took at_print = 1
took _ = 0

-- The signal was announced and the event is not set yet.
abbrev pub announced : SignalAt → ℕ
announced at_set = 1
announced _ = 0

-- The event may be set.
abbrev pub may_be_set : SignalAt → ℕ
may_be_set at_unlock = 1
may_be_set at_spin = 1
may_be_set _ = 0

pub record IsKept (c : Condvar) : Type 0 where
  pub held : bit c.locked ≡ signaler_holds c.signaler + sum_of holds c.waiters
  pub counts : c.wait_count ≡ sum_of counted c.waiters
  pub events :
      c.signaled ≡ c.processed + sum_of took c.waiters + bit c.is_event_set + announced c.signaler
  pub quiet : bit c.is_event_set ≤ may_be_set c.signaler
  pub taking : sum_of takes c.waiters ≤ bit c.is_event_set
  pub looked_for : 0 < bit c.is_event_set + announced c.signaler → 0 < sum_of looks c.waiters

-- What a step of one waiter does to the sums.
pub record IsMoved (ps qs : List WaitAt) (p q : WaitAt) : Type 0 where
  pub of_holds : sum_of holds qs + holds p ≡ sum_of holds ps + holds q
  pub of_counted : sum_of counted qs + counted p ≡ sum_of counted ps + counted q
  pub of_looks : sum_of looks qs + looks p ≡ sum_of looks ps + looks q
  pub of_takes : sum_of takes qs + takes p ≡ sum_of takes ps + takes q
  pub of_took : sum_of took qs + took p ≡ sum_of took ps + took q

pub set-IsMoved :
    (ps : List WaitAt) (i : ℕ) (p q : WaitAt)
    → get_elem? ps i ≡ some p
    → IsMoved ps (set ps i q) p q
set-IsMoved ps i p q e = record {
  of_holds = sum_of-set holds ps i p q e;
  of_counted = sum_of-set counted ps i p q e;
  of_looks = sum_of-set looks ps i p q e;
  of_takes = sum_of-set takes ps i p q e;
  of_took = sum_of-set took ps i p q e;
}

pub announced-le : (p : SignalAt) → announced p ≤ signaler_holds p
announced-le at_set = omega arith
announced-le at_getchar = omega arith
announced-le at_count = omega arith
announced-le at_unlock = omega arith
announced-le at_spin = omega arith
announced-le at_lock = omega arith
announced-le at_clear = omega arith

pub takes-le : (p : WaitAt) → takes p ≤ holds p
takes-le at_add = omega arith
takes-le at_lock = omega arith
takes-le at_test = omega arith
takes-le at_take = omega arith
takes-le at_sub = omega arith
takes-le at_leave = omega arith
takes-le at_retry = omega arith
takes-le at_print = omega arith

pub counted-le : (p : WaitAt) → counted p ≤ looks p + holds p
counted-le at_add = omega arith
counted-le at_lock = omega arith
counted-le at_test = omega arith
counted-le at_take = omega arith
counted-le at_sub = omega arith
counted-le at_leave = omega arith
counted-le at_retry = omega arith
counted-le at_print = omega arith
