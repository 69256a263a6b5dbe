-- ===== src/Cthread/Places.antt =====
-- lecture_examples/6_threads/12_cthread_detach.c: the places of a thread and its caller, and what
-- they say of the lock.
use sysproghw.Base.{ℕ, ◌+◌, ◌≤◌, ◌≡◌, Bool, true, false, ◌&&◌, ◌||◌, if◌then◌else◌, arith}
use sysproghw.Base.Int.{ℤ}
use sysproghw.Cthread.{
  RunnerAt, r_testing, r_marking, r_unlocking, r_ended, CallerAt, c_joining, c_joined, c_locking,
  c_testing, c_marking, c_unlocking, c_ended, Thread,
}

-- Between taking the lock and its release.
abbrev pub runner_inside : RunnerAt → Bool
runner_inside r_testing = true
runner_inside r_marking = true
runner_inside r_unlocking = true
runner_inside _ = false

abbrev pub caller_inside : CallerAt → Bool
caller_inside c_testing = true
caller_inside c_marking = true
caller_inside c_unlocking = true
caller_inside _ = false

abbrev pub runner_marked : RunnerAt → Bool
runner_marked r_unlocking = true
runner_marked r_ended = true
runner_marked _ = false

abbrev pub caller_marked : CallerAt → Bool
caller_marked c_unlocking = true
caller_marked c_ended = true
caller_marked _ = false

-- Behind the test that may destroy the thread.
abbrev pub runner_tested : RunnerAt → Bool
runner_tested r_marking = true
runner_tested r_unlocking = true
runner_tested r_ended = true
runner_tested _ = false

-- How often the thread is to have been destroyed, where the runner is behind its test or not.
abbrev pub times : Bool → CallerAt → ℕ
times b c_joining = 0
times b c_joined = 1
times b c_locking = 0
times b c_testing = 0
times b c_marking = if b then 1 else 0
times b c_unlocking = if b then 1 else 0
times b c_ended = if b then 1 else 0

times_le : (b : Bool) (c : CallerAt) → times b c ≤ 1
times_le b c_joining = omega arith
times_le b c_joined = omega arith
times_le b c_locking = omega arith
times_le b c_testing = omega arith
times_le b c_marking = ground arith
times_le b c_unlocking = ground arith
times_le b c_ended = ground arith

abbrev pub times_destroyed : RunnerAt → CallerAt → ℕ
times_destroyed r c = times (runner_tested r) c

pub times_destroyed_le : (r : RunnerAt) (c : CallerAt) → times_destroyed r c ≤ 1
times_destroyed_le r c = times_le (runner_tested r) c

abbrev pub has_ended : RunnerAt → Bool
has_ended r_ended = true
has_ended _ = false

-- Runner and caller are not both inside, the lock is taken if one of them is, and the flags say how
-- far they are.
pub record IsLocked (t : Thread) : Type 0 where
  pub exclusive : (runner_inside t.runner && caller_inside t.caller) ≡ false
  pub held : t.lock ≡ (runner_inside t.runner || caller_inside t.caller)
  pub finished : t.is_finished ≡ runner_marked t.runner
  pub detached : t.is_detached ≡ caller_marked t.caller
  pub gone : (t.tid_cleared && has_ended t.runner) ≡ t.tid_cleared

-- What a step does with a thread.
pub record IsStep (t : Thread) (o : Thread × Bool) : Type 0 where
  pub locked : IsLocked o.0
  pub counted :
      times_destroyed o.0.runner o.0.caller
      ≡ times_destroyed t.runner t.caller + (if o.1 then 1 else 0)
  pub still_gone : t.tid_cleared ≡ true → o.0.tid_cleared ≡ true

-- The same for a thread given by its fields.
abbrev pub Fields : ℤ → Bool → Bool → Bool → Bool → RunnerAt → CallerAt → Thread
Fields code l f d g r c = record {
  returned_code = code;
  lock = l;
  is_finished = f;
  is_detached = d;
  tid_cleared = g;
  runner = r;
  caller = c;
}
