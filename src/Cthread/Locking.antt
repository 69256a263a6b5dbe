-- ===== src/Cthread/Locking.antt =====
-- lecture_examples/6_threads/12_cthread_detach.c: the lock of a thread, and who destroys it.
use sysproghw.Base.{◌+◌, ◌≡◌, refl, ◌∙◌, sym, Bool, true, false, ◌&&◌, ◌||◌, if◌then◌else◌, arith}
use sysproghw.Base.Int.{ℤ}
use sysproghw.Cthread.{
  RunnerAt, r_running, r_locking, r_testing, r_marking, r_unlocking, r_ended, CallerAt, c_joining,
  c_joined, c_locking, c_testing, c_marking, c_unlocking, c_ended, Thread, cthread_runner,
  cthread_join, cthread_detach, clear_tid, Actor, runner, joiner, detacher, kernel, act,
}
use sysproghw.Cthread.Places.{
  runner_inside, caller_inside, runner_marked, caller_marked, runner_tested, times, IsLocked,
  IsStep, Fields,
}

stays : (t : Thread) → IsLocked t → IsStep t (t, false)
stays t h = record { locked = h; counted = omega arith; still_gone = λ e. e }

choice :
    (b : Bool) (t : Thread) (o o' : Thread × Bool)
    → (b ≡ true → IsStep t o)
    → (b ≡ false → IsStep t o')
    → IsStep t (if b then o else o')
choice true t o o' f g = f refl
choice false t o o' f g = g refl

spin :
    (l : Bool) (t taken : Thread)
    → IsStep t (t, false)
    → (l ≡ false → IsStep t (taken, false))
    → IsStep t ((if l then t else taken), false)
spin true t taken f g = f
spin false t taken f g = g refl

and_true : (b : Bool) → (b && true) ≡ b
and_true true = refl
and_true false = refl

and_false : (b : Bool) → (b && false) ≡ false
and_false true = refl
and_false false = refl

or_true : (b : Bool) → (b || true) ≡ true
or_true true = refl
or_true false = refl

or_false : (b : Bool) → (b || false) ≡ b
or_false true = refl
or_false false = refl

runner_counts :
    (c : CallerAt) (d : Bool)
    → caller_inside c ≡ false
    → d ≡ caller_marked c
    → times true c ≡ times false c + (if d then 1 else 0)
runner_counts c_joining d i e = rw e refl
runner_counts c_joined d i e = rw e refl
runner_counts c_locking d i e = rw e refl
runner_counts c_testing d i e = cc
runner_counts c_marking d i e = cc
runner_counts c_unlocking d i e = cc
runner_counts c_ended d i e = rw e refl

caller_counts :
    (r : RunnerAt) (f : Bool)
    → runner_inside r ≡ false
    → f ≡ runner_marked r
    → (if runner_tested r then 1 else 0) ≡ 0 + (if f then 1 else 0)
caller_counts r_running f i e = rw e refl
caller_counts r_locking f i e = rw e refl
caller_counts r_testing f i e = cc
caller_counts r_marking f i e = cc
caller_counts r_unlocking f i e = cc
caller_counts r_ended f i e = rw e refl

module _ (was : ℤ) (l f d g : Bool) where
  runner_fields :
      (code : ℤ) (r : RunnerAt) (c : CallerAt)
      → IsLocked (Fields was l f d g r c)
      → IsStep (Fields was l f d g r c) (cthread_runner code (Fields was l f d g r c))
  unfolding cthread_runner
  runner_fields code r_running c h = record {
    locked = record {
      exclusive = refl;
      held = h.held;
      finished = h.finished;
      detached = h.detached;
      gone = h.gone;
    };
    counted = omega arith;
    still_gone = λ e. e;
  }
  runner_fields code r_locking c h = spin l (Fields was l f d g r_locking c) _ (stays _ h) (λ free.
      record {
        locked = record {
          exclusive = sym h.held ∙ free;
          held = refl;
          finished = h.finished;
          detached = h.detached;
          gone = h.gone;
        };
        counted = omega arith;
        still_gone = λ e. e;
      })
  runner_fields code r_testing c h = record {
    locked = record {
      exclusive = h.exclusive;
      held = h.held;
      finished = h.finished;
      detached = h.detached;
      gone = h.gone;
    };
    counted = runner_counts c d h.exclusive h.detached;
    still_gone = λ e. e;
  }
  runner_fields code r_marking c h = record {
    locked = record {
      exclusive = h.exclusive;
      held = h.held;
      finished = refl;
      detached = h.detached;
      gone = h.gone;
    };
    counted = omega arith;
    still_gone = λ e. e;
  }
  runner_fields code r_unlocking c h = record {
    locked = record {
      exclusive = refl;
      held = sym h.exclusive;
      finished = h.finished;
      detached = h.detached;
      gone = and_true g;
    };
    counted = omega arith;
    still_gone = λ e. e;
  }
  runner_fields code r_ended c h = stays (Fields was l f d g r_ended c) h

  join_fields :
      (r : RunnerAt) (c : CallerAt)
      → IsLocked (Fields was l f d g r c)
      → IsStep (Fields was l f d g r c) (cthread_join (Fields was l f d g r c))
  unfolding cthread_join
  join_fields r c_joining h =
      choice f (Fields was l f d g r c_joining) _ _
        (λ e. record {
          locked = record {
            exclusive = h.exclusive;
            held = h.held;
            finished = h.finished;
            detached = h.detached;
            gone = h.gone;
          };
          counted = omega arith;
          still_gone = λ e'. e';
        })
        (λ e. stays _ h)
  join_fields r c_joined h = stays (Fields was l f d g r c_joined) h
  join_fields r c_locking h = stays (Fields was l f d g r c_locking) h
  join_fields r c_testing h = stays (Fields was l f d g r c_testing) h
  join_fields r c_marking h = stays (Fields was l f d g r c_marking) h
  join_fields r c_unlocking h = stays (Fields was l f d g r c_unlocking) h
  join_fields r c_ended h = stays (Fields was l f d g r c_ended) h

  detach_fields :
      (r : RunnerAt) (c : CallerAt)
      → IsLocked (Fields was l f d g r c)
      → IsStep (Fields was l f d g r c) (cthread_detach (Fields was l f d g r c))
  unfolding cthread_detach
  detach_fields r c_joining h = stays (Fields was l f d g r c_joining) h
  detach_fields r c_joined h = stays (Fields was l f d g r c_joined) h
  detach_fields r c_locking h = spin l (Fields was l f d g r c_locking) _ (stays _ h) (λ free.
      record {
        locked = record {
          exclusive =
              and_true (runner_inside r) ∙ sym (or_false (runner_inside r)) ∙ sym h.held ∙ free;
          held = sym (or_true (runner_inside r));
          finished = h.finished;
          detached = h.detached;
          gone = h.gone;
        };
        counted = omega arith;
        still_gone = λ e. e;
      })
  detach_fields r c_testing h = record {
    locked = record {
      exclusive = h.exclusive;
      held = h.held;
      finished = h.finished;
      detached = h.detached;
      gone = h.gone;
    };
    counted = caller_counts r f (sym (and_true (runner_inside r)) ∙ h.exclusive) h.finished;
    still_gone = λ e. e;
  }
  detach_fields r c_marking h = record {
    locked = record {
      exclusive = h.exclusive;
      held = h.held;
      finished = h.finished;
      detached = refl;
      gone = h.gone;
    };
    counted = omega arith;
    still_gone = λ e. e;
  }
  detach_fields r c_unlocking h = record {
    locked = record {
      exclusive = and_false (runner_inside r);
      held = sym (or_false (runner_inside r) ∙ sym (and_true (runner_inside r)) ∙ h.exclusive);
      finished = h.finished;
      detached = h.detached;
      gone = h.gone;
    };
    counted = omega arith;
    still_gone = λ e. e;
  }
  detach_fields r c_ended h = stays (Fields was l f d g r c_ended) h

  kernel_fields :
      (r : RunnerAt) (c : CallerAt)
      → IsLocked (Fields was l f d g r c)
      → IsStep (Fields was l f d g r c) (clear_tid (Fields was l f d g r c), false)
  kernel_fields r_running c h = stays (Fields was l f d g r_running c) h
  kernel_fields r_locking c h = stays (Fields was l f d g r_locking c) h
  kernel_fields r_testing c h = stays (Fields was l f d g r_testing c) h
  kernel_fields r_marking c h = stays (Fields was l f d g r_marking c) h
  kernel_fields r_unlocking c h = stays (Fields was l f d g r_unlocking c) h
  kernel_fields r_ended c h = record {
    locked = record {
      exclusive = h.exclusive;
      held = h.held;
      finished = h.finished;
      detached = h.detached;
      gone = refl;
    };
    counted = omega arith;
    still_gone = λ e. refl;
  }

-- Whoever does a step for a thread keeps the lock's rules, and destroys the thread as its place says.
pub act-IsStep : (a : Actor) (t : Thread) → IsLocked t → IsStep t (act a t)
act-IsStep (runner code) t h =
    runner_fields t.returned_code t.lock t.is_finished t.is_detached t.tid_cleared code t.runner
      t.caller h
act-IsStep joiner t h =
    join_fields t.returned_code t.lock t.is_finished t.is_detached t.tid_cleared t.runner t.caller h
act-IsStep detacher t h =
    detach_fields t.returned_code t.lock t.is_finished t.is_detached t.tid_cleared t.runner t.caller
      h
act-IsStep kernel t h =
    kernel_fields t.returned_code t.lock t.is_finished t.is_detached t.tid_cleared t.runner t.caller
      h
