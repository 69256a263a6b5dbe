-- ===== src/Cthread/Tests.antt =====
-- lecture_examples/6_threads/12_cthread_detach.c: runs of the model.
use sysproghw.Base.{
  ℕ, zero, suc, ◌<◌, ◌≤◌, ◌≡◌, refl, inl, inr, Bool, true, false, List, [], ◌∷◌, some, ◌==◌,
  if◌then◌else◌, arith,
}
use sysproghw.Base.Int.{pos}
use sysproghw.Cthread.{
  CallerAt, c_joining, c_locking, Actor, runner, joiner, detacher, kernel, start, steps, step,
  cthread_runner, cthread_join, cthread_detach, cthread_destroy, free_stacks,
}
use sysproghw.Cthread.Destroying.{IsPlan, IsSafe, steps-IsSafe}
use sysproghw.Cthread.Polling.{poll_threads, poll_threads_lem}

-- Thread 0 is detached, all others are joined.
abbrev plan : ℕ → CallerAt
plan i = if i == 0 then c_locking else c_joining

plan-IsPlan : IsPlan plan
plan-IsPlan zero = inr refl
plan-IsPlan (suc i) = inl (rest i)
  where
    rest : (j : ℕ) → plan (suc j) ≡ c_joining
    rest j = let e : (suc j == 0) ≡ false = ground arith in rw e refl

-- Thread 0 is detached while it runs, and destroys itself; thread 1 is joined, which frees the
-- stack of thread 0.
abbrev both_end : List (Actor × ℕ)
both_end =
    (runner (pos 3), 0)
    ∷ (detacher, 0)
    ∷ (runner (pos 3), 0)
    ∷ (detacher, 0)
    ∷ (detacher, 0)
    ∷ (detacher, 0)
    ∷ (runner (pos 3), 0)
    ∷ (runner (pos 3), 0)
    ∷ (runner (pos 3), 0)
    ∷ (runner (pos 3), 0)
    ∷ (kernel, 0)
    ∷ (runner (pos 4), 1)
    ∷ (runner (pos 4), 1)
    ∷ (runner (pos 4), 1)
    ∷ (runner (pos 4), 1)
    ∷ (joiner, 1)
    ∷ []

steps_run : (steps both_end (start plan)).freed ≡ 0 ∷ []
unfolding steps step cthread_runner cthread_join cthread_detach cthread_destroy free_stacks
steps_run = refl

steps-IsSafe_example : IsSafe (steps both_end (start plan))
steps-IsSafe_example = steps-IsSafe plan both_end plan-IsPlan

-- Thread 0 never finishes.
abbrev all_but_first : ℕ → ℕ → Bool
all_but_first time i = if i == 0 then false else true

poll_threads_lem_example : poll_threads 12 all_but_first 0 0 ≡ some 10
poll_threads_lem_example = poll_threads_lem all_but_first others
  where
    others : (time j : ℕ) → 1 ≤ j → j < 10 → all_but_first time j ≡ true
    others time j h₁ h₂ = let e : (j == 0) ≡ false = ground arith in rw e refl
