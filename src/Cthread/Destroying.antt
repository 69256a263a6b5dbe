-- ===== src/Cthread/Destroying.antt =====
-- lecture_examples/6_threads/12_cthread_detach.c: a thread is destroyed once, and its stack is
-- freed once it is gone.
use mathlib.Core.Path.{subst}
use sysproghw.Base.{
  ℕ, ◌+◌, ◌<◌, ◌≤◌, ◌≡◌, refl, ◌∙◌, sym, ap, inl, inr, ◌⊎◌, Bool, true, false, ◌&&◌, List, [], ◌∷◌,
  ◌==◌, if◌then◌else◌, Bool-cases, arith,
}
use sysproghw.Cthread.{
  RunnerAt, r_running, r_locking, r_testing, r_marking, r_unlocking, r_ended, CallerAt, c_joining,
  c_joined, c_locking, c_ended, Thread, System, free_stacks, cthread_destroy, Actor, act, put, step,
  steps, cthread_create, start,
}
use sysproghw.Cthread.Locking.{act-IsStep}
use sysproghw.Cthread.Places.{IsLocked, times_destroyed, times_destroyed_le, has_ended}

-- How often a thread stands in a list.
abbrev pub count : ℕ → List ℕ → ℕ
count i [] = 0
count i (j ∷ js) = (if j == i then 1 else 0) + count i js

-- How often a thread was destroyed.
abbrev pub destroyed : ℕ → System → ℕ
destroyed i s = count i s.stack_list + count i s.freed

record IsSound (s : System) : Type 0 where
  locked : (i : ℕ) → IsLocked (s.threads i)
  counted : (i : ℕ) → destroyed i s ≡ times_destroyed (s.threads i).runner (s.threads i).caller
  gone : (i : ℕ) → 0 < count i s.freed → (s.threads i).tid_cleared ≡ true

count-free_stacks :
    (threads : ℕ → Thread) (i : ℕ) (l freed : List ℕ)
    → count i (free_stacks threads l freed).0 + count i (free_stacks threads l freed).1
      ≡ count i l + count i freed
unfolding free_stacks
count-free_stacks threads i [] freed = omega arith
count-free_stacks threads i (j ∷ l) freed = elim (Bool-cases (threads j).tid_cleared) [
  | inl cleared ↦
      rw (free_stacks, cleared) (omega (arith, count-free_stacks threads i l (j ∷ freed)))
  | inr alive ↦ rw (free_stacks, alive) refl
]

free_stacks-gone :
    (threads : ℕ → Thread) (i : ℕ) (l freed : List ℕ)
    → (0 < count i freed → (threads i).tid_cleared ≡ true)
    → 0 < count i (free_stacks threads l freed).1
    → (threads i).tid_cleared ≡ true
unfolding free_stacks
free_stacks-gone threads i [] freed f h = f h
free_stacks-gone threads i (j ∷ l) freed f h = elim (Bool-cases (threads j).tid_cleared) [
  | inl cleared ↦
      free_stacks-gone threads i l (j ∷ freed) (grown cleared) (rw (free_stacks, cleared) at h)
  | inr alive ↦ f (rw (free_stacks, alive) at h)
]
  where
    grown :
        (threads j).tid_cleared ≡ true → 0 < count i (j ∷ freed) → (threads i).tid_cleared ≡ true
    grown cleared more = elim (Bool-cases (j == i)) [
      | inl same ↦
          (let e : j ≡ i = ground arith in subst (λ n. (threads n).tid_cleared ≡ true) e cleared)
      | inr ne ↦ f (let m : 0 < count i freed = ground arith in m)
    ]

-- What holds of the new thread and of all others holds of the threads.
by_thread :
    (Q : ℕ → Thread → Type 0) (i : ℕ) (t : Thread) (threads : ℕ → Thread)
    → Q i t
    → ((j : ℕ) → (j == i) ≡ false → Q j (threads j))
    → (j : ℕ) → Q j (put i t threads j)
by_thread Q i t threads here others j = elim (Bool-cases (j == i)) [
  | inl same ↦ (let e : i ≡ j = ground arith in rw same (subst (λ n. Q n t) e here))
  | inr ne ↦ rw ne (others j ne)
]

-- The thread `i` has become `t`, with its destruction where `d` says so.
module _ (s : System) (i : ℕ) (t : Thread) (h : IsSound s) (locked : IsLocked t)
    (still_gone : (s.threads i).tid_cleared ≡ true → t.tid_cleared ≡ true) where
  abbrev moved : System
  moved = record s { threads = put i t s.threads }

  moved_gone : (j : ℕ) → 0 < count j s.freed → (put i t s.threads j).tid_cleared ≡ true
  moved_gone =
      by_thread (λ j u. 0 < count j s.freed → u.tid_cleared ≡ true) i t s.threads
        (λ more. still_gone (h.gone i more)) (λ j ne. h.gone j)

  kept-IsSound :
      times_destroyed t.runner t.caller
        ≡ times_destroyed (s.threads i).runner (s.threads i).caller + 0
      → IsSound moved
  kept-IsSound e = record {
    locked = by_thread (λ j u. IsLocked u) i t s.threads locked (λ j ne. h.locked j);
    counted =
        by_thread (λ j u. destroyed j s ≡ times_destroyed u.runner u.caller) i t s.threads
          (omega (arith, h.counted i, e)) (λ j ne. h.counted j);
    gone = moved_gone;
  }

  destroyed-IsSound :
      times_destroyed t.runner t.caller
        ≡ times_destroyed (s.threads i).runner (s.threads i).caller + 1
      → IsSound (cthread_destroy i moved)
  unfolding cthread_destroy
  destroyed-IsSound e = record {
    locked = by_thread (λ j u. IsLocked u) i t s.threads locked (λ j ne. h.locked j);
    counted =
        by_thread (λ j u. destroyed j (cthread_destroy i moved) ≡ times_destroyed u.runner u.caller)
          i t s.threads
          (let all = count-free_stacks (put i t s.threads) i s.stack_list s.freed in
            let here : (i == i) ≡ true = ground arith in
            rw here (omega (arith, h.counted i, e, all)))
          (λ j ne.
            let all = count-free_stacks (put i t s.threads) j s.stack_list s.freed in
            let other : (i == j) ≡ false = ground arith in
            rw other (omega (arith, h.counted j, all)));
    gone =
        λ j more. free_stacks-gone (put i t s.threads) j s.stack_list s.freed (moved_gone j) more;
  }

  either-IsSound :
      (d : Bool)
      → times_destroyed t.runner t.caller
        ≡ times_destroyed (s.threads i).runner (s.threads i).caller + (if d then 1 else 0)
      → IsSound (if d then cthread_destroy i moved else moved)
  either-IsSound true e = destroyed-IsSound e
  either-IsSound false e = kept-IsSound e

step-IsSound : (a : Actor) (i : ℕ) (s : System) → IsSound s → IsSound (step a i s)
unfolding step
step-IsSound a i s h =
    let o = act a (s.threads i) in
    let r = act-IsStep a (s.threads i) (h.locked i) in
    either-IsSound s i o.0 h r.locked r.still_gone o.1 r.counted

steps-IsSound : (l : List (Actor × ℕ)) (s : System) → IsSound s → IsSound (steps l s)
unfolding steps
steps-IsSound [] s h = h
steps-IsSound ((a, i) ∷ l) s h = steps-IsSound l (step a i s) (step-IsSound a i s h)

-- The callers are in front of `cthread_join` or of `cthread_detach`.
abbrev pub IsPlan : (ℕ → CallerAt) → Type 0
IsPlan plan = (i : ℕ) → (plan i ≡ c_joining) ⊎ (plan i ≡ c_locking)

fresh-IsLocked :
    (c : CallerAt)
    → (c ≡ c_joining) ⊎ (c ≡ c_locking)
    → IsLocked (cthread_create c) × (times_destroyed r_running c ≡ 0)
fresh-IsLocked c (inl e) =
    rw e (
      record { exclusive = refl; held = refl; finished = refl; detached = refl; gone = refl },
      refl,
    )
fresh-IsLocked c (inr e) =
    rw e (
      record { exclusive = refl; held = refl; finished = refl; detached = refl; gone = refl },
      refl,
    )

start-IsSound : (plan : ℕ → CallerAt) → IsPlan plan → IsSound (start plan)
start-IsSound plan h = record {
  locked = λ i. (fresh-IsLocked (plan i) (h i)).0;
  counted = λ i. sym (fresh-IsLocked (plan i) (h i)).1;
  gone = λ i more. absurd (omega arith);
}

-- What is to hold of threads and stacks at any time.
pub record IsSafe (s : System) : Type 0 where
  pub once : (i : ℕ) → destroyed i s ≤ 1
  pub joined : (i : ℕ) → (s.threads i).caller ≡ c_joined → destroyed i s ≡ 1
  pub detached :
      (i : ℕ) → (s.threads i).runner ≡ r_ended → (s.threads i).caller ≡ c_ended → destroyed i s ≡ 1
  pub freed : (i : ℕ) → 0 < count i s.freed → (s.threads i).runner ≡ r_ended

ended_lem : (g : Bool) (r : RunnerAt) → (g && has_ended r) ≡ g → g ≡ true → r ≡ r_ended
ended_lem false r e e' = cc
ended_lem true r_running e e' = cc
ended_lem true r_locking e e' = cc
ended_lem true r_testing e e' = cc
ended_lem true r_marking e e' = cc
ended_lem true r_unlocking e e' = cc
ended_lem true r_ended e e' = refl

IsSound-IsSafe : (s : System) → IsSound s → IsSafe s
IsSound-IsSafe s h = record {
  once =
      λ i. omega (arith, h.counted i, times_destroyed_le (s.threads i).runner (s.threads i).caller);
  joined = λ i e. h.counted i ∙ ap (times_destroyed (s.threads i).runner) e;
  detached = λ i e₁ e₂.
      h.counted i
      ∙ ap (times_destroyed (s.threads i).runner) e₂
      ∙ ap (λ r. times_destroyed r c_ended) e₁;
  freed = λ i more.
      let u = h.locked i in
      ended_lem (s.threads i).tid_cleared (s.threads i).runner u.gone (h.gone i more);
}

-- However the steps of threads, callers and the kernel follow each other, where each thread is
-- joined or detached once: no thread is destroyed twice, one that was joined, or that has ended and
-- was detached, is destroyed once, and a stack is freed only when its thread has ended.
pub steps-IsSafe :
    (plan : ℕ → CallerAt) (l : List (Actor × ℕ)) → IsPlan plan → IsSafe (steps l (start plan))
steps-IsSafe plan l h =
    IsSound-IsSafe (steps l (start plan)) (steps-IsSound l (start plan) (start-IsSound plan h))
