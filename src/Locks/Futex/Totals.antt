-- ===== src/Locks/Futex/Totals.antt =====
-- lecture_examples/6_threads/8_futex.c: the counter's value, and that the threads do not all sleep.
use sysproghw.Base.{
  ℕ, suc, ◌+◌, ◌*◌, ◌^◌, ◌<◌, ◌≤◌, ◌≡◌, ◌≢◌, refl, ap, sym, inl, inr, ◌⊎◌, Bool, true, false, List,
  [], ◌∷◌, some, ◌==◌, get_elem?, arith, Bool-cases, Option-cases,
}
use sysproghw.Locks.Sums.{sum_of, le_sum_of, sum_of-replicate, some_of_sum, branches}
use sysproghw.Locks.Futex.{
  Place, at_start, at_lock, at_wait, asleep, at_load, at_store, at_unlock, at_wake, finished,
  Thread, State, is_asleep, Event, starts, runs, interrupts, step, run, created,
}
use sysproghw.Locks.Futex.Counting.{moved-IsCounting, thread_f-IsCounting, asleep-cases}
use sysproghw.Locks.Futex.Counts.{
  inside, inside_at, to_come, to_come_at, stale, sleeps, sleeps_at, roused, roused_at, IsCounting,
}

pub step-IsCounting :
    (total : ℕ) (e : Event) (s : State)
    → total < 2 ^ 32
    → IsCounting total s
    → IsCounting total (step e s)
unfolding step
step-IsCounting total starts s small h = record {
  held = h.held;
  one = h.one;
  exact = h.exact;
  current = h.current;
  no_lost_wake = h.no_lost_wake;
}
step-IsCounting total (runs i w) s small h = elim (Option-cases (get_elem? s.threads i)) [
  | inl e ↦ simp (step, e) h
  | inr (t, e) ↦ simp (step, e) (thread_f-IsCounting total s w i t.place t.left small h e)
]
step-IsCounting total (interrupts i) s small h = elim (Option-cases (get_elem? s.threads i)) [
  | inl e ↦ simp (step, e) h
  | inr (t, e) ↦
      simp (step, e)
        (branches (IsCounting total) (is_asleep t) _ s
          (λ slept.
            let p = asleep-cases t.place t.left slept in
            let was_inside : inside t ≡ 0 = ap inside_at p in
            let had_to_come : to_come t ≡ suc t.left = ap (λ p. to_come_at p t.left) p in
            moved-IsCounting total s i t (record { place = at_lock; left = t.left }) s.futex h e
              (omega (arith, was_inside)) h.one (sym had_to_come) refl (inl (omega arith)))
          (λ awake. h))
]

pub run-IsCounting :
    (total : ℕ) (es : List Event) (s : State)
    → total < 2 ^ 32
    → IsCounting total s
    → IsCounting total (run es s)
unfolding run
run-IsCounting total [] s small h = h
run-IsCounting total (e ∷ es) s small h =
    run-IsCounting total es (step e s) small (step-IsCounting total e s small h)

pub created-IsCounting : (n rounds : ℕ) → IsCounting (n * rounds) (created n rounds)
unfolding created
created-IsCounting n rounds =
    let t : Thread = record { place = at_start; left = rounds } in
    record {
      held = ground (arith, sum_of-replicate inside n t);
      one = omega arith;
      exact = omega (arith, sum_of-replicate to_come n t);
      current = ground (arith, sum_of-replicate (stale 0) n t);
      no_lost_wake = λ h. ground (arith, sum_of-replicate sleeps n t);
    }

-- The thread has a step to take.
abbrev pub is_awake : Place → Bool
is_awake asleep = false
is_awake finished = false
is_awake _ = true

pub place-cases : (p : Place) → (is_awake p ≡ true) ⊎ (p ≡ asleep) ⊎ (p ≡ finished)
place-cases at_start = inl refl
place-cases at_lock = inl refl
place-cases at_wait = inl refl
place-cases asleep = inr (inl refl)
place-cases at_load = inl refl
place-cases (at_store v) = inl refl
place-cases at_unlock = inl refl
place-cases at_wake = inl refl
place-cases finished = inr (inr refl)

busy_is_awake : (p : Place) → 0 < inside_at p + roused_at p → is_awake p ≡ true
busy_is_awake p h = elim (place-cases p) [
  | inl e ↦ e
  | inr (inl e) ↦ absurd (omega (arith, h, ap inside_at e, ap roused_at e))
  | inr (inr e) ↦ absurd (omega (arith, h, ap inside_at e, ap roused_at e))
]

-- Some thread has a step to take.
pub IsLive : State → Type 0
IsLive s = (j : ℕ) × (u : Thread) × (get_elem? s.threads j ≡ some u) × (is_awake u.place ≡ true)

sleeper-IsLive :
    (total : ℕ) (s : State) → IsCounting total s → 0 < sum_of sleeps s.threads → IsLive s
unfolding IsLive
sleeper-IsLive total s h some_sleeps = elim (Bool-cases (sum_of roused s.threads == 0)) [
  | inl none_roused ↦
      let held : 0 < sum_of inside s.threads = ground (arith, h.held, h.no_lost_wake some_sleeps) in
      let (j, u, e, p) = some_of_sum inside s.threads held in
      (j, u, e, busy_is_awake u.place (omega (arith, p)))
  | inr some_roused ↦
      let (j, u, e, p) = some_of_sum roused s.threads (ground arith) in
      (j, u, e, busy_is_awake u.place (omega (arith, p)))
]

unfinished-IsLive :
    (total : ℕ) (s : State) (i : ℕ) (t : Thread)
    → IsCounting total s
    → get_elem? s.threads i ≡ some t
    → t.place ≢ finished
    → IsLive s
unfolding IsLive
unfinished-IsLive total s i t h e unfinished = elim (place-cases t.place) [
  | inl awake ↦ (i, t, e, awake)
  | inr (inl slept) ↦
      let one : sleeps t ≡ 1 = ap sleeps_at slept in
      sleeper-IsLive total s h (omega (arith, one, le_sum_of sleeps s.threads i t e))
  | inr (inr done) ↦ absurd (unfinished done)
]

pub nothing_to_come :
    (ts : List Thread)
    → ((i : ℕ) (t : Thread) → get_elem? ts i ≡ some t → t.place ≡ finished)
    → sum_of to_come ts ≡ 0
nothing_to_come ts done = elim (Bool-cases (sum_of to_come ts == 0)) [
  | inl z ↦ ground arith
  | inr p ↦
      let (i, t, e, more) = some_of_sum to_come ts (ground arith) in
      let none : to_come t ≡ 0 = ap (λ p. to_come_at p t.left) (done i t e) in absurd (omega arith)
]

-- What is true after any steps of `n` threads of `rounds` rounds: no two of them are inside the
-- lock; when all have finished, the counter counts every round of every thread; and while one has
-- not finished, some thread is awake.
pub record IsExact (n rounds : ℕ) (s : State) : Type 0 where
  pub exclusive : sum_of inside s.threads ≤ 1
  pub exact :
      ((i : ℕ) (t : Thread) → get_elem? s.threads i ≡ some t → t.place ≡ finished)
      → s.counter ≡ n * rounds
  pub live : (i : ℕ) (t : Thread) → get_elem? s.threads i ≡ some t → t.place ≢ finished → IsLive s

-- Whatever the order of the steps, whichever thread a wake picks and whenever a signal wakes one, as long
-- as the number of all rounds fits an `int`: at most one thread is inside the lock; when every thread
-- has finished, the counter is the number of threads times the number of rounds; and while some
-- thread has not finished, some thread is awake: no wake is lost.
pub run-IsExact :
    (n rounds : ℕ) (es : List Event)
    → n * rounds < 2 ^ 31
    → IsExact n rounds (run es (created n rounds))
run-IsExact n rounds es small =
    let s = run es (created n rounds) in
    let h =
      run-IsCounting (n * rounds) es (created n rounds) (omega arith)
        (created-IsCounting n rounds) in
    record {
      exclusive = omega (arith, h.held, h.one);
      exact = λ done. omega (arith, h.exact, nothing_to_come s.threads done);
      live = λ i t e unfinished. unfinished-IsLive (n * rounds) s i t h e unfinished;
    }
