-- ===== src/Locks/Futex/Finishing.antt =====
-- lecture_examples/6_threads/8_futex.c: the threads can always come to their end.
use sysproghw.Base.{
  ℕ, zero, suc, ◌+◌, ◌*◌, ◌^◌, ◌<◌, ◌≤◌, ◌≡◌, ◌≢◌, refl, ap, inl, inr, ◌⊎◌, true, List, [], ◌∷◌,
  Option, none, some, ◌==◌, set, get_elem?, arith, Bool-cases,
}
use sysproghw.Locks.Sums.{sum_of, sum_of-set, le_sum_of, some_of_sum, branches}
use sysproghw.Locks.Futex.{
  Place, at_start, at_lock, at_wait, asleep, at_load, at_store, at_unlock, at_wake, finished,
  Thread, State, moves, next_round, woken, wake_at, futex_lock, futex_wait, futex_unlock,
  futex_wake, thread_f, Event, starts, runs, step, run, created,
}
use sysproghw.Locks.Futex.Counts.{
  inside, inside_at, sleeps, sleeps_at, roused, roused_at, IsCounting,
}
use sysproghw.Locks.Futex.Counting.{IsPicked, woken-IsPicked}
use sysproghw.Locks.Futex.Totals.{
  run-IsCounting, created-IsCounting, step-IsCounting, nothing_to_come, place-cases, is_awake,
}

-- How many steps a thread has to take at most, if it is never kept out.
abbrev rank_at : Place → ℕ → ℕ
rank_at finished k = 0
rank_at at_start k = k * 7 + 1
rank_at at_wake k = k * 7 + 1
rank_at at_unlock k = k * 7 + 2
rank_at (at_store v) k = k * 7 + 3
rank_at at_load k = k * 7 + 4
rank_at at_lock k = k * 7 + 5
rank_at at_wait k = k * 7 + 6
rank_at asleep k = k * 7 + 7

abbrev rank : Thread → ℕ
rank t = rank_at t.place t.left

next_round-rank : (k : ℕ) → rank (next_round k) < k * 7 + 1
unfolding next_round
next_round-rank zero = omega arith
next_round-rank (suc k) = omega arith

wake_at-rank :
    (ts : List Thread) (o : Option ℕ) → IsPicked ts o → sum_of rank (wake_at ts o) ≤ sum_of rank ts
wake_at-rank ts none h = omega arith
wake_at-rank ts (some j) (t, e, slept) =
    let u : Thread = record { place = at_lock; left = t.left } in
    let was : rank t ≡ t.left * 7 + 7 = ap (λ p. rank_at p t.left) slept in
    let less : rank u ≡ t.left * 7 + 5 = refl in
    rw (wake_at, e) (omega (arith, was, less, sum_of-set rank ts j t u e))

-- The step brings the end nearer, and `start` stays set.
abbrev IsNearer : State → State → Type 0
IsNearer s s' = (sum_of rank s'.threads < sum_of rank s.threads) × (s'.start ≡ true)

moved-IsNearer :
    (s : State) (i : ℕ) (t u : Thread)
    → get_elem? s.threads i ≡ some t
    → rank u < rank t
    → sum_of rank (set s.threads i u) < sum_of rank s.threads
moved-IsNearer s i t u e less = omega (arith, sum_of-set rank s.threads i t u e)

-- A thread that is awake and inside the lock, or awake while the lock is free.
thread_f-IsNearer :
    (s : State) (i : ℕ) (p : Place) (k : ℕ)
    → get_elem? s.threads i ≡ some (record { place = p; left = k })
    → s.start ≡ true
    → s.futex ≡ 0 ⊎ 0 < inside_at p
    → sleeps_at p ≡ 0
    → p ≢ finished
    → IsNearer s (thread_f 0 i (record { place = p; left = k }) s)
unfolding thread_f futex_lock futex_wait futex_unlock futex_wake
thread_f-IsNearer s i at_start k e go free awake unfinished =
    branches (IsNearer s) s.start _ s
      (λ _. (
        moved-IsNearer s i (record { place = at_start; left = k }) (next_round k) e
            (next_round-rank k),
        go,
      ))
      (λ stays. absurd (cc))
thread_f-IsNearer s i at_lock k e go (inl free) awake unfinished =
    branches (IsNearer s) (s.futex == 0) _ _ (λ _. (moved-IsNearer s i _ _ e (omega arith), go))
      (λ taken. absurd (ground arith))
thread_f-IsNearer s i at_lock k e go (inr held) awake unfinished = absurd (omega arith)
thread_f-IsNearer s i at_wait k e go (inl free) awake unfinished =
    branches (IsNearer s) (s.futex == 1) _ _ (λ taken. absurd (ground arith))
      (λ _. (moved-IsNearer s i _ _ e (omega arith), go))
thread_f-IsNearer s i at_wait k e go (inr held) awake unfinished = absurd (omega arith)
thread_f-IsNearer s i asleep k e go free awake unfinished = absurd (omega arith)
thread_f-IsNearer s i at_load k e go free awake unfinished =
    (moved-IsNearer s i _ _ e (omega arith), go)
thread_f-IsNearer s i (at_store v) k e go free awake unfinished =
    (moved-IsNearer s i _ _ e (omega arith), go)
thread_f-IsNearer s i at_unlock k e go free awake unfinished =
    branches (λ u. IsNearer s (moves i (record { place = at_unlock; left = k }) at_wake u))
      (s.futex == 1) _ _ (λ _. (moved-IsNearer s i _ _ e (omega arith), go))
      (λ _. (moved-IsNearer s i _ _ e (omega arith), go))
thread_f-IsNearer s i at_wake k e go free awake unfinished =
    let us = set s.threads i (next_round k) in
    (
      omega (
        arith,
        wake_at-rank us (woken 0 us) (woken-IsPicked 0 us),
        moved-IsNearer s i (record { place = at_wake; left = k }) (next_round k) e
            (next_round-rank k),
      ),
      go,
    )
thread_f-IsNearer s i finished k e go free awake unfinished = absurd (unfinished refl)

runs-IsNearer :
    (s : State) (i : ℕ) (t : Thread)
    → get_elem? s.threads i ≡ some t
    → s.start ≡ true
    → s.futex ≡ 0 ⊎ 0 < inside t
    → sleeps t ≡ 0
    → t.place ≢ finished
    → IsNearer s (step (runs i 0) s)
unfolding step
runs-IsNearer s i t e go free awake unfinished =
    simp (step, e) (thread_f-IsNearer s i t.place t.left e go free awake unfinished)

-- A thread that is inside the lock or about to try it neither sleeps nor has finished.
busy_is_not : (p : Place) → 0 < inside_at p + roused_at p → (sleeps_at p ≡ 0) × (p ≢ finished)
busy_is_not p h = (
  elim (place-cases p) [
    | inl e ↦ awake_sleeps p e
    | inr (inl e) ↦ absurd (omega (arith, h, ap inside_at e, ap roused_at e))
    | inr (inr e) ↦ ap sleeps_at e
  ],
  λ e. absurd (omega (arith, h, ap inside_at e, ap roused_at e)),
)
  where
    awake_sleeps : (p : Place) → is_awake p ≡ true → sleeps_at p ≡ 0
    awake_sleeps asleep e = cc
    awake_sleeps finished e = refl
    awake_sleeps at_start e = refl
    awake_sleeps at_lock e = refl
    awake_sleeps at_wait e = refl
    awake_sleeps at_load e = refl
    awake_sleeps (at_store v) e = refl
    awake_sleeps at_unlock e = refl
    awake_sleeps at_wake e = refl

-- While a thread has not finished, some step brings the end nearer.
some-IsNearer :
    (total : ℕ) (s : State) (i : ℕ) (t : Thread)
    → IsCounting total s
    → s.start ≡ true
    → get_elem? s.threads i ≡ some t
    → t.place ≢ finished
    → (j : ℕ) × IsNearer s (step (runs j 0) s)
some-IsNearer total s i t h go e unfinished = elim (Bool-cases (s.futex == 0)) [
  | inr held ↦
      let some_inside : 0 < sum_of inside s.threads = ground (arith, h.held) in
      let (j, u, there, p) = some_of_sum inside s.threads some_inside in
      let (awake, not_done) = busy_is_not u.place (omega (arith, p)) in
      (j, runs-IsNearer s j u there go (inr p) awake not_done)
  | inl free ↦
      let zero_word : s.futex ≡ 0 = ground arith in
      elim (Bool-cases (sleeps t == 0)) [
        | inl z ↦ (i, runs-IsNearer s i t e go (inl zero_word) (ground arith) unfinished)
        | inr slept ↦
            let one : 0 < sleeps t = ground arith in
            let some_roused : 0 < sum_of roused s.threads = omega (
              arith,
              zero_word,
              h.no_lost_wake (omega (arith, one, le_sum_of sleeps s.threads i t e)),
            ) in
            let (j, u, there, p) = some_of_sum roused s.threads some_roused in
            let (awake, not_done) = busy_is_not u.place (omega (arith, p)) in
            (j, runs-IsNearer s j u there go (inl zero_word) awake not_done)
      ]
]

-- All threads have returned from `thread_f`.
abbrev pub AreFinished : State → Type 0
AreFinished s = (i : ℕ) (t : Thread) → get_elem? s.threads i ≡ some t → t.place ≡ finished

no_rank : (p : Place) (k : ℕ) → rank_at p k ≡ 0 → p ≡ finished
no_rank finished k e = refl
no_rank at_start k e = absurd (omega arith)
no_rank at_lock k e = absurd (omega arith)
no_rank at_wait k e = absurd (omega arith)
no_rank asleep k e = absurd (omega arith)
no_rank at_load k e = absurd (omega arith)
no_rank (at_store v) k e = absurd (omega arith)
no_rank at_unlock k e = absurd (omega arith)
no_rank at_wake k e = absurd (omega arith)

-- The threads take the steps in this order, and a wake rouses the first of the sleepers.
abbrev pub turns : List ℕ → List Event
turns [] = []
turns (j ∷ js) = runs j 0 ∷ turns js

-- From here on some steps of the threads bring all of them to their end.
Finishes : State → Type 0
Finishes s = (js : List ℕ) × AreFinished (run (turns js) s)

at_the_end : (s : State) → sum_of rank s.threads ≡ 0 → AreFinished s
at_the_end s z i t e =
    let none : rank t ≡ 0 = omega (arith, z, le_sum_of rank s.threads i t e) in
    no_rank t.place t.left none

finish :
    (bound total : ℕ) (s : State)
    → total < 2 ^ 32
    → IsCounting total s
    → s.start ≡ true
    → sum_of rank s.threads ≤ bound
    → Finishes s
unfolding run Finishes
finish zero total s small h go le = ([], at_the_end s (omega arith))
finish (suc bound) total s small h go le = elim (Bool-cases (sum_of rank s.threads == 0)) [
  | inl z ↦ ([], at_the_end s (ground arith))
  | inr more ↦
      let (i, t, e, p) = some_of_sum rank s.threads (ground arith) in
      let unfinished : t.place ≢ finished =
        λ d. (let none : rank t ≡ 0 = ap (λ p. rank_at p t.left) d in absurd (omega (arith, p))) in
      let (j, (nearer, go')) = some-IsNearer total s i t h go e unfinished in
      let (js, done) =
        finish bound total (step (runs j 0) s) small (step-IsCounting total (runs j 0) s small h)
          go' (omega (arith, nearer)) in
      (j ∷ js, done)
]

-- When main lets the threads start, some steps of the threads alone, without a signal, bring all of
-- them to their end, and the counter to this value.
abbrev pub CanFinish : ℕ → State → Type 0
CanFinish total s =
    (js : List ℕ) × (AreFinished (run (starts ∷ turns js) s)
      × ((run (starts ∷ turns js) s).counter ≡ total))

-- Whatever steps were taken before, as long as the number of all rounds fits an `int`, there are steps
-- of the threads alone, which no signal interrupts, after which all threads have returned, once main
-- has let them start; the counter is then the number of threads times the number of rounds. So no order
-- of the steps brings the threads to where they cannot end.
pub run-CanFinish :
    (n rounds : ℕ) (es : List Event)
    → n * rounds < 2 ^ 31
    → CanFinish (n * rounds) (run es (created n rounds))
unfolding run step Finishes
run-CanFinish n rounds es small =
    let s = step starts (run es (created n rounds)) in
    let h = step-IsCounting (n * rounds) starts (run es (created n rounds)) (omega arith) (
      run-IsCounting (n * rounds) es (created n rounds) (omega arith)
        (created-IsCounting n rounds)) in
    let (js, done) =
      finish (sum_of rank s.threads) (n * rounds) s (omega arith) h refl (omega arith) in
    let last = run-IsCounting (n * rounds) (turns js) s (omega arith) h in
    (js, (done, omega (arith, last.exact, nothing_to_come (run (turns js) s).threads done)))
