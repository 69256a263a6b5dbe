-- ===== src/Cthread/Polling.antt =====
-- lecture_examples/6_threads/12_cthread_detach.c: the last loop of `main`, which polls the threads.
use sysproghw.Base.{
  ℕ, zero, suc, ◌+◌, ◌-◌, ◌<◌, ◌≤◌, ◌≡◌, refl, Bool, true, false, Option, none, some, ltb,
  Bool-cases, inl, inr, arith,
}

-- `for (int i = 0; i < 10; ++i)`, on fuel, where `finished` says what a test of a thread's flag
-- finds, by the number of tests done before and the thread. The result is how many tests there
-- were.
unfoldable pub poll_threads : ℕ → (ℕ → ℕ → Bool) → ℕ → ℕ → Option ℕ
poll_threads zero finished time i = none
poll_threads (suc k) finished time i = elim (ltb i 10) [
  | false ↦ some time
  | true ↦ elim (finished time i) [
    | true ↦ poll_threads k finished (time + 1) (i + 1)
    | false ↦ poll_threads k finished (time + 1) (0 + 1)
  ]
]

poll_threads-rest :
    (k : ℕ) (finished : ℕ → ℕ → Bool) (time i : ℕ)
    → ((time' j : ℕ) → 1 ≤ j → j < 10 → finished time' j ≡ true)
    → 1 ≤ i
    → i ≤ 10
    → 10 - i < k
    → poll_threads k finished time i ≡ some (time + (10 - i))
unfolding poll_threads
poll_threads-rest zero finished time i h h₁ h₂ fuel = absurd (omega arith)
poll_threads-rest (suc k) finished time i h h₁ h₂ fuel = elim (Bool-cases (ltb i 10)) [
  | inl within ↦
      (let seen : finished time i ≡ true = h time i h₁ (ground arith) in
        let rest =
          poll_threads-rest k finished (time + 1) (i + 1) h (omega arith) (ground arith)
            (ground arith) in
        let same : time + 1 + (10 - (i + 1)) ≡ time + (10 - i) = ground arith in
        rw (poll_threads, within, seen, rest, same) refl)
  | inr beyond ↦
      (let same : time ≡ time + (10 - i) = ground arith in
        rw (poll_threads, beyond) (rw (← same) refl))
]

-- The loop ends after ten tests where the threads 1 to 9 are found to have finished, whatever the
-- test of thread 0 finds: when it has not finished, it is not tested again.
pub poll_threads_lem :
    (finished : ℕ → ℕ → Bool)
    → ((time j : ℕ) → 1 ≤ j → j < 10 → finished time j ≡ true)
    → poll_threads 12 finished 0 0 ≡ some 10
unfolding poll_threads
poll_threads_lem finished h =
    let rest = poll_threads-rest 11 finished 1 1 h (omega arith) (omega arith) (omega arith) in
    elim (Bool-cases (finished 0 0)) [
      | inl seen ↦ rw (seen, rest) refl
      | inr unseen ↦ rw (unseen, rest) refl
    ]
