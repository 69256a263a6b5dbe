-- ===== src/Locks/Futex/Counts.antt =====
-- lecture_examples/6_threads/8_futex.c: what the places of the threads are counted for.
use sysproghw.Base.{
  ℕ, zero, suc, ◌+◌, ◌<◌, ◌≤◌, ◌≡◌, refl, List, some, ◌==◌, if◌then◌else◌, set, get_elem?, arith,
}
use sysproghw.Locks.Sums.{sum_of, sum_of-set}
use sysproghw.Locks.Futex.{
  Place, at_start, at_lock, at_wait, asleep, at_load, at_store, at_unlock, at_wake, finished,
  Thread, State, next_round,
}

-- 1 between a successful `futex_lock` and the word's reset.
abbrev pub inside_at : Place → ℕ
inside_at at_load = 1
inside_at (at_store v) = 1
inside_at at_unlock = 1
inside_at _ = 0

abbrev pub inside : Thread → ℕ
inside t = inside_at t.place

-- How often the thread will still add 1.
abbrev pub to_come_at : Place → ℕ → ℕ
to_come_at at_start k = k
to_come_at at_lock k = suc k
to_come_at at_wait k = suc k
to_come_at asleep k = suc k
to_come_at at_load k = suc k
to_come_at (at_store v) k = suc k
to_come_at at_unlock k = k
to_come_at at_wake k = k
to_come_at finished k = 0

abbrev pub to_come : Thread → ℕ
to_come t = to_come_at t.place t.left

-- 1 where the thread holds a value of the counter that is not the counter's.
abbrev pub stale_at : ℕ → Place → ℕ
stale_at c (at_store v) = if v == c then 0 else 1
stale_at c _ = 0

abbrev pub stale : ℕ → Thread → ℕ
stale c t = stale_at c t.place

abbrev pub sleeps_at : Place → ℕ
sleeps_at asleep = 1
sleeps_at _ = 0

abbrev pub sleeps : Thread → ℕ
sleeps t = sleeps_at t.place

-- 1 where the thread is about to try the lock or to wake a thread.
abbrev pub roused_at : Place → ℕ
roused_at at_lock = 1
roused_at at_wait = 1
roused_at at_wake = 1
roused_at _ = 0

abbrev pub roused : Thread → ℕ
roused t = roused_at t.place

-- What holds of the word, the counter and all threads.
pub record IsCounting (total : ℕ) (s : State) : Type 0 where
  pub held : s.futex ≡ sum_of inside s.threads
  pub one : s.futex ≤ 1
  pub exact : s.counter + sum_of to_come s.threads ≡ total
  pub current : sum_of (stale s.counter) s.threads ≡ 0
  pub no_lost_wake : 0 < sum_of sleeps s.threads → 0 < s.futex + sum_of roused s.threads

-- What a change of one thread does to the sums.
pub record IsMoved (ts us : List Thread) (t u : Thread) : Type 0 where
  pub of_inside : sum_of inside us + inside t ≡ sum_of inside ts + inside u
  pub of_to_come : sum_of to_come us + to_come t ≡ sum_of to_come ts + to_come u
  pub of_stale : (c : ℕ) → sum_of (stale c) us + stale c t ≡ sum_of (stale c) ts + stale c u
  pub of_sleeps : sum_of sleeps us + sleeps t ≡ sum_of sleeps ts + sleeps u
  pub of_roused : sum_of roused us + roused t ≡ sum_of roused ts + roused u

pub set-IsMoved :
    (ts : List Thread) (i : ℕ) (t u : Thread)
    → get_elem? ts i ≡ some t
    → IsMoved ts (set ts i u) t u
set-IsMoved ts i t u e = record {
  of_inside = sum_of-set inside ts i t u e;
  of_to_come = sum_of-set to_come ts i t u e;
  of_stale = λ c. sum_of-set (stale c) ts i t u e;
  of_sleeps = sum_of-set sleeps ts i t u e;
  of_roused = sum_of-set roused ts i t u e;
}

-- A thread that sleeps is woken, or none is.
pub record IsWoken (ts us : List Thread) : Type 0 where
  pub of_inside : sum_of inside us ≡ sum_of inside ts
  pub of_to_come : sum_of to_come us ≡ sum_of to_come ts
  pub of_stale : (c : ℕ) → sum_of (stale c) us ≡ sum_of (stale c) ts
  pub of_sleeps : sum_of sleeps us ≤ sum_of sleeps ts
  pub of_roused : 0 < sum_of sleeps ts → 0 < sum_of roused us

pub stale_at-le : (c : ℕ) (p : Place) → stale_at c p ≤ inside_at p
stale_at-le c (at_store v) = ground arith
stale_at-le c at_start = omega arith
stale_at-le c at_lock = omega arith
stale_at-le c at_wait = omega arith
stale_at-le c asleep = omega arith
stale_at-le c at_load = omega arith
stale_at-le c at_unlock = omega arith
stale_at-le c at_wake = omega arith
stale_at-le c finished = omega arith

pub next_round-to_come : (k : ℕ) → to_come (next_round k) ≡ k
unfolding next_round
next_round-to_come zero = refl
next_round-to_come (suc k) = refl

pub next_round-outside :
    (c k : ℕ)
    → (inside (next_round k) ≡ 0) × (stale c (next_round k) ≡ 0) × (sleeps (next_round k) ≡ 0)
unfolding next_round
next_round-outside c zero = (refl, refl, refl)
next_round-outside c (suc k) = (refl, refl, refl)
