-- ===== src/Locks/Futex.antt =====
-- lecture_examples/6_threads/8_futex.c: threads that count under a lock by futex.
--
-- A step of a thread is one access of shared memory or one call of the kernel, and any thread may
-- take the next step. Of the kernel the model has what its manual says: FUTEX_WAIT puts the caller
-- to sleep if the word holds the value given and returns at once if not, both as one step;
-- FUTEX_WAKE wakes one thread that sleeps, if there is one, and which one it is comes from outside,
-- with the order of the steps; a signal may wake a thread at any time. All threads use one futex.
pub mod Counts
pub mod Counting
pub mod Totals
pub mod Finishing
use sysproghw.Base.{
  ℕ, zero, suc, ◌+◌, ◌*◌, ◌^◌, ◌%◌, Bool, true, false, List, [], ◌∷◌, Option, none, some, ◌==◌,
  if◌then◌else◌, length, set, replicate, get_elem?, bind,
}

-- Where a thread stands: in front of the step that it takes next.
pub data Place : Type 0 where
  at_start at_lock at_wait asleep at_load : Place
  at_store : (loaded : ℕ) → Place
  at_unlock at_wake finished : Place

-- `left` counts the rounds of the thread's loop behind the one it is in.
pub record Thread : Type 0 where
  pub place : Place
  pub left : ℕ

pub record State : Type 0 where
  pub futex : ℕ
  pub counter : ℕ
  pub start : Bool
  pub threads : List Thread

abbrev pub moves : ℕ → Thread → Place → State → State
moves i t p s = record s { threads = set s.threads i (record t { place = p }) }

-- `for (int i = 0; i < 100000; ++i)`: the next round, or the end.
unfoldable pub next_round : ℕ → Thread
next_round zero = record { place = finished; left = 0 }
next_round (suc k) = record { place = at_lock; left = k }

abbrev pub is_asleep : Thread → Bool
is_asleep t = elim t.place [ asleep ↦ true | _ ↦ false ]

-- The first thread that sleeps.
unfoldable pub first_asleep : List Thread → Option ℕ
first_asleep [] = none
first_asleep (t ∷ ts) =
    let rest = first_asleep ts in if is_asleep t then some 0 else bind rest (λ i. some (suc i))

-- Which thread the kernel wakes: the one that comes from outside, if it sleeps, and else another one that
-- does, if there is one. So no choice that the kernel may make is left out.
unfoldable pub woken : ℕ → List Thread → Option ℕ
woken w ts = elim (get_elem? ts w) [
  | some t ↦ if is_asleep t then some w else first_asleep ts
  | none ↦ first_asleep ts
]

abbrev pub wake_at : List Thread → Option ℕ → List Thread
wake_at ts none = ts
wake_at ts (some j) = elim (get_elem? ts j) [
  | some t ↦ set ts j (record t { place = at_lock })
  | none ↦ ts
]

-- `__sync_val_compare_and_swap(futex, 0, 1) != 0` of `futex_lock`
unfoldable pub futex_lock : ℕ → Thread → State → State
futex_lock i t s =
    if s.futex == 0 then moves i t at_load (record s { futex = 1 }) else moves i t at_wait s

-- `futex_wait(futex, 1)`, behind which `futex_lock` tries again
unfoldable pub futex_wait : ℕ → Thread → State → State
futex_wait i t s = if s.futex == 1 then moves i t asleep s else moves i t at_lock s

-- `__sync_bool_compare_and_swap(futex, 1, 0)` of `futex_unlock`
unfoldable pub futex_unlock : ℕ → Thread → State → State
futex_unlock i t s = moves i t at_wake (if s.futex == 1 then record s { futex = 0 } else s)

-- `futex_wake(futex)`, with which the round ends
unfoldable pub futex_wake : ℕ → ℕ → Thread → State → State
futex_wake w i t s =
    let ts = set s.threads i (next_round t.left) in record s { threads = wake_at ts (woken w ts) }

-- One step of `thread_f`. An `int` has 32 bits; the sum is written without the sign.
unfoldable pub thread_f : ℕ → ℕ → Thread → State → State
thread_f w i t s = elim t.place [
  | at_start ↦ if s.start then record s { threads = set s.threads i (next_round t.left) } else s
  | at_lock ↦ futex_lock i t s
  | at_wait ↦ futex_wait i t s
  | asleep ↦ s
  | at_load ↦ moves i t (at_store s.counter) s
  | at_store v ↦ moves i t at_unlock (record s { counter = (v + 1) % 2 ^ 32 })
  | at_unlock ↦ futex_unlock i t s
  | at_wake ↦ futex_wake w i t s
  | finished ↦ s
]

-- `main` sets `start`; thread `i` takes a step, where a wake would wake thread `w`; a signal comes for
-- thread `i`.
pub data Event : Type 0 where
  starts : Event
  runs : (i w : ℕ) → Event
  interrupts : (i : ℕ) → Event

unfoldable pub step : Event → State → State
step starts s = record s { start = true }
step (runs i w) s = elim (get_elem? s.threads i) [ none ↦ s | some t ↦ thread_f w i t s ]
step (interrupts i) s = elim (get_elem? s.threads i) [
  | none ↦ s
  | some t ↦ if is_asleep t then moves i t at_lock s else s
]

unfoldable pub run : List Event → State → State
run [] s = s
run (e ∷ es) s = run es (step e s)

-- `main` has created `n` threads of `rounds` rounds each.
unfoldable pub created : (n rounds : ℕ) → State
created n rounds = record {
  futex = 0;
  counter = 0;
  start = false;
  threads = replicate n (record { place = at_start; left = rounds });
}
