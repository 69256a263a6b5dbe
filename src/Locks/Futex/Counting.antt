-- ===== src/Locks/Futex/Counting.antt =====
-- lecture_examples/6_threads/8_futex.c: what holds after every step of every thread.
use sysproghw.Base.{
  ℕ, zero, suc, ◌+◌, ◌^◌, ◌%◌, ◌<◌, ◌≤◌, ◌≡◌, refl, ap, inl, inr, ◌⊎◌, true, false, List, [], ◌∷◌,
  Option, none, some, ◌==◌, set, get_elem?, bind, arith, Bool-cases, Option-cases,
}
use sysproghw.Locks.Sums.{sum_of, rest_le, le_sum_of, branches}
use sysproghw.Locks.Futex.{
  Place, at_start, at_lock, at_wait, asleep, at_load, at_store, at_unlock, at_wake, finished,
  Thread, State, moves, next_round, is_asleep, first_asleep, woken, wake_at, futex_lock, futex_wait,
  futex_unlock, futex_wake, thread_f,
}
use sysproghw.Locks.Futex.Counts.{
  inside_at, inside, to_come_at, to_come, stale_at, stale, sleeps_at, sleeps, roused_at, roused,
  IsCounting, set-IsMoved, IsWoken, stale_at-le, next_round-to_come, next_round-outside,
}

-- Either the word is set or the thread is about to see to it, or nothing became worse.
abbrev pub IsCared : State → ℕ → Thread → Thread → Type 0
IsCared s f t u = (0 < f + roused u) ⊎ (roused t ≡ 0) × (s.futex ≤ f) × (sleeps u ≤ sleeps t)

-- A step of one thread that does not change the counter.
pub moved-IsCounting :
    (total : ℕ) (s : State) (i : ℕ) (t u : Thread) (f : ℕ)
    → IsCounting total s
    → get_elem? s.threads i ≡ some t
    → inside u + s.futex ≡ inside t + f
    → f ≤ 1
    → to_come u ≡ to_come t
    → stale s.counter u ≡ 0
    → IsCared s f t u
    → IsCounting total (record s { futex = f; threads = set s.threads i u })
moved-IsCounting total s i t u f h e in_out one come fresh cared =
    let m = set-IsMoved s.threads i t u e in
    record {
      held = omega (arith, m.of_inside, h.held);
      one = one;
      exact = omega (arith, m.of_to_come, h.exact);
      current = omega (arith, m.of_stale s.counter, h.current);
      no_lost_wake = λ some_sleeps. elim cared [
        | inl seen ↦ omega (arith, m.of_roused, le_sum_of roused s.threads i t e)
        | inr (not_roused, le, no_more) ↦
            let before : 0 < s.futex + sum_of roused s.threads =
              h.no_lost_wake (omega (arith, m.of_sleeps, some_sleeps)) in
            omega (arith, m.of_roused)
      ];
    }

-- The store of `counter + 1` by the thread that holds the lock.
stored-IsCounting :
    (total : ℕ) (s : State) (i v k : ℕ)
    → total < 2 ^ 32
    → IsCounting total s
    → get_elem? s.threads i ≡ some (record { place = at_store v; left = k })
    → IsCounting total (
        moves i
          (record { place = at_store v; left = k })
          at_unlock
          (record s { counter = (v + 1) % 2 ^ 32 }))
stored-IsCounting total s i v k small h e =
    let t : Thread = record { place = at_store v; left = k } in
    let u : Thread = record { place = at_unlock; left = k } in
    let m = set-IsMoved s.threads i t u e in
    let fresh : stale s.counter t ≡ 0 =
      omega (arith, le_sum_of (stale s.counter) s.threads i t e, h.current) in
    let same : v ≡ s.counter = ground (arith, fresh) in
    let more : suc k ≤ sum_of to_come s.threads = le_sum_of to_come s.threads i t e in
    let next : (v + 1) % 2 ^ 32 ≡ v + 1 = omega (arith, h.exact) in
    let alone = rest_le (stale (v + 1)) inside s.threads i t e (λ b. stale_at-le (v + 1) b.place) in
    rw next (record {
      held = omega (arith, m.of_inside, h.held);
      one = h.one;
      exact = omega (arith, m.of_to_come, h.exact);
      current = ground (arith, m.of_stale (v + 1), alone, h.held, h.one);
      no_lost_wake = λ _. omega (arith, h.held, le_sum_of inside s.threads i t e);
    })

-- What FUTEX_WAKE finds: a thread that sleeps, or that none does.
abbrev pub IsPicked : List Thread → Option ℕ → Type 0
IsPicked ts none = (sum_of sleeps ts ≡ 0)
IsPicked ts (some j) = (t : Thread) × (get_elem? ts j ≡ some t) × (t.place ≡ asleep)

pub asleep-cases :
    (p : Place) (k : ℕ) → is_asleep (record { place = p; left = k }) ≡ true → p ≡ asleep
asleep-cases asleep k e = refl
asleep-cases at_start k e = cc
asleep-cases at_lock k e = cc
asleep-cases at_wait k e = cc
asleep-cases at_load k e = cc
asleep-cases (at_store v) k e = cc
asleep-cases at_unlock k e = cc
asleep-cases at_wake k e = cc
asleep-cases finished k e = cc

awake-cases :
    (p : Place) (k : ℕ) → is_asleep (record { place = p; left = k }) ≡ false → sleeps_at p ≡ 0
awake-cases asleep k e = cc
awake-cases at_start k e = refl
awake-cases at_lock k e = refl
awake-cases at_wait k e = refl
awake-cases at_load k e = refl
awake-cases (at_store v) k e = refl
awake-cases at_unlock k e = refl
awake-cases at_wake k e = refl
awake-cases finished k e = refl

IsPicked-cons :
    (t : Thread) (ts : List Thread) (o : Option ℕ)
    → sleeps t ≡ 0
    → IsPicked ts o
    → IsPicked (t ∷ ts) (bind o (λ i. some (suc i)))
IsPicked-cons t ts none z h = omega (arith, z, h)
IsPicked-cons t ts (some j) z h = h

first_asleep-IsPicked : (ts : List Thread) → IsPicked ts (first_asleep ts)
unfolding first_asleep
first_asleep-IsPicked [] = refl
first_asleep-IsPicked (t ∷ ts) = elim (Bool-cases (is_asleep t)) [
  | inl e ↦ rw e (t, refl, asleep-cases t.place t.left e)
  | inr e ↦ rw e (
      IsPicked-cons t ts (first_asleep ts) (awake-cases t.place t.left e)
        (first_asleep-IsPicked ts))
]

pub woken-IsPicked : (w : ℕ) (ts : List Thread) → IsPicked ts (woken w ts)
unfolding woken
woken-IsPicked w ts = elim (Option-cases (get_elem? ts w)) [
  | inl e ↦ rw (woken, e) (first_asleep-IsPicked ts)
  | inr (t, e) ↦ elim (Bool-cases (is_asleep t)) [
    | inl z ↦ rw (woken, e, z) (t, e, asleep-cases t.place t.left z)
    | inr z ↦ rw (woken, e, z) (first_asleep-IsPicked ts)
  ]
]

wake_at-IsWoken : (ts : List Thread) (o : Option ℕ) → IsPicked ts o → IsWoken ts (wake_at ts o)
wake_at-IsWoken ts none z = record {
  of_inside = refl;
  of_to_come = refl;
  of_stale = λ c. refl;
  of_sleeps = omega arith;
  of_roused = λ h. absurd (omega (arith, z, h));
}
wake_at-IsWoken ts (some j) (t, e, slept) =
    let u : Thread = record { place = at_lock; left = t.left } in
    let m = set-IsMoved ts j t u e in
    let was_inside : inside t ≡ 0 = ap inside_at slept in
    let had_to_come : to_come t ≡ suc t.left = ap (λ p. to_come_at p t.left) slept in
    let was_roused : roused t ≡ 0 = ap roused_at slept in
    rw (wake_at, e)
      (record {
        of_inside = omega (arith, m.of_inside);
        of_to_come = omega (arith, m.of_to_come);
        of_stale = λ c.
            let was_stale : stale c t ≡ 0 = ap (stale_at c) slept in omega (arith, m.of_stale c);
        of_sleeps = omega (arith, m.of_sleeps);
        of_roused = λ _. omega (arith, m.of_roused, le_sum_of roused ts j t e);
      })

-- A round ends: the thread goes on, and one that slept is woken.
woke-IsCounting :
    (total : ℕ) (s : State) (w i k : ℕ)
    → IsCounting total s
    → get_elem? s.threads i ≡ some (record { place = at_wake; left = k })
    → IsCounting total (futex_wake w i (record { place = at_wake; left = k }) s)
unfolding futex_wake
woke-IsCounting total s w i k h e =
    let us = set s.threads i (next_round k) in
    let m = set-IsMoved s.threads i (record { place = at_wake; left = k }) (next_round k) e in
    let n = wake_at-IsWoken us (woken w us) (woken-IsPicked w us) in
    let (outside, fresh, awake) = next_round-outside s.counter k in
    record {
      held = omega (arith, m.of_inside, n.of_inside, h.held, outside);
      one = h.one;
      exact = omega (arith, m.of_to_come, n.of_to_come, h.exact, next_round-to_come k);
      current = omega (arith, m.of_stale s.counter, n.of_stale s.counter, h.current, fresh);
      no_lost_wake = λ some_sleeps.
          let r : 0 < sum_of roused (wake_at us (woken w us)) =
            n.of_roused (omega (arith, n.of_sleeps, some_sleeps)) in
          omega (arith, r);
    }

next_round-IsCared :
    (s : State) (k : ℕ) → IsCared s s.futex (record { place = at_start; left = k }) (next_round k)
unfolding next_round
next_round-IsCared s zero = inr (refl, omega arith, omega arith)
next_round-IsCared s (suc k) = inl (omega arith)

-- Every step of every thread.
pub thread_f-IsCounting :
    (total : ℕ) (s : State) (w i : ℕ) (p : Place) (k : ℕ)
    → total < 2 ^ 32
    → IsCounting total s
    → get_elem? s.threads i ≡ some (record { place = p; left = k })
    → IsCounting total (thread_f w i (record { place = p; left = k }) s)
unfolding thread_f futex_lock futex_wait futex_unlock
thread_f-IsCounting total s w i at_start k small h e =
    branches (IsCounting total) s.start _ s
      (λ go.
        let (outside, fresh, awake) = next_round-outside s.counter k in
        moved-IsCounting total s i _ (next_round k) s.futex h e (omega (arith, outside)) h.one
          (next_round-to_come k) fresh (next_round-IsCared s k))
      (λ stay. h)
thread_f-IsCounting total s w i at_lock k small h e =
    branches (IsCounting total) (s.futex == 0) _ _
      (λ free.
        moved-IsCounting total s i _ _ 1 h e (ground arith) (omega arith) refl refl
          (inl (omega arith)))
      (λ taken.
        moved-IsCounting total s i _ _ s.futex h e (omega arith) h.one refl refl
          (inl (omega arith)))
thread_f-IsCounting total s w i at_wait k small h e =
    branches (IsCounting total) (s.futex == 1) _ _
      (λ taken.
        moved-IsCounting total s i _ _ s.futex h e (omega arith) h.one refl refl
          (inl (ground arith)))
      (λ free.
        moved-IsCounting total s i _ _ s.futex h e (omega arith) h.one refl refl
          (inl (omega arith)))
thread_f-IsCounting total s w i asleep k small h e = h
thread_f-IsCounting total s w i at_load k small h e =
    moved-IsCounting total s i _ _ s.futex h e (omega arith) h.one refl (ground arith)
      (inl (omega (arith, h.held, le_sum_of inside s.threads i _ e)))
thread_f-IsCounting total s w i (at_store v) k small h e = stored-IsCounting total s i v k small h e
thread_f-IsCounting total s w i at_unlock k small h e =
    let one : s.futex ≡ 1 = omega (arith, h.one, h.held, le_sum_of inside s.threads i _ e) in
    let test : (s.futex == 1) ≡ true = ground arith in
    simp (thread_f, futex_unlock, test)
      (moved-IsCounting total s i _ _ 0 h e (omega (arith, one)) (omega arith) refl refl
        (inl (omega arith)))
thread_f-IsCounting total s w i at_wake k small h e = woke-IsCounting total s w i k h e
thread_f-IsCounting total s w i finished k small h e = h
