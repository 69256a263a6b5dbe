-- ===== src/Sorter/Schedule/Fair.antt =====
-- 1/main.c: `terminate` leaves no coroutine behind.
use sysproghw.Base.{
  ℕ, zero, suc, ◌+◌, ◌-◌, ◌<◌, ◌≤◌, ◌≡◌, ◌≢◌, refl, ◌∙◌, ap, sym, inl, inr, Bool, true, false, List,
  [], ◌∷◌, Option, none, some, length, get_elem?, get_elem?-set_self, set, Bool-cases, ◌==◌, ltb,
  arith,
}
use sysproghw.Sorter.Schedule.{Times, first_alive, next_alive, terminate}

-- A loop over the flags finds a coroutine that is not finished, or all of its range are.
data Search (k i : ℕ) (finished : List Bool) : Type 0 where
  hit :
      (j : ℕ)
      → first_alive k i finished ≡ some j
      → get_elem? finished j ≡ some false
      → Search k i finished
  miss :
      first_alive k i finished ≡ none
      → ((j : ℕ) → i ≤ j → j < i + k → get_elem? finished j ≢ some false)
      → Search k i finished

first_alive-Search : (k i : ℕ) (finished : List Bool) → Search k i finished
unfolding first_alive
first_alive-Search zero i finished = miss refl (λ j h1 h2. absurd (omega arith))
first_alive-Search (suc k) i finished =
    here (get_elem? finished i) refl (first_alive-Search k (i + 1) finished)
  where
    not_here :
        (o : Option Bool)
        → get_elem? finished i ≡ o
        → o ≢ some false
        → ((j : ℕ) → i + 1 ≤ j → j < i + 1 + k → get_elem? finished j ≢ some false)
        → (j : ℕ) → i ≤ j
        → j < i + suc k
        → get_elem? finished j ≢ some false
    not_here o e other later j h1 h2 bad = elim (Bool-cases (j == i)) [
      | inl same ↦
          (let at : j ≡ i = ground arith in other (sym e ∙ ap (get_elem? finished) (sym at) ∙ bad))
      | inr ne ↦ later j (ground arith) (omega arith) bad
    ]

    here :
        (o : Option Bool)
        → get_elem? finished i ≡ o
        → Search k (i + 1) finished
        → Search (suc k) i finished
    here (some false) e s = hit i (rw (first_alive, e) refl) e
    here (some true) e (hit j a b) = hit j (rw (first_alive, e) a) b
    here (some true) e (miss a b) =
        miss (rw (first_alive, e) a) (not_here (some true) e (λ q. cc) b)
    here none e (hit j a b) = hit j (rw (first_alive, e) a) b
    here none e (miss a b) = miss (rw (first_alive, e) a) (not_here none e (λ q. cc) b)

-- A coroutine that is not finished, if any.
abbrev pub IsAlive : List Bool → Option ℕ → Type 0
IsAlive finished none = Unit
IsAlive finished (some j) = get_elem? finished j ≡ some false

pub next_alive-IsAlive : (n : ℕ) (finished : List Bool) → IsAlive finished (next_alive n finished)
unfolding next_alive
next_alive-IsAlive n finished =
    go (first_alive-Search (length finished - (n + 1)) (n + 1) finished)
      (first_alive-Search n 0 finished)
  where
    go :
        Search (length finished - (n + 1)) (n + 1) finished
        → Search n 0 finished
        → IsAlive finished (next_alive n finished)
    go (hit j a b) s = rw (next_alive, a) b
    go (miss a b) (hit j c d) = rw (next_alive, a, c) d
    go (miss a b) (miss c d) = rw (next_alive, a, c) tt

get_elem?-beyond : (xs : List Bool) (j : ℕ) → length xs ≤ j → get_elem? xs j ≢ some false
get_elem?-beyond [] j h e = cc
get_elem?-beyond (x ∷ xs) zero h e = absurd (omega arith)
get_elem?-beyond (x ∷ xs) (suc j) h e = get_elem?-beyond xs j (omega arith) e

-- Where the coroutine `n` goes when it ends: to another one that is not finished, or to `main` if all
-- are finished.
abbrev pub IsLinked : ℕ → List Bool × Times × Option ℕ → Type 0
IsLinked n (finished, _, some j) = (get_elem? finished j ≡ some false) × (n ≢ j)
IsLinked n (finished, _, none) = (j : ℕ) → get_elem? finished j ≢ some false

linked :
    (n : ℕ) (finished : List Bool) (t : Times)
    → get_elem? finished n ≡ some true
    → IsLinked n (finished, t, next_alive n finished)
unfolding next_alive
linked n finished t done =
    go (first_alive-Search (length finished - (n + 1)) (n + 1) finished)
      (first_alive-Search n 0 finished)
  where
    other : (j : ℕ) → get_elem? finished j ≡ some false → n ≢ j
    other j e same = (let bad : get_elem? finished n ≡ some false = rw same e in cc)

    all :
        ((j : ℕ)
          → n + 1 ≤ j
          → j < n + 1 + (length finished - (n + 1))
          → get_elem? finished j ≢ some false)
        → ((j : ℕ) → 0 ≤ j → j < 0 + n → get_elem? finished j ≢ some false)
        → (j : ℕ) → get_elem? finished j ≢ some false
    all above below j e = elim (Bool-cases (ltb j n)) [
      | inl lt ↦ below j (omega arith) (ground arith) e
      | inr ge ↦ elim (Bool-cases (ltb j (length finished))) [
        | inl lt ↦ (let ne = other j e in above j (ground arith) (ground arith) e)
        | inr beyond ↦ get_elem?-beyond finished j (ground arith) e
      ]
    ]

    go :
        Search (length finished - (n + 1)) (n + 1) finished
        → Search n 0 finished
        → IsLinked n (finished, t, next_alive n finished)
    go (hit j a b) s = rw (next_alive, a) (b, other j b)
    go (miss a b) (hit j c d) = rw (next_alive, a, c) (d, other j d)
    go (miss a b) (miss c d) = rw (next_alive, a, c) (all b d)

-- When a coroutine ends, it is marked as finished, and `terminate` links it to another one that is not
-- finished; it links it to `main` only if all are finished.
pub terminate-IsLinked :
    (now n : ℕ) (finished : List Bool) (t : Times)
    → n < length finished
    → IsLinked n (terminate now n finished t)
unfolding terminate
terminate-IsLinked now n finished t lt =
    linked n (set finished n true) (record t { time_work = t.time_work + (now - t.timestamp) })
      (get_elem?-set_self finished n true lt)
