-- ===== src/MemSort/Turns.antt =====
-- lecture_examples/7_ipc/3_mem_sort.c: the two processes take turns, and no byte is lost.
use mathlib.Core.List.{append_assoc, append-nil}
use mathlib.Core.Path.{subst}
use sysproghw.Base.{
  ℕ, ◌+◌, ◌*◌, ◌<◌, ◌≤◌, ◌≡◌, ◌≢◌, refl, ◌∙◌, sym, inl, inr, ◌⊎◌, List, [], ◌∷◌, ◌++◌, length,
  arith,
}
use sysproghw.MemSort.{mem_size, Transfer, Process, writer, reader, step, steps, start}
use sysproghw.MemSort.Passing.{
  turn, IsPassing, to_write, written, closed, to_read, fetched, emptied, passed, other, IsPassed,
}
use sysproghw.MemSort.Chunks.{Next-step}

-- A round is a sequence of steps in which either process does one at least.
abbrev pub Has : Process → List Process → Type 0
Has p [] = ⊥
Has p (q ∷ ps) = (q ≡ p) ⊎ Has p ps

abbrev pub AreRounds : List (List Process) → Type 0
AreRounds [] = Unit
AreRounds (ps ∷ rounds) = Has writer ps × Has reader ps × AreRounds rounds

abbrev pub run_rounds : List (List Process) → Transfer → Transfer
run_rounds [] t = t
run_rounds (ps ∷ rounds) t = run_rounds rounds (steps ps t)

-- The steps that are left get no more.
step-IsPassing :
    (all : List ℕ) (r : ℕ) (t : Transfer) (p : Process)
    → IsPassing all r t
    → (r' : ℕ) × IsPassing all r' (step p t) × (r' ≤ r)
step-IsPassing all r t p h = elim (Next-step all r t h) [
  | inl i ↦ (r, subst (IsPassing all r) (sym (i.idle p)) h, omega arith)
  | inr n ↦ by_turn n.who p n.rest n.passing n.fewer n.waits
]
  where
    by_turn :
        (who q : Process) (rest : ℕ)
        → IsPassing all rest (step who t)
        → rest < r
        → step (other who) t ≡ t
        → (r' : ℕ) × IsPassing all r' (step q t) × (r' ≤ r)
    by_turn writer writer rest g lt e = (rest, g, omega arith)
    by_turn reader reader rest g lt e = (rest, g, omega arith)
    by_turn writer reader rest g lt e = (r, subst (IsPassing all r) (sym e) h, omega arith)
    by_turn reader writer rest g lt e = (r, subst (IsPassing all r) (sym e) h, omega arith)

steps-IsPassing :
    (all : List ℕ) (r : ℕ) (t : Transfer) (ps : List Process)
    → IsPassing all r t
    → (r' : ℕ) × IsPassing all r' (steps ps t) × (r' ≤ r)
unfolding steps
steps-IsPassing all r t [] h = (r, h, omega arith)
steps-IsPassing all r t (p ∷ ps) h =
    let (r₁, h₁, le₁) = step-IsPassing all r t p h in
    let (r₂, h₂, le₂) = steps-IsPassing all r₁ (step p t) ps h₁ in (r₂, h₂, omega arith)

-- Until the process whose turn it is does a step, nothing changes.
turn-IsPassing :
    (all : List ℕ) (r : ℕ) (t : Transfer) (who : Process) (rest : ℕ) (ps : List Process)
    → IsPassing all rest (step who t)
    → rest < r
    → step (other who) t ≡ t
    → Has who ps
    → (r' : ℕ) × IsPassing all r' (steps ps t) × (r' < r)
unfolding steps
turn-IsPassing all r t who rest [] g lt e has = elim has [ ]
turn-IsPassing all r t who rest (q ∷ ps) g lt e has = elim (mine who q) [
  | inl same ↦
      (let (r', h, le) = steps-IsPassing all rest (step who t) ps g in
        (r', subst (λ p. IsPassing all r' (steps ps (step p t))) (sym same) h, omega arith))
  | inr (idle, ne) ↦
      (let (r', h, less) =
          turn-IsPassing all r t who rest ps g lt e
            (elim has [ inl same ↦ absurd (ne same) | inr later ↦ later ]) in
        (
          r',
          subst (λ p. IsPassing all r' (steps ps (step p t))) (sym idle)
              (subst (λ u. IsPassing all r' (steps ps u)) (sym e) h),
          less,
        ))
]
  where
    mine : (w p : Process) → (p ≡ w) ⊎ ((p ≡ other w) × (p ≢ w))
    mine writer writer = inl refl
    mine reader reader = inl refl
    mine writer reader = inr (refl, λ q. cc)
    mine reader writer = inr (refl, λ q. cc)

run_rounds-IsPassed :
    (all : List ℕ) (r : ℕ) (t : Transfer) (rounds : List (List Process))
    → IsPassing all r t
    → r ≤ length rounds
    → AreRounds rounds
    → IsPassed all (run_rounds rounds t)
run_rounds-IsPassed all r t [] h le are = elim (Next-step all r t h) [
  | inl i ↦ i.result
  | inr n ↦ absurd (omega (arith, n.fewer))
]
run_rounds-IsPassed all r t (ps ∷ rounds) h le (has_writer, has_reader, are) =
    elim (Next-step all r t h) [
      | inl i ↦
          (let (r', h', le') = steps-IsPassing all 0 t ps i.over in
            run_rounds-IsPassed all r' (steps ps t) rounds h' (omega arith) are)
      | inr n ↦
          (let (r', h', less) =
              turn-IsPassing all r t n.who n.rest ps n.passing n.fewer n.waits (has_both n.who) in
            run_rounds-IsPassed all r' (steps ps t) rounds h' (omega arith) are)
    ]
  where
    has_both : (p : Process) → Has p ps
    has_both writer = has_writer
    has_both reader = has_reader

-- The two processes run in rounds, in each of which either one does a step at least, in any order.
-- A transfer through a shared memory of MEM_SIZE bytes, two of them flags, has ended after six
-- rounds for each byte and six more: the reader has the bytes of the writer, both calls have
-- returned, the flags are as they were at the start, and nothing was copied over the end of the
-- memory.
pub run_rounds-start :
    (src junk : List ℕ) (rounds : List (List Process))
    → length junk ≡ mem_size
    → AreRounds rounds
    → 6 * length src + 6 ≤ length rounds
    → IsPassed src (run_rounds rounds (start src junk))
run_rounds-start src junk rounds long are enough =
    run_rounds-IsPassed src (turn (length src)) (start src junk) rounds
      (to_write [] src junk refl long) (omega arith) are

-- At any time of a transfer through a shared memory of MEM_SIZE bytes, two of them flags, however
-- the steps follow each other, nothing was copied over the end of the memory, and the bytes that
-- the reader has are the first ones of the writer's.
pub steps-start :
    (src junk : List ℕ) (ps : List Process)
    → length junk ≡ mem_size
    → (length (steps ps (start src junk)).mem ≡ mem_size)
      × ((rest : List ℕ) × (src ≡ (steps ps (start src junk)).dst ++ rest))
steps-start src junk ps long =
    let (r, h, _) =
      steps-IsPassing src (turn (length src)) (start src junk) ps
        (to_write [] src junk refl long) in
    IsPassing-prefix src r (steps ps (start src junk)) h
  where
    IsPassing-prefix :
        (all : List ℕ) (r : ℕ) (t : Transfer)
        → IsPassing all r t
        → (length t.mem ≡ mem_size) × ((rest : List ℕ) × (all ≡ t.dst ++ rest))
    IsPassing-prefix all _ _ (to_write got left mem e long') = (long', (left, e))
    IsPassing-prefix all _ _ (written got chunk left mem size e e₁ e₂ long') =
        (long', (chunk ++ left, e ∙ append_assoc got chunk left))
    IsPassing-prefix all _ _ (closed got chunk left mem size e e₁ e₂ long') =
        (long', (chunk ++ left, e ∙ append_assoc got chunk left))
    IsPassing-prefix all _ _ (to_read got chunk left mem size e e₁ e₂ long') =
        (long', (chunk ++ left, e ∙ append_assoc got chunk left))
    IsPassing-prefix all _ _ (fetched got left mem e long') = (long', (left, e))
    IsPassing-prefix all _ _ (emptied got left mem e long') = (long', (left, e))
    IsPassing-prefix all _ _ (passed mem long') = (long', ([], sym (append-nil all)))
