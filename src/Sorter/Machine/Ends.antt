-- ===== src/Sorter/Machine/Ends.antt =====
-- 1/main.c: all coroutines end, and `main` goes on.
use mathlib.Core.Path.{subst}
use sysproghw.Base.{
  ℕ, zero, suc, ◌+◌, ◌-◌, ◌<◌, ◌≡◌, ◌≢◌, refl, ◌∙◌, ap, sym, inl, inr, Bool, true, false, List, [],
  ◌∷◌, Option, none, some, get_elem?, get_or, set, length, length-set, get_elem?-set_self,
  get_elem?-set_ne, if◌then◌else◌, Bool-cases, ltb, ◌==◌, arith,
}
use sysproghw.Sorter.Code.{Code, ret, swaps, draws, stamps, fault, out_of_fuel, Ensures}
use sysproghw.Sorter.Schedule.{Times, next_alive, swap, terminate}
use sysproghw.Sorter.Schedule.Fair.{IsAlive, next_alive-IsAlive, IsLinked, terminate-IsLinked}
use sysproghw.Sorter.Machine.{
  Status, Tick, runs, back_in_main, Machine, no_times, switch, exec, step,
}
use sysproghw.Sorter.Machine.Winds.{Child, Moves, set-Moves, Winds, winds, all_Winds}

get_elem?-some :
    {A : Type 0} (xs : List A) (i : ℕ) → i < length xs → (x : A) × (get_elem? xs i ≡ some x)
get_elem?-some [] i h = absurd (omega arith)
get_elem?-some (x ∷ xs) zero h = (x, refl)
get_elem?-some (x ∷ xs) (suc i) h = get_elem?-some xs i (omega arith)

some-get_elem? :
    {A : Type 0} (xs : List A) (i : ℕ) (x : A) → get_elem? xs i ≡ some x → i < length xs
some-get_elem? [] i x e = cc
some-get_elem? (y ∷ xs) zero x e = omega arith
some-get_elem? (y ∷ xs) (suc i) x e = omega (arith, some-get_elem? xs i x e)

-- How many coroutines are not finished.
unfinished : List Bool → ℕ
unfinished [] = 0
unfinished (b ∷ bs) = (if b then 0 else 1) + unfinished bs

unfinished-set :
    (bs : List Bool) (n : ℕ)
    → get_elem? bs n ≡ some false
    → unfinished (set bs n true) < unfinished bs
unfolding unfinished
unfinished-set [] n e = cc
unfinished-set (true ∷ bs) zero e = cc
unfinished-set (false ∷ bs) zero e = omega arith
unfinished-set (b ∷ bs) (suc n) e = omega (arith, unfinished-set bs n e)

swap-IsAlive :
    (now later back slice n : ℕ) (finished : List Bool) (t : Times)
    → IsAlive finished (swap now later back slice n finished t).0
unfolding swap
swap-IsAlive now later back slice n finished t = elim (Bool-cases (ltb (now - t.timestamp) slice)) [
  | inl early ↦ rw early tt
  | inr late ↦ rw late (next_alive-IsAlive n finished)
]

step-exec :
    {A : Type 0} (slice : ℕ) (k : Tick) (m : Machine A) (n : ℕ) (c : Code A)
    → m.status ≡ runs n
    → get_elem? m.codes n ≡ some c
    → step slice k m ≡ exec slice k m n c
unfolding step
step-exec slice k m n c e₁ e₂ = simp (step, e₁, e₂) refl

-- Where a coroutine returns, the C library goes on at the context that its `uc_link` leads to then,
-- though it was set after `makecontext`.
abbrev pub FollowsLink : (Option ℕ → Status) → Type 0
FollowsLink follow = (follow none ≡ back_in_main) × ((i : ℕ) → follow (some i) ≡ runs i)

module _ {A : Type 0} where
  -- However the clock and `rand` go, the machine gets back to `main`, as `Q` says.
  pub data Ends (slice : ℕ) (Q : Machine A → Type 0) : Machine A → Type 0 where
    done : {m : Machine A} → Q m → Ends slice Q m
    goes :
        {m : Machine A} (n : ℕ)
        → m.status ≡ runs n
        → ((k : Tick) → Ends slice Q (step slice k m))
        → Ends slice Q m

  -- Coroutine `i` of `size` is to end with a result of the kind `P i`; the coroutine `n` runs.
  pub record IsGoing (P : ℕ → A → Type 0) (size : ℕ) (m : Machine A) (n : ℕ) : Type 0 where
    pub running : m.status ≡ runs n
    pub follows : FollowsLink m.follow
    pub sized : length m.codes ≡ size
    pub flagged : length m.finished ≡ size
    pub alive : get_elem? m.finished n ≡ some false
    pub good : (i : ℕ) (c : Code A) → get_elem? m.codes i ≡ some c → Ensures (P i) c
    pub ended :
        (i : ℕ)
        → get_elem? m.finished i ≡ some true
        → (r : A) × (get_elem? m.codes i ≡ some (ret r))

  -- `main` goes on, and every coroutine has ended with its result.
  pub record IsBack (P : ℕ → A → Type 0) (size : ℕ) (m : Machine A) : Type 0 where
    pub back : m.status ≡ back_in_main
    pub sized : length m.codes ≡ size
    pub results : (i : ℕ) → i < size → (r : A) × (get_elem? m.codes i ≡ some (ret r)) × P i r

  module _ (P : ℕ → A → Type 0) (size slice : ℕ) where
    -- What a step makes of the machine.
    data After (m m' : Machine A) : Type 0 where
      moved :
          (n' : ℕ)
          → Moves m.codes m'.codes
          → m'.finished ≡ m.finished
          → IsGoing P size m' n'
          → After m m'
      ended :
          (n' : ℕ)
          → unfinished m'.finished < unfinished m.finished
          → IsGoing P size m' n'
          → After m m'
      back : IsBack P size m' → After m m'

    module _ (m : Machine A) (n : ℕ) (h : IsGoing P size m n) where
      inside : n < length m.codes
      inside = omega (arith, some-get_elem? m.finished n false h.alive, h.sized, h.flagged)

      not_ended : (i : ℕ) → get_elem? m.finished i ≡ some true → n ≢ i
      not_ended i e same =
          let bad : get_elem? m.finished i ≡ some false =
            subst (λ j. get_elem? m.finished j ≡ some false) same h.alive in
          cc

      -- The running coroutine has the code `c'` left, and `n'` is next.
      moved-IsGoing :
          (c' : Code A) (n' : ℕ) (times : List Times)
          → Ensures (P n) c'
          → get_elem? m.finished n' ≡ some false
          → IsGoing P size
              (record m { status = runs n'; codes = set m.codes n c'; times = times })
              n'
      moved-IsGoing c' n' times good alive = record {
        running = refl;
        follows = h.follows;
        sized = length-set m.codes n c' ∙ h.sized;
        flagged = h.flagged;
        alive = alive;
        good = λ i c e. elim (Bool-cases (n == i)) [
          | inl same ↦
              (let same' : n ≡ i = ground arith in
                let at : get_elem? (set m.codes n c') n ≡ some c =
                  subst (λ j. get_elem? (set m.codes n c') j ≡ some c) (sym same') e in
                let now : c' ≡ c = (let set_self = get_elem?-set_self m.codes n c' inside in cc) in
                subst (λ j. Ensures (P j) c) same' (subst (Ensures (P n)) now good))
          | inr other ↦
              h.good i c
                (sym (get_elem?-set_ne m.codes c' (λ q. let q' : n ≡ i = q in ground arith)) ∙ e)
        ];
        ended = λ i e.
            let (r, e') = h.ended i e in (r, get_elem?-set_ne m.codes c' (not_ended i e) ∙ e');
      }

      -- The coroutine `n` has ended, and `n'` is next.
      ended-IsGoing :
          (r : A) (n' : ℕ) (times : List Times)
          → get_elem? m.codes n ≡ some (ret r)
          → get_elem? (set m.finished n true) n' ≡ some false
          → IsGoing P size
              (record m { status = runs n'; finished = set m.finished n true; times = times })
              n'
      ended-IsGoing r n' times e alive = record {
        running = refl;
        follows = h.follows;
        sized = h.sized;
        flagged = length-set m.finished n true ∙ h.flagged;
        alive = alive;
        good = h.good;
        ended = λ i e'. elim (Bool-cases (n == i)) [
          | inl same ↦
              (let same' : n ≡ i = ground arith in
                (r, subst (λ j. get_elem? m.codes j ≡ some (ret r)) same' e))
          | inr other ↦ h.ended i (
              sym (get_elem?-set_ne m.finished true (λ q. let q' : n ≡ i = q in ground arith)) ∙ e')
        ];
      }

      -- All coroutines have ended.
      ended-IsBack :
          (r : A) (times : List Times)
          → get_elem? m.codes n ≡ some (ret r)
          → ((j : ℕ) → get_elem? (set m.finished n true) j ≢ some false)
          → IsBack P size
              (record m { status = back_in_main; finished = set m.finished n true; times = times })
      ended-IsBack r times e all = record {
        back = refl;
        sized = h.sized;
        results = λ i lt. elim (Bool-cases (n == i)) [
          | inl same ↦
              (let same' : n ≡ i = ground arith in
                subst (λ j. (r' : A) × (get_elem? m.codes j ≡ some (ret r')) × P j r') same'
                  (r, e, h.good n (ret r) e))
          | inr other ↦
              (let kept =
                  get_elem?-set_ne m.finished true (λ q. let q' : n ≡ i = q in ground arith) in
                let (b, e') = get_elem?-some m.finished i (omega (arith, h.flagged)) in
                let (r', e'') = h.ended i (e' ∙ ap some (is_true i b (kept ∙ e'))) in
                (r', e'', h.good i (ret r') e''))
        ];
      }
        where
          is_true : (i : ℕ) (b : Bool) → get_elem? (set m.finished n true) i ≡ some b → b ≡ true
          is_true i true e' = refl
          is_true i false e' = absurd (all i e')

      after_terminate :
          (r : A) (t : Times) (to : Option ℕ)
          → get_elem? m.codes n ≡ some (ret r)
          → IsLinked n (set m.finished n true, t, to)
          → After m (record m {
            status = m.follow to;
            finished = set m.finished n true;
            times = set m.times n t;
          })
      after_terminate r t none e link =
          rw (h.follows.0) (back (ended-IsBack r (set m.times n t) e link))
      after_terminate r t (some n') e link = rw (h.follows.1 n') (
          ended n' (unfinished-set m.finished n h.alive)
            (ended-IsGoing r n' (set m.times n t) e link.0))

      after_swap :
          (c : Code A) (to : Option ℕ) (t : Times)
          → get_elem? m.codes n ≡ some (swaps c)
          → IsAlive m.finished to
          → After m
              (record m { status = switch n to; codes = set m.codes n c; times = set m.times n t })
      after_swap c none t e alive =
          moved n (set-Moves m.codes n (swaps c) c e refl) refl
            (moved-IsGoing c n (set m.times n t) (h.good n (swaps c) e) h.alive)
      after_swap c (some n') t e alive =
          moved n' (set-Moves m.codes n (swaps c) c e refl) refl
            (moved-IsGoing c n' (set m.times n t) (h.good n (swaps c) e) alive)

      stays :
          (c c' : Code A) (t : List Times)
          → get_elem? m.codes n ≡ some c
          → Child c' c
          → Ensures (P n) c'
          → After m (record m { codes = set m.codes n c'; times = t })
      stays c c' t e child good = moved n (set-Moves m.codes n c c' e child) refl (
          subst
            (λ s. IsGoing P size (record m { status = s; codes = set m.codes n c'; times = t }) n)
            (sym h.running) (moved-IsGoing c' n t good h.alive))

      after_exec :
          (k : Tick) (c : Code A) → get_elem? m.codes n ≡ some c → After m (exec slice k m n c)
      unfolding exec terminate swap
      after_exec k (ret r) e =
          let t = get_or m.times n no_times in
          after_terminate r _ (next_alive n (set m.finished n true)) e
            (terminate-IsLinked k.now n m.finished t (omega (arith, inside, h.sized, h.flagged)))
      after_exec k (swaps c) e =
          let o = swap k.now k.later k.back slice n m.finished (get_or m.times n no_times) in
          after_swap c o.0 o.1 e
            (swap-IsAlive k.now k.later k.back slice n m.finished (get_or m.times n no_times))
      after_exec k (draws g) e =
          stays (draws g) (g k.drawn) m.times e (k.drawn, refl) (h.good n (draws g) e k.drawn)
      after_exec k (stamps c) e = stays (stamps c) c _ e refl (h.good n (stamps c) e)
      after_exec k fault e = absurd (h.good n fault e)
      after_exec k out_of_fuel e = absurd (h.good n out_of_fuel e)

      after_step : (k : Tick) → After m (step slice k m)
      after_step k =
          let (c, e) = get_elem?-some m.codes n inside in
          subst (After m) (sym (step-exec slice k m n c h.running e)) (after_exec k c e)

    -- The coroutines that are not finished, and then the codes, get fewer.
    going-Ends :
        (k : ℕ) (m : Machine A) (n : ℕ)
        → unfinished m.finished < k
        → Winds m.codes
        → IsGoing P size m n
        → Ends slice (IsBack P size) m
    going-Ends zero m n fewer w h = absurd (omega arith)
    going-Ends (suc k) m n fewer (winds w) h = goes n h.running (λ tick.
        elim (after_step m n h tick) [
          | moved n' moves same h' ↦
              going-Ends (suc k) (step slice tick m) n' (omega (arith, ap unfinished same))
                (w _ moves) h'
          | ended n' less h' ↦ going-Ends k (step slice tick m) n' (omega arith) (all_Winds _) h'
          | back h' ↦ done h'
        ])

    -- The machine of coroutines that each end with a result of its kind gets back to `main`, whatever the
    -- clock and `rand` return, once all of them have ended with their results.
    pub IsGoing-Ends : (m : Machine A) (n : ℕ) → IsGoing P size m n → Ends slice (IsBack P size) m
    IsGoing-Ends m n h =
        going-Ends (unfinished m.finished + 1) m n (omega arith) (all_Winds m.codes) h
