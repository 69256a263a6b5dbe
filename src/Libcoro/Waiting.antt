-- ===== src/Libcoro/Waiting.antt =====
-- lecture_examples/4_signals/12_libcoro.c: `coro_sched_wait` returns a coroutine that has ended.
use mathlib.Core.Path.{subst}
use sysproghw.Base.{
  ℕ, zero, suc, ◌+◌, ◌<◌, ◌≤◌, ◌≡◌, refl, ◌∙◌, sym, ap, inl, inr, arith, true, false, List, [], ◌∷◌,
  ◌++◌, length, length-append, Option, none, some,
}
use sysproghw.Libcoro.State.{Coro, coro_sched, Heap, State, coro_list_delete}
use sysproghw.Libcoro.Calls.{
  coro_status, coro_is_finished, run, coro_yield_to, find_finished, wait_loop, coro_sched_wait,
}
use sysproghw.Libcoro.Chain.{IsSegment, IsList}
use sysproghw.Libcoro.Chain.Links.{data_of, IsRelinked, coro_list_delete-IsList}
use sysproghw.Libcoro.Running.{not_finished, run-HasRun}
use sysproghw.Libcoro.Heaps.{
  outcome, outcome_data, AllAlive, AllAlive-frame, all_turns, HasRun, OneEnded, IsSegment-links,
}

find_finished-alive :
    (k : ℕ) (prev cur : Option ℕ) (ids : List ℕ) (s : State)
    → length ids ≤ k
    → IsSegment s.heap prev cur ids none
    → AllAlive s.heap ids
    → find_finished k cur s ≡ some none
unfolding find_finished
find_finished-alive zero prev cur [] s fuel e l = rw e refl
find_finished-alive (suc k) prev cur [] s fuel e l = rw e refl
find_finished-alive zero prev cur (a ∷ ids) s fuel seg l = absurd (omega arith)
find_finished-alive (suc k) prev cur (a ∷ ids) s fuel (e, c, at, back, seg) (alive, l) =
    let up = not_finished s.heap a c at alive in
    simp (e, at, up) (find_finished-alive k (some a) c.next ids s (omega arith) seg l)

find_finished-one :
    (k : ℕ) (prev cur : Option ℕ) (xs : List ℕ) (a : ℕ) (ys : List ℕ) (s : State) (c : Coro)
    → length xs < k
    → IsSegment s.heap prev cur (xs ++ a ∷ ys) none
    → AllAlive s.heap xs
    → s.heap a ≡ some c
    → c.is_finished ≡ true
    → find_finished k cur s ≡ some (some a)
unfolding find_finished
find_finished-one zero prev cur xs a ys s c fuel seg l at done = absurd (omega arith)
find_finished-one (suc k) prev cur [] a ys s c fuel (e, d, there, back, seg) l at done =
    simp (e, at, done) refl
find_finished-one (suc k) prev cur (x ∷ xs) a ys s c fuel (e, d, there, back, seg) (alive, l) at
      done =
    let up = not_finished s.heap x d there alive in
    simp (e, there, up)
      (find_finished-one k (some x) d.next xs a ys s c (omega arith) seg l at done)

-- The scheduler's state between two calls of `coro_sched_wait`: the coroutines `ids` make the list, and
-- none of them has ended.
pub record IsReady (s : State) (ids : List ℕ) : Type 0 where
  pub listed : IsList s ids
  pub alive : AllAlive s.heap ids
  pub scheduling : s.coro_this_ptr ≡ coro_sched

-- What `coro_sched_wait` has done: where there was no coroutine, nothing. Else it returns one of
-- them, which has returned what its function returns; the others are left in their order, and what
-- they return has not changed.
pub data HasWaited (s : State) (ids : List ℕ) (o : Option ℕ) (s' : State) : Type 0 where
  nothing : ids ≡ [] → o ≡ none → s' ≡ s → HasWaited s ids o s'
  ended :
      (xs : List ℕ) (a : ℕ) (ys : List ℕ) (c : Coro)
      → ids ≡ xs ++ a ∷ ys
      → o ≡ some a
      → s'.heap a ≡ some c
      → coro_is_finished c ≡ true
      → outcome s.heap a ≡ some (coro_status c)
      → IsReady s' (xs ++ ys)
      → ((b : ℕ) → outcome s'.heap b ≡ outcome s.heap b)
      → HasWaited s ids o s'

-- The state at the end of a round.
abbrev round_ends : State → State → State
round_ends s t = record t { coro_this_ptr = s.coro_this_ptr; is_sched_waiting = false }

wait_loop-empty :
    (inner k : ℕ) (s : State) → s.coro_list ≡ none → wait_loop inner (suc k) s ≡ some (none, s)
unfolding wait_loop
wait_loop-empty inner k s e = simp (wait_loop, e) refl

wait_loop-found :
    (inner k head a : ℕ) (s s' : State)
    → s.coro_list ≡ some head
    → find_finished inner (some head) s ≡ some (some a)
    → coro_list_delete a s ≡ some s'
    → wait_loop inner (suc k) s ≡ some (some a, s')
unfolding wait_loop
wait_loop-found inner k head a s s' e₁ e₂ e₃ = simp (wait_loop, e₁, e₂, e₃) refl

wait_loop-round :
    (inner k head : ℕ) (s t : State)
    → s.coro_list ≡ some head
    → find_finished inner (some head) s ≡ some none
    → run inner head (record s { is_sched_waiting = true }) ≡ some t
    → wait_loop inner (suc k) s ≡ wait_loop inner k (round_ends s t)
unfolding wait_loop coro_yield_to
wait_loop-round inner k head s t e₁ e₂ e₃ =
    let ran : run inner head (record s { coro_list = some head; is_sched_waiting = true })
        ≡ some t =
      subst (λ o. run inner head (record s { coro_list = o; is_sched_waiting = true }) ≡ some t) e₁
        e₃ in
    simp (wait_loop, e₁, e₂, coro_yield_to, ran) refl

HasRun-IsList :
    (s t : State) (ids : List ℕ)
    → IsReady s ids
    → HasRun (record s { is_sched_waiting = true }) t ids
    → IsList (round_ends s t) ids
HasRun-IsList s t ids ready ran = (
  subst (λ o. IsSegment t.heap none o ids none) (sym ran.head)
      (IsSegment-links s.heap t.heap none s.coro_list ids none ran.touched.links ready.listed.0),
  ready.listed.1,
)

HasRun-IsReady :
    (s t : State) (ids : List ℕ)
    → IsReady s ids
    → HasRun (record s { is_sched_waiting = true }) t ids
    → AllAlive t.heap ids
    → IsReady (round_ends s t) ids
HasRun-IsReady s t ids ready ran alive = record {
  listed = HasRun-IsList s t ids ready ran;
  alive = alive;
  scheduling = ready.scheduling;
}

first_of :
    (h : Heap) (prev cur : Option ℕ) (xs : List ℕ) (a : ℕ) (ys : List ℕ)
    → IsSegment h prev cur (xs ++ a ∷ ys) none
    → (head : ℕ) × (cur ≡ some head)
first_of h prev cur [] a ys (e, c, at, back, rest) = (a, e)
first_of h prev cur (x ∷ xs) a ys (e, c, at, back, rest) = (x, e)

same_data :
    (o : Option Coro) (c : Coro)
    → data_of o ≡ data_of (some c)
    → (d : Coro) × (o ≡ some d) × (d.ret ≡ c.ret) × (d.is_finished ≡ c.is_finished)
same_data none c e = cc
same_data (some d) c e = (
  d,
  refl,
  (let e' : d.ret ≡ c.ret = cc in e'),
  (let e' : d.is_finished ≡ c.is_finished = cc in e'),
)

outcome_ended :
    (h : Heap) (a : ℕ) (c : Coro) → h a ≡ some c → c.is_finished ≡ true → outcome h a ≡ some c.ret
outcome_ended h a c at done = rw (at, done) refl

pub outcome-IsRelinked : (h h' : Heap) → IsRelinked h h' → (b : ℕ) → outcome h' b ≡ outcome h b
outcome-IsRelinked h h' same b = ap outcome_data (same b)

append-AllAlive :
    (h : Heap) (xs ys : List ℕ) → AllAlive h xs → AllAlive h ys → AllAlive h (xs ++ ys)
append-AllAlive h [] ys u v = v
append-AllAlive h (x ∷ xs) ys (e, u) v = (e, append-AllAlive h xs ys u v)

-- A coroutine has ended: the next round finds it.
module _ (inner : ℕ) (s t : State) (ids : List ℕ) (fuel : length ids < inner)
    (ready : IsReady s ids) (ran : HasRun (record s { is_sched_waiting = true }) t ids)
    (one : OneEnded t.heap ids) where
  listed : IsList (round_ends s t) (one.before ++ one.here ∷ one.behind)
  listed = subst (IsList (round_ends s t)) one.split (HasRun-IsList s t ids ready ran)

  waited :
      (s' : State)
      → IsList s' (one.before ++ one.behind)
      → IsRelinked t.heap s'.heap
      → s'.coro_this_ptr ≡ s.coro_this_ptr
      → HasWaited s ids (some one.here) s'
  waited s' list same this =
      let (d, at, ret, done) =
        same_data (s'.heap one.here) one.node (same one.here ∙ ap data_of one.at) in
      ended one.before one.here one.behind d one.split refl at (done ∙ one.ended)
        (sym (ran.touched.outcomes one.here)
          ∙ outcome_ended t.heap one.here one.node one.at one.ended
          ∙ ap some (sym ret))
        (record {
          listed = list;
          alive =
              AllAlive-frame t.heap s'.heap (one.before ++ one.behind) same
                (append-AllAlive t.heap one.before one.behind one.alive_before one.alive_behind);
          scheduling = this ∙ ready.scheduling;
        })
        (λ b. outcome-IsRelinked t.heap s'.heap same b ∙ ran.touched.outcomes b)

  one_ended :
      (k : ℕ)
      → (o : Option ℕ) × (s' : State) × (wait_loop inner (suc k) (round_ends s t) ≡ some (o, s'))
        × HasWaited s ids o s'
  one_ended k =
      let (head, e) = first_of t.heap none t.coro_list one.before one.here one.behind listed.0 in
      let short : length one.before < inner =
        omega
          (arith, fuel, ap length one.split, length-append one.before (one.here ∷ one.behind)) in
      let found =
        subst (λ o. find_finished inner o (round_ends s t) ≡ some (some one.here)) e
          (find_finished-one inner none t.coro_list one.before one.here one.behind (round_ends s t)
            one.node short listed.0 one.alive_before one.at one.ended) in
      let (s', gone, list, same, this, _) =
        coro_list_delete-IsList (round_ends s t) one.before one.here one.behind listed in
      (
        some one.here,
        s',
        wait_loop-found inner k head one.here (round_ends s t) s' e found gone,
        waited s' list same this,
      )

-- A round in which every coroutine gave way leads to the same end.
later-HasWaited :
    (s t : State) (ids : List ℕ) (o : Option ℕ) (s' : State)
    → (ids ≡ [] → s ≡ t)
    → ((b : ℕ) → outcome t.heap b ≡ outcome s.heap b)
    → HasWaited t ids o s'
    → HasWaited s ids o s'
later-HasWaited s t ids o s' empty same (nothing e₁ e₂ e₃) = nothing e₁ e₂ (e₃ ∙ sym (empty e₁))
later-HasWaited s t ids o s' empty same (ended xs a ys c e₁ e₂ at done e₃ ready later) =
    ended xs a ys c e₁ e₂ at done (sym (same a) ∙ e₃) ready (λ b. later b ∙ same b)

-- Each round ends a coroutine or brings one of them closer to its end.
wait_loop-HasWaited :
    (inner k : ℕ) (s : State) (ids : List ℕ)
    → length ids < inner
    → all_turns s.heap ids + 1 < k
    → IsReady s ids
    → (o : Option ℕ) × (s' : State) × (wait_loop inner k s ≡ some (o, s')) × HasWaited s ids o s'
wait_loop-HasWaited inner zero s ids fuel less ready = absurd (omega arith)
wait_loop-HasWaited inner (suc zero) s ids fuel less ready = absurd (omega arith)
wait_loop-HasWaited inner (suc (suc k)) s [] fuel less ready =
    (none, s, wait_loop-empty inner (suc k) s ready.listed.0, nothing refl refl refl)
wait_loop-HasWaited inner (suc (suc k)) s (a ∷ ids) fuel less ready =
    let e = ready.listed.0.0 in
    let none_found =
      subst (λ o. find_finished inner o s ≡ some none) e
        (find_finished-alive inner none s.coro_list (a ∷ ids) s (omega arith) ready.listed.0
          ready.alive) in
    let (t, runs, ran) =
      run-HasRun inner a ids (record s { is_sched_waiting = true }) none s.coro_list (omega arith)
        ready.listed.0 ready.listed.1 ready.alive refl in
    let next = wait_loop-round inner (suc k) a s t e none_found runs in
    elim ran.progress [
      | inl (alive, closer) ↦
          (let (o, s', e', w) =
              wait_loop-HasWaited inner (suc k) (round_ends s t) (a ∷ ids) fuel (omega arith)
                (HasRun-IsReady s t (a ∷ ids) ready ran alive) in
            (
              o,
              s',
              next ∙ e',
              later-HasWaited s (round_ends s t) (a ∷ ids) o s' (λ q. cc) ran.touched.outcomes w,
            ))
      | inr one ↦
          (let (o, s', e', w) = one_ended inner s t (a ∷ ids) fuel ready ran one k in
            (o, s', next ∙ e', w))
    ]

-- The list is linked and none of its coroutines has ended. `coro_sched_wait` then ends, on more
-- fuel than there are coroutines, and at least two more than the times that they still give way. It
-- returns NULL only where the list is empty. Else it takes a coroutine out of the list and returns
-- it: its function has returned, its status is what the function returns, the others are left in
-- the list, in their order, none of them has ended, and what they return in the end has not
-- changed.
pub coro_sched_wait-HasWaited :
    (fuel : ℕ) (s : State) (ids : List ℕ)
    → IsReady s ids
    → length ids < fuel
    → all_turns s.heap ids + 1 < fuel
    → (o : Option ℕ) × (s' : State) × (coro_sched_wait fuel s ≡ some (o, s')) × HasWaited s ids o s'
unfolding coro_sched_wait
coro_sched_wait-HasWaited fuel s ids ready h₁ h₂ = wait_loop-HasWaited fuel fuel s ids h₁ h₂ ready
