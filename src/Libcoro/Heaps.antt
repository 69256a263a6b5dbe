-- ===== src/Libcoro/Heaps.antt =====
-- lecture_examples/4_signals/12_libcoro.c: what a heap says of coroutines, and what a run may
-- change of it.
use mathlib.Core.Path.{subst}
use sysproghw.Base.{
  ℕ, suc, ◌+◌, ◌<◌, ◌≡◌, refl, ◌∙◌, sym, ap, inl, inr, ◌⊎◌, ◌==◌, if◌then◌else◌, Bool-cases, arith,
  Bool, true, false, not, List, [], ◌∷◌, ◌++◌, Option, none, some,
}
use sysproghw.Base.Int.{ℤ}
use sysproghw.Libcoro.State.{Work, returns, yields, Coro, Heap, State, put}
use sysproghw.Libcoro.Chain.{IsSegment, put_ne}
use sysproghw.Libcoro.Chain.Distinct.{NotIn}
use sysproghw.Libcoro.Chain.Links.{data_of}

-- What the function returns in the end, and how often it gives way before.
abbrev pub final : Work → ℤ
final (returns r) = r
final (yields w) = final w

abbrev pub turns : Work → ℕ
turns (returns r) = 0
turns (yields w) = suc (turns w)

abbrev pub Data : Type 0
Data = Option (ℤ × Work × Work × Bool)

abbrev pub alive_data : Data → Bool
alive_data none = false
alive_data (some (_, _, _, f)) = not f

abbrev pub outcome_data : Data → Option ℤ
outcome_data none = none
outcome_data (some (r, _, w, f)) = some (if f then r else final w)

abbrev pub turns_data : Data → ℕ
turns_data none = 0
turns_data (some (_, _, w, _)) = turns w

-- A coroutine that is there and has not ended.
abbrev pub is_alive : Heap → ℕ → Bool
is_alive h a = alive_data (data_of (h a))

-- What a coroutine has returned or is going to return.
abbrev pub outcome : Heap → ℕ → Option ℤ
outcome h a = outcome_data (data_of (h a))

abbrev pub AllAlive : Heap → List ℕ → Type 0
AllAlive h [] = Unit
AllAlive h (a ∷ ids) = (is_alive h a ≡ true) × AllAlive h ids

abbrev pub all_turns : Heap → List ℕ → ℕ
all_turns h [] = 0
all_turns h (a ∷ ids) = turns_data (data_of (h a)) + all_turns h ids

abbrev links_of : Option Coro → Option (Option ℕ × Option ℕ)
links_of none = none
links_of (some c) = some (c.next, c.prev)

linked_node :
    (o : Option Coro) (n p : Option ℕ)
    → links_of o ≡ some (n, p)
    → (c : Coro) × (o ≡ some c) × (c.next ≡ n) × (c.prev ≡ p)
linked_node none n p e = cc
linked_node (some c) n p e =
    (c, refl, (let e' : c.next ≡ n = cc in e'), (let e' : c.prev ≡ p = cc in e'))

pub IsSegment-links :
    (h h' : Heap) (prev cur : Option ℕ) (ids : List ℕ) (out : Option ℕ)
    → ((b : ℕ) → links_of (h' b) ≡ links_of (h b))
    → IsSegment h prev cur ids out
    → IsSegment h' prev cur ids out
IsSegment-links h h' prev cur [] out same e = e
IsSegment-links h h' prev cur (a ∷ ids) out same (e, c, at, back, rest) =
    let (c', at', next, prev') = linked_node (h' a) c.next c.prev (same a ∙ ap links_of at) in
    (
      e,
      c',
      at',
      prev' ∙ back,
      subst (λ o. IsSegment h' (some a) o ids out) (sym next)
          (IsSegment-links h h' (some a) c.next ids out same rest),
    )

pub AllAlive-frame :
    (h h' : Heap) (ids : List ℕ)
    → ((b : ℕ) → data_of (h' b) ≡ data_of (h b))
    → AllAlive h ids
    → AllAlive h' ids
AllAlive-frame h h' [] same l = tt
AllAlive-frame h h' (a ∷ ids) same (e, l) =
    (ap alive_data (same a) ∙ e, AllAlive-frame h h' ids same l)

-- The heap has changed for the coroutines `ids` only: no links, and not what they return in the end.
pub record IsTouched (h h' : Heap) (ids : List ℕ) : Type 0 where
  pub elsewhere : (b : ℕ) → NotIn b ids → h' b ≡ h b
  pub links : (b : ℕ) → links_of (h' b) ≡ links_of (h b)
  pub outcomes : (b : ℕ) → outcome h' b ≡ outcome h b

-- A coroutine of `ids` has ended, and no other one.
pub record OneEnded (h : Heap) (ids : List ℕ) : Type 0 where
  pub before : List ℕ
  pub here : ℕ
  pub behind : List ℕ
  pub split : ids ≡ before ++ here ∷ behind
  pub alive_before : AllAlive h before
  pub node : Coro
  pub at : h here ≡ some node
  pub ended : node.is_finished ≡ true
  pub alive_behind : AllAlive h behind

-- The state after the coroutines `ids` have run.
pub record HasRun (s s' : State) (ids : List ℕ) : Type 0 where
  pub touched : IsTouched s.heap s'.heap ids
  pub head : s'.coro_list ≡ s.coro_list
  pub waiting : s'.is_sched_waiting ≡ s.is_sched_waiting
  pub progress :
      (AllAlive s'.heap ids × (all_turns s'.heap ids < all_turns s.heap ids)) ⊎ OneEnded s'.heap ids

-- A write to a coroutine that is not among them.
pub put-AllAlive :
    (h : Heap) (a : ℕ) (c : Option Coro) (ids : List ℕ)
    → NotIn a ids
    → AllAlive h ids
    → AllAlive (put a c h) ids
put-AllAlive h a c [] n l = tt
put-AllAlive h a c (b ∷ ids) (ne, n) (e, l) =
    (ap (λ o. alive_data (data_of o)) (put_ne a b c h ne) ∙ e, put-AllAlive h a c ids n l)

pub all_turns-put :
    (h : Heap) (a : ℕ) (c : Option Coro) (ids : List ℕ)
    → NotIn a ids
    → all_turns (put a c h) ids ≡ all_turns h ids
all_turns-put h a c [] n = refl
all_turns-put h a c (b ∷ ids) (ne, n) =
    let first = ap (λ o. turns_data (data_of o)) (put_ne a b c h ne) in
    let others = all_turns-put h a c ids n in omega arith

-- A coroutine keeps its links and what it returns in the end.
pub put-IsTouched :
    (h : Heap) (a : ℕ) (c c' : Coro) (ids : List ℕ)
    → h a ≡ some c
    → links_of (some c') ≡ links_of (some c)
    → outcome_data (data_of (some c')) ≡ outcome_data (data_of (some c))
    → IsTouched h (put a (some c') h) (a ∷ ids)
put-IsTouched h a c c' ids at e₁ e₂ = record {
  elsewhere = λ b n. put_ne a b (some c') h (λ q. n.0 (sym q));
  links = λ b. elim (Bool-cases (b == a)) [
    | inl same ↦
        (let same' : b ≡ a = ground arith in
          rw same (e₁ ∙ ap links_of (sym at) ∙ ap (λ d. links_of (h d)) (sym same')))
    | inr other ↦ rw other refl
  ];
  outcomes = λ b. elim (Bool-cases (b == a)) [
    | inl same ↦
        (let same' : b ≡ a = ground arith in
          rw same (e₂ ∙ ap (λ o. outcome_data (data_of o)) (sym at) ∙ ap (outcome h) (sym same')))
    | inr other ↦ rw other refl
  ];
}
