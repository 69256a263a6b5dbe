-- ===== src/Libcoro/Running.antt =====
-- lecture_examples/4_signals/12_libcoro.c: the coroutines run one after the other until one ends or
-- all have given way.
use sysproghw.Base.{
  ℕ, zero, suc, ◌<◌, ◌≡◌, refl, ◌∙◌, sym, ap, inl, inr, ◌⊎◌, arith, Bool, true, false, not, List,
  [], ◌∷◌, Option, none, some, length,
}
use sysproghw.Base.Int.{ℤ}
use sysproghw.Libcoro.State.{Work, returns, yields, Coro, coro, Heap, State, put}
use sysproghw.Libcoro.Calls.{run, coro_body_end, coro_yield}
use sysproghw.Libcoro.Chain.{IsSegment, put_self}
use sysproghw.Libcoro.Chain.Distinct.{NotIn, IsDistinct}
use sysproghw.Libcoro.Chain.Links.{data_of}
use sysproghw.Libcoro.Heaps.{
  turns, alive_data, turns_data, is_alive, AllAlive, IsSegment-links, IsTouched, HasRun,
  put-AllAlive, all_turns-put, put-IsTouched,
}

run-returns :
    (k a : ℕ) (s : State) (c : Coro) (r : ℤ)
    → s.heap a ≡ some c
    → c.ctx ≡ returns r
    → s.is_sched_waiting ≡ true
    → run (suc k) a s
      ≡ some (record s {
        coro_this_ptr = coro a;
        heap = put a (some (record c { ret = r; is_finished = true })) s.heap;
      })
unfolding run coro_body_end
run-returns k a s c r e₁ e₂ e₃ = simp (run, e₁, e₂, e₃) refl

run-last :
    (k a : ℕ) (s : State) (c : Coro) (rest : Work)
    → s.heap a ≡ some c
    → c.ctx ≡ yields rest
    → c.next ≡ none
    → run (suc k) a s
      ≡ some (record s {
        coro_this_ptr = coro a;
        heap = put a (some (record c { ctx = rest })) s.heap;
      })
unfolding run coro_yield
run-last k a s c rest e₁ e₂ e₃ = simp (run, e₁, e₂, e₃) refl

run-next :
    (k a b : ℕ) (s : State) (c : Coro) (rest : Work)
    → s.heap a ≡ some c
    → c.ctx ≡ yields rest
    → c.next ≡ some b
    → run (suc k) a s
      ≡ run k b (record s {
        coro_this_ptr = coro a;
        heap = put a (some (record c { ctx = rest })) s.heap;
      })
unfolding run coro_yield
run-next k a b s c rest e₁ e₂ e₃ = simp (run, e₁, e₂, e₃) refl

IsTouched-next :
    (h h₁ h₂ : Heap) (a : ℕ) (ids : List ℕ)
    → IsTouched h h₁ (a ∷ [])
    → IsTouched h₁ h₂ ids
    → IsTouched h h₂ (a ∷ ids)
IsTouched-next h h₁ h₂ a ids t u = record {
  elsewhere = λ b n. u.elsewhere b n.1 ∙ t.elsewhere b (n.0, tt);
  links = λ b. u.links b ∙ t.links b;
  outcomes = λ b. u.outcomes b ∙ t.outcomes b;
}

-- What the function of a coroutine does next.
ctx_cases : (w : Work) → ((r : ℤ) × (w ≡ returns r)) ⊎ ((rest : Work) × (w ≡ yields rest))
ctx_cases (returns r) = inl (r, refl)
ctx_cases (yields w) = inr (w, refl)

module _ (s : State) (a : ℕ) (c : Coro) (at : s.heap a ≡ some c) (up : c.is_finished ≡ false)
    (ids : List ℕ) (fresh : NotIn a ids) (others : AllAlive s.heap ids) where
  -- The coroutine returns.
  ended-HasRun :
      (r : ℤ)
      → c.ctx ≡ returns r
      → HasRun s
          (record s {
            coro_this_ptr = coro a;
            heap = put a (some (record c { ret = r; is_finished = true })) s.heap;
          })
          (a ∷ ids)
  ended-HasRun r e =
      let c' : Coro = record c { ret = r; is_finished = true } in
      record {
        touched = put-IsTouched s.heap a c c' ids at refl (rw (up, e) refl);
        head = refl;
        waiting = refl;
        progress = inr (record {
          before = [];
          here = a;
          behind = ids;
          split = refl;
          alive_before = tt;
          node = c';
          at = put_self a (some c') s.heap;
          ended = refl;
          alive_behind = put-AllAlive s.heap a (some c') ids fresh others;
        });
      }

  -- The coroutine gives way, and then the others run.
  module _ (rest : Work) (e : c.ctx ≡ yields rest) where
    abbrev given_way : State
    given_way = record s {
      coro_this_ptr = coro a;
      heap = put a (some (record c { ctx = rest })) s.heap;
    }

    given_way-IsTouched : IsTouched s.heap given_way.heap (a ∷ [])
    given_way-IsTouched =
        put-IsTouched s.heap a c (record c { ctx = rest }) [] at refl (rw (up, e) refl)

    here_before : turns_data (data_of (s.heap a)) ≡ suc (turns rest)
    here_before = ap (λ o. turns_data (data_of o)) at ∙ ap turns e

    -- In a heap where `a` is as it gave way.
    module _ (h : Heap) (kept : h a ≡ given_way.heap a) where
      here : h a ≡ some (record c { ctx = rest })
      here = kept ∙ put_self a (some (record c { ctx = rest })) s.heap

      here_alive : is_alive h a ≡ true
      here_alive = ap (λ o. alive_data (data_of o)) here ∙ ap not up

      here_turns : turns_data (data_of (h a)) ≡ turns rest
      here_turns = ap (λ o. turns_data (data_of o)) here

    last-HasRun : HasRun s given_way (a ∷ [])
    last-HasRun = record {
      touched = given_way-IsTouched;
      head = refl;
      waiting = refl;
      progress = inl (
        (here_alive given_way.heap refl, tt),
        omega (arith, here_before, here_turns given_way.heap refl),
      );
    }

    next-HasRun : (s' : State) → HasRun given_way s' ids → HasRun s s' (a ∷ ids)
    next-HasRun s' r =
        let kept = r.touched.elsewhere a fresh in
        record {
          touched =
              IsTouched-next s.heap given_way.heap s'.heap a ids given_way-IsTouched r.touched;
          head = r.head;
          waiting = r.waiting;
          progress = elim r.progress [
            | inl (alive, less) ↦ inl (
              (here_alive s'.heap kept, alive),
              omega (
                arith,
                here_before,
                here_turns s'.heap kept,
                all_turns-put s.heap a (some (record c { ctx = rest })) ids fresh,
              ),
            )
            | inr one ↦ inr (record {
              before = a ∷ one.before;
              here = one.here;
              behind = one.behind;
              split = ap (λ l. a ∷ l) one.split;
              alive_before = (here_alive s'.heap kept, one.alive_before);
              node = one.node;
              at = one.at;
              ended = one.ended;
              alive_behind = one.alive_behind;
            })
          ];
        }

pub not_finished :
    (h : Heap) (a : ℕ) (c : Coro) → h a ≡ some c → is_alive h a ≡ true → c.is_finished ≡ false
not_finished h a c at alive = down c.is_finished (sym (ap (λ o. alive_data (data_of o)) at) ∙ alive)
  where
    down : (b : Bool) → not b ≡ true → b ≡ false
    down true e = cc
    down false e = refl

-- The coroutines of the list run from `a` on: the scheduler is back once one of them has returned or the
-- last one has given way.
pub run-HasRun :
    (k a : ℕ) (ids : List ℕ) (s : State) (prev cur : Option ℕ)
    → length ids < k
    → IsSegment s.heap prev cur (a ∷ ids) none
    → IsDistinct (a ∷ ids)
    → AllAlive s.heap (a ∷ ids)
    → s.is_sched_waiting ≡ true
    → (s' : State) × (run k a s ≡ some s') × HasRun s s' (a ∷ ids)
run-HasRun zero a ids s prev cur fuel seg d alive w = absurd (omega arith)
run-HasRun (suc k) a [] s prev cur fuel (e, c, at, back, seg) (fresh, d) (alive, others) w =
    let up = not_finished s.heap a c at alive in
    elim (ctx_cases c.ctx) [
      | inl (r, e₁) ↦
          (_, run-returns k a s c r at e₁ w, ended-HasRun s a c at up [] fresh others r e₁)
      | inr (rest, e₁) ↦
          (_, run-last k a s c rest at e₁ seg, last-HasRun s a c at up [] fresh others rest e₁)
    ]
run-HasRun (suc k) a (b ∷ ids) s prev cur fuel (e, c, at, back, seg) (fresh, d) (alive, others) w =
    let up = not_finished s.heap a c at alive in
    elim (ctx_cases c.ctx) [
      | inl (r, e₁) ↦
          (_, run-returns k a s c r at e₁ w, ended-HasRun s a c at up (b ∷ ids) fresh others r e₁)
      | inr (rest, e₁) ↦
          (let s₁ = given_way s a c at up (b ∷ ids) fresh others rest e₁ in
            let t = given_way-IsTouched s a c at up (b ∷ ids) fresh others rest e₁ in
            let seg₁ = IsSegment-links s.heap s₁.heap (some a) c.next (b ∷ ids) none t.links seg in
            let others₁ =
              put-AllAlive s.heap a (some (record c { ctx = rest })) (b ∷ ids) fresh others in
            let (s', e₂, ran) =
              run-HasRun k b ids s₁ (some a) c.next (omega arith) seg₁ d others₁ w in
            (
              s',
              run-next k a b s c rest at e₁ seg.0 ∙ e₂,
              next-HasRun s a c at up (b ∷ ids) fresh others rest e₁ s' ran,
            ))
    ]
