-- ===== src/Libcoro/Tests.antt =====
-- lecture_examples/4_signals/12_libcoro.c: runs of the model.
use sysproghw.Base.{
  ℕ, ◌≡◌, ◌≢◌, refl, false, [], ◌∷◌, Option, none, some, ◌==◌, if◌then◌else◌, arith,
}
use sysproghw.Base.Int.{pos}
use sysproghw.Libcoro.State.{Work, returns, yields, Coro, coro_sched, State, coro_list_delete}
use sysproghw.Libcoro.Calls.{
  coro_sched_wait, wait_loop, find_finished, coro_yield_to, run, coro_yield, coro_body_end,
}
use sysproghw.Libcoro.Chain.{IsList}
use sysproghw.Libcoro.Chain.Links.{IsRelinked, coro_list_delete-IsList}
use sysproghw.Libcoro.Heaps.{outcome}
use sysproghw.Libcoro.Waiting.{IsReady, HasWaited, coro_sched_wait-HasWaited}
use sysproghw.Libcoro.Creation.{other_handler, disabled, Process, coro_new}
use sysproghw.Libcoro.Creation.Restoring.{coro_new-IsReady}

-- Two coroutines in the list, the first of which gives way once.
abbrev node : Option ℕ → Option ℕ → Work → Coro
node next prev w = record {
  ret = pos 0;
  func = w;
  ctx = w;
  is_finished = false;
  next = next;
  prev = prev;
}

abbrev two : State
two = record {
  heap = λ a.
      if a == 5
      then some (node (some 4) none (yields (returns (pos 50))))
      else if a == 4
      then some (node none (some 5) (returns (pos 40)))
      else none;
  coro_list = some 5;
  coro_this_ptr = coro_sched;
  is_sched_waiting = false;
}

two-IsList : IsList two (5 ∷ 4 ∷ [])
two-IsList = (
  (
    refl,
    node (some 4) none (yields (returns (pos 50))),
    refl,
    refl,
    (refl, node none (some 5) (returns (pos 40)), refl, refl, refl),
  ),
  ((λ q. omega arith, tt), (tt, tt)),
)

two-IsReady : IsReady two (5 ∷ 4 ∷ [])
two-IsReady = record { listed = two-IsList; alive = (refl, (refl, tt)); scheduling = refl }

waited : Option (Option ℕ × State) → Option ℕ
waited none = none
waited (some (o, s)) = o

-- The second one returns first.
coro_sched_wait_run : waited (coro_sched_wait 4 two) ≡ some 4
unfolding waited coro_sched_wait wait_loop find_finished coro_yield_to run coro_yield coro_body_end
    coro_list_delete
coro_sched_wait_run = refl

coro_sched_wait-HasWaited_example :
    (o : Option ℕ) × (s' : State) × (coro_sched_wait 4 two ≡ some (o, s'))
    × HasWaited two (5 ∷ 4 ∷ []) o s'
coro_sched_wait-HasWaited_example =
    coro_sched_wait-HasWaited 4 two (5 ∷ 4 ∷ []) two-IsReady (omega arith) (omega arith)

coro_list_delete-IsList_example :
    (s' : State) × (coro_list_delete 4 two ≡ some s')
    × IsList s' (5 ∷ [])
    × IsRelinked two.heap s'.heap
    × (s'.coro_this_ptr ≡ coro_sched)
    × (s'.is_sched_waiting ≡ two.is_sched_waiting)
coro_list_delete-IsList_example = coro_list_delete-IsList two (5 ∷ []) 4 [] two-IsList

abbrev process : Process
process = record {
  signals = record {
    blocked = λ n. false;
    handler = other_handler 0;
    is_pending = false;
    alt_stack = disabled;
  };
  state = two;
}

coro_new-IsReady_example :
    (p' : Process) × (coro_new 6 (node none none (returns (pos 1))) 77 (returns (pos 60)) process
      ≡ some (6, p'))
    × (p'.signals ≡ process.signals)
    × IsReady p'.state (6 ∷ 5 ∷ 4 ∷ [])
    × (outcome p'.state.heap 6 ≡ some (pos 60))
    × ((b : ℕ) → 6 ≢ b → outcome p'.state.heap b ≡ outcome two.heap b)
coro_new-IsReady_example =
    coro_new-IsReady 6 (node none none (returns (pos 1))) 77 (returns (pos 60)) process (5 ∷ 4 ∷ [])
      two-IsReady (λ q. omega arith, (λ q. omega arith, tt)) refl
