-- ===== src/CoroJmp/Views.antt =====
-- 1/coro_jmp.h: coroutines with stacks of calls that take turns.
use mathlib.Core.List.{map}
use sysproghw.Base.{
  ℕ, ◌+◌, ◌%◌, ◌≡◌, Bool, true, false, List, [], ◌∷◌, Option, none, some, bind, get_elem?,
  if◌then◌else◌,
}
use sysproghw.CoroJmp.{Coro, coro_count, Coros, Op, call, return, yield, finish, wait_all}
use sysproghw.CoroJmp.Turns.{in_turn}
use sysproghw.CoroJmp.Stack.{View, view, IsValid, push, pop, Matches}

abbrev pub AllValid : List Coro → Type 0
AllValid [] = Unit
AllValid (c ∷ cs) = IsValid c × AllValid cs

abbrev pub shown : Coros Coro → Coros View
shown s = record { coros = map view s.coros; curr_coro_i = s.curr_coro_i }

abbrev is_all_done : List View → Bool
is_all_done [] = true
is_all_done (v ∷ vs) = if v.done then is_all_done vs else false

abbrev yield_view : ℕ → Coros View → Option (Option ℕ × Coros View)
yield_view here s = bind (in_turn (λ v. some (none, record v { point = here })) s) (λ o.
    let next = (s.curr_coro_i + 1) % coro_count in
    bind (get_elem? o.1.coros next) (λ v. some (some v.point, record o.1 { curr_coro_i = next })))

-- The operations, as the user of the library thinks of them: a call is pushed on the coroutine's
-- stack and popped by its return, and the coroutines take turns.
abbrev pub view_op : Op → Coros View → Option (Option ℕ × Coros View)
view_op (call here) s = in_turn (λ v. some (none, push here v)) s
view_op return s = in_turn pop s
view_op (yield here) s = yield_view here s
view_op finish s = in_turn (λ v. some (none, record v { done = true })) s
view_op (wait_all here) s = if is_all_done s.coros then some (none, s) else yield_view here s

abbrev pub view_ops : List Op → Coros View → Option (List (Option ℕ))
view_ops [] s = some []
view_ops (op ∷ ops) s = bind (view_op op s) (λ o. bind (view_ops ops o.1) (λ l. some (o.0 ∷ l)))

abbrev MatchesAll : Option (Option ℕ × Coros Coro) → Option (Option ℕ × Coros View) → Type 0
MatchesAll none none = Unit
MatchesAll none (some _) = ⊥
MatchesAll (some _) none = ⊥
MatchesAll (some (o, s)) (some (o', v)) = (o ≡ o') × AllValid s.coros × (shown s ≡ v)

-- What matches for each coroutine matches for the one that works.
module _ (f : Coro → Option (Option ℕ × Coro)) (g : View → Option (Option ℕ × View))
    (cs : List Coro) (i : ℕ) (valid : AllValid cs)
    (matches : (c : Coro) → IsValid c → Matches (f c) (g (view c))) where
  abbrev here : Coros Coro
  here = record { coros = cs; curr_coro_i = i }
