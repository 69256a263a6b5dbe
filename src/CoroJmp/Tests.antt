-- ===== src/CoroJmp/Tests.antt =====
-- 1/coro_jmp.h: runs of the model.
use sysproghw.Base.{◌≡◌, refl, List, [], ◌∷◌, none, some}
use sysproghw.CoroJmp.{
  Coro, Coros, coro_init, grow, coro_call, coro_return, coro_yield, coro_wait_all, Op, call, return,
  yield, wait_all, do_op, do_ops,
}

abbrev three : Coros Coro
three = record { coros = coro_init 10 ∷ coro_init 20 ∷ coro_init 30 ∷ []; curr_coro_i = 0 }

-- Two nested calls of the first coroutine, in the second of which all give way once.
abbrev program : List Op
program = call 11 ∷ call 12 ∷ yield 13 ∷ yield 21 ∷ wait_all 31 ∷ return ∷ return ∷ []

do_ops_run :
    do_ops 0 program three
    ≡ some (none ∷ none ∷ some 20 ∷ some 30 ∷ some 13 ∷ some 12 ∷ some 11 ∷ [])
unfolding do_ops do_op coro_call grow coro_return coro_yield coro_wait_all
do_ops_run = refl
