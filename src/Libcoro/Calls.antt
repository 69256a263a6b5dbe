-- ===== src/Libcoro/Calls.antt =====
-- lecture_examples/4_signals/12_libcoro.c: how coroutines give way, and how the scheduler waits for
-- one that ends.
use sysproghw.Base.{ℕ, zero, suc, Bool, true, false, Option, none, some, bind, if◌then◌else◌}
use sysproghw.Base.Int.{ℤ}
use sysproghw.Libcoro.State.{
  Work, returns, yields, Coro, Who, nobody, coro_sched, coro, State, put, coro_list_delete,
}

abbrev pub coro_status : Coro → ℤ
coro_status c = c.ret

abbrev pub coro_is_finished : Coro → Bool
coro_is_finished c = c.is_finished

-- Without the library's own memory of it, a coroutine is not there any more.
unfoldable pub coro_delete : ℕ → State → State
coro_delete a s = record s { heap = put a none s.heap }

abbrev pub coro_this : State → Who
coro_this s = s.coro_this_ptr

unfoldable pub coro_sched_init : State → State
coro_sched_init s = record s { coro_this_ptr = coro_sched }

-- `coro_yield`, from `a` on: its context is kept, and the next coroutine or the scheduler goes on.
unfoldable pub coro_yield : ℕ → Coro → Work → State → Who × State
coro_yield a c rest s = (
  elim c.next [ none ↦ coro_sched | some b ↦ coro b ],
  record s { heap = put a (some (record c { ctx = rest })) s.heap },
)

-- The end of `coro_body`. `none` is the critical error that ends the program.
unfoldable pub coro_body_end : ℕ → Coro → ℤ → State → Option State
coro_body_end a c ret s =
    if s.is_sched_waiting
    then some (record s { heap = put a (some (record c { ret = ret; is_finished = true })) s.heap })
    else none

-- `siglongjmp` to a coroutine: what runs until the scheduler is back, on fuel. The one that goes on
-- sets `coro_this_ptr` to itself.
unfoldable pub run : ℕ → ℕ → State → Option State
run zero a s = none
run (suc k) a s = bind (s.heap a) (λ c.
    let now = record s { coro_this_ptr = coro a } in
    elim c.ctx [
      | returns r ↦ coro_body_end a c r now
      | yields rest ↦
          (let o = coro_yield a c rest now in
            elim o.0 [ nobody ↦ none | coro_sched ↦ some o.1 | coro b ↦ run k b o.1 ])
    ])

-- `coro_yield_to(to)` of the scheduler.
unfoldable pub coro_yield_to : ℕ → ℕ → State → Option State
coro_yield_to k to s =
    bind (run k to s) (λ s'. some (record s' { coro_this_ptr = s.coro_this_ptr }))

-- The inner loop: the first coroutine of the list that has ended, on fuel.
unfoldable pub find_finished : ℕ → Option ℕ → State → Option (Option ℕ)
find_finished k none s = some none
find_finished zero (some a) s = none
find_finished (suc k) (some a) s =
    bind (s.heap a)
      (λ c. elim c.is_finished [ true ↦ some (some a) | false ↦ find_finished k c.next s ])

-- The outer loop, on fuel, which is also that of the inner loop and of a run.
unfoldable pub wait_loop : ℕ → ℕ → State → Option (Option ℕ × State)
wait_loop inner zero s = none
wait_loop inner (suc k) s = elim s.coro_list [
  | none ↦ some (none, s)
  | some head ↦ bind (find_finished inner (some head) s) (λ found. elim found [
    | some a ↦ bind (coro_list_delete a s) (λ s'. some (some a, s'))
    | none ↦
        bind (coro_yield_to inner head (record s { is_sched_waiting = true }))
          (λ s'. wait_loop inner k (record s' { is_sched_waiting = false }))
  ])
]

unfoldable pub coro_sched_wait : ℕ → State → Option (Option ℕ × State)
coro_sched_wait fuel s = wait_loop fuel fuel s
