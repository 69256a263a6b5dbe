-- ===== src/Libcoro/Creation.antt =====
-- lecture_examples/4_signals/12_libcoro.c: `coro_new` and the first half of `coro_body`.
--
-- The calls of the kernel do not fail. `sigsuspend` with an empty mask hands a pending signal to
-- its handler.
pub mod Restoring
use sysproghw.Base.{ℕ, Bool, true, false, Option, none, some, bind, if◌then◌else◌, ◌==◌}
use sysproghw.Base.Int.{pos}
use sysproghw.Libcoro.State.{Work, Coro, Who, nobody, coro_sched, coro, State, put, coro_list_add}

pub data Handler : Type 0 where
  coro_body : Handler
  other_handler : ℕ → Handler

-- `stack_t`: disabled, or a stack at an address.
pub data AltStack : Type 0 where
  disabled : AltStack
  enabled : ℕ → AltStack

-- What the kernel keeps for the process: which signals are blocked, the handler of SIGUSR2 and whether
-- that signal is pending, and the stack that handlers run on.
pub record Signals : Type 0 where
  pub blocked : ℕ → Bool
  pub handler : Handler
  pub is_pending : Bool
  pub alt_stack : AltStack

pub record Process : Type 0 where
  pub signals : Signals
  pub state : State

abbrev pub sigusr2 : ℕ
sigusr2 = 12

-- `coro_body` up to `siglongjmp(start_point, 1)`: the context is that of a function not yet called.
unfoldable pub coro_body_start : State → Option State
coro_body_start s = elim s.coro_this_ptr [
  | nobody ↦ none
  | coro_sched ↦ none
  | coro a ↦ bind (s.heap a) (λ c.
      some (record s {
        coro_this_ptr = nobody;
        heap = put a (some (record c { ctx = c.func })) s.heap;
      }))
]

-- `sigsuspend(&suss)`, which ends in the jump to `start_point`; that sets the blocked signals as
-- they were there.
unfoldable pub suspend : Process → Option Process
suspend p =
    if p.signals.is_pending
    then elim p.signals.handler [
      | coro_body ↦
          bind (coro_body_start p.state)
            (λ s. some (record { signals = record p.signals { is_pending = false }; state = s }))
      | other_handler n ↦ none
    ]
    else none

-- `while (coro_this_ptr != NULL) sigsuspend(&suss);`, whose body is left by the first jump.
unfoldable pub start_context : Process → Option Process
start_context p = elim p.state.coro_this_ptr [
  | nobody ↦ some p
  | coro_sched ↦ suspend p
  | coro a ↦ suspend p
]

-- `if ((oldst.ss_flags & SS_DISABLE) == 0) sigaltstack(&oldst, NULL)`
abbrev pub roll_back : AltStack → AltStack → AltStack
roll_back disabled now = now
roll_back (enabled n) now = enabled n

-- `coro_new`; `malloc` has returned `a` for the coroutine, which holds `junk`, and `stack` for its stack.
unfoldable pub coro_new : ℕ → Coro → ℕ → Work → Process → Option (ℕ × Process)
coro_new a junk stack func p =
    let c = record junk { ret = pos 0; func = func; is_finished = false } in
    let olds = p.signals.blocked in
    let oldsa = p.signals.handler in
    let oldst = p.signals.alt_stack in
    let old_this = p.state.coro_this_ptr in
    let signals : Signals = record {
      blocked = λ n. if n == sigusr2 then true else olds n;
      handler = coro_body;
      is_pending = true;
      alt_stack = enabled stack;
    } in
    bind
      (start_context (record {
        signals = signals;
        state = record p.state { heap = put a (some c) p.state.heap; coro_this_ptr = coro a };
      }))
      (λ q.
        let restored = record q.signals {
          alt_stack = roll_back oldst disabled;
          handler = oldsa;
          blocked = olds;
        } in
        bind (coro_list_add a (record q.state { coro_this_ptr = old_this }))
          (λ s. some (a, record { signals = restored; state = s })))
