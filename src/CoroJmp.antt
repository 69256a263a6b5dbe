-- ===== src/CoroJmp.antt =====
-- 1/coro_jmp.h: coroutines that jump to each other and back from their calls.
--
-- A point of execution, as `setjmp` remembers it, is a number. Reads and writes out of bounds are `none`.
pub mod Stack
pub mod Turns
pub mod Views
mod Tests
use sysproghw.Base.{
  ℕ, zero, suc, ◌+◌, ◌-◌, ◌*◌, ◌%◌, Bool, true, false, List, [], ◌∷◌, ◌++◌, Option, none, some,
  bind, get_elem?, set, replicate, ltb, if◌then◌else◌,
}

-- `struct coro`
pub record Coro : Type 0 where
  pub exec_point : ℕ
  pub ret_points : List ℕ
  pub ret_count : ℕ
  pub ret_capacity : ℕ
  pub is_finished : Bool

abbrev pub coro_count : ℕ
coro_count = 3

-- The array of coroutines, and the index of the one that works.
pub record Coros (A : Type 0) : Type 0 where
  pub coros : List A
  pub curr_coro_i : ℕ

-- `coro_init`, at the point `here`.
abbrev pub coro_init : ℕ → Coro
coro_init here = record {
  exec_point = here;
  ret_points = [];
  ret_count = 0;
  ret_capacity = 0;
  is_finished = false;
}

-- `if (c->ret_count + 1 > c->ret_capacity)`; `junk` is what `realloc` leaves in the new cells.
unfoldable pub grow : ℕ → Coro → Coro
grow junk c =
    let new_cap = (c.ret_capacity + 1) * 2 in
    if ltb c.ret_capacity (c.ret_count + 1)
    then record c {
      ret_points = c.ret_points ++ replicate (new_cap - c.ret_capacity) junk;
      ret_capacity = new_cap;
    }
    else c

-- `coro_call`, from the point `here`.
unfoldable pub coro_call : ℕ → ℕ → Coro → Option Coro
coro_call junk here c =
    let g = grow junk c in
    bind (get_elem? g.ret_points g.ret_count) (λ _.
      some
        (record g { ret_points = set g.ret_points g.ret_count here; ret_count = g.ret_count + 1 }))

-- `coro_return`: the point that it jumps to.
unfoldable pub coro_return : Coro → Option (ℕ × Coro)
coro_return c = elim c.ret_count [
  | zero ↦ none
  | suc n ↦ bind (get_elem? c.ret_points n) (λ point. some (point, record c { ret_count = n }))
]

abbrev pub coro_finish : Coro → Coro
coro_finish c = record c { is_finished = true }

-- What is done to `coro_this()`.
abbrev pub at_this :
    {A : Type 0} → (A → Option (Option ℕ × A)) → Coros A → Option (Option ℕ × Coros A)
at_this f s =
    bind (get_elem? s.coros s.curr_coro_i)
      (λ c. bind (f c) (λ o. some (o.0, record s { coros = set s.coros s.curr_coro_i o.1 })))

-- `coro_yield`, from the point `here`: the point of the next coroutine that it jumps to.
unfoldable pub coro_yield : ℕ → Coros Coro → Option (Option ℕ × Coros Coro)
coro_yield here s = bind (at_this (λ c. some (none, record c { exec_point = here })) s) (λ o.
    let next = (s.curr_coro_i + 1) % coro_count in
    bind (get_elem? o.1.coros next)
      (λ c. some (some c.exec_point, record o.1 { curr_coro_i = next })))

-- The loop of `coro_wait_all` over the coroutines.
abbrev pub is_all_finished : List Coro → Bool
is_all_finished [] = true
is_all_finished (c ∷ cs) = if c.is_finished then is_all_finished cs else false

-- A round of `coro_wait_all`; without a jump, it is over.
unfoldable pub coro_wait_all : ℕ → Coros Coro → Option (Option ℕ × Coros Coro)
coro_wait_all here s = if is_all_finished s.coros then some (none, s) else coro_yield here s

-- What the working coroutine does.
pub data Op : Type 0 where
  call : ℕ → Op
  return : Op
  yield : ℕ → Op
  finish : Op
  wait_all : ℕ → Op

unfoldable pub do_op : ℕ → Op → Coros Coro → Option (Option ℕ × Coros Coro)
do_op junk (call here) s = at_this (λ c. bind (coro_call junk here c) (λ c'. some (none, c'))) s
do_op junk return s = at_this (λ c. bind (coro_return c) (λ o. some (some o.0, o.1))) s
do_op junk (yield here) s = coro_yield here s
do_op junk finish s = at_this (λ c. some (none, coro_finish c)) s
do_op junk (wait_all here) s = coro_wait_all here s

-- The points that a sequence of operations jumps to.
unfoldable pub do_ops : ℕ → List Op → Coros Coro → Option (List (Option ℕ))
do_ops junk [] s = some []
do_ops junk (op ∷ ops) s =
    bind (do_op junk op s) (λ o. bind (do_ops junk ops o.1) (λ l. some (o.0 ∷ l)))
