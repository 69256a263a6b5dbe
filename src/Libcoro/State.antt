-- ===== src/Libcoro/State.antt =====
-- lecture_examples/4_signals/12_libcoro.c: coroutines, the list of them, and the list's operations.
--
-- A coroutine has a number for its address, which is never used twice; `none` is NULL. Following
-- NULL or the address of a coroutine that was deleted is `none`, as is running out of fuel.
use sysproghw.Base.{ℕ, Bool, Option, none, some, bind, ◌==◌, if◌then◌else◌}
use sysproghw.Base.Int.{ℤ}

-- What a coroutine's function has still to do: it gives way with `coro_yield`, and returns. This is what
-- a context stands for. A function that creates coroutines itself is not covered.
pub data Work : Type 0 where
  returns : ℤ → Work
  yields : Work → Work

-- `struct coro`; `func` stands for the function and its argument, and `ctx` for the context on the
-- coroutine's stack.
pub record Coro : Type 0 where
  pub ret : ℤ
  pub func : Work
  pub ctx : Work
  pub is_finished : Bool
  pub next : Option ℕ
  pub prev : Option ℕ

-- `coro_this_ptr`: NULL, `&coro_sched` or a coroutine.
pub data Who : Type 0 where
  nobody : Who
  coro_sched : Who
  coro : ℕ → Who

abbrev pub Heap : Type 0
Heap = ℕ → Option Coro

pub record State : Type 0 where
  pub heap : Heap
  pub coro_list : Option ℕ
  pub coro_this_ptr : Who
  pub is_sched_waiting : Bool

abbrev pub put : ℕ → Option Coro → Heap → Heap
put a c h b = if b == a then c else h b

-- `p->next = n` and `n->prev = p`, where the pointer is not NULL.
abbrev pub set_next : Option ℕ → Option ℕ → Heap → Option Heap
set_next none n h = some h
set_next (some p) n h = bind (h p) (λ c. some (put p (some (record c { next = n })) h))

abbrev pub set_prev : Option ℕ → Option ℕ → Heap → Option Heap
set_prev none p h = some h
set_prev (some n) p h = bind (h n) (λ c. some (put n (some (record c { prev = p })) h))

unfoldable pub coro_list_add : ℕ → State → Option State
coro_list_add a s = bind (s.heap a) (λ c.
    bind
      (set_prev s.coro_list (some a)
        (put a (some (record c { next = s.coro_list; prev = none })) s.heap))
      (λ h. some (record s { heap = h; coro_list = some a })))

-- `if (prev == NULL) coro_list = next;`
abbrev pub head_after : Option ℕ → Option ℕ → Option ℕ → Option ℕ
head_after none next head = next
head_after (some p) next head = head

unfoldable pub coro_list_delete : ℕ → State → Option State
coro_list_delete a s = bind (s.heap a) (λ c. bind (set_next c.prev c.next s.heap) (λ h₁.
    bind (set_prev c.next c.prev h₁)
      (λ h₂. some (record s { heap = h₂; coro_list = head_after c.prev c.next s.coro_list }))))
