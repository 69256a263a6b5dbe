-- ===== src/Shell/Pipeline.antt =====
-- 2/shell.c: `check_pipe`, `split_pipeline`, the pipe descriptors and `execute_pipeline`.
--
-- The kernel is a parameter: what `pipe` and `fork` return, and the processes that `wait` reports.
-- Descriptors and process ids are numbers; -1 in `fd` is `none`. `pipe` and `fork` do not fail, and `pipe`
-- returns neither 0 nor 1: the shell has these open, so a `dup2` never hits an end of a pipe.
pub mod Forking
pub mod Plumbing
pub mod Waiting
use sysproghw.Base.{
  ℕ, zero, suc, ◌+◌, ◌-◌, Bool, true, false, not, ◌&&◌, List, [], ◌∷◌, ◌++◌, Option, none, some,
  ◌==◌, if◌then◌else◌, bind, length,
}
use sysproghw.Base.Int.{ℤ, pos, negsuc}
use sysproghw.Shell.Token.{Token, word_eq, is_first}

pub data PipeOp : Type 0 where
  pipe_empty pipe_last pipe_default : PipeOp

abbrev pub is_pipe_empty : PipeOp → Bool
is_pipe_empty pipe_empty = true
is_pipe_empty _ = false

abbrev pub is_pipe_last : PipeOp → Bool
is_pipe_last pipe_last = true
is_pipe_last _ = false

unfoldable pub check_pipe : Token → Bool
unfolding word_eq
check_pipe p = word_eq p.word (b'|' ∷ []) && is_first p.spec

abbrev pub Split : Type 0
Split = PipeOp × List Token × List Token

abbrev pub behind : Token → Split → Split
behind t (op, front, tail) = (op, t ∷ front, tail)

unfoldable pub split_pipeline : List Token → Split
unfolding check_pipe
split_pipeline [] = (pipe_empty, [], [])
split_pipeline (t ∷ []) = (pipe_last, t ∷ [], [])
split_pipeline (t ∷ u ∷ r) =
    let rest = split_pipeline (u ∷ r) in
    if check_pipe u then (pipe_default, t ∷ [], r) else behind t rest

-- `int fd[4]`: the ends of the pipe before a process, and of the pipe behind it.
pub record Ends : Type 0 where
  pub fd_0 : Option ℕ
  pub fd_1 : Option ℕ
  pub fd_2 : Option ℕ
  pub fd_3 : Option ℕ

abbrev pub no_ends : Ends
no_ends = record { fd_0 = none; fd_1 = none; fd_2 = none; fd_3 = none }

-- A descriptor in a list of those to close, unless it is -1.
abbrev pub with_fd : Option ℕ → List ℕ → List ℕ
with_fd none l = l
with_fd (some d) l = d ∷ l

-- A child: its tokens, what became its descriptors 0 and 1 (`none`: those of the shell), and the
-- descriptors that it closed, in order.
pub record Child : Type 0 where
  pub command : List Token
  pub stdin : Option ℕ
  pub stdout : Option ℕ
  pub closed : List ℕ

-- `dup_pipe`: the two `dup2` calls, and the `close` calls behind them.
unfoldable pub dup_pipe : Ends → Option ℕ × Option ℕ × List ℕ
dup_pipe fd = (fd.fd_0, fd.fd_3, with_fd fd.fd_0 (with_fd fd.fd_3 []))

unfoldable pub close_pipe_fork : Ends → List ℕ
close_pipe_fork fd = with_fd fd.fd_1 (with_fd fd.fd_2 [])

-- The child's side of `fork`, up to `open_files`.
unfoldable pub child_of : Ends → List Token → Child
unfolding dup_pipe close_pipe_fork
child_of fd p =
    let (input, output, closed) = dup_pipe fd in
    record { command = p; stdin = input; stdout = output; closed = closed ++ close_pipe_fork fd }

-- The descriptors that the shell closes, and `fd` afterwards.
unfoldable pub prepare_fd : Ends → List ℕ × Ends
prepare_fd fd = (
  with_fd fd.fd_0 (with_fd fd.fd_1 []),
  record { fd_0 = fd.fd_2; fd_1 = fd.fd_3; fd_2 = none; fd_3 = none },
)

-- What the shell does in the loop, in order.
pub data Event : Type 0 where
  piped : ℕ → ℕ → Event
  forked : Child → Event
  closed : ℕ → Event

abbrev pub closings : List ℕ → List Event → List Event
closings [] es = es
closings (d ∷ ds) es = closed d ∷ closings ds es

-- The read and the write end that the n-th call of `pipe` returns.
abbrev pub Pipes : Type 0
Pipes = ℕ → ℕ × ℕ

-- `if(pipe_stat != PIPE_LAST) pipe(&(fd[2]));`
unfoldable pub make_pipe : PipeOp → ℕ × ℕ → Ends → List Event × Ends
make_pipe pipe_last (r, w) fd = ([], fd)
make_pipe _ (r, w) fd = (piped r w ∷ [], record fd { fd_2 = some r; fd_3 = some w })

-- What one round does before the rounds behind it: `fork`, and what the shell closes.
abbrev pub round : List Event → Child → List ℕ → List Event × ℕ → List Event × ℕ
round making child closing (es, count) = (making ++ (forked child ∷ closings closing es), count + 1)

-- The loop over the processes of the pipeline, on fuel; `n` counts the calls of `pipe`. The result is
-- what the shell did and `fork_counter`.
unfoldable pub fork_loop : Pipes → ℕ → ℕ → List Token → Ends → Option (List Event × ℕ)
fork_loop pipes zero n p fd = none
fork_loop pipes (suc k) n p fd =
    let (op, front, tail) = split_pipeline p in
    let (making, fd') = make_pipe op (pipes n) fd in
    let (closing, next) = prepare_fd fd' in
    let rest = fork_loop pipes k (if is_pipe_last op then n else n + 1) tail next in
    if is_pipe_empty op
    then some ([], 0)
    else bind rest (λ r. some (round making (child_of fd' front) closing r))

-- A process that `wait` reports: its id, and its exit code, or `none` if a signal killed it.
abbrev pub Waited : Type 0
Waited = ℕ × Option ℤ

abbrev pub exit_status : Option ℤ → ℤ
exit_status none = pos 1
exit_status (some e) = e

-- `for(i = 0; i < fork_counter; i++) if(wait(&s) == last_pid) …`, over the processes reported.
unfoldable pub wait_loop : ℕ → ℕ → List Waited → ℤ → ℤ
wait_loop zero last_pid ws code = code
wait_loop (suc i) last_pid [] code = code
wait_loop (suc i) last_pid ((pid, status) ∷ ws) code =
    wait_loop i last_pid ws (if pid == last_pid then exit_status status else code)

-- `pids i` is what the i-th `fork` returns, and `ws` the processes that `wait` reports. The result is
-- what the shell did up to the last `fork` and the close calls behind it, and the exit code.
unfoldable pub execute_pipeline :
    Pipes → (ℕ → ℕ) → List Waited → List Token → Option (List Event × ℤ)
execute_pipeline pipes pids ws p =
    bind (fork_loop pipes (length p + 1) 0 p no_ends)
      λ (es, count). some (es, wait_loop count (pids (count - 1)) ws (pos 1))
