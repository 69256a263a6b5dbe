-- ===== src/Shell/Pipeline/Plumbing.antt =====
-- 2/shell.c: how `execute_pipeline` connects the processes of a pipeline, and which descriptors stay
-- open.
use sysproghw.Base.{
  ℕ, suc, ◌+◌, ◌-◌, ◌<◌, ◌≡◌, ap, List, [], ◌∷◌, ◌++◌, Option, none, some, arith, length,
  length-append,
}
use sysproghw.Base.Int.{ℤ, pos}
use sysproghw.Shell.Pipeline.Waiting.{IsAbsent, wait_loop_last}
use sysproghw.Shell.Token.{Token}
use sysproghw.Shell.Pipeline.{Event, Pipes, Waited, exit_status, wait_loop, execute_pipeline}
use sysproghw.Shell.Pipeline.Forking.{
  bar, pipe_tokens, IsCommand, AreCommands, wires, wires_of, IsTidy, fork_loop-IsPlumbed,
}

length-pipe_tokens :
    (c : List Token) (cs : List (List Token))
    → IsCommand c
    → AreCommands cs
    → length cs < length (pipe_tokens c cs)
length-pipe_tokens [] cs h hs = absurd h
length-pipe_tokens (t ∷ c) [] h hs = omega arith
length-pipe_tokens (t ∷ c) (d ∷ ds) h hs =
    omega (arith, length-append c (bar ∷ pipe_tokens d ds), length-pipe_tokens d ds hs.0 hs.1)

-- `execute_pipeline` on commands joined by `|`, each with at least one token and with no `|` behind its
-- first token, ends: the shell forks one child for each command, in order; the input of a child is
-- the read end of the pipe before it and its output the write end of the pipe behind it; every child
-- closes all the pipe ends that it inherits, and the shell closes each end that it made, once.
pub execute_pipeline_plumbing :
    (pipes : Pipes) (pids : ℕ → ℕ) (ws : List Waited) (c : List Token) (cs : List (List Token))
    → IsCommand c
    → AreCommands cs
    → (es : List Event) × (code : ℤ) × (execute_pipeline pipes pids ws (pipe_tokens c cs)
        ≡ some (es, code))
      × (wires_of es ≡ wires pipes 0 none c cs)
      × IsTidy [] es
unfolding execute_pipeline
execute_pipeline_plumbing pipes pids ws c cs h hs =
    let fuel = length-pipe_tokens c cs h hs in
    let p =
      fork_loop-IsPlumbed pipes (length (pipe_tokens c cs) + 1) 0 none c cs h hs (omega arith) in
    let code = wait_loop (suc (length cs)) (pids (suc (length cs) - 1)) ws (pos 1) in
    (p.events, code, rw p.result, p.wiring, p.tidy)

-- The exit code of a pipeline is that of its last command, whatever the order in which the processes
-- end, and 1 if a signal killed it: the commands are joined by `|` as above, and `wait` reports one
-- process for each, the last one forked exactly once.
pub execute_pipeline_exit_code :
    (pipes : Pipes) (pids : ℕ → ℕ) (before after : List Waited) (status : Option ℤ) (c : List Token)
    (cs : List (List Token))
    → IsCommand c
    → AreCommands cs
    → length before + length after ≡ length cs
    → IsAbsent (pids (length cs)) before
    → IsAbsent (pids (length cs)) after
    → (es : List Event) × (execute_pipeline pipes pids
          (before ++ (pids (length cs), status) ∷ after)
          (pipe_tokens c cs)
        ≡ some (es, exit_status status))
unfolding execute_pipeline
execute_pipeline_exit_code pipes pids before after status c cs h hs n hb ha =
    let fuel = length-pipe_tokens c cs h hs in
    let p =
      fork_loop-IsPlumbed pipes (length (pipe_tokens c cs) + 1) 0 none c cs h hs (omega arith) in
    let one_less : suc (length cs) - 1 ≡ length cs = omega arith in
    (
      p.events,
      rw (p.result, one_less)
          (ap (λ e. some (p.events, e))
            (wait_loop_last (pids (length cs)) before after status (suc (length cs)) (pos 1) hb ha
              (omega arith))),
    )
