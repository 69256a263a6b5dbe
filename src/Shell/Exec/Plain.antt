-- ===== src/Shell/Exec/Plain.antt =====
-- 2/shell.c: what becomes of plain words behind `execute`: in `execute_logic`, `execute_pipeline` and
-- `open_files`.
use mathlib.Core.Path.{subst}
use sysproghw.Base.{
  ℕ, ◌≡◌, refl, ◌∙◌, ap, false, List, [], ◌∷◌, ◌++◌, Option, none, some, arith, bind,
}
use sysproghw.Base.Int.{ℤ}
use sysproghw.Shell.Token.{Word, Token, word_eq, create_argv}
use sysproghw.Shell.Lexer.Quoting.{words}
use sysproghw.Shell.Logic.{check_or, check_and, execute_logic}
use sysproghw.Shell.Logic.Links.{HasNoLogic}
use sysproghw.Shell.Logic.Chain.{execute_logic-alone}
use sysproghw.Shell.Pipeline.{Pipes, Event, Waited, check_pipe, execute_pipeline}
use sysproghw.Shell.Pipeline.Forking.{wires_of, HasNoPipe}
use sysproghw.Shell.Pipeline.Plumbing.{execute_pipeline_plumbing}
use sysproghw.Shell.Redirect.{Redirect, open_files}
use sysproghw.Shell.Redirect.Order.{plain, arguments, no_output, no_input, open_files-redirects}
use sysproghw.Shell.Exec.{Program, runs, exit_word, child_program}

words-HasNoLogic : (ws : List Word) → HasNoLogic (words ws)
unfolding check_or check_and
words-HasNoLogic [] = tt
words-HasNoLogic (w ∷ []) = (refl, refl, tt)
words-HasNoLogic (w ∷ v ∷ ws) = (ground arith, ground arith, words-HasNoLogic (v ∷ ws))

words-HasNoPipe : (ws : List Word) → HasNoPipe (words ws)
unfolding check_pipe
words-HasNoPipe [] = tt
words-HasNoPipe (w ∷ ws) = (ground arith, words-HasNoPipe ws)

words-arguments : (ws : List Word) → arguments ws ++ [] ≡ words ws
words-arguments [] = refl
words-arguments (w ∷ ws) = ap (λ l. plain w ∷ l) (words-arguments ws)

-- Plain words are one pipeline.
pub execute_logic-words :
    {W : Type 0} (run : List Token → W → ℤ × W) (w : Word) (ws : List Word) (v : W)
    → execute_logic run (words (w ∷ ws)) v ≡ some (run (words (w ∷ ws)) v)
execute_logic-words run w ws v = execute_logic-alone run (words (w ∷ ws)) v (words-HasNoLogic ws)

-- The shell forks once, for these tokens, and the child keeps the shell's input and output.
abbrev pub ForksOnce : Pipes → (ℕ → ℕ) → List Waited → List Token → Type 0
ForksOnce pipes pids waited tokens =
    (es : List Event) × (code : ℤ) × (execute_pipeline pipes pids waited tokens ≡ some (es, code))
    × (wires_of es ≡ record { command = tokens; input = none; output = none } ∷ [])

pub execute_pipeline-words :
    (pipes : Pipes) (pids : ℕ → ℕ) (waited : List Waited) (w : Word) (ws : List Word)
    → ForksOnce pipes pids waited (words (w ∷ ws))
execute_pipeline-words pipes pids waited w ws =
    let (es, code, e, wired, _) =
      execute_pipeline_plumbing pipes pids waited (words (w ∷ ws)) [] (words-HasNoPipe ws) tt in
    (es, code, e, wired)

-- What the child does with its tokens: the files that it opens, and its program.
abbrev pub child_runs : (Word → ℤ) → List Token → Option (List Redirect × Program)
child_runs atoi tokens = bind (open_files tokens) (λ o. some (o.1, child_program atoi o.0))

open_files-words :
    (w : Word) (ws : List Word) → open_files (words (w ∷ ws)) ≡ some (words (w ∷ ws), [])
open_files-words w ws =
    subst (λ l. open_files (plain w ∷ l) ≡ some (plain w ∷ l, [])) (words-arguments ws)
      (open_files-redirects w ws no_output no_input)

create_argv-words : (ws : List Word) → create_argv (words ws) ≡ ws
unfolding create_argv
create_argv-words [] = refl
create_argv-words (w ∷ ws) = ap (◌∷◌ w) (create_argv-words ws)

-- The child opens no file and runs the first word with all the words.
pub child_runs-words :
    (atoi : Word → ℤ) (w : Word) (ws : List Word)
    → word_eq w exit_word ≡ false
    → child_runs atoi (words (w ∷ ws)) ≡ some ([], runs (w ∷ ws))
unfolding child_program
child_runs-words atoi w ws not_exit =
    ap (λ o. bind o (λ o. some (o.1, child_program atoi o.0))) (open_files-words w ws)
    ∙ rw (create_argv-words (w ∷ ws), not_exit) refl
