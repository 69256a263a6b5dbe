-- ===== src/Shell/Tests.antt =====
-- The shell's theorems at concrete command lines, and runs of the model of 2/shell.c.
use Prim.Native.Char.{code}
use Prim.Native.String.{String}
use sysproghw.Base.{
  ℕ, ◌+◌, ◌*◌, ◌≡◌, refl, Bool, true, false, inl, inr, arith, ◌==◌, if◌then◌else◌, Bool-cases, List,
  [], ◌∷◌, ◌++◌, none, some,
}
use sysproghw.Base.Int.{ℤ, pos}
use sysproghw.Shell.Token.{HasNoNul, Word, Token, token, spec_default, word_eq}
use sysproghw.Shell.Lexer.{initial, read}
use sysproghw.Shell.Lexer.Scanner.{scan}
use sysproghw.Shell.Lexer.View.{initial-IsLegal, read-scan}
use sysproghw.Shell.Lexer.Agreeing.{view, IsLegal}
use sysproghw.Shell.Exec.Plain.{ForksOnce, child_runs}
use sysproghw.Shell.Lexer.Quoting.{
  HaveNoNul, words, quoted_line, read-quoted_line, read-quoted_line_hash,
}
use sysproghw.Shell.Lexer.Tokens.{AreCommandLines, read-AreCommandLines}
use sysproghw.Shell.Logic.{split_logic, execute_logic}
use sysproghw.Shell.Logic.Chain.{eval_chain, execute_logic-eval_chain}
use sysproghw.Shell.Logic.Links.{Op, and_then, or_else, link_tokens}
use sysproghw.Shell.Logic.Total.{Cuts, split_logic-Cuts, execute_logic_ends}
use sysproghw.Shell.Pipeline.{Pipes, Event, Waited, execute_pipeline}
use sysproghw.Shell.Pipeline.Plumbing.{execute_pipeline_plumbing, execute_pipeline_exit_code}
use sysproghw.Shell.Pipeline.Forking.{pipe_tokens, wires, wires_of, IsTidy}
use sysproghw.Shell.Redirect.{writes, reads, open_files}
use sysproghw.Shell.Redirect.Order.{
  plain, arguments, all_tokens, redirect_tokens, to_file, from_file, open_files-redirects,
  open_files-input_first,
}
use sysproghw.Shell.Exec.{runs, execute, leaves, waits_for, main}
use sysproghw.Shell.Exec.Lines.{ampersand, execute-leaves, main-quoted_line}

abbrev codes : String → List ℕ
codes String.[] = []
codes (String.◌∷◌ c s) = code c ∷ codes s

abbrev cat_file : Word
cat_file = codes "a 'b'\nc"

all_nonzero : List ℕ → Bool
all_nonzero [] = true
all_nonzero (c ∷ cs) = if c == 0 then false else all_nonzero cs

HasNoNul-all_nonzero : (cs : List ℕ) → all_nonzero cs ≡ true → HasNoNul cs
unfolding all_nonzero
HasNoNul-all_nonzero [] h = tt
HasNoNul-all_nonzero (c ∷ cs) h = elim (Bool-cases (c == 0)) [
  | inl zero_byte ↦ absurd (let h' = rw zero_byte at h in cc)
  | inr nonzero ↦ ((λ e. ground arith), HasNoNul-all_nonzero cs (rw nonzero at h))
]

cat_line-HaveNoNul : HaveNoNul (codes "cat" ∷ cat_file ∷ [])
unfolding all_nonzero
cat_line-HaveNoNul =
    (HasNoNul-all_nonzero (codes "cat") refl, (HasNoNul-all_nonzero cat_file refl, tt))

read-scan_example :
    IsLegal (read initial (codes "ls 'a b'\n")).0
    × (view (read initial (codes "ls 'a b'\n")).0 ≡ (scan (view initial) (codes "ls 'a b'\n")).0)
    × ((read initial (codes "ls 'a b'\n")).1 ≡ (scan (view initial) (codes "ls 'a b'\n")).1)
read-scan_example = read-scan initial (codes "ls 'a b'\n") initial-IsLegal

read-quoted_line_example :
    (read initial (quoted_line (codes "cat" ∷ cat_file ∷ []))).1
    ≡ words (codes "cat" ∷ cat_file ∷ []) ∷ []
read-quoted_line_example =
    read-quoted_line (codes "cat") (cat_file ∷ []) ((λ e. cc), refl) (((λ e. cc), refl), tt)
      cat_line-HaveNoNul

read-quoted_line_hash_example : (read initial (quoted_line (codes "#echo" ∷ codes "a" ∷ []))).1 ≡ []
read-quoted_line_hash_example =
    read-quoted_line_hash (codes "echo") (codes "a" ∷ []) (((λ e. cc), refl), tt)

read-AreCommandLines_example : AreCommandLines (read initial (codes "a|b # c\n;\n")).1
read-AreCommandLines_example =
    read-AreCommandLines (codes "a|b # c\n;\n")
      (unfold all_nonzero in HasNoNul-all_nonzero (codes "a|b # c\n;\n") refl)

abbrev words_of : String → List Token
words_of s = token (codes s) spec_default ∷ []

-- Each command counts itself in the state, and `false` fails.
run_counted : List Token → ℕ → ℤ × ℕ
unfolding word_eq
run_counted [] n = (pos 0, n)
run_counted (t ∷ _) n = elim (word_eq t.word (codes "false")) [
  | true ↦ (pos 1, n + 1)
  | false ↦ (pos 0, n + 1)
]

abbrev links : List (Op × List Token)
links = (and_then, words_of "a") ∷ (or_else, words_of "b") ∷ []

execute_logic-eval_chain_example :
    execute_logic run_counted (words_of "false" ++ link_tokens links) 0
    ≡ some (eval_chain run_counted (words_of "false") links 0)
execute_logic-eval_chain_example =
    execute_logic-eval_chain run_counted (words_of "false") links 0 tt (tt, (tt, tt))

-- `false && a || b` runs `false` and `b`.
execute_logic_runs :
    execute_logic run_counted (words_of "false" ++ link_tokens links) 0 ≡ some (pos 0, 2)
unfolding execute_logic run_counted sysproghw.Shell.Logic.logic_loop
    sysproghw.Shell.Logic.split_logic sysproghw.Shell.Logic.next_command sysproghw.Shell.Logic.skip
execute_logic_runs = refl

split_logic-Cuts_example : Cuts (link_tokens links) (split_logic (link_tokens links))
split_logic-Cuts_example = split_logic-Cuts (link_tokens links)

execute_logic_ends_example :
    (r : ℤ × ℕ) × (execute_logic run_counted (link_tokens links) 0 ≡ some r)
execute_logic_ends_example = execute_logic_ends run_counted (link_tokens links) 0

abbrev pipes : Pipes
pipes n = (2 * n + 3, 2 * n + 4)

abbrev pids : ℕ → ℕ
pids n = n + 100

execute_pipeline_plumbing_example :
    (es : List Event) × (code : ℤ) × (execute_pipeline pipes pids []
        (pipe_tokens (words_of "a") (words_of "b" ∷ words_of "c" ∷ []))
      ≡ some (es, code))
    × (wires_of es ≡ wires pipes 0 none (words_of "a") (words_of "b" ∷ words_of "c" ∷ []))
    × IsTidy [] es
execute_pipeline_plumbing_example =
    execute_pipeline_plumbing pipes pids [] (words_of "a") (words_of "b" ∷ words_of "c" ∷ []) tt
      (tt, (tt, tt))

abbrev others : List Waited
others = (100, some (pos 0)) ∷ []

execute_pipeline_exit_code_example :
    (es : List Event) × (execute_pipeline pipes pids
        (others ++ (101, some (pos 7)) ∷ [])
        (pipe_tokens (words_of "a") (words_of "b" ∷ []))
      ≡ some (es, pos 7))
execute_pipeline_exit_code_example =
    execute_pipeline_exit_code pipes pids others [] (some (pos 7)) (words_of "a")
      (words_of "b" ∷ []) tt (tt, tt) refl (refl, tt) tt

open_files-redirects_example :
    open_files (
      plain (codes "sort")
      ∷ (arguments (codes "-n" ∷ [])
          ++ all_tokens (writes (codes "out") ∷ reads (codes "in") ∷ [])))
    ≡ some (
      plain (codes "sort") ∷ (arguments (codes "-n" ∷ []) ++ []),
      writes (codes "out") ∷ reads (codes "in") ∷ [],
    )
open_files-redirects_example =
    open_files-redirects (codes "sort") (codes "-n" ∷ []) (to_file (codes "out"))
      (from_file (codes "in"))

open_files-input_first_example :
    open_files (
      plain (codes "sort")
      ∷ (arguments [] ++ all_tokens (reads (codes "in") ∷ writes (codes "out") ∷ [])))
    ≡ some (
      plain (codes "sort") ∷ (arguments [] ++ redirect_tokens (writes (codes "out"))),
      reads (codes "in") ∷ [],
    )
open_files-input_first_example = open_files-input_first (codes "sort") [] (codes "in") (codes "out")

execute-leaves_example :
    execute true (plain (codes "sleep") ∷ (arguments (codes "5" ∷ []) ++ ampersand ∷ []))
    ≡ leaves (plain (codes "sleep") ∷ arguments (codes "5" ∷ []))
execute-leaves_example =
    execute-leaves (plain (codes "sleep")) (arguments (codes "5" ∷ [])) (unfold word_eq in refl)

main-quoted_line_example :
    (main (λ _. true) (quoted_line (codes "cat" ∷ cat_file ∷ []))
      ≡ waits_for (words (codes "cat" ∷ cat_file ∷ [])) ∷ [])
    × (execute_logic run_counted (words (codes "cat" ∷ cat_file ∷ [])) 0
        ≡ some (run_counted (words (codes "cat" ∷ cat_file ∷ [])) 0))
    × ForksOnce pipes pids [] (words (codes "cat" ∷ cat_file ∷ []))
    × (child_runs (λ _. pos 0) (words (codes "cat" ∷ cat_file ∷ []))
        ≡ some ([], runs (codes "cat" ∷ cat_file ∷ [])))
main-quoted_line_example =
    main-quoted_line run_counted 0 pipes pids [] (λ _. true) (λ _. pos 0) (codes "cat")
      (cat_file ∷ []) ((λ e. cc), refl) (((λ e. cc), refl), tt) cat_line-HaveNoNul
      (unfold word_eq in refl) (unfold word_eq in refl) refl
