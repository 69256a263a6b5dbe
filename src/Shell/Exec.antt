-- ===== src/Shell/Exec.antt =====
-- 2/shell.c: what a child runs behind `open_files`, and `execute_cd`, `execute` and `main`.
--
-- The C library's `atoi` and the result of `fork` are parameters.
pub mod Lines
pub mod Plain
use sysproghw.Base.{
  ℕ, ◌+◌, Bool, true, false, List, [], ◌∷◌, Option, none, some, ◌==◌, if◌then◌else◌,
}
use sysproghw.Base.Int.{ℤ, pos}
use sysproghw.Shell.Token.{Word, Token, word_eq, is_default, check_block, create_argv}
use sysproghw.Shell.Lexer.{initial, read}

-- How a child goes on: it exits with a code, or runs a program with its arguments.
pub data Program : Type 0 where
  exits : ℤ → Program
  runs : List Word → Program

abbrev pub exit_word : Word
exit_word = b'e' ∷ b'x' ∷ b'i' ∷ b't' ∷ []

abbrev pub cd_word : Word
cd_word = b'c' ∷ b'd' ∷ []

-- `argv[1]`, where it is not NULL, as a number.
abbrev pub exit_code : (Word → ℤ) → List Word → ℤ
exit_code atoi [] = pos 0
exit_code atoi (a ∷ _) = atoi a

abbrev pub program_of : (Word → ℤ) → List Word → Program
program_of atoi [] = runs []
program_of atoi (name ∷ args) =
    if word_eq name exit_word then exits (exit_code atoi args) else runs (name ∷ args)

-- The child's branch of `execute_pipeline` from `create_argv` on.
unfoldable pub child_program : (atoi : Word → ℤ) → List Token → Program
child_program atoi p = program_of atoi (create_argv p)

-- What the shell does with a command line: `cd` with the directory, if there is one; nothing but a
-- message where `fork` fails; or a child that it waits for or leaves in the background.
pub data Action : Type 0 where
  changes_dir : Option Word → Action
  fork_fails : Action
  waits_for : List Token → Action
  leaves : List Token → Action

-- `none` where the command is not `cd`.
unfoldable pub execute_cd : List Token → Option (Option Word)
execute_cd [] = none
execute_cd (p ∷ []) = if word_eq p.word cd_word then some none else none
execute_cd (p ∷ q ∷ _) =
    if word_eq p.word cd_word then some (if is_default q.spec then some q.word else none) else none

-- The rest of `execute` behind the call of `execute_cd`.
abbrev pub act : Bool → Bool → List Token → Option (Option Word) → Action
act fork_succeeds block l (some dir) = changes_dir dir
act fork_succeeds block l none =
    if fork_succeeds then (if block then waits_for l else leaves l) else fork_fails

unfoldable pub execute : Bool → List Token → Action
execute fork_succeeds list =
    let (block, l) = check_block list in act fork_succeeds block l (execute_cd l)

-- The actions of the shell on its input; `forks` says which calls of `fork` succeed, by the number of
-- the command line.
abbrev actions : (ℕ → Bool) → ℕ → List (List Token) → List Action
actions forks n [] = []
actions forks n (l ∷ ls) = execute (forks n) l ∷ actions forks (n + 1) ls

unfoldable pub main : (ℕ → Bool) → List ℕ → List Action
main forks input = actions forks 0 (read initial input).1
