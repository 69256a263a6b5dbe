-- ===== src/Shell/Exec/Lines.antt =====
-- 2/shell.c: command lines from the input to the actions of the shell.
use sysproghw.Base.{ℕ, ◌≡◌, refl, ap, Bool, true, false, List, [], ◌∷◌, ◌++◌, none, some, arith}
use sysproghw.Shell.Token.{
  Word, Token, token, word_eq, spec_default, spec_first, is_background, last_or, before_last,
  check_block,
}
use sysproghw.Base.Int.{ℤ}
use sysproghw.Shell.Lexer.Quoting.{
  words, quoted_line, IsArgument, AreArguments, HaveNoNul, read-quoted_line,
}
use sysproghw.Shell.Logic.{execute_logic}
use sysproghw.Shell.Pipeline.{Pipes, Waited}
use sysproghw.Shell.Exec.Plain.{
  execute_logic-words, ForksOnce, execute_pipeline-words, child_runs, child_runs-words,
}
use sysproghw.Shell.Exec.{runs, exit_word, cd_word, waits_for, leaves, execute_cd, execute, main}

abbrev pub ampersand : Token
ampersand = token (b'&' ∷ []) spec_first

last_or-append : (t u : Token) (r : List Token) → last_or t (r ++ u ∷ []) ≡ u
last_or-append t u [] = refl
last_or-append t u (v ∷ r) = last_or-append v u r

before_last-append : (t u : Token) (r : List Token) → before_last t (r ++ u ∷ []) ≡ t ∷ r
before_last-append t u [] = refl
before_last-append t u (v ∷ r) = ap (◌∷◌ t) (before_last-append v u r)

-- `check_block` tells a command with an `&` behind it, drops the `&` and nothing else.
pub check_block_background :
    (t : Token) (r : List Token) → check_block (t ∷ (r ++ ampersand ∷ [])) ≡ (false, t ∷ r)
unfolding check_block
check_block_background t [] = refl
check_block_background t (u ∷ r) =
    rw (last_or-append u ampersand r, before_last-append u ampersand r)

-- A last token that is no `&` of its own is kept, and the shell waits.
pub check_block_foreground :
    (t u : Token) (r : List Token)
    → is_background (last_or u r) ≡ false
    → check_block (t ∷ u ∷ r) ≡ (true, t ∷ u ∷ r)
unfolding check_block
check_block_foreground t u r h = rw h

execute_cd-other :
    (t : Token) (r : List Token) → word_eq t.word cd_word ≡ false → execute_cd (t ∷ r) ≡ none
unfolding execute_cd
execute_cd-other t [] h = rw h
execute_cd-other t (u ∷ r) h = rw h

-- A command that is not `cd`, with `&` behind it, is started in the background with its tokens and
-- without the `&`.
pub execute-leaves :
    (t : Token) (r : List Token)
    → word_eq t.word cd_word ≡ false
    → execute true (t ∷ (r ++ ampersand ∷ [])) ≡ leaves (t ∷ r)
unfolding execute
execute-leaves t r h = rw (check_block_background t r, execute_cd-other t r h)

words_foreground :
    (w : Word) (ws : List Word) → check_block (words (w ∷ ws)) ≡ (true, words (w ∷ ws))
unfolding check_block
words_foreground w [] = refl
words_foreground w (v ∷ ws) =
    check_block_foreground (token w spec_default) (token v spec_default) (words ws) (go v ws)
  where
    go :
        (v : Word) (ws : List Word)
        → is_background (last_or (token v spec_default) (words ws)) ≡ false
    go v [] = ground arith
    go v (x ∷ ws) = go x ws

-- A line of words in single quotes makes the shell run one child in the foreground, whose program is
-- the first word, with all the words as its arguments, whatever other bytes than 0 they hold: the words
-- are not empty, none begins with '#', and the first is neither `cd` nor `exit`. `execute` waits for these
-- tokens; `execute_logic` makes one pipeline of them; `execute_pipeline` forks once for them, with the
-- shell's input and output; and there `open_files` opens no file and leaves all the words to `argv`.
pub main-quoted_line :
    {W : Type 0} (run : List Token → W → ℤ × W) (v : W) (pipes : Pipes) (pids : ℕ → ℕ)
    (waited : List Waited) (forks : ℕ → Bool) (atoi : Word → ℤ) (w : Word) (ws : List Word)
    → IsArgument w
    → AreArguments ws
    → HaveNoNul (w ∷ ws)
    → word_eq w cd_word ≡ false
    → word_eq w exit_word ≡ false
    → forks 0 ≡ true
    → (main forks (quoted_line (w ∷ ws)) ≡ waits_for (words (w ∷ ws)) ∷ [])
      × (execute_logic run (words (w ∷ ws)) v ≡ some (run (words (w ∷ ws)) v))
      × ForksOnce pipes pids waited (words (w ∷ ws))
      × (child_runs atoi (words (w ∷ ws)) ≡ some ([], runs (w ∷ ws)))
unfolding main execute
main-quoted_line run v pipes pids waited forks atoi w ws h hs nz not_cd not_exit f = (
  rw (
    read-quoted_line w ws h hs nz,
    words_foreground w ws,
    execute_cd-other (token w spec_default) (words ws) not_cd,
    f,
  ),
  execute_logic-words run w ws v,
  execute_pipeline-words pipes pids waited w ws,
  child_runs-words atoi w ws not_exit,
)
