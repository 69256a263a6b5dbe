-- ===== src/Shell/Redirect/Order.antt =====
-- 2/shell.c: which redirections `open_files` finds.
use sysproghw.Base.{
  ℕ, zero, suc, ◌+◌, ◌≡◌, refl, ap, List, [], ◌∷◌, ◌++◌, some, arith, length, length-append,
}
use sysproghw.Shell.Token.{Word, Token, token, spec_default, spec_first, spec_second}
use sysproghw.Shell.Redirect.{
  Redirect, appends, writes, reads, Nodes, open_next, open_loop, open_files,
}

abbrev pub plain : Word → Token
plain w = token w spec_default

abbrev pub arguments : List Word → List Token
arguments [] = []
arguments (w ∷ ws) = plain w ∷ arguments ws

abbrev greater : Token
greater = token (b'>' ∷ []) spec_first

-- A redirection as it is written.
abbrev pub redirect_tokens : Redirect → List Token
redirect_tokens (appends w) = greater ∷ token (b'>' ∷ []) spec_second ∷ plain w ∷ []
redirect_tokens (writes w) = greater ∷ plain w ∷ []
redirect_tokens (reads w) = token (b'<' ∷ []) spec_first ∷ plain w ∷ []

-- `>> file` or `> file`, or nothing; then `< file`, or nothing.
pub data Output : Type 0 where
  no_output : Output
  onto_file to_file : Word → Output

pub data Input : Type 0 where
  no_input : Input
  from_file : Word → Input

abbrev pub output_redirects : Output → List Redirect
output_redirects no_output = []
output_redirects (onto_file w) = appends w ∷ []
output_redirects (to_file w) = writes w ∷ []

abbrev pub input_redirects : Input → List Redirect
input_redirects no_input = []
input_redirects (from_file w) = reads w ∷ []

abbrev pub all_tokens : List Redirect → List Token
all_tokens [] = []
all_tokens (r ∷ rs) = redirect_tokens r ++ all_tokens rs

-- A plain word is no redirection.
open_next-plain : (w : Word) (l : List Token) → open_next (plain w ∷ l) ≡ (plain w ∷ l, [])
unfolding open_next
open_next-plain w [] = refl
open_next-plain w (u ∷ []) = ground arith
open_next-plain w (u ∷ v ∷ l) = ground arith

-- Behind the plain words the rounds do what they do there.
open_loop-arguments :
    (k : ℕ) (ws : List Word) (l : List Token) (n : Nodes)
    → open_loop (suc k) l ≡ some n
    → open_loop (suc (length ws + k)) (arguments ws ++ l) ≡ some (arguments ws ++ n.0, n.1)
unfolding open_loop
open_loop-arguments k [] l n h = let e : zero + k ≡ k = omega arith in rw e h
open_loop-arguments k (w ∷ ws) l n h =
    let e : suc (length ws) + k ≡ suc (length ws + k) = omega arith in
    rw (e, open_next-plain) (rw (open_loop-arguments k ws l n h))

length-arguments : (ws : List Word) → length (arguments ws) ≡ length ws
length-arguments [] = refl
length-arguments (w ∷ ws) = ap suc (length-arguments ws)

open_files-arguments :
    (w : Word) (ws : List Word) (l : List Token) (n : Nodes)
    → open_loop (suc (length l)) l ≡ some n
    → open_files (plain w ∷ (arguments ws ++ l)) ≡ some (plain w ∷ (arguments ws ++ n.0), n.1)
unfolding open_files
open_files-arguments w ws l n h =
    let fuel : length (arguments ws ++ l) + 1 ≡ suc (length ws + length l) =
      omega (arith, length-append (arguments ws) l, length-arguments ws) in
    rw fuel (rw (open_loop-arguments (length l) ws l n h))

open_loop-redirects :
    (k : ℕ) (o : Output) (i : Input)
    → open_loop (suc k) (all_tokens (output_redirects o ++ input_redirects i))
      ≡ some ([], output_redirects o ++ input_redirects i)
unfolding open_loop open_next
open_loop-redirects k no_output no_input = refl
open_loop-redirects k no_output (from_file j) = refl
open_loop-redirects k (onto_file f) no_input = refl
open_loop-redirects k (onto_file f) (from_file j) = refl
open_loop-redirects k (to_file f) no_input = refl
open_loop-redirects k (to_file f) (from_file j) = ground arith

-- Behind a command and its plain arguments, `open_files` opens the file of one output redirection
-- and then that of one input redirection, either of which may be missing, and leaves the command
-- with exactly its arguments.
pub open_files-redirects :
    (w : Word) (ws : List Word) (o : Output) (i : Input)
    → open_files (plain w ∷ (arguments ws ++ all_tokens (output_redirects o ++ input_redirects i)))
      ≡ some (plain w ∷ (arguments ws ++ []), output_redirects o ++ input_redirects i)
open_files-redirects w ws o i =
    open_files-arguments w ws _ ([], output_redirects o ++ input_redirects i)
      (open_loop-redirects _ o i)

-- In the other order the output redirection is missed: with `< i` before `> f` only `i` is opened, and
-- `>` and `f` stay among the arguments of the command.
pub open_files-input_first :
    (w : Word) (ws : List Word) (i f : Word)
    → open_files (plain w ∷ (arguments ws ++ all_tokens (reads i ∷ writes f ∷ [])))
      ≡ some (plain w ∷ (arguments ws ++ redirect_tokens (writes f)), reads i ∷ [])
unfolding open_loop open_next
open_files-input_first w ws i f =
    open_files-arguments w ws (all_tokens (reads i ∷ writes f ∷ []))
      (redirect_tokens (writes f), reads i ∷ []) refl
