-- ===== src/Shell/Lexer/Quoting.antt =====
-- Quoting for the loop of `main` in 2/shell.c: words written in single quotes are read back.
use sysproghw.Base.{
  ℕ, ◌≡◌, ◌≢◌, refl, ◌∙◌, ap, false, inl, inr, List, [], ◌∷◌, ◌++◌, arith, ◌==◌, if◌then◌else◌,
  Bool-cases,
}
use mathlib.Core.List.{append_assoc, append-nil}
use sysproghw.Base.Buffer.{create_buffer}
use mathlib.Core.Path.{ap₂}
use sysproghw.Shell.Token.{
  c_string, HasNoNul, c_string-HasNoNul, Word, Token, token, spec_default, strip_comment,
  cut_comment, put_line, first_byte,
}
use sysproghw.Shell.Lexer.{read, initial}
use sysproghw.Shell.Lexer.Scanner.{
  Mode, bare, single, Scanner, finish_word, scan_byte, scan, command,
}
use sysproghw.Shell.Lexer.View.{read-scan, initial-IsLegal}

-- The bytes of a word between single quotes; a single quote is written as '\''.
pub quoted_bytes : Word → List ℕ
quoted_bytes [] = []
quoted_bytes (c ∷ w) =
    let rest = quoted_bytes w in
    if c == b'\'' then b'\'' ∷ b'\\' ∷ b'\'' ∷ b'\'' ∷ rest else c ∷ rest

-- Each word in quotes, with a space behind it.
pub quoted_words : List Word → List ℕ → List ℕ
quoted_words [] rest = rest
quoted_words (w ∷ ws) rest = b'\'' ∷ (quoted_bytes w ++ (b'\'' ∷ b' ' ∷ quoted_words ws rest))

pub quoted_line : List Word → List ℕ
quoted_line ws = quoted_words ws (b'\n' ∷ [])

abbrev pub words : List Word → List Token
words [] = []
words (w ∷ ws) = token w spec_default ∷ words ws

-- What the shell makes of them: a word ends at its first 0.
abbrev read_words : List Word → List Token
read_words [] = []
read_words (w ∷ ws) = token (c_string w) spec_default ∷ read_words ws

abbrev pub HaveNoNul : List Word → Type 0
HaveNoNul [] = Unit
HaveNoNul (w ∷ ws) = HasNoNul w × HaveNoNul ws

read_words-HaveNoNul : (ws : List Word) → HaveNoNul ws → read_words ws ≡ words ws
read_words-HaveNoNul [] h = refl
read_words-HaveNoNul (w ∷ ws) (nz, h) =
    ap₂ (λ v l. token v spec_default ∷ l) (c_string-HasNoNul w nz) (read_words-HaveNoNul ws h)

-- Not empty, and not taken for a comment.
abbrev pub IsArgument : Word → Type 0
IsArgument w = (w ≢ []) × ((first_byte w == b'#') ≡ false)

abbrev pub AreArguments : List Word → Type 0
AreArguments [] = Unit
AreArguments (w ∷ ws) = IsArgument w × AreArguments ws

abbrev at : List Token → Word → Mode → Scanner
at l w m = record { done = l; word = w; mode = m; escaped = false; joined = false }

scan-quoted_bytes :
    (w v : Word) (l : List Token) (rest : List ℕ)
    → scan (at l v single) (quoted_bytes w ++ rest) ≡ scan (at l (v ++ w) single) rest
unfolding scan scan_byte quoted_bytes
scan-quoted_bytes [] v l rest = rw append-nil
scan-quoted_bytes (c ∷ w) v l rest = elim (Bool-cases (c == b'\'')) [
  | inl hit ↦
      let e : c ≡ b'\'' = ground arith in
      rw e (
        scan-quoted_bytes w (v ++ b'\'' ∷ []) l rest
        ∙ ap (λ u. scan (at l u single) rest) (append_assoc v (b'\'' ∷ []) w))
  | inr miss ↦
      rw (miss, miss)
        (scan-quoted_bytes w (v ++ c ∷ []) l rest
          ∙ ap (λ u. scan (at l u single) rest) (append_assoc v (c ∷ []) w))
]

finish_word-ne_nil :
    (l : List Token) (w : Word)
    → w ≢ []
    → finish_word l w ≡ l ++ token (c_string w) spec_default ∷ []
finish_word-ne_nil l [] h = absurd (h refl)
finish_word-ne_nil l (c ∷ w) h = refl

scan_open_quote :
    (l : List Token) (rest : List ℕ)
    → scan (at l [] bare) (b'\'' ∷ rest) ≡ scan (at l [] single) rest
unfolding scan scan_byte
scan_open_quote l rest = refl

-- The closing quote, and the space that ends the word.
scan_close_quote :
    (l : List Token) (w : Word) (rest : List ℕ)
    → w ≢ []
    → scan (at l w single) (b'\'' ∷ b' ' ∷ rest)
      ≡ scan (at (l ++ token (c_string w) spec_default ∷ []) [] bare) rest
unfolding scan scan_byte
scan_close_quote l w rest h = ap (λ d. scan (at d [] bare) rest) (finish_word-ne_nil l w h)

scan_end_line :
    (l : List Token)
    → (scan (at l [] bare) (b'\n' ∷ [])).1 ≡ put_line (command (strip_comment l)) []
unfolding scan scan_byte
scan_end_line l = refl

-- With the quotes read, the words are tokens behind those read before.
scan-quoted_words :
    (ws : List Word) (l : List Token) (rest : List ℕ)
    → AreArguments ws
    → scan (at l [] bare) (quoted_words ws rest) ≡ scan (at (l ++ read_words ws) [] bare) rest
unfolding quoted_words
scan-quoted_words [] l rest a = rw append-nil
scan-quoted_words (w ∷ ws) l rest a =
    scan_open_quote l (quoted_bytes w ++ (b'\'' ∷ b' ' ∷ quoted_words ws rest))
    ∙ scan-quoted_bytes w [] l (b'\'' ∷ b' ' ∷ quoted_words ws rest)
    ∙ scan_close_quote l w (quoted_words ws rest) a.0.0
    ∙ scan-quoted_words ws (l ++ token (c_string w) spec_default ∷ []) rest a.1
    ∙ ap (λ d. scan (at d [] bare) rest)
        (append_assoc l (token (c_string w) spec_default ∷ []) (read_words ws))

strip_comment-words : (ws : List Word) → AreArguments ws → strip_comment (words ws) ≡ words ws
unfolding strip_comment
strip_comment-words [] a = refl
strip_comment-words (w ∷ ws) a =
    rw (a.0.1) (ap (◌∷◌ (token w spec_default)) (cut_comment-words ws a.1))
  where
    cut_comment-words : (ws : List Word) → AreArguments ws → cut_comment (words ws) ≡ words ws
    cut_comment-words [] a = refl
    cut_comment-words (w ∷ ws) a =
        rw (a.0.1) (ap (◌∷◌ (token w spec_default)) (cut_comment-words ws a.1))

read_line :
    (cs : List ℕ) (l : List Token)
    → scan (at [] [] bare) cs ≡ scan (at l [] bare) (b'\n' ∷ [])
    → (read initial cs).1 ≡ put_line (command (strip_comment l)) []
unfolding initial create_buffer
read_line cs l e = (read-scan initial cs initial-IsLegal).2 ∙ ap (λ r. r.1) e ∙ scan_end_line l

-- A line of words in single quotes, read from the start, is one command line that holds these words
-- as plain words, whatever other bytes than 0 they hold; the words are not empty and none begins with
-- '#'.
pub read-quoted_line :
    (w : Word) (ws : List Word)
    → IsArgument w
    → AreArguments ws
    → HaveNoNul (w ∷ ws)
    → (read initial (quoted_line (w ∷ ws))).1 ≡ words (w ∷ ws) ∷ []
unfolding quoted_line
read-quoted_line w ws h hs nz =
    read_line _ (words (w ∷ ws)) (
      scan-quoted_words (w ∷ ws) [] (b'\n' ∷ []) (h, hs)
      ∙ ap (λ l. scan (at l [] bare) (b'\n' ∷ [])) (read_words-HaveNoNul (w ∷ ws) nz))
    ∙ ap (λ l. put_line (command l) []) (strip_comment-words (w ∷ ws) (h, hs))

-- A line whose first word begins with '#' is dropped as a comment, although the word is in quotes;
-- the words behind it are not empty and none begins with '#'.
pub read-quoted_line_hash :
    (w : Word) (ws : List Word)
    → AreArguments ws
    → (read initial (quoted_line ((b'#' ∷ w) ∷ ws))).1 ≡ []
unfolding quoted_line quoted_words strip_comment c_string
read-quoted_line_hash w ws hs =
    let first = token (c_string (b'#' ∷ w)) spec_default in
    let rest = quoted_words ws (b'\n' ∷ []) in
    read_line _ (first ∷ read_words ws) (
      scan_open_quote [] _
      ∙ scan-quoted_bytes (b'#' ∷ w) [] [] (b'\'' ∷ b' ' ∷ rest)
      ∙ scan_close_quote [] (b'#' ∷ w) rest (λ e. cc)
      ∙ scan-quoted_words ws (first ∷ []) (b'\n' ∷ []) hs)
