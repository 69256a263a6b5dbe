-- ===== src/Shell/Lexer/Scanner.antt =====
-- What the loop of `main` in 2/shell.c is to do, without buffers and flags: the word read so far is
-- a byte string, and the scanner is in one of three modes.
use sysproghw.Base.{
  ℕ, Bool, true, false, ◌||◌, List, [], ◌∷◌, ◌++◌, ◌==◌, if◌then◌else◌, Option, none, some,
}
use sysproghw.Shell.Token.{
  c_string, Word, Token, token, spec_default, spec_first, spec_second, strip_comment, put_line,
}

pub data Mode : Type 0 where
  bare single double : Mode

pub record Scanner : Type 0 where
  pub done : List Token
  pub word : Word
  pub mode : Mode
  pub escaped : Bool
  pub joined : Bool

abbrev pub start : Scanner
start = record { done = []; word = []; mode = bare; escaped = false; joined = false }

-- A word that is not empty becomes a token, which holds its bytes in front of the first 0.
abbrev pub finish_word : List Token → Word → List Token
finish_word l [] = l
finish_word l (c ∷ cs) = l ++ token (c_string (c ∷ cs)) spec_default ∷ []

abbrev pub is_symbol : ℕ → Bool
is_symbol c = c == b'<' || c == b'>' || c == b'|' || c == b'&'

-- The bytes for which a backslash is dropped.
abbrev pub is_quotable : ℕ → Bool
is_quotable c =
    c == b'\n'
    || c == b'\''
    || c == b'"'
    || c == b'\\'
    || c == b' '
    || c == b'>'
    || c == b'<'
    || c == b'|'
    || c == b'&'

-- The bytes that a backslash and `c` stand for.
abbrev pub unescaped : ℕ → List ℕ
unescaped c = if c == b'\n' then [] else if is_quotable c then c ∷ [] else b'\\' ∷ c ∷ []

abbrev pub keep : Scanner → ℕ → Scanner
keep s c = record s { word = s.word ++ c ∷ []; joined = false }

abbrev pub switch : Scanner → Mode → Scanner
switch s m = record s { mode = m; joined = false }

-- A symbol stands alone; directly behind another symbol it is marked as a second one.
abbrev pub symbol : Scanner → ℕ → Scanner
symbol s c = record s {
  done =
      finish_word s.done s.word
      ++ token (c ∷ []) (if s.joined then spec_second else spec_first) ∷ [];
  word = [];
  joined = true;
}

abbrev pub blank : Scanner → Scanner
blank s = record s { done = finish_word s.done s.word; word = []; joined = false }

-- The end of a line: what is left without its comment is a command line, if there is anything.
abbrev pub command : List Token → Option (List Token)
command [] = none
command (t ∷ r) = some (t ∷ r)

abbrev pub end_line : Scanner → Scanner × Option (List Token)
end_line s = (
  record s { done = []; word = []; joined = false },
  command (strip_comment (finish_word s.done s.word)),
)

-- Inside single quotes only the closing quote is special.
abbrev pub scan_single : Scanner → ℕ → Scanner
scan_single s c = if c == b'\'' then switch s bare else keep s c

abbrev pub scan_double : Scanner → ℕ → Scanner
scan_double s c =
    if c == b'"'
    then switch s bare
    else if c == b'\\'
    then record s { escaped = true; joined = false }
    else keep s c

abbrev pub scan_bare : Scanner → ℕ → Scanner × Option (List Token)
scan_bare s c =
    if c == b'"'
    then (switch s double, none)
    else if c == b'\''
    then (switch s single, none)
    else if c == b'\\'
    then (record s { escaped = true; joined = false }, none)
    else if is_symbol c
    then (symbol s c, none)
    else if c == b' '
    then (blank s, none)
    else if c == b'\n'
    then end_line s
    else (keep s c, none)

abbrev pub scan_mode : Mode → Scanner → ℕ → Scanner × Option (List Token)
scan_mode bare s c = scan_bare s c
scan_mode single s c = (scan_single s c, none)
scan_mode double s c = (scan_double s c, none)

unfoldable pub scan_byte : Scanner → ℕ → Scanner × Option (List Token)
scan_byte s c =
    if s.escaped
    then (record s { word = s.word ++ unescaped c; escaped = false }, none)
    else scan_mode s.mode s c

unfoldable pub scan : Scanner → List ℕ → Scanner × List (List Token)
unfolding scan_byte
scan s [] = (s, [])
scan s (c ∷ cs) =
    let (t, line) = scan_byte s c in let (u, lines) = scan t cs in (u, put_line line lines)
