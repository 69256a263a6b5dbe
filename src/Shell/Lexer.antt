-- ===== src/Shell/Lexer.antt =====
-- 2/shell.c: `need_escape`, `spec_symbol` and the loop of `main`, one byte at a time.
pub mod Scanner
pub mod Agreeing
pub mod View
pub mod Tokens
pub mod Quoting
use sysproghw.Base.{
  ℕ, Bool, true, false, not, ◌||◌, List, [], ◌∷◌, ◌==◌, if◌then◌else◌, Option, none, some, set,
}
use sysproghw.Base.Buffer.{Buffer, create_buffer, insert_buffer}
use sysproghw.Shell.Token.{
  Token, Special, spec_default, spec_first, spec_second, insert_list, strip_comment, put_line,
}

-- The loop over the characters of the string.
unfoldable pub contains : List ℕ → ℕ → Bool
contains [] c = false
contains (x ∷ xs) c = c == x || contains xs c

unfoldable pub need_escape : ℕ → Bool
unfolding contains
need_escape = contains (b'\n' ∷ b'\'' ∷ b'"' ∷ b'\\' ∷ b' ' ∷ b'>' ∷ b'<' ∷ b'|' ∷ b'&' ∷ [])

unfoldable pub spec_symbol : ℕ → Bool
unfolding contains
spec_symbol = contains (b'<' ∷ b'>' ∷ b'|' ∷ b'&' ∷ [])

-- The local variables of `main`.
pub record Lexer : Type 0 where
  pub list : List Token
  pub buf : Buffer ℕ
  pub is_quote_d : Bool
  pub is_quote_s : Bool
  pub is_escape : Bool
  pub is_prev_spec : Bool

unfoldable pub initial : Lexer
initial = record {
  list = [];
  buf = create_buffer 0 32;
  is_quote_d = false;
  is_quote_s = false;
  is_escape = false;
  is_prev_spec = false;
}

-- A step's new state, and the command line that it hands to `execute`.
abbrev pub Outcome : Type 0
Outcome = Lexer × Option (List Token)

unfoldable pub add : Lexer → ℕ → Lexer
add s c = record s { buf = insert_buffer 0 s.buf c }

-- `if(is_escape)`
unfoldable pub escaped_byte : Lexer → ℕ → Lexer
escaped_byte s c =
    let t = if need_escape c then s else add s b'\\' in
    let u = if c == b'\n' then t else add t c in record u { is_escape = false }

-- `if(spec_symbol(c))`, behind the end of a word. `array[0] = c` with `pos = 1` is one symbol.
unfoldable pub spec_byte : Lexer → ℕ → Lexer
spec_byte s c =
    let b = record s.buf { pos = 1; array = set s.buf.array 0 c } in
    let (l, b') = insert_list s.list b (if s.is_prev_spec then spec_second else spec_first) in
    record s { list = l; buf = b'; is_prev_spec = true }

-- `if(c == '\n')`: a command line that is not empty is executed, and the list starts anew.
unfoldable pub newline : Lexer → Outcome
newline s =
    let l = strip_comment s.list in
    (record s { list = []; is_prev_spec = false }, elim l [ [] ↦ none | t ∷ r ↦ some (t ∷ r) ])

-- `case ' ': case '\n': case '>': case '<': case '&': case '|':`
unfoldable pub separator : Lexer → ℕ → Outcome
separator s c =
    if s.is_quote_s || s.is_quote_d
    then (add s c, none)
    else let (l, b) = insert_list s.list s.buf spec_default in
      let t = record s { list = l; buf = b } in
      if spec_symbol c
      then (spec_byte t c, none)
      else if c == b'\n'
      then newline t
      else (record t { is_prev_spec = false }, none)

unfoldable pub is_separator : ℕ → Bool
is_separator c = c == b' ' || c == b'\n' || c == b'>' || c == b'<' || c == b'&' || c == b'|'

-- `case '"':`
unfoldable pub quote_d_byte : Lexer → ℕ → Lexer
quote_d_byte s c =
    let t = if not s.is_quote_s then record s { is_quote_d = not s.is_quote_d } else add s c in
    record t { is_prev_spec = false }

-- `case '\'':`
unfoldable pub quote_s_byte : Lexer → ℕ → Lexer
quote_s_byte s c =
    let t = if not s.is_quote_d then record s { is_quote_s = not s.is_quote_s } else add s c in
    record t { is_prev_spec = false }

-- `case '\\':`
unfoldable pub backslash_byte : Lexer → ℕ → Lexer
backslash_byte s c =
    let t = if not s.is_quote_s then record s { is_escape = true } else add s c in
    record t { is_prev_spec = false }

-- `default:`
unfoldable pub other_byte : Lexer → ℕ → Lexer
other_byte s c = let t = add s c in record t { is_prev_spec = false }

-- One round of `while((c = getchar()) != EOF)`.
unfoldable pub step : Lexer → ℕ → Outcome
step s c =
    if s.is_escape
    then (escaped_byte s c, none)
    else if c == b'"'
    then (quote_d_byte s c, none)
    else if c == b'\''
    then (quote_s_byte s c, none)
    else if c == b'\\'
    then (backslash_byte s c, none)
    else if is_separator c
    then separator s c
    else (other_byte s c, none)

-- The loop of `main`: the state at the end of the input, and the command lines in the order in
-- which they are executed.
unfoldable pub read : Lexer → List ℕ → Lexer × List (List Token)
read s [] = (s, [])
read s (c ∷ cs) = let (t, line) = step s c in let (u, lines) = read t cs in (u, put_line line lines)
