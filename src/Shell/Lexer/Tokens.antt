-- ===== src/Shell/Lexer/Tokens.antt =====
-- The tokens that the loop of `main` in 2/shell.c makes.
use sysproghw.Base.{
  arith, ℕ, ◌≡◌, ◌≢◌, refl, Bool, true, false, inl, inr, List, [], ◌∷◌, ◌++◌, Option, none, some,
  ◌==◌, if◌then◌else◌, Bool-cases, ◌⊎◌,
}
use mathlib.Core.Path.{subst, sym}
use sysproghw.Base.Buffer.{create_buffer}
use sysproghw.Shell.Token.{
  HasNoNul, c_string-HasNoNul, HasNoNul-append, Word, Token, token, Special, spec_default,
  strip_comment, cut_comment, put_line, is_comment,
}
use sysproghw.Shell.Lexer.{read, initial}
use sysproghw.Shell.Lexer.Scanner.{
  Mode, bare, single, double, Scanner, finish_word, is_symbol, symbol, blank, end_line, keep,
  unescaped, is_quotable, scan_mode, scan_byte, scan, command,
}
use sysproghw.Shell.Lexer.View.{read-scan, initial-IsLegal}
use sysproghw.Shell.Lexer.Agreeing.{view}

-- A word is not empty, and a token marked as special is one of the four symbols.
pub record IsToken (t : Token) : Type 0 where
  pub word_ne_nil : t.word ≢ []
  pub symbol_of_special :
      (t.spec ≡ spec_default) ⊎ ((c : ℕ) × (t.word ≡ c ∷ []) × (is_symbol c ≡ true))

abbrev pub AreTokens : List Token → Type 0
AreTokens [] = Unit
AreTokens (t ∷ l) = IsToken t × AreTokens l

AreTokens-append : (l : List Token) (t : Token) → AreTokens l → IsToken t → AreTokens (l ++ t ∷ [])
AreTokens-append [] t a h = (h, tt)
AreTokens-append (u ∷ l) t a h = (a.0, AreTokens-append l t a.1 h)

AreTokens-finish_word :
    (l : List Token) (w : Word) → AreTokens l → HasNoNul w → AreTokens (finish_word l w)
AreTokens-finish_word l [] a h = a
AreTokens-finish_word l (c ∷ w) a h = rw (c_string-HasNoNul (c ∷ w) h) (
    AreTokens-append l (token (c ∷ w) spec_default) a
      (record { word_ne_nil = λ e. cc; symbol_of_special = inl refl }))

AreTokens-symbol :
    (l : List Token) (w : Word) (c : ℕ) (s : Special)
    → AreTokens l
    → HasNoNul w
    → is_symbol c ≡ true
    → AreTokens (finish_word l w ++ token (c ∷ []) s ∷ [])
AreTokens-symbol l w c s a nz h =
    AreTokens-append (finish_word l w) (token (c ∷ []) s) (AreTokens-finish_word l w a nz)
      (record { word_ne_nil = λ e. cc; symbol_of_special = inr (c, refl, h) })

AreTokens-cut_comment : (l : List Token) → AreTokens l → AreTokens (cut_comment l)
unfolding cut_comment
AreTokens-cut_comment [] a = tt
AreTokens-cut_comment (t ∷ l) a = elim (Bool-cases (is_comment t)) [
  | inl h ↦ rw h tt
  | inr h ↦ rw h (a.0, AreTokens-cut_comment l a.1)
]

AreTokens-strip_comment : (l : List Token) → AreTokens l → AreTokens (strip_comment l)
unfolding strip_comment
AreTokens-strip_comment [] a = tt
AreTokens-strip_comment (t ∷ l) a = elim (Bool-cases (is_comment t)) [
  | inl h ↦ rw h tt
  | inr h ↦ rw h (a.0, AreTokens-cut_comment l a.1)
]

-- What is handed to `execute`: at least one token, each well formed.
abbrev pub IsCommandLine : List Token → Type 0
IsCommandLine l = (l ≢ []) × AreTokens l

abbrev pub AreCommandLines : List (List Token) → Type 0
AreCommandLines [] = Unit
AreCommandLines (l ∷ ls) = IsCommandLine l × AreCommandLines ls

abbrev IsLine : Option (List Token) → Type 0
IsLine none = Unit
IsLine (some l) = IsCommandLine l

abbrev Good : Scanner × Option (List Token) → Type 0
Good o = AreTokens o.0.done × HasNoNul o.0.word × IsLine o.1

command-IsLine : (l : List Token) → AreTokens l → IsLine (command l)
command-IsLine [] a = tt
command-IsLine (t ∷ l) a = (λ e. cc, a)

kept : (s : Scanner) (c : ℕ) → HasNoNul s.word → c ≢ 0 → HasNoNul (keep s c).word
kept s c nz ne = HasNoNul-append s.word (c ∷ []) nz (ne, tt)

scan_separator-Good :
    (s : Scanner) (c : ℕ)
    → AreTokens s.done
    → HasNoNul s.word
    → c ≢ 0
    → Good (
        if is_symbol c
        then (symbol s c, none)
        else if c == b' '
        then (blank s, none)
        else if c == b'\n'
        then end_line s
        else (keep s c, none))
scan_separator-Good s c a nz ne = elim (Bool-cases (is_symbol c)) [
  | inl h ↦ rw h (AreTokens-symbol s.done s.word c _ a nz h, tt, tt)
  | inr h ↦ rw h (elim (Bool-cases (c == b' ')) [
    | inl h ↦ rw h (AreTokens-finish_word s.done s.word a nz, tt, tt)
    | inr h ↦ rw h (elim (Bool-cases (c == b'\n')) [
      | inl h ↦ rw h (
        tt,
        tt,
        command-IsLine _ (AreTokens-strip_comment _ (AreTokens-finish_word s.done s.word a nz)),
      )
      | inr h ↦ rw h (a, kept s c nz ne, tt)
    ])
  ])
]

scan_mode-Good :
    (m : Mode) (s : Scanner) (c : ℕ)
    → AreTokens s.done
    → HasNoNul s.word
    → c ≢ 0
    → Good (scan_mode m s c)
scan_mode-Good bare s c a nz ne = elim (Bool-cases (c == b'"')) [
  | inl h ↦ rw h (a, nz, tt)
  | inr h ↦ rw h (elim (Bool-cases (c == b'\'')) [
    | inl h ↦ rw h (a, nz, tt)
    | inr h ↦ rw h (elim (Bool-cases (c == b'\\')) [
      | inl h ↦ rw h (a, nz, tt)
      | inr h ↦ rw h (scan_separator-Good s c a nz ne)
    ])
  ])
]
scan_mode-Good single s c a nz ne = elim (Bool-cases (c == b'\'')) [
  | inl h ↦ rw h (a, nz, tt)
  | inr h ↦ rw h (a, kept s c nz ne, tt)
]
scan_mode-Good double s c a nz ne = elim (Bool-cases (c == b'"')) [
  | inl h ↦ rw h (a, nz, tt)
  | inr h ↦ rw h (elim (Bool-cases (c == b'\\')) [
    | inl k ↦ rw k (a, nz, tt)
    | inr k ↦ rw k (a, kept s c nz ne, tt)
  ])
]

unescaped-HasNoNul : (c : ℕ) → c ≢ 0 → HasNoNul (unescaped c)
unescaped-HasNoNul c ne = by_newline (c == b'\n')
  where
    by_case : (b : Bool) → HasNoNul (if b then c ∷ [] else b'\\' ∷ c ∷ [])
    by_case true = (ne, tt)
    by_case false = ((λ e. absurd (omega (arith, e))), (ne, tt))

    by_newline :
        (b : Bool) → HasNoNul (if b then [] else if is_quotable c then c ∷ [] else b'\\' ∷ c ∷ [])
    by_newline true = tt
    by_newline false = by_case (is_quotable c)

scan_byte-Good :
    (s : Scanner) (c : ℕ) → AreTokens s.done → HasNoNul s.word → c ≢ 0 → Good (scan_byte s c)
unfolding scan_byte
scan_byte-Good s c a nz ne = go s.escaped (scan_mode s.mode s c) (scan_mode-Good s.mode s c a nz ne)
  where
    go :
        (b : Bool) (o : Scanner × Option (List Token))
        → Good o
        → Good (if b then (record s { word = s.word ++ unescaped c; escaped = false }, none) else o)
    go true o h = (a, HasNoNul-append s.word (unescaped c) nz (unescaped-HasNoNul c ne), tt)
    go false o h = h

AreCommandLines-put_line :
    (o : Option (List Token)) (ls : List (List Token))
    → IsLine o
    → AreCommandLines ls
    → AreCommandLines (put_line o ls)
AreCommandLines-put_line none ls h a = a
AreCommandLines-put_line (some l) ls h a = (h, a)

scan-AreCommandLines :
    (s : Scanner) (cs : List ℕ)
    → AreTokens s.done
    → HasNoNul s.word
    → HasNoNul cs
    → AreCommandLines (scan s cs).1
unfolding scan
scan-AreCommandLines s [] a nz h = tt
scan-AreCommandLines s (c ∷ cs) a nz (ne, h) =
    let (tokens, word, line) = scan_byte-Good s c a nz ne in
    AreCommandLines-put_line _ _ line (scan-AreCommandLines (scan_byte s c).0 cs tokens word h)

-- Whatever the input is, as long as no byte of it is 0, every command line handed to `execute` is not
-- empty, and each of its tokens has a word that is not empty and, where it is marked as special, is one
-- of the four symbols.
pub read-AreCommandLines : (cs : List ℕ) → HasNoNul cs → AreCommandLines (read initial cs).1
read-AreCommandLines cs h = subst AreCommandLines (sym (read-scan initial cs initial-IsLegal).2) (
    scan-AreCommandLines (view initial) cs (unfold initial in tt)
      (unfold initial create_buffer in tt) h)
