-- ===== src/Shell/Lexer/View.antt =====
-- The loop of `main` in 2/shell.c refines the scanner.
use sysproghw.Base.{
  ℕ, ◌<◌, ◌≡◌, refl, ◌∙◌, ap, sym, true, false, ◌||◌, inl, inr, List, [], ◌∷◌, Option, none, arith,
  ◌==◌, Bool-cases, length, take, set, length-set,
}
use mathlib.Core.Path.{subst, ap₂}
use mathlib.Core.List.{append_assoc, append-nil}
use sysproghw.Base.Buffer.{
  contents, insert_buffer, create_buffer-IsValid, contents-insert_buffer, insert_buffer-IsValid,
}
use sysproghw.Shell.Token.{c_string, Token, spec_default, insert_list, strip_comment, put_line}
use sysproghw.Shell.Lexer.{
  Lexer, Outcome, add, escaped_byte, spec_byte, newline, separator, is_separator, other_byte, step,
  read, initial,
}
use sysproghw.Shell.Lexer.Scanner.{Scanner, is_symbol, scan_byte, scan, command}
use sysproghw.Shell.Lexer.Agreeing.{
  view, IsLegal, Agrees, insert_list-finish_word, quote_d_byte-Agrees, quote_s_byte-Agrees,
  backslash_byte-Agrees, need_escape-is_quotable, spec_symbol-is_symbol,
}

-- Two bytes, the backslash that was held back and the byte behind it.
escaped_byte-Agrees :
    (s : Lexer) (c : ℕ)
    → IsLegal s
    → s.is_escape ≡ true
    → Agrees (escaped_byte s c, none) (scan_byte (view s) c)
unfolding escaped_byte scan_byte add
escaped_byte-Agrees s c h e =
    let one = insert_buffer 0 s.buf b'\\' in
    let one_valid = insert_buffer-IsValid 0 s.buf b'\\' h.buffer in
    let one_is = contents-insert_buffer 0 s.buf b'\\' h.buffer in
    rw (need_escape-is_quotable c) (record {
      legal = record {
        buffer = ground (
          arith,
          insert_buffer-IsValid 0 s.buf c h.buffer,
          one_valid,
          insert_buffer-IsValid 0 one c one_valid,
        );
        one_quote = ground arith;
        alone = ground arith;
      };
      state = ground (
        arith,
        one_is,
        contents-insert_buffer 0 s.buf c h.buffer,
        contents-insert_buffer 0 one c one_valid,
        append_assoc (contents s.buf) (b'\\' ∷ []) (c ∷ []),
        append-nil (contents s.buf),
      );
      line = ground arith;
    })

other_byte-Agrees :
    (s : Lexer) (c : ℕ)
    → IsLegal s
    → s.is_escape ≡ false
    → (c == b'"') ≡ false
    → (c == b'\'') ≡ false
    → (c == b'\\') ≡ false
    → is_separator c ≡ false
    → Agrees (other_byte s c, none) (scan_byte (view s) c)
unfolding other_byte scan_byte add is_separator
other_byte-Agrees s c h e nd ns nb ns2 = record {
  legal = record {
    buffer = insert_buffer-IsValid 0 s.buf c h.buffer;
    one_quote = h.one_quote;
    alone = ground arith;
  };
  state = ground (arith, contents-insert_buffer 0 s.buf c h.buffer);
  line = ground arith;
}

take-one-set : (xs : List ℕ) (c : ℕ) → 0 < length xs → take 1 (set xs 0 c) ≡ c ∷ []
take-one-set [] c h = elim h [ ]
take-one-set (x ∷ xs) c h = refl

c_string-symbol : (c : ℕ) → is_symbol c ≡ true → c_string (c ∷ []) ≡ c ∷ []
unfolding c_string
c_string-symbol c h = let nonzero : (c == 0) ≡ false = ground arith in rw nonzero refl

-- The state between the end of a word and the byte that ended it.
abbrev ended : Lexer → Lexer
ended s = let (l, b) = insert_list s.list s.buf spec_default in record s { list = l; buf = b }

spec_byte-Agrees :
    (s : Lexer) (c : ℕ)
    → IsLegal s
    → s.is_escape ≡ false
    → s.is_quote_d ≡ false
    → s.is_quote_s ≡ false
    → is_symbol c ≡ true
    → Agrees (spec_byte (ended s) c, none) (scan_byte (view s) c)
unfolding spec_byte scan_byte
spec_byte-Agrees s c h e nd ns sym =
    let (list_is, valid, _) = insert_list-finish_word s.list s.buf h.buffer in
    let b = (insert_list s.list s.buf spec_default).1 in
    let one : c_string (take 1 (set b.array 0 c)) ≡ c ∷ [] =
      ap c_string (take-one-set b.array c (omega (arith, valid.sized, valid.has_room)))
      ∙ c_string-symbol c sym in
    record {
      legal = record {
        buffer =
            unfold insert_list in
            record {
              has_room = valid.has_room;
              fits = omega arith;
              sized = length-set b.array 0 c ∙ valid.sized;
            };
        one_quote = ground arith;
        alone = ground arith;
      };
      state = unfold insert_list in ground (arith, list_is, one);
      line = ground arith;
    }

newline-Agrees :
    (s : Lexer)
    → IsLegal s
    → s.is_escape ≡ false
    → s.is_quote_d ≡ false
    → s.is_quote_s ≡ false
    → Agrees (newline (ended s)) (scan_byte (view s) b'\n')
unfolding newline scan_byte
newline-Agrees s h e nd ns =
    let (list_is, valid, empty) = insert_list-finish_word s.list s.buf h.buffer in
    record {
      legal = record { buffer = valid; one_quote = h.one_quote; alone = ground arith };
      state = ground arith;
      line = ap (λ l. command (strip_comment l)) list_is ∙ ground arith;
    }

blank-Agrees :
    (s : Lexer)
    → IsLegal s
    → s.is_escape ≡ false
    → s.is_quote_d ≡ false
    → s.is_quote_s ≡ false
    → Agrees (record (ended s) { is_prev_spec = false }, none) (scan_byte (view s) b' ')
unfolding scan_byte
blank-Agrees s h e nd ns =
    let (list_is, valid, empty) = insert_list-finish_word s.list s.buf h.buffer in
    record {
      legal = record { buffer = valid; one_quote = h.one_quote; alone = ground arith };
      state = ground arith;
      line = ground arith;
    }

separator_in_quotes :
    (s : Lexer) (c : ℕ)
    → IsLegal s
    → s.is_escape ≡ false
    → (s.is_quote_s || s.is_quote_d) ≡ true
    → is_separator c ≡ true
    → Agrees (separator s c) (scan_byte (view s) c)
unfolding separator scan_byte is_separator add
separator_in_quotes s c h e q sp = record {
  legal = record {
    buffer = ground (arith, insert_buffer-IsValid 0 s.buf c h.buffer);
    one_quote = ground arith;
    alone = ground arith;
  };
  state = ground (arith, contents-insert_buffer 0 s.buf c h.buffer);
  line = ground arith;
}

separator_bare :
    (s : Lexer) (c : ℕ)
    → IsLegal s
    → s.is_escape ≡ false
    → (s.is_quote_s || s.is_quote_d) ≡ false
    → is_separator c ≡ true
    → Agrees (separator s c) (scan_byte (view s) c)
unfolding separator
separator_bare s c h e q sp =
    let d : s.is_quote_d ≡ false = ground arith in
    let t : s.is_quote_s ≡ false = ground arith in
    rw (q, spec_symbol-is_symbol c)
      (elim (Bool-cases (is_symbol c)) [
        | inl yes_symbol ↦ rw yes_symbol (spec_byte-Agrees s c h e d t yes_symbol)
        | inr not_symbol ↦ rw not_symbol (elim (Bool-cases (c == b'\n')) [
          | inl end ↦
              rw end (let c_is : c ≡ b'\n' = ground arith in rw c_is (newline-Agrees s h e d t))
          | inr space ↦ rw space (
              let c_is : c ≡ b' ' = unfold is_separator in ground arith in
              rw c_is (blank-Agrees s h e d t))
        ])
      ])

separator-Agrees :
    (s : Lexer) (c : ℕ)
    → IsLegal s
    → s.is_escape ≡ false
    → is_separator c ≡ true
    → Agrees (separator s c) (scan_byte (view s) c)
separator-Agrees s c h e sp = elim (Bool-cases (s.is_quote_s || s.is_quote_d)) [
  | inl q ↦ separator_in_quotes s c h e q sp
  | inr q ↦ separator_bare s c h e q sp
]

by_outcome :
    {o o' : Outcome} (p : Scanner × Option (List Token)) → o ≡ o' → Agrees o' p → Agrees o p
by_outcome p e = subst (λ o. Agrees o p) (sym e)

-- The program keeps its state legal and does what the scanner does, whatever the byte.
pub step-scan_byte : (s : Lexer) (c : ℕ) → IsLegal s → Agrees (step s c) (scan_byte (view s) c)
unfolding step
step-scan_byte s c h = elim (Bool-cases s.is_escape) [
  | inl esc ↦ by_outcome _ (ground arith) (escaped_byte-Agrees s c h esc)
  | inr plain ↦ elim (Bool-cases (c == b'"')) [
    | inl hit ↦
        let e : c ≡ b'"' = ground arith in
        rw e (by_outcome _ (ground arith) (quote_d_byte-Agrees s h plain))
    | inr nd ↦ elim (Bool-cases (c == b'\'')) [
      | inl hit ↦
          let e : c ≡ b'\'' = ground arith in
          rw e (by_outcome _ (ground arith) (quote_s_byte-Agrees s h plain))
      | inr ns ↦ elim (Bool-cases (c == b'\\')) [
        | inl hit ↦
            let e : c ≡ b'\\' = ground arith in
            rw e (by_outcome _ (ground arith) (backslash_byte-Agrees s h plain))
        | inr nb ↦ elim (Bool-cases (is_separator c)) [
          | inl sp ↦ by_outcome _ (ground arith) (separator-Agrees s c h plain sp)
          | inr other ↦ by_outcome _ (ground arith) (other_byte-Agrees s c h plain nd ns nb other)
        ]
      ]
    ]
  ]
]

pub initial-IsLegal : IsLegal initial
unfolding initial
initial-IsLegal = record {
  buffer = create_buffer-IsValid 0 32 (omega arith);
  one_quote = refl;
  alone = refl;
}

-- On every input the program hands to `execute` the command lines that the scanner finds, in order,
-- and its state at the end stands for the scanner's.
pub read-scan :
    (s : Lexer) (cs : List ℕ)
    → IsLegal s
    → IsLegal (read s cs).0
      × (view (read s cs).0 ≡ (scan (view s) cs).0)
      × ((read s cs).1 ≡ (scan (view s) cs).1)
unfolding read scan
read-scan s [] h = (h, refl, refl)
read-scan s (c ∷ cs) h =
    let a = step-scan_byte s c h in
    let (legal, state, lines) = read-scan (step s c).0 cs a.legal in
    (
      legal,
      state ∙ ap (λ v. (scan v cs).0) a.state,
      ap₂ put_line a.line (lines ∙ ap (λ v. (scan v cs).1) a.state),
    )
