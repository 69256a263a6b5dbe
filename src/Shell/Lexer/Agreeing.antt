-- ===== src/Shell/Lexer/Agreeing.antt =====
-- 2/shell.c: the state of the reading loop and that of a scanner, when they agree.
use sysproghw.Base.{
  ℕ, zero, suc, ◌≤◌, ◌<◌, ◌≡◌, refl, Bool, false, ◌&&◌, ◌||◌, inl, inr, List, [], ◌∷◌, ◌++◌, Option,
  none, arith, ◌==◌, if◌then◌else◌, Bool-cases, length, take,
}
use sysproghw.Base.Buffer.{
  Buffer, contents, insert_buffer, create_buffer-IsValid, contents-insert_buffer,
  insert_buffer-IsValid,
}
use sysproghw.Base.Buffer
use sysproghw.Shell.Token.{Token, spec_default, insert_list}
use sysproghw.Shell.Lexer.{
  Lexer, Outcome, need_escape, spec_symbol, add, quote_d_byte, quote_s_byte, backslash_byte,
}
use sysproghw.Shell.Lexer.Scanner.{
  bare, single, double, Scanner, finish_word, is_symbol, is_quotable, scan_byte,
}

-- What the variables of `main` stand for.
abbrev pub view : Lexer → Scanner
view s = record {
  done = s.list;
  word = contents s.buf;
  mode = if s.is_quote_d then double else if s.is_quote_s then single else bare;
  escaped = s.is_escape;
  joined = s.is_prev_spec;
}

-- The two quotes are never open at once, and no symbol stands directly before a byte in quotes.
pub record IsLegal (s : Lexer) : Type 0 where
  pub buffer : Buffer.IsValid s.buf
  pub one_quote : (s.is_quote_d && s.is_quote_s) ≡ false
  pub alone : ((s.is_quote_d || s.is_quote_s) && s.is_prev_spec) ≡ false

-- One step of the program and one of the scanner agree.
pub record Agrees (o : Outcome) (p : Scanner × Option (List Token)) : Type 0 where
  pub legal : IsLegal o.0
  pub state : view o.0 ≡ p.0
  pub line : o.1 ≡ p.1

contents_pos :
    (b : Buffer ℕ)
    → Buffer.IsValid b
    → (b.pos == 0) ≡ false
    → (c : ℕ) × (cs : List ℕ) × (contents b ≡ c ∷ cs)
contents_pos b v h = go b.array b.pos (omega (arith, v.sized, v.fits)) (ground arith)
  where
    go :
        (xs : List ℕ) (n : ℕ)
        → n ≤ length xs
        → 0 < n
        → (c : ℕ) × (cs : List ℕ) × (take n xs ≡ c ∷ cs)
    go xs zero le h = elim h [ ]
    go [] (suc n) le h = absurd (omega arith)
    go (x ∷ xs) (suc n) le h = (x, take n xs, refl)

pub insert_list-finish_word :
    (l : List Token) (b : Buffer ℕ)
    → Buffer.IsValid b
    → ((insert_list l b spec_default).0 ≡ finish_word l (contents b))
      × Buffer.IsValid (insert_list l b spec_default).1
      × (contents (insert_list l b spec_default).1 ≡ [])
unfolding insert_list
insert_list-finish_word l b v = elim (Bool-cases (b.pos == 0)) [
  | inl none_yet ↦
      let z : b.pos ≡ 0 = ground arith in (rw none_yet (rw z), rw none_yet v, rw none_yet (rw z))
  | inr some_yet ↦
      let (c, cs, e) = contents_pos b v some_yet in
      (
        rw some_yet (rw e),
        rw some_yet (record { has_room = v.has_room; fits = omega arith; sized = v.sized }),
        rw some_yet,
      )
]

abbrev Quiet : Lexer → Scanner → Type 0
Quiet t u = Agrees (t, none) (u, none)

-- Flags settled, a step that only appends `c` to the word.
add-Quiet :
    (s : Lexer) (c : ℕ)
    → IsLegal s
    → (flag : Bool) → ((s.is_quote_d || s.is_quote_s) && flag) ≡ false
    → Quiet
        (record (add s c) { is_prev_spec = flag })
        (record (view s) { word = (view s).word ++ c ∷ []; joined = flag })
unfolding add
add-Quiet s c h flag a = record {
  legal = record {
    buffer = insert_buffer-IsValid 0 s.buf c h.buffer;
    one_quote = h.one_quote;
    alone = a;
  };
  state = ground (arith, contents-insert_buffer 0 s.buf c h.buffer);
  line = refl;
}

pub quote_d_byte-Agrees :
    (s : Lexer)
    → IsLegal s
    → s.is_escape ≡ false
    → Agrees (quote_d_byte s b'"', none) (scan_byte (view s) b'"')
unfolding quote_d_byte scan_byte add
quote_d_byte-Agrees s h e = record {
  legal = record {
    buffer = ground (arith, insert_buffer-IsValid 0 s.buf b'"' h.buffer);
    one_quote = ground arith;
    alone = ground arith;
  };
  state = ground (arith, contents-insert_buffer 0 s.buf b'"' h.buffer);
  line = ground arith;
}

pub quote_s_byte-Agrees :
    (s : Lexer)
    → IsLegal s
    → s.is_escape ≡ false
    → Agrees (quote_s_byte s b'\'', none) (scan_byte (view s) b'\'')
unfolding quote_s_byte scan_byte add
quote_s_byte-Agrees s h e = record {
  legal = record {
    buffer = ground (arith, insert_buffer-IsValid 0 s.buf b'\'' h.buffer);
    one_quote = ground arith;
    alone = ground arith;
  };
  state = ground (arith, contents-insert_buffer 0 s.buf b'\'' h.buffer);
  line = ground arith;
}

pub backslash_byte-Agrees :
    (s : Lexer)
    → IsLegal s
    → s.is_escape ≡ false
    → Agrees (backslash_byte s b'\\', none) (scan_byte (view s) b'\\')
unfolding backslash_byte scan_byte add
backslash_byte-Agrees s h e = record {
  legal = record {
    buffer = ground (arith, insert_buffer-IsValid 0 s.buf b'\\' h.buffer);
    one_quote = ground arith;
    alone = ground arith;
  };
  state = ground (arith, contents-insert_buffer 0 s.buf b'\\' h.buffer);
  line = ground arith;
}

pub need_escape-is_quotable : (c : ℕ) → need_escape c ≡ is_quotable c
unfolding need_escape
need_escape-is_quotable c = ground arith

pub spec_symbol-is_symbol : (c : ℕ) → spec_symbol c ≡ is_symbol c
unfolding spec_symbol
spec_symbol-is_symbol c = ground arith
