-- ===== src/Shell/Token.antt =====
-- 2/shell.c: `struct list`, its word and special mark, and the functions on a whole command line.
-- A `struct head_list` owns its nodes alone, so it is the list of them; `last` is its last element.
use sysproghw.Base.{
  ◌≡◌, ◌≢◌, refl, ap, arith, ℕ, zero, suc, Bool, true, false, ◌&&◌, List, [], ◌∷◌, ◌++◌, Option,
  none, some, ◌==◌, if◌then◌else◌, take,
}
use sysproghw.Base.Buffer.{Buffer}

-- A `char*`: the bytes in front of its terminator, none of which is 0.
abbrev pub Word : Type 0
Word = List ℕ

pub data Special : Type 0 where
  spec_default spec_first spec_second : Special

abbrev pub is_default : Special → Bool
is_default spec_default = true
is_default _ = false

abbrev pub is_first : Special → Bool
is_first spec_first = true
is_first _ = false

abbrev pub is_second : Special → Bool
is_second spec_second = true
is_second _ = false

pub record Token : Type 0 where
  pub word : Word
  pub spec : Special

abbrev pub token : Word → Special → Token
token w s = record { word = w; spec = s }

-- These bytes and the terminator behind them, as a string: it ends at the first 0.
unfoldable pub c_string : List ℕ → Word
c_string [] = []
c_string (c ∷ cs) = let rest = c_string cs in if c == 0 then [] else c ∷ rest

-- No byte is 0.
abbrev pub HasNoNul : List ℕ → Type 0
HasNoNul [] = Unit
HasNoNul (c ∷ cs) = (c ≢ 0) × HasNoNul cs

pub c_string-HasNoNul : (cs : List ℕ) → HasNoNul cs → c_string cs ≡ cs
unfolding c_string
c_string-HasNoNul [] h = refl
c_string-HasNoNul (c ∷ cs) (ne, h) =
    let nonzero : (c == 0) ≡ false = ground (arith, ne) in
    rw nonzero (ap (λ l. c ∷ l) (c_string-HasNoNul cs h))

pub HasNoNul-append : (xs ys : List ℕ) → HasNoNul xs → HasNoNul ys → HasNoNul (xs ++ ys)
HasNoNul-append [] ys h k = k
HasNoNul-append (x ∷ xs) ys (ne, h) k = (ne, HasNoNul-append xs ys h k)

-- `strcmp(a, b) == 0`
unfoldable pub word_eq : Word → Word → Bool
word_eq [] [] = true
word_eq (x ∷ xs) (y ∷ ys) = x == y && word_eq xs ys
word_eq _ _ = false

-- The word in the buffer becomes a node at the end of the list, unless it is empty.
unfoldable pub insert_list : List Token → Buffer ℕ → Special → List Token × Buffer ℕ
insert_list l b s =
    if b.pos == 0
    then (l, b)
    else (l ++ token (c_string (take b.pos b.array)) s ∷ [], record b { pos = 0 })

-- `p->word[0]`: the terminator where the word is empty.
abbrev pub first_byte : Word → ℕ
first_byte [] = 0
first_byte (c ∷ _) = c

abbrev pub is_comment : Token → Bool
is_comment t = first_byte t.word == b'#'

-- The loop of `strip_comment` over the nodes behind the first.
unfoldable pub cut_comment : List Token → List Token
cut_comment [] = []
cut_comment (t ∷ r) = if is_comment t then [] else t ∷ cut_comment r

unfoldable pub strip_comment : List Token → List Token
unfolding cut_comment
strip_comment [] = []
strip_comment (t ∷ r) = if is_comment t then [] else t ∷ cut_comment r

abbrev pub last_or : Token → List Token → Token
last_or t [] = t
last_or t (u ∷ r) = last_or u r

-- The nodes before the last, of a list that is not empty.
abbrev pub before_last : Token → List Token → List Token
before_last t [] = []
before_last t (u ∷ r) = t ∷ before_last u r

abbrev pub is_background : Token → Bool
is_background t = word_eq t.word (b'&' ∷ []) && is_first t.spec

-- Whether the shell waits for the command, and the command without its `&`.
unfoldable pub check_block : List Token → Bool × List Token
unfolding word_eq
check_block [] = (true, [])
check_block (t ∷ []) = (true, t ∷ [])
check_block (t ∷ u ∷ r) =
    if is_background (last_or u r) then (false, t ∷ before_last u r) else (true, t ∷ u ∷ r)

unfoldable pub len_list : List Token → ℕ
len_list [] = 0
len_list (_ ∷ r) = suc (len_list r)

-- `for(i = 0; i < len; i++)`, on the rounds left; the list has that many nodes.
argv_loop : ℕ → List Token → List Word
argv_loop zero p = []
argv_loop (suc k) [] = []
argv_loop (suc k) (t ∷ r) = t.word ∷ argv_loop k r

-- `argv`, without the NULL behind it.
unfoldable pub create_argv : List Token → List Word
unfolding len_list argv_loop
create_argv p = argv_loop (len_list p) p

-- A command line, if there is one, before those that follow.
abbrev pub put_line : Option (List Token) → List (List Token) → List (List Token)
put_line none lines = lines
put_line (some l) lines = l ∷ lines
