-- ===== src/Shell/Logic.antt =====
-- 2/shell.c: `check_or`, `check_and`, `split_logic` and `execute_logic`.
pub mod Links
pub mod Chain
pub mod Total
use sysproghw.Base.{
  ℕ, zero, suc, ◌+◌, Bool, true, false, not, ◌&&◌, ◌||◌, List, [], ◌∷◌, Option, none, some, ◌==◌,
  if◌then◌else◌, length, drop, bind,
}
use sysproghw.Base.Int.{ℤ, pos, is_zero}
use sysproghw.Shell.Token.{Token, word_eq, is_first, is_second}

pub data LogicOp : Type 0 where
  logic_last logic_and logic_or logic_empty : LogicOp

abbrev pub is_last : LogicOp → Bool
is_last logic_last = true
is_last _ = false

abbrev pub is_and : LogicOp → Bool
is_and logic_and = true
is_and _ = false

abbrev pub is_or : LogicOp → Bool
is_or logic_or = true
is_or _ = false

abbrev pub is_empty : LogicOp → Bool
is_empty logic_empty = true
is_empty _ = false

-- A node and the one behind it, which may be missing; never called on NULL.
unfoldable pub check_or : List Token → Bool
unfolding word_eq
check_or [] = false
check_or (p ∷ []) = false
check_or (p ∷ q ∷ _) =
    word_eq p.word (b'|' ∷ []) && is_first p.spec && word_eq q.word (b'|' ∷ []) && is_second q.spec

unfoldable pub check_and : List Token → Bool
unfolding word_eq
check_and [] = false
check_and (p ∷ []) = false
check_and (p ∷ q ∷ _) =
    word_eq p.word (b'&' ∷ []) && is_first p.spec && word_eq q.word (b'&' ∷ []) && is_second q.spec

-- The operator found, the list at `head` after it was cut, and `*tail`, which is NULL before the call.
abbrev pub Split : Type 0
Split = LogicOp × List Token × List Token

abbrev pub behind : Token → Split → Split
behind t (op, front, tail) = (op, t ∷ front, tail)

unfoldable pub split_logic : List Token → Split
unfolding check_or check_and
split_logic [] = (logic_empty, [], [])
split_logic (t ∷ []) = (logic_last, t ∷ [], [])
split_logic (t ∷ u ∷ r) =
    let rest = split_logic (u ∷ r) in
    if check_or (u ∷ r)
    then (logic_or, t ∷ [], drop 2 (u ∷ r))
    else if check_and (u ∷ r)
    then (logic_and, t ∷ [], drop 2 (u ∷ r))
    else behind t rest

-- `while(logic_op != LOGIC_EMPTY && logic_op != stop)`, on fuel; the value is the last `tail`.
unfoldable pub skip : ℕ → (LogicOp → Bool) → LogicOp → List Token → Option (List Token)
unfolding split_logic
skip zero is_stop op tail = none
skip (suc k) is_stop op tail =
    let (op', _, tail') = split_logic tail in
    let rest = skip k is_stop op' tail' in
    if not (is_empty op) && not (is_stop op) then rest else some tail

-- Where the loop goes on behind a pipeline with this exit code.
unfoldable pub next_command : LogicOp → ℤ → List Token → Option (List Token)
next_command op exit_code tail =
    if is_or op && is_zero exit_code
    then skip (length tail + 2) is_and op tail
    else if is_and op && not (is_zero exit_code)
    then skip (length tail + 2) is_or op tail
    else some tail

module _ {W : Type 0} (execute_pipeline : List Token → W → ℤ × W) where
  -- The outer loop, on fuel.
  unfoldable pub logic_loop : ℕ → List Token → ℤ → W → Option (ℤ × W)
  logic_loop zero p exit_code w = none
  logic_loop (suc k) p exit_code w =
      let (op, front, tail) = split_logic p in
      let (exit_code', w') = execute_pipeline front w in
      let rest = bind (next_command op exit_code' tail) (λ p'. logic_loop k p' exit_code' w') in
      if is_empty op
      then some (exit_code, w)
      else if is_last op
      then some (exit_code', w')
      else rest

  unfoldable pub execute_logic : List Token → W → Option (ℤ × W)
  execute_logic p w = logic_loop (length p + 1) p (pos 0) w
