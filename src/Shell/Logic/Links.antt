-- ===== src/Shell/Logic/Links.antt =====
-- 2/shell.c: pipelines joined by && and ||, as tokens and as a list.
use sysproghw.Base.{
  ◌≡◌, refl, ap, Bool, true, false, List, [], ◌∷◌, ◌++◌, Option, none, some, arith, if◌then◌else◌,
}
use mathlib.Core.List.{append-nil}
use sysproghw.Shell.Token.{Token, token, spec_first, spec_second}
use sysproghw.Shell.Logic.{
  LogicOp, logic_last, logic_and, logic_or, is_and, is_or, check_or, check_and, behind, split_logic,
}

pub data Op : Type 0 where
  and_then or_else : Op

abbrev pub logic_of : Op → LogicOp
logic_of and_then = logic_and
logic_of or_else = logic_or

abbrev pub op_tokens : Op → List Token
op_tokens and_then = token (b'&' ∷ []) spec_first ∷ token (b'&' ∷ []) spec_second ∷ []
op_tokens or_else = token (b'|' ∷ []) spec_first ∷ token (b'|' ∷ []) spec_second ∷ []

-- The pipelines behind the first, each with the operator before it.
abbrev pub Links : Type 0
Links = List (Op × List Token)

abbrev pub link_tokens : Links → List Token
link_tokens [] = []
link_tokens ((o, c) ∷ ls) = op_tokens o ++ (c ++ link_tokens ls)

-- No && and no || stands in the list.
abbrev pub HasNoLogic : List Token → Type 0
HasNoLogic [] = Unit
HasNoLogic (t ∷ r) = (check_or (t ∷ r) ≡ false) × (check_and (t ∷ r) ≡ false) × HasNoLogic r

-- The tokens of a pipeline: at least one, and no operator behind the first.
abbrev pub IsPipeline : List Token → Type 0
IsPipeline [] = ⊥
IsPipeline (t ∷ r) = HasNoLogic r

abbrev pub ArePipelines : Links → Type 0
ArePipelines [] = Unit
ArePipelines ((_, c) ∷ ls) = IsPipeline c × ArePipelines ls

split_logic_last :
    (t : Token) (r : List Token) → HasNoLogic r → split_logic (t ∷ r) ≡ (logic_last, t ∷ r, [])
unfolding split_logic
split_logic_last t [] h = refl
split_logic_last t (u ∷ r) h = rw (h.0, h.1) (ap (behind t) (split_logic_last u r h.2))

-- An operator behind a token does not make one with it.
check_or_boundary :
    (o : Op) (t : Token) (rest : List Token) → check_or (t ∷ (op_tokens o ++ rest)) ≡ false
unfolding check_or
check_or_boundary and_then t rest = ground arith
check_or_boundary or_else t rest = ground arith

check_and_boundary :
    (o : Op) (t : Token) (rest : List Token) → check_and (t ∷ (op_tokens o ++ rest)) ≡ false
unfolding check_and
check_and_boundary and_then t rest = ground arith
check_and_boundary or_else t rest = ground arith

split_logic_link :
    (o : Op) (t : Token) (r rest : List Token)
    → HasNoLogic r
    → split_logic (t ∷ (r ++ (op_tokens o ++ rest))) ≡ (logic_of o, t ∷ r, rest)
unfolding split_logic
split_logic_link and_then t [] rest h = refl
split_logic_link or_else t [] rest h = refl
split_logic_link o t (u ∷ []) rest h =
    rw (check_or_boundary o u rest, check_and_boundary o u rest)
      (ap (behind t) (split_logic_link o u [] rest tt))
split_logic_link o t (u ∷ v ∷ r) rest h =
    rw (h.0, h.1) (ap (behind t) (split_logic_link o u (v ∷ r) rest h.2))

abbrev pub same_op : Op → Op → Bool
same_op and_then and_then = true
same_op or_else or_else = true
same_op _ _ = false

-- The first link with operator `o`, and the links behind it.
abbrev pub next_link : Op → Links → Option (List Token × Links)
next_link o [] = none
next_link o ((o', c) ∷ ls) = if same_op o o' then some (c, ls) else next_link o ls

abbrev pub rest_tokens : Option (List Token × Links) → List Token
rest_tokens none = []
rest_tokens (some (c, ls)) = c ++ link_tokens ls

abbrev pub tests : Op → LogicOp → Bool
tests and_then = is_and
tests or_else = is_or

abbrev pub other : Op → Op
other and_then = or_else
other or_else = and_then

pub split_logic_front :
    (c : List Token) (o : Op) (d : List Token) (ls : Links)
    → IsPipeline c
    → split_logic (c ++ link_tokens ((o, d) ∷ ls)) ≡ (logic_of o, c, d ++ link_tokens ls)
split_logic_front [] o d ls h = absurd h
split_logic_front (t ∷ r) o d ls h = split_logic_link o t r (d ++ link_tokens ls) h

pub split_logic_only : (c : List Token) → IsPipeline c → split_logic (c ++ []) ≡ (logic_last, c, [])
unfolding split_logic
split_logic_only [] h = absurd h
split_logic_only (t ∷ r) h = rw append-nil (split_logic_last t r h)
