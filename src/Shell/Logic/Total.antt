-- ===== src/Shell/Logic/Total.antt =====
-- 2/shell.c: `split_logic` cuts a list without losing a token, and `execute_logic` ends on every list.
use sysproghw.Base.{
  ℕ, zero, suc, ◌+◌, ◌≤◌, ◌<◌, ◌≡◌, refl, ◌∙◌, ap, Bool, true, inl, inr, ◌⊎◌, not, ◌&&◌, List, [],
  ◌∷◌, ◌++◌, Option, some, arith, Bool-cases, length, bind,
}
use sysproghw.Base.Int.{ℤ, pos, is_zero}
use sysproghw.Shell.Token.{
  Token, token, word_eq, Special, spec_first, spec_second, is_first, is_second,
}
use sysproghw.Shell.Logic.{
  LogicOp, logic_and, logic_or, logic_empty, is_and, is_or, is_empty, is_last, check_or, check_and,
  behind, Split, split_logic, skip, next_command, logic_loop, execute_logic,
}

-- The tokens that `split_logic` drops between the two parts.
abbrev pub IsOperator : LogicOp → List Token → Type 0
IsOperator logic_or m = (m ≡ token (b'|' ∷ []) spec_first ∷ token (b'|' ∷ []) spec_second ∷ [])
IsOperator logic_and m = (m ≡ token (b'&' ∷ []) spec_first ∷ token (b'&' ∷ []) spec_second ∷ [])
IsOperator _ m = (m ≡ [])

pub record Cuts (l : List Token) (s : Split) : Type 0 where
  pub middle : List Token
  pub is_operator : IsOperator s.0 middle
  pub whole : l ≡ s.1 ++ (middle ++ s.2)

symbol_of : (x : List ℕ) (c : ℕ) → word_eq x (c ∷ []) ≡ true → x ≡ c ∷ []
unfolding word_eq
symbol_of [] c h = cc
symbol_of (x ∷ []) c h = ground arith
symbol_of (x ∷ y ∷ r) c h = ground arith

first_of_test : (s : Special) → is_first s ≡ true → s ≡ spec_first
first_of_test spec_first h = refl
first_of_test s h = cc

second_of_test : (s : Special) → is_second s ≡ true → s ≡ spec_second
second_of_test spec_second h = refl
second_of_test s h = cc

-- Two symbols, the second directly behind the first.
pair_of_tests :
    (c : ℕ) (p q : Token)
    → (word_eq p.word (c ∷ []) && is_first p.spec && word_eq q.word (c ∷ []) && is_second q.spec)
      ≡ true
    → p ∷ q ∷ [] ≡ token (c ∷ []) spec_first ∷ token (c ∷ []) spec_second ∷ []
pair_of_tests c p q h = cc (
  symbol_of p.word c (ground arith),
  first_of_test p.spec (ground arith),
  symbol_of q.word c (ground arith),
  second_of_test q.spec (ground arith),
)

Cuts-behind : (t : Token) (l : List Token) (s : Split) → Cuts l s → Cuts (t ∷ l) (behind t s)
Cuts-behind t l (op, front, tail) k = record {
  middle = k.middle;
  is_operator = k.is_operator;
  whole = ap (◌∷◌ t) k.whole;
}

split_logic_at :
    (t u : Token) (r : List Token)
    → Cuts (u ∷ r) (split_logic (u ∷ r))
    → Cuts (t ∷ u ∷ r) (split_logic (t ∷ u ∷ r))
unfolding split_logic check_or check_and
split_logic_at t u [] k = Cuts-behind t (u ∷ []) (split_logic (u ∷ [])) k
split_logic_at t u (v ∷ r) k = elim (Bool-cases (check_or (u ∷ v ∷ r))) [
  | inl o ↦
      rw o (record { middle = u ∷ v ∷ []; is_operator = pair_of_tests b'|' u v o; whole = refl })
  | inr no_or ↦ rw no_or (elim (Bool-cases (check_and (u ∷ v ∷ r))) [
    | inl a ↦
        rw a (record { middle = u ∷ v ∷ []; is_operator = pair_of_tests b'&' u v a; whole = refl })
    | inr no_and ↦ rw no_and (Cuts-behind t (u ∷ v ∷ r) (split_logic (u ∷ v ∷ r)) k)
  ])
]

-- `split_logic` returns two parts of the list; what it drops between them is the operator that it
-- reports, and nothing where it reports none.
pub split_logic-Cuts : (l : List Token) → Cuts l (split_logic l)
split_logic-Cuts [] = unfold split_logic in record { middle = []; is_operator = refl; whole = refl }
split_logic-Cuts (t ∷ []) =
    unfold split_logic in record { middle = []; is_operator = refl; whole = refl }
split_logic-Cuts (t ∷ u ∷ r) = split_logic_at t u r (split_logic-Cuts (u ∷ r))

-- What is left is shorter than the list, unless both are empty.
IsShorter : List Token → List Token → Type 0
IsShorter l tail = ((l ≡ []) × (tail ≡ [])) ⊎ (length tail < length l)

tail_IsShorter : (l : List Token) → IsShorter l (split_logic l).2
unfolding IsShorter split_logic
tail_IsShorter [] = inl (refl, refl)
tail_IsShorter (t ∷ []) = inr (omega arith)
tail_IsShorter (t ∷ u ∷ []) = unfold check_or check_and in inr (omega arith)
tail_IsShorter (t ∷ u ∷ v ∷ r) = go (tail_IsShorter (u ∷ v ∷ r))
  where
    go :
        IsShorter (u ∷ v ∷ r) (split_logic (u ∷ v ∷ r)).2
        → IsShorter (t ∷ u ∷ v ∷ r) (split_logic (t ∷ u ∷ v ∷ r)).2
    go h = elim (Bool-cases (check_or (u ∷ v ∷ r))) [
      | inl o ↦ rw o (inr (omega arith))
      | inr a ↦ rw a (elim (Bool-cases (check_and (u ∷ v ∷ r))) [
        | inl o ↦ rw o (inr (omega arith))
        | inr b ↦ rw b (elim h [ inl e ↦ cc e.0 | inr lt ↦ inr (omega arith) ])
      ])
    ]

record Ends (n : ℕ) (o : Option (List Token)) : Type 0 where
  left : List Token
  result : o ≡ some left
  bound : length left ≤ n

skip_empty : (k : ℕ) (is_stop : LogicOp → Bool) → 0 < k → skip k is_stop logic_empty [] ≡ some []
unfolding skip
skip_empty zero is_stop h = elim h [ ]
skip_empty (suc k) is_stop h = refl

skip-Ends :
    (k : ℕ) (is_stop : LogicOp → Bool) (op : LogicOp) (tail : List Token)
    → length tail + 1 < k
    → Ends (length tail) (skip k is_stop op tail)
unfolding skip IsShorter
skip-Ends zero is_stop op tail fuel = elim fuel [ ]
skip-Ends (suc k) is_stop op tail fuel = elim (Bool-cases (not (is_empty op) && not (is_stop op))) [
  | inr stop ↦ record { left = tail; result = rw stop; bound = omega arith }
  | inl more ↦ elim (tail_IsShorter tail) [
    | inr lt ↦
        let e = skip-Ends k is_stop (split_logic tail).0 (split_logic tail).2 (omega arith) in
        record { left = e.left; result = rw more e.result; bound = omega (arith, e.bound) }
    | inl (none_left, _) ↦
        rw (more, none_left)
          (record { left = []; result = skip_empty k is_stop (omega arith); bound = omega arith })
  ]
]

next_command-Ends :
    (op : LogicOp) (code : ℤ) (tail : List Token) → Ends (length tail) (next_command op code tail)
unfolding next_command
next_command-Ends op code tail = elim (Bool-cases (is_or op && is_zero code)) [
  | inl o ↦ rw o (skip-Ends (length tail + 2) is_and op tail (omega arith))
  | inr n ↦ rw n (elim (Bool-cases (is_and op && not (is_zero code))) [
    | inl a ↦ rw a (skip-Ends (length tail + 2) is_or op tail (omega arith))
    | inr m ↦ rw m (record { left = tail; result = refl; bound = omega arith })
  ])
]

module _ {W : Type 0} (execute_pipeline : List Token → W → ℤ × W) where
  logic_loop_ends :
      (k : ℕ) (p : List Token) (code : ℤ) (w : W)
      → length p < k
      → (r : ℤ × W) × (logic_loop execute_pipeline k p code w ≡ some r)
  unfolding logic_loop IsShorter
  logic_loop_ends zero p code w fuel = elim fuel [ ]
  logic_loop_ends (suc k) p code w fuel = elim (tail_IsShorter p) [
    | inl (none_left, _) ↦ rw none_left ((code, w), unfold split_logic in refl)
    | inr lt ↦ elim (Bool-cases (is_empty (split_logic p).0)) [
      | inl e ↦ rw e ((code, w), refl)
      | inr e ↦ rw e (elim (Bool-cases (is_last (split_logic p).0)) [
        | inl l ↦ rw l (execute_pipeline (split_logic p).1 w, refl)
        | inr l ↦ rw l (
            let (code', w') = execute_pipeline (split_logic p).1 w in
            let n = next_command-Ends (split_logic p).0 code' (split_logic p).2 in
            let (r, e) = logic_loop_ends k n.left code' w' (omega (arith, n.bound)) in
            (r, ap (λ o. bind o (λ p'. logic_loop execute_pipeline k p' code' w')) n.result ∙ e))
      ])
    ]
  ]

  -- `execute_logic` ends on every list of tokens, whatever exit codes the pipelines return.
  pub execute_logic_ends :
      (p : List Token) (w : W) → (r : ℤ × W) × (execute_logic execute_pipeline p w ≡ some r)
  unfolding execute_logic
  execute_logic_ends p w = logic_loop_ends (length p + 1) p (pos 0) w (omega arith)
