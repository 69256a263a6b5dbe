-- ===== src/Shell/Logic/Chain.antt =====
-- What a list of pipelines joined by && and || means, and that `execute_logic` of 2/shell.c does it.
use mathlib.Core.List.{append-nil}
use sysproghw.Base.{
  ap, ◌∙◌, sym, ℕ, zero, suc, ◌+◌, ◌*◌, ◌≤◌, ◌<◌, ◌≡◌, refl, true, false, inl, inr, List, [], ◌∷◌,
  ◌++◌, Option, none, some, arith, Bool-cases, length, length-append, bind,
}
use sysproghw.Base.Int.{ℤ, pos, is_zero}
use sysproghw.Shell.Token.{Token}
use sysproghw.Shell.Logic.{split_logic, skip, next_command, logic_loop, execute_logic}
use sysproghw.Shell.Logic.Links.{
  Op, logic_of, Links, link_tokens, IsPipeline, ArePipelines, same_op, next_link, rest_tokens,
  tests, other, split_logic_front, split_logic_only, and_then, or_else,
}

skip-next_link :
    (k : ℕ) (stop : Op) (c : List Token) (ls : Links)
    → IsPipeline c
    → ArePipelines ls
    → length ls + 2 < k
    → skip k (tests stop) (logic_of (other stop)) (c ++ link_tokens ls)
      ≡ some (rest_tokens (next_link stop ls))
unfolding skip
skip-next_link zero stop c ls h hs fuel = absurd (omega arith)
skip-next_link (suc zero) stop c ls h hs fuel = absurd (omega arith)
skip-next_link (suc (suc zero)) stop c ls h hs fuel = absurd (omega arith)
skip-next_link (suc (suc (suc k))) and_then c [] h hs fuel =
    rw (split_logic_only c h) (unfold split_logic in refl)
skip-next_link (suc (suc (suc k))) or_else c [] h hs fuel =
    rw (split_logic_only c h) (unfold split_logic in refl)
skip-next_link (suc (suc (suc k))) and_then c ((and_then, d) ∷ ls) h hs fuel =
    rw (split_logic_front c and_then d ls h)
skip-next_link (suc (suc (suc k))) or_else c ((or_else, d) ∷ ls) h hs fuel =
    rw (split_logic_front c or_else d ls h)
skip-next_link (suc (suc (suc k))) and_then c ((or_else, d) ∷ ls) h hs fuel =
    rw (split_logic_front c or_else d ls h)
      (skip-next_link (suc (suc k)) and_then d ls hs.0 hs.1 (omega arith))
skip-next_link (suc (suc (suc k))) or_else c ((and_then, d) ∷ ls) h hs fuel =
    rw (split_logic_front c and_then d ls h)
      (skip-next_link (suc (suc k)) or_else d ls hs.0 hs.1 (omega arith))

length-link_tokens : (ls : Links) → 2 * length ls ≤ length (link_tokens ls)
length-link_tokens [] = omega arith
length-link_tokens ((and_then, c) ∷ ls) =
    omega (arith, length-append c (link_tokens ls), length-link_tokens ls)
length-link_tokens ((or_else, c) ∷ ls) =
    omega (arith, length-append c (link_tokens ls), length-link_tokens ls)

abbrev IsRest : ℕ → Option (List Token × Links) → Type 0
IsRest n none = Unit
IsRest n (some (c, ls)) = IsPipeline c × ArePipelines ls × (length ls < n)

IsRest-mono : {m n : ℕ} (r : Option (List Token × Links)) → m ≤ n → IsRest m r → IsRest n r
IsRest-mono none le h = tt
IsRest-mono (some (c, ls)) le h = (h.0, h.1, omega arith)

next_link-IsRest : (o : Op) (ls : Links) → ArePipelines ls → IsRest (length ls) (next_link o ls)
next_link-IsRest o [] h = tt
next_link-IsRest o ((o', d) ∷ ls) h = elim (Bool-cases (same_op o o')) [
  | inl hit ↦ rw hit (h.0, h.1, omega arith)
  | inr miss ↦ rw miss (IsRest-mono (next_link o ls) (omega arith) (next_link-IsRest o ls h.1))
]

length_lt_fuel :
    (d : List Token) (ls : Links) → IsPipeline d → length ls + 2 < length (d ++ link_tokens ls) + 2
length_lt_fuel [] ls h = absurd h
length_lt_fuel (t ∷ r) ls h = omega (arith, length-append r (link_tokens ls), length-link_tokens ls)

-- Behind a pipeline with exit code zero the loop goes on at the next pipeline joined by &&.
next_command_zero :
    (o : Op) (code : ℤ) (d : List Token) (ls : Links)
    → is_zero code ≡ true
    → IsPipeline d
    → ArePipelines ls
    → next_command (logic_of o) code (d ++ link_tokens ls)
      ≡ some (rest_tokens (next_link and_then ((o, d) ∷ ls)))
unfolding next_command
next_command_zero and_then code d ls z h hs = rw z
next_command_zero or_else code d ls z h hs =
    rw z (skip-next_link _ and_then d ls h hs (length_lt_fuel d ls h))

next_command_nonzero :
    (o : Op) (code : ℤ) (d : List Token) (ls : Links)
    → is_zero code ≡ false
    → IsPipeline d
    → ArePipelines ls
    → next_command (logic_of o) code (d ++ link_tokens ls)
      ≡ some (rest_tokens (next_link or_else ((o, d) ∷ ls)))
unfolding next_command
next_command_nonzero and_then code d ls z h hs =
    rw z (skip-next_link _ or_else d ls h hs (length_lt_fuel d ls h))
next_command_nonzero or_else code d ls z h hs = rw z

module _ {W : Type 0} (execute_pipeline : List Token → W → ℤ × W) where
  -- The meaning of the links: from left to right, a link runs if the exit code of what ran last is
  -- zero and its operator is &&, or is not zero and its operator is ||.
  eval_links : Links → ℤ → W → ℤ × W
  eval_links [] code w = (code, w)
  eval_links ((and_then, c) ∷ ls) code w = elim (is_zero code) [
    | true ↦ eval_links ls (execute_pipeline c w).0 (execute_pipeline c w).1
    | false ↦ eval_links ls code w
  ]
  eval_links ((or_else, c) ∷ ls) code w = elim (is_zero code) [
    | true ↦ eval_links ls code w
    | false ↦ eval_links ls (execute_pipeline c w).0 (execute_pipeline c w).1
  ]

  pub eval_chain : List Token → Links → W → ℤ × W
  eval_chain c ls w = eval_links ls (execute_pipeline c w).0 (execute_pipeline c w).1

  eval_rest : Option (List Token × Links) → ℤ → W → ℤ × W
  eval_rest none code w = (code, w)
  eval_rest (some (c, ls)) code w = eval_chain c ls w

  eval_links_zero :
      (ls : Links) (code : ℤ) (w : W)
      → is_zero code ≡ true
      → eval_links ls code w ≡ eval_rest (next_link and_then ls) code w
  unfolding eval_links eval_rest eval_chain
  eval_links_zero [] code w z = refl
  eval_links_zero ((and_then, c) ∷ ls) code w z = rw (z, eval_links)
  eval_links_zero ((or_else, c) ∷ ls) code w z = rw (z, eval_links) (eval_links_zero ls code w z)

  eval_links_nonzero :
      (ls : Links) (code : ℤ) (w : W)
      → is_zero code ≡ false
      → eval_links ls code w ≡ eval_rest (next_link or_else ls) code w
  unfolding eval_links eval_rest eval_chain
  eval_links_nonzero [] code w z = refl
  eval_links_nonzero ((or_else, c) ∷ ls) code w z = rw (z, eval_links)
  eval_links_nonzero ((and_then, c) ∷ ls) code w z =
      rw (z, eval_links) (eval_links_nonzero ls code w z)

  LoopRuns : ℕ → Type 0
  LoopRuns k =
      (c : List Token) (ls : Links) (code : ℤ) (w : W)
      → IsPipeline c
      → ArePipelines ls
      → length ls < k
      → logic_loop execute_pipeline k (c ++ link_tokens ls) code w ≡ some (eval_chain c ls w)

  -- Behind a skip the loop goes on with what is left, or ends.
  logic_loop-rest :
      (k : ℕ) (r : Option (List Token × Links)) (code : ℤ) (w : W)
      → LoopRuns (suc k)
      → IsRest (suc k) r
      → logic_loop execute_pipeline (suc k) (rest_tokens r) code w ≡ some (eval_rest r code w)
  unfolding LoopRuns eval_rest
  logic_loop-rest k none code w run h = unfold logic_loop split_logic in refl
  logic_loop-rest k (some (c, ls)) code w run h = run c ls code w h.0 h.1 h.2

  -- One round behind the first pipeline: `o` is the operator found and `code` the exit code.
  logic_loop-link :
      (k : ℕ) (o : Op) (d : List Token) (ls : Links) (code : ℤ) (w : W)
      → LoopRuns (suc k)
      → IsPipeline d
      → ArePipelines ls
      → length ls < suc k
      → bind
          (next_command (logic_of o) code (d ++ link_tokens ls))
          (λ p. logic_loop execute_pipeline (suc k) p code w)
        ≡ some (eval_links ((o, d) ∷ ls) code w)
  logic_loop-link k o d ls code w run h hs fuel = elim (Bool-cases (is_zero code)) [
    | inl z ↦ rw (eval_links_zero ((o, d) ∷ ls) code w z) (
        rw (next_command_zero o code d ls z h hs) (
          logic_loop-rest k (next_link and_then ((o, d) ∷ ls)) code w run
            (IsRest-mono _ (omega arith) (next_link-IsRest and_then ((o, d) ∷ ls) (h, hs)))))
    | inr z ↦ rw (eval_links_nonzero ((o, d) ∷ ls) code w z) (
        rw (next_command_nonzero o code d ls z h hs) (
          logic_loop-rest k (next_link or_else ((o, d) ∷ ls)) code w run
            (IsRest-mono _ (omega arith) (next_link-IsRest or_else ((o, d) ∷ ls) (h, hs)))))
  ]

  -- With fuel for each link the loop computes the meaning of the chain.
  logic_loop-eval_chain : (k : ℕ) → LoopRuns k
  unfolding LoopRuns logic_loop eval_chain eval_links
  logic_loop-eval_chain zero c ls code w h hs fuel = elim fuel [ ]
  logic_loop-eval_chain (suc k) c [] code w h hs fuel = rw (split_logic_only c h)
  logic_loop-eval_chain (suc zero) c ((o, d) ∷ ls) code w h hs fuel = absurd (omega arith)
  logic_loop-eval_chain (suc (suc k)) c ((and_then, d) ∷ ls) code w h hs fuel =
      rw (split_logic_front c and_then d ls h) (
        logic_loop-link k and_then d ls (execute_pipeline c w).0 (execute_pipeline c w).1
          (logic_loop-eval_chain (suc k)) hs.0 hs.1 (omega arith))
  logic_loop-eval_chain (suc (suc k)) c ((or_else, d) ∷ ls) code w h hs fuel =
      rw (split_logic_front c or_else d ls h) (
        logic_loop-link k or_else d ls (execute_pipeline c w).0 (execute_pipeline c w).1
          (logic_loop-eval_chain (suc k)) hs.0 hs.1 (omega arith))

  -- On the tokens of pipelines joined by && and ||, each with at least one token and with no operator
  -- behind its first token, `execute_logic` ends, runs the pipelines that the meaning of the chain
  -- runs, in that order, and returns the exit code of the last one that ran.
  pub execute_logic-eval_chain :
      (c : List Token) (ls : Links) (w : W)
      → IsPipeline c
      → ArePipelines ls
      → execute_logic execute_pipeline (c ++ link_tokens ls) w ≡ some (eval_chain c ls w)
  unfolding execute_logic LoopRuns
  execute_logic-eval_chain c ls w h hs =
      logic_loop-eval_chain (length (c ++ link_tokens ls) + 1) c ls (pos 0) w h hs
        (omega (arith, length_lt_fuel c ls h))

  -- A pipeline alone is run, once.
  pub execute_logic-alone :
      (c : List Token) (w : W)
      → IsPipeline c
      → execute_logic execute_pipeline c w ≡ some (execute_pipeline c w)
  unfolding eval_chain eval_links
  execute_logic-alone c w h =
      ap (λ l. execute_logic execute_pipeline l w) (sym (append-nil c))
      ∙ execute_logic-eval_chain c [] w h tt
