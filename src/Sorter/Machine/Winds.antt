-- ===== src/Sorter/Machine/Winds.antt =====
-- 1/main.c: coroutines that do a step in turn come to an end.
use mathlib.Core.Path.{subst}
use sysproghw.Base.{
  ℕ, zero, suc, ◌≡◌, refl, sym, ◌⊎◌, inl, inr, List, [], ◌∷◌, some, get_elem?, set,
}
use sysproghw.Sorter.Code.{Code, ret, swaps, draws, stamps, fault, out_of_fuel}

module _ {A : Type 0} where
  -- `c'` is what is left of the code after a step.
  abbrev pub Child : Code A → Code A → Type 0
  Child c' (ret a) = ⊥
  Child c' (swaps c) = c' ≡ c
  Child c' (draws g) = (v : ℕ) × (c' ≡ g v)
  Child c' (stamps c) = c' ≡ c
  Child c' fault = ⊥
  Child c' out_of_fuel = ⊥

  -- One of the codes has done a step.
  abbrev pub Moves : List (Code A) → List (Code A) → Type 0
  Moves [] cs' = ⊥
  Moves (c ∷ cs) cs' =
      ((c' : Code A) × Child c' c × (cs' ≡ c' ∷ cs))
      ⊎ ((rest : List (Code A)) × Moves cs rest × (cs' ≡ c ∷ rest))

  pub set-Moves :
      (cs : List (Code A)) (n : ℕ) (c c' : Code A)
      → get_elem? cs n ≡ some c
      → Child c' c
      → Moves cs (set cs n c')
  set-Moves [] n c c' e h = cc
  set-Moves (d ∷ cs) zero c c' e h = inl (c', subst (Child c') (let e' : c ≡ d = cc in e') h, refl)
  set-Moves (d ∷ cs) (suc n) c c' e h = inr (set cs n c', set-Moves cs n c c' e h, refl)

  -- However the codes take turns, they come to an end.
  pub data Winds : List (Code A) → Type 0 where
    winds : {cs : List (Code A)} → ((cs' : List (Code A)) → Moves cs cs' → Winds cs') → Winds cs

  data WindsAlone : Code A → Type 0 where
    winds_alone : {c : Code A} → ((c' : Code A) → Child c' c → WindsAlone c') → WindsAlone c

  each_WindsAlone : (c : Code A) → WindsAlone c
  each_WindsAlone (ret a) = winds_alone (λ c' h. absurd h)
  each_WindsAlone (swaps c) = winds_alone (λ c' h. subst WindsAlone (sym h) (each_WindsAlone c))
  each_WindsAlone (draws g) =
      winds_alone (λ c' h. subst WindsAlone (sym h.1) (each_WindsAlone (g h.0)))
  each_WindsAlone (stamps c) = winds_alone (λ c' h. subst WindsAlone (sym h) (each_WindsAlone c))
  each_WindsAlone fault = winds_alone (λ c' h. absurd h)
  each_WindsAlone out_of_fuel = winds_alone (λ c' h. absurd h)

  cons_Winds : (c : Code A) (cs : List (Code A)) → WindsAlone c → Winds cs → Winds (c ∷ cs)
  cons_Winds c cs (winds_alone f) (winds g) = winds (λ cs' h. elim h [
    | inl (c', child, e) ↦ subst Winds (sym e) (cons_Winds c' cs (f c' child) (winds g))
    | inr (rest, moves, e) ↦ subst Winds (sym e) (cons_Winds c rest (winds_alone f) (g rest moves))
  ])

  pub all_Winds : (cs : List (Code A)) → Winds cs
  all_Winds [] = winds (λ cs' h. absurd h)
  all_Winds (c ∷ cs) = cons_Winds c cs (each_WindsAlone c) (all_Winds cs)
