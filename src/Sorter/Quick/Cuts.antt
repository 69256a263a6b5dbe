-- ===== src/Sorter/Quick/Cuts.antt =====
-- 1/main.c: the cells that the loop of `part` has passed.
use mathlib.Core.Path.{subst}
use sysproghw.Base.{
  ℕ, ◌+◌, ◌-◌, ◌<◌, ◌≤◌, ◌≡◌, refl, ◌∙◌, sym, ◌⊎◌, inl, inr, true, false, List, if◌then◌else◌,
  length, Bool-cases, ltb, ◌==◌, arith,
}
use sysproghw.Base.Int.{ℤ, leb_ℤ}
use sysproghw.Sorter.Code.{ret}
use sysproghw.Sorter.Order.{cell}
use sysproghw.Sorter.Quick.{exchange, scan_up, scan_down}
use sysproghw.Sorter.Quick.Range.{
  IsMoved, IsMoved-trans, exchanged, exchange_lem, exchanged-first, exchanged-other,
  exchanged-IsMoved,
}
use sysproghw.Sorter.Quick.Scans.{AllUpTo, AllAbove, differ, scan_up_lem, scan_down_lem}

-- What `part` has done with `a`, by its loop: the numbers up to `j` are not above `v`, and those
-- behind are.
pub record IsCut (a : List ℤ) (l r : ℕ) (v : ℤ) (o : List ℤ × ℕ) : Type 0 where
  pub moved : IsMoved l (r + 1) a o.0
  pub pivot : cell o.0 l ≡ v
  pub lower : l ≤ o.1
  pub upper : o.1 ≤ r
  pub up : AllUpTo o.0 l (o.1 + 1) v
  pub above : AllAbove o.0 o.1 r v

-- The state of the loop: as long as it goes on, the cell at `i` is not above `v` either.
pub record IsCutting (a b : List ℤ) (l r : ℕ) (v : ℤ) (i j : ℕ) : Type 0 where
  pub moved : IsMoved l (r + 1) a b
  pub pivot : cell b l ≡ v
  pub from : l ≤ i
  pub lower : l ≤ j
  pub upper : j ≤ r
  pub up : AllUpTo b l i v
  pub above : AllAbove b j r v
  pub shape : (i < j) × (leb_ℤ (cell b i) v ≡ true) ⊎ (j + 1 ≡ i)

module _ (a b : List ℤ) (l r : ℕ) (v : ℤ) (i j : ℕ) (long : r < length b)
    (h : IsCutting a b l r v i j) (goes : i < j) (here : leb_ℤ (cell b i) v ≡ true) where
  -- The scan upwards leaves its start.
  further : (i' : ℕ) → i ≤ i' → (i' ≤ r → leb_ℤ (cell b i') v ≡ false) → i < i'
  further i' le stop = elim (Bool-cases (ltb i i')) [
    | inl lt ↦ ground arith
    | inr ge ↦
        (let same : i ≡ i' = ground arith in
          absurd (differ b v i i' here (stop (omega (arith, h.upper))) same))
  ]

  -- The scan downwards stops at the last cell that is not above `v`, at the latest.
  inside : (i' : ℕ) → i' ≤ r + 1 → leb_ℤ (cell b (i' - 1)) v ≡ true → i' - 1 ≤ j
  inside i' le last = elim (Bool-cases (ltb j (i' - 1))) [
    | inl beyond ↦
        absurd
          (differ b v (i' - 1) (i' - 1) last (h.above (i' - 1) (ground arith) (omega arith)) refl)
    | inr within ↦ ground arith
  ]

  -- Where the scans have not met, they stand at two cells that change places.
  exchanged-IsCutting :
      (i' j' : ℕ)
      → i < i'
      → i' < j'
      → j' ≤ j
      → AllUpTo b l i' v
      → AllAbove b j' r v
      → leb_ℤ (cell b j') v ≡ true
      → IsCutting a (exchanged b i' j') l r v i' j'
  exchanged-IsCutting i' j' h₁ h₂ h₃ up above small =
      let hi : i' < length b = omega (arith, h.upper) in
      let hj : j' < length b = omega (arith, h.upper) in
      let now : leb_ℤ (cell (exchanged b i' j') i') v ≡ true =
        subst (λ x. leb_ℤ x v ≡ true) (sym (exchanged-first b i' j' hi hj)) small in
      record {
        moved = IsMoved-trans h.moved (
            exchanged-IsMoved b i' j' hi hj l (r + 1) (omega (arith, h.from))
              (omega (arith, h.from)) (omega (arith, h.upper)) (omega (arith, h.upper)));
        pivot =
            exchanged-other b i' j' hi hj l (inl (omega (arith, h.from)))
              (inl (omega (arith, h.from)))
            ∙ h.pivot;
        from = omega (arith, h.from);
        lower = omega (arith, h.from);
        upper = omega (arith, h.upper);
        up = λ m p q.
            subst (λ x. leb_ℤ x v ≡ true)
              (sym (exchanged-other b i' j' hi hj m (inl q) (inl (omega arith)))) (up m p q);
        above = λ m p q.
            subst (λ x. leb_ℤ x v ≡ false)
              (sym (exchanged-other b i' j' hi hj m (inr (omega arith)) (inr p))) (above m p q);
        shape = inl (h₂, now);
      }

  -- Where they have met, they stand side by side.
  side_by_side :
      (i' j' : ℕ)
      → (i' ≤ r → leb_ℤ (cell b i') v ≡ false)
      → leb_ℤ (cell b j') v ≡ true
      → j' ≤ j
      → i' - 1 ≤ j'
      → j' ≤ i'
      → 0 < i'
      → j' + 1 ≡ i'
  side_by_side i' j' stop small h₁ h₂ h₃ pos = elim (Bool-cases (i' == j')) [
    | inl e ↦
        (let same : j' ≡ i' = ground arith in
          absurd (differ b v j' i' small (stop (omega (arith, h.upper))) same))
    | inr ne ↦ ground arith
  ]

  met-IsCutting :
      (i' j' : ℕ)
      → i < i'
      → j' + 1 ≡ i'
      → j' ≤ j
      → AllUpTo b l i' v
      → AllAbove b j' r v
      → IsCutting a b l r v i' j'
  met-IsCutting i' j' h₁ h₂ h₃ up above = record {
    moved = h.moved;
    pivot = h.pivot;
    from = omega (arith, h.from);
    lower = omega (arith, h.from);
    upper = omega (arith, h.upper);
    up = up;
    above = above;
    shape = inr h₂;
  }

  -- One round: where the two scans stop, and what the exchange makes of it.
  abbrev Round : Type 0
  Round =
      (i' : ℕ) × (j' : ℕ) × (b' : List ℤ) × (scan_up b v (r + 1 - i) i ≡ ret i')
      × (scan_down b v j ≡ ret j')
      × ((if ltb i' j' then exchange b i' j' else ret b) ≡ ret b')
      × (i < i')
      × (j' ≤ j)
      × IsCutting a b' l r v i' j'

  pub round : Round
  round =
      let (i', e₁, h₁, h₂, up, stop) =
        scan_up_lem b v l r (r + 1 - i) i (omega (arith, h.upper)) long h.up in
      let far = further i' h₁ stop in
      let last = up (i' - 1) (omega (arith, h.from)) (omega arith) in
      let (j', e₂, g₁, g₂, small, above) =
        scan_down_lem b v r (i' - 1) j h.upper long (inside i' h₂ last) last h.above in
      meet i' j' e₁ e₂ far h₂ up stop g₁ g₂ small above
    where
      meet :
          (i' j' : ℕ)
          → scan_up b v (r + 1 - i) i ≡ ret i'
          → scan_down b v j ≡ ret j'
          → i < i'
          → i' ≤ r + 1
          → AllUpTo b l i' v
          → (i' ≤ r → leb_ℤ (cell b i') v ≡ false)
          → i' - 1 ≤ j'
          → j' ≤ j
          → leb_ℤ (cell b j') v ≡ true
          → AllAbove b j' r v
          → Round
      meet i' j' e₁ e₂ far h₂ up stop g₁ g₂ small above = elim (Bool-cases (ltb i' j')) [
        | inl lt ↦
            (let lt' : i' < j' = ground arith in
              (
                i',
                j',
                exchanged b i' j',
                e₁,
                e₂,
                rw lt (exchange_lem b i' j' (omega (arith, h.upper)) (omega (arith, h.upper))),
                far,
                g₂,
                exchanged-IsCutting i' j' far lt' g₂ up above small,
              ))
        | inr ge ↦
            (let ge' : j' ≤ i' = ground arith in
              (
                i',
                j',
                b,
                e₁,
                e₂,
                rw ge refl,
                far,
                g₂,
                met-IsCutting i' j' far (side_by_side i' j' stop small g₂ g₁ ge' (omega arith)) g₂
                    up above,
              ))
      ]
