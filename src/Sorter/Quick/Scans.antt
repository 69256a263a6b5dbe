-- ===== src/Sorter/Quick/Scans.antt =====
-- 1/main.c: the two scans of `part`.
use mathlib.Core.Path.{subst}
use sysproghw.Base.{
  ℕ, zero, suc, ◌+◌, ◌<◌, ◌≤◌, ◌≡◌, ◌≢◌, refl, ◌∙◌, sym, inl, inr, true, false, List, length,
  Bool-cases, ◌==◌, arith,
}
use sysproghw.Base.Int.{ℤ, leb_ℤ}
use sysproghw.Sorter.Code.{ret}
use sysproghw.Sorter.Order.{cell}
use sysproghw.Sorter.Quick.{scan_up, scan_down}
use sysproghw.Sorter.Quick.Range.{read_cell}

-- The cells from `l` to in front of `i` hold no number above `v`.
abbrev pub AllUpTo : List ℤ → ℕ → ℕ → ℤ → Type 0
AllUpTo a l i v = (m : ℕ) → l ≤ m → m < i → leb_ℤ (cell a m) v ≡ true

-- The cells behind `j`, up to `r`, hold numbers above `v`.
abbrev pub AllAbove : List ℤ → ℕ → ℕ → ℤ → Type 0
AllAbove a j r v = (m : ℕ) → j < m → m ≤ r → leb_ℤ (cell a m) v ≡ false

AllUpTo-suc :
    (a : List ℤ) (l i : ℕ) (v : ℤ)
    → AllUpTo a l i v
    → leb_ℤ (cell a i) v ≡ true
    → AllUpTo a l (i + 1) v
AllUpTo-suc a l i v up small m h₁ h₂ = elim (Bool-cases (m == i)) [
  | inl e ↦ (let e' : i ≡ m = ground arith in subst (λ n. leb_ℤ (cell a n) v ≡ true) e' small)
  | inr ne ↦ up m h₁ (ground arith)
]

AllAbove-pred :
    (a : List ℤ) (j r : ℕ) (v : ℤ)
    → AllAbove a (suc j) r v
    → leb_ℤ (cell a (suc j)) v ≡ false
    → AllAbove a j r v
AllAbove-pred a j r v above large m h₁ h₂ = elim (Bool-cases (m == suc j)) [
  | inl e ↦ (let e' : suc j ≡ m = ground arith in subst (λ n. leb_ℤ (cell a n) v ≡ false) e' large)
  | inr ne ↦ above m (ground arith) h₂
]

-- A number is not both up to `v` and above `v`, so the two cells differ.
pub differ :
    (a : List ℤ) (v : ℤ) (i j : ℕ) → leb_ℤ (cell a i) v ≡ true → leb_ℤ (cell a j) v ≡ false → i ≢ j
differ a v i j small large e =
    let bad : leb_ℤ (cell a j) v ≡ true = subst (λ n. leb_ℤ (cell a n) v ≡ true) e small in
    true_not_false (sym bad ∙ large)
  where
    true_not_false : true ≡ false → ⊥
    true_not_false q = cc

pub scan_up_lem :
    (a : List ℤ) (v : ℤ) (l r k i : ℕ)
    → i + k ≡ r + 1
    → r < length a
    → AllUpTo a l i v
    → (i' : ℕ) × (scan_up a v k i ≡ ret i')
      × (i ≤ i')
      × (i' ≤ r + 1)
      × AllUpTo a l i' v
      × (i' ≤ r → leb_ℤ (cell a i') v ≡ false)
unfolding scan_up
scan_up_lem a v l r zero i e long up =
    (i, refl, omega arith, omega arith, up, λ h. absurd (omega arith))
scan_up_lem a v l r (suc k) i e long up = elim (Bool-cases (leb_ℤ (cell a i) v)) [
  | inl small ↦
      (let up' : AllUpTo a l (i + 1) v = AllUpTo-suc a l i v up small in
        let (i', e', h₁, h₂, up'', stop) = scan_up_lem a v l r k (i + 1) (omega arith) long up' in
        (i', rw (read_cell a i (omega arith), small) e', omega arith, h₂, up'', stop))
  | inr large ↦
      (i, rw (read_cell a i (omega arith), large) refl, omega arith, omega arith, up, λ h. large)
]

pub scan_down_lem :
    (a : List ℤ) (v : ℤ) (r s j : ℕ)
    → j ≤ r
    → r < length a
    → s ≤ j
    → leb_ℤ (cell a s) v ≡ true
    → AllAbove a j r v
    → (j' : ℕ) × (scan_down a v j ≡ ret j')
      × (s ≤ j')
      × (j' ≤ j)
      × (leb_ℤ (cell a j') v ≡ true)
      × AllAbove a j' r v
unfolding scan_down
scan_down_lem a v r zero zero h long le small above =
    (0, rw (read_cell a 0 (omega arith), small) refl, omega arith, omega arith, small, above)
scan_down_lem a v r (suc s) zero h long le small above = elim le [ ]
scan_down_lem a v r s (suc j) h long le small above = elim (Bool-cases (leb_ℤ (cell a (suc j)) v)) [
  | inl stop ↦
      (suc j, rw (read_cell a (suc j) (omega arith), stop) refl, le, omega arith, stop, above)
  | inr large ↦
      (let above' : AllAbove a j r v = AllAbove-pred a j r v above large in
        let not_end : s ≤ j = (let ne = differ a v s (suc j) small large in omega arith) in
        let (j', e, h₁, h₂, small', above'') =
          scan_down_lem a v r s j (omega arith) long not_end small above' in
        (j', rw (read_cell a (suc j) (omega arith), large) e, h₁, omega arith, small', above''))
]
