-- ===== src/Sorter/Quick/Sorts.antt =====
-- 1/main.c: `quick_sort` brings a range into order.
use mathlib.Core.Path.{subst}
use sysproghw.Base.{
  ℕ, zero, suc, ◌+◌, ◌-◌, ◌<◌, ◌≤◌, ◌≡◌, refl, ◌∙◌, ap, sym, inl, inr, true, List, length,
  Bool-cases, ltb, ◌==◌, arith,
}
use sysproghw.Base.Int.{ℤ, ◌≤ℤ◌}
use sysproghw.Sorter.Code.{ret, swaps, ◌>>=◌, Ensures, Ensures-bind}
use sysproghw.Sorter.Order.{cell}
use sysproghw.Sorter.Quick.{part, quick_sort}
use sysproghw.Sorter.Quick.Range.{IsMoved, IsMoved-refl, IsMoved-trans, IsMoved-wider}
use sysproghw.Sorter.Quick.Partition.{IsParted, part_at-IsParted}

-- `b` is `a` with the cells from `l` to in front of `end` in ascending order.
pub record IsRangeSorted (a : List ℤ) (l end : ℕ) (b : List ℤ) : Type 0 where
  pub moved : IsMoved l end a b
  pub ascending : (m : ℕ) → l ≤ m → m + 1 < end → cell b m ≤ℤ cell b (m + 1)

-- A comparison of two cells, carried over to cells with the same numbers.
le_cells :
    (a b : List ℤ) (m n m' n' : ℕ)
    → cell b m' ≡ cell a m
    → cell b n' ≡ cell a n
    → cell a m ≤ℤ cell a n
    → cell b m' ≤ℤ cell b n'
le_cells a b m n m' n' e₁ e₂ h =
    subst (λ x. x ≤ℤ cell b n') (sym e₁) (subst (λ x. cell a m ≤ℤ x) (sym e₂) h)

-- The range after `part` and the two recursive calls.
module _ (a a₁ a₂ a₃ : List ℤ) (l end p : ℕ) (parted : IsParted a l (end - 1) (a₁, p))
    (first : IsRangeSorted a₁ l p a₂) (second : IsRangeSorted a₂ (p + 1) end a₃)
    (wide : l + 1 < end) where
  both_in_order : (m : ℕ) → l ≤ m → m + 1 < end → cell a₃ m ≤ℤ cell a₃ (m + 1)
  both_in_order m h₁ h₂ = elim (Bool-cases (ltb (m + 1) p)) [
    | inl below ↦
        le_cells a₂ a₃ m (m + 1) m (m + 1) (second.moved.outside m (inl (ground arith)))
          (second.moved.outside (m + 1) (inl (ground arith))) (first.ascending m h₁ (ground arith))
    | inr not_below ↦ elim (Bool-cases (ltb p m)) [
      | inl above ↦ second.ascending m (ground arith) h₂
      | inr not_above ↦ elim (Bool-cases (m == p)) [
        | inl at_p ↦
            (let e : m ≡ p = ground arith in
              let (k, g₁, g₂, e') = second.moved.from (m + 1) (omega arith) h₂ in
              le_cells a₁ a₃ p k m (m + 1)
                (second.moved.outside m (inl (omega arith))
                  ∙ first.moved.outside m (inr (omega arith))
                  ∙ ap (cell a₁) e)
                (e' ∙ first.moved.outside k (inr (omega arith)))
                (parted.back k (omega arith) (omega arith)))
        | inr at_front ↦
            (let e : m + 1 ≡ p = ground arith in
              let (k, g₁, g₂, e') = first.moved.from m h₁ (omega arith) in
              le_cells a₁ a₃ k p m (m + 1) (second.moved.outside m (inl (omega arith)) ∙ e')
                (second.moved.outside (m + 1) (inl (omega arith))
                  ∙ first.moved.outside (m + 1) (inr (omega arith))
                  ∙ ap (cell a₁) e)
                (parted.front k g₁ g₂))
      ]
    ]
  ]

  both_IsRangeSorted : IsRangeSorted a l end a₃
  both_IsRangeSorted = record {
    moved = IsMoved-trans (IsMoved-wider l end (omega arith) (omega arith) parted.moved) (
        IsMoved-trans (IsMoved-wider l end (omega arith) (omega (arith, parted.upper)) first.moved)
          (IsMoved-wider l end (omega (arith, parted.lower)) (omega arith) second.moved));
    ascending = both_in_order;
  }

quick_sort-step :
    (k : ℕ) (a : List ℤ) (l end : ℕ)
    → ltb (l + 1) end ≡ true
    → quick_sort (suc k) a l end ≡ (
        part a l (end - 1) >>= λ o. swaps (quick_sort k o.0 l o.1) >>= λ b.
        swaps (quick_sort k b (o.1 + 1) end) >>= λ c. swaps (ret c))
unfolding quick_sort
quick_sort-step k a l end e = rw (quick_sort, e) refl

-- `quick_sort` of a range within the array ends without reading or writing outside of the array, on
-- as much fuel as there are cells and one more, whatever `rand` returns. The cells of the range are
-- then in ascending order, the array holds every number as often as before, and no cell outside of
-- the range has changed.
pub quick_sort-IsRangeSorted :
    (k : ℕ) (a : List ℤ) (l end : ℕ)
    → end - l < k
    → end ≤ length a
    → Ensures (IsRangeSorted a l end) (quick_sort k a l end)
unfolding quick_sort part
quick_sort-IsRangeSorted zero a l end fuel long = absurd (omega arith)
quick_sort-IsRangeSorted (suc k) a l end fuel long = elim (Bool-cases (ltb (l + 1) end)) [
  | inr narrow ↦
      rw (quick_sort, narrow)
        (record { moved = IsMoved-refl l end a; ascending = λ m h₁ h₂. absurd (ground arith) })
  | inl wide ↦
      (let wide' : l + 1 < end = ground arith in
        subst (Ensures (IsRangeSorted a l end)) (sym (quick_sort-step k a l end wide)) (
          Ensures-bind (IsParted a l (end - 1)) (IsRangeSorted a l end) (part a l (end - 1)) _
            (λ drawn. part_at-IsParted drawn a l (end - 1) (omega arith) (omega arith))
            (λ o h.
              let long₁ = h.moved.long in
              Ensures-bind (IsRangeSorted o.0 l o.1) (IsRangeSorted a l end)
                (quick_sort k o.0 l o.1) _
                (quick_sort-IsRangeSorted k o.0 l o.1 (omega (arith, h.upper))
                  (omega (arith, h.upper)))
                (λ b s.
                  Ensures-bind (IsRangeSorted b (o.1 + 1) end) (IsRangeSorted a l end)
                    (quick_sort k b (o.1 + 1) end) _
                    (quick_sort-IsRangeSorted k b (o.1 + 1) end (omega (arith, h.lower))
                      (omega (arith, s.moved.long)))
                    (λ c t. both_IsRangeSorted a o.0 b c l end o.1 h s t wide')))))
]
