-- ===== src/Sorter/Quick/Range.antt =====
-- 1/main.c: an array of which only the cells of a range were moved.
use sysproghw.Base.{
  ℕ, zero, suc, ◌<◌, ◌≤◌, ◌≡◌, refl, ◌∙◌, ap, sym, ◌⊎◌, inl, inr, List, [], ◌∷◌, some, get_elem?,
  set, length, length-set, Bool-cases, ltb, ◌==◌, arith,
}
use sysproghw.Base.Int.{ℤ}
use sysproghw.Sorter.Code.{ret}
use sysproghw.Sorter.Order.{count, cell, count-set, cell-set_self, cell-set_ne}
use sysproghw.Sorter.Quick.{exchange}

-- `b` has the numbers of `a`; outside of the range from `l` to in front of `end` no cell has changed, and
-- a cell of the range holds what some cell of the range held.
pub record IsMoved (l end : ℕ) (a b : List ℤ) : Type 0 where
  pub long : length b ≡ length a
  pub outside : (m : ℕ) → (m < l) ⊎ (end ≤ m) → cell b m ≡ cell a m
  pub from : (m : ℕ) → l ≤ m → m < end → (k : ℕ) × (l ≤ k) × (k < end) × (cell b m ≡ cell a k)
  pub counts : (w : ℤ) → count w b ≡ count w a

pub IsMoved-refl : (l end : ℕ) (a : List ℤ) → IsMoved l end a a
IsMoved-refl l end a = record {
  long = refl;
  outside = λ m h. refl;
  from = λ m h₁ h₂. (m, h₁, h₂, refl);
  counts = λ w. refl;
}

pub IsMoved-trans :
    {l end : ℕ} {a b c : List ℤ} → IsMoved l end a b → IsMoved l end b c → IsMoved l end a c
IsMoved-trans u v = record {
  long = v.long ∙ u.long;
  outside = λ m h. v.outside m h ∙ u.outside m h;
  from = λ m h₁ h₂.
      let (k, p, q, e) = v.from m h₁ h₂ in
      let (k', p', q', e') = u.from k p q in (k', p', q', e ∙ e');
  counts = λ w. v.counts w ∙ u.counts w;
}

-- The cells of a smaller range were moved.
pub IsMoved-wider :
    {l end : ℕ} {a b : List ℤ} (l' end' : ℕ)
    → l' ≤ l
    → end ≤ end'
    → IsMoved l end a b
    → IsMoved l' end' a b
IsMoved-wider {l} {end} l' end' h₁ h₂ u = record {
  long = u.long;
  outside = λ m h. u.outside m (omega arith);
  from = λ m p q. elim (Bool-cases (ltb m l)) [
    | inl below ↦ (m, p, q, u.outside m (inl (ground arith)))
    | inr above ↦ elim (Bool-cases (ltb m end)) [
      | inl within ↦
          (let (k, p', q', e) = u.from m (ground arith) (ground arith) in
            (k, omega arith, omega arith, e))
      | inr beyond ↦ (m, p, q, u.outside m (inr (ground arith)))
    ]
  ];
  counts = u.counts;
}

pub read_cell : (a : List ℤ) (i : ℕ) → i < length a → get_elem? a i ≡ some (cell a i)
read_cell [] i h = absurd (omega arith)
read_cell (x ∷ a) zero h = refl
read_cell (x ∷ a) (suc i) h = read_cell a i (omega arith)

abbrev pub exchanged : List ℤ → ℕ → ℕ → List ℤ
exchanged a i j = set (set a i (cell a j)) j (cell a i)

pub exchange_lem :
    (a : List ℤ) (i j : ℕ) → i < length a → j < length a → exchange a i j ≡ ret (exchanged a i j)
unfolding exchange
exchange_lem a i j hi hj = rw (exchange, read_cell a i hi, read_cell a j hj) refl

module _ (a : List ℤ) (i j : ℕ) (hi : i < length a) (hj : j < length a) where
  pub exchanged-second : cell (exchanged a i j) j ≡ cell a i
  exchanged-second =
      cell-set_self (set a i (cell a j)) j (cell a i) (rw (length-set a i (cell a j)) hj)

  pub exchanged-first : cell (exchanged a i j) i ≡ cell a j
  exchanged-first = elim (Bool-cases (ltb i j)) [
    | inl lt ↦
        cell-set_ne (set a i (cell a j)) j i (cell a i) (inr (ground arith))
        ∙ cell-set_self a i (cell a j) hi
    | inr ge ↦ elim (Bool-cases (ltb j i)) [
      | inl gt ↦
          cell-set_ne (set a i (cell a j)) j i (cell a i) (inl (ground arith))
          ∙ cell-set_self a i (cell a j) hi
      | inr le ↦
          (let e : j ≡ i = ground arith in
            ap (λ m. cell (exchanged a i j) m) (sym e) ∙ exchanged-second ∙ ap (cell a) (sym e))
    ]
  ]

  pub exchanged-other :
      (m : ℕ) → (m < i) ⊎ (i < m) → (m < j) ⊎ (j < m) → cell (exchanged a i j) m ≡ cell a m
  exchanged-other m p q =
      cell-set_ne (set a i (cell a j)) j m (cell a i) (omega arith)
      ∙ cell-set_ne a i m (cell a j) (omega arith)

  kept_cell : cell (set a i (cell a j)) j ≡ cell a j
  kept_cell = elim (Bool-cases (i == j)) [
    | inl e ↦
        (let e' : i ≡ j = ground arith in
          ap (λ m. cell (set a i (cell a j)) m) (sym e') ∙ cell-set_self a i (cell a j) hi)
    | inr ne ↦ cell-set_ne a i j (cell a j) (ground arith)
  ]

  pub exchanged-IsMoved :
      (l end : ℕ) → l ≤ i → l ≤ j → i < end → j < end → IsMoved l end a (exchanged a i j)
  exchanged-IsMoved l end h₁ h₂ h₃ h₄ = record {
    long = length-set (set a i (cell a j)) j (cell a i) ∙ length-set a i (cell a j);
    outside = λ m h. exchanged-other m (omega arith) (omega arith);
    from = λ m p q. elim (Bool-cases (m == j)) [
      | inl e ↦ (let e' : m ≡ j = ground arith in (i, h₁, h₃, rw e' exchanged-second))
      | inr ne ↦ elim (Bool-cases (m == i)) [
        | inl e ↦ (let e' : m ≡ i = ground arith in (j, h₂, h₄, rw e' exchanged-first))
        | inr ne' ↦ (m, p, q, exchanged-other m (ground arith) (ground arith))
      ]
    ];
    counts = λ w.
        let first = count-set w a i (cell a j) hi in
        let second =
          rw kept_cell at
            (count-set w (set a i (cell a j)) j (cell a i) (rw (length-set a i (cell a j)) hj)) in
        omega arith;
  }
