-- ===== src/Sorter/Quick/Partition.antt =====
-- 1/main.c: `part` moves the smaller numbers of a range in front of the larger ones.
use mathlib.Core.Path.{subst}
use sysproghw.Base.{
  ℕ, zero, suc, ◌+◌, ◌-◌, ◌%◌, ◌<◌, ◌≤◌, ◌≡◌, refl, ◌∙◌, ap, sym, inl, inr, true, false, List, some,
  if◌then◌else◌, get_elem?, length, Bool-cases, ltb, ◌==◌, arith,
}
use sysproghw.Base.Int.{ℤ, leb_ℤ, ◌≤ℤ◌}
use sysproghw.Sorter.Code.{ret, ◌>>=◌, Ensures, Ensures-bind}
use sysproghw.Sorter.Order.{cell}
use sysproghw.Sorter.Quick.{exchange, scan_up, scan_down, part_loop, part_at}
use sysproghw.Sorter.Quick.Range.{
  IsMoved, IsMoved-trans, read_cell, exchanged, exchange_lem, exchanged-first, exchanged-second,
  exchanged-other, exchanged-IsMoved,
}
use sysproghw.Sorter.Quick.Cuts.{IsCut, IsCutting, round}

part_loop-round :
    (k : ℕ) (b b' : List ℤ) (v : ℤ) (r i j i' j' : ℕ)
    → ltb i j ≡ true
    → scan_up b v (r + 1 - i) i ≡ ret i'
    → scan_down b v j ≡ ret j'
    → (if ltb i' j' then exchange b i' j' else ret b) ≡ ret b'
    → part_loop (suc k) b v r i j ≡ part_loop k b' v r i' j'
unfolding part_loop
part_loop-round k b b' v r i j i' j' e e₁ e₂ e₃ = rw (part_loop, e, e₁, e₂, e₃) refl

-- The loop ends: a round brings `i` and `j` closer.
part_loop-IsCut :
    (k : ℕ) (a b : List ℤ) (l r : ℕ) (v : ℤ) (i j : ℕ)
    → r < length a
    → IsCutting a b l r v i j
    → j - i < k
    → Ensures (IsCut a l r v) (part_loop k b v r i j)
unfolding part_loop
part_loop-IsCut zero a b l r v i j long h fuel = absurd (omega arith)
part_loop-IsCut (suc k) a b l r v i j long h fuel = elim h.shape [
  | inl (goes, here) ↦
      (let (i', j', b', e₁, e₂, e₃, far, near, cut) =
          round a b l r v i j (omega (arith, h.moved.long)) h goes here in
        let on : ltb i j ≡ true = ground arith in
        subst (Ensures (IsCut a l r v)) (sym (part_loop-round k b b' v r i j i' j' on e₁ e₂ e₃))
          (part_loop-IsCut k a b' l r v i' j' long cut (omega arith)))
  | inr met ↦
      (let stops : ltb i j ≡ false = ground arith in
        rw (part_loop, stops)
          (record {
            moved = h.moved;
            pivot = h.pivot;
            lower = h.lower;
            upper = h.upper;
            up = rw met h.up;
            above = h.above;
          }))
]

-- What `part` has done with `a`: the cell `p` of the range holds a number that is not below those
-- in front of it and not above those behind it.
pub record IsParted (a : List ℤ) (l r : ℕ) (o : List ℤ × ℕ) : Type 0 where
  pub moved : IsMoved l (r + 1) a o.0
  pub lower : l ≤ o.1
  pub upper : o.1 ≤ r
  pub front : (m : ℕ) → l ≤ m → m < o.1 → cell o.0 m ≤ℤ cell o.0 o.1
  pub back : (m : ℕ) → o.1 < m → m ≤ r → cell o.0 o.1 ≤ℤ cell o.0 m

le_of_leb : (x y : ℤ) → leb_ℤ x y ≡ true → x ≤ℤ y
le_of_leb x y h = ground arith

le_of_not_leb : (x y : ℤ) → leb_ℤ x y ≡ false → y ≤ℤ x
le_of_not_leb x y h = ground arith

-- The pivot changes places with the last number that is not above it.
IsCut-IsParted :
    (a : List ℤ) (l r : ℕ) (v : ℤ) (b : List ℤ) (j : ℕ)
    → r < length a
    → IsCut a l r v (b, j)
    → IsParted a l r (exchanged b j l, j)
IsCut-IsParted a l r v b j long h =
    let hj : j < length b = omega (arith, h.moved.long, h.upper) in
    let hl : l < length b = omega (arith, h.moved.long, h.upper, h.lower) in
    let at_j = exchanged-first b j l hj hl ∙ h.pivot in
    record {
      moved = IsMoved-trans h.moved (
          exchanged-IsMoved b j l hj hl l (r + 1) h.lower (omega arith) (omega (arith, h.upper))
            (omega (arith, h.upper, h.lower)));
      lower = h.lower;
      upper = h.upper;
      front = λ m p q.
          subst (λ x. cell (exchanged b j l) m ≤ℤ x) (sym at_j)
            (elim (Bool-cases (m == l)) [
              | inl e ↦
                  (let e' : m ≡ l = ground arith in
                    subst (λ x. x ≤ℤ v)
                      (sym (ap (cell (exchanged b j l)) e' ∙ exchanged-second b j l hj hl))
                      (le_of_leb (cell b j) v (h.up j h.lower (omega arith))))
              | inr ne ↦
                  subst (λ x. x ≤ℤ v) (sym (exchanged-other b j l hj hl m (inl q) (ground arith)))
                    (le_of_leb (cell b m) v (h.up m p (omega arith)))
            ]);
      back = λ m p q.
          subst (λ x. x ≤ℤ cell (exchanged b j l) m) (sym at_j)
            (subst (λ x. v ≤ℤ x)
              (sym (exchanged-other b j l hj hl m (inr p) (inr (omega (arith, h.lower)))))
              (le_of_not_leb (cell b m) v (h.above m p q)));
    }

-- The range of more than one cell, of which the first holds the pivot.
start_IsCutting :
    (a b : List ℤ) (l r : ℕ) → l < r → IsMoved l (r + 1) a b → IsCutting a b l r (cell b l) l r
start_IsCutting a b l r lt moved = record {
  moved = moved;
  pivot = refl;
  from = omega arith;
  lower = omega arith;
  upper = omega arith;
  up = λ m p q. absurd (omega arith);
  above = λ m p q. absurd (omega arith);
  shape = inl (lt, ground arith);
}

part_at-start :
    (drawn : ℕ) (a b : List ℤ) (l r : ℕ) (v : ℤ)
    → exchange a l (drawn % (r + 1 - l) + l) ≡ ret b
    → get_elem? b l ≡ some v
    → part_at drawn a l r
      ≡ (part_loop (r + 2 - l) b v r l r >>= λ o. exchange o.0 o.1 l >>= λ c. ret (c, o.1))
unfolding part_at
part_at-start drawn a b l r v e₁ e₂ = rw (part_at, e₁, e₂) refl

part_at-end :
    (a : List ℤ) (l r : ℕ) (v : ℤ) (o : List ℤ × ℕ)
    → r < length a
    → IsCut a l r v o
    → Ensures (IsParted a l r) (exchange o.0 o.1 l >>= λ c. ret (c, o.1))
part_at-end a l r v (b, j) long h =
    let e =
      exchange_lem b j l (omega (arith, h.moved.long, h.upper))
        (omega (arith, h.moved.long, h.upper, h.lower)) in
    rw e (IsCut-IsParted a l r v b j long h)

pub part_at-IsParted :
    (drawn : ℕ) (a : List ℤ) (l r : ℕ)
    → l < r
    → r < length a
    → Ensures (IsParted a l r) (part_at drawn a l r)
part_at-IsParted drawn a l r lt long =
    let n = drawn % (r + 1 - l) + l in
    let small : n < r + 1 = omega arith in
    let hl : l < length a = omega arith in
    let hn : n < length a = omega arith in
    let b = exchanged a l n in
    let moved =
      exchanged-IsMoved a l n hl hn l (r + 1) (omega arith) (omega arith) (omega arith) small in
    subst (Ensures (IsParted a l r))
      (sym (
        part_at-start drawn a b l r (cell b l) (exchange_lem a l n hl hn)
          (read_cell b l (omega (arith, moved.long)))))
      (Ensures-bind (IsCut a l r (cell b l)) (IsParted a l r)
        (part_loop (r + 2 - l) b (cell b l) r l r) (λ o. exchange o.0 o.1 l >>= λ c. ret (c, o.1))
        (part_loop-IsCut (r + 2 - l) a b l r (cell b l) l r long (start_IsCutting a b l r lt moved)
          (omega arith))
        (λ o h. part_at-end a l r (cell b l) o long h))
