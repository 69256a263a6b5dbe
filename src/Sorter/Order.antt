-- ===== src/Sorter/Order.antt =====
-- Numbers in order, and how often a number stands in a list.
use sysproghw.Base.{
  ℕ, zero, suc, ◌+◌, ◌<◌, ◌≡◌, refl, ◌⊎◌, Bool, List, [], ◌∷◌, ◌++◌, if◌then◌else◌, ◌&&◌, get_or,
  set, length, arith,
}
use sysproghw.Base.Int.{ℤ, pos, leb_ℤ, ◌≤ℤ◌}

-- A list in ascending order, with no number under `lo`.
abbrev pub IsSortedFrom : ℤ → List ℤ → Type 0
IsSortedFrom lo [] = Unit
IsSortedFrom lo (x ∷ xs) = (lo ≤ℤ x) × IsSortedFrom x xs

abbrev pub same : ℤ → ℤ → Bool
same a b = leb_ℤ a b && leb_ℤ b a

abbrev pub count : ℤ → List ℤ → ℕ
count v [] = 0
count v (x ∷ xs) = (if same v x then 1 else 0) + count v xs

pub count-append : (w : ℤ) (xs ys : List ℤ) → count w (xs ++ ys) ≡ count w xs + count w ys
count-append w [] ys = omega arith
count-append w (x ∷ xs) ys = omega (arith, count-append w xs ys)

-- The cell `i` of an array; a cell outside it is not read.
abbrev pub cell : List ℤ → ℕ → ℤ
cell a i = get_or a i (pos 0)

-- A write trades the number that was there for the new one.
pub count-set :
    (w : ℤ) (a : List ℤ) (i : ℕ) (v : ℤ)
    → i < length a
    → count w (set a i v) + (if same w (cell a i) then 1 else 0)
      ≡ count w a + (if same w v then 1 else 0)
count-set w [] i v h = absurd (omega arith)
count-set w (x ∷ a) zero v h = omega arith
count-set w (x ∷ a) (suc i) v h = omega (arith, count-set w a i v)

pub cell-set_self : (a : List ℤ) (i : ℕ) (v : ℤ) → i < length a → cell (set a i v) i ≡ v
cell-set_self [] i v h = absurd (omega arith)
cell-set_self (x ∷ a) zero v h = refl
cell-set_self (x ∷ a) (suc i) v h = cell-set_self a i v (omega arith)

pub cell-set_ne : (a : List ℤ) (i j : ℕ) (v : ℤ) → (i < j) ⊎ (j < i) → cell (set a i v) j ≡ cell a j
cell-set_ne [] i j v h = refl
cell-set_ne (x ∷ a) zero zero v h = absurd (omega arith)
cell-set_ne (x ∷ a) zero (suc j) v h = refl
cell-set_ne (x ∷ a) (suc i) zero v h = refl
cell-set_ne (x ∷ a) (suc i) (suc j) v h = cell-set_ne a i j v (omega arith)
