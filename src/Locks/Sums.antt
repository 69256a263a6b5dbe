-- ===== src/Locks/Sums.antt =====
-- Sums over the threads of a program, when one of them takes a step.
use sysproghw.Base.{
  ℕ, zero, suc, ◌+◌, ◌*◌, ◌<◌, ◌≤◌, ◌≡◌, refl, ap, List, [], ◌∷◌, Option, none, some, set,
  replicate, get_elem?, arith, inl, inr, Bool-cases, ◌==◌, Bool, true, false, if◌then◌else◌,
}

-- What holds of both branches.
pub branches {ℓ κ} :
    {A : Type ℓ} (P : A → Type κ) (b : Bool) (x y : A)
    → (b ≡ true → P x)
    → (b ≡ false → P y)
    → P (if b then x else y)
branches P true x y f g = f refl
branches P false x y f g = g refl

module _ {ℓ} {A : Type ℓ} where
  abbrev pub sum_of : (A → ℕ) → List A → ℕ
  sum_of f [] = 0
  sum_of f (x ∷ xs) = f x + sum_of f xs

  abbrev value_of : (A → ℕ) → Option A → ℕ
  value_of f none = 0
  value_of f (some a) = f a

  -- One element is another one now.
  pub sum_of-set :
      (f : A → ℕ) (xs : List A) (i : ℕ) (a b : A)
      → get_elem? xs i ≡ some a
      → sum_of f (set xs i b) + f a ≡ sum_of f xs + f b
  sum_of-set f [] i a b e = cc
  sum_of-set f (x ∷ xs) zero a b e = let same : f x ≡ f a = ap (value_of f) e in omega (arith, same)
  sum_of-set f (x ∷ xs) (suc i) a b e = omega (arith, sum_of-set f xs i a b e)

  pub sum_of-le : (f g : A → ℕ) (xs : List A) → ((a : A) → f a ≤ g a) → sum_of f xs ≤ sum_of g xs
  sum_of-le f g [] le = omega arith
  sum_of-le f g (x ∷ xs) le = omega (arith, le x, sum_of-le f g xs le)

  -- All elements but one are compared.
  pub rest_le :
      (f g : A → ℕ) (xs : List A) (i : ℕ) (a : A)
      → get_elem? xs i ≡ some a
      → ((b : A) → f b ≤ g b)
      → sum_of f xs + g a ≤ sum_of g xs + f a
  rest_le f g [] i a e le = cc
  rest_le f g (x ∷ xs) zero a e le =
      let same : f x ≡ f a = ap (value_of f) e in
      let same' : g x ≡ g a = ap (value_of g) e in omega (arith, same, same', sum_of-le f g xs le)
  rest_le f g (x ∷ xs) (suc i) a e le = omega (arith, le x, rest_le f g xs i a e le)

  pub sum_of-add :
      (f g : A → ℕ) (xs : List A) → sum_of (λ a. f a + g a) xs ≡ sum_of f xs + sum_of g xs
  sum_of-add f g [] = omega arith
  sum_of-add f g (x ∷ xs) = omega (arith, sum_of-add f g xs)

  -- One element is at most the sum.
  pub le_sum_of :
      (f : A → ℕ) (xs : List A) (i : ℕ) (a : A) → get_elem? xs i ≡ some a → f a ≤ sum_of f xs
  le_sum_of f [] i a e = cc
  le_sum_of f (x ∷ xs) zero a e = let same : f x ≡ f a = ap (value_of f) e in omega (arith, same)
  le_sum_of f (x ∷ xs) (suc i) a e = omega (arith, le_sum_of f xs i a e)

  pub sum_of-replicate : (f : A → ℕ) (n : ℕ) (a : A) → sum_of f (replicate n a) ≡ n * f a
  sum_of-replicate f zero a = omega arith
  sum_of-replicate f (suc n) a = ground (arith, sum_of-replicate f n a)

  -- Where the sum is not 0, some element is not.
  pub some_of_sum :
      (f : A → ℕ) (xs : List A)
      → 0 < sum_of f xs
      → (i : ℕ) × (a : A) × (get_elem? xs i ≡ some a) × (0 < f a)
  some_of_sum f [] h = elim h [ ]
  some_of_sum f (x ∷ xs) h = elim (Bool-cases (f x == 0)) [
    | inl z ↦ let (i, a, e, p) = some_of_sum f xs (ground arith) in (suc i, a, e, p)
    | inr p ↦ (0, x, refl, ground arith)
  ]
