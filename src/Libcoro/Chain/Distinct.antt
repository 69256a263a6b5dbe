-- ===== src/Libcoro/Chain/Distinct.antt =====
-- Lists of numbers that stand in them only once.
use sysproghw.Base.{ℕ, ◌≢◌, sym, List, [], ◌∷◌, ◌++◌}

abbrev pub NotIn : ℕ → List ℕ → Type 0
NotIn a [] = Unit
NotIn a (b ∷ bs) = (a ≢ b) × NotIn a bs

abbrev pub IsDistinct : List ℕ → Type 0
IsDistinct [] = Unit
IsDistinct (a ∷ ids) = NotIn a ids × IsDistinct ids

-- No number of `ys` stands in `xs`.
abbrev pub Apart : List ℕ → List ℕ → Type 0
Apart xs [] = Unit
Apart xs (y ∷ ys) = NotIn y xs × Apart xs ys

-- What the numbers of `xs ++ a ∷ ys` have to do with each other.
pub record Cut (xs : List ℕ) (a : ℕ) (ys : List ℕ) : Type 0 where
  pub front : IsDistinct xs
  pub behind : IsDistinct ys
  pub rest : IsDistinct (xs ++ ys)
  pub apart : Apart xs ys
  pub apart' : Apart ys xs
  pub gone : NotIn a (xs ++ ys)

pub NotIn-Apart : (a : ℕ) (ys : List ℕ) → NotIn a ys → Apart (a ∷ []) ys
NotIn-Apart a [] h = tt
NotIn-Apart a (y ∷ ys) (ne, h) = ((λ q. ne (sym q), tt), NotIn-Apart a ys h)

pub NotIn-append : (b : ℕ) (xs ys : List ℕ) → NotIn b (xs ++ ys) → NotIn b xs × NotIn b ys
NotIn-append b [] ys h = (tt, h)
NotIn-append b (x ∷ xs) ys (ne, h) = let (u, v) = NotIn-append b xs ys h in ((ne, u), v)

append-NotIn : (b : ℕ) (xs ys : List ℕ) → NotIn b xs → NotIn b ys → NotIn b (xs ++ ys)
append-NotIn b [] ys u v = v
append-NotIn b (x ∷ xs) ys (ne, u) v = (ne, append-NotIn b xs ys u v)

Apart-cons : (b : ℕ) (xs ys : List ℕ) → NotIn b ys → Apart xs ys → Apart (b ∷ xs) ys
Apart-cons b xs [] n h = tt
Apart-cons b xs (y ∷ ys) (ne, n) (m, h) = ((λ q. ne (sym q), m), Apart-cons b xs ys n h)

no_Apart : (ys : List ℕ) → Apart [] ys
no_Apart [] = tt
no_Apart (y ∷ ys) = (tt, no_Apart ys)

pub Cut-IsDistinct : (xs : List ℕ) (a : ℕ) (ys : List ℕ) → IsDistinct (xs ++ a ∷ ys) → Cut xs a ys
Cut-IsDistinct [] a ys (fresh, d) = record {
  front = tt;
  behind = d;
  rest = d;
  apart = no_Apart ys;
  apart' = tt;
  gone = fresh;
}
Cut-IsDistinct (x ∷ xs) a ys (fresh, d) =
    let c = Cut-IsDistinct xs a ys d in
    let (u, v) = NotIn-append x xs (a ∷ ys) fresh in
    record {
      front = (u, c.front);
      behind = c.behind;
      rest = (append-NotIn x xs ys u v.1, c.rest);
      apart = Apart-cons x xs ys v.1 c.apart;
      apart' = (v.1, c.apart');
      gone = (λ q. v.0 (sym q), c.gone);
    }
