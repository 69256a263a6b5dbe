-- ===== src/Userfs/Transfer/Splice.antt =====
-- 3/userfs.c: what `memcpy` into the middle of a sequence of bytes makes of it.
use mathlib.Core.List.{append-nil}
use sysproghw.Userfs.State.{ok}
use sysproghw.Userfs.Transfer.{copy_in, copy_out}
use sysproghw.Base.{
  ℕ, zero, suc, ◌+◌, ◌≤◌, ◌≡◌, refl, ap, ◌⊎◌, List, [], ◌∷◌, ◌++◌, length, take, drop, arith,
}

-- The sequence with the bytes written over it from a place on; it grows where they run over its end.
unfoldable pub overwrite : ℕ → List ℕ → List ℕ → List ℕ
overwrite zero [] xs = xs
overwrite zero (y ∷ ys) [] = y ∷ ys
overwrite zero (y ∷ ys) (x ∷ xs) = y ∷ overwrite zero ys xs
overwrite (suc n) ys [] = ys
overwrite (suc n) ys (x ∷ xs) = x ∷ overwrite n ys xs

pub zero_add : (n : ℕ) → 0 + n ≡ n
zero_add n = omega arith

pub suc_add : (n m : ℕ) → suc n + m ≡ suc (n + m)
suc_add n m = omega arith

overwrite-head : (bytes xs : List ℕ) → bytes ++ drop (length bytes) xs ≡ overwrite 0 bytes xs
unfolding overwrite
overwrite-head [] xs = refl
overwrite-head (y ∷ ys) [] = ap (λ l. y ∷ l) (append-nil ys)
overwrite-head (y ∷ ys) (x ∷ xs) = ap (λ l. y ∷ l) (overwrite-head ys xs)

pub overwrite_lem :
    (at : ℕ) (bytes xs : List ℕ)
    → at ≤ length xs
    → take at xs ++ (bytes ++ drop (at + length bytes) xs) ≡ overwrite at bytes xs
unfolding overwrite
overwrite_lem zero bytes xs h = rw (zero_add (length bytes)) (overwrite-head bytes xs)
overwrite_lem (suc at) bytes [] h = elim h [ ]
overwrite_lem (suc at) bytes (x ∷ xs) h =
    rw (suc_add at (length bytes)) (ap (λ l. x ∷ l) (overwrite_lem at bytes xs (omega arith)))

take_over :
    (m : ℕ) (ys mem : List ℕ) → m ≡ length ys → m ≤ length mem → take m (overwrite 0 ys mem) ≡ ys
unfolding overwrite
take_over m [] mem e h = rw e
take_over m (y ∷ ys) [] e h = absurd (omega arith)
take_over zero (y ∷ ys) (x ∷ mem) e h = absurd (omega arith)
take_over (suc m) (y ∷ ys) (x ∷ mem) e h =
    ap (λ l. y ∷ l) (take_over m ys mem (omega arith) (omega arith))

-- What is visible of the memory afterwards is what was visible before, overwritten.
pub take-overwrite :
    (m at occ : ℕ) (bytes mem : List ℕ)
    → at ≤ occ
    → occ ≤ length mem
    → at + length bytes ≤ length mem
    → (m ≡ occ) × (at + length bytes ≤ occ) ⊎ (m ≡ at + length bytes) × (occ ≤ at + length bytes)
    → take m (overwrite at bytes mem) ≡ overwrite at bytes (take occ mem)
unfolding overwrite
take-overwrite m zero occ [] mem h1 h2 h3 h4 = let e : m ≡ occ = omega arith in rw e
take-overwrite m zero occ (y ∷ ys) [] h1 h2 h3 h4 = absurd (omega arith)
take-overwrite zero zero occ (y ∷ ys) (x ∷ mem) h1 h2 h3 h4 = absurd (omega arith)
take-overwrite (suc m) zero zero (y ∷ ys) (x ∷ mem) h1 h2 h3 h4 =
    ap (λ l. y ∷ l) (take_over m ys mem (omega arith) (omega arith))
take-overwrite (suc m) zero (suc occ) (y ∷ ys) (x ∷ mem) h1 h2 h3 h4 =
    ap (λ l. y ∷ l)
      (take-overwrite m zero occ ys mem (omega arith) (omega arith) (omega arith) (omega arith))
take-overwrite m (suc at) zero bytes mem h1 h2 h3 h4 = elim h1 [ ]
take-overwrite m (suc at) (suc occ) bytes [] h1 h2 h3 h4 = elim h2 [ ]
take-overwrite zero (suc at) (suc occ) bytes (x ∷ mem) h1 h2 h3 h4 = absurd (omega arith)
take-overwrite (suc m) (suc at) (suc occ) bytes (x ∷ mem) h1 h2 h3 h4 =
    ap (λ l. x ∷ l)
      (take-overwrite m at occ bytes mem (omega arith) (omega arith) (omega arith) (omega arith))

pub overwrite-append :
    (xs ys bytes : List ℕ) (at : ℕ)
    → overwrite (length xs + at) bytes (xs ++ ys) ≡ xs ++ overwrite at bytes ys
unfolding overwrite
overwrite-append [] ys bytes at = rw (zero_add at) refl
overwrite-append (x ∷ xs) ys bytes at =
    rw (suc_add (length xs) at) (ap (λ l. x ∷ l) (overwrite-append xs ys bytes at))

pub overwrite-nil : (ys : List ℕ) → overwrite 0 ys [] ≡ ys
unfolding overwrite
overwrite-nil [] = refl
overwrite-nil (y ∷ ys) = refl

overwrite-end : (xs ys : List ℕ) → overwrite (length xs) ys xs ≡ xs ++ ys
unfolding overwrite
overwrite-end [] ys = overwrite-nil ys
overwrite-end (x ∷ xs) ys = ap (λ l. x ∷ l) (overwrite-end xs ys)

pub overwrite-overwrite :
    (at : ℕ) (xs ys zs : List ℕ)
    → at ≤ length zs
    → overwrite (at + length xs) ys (overwrite at xs zs) ≡ overwrite at (xs ++ ys) zs
unfolding overwrite
overwrite-overwrite zero [] ys zs h = refl
overwrite-overwrite zero (x ∷ xs) ys [] h =
    rw (zero_add (suc (length xs))) (ap (λ l. x ∷ l) (overwrite-end xs ys))
overwrite-overwrite zero (x ∷ xs) ys (z ∷ zs) h = rw (zero_add (suc (length xs))) (
    ap (λ l. x ∷ l)
      (rw (zero_add (length xs)) at (overwrite-overwrite zero xs ys zs (omega arith))))
overwrite-overwrite (suc at) xs ys [] h = elim h [ ]
overwrite-overwrite (suc at) xs ys (z ∷ zs) h =
    rw (suc_add at (length xs)) (ap (λ l. z ∷ l) (overwrite-overwrite at xs ys zs (omega arith)))

drop-drop : (w n : ℕ) (xs : List ℕ) → drop (w + n) xs ≡ drop n (drop w xs)
drop-drop zero n xs = rw (zero_add n) refl
drop-drop (suc w) zero [] = rw (suc_add w 0) refl
drop-drop (suc w) (suc n) [] = rw (suc_add w (suc n)) refl
drop-drop (suc w) n (x ∷ xs) = rw (suc_add w n) (drop-drop w n xs)

take-take : (n m : ℕ) (xs : List ℕ) → take n xs ++ take m (drop n xs) ≡ take (n + m) xs
take-take zero m xs = rw (zero_add m) refl
take-take (suc n) zero [] = rw (suc_add n 0) refl
take-take (suc n) (suc m) [] = rw (suc_add n (suc m)) refl
take-take (suc n) m (x ∷ xs) = rw (suc_add n m) (ap (λ l. x ∷ l) (take-take n m xs))

pub take-more :
    (n m w : ℕ) (xs : List ℕ)
    → take n (drop w xs) ++ take m (drop (w + n) xs) ≡ take (n + m) (drop w xs)
take-more n m w xs = rw (drop-drop w n xs) (take-take n m (drop w xs))

pub length-overwrite :
    (at : ℕ) (ys xs : List ℕ) → at + length ys ≤ length xs → length (overwrite at ys xs) ≡ length xs
unfolding overwrite
length-overwrite zero [] xs h = refl
length-overwrite zero (y ∷ ys) [] h = absurd (omega arith)
length-overwrite zero (y ∷ ys) (x ∷ xs) h = ap suc (length-overwrite zero ys xs (omega arith))
length-overwrite (suc at) ys [] h = absurd (omega arith)
length-overwrite (suc at) ys (x ∷ xs) h = ap suc (length-overwrite at ys xs (omega arith))

pub overwrite_nothing : (at : ℕ) (xs : List ℕ) → at ≤ length xs → overwrite at [] xs ≡ xs
unfolding overwrite
overwrite_nothing zero xs h = refl
overwrite_nothing (suc at) [] h = refl
overwrite_nothing (suc at) (x ∷ xs) h = ap (λ l. x ∷ l) (overwrite_nothing at xs (omega arith))

-- The place of `memcpy` is in bounds.
pub copy_out_lem :
    (buf : List ℕ) (w n : ℕ) → w + n ≤ length buf → copy_out buf w n ≡ ok (take n (drop w buf))
unfolding copy_out
copy_out_lem buf w n h = ground arith

pub copy_in_lem :
    (mem : List ℕ) (at : ℕ) (bytes : List ℕ)
    → at + length bytes ≤ length mem
    → copy_in mem at bytes ≡ ok (overwrite at bytes mem)
unfolding copy_in
copy_in_lem mem at bytes h = rw (← overwrite_lem at bytes mem (omega arith)) (ground arith)
