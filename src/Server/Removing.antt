-- ===== src/Server/Removing.antt =====
-- lecture_examples/9_aio/4_server_select.c: what `remove_client` leaves.
use sysproghw.Base.{
  take-length_front, take-length, ℕ, suc, ◌+◌, ◌-◌, ◌≤◌, ◌≡◌, refl, true, false, List, [], ◌∷◌,
  ◌++◌, some, ltb, leb, length, length-append, take, drop, arith,
}
use sysproghw.Server.{entries, remove_client}

drop_front : (xs ys : List ℕ) (c : ℕ) → drop (length xs + 1) (xs ++ c ∷ ys) ≡ ys
drop_front [] ys c = refl
drop_front (x ∷ xs) ys c = simp (one_more xs) (drop_front xs ys c)
  where
    one_more : (xs : List ℕ) → suc (length xs) + 1 ≡ suc (length xs + 1)
    one_more xs = omega arith

entries_within :
    (xs : List ℕ) (at n : ℕ) → at + n ≤ length xs → entries xs at n ≡ some (take n (drop at xs))
unfolding entries
entries_within xs at n h = let test : leb (at + n) (length xs) ≡ true = ground arith in rw test refl

-- `remove_client` copies within both arrays and leaves out the one entry.
pub remove_client-middle :
    (xs ys : List ℕ) (c : ℕ) → remove_client (xs ++ c ∷ ys) (length xs) ≡ some (xs ++ ys)
unfolding remove_client
remove_client-middle xs ys c =
    let sized : length (xs ++ c ∷ ys) ≡ length xs + suc (length ys) = length-append xs (c ∷ ys) in
    let count : length (xs ++ c ∷ ys) - 1 ≡ length xs + length ys = omega (arith, sized) in
    let test : ltb (length xs + length ys) (length xs) ≡ false = ground arith in
    let rest : (length xs + length ys) - length xs ≡ length ys = omega arith in
    rw
      (
        remove_client,
        count,
        test,
        rest,
        entries_within (xs ++ c ∷ ys) 0 (length xs) (omega (arith, sized)),
        entries_within (xs ++ c ∷ ys) (length xs + 1) (length ys) (omega (arith, sized)),
        take-length_front xs (c ∷ ys),
        drop_front xs ys c,
        take-length ys,
      )
      refl
