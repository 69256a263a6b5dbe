-- ===== src/Sorter/Merge/Sorted.antt =====
-- 1/main.c: what `merge_files` prints.
use mathlib.Core.Path.{subst}
use sysproghw.Base.{
  ℕ, zero, suc, ◌+◌, ◌<◌, ◌≡◌, refl, ◌∙◌, ap, sym, false, List, [], ◌∷◌, ◌++◌, Option, none, some,
  length, if◌then◌else◌, Bool-cases, inl, inr, arith,
}
use sysproghw.Base.Int.{ℤ, leb_ℤ, ◌≤ℤ◌}
use sysproghw.Sorter.Order.{IsSortedFrom, same, count}
use sysproghw.Sorter.Merge.{int_max, scan_buffers, take_first, merge_loop, total, merge_files}

abbrev pub AreSortedFrom : ℤ → List (List ℤ) → Type 0
AreSortedFrom lo [] = Unit
AreSortedFrom lo (b ∷ bs) = IsSortedFrom lo b × AreSortedFrom lo bs

-- Numbers that an `int` can hold.
abbrev pub AreInts : List ℤ → Type 0
AreInts [] = Unit
AreInts (x ∷ xs) = (x ≤ℤ int_max) × AreInts xs

abbrev pub AllInts : List (List ℤ) → Type 0
AllInts [] = Unit
AllInts (b ∷ bs) = AreInts b × AllInts bs

-- How often a number stands in all buffers.
abbrev pub count_all : ℤ → List (List ℤ) → ℕ
count_all v [] = 0
count_all v (b ∷ bs) = count v b + count_all v bs

-- No buffer has a number under `v` in front.
abbrev Lower : ℤ → List (List ℤ) → Type 0
Lower v [] = Unit
Lower v ([] ∷ bs) = Lower v bs
Lower v ((x ∷ _) ∷ bs) = (v ≤ℤ x) × Lower v bs

-- Every number in front is above `m`.
abbrev Above : ℤ → List (List ℤ) → Type 0
Above m [] = Unit
Above m ([] ∷ bs) = Above m bs
Above m ((x ∷ _) ∷ bs) = (leb_ℤ x m ≡ false) × Above m bs

-- What the inner loop finds.
data Scanned (bs : List (List ℤ)) (i : ℕ) (m : ℤ) (flag : Option ℕ) : Type 0 where
  kept : scan_buffers bs i (m, flag) ≡ (m, flag) → Above m bs → Scanned bs i m flag
  found :
      (pre : List (List ℤ)) (v : ℤ) (vs : List ℤ) (post : List (List ℤ))
      → scan_buffers bs i (m, flag) ≡ (v, some (i + length pre))
      → bs ≡ pre ++ (v ∷ vs) ∷ post
      → v ≤ℤ m
      → Lower v bs
      → Scanned bs i m flag

Above-Lower : (m : ℤ) (bs : List (List ℤ)) → Above m bs → Lower m bs
Above-Lower m [] h = tt
Above-Lower m ([] ∷ bs) h = Above-Lower m bs h
Above-Lower m ((x ∷ _) ∷ bs) (a, h) = (ground arith, Above-Lower m bs h)

scan_buffers-Scanned : (bs : List (List ℤ)) (i : ℕ) (m : ℤ) (flag : Option ℕ) → Scanned bs i m flag
unfolding scan_buffers
scan_buffers-Scanned [] i m flag = kept refl tt
scan_buffers-Scanned ([] ∷ bs) i m flag = elim (scan_buffers-Scanned bs (i + 1) m flag) [
  | kept e h ↦ kept e h
  | found pre v vs post e split le low ↦
      (let next : i + 1 + length pre ≡ i + suc (length pre) = omega arith in
        found ([] ∷ pre) v vs post (e ∙ ap (λ n. (v, some n)) next) (ap (λ l. [] ∷ l) split) le low)
]
scan_buffers-Scanned ((x ∷ xs) ∷ bs) i m flag = elim (Bool-cases (leb_ℤ x m)) [
  | inl small ↦ elim (scan_buffers-Scanned bs (i + 1) x (some i)) [
    | kept e h ↦
        (let here : i ≡ i + 0 = omega arith in
          found [] x xs bs (rw small (e ∙ ap (λ n. (x, some n)) here)) refl (ground arith)
            (omega arith, Above-Lower x bs h))
    | found pre v vs post e split le low ↦
        (let next : i + 1 + length pre ≡ i + suc (length pre) = omega arith in
          found ((x ∷ xs) ∷ pre) v vs post (rw small (e ∙ ap (λ n. (v, some n)) next))
            (ap (λ l. (x ∷ xs) ∷ l) split) (ground arith) (le, low))
  ]
  | inr large ↦ elim (scan_buffers-Scanned bs (i + 1) m flag) [
    | kept e h ↦ kept (rw large e) (large, h)
    | found pre v vs post e split le low ↦
        (let next : i + 1 + length pre ≡ i + suc (length pre) = omega arith in
          found ((x ∷ xs) ∷ pre) v vs post (rw large (e ∙ ap (λ n. (v, some n)) next))
            (ap (λ l. (x ∷ xs) ∷ l) split) le (ground arith, low))
  ]
]

take_first-append :
    (pre : List (List ℤ)) (v : ℤ) (vs : List ℤ) (post : List (List ℤ))
    → take_first (length pre) (pre ++ (v ∷ vs) ∷ post) ≡ pre ++ vs ∷ post
unfolding take_first
take_first-append [] v vs post = refl
take_first-append (b ∷ pre) v vs post = ap (λ l. b ∷ l) (take_first-append pre v vs post)

total-append :
    (pre : List (List ℤ)) (v : ℤ) (vs : List ℤ) (post : List (List ℤ))
    → total (pre ++ (v ∷ vs) ∷ post) ≡ suc (total (pre ++ vs ∷ post))
total-append [] v vs post = omega arith
total-append (b ∷ pre) v vs post = omega (arith, total-append pre v vs post)

count_all-append :
    (w : ℤ) (pre : List (List ℤ)) (v : ℤ) (vs : List ℤ) (post : List (List ℤ))
    → count_all w (pre ++ (v ∷ vs) ∷ post)
      ≡ (if same w v then 1 else 0) + count_all w (pre ++ vs ∷ post)
count_all-append w [] v vs post = omega arith
count_all-append w (b ∷ pre) v vs post = omega (arith, count_all-append w pre v vs post)

AllInts-append :
    (pre : List (List ℤ)) (v : ℤ) (vs : List ℤ) (post : List (List ℤ))
    → AllInts (pre ++ (v ∷ vs) ∷ post)
    → AllInts (pre ++ vs ∷ post)
AllInts-append [] v vs post ((_, h), rest) = (h, rest)
AllInts-append (b ∷ pre) v vs post (h, rest) = (h, AllInts-append pre v vs post rest)

-- Behind the least number in front, the buffers are in order from that number on.
AreSortedFrom-Lower :
    (lo v : ℤ) (bs : List (List ℤ)) → AreSortedFrom lo bs → Lower v bs → AreSortedFrom v bs
AreSortedFrom-Lower lo v [] h low = tt
AreSortedFrom-Lower lo v ([] ∷ bs) (_, h) low = (tt, AreSortedFrom-Lower lo v bs h low)
AreSortedFrom-Lower lo v ((x ∷ xs) ∷ bs) ((_, h), rest) (le, low) =
    ((le, h), AreSortedFrom-Lower lo v bs rest low)

AreSortedFrom-append :
    (pre : List (List ℤ)) (v : ℤ) (vs : List ℤ) (post : List (List ℤ))
    → AreSortedFrom v (pre ++ (v ∷ vs) ∷ post)
    → AreSortedFrom v (pre ++ vs ∷ post)
AreSortedFrom-append [] v vs post ((_, h), rest) = (h, rest)
AreSortedFrom-append (b ∷ pre) v vs post (h, rest) = (h, AreSortedFrom-append pre v vs post rest)

Lower-append :
    (lo v : ℤ) (pre : List (List ℤ)) (vs : List ℤ) (post : List (List ℤ))
    → AreSortedFrom lo (pre ++ (v ∷ vs) ∷ post)
    → lo ≤ℤ v
Lower-append lo v [] vs post ((le, _), _) = le
Lower-append lo v (b ∷ pre) vs post (_, h) = Lower-append lo v pre vs post h

-- Where no number in front is up to `INT_MAX`, nothing is left.
count_all-Above : (w : ℤ) (bs : List (List ℤ)) → AllInts bs → Above int_max bs → count_all w bs ≡ 0
count_all-Above w [] h a = refl
count_all-Above w ([] ∷ bs) (_, h) a = omega (arith, count_all-Above w bs h a)
count_all-Above w ((x ∷ xs) ∷ bs) ((le, _), h) (above, a) = absurd (ground arith)

merge_loop-round :
    (k : ℕ) (bs next : List (List ℤ)) (v : ℤ) (i : ℕ) (out : List ℤ)
    → scan_buffers bs 0 (int_max, none) ≡ (v, some i)
    → take_first i bs ≡ next
    → merge_loop k next ≡ some out
    → merge_loop (suc k) bs ≡ some (v ∷ out)
unfolding merge_loop
merge_loop-round k bs next v i out e taken e' =
    rw (merge_loop, e, taken, e') (ap (λ b. some (b.0 ∷ out)) e)

zero_add : (n : ℕ) → 0 + n ≡ n
zero_add n = omega arith

merge_loop-IsSortedFrom :
    (k : ℕ) (bs : List (List ℤ)) (lo : ℤ)
    → total bs < k
    → AllInts bs
    → AreSortedFrom lo bs
    → (out : List ℤ) × (merge_loop k bs ≡ some out)
      × IsSortedFrom lo out
      × ((w : ℤ) → count w out ≡ count_all w bs)
unfolding merge_loop
merge_loop-IsSortedFrom zero bs lo fuel ints sorted = absurd (omega arith)
merge_loop-IsSortedFrom (suc k) bs lo fuel ints sorted =
    elim (scan_buffers-Scanned bs 0 int_max none) [
      | kept e above ↦ ([], rw (merge_loop, e) refl, tt, λ w. sym (count_all-Above w bs ints above))
      | found pre v vs post e split le low ↦
          (let next = pre ++ vs ∷ post in
            let taken : take_first (0 + length pre) bs ≡ next =
              ap (λ n. take_first n bs) (zero_add (length pre))
              ∙ ap (take_first (length pre)) split
              ∙ take_first-append pre v vs post in
            let (out, e', sorted', counts) =
              merge_loop-IsSortedFrom k next v
                (omega (arith, ap total split, total-append pre v vs post))
                (AllInts-append pre v vs post (subst AllInts split ints))
                (AreSortedFrom-append pre v vs post
                  (subst (AreSortedFrom v) split (AreSortedFrom-Lower lo v bs sorted low))) in
            (
              v ∷ out,
              merge_loop-round k bs next v (0 + length pre) out e taken e',
              (Lower-append lo v pre vs post (subst (AreSortedFrom lo) split sorted), sorted'),
              λ w.
                  omega (arith, counts w, ap (count_all w) split, count_all-append w pre v vs post),
            ))
    ]

-- `merge_files` ends and prints every number of the buffers as often as it stands there, in
-- ascending order, where each buffer is in ascending order, all numbers are from `lo` on and an
-- `int` can hold them.
pub merge_files-IsSortedFrom :
    (bs : List (List ℤ)) (lo : ℤ)
    → AllInts bs
    → AreSortedFrom lo bs
    → (out : List ℤ) × (merge_files bs ≡ some out)
      × IsSortedFrom lo out
      × ((w : ℤ) → count w out ≡ count_all w bs)
unfolding merge_files
merge_files-IsSortedFrom bs lo ints sorted =
    merge_loop-IsSortedFrom (total bs + 1) bs lo (omega arith) ints sorted
