-- ===== src/Sorter/File/Done.antt =====
-- 1/main.c: what `sort_file` leaves in the buffer and in the file.
use mathlib.Core.Path.{subst}
use mathlib.Core.List.{append_assoc, append-nil}
use sysproghw.Base.{
  length-append, ◌^◌, false, ℕ, zero, suc, ◌+◌, ◌<◌, ◌≤◌, ◌≡◌, refl, ◌∙◌, ap, sym, inr, List, [],
  ◌∷◌, ◌++◌, length, take, drop, take-append-drop, arith,
}
use sysproghw.Base.Int.{ℤ, ◌≤ℤ◌}
use sysproghw.Base.Buffer.{
  length-contents, Buffer, create_buffer, insert_buffer, contents, IsValid, create_buffer-IsValid,
  insert_buffer-IsValid, contents-insert_buffer,
}
use sysproghw.Sorter.Code.{Ensures, Ensures-bind}
use sysproghw.Sorter.Order.{IsSortedFrom, count, count-append, cell}
use sysproghw.Sorter.Quick.{quick_sort}
use sysproghw.Sorter.Quick.Range.{read_cell}
use sysproghw.Sorter.Quick.Sorts.{IsRangeSorted, quick_sort-IsRangeSorted}
use sysproghw.Sorter.File.{overflows, read_numbers, print_numbers, sort_file}

-- Every number lies between `lo` and `hi`.
abbrev pub AreWithin : ℤ → ℤ → List ℤ → Type 0
AreWithin lo hi [] = Unit
AreWithin lo hi (x ∷ xs) = (lo ≤ℤ x) × (x ≤ℤ hi) × AreWithin lo hi xs

AreWithin-cell :
    (lo hi : ℤ) (a : List ℤ) (n m : ℕ)
    → AreWithin lo hi (take n a)
    → n ≤ length a
    → m < n
    → (lo ≤ℤ cell a m) × (cell a m ≤ℤ hi)
AreWithin-cell lo hi a zero m h le lt = absurd (omega arith)
AreWithin-cell lo hi [] (suc n) m h le lt = absurd (omega arith)
AreWithin-cell lo hi (x ∷ a) (suc n) zero (h₁, h₂, h) le lt = (h₁, h₂)
AreWithin-cell lo hi (x ∷ a) (suc n) (suc m) (h₁, h₂, h) le lt =
    AreWithin-cell lo hi a n m h (omega arith) (omega arith)

cell-AreWithin :
    (lo hi : ℤ) (a : List ℤ) (n : ℕ)
    → ((m : ℕ) → m < n → (lo ≤ℤ cell a m) × (cell a m ≤ℤ hi))
    → AreWithin lo hi (take n a)
cell-AreWithin lo hi a zero h = tt
cell-AreWithin lo hi [] (suc n) h = tt
cell-AreWithin lo hi (x ∷ a) (suc n) h =
    let (h₁, h₂) = h 0 (omega arith) in
    (h₁, h₂, cell-AreWithin lo hi a n (λ m lt. h (suc m) (omega arith)))

cell-IsSortedFrom :
    (lo : ℤ) (a : List ℤ) (n : ℕ)
    → n ≤ length a
    → (0 < n → lo ≤ℤ cell a 0)
    → ((m : ℕ) → suc m < n → cell a m ≤ℤ cell a (suc m))
    → IsSortedFrom lo (take n a)
cell-IsSortedFrom lo a zero long h k = tt
cell-IsSortedFrom lo [] (suc n) long h k = tt
cell-IsSortedFrom lo (x ∷ a) (suc n) long h k = (
  h (omega arith),
  cell-IsSortedFrom x a n (omega arith) (λ lt. k 0 (omega arith)) (λ m lt. k (suc m) (omega arith)),
)

-- Two arrays of one length that agree from `n` on.
drop-cell :
    (a b : List ℤ) (n : ℕ)
    → length b ≡ length a
    → ((m : ℕ) → n ≤ m → cell b m ≡ cell a m)
    → drop n b ≡ drop n a
drop-cell [] [] n e h = refl
drop-cell [] (y ∷ b) n e h = absurd (omega arith)
drop-cell (x ∷ a) [] n e h = absurd (omega arith)
drop-cell (x ∷ a) (y ∷ b) zero e h =
    let first : y ≡ x = h 0 (omega arith) in
    let rest : b ≡ a = drop-cell a b zero (omega arith) (λ m le. h (suc m) (omega arith)) in
    rw (first, rest) refl
drop-cell (x ∷ a) (y ∷ b) (suc n) e h =
    drop-cell a b n (omega arith) (λ m le. h (suc m) (omega arith))

count-take :
    (w : ℤ) (a b : List ℤ) (n : ℕ)
    → drop n b ≡ drop n a
    → count w b ≡ count w a
    → count w (take n b) ≡ count w (take n a)
count-take w a b n e same_count =
    let in_a = ap (count w) (sym (take-append-drop n a)) ∙ count-append w (take n a) (drop n a) in
    let in_b = ap (count w) (sym (take-append-drop n b)) ∙ count-append w (take n b) (drop n b) in
    let tails = ap (count w) e in omega arith

read_numbers_lem :
    (junk : ℤ) (buf : Buffer ℤ) (numbers : List ℤ)
    → IsValid buf
    → buf.pos + length numbers < 2 ^ 30
    → Ensures
        (λ b. IsValid b × (contents b ≡ contents buf ++ numbers))
        (read_numbers junk buf numbers)
unfolding read_numbers overflows
read_numbers_lem junk buf [] v small = (v, sym (append-nil (contents buf)))
read_numbers_lem junk buf (c ∷ cs) v small =
    let next = insert_buffer junk buf c in
    let grown : contents next ++ cs ≡ contents buf ++ (c ∷ cs) =
      ap (λ l. l ++ cs) (contents-insert_buffer junk buf c v)
      ∙ append_assoc (contents buf) (c ∷ []) cs in
    let valid = insert_buffer-IsValid junk buf c v in
    let one_more : next.pos ≡ buf.pos + 1 = omega (
      arith,
      length-contents next valid,
      length-contents buf v,
      ap length (contents-insert_buffer junk buf c v),
      length-append (contents buf) (c ∷ []),
    ) in
    let fits : overflows buf ≡ false = ground (arith, small, v.fits) in
    rw fits (
      subst (λ l. Ensures (λ b. IsValid b × (contents b ≡ l)) (read_numbers junk next cs)) grown
        (read_numbers_lem junk next cs valid (omega (arith, small, one_more))))

print_numbers_lem :
    (k i : ℕ) (a : List ℤ)
    → i + k ≤ length a
    → Ensures (λ out. out ≡ take k (drop i a)) (print_numbers k i a)
unfolding print_numbers
print_numbers_lem zero i a long = refl
print_numbers_lem (suc k) i a long = rw (read_cell a i (omega arith)) (
    Ensures-bind (λ out. out ≡ take k (drop (i + 1) a)) (λ out. out ≡ take (suc k) (drop i a))
      (print_numbers k (i + 1) a) _ (print_numbers_lem k (i + 1) a (omega arith))
      (λ out e. ap (λ l. cell a i ∷ l) e ∙ take_next))
  where
    take-cell :
        (b : List ℤ) (j n : ℕ)
        → j < length b
        → cell b j ∷ take n (drop (suc j) b) ≡ take (suc n) (drop j b)
    take-cell [] j n lt = absurd (omega arith)
    take-cell (x ∷ b) zero n lt = refl
    take-cell (x ∷ b) (suc j) n lt = take-cell b j n (omega arith)

    take_next : cell a i ∷ take k (drop (i + 1) a) ≡ take (suc k) (drop i a)
    take_next =
        let next : i + 1 ≡ suc i = omega arith in
        ap (λ j. cell a i ∷ take k (drop j a)) next ∙ take-cell a i k (omega arith)

-- What `sort_file` has made of the numbers: they are in the buffer and in the file, in ascending order.
pub record IsDone (numbers : List ℤ) (o : Buffer ℤ × List ℤ) : Type 0 where
  pub valid : IsValid o.0
  pub printed : o.1 ≡ contents o.0
  pub within : (lo hi : ℤ) → AreWithin lo hi numbers → AreWithin lo hi o.1
  pub ascending : (lo hi : ℤ) → AreWithin lo hi numbers → IsSortedFrom lo o.1
  pub counts : (w : ℤ) → count w o.1 ≡ count w numbers

-- The buffer `b` after its array was sorted.
module _ (numbers : List ℤ) (b : Buffer ℤ) (valid : IsValid b) (read : contents b ≡ numbers)
    (a : List ℤ) (sorted : IsRangeSorted b.array 0 b.pos a) where
  cells_within :
      (lo hi : ℤ)
      → AreWithin lo hi numbers
      → (m : ℕ) → m < b.pos
      → (lo ≤ℤ cell a m) × (cell a m ≤ℤ hi)
  cells_within lo hi h m lt =
      let (k, _, lt', e) = sorted.moved.from m (omega arith) lt in
      subst (λ x. (lo ≤ℤ x) × (x ≤ℤ hi)) (sym e)
        (AreWithin-cell lo hi b.array b.pos k (subst (AreWithin lo hi) (sym read) h)
          (omega (arith, valid.fits, valid.sized)) lt')

  neighbours : (m : ℕ) → suc m < b.pos → cell a m ≤ℤ cell a (suc m)
  neighbours m lt =
      let next : m + 1 ≡ suc m = omega arith in
      subst (λ n. cell a m ≤ℤ cell a n) next (sorted.ascending m (omega arith) (omega arith))

  sorted-IsDone : IsDone numbers (record b { array = a }, take b.pos a)
  sorted-IsDone = record {
    valid = record {
      has_room = valid.has_room;
      fits = valid.fits;
      sized = sorted.moved.long ∙ valid.sized;
    };
    printed = refl;
    within = λ lo hi h. cell-AreWithin lo hi a b.pos (cells_within lo hi h);
    ascending = λ lo hi h.
        cell-IsSortedFrom lo a b.pos (omega (arith, sorted.moved.long, valid.fits, valid.sized))
          (λ lt. let (low, _) = cells_within lo hi h 0 lt in low) neighbours;
    counts = λ w.
        count-take w b.array a b.pos
          (drop-cell b.array a b.pos sorted.moved.long (λ m le. sorted.moved.outside m (inr le)))
          (sorted.moved.counts w)
        ∙ ap (count w) read;
  }

-- The calls of `quick_sort` for so many numbers fit on the stack, whatever `rand` returns, and their
-- count fits the `int` of the buffer.
abbrev pub IsSortable : ℕ → List ℤ → Type 0
IsSortable frames numbers = (length numbers < frames) × (length numbers < 2 ^ 30)

-- `sort_file` of a file with fewer than 2^30 numbers, and with fewer than there is room on the coroutine's
-- stack for calls of `quick_sort` inside one another, ends without a fault: the buffer, and what is
-- written to the file from its start on, then hold the same numbers, each one as often as the file held
-- it before, in ascending order.
pub sort_file-IsDone :
    (frames : ℕ) (junk : ℤ) (numbers : List ℤ)
    → IsSortable frames numbers
    → Ensures (IsDone numbers) (sort_file frames junk (create_buffer junk 128) numbers)
unfolding sort_file create_buffer
sort_file-IsDone frames junk numbers (shallow, small) =
    Ensures-bind (λ b. IsValid b × (contents b ≡ numbers)) (IsDone numbers)
      (read_numbers junk (create_buffer junk 128) numbers) _
      (read_numbers_lem junk (create_buffer junk 128) numbers
        (create_buffer-IsValid junk 128 (omega arith)) (omega (arith, small)))
      (λ b h.
        let (valid, read) = h in
        let many : b.pos ≡ length numbers =
          omega (arith, length-contents b valid, ap length read) in
        Ensures-bind (IsRangeSorted b.array 0 b.pos) (IsDone numbers)
          (quick_sort frames b.array 0 b.pos) _
          (quick_sort-IsRangeSorted frames b.array 0 b.pos (omega (arith, shallow, many))
            (omega (arith, valid.fits, valid.sized)))
          (λ a s.
            Ensures-bind (λ out. out ≡ take b.pos a) (IsDone numbers) (print_numbers b.pos 0 a) _
              (print_numbers_lem b.pos 0 a (omega (arith, s.moved.long, valid.fits, valid.sized)))
              (λ out e.
                subst (λ l. IsDone numbers (record b { array = a }, l)) (sym e)
                  (sorted-IsDone numbers b valid read a s))))
