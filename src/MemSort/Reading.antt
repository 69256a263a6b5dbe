-- ===== src/MemSort/Reading.antt =====
-- lecture_examples/7_ipc/3_mem_sort.c: `sorter` reads its numbers into an array that grows.
use sysproghw.Base.{
  true, take-append_left, ltb, ◌^◌, ℕ, zero, suc, ◌+◌, ◌*◌, ◌-◌, ◌<◌, ◌≡◌, refl, ◌∙◌, sym, ap, inl,
  inr, List, [], ◌∷◌, ◌++◌, length, length-append, length-set, length-replicate, take, set,
  replicate, ◌==◌, if◌then◌else◌, Bool-cases, Option, none, some, get_elem?, arith,
}
use sysproghw.Base.Int.{ℤ}
use mathlib.Core.List.{append_assoc, append-nil}

pub record Numbers : Type 0 where
  pub size : ℕ
  pub capacity : ℕ
  pub array : List ℤ

-- `malloc` for 1024 numbers, each of which holds `junk`.
abbrev pub no_numbers : ℤ → Numbers
no_numbers junk = record { size = 0; capacity = 1024; array = replicate 1024 junk }

-- The write of `fscanf` to `&array[size]`, which is `none` out of bounds, and the body of the loop,
-- which is `none` where `capacity` overflows its `int`.
unfoldable pub read_number : ℤ → ℤ → Numbers → Option Numbers
read_number junk x b = elim (get_elem? b.array b.size) [
  | none ↦ none
  | some _ ↦
      (let size = b.size + 1 in
        let array = set b.array b.size x in
        if size == b.capacity
        then if ltb (b.capacity * 2) (2 ^ 31)
          then some (record {
            size = size;
            capacity = b.capacity * 2;
            array = array ++ replicate (b.capacity * 2 - b.capacity) junk;
          })
          else none
        else some (record { size = size; capacity = b.capacity; array = array }))
]

-- The loop, over the numbers of the file.
unfoldable pub read_file : ℤ → List ℤ → Numbers → Option Numbers
read_file junk [] b = some b
read_file junk (x ∷ xs) b = elim (read_number junk x b) [
  | none ↦ none
  | some b' ↦ read_file junk xs b'
]

-- There is room for one more number.
pub record HasRoom (b : Numbers) : Type 0 where
  pub room : b.size < b.capacity
  pub sized : length b.array ≡ b.capacity

abbrev pub numbers_of : Numbers → List ℤ
numbers_of b = take b.size b.array

get_elem?-some : (a : List ℤ) (i : ℕ) → i < length a → (x : ℤ) × (get_elem? a i ≡ some x)
get_elem?-some [] i h = absurd (omega arith)
get_elem?-some (x ∷ a) zero h = (x, refl)
get_elem?-some (x ∷ a) (suc i) h = get_elem?-some a i (omega arith)

take-set_end :
    (a : List ℤ) (i : ℕ) (x : ℤ) → i < length a → take (suc i) (set a i x) ≡ take i a ++ x ∷ []
take-set_end [] i x h = absurd (omega arith)
take-set_end (y ∷ a) zero x h = refl
take-set_end (y ∷ a) (suc i) x h = ap (λ l. y ∷ l) (take-set_end a i x (omega arith))

read_number-HasRoom :
    (junk x : ℤ) (b : Numbers)
    → HasRoom b
    → b.size + 1 < 2 ^ 30
    → (b' : Numbers) × (read_number junk x b ≡ some b')
      × HasRoom b'
      × (b'.size ≡ b.size + 1)
      × (numbers_of b' ≡ numbers_of b ++ x ∷ [])
unfolding read_number
read_number-HasRoom junk x b h small =
    let (y, e) = get_elem?-some b.array b.size (omega (arith, h.room, h.sized)) in
    let next : b.size + 1 ≡ suc b.size = omega arith in
    let written =
      ap (λ n. take n (set b.array b.size x)) next
      ∙ take-set_end b.array b.size x (omega (arith, h.room, h.sized)) in
    let long = length-set b.array b.size x in
    elim (Bool-cases (b.size + 1 == b.capacity)) [
      | inl full ↦
          let fits : ltb (b.capacity * 2) (2 ^ 31) ≡ true = ground arith in
          (
            record {
              size = b.size + 1;
              capacity = b.capacity * 2;
              array = set b.array b.size x ++ replicate (b.capacity * 2 - b.capacity) junk;
            },
            simp (read_number, e, full, fits) refl,
            record {
              room = ground (arith, h.room);
              sized = omega (
                arith,
                length-append (set b.array b.size x) (replicate (b.capacity * 2 - b.capacity) junk),
                length-replicate (b.capacity * 2 - b.capacity) junk,
                h.sized,
                long,
              );
            },
            refl,
            take-append_left (b.size + 1) (set b.array b.size x)
                  (replicate (b.capacity * 2 - b.capacity) junk)
                  (omega (arith, h.room, h.sized, long))
                ∙ written,
          )
      | inr room ↦ (
        record { size = b.size + 1; capacity = b.capacity; array = set b.array b.size x },
        simp (read_number, e, room) refl,
        record { room = ground (arith, h.room); sized = long ∙ h.sized },
        refl,
        written,
      )
    ]

read_file-from :
    (junk : ℤ) (xs : List ℤ) (b : Numbers)
    → HasRoom b
    → b.size + length xs < 2 ^ 30
    → (b' : Numbers) × (read_file junk xs b ≡ some b')
      × HasRoom b'
      × (numbers_of b' ≡ numbers_of b ++ xs)
unfolding read_file
read_file-from junk [] b h small = (b, refl, h, sym (append-nil (numbers_of b)))
read_file-from junk (x ∷ xs) b h small =
    let (b₁, e₁, h₁, n₁, s₁) = read_number-HasRoom junk x b h (omega (arith, small)) in
    let (b₂, e₂, h₂, s₂) = read_file-from junk xs b₁ h₁ (omega (arith, small, n₁)) in
    (
      b₂,
      rw (read_file, e₁) e₂,
      h₂,
      s₂ ∙ ap (λ l. l ++ xs) s₁ ∙ append_assoc (numbers_of b) (x ∷ []) xs,
    )

-- `sorter` reads all numbers of a file that holds fewer than 2^30, in their order: each is written
-- within the array, which has room for one more number afterwards, and no `int` overflows.
pub read_file-HasRoom :
    (junk : ℤ) (xs : List ℤ)
    → length xs < 2 ^ 30
    → (b : Numbers) × (read_file junk xs (no_numbers junk) ≡ some b)
      × HasRoom b
      × (numbers_of b ≡ xs)
read_file-HasRoom junk xs small =
    read_file-from junk xs (no_numbers junk)
      (record { room = omega arith; sized = length-replicate 1024 junk }) (omega (arith, small))
