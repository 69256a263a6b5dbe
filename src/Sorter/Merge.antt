-- ===== src/Sorter/Merge.antt =====
-- 1/main.c: `merge_files`.
--
-- What is left of a buffer, `array[0]` to `array[pos - 1]`, is a list.
pub mod Sorted
use sysproghw.Base.{
  ℕ, zero, suc, ◌+◌, Bool, true, false, List, [], ◌∷◌, Option, none, some, length, if◌then◌else◌,
  bind,
}
use sysproghw.Base.Int.{ℤ, pos, leb_ℤ}

-- `INT_MAX`
abbrev pub int_max : ℤ
int_max = pos 2147483647

-- `min` and `flag` after the buffer `i`, which has `v` in front; `flag` is `none` for -1.
abbrev pub pick : ℤ → ℕ → ℤ × Option ℕ → ℤ × Option ℕ
pick v i (min, flag) = if leb_ℤ v min then (v, some i) else (min, flag)

-- The inner loop, from the buffer `i` on.
unfoldable pub scan_buffers : List (List ℤ) → ℕ → ℤ × Option ℕ → ℤ × Option ℕ
scan_buffers [] i best = best
scan_buffers ([] ∷ bufs) i best = scan_buffers bufs (i + 1) best
scan_buffers ((v ∷ _) ∷ bufs) i best = scan_buffers bufs (i + 1) (pick v i best)

-- `array = &array[1]; pos--` at the buffer `flag`.
unfoldable pub take_first : ℕ → List (List ℤ) → List (List ℤ)
take_first i [] = []
take_first zero ([] ∷ bufs) = [] ∷ bufs
take_first zero ((_ ∷ vs) ∷ bufs) = vs ∷ bufs
take_first (suc i) (buf ∷ bufs) = buf ∷ take_first i bufs

-- The outer loop, on fuel: the numbers that are printed.
unfoldable pub merge_loop : ℕ → List (List ℤ) → Option (List ℤ)
merge_loop zero bufs = none
merge_loop (suc k) bufs =
    let (min, flag) = scan_buffers bufs 0 (int_max, none) in
    elim flag [
      | none ↦ some []
      | some i ↦ bind (merge_loop k (take_first i bufs)) (λ out. some (min ∷ out))
    ]

-- How many numbers the buffers hold.
abbrev pub total : List (List ℤ) → ℕ
total [] = 0
total (buf ∷ bufs) = length buf + total bufs

unfoldable pub merge_files : List (List ℤ) → Option (List ℤ)
merge_files bufs = merge_loop (total bufs + 1) bufs
