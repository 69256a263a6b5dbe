-- ===== src/Sorter/Quick.antt =====
-- 1/main.c: `part` and `quick_sort`.
--
-- A bound `r` that may be -1 is written as `r + 1`, the first index behind the range.
pub mod Range
pub mod Scans
pub mod Cuts
pub mod Partition
pub mod Sorts
use sysproghw.Base.{
  ℕ, zero, suc, ◌+◌, ◌-◌, ◌%◌, Bool, true, false, List, [], ◌∷◌, Option, none, some, ltb,
  if◌then◌else◌, get_elem?, set, length,
}
use sysproghw.Base.Int.{ℤ, leb_ℤ}
use sysproghw.Sorter.Code.{Code, ret, swaps, draws, fault, out_of_fuel, ◌>>=◌, deref}

-- `tmp = a[i]; a[i] = a[j]; a[j] = tmp;`
unfoldable pub exchange : List ℤ → ℕ → ℕ → Code (List ℤ)
exchange a i j = do
  tmp ← deref (get_elem? a i)
  other ← deref (get_elem? a j)
  ret (set (set a i other) j tmp)

-- `while(i<=r && a[i]<=v) i++;`, where `k` is how many indices there are from `i` to `r`.
unfoldable pub scan_up : List ℤ → ℤ → ℕ → ℕ → Code ℕ
scan_up a v zero i = ret i
scan_up a v (suc k) i = do
  x ← deref (get_elem? a i)
  let rest = scan_up a v k (i + 1)
  if leb_ℤ x v then rest else ret i

-- `while(v < a[j]) j--;`; the index in front of the array is out of bounds.
unfoldable pub scan_down : List ℤ → ℤ → ℕ → Code ℕ
scan_down a v zero = do x ← deref (get_elem? a 0); if leb_ℤ x v then ret 0 else fault
scan_down a v (suc j) = do
  x ← deref (get_elem? a (suc j))
  let rest = scan_down a v j
  if leb_ℤ x v then ret (suc j) else rest

-- `while(i < j)`, on fuel: the array and `j`.
unfoldable pub part_loop : ℕ → List ℤ → ℤ → ℕ → ℕ → ℕ → Code (List ℤ × ℕ)
part_loop zero a v r i j = out_of_fuel
part_loop (suc k) a v r i j = elim (ltb i j) [
  | false ↦ ret (a, j)
  | true ↦ do
    i' ← scan_up a v (r + 1 - i) i
    j' ← scan_down a v j
    a' ← if ltb i' j' then exchange a i' j' else ret a
    part_loop k a' v r i' j'
]

-- `part`, where `rand` has returned `drawn`.
unfoldable pub part_at : ℕ → List ℤ → ℕ → ℕ → Code (List ℤ × ℕ)
part_at drawn a l r = do
  a₁ ← exchange a l (drawn % (r + 1 - l) + l)
  v ← deref (get_elem? a₁ l)
  (a₂, j) ← part_loop (r + 2 - l) a₁ v r l r
  a₃ ← exchange a₂ j l
  ret (a₃, j)

unfoldable pub part : List ℤ → ℕ → ℕ → Code (List ℤ × ℕ)
part a l r = draws (λ drawn. part_at drawn a l r)

-- `quick_sort` from `l` to in front of `end`. The fuel is the room on the stack: so many of its calls
-- may be inside one another.
unfoldable pub quick_sort : ℕ → List ℤ → ℕ → ℕ → Code (List ℤ)
quick_sort zero a l end = out_of_fuel
quick_sort (suc k) a l end = elim (ltb (l + 1) end) [
  | false ↦ ret a
  | true ↦ do
    (a₁, p) ← part a l (end - 1)
    a₂ ← swaps (quick_sort k a₁ l p)
    a₃ ← swaps (quick_sort k a₂ (p + 1) end)
    swaps (ret a₃)
]
