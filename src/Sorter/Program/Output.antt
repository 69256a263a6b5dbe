-- ===== src/Sorter/Program/Output.antt =====
-- 1/main.c: what `main` leaves in the files and writes to "out.txt".
use mathlib.Core.List.{map}
use sysproghw.Base.{ℕ, ◌<◌, ◌≡◌, List, [], ◌∷◌, some, length, get_elem?, get_or}
use sysproghw.Base.Int.{ℤ}
use sysproghw.Base.Buffer.{Buffer}
use sysproghw.Sorter.Code.{Code, ret}
use sysproghw.Sorter.Order.{IsSortedFrom, count}
use sysproghw.Sorter.File.Done.{AreWithin, IsSortable, IsDone}
use sysproghw.Sorter.Merge.{int_max}
use sysproghw.Sorter.Merge.Sorted.{AreSortedFrom, AllInts, count_all}
use sysproghw.Sorter.Machine.{Machine, back_in_main}
use sysproghw.Sorter.Machine.Ends.{Ends}
use sysproghw.Sorter.Program.{buffer_of, output}

-- All numbers of the files are from `lo` on, and an `int` can hold them.
abbrev pub AllWithin : ℤ → List (List ℤ) → Type 0
AllWithin lo [] = Unit
AllWithin lo (f ∷ fs) = AreWithin lo int_max f × AllWithin lo fs

-- The stacks and the buffers have room for all files.
abbrev pub AllSortable : ℕ → List (List ℤ) → Type 0
AllSortable frames [] = Unit
AllSortable frames (f ∷ fs) = IsSortable frames f × AllSortable frames fs

-- The coroutine `i` ends with the numbers of its file.
abbrev Sorted : List (List ℤ) → ℕ → Buffer ℤ × List ℤ → Type 0
Sorted files i r = IsDone (get_or files i []) r

module _ (lo : ℤ) where
  -- The buffers, once all coroutines have ended.
  abbrev Facts : List (Code (Buffer ℤ × List ℤ)) → List (List ℤ) → Type 0
  Facts codes files =
      AllInts (map buffer_of codes)
      × AreSortedFrom lo (map buffer_of codes)
      × ((w : ℤ) → count_all w (map buffer_of codes) ≡ count_all w files)

-- The context of `main` goes on, and this is what it has done with the files.
pub record IsOutput (lo : ℤ) (files : List (List ℤ)) (m : Machine (Buffer ℤ × List ℤ))
    : Type 0 where
  pub back : m.status ≡ back_in_main
  pub each :
      (i : ℕ)
      → i < length files
      → (r : Buffer ℤ × List ℤ) × (get_elem? m.codes i ≡ some (ret r))
        × IsDone (get_or files i []) r
  pub merged :
      (out : List ℤ) × (output m ≡ some out)
      × IsSortedFrom lo out
      × ((w : ℤ) → count w out ≡ count_all w files)
