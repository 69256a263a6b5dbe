-- ===== src/Sorter/Tests.antt =====
-- 1/main.c: runs of the model.
use sysproghw.Base.{ℕ, Option, none, ◌≡◌, refl, List, [], ◌∷◌, some, false, arith}
use sysproghw.Base.Int.{ℤ, pos, negsuc}
use sysproghw.Base.Buffer.{create_buffer}
use sysproghw.Sorter.Code.{Ensures, ret}
use sysproghw.Sorter.Quick.{exchange, scan_up, scan_down, part_loop, part_at, quick_sort}
use sysproghw.Sorter.Quick.Sorts.{IsRangeSorted, quick_sort-IsRangeSorted}
use sysproghw.Sorter.File.{sort_file}
use sysproghw.Sorter.File.Done.{IsDone, sort_file-IsDone}
use sysproghw.Sorter.Machine.{Machine, Status, back_in_main, runs, no_times}
use sysproghw.Sorter.Machine.Ends.{Ends}
use sysproghw.Sorter.Program.{coroutine}
use sysproghw.Base.Buffer.{Buffer}
use sysproghw.Sorter.Merge.Sorted.{AllInts, AreSortedFrom}
use sysproghw.Sorter.Merge.{merge_loop, scan_buffers, take_first, merge_files}

merge_files_run :
    merge_files ((pos 1 ∷ pos 5 ∷ []) ∷ [] ∷ (negsuc 2 ∷ pos 3 ∷ []) ∷ [])
    ≡ some (negsuc 2 ∷ pos 1 ∷ pos 3 ∷ pos 5 ∷ [])
unfolding merge_files merge_loop scan_buffers take_first
merge_files_run = refl

abbrev two_buffers : List (List ℤ)
two_buffers = (pos 1 ∷ pos 5 ∷ []) ∷ (negsuc 2 ∷ pos 3 ∷ []) ∷ []

two_buffers-AllInts : AllInts two_buffers
two_buffers-AllInts = ((omega arith, (omega arith, tt)), ((omega arith, (omega arith, tt)), tt))

two_buffers-AreSortedFrom : AreSortedFrom (negsuc 2) two_buffers
two_buffers-AreSortedFrom =
    ((omega arith, (omega arith, tt)), ((omega arith, (omega arith, tt)), tt))

abbrev three_numbers : List ℤ
three_numbers = pos 3 ∷ negsuc 0 ∷ pos 2 ∷ []

part_at_run : part_at 5 three_numbers 0 2 ≡ ret (negsuc 0 ∷ pos 2 ∷ pos 3 ∷ [], 1)
unfolding part_at exchange part_loop scan_up scan_down
part_at_run = refl

quick_sort-IsRangeSorted_example :
    Ensures (IsRangeSorted three_numbers 0 3) (quick_sort 4 three_numbers 0 3)
quick_sort-IsRangeSorted_example =
    quick_sort-IsRangeSorted 4 three_numbers 0 3 (omega arith) (omega arith)

sort_file-IsDone_example :
    Ensures (IsDone three_numbers) (sort_file 4 (pos 7) (create_buffer (pos 7) 128) three_numbers)
sort_file-IsDone_example = sort_file-IsDone 4 (pos 7) three_numbers (omega arith, omega arith)

abbrev two_files : List (List ℤ)
two_files = three_numbers ∷ (pos 1 ∷ []) ∷ []

-- A C library that reads `uc_link` when a coroutine returns.
abbrev as_linked : Option ℕ → Status
as_linked none = back_in_main
as_linked (some i) = runs i

abbrev started : Machine (Buffer ℤ × List ℤ)
started = record {
  follow = as_linked;
  status = runs 0;
  codes = coroutine 4 (pos 7) three_numbers ∷ coroutine 4 (pos 7) (pos 1 ∷ []) ∷ [];
  finished = false ∷ false ∷ [];
  times = no_times ∷ no_times ∷ [];
}
