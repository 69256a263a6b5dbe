-- ===== src/Sorter/Program.antt =====
-- 1/main.c: `main`.
--
-- The files open, and memory, contexts and the output file are there.
pub mod Output
use sysproghw.Base.{ℕ, ◌/◌, Bool, false, List, [], ◌∷◌, Option, none, some, length, replicate}
use mathlib.Core.List.{map}
use sysproghw.Base.Int.{ℤ}
use sysproghw.Base.Buffer.{Buffer, create_buffer, contents}
use sysproghw.Sorter.Code.{Code, ret, swaps, draws, stamps, fault, out_of_fuel}
use sysproghw.Sorter.File.{sort_file}
use sysproghw.Sorter.Machine.{Machine, Status, runs, no_times}
use sysproghw.Sorter.Merge.{merge_files}

-- `makecontext(&data[i].uctx_my, sort_file, …)`, where the file has these numbers.
abbrev pub coroutine : (frames : ℕ) → ℤ → List ℤ → Code (Buffer ℤ × List ℤ)
coroutine frames junk numbers = sort_file frames junk (create_buffer junk 128) numbers

-- `timeslice`, for `atoi(argv[1])`.
abbrev pub timeslice : ℕ → List (List ℤ) → ℕ
timeslice latency files = latency / length files

-- Up to the first `swapcontext`, which goes to coroutine 0; `none` is "no jobs to do". How many calls of
-- `quick_sort` a stack has room for, and what becomes of a `uc_link` that is set after `makecontext`, is
-- not the program's.
unfoldable pub start :
    (frames : ℕ) → (Option ℕ → Status) → ℤ → List (List ℤ) → Option (Machine (Buffer ℤ × List ℤ))
start frames follow junk [] = none
start frames follow junk (file ∷ files) =
    let all = file ∷ files in
    some (record {
      follow = follow;
      status = runs 0;
      codes = map (coroutine frames junk) all;
      finished = replicate (length all) false;
      times = replicate (length all) no_times;
    })

-- `data[i].buf`, as far as its numbers go.
abbrev pub buffer_of : Code (Buffer ℤ × List ℤ) → List ℤ
buffer_of (ret (buf, _)) = contents buf
buffer_of (swaps c) = []
buffer_of (draws g) = []
buffer_of (stamps c) = []
buffer_of fault = []
buffer_of out_of_fuel = []

-- What `merge_files(data, coroutines_num, out)` writes to "out.txt".
abbrev pub output : Machine (Buffer ℤ × List ℤ) → Option (List ℤ)
output m = merge_files (map buffer_of m.codes)
