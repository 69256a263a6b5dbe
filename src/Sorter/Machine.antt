-- ===== src/Sorter/Machine.antt =====
-- 1/main.c: the coroutines that `main` starts, one of which runs at a time.
--
-- The values of `clock` and `rand` are not known: every step takes its own ones.
pub mod Winds
pub mod Ends
use sysproghw.Base.{ℕ, Bool, List, Option, none, some, get_elem?, get_or, set}
use sysproghw.Sorter.Code.{Code, ret, swaps, draws, stamps, fault, out_of_fuel}
use sysproghw.Sorter.Schedule.{Times, swap, terminate}

-- What the calls of one step return: `now` and `later` in turn, `back` once the coroutine is
-- resumed, and `drawn` from `rand`.
pub record Tick : Type 0 where
  pub now : ℕ
  pub later : ℕ
  pub back : ℕ
  pub drawn : ℕ

-- Which context runs: a coroutine's, or `uctx_main`.
pub data Status : Type 0 where
  runs : ℕ → Status
  back_in_main : Status
  crashed : Status

-- `follow` says where the C library leads a coroutine that returns, by the `uc_link` that it finds then:
-- another coroutine, or `uctx_main`.
pub record Machine (A : Type 0) : Type 0 where
  pub follow : Option ℕ → Status
  pub status : Status
  pub codes : List (Code A)
  pub finished : List Bool
  pub times : List Times

abbrev pub no_times : Times
no_times = record { swap_count = 0; time_work = 0; timestamp = 0 }

-- `swap` that returns goes on with the coroutine `n`.
abbrev pub switch : ℕ → Option ℕ → Status
switch n none = runs n
switch n (some i) = runs i

-- The coroutine `n` with the code `c` runs up to the next point where another one may.
unfoldable pub exec : {A : Type 0} → (slice : ℕ) → Tick → Machine A → ℕ → Code A → Machine A
exec slice k m n (ret r) =
    let (finished, t, to) = terminate k.now n m.finished (get_or m.times n no_times) in
    record m { status = m.follow to; finished = finished; times = set m.times n t }
exec slice k m n (swaps c) =
    let (to, t) = swap k.now k.later k.back slice n m.finished (get_or m.times n no_times) in
    record m { status = switch n to; codes = set m.codes n c; times = set m.times n t }
exec slice k m n (draws g) = record m { codes = set m.codes n (g k.drawn) }
exec slice k m n (stamps c) =
    let t = get_or m.times n no_times in
    record m { codes = set m.codes n c; times = set m.times n (record t { timestamp = k.now }) }
exec slice k m n fault = record m { status = crashed }
exec slice k m n out_of_fuel = record m { status = crashed }

unfoldable pub step : {A : Type 0} → (slice : ℕ) → Tick → Machine A → Machine A
step slice k m = elim m.status [
  | runs n ↦ elim (get_elem? m.codes n) [
    | none ↦ record m { status = crashed }
    | some c ↦ exec slice k m n c
  ]
  | back_in_main ↦ m
  | crashed ↦ m
]
