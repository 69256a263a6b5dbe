-- ===== src/Sorter/Schedule.antt =====
-- 1/main.c: which coroutine `swap` and `terminate` go on with.
--
-- The flags `finished` of the coroutines are a list, and the clock's values, which do not go
-- back, are arguments. `swapcontext` does not fail.
pub mod Fair
use sysproghw.Base.{
  ℕ, zero, suc, ◌+◌, ◌-◌, Bool, true, false, List, [], ◌∷◌, Option, none, some, ltb, if◌then◌else◌,
  get_elem?, set, length,
}

-- `data[i].finished == 1`, of an index within the array.
abbrev is_finished : Option Bool → Bool
is_finished (some false) = false
is_finished _ = true

-- `for(i = from; …; i++)`, on the rounds left: the first coroutine that is not finished.
unfoldable pub first_alive : ℕ → ℕ → List Bool → Option ℕ
first_alive zero i finished = none
first_alive (suc k) i finished =
    let rest = first_alive k (i + 1) finished in
    if is_finished (get_elem? finished i) then rest else some i

abbrev pub first_of : Option ℕ → Option ℕ → Option ℕ
first_of none o = o
first_of (some i) _ = some i

-- The two loops behind each other: `n + 1` to `size - 1`, and 0 to `n - 1`.
unfoldable pub next_alive : ℕ → List Bool → Option ℕ
next_alive n finished =
    first_of (first_alive (length finished - (n + 1)) (n + 1) finished) (first_alive n 0 finished)

-- What a coroutine keeps of its times.
pub record Times : Type 0 where
  pub swap_count : ℕ
  pub time_work : ℕ
  pub timestamp : ℕ

-- `terminate`: the flags, the times, and `uc_link`, which is `none` for `uctx_main`.
unfoldable pub terminate : ℕ → ℕ → List Bool → Times → List Bool × Times × Option ℕ
terminate now n finished t =
    let finished' = set finished n true in
    (finished', record t { time_work = t.time_work + (now - t.timestamp) }, next_alive n finished')

-- `swap`, whose calls of `clock` return `now` and `later`, up to `swapcontext`: the coroutine that
-- it goes to, if any, and the times. The time stamp is set when the coroutine comes back, at the
-- time `back`.
unfoldable pub swap : (now later back timeslice : ℕ) → ℕ → List Bool → Times → Option ℕ × Times
swap now later back timeslice n finished t =
    if ltb (now - t.timestamp) timeslice
    then (none, t)
    else (let to = next_alive n finished in
        (
          to,
          elim to [
            | none ↦ t
            | some _ ↦ record {
              swap_count = t.swap_count + 1;
              time_work = t.time_work + (later - t.timestamp);
              timestamp = back;
            }
          ],
        ))
