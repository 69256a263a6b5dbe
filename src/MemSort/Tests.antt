-- ===== src/MemSort/Tests.antt =====
-- lecture_examples/7_ipc/3_mem_sort.c: runs of the model.
use sysproghw.Base.{
  ℕ, zero, suc, ◌≡◌, refl, inl, inr, List, [], ◌∷◌, ◌++◌, some, length, replicate, length-replicate,
  arith,
}
use sysproghw.Base.Int.{ℤ, pos}
use sysproghw.MemSort.{
  mem_size, Process, writer, reader, start, steps, step, write_to_shared_mem, read_from_shared_mem,
}
use sysproghw.MemSort.Passing.{IsPassed}
use sysproghw.MemSort.Turns.{AreRounds, run_rounds, run_rounds-start, steps-start}
use sysproghw.MemSort.Reading.{
  Numbers, no_numbers, read_file, HasRoom, numbers_of, read_file-HasRoom,
}

abbrev three_bytes : List ℕ
three_bytes = 7 ∷ 8 ∷ 9 ∷ []

-- Four steps of the writer and of the reader pass the bytes on, where the reader waits first.
steps_run :
    (steps
      (reader ∷ writer ∷ writer ∷ writer ∷ reader ∷ reader ∷ reader ∷ [])
      (start three_bytes (replicate 4 0))).dst
    ≡ three_bytes
unfolding steps step write_to_shared_mem read_from_shared_mem
steps_run = refl

abbrev rounds : ℕ → List (List Process)
rounds n = replicate n (reader ∷ writer ∷ [])

rounds-AreRounds : (n : ℕ) → AreRounds (rounds n)
rounds-AreRounds zero = tt
rounds-AreRounds (suc n) = (inr (inl refl), inl refl, rounds-AreRounds n)

run_rounds-start_example :
    IsPassed three_bytes (run_rounds (rounds 24) (start three_bytes (replicate mem_size 0)))
run_rounds-start_example =
    run_rounds-start three_bytes (replicate mem_size 0) (rounds 24)
      (length-replicate {A = ℕ} mem_size 0) (rounds-AreRounds 24) (omega arith)

steps-start_example :
    (length (steps (writer ∷ reader ∷ []) (start three_bytes (replicate mem_size 0))).mem
      ≡ mem_size)
    × ((rest : List ℕ) × (three_bytes
          ≡ (steps (writer ∷ reader ∷ []) (start three_bytes (replicate mem_size 0))).dst ++ rest))
steps-start_example =
    steps-start three_bytes (replicate mem_size 0) (writer ∷ reader ∷ [])
      (length-replicate {A = ℕ} mem_size 0)

abbrev four_numbers : List ℤ
four_numbers = pos 4 ∷ pos 1 ∷ pos 3 ∷ pos 2 ∷ []

read_file-HasRoom_example :
    (b : Numbers) × (read_file (pos 0) four_numbers (no_numbers (pos 0)) ≡ some b)
    × HasRoom b
    × (numbers_of b ≡ four_numbers)
read_file-HasRoom_example = read_file-HasRoom (pos 0) four_numbers (omega arith)
