-- ===== src/MemSort/Passing.antt =====
-- lecture_examples/7_ipc/3_mem_sort.c: the states that a transfer goes through.
use sysproghw.Base.{ℕ, ◌+◌, ◌-◌, ◌*◌, ◌<◌, ◌≡◌, true, false, List, [], ◌++◌, length}
use sysproghw.MemSort.{
  mem_size, waiting, copied, cleared, returned, Transfer, to_copy, again, Process, writer, reader,
  step,
}

abbrev pub turn : ℕ → ℕ
turn n = 6 * n + (6 - 6 * n)

-- The states of a transfer of `all`, each with the number of steps that are left at most. `got` is
-- what the reader has, `left` what the writer has not copied yet, and `chunk` what is on its way.
pub data IsPassing (all : List ℕ) : ℕ → Transfer → Type 0 where
  to_write :
      (got left mem : List ℕ)
      → all ≡ got ++ left
      → length mem ≡ mem_size
      → IsPassing all (turn (length left)) (record {
        is_readable = false;
        is_writable = true;
        mem = mem;
        writer = waiting;
        src = left;
        reader = waiting;
        size = length left;
        dst = got;
      })
  written :
      (got chunk left mem : List ℕ) (size : ℕ)
      → all ≡ got ++ chunk ++ left
      → size ≡ length chunk + length left
      → to_copy size ≡ length chunk
      → length (chunk ++ mem) ≡ mem_size
      → IsPassing all (turn size - 1) (record {
        is_readable = false;
        is_writable = true;
        mem = chunk ++ mem;
        writer = copied;
        src = left;
        reader = waiting;
        size = size;
        dst = got;
      })
  closed :
      (got chunk left mem : List ℕ) (size : ℕ)
      → all ≡ got ++ chunk ++ left
      → size ≡ length chunk + length left
      → to_copy size ≡ length chunk
      → length (chunk ++ mem) ≡ mem_size
      → IsPassing all (turn size - 2) (record {
        is_readable = false;
        is_writable = false;
        mem = chunk ++ mem;
        writer = cleared;
        src = left;
        reader = waiting;
        size = size;
        dst = got;
      })
  to_read :
      (got chunk left mem : List ℕ) (size : ℕ)
      → all ≡ got ++ chunk ++ left
      → size ≡ length chunk + length left
      → to_copy size ≡ length chunk
      → length (chunk ++ mem) ≡ mem_size
      → IsPassing all (turn size - 3) (record {
        is_readable = true;
        is_writable = false;
        mem = chunk ++ mem;
        writer = again (length left);
        src = left;
        reader = waiting;
        size = size;
        dst = got;
      })
  fetched :
      (got left mem : List ℕ)
      → all ≡ got ++ left
      → length mem ≡ mem_size
      → IsPassing all (6 * length left + 2) (record {
        is_readable = true;
        is_writable = false;
        mem = mem;
        writer = again (length left);
        src = left;
        reader = copied;
        size = length left;
        dst = got;
      })
  emptied :
      (got left mem : List ℕ)
      → all ≡ got ++ left
      → length mem ≡ mem_size
      → IsPassing all (6 * length left + 1) (record {
        is_readable = false;
        is_writable = false;
        mem = mem;
        writer = again (length left);
        src = left;
        reader = cleared;
        size = length left;
        dst = got;
      })
  passed :
      (mem : List ℕ)
      → length mem ≡ mem_size
      → IsPassing all 0 (record {
        is_readable = false;
        is_writable = true;
        mem = mem;
        writer = returned;
        src = [];
        reader = returned;
        size = 0;
        dst = all;
      })

abbrev pub other : Process → Process
other writer = reader
other reader = writer

-- It is the turn of one process, which does a step; the other one can only wait.
pub record Next (all : List ℕ) (r : ℕ) (t : Transfer) : Type 0 where
  pub who : Process
  pub rest : ℕ
  pub passing : IsPassing all rest (step who t)
  pub fewer : rest < r
  pub waits : step (other who) t ≡ t

-- The state behind the last step of both calls.
pub record IsPassed (all : List ℕ) (t : Transfer) : Type 0 where
  pub received : t.dst ≡ all
  pub writer_returned : t.writer ≡ returned
  pub reader_returned : t.reader ≡ returned
  pub flags : (t.is_readable ≡ false) × (t.is_writable ≡ true)
  pub fits : length t.mem ≡ mem_size

-- Both calls have returned.
pub record Idle (all : List ℕ) (t : Transfer) : Type 0 where
  pub idle : (p : Process) → step p t ≡ t
  pub over : IsPassing all 0 t
  pub result : IsPassed all t
