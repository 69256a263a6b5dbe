-- ===== src/MemSort.antt =====
-- lecture_examples/7_ipc/3_mem_sort.c: bytes pass from one process to another through shared memory.
--
-- One call of `write_to_shared_mem` and one of `read_from_shared_mem` run at the same time. Reads
-- and writes of the shared memory take effect in the order in which they are written.
pub mod Passing
pub mod Chunks
pub mod Turns
pub mod Reading
mod Tests
use sysproghw.Base.{
  ℕ, zero, suc, ◌-◌, Bool, true, false, List, [], ◌∷◌, ◌++◌, length, take, drop, ltb, if◌then◌else◌,
}

-- `MEM_SIZE - MEM_META_SIZE`
abbrev pub mem_size : ℕ
mem_size = 65536 - 2

-- Where a call stands in its loop: in front of the copy, behind it, with its own flag cleared, and at
-- its end.
pub data Phase : Type 0 where
  waiting : Phase
  copied : Phase
  cleared : Phase
  returned : Phase

-- The shared memory, what the writer has still to copy, and how many bytes the reader still expects
-- behind those it has.
pub record Transfer : Type 0 where
  pub is_readable : Bool
  pub is_writable : Bool
  pub mem : List ℕ
  pub writer : Phase
  pub src : List ℕ
  pub reader : Phase
  pub size : ℕ
  pub dst : List ℕ

-- `mem_size > size ? size : mem_size`
abbrev pub to_copy : ℕ → ℕ
to_copy size = if ltb size mem_size then size else mem_size

-- `if (size == 0) break;`
abbrev pub again : ℕ → Phase
again zero = returned
again (suc n) = waiting

unfoldable pub write_to_shared_mem : Transfer → Transfer
write_to_shared_mem t = elim t.writer [
  | waiting ↦
      if t.is_writable
      then (let n = to_copy (length t.src) in
          record t { mem = take n t.src ++ drop n t.mem; src = drop n t.src; writer = copied })
      else t
  | copied ↦ record t { is_writable = false; writer = cleared }
  | cleared ↦ record t { is_readable = true; writer = again (length t.src) }
  | returned ↦ t
]

unfoldable pub read_from_shared_mem : Transfer → Transfer
read_from_shared_mem t = elim t.reader [
  | waiting ↦
      if t.is_readable
      then (let n = to_copy t.size in
          record t { dst = t.dst ++ take n t.mem; size = t.size - n; reader = copied })
      else t
  | copied ↦ record t { is_readable = false; reader = cleared }
  | cleared ↦ record t { is_writable = true; reader = again t.size }
  | returned ↦ t
]

pub data Process : Type 0 where
  writer : Process
  reader : Process

-- A step of the loop of one of the processes; one that waits stays where it is.
unfoldable pub step : Process → Transfer → Transfer
step writer t = write_to_shared_mem t
step reader t = read_from_shared_mem t

unfoldable pub steps : List Process → Transfer → Transfer
steps [] t = t
steps (p ∷ ps) t = steps ps (step p t)

-- `main` has set the flags; `junk` is what the memory holds.
abbrev pub start : List ℕ → List ℕ → Transfer
start src junk = record {
  is_readable = false;
  is_writable = true;
  mem = junk;
  writer = waiting;
  src = src;
  reader = waiting;
  size = length src;
  dst = [];
}
