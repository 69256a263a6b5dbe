-- ===== src/Userfs/Transfer.antt =====
-- 3/userfs.c: the loops of `ufs_write` and `ufs_read`.
--
-- A descriptor's fields and its file are held together while the loop runs: nothing else reads them
-- meanwhile.
pub mod Splice
pub mod Stuck
pub mod Shapes
pub mod Chunks
pub mod Writing
pub mod Reaching
pub mod Scanning
use sysproghw.Base.{
  ℕ, zero, suc, ◌+◌, ◌-◌, Bool, true, false, List, [], ◌∷◌, ◌++◌, Option, none, some, ◌==◌, leb,
  ltb, if◌then◌else◌, length, take, drop,
}
use sysproghw.Userfs.State.{
  block_size, Run, ok, fault, out_of_fuel, ◌>>=◌, deref, Block, File, Filedesc, find_block,
  put_block, next_block, increase_file, head_id,
}

pub record Cursor : Type 0 where
  pub brk : ℕ
  pub file : File
  pub desc : Filedesc

-- `memcpy` into the memory of a block; a fault where it runs over the end.
unfoldable pub copy_in : List ℕ → ℕ → List ℕ → Run (List ℕ)
copy_in memory at bytes =
    if leb (at + length bytes) (length memory)
    then ok (take at memory ++ (bytes ++ drop (at + length bytes) memory))
    else fault

-- `memcpy` out of a list of bytes; a fault where it runs over the end.
unfoldable pub copy_out : List ℕ → ℕ → ℕ → Run (List ℕ)
copy_out memory at n = if leb (at + n) (length memory) then ok (take n (drop at memory)) else fault

-- The cursor at the start of the file's first block, or of a new block where it has none.
abbrev pub start_at : Cursor → Option ℕ → Cursor
start_at c (some p) = record c { desc = record (c.desc) { curr_block = some p; block_num = 1 } }
start_at c none = record {
  brk = c.brk + 1;
  file = increase_file c.brk c.file;
  desc = record (c.desc) { curr_block = some c.brk; block_num = 1 };
}

-- `if(filedesc->curr_block == NULL)` of `ufs_write`
unfoldable pub start_write : Cursor → Cursor
start_write c = elim c.desc.curr_block [ some _ ↦ c | none ↦ start_at c (head_id c.file.blocks) ]

abbrev pub move_to : Cursor → ℕ → Cursor
move_to c q = record c {
  desc = record (c.desc) { block_pos = 0; block_num = c.desc.block_num + 1; curr_block = some q };
}

-- `next` of the block that was left, or a new block where that is NULL.
abbrev pub move_on : Cursor → Option ℕ → Cursor
move_on c (some q) = move_to c q
move_on c none = move_to (record c { brk = c.brk + 1; file = increase_file c.brk c.file }) c.brk

-- `curr_block` and the block that it points to.
unfoldable pub current : Cursor → Run (ℕ × Block)
current c = do p ← deref c.desc.curr_block; b ← deref (find_block p c.file.blocks); ok (p, b)

-- `if(filedesc->block_pos == BLOCK_SIZE)` of `ufs_write`
unfoldable pub next_write : Cursor → Run Cursor
next_write c = elim (c.desc.block_pos == block_size) [
  | false ↦ ok c
  | true ↦ do (p, _) ← current c; ok (move_on c (next_block p c.file.blocks))
]

-- The rest of the loop's body: the cursor and how many bytes were written.
unfoldable pub write_chunk : Cursor → List ℕ → ℕ → ℕ → Run (Cursor × ℕ)
write_chunk c buf b_written size = do
  (p, b) ← current c
  let free_b = block_size - b.occupied
  let b_to_write = if ltb free_b size then free_b else size
  bytes ← copy_out buf b_written b_to_write
  memory ← copy_in b.memory c.desc.block_pos bytes
  let pos = c.desc.block_pos + b_to_write
  let b' = record b { memory = memory; occupied = if ltb b.occupied pos then pos else b.occupied }
  ok (
    record c {
      file = record (c.file) { blocks = put_block p b' c.file.blocks };
      desc = record (c.desc) { block_pos = pos };
    },
    b_to_write,
  )

-- `while(size)` of `ufs_write`, on fuel.
unfoldable pub write_loop : ℕ → Cursor → List ℕ → ℕ → ℕ → Run (Cursor × ℕ)
write_loop zero c buf b_written size = out_of_fuel
write_loop (suc k) c buf b_written size = elim (size == 0) [
  | true ↦ ok (c, b_written)
  | false ↦ do
    c₁ ← next_write c
    (c₂, n) ← write_chunk c₁ buf b_written size
    write_loop k c₂ buf (b_written + n) (size - n)
]

abbrev pub move_if : Cursor → Option ℕ → Option Cursor
move_if c none = none
move_if c (some q) = some (move_to c q)

-- `if(filedesc->block_pos == BLOCK_SIZE)` of `ufs_read`; `none` where the file ends there.
unfoldable pub next_read : Cursor → Run (Option Cursor)
next_read c = elim (c.desc.block_pos == block_size) [
  | false ↦ ok (some c)
  | true ↦ do (p, _) ← current c; ok (move_if c (next_block p c.file.blocks))
]

-- How `ufs_read` comes to its end: behind the loop or at the end of the last block, where it sets the
-- error code, or at the end of what a block holds, where it does not.
pub data ReadEnd : Type 0 where
  sets_errcode keeps_errcode : ReadEnd

pub record Reading : Type 0 where
  pub cursor : Cursor
  pub bytes : List ℕ
  pub end : ReadEnd

-- How many bytes a round reads. Where `block_pos` is behind `occupied`, the difference is negative and
-- `size > free_b` compares it as a huge number.
abbrev pub to_read : Block → ℕ → ℕ → ℕ
to_read b pos size =
    if ltb b.occupied pos
    then size
    else if ltb (b.occupied - pos) size
    then b.occupied - pos
    else size

-- The rest of the loop's body: the cursor and the bytes read.
unfoldable pub read_chunk : Cursor → Block → ℕ → Run (Cursor × List ℕ)
read_chunk c b size = do
  let n = to_read b c.desc.block_pos size
  bytes ← copy_out b.memory c.desc.block_pos n
  ok (record c { desc = record (c.desc) { block_pos = c.desc.block_pos + n } }, bytes)

-- `while(size)` of `ufs_read`, on fuel; `out` is what stands in `buf` so far.
unfoldable pub read_loop : ℕ → Cursor → List ℕ → ℕ → Run Reading
read_loop zero c out size = out_of_fuel
read_loop (suc k) c out size = elim (size == 0) [
  | true ↦ ok (record { cursor = c; bytes = out; end = sets_errcode })
  | false ↦ do
    next ← next_read c
    elim next [
      | none ↦ ok (record { cursor = c; bytes = out; end = sets_errcode })
      | some c₁ ↦ do
        (_, b) ← current c₁
        elim (c₁.desc.block_pos == b.occupied) [
          | true ↦ ok (record { cursor = c₁; bytes = out; end = keeps_errcode })
          | false ↦ do
            (c₂, bytes) ← read_chunk c₁ b size
            read_loop k c₂ (out ++ bytes) (size - to_read b c₁.desc.block_pos size)
        ]
    ]
]

-- `if(filedesc->curr_block == NULL)` of `ufs_read`; `none` where the file has no block.
unfoldable pub start_read : Cursor → Option Cursor
start_read c = elim c.desc.curr_block [
  | some _ ↦ some c
  | none ↦ elim (head_id c.file.blocks) [ none ↦ none | some p ↦ some (start_at c (some p)) ]
]
