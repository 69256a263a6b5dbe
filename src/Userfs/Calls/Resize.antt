-- ===== src/Userfs/Calls/Resize.antt =====
-- 3/userfs.c: `ufs_resize`.
use sysproghw.Base.{
  ℕ, zero, suc, ◌+◌, ◌-◌, ◌*◌, ◌/◌, ◌%◌, true, false, ◌&&◌, List, [], ◌∷◌, ◌++◌, Option, none, some,
  ◌==◌, leb, ltb, if◌then◌else◌, take, get_elem?,
}
use sysproghw.Base.Int.{ℤ, pos, minus_one}
use sysproghw.Userfs.State.{
  block_size, max_file_size, no_err, no_file, no_mem, Run, ok, ◌>>=◌, deref, Block, File, Filedesc,
  Descriptors, Fs, with_errcode, store_file, find_block, increase_file,
}
use sysproghw.Userfs.Table.{ufs_get_fd}

-- The size that the file has by its blocks: all but the last count as full.
unfoldable pub old_size : File → Run ℕ
old_size f = elim (f.num_blocks == 0) [
  | true ↦ ok 0
  | false ↦ do
    p ← deref f.last_block
    b ← deref (find_block p f.blocks)
    ok ((f.num_blocks - 1) * block_size + b.occupied)
]

unfoldable pub new_num_blocks : ℕ → ℕ
new_num_blocks size =
    if size % block_size == 0 then size / block_size + 1 - 1 else size / block_size + 1

unfoldable pub new_block_pos : ℕ → ℕ
new_block_pos size = if size % block_size == 0 then 512 else size % block_size

-- `while(file->num_blocks < new_num_blocks)`, on the rounds left.
unfoldable pub grow_loop : ℕ → ℕ → File → ℕ × File
grow_loop zero brk f = (brk, f)
grow_loop (suc k) brk f = grow_loop k (brk + 1) (increase_file brk f)

-- The walk to the new last block, which starts at NULL where no block is to be left.
unfoldable pub new_last_block : ℕ → List Block → Option Block
new_last_block zero bs = none
new_last_block (suc n) bs = get_elem? bs n

-- From `new_last_block->next` to the end of the file: the blocks behind the new last one are freed.
unfoldable pub shrink : ℕ → ℕ → File → Run File
shrink n at f = do
  b ← deref (new_last_block n f.blocks)
  ok (record f {
    blocks = take (n - 1) f.blocks ++ record b { occupied = at } ∷ [];
    last_block = some b.id;
    num_blocks = n;
  })

-- The loop over the descriptors, for a file with this number that has a last block with `at` bytes.
unfoldable pub move_fd : ℕ → File → ℕ → Option Filedesc → Option Filedesc
move_fd p f at none = none
move_fd p f at (some d) =
    if d.file == p && leb f.num_blocks d.block_num
    then some (record d { block_num = f.num_blocks; curr_block = f.last_block; block_pos = at })
    else some d

unfoldable pub move_fds : ℕ → File → ℕ → Descriptors → Descriptors
move_fds p f at [] = []
move_fds p f at (d ∷ ds) = move_fd p f at d ∷ move_fds p f at ds

-- `ufs_resize` on the file itself, of size `old`.
unfoldable pub resize_from : ℕ → ℕ → File → ℕ → Fs → Run (ℤ × Fs)
resize_from new_size p f old s =
    if leb old new_size
    then (let (brk, f') = grow_loop (new_num_blocks new_size - f.num_blocks) s.brk f in
        ok (pos 0, with_errcode no_err (store_file p f' (record s { brk = brk }))))
    else do
      f' ← shrink (new_num_blocks new_size) (new_block_pos new_size) f
      ok (
        pos 0,
        with_errcode no_err (record (store_file p f' s) {
          file_descriptors = move_fds p f' (new_block_pos new_size) s.file_descriptors;
        }),
      )

unfoldable pub ufs_resize : ℤ → ℕ → Fs → Run (ℤ × Fs)
ufs_resize fd new_size s = elim (ufs_get_fd fd s) [
  | none ↦ ok (minus_one, with_errcode no_file s)
  | some (i, d) ↦
      if ltb max_file_size new_size
      then ok (minus_one, with_errcode no_mem s)
      else do f ← deref (s.files d.file); old ← old_size f; resize_from new_size d.file f old s
]
