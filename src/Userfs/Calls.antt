-- ===== src/Userfs/Calls.antt =====
-- 3/userfs.c: the calls of the file system.
--
-- A file name is a list of bytes and a buffer a list of bytes, of which a call uses the first `size`.
pub mod Resize
pub mod Write
pub mod Read
pub mod RoundTrip
pub mod Shrinking
use Prim.Native.Nat.{bit_and}
use sysproghw.Base.{
  ℕ, zero, suc, ◌+◌, ◌-◌, ◌*◌, Bool, true, false, not, ◌&&◌, List, [], ◌∷◌, ◌++◌, Option, none,
  some, ◌==◌, leb, ltb, if◌then◌else◌, length, set,
}
use sysproghw.Base.Int.{ℤ, pos, negsuc, minus_one}
use sysproghw.Userfs.State.{
  block_size, max_file_size, ufs_create, ufs_read_only, ufs_write_only, ufs_read_write, ErrorCode,
  no_err, no_file, no_mem, no_permission, Run, ok, fault, ◌>>=◌, deref, File, Filedesc, Fs,
  with_errcode, store_file, free_file, new_file, insert_file, unlink_file,
}
use sysproghw.Userfs.Table.{insert_fd, delete_fd, ufs_get_fd}
use sysproghw.Userfs.Transfer.{
  Cursor, start_write, write_loop, Reading, ReadEnd, sets_errcode, keeps_errcode, read_loop,
  start_read,
}

-- `strcmp(a, b) == 0`
unfoldable pub name_eq : List ℕ → List ℕ → Bool
name_eq [] [] = true
name_eq (x ∷ xs) (y ∷ ys) = x == y && name_eq xs ys
name_eq _ _ = false

-- The search of `ufs_open` and `ufs_delete` along the list of files.
unfoldable pub find_file : (ℕ → Option File) → List ℕ → List ℕ → Run (Option (ℕ × File))
find_file files [] name = ok none
find_file files (p ∷ l) name = do
  f ← deref (files p)
  let rest = find_file files l name
  if name_eq f.name name then ok (some (p, f)) else rest

-- `flags & (UFS_READ_ONLY | UFS_WRITE_ONLY | UFS_READ_WRITE)`, or `UFS_READ_WRITE` where that is 0.
unfoldable pub descriptor_flags : ℕ → ℕ
descriptor_flags flags =
    let given = bit_and flags (ufs_read_only + ufs_write_only + ufs_read_write) in
    if given == 0 then ufs_read_write else given

-- `i + 1`
abbrev pub fd_of : ℤ → ℤ
fd_of (pos i) = pos (suc i)
fd_of (negsuc zero) = pos 0
fd_of (negsuc (suc n)) = negsuc n

abbrev pub new_fd : ℕ → ℕ → Filedesc
new_fd p flags = record {
  file = p;
  block_num = 0;
  block_pos = 0;
  rw_flags = flags;
  curr_block = none;
}

-- `insert_fd(new_fd(file, flags)) + 1`, where `new_fd` counts a reference.
unfoldable pub open_fd : ℕ → File → ℕ → Fs → ℤ × Fs
open_fd p f flags s =
    let (i, s') = insert_fd (new_fd p flags) (store_file p (record f { refs = f.refs + 1 }) s) in
    (fd_of i, s')

unfoldable pub ufs_open : List ℕ → ℕ → Fs → Run (ℤ × Fs)
ufs_open filename flags s = do
  found ← find_file s.files s.file_list filename
  ok (elim found [
    | some (p, f) ↦ open_fd p f (descriptor_flags flags) (with_errcode no_err s)
    | none ↦
        if bit_and flags ufs_create == 0
        then (minus_one, with_errcode no_file s)
        else open_fd s.brk (new_file filename) (descriptor_flags flags)
            (with_errcode no_err (insert_file s.brk (record s { brk = s.brk + 1 })))
  ])

-- The state with a cursor's file and descriptor written back.
abbrev pub commit : ℕ → Cursor → Fs → Fs
commit i c s = record s {
  brk = c.brk;
  files = (store_file c.desc.file c.file s).files;
  file_descriptors = set s.file_descriptors i (some c.desc);
}

abbrev pub can_write : ℕ → Bool
can_write flags = not (bit_and flags (ufs_write_only + ufs_read_write) == 0)

abbrev pub can_read : ℕ → Bool
can_read flags = not (bit_and flags (ufs_read_only + ufs_read_write) == 0)

-- `curr_size` of `ufs_write`: where the descriptor stands.
unfoldable pub curr_size : Filedesc → ℕ
curr_size d = if d.block_num == 0 then 0 else (d.block_num - 1) * block_size + d.block_pos

-- `fuel` bounds the rounds of the loop.
unfoldable pub ufs_write : (fuel : ℕ) → ℤ → List ℕ → ℕ → Fs → Run (ℤ × Fs)
ufs_write fuel fd buf size s = elim (ufs_get_fd fd s) [
  | none ↦ ok (minus_one, with_errcode no_file s)
  | some (i, d) ↦
      if not (can_write d.rw_flags)
      then ok (minus_one, with_errcode no_permission s)
      else if ltb max_file_size (curr_size d + size)
      then ok (minus_one, with_errcode no_mem s)
      else do
        f ← deref (s.files d.file)
        let c = start_write (record { brk = s.brk; file = f; desc = d })
        (c', written) ← write_loop fuel c buf 0 size
        ok (pos written, with_errcode no_err (commit i c' s))
]

abbrev pub errcode_after : ReadEnd → Fs → Fs
errcode_after sets_errcode s = with_errcode no_err s
errcode_after keeps_errcode s = s

-- The result, the bytes that stand in `buf`, and the state.
unfoldable pub ufs_read : (fuel : ℕ) → ℤ → ℕ → Fs → Run (ℤ × List ℕ × Fs)
ufs_read fuel fd size s = elim (ufs_get_fd fd s) [
  | none ↦ ok (minus_one, [], with_errcode no_file s)
  | some (i, d) ↦
      if not (can_read d.rw_flags) then ok (minus_one, [], with_errcode no_permission s) else do
        f ← deref (s.files d.file)
        elim (start_read (record { brk = s.brk; file = f; desc = d })) [
          | none ↦ ok (pos 0, [], with_errcode no_err s)
          | some c₁ ↦ do
            r ← read_loop fuel c₁ [] size
            ok (pos (length r.bytes), r.bytes, errcode_after r.end (commit i r.cursor s))
        ]
]

unfoldable pub ufs_close : ℤ → Fs → Run (ℤ × Fs)
ufs_close fd s = elim (ufs_get_fd fd s) [
  | none ↦ ok (minus_one, with_errcode no_file s)
  | some (i, _) ↦ do s' ← delete_fd i s; ok (pos 0, with_errcode no_err s')
]

-- The file leaves the list; its blocks live on while a descriptor is open.
unfoldable pub ufs_delete : List ℕ → Fs → Run (ℤ × Fs)
ufs_delete filename s = do
  found ← find_file s.files s.file_list filename
  ok (elim found [
    | none ↦ (minus_one, with_errcode no_file s)
    | some (p, f) ↦
        let t = record s { file_list = unlink_file p s.file_list } in
        (
          pos 0,
          with_errcode no_err
              (if f.refs == 0 then free_file p t else store_file p (record f { deleted = true }) t),
        )
  ])
