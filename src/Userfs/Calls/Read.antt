-- ===== src/Userfs/Calls/Read.antt =====
-- 3/userfs.c: `ufs_read` as a whole, and the errors of the calls that take a descriptor.
use sysproghw.Base.{ℕ, ◌<◌, ◌≡◌, refl, true, false, List, [], none, some, leb, length, take, arith}
use sysproghw.Base.Int.{ℤ, pos, minus_one}
use sysproghw.Userfs.State.{no_file, ok, fault, ◌>>=◌, Block, File, Filedesc, Fs, with_errcode}
use sysproghw.Userfs.Table.{ufs_get_fd}
use sysproghw.Userfs.Transfer.{Cursor, start_read, Reading}
use sysproghw.Userfs.Transfer.Scanning.{HasRead, read_loop-HasRead}
use sysproghw.Userfs.Transfer.Reaching.{IsReading, ahead}
use sysproghw.Userfs.Calls.{can_read, commit, errcode_after, ufs_write, ufs_read, ufs_close}
use sysproghw.Userfs.Calls.Resize.{
  ufs_resize, shrink, new_last_block, new_num_blocks, old_size, resize_from,
}

-- A call of `ufs_read` that comes to its loop, with the descriptor and its file where the loop starts.
pub record ReadsFrom (fd : ℤ) (s : Fs) (i : ℕ) (d : Filedesc) (f : File) (c : Cursor) : Type 0 where
  pub opened : ufs_get_fd fd s ≡ some (i, d)
  pub may_read : can_read d.rw_flags ≡ true
  pub there : s.files d.file ≡ some f
  pub starts : start_read (record { brk = s.brk; file = f; desc = d }) ≡ some c

-- `ufs_read` on an open descriptor that may read and stands in a block of its file, not behind the
-- bytes there, where all blocks from that one on are full but for the last, and on more fuel than
-- it is asked for bytes, reads the bytes of the file from there on, as many as it is asked for or
-- as there are, and returns how many. The file is as it was, and the descriptor has moved behind
-- the bytes read.
pub ufs_read-HasRead :
    (fuel : ℕ) (fd : ℤ) (size : ℕ) (s : Fs) (i : ℕ) (d : Filedesc) (f : File) (c : Cursor)
    (before : List Block) (b : Block) (after : List Block)
    → ReadsFrom fd s i d f c
    → IsReading c before b after
    → size < fuel
    → (r : Reading) × (ufs_read fuel fd size s
        ≡ ok (
          pos (length (take size (ahead c b after))),
          take size (ahead c b after),
          errcode_after r.end (commit i r.cursor s),
        ))
      × HasRead c b after [] size r
unfolding ufs_read
ufs_read-HasRead fuel fd size s i d f c before b after h reading fueled =
    let (r, e, g) = read_loop-HasRead fuel c before b after [] size reading fueled in
    (r, rw (ufs_read, h.opened, h.may_read, h.there, ◌>>=◌, h.starts, e, ◌>>=◌, ← g.bytes) refl, g)

-- A descriptor that is not open: every call that takes one returns -1 and sets the error that no such
-- file is there, and changes nothing else.
pub closed_fd_errors :
    (fuel : ℕ) (fd : ℤ) (buf : List ℕ) (size : ℕ) (s : Fs)
    → ufs_get_fd fd s ≡ none
    → (ufs_write fuel fd buf size s ≡ ok (minus_one, with_errcode no_file s))
      × (ufs_read fuel fd size s ≡ ok (minus_one, [], with_errcode no_file s))
      × (ufs_close fd s ≡ ok (minus_one, with_errcode no_file s))
      × (ufs_resize fd size s ≡ ok (minus_one, with_errcode no_file s))
unfolding ufs_write ufs_read ufs_close ufs_resize
closed_fd_errors fuel fd buf size s e =
    (rw (ufs_write, e) refl, rw (ufs_read, e) refl, rw (ufs_close, e) refl, rw (ufs_resize, e) refl)

-- An open file whose size, as `ufs_resize` computes it, is not 0 cannot be made empty:
-- `ufs_resize` to 0 then follows the NULL pointer that it takes for the new last block.
pub ufs_resize-zero_fault :
    (fd : ℤ) (s : Fs) (i : ℕ) (d : Filedesc) (f : File) (old : ℕ)
    → ufs_get_fd fd s ≡ some (i, d)
    → s.files d.file ≡ some f
    → old_size f ≡ ok old
    → 0 < old
    → ufs_resize fd 0 s ≡ fault
unfolding ufs_resize resize_from shrink new_num_blocks new_last_block
ufs_resize-zero_fault fd s i d f old opened there size held =
    let smaller : leb old 0 ≡ false = ground arith in
    rw (ufs_resize, opened, there, ◌>>=◌, size, ◌>>=◌, smaller) refl
