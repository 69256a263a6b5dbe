-- ===== src/Userfs/Calls/Write.antt =====
-- 3/userfs.c: `ufs_write` as a whole.
use sysproghw.Base.{
  ℕ, ◌+◌, ◌<◌, ◌≤◌, ◌≡◌, refl, ◌∙◌, true, false, List, some, ltb, length, take, arith,
}
use sysproghw.Base.Int.{ℤ, pos}
use sysproghw.Userfs.State.{
  max_file_size, no_err, ok, out_of_fuel, ◌>>=◌, Block, File, Filedesc, Fs, with_errcode,
}
use sysproghw.Userfs.Table.{ufs_get_fd}
use sysproghw.Userfs.Transfer.{Cursor, start_write, write_loop}
use sysproghw.Userfs.Transfer.Writing.{write_loop-IsWritten}
use sysproghw.Userfs.Transfer.Chunks.{IsWritten}
use sysproghw.Userfs.Transfer.Shapes.{IsInLast}
use sysproghw.Userfs.Transfer.Stuck.{IsStuck, write_loop-IsStuck}
use sysproghw.Userfs.Calls.{can_write, curr_size, commit, ufs_write}

-- A call of `ufs_write` that comes to its loop: the descriptor is open, it may write, the size is not
-- too large and the file is there.
pub record ComesToLoop (fd : ℤ) (size : ℕ) (s : Fs) (i : ℕ) (d : Filedesc) (f : File) : Type 0 where
  pub opened : ufs_get_fd fd s ≡ some (i, d)
  pub may_write : can_write d.rw_flags ≡ true
  pub small : curr_size d + size ≤ max_file_size
  pub there : s.files d.file ≡ some f

-- The descriptor and its file, where the loop starts.
abbrev pub start : Fs → Filedesc → File → Cursor
start s d f = start_write (record { brk = s.brk; file = f; desc = d })

module _ (fuel : ℕ) (fd : ℤ) (buf : List ℕ) (size : ℕ) (s : Fs) (i : ℕ) (d : Filedesc) (f : File)
    (h : ComesToLoop fd size s i d f) where
  ufs_write_lem : ufs_write fuel fd buf size s ≡ (
      write_loop fuel (start s d f) buf 0 size
      >>= (λ r. ok (pos r.1, with_errcode no_err (commit i r.0 s))))
  unfolding ufs_write
  ufs_write_lem =
      let not_large : ltb max_file_size (curr_size d + size) ≡ false = ground (arith, h.small) in
      rw (ufs_write, h.opened, h.may_write, not_large, h.there) refl

  -- `ufs_write` on an open descriptor that may write, with a size that the buffer has and the
  -- limit of a file allows, and on more fuel than that size, writes all the bytes, where the
  -- descriptor starts in the last block of its file, not behind the bytes there, and the block has
  -- room or the descriptor is at its end: the file then holds the bytes over what it held, from
  -- the place of the descriptor on, which has moved behind them, and the descriptor is left in the
  -- last block in the same way.
  pub ufs_write-IsWritten :
      (before : List Block) (b : Block)
      → IsInLast (start s d f) before b
      → size ≤ length buf
      → size < fuel
      → (c : Cursor) × (before' : List Block) × (b' : Block) × (ufs_write fuel fd buf size s
          ≡ ok (pos size, with_errcode no_err (commit i c s)))
        × IsInLast c before' b'
        × IsWritten (start s d f) before c before' (take size buf)
  ufs_write-IsWritten before b last enough fueled =
      let (c, before', b', e, last', w) =
        write_loop-IsWritten fuel (start s d f) before b buf 0 size last (omega arith) fueled in
      let z : 0 + size ≡ size = omega arith in
      (c, before', b', ufs_write_lem ∙ rw (e, z) refl, last', w)

  -- `ufs_write` of at least one byte, on an open descriptor that may write and within the limit of
  -- a file, that starts in front of the end of a full block, does not end on any fuel.
  pub ufs_write-IsStuck :
      IsStuck (start s d f) → 0 < size → ufs_write fuel fd buf size s ≡ out_of_fuel
  ufs_write-IsStuck stuck some_left =
      ufs_write_lem
      ∙ rw (write_loop-IsStuck fuel (start s d f) buf 0 size stuck some_left (omega arith)) refl
