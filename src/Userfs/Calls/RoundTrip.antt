-- ===== src/Userfs/Calls/RoundTrip.antt =====
-- 3/userfs.c: what `ufs_write` writes to a new file through one descriptor, `ufs_read` reads
-- through another.
use sysproghw.Base.{
  ℕ, suc, ◌<◌, ◌≤◌, ◌≡◌, ◌≢◌, refl, ◌∙◌, ap, sym, inl, true, List, [], ◌∷◌, ◌++◌, some, length,
  take, length-replicate, arith,
}
use mathlib.Core.Path.{subst}
use sysproghw.Base.Int.{pos}
use sysproghw.Userfs.State.{
  max_file_size, no_err, ok, Block, new_block, blank_memory, File, Fs, with_errcode, increase_file,
}
use sysproghw.Userfs.Table.{slot, ufs_get_fd}
use sysproghw.Userfs.Table.Slots.{slot-set_ne}
use sysproghw.Userfs.Transfer.{Cursor, start_write, start_read, start_at}
use sysproghw.Userfs.Transfer.Splice.{overwrite-nil}
use sysproghw.Userfs.Transfer.Chunks.{IsWritten}
use sysproghw.Userfs.Transfer.Shapes.{contents, IsFile, IsInLast}
use sysproghw.Userfs.Transfer.Reaching.{IsReading, ahead}
use sysproghw.Userfs.Calls.{
  new_fd, can_write, can_read, curr_size, commit, errcode_after, ufs_write, ufs_read,
}
use sysproghw.Userfs.Calls.Write.{ComesToLoop, start, ufs_write-IsWritten}
use sysproghw.Userfs.Calls.Read.{ReadsFrom, ufs_read-HasRead}

abbrev pub emptied : File → File
emptied f = record f { blocks = [] }

-- Two descriptors that are open on the same file `p`, which has no block yet. The one may write, the
-- other read, and neither was used before.
pub record Paired (s : Fs) (i j p : ℕ) (w_flags r_flags : ℕ) (f : File) : Type 0 where
  pub writer : slot s.file_descriptors i ≡ some (new_fd p w_flags)
  pub reader : slot s.file_descriptors j ≡ some (new_fd p r_flags)
  pub differ : i ≢ j
  pub may_write : can_write w_flags ≡ true
  pub may_read : can_read r_flags ≡ true
  pub there : s.files p ≡ some (emptied f)

not_empty :
    (before : List Block) (b : Block) (l : List Block)
    → l ≡ before ++ b ∷ []
    → (d : Block) × (ds : List Block) × (l ≡ d ∷ ds)
not_empty [] b l e = (b, [], e)
not_empty (c ∷ before) b l e = (c, before ++ b ∷ [], e)

module _ (s : Fs) (i j p w_flags r_flags : ℕ) (f : File)
    (h : Paired s i j p w_flags r_flags f) where
  abbrev started : Cursor
  started = start s (new_fd p w_flags) (emptied f)

  started-IsInLast : IsInLast started [] (new_block s.brk)
  unfolding start_write increase_file blank_memory
  started-IsInLast = record {
    blocks = refl;
    curr = refl;
    below = tt;
    fresh = omega arith;
    memory = length-replicate {A = ℕ} 512 0;
    held = omega arith;
    at = omega arith;
    room = inl (omega arith);
  }

  started-IsFile : IsFile started.file.blocks
  unfolding start_write increase_file blank_memory
  started-IsFile = (length-replicate {A = ℕ} 512 0, omega arith)

  started-comes :
      (size : ℕ)
      → size ≤ max_file_size
      → ComesToLoop (pos (suc i)) size s i (new_fd p w_flags) (emptied f)
  unfolding ufs_get_fd curr_size
  started-comes size small = record {
    opened = rw h.writer refl;
    may_write = h.may_write;
    small = omega arith;
    there = h.there;
  }

  -- The state behind `ufs_write`.
  abbrev behind : Cursor → Fs
  behind c = with_errcode no_err (commit i c s)

  -- Where `ufs_read` starts there.
  abbrev reads_at : Cursor → Block → Cursor
  reads_at c b =
      start_at (record { brk = c.brk; file = c.file; desc = new_fd p r_flags }) (some b.id)

  reads_at-ReadsFrom :
      (c : Cursor) (b : Block) (bs : List Block)
      → c.desc.file ≡ p
      → c.file.blocks ≡ b ∷ bs
      → ReadsFrom (pos (suc j)) (behind c) j (new_fd p r_flags) c.file (reads_at c b)
  unfolding ufs_get_fd start_read
  reads_at-ReadsFrom c b bs same e = record {
    opened = rw (slot-set_ne s.file_descriptors i j (some c.desc) h.differ, h.reader) refl;
    may_read = h.may_read;
    there = ground (arith, same);
    starts = rw e refl;
  }

  reads_at-IsReading :
      (c : Cursor) (b : Block) (bs : List Block)
      → c.file.blocks ≡ b ∷ bs
      → IsFile c.file.blocks
      → IsReading (reads_at c b) [] b bs
  reads_at-IsReading c b bs e g = record {
    blocks = e;
    curr = refl;
    below = tt;
    tail = subst IsFile e g;
    at = omega arith;
  }

  written_content :
      (c : Cursor) (before : List Block) (bytes : List ℕ)
      → IsWritten started [] c before bytes
      → contents c.file.blocks ≡ bytes
  unfolding start_write increase_file
  written_content c before bytes w = w.content ∙ overwrite-nil bytes

  written_owner :
      (c : Cursor) (before : List Block) (bytes : List ℕ)
      → IsWritten started [] c before bytes
      → c.desc.file ≡ p
  unfolding start_write
  written_owner c before bytes w = w.same_desc.0

  -- Two descriptors are open on a file that has no block yet, one that may write and one that may
  -- read, and neither was used before. What `ufs_write` writes through the one, of no more bytes
  -- than the buffer has and a file may hold, `ufs_read` reads back through the other: the first
  -- `n` of the bytes written, or all of them where there are fewer. Both calls end on more fuel
  -- than they are asked for bytes.
  pub ufs_read-ufs_write :
      (fuel fuel' : ℕ) (buf : List ℕ) (size n : ℕ)
      → size ≤ length buf
      → size ≤ max_file_size
      → size < fuel
      → n < fuel'
      → (s₁ s₂ : Fs) × (ufs_write fuel (pos (suc i)) buf size s ≡ ok (pos size, s₁))
        × (ufs_read fuel' (pos (suc j)) n s₁
            ≡ ok (pos (length (take n (take size buf))), take n (take size buf), s₂))
  ufs_read-ufs_write fuel fuel' buf size n enough small fueled fueled' =
      let (c, before, b, e, last, w) =
        ufs_write-IsWritten fuel (pos (suc i)) buf size s i (new_fd p w_flags) (emptied f)
          (started-comes size small) [] (new_block s.brk) started-IsInLast enough fueled in
      let (d, ds, split) = not_empty before b c.file.blocks last.blocks in
      let (r, e', _) =
        ufs_read-HasRead fuel' (pos (suc j)) n (behind c) j (new_fd p r_flags) c.file (reads_at c d)
          [] d ds (reads_at-ReadsFrom c d ds (written_owner c before (take size buf) w) split)
          (reads_at-IsReading c d ds split (w.chain started-IsFile)) fueled' in
      let same : ahead (reads_at c d) d ds ≡ take size buf =
        sym (ap contents split) ∙ written_content c before (take size buf) w in
      (
        behind c,
        errcode_after r.end (commit j r.cursor (behind c)),
        e,
        subst
            (λ l.
              ufs_read fuel' (pos (suc j)) n (behind c)
              ≡ ok (
                pos (length (take n l)),
                take n l,
                errcode_after r.end (commit j r.cursor (behind c)),
              ))
            same e',
      )
