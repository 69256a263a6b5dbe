-- ===== src/Userfs/Transfer/Chunks.antt =====
-- 3/userfs.c: what one round of the loop of `ufs_write` does to the last block.
use mathlib.Core.Path.{subst}
use sysproghw.Base.{
  ℕ, ◌+◌, ◌-◌, ◌<◌, ◌≤◌, ◌≡◌, refl, sym, inl, inr, List, [], ◌∷◌, ◌++◌, ◌==◌, ltb, if◌then◌else◌,
  length, take, drop, arith, Bool-cases, length-take, length-drop,
}
use sysproghw.Userfs.State.{ok, Block, put_block}
use sysproghw.Userfs.Transfer.{Cursor, current, write_chunk}
use sysproghw.Userfs.Transfer.Splice.{
  copy_out_lem, copy_in_lem, overwrite, length-overwrite, take-overwrite, overwrite-append,
}
use sysproghw.Userfs.Transfer.Shapes.{
  contents, IsFile, IsInLast, find_block-last, put_block-last, contents-append, IsFile-last,
}

-- Where the cursor stands, counted from the start of the file.
abbrev pub offset : Cursor → List Block → ℕ
offset c before = length (contents before) + c.desc.block_pos

length-bytes : (n w : ℕ) (buf : List ℕ) → w + n ≤ length buf → length (take n (drop w buf)) ≡ n
length-bytes n w buf h = omega (arith, length-take n (drop w buf), length-drop w buf)

-- What a run of the loop from `c` to `c'` has written: the bytes stand over what the file held, from
-- the place of the cursor on, which has moved behind them. The cursor is on the same file with the
-- same flags, and the file has kept its name, its references and its mark.
pub record IsWritten (c : Cursor) (before : List Block) (c' : Cursor) (before' : List Block)
    (bytes : List ℕ) : Type 0 where
  pub content : contents c'.file.blocks ≡ overwrite (offset c before) bytes (contents c.file.blocks)
  pub moved : offset c' before' ≡ offset c before + length bytes
  pub same_desc : (c'.desc.file ≡ c.desc.file) × (c'.desc.rw_flags ≡ c.desc.rw_flags)
  pub same_name : c'.file.name ≡ c.file.name
  pub same_refs : c'.file.refs ≡ c.file.refs
  pub same_mark : c'.file.deleted ≡ c.file.deleted
  pub chain : IsFile c.file.blocks → IsFile c'.file.blocks

pub current-last :
    (c : Cursor) (before : List Block) (b : Block) → IsInLast c before b → current c ≡ ok (b.id, b)
unfolding current
current-last c before b h = rw (h.curr, h.blocks, find_block-last before b h.below) refl

-- How many bytes a round writes.
abbrev portion : Block → ℕ → ℕ
portion b size = if ltb (512 - b.occupied) size then 512 - b.occupied else size

-- The block after a round.
abbrev filled : Cursor → Block → List ℕ → ℕ → ℕ → Block
filled c b buf w n = record b {
  memory = overwrite c.desc.block_pos (take n (drop w buf)) b.memory;
  occupied = if ltb b.occupied (c.desc.block_pos + n) then c.desc.block_pos + n else b.occupied;
}

abbrev advanced : Cursor → Block → Block → ℕ → Cursor
advanced c b b' n = record c {
  file = record (c.file) { blocks = put_block b.id b' c.file.blocks };
  desc = record (c.desc) { block_pos = c.desc.block_pos + n };
}

module _ (c : Cursor) (before : List Block) (b : Block) (buf : List ℕ) (w size : ℕ)
    (h : IsInLast c before b) (free : c.desc.block_pos < 512) (some_left : 0 < size)
    (enough : w + size ≤ length buf) where
  write_chunk_run :
      write_chunk c buf w size
      ≡ ok (advanced c b (filled c b buf w (portion b size)) (portion b size), portion b size)
  unfolding write_chunk
  write_chunk_run =
      let n = portion b size in
      let small : n ≤ size = ground arith in
      let fits : c.desc.block_pos + n ≤ 512 = ground (arith, h.at, h.room, h.held) in
      let len = length-bytes n w buf (omega arith) in
      rw
        (
          write_chunk,
          current-last c before b h,
          copy_out_lem buf w n (omega arith),
          copy_in_lem b.memory c.desc.block_pos (take n (drop w buf))
              (omega (arith, h.memory, len)),
        )
        refl

  filled_memory :
      (n : ℕ)
      → length (take n (drop w buf)) ≡ n
      → c.desc.block_pos + n ≤ 512
      → (length (filled c b buf w n).memory ≡ 512)
        × (take (filled c b buf w n).occupied (filled c b buf w n).memory
            ≡ overwrite c.desc.block_pos (take n (drop w buf)) (take b.occupied b.memory))
  filled_memory n len fits = (
    omega (
      arith,
      h.memory,
      h.at,
      h.held,
      len,
      length-overwrite c.desc.block_pos (take n (drop w buf)) b.memory
          (omega (arith, h.memory, len)),
    ),
    take-overwrite _ c.desc.block_pos b.occupied (take n (drop w buf)) b.memory h.at
        (omega (arith, h.memory, h.held)) (omega (arith, h.memory, len)) (ground (arith, len)),
  )

  -- A round ends, writes at least a byte, and what it writes is the next piece of the buffer.
  pub write_chunk-IsWritten :
      (c' : Cursor) × (n : ℕ) × (b' : Block) × (write_chunk c buf w size ≡ ok (c', n))
      × (0 < n)
      × (n ≤ size)
      × IsInLast c' before b'
      × IsWritten c before c' before (take n (drop w buf))
  write_chunk-IsWritten =
      let n = portion b size in
      let small : n ≤ size = ground arith in
      let fits : c.desc.block_pos + n ≤ 512 = ground (arith, h.at, h.room, h.held) in
      let len = length-bytes n w buf (omega arith) in
      let (full, seen) = filled_memory n len fits in
      let b' = filled c b buf w n in
      let blocks' : put_block b.id b' c.file.blocks ≡ before ++ b' ∷ [] =
        rw h.blocks (put_block-last before b b' h.below) in
      (
        advanced c b b' n,
        n,
        b',
        write_chunk_run,
        ground (arith, h.room, h.at),
        small,
        record {
          blocks = blocks';
          curr = h.curr;
          below = h.below;
          fresh = h.fresh;
          memory = full;
          held = ground (arith, h.held);
          at = ground arith;
          room = elim (Bool-cases (c.desc.block_pos + n == 512)) [
            | inl e ↦ inr (ground arith)
            | inr e ↦ inl (ground (arith, h.room))
          ];
        },
        record {
          content =
              rw (blocks', h.blocks, contents-append before b', contents-append before b, seen)
                (sym (
                  overwrite-append (contents before) (take b.occupied b.memory)
                    (take n (drop w buf)) c.desc.block_pos));
          moved = omega (arith, len);
          same_desc = (refl, refl);
          same_name = refl;
          same_refs = refl;
          same_mark = refl;
          chain = λ g. subst IsFile (sym blocks') (
              IsFile-last before b b' refl full (ground (arith, h.held)) (subst IsFile h.blocks g));
        },
      )
