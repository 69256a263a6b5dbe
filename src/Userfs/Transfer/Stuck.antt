-- ===== src/Userfs/Transfer/Stuck.antt =====
-- 3/userfs.c: `ufs_write`'s loop, on a descriptor that stands within a full block.
use sysproghw.Base.{
  ℕ, zero, suc, ◌+◌, ◌-◌, ◌<◌, ◌≤◌, ◌≡◌, refl, ◌∙◌, inl, inr, false, List, [], ◌∷◌, some, ◌==◌, ltb,
  if◌then◌else◌, length, arith, Bool-cases,
}
use sysproghw.Userfs.State.{block_size, ok, out_of_fuel, Block, find_block, put_block}
use sysproghw.Userfs.Transfer.{Cursor, next_write, current, write_chunk, write_loop}
use sysproghw.Userfs.Transfer.Splice.{copy_in_lem, copy_out_lem, overwrite, overwrite_nothing}
use sysproghw.Userfs.Transfer.Writing.{write_loop-round}

-- The cursor stands in front of the end of a block that is full.
pub record IsStuck (c : Cursor) : Type 0 where
  pub block : Block
  pub curr : c.desc.curr_block ≡ some block.id
  pub there : find_block block.id c.file.blocks ≡ some block
  pub memory : length block.memory ≡ 512
  pub full : block.occupied ≡ 512
  pub inside : c.desc.block_pos < 512

find_block-put_block :
    (p : ℕ) (bs : List Block) (b b' : Block)
    → find_block p bs ≡ some b
    → b'.id ≡ p
    → find_block p (put_block p b' bs) ≡ some b'
unfolding find_block put_block
find_block-put_block p [] b b' e i = cc
find_block-put_block p (c ∷ bs) b b' e i = elim (Bool-cases (c.id == p)) [
  | inl hit ↦ rw hit (ground arith)
  | inr miss ↦ rw (miss, miss) (find_block-put_block p bs b b' (rw miss at e) i)
]

-- The cursor after a round that writes nothing.
idle : Cursor → Block → Cursor
idle c b =
    let b' = record b {
      memory = overwrite c.desc.block_pos [] b.memory;
      occupied = if ltb b.occupied (c.desc.block_pos + 0) then c.desc.block_pos + 0 else b.occupied;
    } in
    record c {
      file = record (c.file) { blocks = put_block b.id b' c.file.blocks };
      desc = record (c.desc) { block_pos = c.desc.block_pos + 0 };
    }

module _ (c : Cursor) (buf : List ℕ) (w size : ℕ) (h : IsStuck c) (left : 0 < size)
    (within : w ≤ length buf) where
  write_chunk-idle : write_chunk c buf w size ≡ ok (idle c h.block, 0)
  unfolding idle write_chunk current
  write_chunk-idle =
      let none_free : (if ltb (block_size - h.block.occupied) size
            then block_size - h.block.occupied
            else size)
          ≡ 0 =
        ground (arith, h.full) in
      rw
        (
          write_chunk,
          h.curr,
          h.there,
          none_free,
          copy_out_lem buf w 0 (omega arith),
          copy_in_lem h.block.memory c.desc.block_pos [] (omega (arith, h.inside, h.memory)),
        )
        refl

  idle-IsStuck : IsStuck (idle c h.block)
  unfolding idle
  idle-IsStuck = record {
    block = _;
    curr = h.curr;
    there = find_block-put_block h.block.id c.file.blocks h.block _ h.there refl;
    memory =
        rw (overwrite_nothing c.desc.block_pos h.block.memory (omega (arith, h.memory, h.inside)))
          h.memory;
    full = ground (arith, h.inside, h.full);
    inside = omega (arith, h.inside);
  }

-- Once in front of the end of a full block, the loop of `ufs_write` with bytes left to write does
-- not end: no fuel is enough. `free_b` is what the whole block has free, 0, where what is left of
-- the block behind `block_pos` is not.
pub write_loop-IsStuck :
    (k : ℕ) (c : Cursor) (buf : List ℕ) (w size : ℕ)
    → IsStuck c
    → 0 < size
    → w ≤ length buf
    → write_loop k c buf w size ≡ out_of_fuel
unfolding write_loop next_write
write_loop-IsStuck zero c buf w size h left within = refl
write_loop-IsStuck (suc k) c buf w size h left within =
    let some_left : (size == 0) ≡ false = ground arith in
    let here : (c.desc.block_pos == block_size) ≡ false = ground (arith, h.inside) in
    write_loop-round k c c (idle c h.block) buf w size 0 some_left (rw (next_write, here) refl)
      (write_chunk-idle c buf w size h left within)
    ∙ (write_loop-IsStuck k (idle c h.block) buf (w + 0) (size - 0)
        (idle-IsStuck c buf w size h left within) (omega arith) (omega arith))
