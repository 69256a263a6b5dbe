-- ===== src/Userfs/Transfer/Writing.antt =====
-- 3/userfs.c: `ufs_write`'s loop, on a descriptor that stands in the last block of its file.
use mathlib.Core.List.{append-nil}
use mathlib.Core.Path.{subst}
use sysproghw.Base.{
  ℕ, zero, suc, ◌+◌, ◌-◌, ◌<◌, ◌≤◌, ◌≡◌, refl, ◌∙◌, ap, sym, inl, inr, false, List, [], ◌∷◌, ◌++◌,
  none, ◌==◌, length, take, drop, arith, Bool-cases, length-take, length-replicate, length-append,
}
use sysproghw.Userfs.State.{ok, Block, new_block, blank_memory, next_block, increase_file}
use sysproghw.Userfs.Transfer.{Cursor, move_to, next_write, write_chunk, write_loop}
use sysproghw.Userfs.Transfer.Splice.{overwrite_nothing, overwrite-overwrite, take-more}
use sysproghw.Userfs.Transfer.Shapes.{
  contents, IsFile, IsInLast, next_block-last, contents-append, AreBelow-append, IsFile-append,
}
use sysproghw.Userfs.Transfer.Chunks.{write_chunk-IsWritten, offset, IsWritten, current-last}

length-contents :
    (c : Cursor) (before : List Block) (b : Block)
    → IsInLast c before b
    → length (contents c.file.blocks) ≡ length (contents before) + b.occupied
length-contents c before b h =
    rw (h.blocks, contents-append before b)
      (omega (
        arith,
        length-append (contents before) (take b.occupied b.memory),
        length-take b.occupied b.memory,
        h.memory,
        h.held,
      ))

module _ (c : Cursor) (before : List Block) (b : Block) (h : IsInLast c before b) where
  nothing-IsWritten : IsWritten c before c before []
  nothing-IsWritten = record {
    content = sym (
        overwrite_nothing (offset c before) (contents c.file.blocks)
          (omega (arith, length-contents c before b h, h.at)));
    moved = omega arith;
    same_desc = (refl, refl);
    same_name = refl;
    same_refs = refl;
    same_mark = refl;
    chain = λ g. g;
  }

  -- The cursor in the block that `increase_file` appends.
  abbrev appended : Cursor
  appended = move_to (record c { brk = c.brk + 1; file = increase_file c.brk c.file }) c.brk

  appended-IsInLast : IsInLast appended c.file.blocks (new_block c.brk)
  unfolding increase_file blank_memory
  appended-IsInLast = record {
    blocks = refl;
    curr = refl;
    below = rw h.blocks (AreBelow-append c.brk before b h.below h.fresh);
    fresh = omega arith;
    memory = length-replicate {A = ℕ} 512 0;
    held = omega arith;
    at = omega arith;
    room = inl (omega arith);
  }

  appended-IsWritten : c.desc.block_pos ≡ 512 → IsWritten c before appended c.file.blocks []
  unfolding increase_file blank_memory
  appended-IsWritten at_end = record {
    content =
        contents-append c.file.blocks (new_block c.brk) ∙ append-nil _ ∙ nothing-IsWritten.content;
    moved = omega (arith, length-contents c before b h, h.at, h.held, at_end);
    same_desc = (refl, refl);
    same_name = refl;
    same_refs = refl;
    same_mark = refl;
    chain = λ g.
        let full : b.occupied ≡ 512 = omega (arith, h.at, h.held, at_end) in
        let old : IsFile (before ++ b ∷ []) = subst IsFile h.blocks g in
        subst (λ l. IsFile (l ++ new_block c.brk ∷ [])) (sym h.blocks)
          (IsFile-append before b (new_block c.brk) full h.fresh (length-replicate {A = ℕ} 512 0)
            (omega arith) old);
  }

  -- At the end of a block the loop goes on in a new one, which takes the place of the last.
  next_write_lem :
      (c' : Cursor) × (before' : List Block) × (b' : Block) × (next_write c ≡ ok c')
      × (c'.desc.block_pos < 512)
      × IsInLast c' before' b'
      × IsWritten c before c' before' []
  unfolding next_write increase_file
  next_write_lem = elim (Bool-cases (c.desc.block_pos == 512)) [
    | inl at_end ↦
        let last : next_block b.id c.file.blocks ≡ none =
          rw h.blocks (next_block-last before b h.below) in
        (
          appended,
          c.file.blocks,
          new_block c.brk,
          rw (next_write, at_end, current-last c before b h, last) refl,
          omega arith,
          appended-IsInLast,
          appended-IsWritten (ground arith),
        )
    | inr inside ↦ (
      c,
      before,
      b,
      rw (next_write, inside) refl,
      ground (arith, h.at, h.held),
      h,
      nothing-IsWritten,
    )
  ]

  within_contents : offset c before ≤ length (contents c.file.blocks)
  within_contents = omega (arith, length-contents c before b h, h.at)

IsWritten-twice :
    {c c₁ c₂ : Cursor} {before before₁ before₂ : List Block} {b : Block} {xs ys : List ℕ}
    → IsInLast c before b
    → IsWritten c before c₁ before₁ xs
    → IsWritten c₁ before₁ c₂ before₂ ys
    → IsWritten c before c₂ before₂ (xs ++ ys)
IsWritten-twice {c} {before = before} {b = b} {xs = xs} {ys = ys} h u v = record {
  content =
      v.content
      ∙ rw (u.content, u.moved)
          (overwrite-overwrite (offset c before) xs ys (contents c.file.blocks)
            (within_contents c before b h));
  moved = omega (arith, u.moved, v.moved, length-append xs ys);
  same_desc = (v.same_desc.0 ∙ u.same_desc.0, v.same_desc.1 ∙ u.same_desc.1);
  same_name = v.same_name ∙ u.same_name;
  same_refs = v.same_refs ∙ u.same_refs;
  same_mark = v.same_mark ∙ u.same_mark;
  chain = λ g. v.chain (u.chain g);
}

pub write_loop-round :
    (k : ℕ) (c c₁ c₂ : Cursor) (buf : List ℕ) (w size n : ℕ)
    → (size == 0) ≡ false
    → next_write c ≡ ok c₁
    → write_chunk c₁ buf w size ≡ ok (c₂, n)
    → write_loop (suc k) c buf w size ≡ write_loop k c₂ buf (w + n) (size - n)
unfolding write_loop
write_loop-round k c c₁ c₂ buf w size n e e₁ e₂ = rw (write_loop, e, e₁, e₂) refl

-- The loop of `ufs_write`, on a cursor in the last block and on more fuel than there are bytes to
-- write, ends when all are written, and they stand where the cursor stood.
pub write_loop-IsWritten :
    (k : ℕ) (c : Cursor) (before : List Block) (b : Block) (buf : List ℕ) (w size : ℕ)
    → IsInLast c before b
    → w + size ≤ length buf
    → size < k
    → (c' : Cursor) × (before' : List Block) × (b' : Block) × (write_loop k c buf w size
        ≡ ok (c', w + size))
      × IsInLast c' before' b'
      × IsWritten c before c' before' (take size (drop w buf))
unfolding write_loop
write_loop-IsWritten zero c before b buf w size h enough fuel = absurd (omega arith)
write_loop-IsWritten (suc k) c before b buf w size h enough fuel = elim (Bool-cases (size == 0)) [
  | inl none_left ↦
      let z : size ≡ 0 = ground arith in
      let same : w ≡ w + 0 = omega arith in
      rw z (c, before, b, ap (λ m. ok (c, m)) same, h, nothing-IsWritten c before b h)
  | inr left ↦
      let (c₁, before₁, b₁, e₁, free, h₁, u₁) = next_write_lem c before b h in
      let (c₂, n, b₂, e₂, pos, le, h₂, u₂) =
        write_chunk-IsWritten c₁ before₁ b₁ buf w size h₁ free (ground arith) enough in
      let (c₃, before₃, b₃, e₃, h₃, u₃) =
        write_loop-IsWritten k c₂ before₁ b₂ buf (w + n) (size - n) h₂ (omega arith)
          (omega arith) in
      let all : w + n + (size - n) ≡ w + size = omega arith in
      let total : n + (size - n) ≡ size = omega arith in
      let bytes : take n (drop w buf) ++ take (size - n) (drop (w + n) buf)
          ≡ take size (drop w buf) =
        take-more n (size - n) w buf ∙ ap (λ m. take m (drop w buf)) total in
      (
        c₃,
        before₃,
        b₃,
        write_loop-round k c c₁ c₂ buf w size n left e₁ e₂ ∙ e₃ ∙ ap (λ m. ok (c₃, m)) all,
        h₃,
        subst (λ l. IsWritten c before c₃ before₃ l) bytes
            (IsWritten-twice h u₁ (IsWritten-twice h₁ u₂ u₃)),
      )
]
