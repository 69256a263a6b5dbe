-- ===== src/Userfs/Transfer/Scanning.antt =====
-- 3/userfs.c: `ufs_read`'s loop.
use mathlib.Core.List.{append-nil, append_assoc}
use sysproghw.Base.{
  ℕ, zero, suc, ◌+◌, ◌-◌, ◌<◌, ◌≤◌, ◌≡◌, refl, ◌∙◌, ap, sym, inl, inr, true, false, List, [], ◌∷◌,
  ◌++◌, none, some, ◌==◌, length, take, drop, arith, Bool-cases, length-take, length-drop,
}
use sysproghw.Userfs.State.{ok, ◌>>=◌, Block}
use sysproghw.Userfs.Transfer.{
  Cursor, next_read, current, to_read, read_chunk, Reading, ReadEnd, sets_errcode, keeps_errcode,
  read_loop,
}
use sysproghw.Userfs.Transfer.Splice.{copy_out_lem}
use sysproghw.Userfs.Transfer.Shapes.{IsTail, contents}
use sysproghw.Userfs.Transfer.Reaching.{
  IsReading, ahead, memory-IsTail, current-middle, drop_all, next_read_lem, drop-take, take_front,
  drop_front, take_all, no_more, goes_on,
}

-- What a run of the loop has read: the next bytes of the file, as many as were asked for or as there are.
-- The cursor has moved behind them, and the file is as it was.
pub record HasRead (c : Cursor) (b : Block) (after : List Block) (out : List ℕ) (size : ℕ)
    (r : Reading) : Type 0 where
  pub before' : List Block
  pub b' : Block
  pub after' : List Block
  pub bytes : r.bytes ≡ out ++ take size (ahead c b after)
  pub still : IsReading r.cursor before' b' after'
  pub rest : ahead r.cursor b' after' ≡ drop size (ahead c b after)
  pub same_file : r.cursor.file ≡ c.file

drop_empty : (size : ℕ) (xs : List ℕ) → xs ≡ [] → drop size xs ≡ xs
drop_empty zero xs e = refl
drop_empty (suc size) xs e = rw e

-- Where nothing is ahead, nothing is read.
nothing_read :
    (c : Cursor) (before : List Block) (b : Block) (after : List Block) (out : List ℕ) (size : ℕ)
    (end : ReadEnd)
    → IsReading c before b after
    → (take size (ahead c b after) ≡ []) × (drop size (ahead c b after) ≡ ahead c b after)
    → HasRead c b after out size (record { cursor = c; bytes = out; end = end })
nothing_read c before b after out size end h (t, d) = record {
  before' = before;
  b' = b;
  after' = after;
  bytes = sym (ap (λ l. out ++ l) t ∙ append-nil out);
  still = h;
  rest = sym d;
  same_file = refl;
}

read_on :
    {c c' : Cursor} {b b' : Block} {after after' : List Block} {out : List ℕ} {size : ℕ}
    {r : Reading}
    → ahead c' b' after' ≡ ahead c b after
    → c'.file ≡ c.file
    → HasRead c' b' after' out size r
    → HasRead c b after out size r
read_on {out = out} {size = size} same file h = record {
  before' = h.before';
  b' = h.b';
  after' = h.after';
  bytes = h.bytes ∙ ap (λ l. out ++ take size l) same;
  still = h.still;
  rest = h.rest ∙ ap (λ l. drop size l) same;
  same_file = h.same_file ∙ file;
}

-- The cursor `n` bytes on.
abbrev moved : Cursor → ℕ → Cursor
moved c n = record c { desc = record (c.desc) { block_pos = c.desc.block_pos + n } }

module _ (c : Cursor) (before : List Block) (b : Block) (after : List Block)
    (h : IsReading c before b after) (size : ℕ) where
  abbrev amount : ℕ
  amount = to_read b c.desc.block_pos size

  abbrev piece : List ℕ
  piece = take amount (drop c.desc.block_pos b.memory)

  amount_lem :
      (c.desc.block_pos == b.occupied) ≡ false
      → 0 < size
      → (0 < amount) × (amount ≤ size) × (c.desc.block_pos + amount ≤ b.occupied)
  amount_lem e left = (ground (arith, h.at), ground (arith, h.at), ground (arith, h.at))

  module _ (within : c.desc.block_pos + amount ≤ b.occupied) where
    length-piece : length piece ≡ amount
    length-piece =
        let (m, le) = memory-IsTail b after h.tail in
        omega (
          arith,
          length-take amount (drop c.desc.block_pos b.memory),
          length-drop c.desc.block_pos b.memory,
        )

    read_chunk_lem : read_chunk c b size ≡ ok (moved c amount, piece)
    unfolding read_chunk
    read_chunk_lem =
        let (m, le) = memory-IsTail b after h.tail in
        rw (read_chunk, copy_out_lem b.memory c.desc.block_pos amount (omega arith)) refl

    moved-IsReading : IsReading (moved c amount) before b after
    moved-IsReading = record {
      blocks = h.blocks;
      curr = h.curr;
      below = h.below;
      tail = h.tail;
      at = within;
    }

    ahead_moved : ahead c b after ≡ piece ++ ahead (moved c amount) b after
    ahead_moved =
        ap (λ l. l ++ contents after) (drop-take amount c.desc.block_pos b.occupied b.memory within)
        ∙ append_assoc piece (drop (c.desc.block_pos + amount) (take b.occupied b.memory))
            (contents after)

    read_more :
        (out : List ℕ) (r : Reading)
        → amount ≤ size
        → HasRead (moved c amount) b after (out ++ piece) (size - amount) r
        → HasRead c b after out size r
    read_more out r le g =
        let split : size ≡ length piece + (size - amount) = omega (arith, length-piece) in
        record {
          before' = g.before';
          b' = g.b';
          after' = g.after';
          bytes =
              g.bytes
              ∙ append_assoc out piece _
              ∙ ap (λ l. out ++ l)
                  (sym
                      (take_front size (size - amount) piece (ahead (moved c amount) b after) split)
                    ∙ ap (λ l. take size l) (sym ahead_moved));
          still = g.still;
          rest =
              g.rest
              ∙ sym (drop_front size (size - amount) piece (ahead (moved c amount) b after) split)
              ∙ ap (λ l. drop size l) (sym ahead_moved);
          same_file = g.same_file;
        }

nothing_left :
    (c : Cursor) (b : Block) (after : List Block)
    → IsTail b after
    → c.desc.block_pos < 512
    → (c.desc.block_pos == b.occupied) ≡ true
    → ahead c b after ≡ []
nothing_left c b [] tail lt e =
    append-nil _
    ∙ drop_all c.desc.block_pos (take b.occupied b.memory)
        (ground (arith, length-take b.occupied b.memory))
nothing_left c b (d ∷ ds) (_, full, _, _) lt e = absurd (ground arith)

read_loop-none :
    (k : ℕ) (c : Cursor) (out : List ℕ) (size : ℕ)
    → (size == 0) ≡ false
    → next_read c ≡ ok none
    → read_loop (suc k) c out size ≡ ok (record { cursor = c; bytes = out; end = sets_errcode })
unfolding read_loop
read_loop-none k c out size left e = rw (read_loop, left, e) refl

read_loop-stops :
    (k : ℕ) (c c' : Cursor) (b : Block) (out : List ℕ) (size : ℕ)
    → (size == 0) ≡ false
    → next_read c ≡ ok (some c')
    → current c' ≡ ok (b.id, b)
    → (c'.desc.block_pos == b.occupied) ≡ true
    → read_loop (suc k) c out size ≡ ok (record { cursor = c'; bytes = out; end = keeps_errcode })
unfolding read_loop
read_loop-stops k c c' b out size left e₁ e₂ e₃ = rw (read_loop, left, e₁, e₂, ◌>>=◌, e₃) refl

read_loop-round :
    (k : ℕ) (c c' c₂ : Cursor) (b : Block) (out bytes : List ℕ) (size : ℕ)
    → (size == 0) ≡ false
    → next_read c ≡ ok (some c')
    → current c' ≡ ok (b.id, b)
    → (c'.desc.block_pos == b.occupied) ≡ false
    → read_chunk c' b size ≡ ok (c₂, bytes)
    → read_loop (suc k) c out size
      ≡ read_loop k c₂ (out ++ bytes) (size - to_read b c'.desc.block_pos size)
unfolding read_loop
read_loop-round k c c' c₂ b out bytes size left e₁ e₂ e₃ e₄ =
    rw (read_loop, left, e₁, e₂, ◌>>=◌, e₃, e₄) refl

-- The loop of `ufs_read`, on more fuel than there are bytes to read, ends, and it has read the next
-- bytes of the file.
pub read_loop-HasRead :
    (k : ℕ) (c : Cursor) (before : List Block) (b : Block) (after : List Block) (out : List ℕ)
    (size : ℕ)
    → IsReading c before b after
    → size < k
    → (r : Reading) × (read_loop k c out size ≡ ok r) × HasRead c b after out size r
unfolding read_loop
read_loop-HasRead zero c before b after out size h fuel = absurd (omega arith)
read_loop-HasRead (suc k) c before b after out size h fuel = elim (Bool-cases (size == 0)) [
  | inl done ↦
      let z : size ≡ 0 = ground arith in
      rw z (_, refl, nothing_read c before b after out 0 sets_errcode h (refl, refl))
  | inr left ↦ elim (next_read_lem c before b after h) [
    | no_more e nil ↦ (
      _,
      read_loop-none k c out size left e,
      nothing_read c before b after out size sets_errcode h
          (take_all size _ nil, drop_empty size _ nil),
    )
    | goes_on c' before' b' after' e lt h' same file ↦
        elim (Bool-cases (c'.desc.block_pos == b'.occupied)) [
          | inl at_end ↦
              let nil = nothing_left c' b' after' h'.tail lt at_end in
              (
                _,
                read_loop-stops k c c' b' out size left e (current-middle c' before' b' after' h')
                    at_end,
                read_on same file (
                    nothing_read c' before' b' after' out size keeps_errcode h'
                      (take_all size _ nil, drop_empty size _ nil)),
              )
          | inr more ↦
              let (pos, le, within) = amount_lem c' before' b' after' h' size more (ground arith) in
              let n = to_read b' c'.desc.block_pos size in
              let (r, e', g) =
                read_loop-HasRead k (moved c' n) before' b' after'
                  (out ++ take n (drop c'.desc.block_pos b'.memory)) (size - n)
                  (moved-IsReading c' before' b' after' h' size within) (omega arith) in
              (
                r,
                read_loop-round k c c' (moved c' n) b' out _ size left e
                      (current-middle c' before' b' after' h') more
                      (read_chunk_lem c' before' b' after' h' size within)
                    ∙ e',
                read_on same file (read_more c' before' b' after' h' size within out r le g),
              )
        ]
  ]
]
