-- ===== src/Userfs/Transfer/Reaching.antt =====
-- 3/userfs.c: where a descriptor stands when it reads, and the bytes ahead of it.
use mathlib.Core.List.{append-nil, append_assoc}
use sysproghw.Base.{
  ℕ, zero, suc, ◌+◌, ◌<◌, ◌≤◌, ◌≡◌, refl, ◌∙◌, ap, sym, inl, inr, true, false, List, [], ◌∷◌, ◌++◌,
  none, some, ◌==◌, length, take, drop, arith, Bool-cases, take-append-drop, length-take,
}
use sysproghw.Userfs.State.{ok, Block, find_block, next_block, head_id}
use sysproghw.Userfs.Transfer.{Cursor, move_to, next_read, current}
use sysproghw.Userfs.Transfer.Splice.{zero_add, suc_add}
use sysproghw.Userfs.Transfer.Shapes.{IsTail, contents, AreBelow, AreBelow-append}

-- A cursor that stands in the block `b` of its file, not behind the bytes there.
pub record IsReading (c : Cursor) (before : List Block) (b : Block) (after : List Block)
    : Type 0 where
  pub blocks : c.file.blocks ≡ before ++ b ∷ after
  pub curr : c.desc.curr_block ≡ some b.id
  pub below : AreBelow b.id before
  pub tail : IsTail b after
  pub at : c.desc.block_pos ≤ b.occupied

-- The bytes of the file from the place of the cursor on.
abbrev pub ahead : Cursor → Block → List Block → List ℕ
ahead c b after = drop c.desc.block_pos (take b.occupied b.memory) ++ contents after

pub memory-IsTail :
    (b : Block) (after : List Block) → IsTail b after → (length b.memory ≡ 512) × (b.occupied ≤ 512)
memory-IsTail b [] (m, le) = (m, le)
memory-IsTail b (d ∷ ds) (m, e, _, _) = (m, omega arith)

find_block-middle :
    (before : List Block) (b : Block) (after : List Block)
    → AreBelow b.id before
    → find_block b.id (before ++ b ∷ after) ≡ some b
unfolding find_block
find_block-middle [] b after h = ground arith
find_block-middle (c ∷ bs) b after (lt, h) =
    let other : (c.id == b.id) ≡ false = ground arith in rw other (find_block-middle bs b after h)

next_block-middle :
    (before : List Block) (b : Block) (after : List Block)
    → AreBelow b.id before
    → next_block b.id (before ++ b ∷ after) ≡ head_id after
unfolding next_block
next_block-middle [] b after h = ground arith
next_block-middle (c ∷ bs) b after (lt, h) =
    let other : (c.id == b.id) ≡ false = ground arith in rw other (next_block-middle bs b after h)

pub current-middle :
    (c : Cursor) (before : List Block) (b : Block) (after : List Block)
    → IsReading c before b after
    → current c ≡ ok (b.id, b)
unfolding current
current-middle c before b after h =
    rw (h.curr, h.blocks, find_block-middle before b after h.below) refl

pub drop_all : (n : ℕ) (xs : List ℕ) → length xs ≤ n → drop n xs ≡ []
drop_all zero [] h = refl
drop_all zero (x ∷ xs) h = absurd (omega arith)
drop_all (suc n) [] h = refl
drop_all (suc n) (x ∷ xs) h = drop_all n xs (omega arith)

-- At the end of a block: there is nothing ahead, or the cursor goes on at the start of the next block.
pub data Next (c : Cursor) (b : Block) (after : List Block) : Type 0 where
  no_more : next_read c ≡ ok none → ahead c b after ≡ [] → Next c b after
  goes_on :
      (c' : Cursor) (before' : List Block) (b' : Block) (after' : List Block)
      → next_read c ≡ ok (some c')
      → c'.desc.block_pos < 512
      → IsReading c' before' b' after'
      → ahead c' b' after' ≡ ahead c b after
      → c'.file ≡ c.file
      → Next c b after

pub next_read_lem :
    (c : Cursor) (before : List Block) (b : Block) (after : List Block)
    → IsReading c before b after
    → Next c b after
unfolding next_read
next_read_lem c before b after h =
    let (m, le) = memory-IsTail b after h.tail in
    elim (Bool-cases (c.desc.block_pos == 512)) [
      | inr inside ↦
          goes_on c before b after (rw (next_read, inside) refl) (ground (arith, h.at, le)) h refl
            refl
      | inl at_end ↦ at_the_end after h at_end m le
    ]
  where
    at_the_end :
        (after : List Block)
        → IsReading c before b after
        → (c.desc.block_pos == 512) ≡ true
        → length b.memory ≡ 512
        → b.occupied ≤ 512
        → Next c b after
    at_the_end [] h at_end m le =
        let last : next_block b.id c.file.blocks ≡ none =
          rw h.blocks (next_block-middle before b [] h.below) in
        no_more (rw (next_read, at_end, current-middle c before b [] h, last) refl) (
          append-nil _
          ∙ drop_all c.desc.block_pos (take b.occupied b.memory)
              (ground (arith, length-take b.occupied b.memory)))
    at_the_end (d ∷ ds) h at_end m le =
        let next : next_block b.id c.file.blocks ≡ some d.id =
          rw h.blocks (next_block-middle before b (d ∷ ds) h.below) in
        let (_, full, lt, tail) = h.tail in
        let nothing : drop c.desc.block_pos (take b.occupied b.memory) ≡ [] =
          drop_all c.desc.block_pos (take b.occupied b.memory)
            (ground (arith, length-take b.occupied b.memory)) in
        goes_on (move_to c d.id) (before ++ b ∷ []) d ds
          (rw (next_read, at_end, current-middle c before b (d ∷ ds) h, next) refl) (omega arith)
          (record {
            blocks = h.blocks ∙ sym (append_assoc before (b ∷ []) (d ∷ ds));
            curr = refl;
            below = AreBelow-append d.id before b h.below lt;
            tail = tail;
            at = omega arith;
          })
          (rw nothing refl) refl

pub take-take : (n occ : ℕ) (mem : List ℕ) → n ≤ occ → take n (take occ mem) ≡ take n mem
take-take zero occ mem h = refl
take-take (suc n) zero mem h = elim h [ ]
take-take (suc n) (suc occ) [] h = refl
take-take (suc n) (suc occ) (x ∷ mem) h = ap (λ l. x ∷ l) (take-take n occ mem (omega arith))

pub drop-take :
    (n at occ : ℕ) (mem : List ℕ)
    → at + n ≤ occ
    → drop at (take occ mem) ≡ take n (drop at mem) ++ drop (at + n) (take occ mem)
drop-take n zero occ mem h =
    rw (zero_add n, ← take-take n occ mem (omega arith)) (sym (take-append-drop n (take occ mem)))
drop-take n (suc at) zero mem h = absurd (omega arith)
drop-take zero (suc at) (suc occ) [] h = rw (suc_add at 0) refl
drop-take (suc n) (suc at) (suc occ) [] h = rw (suc_add at (suc n)) refl
drop-take n (suc at) (suc occ) (x ∷ mem) h =
    rw (suc_add at n) (drop-take n at occ mem (omega arith))

pub take_front :
    (size m : ℕ) (xs ys : List ℕ) → size ≡ length xs + m → take size (xs ++ ys) ≡ xs ++ take m ys
take_front size m [] ys h = ap (λ k. take k ys) (omega arith)
take_front zero m (x ∷ xs) ys h = absurd (omega arith)
take_front (suc size) m (x ∷ xs) ys h = ap (λ l. x ∷ l) (take_front size m xs ys (omega arith))

pub drop_front :
    (size m : ℕ) (xs ys : List ℕ) → size ≡ length xs + m → drop size (xs ++ ys) ≡ drop m ys
drop_front size m [] ys h = ap (λ k. drop k ys) (omega arith)
drop_front zero m (x ∷ xs) ys h = absurd (omega arith)
drop_front (suc size) m (x ∷ xs) ys h = drop_front size m xs ys (omega arith)

pub take_all : (size : ℕ) (xs : List ℕ) → xs ≡ [] → take size xs ≡ []
take_all zero xs e = refl
take_all (suc size) xs e = rw e
