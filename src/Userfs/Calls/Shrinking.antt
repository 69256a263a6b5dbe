-- ===== src/Userfs/Calls/Shrinking.antt =====
-- 3/userfs.c: what `ufs_resize` keeps of a file's bytes.
use sysproghw.Base.{
  take-append_left, ℕ, zero, suc, ◌+◌, ◌-◌, ◌*◌, ◌/◌, ◌%◌, ◌<◌, ◌≤◌, ◌≡◌, refl, ◌∙◌, ap, sym, inl,
  inr, false, List, [], ◌∷◌, ◌++◌, some, length, take, get_elem?, ◌==◌, leb, ltb, Bool-cases,
  length-take, length-append, arith,
}
use mathlib.Core.List.{append-nil}
use mathlib.Core.Path.{subst}
use sysproghw.Base.Int.{ℤ, pos}
use sysproghw.Userfs.Table.{ufs_get_fd}
use sysproghw.Userfs.State.{
  max_file_size, no_err, Filedesc, Fs, with_errcode, store_file, ok, ◌>>=◌, Block, File,
}
use sysproghw.Userfs.Transfer.Shapes.{contents, IsFile, IsTail}
use sysproghw.Userfs.Transfer.Reaching.{take_front, take-take, memory-IsTail}
use sysproghw.Userfs.Calls.Resize.{
  old_size, resize_from, ufs_resize, move_fds, new_num_blocks, new_block_pos, new_last_block,
  shrink,
}

-- All blocks in front of another one are full.
full_front :
    (c : Block) (before : List Block) (b : Block) (after : List Block)
    → IsTail c (before ++ b ∷ after)
    → (length c.memory ≡ 512) × (c.occupied ≡ 512) × IsFile (before ++ b ∷ after)
full_front c [] b after (m, full, _, g) = (m, full, g)
full_front c (d ∷ before) b after (m, full, _, g) = (m, full, g)

contents_cut :
    (before : List Block) (b : Block) (after : List Block) (at size : ℕ)
    → IsFile (before ++ b ∷ after)
    → at ≤ b.occupied
    → size ≡ length before * 512 + at
    → contents (before ++ record b { occupied = at } ∷ [])
      ≡ take size (contents (before ++ b ∷ after))
contents_cut [] b after at size g le e =
    let (m, small) = memory-IsTail b after g in
    let same : at ≡ size = omega arith in
    append-nil _
    ∙ sym (take-take at b.occupied b.memory le)
    ∙ sym (
        take-append_left at (take b.occupied b.memory) (contents after)
          (omega (arith, length-take b.occupied b.memory)))
    ∙ ap (λ n. take n (take b.occupied b.memory ++ contents after)) same
contents_cut (c ∷ before) b after at size g le e =
    let (m, full, g') = full_front c before b after g in
    ap (λ l. take c.occupied c.memory ++ l)
      (contents_cut before b after at (length before * 512 + at) g' le refl)
    ∙ sym (
        take_front size (length before * 512 + at) (take c.occupied c.memory)
          (contents (before ++ b ∷ after)) (omega (arith, length-take c.occupied c.memory)))

-- The block `k` of a list that is long enough.
record Split (k : ℕ) (bs : List Block) : Type 0 where
  before : List Block
  b : Block
  after : List Block
  whole : bs ≡ before ++ b ∷ after
  front : take k bs ≡ before
  here : get_elem? bs k ≡ some b
  place : length before ≡ k

split_at : (k : ℕ) (bs : List Block) → k < length bs → Split k bs
split_at k [] h = absurd (omega arith)
split_at zero (b ∷ bs) h = record {
  before = [];
  b = b;
  after = bs;
  whole = refl;
  front = refl;
  here = refl;
  place = refl;
}
split_at (suc k) (c ∷ bs) h =
    let s = split_at k bs (omega arith) in
    record {
      before = c ∷ s.before;
      b = s.b;
      after = s.after;
      whole = ap (λ l. c ∷ l) s.whole;
      front = ap (λ l. c ∷ l) s.front;
      here = s.here;
      place = ap suc s.place;
    }

-- Where a file is cut to `k + 1` blocks, of which the last holds no more bytes than before, the first
-- bytes of the file are left, as many as the blocks now hold.
contents-shrink :
    (k at : ℕ) (f : File)
    → IsFile f.blocks
    → ((s : Split k f.blocks) → at ≤ s.b.occupied)
    → k < length f.blocks
    → (f' : File) × (shrink (suc k) at f ≡ ok f')
      × (contents f'.blocks ≡ take (k * 512 + at) (contents f.blocks))
      × (f'.num_blocks ≡ length f'.blocks)
unfolding shrink new_last_block
contents-shrink k at f g le lt =
    let s = split_at k f.blocks lt in
    let rest : List Block = record (s.b) { occupied = at } ∷ [] in
    let f' = record f {
      blocks = take (suc k - 1) f.blocks ++ rest;
      last_block = some s.b.id;
      num_blocks = suc k;
    } in
    let k_left : suc k - 1 ≡ k = omega arith in
    let blocks' : f'.blocks ≡ s.before ++ rest =
      ap (λ n. take n f.blocks ++ rest) k_left ∙ ap (λ l. l ++ rest) s.front in
    (
      f',
      rw (shrink, s.here) refl,
      ap contents blocks'
          ∙ contents_cut s.before s.b s.after at (k * 512 + at) (subst IsFile s.whole g) (le s)
              (ap (λ n. n * 512 + at) (sym s.place))
          ∙ ap (λ l. take (k * 512 + at) (contents l)) (sym s.whole),
      omega (arith, ap length blocks', length-append s.before rest, s.place),
    )

length-contents :
    (before : List Block) (b : Block) (after : List Block)
    → IsFile (before ++ b ∷ after)
    → length (contents (before ++ b ∷ after))
      ≡ length before * 512 + (b.occupied + length (contents after))
length-contents [] b after g =
    let (m, small) = memory-IsTail b after g in
    omega (
      arith,
      length-append (take b.occupied b.memory) (contents after),
      length-take b.occupied b.memory,
    )
length-contents (c ∷ before) b after g =
    let (m, full, g') = full_front c before b after g in
    omega (
      arith,
      length-append (take c.occupied c.memory) (contents (before ++ b ∷ after)),
      length-take c.occupied c.memory,
      length-contents before b after g',
    )

-- How a size that is not 0 is split into whole blocks and the bytes of the last one.
blocks_of :
    (size : ℕ)
    → 0 < size
    → (k : ℕ) × (new_num_blocks size ≡ suc k)
      × (k * 512 + new_block_pos size ≡ size)
      × (new_block_pos size ≤ 512)
      × (0 < new_block_pos size)
unfolding new_num_blocks new_block_pos
blocks_of size h = elim (Bool-cases (size % 512 == 0)) [
  | inl whole ↦ rw whole (size / 512 - 1, ground arith, ground arith, omega arith, omega arith)
  | inr part ↦ rw part (size / 512, omega arith, omega arith, omega arith, ground arith)
]

IsTail-behind :
    (before : List Block) (b : Block) (after : List Block)
    → IsFile (before ++ b ∷ after)
    → IsTail b after
IsTail-behind [] b after g = g
IsTail-behind (c ∷ before) b after g =
    let (_, _, g') = full_front c before b after g in IsTail-behind before b after g'

length-contents-le :
    (b : Block) (bs : List Block) → IsTail b bs → length (contents (b ∷ bs)) ≤ length (b ∷ bs) * 512
length-contents-le b [] (m, small) =
    omega (arith, length-append (take b.occupied b.memory) [], length-take b.occupied b.memory)
length-contents-le b (d ∷ ds) (m, full, _, g) = omega (
  arith,
  length-append (take b.occupied b.memory) (contents (d ∷ ds)),
  length-take b.occupied b.memory,
  length-contents-le d ds g,
)

-- The size that is asked for ends within the block `k`, which holds as many bytes.
within_block :
    (bs : List Block) (k at : ℕ)
    → IsFile bs
    → k * 512 + at < length (contents bs)
    → at ≤ 512
    → (s : Split k bs) → at ≤ s.b.occupied
within_block bs k at g lt small s =
    go s.after (subst IsFile s.whole g) (ap length (ap contents s.whole))
  where
    go :
        (after : List Block)
        → IsFile (s.before ++ s.b ∷ after)
        → length (contents bs) ≡ length (contents (s.before ++ s.b ∷ after))
        → at ≤ s.b.occupied
    go [] g' e = omega (arith, length-contents s.before s.b [] g', ap (λ n. n * 512) s.place)
    go (d ∷ ds) g' e = let (_, full, _, _) = IsTail-behind s.before s.b (d ∷ ds) g' in omega arith

enough_blocks :
    (bs : List Block) (k at : ℕ) → IsFile bs → k * 512 + at < length (contents bs) → k < length bs
enough_blocks [] k at g lt = absurd (omega arith)
enough_blocks (b ∷ bs) k at g lt = omega (arith, length-contents-le b bs g)

ufs_resize_shrunk :
    (fd : ℤ) (s : Fs) (i : ℕ) (d : Filedesc) (f f' : File) (size old : ℕ)
    → ufs_get_fd fd s ≡ some (i, d)
    → s.files d.file ≡ some f
    → old_size f ≡ ok old
    → ltb max_file_size size ≡ false
    → leb old size ≡ false
    → shrink (new_num_blocks size) (new_block_pos size) f ≡ ok f'
    → ufs_resize fd size s
      ≡ ok (
        pos 0,
        with_errcode no_err (record (store_file d.file f' s) {
          file_descriptors = move_fds d.file f' (new_block_pos size) s.file_descriptors;
        }),
      )
unfolding ufs_resize resize_from
ufs_resize_shrunk fd s i d f f' size old opened there o not_large smaller e =
    rw (ufs_resize, opened, not_large, there, ◌>>=◌, o, ◌>>=◌, smaller, e) refl

-- `ufs_resize` of an open file to a size that is within the limit and neither 0 nor as large as
-- the file returns 0 and leaves the first bytes of the file, as many as it was asked for, where
-- all blocks of the file but the last are full and the size that `ufs_resize` computes is that of
-- what the blocks hold.
pub ufs_resize-take :
    (fd : ℤ) (s : Fs) (i : ℕ) (d : Filedesc) (f : File) (size : ℕ)
    → ufs_get_fd fd s ≡ some (i, d)
    → s.files d.file ≡ some f
    → IsFile f.blocks
    → old_size f ≡ ok (length (contents f.blocks))
    → 0 < size
    → size < length (contents f.blocks)
    → size ≤ max_file_size
    → (f' : File) × (s' : Fs) × (ufs_resize fd size s ≡ ok (pos 0, s'))
      × (s'.files d.file ≡ some f')
      × (contents f'.blocks ≡ take size (contents f.blocks))
ufs_resize-take fd s i d f size opened there g old least less small =
    let (k, blocks, split, at_most, _) = blocks_of size least in
    let at = new_block_pos size in
    let not_large : ltb max_file_size size ≡ false = ground arith in
    let smaller : leb (length (contents f.blocks)) size ≡ false = ground arith in
    let (f', e, kept, _) =
      contents-shrink k at f g (within_block f.blocks k at g (omega arith) at_most)
        (enough_blocks f.blocks k at g (omega arith)) in
    (
      f',
      with_errcode no_err (record (store_file d.file f' s) {
        file_descriptors = move_fds d.file f' at s.file_descriptors;
      }),
      ufs_resize_shrunk fd s i d f f' size (length (contents f.blocks)) opened there old not_large
          smaller (ap (λ n. shrink n at f) blocks ∙ e),
      ground arith,
      kept ∙ ap (λ n. take n (contents f.blocks)) split,
    )
