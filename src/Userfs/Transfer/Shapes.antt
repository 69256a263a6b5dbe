-- ===== src/Userfs/Transfer/Shapes.antt =====
-- 3/userfs.c: the blocks of a file, all full but the last.
use mathlib.Core.List.{append-nil, append_assoc}
use sysproghw.Base.{
  ℕ, ◌<◌, ◌≤◌, ◌≡◌, ◌∙◌, ap, sym, ◌⊎◌, false, List, [], ◌∷◌, ◌++◌, none, some, ◌==◌, length, take,
  arith,
}
use sysproghw.Userfs.State.{Block, find_block, put_block, next_block}
use sysproghw.Userfs.Transfer.{Cursor}

-- The bytes that blocks hold.
abbrev pub contents : List Block → List ℕ
contents [] = []
contents (b ∷ bs) = take b.occupied b.memory ++ contents bs

abbrev pub AreBelow : ℕ → List Block → Type 0
AreBelow n [] = Unit
AreBelow n (b ∷ bs) = (b.id < n) × AreBelow n bs

-- The blocks of a file from `b` on: all have 512 bytes of memory, all but the last are full, and a
-- block was made later than the one in front of it.
abbrev pub IsTail : Block → List Block → Type 0
IsTail b [] = (length b.memory ≡ 512) × (b.occupied ≤ 512)
IsTail b (d ∷ ds) = (length b.memory ≡ 512) × (b.occupied ≡ 512) × (b.id < d.id) × IsTail d ds

-- The blocks of a file, from the first on.
abbrev pub IsFile : List Block → Type 0
IsFile [] = Unit
IsFile (b ∷ bs) = IsTail b bs

-- A cursor that stands in its file's last block `b`, not behind the bytes there, where the block has
-- room for more or the cursor is at its end.
pub record IsInLast (c : Cursor) (before : List Block) (b : Block) : Type 0 where
  pub blocks : c.file.blocks ≡ before ++ b ∷ []
  pub curr : c.desc.curr_block ≡ some b.id
  pub below : AreBelow b.id before
  pub fresh : b.id < c.brk
  pub memory : length b.memory ≡ 512
  pub held : b.occupied ≤ 512
  pub at : c.desc.block_pos ≤ b.occupied
  pub room : (b.occupied < 512) ⊎ (c.desc.block_pos ≡ 512)

pub find_block-last :
    (before : List Block) (b : Block)
    → AreBelow b.id before
    → find_block b.id (before ++ b ∷ []) ≡ some b
unfolding find_block
find_block-last [] b h = ground arith
find_block-last (c ∷ bs) b (lt, h) =
    let other : (c.id == b.id) ≡ false = ground arith in rw other (find_block-last bs b h)

pub next_block-last :
    (before : List Block) (b : Block)
    → AreBelow b.id before
    → next_block b.id (before ++ b ∷ []) ≡ none
unfolding next_block
next_block-last [] b h = ground arith
next_block-last (c ∷ bs) b (lt, h) =
    let other : (c.id == b.id) ≡ false = ground arith in rw other (next_block-last bs b h)

pub put_block-last :
    (before : List Block) (b b' : Block)
    → AreBelow b.id before
    → put_block b.id b' (before ++ b ∷ []) ≡ before ++ b' ∷ []
unfolding put_block
put_block-last [] b b' h = ground arith
put_block-last (c ∷ bs) b b' (lt, h) =
    let other : (c.id == b.id) ≡ false = ground arith in
    rw other (ap (λ l. c ∷ l) (put_block-last bs b b' h))

pub contents-append :
    (before : List Block) (b : Block)
    → contents (before ++ b ∷ []) ≡ contents before ++ take b.occupied b.memory
contents-append [] b = append-nil _
contents-append (c ∷ bs) b =
    ap (λ l. take c.occupied c.memory ++ l) (contents-append bs b)
    ∙ sym (append_assoc (take c.occupied c.memory) (contents bs) (take b.occupied b.memory))

pub AreBelow-append :
    (n : ℕ) (before : List Block) (b : Block)
    → AreBelow b.id before
    → b.id < n
    → AreBelow n (before ++ b ∷ [])
AreBelow-append n [] b h lt = (lt, tt)
AreBelow-append n (c ∷ bs) b (l, h) lt = (omega arith, AreBelow-append n bs b h lt)

IsTail-last :
    (d : Block) (before : List Block) (b b' : Block)
    → b'.id ≡ b.id
    → length b'.memory ≡ 512
    → b'.occupied ≤ 512
    → IsTail d (before ++ b ∷ [])
    → IsTail d (before ++ b' ∷ [])
IsTail-last d [] b b' i m le (md, full, lt, _) = (md, full, omega arith, (m, le))
IsTail-last d (c ∷ before) b b' i m le (md, full, lt, h) =
    (md, full, lt, IsTail-last c before b b' i m le h)

pub IsFile-last :
    (before : List Block) (b b' : Block)
    → b'.id ≡ b.id
    → length b'.memory ≡ 512
    → b'.occupied ≤ 512
    → IsFile (before ++ b ∷ [])
    → IsFile (before ++ b' ∷ [])
IsFile-last [] b b' i m le h = (m, le)
IsFile-last (c ∷ before) b b' i m le h = IsTail-last c before b b' i m le h

IsTail-append :
    (d : Block) (before : List Block) (b b' : Block)
    → b.occupied ≡ 512
    → b.id < b'.id
    → length b'.memory ≡ 512
    → b'.occupied ≤ 512
    → IsTail d (before ++ b ∷ [])
    → IsTail d ((before ++ b ∷ []) ++ b' ∷ [])
IsTail-append d [] b b' o lt m le (md, full, lt', (mb, _)) = (md, full, lt', (mb, o, lt, (m, le)))
IsTail-append d (c ∷ before) b b' o lt m le (md, full, lt', h) =
    (md, full, lt', IsTail-append c before b b' o lt m le h)

pub IsFile-append :
    (before : List Block) (b b' : Block)
    → b.occupied ≡ 512
    → b.id < b'.id
    → length b'.memory ≡ 512
    → b'.occupied ≤ 512
    → IsFile (before ++ b ∷ [])
    → IsFile ((before ++ b ∷ []) ++ b' ∷ [])
IsFile-append [] b b' o lt m le (mb, _) = (mb, o, lt, (m, le))
IsFile-append (c ∷ before) b b' o lt m le h = IsTail-append c before b b' o lt m le h
