-- ===== src/Userfs/Invariant/Frames.antt =====
-- 3/userfs.c: the loops of `ufs_write`, `ufs_read` and `ufs_resize` leave a file's counter of references,
-- its mark and a descriptor's file alone.
use sysproghw.Base.{
  ℕ, zero, suc, ◌+◌, ◌-◌, ◌≤◌, ◌≡◌, refl, ◌∙◌, inl, inr, true, false, List, ◌++◌, Option, none,
  some, ◌==◌, arith, Bool-cases, Option-cases,
}
use sysproghw.Userfs.State.{
  block_size, Run, ok, fault, out_of_fuel, ◌>>=◌, deref, Block, File, next_block, head_id,
  increase_file,
}
use sysproghw.Userfs.Transfer.{
  Cursor, start_at, start_write, move_on, move_if, current, next_write, next_read, copy_in,
  copy_out, write_chunk, write_loop, Reading, to_read, read_chunk, read_loop, start_read,
  sets_errcode, keeps_errcode,
}
use sysproghw.Userfs.Calls.Resize.{grow_loop, shrink, new_last_block}

-- What holds of a run's result, if it has one.
abbrev pub WhenOk {ℓ} : {A : Type ℓ} → (A → Type 0) → Run A → Type 0
WhenOk P (ok a) = P a
WhenOk P fault = Unit
WhenOk P out_of_fuel = Unit

pub WhenOk-bind {ℓ κ} :
    {A : Type ℓ} {B : Type κ} (P : A → Type 0) (Q : B → Type 0) (r : Run A) (g : A → Run B)
    → WhenOk P r
    → ((a : A) → P a → WhenOk Q (g a))
    → WhenOk Q (r >>= g)
WhenOk-bind P Q (ok a) g h k = k a h
WhenOk-bind P Q fault g h k = tt
WhenOk-bind P Q out_of_fuel g h k = tt

pub WhenOk-then {ℓ κ} :
    {A : Type ℓ} {B : Type κ} (Q : B → Type 0) (r : Run A) (g : A → Run B)
    → ((a : A) → WhenOk Q (g a))
    → WhenOk Q (r >>= g)
WhenOk-then Q (ok a) g k = k a
WhenOk-then Q fault g k = tt
WhenOk-then Q out_of_fuel g k = tt

-- One file is another up to its blocks.
pub record IsSame (f g : File) : Type 0 where
  pub refs : g.refs ≡ f.refs
  pub deleted : g.deleted ≡ f.deleted

IsSame-refl : (f : File) → IsSame f f
IsSame-refl f = record { refs = refl; deleted = refl }

increase_file-IsSame : (id : ℕ) (f : File) → IsSame f (increase_file id f)
unfolding increase_file
increase_file-IsSame id f = record { refs = refl; deleted = refl }

-- One cursor comes from another on the same file: new objects have been made at most.
pub record IsFrom (c c' : Cursor) : Type 0 where
  pub file : IsSame c.file c'.file
  pub number : c'.desc.file ≡ c.desc.file
  pub grown : c.brk ≤ c'.brk

IsFrom-refl : (c : Cursor) → IsFrom c c
IsFrom-refl c = record { file = IsSame-refl c.file; number = refl; grown = omega arith }

pub IsFrom-trans : {c d e : Cursor} → IsFrom c d → IsFrom d e → IsFrom c e
IsFrom-trans p q = record {
  file = record { refs = q.file.refs ∙ p.file.refs; deleted = q.file.deleted ∙ p.file.deleted };
  number = q.number ∙ p.number;
  grown = omega (arith, p.grown, q.grown);
}

-- The same for a run that starts further on.
IsFrom-after :
    {c d : Cursor} (r : Run (Cursor × ℕ))
    → IsFrom c d
    → WhenOk (λ o. IsFrom d o.0) r
    → WhenOk (λ o. IsFrom c o.0) r
IsFrom-after (ok o) h k = IsFrom-trans h k
IsFrom-after fault h k = tt
IsFrom-after out_of_fuel h k = tt

start_at-IsFrom : (c : Cursor) (o : Option ℕ) → IsFrom c (start_at c o)
start_at-IsFrom c (some p) = record {
  file = IsSame-refl c.file;
  number = refl;
  grown = omega arith;
}
start_at-IsFrom c none = record {
  file = increase_file-IsSame c.brk c.file;
  number = refl;
  grown = omega arith;
}

pub start_write-IsFrom : (c : Cursor) → IsFrom c (start_write c)
unfolding start_write
start_write-IsFrom c = elim (Option-cases c.desc.curr_block) [
  | inl e ↦ simp (start_write, e) (start_at-IsFrom c (head_id c.file.blocks))
  | inr (p, e) ↦ simp (start_write, e) (IsFrom-refl c)
]

move_on-IsFrom : (c : Cursor) (o : Option ℕ) → IsFrom c (move_on c o)
move_on-IsFrom c (some q) = record { file = IsSame-refl c.file; number = refl; grown = omega arith }
move_on-IsFrom c none = record {
  file = increase_file-IsSame c.brk c.file;
  number = refl;
  grown = omega arith;
}

next_write-IsFrom : (c : Cursor) → WhenOk (IsFrom c) (next_write c)
unfolding next_write
next_write-IsFrom c = elim (Bool-cases (c.desc.block_pos == block_size)) [
  | inl e ↦
      rw (next_write, e)
        (WhenOk-then _ (current c) (λ o. ok (move_on c (next_block o.0 c.file.blocks)))
          (λ o. move_on-IsFrom c (next_block o.0 c.file.blocks)))
  | inr e ↦ rw (next_write, e) (IsFrom-refl c)
]

write_chunk-IsFrom :
    (c : Cursor) (buf : List ℕ) (b_written size : ℕ)
    → WhenOk (λ o. IsFrom c o.0) (write_chunk c buf b_written size)
unfolding write_chunk
write_chunk-IsFrom c buf b_written size = WhenOk-then _ (current c) _ (λ o.
    WhenOk-then _ (copy_out buf b_written _) _ (λ bytes.
      WhenOk-then _ (copy_in o.1.memory c.desc.block_pos bytes) _ (λ memory. record {
        file = record { refs = refl; deleted = refl };
        number = refl;
        grown = omega arith;
      })))

pub write_loop-IsFrom :
    (fuel : ℕ) (c : Cursor) (buf : List ℕ) (b_written size : ℕ)
    → WhenOk (λ o. IsFrom c o.0) (write_loop fuel c buf b_written size)
unfolding write_loop
write_loop-IsFrom zero c buf b_written size = tt
write_loop-IsFrom (suc k) c buf b_written size = elim (Bool-cases (size == 0)) [
  | inl e ↦ rw (write_loop, e) (IsFrom-refl c)
  | inr e ↦
      rw (write_loop, e)
        (WhenOk-bind (IsFrom c) _ (next_write c) _ (next_write-IsFrom c) (λ c₁ h₁.
          WhenOk-bind (λ o. IsFrom c₁ o.0) _ (write_chunk c₁ buf b_written size) _
            (write_chunk-IsFrom c₁ buf b_written size)
            (λ o h₂.
              IsFrom-after (write_loop k o.0 buf (b_written + o.1) (size - o.1))
                (IsFrom-trans h₁ h₂) (write_loop-IsFrom k o.0 buf (b_written + o.1) (size - o.1)))))
]

-- The same for a cursor that may be missing.
abbrev pub IsFromMaybe : Cursor → Option Cursor → Type 0
IsFromMaybe c none = Unit
IsFromMaybe c (some c') = IsFrom c c'

move_if-IsFromMaybe : (c : Cursor) (o : Option ℕ) → IsFromMaybe c (move_if c o)
move_if-IsFromMaybe c none = tt
move_if-IsFromMaybe c (some q) = move_on-IsFrom c (some q)

next_read-IsFromMaybe : (c : Cursor) → WhenOk (IsFromMaybe c) (next_read c)
unfolding next_read
next_read-IsFromMaybe c = elim (Bool-cases (c.desc.block_pos == block_size)) [
  | inl e ↦
      rw (next_read, e)
        (WhenOk-then _ (current c) (λ o. ok (move_if c (next_block o.0 c.file.blocks)))
          (λ o. move_if-IsFromMaybe c (next_block o.0 c.file.blocks)))
  | inr e ↦ rw (next_read, e) (IsFrom-refl c)
]

pub start_read-IsFromMaybe : (c : Cursor) → IsFromMaybe c (start_read c)
unfolding start_read
start_read-IsFromMaybe c = elim (Option-cases c.desc.curr_block) [
  | inl e ↦ elim (Option-cases (head_id c.file.blocks)) [
    | inl n ↦ simp (start_read, e, n) tt
    | inr (p, n) ↦ simp (start_read, e, n) (start_at-IsFrom c (some p))
  ]
  | inr (p, e) ↦ simp (start_read, e) (IsFrom-refl c)
]

read_chunk-IsFrom :
    (c : Cursor) (b : Block) (size : ℕ) → WhenOk (λ o. IsFrom c o.0) (read_chunk c b size)
unfolding read_chunk
read_chunk-IsFrom c b size =
    WhenOk-then _ (copy_out b.memory c.desc.block_pos (to_read b c.desc.block_pos size)) _
      (λ bytes. record { file = IsSame-refl c.file; number = refl; grown = omega arith })

IsFrom-reading :
    {c d : Cursor} (r : Run Reading)
    → IsFrom c d
    → WhenOk (λ o. IsFrom d o.cursor) r
    → WhenOk (λ o. IsFrom c o.cursor) r
IsFrom-reading (ok o) h k = IsFrom-trans h k
IsFrom-reading fault h k = tt
IsFrom-reading out_of_fuel h k = tt

-- What a round of `ufs_read` does at a block, when the rounds behind it are known.
read_block-IsFrom :
    (fuel : ℕ)
    → ((c : Cursor) (out : List ℕ) (size : ℕ)
        → WhenOk (λ (r : Reading). IsFrom c r.cursor) (read_loop fuel c out size))
    → (c : Cursor) (out : List ℕ) (size : ℕ) (b : Block)
    → WhenOk
        (λ (r : Reading). IsFrom c r.cursor)
        (elim (c.desc.block_pos == b.occupied) [
          | true ↦ ok (record { cursor = c; bytes = out; end = keeps_errcode })
          | false ↦ do
            (c₂, bytes) ← read_chunk c b size
            read_loop fuel c₂ (out ++ bytes) (size - to_read b c.desc.block_pos size)
        ])
read_block-IsFrom fuel later c out size b = elim (Bool-cases (c.desc.block_pos == b.occupied)) [
  | inl e ↦ rw (WhenOk, e) (IsFrom-refl c)
  | inr e ↦
      rw (WhenOk, e)
        (WhenOk-bind (λ o. IsFrom c o.0) _ (read_chunk c b size) _ (read_chunk-IsFrom c b size)
          (λ o h.
            IsFrom-reading
              (read_loop fuel o.0 (out ++ o.1) (size - to_read b c.desc.block_pos size)) h
              (later o.0 (out ++ o.1) (size - to_read b c.desc.block_pos size))))
]

-- The same from the block that is next, if there is one.
read_next-IsFrom :
    (fuel : ℕ)
    → ((c : Cursor) (out : List ℕ) (size : ℕ)
        → WhenOk (λ (r : Reading). IsFrom c r.cursor) (read_loop fuel c out size))
    → (c : Cursor) (out : List ℕ) (size : ℕ) (o : Option Cursor) → IsFromMaybe c o
    → WhenOk
        (λ (r : Reading). IsFrom c r.cursor)
        (elim o [
          | none ↦ ok (record { cursor = c; bytes = out; end = sets_errcode })
          | some c₁ ↦ do
            (_, b) ← current c₁
            elim (c₁.desc.block_pos == b.occupied) [
              | true ↦ ok (record { cursor = c₁; bytes = out; end = keeps_errcode })
              | false ↦ do
                (c₂, bytes) ← read_chunk c₁ b size
                read_loop fuel c₂ (out ++ bytes) (size - to_read b c₁.desc.block_pos size)
            ]
        ])
read_next-IsFrom fuel later c out size none h = IsFrom-refl c
read_next-IsFrom fuel later c out size (some c₁) h =
    WhenOk-then _ (current c₁) _
      (λ o. IsFrom-reading _ h (read_block-IsFrom fuel later c₁ out size o.1))

pub read_loop-IsFrom :
    (fuel : ℕ) (c : Cursor) (out : List ℕ) (size : ℕ)
    → WhenOk (λ (r : Reading). IsFrom c r.cursor) (read_loop fuel c out size)
unfolding read_loop
read_loop-IsFrom zero c out size = tt
read_loop-IsFrom (suc k) c out size = elim (Bool-cases (size == 0)) [
  | inl e ↦ rw (read_loop, e) (IsFrom-refl c)
  | inr e ↦
      rw (read_loop, e)
        (WhenOk-bind (IsFromMaybe c) _ (next_read c) _ (next_read-IsFromMaybe c)
          (read_next-IsFrom k (read_loop-IsFrom k) c out size))
]

pub grow_loop-IsSame :
    (k brk : ℕ) (f : File) → IsSame f (grow_loop k brk f).1 × (brk ≤ (grow_loop k brk f).0)
unfolding grow_loop
grow_loop-IsSame zero brk f = (IsSame-refl f, omega arith)
grow_loop-IsSame (suc k) brk f =
    let (h, le) = grow_loop-IsSame k (brk + 1) (increase_file brk f) in
    let same = increase_file-IsSame brk f in
    (record { refs = h.refs ∙ same.refs; deleted = h.deleted ∙ same.deleted }, omega (arith, le))

pub shrink-IsSame : (n at : ℕ) (f : File) → WhenOk (IsSame f) (shrink n at f)
unfolding shrink
shrink-IsSame n at f =
    WhenOk-then (IsSame f) (deref (new_last_block n f.blocks)) _
      (λ b. record { refs = refl; deleted = refl })
