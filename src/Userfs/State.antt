-- ===== src/Userfs/State.antt =====
-- 3/userfs.h and 3/userfs.c: flags, error codes, blocks, files, descriptors and the global state.
--
-- Objects have numbers in place of addresses; `brk` is the next number that `malloc` hands out, and a
-- number is never used twice. The blocks of a file are the list that their `next` links make, and the
-- live files the list that starts at `file_list`. A pointer to a block or to a file is its number, so
-- a pointer to an object that was freed leads to no object, and following it is a fault.
use sysproghw.Base.{
  ℕ, ◌+◌, ◌*◌, Bool, false, List, [], ◌∷◌, ◌++◌, Option, none, some, ◌==◌, if◌then◌else◌, replicate,
}

abbrev pub block_size : ℕ
block_size = 512

abbrev pub max_file_size : ℕ
max_file_size = 1024 * 1024 * 1024

-- `enum open_flags`
abbrev pub ufs_create : ℕ
ufs_create = 1

abbrev pub ufs_read_only : ℕ
ufs_read_only = 2

abbrev pub ufs_write_only : ℕ
ufs_write_only = 4

abbrev pub ufs_read_write : ℕ
ufs_read_write = 8

pub data ErrorCode : Type 0 where
  no_err no_file no_mem not_implemented no_permission : ErrorCode

-- A run of the program: its result, a write or read through a bad pointer, or no end in the fuel given.
pub data Run {ℓ} (A : Type ℓ) : Type ℓ where
  ok : A → Run A
  fault : Run A
  out_of_fuel : Run A

infixl 5 ◌>>=◌
abbrev pub ◌>>=◌ {ℓ κ} : {A : Type ℓ} {B : Type κ} → Run A → (A → Run B) → Run B
ok a >>= f = f a
fault >>= f = fault
out_of_fuel >>= f = out_of_fuel

-- A pointer is followed.
abbrev pub deref {ℓ} : {A : Type ℓ} → Option A → Run A
deref none = fault
deref (some a) = ok a

pub record Block : Type 0 where
  pub id : ℕ
  pub memory : List ℕ
  pub occupied : ℕ

-- The bytes of a new block, which are not read before they are written.
unfoldable pub blank_memory : List ℕ
blank_memory = replicate block_size 0

abbrev pub new_block : ℕ → Block
new_block id = record { id = id; memory = blank_memory; occupied = 0 }

-- `last_block` is the number of a block, or `none` for NULL; `block_list` is the head of `blocks`.
pub record File : Type 0 where
  pub name : List ℕ
  pub blocks : List Block
  pub last_block : Option ℕ
  pub refs : ℕ
  pub deleted : Bool
  pub num_blocks : ℕ

abbrev pub new_file : List ℕ → File
new_file name = record {
  name = name;
  blocks = [];
  last_block = none;
  refs = 0;
  deleted = false;
  num_blocks = 0;
}

pub record Filedesc : Type 0 where
  pub file : ℕ
  pub block_num : ℕ
  pub block_pos : ℕ
  pub rw_flags : ℕ
  pub curr_block : Option ℕ

-- The array of descriptors; `none` is NULL. Its length is `file_descriptor_capacity`.
abbrev pub Descriptors : Type 0
Descriptors = List (Option Filedesc)

-- The global variables and the heap.
pub record Fs : Type 0 where
  pub brk : ℕ
  pub files : ℕ → Option File
  pub file_list : List ℕ
  pub file_descriptors : Descriptors
  pub file_descriptor_count : ℕ
  pub ufs_errcode : ErrorCode

abbrev pub initial : Fs
initial = record {
  brk = 1;
  files = λ _. none;
  file_list = [];
  file_descriptors = [];
  file_descriptor_count = 0;
  ufs_errcode = no_err;
}

-- A call that sets the error code.
abbrev pub with_errcode : ErrorCode → Fs → Fs
with_errcode e s = record s { ufs_errcode = e }

abbrev pub put : (ℕ → Option File) → ℕ → Option File → ℕ → Option File
put files p f q = if q == p then f else files q

abbrev pub store_file : ℕ → File → Fs → Fs
store_file p f s = record s { files = put s.files p (some f) }

abbrev pub free_file : ℕ → Fs → Fs
free_file p s = record s { files = put s.files p none }

-- The block with a number, in a list of blocks.
unfoldable pub find_block : ℕ → List Block → Option Block
find_block p [] = none
find_block p (b ∷ bs) = if b.id == p then some b else find_block p bs

-- The list with the block of that number replaced.
unfoldable pub put_block : ℕ → Block → List Block → List Block
put_block p b [] = []
put_block p b (c ∷ bs) = if c.id == p then b ∷ bs else c ∷ put_block p b bs

abbrev pub head_id : List Block → Option ℕ
head_id [] = none
head_id (b ∷ _) = some b.id

-- `block->next`, of the block with that number.
unfoldable pub next_block : ℕ → List Block → Option ℕ
next_block p [] = none
next_block p (b ∷ bs) = if b.id == p then head_id bs else next_block p bs

-- `increase_file` on a file, where `malloc` returns `id`.
unfoldable pub increase_file : ℕ → File → File
increase_file id f = record f {
  blocks = f.blocks ++ new_block id ∷ [];
  last_block = some id;
  num_blocks = f.num_blocks + 1;
}

-- `unlink_file`: the file's links are taken out of the list.
unfoldable pub unlink_file : ℕ → List ℕ → List ℕ
unlink_file p [] = []
unlink_file p (q ∷ l) = if q == p then l else q ∷ unlink_file p l

unfoldable pub insert_file : ℕ → Fs → Fs
insert_file p s = record s { file_list = p ∷ s.file_list }
