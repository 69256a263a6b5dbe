-- ===== src/Userfs/Table.antt =====
-- 3/userfs.c: `insert_fd`, `delete_fd` and `ufs_get_fd`, the array of descriptors.
pub mod Slots
use sysproghw.Base.{
  ℕ, zero, suc, ◌+◌, ◌-◌, ◌*◌, Bool, true, false, not, ◌&&◌, List, [], ◌∷◌, ◌++◌, Option, none,
  some, ◌==◌, leb, if◌then◌else◌, length, set, replicate, get_elem?, bind,
}
use sysproghw.Base.Int.{ℤ, pos, negsuc}
use sysproghw.Userfs.State.{
  Run, ok, fault, ◌>>=◌, deref, File, Filedesc, Descriptors, Fs, store_file, free_file,
}

-- `file_descriptors[i]`, of an index within the array.
abbrev pub slot : Descriptors → ℕ → Option Filedesc
slot ds i = bind (get_elem? ds i) (λ d. d)

-- The array after `realloc` and the loop that writes NULL to the new places.
unfoldable pub grow_table : Descriptors → Descriptors
grow_table ds = ds ++ replicate ((length ds + 1) * 2 - length ds) none

-- The first place that holds NULL.
unfoldable pub free_slot : Descriptors → Option ℕ
free_slot [] = none
free_slot (none ∷ ds) = some 0
free_slot (some _ ∷ ds) = bind (free_slot ds) (λ i. some (suc i))

-- `if(file_descriptor_count == file_descriptor_capacity)`
unfoldable pub make_room : Fs → Descriptors
make_room s =
    if s.file_descriptor_count == length s.file_descriptors
    then grow_table s.file_descriptors
    else s.file_descriptors

-- The place found by the loop over the array, if any, is taken.
abbrev pub take_slot : Filedesc → Fs → Descriptors → Option ℕ → ℤ × Fs
take_slot d s ds none = (negsuc 0, record s { file_descriptors = ds })
take_slot d s ds (some i) = (
  pos i,
  record s {
    file_descriptors = set ds i (some d);
    file_descriptor_count = s.file_descriptor_count + 1;
  },
)

-- `insert_fd`: the place taken, or -1.
unfoldable pub insert_fd : Filedesc → Fs → ℤ × Fs
insert_fd d s = take_slot d s (make_room s) (free_slot (make_room s))

-- `ufs_get_fd`, with the index of the descriptor.
unfoldable pub ufs_get_fd : ℤ → Fs → Option (ℕ × Filedesc)
ufs_get_fd (negsuc _) s = none
ufs_get_fd (pos zero) s = none
ufs_get_fd (pos (suc i)) s = bind (slot s.file_descriptors i) (λ d. some (i, d))

-- `--file->refs == 0 && file->deleted`: the file goes with its last descriptor.
unfoldable pub release_file : ℕ → File → Fs → Fs
release_file p f s =
    if f.refs == 1 && f.deleted
    then free_file p s
    else store_file p (record f { refs = f.refs - 1 }) s

-- `delete_fd`, at an index within the array.
unfoldable pub delete_fd : ℕ → Fs → Run Fs
delete_fd i s = do
  d ← deref (slot s.file_descriptors i)
  f ← deref (s.files d.file)
  let s' = release_file d.file f s
  ok (record s' {
    file_descriptors = set s'.file_descriptors i none;
    file_descriptor_count = s'.file_descriptor_count - 1;
  })
