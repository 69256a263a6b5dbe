-- ===== src/Userfs/Tests.antt =====
-- 3/userfs.c: runs of the calls, at concrete states.
use sysproghw.Base.{
  ℕ, ◌+◌, ◌≡◌, refl, inl, false, true, List, [], ◌∷◌, none, some, take, length, length-replicate,
  arith,
}
use sysproghw.Base.Int.{pos}
use sysproghw.Userfs.State.{
  Run, ok, out_of_fuel, no_err, no_file, unlink_file, fault, Block, blank_memory, File, Fs,
  with_errcode, put, new_file, initial, find_block, insert_file,
}
use sysproghw.Userfs.Table.{
  slot, make_room, grow_table, free_slot, insert_fd, ufs_get_fd, delete_fd, release_file,
}
use sysproghw.Userfs.Transfer.{Cursor, Reading, start_write, start_read}
use sysproghw.Userfs.Transfer.Chunks.{IsWritten}
use sysproghw.Userfs.Transfer.Shapes.{IsFile, contents, IsInLast}
use sysproghw.Userfs.Transfer.Stuck.{IsStuck}
use sysproghw.Userfs.Calls.{
  curr_size, errcode_after, new_fd, commit, open_fd, descriptor_flags, ufs_open, ufs_write,
  ufs_read, ufs_close, ufs_delete, find_file, name_eq,
}
use sysproghw.Userfs.Calls.Resize.{ufs_resize}
use sysproghw.Userfs.Calls.Write.{ComesToLoop, start, ufs_write-IsWritten, ufs_write-IsStuck}
use sysproghw.Userfs.Calls.RoundTrip.{Paired, ufs_read-ufs_write}
use sysproghw.Userfs.Calls.Shrinking.{ufs_resize-take}
use sysproghw.Userfs.Calls.Read.{ReadsFrom, ufs_read-HasRead, ufs_resize-zero_fault}
use sysproghw.Userfs.Transfer.Scanning.{HasRead}
use sysproghw.Userfs.Transfer.Reaching.{IsReading, ahead}
use sysproghw.Userfs.Calls.Resize.{old_size}
use sysproghw.Userfs.Invariant.{IsConsistent, initial-IsConsistent, open_new}
use sysproghw.Userfs.Invariant.Sessions.{
  Call, opens, closes, deletes, reads, session, IsSound, session-IsSound,
}
use sysproghw.Userfs.Invariant.Opening.{OpensOrRefuses, ufs_open-HasOpened}
use sysproghw.Userfs.Invariant.Closing.{IsClosed, ufs_close-IsClosed}

ufs_open-HasOpened_example : OpensOrRefuses (b'a' ∷ []) 1 initial
ufs_open-HasOpened_example = ufs_open-HasOpened (b'a' ∷ []) 1 initial initial-IsConsistent

-- One file, `a`, and one descriptor on it.
abbrev opened_a : Fs
opened_a =
    (open_fd initial.brk (new_file (b'a' ∷ [])) (descriptor_flags 1)
      (with_errcode no_err (insert_file initial.brk (record initial { brk = initial.brk + 1 })))).1

opened_a-IsConsistent : IsConsistent opened_a
opened_a-IsConsistent = open_new initial (b'a' ∷ []) (descriptor_flags 1) initial-IsConsistent

-- A file is created, opened again, deleted and closed once; it lives on behind the other descriptor.
abbrev some_calls : List Call
some_calls =
    opens (b'a' ∷ []) 1
    ∷ opens (b'a' ∷ []) 2
    ∷ deletes (b'a' ∷ [])
    ∷ closes (pos 1)
    ∷ reads 1 (pos 2) 3
    ∷ opens (b'a' ∷ []) 8
    ∷ []

abbrev state_of : Run Fs → Fs
state_of (ok s) = s
state_of _ = initial

session-IsSound_example : IsSound (state_of (session some_calls initial))
unfolding ufs_open ufs_read ufs_close ufs_delete open_fd insert_fd make_room grow_table free_slot
    ufs_get_fd delete_fd release_file find_file name_eq descriptor_flags insert_file unlink_file
    start_read
session-IsSound_example = session-IsSound some_calls (state_of (session some_calls initial)) refl

-- After these calls the file is there with one descriptor, and the last call was refused.
session_outcome :
    ((state_of (session some_calls initial)).files 1
      ≡ some (record (new_file (b'a' ∷ [])) { refs = 1; deleted = true }))
    × ((state_of (session some_calls initial)).ufs_errcode ≡ no_file)
unfolding ufs_open ufs_read ufs_close ufs_delete open_fd insert_fd make_room grow_table free_slot
    ufs_get_fd delete_fd release_file find_file name_eq descriptor_flags insert_file unlink_file
    start_read
session_outcome = (refl, refl)

-- A file of one block that holds `occupied` bytes, and a new descriptor on it.
abbrev one_block : ℕ → Block
one_block occupied = record { id = 2; memory = blank_memory; occupied = occupied }

abbrev one_file : ℕ → File
one_file occupied = record {
  name = b'a' ∷ [];
  blocks = one_block occupied ∷ [];
  last_block = some 2;
  refs = 1;
  deleted = false;
  num_blocks = 1;
}

abbrev holding : ℕ → Fs
holding occupied = record {
  brk = 3;
  files = put (λ _. none) 1 (some (one_file occupied));
  file_list = 1 ∷ [];
  file_descriptors = some (new_fd 1 8) ∷ none ∷ [];
  file_descriptor_count = 1;
  ufs_errcode = no_err;
}

comes_to_loop :
    (occupied : ℕ) → ComesToLoop (pos 1) 3 (holding occupied) 0 (new_fd 1 8) (one_file occupied)
unfolding ufs_get_fd curr_size
comes_to_loop occupied = record {
  opened = refl;
  may_write = refl;
  small = omega arith;
  there = refl;
}

starts-IsInLast : IsInLast (start (holding 2) (new_fd 1 8) (one_file 2)) [] (one_block 2)
unfolding start_write blank_memory
starts-IsInLast = record {
  blocks = refl;
  curr = refl;
  below = tt;
  fresh = omega arith;
  memory = length-replicate {A = ℕ} 512 0;
  held = omega arith;
  at = omega arith;
  room = inl (omega arith);
}

ufs_write-IsWritten_example :
    (c : Cursor) × (before : List Block) × (b : Block) × (ufs_write 4
        (pos 1)
        (7 ∷ 8 ∷ 9 ∷ [])
        3
        (holding 2)
      ≡ ok (pos 3, with_errcode no_err (commit 0 c (holding 2))))
    × IsInLast c before b
    × IsWritten (start (holding 2) (new_fd 1 8) (one_file 2)) [] c before (7 ∷ 8 ∷ 9 ∷ [])
ufs_write-IsWritten_example =
    ufs_write-IsWritten 4 (pos 1) (7 ∷ 8 ∷ 9 ∷ []) 3 (holding 2) 0 (new_fd 1 8) (one_file 2)
      (comes_to_loop 2) [] (one_block 2) starts-IsInLast (omega arith) (omega arith)

starts-IsStuck : IsStuck (start (holding 512) (new_fd 1 8) (one_file 512))
unfolding start_write blank_memory find_block
starts-IsStuck = record {
  block = one_block 512;
  curr = refl;
  there = refl;
  memory = length-replicate {A = ℕ} 512 0;
  full = refl;
  inside = omega arith;
}

ufs_write-IsStuck_example : ufs_write 9 (pos 1) (7 ∷ 8 ∷ 9 ∷ []) 3 (holding 512) ≡ out_of_fuel
ufs_write-IsStuck_example =
    ufs_write-IsStuck 9 (pos 1) (7 ∷ 8 ∷ 9 ∷ []) 3 (holding 512) 0 (new_fd 1 8) (one_file 512)
      (comes_to_loop 512) starts-IsStuck (omega arith)

slot_a : slot opened_a.file_descriptors 0 ≡ some (new_fd 1 8)
unfolding open_fd insert_fd make_room grow_table free_slot insert_file descriptor_flags
slot_a = refl

ufs_close-IsClosed_example :
    (s : Fs) × (ufs_close (pos 1) opened_a ≡ ok (pos 0, s)) × IsConsistent s × IsClosed (pos 1) s
ufs_close-IsClosed_example = ufs_close-IsClosed 0 (new_fd 1 8) opened_a opened_a-IsConsistent slot_a

-- Where `ufs_read` starts on that file.
abbrev reading_from : Cursor
reading_from = record {
  brk = 3;
  file = one_file 5;
  desc = record { file = 1; block_num = 1; block_pos = 0; rw_flags = 8; curr_block = some 2 };
}

reads_from : ReadsFrom (pos 1) (holding 5) 0 (new_fd 1 8) (one_file 5) reading_from
unfolding ufs_get_fd start_read
reads_from = record { opened = refl; may_read = refl; there = refl; starts = refl }

is_reading : IsReading reading_from [] (one_block 5) []
unfolding blank_memory
is_reading = record {
  blocks = refl;
  curr = refl;
  below = tt;
  tail = (length-replicate {A = ℕ} 512 0, omega arith);
  at = omega arith;
}

ufs_read-HasRead_example :
    (r : Reading) × (ufs_read 10 (pos 1) 3 (holding 5)
      ≡ ok (
        pos (length (take 3 (ahead reading_from (one_block 5) []))),
        take 3 (ahead reading_from (one_block 5) []),
        errcode_after r.end (commit 0 r.cursor (holding 5)),
      ))
    × HasRead reading_from (one_block 5) [] [] 3 r
ufs_read-HasRead_example =
    ufs_read-HasRead 10 (pos 1) 3 (holding 5) 0 (new_fd 1 8) (one_file 5) reading_from []
      (one_block 5) [] reads_from is_reading (omega arith)

ufs_resize-zero_fault_example : ufs_resize (pos 1) 0 (holding 5) ≡ fault
unfolding ufs_get_fd old_size find_block
ufs_resize-zero_fault_example =
    ufs_resize-zero_fault (pos 1) (holding 5) 0 (new_fd 1 8) (one_file 5) 5 refl refl refl
      (omega arith)

-- One file without blocks, and two new descriptors on it.
abbrev paired_state : Fs
paired_state = record {
  brk = 2;
  files = put (λ _. none) 1 (some (new_file (b'a' ∷ [])));
  file_list = 1 ∷ [];
  file_descriptors = some (new_fd 1 4) ∷ some (new_fd 1 2) ∷ [];
  file_descriptor_count = 2;
  ufs_errcode = no_err;
}

paired : Paired paired_state 0 1 1 4 2 (new_file (b'a' ∷ []))
paired = record {
  writer = refl;
  reader = refl;
  differ = λ e. omega arith;
  may_write = refl;
  may_read = refl;
  there = refl;
}

ufs_read-ufs_write_example :
    (s₁ s₂ : Fs) × (ufs_write 4 (pos 1) (7 ∷ 8 ∷ 9 ∷ []) 3 paired_state ≡ ok (pos 3, s₁))
    × (ufs_read 3 (pos 2) 2 s₁ ≡ ok (pos 2, 7 ∷ 8 ∷ [], s₂))
ufs_read-ufs_write_example =
    ufs_read-ufs_write paired_state 0 1 1 4 2 (new_file (b'a' ∷ [])) paired 4 3 (7 ∷ 8 ∷ 9 ∷ []) 3 2
      (omega arith) (omega arith) (omega arith) (omega arith)

one_file-IsFile : IsFile (one_file 5).blocks
unfolding blank_memory
one_file-IsFile = (length-replicate {A = ℕ} 512 0, omega arith)

one_file_size : old_size (one_file 5) ≡ ok (length (contents (one_file 5).blocks))
unfolding old_size find_block blank_memory
one_file_size = refl

five_bytes : length (contents (one_file 5).blocks) ≡ 5
unfolding blank_memory
five_bytes = refl

ufs_resize-take_example :
    (f : File) × (s : Fs) × (ufs_resize (pos 1) 3 (holding 5) ≡ ok (pos 0, s))
    × (s.files 1 ≡ some f)
    × (contents f.blocks ≡ take 3 (contents (one_file 5).blocks))
unfolding ufs_get_fd
ufs_resize-take_example =
    ufs_resize-take (pos 1) (holding 5) 0 (new_fd 1 8) (one_file 5) 3 refl refl one_file-IsFile
      one_file_size (omega arith) (omega (arith, five_bytes)) (omega arith)
