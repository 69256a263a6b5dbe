-- ===== src/Userfs/Invariant/Closing.antt =====
-- 3/userfs.c: what `ufs_close` and `ufs_delete` keep true of the whole state.
use sysproghw.Base.{
  ℕ, zero, suc, ◌-◌, ◌<◌, ◌≡◌, ◌≢◌, refl, ◌∙◌, inl, inr, true, ◌&&◌, List, [], ◌∷◌, Option, none,
  some, ◌==◌, if◌then◌else◌, set, arith, Bool-cases, Option-cases, ◌⊎◌,
}
use sysproghw.Base.Int.{ℤ, pos, negsuc, minus_one}
use sysproghw.Userfs.State.{
  no_err, no_file, ok, ◌>>=◌, File, Filedesc, Fs, store_file, free_file, put, unlink_file,
  with_errcode,
}
use sysproghw.Userfs.Table.{slot, ufs_get_fd, release_file, delete_fd}
use sysproghw.Userfs.Table.Slots.{
  refs_to, refs_to-set-none, used-set-none, slot-set_self, lt_of_slot,
}
use sysproghw.Userfs.Calls.{find_file, ufs_close, ufs_delete}
use sysproghw.Userfs.Calls.{ufs_write, ufs_read}
use sysproghw.Userfs.Calls.Resize.{ufs_resize}
use sysproghw.Userfs.Calls.Read.{closed_fd_errors}
use sysproghw.Userfs.Invariant.{
  occurrences, IsKept, IsConsistent, IsFound, EndsConsistent, same_or_not, put_self, put_ne,
  IsKept-some, IsKept-none, listed-live, with_errcode-IsConsistent, find_file-IsFound,
}

pub get_fd-cases :
    (fd : ℤ) (s : Fs)
    → (ufs_get_fd fd s ≡ none)
      ⊎ ((i : ℕ) × (d : Filedesc) × (ufs_get_fd fd s ≡ some (i, d))
          × (slot s.file_descriptors i ≡ some d))
unfolding ufs_get_fd
get_fd-cases (negsuc n) s = inl refl
get_fd-cases (pos zero) s = inl refl
get_fd-cases (pos (suc i)) s = elim (Option-cases (slot s.file_descriptors i)) [
  | inl e ↦ inl (rw e)
  | inr (d, e) ↦ inr (i, d, rw e refl, e)
]

-- A descriptor's file is there, and it counts the descriptor.
live_of_slot :
    (s : Fs) (i : ℕ) (d : Filedesc)
    → IsConsistent s
    → slot s.file_descriptors i ≡ some d
    → (f : File) × (s.files d.file ≡ some f)
      × (f.refs ≡ suc (refs_to d.file (set s.file_descriptors i none)))
live_of_slot s i d c e =
    let one : refs_to d.file s.file_descriptors
        ≡ suc (refs_to d.file (set s.file_descriptors i none)) =
      ground (arith, refs_to-set-none d.file s.file_descriptors i d e) in
    elim (Option-cases (s.files d.file)) [
      | inl gone ↦ (let (z, _) = IsKept-none s d.file c gone in absurd (omega arith))
      | inr (f, is) ↦ (let (r, _, _) = IsKept-some s d.file f c is in (f, is, omega arith))
    ]

-- A place of the array is given up, and the file there becomes `o`.
closed_fd : Fs → ℕ → ℕ → Option File → Fs
closed_fd s i p o = record s {
  files = put s.files p o;
  file_descriptors = set s.file_descriptors i none;
  file_descriptor_count = s.file_descriptor_count - 1;
}

closed_fd-IsConsistent :
    (s : Fs) (i : ℕ) (d : Filedesc) (f : File) (o : Option File)
    → IsConsistent s
    → slot s.file_descriptors i ≡ some d
    → s.files d.file ≡ some f
    → IsKept o (refs_to d.file (set s.file_descriptors i none)) (occurrences d.file s.file_list)
    → IsConsistent (closed_fd s i d.file o)
unfolding closed_fd
closed_fd-IsConsistent s i d f o c e is h = record {
  counted = omega (arith, used-set-none s.file_descriptors i d e, c.counted);
  fresh = λ q le. elim (same_or_not q d.file) [
    | inl same ↦ (let gone : s.files d.file ≡ none = c.fresh d.file (omega arith) in cc)
    | inr ne ↦ put_ne s.files d.file o q ne ∙ c.fresh q le
  ];
  kept = λ q. elim (same_or_not q d.file) [
    | inl same ↦ rw (same, put_self s.files d.file o) h
    | inr ne ↦
        let same_refs : refs_to q (set s.file_descriptors i none) ≡ refs_to q s.file_descriptors =
          ground (arith, refs_to-set-none q s.file_descriptors i d e) in
        rw (put_ne s.files d.file o q ne, same_refs) (c.kept q)
  ];
}

-- `delete_fd` frees the file with its last descriptor if it was deleted, and else counts one less.
delete_fd-IsConsistent :
    (s : Fs) (i : ℕ) (d : Filedesc)
    → IsConsistent s
    → slot s.file_descriptors i ≡ some d
    → (s' : Fs) × (delete_fd i s ≡ ok s')
      × IsConsistent s'
      × (s'.file_descriptors ≡ set s.file_descriptors i none)
unfolding delete_fd release_file closed_fd
delete_fd-IsConsistent s i d c e =
    let (f, is, r) = live_of_slot s i d c e in
    let (_, listed, held) = IsKept-some s d.file f c is in
    elim (Bool-cases (f.refs == 1 && f.deleted)) [
      | inl last ↦
          rw (e, is, last)
            (_, refl, closed_fd-IsConsistent s i d f none c e is (ground arith, ground arith), refl)
      | inr more ↦
          rw (e, is, more)
            (
              _,
              refl,
              closed_fd-IsConsistent s i d f (some (record f { refs = f.refs - 1 })) c e is
                  (ground arith, listed, λ del. ground arith),
              refl,
            )
    ]

-- Whatever `ufs_close` is asked, on a consistent state it ends without a fault, and what it leaves
-- is consistent; so a deleted file does not outlive its last descriptor.
pub ufs_close-IsConsistent : (fd : ℤ) (s : Fs) → IsConsistent s → EndsConsistent (ufs_close fd s)
unfolding ufs_close
ufs_close-IsConsistent fd s c = elim (get_fd-cases fd s) [
  | inl e ↦ rw (ufs_close, e) (_, refl, with_errcode-IsConsistent s no_file c)
  | inr (i, d, e, there) ↦
      (let (s', e', c', _) = delete_fd-IsConsistent s i d c there in
        rw (ufs_close, e, e') (_, refl, with_errcode-IsConsistent s' no_err c'))
]

-- What a call that is made in this state finds at a descriptor that is not open.
abbrev pub IsClosed : ℤ → Fs → Type 0
IsClosed fd s =
    (fuel : ℕ) (buf : List ℕ) (size : ℕ)
    → (ufs_write fuel fd buf size s ≡ ok (minus_one, with_errcode no_file s))
      × (ufs_read fuel fd size s ≡ ok (minus_one, [], with_errcode no_file s))
      × (ufs_close fd s ≡ ok (minus_one, with_errcode no_file s))
      × (ufs_resize fd size s ≡ ok (minus_one, with_errcode no_file s))

-- On a consistent state `ufs_close` of an open descriptor returns 0, and leaves a consistent state in
-- which `ufs_write`, `ufs_read`, `ufs_close` and `ufs_resize`, given this descriptor, return -1 with the
-- error that no such file is there and change nothing else.
pub ufs_close-IsClosed :
    (i : ℕ) (d : Filedesc) (s : Fs)
    → IsConsistent s
    → slot s.file_descriptors i ≡ some d
    → (s' : Fs) × (ufs_close (pos (suc i)) s ≡ ok (pos 0, s'))
      × IsConsistent s'
      × IsClosed (pos (suc i)) s'
unfolding ufs_close ufs_get_fd
ufs_close-IsClosed i d s c there =
    let (s', e', c', now) = delete_fd-IsConsistent s i d c there in
    let shut : ufs_get_fd (pos (suc i)) (with_errcode no_err s') ≡ none =
      rw (now, slot-set_self s.file_descriptors i none (lt_of_slot s.file_descriptors i there))
        refl in
    (
      with_errcode no_err s',
      rw (ufs_close, there, ◌>>=◌, e') refl,
      with_errcode-IsConsistent s' no_err c',
      λ fuel buf size. closed_fd_errors fuel (pos (suc i)) buf size (with_errcode no_err s') shut,
    )

unlink_self :
    (p : ℕ) (l : List ℕ)
    → 0 < occurrences p l
    → occurrences p l ≡ suc (occurrences p (unlink_file p l))
unfolding unlink_file
unlink_self p [] h = elim h [ ]
unlink_self p (q ∷ l) h = elim (Bool-cases (q == p)) [
  | inl hit ↦ rw hit (omega arith)
  | inr miss ↦
      let less : 0 < occurrences p l = ground arith in
      rw miss (ground (arith, unlink_self p l less))
]

unlink_ne : (p q : ℕ) (l : List ℕ) → q ≢ p → occurrences q (unlink_file p l) ≡ occurrences q l
unfolding unlink_file
unlink_ne p q [] ne = refl
unlink_ne p q (r ∷ l) ne = elim (Bool-cases (r == p)) [
  | inl hit ↦ rw hit (ground arith)
  | inr miss ↦ rw miss (omega (arith, unlink_ne p q l ne))
]

-- A file leaves the list and becomes `o`.
unlisted : Fs → ℕ → Option File → Fs
unlisted s p o = record s { files = put s.files p o; file_list = unlink_file p s.file_list }

unlisted-IsConsistent :
    (s : Fs) (p : ℕ) (f : File) (o : Option File)
    → IsConsistent s
    → s.files p ≡ some f
    → IsKept o (refs_to p s.file_descriptors) (occurrences p (unlink_file p s.file_list))
    → IsConsistent (unlisted s p o)
unfolding unlisted
unlisted-IsConsistent s p f o c is h = record {
  counted = c.counted;
  fresh = λ q le. elim (same_or_not q p) [
    | inl same ↦ (let gone : s.files p ≡ none = c.fresh p (omega arith) in cc)
    | inr ne ↦ put_ne s.files p o q ne ∙ c.fresh q le
  ];
  kept = λ q. elim (same_or_not q p) [
    | inl same ↦ rw (same, put_self s.files p o) h
    | inr ne ↦ rw (put_ne s.files p o q ne, unlink_ne p q s.file_list ne) (c.kept q)
  ];
}

-- The file that is found leaves the list. Without a descriptor it is freed, else it is marked.
delete_found :
    (s : Fs) (p : ℕ) (f : File)
    → IsConsistent s
    → s.files p ≡ some f
    → 0 < occurrences p s.file_list
    → IsConsistent (
        with_errcode no_err (
          let t = record s { file_list = unlink_file p s.file_list } in
          if f.refs == 0 then free_file p t else store_file p (record f { deleted = true }) t))
unfolding unlisted
delete_found s p f c is m =
    let (refs, listed, held) = IsKept-some s p f c is in
    let out : occurrences p (unlink_file p s.file_list) ≡ 0 =
      ground (arith, unlink_self p s.file_list m) in
    elim (Bool-cases (f.refs == 0)) [
      | inl last ↦ rw last (
          with_errcode-IsConsistent _ no_err
            (unlisted-IsConsistent s p f none c is (ground arith, out)))
      | inr more ↦ rw more (
          with_errcode-IsConsistent _ no_err (
            unlisted-IsConsistent s p f (some (record f { deleted = true })) c is
              (refs, out, λ _. ground arith)))
    ]

-- Whatever `ufs_delete` is asked, on a consistent state it ends without a fault, and what it
-- leaves is consistent; so a deleted file is out of the list and lives on only if a descriptor is
-- open on it.
pub ufs_delete-IsConsistent :
    (filename : List ℕ) (s : Fs) → IsConsistent s → EndsConsistent (ufs_delete filename s)
unfolding ufs_delete
ufs_delete-IsConsistent filename s c =
    let (found, e, h) = find_file-IsFound s.files s.file_list filename (listed-live s c) in
    ends found e h
  where
    ends :
        (o : Option (ℕ × File))
        → find_file s.files s.file_list filename ≡ ok o
        → IsFound s.files s.file_list o
        → EndsConsistent (ufs_delete filename s)
    ends none e h = rw (ufs_delete, e) (_, refl, with_errcode-IsConsistent s no_file c)
    ends (some (p, f)) e (is, m) = rw (ufs_delete, e) (_, refl, delete_found s p f c is m)
