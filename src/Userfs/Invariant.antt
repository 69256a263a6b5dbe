-- ===== src/Userfs/Invariant.antt =====
-- 3/userfs.c: what the calls that open, close and delete keep true of the whole state.
pub mod Closing
pub mod Frames
pub mod Transfers
pub mod Sessions
pub mod Opening
use sysproghw.Base.{
  ℕ, zero, suc, ◌+◌, ◌-◌, ◌*◌, ◌<◌, ◌≤◌, ◌≡◌, ◌≢◌, refl, ◌∙◌, ap, sym, inl, inr, Bool, true, false,
  not, ◌&&◌, List, [], ◌∷◌, ◌++◌, Option, none, some, ◌==◌, leb, ltb, if◌then◌else◌, length, set,
  arith, Bool-cases, Option-cases, ◌⊎◌,
}
use Prim.Native.Nat.{bit_and}
use sysproghw.Base.Int.{ℤ, pos, negsuc, minus_one}
use sysproghw.Userfs.State.{
  ErrorCode, no_err, no_file, Run, ok, fault, ◌>>=◌, deref, File, Filedesc, Descriptors, Fs,
  store_file, free_file, put, initial, unlink_file, insert_file, with_errcode, new_file, ufs_create,
}
use sysproghw.Userfs.Table.{slot, insert_fd, ufs_get_fd, release_file, delete_fd}
use sysproghw.Userfs.Table.Slots.{
  used, IsCounted, refs_to, IsInserted, insert_fd-IsInserted, refs_to-set-none, used-set-none,
}
use sysproghw.Userfs.Calls.{
  name_eq, find_file, descriptor_flags, new_fd, fd_of, open_fd, ufs_open, ufs_close, ufs_delete,
}

-- How often a file stands in the list of files.
abbrev pub occurrences : ℕ → List ℕ → ℕ
occurrences p [] = 0
occurrences p (q ∷ l) = (if q == p then 1 else 0) + occurrences p l

-- What is true of one number, by the object there, the descriptors open on it, and how often it stands
-- in the list of files. A file that was freed has no descriptor and is not in the list. A live file
-- counts its descriptors; it is in the list once if it was not deleted, and if it was deleted it is
-- not in the list and has a descriptor.
abbrev pub IsKept : Option File → ℕ → ℕ → Type 0
IsKept none refs listed = (refs ≡ 0) × (listed ≡ 0)
IsKept (some f) refs listed =
    (f.refs ≡ refs) × (listed ≡ (if f.deleted then 0 else 1)) × (f.deleted ≡ true → 0 < refs)

pub record IsConsistent (s : Fs) : Type 0 where
  pub counted : IsCounted s
  pub fresh : (p : ℕ) → s.brk ≤ p → s.files p ≡ none
  pub kept : (p : ℕ) → IsKept (s.files p) (refs_to p s.file_descriptors) (occurrences p s.file_list)

pub initial-IsConsistent : IsConsistent initial
initial-IsConsistent = record { counted = refl; fresh = λ p h. refl; kept = λ p. (refl, refl) }

-- What a search may find in a list.
abbrev pub IsFound : (ℕ → Option File) → List ℕ → Option (ℕ × File) → Type 0
IsFound files l none = Unit
IsFound files l (some (p, f)) = (files p ≡ some f) × (0 < occurrences p l)

IsFound-cons :
    (files : ℕ → Option File) (q : ℕ) (l : List ℕ) (o : Option (ℕ × File))
    → IsFound files l o
    → IsFound files (q ∷ l) o
IsFound-cons files q l none h = tt
IsFound-cons files q l (some (p, f)) (is, m) = (is, omega (arith, m))

-- A search of a list of live files ends, and finds a file of the list.
pub find_file-IsFound :
    (files : ℕ → Option File) (l : List ℕ) (name : List ℕ)
    → ((q : ℕ) → 0 < occurrences q l → files q ≢ none)
    → (o : Option (ℕ × File)) × (find_file files l name ≡ ok o) × IsFound files l o
unfolding find_file
find_file-IsFound files [] name live = (none, refl, tt)
find_file-IsFound files (q ∷ l) name live = elim (Option-cases (files q)) [
  | inl gone ↦ absurd (live q (ground arith) gone)
  | inr (g, is) ↦ elim (Bool-cases (name_eq g.name name)) [
    | inl hit ↦ (some (q, g), rw (is, hit) refl, (is, ground arith))
    | inr miss ↦
        let (o, e, found) = find_file-IsFound files l name (λ r m. live r (omega (arith, m))) in
        (o, rw (is, miss) e, IsFound-cons files q l o found)
  ]
]

pub same_or_not : (q p : ℕ) → (q ≡ p) ⊎ (q ≢ p)
same_or_not q p = elim (Bool-cases (q == p)) [
  | inl h ↦ inl (ground arith)
  | inr h ↦ inr (λ e. ground arith)
]

pub put_self : (files : ℕ → Option File) (p : ℕ) (o : Option File) → put files p o p ≡ o
put_self files p o = ground arith

pub put_ne :
    (files : ℕ → Option File) (p : ℕ) (o : Option File) (q : ℕ) → q ≢ p → put files p o q ≡ files q
put_ne files p o q h = ground arith

-- The descriptors but for those on `p`, when a file is opened or closed there.
open_fd-IsConsistent :
    (p : ℕ) (f : File) (flags : ℕ) (s : Fs)
    → IsCounted s
    → ((q : ℕ) → s.brk ≤ q → s.files q ≡ none)
    → p < s.brk
    → f.refs ≡ refs_to p s.file_descriptors
    → occurrences p s.file_list ≡ (if f.deleted then 0 else 1)
    → ((q : ℕ)
        → q ≢ p
        → IsKept (s.files q) (refs_to q s.file_descriptors) (occurrences q s.file_list))
    → IsConsistent (open_fd p f flags s).1
unfolding open_fd
open_fd-IsConsistent p f flags s counted fresh lt refs listed others =
    let t = store_file p (record f { refs = f.refs + 1 }) s in
    let r = insert_fd-IsInserted (new_fd p flags) t counted in
    record {
      counted = r.counted;
      fresh = λ q h. rw r.same_files (
          put_ne s.files p _ q (λ e. omega (arith, r.same_brk))
          ∙ fresh q (omega (arith, r.same_brk)));
      kept = λ q. elim (same_or_not q p) [
        | inl e ↦
            let more : f.refs + 1 ≡ refs_to p s.file_descriptors + (if p == p then 1 else 0) =
              ground arith in
            rw
              (
                e,
                r.same_files,
                r.same_list,
                r.refs p,
                put_self s.files p (some (record f { refs = f.refs + 1 })),
              )
              (more, listed, λ h. ground arith)
        | inr ne ↦
            let none_more : refs_to q s.file_descriptors + (if p == q then 1 else 0)
                ≡ refs_to q s.file_descriptors =
              ground arith in
            rw
              (
                r.same_files,
                r.same_list,
                r.refs q,
                put_ne s.files p (some (record f { refs = f.refs + 1 })) q ne,
                none_more,
              )
              (others q ne)
      ];
    }

pub IsKept-some :
    (s : Fs) (p : ℕ) (f : File)
    → IsConsistent s
    → s.files p ≡ some f
    → IsKept (some f) (refs_to p s.file_descriptors) (occurrences p s.file_list)
IsKept-some s p f c e = rw e at (c.kept p)

pub IsKept-none :
    (s : Fs) (p : ℕ)
    → IsConsistent s
    → s.files p ≡ none
    → IsKept none (refs_to p s.file_descriptors) (occurrences p s.file_list)
IsKept-none s p c e = rw e at (c.kept p)

pub listed-live :
    (s : Fs) → IsConsistent s → (p : ℕ) → 0 < occurrences p s.file_list → s.files p ≢ none
listed-live s c p m e = let (_, z) = IsKept-none s p c e in omega (arith, z)

listed-below : (s : Fs) → IsConsistent s → (p : ℕ) → 0 < occurrences p s.file_list → p < s.brk
listed-below s c p m = elim (Bool-cases (leb s.brk p)) [
  | inl h ↦ absurd (listed-live s c p m (c.fresh p (ground arith)))
  | inr h ↦ ground arith
]

pub with_errcode-IsConsistent :
    (s : Fs) (e : ErrorCode) → IsConsistent s → IsConsistent (with_errcode e s)
with_errcode-IsConsistent s e c = record { counted = c.counted; fresh = c.fresh; kept = c.kept }

-- The file that is found gets one more descriptor.
open_found :
    (s : Fs) (p : ℕ) (f : File) (flags : ℕ)
    → IsConsistent s
    → s.files p ≡ some f
    → 0 < occurrences p s.file_list
    → IsConsistent (open_fd p f flags s).1
open_found s p f flags c e m =
    let (refs, listed, held) = IsKept-some s p f c e in
    open_fd-IsConsistent p f flags s c.counted c.fresh (listed-below s c p m) refs listed
      (λ q _. c.kept q)

-- The file that is created is a new object.
pub open_new :
    (s : Fs) (name : List ℕ) (flags : ℕ)
    → IsConsistent s
    → IsConsistent
        (open_fd s.brk
          (new_file name)
          flags
          (with_errcode no_err (insert_file s.brk (record s { brk = s.brk + 1 })))).1
unfolding insert_file
open_new s name flags c =
    let (refs, listed) = IsKept-none s s.brk c (c.fresh s.brk (omega arith)) in
    open_fd-IsConsistent s.brk (new_file name) flags
      (with_errcode no_err (insert_file s.brk (record s { brk = s.brk + 1 }))) c.counted
      (λ q h. c.fresh q (omega arith)) (omega arith) (sym refs) (ground arith)
      (λ q ne.
        let same : (if s.brk == q then 1 else 0) + occurrences q s.file_list
            ≡ occurrences q s.file_list =
          ground arith in
        rw same (c.kept q))

-- The call ends without a fault, in a consistent state.
abbrev pub EndsConsistent : Run (ℤ × Fs) → Type 0
EndsConsistent r = (o : ℤ × Fs) × (r ≡ ok o) × IsConsistent o.1

-- Whatever `ufs_open` is asked, on a consistent state it ends without a fault, and what it leaves
-- is consistent: the counters count the descriptors and the references to each file, the live
-- files that were not deleted are those in the list, each once, and a deleted file lives only
-- while a descriptor is open on it.
pub ufs_open-IsConsistent :
    (filename : List ℕ) (flags : ℕ) (s : Fs)
    → IsConsistent s
    → EndsConsistent (ufs_open filename flags s)
unfolding ufs_open
ufs_open-IsConsistent filename flags s c =
    let (found, e, h) = find_file-IsFound s.files s.file_list filename (listed-live s c) in
    ends found e h
  where
    ends :
        (o : Option (ℕ × File))
        → find_file s.files s.file_list filename ≡ ok o
        → IsFound s.files s.file_list o
        → EndsConsistent (ufs_open filename flags s)
    ends none e h = elim (Bool-cases (bit_and flags ufs_create == 0)) [
      | inl stop ↦ rw (e, stop) (_, refl, with_errcode-IsConsistent s no_file c)
      | inr create ↦ rw (e, create) (_, refl, open_new s filename (descriptor_flags flags) c)
    ]
    ends (some (p, f)) e (is, m) = rw e (
      _,
      refl,
      open_found (with_errcode no_err s) p f (descriptor_flags flags)
          (with_errcode-IsConsistent s no_err c) is m,
    )
