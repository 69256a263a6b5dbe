-- ===== src/Userfs/Invariant/Opening.antt =====
-- 3/userfs.c: the descriptor that `ufs_open` returns, and the file that it leads to.
use sysproghw.Base.{
  ℕ, suc, ◌+◌, ◌<◌, ◌≡◌, ◌≢◌, refl, ◌∙◌, ap, inl, inr, true, List, [], ◌∷◌, Option, none, some,
  ◌==◌, arith, Bool-cases, Option-cases, ◌⊎◌,
}
use Prim.Native.Nat.{bit_and}
use sysproghw.Base.Int.{ℤ, pos, minus_one}
use sysproghw.Userfs.State.{
  no_err, no_file, ok, File, Fs, store_file, insert_file, with_errcode, new_file, ufs_create,
}
use sysproghw.Userfs.Table.{ufs_get_fd}
use sysproghw.Userfs.Table.Slots.{IsCounted, insert_fd-IsInserted}
use sysproghw.Userfs.Calls.{name_eq, find_file, descriptor_flags, new_fd, fd_of, open_fd, ufs_open}
use sysproghw.Userfs.Invariant.{IsConsistent, occurrences, same_or_not, put_self, listed-live}

name_eq_refl : (xs : List ℕ) → name_eq xs xs ≡ true
unfolding name_eq
name_eq_refl [] = refl
name_eq_refl (x ∷ xs) =
    let rest = name_eq_refl xs in let same : (x == x) ≡ true = ground arith in rw (same, rest) refl

eq_of_name_eq : (xs ys : List ℕ) → name_eq xs ys ≡ true → xs ≡ ys
unfolding name_eq
eq_of_name_eq [] [] h = refl
eq_of_name_eq [] (y ∷ ys) h = cc
eq_of_name_eq (x ∷ xs) [] h = cc
eq_of_name_eq (x ∷ xs) (y ∷ ys) h = elim (Bool-cases (x == y)) [
  | inl e ↦
      let same : x ≡ y = ground arith in let rest : xs ≡ ys = eq_of_name_eq xs ys (rw e at h) in cc
  | inr e ↦ absurd (let h' = rw e at h in cc)
]

-- In a list of files, what a search for a name has to say of its result: a file of the list that has
-- the name, or none if no file of the list has it.
abbrev IsSearched : (ℕ → Option File) → List ℕ → List ℕ → Option (ℕ × File) → Type 0
IsSearched files l name none =
    (p : ℕ) (f : File) → 0 < occurrences p l → files p ≡ some f → f.name ≢ name
IsSearched files l name (some (p, f)) = (files p ≡ some f) × (0 < occurrences p l) × (f.name ≡ name)

IsSearched-cons :
    (files : ℕ → Option File) (q : ℕ) (l : List ℕ) (name : List ℕ) (g : File)
    (o : Option (ℕ × File))
    → files q ≡ some g
    → g.name ≢ name
    → IsSearched files l name o
    → IsSearched files (q ∷ l) name o
IsSearched-cons files q l name g none is ne h = λ p f m at. elim (same_or_not p q) [
  | inl same ↦ let e : g ≡ f = cc in λ n. ne (ap File.name e ∙ n)
  | inr other ↦ h p f (ground (arith, m)) at
]
IsSearched-cons files q l name g (some (p, f)) is ne (at, m, e) = (at, omega (arith, m), e)

find_file-IsSearched :
    (files : ℕ → Option File) (l : List ℕ) (name : List ℕ)
    → ((q : ℕ) → 0 < occurrences q l → files q ≢ none)
    → (o : Option (ℕ × File)) × (find_file files l name ≡ ok o) × IsSearched files l name o
unfolding find_file
find_file-IsSearched files [] name live = (none, refl, λ p f m. absurd (omega (arith, m)))
find_file-IsSearched files (q ∷ l) name live = elim (Option-cases (files q)) [
  | inl gone ↦ absurd (live q (ground arith) gone)
  | inr (g, is) ↦ elim (Bool-cases (name_eq g.name name)) [
    | inl hit ↦ (some (q, g), rw (is, hit) refl, (is, ground arith, eq_of_name_eq g.name name hit))
    | inr miss ↦
        let ne : g.name ≢ name =
          λ e. (let same = ap (name_eq g.name) e in let self = name_eq_refl g.name in cc) in
        let (o, e, h) = find_file-IsSearched files l name (λ r m. live r (omega (arith, m))) in
        (o, rw (is, miss) e, IsSearched-cons files q l name g o is ne h)
  ]
]

-- In the list of files there is one with this name, at `p`.
abbrev pub IsListed : List ℕ → Fs → ℕ → Type 0
IsListed filename s p =
    (f : File) × (s.files p ≡ some f) × (0 < occurrences p s.file_list) × (f.name ≡ filename)

-- No file of the list has this name.
abbrev pub IsMissing : List ℕ → Fs → Type 0
IsMissing filename s =
    (p : ℕ) (f : File) → 0 < occurrences p s.file_list → s.files p ≡ some f → f.name ≢ filename

-- The call has opened a file with the flags: it returns a descriptor that was not open, which now leads
-- to the start of a listed file with the name, and every other descriptor is as it was. The file was
-- listed with this name before, or none was and the call was to create it.
pub record HasOpened (filename : List ℕ) (flags : ℕ) (s : Fs) (o : ℤ × Fs) : Type 0 where
  pub index : ℕ
  pub file : ℕ
  pub listed : IsListed filename o.1 file
  pub whence : IsListed filename s file ⊎ IsMissing filename s × (bit_and flags ufs_create ≢ 0)
  pub result : o.0 ≡ pos (suc index)
  pub was_closed : ufs_get_fd (pos (suc index)) s ≡ none
  pub now_open :
      ufs_get_fd (pos (suc index)) o.1 ≡ some (index, new_fd file (descriptor_flags flags))
  pub others : (j : ℕ) → index ≢ j → ufs_get_fd (pos (suc j)) o.1 ≡ ufs_get_fd (pos (suc j)) s
  pub cleared : o.1.ufs_errcode ≡ no_err

open_fd-HasOpened :
    (p : ℕ) (f : File) (filename : List ℕ) (flags : ℕ) (s t : Fs)
    → t.file_descriptors ≡ s.file_descriptors
    → IsCounted t
    → t.ufs_errcode ≡ no_err
    → f.name ≡ filename
    → 0 < occurrences p t.file_list
    → IsListed filename s p ⊎ IsMissing filename s × (bit_and flags ufs_create ≢ 0)
    → HasOpened filename flags s (open_fd p f (descriptor_flags flags) t)
unfolding open_fd ufs_get_fd
open_fd-HasOpened p f filename flags s t same c no_error named member whence =
    let counted_file : File = record f { refs = f.refs + 1 } in
    let r =
      insert_fd-IsInserted (new_fd p (descriptor_flags flags)) (store_file p counted_file t) c in
    record {
      index = r.index;
      file = p;
      listed = (
        counted_file,
        ap (λ files. files p) r.same_files ∙ put_self t.files p (some counted_file),
        rw r.same_list member,
        named,
      );
      whence = whence;
      result = ap fd_of r.result;
      was_closed = rw (← same, r.was_free) refl;
      now_open = rw r.taken refl;
      others = λ j ne. rw (r.others j ne, same) refl;
      cleared = r.same_errcode ∙ no_error;
    }

-- The call ends, and either it refuses or it has opened a file.
abbrev pub OpensOrRefuses : List ℕ → ℕ → Fs → Type 0
OpensOrRefuses filename flags s =
    (o : ℤ × Fs) × (ufs_open filename flags s ≡ ok o)
    × ((o ≡ (minus_one, with_errcode no_file s))
          × (bit_and flags ufs_create ≡ 0)
          × IsMissing filename s
        ⊎ HasOpened filename flags s o)

-- On a consistent state `ufs_open` ends. If it is not asked to create the file and no file of the list
-- has the name, it returns -1, with the error that no such file is there and nothing else changed. Else
-- it returns a descriptor that was not open, which now leads to the start of a file that is in the list
-- under this very name, with the flags asked for, and every other descriptor is as it was; the file was
-- in the list under this name before, or no file was and the call was asked to create it.
pub ufs_open-HasOpened :
    (filename : List ℕ) (flags : ℕ) (s : Fs) → IsConsistent s → OpensOrRefuses filename flags s
unfolding ufs_open insert_file
ufs_open-HasOpened filename flags s c =
    let (found, e, h) = find_file-IsSearched s.files s.file_list filename (listed-live s c) in
    ends found e h
  where
    ends :
        (found : Option (ℕ × File))
        → find_file s.files s.file_list filename ≡ ok found
        → IsSearched s.files s.file_list filename found
        → OpensOrRefuses filename flags s
    ends none e h = elim (Bool-cases (bit_and flags ufs_create == 0)) [
      | inl stop ↦ rw (ufs_open, e, stop) (_, refl, inl (refl, ground arith, h))
      | inr create ↦
          rw (ufs_open, e, create)
            (
              _,
              refl,
              inr (
                  open_fd-HasOpened s.brk (new_file filename) filename flags s _ refl c.counted refl
                    refl (ground arith) (inr (h, λ z. ground arith))),
            )
    ]
    ends (some (p, f)) e (at, m, named) =
        rw (ufs_open, e)
          (
            _,
            refl,
            inr (
                open_fd-HasOpened p f filename flags s (with_errcode no_err s) refl c.counted refl
                  named m (inl (f, at, m, named))),
          )
