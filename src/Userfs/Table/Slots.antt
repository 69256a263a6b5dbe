-- ===== src/Userfs/Table/Slots.antt =====
-- 3/userfs.c: the array of descriptors as a table of slots.
use sysproghw.Base.{
  ℕ, zero, suc, ◌+◌, ◌-◌, ◌*◌, ◌<◌, ◌≤◌, ◌≡◌, ◌≢◌, refl, ◌∙◌, ap, sym, inl, inr, [], ◌∷◌, ◌++◌,
  Option, none, some, ◌==◌, if◌then◌else◌, length, set, replicate, bind, arith, Bool-cases,
  get_elem?-set_self, get_elem?-set_ne, length-append, length-replicate,
}
use sysproghw.Base.Int.{ℤ, pos}
use sysproghw.Userfs.State.{Filedesc, Descriptors, Fs}
use sysproghw.Userfs.Table.{slot, grow_table, make_room, free_slot, insert_fd}

-- How many places of the array are taken.
abbrev pub used : Descriptors → ℕ
used [] = 0
used (none ∷ ds) = used ds
used (some _ ∷ ds) = suc (used ds)

-- The counter counts the places taken.
abbrev pub IsCounted : Fs → Type 0
IsCounted s = (s.file_descriptor_count ≡ used s.file_descriptors)

used-le-length : (ds : Descriptors) → used ds ≤ length ds
used-le-length [] = omega arith
used-le-length (none ∷ ds) = omega (arith, used-le-length ds)
used-le-length (some d ∷ ds) = omega (arith, used-le-length ds)

-- The lowest free place.
pub record IsFree (ds : Descriptors) (i : ℕ) : Type 0 where
  pub within : i < length ds
  pub free : slot ds i ≡ none
  pub lowest : (j : ℕ) → j < i → slot ds j ≢ none

free_slot-IsFree :
    (ds : Descriptors) → used ds < length ds → (i : ℕ) × (free_slot ds ≡ some i) × IsFree ds i
unfolding free_slot
free_slot-IsFree [] h = elim h [ ]
free_slot-IsFree (none ∷ ds) h =
    (0, refl, record { within = omega arith; free = refl; lowest = λ j lt. elim lt [ ] })
free_slot-IsFree (some d ∷ ds) h =
    let (i, e, f) = free_slot-IsFree ds (omega arith) in
    (suc i, rw e, record { within = omega (arith, f.within); free = f.free; lowest = lower i f })
  where
    lower : (i : ℕ) → IsFree ds i → (j : ℕ) → j < suc i → slot (some d ∷ ds) j ≢ none
    lower i f zero lt = λ e. cc
    lower i f (suc j) lt = f.lowest j (omega arith)

slot-append : (ds : Descriptors) (n j : ℕ) → slot (ds ++ replicate n none) j ≡ slot ds j
slot-append [] zero j = refl
slot-append [] (suc n) zero = refl
slot-append [] (suc n) (suc j) = slot-append [] n j
slot-append (d ∷ ds) n zero = refl
slot-append (d ∷ ds) n (suc j) = slot-append ds n j

used-append : (ds : Descriptors) (n : ℕ) → used (ds ++ replicate n none) ≡ used ds
used-append [] zero = refl
used-append [] (suc n) = used-append [] n
used-append (none ∷ ds) n = used-append ds n
used-append (some d ∷ ds) n = ap suc (used-append ds n)

used-set :
    (ds : Descriptors) (i : ℕ) (d : Filedesc)
    → i < length ds
    → slot ds i ≡ none
    → used (set ds i (some d)) ≡ suc (used ds)
used-set [] i d lt e = elim lt [ ]
used-set (none ∷ ds) zero d lt e = refl
used-set (some c ∷ ds) zero d lt e = cc
used-set (none ∷ ds) (suc i) d lt e = used-set ds i d (omega arith) e
used-set (some c ∷ ds) (suc i) d lt e = ap suc (used-set ds i d (omega arith) e)

pub used-set-none :
    (ds : Descriptors) (i : ℕ) (d : Filedesc)
    → slot ds i ≡ some d
    → used ds ≡ suc (used (set ds i none))
used-set-none [] i d e = cc
used-set-none (none ∷ ds) zero d e = cc
used-set-none (some c ∷ ds) zero d e = refl
used-set-none (none ∷ ds) (suc i) d e = used-set-none ds i d e
used-set-none (some c ∷ ds) (suc i) d e = ap suc (used-set-none ds i d e)

-- How many descriptors are open on the file with this number.
abbrev pub refs_to : ℕ → Descriptors → ℕ
refs_to p [] = 0
refs_to p (none ∷ ds) = refs_to p ds
refs_to p (some d ∷ ds) = (if d.file == p then 1 else 0) + refs_to p ds

refs_to-append :
    (p : ℕ) (ds : Descriptors) (n : ℕ) → refs_to p (ds ++ replicate n none) ≡ refs_to p ds
refs_to-append p [] zero = refl
refs_to-append p [] (suc n) = refs_to-append p [] n
refs_to-append p (none ∷ ds) n = refs_to-append p ds n
refs_to-append p (some d ∷ ds) n = omega (arith, refs_to-append p ds n)

refs_to-set :
    (p : ℕ) (ds : Descriptors) (i : ℕ) (d : Filedesc)
    → i < length ds
    → slot ds i ≡ none
    → refs_to p (set ds i (some d)) ≡ refs_to p ds + (if d.file == p then 1 else 0)
refs_to-set p [] i d lt e = elim lt [ ]
refs_to-set p (none ∷ ds) zero d lt e = omega arith
refs_to-set p (some c ∷ ds) zero d lt e = cc
refs_to-set p (none ∷ ds) (suc i) d lt e = refs_to-set p ds i d (omega arith) e
refs_to-set p (some c ∷ ds) (suc i) d lt e = omega (arith, refs_to-set p ds i d (omega arith) e)

file_of : Option Filedesc → ℕ
file_of none = 0
file_of (some d) = d.file

pub refs_to-set-none :
    (p : ℕ) (ds : Descriptors) (i : ℕ) (d : Filedesc)
    → slot ds i ≡ some d
    → refs_to p ds ≡ refs_to p (set ds i none) + (if d.file == p then 1 else 0)
unfolding file_of
refs_to-set-none p [] i d e = cc
refs_to-set-none p (none ∷ ds) zero d e = cc
refs_to-set-none p (some c ∷ ds) zero d e =
    let same : c.file ≡ d.file = ap file_of e in rw same (omega arith)
refs_to-set-none p (none ∷ ds) (suc i) d e = refs_to-set-none p ds i d e
refs_to-set-none p (some c ∷ ds) (suc i) d e = omega (arith, refs_to-set-none p ds i d e)

pub lt_of_slot : (ds : Descriptors) (i : ℕ) {d : Filedesc} → slot ds i ≡ some d → i < length ds
lt_of_slot [] i e = cc
lt_of_slot (c ∷ ds) zero e = omega arith
lt_of_slot (c ∷ ds) (suc i) e = omega (arith, lt_of_slot ds i e)

pub slot-set_self :
    (ds : Descriptors) (i : ℕ) (o : Option Filedesc) → i < length ds → slot (set ds i o) i ≡ o
slot-set_self ds i o h = ap (λ e. bind e (λ d. d)) (get_elem?-set_self ds i o h)

pub slot-set_ne :
    (ds : Descriptors) (i j : ℕ) (o : Option Filedesc) → i ≢ j → slot (set ds i o) j ≡ slot ds j
slot-set_ne ds i j o h = ap (λ e. bind e (λ d. d)) (get_elem?-set_ne ds o h)

make_room_lem :
    (s : Fs)
    → IsCounted s
    → (used (make_room s) < length (make_room s))
      × (used (make_room s) ≡ used s.file_descriptors)
      × ((j : ℕ) → slot (make_room s) j ≡ slot s.file_descriptors j)
      × ((p : ℕ) → refs_to p (make_room s) ≡ refs_to p s.file_descriptors)
unfolding make_room grow_table
make_room_lem s h =
    let ds = s.file_descriptors in
    let more = (length ds + 1) * 2 - length ds in
    let le = used-le-length ds in
    elim (Bool-cases (s.file_descriptor_count == length ds)) [
      | inl full ↦ rw full (
        omega (
          arith,
          used-append ds more,
          length-append ds (replicate more none),
          length-replicate {A = Option Filedesc} more none,
        ),
        used-append ds more,
        slot-append ds more,
        λ p. refs_to-append p ds more,
      )
      | inr room ↦ rw room (ground (arith, le), refl, λ j. refl, λ p. refl)
    ]

-- What `insert_fd` has done with `d`: the lowest free place of the array holds it, no other place has
-- changed, and the counter still counts the places taken.
pub record IsInserted (d : Filedesc) (s : Fs) (o : ℤ × Fs) : Type 0 where
  pub index : ℕ
  pub result : o.0 ≡ pos index
  pub was_free : slot s.file_descriptors index ≡ none
  pub lowest : (j : ℕ) → j < index → slot s.file_descriptors j ≢ none
  pub taken : slot o.1.file_descriptors index ≡ some d
  pub others : (j : ℕ) → index ≢ j → slot o.1.file_descriptors j ≡ slot s.file_descriptors j
  pub counted : IsCounted o.1
  pub refs :
      (p : ℕ)
      → refs_to p o.1.file_descriptors
        ≡ refs_to p s.file_descriptors + (if d.file == p then 1 else 0)
  pub same_files : o.1.files ≡ s.files
  pub same_list : o.1.file_list ≡ s.file_list
  pub same_brk : o.1.brk ≡ s.brk
  pub same_errcode : o.1.ufs_errcode ≡ s.ufs_errcode

-- `insert_fd` never returns -1 while the counter counts the places taken: it puts the descriptor into
-- the lowest free place, and into a larger array where all places are taken.
pub insert_fd-IsInserted : (d : Filedesc) (s : Fs) → IsCounted s → IsInserted d s (insert_fd d s)
unfolding insert_fd
insert_fd-IsInserted d s h =
    let (room, same_used, same, same_refs) = make_room_lem s h in
    let (i, e, f) = free_slot-IsFree (make_room s) room in
    rw e (record {
      index = i;
      result = refl;
      was_free = sym (same i) ∙ f.free;
      lowest = λ j lt q. f.lowest j lt (same j ∙ q);
      taken = slot-set_self (make_room s) i (some d) f.within;
      others = λ j ne. slot-set_ne (make_room s) i j (some d) ne ∙ same j;
      counted = omega (arith, used-set (make_room s) i d f.within f.free);
      refs = λ p.
          refs_to-set p (make_room s) i d f.within f.free
          ∙ ap (λ n. n + (if d.file == p then 1 else 0)) (same_refs p);
      same_files = refl;
      same_list = refl;
      same_brk = refl;
      same_errcode = refl;
    })
