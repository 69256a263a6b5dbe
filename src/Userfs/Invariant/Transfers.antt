-- ===== src/Userfs/Invariant/Transfers.antt =====
-- 3/userfs.c: what `ufs_write`, `ufs_read` and `ufs_resize` keep true of the whole state.
use sysproghw.Base.{
  ℕ, zero, suc, ◌+◌, ◌-◌, ◌≤◌, ◌≡◌, refl, ◌∙◌, ap, sym, inl, inr, not, List, [], ◌∷◌, Option, none,
  some, ◌==◌, leb, ltb, set, length, arith, Bool-cases, Option-cases, ◌&&◌,
}
use sysproghw.Base.Int.{ℤ, pos}
use sysproghw.Userfs.State.{
  max_file_size, no_err, no_file, no_mem, no_permission, ok, ◌>>=◌, File, Filedesc, Descriptors, Fs,
  put, with_errcode,
}
use sysproghw.Userfs.Table.{slot}
use sysproghw.Userfs.Table.Slots.{used, refs_to}
use sysproghw.Userfs.Transfer.{
  Cursor, start_write, write_loop, Reading, ReadEnd, sets_errcode, keeps_errcode, read_loop,
}
use sysproghw.Userfs.Calls.{
  commit, curr_size, can_write, can_read, errcode_after, ufs_write, ufs_read,
}
use sysproghw.Userfs.Calls.Resize.{
  old_size, new_num_blocks, new_block_pos, shrink, move_fd, move_fds, resize_from, ufs_resize,
}
use sysproghw.Userfs.Invariant.{
  IsConsistent, same_or_not, put_self, put_ne, IsKept-some, with_errcode-IsConsistent,
}
use sysproghw.Userfs.Invariant.Closing.{get_fd-cases}
use sysproghw.Userfs.Invariant.Frames.{
  WhenOk, WhenOk-bind, WhenOk-then, IsSame, IsFrom, IsFrom-trans, IsFromMaybe, start_write-IsFrom,
  write_loop-IsFrom, start_read-IsFromMaybe, read_loop-IsFrom, grow_loop-IsSame, shrink-IsSame,
}

-- Two tables with the same files behind the same places.
record IsAlike (ds es : Descriptors) : Type 0 where
  taken : used es ≡ used ds
  refs : (p : ℕ) → refs_to p es ≡ refs_to p ds

-- A file's blocks change, and descriptors move; the memory may have grown.
rewritten-IsConsistent :
    (s : Fs) (p : ℕ) (f f' : File) (ds : Descriptors) (brk : ℕ)
    → IsConsistent s
    → s.files p ≡ some f
    → IsSame f f'
    → IsAlike s.file_descriptors ds
    → s.brk ≤ brk
    → IsConsistent (record s { brk = brk; files = put s.files p (some f'); file_descriptors = ds })
rewritten-IsConsistent s p f f' ds brk c is same alike le = record {
  counted = c.counted ∙ sym alike.taken;
  fresh = λ q h. elim (same_or_not q p) [
    | inl e ↦ (let gone : s.files p ≡ none = c.fresh p (omega (arith, e)) in cc)
    | inr ne ↦ put_ne s.files p (some f') q ne ∙ c.fresh q (omega arith)
  ];
  kept = λ q. elim (same_or_not q p) [
    | inl e ↦
        let (refs, listed, held) = IsKept-some s p f c is in
        rw (e, put_self s.files p (some f'), alike.refs p, same.refs, same.deleted)
          (refs, listed, held)
    | inr ne ↦ rw (put_ne s.files p (some f') q ne, alike.refs q) (c.kept q)
  ];
}

-- A descriptor moves within its file.
set-IsAlike :
    (ds : Descriptors) (i : ℕ) (d d' : Filedesc)
    → slot ds i ≡ some d
    → d'.file ≡ d.file
    → IsAlike ds (set ds i (some d'))
set-IsAlike ds i d d' e same = record { taken = taken ds i e; refs = λ p. refs p ds i e }
  where
    taken : (ds : Descriptors) (i : ℕ) → slot ds i ≡ some d → used (set ds i (some d')) ≡ used ds
    taken [] i e = cc
    taken (none ∷ ds) zero e = cc
    taken (some c ∷ ds) zero e = refl
    taken (none ∷ ds) (suc i) e = taken ds i e
    taken (some c ∷ ds) (suc i) e = ap suc (taken ds i e)

    refs :
        (p : ℕ) (ds : Descriptors) (i : ℕ)
        → slot ds i ≡ some d
        → refs_to p (set ds i (some d')) ≡ refs_to p ds
    refs p [] i e = cc
    refs p (none ∷ ds) zero e = cc
    refs p (some c ∷ ds) zero e =
        let before : refs_to p (some c ∷ []) ≡ refs_to p (some d ∷ []) =
          ap (λ o. refs_to p (o ∷ [])) e in
        rw same (omega (arith, before))
    refs p (none ∷ ds) (suc i) e = refs p ds i e
    refs p (some c ∷ ds) (suc i) e = omega (arith, refs p ds i e)

commit-IsConsistent :
    (s : Fs) (i : ℕ) (d : Filedesc) (f : File) (c : Cursor)
    → IsConsistent s
    → slot s.file_descriptors i ≡ some d
    → s.files d.file ≡ some f
    → IsFrom (record { brk = s.brk; file = f; desc = d }) c
    → IsConsistent (commit i c s)
commit-IsConsistent s i d f c h e is from = simp from.number (
    rewritten-IsConsistent s d.file f c.file (set s.file_descriptors i (some c.desc)) c.brk h is
      from.file (set-IsAlike s.file_descriptors i d c.desc e from.number) from.grown)

pub ufs_write-IsConsistent :
    (fuel : ℕ) (fd : ℤ) (buf : List ℕ) (size : ℕ) (s : Fs)
    → IsConsistent s
    → WhenOk (λ o. IsConsistent o.1) (ufs_write fuel fd buf size s)
unfolding ufs_write
ufs_write-IsConsistent fuel fd buf size s h = elim (get_fd-cases fd s) [
  | inl e ↦ rw (ufs_write, e) (with_errcode-IsConsistent s no_file h)
  | inr (i, d, e, there) ↦ elim (Bool-cases (not (can_write d.rw_flags))) [
    | inl no_right ↦ rw (ufs_write, e, no_right) (with_errcode-IsConsistent s no_permission h)
    | inr right ↦ elim (Bool-cases (ltb max_file_size (curr_size d + size))) [
      | inl large ↦ rw (ufs_write, e, right, large) (with_errcode-IsConsistent s no_mem h)
      | inr fits ↦ elim (Option-cases (s.files d.file)) [
        | inl gone ↦ rw (ufs_write, e, right, fits, gone) tt
        | inr (f, is) ↦
            let c = start_write (record { brk = s.brk; file = f; desc = d }) in
            rw (ufs_write, e, right, fits, is)
              (WhenOk-bind (λ o. IsFrom c o.0) _ (write_loop fuel c buf 0 size) _
                (write_loop-IsFrom fuel c buf 0 size)
                (λ o from. with_errcode-IsConsistent _ no_err (
                  commit-IsConsistent s i d f o.0 h there is
                    (IsFrom-trans (start_write-IsFrom _) from))))
      ]
    ]
  ]
]

errcode_after-IsConsistent :
    (e : ReadEnd) (s : Fs) → IsConsistent s → IsConsistent (errcode_after e s)
errcode_after-IsConsistent sets_errcode s h = with_errcode-IsConsistent s no_err h
errcode_after-IsConsistent keeps_errcode s h = h

-- What `ufs_read` does once it stands at a block, if the file has one.
read_from-IsConsistent :
    (fuel size i : ℕ) (s : Fs) (d : Filedesc) (f : File) (o : Option Cursor)
    → IsConsistent s
    → slot s.file_descriptors i ≡ some d
    → s.files d.file ≡ some f
    → IsFromMaybe (record { brk = s.brk; file = f; desc = d }) o
    → WhenOk
        (λ (o : ℤ × List ℕ × Fs). IsConsistent o.2)
        (elim o [
          | none ↦ ok (pos 0, [], with_errcode no_err s)
          | some c₁ ↦ do
            r ← read_loop fuel c₁ [] size
            ok (pos (length r.bytes), r.bytes, errcode_after r.end (commit i r.cursor s))
        ])
read_from-IsConsistent fuel size i s d f none h there is from = with_errcode-IsConsistent s no_err h
read_from-IsConsistent fuel size i s d f (some c) h there is from =
    WhenOk-bind (λ (r : Reading). IsFrom c r.cursor) _ (read_loop fuel c [] size) _
      (read_loop-IsFrom fuel c [] size)
      (λ r later.
        errcode_after-IsConsistent r.end _
          (commit-IsConsistent s i d f r.cursor h there is (IsFrom-trans from later)))

pub ufs_read-IsConsistent :
    (fuel : ℕ) (fd : ℤ) (size : ℕ) (s : Fs)
    → IsConsistent s
    → WhenOk (λ (o : ℤ × List ℕ × Fs). IsConsistent o.2) (ufs_read fuel fd size s)
unfolding ufs_read
ufs_read-IsConsistent fuel fd size s h = elim (get_fd-cases fd s) [
  | inl e ↦ rw (ufs_read, e) (with_errcode-IsConsistent s no_file h)
  | inr (i, d, e, there) ↦ elim (Bool-cases (not (can_read d.rw_flags))) [
    | inl no_right ↦ rw (ufs_read, e, no_right) (with_errcode-IsConsistent s no_permission h)
    | inr right ↦ elim (Option-cases (s.files d.file)) [
      | inl gone ↦ rw (ufs_read, e, right, gone) tt
      | inr (f, is) ↦
          rw (ufs_read, e, right, is)
            (read_from-IsConsistent fuel size i s d f _ h there is (start_read-IsFromMaybe _))
    ]
  ]
]

move_fds-IsAlike : (p : ℕ) (f : File) (at : ℕ) (ds : Descriptors) → IsAlike ds (move_fds p f at ds)
unfolding move_fds move_fd
move_fds-IsAlike p f at [] = record { taken = refl; refs = λ _. refl }
move_fds-IsAlike p f at (none ∷ ds) =
    let h = move_fds-IsAlike p f at ds in record { taken = h.taken; refs = h.refs }
move_fds-IsAlike p f at (some d ∷ ds) =
    let h = move_fds-IsAlike p f at ds in
    elim (Bool-cases (d.file == p && leb f.num_blocks d.block_num)) [
      | inl e ↦ record { taken = rw e (ap suc h.taken); refs = λ q. rw e (omega (arith, h.refs q)) }
      | inr e ↦ record { taken = rw e (ap suc h.taken); refs = λ q. rw e (omega (arith, h.refs q)) }
    ]

same-IsAlike : (ds : Descriptors) → IsAlike ds ds
same-IsAlike ds = record { taken = refl; refs = λ _. refl }

resize_from-IsConsistent :
    (new_size p : ℕ) (f : File) (old : ℕ) (s : Fs)
    → IsConsistent s
    → s.files p ≡ some f
    → WhenOk (λ (o : ℤ × Fs). IsConsistent o.1) (resize_from new_size p f old s)
unfolding resize_from
resize_from-IsConsistent new_size p f old s h is = elim (Bool-cases (leb old new_size)) [
  | inl grow ↦
      let (same, le) = grow_loop-IsSame (new_num_blocks new_size - f.num_blocks) s.brk f in
      rw (resize_from, grow)
        (with_errcode-IsConsistent _ no_err (
          rewritten-IsConsistent s p f _ s.file_descriptors _ h is same
            (same-IsAlike s.file_descriptors) le))
  | inr cut ↦
      rw (resize_from, cut)
        (WhenOk-bind (IsSame f) _ (shrink (new_num_blocks new_size) (new_block_pos new_size) f) _
          (shrink-IsSame _ _ f)
          (λ f' same. with_errcode-IsConsistent _ no_err (
            rewritten-IsConsistent s p f f' _ s.brk h is same
              (move_fds-IsAlike p f' (new_block_pos new_size) s.file_descriptors) (omega arith))))
]

pub ufs_resize-IsConsistent :
    (fd : ℤ) (new_size : ℕ) (s : Fs)
    → IsConsistent s
    → WhenOk (λ (o : ℤ × Fs). IsConsistent o.1) (ufs_resize fd new_size s)
unfolding ufs_resize
ufs_resize-IsConsistent fd new_size s h = elim (get_fd-cases fd s) [
  | inl e ↦ rw (ufs_resize, e) (with_errcode-IsConsistent s no_file h)
  | inr (i, d, e, there) ↦ elim (Bool-cases (ltb max_file_size new_size)) [
    | inl large ↦ rw (ufs_resize, e, large) (with_errcode-IsConsistent s no_mem h)
    | inr fits ↦ elim (Option-cases (s.files d.file)) [
      | inl gone ↦ rw (ufs_resize, e, fits, gone) tt
      | inr (f, is) ↦
          rw (ufs_resize, e, fits, is)
            (WhenOk-then _ (old_size f) _
              (λ old. resize_from-IsConsistent new_size d.file f old s h is))
    ]
  ]
]
