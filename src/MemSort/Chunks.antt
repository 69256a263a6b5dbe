-- ===== src/MemSort/Chunks.antt =====
-- lecture_examples/7_ipc/3_mem_sort.c: one step of a transfer, which passes a chunk of it on.
use mathlib.Core.List.{append_assoc, append-nil}
use mathlib.Core.Path.{subst}
use sysproghw.Base.{
  take-length_front, ℕ, zero, suc, ◌+◌, ◌-◌, ◌*◌, ◌<◌, ◌≤◌, ◌≡◌, refl, ◌∙◌, sym, ap, inl, inr, ◌⊎◌,
  true, false, List, [], ◌∷◌, ◌++◌, length, length-append, length-take, length-drop, take, drop,
  take-append-drop, ltb, Bool-cases, arith,
}
use sysproghw.MemSort.{
  mem_size, waiting, copied, returned, Transfer, to_copy, again, write_to_shared_mem,
  read_from_shared_mem, Process, writer, reader, step,
}
use sysproghw.MemSort.Passing.{
  turn, IsPassing, to_write, written, closed, to_read, fetched, emptied, passed, Next, Idle,
}

to_copy_le : (n : ℕ) → to_copy n ≤ n
to_copy_le n = ground arith

to_copy_fits : (n : ℕ) → to_copy n ≤ mem_size
to_copy_fits n = ground arith

to_copy_some : (n : ℕ) → 0 < n → 0 < to_copy n
to_copy_some n h = ground arith

waits_again :
    (n : ℕ) (t : Transfer) → t.is_writable ≡ false → t.writer ≡ again n → write_to_shared_mem t ≡ t
unfolding write_to_shared_mem
waits_again zero t e₁ e₂ = simp (write_to_shared_mem, e₂) refl
waits_again (suc n) t e₁ e₂ = simp (write_to_shared_mem, e₂, e₁) refl

copied_chunk :
    (all got left mem : List ℕ)
    → all ≡ got ++ left
    → length mem ≡ mem_size
    → IsPassing all (turn (length left) - 1) (record {
      is_readable = false;
      is_writable = true;
      mem = take (to_copy (length left)) left ++ drop (to_copy (length left)) mem;
      writer = copied;
      src = drop (to_copy (length left)) left;
      reader = waiting;
      size = length left;
      dst = got;
    })
copied_chunk all got left mem e long =
    let n = to_copy (length left) in
    let le = to_copy_le (length left) in
    let fits = to_copy_fits (length left) in
    let taken = length-take n left in
    let dropped = length-drop n left in
    written got (take n left) (drop n left) (drop n mem) (length left)
      (e
        ∙ ap (λ l. got ++ l) (sym (take-append-drop n left))
        ∙ sym (append_assoc got (take n left) (drop n left)))
      (omega (arith, taken, dropped, le)) (omega (arith, taken, le))
      (omega
        (arith, length-append (take n left) (drop n mem), taken, length-drop n mem, long, le, fits))

abbrev FetchedAs : (all chunk left mem : List ℕ) → ℕ → List ℕ → Type 0
FetchedAs all chunk left mem n d = IsPassing all (6 * length left + 2) (record {
  is_readable = true;
  is_writable = false;
  mem = chunk ++ mem;
  writer = again (length left);
  src = left;
  reader = copied;
  size = n;
  dst = d;
})

fetched_chunk :
    (all got chunk left mem : List ℕ) (size : ℕ)
    → all ≡ got ++ chunk ++ left
    → size ≡ length chunk + length left
    → to_copy size ≡ length chunk
    → length (chunk ++ mem) ≡ mem_size
    → IsPassing all (6 * length left + 2) (record {
      is_readable = true;
      is_writable = false;
      mem = chunk ++ mem;
      writer = again (length left);
      src = left;
      reader = copied;
      size = size - to_copy size;
      dst = got ++ take (to_copy size) (chunk ++ mem);
    })
fetched_chunk all got chunk left mem size e e₁ e₂ long =
    let now = fetched (got ++ chunk) left (chunk ++ mem) e long in
    let rest : length left ≡ size - to_copy size = omega (arith, e₁, e₂) in
    let read : got ++ chunk ≡ got ++ take (to_copy size) (chunk ++ mem) =
      ap (λ l. got ++ l) (sym (ap (λ n. take n (chunk ++ mem)) e₂ ∙ take-length_front chunk mem)) in
    subst (FetchedAs all chunk left mem (size - to_copy size)) read
      (subst (λ n. FetchedAs all chunk left mem n (got ++ chunk)) rest now)

chunk_counts :
    (chunk left : List ℕ) (size : ℕ)
    → size ≡ length chunk + length left
    → to_copy size ≡ length chunk
    → 6 * length left + 2 < turn size - 3
chunk_counts chunk left size e₁ e₂ = elim (Bool-cases (ltb 0 size)) [
  | inl some_left ↦
      (let lt : 0 < size = ground arith in
        let more = to_copy_some size lt in omega (arith, e₁, e₂, more))
  | inr none_left ↦ (let le : size ≤ 0 = ground arith in omega (arith, e₁))
]

all_passed :
    (all got mem : List ℕ)
    → all ≡ got
    → length mem ≡ mem_size
    → IsPassing all 0 (record {
      is_readable = false;
      is_writable = true;
      mem = mem;
      writer = returned;
      src = [];
      reader = returned;
      size = 0;
      dst = got;
    })
all_passed all got mem e long =
    subst
      (λ d. IsPassing all 0 (record {
        is_readable = false;
        is_writable = true;
        mem = mem;
        writer = returned;
        src = [];
        reader = returned;
        size = 0;
        dst = d;
      }))
      e (passed mem long)

pub Next-step :
    (all : List ℕ) (r : ℕ) (t : Transfer) → IsPassing all r t → Idle all t ⊎ Next all r t
unfolding step write_to_shared_mem read_from_shared_mem
Next-step all _ _ (to_write got left mem e long) = inr (record {
  who = writer;
  rest = turn (length left) - 1;
  passing = copied_chunk all got left mem e long;
  fewer = omega arith;
  waits = refl;
})
Next-step all _ _ (written got chunk left mem size e e₁ e₂ long) = inr (record {
  who = writer;
  rest = turn size - 2;
  passing = closed got chunk left mem size e e₁ e₂ long;
  fewer = omega arith;
  waits = refl;
})
Next-step all _ _ (closed got chunk left mem size e e₁ e₂ long) = inr (record {
  who = writer;
  rest = turn size - 3;
  passing = to_read got chunk left mem size e e₁ e₂ long;
  fewer = omega arith;
  waits = refl;
})
Next-step all _ _ (to_read got chunk left mem size e e₁ e₂ long) = inr (record {
  who = reader;
  rest = 6 * length left + 2;
  passing = fetched_chunk all got chunk left mem size e e₁ e₂ long;
  fewer = chunk_counts chunk left size e₁ e₂;
  waits = waits_again (length left) _ refl refl;
})
Next-step all _ _ (fetched got left mem e long) = inr (record {
  who = reader;
  rest = 6 * length left + 1;
  passing = emptied got left mem e long;
  fewer = omega arith;
  waits = waits_again (length left) _ refl refl;
})
Next-step all _ _ (emptied got [] mem e long) = inr (record {
  who = reader;
  rest = 0;
  passing = all_passed all got mem (e ∙ append-nil got) long;
  fewer = omega arith;
  waits = refl;
})
Next-step all _ _ (emptied got (x ∷ left) mem e long) = inr (record {
  who = reader;
  rest = turn (length (x ∷ left));
  passing = to_write got (x ∷ left) mem e long;
  fewer = omega arith;
  waits = refl;
})
Next-step all _ _ (passed mem long) = inl (record {
  idle = stays;
  over = passed mem long;
  result = record {
    received = refl;
    writer_returned = refl;
    reader_returned = refl;
    flags = (refl, refl);
    fits = long;
  };
})
  where
    stays :
        (p : Process)
        → step p (record {
          is_readable = false;
          is_writable = true;
          mem = mem;
          writer = returned;
          src = [];
          reader = returned;
          size = 0;
          dst = all;
        })
          ≡ record {
            is_readable = false;
            is_writable = true;
            mem = mem;
            writer = returned;
            src = [];
            reader = returned;
            size = 0;
            dst = all;
          }
    stays writer = refl
    stays reader = refl
