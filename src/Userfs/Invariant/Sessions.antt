-- ===== src/Userfs/Invariant/Sessions.antt =====
-- 3/userfs.c: any sequence of calls.
use sysproghw.Base.{ℕ, ◌≡◌, List, [], ◌∷◌}
use sysproghw.Base.Int.{ℤ}
use sysproghw.Userfs.State.{Run, ok, ◌>>=◌, Fs, initial}
use sysproghw.Userfs.Calls.{ufs_open, ufs_close, ufs_delete, ufs_write, ufs_read}
use sysproghw.Userfs.Calls.Resize.{ufs_resize}
use sysproghw.Userfs.Invariant.{
  IsConsistent, EndsConsistent, initial-IsConsistent, ufs_open-IsConsistent,
}
use sysproghw.Userfs.Invariant.Closing.{ufs_close-IsConsistent, ufs_delete-IsConsistent}
use sysproghw.Userfs.Invariant.Frames.{WhenOk, WhenOk-bind}
use sysproghw.Userfs.Invariant.Transfers.{
  ufs_write-IsConsistent, ufs_read-IsConsistent, ufs_resize-IsConsistent,
}

-- A call with its arguments. Fuel bounds the rounds of a call's loop.
pub data Call : Type 0 where
  opens : (filename : List ℕ) (flags : ℕ) → Call
  closes : (fd : ℤ) → Call
  deletes : (filename : List ℕ) → Call
  writes : (fuel : ℕ) (fd : ℤ) (buf : List ℕ) (size : ℕ) → Call
  reads : (fuel : ℕ) (fd : ℤ) (size : ℕ) → Call
  resizes : (fd : ℤ) (new_size : ℕ) → Call

-- What a call leaves.
abbrev pub call : Call → Fs → Run Fs
call (opens filename flags) s = do (_, s') ← ufs_open filename flags s; ok s'
call (closes fd) s = do (_, s') ← ufs_close fd s; ok s'
call (deletes filename) s = do (_, s') ← ufs_delete filename s; ok s'
call (writes fuel fd buf size) s = do (_, s') ← ufs_write fuel fd buf size s; ok s'
call (reads fuel fd size) s = do (_, _, s') ← ufs_read fuel fd size s; ok s'
call (resizes fd new_size) s = do (_, s') ← ufs_resize fd new_size s; ok s'

abbrev pub session : List Call → Fs → Run Fs
session [] s = ok s
session (c ∷ cs) s = do s' ← call c s; session cs s'

EndsConsistent-WhenOk :
    (r : Run (ℤ × Fs)) → EndsConsistent r → WhenOk (λ (o : ℤ × Fs). IsConsistent o.1) r
EndsConsistent-WhenOk r (o, e, h) = rw e h

call-IsConsistent : (c : Call) (s : Fs) → IsConsistent s → WhenOk IsConsistent (call c s)
call-IsConsistent (opens filename flags) s h =
    WhenOk-bind _ _ (ufs_open filename flags s) _
      (EndsConsistent-WhenOk _ (ufs_open-IsConsistent filename flags s h)) (λ o k. k)
call-IsConsistent (closes fd) s h =
    WhenOk-bind _ _ (ufs_close fd s) _ (EndsConsistent-WhenOk _ (ufs_close-IsConsistent fd s h))
      (λ o k. k)
call-IsConsistent (deletes filename) s h =
    WhenOk-bind _ _ (ufs_delete filename s) _
      (EndsConsistent-WhenOk _ (ufs_delete-IsConsistent filename s h)) (λ o k. k)
call-IsConsistent (writes fuel fd buf size) s h =
    WhenOk-bind _ _ (ufs_write fuel fd buf size s) _ (ufs_write-IsConsistent fuel fd buf size s h)
      (λ o k. k)
call-IsConsistent (reads fuel fd size) s h =
    WhenOk-bind _ _ (ufs_read fuel fd size s) _ (ufs_read-IsConsistent fuel fd size s h) (λ o k. k)
call-IsConsistent (resizes fd new_size) s h =
    WhenOk-bind _ _ (ufs_resize fd new_size s) _ (ufs_resize-IsConsistent fd new_size s h)
      (λ o k. k)

session-IsConsistent :
    (cs : List Call) (s : Fs) → IsConsistent s → WhenOk IsConsistent (session cs s)
session-IsConsistent [] s h = h
session-IsConsistent (c ∷ cs) s h =
    WhenOk-bind IsConsistent _ (call c s) _ (call-IsConsistent c s h) (session-IsConsistent cs)

-- What is true after a session: the state is consistent, and whatever file is opened or deleted next and
-- whatever descriptor is closed, the call ends without a fault.
pub record IsSound (s : Fs) : Type 0 where
  pub consistent : IsConsistent s
  pub opens : (filename : List ℕ) (flags : ℕ) → EndsConsistent (ufs_open filename flags s)
  pub closes : (fd : ℤ) → EndsConsistent (ufs_close fd s)
  pub deletes : (filename : List ℕ) → EndsConsistent (ufs_delete filename s)

-- After any sequence of the six calls on the empty file system that ended, successful or refused, the
-- state is consistent: the counters count the descriptors and the references to each file, the live
-- files that were not deleted are those in the list, each once, and a deleted file lives only while a
-- descriptor is open on it. In such a state `ufs_open`, `ufs_close` and `ufs_delete` end without a
-- fault, whatever they are asked.
pub session-IsSound : (cs : List Call) (s : Fs) → session cs initial ≡ ok s → IsSound s
session-IsSound cs s e =
    let h = rw e at (session-IsConsistent cs initial initial-IsConsistent) in
    record {
      consistent = h;
      opens = λ filename flags. ufs_open-IsConsistent filename flags s h;
      closes = λ fd. ufs_close-IsConsistent fd s h;
      deletes = λ filename. ufs_delete-IsConsistent filename s h;
    }
