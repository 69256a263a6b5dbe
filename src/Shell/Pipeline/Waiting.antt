-- ===== src/Shell/Pipeline/Waiting.antt =====
-- 2/shell.c: the exit code of a pipeline.
use sysproghw.Base.{
  ℕ, zero, suc, ◌+◌, ◌≤◌, ◌≡◌, refl, true, false, List, [], ◌∷◌, ◌++◌, Option, arith, ◌==◌, length,
}
use sysproghw.Base.Int.{ℤ}
use sysproghw.Shell.Pipeline.{Waited, exit_status, wait_loop}

-- No process of the list has this id.
abbrev pub IsAbsent : ℕ → List Waited → Type 0
IsAbsent pid [] = Unit
IsAbsent pid ((p, _) ∷ ws) = ((p == pid) ≡ false) × IsAbsent pid ws

wait_loop_absent :
    (n pid : ℕ) (ws : List Waited) (code : ℤ) → IsAbsent pid ws → wait_loop n pid ws code ≡ code
unfolding wait_loop
wait_loop_absent zero pid ws code h = refl
wait_loop_absent (suc n) pid [] code h = refl
wait_loop_absent (suc n) pid ((p, s) ∷ ws) code h = rw h.0 (wait_loop_absent n pid ws code h.1)

-- Whatever the order in which the processes of a pipeline end, the exit code is that of the last
-- process forked (1 if a signal killed it), provided that its id is reported once.
pub wait_loop_last :
    (pid : ℕ) (before after : List Waited) (status : Option ℤ) (n : ℕ) (code : ℤ)
    → IsAbsent pid before
    → IsAbsent pid after
    → length before + 1 ≤ n
    → wait_loop n pid (before ++ (pid, status) ∷ after) code ≡ exit_status status
unfolding wait_loop
wait_loop_last pid [] after status zero code hb ha fuel = absurd (omega arith)
wait_loop_last pid [] after status (suc n) code hb ha fuel =
    let same : (pid == pid) ≡ true = ground arith in rw same (wait_loop_absent n pid after _ ha)
wait_loop_last pid (b ∷ before) after status zero code hb ha fuel = absurd (omega arith)
wait_loop_last pid ((p, s) ∷ before) after status (suc n) code hb ha fuel =
    rw hb.0 (wait_loop_last pid before after status n code hb.1 ha (omega arith))
