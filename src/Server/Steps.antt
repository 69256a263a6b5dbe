-- ===== src/Server/Steps.antt =====
-- lecture_examples/9_aio/4_server_select.c: one round of the loop over the clients.
use sysproghw.Base.{
  ℕ, zero, suc, ◌+◌, ◌-◌, ◌≡◌, refl, true, false, List, ◌++◌, Option, none, some, ltb, get_elem?,
  arith,
}
use sysproghw.Base.Int.{ℤ, pos, negsuc}
use sysproghw.Server.{Kernel, interact, remove_client, Table, serves, loses, serve_loop}
use sysproghw.Server.Serving.{is_fine, IsServed}

-- What the loop has done to the table when it ends: the clients before the place where it started are as
-- they were.
pub record HasServed (k : Kernel) (nfds : ℕ) (before cs : List ℕ) (t u : Table) : Type 0 where
  pub kept : List ℕ
  pub served : List ℕ
  pub removed : List ℕ
  pub clients : u.clients ≡ before ++ kept
  pub accepted : u.accepted ≡ t.accepted
  pub lines : u.served ≡ t.served ++ served
  pub losses : u.removed ≡ t.removed ++ removed
  pub is_served : IsServed k nfds cs kept served removed

-- The loop ends, and has done so.
abbrev pub Ends : Kernel → ℕ → List ℕ → List ℕ → Table → Option Table → Type 0
Ends k nfds before cs t o = (u : Table) × (o ≡ some u) × HasServed k nfds before cs t u

ltb-suc : (n : ℕ) → ltb 0 (suc n) ≡ true
ltb-suc n = ground arith

less : (n : ℕ) → suc n - 1 ≡ n
less n = omega arith

-- How a round of the loop goes on or ends.
module _ (fuel : ℕ) (k : Kernel) (i nfds : ℕ) (t : Table) (c : ℕ) where
  pub loop-skip :
      get_elem? t.clients i ≡ some c
      → k.is_ready c ≡ false
      → serve_loop (suc fuel) k i (suc nfds) t ≡ serve_loop fuel k (i + 1) (suc nfds) t
  unfolding serve_loop
  loop-skip e r = rw (serve_loop, ltb-suc nfds, e, r) refl

  pub loop-fail :
      get_elem? t.clients i ≡ some c
      → k.is_ready c ≡ true
      → interact k c ≡ negsuc zero
      → serve_loop (suc fuel) k i (suc nfds) t ≡ some (serves c t)
  unfolding serve_loop
  loop-fail e r z = rw (serve_loop, ltb-suc nfds, e, r, z) refl

  pub loop-gone :
      (clients : List ℕ)
      → get_elem? t.clients i ≡ some c
      → k.is_ready c ≡ true
      → interact k c ≡ pos zero
      → remove_client t.clients i ≡ some clients
      → serve_loop (suc fuel) k i (suc nfds) t
        ≡ serve_loop fuel k (i + 1) nfds (loses c (serves c t) clients)
  unfolding serve_loop
  loop-gone clients e r z m = rw (serve_loop, ltb-suc nfds, e, r, z, m, less nfds) refl

  pub loop-next :
      (z : ℤ)
      → get_elem? t.clients i ≡ some c
      → k.is_ready c ≡ true
      → interact k c ≡ z
      → is_fine z ≡ true
      → serve_loop (suc fuel) k i (suc nfds) t ≡ serve_loop fuel k (i + 1) nfds (serves c t)
  unfolding serve_loop
  loop-next (pos zero) e r z f = absurd (cc)
  loop-next (negsuc zero) e r z f = absurd (cc)
  loop-next (pos (suc n)) e r z f = rw (serve_loop, ltb-suc nfds, e, r, z, less nfds) refl
  loop-next (negsuc (suc n)) e r z f = rw (serve_loop, ltb-suc nfds, e, r, z, less nfds) refl

pub loop-done : (fuel : ℕ) (k : Kernel) (i : ℕ) (t : Table) → serve_loop (suc fuel) k i 0 t ≡ some t
unfolding serve_loop
loop-done fuel k i t = refl

pub loop-end :
    (fuel : ℕ) (k : Kernel) (i nfds : ℕ) (t : Table)
    → get_elem? t.clients i ≡ none
    → serve_loop (suc fuel) k i (suc nfds) t ≡ some t
unfolding serve_loop
loop-end fuel k i nfds t e = rw (serve_loop, ltb-suc nfds, e) refl
