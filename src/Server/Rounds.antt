-- ===== src/Server/Rounds.antt =====
-- lecture_examples/9_aio/4_server_select.c: a round of `main`, and all of them.
use sysproghw.Base.{
  ℕ, zero, suc, ◌+◌, ◌<◌, ◌≡◌, refl, ◌∙◌, ap, inl, inr, true, false, List, [], ◌∷◌, ◌++◌, Option,
  some, ◌==◌, ltb, if◌then◌else◌, length, bind, arith, Bool-cases,
}
use sysproghw.Base.Int.{ℤ, pos, negsuc}
use sysproghw.Server.{
  fd_setsize, Kernel, Table, fill_fdset, select, Round, goes_on, stops, serve_all, accepts_client,
  after_select, select_round, rounds, no_clients, closed,
}
use sysproghw.Server.Descriptors.{AllFit, AllFit-snoc, AllFit-left, Watches, fill_fdset-Watches}
use sysproghw.Server.Serving.{IsMerge, nil, left, right}
use sysproghw.Server.Looping.{serve_loop-HasServed}
use sysproghw.Server.Steps.{HasServed}

-- How a round may go on the answers `k`, from the table `t`.
pub data IsRound (k : Kernel) (server : ℕ) (t : Table) : Round → Type 0 where
  times_out : k.nfds ≡ pos 0 → IsRound k server t (goes_on t)
  fails : (n : ℕ) → k.nfds ≡ negsuc n → IsRound k server t (stops t)
  refuses :
      (n m : ℕ)
      → k.nfds ≡ pos (suc n)
      → k.is_ready server ≡ true
      → k.accepts ≡ negsuc m
      → IsRound k server t (stops t)
  serves_clients :
      (n : ℕ) (u : Table)
      → k.nfds ≡ pos (suc n)
      → k.is_ready server ≡ false
      → HasServed k (suc n) [] t.clients t u
      → IsRound k server t (goes_on u)
  welcomes :
      (n c : ℕ) (u : Table)
      → k.nfds ≡ pos (suc n)
      → k.is_ready server ≡ true
      → k.accepts ≡ pos c
      → HasServed k n [] (t.clients ++ c ∷ []) (accepts_client c t) u
      → IsRound k server t (goes_on u)

abbrev pub IsRun : Kernel → ℕ → Table → Option Round → Type 0
IsRun k server t o = (r : Round) × (o ≡ some r) × IsRound k server t r

-- The loop over the whole table.
pub serve_all_lem :
    (k : Kernel) (nfds : ℕ) (t : Table)
    → (u : Table) × (serve_all k nfds t ≡ some (goes_on u)) × HasServed k nfds [] t.clients t u
serve_all_lem k nfds t =
    let (u, e, h) =
      serve_loop-HasServed (suc (length t.clients)) k 0 nfds [] t.clients t refl refl
        (omega arith) in
    (u, ap (λ o. bind o (λ u. some (goes_on u))) e, h)

-- A client that connects in this round has a descriptor below FD_SETSIZE.
abbrev pub AcceptFits : Kernel → Type 0
AcceptFits k = (c : ℕ) → k.accepts ≡ pos c → c < fd_setsize

after_select-IsRun :
    (k : Kernel) (server : ℕ) (t : Table)
    → AcceptFits k
    → IsRun k server t (after_select k server t)
unfolding after_select
after_select-IsRun k server t accept = by_count k.nfds refl
  where
    on_accept :
        (n : ℕ) (z : ℤ)
        → k.nfds ≡ pos (suc n)
        → k.is_ready server ≡ true
        → k.accepts ≡ z
        → IsRun k server t (after_select k server t)
    on_accept n (pos c) e r z =
        let (u, same, h) = serve_all_lem k n (accepts_client c t) in
        let fits : ltb c fd_setsize ≡ true = ground (arith, accept c z) in
        (goes_on u, simp (after_select, e, r, z, fits) same, welcomes n c u e r z h)
    on_accept n (negsuc m) e r z = (stops t, rw (after_select, e, r, z) refl, refuses n m e r z)

    by_count : (z : ℤ) → k.nfds ≡ z → IsRun k server t (after_select k server t)
    by_count (negsuc n) e = (stops t, rw (after_select, e) refl, fails n e)
    by_count (pos zero) e = (goes_on t, rw (after_select, e) refl, times_out e)
    by_count (pos (suc n)) e = elim (Bool-cases (k.is_ready server)) [
      | inl r ↦ on_accept n k.accepts e r refl
      | inr r ↦
          let (u, same, h) = serve_all_lem k (suc n) t in
          (goes_on u, simp (after_select, e, r) same, serves_clients n u e r h)
    ]

-- The set that `select` is given is filled and watches the server and every client, and the round goes on
-- by what `select` marks of them.
abbrev pub SelectsRound : Kernel → ℕ → Table → Type 0
SelectsRound k server t =
    (filled : List ℕ × ℕ) × (fill_fdset t.clients server ≡ some filled)
    × Watches k (server ∷ t.clients) filled
    × IsRun (select k filled) server t (select_round k server t)

-- Where the descriptors of the server, of its clients and of one that connects are below FD_SETSIZE, a
-- round of the server with `select` ends, whatever the kernel answers, and is one of these: a timeout; an error of `select` or
-- `accept`, with which `main` stops; or the loop over the clients, behind the one that was just
-- accepted, if any. That loop copies within its arrays and keeps the clients in order. It serves, in
-- their order and at most once each, the clients that are ready, until as many as `select` has counted
-- are served or one fails, but for the client right behind one that has disconnected, which it passes
-- over; it removes those that it serves and that have disconnected. So where all clients that are
-- ready are fine, and `select` has counted them all, it serves them all. What `select` is given covers
-- the server and every client.
pub select_round-IsRound :
    (k : Kernel) (server : ℕ) (t : Table)
    → AllFit (server ∷ t.clients)
    → AcceptFits k
    → SelectsRound k server t
unfolding select_round select
select_round-IsRound k server t fit accept =
    let (filled, e, watches) = fill_fdset-Watches k t.clients server fit in
    let (r, same, is) = after_select-IsRun (select k filled) server t accept in
    (
      filled,
      e,
      watches,
      (r, ap (λ o. bind o (λ f. after_select (select k f) server t)) e ∙ same, is),
    )

-- How often a descriptor stands in a list.
abbrev pub occurrences : ℕ → List ℕ → ℕ
occurrences c [] = 0
occurrences c (d ∷ ds) = (if d == c then 1 else 0) + occurrences c ds

occurrences-append :
    (c : ℕ) (xs ys : List ℕ) → occurrences c (xs ++ ys) ≡ occurrences c xs + occurrences c ys
occurrences-append c [] ys = omega arith
occurrences-append c (x ∷ xs) ys = omega (arith, occurrences-append c xs ys)

IsMerge-occurrences :
    (c : ℕ) {xs ys zs : List ℕ}
    → IsMerge xs ys zs
    → occurrences c zs ≡ occurrences c xs + occurrences c ys
IsMerge-occurrences c nil = refl
IsMerge-occurrences c (left x m) = omega (arith, IsMerge-occurrences c m)
IsMerge-occurrences c (right y m) = omega (arith, IsMerge-occurrences c m)

-- Every descriptor that was accepted is in the table or was removed from it, as often.
abbrev pub IsAccounted : Table → Type 0
IsAccounted t =
    (c : ℕ) → occurrences c t.accepted ≡ occurrences c t.clients + occurrences c t.removed

HasServed-IsAccounted :
    (k : Kernel) (n : ℕ) (t u : Table)
    → IsAccounted t
    → HasServed k n [] t.clients t u
    → IsAccounted u
HasServed-IsAccounted k n t u a h c =
    rw (h.accepted, h.clients, h.losses)
      (omega (
        arith,
        a c,
        IsMerge-occurrences c h.is_served.split,
        occurrences-append c t.removed h.removed,
      ))

table_of : Round → Table
table_of (goes_on t) = t
table_of (stops t) = t

IsRound-IsAccounted :
    (k : Kernel) (server : ℕ) (t : Table) (r : Round)
    → IsAccounted t
    → IsRound k server t r
    → IsAccounted (table_of r)
unfolding table_of
IsRound-IsAccounted k server t _ a (times_out e) = a
IsRound-IsAccounted k server t _ a (fails n e) = a
IsRound-IsAccounted k server t _ a (refuses n m e r z) = a
IsRound-IsAccounted k server t _ a (serves_clients n u e r h) =
    HasServed-IsAccounted k (suc n) t u a h
IsRound-IsAccounted k server t _ a (welcomes n c u e r z h) =
    HasServed-IsAccounted k n (accepts_client c t) u
      (λ d. omega (
        arith,
        a d,
        occurrences-append d t.clients (c ∷ []),
        occurrences-append d t.accepted (c ∷ []),
      ))
      h

-- What `accept` returned in these rounds is below FD_SETSIZE.
abbrev pub AcceptsFit : List Kernel → Type 0
AcceptsFit [] = Unit
AcceptsFit (k ∷ ks) = AcceptFits k × AcceptsFit ks

IsRound-AllFit :
    (k : Kernel) (server : ℕ) (t : Table) (r : Round)
    → AllFit t.clients
    → AcceptFits k
    → IsRound k server t r
    → AllFit (table_of r).clients
unfolding table_of
IsRound-AllFit k server t _ fit lt (times_out e) = fit
IsRound-AllFit k server t _ fit lt (fails n e) = fit
IsRound-AllFit k server t _ fit lt (refuses n m e r z) = fit
IsRound-AllFit k server t _ fit lt (serves_clients n u e r h) =
    rw h.clients (AllFit-left h.is_served.split fit)
IsRound-AllFit k server t _ fit lt (welcomes n c u e r z h) =
    rw h.clients (AllFit-left h.is_served.split (AllFit-snoc t.clients c fit (lt c z)))

-- `main` returns what it has accepted and lost.
abbrev pub EndsAccounted : ℕ → Option Table → Type 0
EndsAccounted server o =
    (u : Table) × (o ≡ some u)
    × ((c : ℕ)
        → occurrences c (server ∷ u.accepted)
          ≡ occurrences c (closed server u) + occurrences c u.removed)

rounds-EndsAccounted :
    (ks : List Kernel) (server : ℕ) (t : Table)
    → server < fd_setsize
    → AcceptsFit ks
    → AllFit t.clients
    → IsAccounted t
    → EndsAccounted server (rounds ks server t)
unfolding rounds table_of select
rounds-EndsAccounted [] server t low accepts fit a = (t, refl, λ c. omega (arith, a c))
rounds-EndsAccounted (k ∷ ks) server t low (accepts, later) fit a =
    let (filled, _, _, (r, e, is)) = select_round-IsRound k server t (low, fit) accepts in
    next r e (IsRound-IsAccounted _ server t r a is)
      (IsRound-AllFit (select k filled) server t r fit accepts is)
      (λ u. rounds-EndsAccounted ks server u low later)
  where
    next :
        (r : Round)
        → select_round k server t ≡ some r
        → IsAccounted (table_of r)
        → AllFit (table_of r).clients
        → ((u : Table)
            → AllFit u.clients
            → IsAccounted u
            → EndsAccounted server (rounds ks server u))
        → EndsAccounted server (rounds (k ∷ ks) server t)
    next (stops u) e a' fit' later = rw (rounds, e) (u, refl, λ c. omega (arith, a' c))
    next (goes_on u) e a' fit' later = rw (rounds, e) (later u fit' a')

-- Whatever the kernel answers to the rounds of the server with `select`, as long as the descriptors of
-- the server and of its clients are below FD_SETSIZE, `main` accounts for each
-- descriptor that it opened, as often as it was opened: it closes it at the end, or its client had
-- disconnected. Those of clients that disconnected are left open.
pub rounds_accounts :
    (ks : List Kernel) (server : ℕ)
    → server < fd_setsize
    → AcceptsFit ks
    → EndsAccounted server (rounds ks server no_clients)
rounds_accounts ks server low accepts =
    rounds-EndsAccounted ks server no_clients low accepts tt (λ c. refl)
