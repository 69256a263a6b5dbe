-- ===== src/Server/Polling.antt =====
-- lecture_examples/9_aio/5_server_poll.c: a round in which a client wants to connect.
use mathlib.Core.List.{append-nil}
use sysproghw.Base.{
  ℕ, zero, suc, ◌≡◌, refl, ◌∙◌, ap, sym, true, List, [], ◌∷◌, ◌++◌, some, length, get_elem?, bind,
}
use sysproghw.Base.Int.{pos, minus_one}
use sysproghw.Server.{Kernel, interact, Table, goes_on, accepts_client, poll_round, serve_all}
use sysproghw.Server.Steps.{loop-done, loop-fail}

-- The lines "Interact with fd" of such a round.
abbrev pub interacts : ℕ → ℕ → List ℕ
interacts zero server = []
interacts (suc n) server = server ∷ []

-- The descriptors accepted and the table grow, and these lines are printed.
abbrev pub welcomed : ℕ → List ℕ → Table → Table
welcomed c lines t = record t {
  clients = t.clients ++ c ∷ [];
  accepted = t.accepted ++ c ∷ [];
  served = t.served ++ lines;
}

poll_round-accept :
    (k : Kernel) (server n c : ℕ) (t : Table)
    → get_elem? t.clients 0 ≡ some server
    → k.nfds ≡ pos (suc n)
    → k.is_ready server ≡ true
    → k.accepts ≡ pos c
    → poll_round k server t ≡ serve_all k n (accepts_client c t)
unfolding poll_round
poll_round-accept k server n c t first e r z = simp (poll_round, e, first, r, z) refl

no_answer :
    (k : Kernel) (server : ℕ) → (k.reads server).0 ≡ minus_one → interact k server ≡ minus_one
unfolding interact
no_answer k server bad = rw (interact, bad) refl

-- In a round of the server with `poll` where the listening socket is ready, and `accept` succeeds,
-- the new client comes into the table, but no client is served, however many are ready: where any
-- is, the loop starts with the listening socket, whose `read` fails as the manual says, and stops
-- there.
pub poll_round-welcomed :
    (k : Kernel) (server n c : ℕ) (t : Table) (fds : List ℕ)
    → t.clients ≡ server ∷ fds
    → k.nfds ≡ pos (suc n)
    → k.is_ready server ≡ true
    → k.accepts ≡ pos c
    → (k.reads server).0 ≡ minus_one
    → poll_round k server t ≡ some (goes_on (welcomed c (interacts n server) t))
poll_round-welcomed k server zero c t fds first e r z bad =
    poll_round-accept k server 0 c t (ap (λ l. get_elem? l 0) first) e r z
    ∙ ap (λ o. bind o (λ u. some (goes_on u)))
        (loop-done (length (t.clients ++ c ∷ [])) k 0 (accepts_client c t))
    ∙ ap (λ l. some (goes_on (record (accepts_client c t) { served = l })))
        (sym (append-nil t.served))
poll_round-welcomed k server (suc n) c t fds first e r z bad =
    poll_round-accept k server (suc n) c t (ap (λ l. get_elem? l 0) first) e r z
    ∙ ap (λ o. bind o (λ u. some (goes_on u)))
        (loop-fail (length (t.clients ++ c ∷ [])) k 0 n (accepts_client c t) server
          (ap (λ l. get_elem? (l ++ c ∷ []) 0) first) r (no_answer k server bad))
