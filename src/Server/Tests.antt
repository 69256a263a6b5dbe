-- ===== src/Server/Tests.antt =====
-- lecture_examples/9_aio: rounds of the servers, at concrete answers of the kernel.
use sysproghw.Base.{
  ℕ, ◌≡◌, ◌<◌, refl, true, arith, none, List, [], ◌∷◌, some, ◌==◌, ltb, if◌then◌else◌,
}
use sysproghw.Base.Int.{pos, minus_one}
use sysproghw.Server.{
  fd_set, Kernel, interact, Table, serve_loop, fill_loop, fill_fdset, select, goes_on, after_select,
  select_round, rounds, no_clients, poll_round, entries, remove_client,
}
use sysproghw.Server.Rounds.{
  SelectsRound, AcceptsFit, select_round-IsRound, EndsAccounted, rounds_accounts,
}
use sysproghw.Server.Polling.{interacts, welcomed, poll_round-welcomed}

-- The listening socket has the descriptor 3, and a client connects as 4, 5 and so on.
abbrev connects : ℕ → Kernel
connects c = record {
  nfds = pos 1;
  is_ready = λ fd. fd == 3;
  accepts = pos c;
  reads = λ _. (minus_one, 0);
  writes = λ _ _. pos 4;
}

-- The clients 4, 5 and 6 are ready; 4 has disconnected.
abbrev one_leaves : Kernel
one_leaves = record {
  nfds = pos 3;
  is_ready = λ fd. ltb 3 fd;
  accepts = minus_one;
  reads = λ fd. if fd == 4 then (pos 0, 0) else (pos 4, fd);
  writes = λ _ _. pos 4;
}

abbrev three_clients : Table
three_clients = record {
  clients = 4 ∷ 5 ∷ 6 ∷ [];
  accepted = 4 ∷ 5 ∷ 6 ∷ [];
  served = [];
  removed = [];
}

select_round-IsRound_example : SelectsRound one_leaves 3 three_clients
select_round-IsRound_example =
    select_round-IsRound one_leaves 3 three_clients
      (omega arith, (omega arith, (omega arith, (omega arith, tt)))) (λ c e. cc)

-- A descriptor that an `fd_set` has no bit for.
does_not_fit : fill_fdset (1024 ∷ []) 3 ≡ none
unfolding fill_fdset fill_loop fd_set
does_not_fit = refl

abbrev a_session : List Kernel
a_session = connects 4 ∷ connects 5 ∷ connects 6 ∷ one_leaves ∷ []

connects-fits : (c d : ℕ) → c < 1024 → pos c ≡ pos d → d < 1024
connects-fits c d lt e = let e' : c ≡ d = cc in omega arith

a_session-AcceptsFit : AcceptsFit a_session
a_session-AcceptsFit = (
  λ c e. connects-fits 4 c (omega arith) e,
  (
    λ c e. connects-fits 5 c (omega arith) e,
    (λ c e. connects-fits 6 c (omega arith) e, (λ c e. cc, tt)),
  ),
)

rounds_accounts_example : EndsAccounted 3 (rounds a_session 3 no_clients)
rounds_accounts_example = rounds_accounts a_session 3 (omega arith) a_session-AcceptsFit

-- The client 5, which was ready, is skipped behind 4, which is removed and stays open.
five_is_skipped :
    rounds a_session 3 no_clients
    ≡ some (record {
      clients = 5 ∷ 6 ∷ [];
      accepted = 4 ∷ 5 ∷ 6 ∷ [];
      served = 4 ∷ 6 ∷ [];
      removed = 4 ∷ [];
    })
unfolding rounds select_round after_select select fill_fdset fill_loop fd_set serve_loop interact
    remove_client entries
five_is_skipped = refl

-- A client connects, and 5 and 6 are ready.
abbrev all_ready : Kernel
all_ready = record {
  nfds = pos 3;
  is_ready = λ fd. true;
  accepts = pos 7;
  reads = λ fd. if fd == 3 then (minus_one, 0) else (pos 4, fd);
  writes = λ _ _. pos 4;
}

abbrev polled : Table
polled = record { clients = 3 ∷ 5 ∷ 6 ∷ []; accepted = 5 ∷ 6 ∷ []; served = []; removed = [] }

poll_round-welcomed_example :
    poll_round all_ready 3 polled ≡ some (goes_on (welcomed 7 (interacts 2 3) polled))
poll_round-welcomed_example =
    poll_round-welcomed all_ready 3 2 7 polled (5 ∷ 6 ∷ []) refl refl refl refl refl
