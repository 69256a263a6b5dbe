-- ===== src/Server.antt =====
-- lecture_examples/9_aio/4_server_select.c and 5_server_poll.c: servers of many clients in one thread.
--
-- A client is its file descriptor. What the kernel answers in one round of the loop of `main` is a
-- record, an argument of the definitions.

mod Tests
pub mod Descriptors
pub mod Serving
pub mod Removing
pub mod Steps
pub mod Looping
pub mod Rounds
pub mod Polling
use sysproghw.Base.{
  ℕ, zero, suc, ◌+◌, ◌-◌, ◌^◌, ◌%◌, Bool, true, false, not, ◌&&◌, List, [], ◌∷◌, ◌++◌, Option, none,
  some, ◌==◌, leb, ltb, if◌then◌else◌, length, take, drop, get_elem?, bind,
}
use sysproghw.Base.Int.{ℤ, pos, negsuc}

-- The answers of one round: `nfds`, the result of `select` or `poll`; which descriptors it marks; what
-- `accept` returns; for each client, what `read` returns with the number read, and what `write` returns.
pub record Kernel : Type 0 where
  pub nfds : ℤ
  pub is_ready : ℕ → Bool
  pub accepts : ℤ
  pub reads : ℕ → ℤ × ℕ
  pub writes : ℕ → ℕ → ℤ

-- A message of 32 bits is answered by the next number.
unfoldable pub interact : Kernel → ℕ → ℤ
interact k client_sock =
    let (size, buffer) = k.reads client_sock in
    elim size [
      | pos zero ↦ pos zero
      | negsuc n ↦ negsuc n
      | pos (suc n) ↦ k.writes client_sock ((buffer + 1) % 2 ^ 32)
    ]

-- FD_SETSIZE of the C library on Linux: the bits that an `fd_set` has.
abbrev pub fd_setsize : ℕ
fd_setsize = 1024

-- `FD_SET(fd, set)`, which is undefined for a descriptor that the set has no bit for.
unfoldable pub fd_set : ℕ → List ℕ → Option (List ℕ)
fd_set fd set = if ltb fd fd_setsize then some (fd ∷ set) else none

-- `FD_SET(clients[i], set)` and `max_fd`
unfoldable pub fill_loop : List ℕ → List ℕ × ℕ → Option (List ℕ × ℕ)
fill_loop [] (set, max_fd) = some (set, max_fd)
fill_loop (c ∷ clients) (set, max_fd) =
    bind (fd_set c set) (λ more. fill_loop clients (more, if ltb max_fd c then c else max_fd))

-- The set as the list of its members, and the highest of them.
unfoldable pub fill_fdset : List ℕ → ℕ → Option (List ℕ × ℕ)
fill_fdset clients server = bind (fd_set server []) (λ set. fill_loop clients (set, server))

-- `memcpy` of `n` entries from place `at` on; `none` where it runs over the end.
unfoldable pub entries : List ℕ → ℕ → ℕ → Option (List ℕ)
entries clients at n =
    if leb (at + n) (length clients) then some (take n (drop at clients)) else none

-- The entries before `i` and those behind it, in an array with one place less.
unfoldable pub remove_client : List ℕ → ℕ → Option (List ℕ)
remove_client clients i =
    let client_count = length clients - 1 in
    if ltb client_count i
    then none
    else bind (entries clients 0 i)
        (λ front. bind (entries clients (i + 1) (client_count - i)) (λ back. some (front ++ back)))

-- The table of clients, with the descriptors that were accepted, those of the lines "Interact with fd",
-- and those that disconnected.
pub record Table : Type 0 where
  pub clients : List ℕ
  pub accepted : List ℕ
  pub served : List ℕ
  pub removed : List ℕ

abbrev pub serves : ℕ → Table → Table
serves c t = record t { served = t.served ++ c ∷ [] }

abbrev pub loses : ℕ → Table → List ℕ → Table
loses c t clients = record t { clients = clients; removed = t.removed ++ c ∷ [] }

-- `for (int i = 0; i < client_count && nfds > 0; ++i)`, on fuel: `none` where it is used up, and where a
-- `memcpy` runs over the end of the table.
unfoldable pub serve_loop : ℕ → Kernel → (i nfds : ℕ) → Table → Option Table
serve_loop zero k i nfds t = none
serve_loop (suc fuel) k i nfds t = elim (ltb 0 nfds) [
  | false ↦ some t
  | true ↦ elim (get_elem? t.clients i) [
    | none ↦ some t
    | some c ↦ elim (k.is_ready c) [
      | false ↦ serve_loop fuel k (i + 1) nfds t
      | true ↦ elim (interact k c) [
        | negsuc zero ↦ some (serves c t)
        | pos zero ↦
            bind (remove_client t.clients i)
              (λ clients. serve_loop fuel k (i + 1) (nfds - 1) (loses c (serves c t) clients))
        | _ ↦ serve_loop fuel k (i + 1) (nfds - 1) (serves c t)
      ]
    ]
  ]
]

-- How a round of `while(1)` ends: with another round, or by `break`.
pub data Round : Type 0 where
  goes_on : Table → Round
  stops : Table → Round

-- The loop over the clients, behind which the next round comes.
abbrev pub serve_all : Kernel → ℕ → Table → Option Round
serve_all k nfds t = bind (serve_loop (suc (length t.clients)) k 0 nfds t) (λ u. some (goes_on u))

abbrev pub accepts_client : ℕ → Table → Table
accepts_client c t = record t { clients = t.clients ++ c ∷ []; accepted = t.accepted ++ c ∷ [] }

abbrev pub mem : ℕ → List ℕ → Bool
mem c [] = false
mem c (d ∷ ds) = if d == c then true else mem c ds

-- `select(max_fd + 1, &readset, ...)`: of what is ready it marks, as its manual says, the members
-- of the set below its first argument.
unfoldable pub select : Kernel → List ℕ × ℕ → Kernel
select k (set, max_fd) = record k {
  is_ready = λ fd. mem fd set && ltb fd (max_fd + 1) && k.is_ready fd;
}

-- What follows `select` in a round. `select` and `accept` return no other negative number than -1. The
-- loop asks `FD_ISSET` about an accepted client too, which is undefined for a descriptor that the set
-- has no bit for; here it is so whether or not the loop gets that far.
unfoldable pub after_select : Kernel → ℕ → Table → Option Round
after_select k server t = elim k.nfds [
  | negsuc _ ↦ some (stops t)
  | pos zero ↦ some (goes_on t)
  | pos (suc n) ↦ elim (k.is_ready server) [
    | false ↦ serve_all k (suc n) t
    | true ↦ elim k.accepts [
      | negsuc _ ↦ some (stops t)
      | pos c ↦ if ltb c fd_setsize then serve_all k n (accepts_client c t) else none
    ]
  ]
]

-- A round of `main` of 4_server_select.c.
unfoldable pub select_round : Kernel → ℕ → Table → Option Round
select_round k server t =
    bind (fill_fdset t.clients server) (λ filled. after_select (select k filled) server t)

-- `while(1)`, on the answers of the kernel to its rounds.
unfoldable pub rounds : List Kernel → ℕ → Table → Option Table
rounds [] server t = some t
rounds (k ∷ ks) server t =
    bind (select_round k server t)
      (λ r. elim r [ stops u ↦ some u | goes_on u ↦ rounds ks server u ])

abbrev pub no_clients : Table
no_clients = record { clients = []; accepted = []; served = []; removed = [] }

-- The descriptors that are closed when `main` returns.
abbrev pub closed : ℕ → Table → List ℕ
closed server t = server ∷ t.clients

-- A round of `main` of 5_server_poll.c, where the first entry of the table is the listening socket.
unfoldable pub poll_round : Kernel → ℕ → Table → Option Round
poll_round k server t = elim k.nfds [
  | negsuc _ ↦ some (stops t)
  | pos zero ↦ some (goes_on t)
  | pos (suc n) ↦ bind (get_elem? t.clients 0) (λ first. elim (k.is_ready first) [
    | false ↦ serve_all k (suc n) t
    | true ↦ elim k.accepts [
      | negsuc _ ↦ some (stops t)
      | pos c ↦ serve_all k n (accepts_client c t)
    ]
  ])
]
