-- ===== src/Server/Descriptors.antt =====
-- lecture_examples/9_aio/4_server_select.c: the set of descriptors that `select` is given.
use sysproghw.Base.{
  ℕ, ◌+◌, ◌≤◌, ◌<◌, ◌≡◌, refl, inl, inr, ◌⊎◌, true, List, [], ◌∷◌, ◌++◌, some, ◌==◌, ltb,
  if◌then◌else◌, arith, Bool-cases,
}
use sysproghw.Server.{Kernel, fd_setsize, fd_set, fill_loop, fill_fdset, mem, select}
use sysproghw.Server.Serving.{IsMerge, nil, left, right}

-- An `fd_set` has a bit for each of them.
abbrev pub AllFit : List ℕ → Type 0
AllFit [] = Unit
AllFit (c ∷ cs) = (c < fd_setsize) × AllFit cs

pub AllFit-snoc : (cs : List ℕ) (c : ℕ) → AllFit cs → c < fd_setsize → AllFit (cs ++ c ∷ [])
AllFit-snoc [] c h lt = (lt, tt)
AllFit-snoc (d ∷ cs) c (lt', h) lt = (lt', AllFit-snoc cs c h lt)

pub AllFit-left : {xs ys zs : List ℕ} → IsMerge xs ys zs → AllFit zs → AllFit xs
AllFit-left nil h = tt
AllFit-left (left x m) (lt, h) = (lt, AllFit-left m h)
AllFit-left (right y m) (lt, h) = AllFit-left m h

fd_set-some : (c : ℕ) (set : List ℕ) → c < fd_setsize → fd_set c set ≡ some (c ∷ set)
unfolding fd_set
fd_set-some c set lt = let fits : ltb c fd_setsize ≡ true = ground arith in rw fits refl

mem_or : (c d : ℕ) (ds : List ℕ) → mem c ds ≡ true → mem c (d ∷ ds) ≡ true
mem_or c d ds h = elim (Bool-cases (d == c)) [ inl e ↦ rw e refl | inr e ↦ rw e h ]

-- The set takes in what it held and all clients, and `max_fd` is not below any of them.
record IsFilled (clients set : List ℕ) (max_fd : ℕ) (o : List ℕ × ℕ) : Type 0 where
  watched :
      (c : ℕ)
      → (mem c clients ≡ true) ⊎ (mem c set ≡ true) × (c ≤ max_fd)
      → (mem c o.0 ≡ true) × (c ≤ o.1)

fill_loop-IsFilled :
    (clients set : List ℕ) (max_fd : ℕ)
    → AllFit clients
    → (o : List ℕ × ℕ) × (fill_loop clients (set, max_fd) ≡ some o) × IsFilled clients set max_fd o
unfolding fill_loop
fill_loop-IsFilled [] set max_fd h =
    ((set, max_fd), refl, record { watched = λ c held. elim held [ inl m ↦ cc | inr m ↦ m ] })
fill_loop-IsFilled (d ∷ ds) set max_fd (lt, h) =
    let (o, e, filled) = fill_loop-IsFilled ds (d ∷ set) (if ltb max_fd d then d else max_fd) h in
    (
      o,
      rw (fill_loop, fd_set-some d set lt) e,
      record {
        watched = λ c held. elim held [
          | inr (m, le) ↦ filled.watched c (inr (mem_or c d set m, ground arith))
          | inl m ↦ elim (Bool-cases (d == c)) [
            | inl same ↦ filled.watched c (inr (rw same refl, ground arith))
            | inr other ↦ filled.watched c (inl (rw other at m))
          ]
        ];
      },
    )

-- What `select` marks of these descriptors is what is ready.
abbrev pub Watches : Kernel → List ℕ → List ℕ × ℕ → Type 0
Watches k fds filled = (c : ℕ) → mem c fds ≡ true → (select k filled).is_ready c ≡ k.is_ready c

-- The set is filled, and `select` watches the server and all its clients.
pub fill_fdset-Watches :
    (k : Kernel) (clients : List ℕ) (server : ℕ)
    → AllFit (server ∷ clients)
    → (filled : List ℕ × ℕ) × (fill_fdset clients server ≡ some filled)
      × Watches k (server ∷ clients) filled
unfolding fill_fdset select
fill_fdset-Watches k clients server (lt, h) =
    let (o, e, filled) = fill_loop-IsFilled clients (server ∷ []) server h in
    (
      o,
      rw (fill_fdset, fd_set-some server [] lt) e,
      λ c m.
          let (member, below) = filled.watched c (start c m) in
          let test : ltb c (o.1 + 1) ≡ true = ground arith in rw (member, test) refl,
    )
  where
    start :
        (c : ℕ)
        → mem c (server ∷ clients) ≡ true
        → (mem c clients ≡ true) ⊎ (mem c (server ∷ []) ≡ true) × (c ≤ server)
    start c m = elim (Bool-cases (server == c)) [
      | inl e ↦ inr (rw e refl, ground arith)
      | inr e ↦ inl (rw e at m)
    ]
