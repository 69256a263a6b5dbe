-- ===== src/Shell/Redirect.antt =====
-- 2/shell.c: `check_append`, `check_write`, `check_read` and `open_files`.
pub mod Order
use sysproghw.Base.{
  ℕ, zero, suc, ◌+◌, Bool, true, false, ◌&&◌, List, [], ◌∷◌, ◌++◌, Option, none, some, ◌==◌,
  if◌then◌else◌, length, drop, bind,
}
use sysproghw.Shell.Token.{Word, Token, word_eq, is_first, is_second, is_default}

-- A file that is opened, and put in the place of descriptor 1 or, for `reads`, of descriptor 0.
pub data Redirect : Type 0 where
  appends writes reads : Word → Redirect

-- `p` and the nodes behind it; the empty list is NULL.
unfoldable pub check_append : List Token → Bool
unfolding word_eq
check_append (p ∷ q ∷ r ∷ _) =
    word_eq p.word (b'>' ∷ [])
    && is_first p.spec
    && word_eq q.word (b'>' ∷ [])
    && is_second q.spec
    && is_default r.spec
check_append _ = false

unfoldable pub check_write : List Token → Bool
unfolding word_eq
check_write (p ∷ q ∷ _) = word_eq p.word (b'>' ∷ []) && is_first p.spec && is_default q.spec
check_write _ = false

unfoldable pub check_read : List Token → Bool
unfolding word_eq
check_read (p ∷ q ∷ _) = word_eq p.word (b'<' ∷ []) && is_first p.spec && is_default q.spec
check_read _ = false

-- The word of the n-th node.
abbrev word_at : ℕ → List Token → Word
word_at n [] = []
word_at zero (t ∷ r) = t.word
word_at (suc n) (t ∷ r) = word_at n r

-- What is behind `head`, and the files opened so far.
abbrev pub Nodes : Type 0
Nodes = List Token × List Redirect

unfoldable pub append_step : Nodes → Nodes
append_step (l, o) = if check_append l then (drop 3 l, o ++ appends (word_at 2 l) ∷ []) else (l, o)

unfoldable pub write_step : Nodes → Nodes
write_step (l, o) = if check_write l then (drop 2 l, o ++ writes (word_at 1 l) ∷ []) else (l, o)

unfoldable pub read_step : Nodes → Nodes
read_step (l, o) = if check_read l then (drop 2 l, o ++ reads (word_at 1 l) ∷ []) else (l, o)

-- The body of the loop up to `head = head->next`: the three tests, one after the other.
unfoldable pub open_next : List Token → Nodes
unfolding append_step write_step read_step check_append check_write check_read
open_next l = read_step (write_step (append_step (l, [])))

-- `head = head->next`, and the rounds behind it unless that is NULL.
abbrev pub go_on : Nodes → (List Token → Option Nodes) → Option Nodes
go_on ([], o) rounds = some ([], o)
go_on (u ∷ l, o) rounds = bind (rounds l) (λ (l', o'). some (u ∷ l', o ++ o'))

-- `while(head->next)`, on fuel, over the nodes behind `head`.
unfoldable pub open_loop : ℕ → List Token → Option Nodes
open_loop zero l = none
open_loop (suc k) [] = some ([], [])
open_loop (suc k) (t ∷ r) = go_on (open_next (t ∷ r)) (open_loop k)

-- The tokens that are left for `argv`, and the files opened, in order.
unfoldable pub open_files : List Token → Option Nodes
open_files [] = some ([], [])
open_files (t ∷ r) = bind (open_loop (length r + 1) r) (λ (l, o). some (t ∷ l, o))
