-- ===== src/Server/Looping.antt =====
-- lecture_examples/9_aio/4_server_select.c: the loop over the table, whose places move as it runs.
use mathlib.Core.List.{append_assoc, append-nil}
use sysproghw.Base.{
  get_elem?-middle, get_elem?-end, ℕ, zero, suc, ◌+◌, ◌<◌, ◌≡◌, refl, ap, sym, ◌∙◌, inl, inr, true,
  false, List, [], ◌∷◌, ◌++◌, Option, none, some, length, length-append, get_elem?, arith,
  Bool-cases,
}
use sysproghw.Base.Int.{ℤ, pos, negsuc}
use sysproghw.Server.{Kernel, interact, remove_client, Table, serves, loses, serve_loop}
use sysproghw.Server.Serving.{
  is_gone, is_fine, result-cases, IsServed, none_left, no_more, not_ready, fails, last_gone, skips,
  is_answered,
}
use sysproghw.Server.Removing.{remove_client-middle}
use sysproghw.Server.Steps.{
  loop-skip, loop-fail, loop-gone, loop-next, HasServed, Ends, loop-done, loop-end,
}

-- The loop from the place behind `d` on, and what came before it.
extends :
    (k : Kernel) (m n d : ℕ) (before rest cs s r : List ℕ) (t t' u : Table)
    → t'.accepted ≡ t.accepted
    → t'.served ≡ t.served ++ s
    → t'.removed ≡ t.removed ++ r
    → ((kept served removed : List ℕ)
        → IsServed k m rest kept served removed
        → IsServed k n cs (d ∷ kept) (s ++ served) (r ++ removed))
    → HasServed k m (before ++ d ∷ []) rest t' u
    → HasServed k n before cs t u
extends k m n d before rest cs s r t t' u a e e' more h = record {
  kept = d ∷ h.kept;
  served = s ++ h.served;
  removed = r ++ h.removed;
  clients = h.clients ∙ append_assoc before (d ∷ []) h.kept;
  accepted = h.accepted ∙ a;
  lines = h.lines ∙ ap (λ l. l ++ h.served) e ∙ append_assoc t.served s h.served;
  losses = h.losses ∙ ap (λ l. l ++ h.removed) e' ∙ append_assoc t.removed r h.removed;
  is_served = more h.kept h.served h.removed h.is_served;
}

-- The loop ends where it stands.
stands :
    (k : Kernel) (nfds : ℕ) (before cs s r kept : List ℕ) (t u : Table)
    → u.clients ≡ before ++ kept
    → u.accepted ≡ t.accepted
    → u.served ≡ t.served ++ s
    → u.removed ≡ t.removed ++ r
    → IsServed k nfds cs kept s r
    → HasServed k nfds before cs t u
stands k nfds before cs s r kept t u e a l m h = record {
  kept = kept;
  served = s;
  removed = r;
  clients = e;
  accepted = a;
  lines = l;
  losses = m;
  is_served = h;
}

Ends-extend :
    (k : Kernel) (m n d : ℕ) (before rest cs s r : List ℕ) (t t' : Table) (o o' : Option Table)
    → o ≡ o'
    → t'.accepted ≡ t.accepted
    → t'.served ≡ t.served ++ s
    → t'.removed ≡ t.removed ++ r
    → ((kept served removed : List ℕ)
        → IsServed k m rest kept served removed
        → IsServed k n cs (d ∷ kept) (s ++ served) (r ++ removed))
    → Ends k m (before ++ d ∷ []) rest t' o'
    → Ends k n before cs t o
Ends-extend k m n d before rest cs s r t t' o o' same a e e' more (u, ok, h) =
    (u, same ∙ ok, extends k m n d before rest cs s r t t' u a e e' more h)

-- A client that has disconnected: it is removed, and the one behind it is skipped.
gone_round :
    (fuel : ℕ) (k : Kernel) (i n : ℕ) (before : List ℕ) (c : ℕ) (cs : List ℕ) (t : Table)
    → ((i nfds : ℕ) (before cs : List ℕ) (t : Table)
        → i ≡ length before
        → t.clients ≡ before ++ cs
        → length cs < fuel
        → Ends k nfds before cs t (serve_loop fuel k i nfds t))
    → i ≡ length before
    → length (c ∷ cs) < suc fuel
    → get_elem? t.clients i ≡ some c
    → remove_client t.clients i ≡ some (before ++ cs)
    → k.is_ready c ≡ true
    → interact k c ≡ pos zero
    → Ends k (suc n) before (c ∷ cs) t (serve_loop (suc fuel) k i (suc n) t)
gone_round zero k i n before c cs t later at enough there m r z = absurd (omega arith)
gone_round (suc fuel) k i zero before c [] t later at enough there m r z = (
  loses c (serves c t) (before ++ []),
  loop-gone (suc fuel) k i zero t c (before ++ []) there r z m ∙ loop-done fuel k (i + 1) _,
  stands k 1 before (c ∷ []) (c ∷ []) (c ∷ []) [] t _ refl refl refl refl (last_gone k 0 c r z),
)
gone_round (suc fuel) k i (suc n) before c [] t later at enough there m r z =
    let past : get_elem? (before ++ []) (i + 1) ≡ none =
      ap (λ l. get_elem? l (i + 1)) (append-nil before)
      ∙ get_elem?-end before (i + 1) (omega (arith, at)) in
    (
      loses c (serves c t) (before ++ []),
      loop-gone (suc fuel) k i (suc n) t c (before ++ []) there r z m
          ∙ loop-end fuel k (i + 1) n (loses c (serves c t) (before ++ [])) past,
      stands k (suc (suc n)) before (c ∷ []) (c ∷ []) (c ∷ []) [] t _ refl refl refl refl
          (last_gone k (suc n) c r z),
    )
gone_round (suc fuel) k i n before c (d ∷ ds) t later at enough there m r z =
    Ends-extend k n (suc n) d before ds (c ∷ d ∷ ds) (c ∷ []) (c ∷ []) t _ _ _
      (loop-gone (suc fuel) k i n t c (before ++ d ∷ ds) there r z m) refl refl refl
      (λ kept served removed. skips k n c d ds kept served removed r z)
      (later (i + 1) n (before ++ d ∷ []) ds (loses c (serves c t) (before ++ d ∷ ds))
        (omega (arith, at, length-append before (d ∷ []))) (sym (append_assoc before (d ∷ []) ds))
        (omega arith))

-- A client that is ready.
ready_round :
    (fuel : ℕ) (k : Kernel) (i n : ℕ) (before : List ℕ) (c : ℕ) (cs : List ℕ) (t : Table)
    → ((i nfds : ℕ) (before cs : List ℕ) (t : Table)
        → i ≡ length before
        → t.clients ≡ before ++ cs
        → length cs < fuel
        → Ends k nfds before cs t (serve_loop fuel k i nfds t))
    → i ≡ length before
    → t.clients ≡ before ++ c ∷ cs
    → length (c ∷ cs) < suc fuel
    → get_elem? t.clients i ≡ some c
    → i + 1 ≡ length (before ++ c ∷ [])
    → t.clients ≡ (before ++ c ∷ []) ++ cs
    → k.is_ready c ≡ true
    → Ends k (suc n) before (c ∷ cs) t (serve_loop (suc fuel) k i (suc n) t)
ready_round fuel k i n before c cs t later at e enough there next split r =
    elim (result-cases (interact k c)) [
      | inl z ↦
          gone_round fuel k i n before c cs t later at enough there
            (ap (λ l. remove_client l i) e
              ∙ ap (λ j. remove_client (before ++ c ∷ cs) j) at
              ∙ remove_client-middle before cs c)
            r z
      | inr (inl z) ↦ (
        serves c t,
        loop-fail fuel k i n t c there r z,
        stands k (suc n) before (c ∷ cs) (c ∷ []) [] (c ∷ cs) t _ e refl refl
            (sym (append-nil t.removed)) (fails k n c cs r z),
      )
      | inr (inr (inl (v, z))) ↦ answered (pos (suc v)) z refl refl
      | inr (inr (inr (v, z))) ↦ answered (negsuc (suc v)) z refl refl
    ]
  where
    answered :
        (v : ℤ)
        → interact k c ≡ v
        → is_fine v ≡ true
        → is_gone v ≡ false
        → Ends k (suc n) before (c ∷ cs) t (serve_loop (suc fuel) k i (suc n) t)
    answered v z f g =
        Ends-extend k n (suc n) c before cs (c ∷ cs) (c ∷ []) [] t _ _ _
          (loop-next fuel k i n t c v there r z f) refl refl (sym (append-nil t.removed))
          (λ kept served removed.
            is_answered k n c cs kept served removed r (ap is_fine z ∙ f) (ap is_gone z ∙ g))
          (later (i + 1) n (before ++ c ∷ []) cs (serves c t) next split (omega arith))

-- The loop, on more fuel than there are clients to come, ends.
pub serve_loop-HasServed :
    (fuel : ℕ) (k : Kernel) (i nfds : ℕ) (before cs : List ℕ) (t : Table)
    → i ≡ length before
    → t.clients ≡ before ++ cs
    → length cs < fuel
    → Ends k nfds before cs t (serve_loop fuel k i nfds t)
serve_loop-HasServed zero k i nfds before cs t at e enough = absurd (omega arith)
serve_loop-HasServed (suc fuel) k i zero before cs t at e enough = (
  t,
  loop-done fuel k i t,
  stands k 0 before cs [] [] cs t t e refl (sym (append-nil t.served)) (sym (append-nil t.removed))
      (none_left k cs),
)
serve_loop-HasServed (suc fuel) k i (suc n) before [] t at e enough = (
  t,
  loop-end fuel k i n t
      (ap (λ l. get_elem? l i) (e ∙ append-nil before) ∙ get_elem?-end before i (omega arith)),
  stands k (suc n) before [] [] [] [] t t e refl (sym (append-nil t.served))
      (sym (append-nil t.removed)) (no_more k (suc n)),
)
serve_loop-HasServed (suc fuel) k i (suc n) before (c ∷ cs) t at e enough =
    let there : get_elem? t.clients i ≡ some c =
      ap (λ l. get_elem? l i) e
      ∙ ap (λ j. get_elem? (before ++ c ∷ cs) j) at
      ∙ get_elem?-middle before cs c in
    let next : i + 1 ≡ length (before ++ c ∷ []) =
      omega (arith, at, length-append before (c ∷ [])) in
    let split : t.clients ≡ (before ++ c ∷ []) ++ cs = e ∙ sym (append_assoc before (c ∷ []) cs) in
    elim (Bool-cases (k.is_ready c)) [
      | inr r ↦
          Ends-extend k (suc n) (suc n) c before cs (c ∷ cs) [] [] t t _ _
            (loop-skip fuel k i n t c there r) refl (sym (append-nil t.served))
            (sym (append-nil t.removed))
            (λ kept served removed. not_ready k n c cs kept served removed r)
            (serve_loop-HasServed fuel k (i + 1) (suc n) (before ++ c ∷ []) cs t next split
              (omega arith))
      | inl r ↦
          ready_round fuel k i n before c cs t (serve_loop-HasServed fuel k) at e enough there next
            split r
    ]
