-- ===== src/Libcoro/Creation/Restoring.antt =====
-- lecture_examples/4_signals/12_libcoro.c: `coro_new` leaves no trace but a new coroutine in the list.
use sysproghw.Base.{
  ℕ, ◌≡◌, ◌≢◌, refl, ◌∙◌, sym, ap, true, false, List, [], ◌∷◌, none, some, ◌==◌, arith,
}
use sysproghw.Base.Int.{pos}
use sysproghw.Libcoro.State.{Work, Coro, Heap, State, put, coro_list_add}
use sysproghw.Libcoro.Chain.{put_self, put_ne, IsSegment-frame}
use sysproghw.Libcoro.Chain.Distinct.{NotIn, NotIn-Apart}
use sysproghw.Libcoro.Chain.Links.{data_of, coro_list_add-IsList}
use sysproghw.Libcoro.Heaps.{final, outcome, outcome_data, alive_data, AllAlive-frame, put-AllAlive}
use sysproghw.Libcoro.Waiting.{IsReady, outcome-IsRelinked}
use sysproghw.Libcoro.Creation.{
  AltStack, disabled, enabled, Signals, Process, coro_body_start, suspend, start_context, roll_back,
  coro_new,
}

module _ (a : ℕ) (junk : Coro) (func : Work) (h : Heap) where
  -- The new coroutine, before and after `coro_body` has kept its context.
  abbrev fresh_coro : Coro
  fresh_coro = record junk { ret = pos 0; func = func; is_finished = false }

  abbrev started_coro : Coro
  started_coro = record junk { ret = pos 0; func = func; is_finished = false; ctx = func }

  abbrev started_heap : Heap
  started_heap = put a (some started_coro) (put a (some fresh_coro) h)

  started_heap_ne : (b : ℕ) → a ≢ b → started_heap b ≡ h b
  started_heap_ne b ne =
      put_ne a b (some started_coro) (put a (some fresh_coro) h) ne
      ∙ put_ne a b (some fresh_coro) h ne

signals_same :
    (g : Signals)
    → g.is_pending ≡ false
    → record g { is_pending = false; alt_stack = roll_back g.alt_stack disabled } ≡ g
signals_same g quiet =
    ap (λ o. record g { is_pending = false; alt_stack = o }) (restored g.alt_stack)
    ∙ ap (λ b. record g { is_pending = b }) (sym quiet)
  where
    restored : (o : AltStack) → roll_back o disabled ≡ o
    restored disabled = refl
    restored (enabled n) = refl

coro_new-steps :
    (a : ℕ) (junk : Coro) (stack : ℕ) (func : Work) (p : Process) (s : State)
    → p.signals.is_pending ≡ false
    → coro_list_add a (record p.state { heap = started_heap a junk func p.state.heap }) ≡ some s
    → coro_new a junk stack func p ≡ some (a, record { signals = p.signals; state = s })
unfolding coro_new start_context suspend coro_body_start
coro_new-steps a junk stack func p s quiet e =
    let here : (a == a) ≡ true = ground arith in
    simp (here, e)
      (ap (λ g. some (a, record { signals = g; state = s })) (signals_same p.signals quiet))

-- `coro_new` adds a coroutine that has not ended and is to return what its function returns, in
-- front of the others, whose order and results stay; the blocked signals, the handler of SIGUSR2,
-- the stack for handlers and the running coroutine are afterwards what they were, where no SIGUSR2
-- was pending. `malloc` returns an address that is not in use.
pub coro_new-IsReady :
    (a : ℕ) (junk : Coro) (stack : ℕ) (func : Work) (p : Process) (ids : List ℕ)
    → IsReady p.state ids
    → NotIn a ids
    → p.signals.is_pending ≡ false
    → (p' : Process) × (coro_new a junk stack func p ≡ some (a, p'))
      × (p'.signals ≡ p.signals)
      × IsReady p'.state (a ∷ ids)
      × (outcome p'.state.heap a ≡ some (final func))
      × ((b : ℕ) → a ≢ b → outcome p'.state.heap b ≡ outcome p.state.heap b)
coro_new-IsReady a junk stack func p ids ready fresh quiet =
    let h₀ = put a (some (fresh_coro a junk func p.state.heap)) p.state.heap in
    let h = started_heap a junk func p.state.heap in
    let at : h a ≡ some (started_coro a junk func p.state.heap) = put_self a _ h₀ in
    let elsewhere : (b : ℕ) → NotIn b (a ∷ []) → h b ≡ p.state.heap b =
      (λ b n. started_heap_ne a junk func p.state.heap b (λ q. n.0 (sym q))) in
    let seg =
      IsSegment-frame p.state.heap h none p.state.coro_list ids none (a ∷ []) elsewhere
        (NotIn-Apart a ids fresh) ready.listed.0 in
    let (s, e, list, same, this) =
      coro_list_add-IsList a (record p.state { heap = h }) (started_coro a junk func p.state.heap)
        ids at fresh (seg, ready.listed.1) in
    (
      record { signals = p.signals; state = s },
      coro_new-steps a junk stack func p s quiet e,
      refl,
      record {
        listed = list;
        alive = (
          ap alive_data (same a) ∙ ap (λ o. alive_data (data_of o)) at,
          AllAlive-frame h s.heap ids same
              (put-AllAlive h₀ a _ ids fresh (put-AllAlive p.state.heap a _ ids fresh ready.alive)),
        );
        scheduling = this ∙ ready.scheduling;
      },
      outcome-IsRelinked h s.heap same a ∙ ap (λ o. outcome_data (data_of o)) at,
      λ b ne.
          outcome-IsRelinked h s.heap same b
          ∙ ap (λ o. outcome_data (data_of o)) (started_heap_ne a junk func p.state.heap b ne),
    )
