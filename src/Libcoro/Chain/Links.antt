-- ===== src/Libcoro/Chain/Links.antt =====
-- lecture_examples/4_signals/12_libcoro.c: `coro_list_add` and `coro_list_delete`.
use mathlib.Core.Path.{subst}
use sysproghw.Base.{
  ℕ, inl, inr, ◌==◌, Bool-cases, arith, ◌≡◌, refl, ◌∙◌, sym, ap, Bool, List, [], ◌∷◌, ◌++◌, Option,
  none, some, Option-cases,
}
use sysproghw.Base.Int.{ℤ}
use sysproghw.Libcoro.State.{
  Work, Coro, Heap, State, put, set_next, set_prev, head_after, coro_list_add, coro_list_delete,
}
use sysproghw.Libcoro.Chain.{
  IsSegment, IsList, put_self, put_ne, IsSegment-frame, last_of, split_IsSegment, join_IsSegment,
  set_prev-IsSegment, set_next-IsSegment,
}
use sysproghw.Libcoro.Chain.Distinct.{NotIn, IsDistinct, NotIn-Apart, Cut-IsDistinct}

-- All of a coroutine but its links.
abbrev pub data_of : Option Coro → Option (ℤ × Work × Work × Bool)
data_of none = none
data_of (some c) = some (c.ret, c.func, c.ctx, c.is_finished)

-- Only links have changed.
abbrev pub IsRelinked : Heap → Heap → Type 0
IsRelinked h h' = (b : ℕ) → data_of (h' b) ≡ data_of (h b)

put-IsRelinked :
    (h : Heap) (a : ℕ) (c c' : Coro)
    → h a ≡ some c
    → data_of (some c') ≡ data_of (some c)
    → IsRelinked h (put a (some c') h)
put-IsRelinked h a c c' at e b = elim (Bool-cases (b == a)) [
  | inl same ↦
      (let same' : b ≡ a = ground arith in
        rw same (e ∙ ap data_of (sym at) ∙ ap (λ d. data_of (h d)) (sym same')))
  | inr other ↦ rw other refl
]

some_injective : {A : Type 0} {x y : A} → some x ≡ some y → x ≡ y
some_injective e = cc

set_next-IsRelinked : (p n : Option ℕ) (h h' : Heap) → set_next p n h ≡ some h' → IsRelinked h h'
set_next-IsRelinked none n h h' e b = ap (λ g. data_of (g b)) (sym (some_injective e))
set_next-IsRelinked (some p) n h h' e b = elim (Option-cases (h p)) [
  | inl missing ↦ (let bad : none ≡ some h' = rw missing at e in cc)
  | inr (c, at) ↦
      (let now : some (put p (some (record c { next = n })) h) ≡ some h' = rw at at e in
        ap (λ g. data_of (g b)) (sym (some_injective now))
        ∙ put-IsRelinked h p c (record c { next = n }) at refl b)
]

set_prev-IsRelinked : (n p : Option ℕ) (h h' : Heap) → set_prev n p h ≡ some h' → IsRelinked h h'
set_prev-IsRelinked none p h h' e b = ap (λ g. data_of (g b)) (sym (some_injective e))
set_prev-IsRelinked (some n) p h h' e b = elim (Option-cases (h n)) [
  | inl missing ↦ (let bad : none ≡ some h' = rw missing at e in cc)
  | inr (c, at) ↦
      (let now : some (put n (some (record c { prev = p })) h) ≡ some h' = rw at at e in
        ap (λ g. data_of (g b)) (sym (some_injective now))
        ∙ put-IsRelinked h n c (record c { prev = p }) at refl b)
]

coro_list_add-steps :
    (a : ℕ) (s : State) (c : Coro) (h' : Heap)
    → s.heap a ≡ some c
    → set_prev s.coro_list
        (some a)
        (put a (some (record c { next = s.coro_list; prev = none })) s.heap)
      ≡ some h'
    → coro_list_add a s ≡ some (record s { heap = h'; coro_list = some a })
unfolding coro_list_add
coro_list_add-steps a s c h' e₁ e₂ = simp (coro_list_add, e₁, e₂) refl

-- `coro_list_add` of a coroutine that is not in the list puts it in front, linked in both directions, and
-- changes nothing but links.
pub coro_list_add-IsList :
    (a : ℕ) (s : State) (c : Coro) (ids : List ℕ)
    → s.heap a ≡ some c
    → NotIn a ids
    → IsList s ids
    → (s' : State) × (coro_list_add a s ≡ some s')
      × IsList s' (a ∷ ids)
      × IsRelinked s.heap s'.heap
      × (s'.coro_this_ptr ≡ s.coro_this_ptr)
coro_list_add-IsList a s c ids at fresh (chain, d) =
    let c' : Coro = record c { next = s.coro_list; prev = none } in
    let h₁ : Heap = put a (some c') s.heap in
    let elsewhere : (b : ℕ) → NotIn b (a ∷ []) → h₁ b ≡ s.heap b =
      (λ b n. put_ne a b (some c') s.heap (λ q. n.0 (sym q))) in
    let chain₁ =
      IsSegment-frame s.heap h₁ none s.coro_list ids none (a ∷ []) elsewhere
        (NotIn-Apart a ids fresh) chain in
    let (h₂, e, chain₂, same) = set_prev-IsSegment h₁ none (some a) s.coro_list ids d chain₁ in
    (
      record s { heap = h₂; coro_list = some a },
      coro_list_add-steps a s c h₂ at e,
      ((refl, c', same a fresh ∙ put_self a (some c') s.heap, refl, chain₂), (fresh, d)),
      λ b.
          set_prev-IsRelinked s.coro_list (some a) h₁ h₂ e b
          ∙ put-IsRelinked s.heap a c c' at refl b,
      refl,
    )

coro_list_delete-steps :
    (a : ℕ) (s : State) (c : Coro) (h₁ h₂ : Heap)
    → s.heap a ≡ some c
    → set_next c.prev c.next s.heap ≡ some h₁
    → set_prev c.next c.prev h₁ ≡ some h₂
    → coro_list_delete a s
      ≡ some (record s { heap = h₂; coro_list = head_after c.prev c.next s.coro_list })
unfolding coro_list_delete
coro_list_delete-steps a s c h₁ h₂ e₁ e₂ e₃ = simp (coro_list_delete, e₁, e₂, e₃) refl

-- What leads to the coroutine now leads past it.
lead_past :
    (h : Heap) (cur mid : Option ℕ) (xs : List ℕ) (n : Option ℕ)
    → IsDistinct xs
    → IsSegment h none cur xs mid
    → (h' : Heap) × (set_next (last_of none xs) n h ≡ some h')
      × IsSegment h' none (head_after (last_of none xs) n cur) xs n
      × ((b : ℕ) → NotIn b xs → h' b ≡ h b)
lead_past h cur mid [] n d e = (h, refl, refl, λ b m. refl)
lead_past h cur mid (x ∷ xs) n d s =
    let (h', e, s', same) = set_next-IsSegment h none cur mid n x xs d s in
    (h', e, subst (λ o. IsSegment h' none o (x ∷ xs) n) (sym (kept x xs)) s', same)
  where
    kept : (y : ℕ) (ys : List ℕ) → head_after (last_of (some y) ys) n cur ≡ cur
    kept y [] = refl
    kept y (z ∷ ys) = kept z ys

-- `coro_list_delete` takes the coroutine out of the list, wherever it stands there. The others keep their
-- order, linked in both directions, and nothing but links and the head of the list changes.
pub coro_list_delete-IsList :
    (s : State) (xs : List ℕ) (a : ℕ) (ys : List ℕ)
    → IsList s (xs ++ a ∷ ys)
    → (s' : State) × (coro_list_delete a s ≡ some s')
      × IsList s' (xs ++ ys)
      × IsRelinked s.heap s'.heap
      × (s'.coro_this_ptr ≡ s.coro_this_ptr)
      × (s'.is_sched_waiting ≡ s.is_sched_waiting)
coro_list_delete-IsList s xs a ys (chain, d) =
    let (mid, left, (_, c, at, back, right)) =
      split_IsSegment s.heap none s.coro_list xs (a ∷ ys) none chain in
    let cut = Cut-IsDistinct xs a ys d in
    let p = last_of none xs in
    let (h₁, e₁, left₁, same₁) = lead_past s.heap s.coro_list mid xs c.next cut.front left in
    let right₁ = IsSegment-frame s.heap h₁ (some a) c.next ys none xs same₁ cut.apart right in
    let (h₂, e₂, right₂, same₂) = set_prev-IsSegment h₁ (some a) p c.next ys cut.behind right₁ in
    let left₂ =
      IsSegment-frame h₁ h₂ none (head_after p c.next s.coro_list) xs c.next ys same₂ cut.apart'
        left₁ in
    let s' : State = record s { heap = h₂; coro_list = head_after p c.next s.coro_list } in
    (
      s',
      coro_list_delete-steps a s c h₁ h₂ at (ap (λ o. set_next o c.next s.heap) back ∙ e₁)
            (ap (λ o. set_prev c.next o h₁) back ∙ e₂)
          ∙ ap (λ o. some (record s { heap = h₂; coro_list = head_after o c.next s.coro_list }))
              back,
      (
        join_IsSegment h₂ none (head_after p c.next s.coro_list) c.next xs ys none left₂ right₂,
        cut.rest,
      ),
      λ b. set_prev-IsRelinked c.next p h₁ h₂ e₂ b ∙ set_next-IsRelinked p c.next s.heap h₁ e₁ b,
      refl,
      refl,
    )
