-- ===== src/CoroJmp/Turns.antt =====
-- 1/coro_jmp.h: the coroutine whose turn it is, as the user of the macros thinks of it.
use sysproghw.Base.{
  ℕ, zero, suc, ◌≡◌, refl, ◌∙◌, ap, List, [], ◌∷◌, Option, none, some, bind, get_elem?, set,
}
use sysproghw.CoroJmp.{Coros, at_this}
use sysproghw.CoroJmp.Stack.{View}

-- The coroutine whose turn it is, counted from the first one, does something; the others stay as
-- they are.
abbrev pub at_turn :
    ℕ → (View → Option (Option ℕ × View)) → List View → Option (Option ℕ × List View)
at_turn i f [] = none
at_turn zero f (v ∷ vs) = bind (f v) (λ o. some (o.0, o.1 ∷ vs))
at_turn (suc i) f (v ∷ vs) = bind (at_turn i f vs) (λ o. some (o.0, v ∷ o.1))

abbrev pub in_turn : (View → Option (Option ℕ × View)) → Coros View → Option (Option ℕ × Coros View)
in_turn f s = bind (at_turn s.curr_coro_i f s.coros) (λ o. some (o.0, record s { coros = o.1 }))

-- What a coroutine gives, and the coroutines afterwards.
abbrev made : {A B : Type 0} → (A → B) → Option ℕ → A → Option (Option ℕ × B)
made q o l = some (o, q l)

-- It is the coroutine at the index that works.
pub at_this-in_turn :
    (g : View → Option (Option ℕ × View)) (vs : List View) (i : ℕ)
    → at_this g (record { coros = vs; curr_coro_i = i })
      ≡ in_turn g (record { coros = vs; curr_coro_i = i })
at_this-in_turn g vs i =
    twice (λ l. l) whole vs i (get_elem? vs i)
    ∙ ap (λ o. bind o (λ o. made whole o.0 o.1)) (by_place vs i)
  where
    whole : List View → Coros View
    whole l = record { coros = l; curr_coro_i = i }

    -- What is made of a result is made of it in one step or in two.
    twice :
        {A B : Type 0} (p : List View → A) (q : A → B) (vs : List View) (i : ℕ) (c : Option View)
        → bind c (λ c. bind (g c) (λ o. made (λ l. q (p l)) o.0 (set vs i o.1)))
          ≡ bind (bind c (λ c. bind (g c) (λ o. made p o.0 (set vs i o.1)))) (λ o. made q o.0 o.1)
    twice p q vs i none = refl
    twice p q vs i (some c) = of_result (g c)
      where
        of_result :
            (r : Option (Option ℕ × View))
            → bind r (λ o. made (λ l. q (p l)) o.0 (set vs i o.1))
              ≡ bind (bind r (λ o. made p o.0 (set vs i o.1))) (λ o. made q o.0 o.1)
        of_result none = refl
        of_result (some o) = refl

    by_place :
        (vs : List View) (i : ℕ)
        → bind (get_elem? vs i) (λ c. bind (g c) (λ o. made (λ l. l) o.0 (set vs i o.1)))
          ≡ at_turn i g vs
    by_place [] i = refl
    by_place (v ∷ vs) zero = refl
    by_place (v ∷ vs) (suc i) =
        twice (λ l. l) (λ l. v ∷ l) vs i (get_elem? vs i)
        ∙ ap (λ o. bind o (λ o. made (λ l. v ∷ l) o.0 o.1)) (by_place vs i)
