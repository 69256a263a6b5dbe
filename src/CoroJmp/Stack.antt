-- ===== src/CoroJmp/Stack.antt =====
-- 1/coro_jmp.h: the points to return to are a stack.
use sysproghw.Base.{
  ℕ, zero, suc, ◌+◌, ◌-◌, ◌*◌, ◌<◌, ◌≤◌, ◌≡◌, refl, ◌∙◌, ap, inl, inr, Bool, List, [], ◌∷◌, ◌++◌,
  Option, none, some, bind, get_elem?, get_or, set, length, length-append, length-set,
  length-replicate, replicate, ltb, Bool-cases, arith,
}
use sysproghw.CoroJmp.{Coro, grow, coro_call, coro_return}

-- What a user of the library thinks of: the point where the coroutine goes on, and the calls that
-- have not returned, the latest one first.
pub record View : Type 0 where
  pub point : ℕ
  pub stack : List ℕ
  pub done : Bool

abbrev stack_from : List ℕ → ℕ → List ℕ
stack_from points zero = []
stack_from points (suc n) = get_or points n 0 ∷ stack_from points n

abbrev pub view : Coro → View
view c = record {
  point = c.exec_point;
  stack = stack_from c.ret_points c.ret_count;
  done = c.is_finished;
}

pub record IsValid (c : Coro) : Type 0 where
  pub fits : c.ret_count ≤ c.ret_capacity
  pub sized : length c.ret_points ≡ c.ret_capacity

get_elem?-get_or : (l : List ℕ) (i : ℕ) → i < length l → get_elem? l i ≡ some (get_or l i 0)
get_elem?-get_or [] i h = absurd (omega arith)
get_elem?-get_or (x ∷ l) zero h = refl
get_elem?-get_or (x ∷ l) (suc i) h = get_elem?-get_or l i (omega arith)

get_or-append : (l m : List ℕ) (i : ℕ) → i < length l → get_or (l ++ m) i 0 ≡ get_or l i 0
get_or-append [] m i h = absurd (omega arith)
get_or-append (x ∷ l) m zero h = refl
get_or-append (x ∷ l) m (suc i) h = get_or-append l m i (omega arith)

get_or-set : (l : List ℕ) (i j v : ℕ) → j < i → get_or (set l i v) j 0 ≡ get_or l j 0
get_or-set [] i j v h = refl
get_or-set (x ∷ l) zero j v h = absurd (omega arith)
get_or-set (x ∷ l) (suc i) zero v h = refl
get_or-set (x ∷ l) (suc i) (suc j) v h = get_or-set l i j v (omega arith)

get_or-set_self : (l : List ℕ) (i v : ℕ) → i < length l → get_or (set l i v) i 0 ≡ v
get_or-set_self [] i v h = absurd (omega arith)
get_or-set_self (x ∷ l) zero v h = refl
get_or-set_self (x ∷ l) (suc i) v h = get_or-set_self l i v (omega arith)

stack_from-append : (l m : List ℕ) (n : ℕ) → n ≤ length l → stack_from (l ++ m) n ≡ stack_from l n
stack_from-append l m zero h = refl
stack_from-append l m (suc n) h =
    rw (get_or-append l m n (omega arith), stack_from-append l m n (omega arith)) refl

stack_from-set : (l : List ℕ) (i n v : ℕ) → n ≤ i → stack_from (set l i v) n ≡ stack_from l n
stack_from-set l i zero v h = refl
stack_from-set l i (suc n) v h =
    rw (get_or-set l i n v (omega arith), stack_from-set l i n v (omega arith)) refl

-- Behind `grow` there is room, and the stack is as it was.
grow_lem :
    (junk : ℕ) (c : Coro)
    → IsValid c
    → IsValid (grow junk c)
      × ((grow junk c).ret_count < (grow junk c).ret_capacity)
      × (view (grow junk c) ≡ view c)
unfolding grow
grow_lem junk c h = elim (Bool-cases (ltb c.ret_capacity (c.ret_count + 1))) [
  | inl full ↦ rw full (
    record {
      fits = omega (arith, h.fits);
      sized = omega (
        arith,
        length-append c.ret_points (replicate ((c.ret_capacity + 1) * 2 - c.ret_capacity) junk),
        length-replicate ((c.ret_capacity + 1) * 2 - c.ret_capacity) junk,
        h.sized,
      );
    },
    omega (arith, h.fits),
    ap (λ l. record { point = c.exec_point; stack = l; done = c.is_finished })
        (stack_from-append c.ret_points (replicate ((c.ret_capacity + 1) * 2 - c.ret_capacity) junk)
          c.ret_count (omega (arith, h.fits, h.sized))),
  )
  | inr room ↦ rw room (h, ground arith, refl)
]

abbrev pub push : ℕ → View → View
push here v = record v { stack = here ∷ v.stack }

pub coro_call-push :
    (junk here : ℕ) (c : Coro)
    → IsValid c
    → (c' : Coro) × (coro_call junk here c ≡ some c') × IsValid c' × (view c' ≡ push here (view c))
unfolding coro_call
coro_call-push junk here c h =
    let g = grow junk c in let (v, room, same) = grow_lem junk c h in written g v room (view c) same
  where
    written :
        (g : Coro)
        → IsValid g
        → g.ret_count < g.ret_capacity
        → (w : View) → view g ≡ w
        → (c' : Coro) × (bind (get_elem? g.ret_points g.ret_count) (λ _. some (record g {
          ret_points = set g.ret_points g.ret_count here;
          ret_count = g.ret_count + 1;
        }))
            ≡ some c')
          × IsValid c'
          × (view c' ≡ push here w)
    written g v room w same =
        let n = g.ret_count in
        let next : n + 1 ≡ suc n = omega arith in
        let inside : n < length g.ret_points = omega (arith, v.sized) in
        let top = get_or-set_self g.ret_points n here inside in
        let below = stack_from-set g.ret_points n n here (omega arith) in
        (
          record g { ret_points = set g.ret_points n here; ret_count = n + 1 },
          rw (get_elem?-get_or g.ret_points n inside) refl,
          record { fits = omega arith; sized = length-set g.ret_points n here ∙ v.sized },
          ap
                (λ m. record {
                  point = g.exec_point;
                  stack = stack_from (set g.ret_points n here) m;
                  done = g.is_finished;
                })
                next
              ∙ ap
                  (λ x. record {
                    point = g.exec_point;
                    stack = x ∷ stack_from (set g.ret_points n here) n;
                    done = g.is_finished;
                  })
                  top
              ∙ ap (λ l. record { point = g.exec_point; stack = here ∷ l; done = g.is_finished })
                  below
              ∙ ap (push here) same,
        )

-- The results of an operation on a coroutine and on what its user thinks of.
abbrev pub Matches : Option (Option ℕ × Coro) → Option (Option ℕ × View) → Type 0
Matches none none = Unit
Matches none (some _) = ⊥
Matches (some _) none = ⊥
Matches (some (o, c)) (some (o', v)) = (o ≡ o') × IsValid c × (view c ≡ v)

-- The latest call returns.
abbrev pub pop : View → Option (Option ℕ × View)
pop v = elim v.stack [ [] ↦ none | p ∷ ps ↦ some (some p, record v { stack = ps }) ]

pub coro_return-pop :
    (c : Coro)
    → IsValid c
    → Matches (bind (coro_return c) (λ o. some (some o.0, o.1))) (pop (view c))
unfolding coro_return
coro_return-pop c h = by_count c.exec_point c.ret_points c.ret_count c.ret_capacity c.is_finished h
  where
    by_count :
        (e : ℕ) (points : List ℕ) (n cap : ℕ) (f : Bool)
        → IsValid (record {
          exec_point = e;
          ret_points = points;
          ret_count = n;
          ret_capacity = cap;
          is_finished = f;
        })
        → Matches
            (bind
              (coro_return (record {
                exec_point = e;
                ret_points = points;
                ret_count = n;
                ret_capacity = cap;
                is_finished = f;
              }))
              (λ o. some (some o.0, o.1)))
            (pop (
              view (record {
                exec_point = e;
                ret_points = points;
                ret_count = n;
                ret_capacity = cap;
                is_finished = f;
              })))
    by_count e points zero cap f v = tt
    by_count e points (suc n) cap f v =
        rw (get_elem?-get_or points n (omega (arith, v.fits, v.sized)))
          (refl, record { fits = omega (arith, v.fits); sized = v.sized }, refl)
