-- ===== src/Libcoro/Chain.antt =====
-- lecture_examples/4_signals/12_libcoro.c: the list of coroutines is linked in both directions.
pub mod Distinct
pub mod Links
use sysproghw.Base.{
  ℕ, ◌≡◌, ◌≢◌, refl, ◌∙◌, ap, sym, inl, inr, Bool, true, false, List, [], ◌∷◌, ◌++◌, Option, none,
  some, bind, ◌==◌, if◌then◌else◌, Bool-cases, arith,
}
use sysproghw.Libcoro.State.{
  Coro, Heap, State, put, set_next, set_prev, head_after, coro_list_add, coro_list_delete,
}
use sysproghw.Libcoro.Chain.Distinct.{NotIn, IsDistinct, Apart, Cut-IsDistinct, Cut, NotIn-Apart}

-- The coroutines `ids` follow each other from the pointer `cur` on, up to where the pointer `out`
-- leads; the first one points back to `prev`.
abbrev pub IsSegment : Heap → Option ℕ → Option ℕ → List ℕ → Option ℕ → Type 0
IsSegment h prev cur [] out = cur ≡ out
IsSegment h prev cur (a ∷ ids) out =
    (cur ≡ some a)
    × (c : Coro) × (h a ≡ some c)
    × (c.prev ≡ prev)
    × IsSegment h (some a) c.next ids out

-- The list of the library, from its head on.
abbrev pub IsList : State → List ℕ → Type 0
IsList s ids = IsSegment s.heap none s.coro_list ids none × IsDistinct ids

pub put_self : (a : ℕ) (c : Option Coro) (h : Heap) → put a c h a ≡ c
put_self a c h = let e : (a == a) ≡ true = ground arith in rw e refl

pub put_ne : (a b : ℕ) (c : Option Coro) (h : Heap) → a ≢ b → put a c h b ≡ h b
put_ne a b c h ne =
    let e : (b == a) ≡ false = elim (Bool-cases (b == a)) [
      | inl same ↦ absurd (ne (let q : a ≡ b = ground arith in q))
      | inr other ↦ other
    ] in
    rw e refl

-- Where the heap has not changed for `ids`, the segment is the same.
pub IsSegment-frame :
    (h h' : Heap) (prev cur : Option ℕ) (ids : List ℕ) (out : Option ℕ) (others : List ℕ)
    → ((b : ℕ) → NotIn b others → h' b ≡ h b)
    → Apart others ids
    → IsSegment h prev cur ids out
    → IsSegment h' prev cur ids out
IsSegment-frame h h' prev cur [] out others same apart e = e
IsSegment-frame h h' prev cur (b ∷ ids) out others same (fresh, apart) (e, c, at, back, rest) = (
  e,
  c,
  same b fresh ∙ at,
  back,
  IsSegment-frame h h' (some b) c.next ids out others same apart rest,
)

-- The last coroutine of `ids`, or `prev`.
abbrev pub last_of : Option ℕ → List ℕ → Option ℕ
last_of prev [] = prev
last_of prev (a ∷ ids) = last_of (some a) ids

pub split_IsSegment :
    (h : Heap) (prev cur : Option ℕ) (xs ys : List ℕ) (out : Option ℕ)
    → IsSegment h prev cur (xs ++ ys) out
    → (mid : Option ℕ) × IsSegment h prev cur xs mid × IsSegment h (last_of prev xs) mid ys out
split_IsSegment h prev cur [] ys out s = (cur, refl, s)
split_IsSegment h prev cur (a ∷ xs) ys out (e, c, at, back, rest) =
    let (mid, s, t) = split_IsSegment h (some a) c.next xs ys out rest in
    (mid, (e, c, at, back, s), t)

pub join_IsSegment :
    (h : Heap) (prev cur mid : Option ℕ) (xs ys : List ℕ) (out : Option ℕ)
    → IsSegment h prev cur xs mid
    → IsSegment h (last_of prev xs) mid ys out
    → IsSegment h prev cur (xs ++ ys) out
join_IsSegment h prev cur mid [] ys out e t = rw e t
join_IsSegment h prev cur mid (a ∷ xs) ys out (e, c, at, back, rest) t =
    (e, c, at, back, join_IsSegment h (some a) c.next mid xs ys out rest t)

-- The first coroutine points back to another one.
set_prev-IsSegment :
    (h : Heap) (prev p cur : Option ℕ) (ids : List ℕ)
    → IsDistinct ids
    → IsSegment h prev cur ids none
    → (h' : Heap) × (set_prev cur p h ≡ some h')
      × IsSegment h' p cur ids none
      × ((b : ℕ) → NotIn b ids → h' b ≡ h b)
set_prev-IsSegment h prev p cur [] d e = (h, rw e refl, e, λ b n. refl)
set_prev-IsSegment h prev p cur (a ∷ ids) (fresh, d) (e, c, at, back, rest) =
    let c' : Coro = record c { prev = p } in
    let elsewhere : (b : ℕ) → NotIn b (a ∷ []) → put a (some c') h b ≡ h b =
      (λ b n. put_ne a b (some c') h (λ q. n.0 (sym q))) in
    (
      put a (some c') h,
      rw (e, at) refl,
      (
        e,
        c',
        put_self a (some c') h,
        refl,
        IsSegment-frame h (put a (some c') h) (some a) c.next ids none (a ∷ []) elsewhere
            (NotIn-Apart a ids fresh) rest,
      ),
      λ b n. put_ne a b (some c') h (λ q. n.0 (sym q)),
    )

-- The last coroutine leads elsewhere.
set_next-IsSegment :
    (h : Heap) (prev cur out n : Option ℕ) (a : ℕ) (xs : List ℕ)
    → IsDistinct (a ∷ xs)
    → IsSegment h prev cur (a ∷ xs) out
    → (h' : Heap) × (set_next (last_of (some a) xs) n h ≡ some h')
      × IsSegment h' prev cur (a ∷ xs) n
      × ((b : ℕ) → NotIn b (a ∷ xs) → h' b ≡ h b)
set_next-IsSegment h prev cur out n a [] d (e, c, at, back, rest) =
    let c' : Coro = record c { next = n } in
    (
      put a (some c') h,
      rw at refl,
      (e, c', put_self a (some c') h, back, refl),
      λ b m. put_ne a b (some c') h (λ q. m.0 (sym q)),
    )
set_next-IsSegment h prev cur out n a (b ∷ xs) (fresh, d) (e, c, at, back, rest) =
    let (h', e', s, same) = set_next-IsSegment h (some a) c.next out n b xs d rest in
    (h', e', (e, c, same a fresh ∙ at, back, s), λ b' m. same b' m.1)
