-- ===== src/Sorter/Code.antt =====
-- 1/main.c: a coroutine, as the code that it has still to run.
--
-- A coroutine works on its own buffer and file, so nothing happens to its data while another one
-- runs. What it shares with the others are the calls of `swap`, at which another one may run, and
-- `rand`, whose values are not known. `stamps` is `data[n].timestamp = micro_secs(clock())`.
use sysproghw.Base.{ℕ, Option, none, some}

pub data Code {ℓ} (A : Type ℓ) : Type ℓ where
  ret : A → Code A
  swaps : Code A → Code A
  draws : (ℕ → Code A) → Code A
  stamps : Code A → Code A
  fault : Code A
  out_of_fuel : Code A

infixl 5 ◌>>=◌
abbrev pub ◌>>=◌ {ℓ κ} : {A : Type ℓ} {B : Type κ} → Code A → (A → Code B) → Code B
ret a >>= f = f a
swaps c >>= f = swaps (c >>= f)
draws g >>= f = draws (λ v. g v >>= f)
stamps c >>= f = stamps (c >>= f)
fault >>= f = fault
out_of_fuel >>= f = out_of_fuel

-- A read or write through a pointer; `none` is out of bounds.
abbrev pub deref {ℓ} : {A : Type ℓ} → Option A → Code A
deref none = fault
deref (some a) = ret a

-- Whatever `rand` returns, the code comes to its end, without a fault, with a result of this kind.
abbrev pub Ensures {ℓ} : {A : Type ℓ} → (A → Type 0) → Code A → Type 0
Ensures P (ret a) = P a
Ensures P (swaps c) = Ensures P c
Ensures P (draws g) = (v : ℕ) → Ensures P (g v)
Ensures P (stamps c) = Ensures P c
Ensures P fault = ⊥
Ensures P out_of_fuel = ⊥

pub Ensures-bind {ℓ κ} :
    {A : Type ℓ} {B : Type κ} (P : A → Type 0) (Q : B → Type 0) (c : Code A) (f : A → Code B)
    → Ensures P c
    → ((a : A) → P a → Ensures Q (f a))
    → Ensures Q (c >>= f)
Ensures-bind P Q (ret a) f h k = k a h
Ensures-bind P Q (swaps c) f h k = Ensures-bind P Q c f h k
Ensures-bind P Q (draws g) f h k = λ v. Ensures-bind P Q (g v) f (h v) k
Ensures-bind P Q (stamps c) f h k = Ensures-bind P Q c f h k
Ensures-bind P Q fault f h k = h
Ensures-bind P Q out_of_fuel f h k = h
