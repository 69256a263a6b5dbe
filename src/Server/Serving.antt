-- ===== src/Server/Serving.antt =====
-- lecture_examples/9_aio/4_server_select.c: the loop of a round over the clients.
use sysproghw.Base.{
  ◌∙◌, ℕ, zero, suc, ◌≤◌, ◌≡◌, refl, ap, inl, inr, ◌⊎◌, Bool, true, false, List, [], ◌∷◌,
  if◌then◌else◌, length, arith, Bool-cases,
}
use sysproghw.Base.Int.{ℤ, pos, negsuc}
use sysproghw.Server.{Kernel, interact}

-- The members that pass a test.
abbrev pub filter : (ℕ → Bool) → List ℕ → List ℕ
filter p [] = []
filter p (x ∷ xs) = let rest = filter p xs in if p x then x ∷ rest else rest

-- The third list is the first two merged: each keeps its order, and no member is lost or doubled.
pub data IsMerge : List ℕ → List ℕ → List ℕ → Type 0 where
  nil : IsMerge [] [] []
  left : {xs ys zs : List ℕ} → (x : ℕ) → IsMerge xs ys zs → IsMerge (x ∷ xs) ys (x ∷ zs)
  right : {xs ys zs : List ℕ} → (y : ℕ) → IsMerge xs ys zs → IsMerge xs (y ∷ ys) (y ∷ zs)

all_left : (xs : List ℕ) → IsMerge xs [] xs
all_left [] = nil
all_left (x ∷ xs) = left x (all_left xs)

all_right : (xs : List ℕ) → IsMerge [] xs xs
all_right [] = nil
all_right (x ∷ xs) = right x (all_right xs)

-- The client has disconnected: `interact` returned 0.
abbrev pub is_gone : ℤ → Bool
is_gone (pos zero) = true
is_gone _ = false

-- `interact` returned neither 0 nor -1.
abbrev pub is_fine : ℤ → Bool
is_fine (pos zero) = false
is_fine (negsuc zero) = false
is_fine _ = true

-- All of these clients that are ready are fine.
abbrev pub AreFine : Kernel → List ℕ → Type 0
AreFine k [] = Unit
AreFine k (c ∷ cs) = (k.is_ready c ≡ true → is_fine (interact k c) ≡ true) × AreFine k cs

pub result-cases :
    (z : ℤ)
    → (z ≡ pos zero)
      ⊎ (z ≡ negsuc zero)
      ⊎ ((n : ℕ) × (z ≡ pos (suc n)))
      ⊎ ((n : ℕ) × (z ≡ negsuc (suc n)))
result-cases (pos zero) = inl refl
result-cases (negsuc zero) = inr (inl refl)
result-cases (pos (suc n)) = inr (inr (inl (n, refl)))
result-cases (negsuc (suc n)) = inr (inr (inr (n, refl)))

-- Which clients a round comes to, in their order, where `nfds` are left, and `skipping` says that the
-- one in front has just disconnected: the next one takes its place in the table and is passed over.
-- Of the others those that are ready, until `nfds` are served or one fails.
abbrev pub reached : Kernel → (skipping : Bool) → (nfds : ℕ) → List ℕ → List ℕ
reached k skipping zero cs = []
reached k skipping (suc nfds) [] = []
reached k true (suc nfds) (c ∷ cs) = reached k false (suc nfds) cs
reached k false (suc nfds) (c ∷ cs) = elim (k.is_ready c) [
  | false ↦ reached k false (suc nfds) cs
  | true ↦ elim (interact k c) [
    | negsuc zero ↦ c ∷ []
    | pos zero ↦ c ∷ reached k true nfds cs
    | _ ↦ c ∷ reached k false nfds cs
  ]
]

-- What a round does to the clients `cs` that it comes to, where `nfds` are left: it keeps some of
-- them and removes some, in their order; it serves those that it reaches, and of these it removes those
-- that have disconnected; it serves only clients that are ready, in their order, and each at most once;
-- and where all clients that are ready are fine and `nfds` counts them all, it serves all of them.
pub record IsServed (k : Kernel) (nfds : ℕ) (cs kept served removed : List ℕ) : Type 0 where
  pub split : IsMerge kept removed cs
  pub gone : removed ≡ filter (λ c. is_gone (interact k c)) served
  pub exact : served ≡ reached k false nfds cs
  pub waiting : List ℕ
  pub fair : IsMerge served waiting (filter k.is_ready cs)
  pub all : AreFine k cs → length (filter k.is_ready cs) ≤ nfds → served ≡ filter k.is_ready cs

module _ (k : Kernel) where
  pub none_left : (cs : List ℕ) → IsServed k 0 cs cs [] []
  none_left cs = record {
    split = all_left cs;
    gone = refl;
    exact = refl;
    waiting = filter k.is_ready cs;
    fair = all_right (filter k.is_ready cs);
    all = λ fine le. empty (filter k.is_ready cs) le;
  }
    where
      empty : (xs : List ℕ) → length xs ≤ 0 → [] ≡ xs
      empty [] h = refl
      empty (x ∷ xs) h = absurd (omega arith)

  pub no_more : (nfds : ℕ) → IsServed k nfds [] [] [] []
  no_more nfds = record {
    split = nil;
    gone = refl;
    exact = none_reached nfds;
    waiting = [];
    fair = nil;
    all = λ _ _. refl;
  }
    where
      none_reached : (nfds : ℕ) → [] ≡ reached k false nfds []
      none_reached zero = refl
      none_reached (suc n) = refl

  pub not_ready :
      (nfds c : ℕ) (cs kept served removed : List ℕ)
      → k.is_ready c ≡ false
      → IsServed k (suc nfds) cs kept served removed
      → IsServed k (suc nfds) (c ∷ cs) (c ∷ kept) served removed
  not_ready nfds c cs kept served removed e h = record {
    split = left c h.split;
    gone = h.gone;
    exact = rw (reached, e) h.exact;
    waiting = h.waiting;
    fair = rw e h.fair;
    all = λ fine. rw e (h.all fine.1);
  }

  pub fails :
      (nfds c : ℕ) (cs : List ℕ)
      → k.is_ready c ≡ true
      → interact k c ≡ negsuc zero
      → IsServed k (suc nfds) (c ∷ cs) (c ∷ cs) (c ∷ []) []
  fails nfds c cs e failed = record {
    split = all_left (c ∷ cs);
    gone = rw failed refl;
    exact = rw (reached, e, failed) refl;
    waiting = filter k.is_ready cs;
    fair = rw e (left c (all_right (filter k.is_ready cs)));
    all =
        λ fine _. (let bad : is_fine (negsuc zero) ≡ true = rw failed at (fine.0 e) in absurd (cc));
  }

  pub last_gone :
      (nfds c : ℕ)
      → k.is_ready c ≡ true
      → interact k c ≡ pos zero
      → IsServed k (suc nfds) (c ∷ []) [] (c ∷ []) (c ∷ [])
  last_gone nfds c e left_us = record {
    split = right c nil;
    gone = rw left_us refl;
    exact = rw (reached, e, left_us) (ap (λ l. c ∷ l) (none_reached nfds));
    waiting = [];
    fair = rw e (left c nil);
    all = λ _ _. rw e refl;
  }
    where
      none_reached : (nfds : ℕ) → [] ≡ reached k true nfds []
      none_reached zero = refl
      none_reached (suc n) = refl

  -- The client that follows one that has disconnected is skipped.
  pub skips :
      (nfds c d : ℕ) (ds kept served removed : List ℕ)
      → k.is_ready c ≡ true
      → interact k c ≡ pos zero
      → IsServed k nfds ds kept served removed
      → IsServed k (suc nfds) (c ∷ d ∷ ds) (d ∷ kept) (c ∷ served) (c ∷ removed)
  skips nfds c d ds kept served removed e left_us h = elim (Bool-cases (k.is_ready d)) [
    | inl ready ↦ record {
      split = right c (left d h.split);
      gone = rw left_us (ap (λ l. c ∷ l) h.gone);
      exact = rw (reached, e, left_us) (ap (λ l. c ∷ l) (h.exact ∙ passed nfds));
      waiting = d ∷ h.waiting;
      fair = rw (e, ready) (left c (right d h.fair));
      all = not_fine;
    }
    | inr not ↦ record {
      split = right c (left d h.split);
      gone = rw left_us (ap (λ l. c ∷ l) h.gone);
      exact = rw (reached, e, left_us) (ap (λ l. c ∷ l) (h.exact ∙ passed nfds));
      waiting = h.waiting;
      fair = rw (e, not) (left c h.fair);
      all = not_fine;
    }
  ]
    where
      passed : (nfds : ℕ) → reached k false nfds ds ≡ reached k true nfds (d ∷ ds)
      passed zero = refl
      passed (suc n) = refl

      not_fine :
          AreFine k (c ∷ d ∷ ds)
          → length (filter k.is_ready (c ∷ d ∷ ds)) ≤ suc nfds
          → c ∷ served ≡ filter k.is_ready (c ∷ d ∷ ds)
      not_fine fine _ =
          let bad : is_fine (pos zero) ≡ true = rw left_us at (fine.0 e) in absurd (cc)

  pub is_answered :
      (nfds c : ℕ) (cs kept served removed : List ℕ)
      → k.is_ready c ≡ true
      → is_fine (interact k c) ≡ true
      → is_gone (interact k c) ≡ false
      → IsServed k nfds cs kept served removed
      → IsServed k (suc nfds) (c ∷ cs) (c ∷ kept) (c ∷ served) removed
  is_answered nfds c cs kept served removed e fine stays h = record {
    split = left c h.split;
    gone = rw stays h.gone;
    exact = goes_on (interact k c) refl fine;
    waiting = h.waiting;
    fair = rw e (left c h.fair);
    all = λ fine le. rw e (ap (λ l. c ∷ l) (h.all fine.1 (omega (arith, rw e at le))));
  }
    where
      goes_on :
          (z : ℤ)
          → interact k c ≡ z
          → is_fine z ≡ true
          → c ∷ served ≡ reached k false (suc nfds) (c ∷ cs)
      goes_on (pos zero) at f = absurd (cc)
      goes_on (negsuc zero) at f = absurd (cc)
      goes_on (pos (suc n)) at f = rw (reached, e, at) (ap (λ l. c ∷ l) h.exact)
      goes_on (negsuc (suc n)) at f = rw (reached, e, at) (ap (λ l. c ∷ l) h.exact)
