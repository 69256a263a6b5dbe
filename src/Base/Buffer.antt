-- ===== src/Base/Buffer.antt =====
-- The growing array of 2/shell.c (`struct buffer`), which 1/main.c repeats over `int`.
--
-- `len` and `pos` are of type `int`. The length starts at 32 or 128 and doubles when the array is
-- full, so it is what is written here while the array holds fewer than 2 ^ 30 elements; the next
-- `2 * len` would overflow. `sort_file` of 1/main.c has that as a fault; the reading of the shell is
-- taken up to that many bytes in a word.
use sysproghw.Base.{
  ℕ, zero, suc, ◌+◌, ◌*◌, ◌≤◌, ◌<◌, ◌≡◌, refl, ap, ◌∙◌, inl, inr, List, [], ◌∷◌, ◌++◌, arith, ◌==◌,
  if◌then◌else◌, Bool-cases, length, set, take, get_or, replicate, length-set, length-replicate,
}

pub record Buffer {ℓ} (A : Type ℓ) : Type ℓ where
  pub len : ℕ
  pub pos : ℕ
  pub array : List A

module _ {ℓ} {A : Type ℓ} where
  -- `junk` stands for what a cell holds before it is written.
  unfoldable pub create_buffer : A → ℕ → Buffer A
  create_buffer junk len = record { len = len; pos = 0; array = replicate len junk }

  -- `for(i = 0; i < buf->pos; i++) new[i] = old[i]`, on the rounds left.
  copy_loop : A → ℕ → ℕ → List A → List A → List A
  copy_loop junk zero i old new = new
  copy_loop junk (suc k) i old new = copy_loop junk k (i + 1) old (set new i (get_or old i junk))

  unfoldable pub double_buffer : A → Buffer A → Buffer A
  unfolding copy_loop create_buffer
  double_buffer junk buf =
      let fresh = create_buffer junk (2 * buf.len) in
      record fresh { array = copy_loop junk buf.pos 0 buf.array fresh.array; pos = buf.pos }

  unfoldable pub insert_buffer : A → Buffer A → A → Buffer A
  unfolding double_buffer
  insert_buffer junk buf n =
      let b = if buf.pos == buf.len then double_buffer junk buf else buf in
      record b { array = set b.array b.pos n; pos = b.pos + 1 }

  -- The cells in use.
  abbrev pub contents : Buffer A → List A
  contents b = take b.pos b.array

  pub record IsValid (b : Buffer A) : Type ℓ where
    pub has_room : 0 < b.len
    pub fits : b.pos ≤ b.len
    pub sized : length b.array ≡ b.len

  pub length-contents : (b : Buffer A) → IsValid b → length (contents b) ≡ b.pos
  length-contents b v = length-take_le b.pos b.array (omega (arith, v.fits, v.sized))
    where
      length-take_le : (n : ℕ) (xs : List A) → n ≤ length xs → length (take n xs) ≡ n
      length-take_le zero xs h = refl
      length-take_le (suc n) [] h = absurd (omega arith)
      length-take_le (suc n) (x ∷ xs) h = omega (arith, length-take_le n xs (omega arith))

  take-set_end :
      (xs : List A) (i : ℕ) (v : A)
      → i < length xs
      → take (suc i) (set xs i v) ≡ take i xs ++ v ∷ []
  take-set_end [] i v h = elim h [ ]
  take-set_end (x ∷ xs) zero v h = refl
  take-set_end (x ∷ xs) (suc i) v h = ap (◌∷◌ x) (take-set_end xs i v (omega arith))

  take-get_or :
      (xs : List A) (i : ℕ) (d : A)
      → i < length xs
      → take (suc i) xs ≡ take i xs ++ get_or xs i d ∷ []
  take-get_or [] i d h = elim h [ ]
  take-get_or (x ∷ xs) zero d h = refl
  take-get_or (x ∷ xs) (suc i) d h = ap (◌∷◌ x) (take-get_or xs i d (omega arith))

  length-copy_loop :
      (junk : A) (k i : ℕ) (old new : List A) → length (copy_loop junk k i old new) ≡ length new
  unfolding copy_loop
  length-copy_loop junk zero i old new = refl
  length-copy_loop junk (suc k) i old new =
      length-copy_loop junk k (i + 1) old _ ∙ length-set new i (get_or old i junk)

  -- The copied prefix grows by one cell a round; `j` is the position behind the last round.
  copy_loop-take :
      (junk : A) (k i j : ℕ) (old new : List A)
      → i + k ≡ j
      → j ≤ length old
      → j ≤ length new
      → take i new ≡ take i old
      → take j (copy_loop junk k i old new) ≡ take j old
  unfolding copy_loop
  copy_loop-take junk zero i j old new e ho hn h = let e' : i ≡ j = omega arith in rw (← e') h
  copy_loop-take junk (suc k) i j old new e ho hn h =
      copy_loop-take junk k (i + 1) j old (set new i (get_or old i junk)) (omega arith) ho
        (omega (arith, length-set new i (get_or old i junk)))
        (let s : i + 1 ≡ suc i = omega arith in
          rw (
            s,
            take-set_end new i (get_or old i junk) (omega arith),
            h,
            take-get_or old i junk (omega arith),
          ))

  pub create_buffer-IsValid : (junk : A) (len : ℕ) → 0 < len → IsValid (create_buffer junk len)
  unfolding create_buffer
  create_buffer-IsValid junk len h = record {
    has_room = h;
    fits = omega arith;
    sized = length-replicate len junk;
  }

  pub double_buffer-IsValid : (junk : A) (b : Buffer A) → IsValid b → IsValid (double_buffer junk b)
  unfolding double_buffer
  double_buffer-IsValid junk b v = record {
    has_room = omega (arith, v.has_room);
    fits = omega (arith, v.fits);
    sized =
        length-copy_loop junk b.pos 0 b.array (replicate (2 * b.len) junk)
        ∙ length-replicate (2 * b.len) junk;
  }

  pub contents-double_buffer :
      (junk : A) (b : Buffer A) → IsValid b → contents (double_buffer junk b) ≡ contents b
  unfolding double_buffer
  contents-double_buffer junk b v =
      copy_loop-take junk b.pos 0 b.pos b.array (replicate (2 * b.len) junk) (omega arith)
        (omega (arith, v.sized, v.fits)) (omega (arith, length-replicate (2 * b.len) junk, v.fits))
        refl

  -- Writing one cell behind the cells in use, where there is room.
  push : A → Buffer A → A → Buffer A
  push junk b n = record b { array = set b.array b.pos n; pos = b.pos + 1 }

  push-IsValid :
      (junk : A) (b : Buffer A) (n : A) → IsValid b → b.pos < b.len → IsValid (push junk b n)
  unfolding push
  push-IsValid junk b n v h = record {
    has_room = v.has_room;
    fits = omega arith;
    sized = length-set b.array b.pos n ∙ v.sized;
  }

  contents-push :
      (junk : A) (b : Buffer A) (n : A)
      → IsValid b
      → b.pos < b.len
      → contents (push junk b n) ≡ contents b ++ n ∷ []
  unfolding push
  contents-push junk b n v h =
      let s : b.pos + 1 ≡ suc b.pos = omega arith in
      rw s (take-set_end b.array b.pos n (omega (arith, v.sized)))

  insert_buffer-push :
      (junk : A) (b : Buffer A) (n : A)
      → IsValid b
      → (c : Buffer A) × (insert_buffer junk b n ≡ push junk c n)
        × IsValid c
        × (c.pos < c.len)
        × (contents c ≡ contents b)
  unfolding insert_buffer push
  insert_buffer-push junk b n v = elim (Bool-cases (b.pos == b.len)) [
    | inl full ↦ (
      double_buffer junk b,
      rw full,
      double_buffer-IsValid junk b v,
      unfold double_buffer in omega (arith, v.has_room),
      contents-double_buffer junk b v,
    )
    | inr room ↦ (b, rw room, v, ground (arith, v.fits), refl)
  ]

  -- `insert_buffer` keeps the buffer valid, whether or not it had to grow.
  pub insert_buffer-IsValid :
      (junk : A) (b : Buffer A) (n : A) → IsValid b → IsValid (insert_buffer junk b n)
  insert_buffer-IsValid junk b n v =
      let (c, e, w, h, _) = insert_buffer-push junk b n v in rw e (push-IsValid junk c n w h)

  -- `insert_buffer` appends one element, whether or not the buffer had to grow.
  pub contents-insert_buffer :
      (junk : A) (b : Buffer A) (n : A)
      → IsValid b
      → contents (insert_buffer junk b n) ≡ contents b ++ n ∷ []
  contents-insert_buffer junk b n v =
      let (c, e, w, h, same) = insert_buffer-push junk b n v in
      rw e (contents-push junk c n w h ∙ ap (λ xs. xs ++ n ∷ []) same)
