-- ===== src/Protocol/Buffer/Contents.antt =====
-- `Buffer<SIZE>` implements a string that is cut off at SIZE characters.
use smerp.Base.{
  ℕ, zero, suc, ◌+◌, ◌<◌, ◌≡◌, refl, sym, ap, ◌∙◌, false, inl, inr, List, [], ◌∷◌, ◌++◌, arith, ltb,
  length, set, take, append-nil, append_assoc, Bool-cases, length-set, length-take, take-set,
  take_all, length-append,
}
use smerp.Protocol.Buffer.{
  Buffer, IsValid, contents, c_string, init, push_back, append, c_str, push_all,
}

module _ (cap : ℕ) where
  pub init-IsValid : (b : Buffer) → IsValid cap b → IsValid cap (init b)
  unfolding init
  init-IsValid b v = record { bounded = omega arith; allocated = v.allocated }

  push_back-IsValid : (b : Buffer) (c : ℕ) → IsValid cap b → IsValid cap (push_back cap b c)
  unfolding push_back
  push_back-IsValid b c v = ground (arith, length-set b.cells b.pos c)

  pub push_all-IsValid :
      (b : Buffer) (cs : List ℕ) → IsValid cap b → IsValid cap (push_all cap b cs)
  unfolding push_all
  push_all-IsValid b [] v = v
  push_all-IsValid b (c ∷ cs) v = push_all-IsValid (push_back cap b c) cs (push_back-IsValid b c v)

  pub c_str-IsValid : (b : Buffer) → IsValid cap b → IsValid cap (c_str b)
  unfolding c_str
  c_str-IsValid b v = ground (arith, length-set b.cells b.pos 0)

  append-IsValid : (b : Buffer) (cs : List ℕ) → IsValid cap b → IsValid cap (append cap b cs)
  unfolding append
  append-IsValid b [] v = v
  append-IsValid b (c ∷ cs) v = ground (
    arith,
    append-IsValid (record { pos = b.pos + 1; cells = set b.cells b.pos c }) cs,
    length-set b.cells b.pos c,
  )

  length-contents : (b : Buffer) → IsValid cap b → length (contents b) ≡ b.pos
  length-contents b v = omega (arith, length-take b.pos b.cells, v.bounded, v.allocated)

  -- A cut string grows by a character, or is full.
  take_grow :
      (n : ℕ) (xs : List ℕ) (c : ℕ) (cs : List ℕ)
      → length xs < n
      → take n (xs ++ c ∷ cs) ≡ take n ((xs ++ c ∷ []) ++ cs)
  take_grow n xs c cs h = rw append_assoc

  take_full : (n : ℕ) (xs ys : List ℕ) → length xs ≡ n → take n (xs ++ ys) ≡ xs
  take_full zero [] ys e = refl
  take_full zero (x ∷ xs) ys e = absurd (omega arith)
  take_full (suc n) [] ys e = absurd (omega arith)
  take_full (suc n) (x ∷ xs) ys e = ap (◌∷◌ x) (take_full n xs ys (omega arith))

  write_contents :
      (b : Buffer) (c : ℕ)
      → IsValid cap b
      → b.pos < cap
      → contents (record { pos = b.pos + 1; cells = set b.cells b.pos c }) ≡ contents b ++ c ∷ []
  write_contents b c v h =
      let e : b.pos + 1 ≡ suc b.pos = omega arith in
      rw e (take-set b.pos b.cells c (omega (arith, v.allocated)))

  -- One character is added at the end if there is room, and is dropped otherwise.
  push_back-contents :
      (b : Buffer) (c : ℕ)
      → IsValid cap b
      → contents (push_back cap b c) ≡ take cap (contents b ++ c ∷ [])
  unfolding push_back
  push_back-contents b c v = elim (Bool-cases (ltb b.pos cap)) [
    | inl room ↦
        rw (push_back, room)
          (write_contents b c v (ground arith)
            ∙ sym (
                take_all cap _
                  (ground (arith, length-append (contents b) (c ∷ []), length-contents b v))))
    | inr full ↦
        rw (push_back, full)
          (sym
            (take_full cap (contents b) (c ∷ []) (ground (arith, length-contents b v, v.bounded))))
  ]

  take-append_take : (n : ℕ) (xs ys : List ℕ) → take n (take n xs ++ ys) ≡ take n (xs ++ ys)
  take-append_take zero xs ys = refl
  take-append_take (suc n) [] ys = refl
  take-append_take (suc n) (x ∷ xs) ys = ap (◌∷◌ x) (take-append_take n xs ys)

  -- Pushing characters one by one appends them to the contents, cut off at SIZE.
  pub push_all-contents :
      (b : Buffer) (cs : List ℕ)
      → IsValid cap b
      → contents (push_all cap b cs) ≡ take cap (contents b ++ cs)
  unfolding push_all
  push_all-contents b [] v =
      rw append-nil
        (sym (take_all cap (contents b) (omega (arith, length-contents b v, v.bounded))))
  push_all-contents b (c ∷ cs) v =
      push_all-contents (push_back cap b c) cs (push_back-IsValid b c v)
      ∙ rw (push_back-contents b c v)
          (take-append_take cap (contents b ++ c ∷ []) cs ∙ rw append_assoc)

  push_all_full : (b : Buffer) (cs : List ℕ) → ltb b.pos cap ≡ false → push_all cap b cs ≡ b
  unfolding push_all push_back
  push_all_full b [] h = refl
  push_all_full b (c ∷ cs) h = rw h (push_all_full b cs h)

  append-push_all : (b : Buffer) (cs : List ℕ) → append cap b cs ≡ push_all cap b (c_string cs)
  unfolding append push_all push_back
  append-push_all b [] = refl
  append-push_all b (c ∷ cs) = ground (
    arith,
    append-push_all (record { pos = b.pos + 1; cells = set b.cells b.pos c }) cs,
    push_all_full b (c_string cs),
  )

  -- `append` adds the C string that it is given, cut off at SIZE.
  append-contents :
      (b : Buffer) (cs : List ℕ)
      → IsValid cap b
      → contents (append cap b cs) ≡ take cap (contents b ++ c_string cs)
  append-contents b cs v = rw append-push_all (push_all-contents b (c_string cs) v)

  c_string-set :
      (n : ℕ) (xs : List ℕ) → n < length xs → c_string (set xs n 0) ≡ c_string (take n xs)
  c_string-set n [] h = absurd (omega arith)
  c_string-set zero (x ∷ xs) h = refl
  c_string-set (suc n) (x ∷ xs) h = ground (arith, c_string-set n xs)

  -- What a reader of `c_str()` sees is the C string at the start of the contents.
  c_string-c_str : (b : Buffer) → IsValid cap b → c_string (c_str b).cells ≡ c_string (contents b)
  unfolding c_str
  c_string-c_str b v = c_string-set b.pos b.cells (omega (arith, v.bounded, v.allocated))
