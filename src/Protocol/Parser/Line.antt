-- ===== src/Protocol/Parser/Line.antt =====
-- What `skipSpaces`, `skipLine`, `consumeEOLN` and `getLine` read, and that reading may be cut
-- anywhere.
use smerp.Base.{
  ℕ, ◌<◌, ◌≡◌, refl, sym, ap, ◌∙◌, Bool, true, false, inl, inr, not, ◌⊎◌, List, [], ◌∷◌, ◌++◌,
  arith, ◌==◌, if◌then◌else◌, Bool-cases,
}
use smerp.Protocol.CmdBuffer.Code.{All}
use smerp.Protocol.Parser.{
  is_printable, is_blank, is_eoln_char, more, Scan, LineBuffer, skip_while, skip_spaces, skip_line,
  line_loop, get_line,
}

-- The rest of the input starts with a character that fails the test, or is empty.
abbrev pub Stops : (ℕ → Bool) → List ℕ → Type 0
Stops p [] = Unit {0}
Stops p (c ∷ cs) = p c ≡ false

-- The input is a prefix that passes the test and the rest, and the flag tells of the rest.
pub record Skips (p : ℕ → Bool) (src : List ℕ) (s : Scan) : Type 0 where
  pub skipped : List ℕ
  pub splits : src ≡ skipped ++ s.src
  pub passes : All p skipped
  pub stops : Stops p s.src
  pub flag : s.found ≡ more s.src

module _ (p : ℕ → Bool) where
  skip_while-Skips :
      (src : List ℕ)
      → Skips p src (record { src = skip_while p src; found = more (skip_while p src) })
  unfolding skip_while
  skip_while-Skips [] = record { skipped = []; splits = refl; passes = tt; stops = tt; flag = refl }
  skip_while-Skips (c ∷ cs) = elim (Bool-cases (p c)) [
    | inl e ↦ rw e (
        let s = skip_while-Skips cs in
        record {
          skipped = c ∷ s.skipped;
          splits = ap (◌∷◌ c) s.splits;
          passes = (e, s.passes);
          stops = s.stops;
          flag = refl;
        })
    | inr e ↦ rw e (record { skipped = []; splits = refl; passes = tt; stops = e; flag = refl })
  ]

  skip_while_split :
      (xs ys : List ℕ)
      → ((skip_while p xs ≡ []) × (skip_while p (xs ++ ys) ≡ skip_while p ys))
        ⊎ ((c : ℕ) × (t : List ℕ) × (skip_while p xs ≡ c ∷ t)
            × (skip_while p (xs ++ ys) ≡ c ∷ (t ++ ys)))
  unfolding skip_while
  skip_while_split [] ys = inl (refl, refl)
  skip_while_split (x ∷ xs) ys = elim (Bool-cases (p x)) [
    | inl e ↦ rw e (skip_while_split xs ys)
    | inr e ↦ rw e (inr (x, xs, refl, refl))
  ]

-- `skipSpaces` goes over the blanks and tabs at the head of the input and no further, and
-- `skipLine` over all up to the first end of line character; each returns whether input is left.
pub skip_spaces-Skips :
    (src : List ℕ)
    → Skips is_blank src (skip_spaces src) × Skips (λ c. not (is_eoln_char c)) src (skip_line src)
unfolding skip_spaces skip_line
skip_spaces-Skips src =
    (skip_while-Skips is_blank src, skip_while-Skips (λ c. not (is_eoln_char c)) src)

module _ (l : LineBuffer) where
  open l use {Buf, size, push_back}

  line_loop-append :
      (xs ys : List ℕ) (b : Buf)
      → (line_loop l xs b).found ≡ false
      → line_loop l (xs ++ ys) b ≡ line_loop l ys (line_loop l xs b).buf
  unfolding line_loop
  line_loop-append [] ys b h = refl
  line_loop-append (x ∷ xs) ys b h = elim (Bool-cases (is_eoln_char x)) [
    | inl e ↦ absurd (cc (rw e at h))
    | inr e ↦
        rw e (line_loop-append xs ys (push_back b (if is_printable x then x else b' ')) (rw e at h))
  ]

  -- A line's text, with control characters and bytes from 128 up turned into spaces.
  abbrev pub push_text : Buf → List ℕ → Buf
  push_text b [] = b
  push_text b (c ∷ cs) = push_text (push_back b (if is_printable c then c else b' ')) cs

-- The rest is about buffers that are not empty after a `push_back`.
module _ (l : LineBuffer) (grows : (b : l.Buf) (c : ℕ) → 0 < l.size (l.push_back b c)) where
  open l use {Buf, size, push_back}

  line_loop_grows : (xs : List ℕ) (b : Buf) → 0 < size b → 0 < size (line_loop l xs b).buf
  unfolding line_loop
  line_loop_grows [] b h = h
  line_loop_grows (x ∷ xs) b h = elim (Bool-cases (is_eoln_char x)) [
    | inl e ↦ rw e h
    | inr e ↦ rw e (line_loop_grows xs _ (grows b (if is_printable x then x else b' ')))
  ]

  line_loop_starts :
      (x : ℕ) (xs : List ℕ) (b : Buf)
      → (line_loop l (x ∷ xs) b).found ≡ false
      → 0 < size (line_loop l (x ∷ xs) b).buf
  unfolding line_loop
  line_loop_starts x xs b h = elim (Bool-cases (is_eoln_char x)) [
    | inl e ↦ absurd (cc (rw e at h))
    | inr e ↦ rw e (line_loop_grows xs _ (grows b (if is_printable x then x else b' ')))
  ]

  get_line_started : (xs : List ℕ) (b : Buf) → 0 < size b → get_line l xs b ≡ line_loop l xs b
  unfolding get_line
  get_line_started xs b h = ground arith

  get_line_blank :
      (xs : List ℕ) (b : Buf)
      → (size b == 0) ≡ true
      → skip_while is_blank xs ≡ []
      → get_line l xs b ≡ record { src = []; buf = b; found = false }
  unfolding get_line skip_spaces
  get_line_blank xs b z e = rw (z, e)

  get_line_text :
      (xs : List ℕ) (b : Buf) (c : ℕ) (t : List ℕ)
      → (size b == 0) ≡ true
      → skip_while is_blank xs ≡ c ∷ t
      → get_line l xs b ≡ line_loop l (c ∷ t) b
  unfolding get_line skip_spaces
  get_line_text xs b c t z e = rw (z, e)

  get_line_resumes :
      (src : List ℕ) (ys : List ℕ) (b : Buf)
      → (line_loop l src b).found ≡ false
      → 0 < size (line_loop l src b).buf
      → line_loop l (src ++ ys) b ≡ get_line l ys (line_loop l src b).buf
  get_line_resumes src ys b h g =
      line_loop-append l src ys b h ∙ sym (get_line_started ys (line_loop l src b).buf g)

  -- Reading a line may be cut anywhere, if a `push_back` never leaves the buffer empty: a call that
  -- runs out of input leaves a buffer with which the call on the rest of the input gives what one
  -- call on the whole would have given.
  pub get_line-append :
      (xs ys : List ℕ) (b : Buf)
      → (get_line l xs b).found ≡ false
      → get_line l (xs ++ ys) b ≡ get_line l ys (get_line l xs b).buf
  get_line-append xs ys b h = elim (Bool-cases (size b == 0)) [
    | inl z ↦ elim (skip_while_split is_blank xs ys) [
      | inl (e, f) ↦ rw (get_line_blank xs b z e) (same_start z f)
      | inr (c, t, e, f) ↦
          let now = get_line_text xs b c t z e in
          let h' = rw now at h in
          rw (now, get_line_text (xs ++ ys) b c (t ++ ys) z f)
            (get_line_resumes (c ∷ t) ys b h' (line_loop_starts c t b h'))
    ]
    | inr z ↦
        let pos : 0 < size b = ground arith in
        let now = get_line_started xs b pos in
        let h' = rw now at h in
        rw (now, get_line_started (xs ++ ys) b pos)
          (get_line_resumes xs ys b h' (line_loop_grows xs b pos))
  ]
    where
      same_start :
          (size b == 0) ≡ true
          → skip_while is_blank (xs ++ ys) ≡ skip_while is_blank ys
          → get_line l (xs ++ ys) b ≡ get_line l ys b
      same_start z f = unfold get_line skip_spaces in rw (z, f)
