-- ===== src/Protocol/ArgBuffer/Quoting.antt =====
-- Arguments survive quoting: what a caller writes in double quotes is what `CArgBuffer` returns.
use smerp.Base.{
  ℕ, zero, suc, ◌+◌, ◌≤◌, ◌<◌, ◌≡◌, ◌≢◌, refl, sym, ap, ◌∙◌, subst, true, false, ◌||◌, inl, inr,
  List, [], ◌∷◌, ◌++◌, none, some, arith, ltb, ◌==◌, if◌then◌else◌, length, get_elem?, take, drop,
  set, Bool-cases, append-nil, append_assoc, length-append, take_all, drop-append,
}
use smerp.Protocol.Buffer.{Buffer, c_string, IsValid, contents}
use smerp.Protocol.Buffer
use smerp.Protocol.Buffer.Contents.{push_all-contents, push_all-IsValid}
use smerp.Protocol.ArgBuffer.{
  end_token, empty, dq_content, dq_content_esc, ArgBuffer, max_args, new_args, open_arg, to_state,
  write, push_in, push_back, push_all, argument,
}

-- An argument in double quotes, with a backslash in front of a quote or a backslash.
abbrev pub escape : List ℕ → List ℕ
escape [] = []
escape (c ∷ cs) = if c == b'"' || c == b'\\' then b'\\' ∷ c ∷ escape cs else c ∷ escape cs

abbrev pub quote : List (List ℕ) → List ℕ
quote [] = []
quote (w ∷ ws) = b'"' ∷ (escape w ++ (b'"' ∷ b' ' ∷ quote ws))

-- The arguments as they lie in the buffer, and their starts.
abbrev pub flat : List (List ℕ) → List ℕ
flat [] = []
flat (w ∷ ws) = w ++ 0 ∷ flat ws

abbrev pub offsets : ℕ → List (List ℕ) → List ℕ
offsets n [] = []
offsets n (w ∷ ws) = n ∷ offsets (n + length w + 1) ws

push_all-append :
    (cap : ℕ) (a : ArgBuffer) (xs ys : List ℕ)
    → push_all cap a (xs ++ ys) ≡ push_all cap (push_all cap a xs) ys
unfolding push_all
push_all-append cap a [] ys = refl
push_all-append cap a (x ∷ xs) ys = push_all-append cap (push_back cap a x) xs ys

chars-append :
    (cap : ℕ) (b : Buffer) (xs ys : List ℕ)
    → Buffer.push_all cap b (xs ++ ys) ≡ Buffer.push_all cap (Buffer.push_all cap b xs) ys
unfolding Buffer.push_all
chars-append cap b [] ys = refl
chars-append cap b (x ∷ xs) ys = chars-append cap (Buffer.push_back cap b x) xs ys

size-chars :
    (cap : ℕ) (b : Buffer) (xs : List ℕ)
    → b.pos + length xs ≤ cap
    → (Buffer.push_all cap b xs).pos ≡ b.pos + length xs
unfolding Buffer.push_all Buffer.push_back
size-chars cap b [] h = omega arith
size-chars cap b (x ∷ xs) h = ground (arith, size-chars cap (Buffer.push_back cap b x) xs)

-- An ordinary character between double quotes.
dq-plain :
    (cap : ℕ) (a : ArgBuffer) (c : ℕ)
    → (c == b'"') ≡ false
    → (c == b'\\') ≡ false
    → push_in cap dq_content a c ≡ write cap a c dq_content
unfolding push_in
dq-plain cap a c p q =
    ap
      (λ x.
        if x
        then to_state a end_token
        else if c == b'\\'
        then to_state a dq_content_esc
        else write cap a c dq_content)
      p
    ∙ ap (λ x. if x then to_state a dq_content_esc else write cap a c dq_content) q

-- The characters of a quoted argument go to the buffer.
escape-chars :
    (cap : ℕ) (s p : List ℕ) (b : Buffer) (w : List ℕ)
    → push_all cap (record { starts = s; pointers = p; state = dq_content; chars = b }) (escape w)
      ≡ record { starts = s; pointers = p; state = dq_content; chars = Buffer.push_all cap b w }
unfolding push_all push_in Buffer.push_all
escape-chars cap s p b [] = refl
escape-chars cap s p b (c ∷ cs) =
    let a : ArgBuffer = record { starts = s; pointers = p; state = dq_content; chars = b } in
    let rest = escape-chars cap s p (Buffer.push_back cap b c) cs in
    elim (Bool-cases (c == b'"' || c == b'\\')) [
      | inl special ↦
          ap (λ x. push_all cap a (if x then b'\\' ∷ c ∷ escape cs else c ∷ escape cs)) special
          ∙ rest
      | inr plain ↦
          ap (λ x. push_all cap a (if x then b'\\' ∷ c ∷ escape cs else c ∷ escape cs)) plain
          ∙ ap (λ x. push_all cap x (escape cs))
              (dq-plain cap a c (ground (arith, plain)) (ground (arith, plain)))
          ∙ rest
    ]

quote-chars :
    (cap : ℕ) (s p : List ℕ) (b : Buffer) (ws : List (List ℕ))
    → length s + length ws ≤ max_args
    → b.pos + length (flat ws) ≤ cap
    → push_all cap (record { starts = s; pointers = p; state = empty; chars = b }) (quote ws)
      ≡ record {
        starts = s ++ offsets b.pos ws;
        pointers = p;
        state = empty;
        chars = Buffer.push_all cap b (flat ws);
      }
unfolding push_all Buffer.push_all push_in open_arg Buffer.size
quote-chars cap s p b [] h k =
    ap (λ x. record { starts = x; pointers = p; state = empty; chars = b }) (sym (append-nil s))
quote-chars cap s p b (w ∷ ws) h k =
    let open_state : ArgBuffer = record {
      starts = s ++ (b.pos ∷ []);
      pointers = p;
      state = dq_content;
      chars = b;
    } in
    let opened : push_all cap (record { starts = s; pointers = p; state = empty; chars = b })
          (quote (w ∷ ws))
        ≡ push_all cap open_state (escape w ++ (b'"' ∷ b' ' ∷ quote ws)) =
      ap
        (λ x.
          push_all cap
            (to_state
              (if x
                then record { starts = s ++ (b.pos ∷ []); pointers = p; state = empty; chars = b }
                else record { starts = s; pointers = p; state = empty; chars = b })
              dq_content)
            (escape w ++ (b'"' ∷ b' ' ∷ quote ws)))
        room in
    opened
    ∙ push_all-append cap open_state (escape w) (b'"' ∷ b' ' ∷ quote ws)
    ∙ ap (λ x. push_all cap x (b'"' ∷ b' ' ∷ quote ws)) (escape-chars cap (s ++ (b.pos ∷ [])) p b w)
    ∙ quote-chars cap (s ++ (b.pos ∷ [])) p b' ws (omega (arith, h, length-append s (b.pos ∷ [])))
        (omega (arith, k, pos', length-append w (0 ∷ flat ws)))
    ∙ (λ i. record {
      starts = joined i;
      pointers = p;
      state = empty;
      chars = sym (chars-append cap b w (0 ∷ flat ws)) i;
    })
  where
    room : ltb (length s) max_args ≡ true
    room = ground arith

    b' : Buffer
    b' = Buffer.push_back cap (Buffer.push_all cap b w) 0

    pos' : b'.pos ≡ b.pos + length w + 1
    pos' =
        ap (λ x. x.pos) (sym (chars-append cap b w (0 ∷ [])))
        ∙ size-chars cap b (w ++ 0 ∷ [])
            (omega (arith, k, length-append w (0 ∷ []), length-append w (0 ∷ flat ws)))
        ∙ omega (arith, length-append w (0 ∷ []))

    joined :
        (s ++ (b.pos ∷ [])) ++ offsets b'.pos ws ≡ s ++ b.pos ∷ offsets (b.pos + length w + 1) ws
    joined =
        append_assoc s (b.pos ∷ []) (offsets b'.pos ws) ∙ ap (λ n. s ++ b.pos ∷ offsets n ws) pos'

-- No byte of the list is zero.
abbrev pub IsText : List ℕ → Type 0
IsText [] = Unit {0}
IsText (c ∷ cs) = (c ≢ 0) × IsText cs

abbrev pub AreTexts : List (List ℕ) → Type 0
AreTexts [] = Unit {0}
AreTexts (w ∷ ws) = IsText w × AreTexts ws

c_string-text : (w rest : List ℕ) → IsText w → c_string (w ++ 0 ∷ rest) ≡ w
c_string-text [] rest t = refl
c_string-text (c ∷ cs) rest (n, t) = ground (arith, n, c_string-text cs rest t)

-- The terminating zero that `c_str` writes does not change what is read in front of it.
c_string-drop :
    (at n : ℕ) (xs : List ℕ)
    → n < length xs
    → at ≤ n
    → c_string (drop at (set xs n 0)) ≡ c_string (drop at (take n xs))
c_string-drop at n [] h k = absurd (omega arith)
c_string-drop zero zero (x ∷ xs) h k = refl
c_string-drop zero (suc n) (x ∷ xs) h k = ground (arith, c_string-drop zero n xs)
c_string-drop (suc at) zero (x ∷ xs) h k = absurd (omega arith)
c_string-drop (suc at) (suc n) (x ∷ xs) h k = c_string-drop at n xs (omega arith) (omega arith)

-- The argument at each start is the one that was written there.
at_offsets :
    (read : ℕ → List ℕ) (front : List ℕ) (ws : List (List ℕ)) (idx n : ℕ)
    → n ≡ length front
    → ((at : ℕ) → at ≤ length (front ++ flat ws) → read at ≡ c_string (drop at (front ++ flat ws)))
    → AreTexts ws
    → elim (get_elem? (offsets n ws) idx) [ none ↦ none | some at ↦ some (read at) ]
      ≡ get_elem? ws idx
at_offsets read front [] idx n e r t = refl
at_offsets read front (w ∷ ws) zero n e r (t, ts) = ap some (
    r n (omega (arith, e, length-append front (w ++ 0 ∷ flat ws)))
    ∙ ap c_string (drop-append n front (w ++ 0 ∷ flat ws) e)
    ∙ c_string-text w (flat ws) t)
at_offsets read front (w ∷ ws) (suc idx) n e r (t, ts) =
    at_offsets read (front ++ (w ++ 0 ∷ [])) ws idx (n + length w + 1)
      (omega (arith, e, length-append front (w ++ 0 ∷ []), length-append w (0 ∷ [])))
      (subst (λ x. (at : ℕ) → at ≤ length x → read at ≡ c_string (drop at x)) (sym same) r) ts
  where
    same : (front ++ (w ++ 0 ∷ [])) ++ flat ws ≡ front ++ (w ++ 0 ∷ flat ws)
    same =
        append_assoc front (w ++ 0 ∷ []) (flat ws)
        ∙ ap (λ x. front ++ x) (append_assoc w (0 ∷ []) (flat ws))

-- At most 16 arguments without zero bytes, each written in double quotes and followed by a blank,
-- with room in an empty buffer for all of them and their terminating zeros, are returned by
-- `operator[]` as they are, and it returns a null pointer behind the last.
pub argument-quote :
    (cap : ℕ) (b : Buffer) (ws : List (List ℕ)) (idx : ℕ)
    → IsValid cap b
    → b.pos ≡ 0
    → length ws ≤ max_args
    → length (flat ws) ≤ cap
    → AreTexts ws
    → argument (push_all cap (new_args b) (quote ws)) idx ≡ get_elem? ws idx
unfolding argument Buffer.c_str
argument-quote cap b ws idx v e few room t =
    let b' = Buffer.push_all cap b (flat ws) in
    let v' = push_all-IsValid cap b (flat ws) v in
    let written : contents b' ≡ flat ws =
      push_all-contents cap b (flat ws) v
      ∙ ap (λ n. take cap (take n b.cells ++ flat ws)) e
      ∙ take_all cap (flat ws) room in
    let pos' : b'.pos ≡ length (flat ws) =
      size-chars cap b (flat ws) (omega (arith, e, room)) ∙ omega (arith, e) in
    ap (λ a. argument a idx)
      (quote-chars cap [] [] b ws (omega (arith, few)) (omega (arith, e, room)))
    ∙ at_offsets (λ at. c_string (drop at (set b'.cells b'.pos 0))) [] ws idx b.pos e
        (λ at h.
          c_string-drop at b'.pos b'.cells (omega (arith, v'.bounded, v'.allocated))
            (omega (arith, h, pos'))
          ∙ ap (λ x. c_string (drop at x)) written)
        t
