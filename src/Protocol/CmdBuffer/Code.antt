-- ===== src/Protocol/CmdBuffer/Code.antt =====
-- What the number of a `CmdBuffer` tells of the characters that were pushed.
use smerp.Base.{
  ℕ, zero, suc, ◌+◌, ◌-◌, ◌*◌, ◌%◌, ◌^◌, ◌≤◌, ◌<◌, ◌≡◌, refl, sym, ap, ◌∙◌, ◌++◌, Bool, true, false,
  ◌&&◌, ◌||◌, List, [], ◌∷◌, map, arith, leb, if◌then◌else◌, length,
}
use smerp.Protocol.CmdBuffer.{CmdBuffer, word_mod, empty, shift_in, push_back, push_all}

-- The letters, in either case, and the digits.
abbrev pub is_alnum : ℕ → Bool
is_alnum c = (leb b'a' c && leb c b'z') || (leb b'A' c && leb c b'Z') || (leb b'0' c && leb c b'9')

-- Letters to 0..25, whatever their case, and digits to 26..35.
abbrev pub digit : ℕ → ℕ
digit c =
    if leb b'a' c && leb c b'z'
    then c - b'a'
    else if leb b'A' c && leb c b'Z'
    then c - b'A'
    else c + 26 - b'0'

abbrev pub All : (ℕ → Bool) → List ℕ → Type 0
All p [] = Unit {0}
All p (c ∷ cs) = (p c ≡ true) × All p cs

-- The word read as digits to the base 64, the last one the least.
abbrev code_from : ℕ → List ℕ → ℕ
code_from acc [] = acc
code_from acc (c ∷ cs) = code_from (acc * 64 + digit c) cs

digit-lt : (c : ℕ) → is_alnum c ≡ true → digit c < 36
digit-lt c h = ground arith

-- The buffer's position never moves, so the test of the length never fires.
push_back-alnum :
    (b : CmdBuffer) (c : ℕ) → b.pos ≡ 0 → is_alnum c ≡ true → push_back b c ≡ shift_in b (digit c)
unfolding push_back
push_back-alnum b c p h = ground arith

abbrev step_value : ℕ → ℕ → ℕ
step_value v d = v * 64 % word_mod + d

step_value-mod : (v d : ℕ) → d < 36 → step_value v d ≡ (v * 64 + d) % word_mod
step_value-mod v d h = omega arith

code_from-mod :
    (acc : ℕ) (w : List ℕ) → code_from acc w % word_mod ≡ code_from (acc % word_mod) w % word_mod
code_from-mod acc [] = omega arith
code_from-mod acc (c ∷ w) =
    code_from-mod (acc * 64 + digit c) w
    ∙ ap (λ (k : ℕ). code_from k w % word_mod) (again acc (digit c))
    ∙ sym (code_from-mod (acc % word_mod * 64 + digit c) w)
  where
    again : (a d : ℕ) → (a * 64 + d) % word_mod ≡ (a % word_mod * 64 + d) % word_mod
    again a d = omega arith

-- A word of letters and digits leaves its code, modulo 2^64, whatever its length.
pub push_all-code :
    (b : CmdBuffer) (w : List ℕ)
    → b.pos ≡ 0
    → b.value < word_mod
    → All is_alnum w
    → push_all b w ≡ record { pos = 0; value = code_from b.value w % word_mod }
unfolding push_all
push_all-code b [] p r a = ground arith
push_all-code b (c ∷ w) p r (h, a) = rw (push_back-alnum b c p h) (
    push_all-code (shift_in b (digit c)) w p (omega (arith, digit-lt c h)) a
    ∙ ap (λ (k : ℕ). record { pos = 0; value = k })
        (ap (λ (k : ℕ). code_from k w % word_mod) (step_value-mod b.value (digit c) (digit-lt c h))
          ∙ sym (code_from-mod (b.value * 64 + digit c) w)))

code_from_injective :
    (a b : ℕ) (w v : List ℕ)
    → All is_alnum w
    → All is_alnum v
    → length w ≡ length v
    → code_from a w ≡ code_from b v
    → (a ≡ b) × (map digit w ≡ map digit v)
code_from_injective a b [] [] p q l e = (e, refl)
code_from_injective a b [] (y ∷ v) p q l e = absurd (omega arith)
code_from_injective a b (x ∷ w) [] p q l e = absurd (omega arith)
code_from_injective a b (x ∷ w) (y ∷ v) (p, ps) (q, qs) l e =
    let (heads, tails) =
      code_from_injective (a * 64 + digit x) (b * 64 + digit y) w v ps qs (omega arith) e in
    let same : digit x ≡ digit y = omega (arith, digit-lt x p, digit-lt y q) in
    (omega (arith, digit-lt x p, digit-lt y q), rw (same, tails))

abbrev bound : ℕ → ℕ → ℕ
bound k zero = k
bound k (suc n) = bound (k * 64) n

code_from-lt-bound :
    (a k : ℕ) (w : List ℕ) → a < k → All is_alnum w → code_from a w < bound k (length w)
code_from-lt-bound a k [] h p = h
code_from-lt-bound a k (c ∷ w) h (p, ps) =
    code_from-lt-bound (a * 64 + digit c) (k * 64) w (omega (arith, digit-lt c p)) ps

le-bound : (k n : ℕ) → k ≤ bound k n
le-bound k zero = omega arith
le-bound k (suc n) = omega (arith, le-bound (k * 64) n)

bound_mono : (k n m : ℕ) → n ≤ m → bound k n ≤ bound k m
bound_mono k zero m h = le-bound k m
bound_mono k (suc n) zero h = absurd (omega arith)
bound_mono k (suc n) (suc m) h = bound_mono (k * 64) n m (omega arith)

pub code_from-small : (w : List ℕ) → All is_alnum w → length w ≤ 10 → code_from 0 w < 64 ^ 10
code_from-small w p h =
    omega (arith, code_from-lt-bound 0 1 w (omega arith) p, bound_mono 1 (length w) 10 h)

pub push_all-value :
    (w : List ℕ) → All is_alnum w → length w ≤ 10 → (push_all empty w).value ≡ code_from 0 w
push_all-value w p h =
    ap (λ b. b.value) (push_all-code empty w refl (omega arith) p)
    ∙ small (code_from 0 w) (omega (arith, code_from-small w p h))
  where
    small : (n : ℕ) → n < word_mod → n % word_mod ≡ n
    small n h = omega arith

-- Words of letters and digits of equal length, up to ten, that leave equal codes differ in case
-- only.
pub push_all_injective :
    (w v : List ℕ)
    → All is_alnum w
    → All is_alnum v
    → length w ≡ length v
    → length w ≤ 10
    → (push_all empty w).value ≡ (push_all empty v).value
    → map digit w ≡ map digit v
push_all_injective w v p q l h e =
    (code_from_injective 0 0 w v p q l
      (sym (push_all-value w p h) ∙ e ∙ push_all-value v q (omega arith))).1

push_back_other : (b : CmdBuffer) (c : ℕ) → is_alnum c ≡ false → push_back b c ≡ empty
unfolding push_back
push_back_other b c h = ground arith

-- A character that is no letter and no digit makes the buffer forget all that came before it.
push_all_forgets :
    (b : CmdBuffer) (u : List ℕ) (c : ℕ) (w : List ℕ)
    → is_alnum c ≡ false
    → push_all b (u ++ c ∷ w) ≡ push_all empty w
unfolding push_all
push_all_forgets b [] c w h = ap (λ x. push_all x w) (push_back_other b c h)
push_all_forgets b (x ∷ u) c w h = push_all_forgets (push_back b x) u c w h

-- A leading letter or digit whose digit is 0, that is `a` or `A`, leaves no trace in the buffer.
push_all_leading_zero :
    (c : ℕ) (w : List ℕ)
    → is_alnum c ≡ true
    → digit c ≡ 0
    → push_all empty (c ∷ w) ≡ push_all empty w
unfolding push_all
push_all_leading_zero c w h z =
    ap (λ x. push_all x w) (push_back-alnum empty c refl h ∙ ap (shift_in empty) z)
