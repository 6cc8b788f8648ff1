-- ===== src/Smerp/Handler/Lines.antt =====
-- Where a line ends, and the parts of a buffer.
use smerp.Base.{
  ℕ, ◌+◌, ◌≡◌, refl, ap, false, inl, inr, List, [], ◌∷◌, ◌++◌, Option-cases, Bool-cases, none, some,
  arith, ◌==◌, length,
}
use smerp.Smerp.Handler.{line_end}

-- A newline is found, and it is the first: what it ends is a line with no other newline.
abbrev pub NoNewline : List ℕ → Type 0
NoNewline [] = Unit {0}
NoNewline (c ∷ cs) = ((c == b'\n') ≡ false) × NoNewline cs

pub line_end-line :
    (l rest : List ℕ) → NoNewline l → line_end (l ++ b'\n' ∷ rest) ≡ some (length l + 1)
line_end-line [] rest h = refl
line_end-line (c ∷ l) rest (n, h) = rw (n, line_end-line l rest h) (ap some (omega arith))

pub line_end-none : (l : List ℕ) → NoNewline l → line_end l ≡ none
line_end-none [] h = refl
line_end-none (c ∷ l) (n, h) = rw (n, line_end-none l h)

-- Either there is no newline, or the list splits at the first one.
pub record Line (xs : List ℕ) (n : ℕ) : Type 0 where
  pub text : List ℕ
  pub rest : List ℕ
  pub splits : xs ≡ text ++ b'\n' ∷ rest
  pub whole : NoNewline text
  pub counted : n ≡ length text + 1

pub line_end-Line : (xs : List ℕ) (n : ℕ) → line_end xs ≡ some n → Line xs n
line_end-Line [] n h = absurd (cc h)
line_end-Line (c ∷ xs) n h = elim (Bool-cases (c == b'\n')) [
  | inl e ↦ record {
    text = [];
    rest = xs;
    splits = ground arith;
    whole = tt;
    counted = ground arith;
  }
  | inr e ↦ elim (Option-cases (line_end xs)) [
    | inl f ↦ absurd (ground arith)
    | inr (m, f) ↦
        let l = line_end-Line xs m f in
        record {
          text = c ∷ l.text;
          rest = l.rest;
          splits = ap (◌∷◌ c) l.splits;
          whole = (e, l.whole);
          counted = ground (arith, l.counted);
        }
  ]
]
