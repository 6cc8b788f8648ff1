-- ===== src/Protocol/InputBlock/Unstuff.antt =====
-- What `getEoD` looks for, byte by byte: which bytes belong to the message, and whether its end was
-- seen. The code does not take a newline that directly follows a newline for the end of a line, so
-- behind an empty line a dot is kept and the end is missed. The standard rules follow behind: every
-- newline ends a line, a dot at the start of a line is left out, and the end is a line that is a
-- dot.
use smerp.Base.{
  ◌≡◌, refl, Bool-cases, inl, inr, arith, ℕ, Bool, true, false, ◌||◌, List, [], ◌∷◌, ◌==◌,
  if◌then◌else◌,
}
use smerp.Protocol.InputBlock.{EodState, src, lf, lf_dot, lf_dot_cr, lf_dot_cr_lf}

abbrev pub is_end : ℕ → Bool
is_end c = c == b'\r' || c == b'\n'

-- The state after a byte, when no end was seen.
abbrev pub after : EodState → ℕ → EodState
after src c = if c == b'\n' then lf else src
after lf c = if c == b'.' then lf_dot else src
after _ c = src

-- Whether the byte ends the message.
abbrev pub ends : EodState → ℕ → Bool
ends lf_dot c = is_end c
ends _ c = false

-- Whether the byte is left out.
abbrev pub dropped : EodState → ℕ → Bool
dropped lf c = c == b'.'
dropped _ c = false

abbrev pub keep : Bool → ℕ → List ℕ → List ℕ
keep true c cs = cs
keep false c cs = c ∷ cs

abbrev pub text : EodState → List ℕ → List ℕ
text st [] = []
text st (c ∷ cs) =
    let rest = keep (dropped st c) c (text (after st c) cs) in if ends st c then [] else rest

abbrev pub found : EodState → List ℕ → Bool
found st [] = false
found st (c ∷ cs) = let rest = found (after st c) cs in if ends st c then true else rest

abbrev pub last_state : EodState → List ℕ → EodState
last_state st [] = st
last_state st (c ∷ cs) = last_state (after st c) cs

abbrev pub standard_after : EodState → ℕ → EodState
standard_after src c = if c == b'\n' then lf else src
standard_after lf c = if c == b'.' then lf_dot else if c == b'\n' then lf else src
standard_after _ c = src

abbrev pub standard_text : EodState → List ℕ → List ℕ
standard_text st [] = []
standard_text st (c ∷ cs) =
    let rest = keep (dropped st c) c (standard_text (standard_after st c) cs) in
    if ends st c then [] else rest

abbrev pub standard_found : EodState → List ℕ → Bool
standard_found st [] = false
standard_found st (c ∷ cs) =
    let rest = standard_found (standard_after st c) cs in if ends st c then true else rest

abbrev pub standard_last : EodState → List ℕ → EodState
standard_last st [] = st
standard_last st (c ∷ cs) = standard_last (standard_after st c) cs

abbrev is_empty_line : EodState → ℕ → Bool
is_empty_line lf c = c == b'\n'
is_empty_line _ c = false

-- Whether a newline directly follows a newline.
abbrev pub has_empty_line : EodState → List ℕ → Bool
has_empty_line st [] = false
has_empty_line st (c ∷ cs) =
    let rest = has_empty_line (standard_after st c) cs in if is_empty_line st c then true else rest

after-standard :
    (st : EodState) (c : ℕ) → is_empty_line st c ≡ false → after st c ≡ standard_after st c
after-standard src c e = refl
after-standard lf c e = rw e refl
after-standard lf_dot c e = refl
after-standard lf_dot_cr c e = refl
after-standard lf_dot_cr_lf c e = refl

-- The rules of the code agree with the standard ones.
pub record Agrees (st : EodState) (cs : List ℕ) : Type 0 where
  pub same_text : text st cs ≡ standard_text st cs
  pub same_verdict : found st cs ≡ standard_found st cs
  pub same_state : last_state st cs ≡ standard_last st cs

pub text-standard : (st : EodState) (cs : List ℕ) → has_empty_line st cs ≡ false → Agrees st cs
text-standard st [] e = record { same_text = refl; same_verdict = refl; same_state = refl }
text-standard st (c ∷ cs) e = elim (Bool-cases (is_empty_line st c)) [
  | inl empty ↦ absurd (ground (arith, e, empty))
  | inr full ↦
      let next = after-standard st c full in
      let r = text-standard (standard_after st c) cs (ground (arith, e, full)) in
      record {
        same_text = rw (next, r.same_text) refl;
        same_verdict = rw (next, r.same_verdict) refl;
        same_state = rw next r.same_state;
      }
]
