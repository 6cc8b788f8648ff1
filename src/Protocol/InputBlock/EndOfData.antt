-- ===== src/Protocol/InputBlock/EndOfData.antt =====
-- `getEoD` against its specification.
use smerp.Base.{
  ℕ, suc, ◌+◌, ◌≤◌, ◌<◌, ◌≡◌, refl, sym, ap, ◌∙◌, Bool, true, false, inl, inr, ◌⊎◌, List, ◌∷◌, ◌++◌,
  none, some, arith, length, take, drop, get_or, length-append, take-append, drop-append,
  append-nil, append_assoc, get_or-append, eq-nil_of_length,
}
use smerp.Protocol.InputBlock.{
  EodState, src, lf, lf_dot, lf_dot_cr, lf_dot_cr_lf, Scan, byte, scan_loop,
}
use smerp.Protocol.InputBlock.Moves.{Represents, length-cells}
use smerp.Protocol.InputBlock.Finish.{Bounds, Finishes, Finishes-last, Finishes-cr}

-- The states in which the end of the message was not seen.
abbrev pub IsOpen : EodState → Type 0
IsOpen src = Unit {0}
IsOpen lf = Unit {0}
IsOpen lf_dot = Unit {0}
IsOpen _ = ⊥

-- What the loop comes to: the kept bytes in front, and the end behind them if it was found.
pub record Result (r : Scan) (n : ℕ) (kept : List ℕ) (seen : Bool) (last : EodState) : Type 0 where
  pub prefix : take (length kept) r.cells ≡ kept
  pub ended : r.bufpos ≡ length r.cells
  pub size : length r.cells ≡ n
  pub within : r.dstsize ≤ n
  pub verdict :
      ((seen ≡ true) × (r.eodpos ≡ some (length kept)) × (length kept < r.dstsize))
      ⊎ ((seen ≡ false) × (r.eodpos ≡ none) × (r.dstsize ≡ length kept) × (r.state ≡ last))

pub Represents-byte :
    (s : Scan) (kept : List ℕ) (c : ℕ) (rest : List ℕ)
    → Represents s kept (c ∷ rest)
    → (byte s ≡ c) × (drop s.bufpos s.cells ≡ c ∷ rest)
Represents-byte s kept c rest r =
    let split : s.cells ≡ (r.out ++ (r.gap ++ r.pend)) ++ c ∷ rest =
      r.splits
      ∙ ap (λ x. r.out ++ x) (sym (append_assoc r.gap r.pend (c ∷ rest)))
      ∙ sym (append_assoc r.out (r.gap ++ r.pend) (c ∷ rest)) in
    let at : s.bufpos ≡ length (r.out ++ (r.gap ++ r.pend)) =
      omega (arith, r.at_pos, length-append r.out (r.gap ++ r.pend), length-append r.gap r.pend) in
    (
      ap (λ x. get_or x s.bufpos 0) split
          ∙ get_or-append s.bufpos (r.out ++ (r.gap ++ r.pend)) c rest 0 at,
      ap (drop s.bufpos) split ∙ drop-append s.bufpos (r.out ++ (r.gap ++ r.pend)) (c ∷ rest) at,
    )

-- Where all kept bytes are in front of the gap, they are the first bytes of the array.
pub Represents-front :
    (s : Scan) (kept rest : List ℕ)
    → Represents s kept rest
    → s.dstsize ≡ length kept
    → take (length kept) s.cells ≡ kept
Represents-front s kept rest r e =
    let none_left =
      eq-nil_of_length r.pend
        (omega (arith, e, r.at_dst, ap length r.joined, length-append r.out r.pend)) in
    let same : kept ≡ r.out = r.joined ∙ ap (λ p. r.out ++ p) none_left ∙ append-nil r.out in
    ap (take (length kept)) r.splits
    ∙ take-append (length kept) r.out (r.gap ++ (r.pend ++ rest)) (ap length same)
    ∙ sym same

pub Represents-Bounds : (s : Scan) (kept rest : List ℕ) → Represents s kept rest → Bounds s
Represents-Bounds s kept rest r = record {
  dst_le = omega (arith, r.at_dst, r.at_eat);
  eat_le = omega (arith, r.at_eat, r.at_pos);
  pos_le = omega (arith, length-cells s kept rest r);
}

-- The message ends here, with `fuel` for what follows it.
pub end_found :
    (fuel : ℕ) (s r : Scan) (kept rest : List ℕ) (c : ℕ) (last : EodState)
    → Represents s kept (c ∷ rest)
    → s.dstsize ≡ length kept
    → (r.state ≡ lf_dot_cr) ⊎ (r.state ≡ lf_dot_cr_lf)
    → r ≡ record s {
      eodpos = some s.dstsize;
      dstsize = s.dstsize + 1;
      state = r.state;
      bufpos = s.bufpos + 1;
      eatsize = s.bufpos + 1;
    }
    → Result (scan_loop (suc (suc fuel)) r) (length s.cells) kept true last
end_found fuel s r kept rest c last rep d st e =
    let b = Represents-Bounds s kept (c ∷ rest) rep in
    let len = length-cells s kept (c ∷ rest) rep in
    let cells = ap (λ x. x.cells) e in
    let dst = ap (λ x. x.dstsize) e in
    let pos = ap (λ x. x.bufpos) e in
    let eat = ap (λ x. x.eatsize) e in
    let eod = ap (λ x. x.eodpos) e in
    let bounds : Bounds r = record {
      dst_le = omega (arith, dst, eat, b.dst_le, b.eat_le);
      eat_le = omega (arith, pos, eat);
      pos_le = omega (arith, pos, len, ap length cells);
    } in
    let f : Finishes (length kept) r (scan_loop (suc (suc fuel)) r) = elim st [
      | inl cr ↦ Finishes-cr (length kept) fuel r cr bounds (omega (arith, dst, d))
      | inr cr_lf ↦ Finishes-last (length kept) (suc fuel) r cr_lf bounds (omega (arith, dst, d))
    ] in
    let size = f.keeps.size ∙ ap length cells in
    record {
      prefix =
          f.keeps.prefix ∙ ap (take (length kept)) cells ∙ Represents-front s kept (c ∷ rest) rep d;
      ended = f.ended;
      size = size;
      within =
          omega (arith, f.keeps.bounds.dst_le, f.keeps.bounds.eat_le, f.keeps.bounds.pos_le, size);
      verdict = inl (refl, f.keeps.eod ∙ eod ∙ ap some d, omega (arith, f.keeps.grows, dst, d));
    }
