-- ===== src/Protocol/InputBlock/Delivered.antt =====
-- `getEoD` meets its specification.
use smerp.Base.{
  ℕ, zero, suc, ◌+◌, ◌≤◌, ◌<◌, ◌≡◌, refl, ap, subst, Bool, ◌∙◌, true, false, inl, inr, ◌⊎◌, List,
  [], ◌∷◌, none, some, arith, leb, length, take, drop, length-append, length-take, length-drop,
  take-append, drop-append,
}
use smerp.Protocol.InputBlock.{
  EodState, src, lf, lf_dot, lf_dot_cr, lf_dot_cr_lf, InputBlock, scan, get_eod,
}
use smerp.Protocol.InputBlock.Unstuff.{
  text, found, last_state, standard_text, standard_found, standard_last, has_empty_line,
  text-standard,
}
use smerp.Protocol.InputBlock.EndOfData.{IsOpen, Result}
use smerp.Protocol.InputBlock.Simulation.{Later, stops}
use smerp.Protocol.InputBlock.Rounds.{in_lf, in_lf_dot, in_src}

scan_loop-Result : (fuel : ℕ) → Later fuel
scan_loop-Result fuel t st kept [] is_open o enough = stops fuel t st kept o
scan_loop-Result zero t st kept (c ∷ rest) is_open o enough = absurd (omega arith)
scan_loop-Result (suc fuel) t src kept (c ∷ rest) is_open o enough =
    in_src fuel t kept c rest (scan_loop-Result fuel) o enough
scan_loop-Result (suc fuel) t lf kept (c ∷ rest) is_open o enough =
    in_lf fuel t kept c rest (scan_loop-Result fuel) o enough
scan_loop-Result (suc zero) t lf_dot kept (c ∷ rest) is_open o enough = absurd (omega arith)
scan_loop-Result (suc (suc zero)) t lf_dot kept (c ∷ rest) is_open o enough = absurd (omega arith)
scan_loop-Result (suc (suc (suc fuel))) t lf_dot kept (c ∷ rest) is_open o enough =
    in_lf_dot fuel t kept c rest (scan_loop-Result (suc (suc fuel))) o enough
scan_loop-Result (suc fuel) t lf_dot_cr kept (c ∷ rest) is_open o enough = absurd is_open
scan_loop-Result (suc fuel) t lf_dot_cr_lf kept (c ∷ rest) is_open o enough = absurd is_open

scan-Result :
    (cells : List ℕ) (st : EodState)
    → IsOpen st
    → Result (scan cells st) (length cells) (text st cells) (found st cells) (last_state st cells)
unfolding scan
scan-Result cells st is_open =
    scan_loop-Result (length cells + 2) _ st [] cells is_open
      (record {
        tracks = record {
          rep = record {
            out = [];
            gap = [];
            pend = [];
            splits = refl;
            joined = refl;
            at_dst = refl;
            at_eat = refl;
            at_pos = refl;
          };
          ready = λ _. refl;
        };
        in_state = refl;
        no_end = refl;
        settled = λ _. refl;
      })
      (omega arith)

-- Where a message of `b` from `start` on lies after `getEoD` returned `r`: its text, whether its end
-- was seen, and the state otherwise.
pub record Delivered (message : List ℕ) (seen : Bool) (last : EodState) (b : InputBlock) (start : ℕ)
    (r : ℕ × InputBlock) : Type 0 where
  pub in_front : take start r.1.cells ≡ take start b.cells
  pub text_there : take (length message) (drop start r.1.cells) ≡ message
  pub same_size : length r.1.cells ≡ length b.cells
  pub within : r.1.pos ≤ length b.cells
  pub verdict :
      ((seen ≡ true) × (r.0 ≡ start + length message) × (start + length message < r.1.pos))
      ⊎ ((seen ≡ false)
          × (r.0 ≡ start + length message)
          × (r.1.pos ≡ start + length message)
          × (r.1.eod_state ≡ last))

get_eod-Delivered :
    (b : InputBlock) (start : ℕ)
    → IsOpen b.eod_state
    → start < length b.cells
    → Delivered
        (text b.eod_state (drop start b.cells))
        (found b.eod_state (drop start b.cells))
        (last_state b.eod_state (drop start b.cells))
        b
        start
        (get_eod b start)
unfolding get_eod
get_eod-Delivered b start is_open inside =
    let left = drop start b.cells in
    let r = scan-Result left b.eod_state is_open in
    let s = scan left b.eod_state in
    let kept = text b.eod_state left in
    let size = length-drop start b.cells in
    let front : start ≡ length (take start b.cells) = omega (arith, length-take start b.cells) in
    let away : leb (length b.cells) start ≡ false = ground arith in
    let behind = drop-append start (take start b.cells) s.cells front in
    rw away (record {
      in_front = take-append start (take start b.cells) s.cells front;
      text_there = ap (take (length kept)) behind ∙ r.prefix;
      same_size = omega (arith, length-append (take start b.cells) s.cells, r.size);
      within = omega (arith, r.within);
      verdict = elim r.verdict [
        | inl (seen, at, more) ↦ inl (
          seen,
          ap (λ x. elim x [ some at ↦ start + at | none ↦ start + s.dstsize ]) at,
          omega (arith, more),
        )
        | inr (unseen, no_eod, dst, last) ↦ inr (
          unseen,
          ap (λ x. elim x [ some at ↦ start + at | none ↦ start + s.dstsize ]) no_eod
              ∙ ap (λ x. start + x) dst,
          ap (λ x. start + x) dst,
          last,
        )
      ];
    })

-- From a start in the block, in a state in which the end of the message was not yet seen, and where
-- no newline directly follows a newline: by the standard rules, the bytes in front of the start
-- stay, the message follows them without the dots at the starts of its lines, and the iterator
-- stands behind it. It is before `end()` exactly if a line that is a dot was found; if not, the state
-- is the one that the bytes lead to.
pub get_eod-Unstuffed :
    (b : InputBlock) (start : ℕ)
    → IsOpen b.eod_state
    → start < length b.cells
    → has_empty_line b.eod_state (drop start b.cells) ≡ false
    → Delivered
        (standard_text b.eod_state (drop start b.cells))
        (standard_found b.eod_state (drop start b.cells))
        (standard_last b.eod_state (drop start b.cells))
        b
        start
        (get_eod b start)
get_eod-Unstuffed b start is_open inside full =
    let agrees = text-standard b.eod_state (drop start b.cells) full in
    subst
      (λ t.
        Delivered t (standard_found b.eod_state (drop start b.cells))
          (standard_last b.eod_state (drop start b.cells)) b start (get_eod b start))
      agrees.same_text
      (subst
        (λ s.
          Delivered (text b.eod_state (drop start b.cells)) s
            (standard_last b.eod_state (drop start b.cells)) b start (get_eod b start))
        agrees.same_verdict
        (subst
          (λ l.
            Delivered (text b.eod_state (drop start b.cells))
              (found b.eod_state (drop start b.cells)) l b start (get_eod b start))
          agrees.same_state (get_eod-Delivered b start is_open inside)))
