-- ===== src/Protocol/InputBlock/Finish.antt =====
-- The loop of `getEoD` behind the end of the message: it moves what follows and goes to the end.
use smerp.Base.{
  ℕ, zero, suc, ◌+◌, ◌-◌, ◌≤◌, ◌<◌, ◌≡◌, refl, sym, ap, ◌∙◌, subst, Bool, true, false, inl, inr,
  List, ◌++◌, arith, ltb, ◌==◌, if◌then◌else◌, length, take, drop, Bool-cases, length-append,
  length-take, length-drop, take-append_le, take-take,
}
use smerp.Protocol.InputBlock.{
  lf_dot_cr, lf_dot_cr_lf, Scan, memmove, move_input, flush, byte, to_end, round, scan_loop,
}

pub record Bounds (s : Scan) : Type 0 where
  pub dst_le : s.dstsize ≤ s.eatsize
  pub eat_le : s.eatsize ≤ s.bufpos
  pub pos_le : s.bufpos ≤ length s.cells

-- The first `n` bytes and the end that was found stay as they are.
pub record Keeps (n : ℕ) (s r : Scan) : Type 0 where
  pub prefix : take n r.cells ≡ take n s.cells
  pub size : length r.cells ≡ length s.cells
  pub eod : r.eodpos ≡ s.eodpos
  pub grows : s.dstsize ≤ r.dstsize
  pub bounds : Bounds r

length-memmove :
    (buf : List ℕ) (to from n : ℕ)
    → to ≤ from
    → from + n ≤ length buf
    → length (memmove buf to from n) ≡ length buf
length-memmove buf to from n h k = omega (
  arith,
  length-append (take to buf) (take n (drop from buf) ++ drop (to + n) buf),
  length-append (take n (drop from buf)) (drop (to + n) buf),
  length-take to buf,
  length-take n (drop from buf),
  length-drop from buf,
  length-drop (to + n) buf,
)

take-memmove :
    (m : ℕ) (buf : List ℕ) (to from n : ℕ)
    → m ≤ to
    → to ≤ length buf
    → take m (memmove buf to from n) ≡ take m buf
take-memmove m buf to from n h k =
    take-append_le m (take to buf) (take n (drop from buf) ++ drop (to + n) buf)
      (omega (arith, length-take to buf))
    ∙ take-take m to buf h

pub move_input-Keeps : (n : ℕ) (s : Scan) → Bounds s → n ≤ s.dstsize → Keeps n s (move_input s)
unfolding move_input
move_input-Keeps n s b h = elim (Bool-cases (s.dstsize == s.eatsize)) [
  | inl same ↦ rw same (record {
    prefix = refl;
    size = refl;
    eod = refl;
    grows = omega arith;
    bounds = record {
      dst_le = omega (arith, b.dst_le, b.eat_le);
      eat_le = omega arith;
      pos_le = b.pos_le;
    };
  })
  | inr moved ↦
      let len =
        length-memmove s.cells s.dstsize s.eatsize (s.bufpos - s.eatsize) b.dst_le
          (omega (arith, b.eat_le, b.pos_le)) in
      rw moved (record {
        prefix =
            take-memmove n s.cells s.dstsize s.eatsize (s.bufpos - s.eatsize) h
              (omega (arith, b.dst_le, b.eat_le, b.pos_le));
        size = len;
        eod = refl;
        grows = omega arith;
        bounds = record {
          dst_le = omega (arith, b.dst_le, b.eat_le);
          eat_le = omega arith;
          pos_le = omega (arith, len, b.pos_le);
        };
      })
]

Keeps-refl : (n : ℕ) (s : Scan) → Bounds s → Keeps n s s
Keeps-refl n s b = record {
  prefix = refl;
  size = refl;
  eod = refl;
  grows = omega arith;
  bounds = b;
}

pub flush-Keeps : (n : ℕ) (s : Scan) → Bounds s → n ≤ s.dstsize → Keeps n s (flush s)
unfolding flush
flush-Keeps n s b h = elim (Bool-cases (s.bufpos == length s.cells)) [
  | inl end ↦ rw end (move_input-Keeps n s b h)
  | inr more ↦ rw more (Keeps-refl n s b)
]

pub scan_loop_stops : (fuel : ℕ) (s : Scan) → s.bufpos ≡ length s.cells → scan_loop fuel s ≡ s
unfolding scan_loop
scan_loop_stops zero s e = refl
scan_loop_stops (suc fuel) s e = ground arith

pub scan_loop_goes :
    (fuel : ℕ) (s : Scan)
    → s.bufpos < length s.cells
    → scan_loop (suc fuel) s ≡ scan_loop fuel (round s.state s)
unfolding scan_loop
scan_loop_goes fuel s h = ground arith

-- Behind the end everything is kept, and the loop goes to the end of the array.
pub record Finishes (n : ℕ) (s r : Scan) : Type 0 where
  pub keeps : Keeps n s r
  pub ended : r.bufpos ≡ length r.cells

to_end-Finishes :
    (n : ℕ) (s : Scan) → Bounds s → n ≤ s.dstsize → Finishes n s (move_input (to_end s))
unfolding move_input
to_end-Finishes n s b h =
    let k =
      move_input-Keeps n (to_end s)
        (record {
          dst_le = b.dst_le;
          eat_le = omega (arith, b.eat_le, b.pos_le);
          pos_le = omega arith;
        })
        h in
    record {
      keeps = record {
        prefix = k.prefix;
        size = k.size;
        eod = k.eod;
        grows = k.grows;
        bounds = k.bounds;
      };
      ended = sym k.size;
    }

pub Finishes-last :
    (n fuel : ℕ) (s : Scan)
    → s.state ≡ lf_dot_cr_lf
    → Bounds s
    → n ≤ s.dstsize
    → Finishes n s (scan_loop (suc fuel) s)
unfolding round
Finishes-last n fuel s e b h = elim (Bool-cases (ltb s.bufpos (length s.cells))) [
  | inl more ↦
      let f = to_end-Finishes n s b h in
      let goes = scan_loop_goes fuel s (ground arith) in
      let at : round s.state s ≡ move_input (to_end s) = ap (λ st. round st s) e in
      subst (Finishes n s)
        (sym (goes ∙ ap (scan_loop fuel) at ∙ scan_loop_stops fuel (move_input (to_end s)) f.ended))
        f
  | inr done ↦
      let end : s.bufpos ≡ length s.cells = ground (arith, b.pos_le) in
      subst (Finishes n s) (sym (scan_loop_stops (suc fuel) s end))
        (record { keeps = Keeps-refl n s b; ended = end })
]

-- One round from `LF_DOT_CR`, and then as above.
pub Finishes-cr :
    (n fuel : ℕ) (s : Scan)
    → s.state ≡ lf_dot_cr
    → Bounds s
    → n ≤ s.dstsize
    → Finishes n s (scan_loop (suc (suc fuel)) s)
unfolding round
Finishes-cr n fuel s e b h = elim (Bool-cases (ltb s.bufpos (length s.cells))) [
  | inl more ↦
      let at : round s.state s ≡ round lf_dot_cr s = ap (λ st. round st s) e in
      let k = cr_round (ground arith) in
      let f = Finishes-last n fuel (round lf_dot_cr s) refl k.bounds (omega (arith, k.grows)) in
      subst (Finishes n s)
        (sym (scan_loop_goes (suc fuel) s (ground arith) ∙ ap (scan_loop (suc fuel)) at))
        (record {
          keeps = record {
            prefix = f.keeps.prefix ∙ k.prefix;
            size = f.keeps.size ∙ k.size;
            eod = f.keeps.eod ∙ k.eod;
            grows = omega (arith, f.keeps.grows, k.grows);
            bounds = f.keeps.bounds;
          };
          ended = f.ended;
        })
  | inr done ↦
      let end : s.bufpos ≡ length s.cells = ground (arith, b.pos_le) in
      subst (Finishes n s) (sym (scan_loop_stops (suc (suc fuel)) s end))
        (record { keeps = Keeps-refl n s b; ended = end })
]
  where
    again : (t : Scan) → Keeps n s t → Keeps n s (record t { state = lf_dot_cr_lf })
    again t k = record {
      prefix = k.prefix;
      size = k.size;
      eod = k.eod;
      grows = k.grows;
      bounds = record {
        dst_le = k.bounds.dst_le;
        eat_le = k.bounds.eat_le;
        pos_le = k.bounds.pos_le;
      };
    }

    skip :
        (c : Bool)
        → s.bufpos < length s.cells
        → Keeps n s (flush (if c then record s { bufpos = s.bufpos + 1 } else s))
    skip true m =
        let k =
          flush-Keeps n (record s { bufpos = s.bufpos + 1 })
            (record { dst_le = b.dst_le; eat_le = omega (arith, b.eat_le); pos_le = omega arith })
            h in
        record { prefix = k.prefix; size = k.size; eod = k.eod; grows = k.grows; bounds = k.bounds }
    skip false m = flush-Keeps n s b h

    cr_round : s.bufpos < length s.cells → Keeps n s (round lf_dot_cr s)
    cr_round m = again _ (skip (byte s == b'\n') m)
