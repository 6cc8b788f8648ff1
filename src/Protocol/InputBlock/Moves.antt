-- ===== src/Protocol/InputBlock/Moves.antt =====
-- The array of `getEoD` in three parts: the bytes that are kept, a gap where bytes were left out,
-- and the bytes that are not yet read; some of the kept ones may still lie behind the gap.
use smerp.Base.{
  ℕ, ◌+◌, ◌-◌, ◌≡◌, refl, sym, ap, ◌∙◌, inl, inr, List, [], ◌++◌, arith, ◌==◌, length, take, drop,
  Bool-cases, length-append, length-drop, drop-drop, take-append, drop-append, drop-append_le,
  eq-nil_of_length, append-nil, append_assoc,
}
use smerp.Protocol.InputBlock.{Scan, memmove, move_input, flush}

pub record Rep (cells : List ℕ) (bufpos eatsize dstsize : ℕ) (kept rest : List ℕ) : Type 0 where
  pub out : List ℕ
  pub gap : List ℕ
  pub pend : List ℕ
  pub splits : cells ≡ out ++ (gap ++ (pend ++ rest))
  pub joined : kept ≡ out ++ pend
  pub at_dst : dstsize ≡ length out
  pub at_eat : eatsize ≡ length out + length gap
  pub at_pos : bufpos ≡ length out + length gap + length pend

-- The kept bytes all lie in front of the gap.
pub record Flushed (cells : List ℕ) (bufpos eatsize dstsize : ℕ) (kept rest : List ℕ) : Type 0 where
  pub gap : List ℕ
  pub splits : cells ≡ kept ++ (gap ++ rest)
  pub at_dst : dstsize ≡ length kept
  pub at_eat : eatsize ≡ length kept + length gap
  pub at_pos : bufpos ≡ length kept + length gap

abbrev pub Represents : Scan → List ℕ → List ℕ → Type 0
Represents s kept rest = Rep s.cells s.bufpos s.eatsize s.dstsize kept rest

abbrev pub IsFlushed : Scan → List ℕ → List ℕ → Type 0
IsFlushed s kept rest = Flushed s.cells s.bufpos s.eatsize s.dstsize kept rest

pub Flushed-Rep :
    {cells : List ℕ} {bufpos eatsize dstsize : ℕ} {kept rest : List ℕ}
    → Flushed cells bufpos eatsize dstsize kept rest
    → Rep cells bufpos eatsize dstsize kept rest
Flushed-Rep {kept = kept} f = record {
  out = kept;
  gap = f.gap;
  pend = [];
  splits = f.splits;
  joined = sym (append-nil kept);
  at_dst = f.at_dst;
  at_eat = f.at_eat;
  at_pos = omega (arith, f.at_pos);
}

memmove-parts :
    (out gap pend rest : List ℕ)
    → memmove (out ++ (gap ++ (pend ++ rest))) (length out) (length out + length gap) (length pend)
      ≡ (out ++ pend) ++ (drop (length pend) (gap ++ pend) ++ rest)
memmove-parts out gap pend rest =
    joined (take-append (length out) out (gap ++ (pend ++ rest)) refl)
      (ap (take (length pend)) unread ∙ take-append (length pend) pend rest refl)
      (sym (drop-drop (length pend) (length out) (out ++ (gap ++ (pend ++ rest))))
        ∙ ap (drop (length pend)) behind
        ∙ ap (drop (length pend)) (sym (append_assoc gap pend rest))
        ∙ drop-append_le (length pend) (gap ++ pend) rest (omega (arith, length-append gap pend)))
  where
    joined : {a a' b b' c c' : List ℕ} → a ≡ a' → b ≡ b' → c ≡ c' → a ++ (b ++ c) ≡ (a' ++ b') ++ c'
    joined {a' = a'} {b' = b'} {c' = c'} p q r =
        (λ i. p i ++ (q i ++ r i)) ∙ sym (append_assoc a' b' c')

    behind : drop (length out) (out ++ (gap ++ (pend ++ rest))) ≡ gap ++ (pend ++ rest)
    behind = drop-append (length out) out (gap ++ (pend ++ rest)) refl

    unread : drop (length out + length gap) (out ++ (gap ++ (pend ++ rest))) ≡ pend ++ rest
    unread =
        sym (drop-drop (length gap) (length out) (out ++ (gap ++ (pend ++ rest))))
        ∙ ap (drop (length gap)) behind
        ∙ drop-append (length gap) gap (pend ++ rest) refl

pending_size : (o g p pos eat : ℕ) → eat ≡ o + g → pos ≡ o + g + p → pos - eat ≡ p
pending_size o g p pos eat e f = omega arith

at_end :
    (s : Scan) (kept out gap pend : List ℕ)
    → kept ≡ out ++ pend
    → s.bufpos ≡ length out + length gap + length pend
    → s.bufpos ≡ length kept + length (drop (length pend) (gap ++ pend))
at_end s kept out gap pend e f = omega (
  arith,
  ap length e,
  length-append out pend,
  length-drop (length pend) (gap ++ pend),
  length-append gap pend,
)

pub move_input-Flushed :
    (s : Scan) (kept rest : List ℕ) → Represents s kept rest → IsFlushed (move_input s) kept rest
unfolding move_input
move_input-Flushed s kept rest r = elim (Bool-cases (s.dstsize == s.eatsize)) [
  | inl same ↦ rw same (
      let no_gap = eq-nil_of_length r.gap (ground (arith, r.at_dst, r.at_eat)) in
      record {
        gap = [];
        splits =
            r.splits
            ∙ ap (λ g. r.out ++ (g ++ (r.pend ++ rest))) no_gap
            ∙ sym (append_assoc r.out r.pend rest)
            ∙ ap (λ k. k ++ rest) (sym r.joined);
        at_dst =
            ground
              (arith, r.at_dst, r.at_eat, r.at_pos, ap length r.joined, length-append r.out r.pend);
        at_eat =
            ground
              (arith, r.at_dst, r.at_eat, r.at_pos, ap length r.joined, length-append r.out r.pend);
        at_pos =
            ground
              (arith, r.at_dst, r.at_eat, r.at_pos, ap length r.joined, length-append r.out r.pend);
      })
  | inr moved ↦ rw moved (
      let size =
        pending_size (length r.out) (length r.gap) (length r.pend) s.bufpos s.eatsize r.at_eat
          r.at_pos in
      record {
        gap = drop (length r.pend) (r.gap ++ r.pend);
        splits =
            (λ i. memmove (r.splits i) (r.at_dst i) (r.at_eat i) (size i))
            ∙ memmove-parts r.out r.gap r.pend rest
            ∙ ap (λ k. k ++ (drop (length r.pend) (r.gap ++ r.pend) ++ rest)) (sym r.joined);
        at_dst =
            ground
              (arith, r.at_dst, r.at_eat, r.at_pos, ap length r.joined, length-append r.out r.pend);
        at_eat = at_end s kept r.out r.gap r.pend r.joined r.at_pos;
        at_pos = at_end s kept r.out r.gap r.pend r.joined r.at_pos;
      })
]

-- Reading on by some bytes that are kept.
pub read_on :
    (s : Scan) (kept w rest : List ℕ) (pos : ℕ)
    → Represents s kept (w ++ rest)
    → pos ≡ s.bufpos + length w
    → Represents (record s { bufpos = pos }) (kept ++ w) rest
read_on s kept w rest pos r e = record {
  out = r.out;
  gap = r.gap;
  pend = r.pend ++ w;
  splits = r.splits ∙ ap (λ x. r.out ++ (r.gap ++ x)) (sym (append_assoc r.pend w rest));
  joined = ap (λ x. x ++ w) r.joined ∙ append_assoc r.out r.pend w;
  at_dst = r.at_dst;
  at_eat = r.at_eat;
  at_pos = omega (arith, e, r.at_pos, length-append r.pend w);
}

-- At the end of the array all kept bytes are in front.
pub record Tracks (s : Scan) (kept rest : List ℕ) : Type 0 where
  pub rep : Represents s kept rest
  pub ready : rest ≡ [] → s.dstsize ≡ length kept

pub length-cells :
    (s : Scan) (kept rest : List ℕ)
    → Represents s kept rest
    → length s.cells ≡ s.bufpos + length rest
length-cells s kept rest r = omega (
  arith,
  ap length r.splits,
  r.at_pos,
  length-append r.out (r.gap ++ (r.pend ++ rest)),
  length-append r.gap (r.pend ++ rest),
  length-append r.pend rest,
)

pub flush-Tracks :
    (s : Scan) (kept w rest : List ℕ) (pos : ℕ)
    → Represents s kept (w ++ rest)
    → pos ≡ s.bufpos + length w
    → Tracks (flush (record s { bufpos = pos })) (kept ++ w) rest
unfolding flush
flush-Tracks s kept w rest pos r e =
    let on = read_on s kept w rest pos r e in
    elim (Bool-cases (pos == length s.cells)) [
      | inl end ↦ rw end (
          let f = move_input-Flushed (record s { bufpos = pos }) (kept ++ w) rest on in
          record { rep = Flushed-Rep f; ready = λ _. f.at_dst })
      | inr not_end ↦ rw not_end (record {
        rep = on;
        ready = λ none_left. absurd (
            ground (
              arith,
              length-cells (record s { bufpos = pos }) (kept ++ w) rest on,
              ap length none_left,
            ));
      })
    ]
