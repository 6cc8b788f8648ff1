-- ===== src/Protocol/OutputBlock/Printing.antt =====
-- An `OutputBlock` takes as much of a text as it has room for.
use smerp.Base.{
  ℕ, zero, suc, ◌+◌, ◌-◌, ◌≤◌, ◌<◌, ◌≡◌, refl, sym, ap, ◌∙◌, subst, ◌⊎◌, true, false, inl, inr,
  List, [], ◌∷◌, ◌++◌, arith, leb, ◌==◌, if◌then◌else◌, length, set, take, drop, Bool-cases,
  append-nil, append_assoc, length-set, take-set,
}
use smerp.Protocol.OutputBlock.{OutputBlock, print, rest_size, print_all, shipped, inc_pos}

print-full : (b : OutputBlock) (c : ℕ) → (b.pos == length b.cells) ≡ true → print b c ≡ (false, b)
unfolding print
print-full b c e = rw (e, print) refl

print-room :
    (b : OutputBlock) (c : ℕ)
    → (b.pos == length b.cells) ≡ false
    → print b c ≡ (true, record { cells = set b.cells b.pos c; pos = b.pos + 1 })
unfolding print
print-room b c e = rw (e, print) refl

-- Printing a text until it is refused ships the part of it that there is room for, behind what
-- was there, and leaves the rest of the text.
pub print_all-shipped :
    (b : OutputBlock) (cs : List ℕ)
    → b.pos ≤ length b.cells
    → (shipped (print_all b cs).1 ≡ shipped b ++ take (rest_size b) cs)
      × ((print_all b cs).0 ≡ drop (rest_size b) cs)
unfolding rest_size
print_all-shipped b [] h = nothing (length b.cells - b.pos)
  where
    nothing : (n : ℕ) → (shipped b ≡ shipped b ++ take n []) × (◌≡◌ {A = List ℕ} [] (drop n []))
    nothing zero = (sym (append-nil (shipped b)), refl)
    nothing (suc n) = (sym (append-nil (shipped b)), refl)
print_all-shipped b (c ∷ cs) h = elim (Bool-cases (b.pos == length b.cells)) [
  | inl full ↦
      let none_left : length b.cells - b.pos ≡ 0 = ground arith in
      subst
        (λ r.
          (shipped (if r.0 then print_all r.1 cs else (c ∷ cs, b)).1
            ≡ shipped b ++ take (length b.cells - b.pos) (c ∷ cs))
          × ((if r.0 then print_all r.1 cs else (c ∷ cs, b)).0
              ≡ drop (length b.cells - b.pos) (c ∷ cs)))
        (sym (print-full b c full))
        (subst (λ n. (shipped b ≡ shipped b ++ take n (c ∷ cs)) × ((c ∷ cs) ≡ drop n (c ∷ cs)))
          (sym none_left) (sym (append-nil (shipped b)), refl))
  | inr room ↦
      let b' : OutputBlock = record { cells = set b.cells b.pos c; pos = b.pos + 1 } in
      let left : length b.cells - b.pos ≡ suc (length b'.cells - b'.pos) =
        ground (arith, length-set b.cells b.pos c) in
      let (text, rest) = print_all-shipped b' cs (ground (arith, length-set b.cells b.pos c)) in
      let next : b.pos + 1 ≡ suc b.pos = omega arith in
      let grown : shipped b' ≡ shipped b ++ (c ∷ []) =
        ap (λ n. take n (set b.cells b.pos c)) next ∙ take-set b.pos b.cells c (ground arith) in
      subst
        (λ r.
          (shipped (if r.0 then print_all r.1 cs else (c ∷ cs, b)).1
            ≡ shipped b ++ take (length b.cells - b.pos) (c ∷ cs))
          × ((if r.0 then print_all r.1 cs else (c ∷ cs, b)).0
              ≡ drop (length b.cells - b.pos) (c ∷ cs)))
        (sym (print-room b c room))
        (subst
          (λ n.
            (shipped (print_all b' cs).1 ≡ shipped b ++ take n (c ∷ cs))
            × ((print_all b' cs).0 ≡ drop n (c ∷ cs)))
          (sym left)
          (
            text
                ∙ ap (λ x. x ++ take (length b'.cells - b'.pos) cs) grown
                ∙ append_assoc (shipped b) (c ∷ []) _,
            rest,
          ))
]

-- A cursor that is moved stays in front of the block's end: it is refused if it would reach it.
inc_pos-less :
    (b : OutputBlock) (n : ℕ)
    → b.pos ≤ length b.cells
    → ((inc_pos b n ≡ (true, record b { pos = b.pos + n })) × (b.pos + n < length b.cells))
      ⊎ ((inc_pos b n ≡ (false, b)) × (rest_size b ≤ n))
unfolding inc_pos rest_size
inc_pos-less b n h = elim (Bool-cases (leb (length b.cells) (b.pos + n))) [
  | inl full ↦ inr (rw (full, inc_pos) refl, ground arith)
  | inr room ↦ inl (rw (room, inc_pos) refl, ground arith)
]
