-- ===== src/Protocol/InputBlock/Rounds.antt =====
-- The rounds of `getEoD` in the states in which the end of the message was not seen.
use smerp.Base.{
  ℕ, suc, ◌+◌, ◌≤◌, ◌≡◌, refl, sym, ap, ◌∙◌, subst, Bool, true, false, inl, inr, ◌⊎◌, List, [], ◌∷◌,
  ◌++◌, ◌||◌, none, some, arith, ◌==◌, if◌then◌else◌, length, drop, Bool-cases, Option-cases,
  length-append, append-nil, append_assoc,
}
use smerp.Protocol.InputBlock.{
  EodState, src, lf, lf_dot, lf_dot_cr, lf_dot_cr_lf, Scan, move_input, flush, find_newline, byte,
  to_end, round, scan_loop,
}
use smerp.Protocol.InputBlock.Unstuff.{is_end, keep, text, found, last_state}
use smerp.Protocol.InputBlock.Moves.{
  Represents, Flushed-Rep, move_input-Flushed, length-cells, read_on,
}
use smerp.Protocol.InputBlock.Finish.{move_input-Keeps, scan_loop_goes}
use smerp.Protocol.InputBlock.EndOfData.{Result, Represents-byte, Represents-Bounds, end_found}
use smerp.Protocol.InputBlock.Simulation.{
  Goal, Later, Open, find_newline-Line, find_newline-none, goes, lf_not_dot, reads, src_not_dot,
}

-- A dot at the start of a line: what is kept is moved, and the dot falls into the gap.
drops :
    (s : Scan) (kept : List ℕ) (c : ℕ) (rest : List ℕ)
    → Open s lf kept (c ∷ rest)
    → Open
        (record (move_input s) { state = lf_dot; eatsize = s.bufpos + 1; bufpos = s.bufpos + 1 })
        lf_dot
        kept
        rest
      × (length (move_input s).cells ≡ length s.cells)
unfolding move_input
drops s kept c rest o =
    let f = move_input-Flushed s kept (c ∷ rest) o.tracks.rep in
    let b = Represents-Bounds s kept (c ∷ rest) o.tracks.rep in
    (
      record {
        tracks = record {
          rep = record {
            out = kept;
            gap = f.gap ++ (c ∷ []);
            pend = [];
            splits = f.splits ∙ ap (λ x. kept ++ x) (sym (append_assoc f.gap (c ∷ []) rest));
            joined = sym (append-nil kept);
            at_dst = f.at_dst;
            at_eat = omega (arith, f.at_pos, length-append f.gap (c ∷ []));
            at_pos = omega (arith, f.at_pos, length-append f.gap (c ∷ []));
          };
          ready = λ _. f.at_dst;
        };
        in_state = refl;
        no_end = o.no_end;
        settled = λ _. f.at_dst;
      },
      (move_input-Keeps 0 s b (omega arith)).size,
    )

-- No newline: all that is left is kept.
skips :
    (s : Scan) (kept rest : List ℕ)
    → Open s src kept rest
    → Open (move_input (to_end s)) src (kept ++ rest) []
      × (length (move_input (to_end s)).cells ≡ length s.cells)
unfolding move_input
skips s kept rest o =
    let len = length-cells s kept rest o.tracks.rep in
    let rep = subst (Represents s kept) (sym (append-nil rest)) o.tracks.rep in
    let f =
      move_input-Flushed (to_end s) (kept ++ rest) []
        (read_on s kept rest [] (length s.cells) rep len) in
    let b = Represents-Bounds s kept rest o.tracks.rep in
    (
      record {
        tracks = record { rep = Flushed-Rep f; ready = λ _. f.at_dst };
        in_state = o.in_state;
        no_end = o.no_end;
        settled = λ _. f.at_dst;
      },
      (move_input-Keeps 0 (to_end s)
          (record {
            dst_le = b.dst_le;
            eat_le = omega (arith, b.eat_le, b.pos_le);
            pos_le = omega arith;
          })
          (omega arith)).size,
    )

round-lf :
    (s : Scan) (d : Bool)
    → (byte s == b'.') ≡ d
    → round lf s ≡ (
        if d
        then record (move_input s) { state = lf_dot; eatsize = s.bufpos + 1; bufpos = s.bufpos + 1 }
        else record (flush (record s { bufpos = s.bufpos + 1 })) { state = src })
unfolding round
round-lf s d e = rw e refl

round-line :
    (s : Scan) (k : ℕ)
    → find_newline (drop s.bufpos s.cells) ≡ some k
    → round src s ≡ record (flush (record s { bufpos = s.bufpos + (k + 1) })) { state = lf }
unfolding round
round-line s k e = rw (e, round) refl

round-rest :
    (s : Scan) → find_newline (drop s.bufpos s.cells) ≡ none → round src s ≡ move_input (to_end s)
unfolding round
round-rest s e = rw (e, round) refl

pub in_lf :
    (fuel : ℕ) (s : Scan) (kept : List ℕ) (c : ℕ) (rest : List ℕ)
    → Later fuel
    → Open s lf kept (c ∷ rest)
    → length (c ∷ rest) + 2 ≤ suc fuel
    → Goal (suc fuel) s lf kept (c ∷ rest)
in_lf fuel s kept c rest later o enough =
    let (here, _) = Represents-byte s kept c rest o.tracks.rep in
    elim (Bool-cases (c == b'.')) [
      | inl dot ↦
          let (o', size) = drops s kept c rest o in
          goes fuel s _ lf lf_dot kept kept (c ∷ rest) rest o (omega arith)
            (round-lf s true (ap (λ x. x == b'.') here ∙ dot)) size
            (ap (λ d. kept ++ keep d c (text (if d then lf_dot else src) rest)) dot)
            (ap (λ d. found (if d then lf_dot else src) rest) dot)
            (ap (λ d. last_state (if d then lf_dot else src) rest) dot)
            (later _ lf_dot kept rest tt o' (omega arith))
      | inr other ↦
          reads fuel s lf src kept (c ∷ []) rest (s.bufpos + 1) later o tt src_not_dot (omega arith)
            enough (omega arith) (round-lf s false (ap (λ x. x == b'.') here ∙ other))
            (ap (λ d. keep d c (text (if d then lf_dot else src) rest)) other)
            (ap (λ d. found (if d then lf_dot else src) rest) other)
            (ap (λ d. last_state (if d then lf_dot else src) rest) other)
    ]

pub in_src :
    (fuel : ℕ) (s : Scan) (kept : List ℕ) (c : ℕ) (rest : List ℕ)
    → Later fuel
    → Open s src kept (c ∷ rest)
    → length (c ∷ rest) + 2 ≤ suc fuel
    → Goal (suc fuel) s src kept (c ∷ rest)
in_src fuel s kept c rest later o enough =
    let (_, left) = Represents-byte s kept c rest o.tracks.rep in
    elim (Option-cases (find_newline (c ∷ rest))) [
      | inl none_left ↦
          let (t, f, l) = find_newline-none (c ∷ rest) none_left in
          let (o', size) = skips s kept (c ∷ rest) o in
          goes fuel s _ src src kept (kept ++ (c ∷ rest)) (c ∷ rest) [] o (omega arith)
            (round-rest s (ap find_newline left ∙ none_left)) size
            (ap (λ x. kept ++ x) t ∙ sym (append-nil (kept ++ (c ∷ rest)))) f l
            (later _ src (kept ++ (c ∷ rest)) [] tt o' (omega arith))
      | inr (k, at) ↦
          let l = find_newline-Line (c ∷ rest) k at in
          subst
            (λ xs.
              Open s src kept xs
              → length xs + 2 ≤ suc fuel
              → text src xs ≡ l.front ++ text lf l.back
              → found src xs ≡ found lf l.back
              → last_state src xs ≡ last_state lf l.back
              → Goal (suc fuel) s src kept xs)
            (sym l.splits)
            (λ o' enough' t f z.
              reads fuel s src lf kept l.front l.back (s.bufpos + (k + 1)) later o' tt lf_not_dot
                (omega (arith, l.size)) enough' (omega (arith, l.size))
                (round-line s k (ap find_newline left ∙ at)) t f z)
            o enough l.texts l.founds l.lasts
    ]

round-dot :
    (s : Scan) (a b : Bool)
    → (byte s == b'\r') ≡ a
    → (byte s == b'\n') ≡ b
    → round lf_dot s ≡ (
        if a
        then record s {
          eodpos = some s.dstsize;
          dstsize = s.dstsize + 1;
          state = lf_dot_cr;
          bufpos = s.bufpos + 1;
          eatsize = s.bufpos + 1;
        }
        else if b
        then record s {
          eodpos = some s.dstsize;
          dstsize = s.dstsize + 1;
          state = lf_dot_cr_lf;
          bufpos = s.bufpos + 1;
          eatsize = s.bufpos + 1;
        }
        else record (flush (record s { bufpos = s.bufpos + 1 })) { state = src })
unfolding round
round-dot s a b e f = rw (e, f) refl

-- What the end of the line makes of the state, `eod` for the state behind it.
at_dot : Scan → EodState → Scan
at_dot s eod = record s {
  eodpos = some s.dstsize;
  dstsize = s.dstsize + 1;
  state = eod;
  bufpos = s.bufpos + 1;
  eatsize = s.bufpos + 1;
}

ends_here :
    (fuel : ℕ) (s : Scan) (eod : EodState) (kept : List ℕ) (c : ℕ) (rest : List ℕ)
    → Open s lf_dot kept (c ∷ rest)
    → (eod ≡ lf_dot_cr) ⊎ (eod ≡ lf_dot_cr_lf)
    → is_end c ≡ true
    → round lf_dot s ≡ at_dot s eod
    → Goal (suc (suc (suc fuel))) s lf_dot kept (c ∷ rest)
unfolding at_dot
ends_here fuel s eod kept c rest o st end at =
    let run : scan_loop (suc (suc (suc fuel))) s ≡ scan_loop (suc (suc fuel)) (at_dot s eod) =
      scan_loop_goes (suc (suc fuel)) s (omega (arith, length-cells s kept (c ∷ rest) o.tracks.rep))
      ∙ ap (scan_loop (suc (suc fuel))) (ap (λ x. round x s) o.in_state ∙ at) in
    let last = last_state lf_dot (c ∷ rest) in
    let r =
      end_found fuel s (at_dot s eod) kept rest c last o.tracks.rep (o.settled refl) st refl in
    subst
      (λ e.
        Result (scan_loop (suc (suc (suc fuel))) s) (length s.cells)
          (kept ++ (if e then [] else c ∷ text src rest)) (if e then true else found src rest) last)
      (sym end)
      (subst (λ x. Result x (length s.cells) (kept ++ []) true last) (sym run)
        (subst
          (λ k. Result (scan_loop (suc (suc fuel)) (at_dot s eod)) (length s.cells) k true last)
          (sym (append-nil kept)) r))

pub in_lf_dot :
    (fuel : ℕ) (s : Scan) (kept : List ℕ) (c : ℕ) (rest : List ℕ)
    → Later (suc (suc fuel))
    → Open s lf_dot kept (c ∷ rest)
    → length (c ∷ rest) + 2 ≤ suc (suc (suc fuel))
    → Goal (suc (suc (suc fuel))) s lf_dot kept (c ∷ rest)
unfolding at_dot
in_lf_dot fuel s kept c rest later o enough =
    let (here, _) = Represents-byte s kept c rest o.tracks.rep in
    elim (Bool-cases (c == b'\r')) [
      | inl cr ↦
          ends_here fuel s lf_dot_cr kept c rest o (inl refl) (λ i. cr i || (c == b'\n'))
            (round-dot s true (byte s == b'\n') (ap (λ x. x == b'\r') here ∙ cr) refl)
      | inr not_cr ↦ elim (Bool-cases (c == b'\n')) [
        | inl nl ↦
            ends_here fuel s lf_dot_cr_lf kept c rest o (inr refl) (λ i. not_cr i || nl i)
              (round-dot s false true (ap (λ x. x == b'\r') here ∙ not_cr)
                (ap (λ x. x == b'\n') here ∙ nl))
        | inr other ↦
            let not_end : is_end c ≡ false = (λ i. not_cr i || other i) in
            reads (suc (suc fuel)) s lf_dot src kept (c ∷ []) rest (s.bufpos + 1) later o tt
              src_not_dot (omega arith) enough (omega arith)
              (round-dot s false false (ap (λ x. x == b'\r') here ∙ not_cr)
                (ap (λ x. x == b'\n') here ∙ other))
              (ap (λ d. if d then [] else c ∷ text src rest) not_end)
              (ap (λ d. if d then true else found src rest) not_end) refl
      ]
    ]
