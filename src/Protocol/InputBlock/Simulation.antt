-- ===== src/Protocol/InputBlock/Simulation.antt =====
-- `getEoD` round by round: what one round comes to, by what its bytes mean to the specification.
use smerp.Base.{
  ℕ, suc, ◌+◌, ◌≤◌, ◌<◌, ◌≡◌, ◌≢◌, refl, sym, ap, ◌∙◌, subst, false, inl, inr, List, [], ◌∷◌, ◌++◌,
  none, some, arith, ◌==◌, if◌then◌else◌, length, Bool-cases, Option-cases, length-append,
  append-nil, append_assoc,
}
use smerp.Protocol.InputBlock.{
  EodState, src, lf, lf_dot, Scan, flush, find_newline, round, scan_loop,
}
use smerp.Protocol.InputBlock.Unstuff.{text, found, last_state}
use smerp.Protocol.InputBlock.Moves.{Tracks, length-cells, flush-Tracks}
use smerp.Protocol.InputBlock.Finish.{flush-Keeps, scan_loop_stops, scan_loop_goes}
use smerp.Protocol.InputBlock.EndOfData.{IsOpen, Result, Represents-front, Represents-Bounds}

-- A newline found: the bytes up to it and those behind it.
pub record Line (xs : List ℕ) (k : ℕ) : Type 0 where
  pub front : List ℕ
  pub back : List ℕ
  pub splits : xs ≡ front ++ back
  pub size : length front ≡ k + 1
  pub texts : text src xs ≡ front ++ text lf back
  pub founds : found src xs ≡ found lf back
  pub lasts : last_state src xs ≡ last_state lf back

pub find_newline-Line : (xs : List ℕ) (k : ℕ) → find_newline xs ≡ some k → Line xs k
find_newline-Line [] k e = absurd (ground (arith, e))
find_newline-Line (c ∷ cs) k e = elim (Bool-cases (c == b'\n')) [
  | inl nl ↦ record {
    front = c ∷ [];
    back = cs;
    splits = refl;
    size = ground (arith, e);
    texts = ap (λ b. c ∷ text (if b then lf else src) cs) nl;
    founds = ap (λ b. found (if b then lf else src) cs) nl;
    lasts = ap (λ b. last_state (if b then lf else src) cs) nl;
  }
  | inr other ↦ elim (Option-cases (find_newline cs)) [
    | inl none_left ↦ absurd (ground (arith, e))
    | inr (j, at) ↦
        let l = find_newline-Line cs j at in
        record {
          front = c ∷ l.front;
          back = l.back;
          splits = ap (λ x. c ∷ x) l.splits;
          size = ground (arith, e, l.size);
          texts = ap (λ b. c ∷ text (if b then lf else src) cs) other ∙ ap (λ x. c ∷ x) l.texts;
          founds = ap (λ b. found (if b then lf else src) cs) other ∙ l.founds;
          lasts = ap (λ b. last_state (if b then lf else src) cs) other ∙ l.lasts;
        }
  ]
]

pub find_newline-none :
    (xs : List ℕ)
    → find_newline xs ≡ none
    → (text src xs ≡ xs) × (found src xs ≡ false) × (last_state src xs ≡ src)
find_newline-none [] e = (refl, refl, refl)
find_newline-none (c ∷ cs) e = elim (Bool-cases (c == b'\n')) [
  | inl nl ↦ absurd (ground (arith, e))
  | inr other ↦ elim (Option-cases (find_newline cs)) [
    | inl none_left ↦
        let (t, f, l) = find_newline-none cs none_left in
        (
          ap (λ b. c ∷ text (if b then lf else src) cs) other ∙ ap (λ x. c ∷ x) t,
          ap (λ b. found (if b then lf else src) cs) other ∙ f,
          ap (λ b. last_state (if b then lf else src) cs) other ∙ l,
        )
    | inr (j, at) ↦ absurd (ground (arith, e))
  ]
]

-- The state of the loop while the end was not seen.
pub record Open (s : Scan) (st : EodState) (kept rest : List ℕ) : Type 0 where
  pub tracks : Tracks s kept rest
  pub in_state : s.state ≡ st
  pub no_end : s.eodpos ≡ none
  pub settled : st ≡ lf_dot → s.dstsize ≡ length kept

-- A round that keeps the bytes `w`.
pub advance :
    (s : Scan) (st st' : EodState) (kept w rest : List ℕ) (pos : ℕ)
    → Open s st kept (w ++ rest)
    → st' ≢ lf_dot
    → pos ≡ s.bufpos + length w
    → Open (record (flush (record s { bufpos = pos })) { state = st' }) st' (kept ++ w) rest
      × (length (flush (record s { bufpos = pos })).cells ≡ length s.cells)
advance s st st' kept w rest pos o n e =
    let t = flush-Tracks s kept w rest pos o.tracks.rep e in
    let b = Represents-Bounds s kept (w ++ rest) o.tracks.rep in
    let k =
      flush-Keeps 0 (record s { bufpos = pos })
        (record {
          dst_le = b.dst_le;
          eat_le = omega (arith, b.eat_le, e);
          pos_le =
              omega (arith, e, length-cells s kept (w ++ rest) o.tracks.rep, length-append w rest);
        })
        (omega arith) in
    (
      record {
        tracks = record {
          rep = record {
            out = t.rep.out;
            gap = t.rep.gap;
            pend = t.rep.pend;
            splits = t.rep.splits;
            joined = t.rep.joined;
            at_dst = t.rep.at_dst;
            at_eat = t.rep.at_eat;
            at_pos = t.rep.at_pos;
          };
          ready = t.ready;
        };
        in_state = refl;
        no_end = k.eod ∙ o.no_end;
        settled = λ d. absurd (n d);
      },
      k.size,
    )

abbrev pub Goal : ℕ → Scan → EodState → List ℕ → List ℕ → Type 0
Goal fuel s st kept rest =
    Result (scan_loop fuel s) (length s.cells) (kept ++ text st rest) (found st rest)
      (last_state st rest)

-- The loop at the end of the array.
pub stops :
    (fuel : ℕ) (s : Scan) (st : EodState) (kept : List ℕ)
    → Open s st kept []
    → Goal fuel s st kept []
stops fuel s st kept o =
    let len = length-cells s kept [] o.tracks.rep in
    let end : s.bufpos ≡ length s.cells = omega (arith, len) in
    let dst = o.tracks.ready refl in
    subst (λ r. Result r (length s.cells) (kept ++ []) false st) (sym (scan_loop_stops fuel s end))
      (subst (λ k. Result s (length s.cells) k false st) (sym (append-nil kept))
        (record {
          prefix = Represents-front s kept [] o.tracks.rep dst;
          ended = end;
          size = refl;
          within =
              (let b = Represents-Bounds s kept [] o.tracks.rep in
                omega (arith, b.dst_le, b.eat_le, b.pos_le));
          verdict = inr (refl, o.no_end, dst, o.in_state);
        }))

-- One round, and what the rest of the loop comes to.
pub goes :
    (fuel : ℕ) (s t : Scan) (st st' : EodState) (kept kept' rest rest' : List ℕ)
    → Open s st kept rest
    → 0 < length rest
    → round st s ≡ t
    → length t.cells ≡ length s.cells
    → kept ++ text st rest ≡ kept' ++ text st' rest'
    → found st rest ≡ found st' rest'
    → last_state st rest ≡ last_state st' rest'
    → Goal fuel t st' kept' rest'
    → Goal (suc fuel) s st kept rest
goes fuel s t st st' kept kept' rest rest' o more at size same_text same_found same_last g =
    let run : scan_loop (suc fuel) s ≡ scan_loop fuel t =
      scan_loop_goes fuel s (omega (arith, more, length-cells s kept rest o.tracks.rep))
      ∙ ap (scan_loop fuel) (ap (λ x. round x s) o.in_state ∙ at) in
    subst
      (λ r. Result r (length s.cells) (kept ++ text st rest) (found st rest) (last_state st rest))
      (sym run)
      (subst
        (λ m.
          Result (scan_loop fuel t) m (kept ++ text st rest) (found st rest) (last_state st rest))
        size
        (subst
          (λ k. Result (scan_loop fuel t) (length t.cells) k (found st rest) (last_state st rest))
          (sym same_text)
          (subst
            (λ b.
              Result (scan_loop fuel t) (length t.cells) (kept' ++ text st' rest') b
                (last_state st rest))
            (sym same_found)
            (subst
              (λ l.
                Result (scan_loop fuel t) (length t.cells) (kept' ++ text st' rest')
                  (found st' rest') l)
              (sym same_last) g))))

abbrev pub Later : ℕ → Type 0
Later fuel =
    (t : Scan) (st : EodState) (kept rest : List ℕ)
    → IsOpen st
    → Open t st kept rest
    → length rest + 2 ≤ fuel
    → Goal fuel t st kept rest

-- The rounds that only read on by the bytes `w`.
pub reads :
    (fuel : ℕ) (s : Scan) (st st' : EodState) (kept w rest : List ℕ) (pos : ℕ)
    → Later fuel
    → Open s st kept (w ++ rest)
    → IsOpen st'
    → st' ≢ lf_dot
    → 0 < length w
    → length (w ++ rest) + 2 ≤ suc fuel
    → pos ≡ s.bufpos + length w
    → round st s ≡ record (flush (record s { bufpos = pos })) { state = st' }
    → text st (w ++ rest) ≡ w ++ text st' rest
    → found st (w ++ rest) ≡ found st' rest
    → last_state st (w ++ rest) ≡ last_state st' rest
    → Goal (suc fuel) s st kept (w ++ rest)
reads fuel s st st' kept w rest pos later o open' n some_w enough e at t f l =
    let (o', size) = advance s st st' kept w rest pos o n e in
    goes fuel s _ st st' kept (kept ++ w) (w ++ rest) rest o (omega (arith, length-append w rest))
      at size (ap (λ x. kept ++ x) t ∙ sym (append_assoc kept w (text st' rest))) f l
      (later _ st' (kept ++ w) rest open' o' (omega (arith, length-append w rest)))

pub src_not_dot : src ≢ lf_dot
src_not_dot e = absurd (ground (arith, e))

pub lf_not_dot : lf ≢ lf_dot
lf_not_dot e = absurd (ground (arith, e))
