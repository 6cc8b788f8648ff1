-- ===== src/Protocol/InputBlock.antt =====
-- `InputBlock` of include/protocol/ioblocks.hpp and `InputBlock::getEoD` of
-- src/protocol_ioblocks.cpp. The block is its bytes, whose number is `size()`, and its position;
-- an iterator is an index into it.
pub mod Unstuff
pub mod Moves
pub mod Finish
pub mod EndOfData
pub mod Simulation
pub mod Rounds
pub mod Delivered
use smerp.Base.{
  ℕ, zero, suc, ◌+◌, ◌-◌, ◌*◌, Bool, true, false, List, [], ◌∷◌, ◌++◌, Option, none, some, ltb, leb,
  ◌==◌, if◌then◌else◌, length, take, drop, get_or,
}

pub data EodState : Type 0 where
  src lf lf_dot lf_dot_cr lf_dot_cr_lf : EodState

pub record InputBlock : Type 0 where
  pub cells : List ℕ
  pub pos : ℕ
  pub eod_state : EodState

-- The local variables of `getEoD`, `cells` for the bytes from `buf` on; `none` for `eodpos` is -1.
pub record Scan : Type 0 where
  pub cells : List ℕ
  pub bufpos : ℕ
  pub eatsize : ℕ
  pub dstsize : ℕ
  pub eodpos : Option ℕ
  pub state : EodState

-- `std::memmove( buf + to, buf + from, n)`
abbrev pub memmove : List ℕ → ℕ → ℕ → ℕ → List ℕ
memmove buf to from n = take to buf ++ (take n (drop from buf) ++ drop (to + n) buf)

unfoldable pub move_input : Scan → Scan
move_input s = record s {
  cells =
      if s.dstsize == s.eatsize
      then s.cells
      else memmove s.cells s.dstsize s.eatsize (s.bufpos - s.eatsize);
  dstsize = s.dstsize + (s.bufpos - s.eatsize);
  eatsize = s.bufpos;
}

-- `if (bufpos == bufsize) moveInput( buf, dstsize, eatsize, bufpos);`
unfoldable pub flush : Scan → Scan
flush s = if s.bufpos == length s.cells then move_input s else s

-- `std::memchr( ..., '\n', ...)`, as an index.
abbrev pub find_newline : List ℕ → Option ℕ
find_newline [] = none
find_newline (c ∷ cs) =
    if c == b'\n' then some 0 else elim (find_newline cs) [ none ↦ none | some k ↦ some (suc k) ]

abbrev pub byte : Scan → ℕ
byte s = get_or s.cells s.bufpos 0

abbrev pub to_end : Scan → Scan
to_end s = record s { bufpos = length s.cells }

-- One round of the loop in each of its states.
unfoldable pub round : EodState → Scan → Scan
round src s = elim (find_newline (drop s.bufpos s.cells)) [
  | some k ↦ record (flush (record s { bufpos = s.bufpos + (k + 1) })) { state = lf }
  | none ↦ move_input (to_end s)
]
round lf s =
    if byte s == b'.'
    then record (move_input s) { state = lf_dot; eatsize = s.bufpos + 1; bufpos = s.bufpos + 1 }
    else record (flush (record s { bufpos = s.bufpos + 1 })) { state = src }
round lf_dot s =
    if byte s == b'\r'
    then record s {
      eodpos = some s.dstsize;
      dstsize = s.dstsize + 1;
      state = lf_dot_cr;
      bufpos = s.bufpos + 1;
      eatsize = s.bufpos + 1;
    }
    else if byte s == b'\n'
    then record s {
      eodpos = some s.dstsize;
      dstsize = s.dstsize + 1;
      state = lf_dot_cr_lf;
      bufpos = s.bufpos + 1;
      eatsize = s.bufpos + 1;
    }
    else record (flush (record s { bufpos = s.bufpos + 1 })) { state = src }
round lf_dot_cr s =
    record (flush (if byte s == b'\n' then record s { bufpos = s.bufpos + 1 } else s)) {
      state = lf_dot_cr_lf;
    }
round lf_dot_cr_lf s = move_input (to_end s)

-- `while (bufpos < bufsize)`
unfoldable pub scan_loop : ℕ → Scan → Scan
scan_loop zero s = s
scan_loop (suc fuel) s =
    let rest = scan_loop fuel (round s.state s) in if ltb s.bufpos (length s.cells) then rest else s

-- Every round but one moves on, and that one leads to a round that goes to the end.
unfoldable pub scan : List ℕ → EodState → Scan
scan cells state =
    scan_loop (length cells + 2)
      (record { cells = cells; bufpos = 0; eatsize = 0; dstsize = 0; eodpos = none; state = state })

-- The iterator that is returned and the block; `end()` is the new position.
unfoldable pub get_eod : InputBlock → ℕ → ℕ × InputBlock
get_eod b start =
    if leb (length b.cells) start
    then (start, b)
    else (let s = scan (drop start b.cells) b.eod_state in
        (
          elim s.eodpos [ some at ↦ start + at | none ↦ start + s.dstsize ],
          record {
            cells = take start b.cells ++ s.cells;
            pos = start + s.dstsize;
            eod_state = s.state;
          },
        ))

unfoldable pub reset_eod : InputBlock → InputBlock
reset_eod b = record b { eod_state = src }

unfoldable pub set_pos : InputBlock → ℕ → InputBlock
set_pos b p = record b { pos = p }
