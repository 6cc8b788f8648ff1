-- ===== src/Protocol/Parser/Lengths.antt =====
-- How much of its input a routine of the parser leaves.
use smerp.Base.{
  ℕ, ◌≤◌, ◌<◌, ◌≡◌, ap, true, List, [], ◌∷◌, arith, length, length-append, if◌then◌else◌,
}
use smerp.Protocol.CmdBuffer.{CmdBuffer}
use smerp.Protocol.CmdBuffer
use smerp.Protocol.Parser.{
  CmdParser, get_command, command_end, skip_spaces, skip_line, consume_eoln, LineBuffer, line_loop,
  get_line, is_printable,
}
use smerp.Protocol.Parser.Line.{skip_spaces-Skips}

pub get_command-le :
    (p : CmdParser) (cs : List ℕ) (b : CmdBuffer) → length (get_command p cs b).src ≤ length cs
unfolding get_command command_end
get_command-le p [] b = omega arith
get_command-le p (c ∷ cs) b = ground (arith, get_command-le p cs (CmdBuffer.push_back b c))

pub skip_spaces-le : (cs : List ℕ) → length (skip_spaces cs).src ≤ length cs
skip_spaces-le cs =
    let s = (skip_spaces-Skips cs).0 in
    omega (arith, ap length s.splits, length-append s.skipped (skip_spaces cs).src)

pub skip_line-le : (cs : List ℕ) → length (skip_line cs).src ≤ length cs
skip_line-le cs =
    let s = (skip_spaces-Skips cs).1 in
    omega (arith, ap length s.splits, length-append s.skipped (skip_line cs).src)

-- An end of line is at least one character.
pub consume_eoln-lt :
    (cs : List ℕ) → (consume_eoln cs).found ≡ true → length (consume_eoln cs).src < length cs
unfolding consume_eoln
consume_eoln-lt [] f = absurd (ground (arith, f))
consume_eoln-lt (c ∷ []) f = ground (arith, f)
consume_eoln-lt (c ∷ d ∷ cs) f = ground (arith, f)

pub consume_eoln-le : (cs : List ℕ) → length (consume_eoln cs).src ≤ length cs
unfolding consume_eoln
consume_eoln-le [] = omega arith
consume_eoln-le (c ∷ []) = ground arith
consume_eoln-le (c ∷ d ∷ cs) = ground arith

line_loop-le :
    (l : LineBuffer) (cs : List ℕ) (b : l.Buf) → length (line_loop l cs b).src ≤ length cs
unfolding line_loop
line_loop-le l [] b = omega arith
line_loop-le l (c ∷ cs) b =
    ground (arith, line_loop-le l cs (l.push_back b (if is_printable c then c else b' ')))

pub get_line-le :
    (l : LineBuffer) (cs : List ℕ) (b : l.Buf) → length (get_line l cs b).src ≤ length cs
unfolding get_line
get_line-le l cs b =
    ground (arith, skip_spaces-le cs, line_loop-le l (skip_spaces cs).src b, line_loop-le l cs b)
