-- ===== src/Protocol/CmdBuffer.antt =====
-- `CmdBuffer` of include/protocol/buffers.hpp: the current command as a number, six bits a
-- character. `ValueType` has 64 bits and is kept as its bit pattern; the shift loses what
-- passes bit 63. The six low bits are zero after the shift, so `|` adds the digit.
pub mod Code
use smerp.Base.{
  ℕ, zero, suc, ◌+◌, ◌-◌, ◌*◌, ◌/◌, ◌%◌, Bool, ◌&&◌, List, [], ◌∷◌, leb, if◌then◌else◌,
}

pub record CmdBuffer : Type 0 where
  pub pos : ℕ
  pub value : ℕ

abbrev pub word_mod : ℕ
word_mod = 18446744073709551616

-- `sizeof(ValueType)/6`
abbrev pub max_command_len : ℕ
max_command_len = 8 / 6

abbrev pub empty : CmdBuffer
empty = record { pos = 0; value = 0 }

unfoldable pub init : CmdBuffer → CmdBuffer
init b = empty

abbrev pub shift_in : CmdBuffer → ℕ → CmdBuffer
shift_in b digit = record b { value = (b.value * 64) % word_mod + digit }

unfoldable pub push_back : CmdBuffer → ℕ → CmdBuffer
unfolding init
push_back b ch =
    if leb max_command_len b.pos
    then init b
    else if leb b'a' ch && leb ch b'z'
    then shift_in b (ch - b'a')
    else if leb b'A' ch && leb ch b'Z'
    then shift_in b (ch - b'A')
    else if leb b'0' ch && leb ch b'9'
    then shift_in b (ch + 26 - b'0')
    else init b

unfoldable pub push_all : CmdBuffer → List ℕ → CmdBuffer
push_all b [] = b
push_all b (c ∷ cs) = push_all (push_back b c) cs
