-- ===== src/Protocol/Parser.antt =====
-- `Parser` and `CmdParser` of include/protocol/parser.hpp. A pair of iterators `src`, `end` is
-- the list of the characters between them: `src < end` is that the list is not empty, `*src` is
-- its head and `++src` is its tail. A character is a byte, and `char` is signed.
pub mod Line
pub mod Lengths
pub mod Command
use smerp.Base.{
  ℕ, zero, suc, ◌+◌, ◌-◌, ◌++◌, ◌≤◌, ◌<◌, ◌≡◌, Bool, true, false, not, ◌&&◌, ◌||◌, List, [], ◌∷◌,
  Option, none, some, ltb, leb, ◌==◌, if◌then◌else◌, length,
}
use smerp.Protocol.CmdBuffer.{CmdBuffer, word_mod}
use smerp.Protocol.CmdBuffer

-- `c > ' '` and `c <= ' '` for a signed character.
abbrev pub is_printable : ℕ → Bool
is_printable c = ltb 32 c && ltb c 128

abbrev pub is_blank : ℕ → Bool
is_blank c = c == b' ' || c == b'\t'

abbrev pub is_eoln_char : ℕ → Bool
is_eoln_char c = c == b'\r' || c == b'\n'

abbrev pub more : List ℕ → Bool
more [] = false
more (c ∷ cs) = true

-- What is left of the input, and the value returned.
pub record Scan : Type 0 where
  pub src : List ℕ
  pub found : Bool

skip_while : (ℕ → Bool) → List ℕ → List ℕ
skip_while p [] = []
skip_while p (c ∷ cs) = if p c then skip_while p cs else c ∷ cs

unfoldable pub skip_spaces : List ℕ → Scan
unfolding skip_while
skip_spaces src = let rest = skip_while is_blank src in record { src = rest; found = more rest }

unfoldable pub skip_line : List ℕ → Scan
unfolding skip_while
skip_line src =
    let rest = skip_while (λ c. not (is_eoln_char c)) src in
    record { src = rest; found = more rest }

consume_lf : List ℕ → Scan
consume_lf [] = record { src = []; found = false }
consume_lf (c ∷ cs) =
    if c == b'\n' then record { src = cs; found = true } else record { src = c ∷ cs; found = false }

unfoldable pub consume_eoln : List ℕ → Scan
unfolding consume_lf
consume_eoln [] = record { src = []; found = false }
consume_eoln (c ∷ cs) = if c == b'\r' then consume_lf cs else consume_lf (c ∷ cs)

-- The first character is read without a test for the end: `none` is that read out of bounds,
-- for which `InputBlock::operator[]` throws.
unfoldable pub is_eoln : List ℕ → Option Bool
is_eoln [] = none
is_eoln (c ∷ cs) = some (is_eoln_char c)

-- The subset of the interface of std::string that `getLine` asks of its buffer.
pub record LineBuffer : Type 1 where
  pub Buf : Type 0
  pub size : Buf → ℕ
  pub push_back : Buf → ℕ → Buf

module _ (l : LineBuffer) where
  open l use {Buf, size, push_back}

  pub record LineScan : Type 0 where
    pub src : List ℕ
    pub buf : Buf
    pub found : Bool

  unfoldable pub line_loop : List ℕ → Buf → LineScan
  line_loop [] buf = record { src = []; buf = buf; found = false }
  line_loop (c ∷ cs) buf =
      if is_eoln_char c
      then record { src = c ∷ cs; buf = buf; found = true }
      else line_loop cs (push_back buf (if is_printable c then c else b' '))

  unfoldable pub get_line : List ℕ → Buf → LineScan
  unfolding line_loop
  get_line src buf =
      let skipped = skip_spaces src in
      if size buf == 0
      then if skipped.found
        then line_loop skipped.src buf
        else record { src = skipped.src; buf = buf; found = false }
      else line_loop src buf

-- The codes of the commands, in the order of their definition; `size` is the list's length.
abbrev pub CmdParser : Type 0
CmdParser = List ℕ

abbrev pub max_nof_commands : ℕ
max_nof_commands = 32

-- `none` is the exception `Bad`.
unfoldable pub add : CmdParser → List ℕ → Option CmdParser
add p cmd =
    if length p == max_nof_commands
    then none
    else some (p ++ (CmdBuffer.push_all CmdBuffer.empty cmd).value ∷ [])

unfoldable pub add_all : CmdParser → List (List ℕ) → Option CmdParser
add_all p [] = some p
add_all p (cmd ∷ cmds) = elim (add p cmd) [ none ↦ none | some q ↦ add_all q cmds ]

-- `none` is the returned value -1.
pub record CommandScan : Type 0 where
  pub src : List ℕ
  pub buf : CmdBuffer
  pub command : Option ℕ

unfoldable pub index_of : ℕ → List ℕ → Option ℕ
index_of v [] = none
index_of v (e ∷ es) =
    if e == v then some 0 else elim (index_of v es) [ none ↦ none | some i ↦ some (suc i) ]

unfoldable pub command_end : CmdParser → List ℕ → CmdBuffer → CommandScan
command_end p src buf =
    if buf.value == word_mod - 1
    then record { src = src; buf = CmdBuffer.init buf; command = none }
    else record { src = src; buf = CmdBuffer.init buf; command = index_of buf.value p }

unfoldable pub get_command : CmdParser → List ℕ → CmdBuffer → CommandScan
get_command p [] buf = record { src = []; buf = buf; command = none }
get_command p (c ∷ cs) buf =
    if is_printable c
    then get_command p cs (CmdBuffer.push_back buf c)
    else command_end p (c ∷ cs) buf
