-- ===== src/Protocol/ArgBuffer.antt =====
-- `CArgBuffer` of include/protocol/buffers.hpp: it splits its input at blanks into arguments, in
-- which quotes and backslashes protect characters. The arguments lie one behind the other in a
-- `Buffer`; `m_buf` is the list of their starts, `m_pos` of them, and `m_sbuf` the offsets that
-- `argv` made pointers of.
pub mod Quoting
use smerp.Base.{
  ℕ, zero, suc, ◌+◌, Bool, true, false, List, [], ◌∷◌, ◌++◌, Option, none, some, map, ltb, ◌==◌,
  if◌then◌else◌, length, get_elem?, drop,
}
use smerp.Protocol.Buffer.{Buffer, c_string}
use smerp.Protocol.Buffer

pub data ArgState : Type 0 where
  end_token empty content content_esc sq_content sq_content_esc dq_content dq_content_esc : ArgState

pub record ArgBuffer : Type 0 where
  pub starts : List ℕ
  pub pointers : List ℕ
  pub state : ArgState
  pub chars : Buffer

-- `enum {Size=16}`
abbrev pub max_args : ℕ
max_args = 16

abbrev pub new_args : Buffer → ArgBuffer
new_args b = record { starts = []; pointers = []; state = empty; chars = b }

-- The state stays as it is.
unfoldable pub init : ArgBuffer → ArgBuffer
init a = record a { starts = []; pointers = []; chars = Buffer.init a.chars }

unfoldable pub open_arg : ArgBuffer → ArgBuffer
open_arg a =
    if ltb (length a.starts) max_args
    then record a { starts = a.starts ++ (Buffer.size a.chars ∷ []) }
    else a

abbrev pub to_state : ArgBuffer → ArgState → ArgBuffer
to_state a st = record a { state = st }

-- The first argument is the SIZE of the buffer of the contents.
abbrev pub write : ℕ → ArgBuffer → ℕ → ArgState → ArgBuffer
write cap a ch st = record a { state = st; chars = Buffer.push_back cap a.chars ch }

unfoldable pub push_in : ℕ → ArgState → ArgBuffer → ℕ → ArgBuffer
push_in cap end_token a ch =
    if ch == b'\''
    then to_state a sq_content
    else if ch == b'"'
    then to_state a dq_content
    else if ch == b'\\'
    then to_state a content_esc
    else if ch == b' '
    then write cap a 0 empty
    else write cap a ch content
push_in cap empty a ch =
    if ch == b'\''
    then to_state (open_arg a) sq_content
    else if ch == b'"'
    then to_state (open_arg a) dq_content
    else if ch == b'\\'
    then to_state (open_arg a) content_esc
    else if ch == b' '
    then a
    else write cap (open_arg a) ch content
push_in cap content a ch =
    if ch == b'\''
    then to_state a sq_content
    else if ch == b'"'
    then to_state a dq_content
    else if ch == b'\\'
    then to_state a content_esc
    else if ch == b' '
    then write cap a 0 empty
    else write cap a ch content
push_in cap content_esc a ch = write cap a ch content
push_in cap sq_content a ch =
    if ch == b'\''
    then to_state a end_token
    else if ch == b'\\'
    then to_state a sq_content_esc
    else write cap a ch sq_content
push_in cap sq_content_esc a ch = write cap a ch sq_content
push_in cap dq_content a ch =
    if ch == b'"'
    then to_state a end_token
    else if ch == b'\\'
    then to_state a dq_content_esc
    else write cap a ch dq_content
push_in cap dq_content_esc a ch = write cap a ch dq_content

abbrev pub push_back : ℕ → ArgBuffer → ℕ → ArgBuffer
push_back cap a ch = push_in cap a.state a ch

unfoldable pub push_all : ℕ → ArgBuffer → List ℕ → ArgBuffer
push_all cap a [] = a
push_all cap a (c ∷ cs) = push_all cap (push_back cap a c) cs

unfoldable pub size : ArgBuffer → ℕ
size a = length a.starts

-- The C string at an offset into what `c_str()` returns.
abbrev pub string_at : ArgBuffer → ℕ → List ℕ
string_at a at = c_string (drop at (Buffer.c_str a.chars).cells)

-- `operator[]`, and the C string that a caller reads there; `none` for a null pointer.
unfoldable pub argument : ArgBuffer → ℕ → Option (List ℕ)
argument a idx = elim (get_elem? a.starts idx) [ none ↦ none | some at ↦ some (string_at a at) ]

-- The pointers are made on the first call only.
unfoldable pub argv : ArgBuffer → ArgBuffer
argv a = elim a.pointers [ [] ↦ record a { pointers = a.starts } | _ ∷ _ ↦ a ]
