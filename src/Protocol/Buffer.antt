-- ===== src/Protocol/Buffer.antt =====
-- `Buffer<SIZE>` of include/protocol/buffers.hpp: a character array of SIZE + 1 bytes and a
-- write position. `init` moves the position back and leaves the bytes where they are.
pub mod Contents
use smerp.Base.{
  ℕ, zero, suc, ◌+◌, ◌≤◌, ◌≡◌, Bool, true, false, not, ◌&&◌, List, [], ◌∷◌, ltb, ◌==◌,
  if◌then◌else◌, length, set, take, drop, replicate,
}

pub record Buffer : Type 0 where
  pub pos : ℕ
  pub cells : List ℕ

-- The constructor leaves the bytes indeterminate: they are an argument.
abbrev pub new_buffer : List ℕ → Buffer
new_buffer cells = record { pos = 0; cells = cells }

unfoldable pub init : Buffer → Buffer
init b = record b { pos = 0 }

-- The first argument is the template's SIZE.
unfoldable pub push_back : ℕ → Buffer → ℕ → Buffer
push_back cap b ch =
    if ltb b.pos cap then record { pos = b.pos + 1; cells = set b.cells b.pos ch } else b

-- `cc` is read up to its terminating zero, which is a zero in the list or the list's end.
unfoldable pub append : ℕ → Buffer → List ℕ → Buffer
append cap b [] = b
append cap b (c ∷ cs) =
    if ltb b.pos cap && not (c == 0)
    then append cap (record { pos = b.pos + 1; cells = set b.cells b.pos c }) cs
    else b

unfoldable pub size : Buffer → ℕ
size b = b.pos

-- The call writes the terminating zero; the caller reads the bytes of the result.
unfoldable pub c_str : Buffer → Buffer
c_str b = record b { cells = set b.cells b.pos 0 }

-- The C string that starts at the head of a list of bytes.
abbrev pub c_string : List ℕ → List ℕ
c_string [] = []
c_string (c ∷ cs) = if c == 0 then [] else c ∷ c_string cs

unfoldable pub push_all : ℕ → Buffer → List ℕ → Buffer
push_all cap b [] = b
push_all cap b (c ∷ cs) = push_all cap (push_back cap b c) cs

-- The abstract view: the characters written so far.
abbrev pub contents : Buffer → List ℕ
contents b = take b.pos b.cells

pub record IsValid (cap : ℕ) (b : Buffer) : Type 0 where
  pub bounded : b.pos ≤ cap
  pub allocated : length b.cells ≡ suc cap
