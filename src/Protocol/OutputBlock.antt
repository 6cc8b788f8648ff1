-- ===== src/Protocol/OutputBlock.antt =====
-- `OutputBlock` of include/protocol/ioblocks.hpp, with the parts of `MemBlock` that it uses. The
-- block is its bytes, whose number is `size()`, and its position.
pub mod Printing
use smerp.Base.{
  ℕ, zero, suc, ◌+◌, ◌-◌, Bool, true, false, List, [], ◌∷◌, Option, none, some, ltb, leb, ◌==◌,
  if◌then◌else◌, length, set, get_elem?, take,
}

pub record OutputBlock : Type 0 where
  pub cells : List ℕ
  pub pos : ℕ

-- `MemBlock::operator[]`; `none` for the exception `ArrayBoundReadError`.
unfoldable pub element : OutputBlock → ℕ → Option ℕ
element b idx = if leb b.pos idx then none else get_elem? b.cells idx

unfoldable pub is_empty : OutputBlock → Bool
is_empty b = b.pos == 0

unfoldable pub print : OutputBlock → ℕ → Bool × OutputBlock
print b ch =
    if b.pos == length b.cells
    then (false, b)
    else (true, record { cells = set b.cells b.pos ch; pos = b.pos + 1 })

unfoldable pub inc_pos : OutputBlock → ℕ → Bool × OutputBlock
inc_pos b nn =
    if leb (length b.cells) (b.pos + nn) then (false, b) else (true, record b { pos = b.pos + nn })

unfoldable pub rest_size : OutputBlock → ℕ
rest_size b = length b.cells - b.pos

unfoldable pub release : OutputBlock → OutputBlock
release b = record b { pos = 0 }

-- A caller that prints until `print` refuses: what is left of its text, and the block.
abbrev pub print_all : OutputBlock → List ℕ → List ℕ × OutputBlock
print_all b [] = ([], b)
print_all b (c ∷ cs) =
    let rest = print_all (print b c).1 cs in if (print b c).0 then rest else (c ∷ cs, b)

-- What is to be shipped.
abbrev pub shipped : OutputBlock → List ℕ
shipped b = take b.pos b.cells
