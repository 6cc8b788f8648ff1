-- ===== src/Protocol/Tests.antt =====
-- The theorems on the protocol library at concrete inputs, and tests of its definitions.
use smerp.Base.{drop, ℕ, replicate, ◌<◌, ◌≡◌, refl, List, [], ◌∷◌, ◌++◌, map, some, arith, codes}
use smerp.Protocol.Buffer.{
  Buffer, IsValid, contents, c_string, new_buffer, push_all, append, c_str, push_back,
}
use smerp.Protocol.Buffer
use smerp.Protocol.CmdBuffer.{CmdBuffer}
use smerp.Protocol.CmdBuffer
use smerp.Protocol.CmdBuffer.Code.{digit, push_all-code, push_all_injective}
use smerp.Protocol.Parser.{LineBuffer, add_all, get_command, get_line, add, skip_spaces}
use smerp.Protocol.Parser.Line.{get_line-append}
use smerp.Protocol.Parser.Command.{code, get_command-append, get_command-registered}
use smerp.Protocol.ArgBuffer.{new_args, argument, push_all as push_args}
use smerp.Protocol.ArgBuffer.Quoting.{quote, AreTexts, argument-quote}
use smerp.Protocol.OutputBlock.{OutputBlock}
use smerp.Protocol.InputBlock.{InputBlock, src, get_eod}
use smerp.Protocol.InputBlock.Unstuff.{standard_text, standard_found, standard_last}
use smerp.Protocol.InputBlock.Delivered.{Delivered, get_eod-Unstuffed}

abbrev small : Buffer
small = new_buffer (0 ∷ 0 ∷ 0 ∷ 0 ∷ [])

small-IsValid : IsValid 3 small
small-IsValid = record { bounded = omega arith; allocated = omega arith }

push_all-code_example :
    CmdBuffer.push_all CmdBuffer.empty (codes "Bz") ≡ record { pos = 0; value = 89 }
push_all-code_example =
    push_all-code CmdBuffer.empty (codes "Bz") refl (omega arith) (refl, (refl, tt))

push_all_injective_example : map digit (codes "Quit") ≡ map digit (codes "qUIT")
unfolding CmdBuffer.push_all CmdBuffer.push_back
push_all_injective_example =
    push_all_injective (codes "Quit") (codes "qUIT") (refl, (refl, (refl, (refl, tt))))
      (refl, (refl, (refl, (refl, tt)))) refl (omega arith) refl

-- `protocol::Buffer<3>` as a line buffer.
abbrev buffer3 : LineBuffer
buffer3 = record { Buf = Buffer; size = λ b. Buffer.size b; push_back = push_back 3 }

buffer3_grows : (b : Buffer) (c : ℕ) → 0 < buffer3.size (buffer3.push_back b c)
unfolding push_back Buffer.size
buffer3_grows b c = ground arith

get_line-append_example :
    get_line buffer3 (codes " ab" ++ codes "c\n") small
    ≡ get_line buffer3 (codes "c\n") (get_line buffer3 (codes " ab") small).buf
unfolding get_line skip_spaces Buffer.size
get_line-append_example =
    get_line-append buffer3 buffer3_grows (codes " ab") (codes "c\n") small refl

abbrev commands : List (List ℕ)
commands = [] ∷ codes "caps" ∷ codes "echo" ∷ codes "quit" ∷ []

get_command-append_example :
    get_command (map code commands) (codes "qu" ++ codes "it\n") CmdBuffer.empty
    ≡ get_command
        (map code commands)
        (codes "it\n")
        (get_command (map code commands) (codes "qu") CmdBuffer.empty).buf
get_command-append_example =
    (get_command-append (map code commands) (codes "qu") (codes "it\n") CmdBuffer.empty
      (refl, (refl, tt))).2

get_command-registered_example :
    get_command (map code commands) (codes "QUIT\n") CmdBuffer.empty
    ≡ record { src = b'\n' ∷ []; buf = CmdBuffer.empty; command = some 3 }
unfolding CmdBuffer.push_all CmdBuffer.push_back add_all add
get_command-registered_example =
    get_command-registered (map code commands) ([] ∷ codes "caps" ∷ codes "echo" ∷ []) []
      (codes "quit") (codes "QUIT") b'\n' [] refl (omega arith, (omega arith, (omega arith, tt)))
      refl (refl, (refl, (refl, (refl, tt)))) (omega arith) refl

abbrev mail : InputBlock
mail = record { cells = codes ">a\n..b\n.\nrest"; pos = 13; eod_state = src }

get_eod-mail : (get_eod mail 1).0 ≡ 6
unfolding get_eod smerp.Protocol.InputBlock.scan smerp.Protocol.InputBlock.scan_loop
    smerp.Protocol.InputBlock.round smerp.Protocol.InputBlock.flush
    smerp.Protocol.InputBlock.move_input
get_eod-mail = refl

get_eod-Unstuffed_example :
    Delivered
      (standard_text src (drop 1 mail.cells))
      (standard_found src (drop 1 mail.cells))
      (standard_last src (drop 1 mail.cells))
      mail
      1
      (get_eod mail 1)
get_eod-Unstuffed_example = get_eod-Unstuffed mail 1 tt (omega arith) refl

abbrev arguments : List (List ℕ)
arguments = codes "a \"b\"" ∷ [] ∷ codes "c\\" ∷ []

abbrev argument_chars : Buffer
argument_chars = new_buffer (replicate 21 0)

argument-quote_example :
    argument (push_args 20 (new_args argument_chars) (quote arguments)) 0 ≡ some (codes "a \"b\"")
argument-quote_example =
    argument-quote 20 argument_chars arguments 0
      (record { bounded = omega arith; allocated = refl }) refl (omega arith) (omega arith) texts
  where
    texts : AreTexts arguments
    texts = (
      (
        (λ e. absurd (omega (arith, e))),
        (
          (λ e. absurd (omega (arith, e))),
          (
            (λ e. absurd (omega (arith, e))),
            ((λ e. absurd (omega (arith, e))), ((λ e. absurd (omega (arith, e))), tt)),
          ),
        ),
      ),
      (tt, (((λ e. absurd (omega (arith, e))), ((λ e. absurd (omega (arith, e))), tt)), tt)),
    )

abbrev half_full : OutputBlock
half_full = record { cells = codes "ab......"; pos = 2 }
