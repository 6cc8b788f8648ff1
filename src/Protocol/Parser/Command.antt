-- ===== src/Protocol/Parser/Command.antt =====
-- Registering commands and recognising them.
use mathlib.Core.List.{map-append}
use smerp.Base.{
  ℕ, suc, ◌+◌, ◌-◌, ◌≤◌, ◌≡◌, ◌≢◌, refl, sym, ap, ◌∙◌, true, false, inl, inr, none, some, List, [],
  ◌∷◌, ◌++◌, map, arith, ◌==◌, if◌then◌else◌, Bool-cases, length, leb, append-nil, append_assoc,
  length-append,
}
use smerp.Protocol.CmdBuffer.{CmdBuffer, word_mod, empty}
use smerp.Protocol.CmdBuffer
use smerp.Protocol.CmdBuffer.Code.{All, is_alnum, code_from-small, push_all-value}
use smerp.Protocol.Parser.{
  CmdParser, max_nof_commands, is_printable, add, add_all, index_of, command_end, get_command,
}

-- The number that a command is known by.
abbrev pub code : List ℕ → ℕ
code w = (CmdBuffer.push_all empty w).value

get_command-push_all :
    (p : CmdParser) (w rest : List ℕ) (b : CmdBuffer)
    → All is_printable w
    → get_command p (w ++ rest) b ≡ get_command p rest (CmdBuffer.push_all b w)
unfolding get_command CmdBuffer.push_all
get_command-push_all p [] rest b a = refl
get_command-push_all p (c ∷ w) rest b (h, a) =
    rw h (get_command-push_all p w rest (CmdBuffer.push_back b c) a)

-- A command may be cut anywhere: a call that runs out of input consumes it, returns -1, and
-- leaves a buffer with which the call on the rest gives what one call would have given.
pub get_command-append :
    (p : CmdParser) (w rest : List ℕ) (b : CmdBuffer)
    → All is_printable w
    → ((get_command p w b).src ≡ [])
      × ((get_command p w b).command ≡ none)
      × (get_command p (w ++ rest) b ≡ get_command p rest (get_command p w b).buf)
unfolding get_command
get_command-append p w rest b a =
    let whole : get_command p w b ≡ get_command p [] (CmdBuffer.push_all b w) =
      ap (λ x. get_command p x b) (sym (append-nil w)) ∙ get_command-push_all p w [] b a in
    (
      ap (λ s. s.src) whole,
      ap (λ s. s.command) whole,
      get_command-push_all p w rest b a ∙ ap (λ s. get_command p rest s.buf) (sym whole),
    )

-- Up to 32 commands are registered in their order; with one more the parser throws `Bad`.
pub add_all_lem :
    (p : CmdParser) (cmds : List (List ℕ))
    → length p ≤ max_nof_commands
    → add_all p cmds
      ≡ (if leb (length p + length cmds) max_nof_commands then some (p ++ map code cmds) else none)
unfolding add_all
add_all_lem p [] h = rw append-nil (ground arith)
add_all_lem p (c ∷ cmds) h = elim (Bool-cases (length p == max_nof_commands)) [
  | inl full ↦ rw (refused p c full, add_all) (ground arith)
  | inr room ↦
      rw (added p c room, add_all)
        (add_all_lem (p ++ code c ∷ []) cmds (ground (arith, length-append p (code c ∷ [])))
          ∙ rw (length-append p (code c ∷ []), append_assoc) (ground arith))
]
  where
    refused : (p : CmdParser) (c : List ℕ) → (length p == max_nof_commands) ≡ true → add p c ≡ none
    refused p c full = unfold add in rw full

    added :
        (p : CmdParser) (c : List ℕ)
        → (length p == max_nof_commands) ≡ false
        → add p c ≡ some (p ++ code c ∷ [])
    added p c room = unfold add in rw room

add_all-codes :
    (p : CmdParser) (cmds : List (List ℕ)) → add_all [] cmds ≡ some p → p ≡ map code cmds
add_all-codes p cmds h = ground (arith, add_all_lem [] cmds)

length-map {ℓ} : {A B : Type ℓ} (f : A → B) (xs : List A) → length (map f xs) ≡ length xs
length-map f [] = refl
length-map f (x ∷ xs) = ap suc (length-map f xs)

-- No code of the list is this one.
abbrev pub AllNe : ℕ → List ℕ → Type 0
AllNe v [] = Unit {0}
AllNe v (e ∷ es) = (e ≢ v) × AllNe v es

index_of-first :
    (v e : ℕ) (u es : List ℕ) → AllNe v u → e ≡ v → index_of v (u ++ e ∷ es) ≡ some (length u)
unfolding index_of
index_of-first v e [] es a h = ground arith
index_of-first v e (x ∷ u) es (n, a) h = ground (arith, index_of-first v e u es a)

index_of-none : (v : ℕ) (es : List ℕ) → AllNe v es → index_of v es ≡ none
unfolding index_of
index_of-none v [] a = refl
index_of-none v (x ∷ es) (n, a) = ground (arith, index_of-none v es a)

alnum-printable : (w : List ℕ) → All is_alnum w → All is_printable w
alnum-printable [] a = tt
alnum-printable (c ∷ w) (h, a) = (ground arith, alnum-printable w a)

code-ne : (w : List ℕ) → All is_alnum w → length w ≤ 10 → (code w == word_mod - 1) ≡ false
code-ne w a h = ground (arith, push_all-value w a h, code_from-small w a h)

get_command_word :
    (p : CmdParser) (w : List ℕ) (e : ℕ) (rest : List ℕ)
    → All is_alnum w
    → length w ≤ 10
    → is_printable e ≡ false
    → get_command p (w ++ e ∷ rest) empty
      ≡ record { src = e ∷ rest; buf = empty; command = index_of (code w) p }
unfolding CmdBuffer.init
get_command_word p w e rest a l h =
    get_command-push_all p w (e ∷ rest) empty (alnum-printable w a)
    ∙ unfold get_command command_end in rw (h, code-ne w a l)

-- A word of up to ten letters and digits that ends at a space or control character is
-- recognised as the first registered command with its code, and the character is left.
pub get_command-registered :
    (p : CmdParser) (before after : List (List ℕ)) (cmd w : List ℕ) (e : ℕ) (rest : List ℕ)
    → add_all [] (before ++ cmd ∷ after) ≡ some p
    → AllNe (code w) (map code before)
    → code cmd ≡ code w
    → All is_alnum w
    → length w ≤ 10
    → is_printable e ≡ false
    → get_command p (w ++ e ∷ rest) empty
      ≡ record { src = e ∷ rest; buf = empty; command = some (length before) }
get_command-registered p before after cmd w e rest built ne same a l h =
    get_command_word p w e rest a l h
    ∙ ap (λ i. record { src = e ∷ rest; buf = empty; command = i }) found
  where
    codes : p ≡ map code before ++ code cmd ∷ map code after
    codes = add_all-codes p (before ++ cmd ∷ after) built ∙ map-append code before (cmd ∷ after)

    found : index_of (code w) p ≡ some (length before)
    found = rw codes (
        index_of-first (code w) (code cmd) (map code before) (map code after) ne same
        ∙ ap some (length-map code before))

-- A word of up to ten letters and digits that ends at a space or control character and whose code
-- no registered command has is refused, and the character is left.
get_command-unknown :
    (p : CmdParser) (cmds : List (List ℕ)) (w : List ℕ) (e : ℕ) (rest : List ℕ)
    → add_all [] cmds ≡ some p
    → AllNe (code w) (map code cmds)
    → All is_alnum w
    → length w ≤ 10
    → is_printable e ≡ false
    → get_command p (w ++ e ∷ rest) empty ≡ record { src = e ∷ rest; buf = empty; command = none }
get_command-unknown p cmds w e rest built ne a l h =
    get_command_word p w e rest a l h
    ∙ ap (λ i. record { src = e ∷ rest; buf = empty; command = i })
        (rw (add_all-codes p cmds built) (index_of-none (code w) (map code cmds) ne))
