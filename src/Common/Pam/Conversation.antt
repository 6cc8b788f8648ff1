-- ===== src/Common/Pam/Conversation.antt =====
-- What `pam_conv_func` answers to the library.
use smerp.Base.{
  ℕ, suc, ◌-◌, ◌<◌, ◌≡◌, refl, true, false, ◌||◌, List, [], ◌∷◌, Option, none, some, arith, ◌==◌,
  leb, length,
}
use smerp.Common.Pam
use smerp.Common.Pam.{
  Style, prompt_echo_off, prompt_echo_on, error_msg, text_info, unknown, Message, Conv,
  conv_success, conv_again, pam_max_num_msg, replicate, AppData, conv_loop, pam_conv_func,
}

-- Messages that are there and ask for nothing, or for the password.
abbrev IsPlain : Style → Type 0
IsPlain prompt_echo_off = Unit {0}
IsPlain error_msg = Unit {0}
IsPlain text_info = Unit {0}
IsPlain _ = ⊥

abbrev IsThere : Option (List ℕ) → Type 0
IsThere none = ⊥
IsThere (some text) = Unit {0}

abbrev AllPlain : List Message → Type 0
AllPlain [] = Unit {0}
AllPlain (m ∷ ms) = IsThere m.msg × IsPlain m.style × AllPlain ms

-- The answer to the last message alone.
abbrev answer : List ℕ → Style → Option (List ℕ)
answer pass prompt_echo_off = some pass
answer pass _ = none

abbrev last_answer : List ℕ → List Message → Option (List ℕ) → Option (List ℕ)
last_answer pass [] resp = resp
last_answer pass (m ∷ ms) resp = last_answer pass ms (answer pass m.style)

module _ (pam : Pam.Pam) where
  loop-lem :
      (d : AppData pam) (n i : ℕ) (ms : List Message) (resp : Option (List ℕ))
      → d.given ≡ true
      → ((k : ℕ) → pam.copies k ≡ true)
      → AllPlain ms
      → conv_loop pam d n i ms resp ≡ conv_success (last_answer d.pass ms resp ∷ replicate (n - 1))
  unfolding conv_loop
  loop-lem d n i [] resp given copies plain = refl
  loop-lem d n i (m ∷ ms) resp given copies (there, plain, rest) =
      at_message m.style m.msg there plain (λ r. loop-lem d n (suc i) ms r given copies rest)
    where
      at_message :
          (style : Style) (msg : Option (List ℕ))
          → IsThere msg
          → IsPlain style
          → ((r : Option (List ℕ))
              → conv_loop pam d n (suc i) ms r
                ≡ conv_success (last_answer d.pass ms r ∷ replicate (n - 1)))
          → conv_loop pam d n i (record { style = style; msg = msg } ∷ ms) resp
            ≡ conv_success (last_answer d.pass ms (answer d.pass style) ∷ replicate (n - 1))
      at_message style none there plain next = absurd there
      at_message prompt_echo_off (some text) there plain next =
          rw (given, copies i) (next (some d.pass))
      at_message prompt_echo_on (some text) there plain next = absurd plain
      at_message error_msg (some text) there plain next = next none
      at_message text_info (some text) there plain next = next none
      at_message unknown (some text) there plain next = absurd plain

  -- With a password given and memory for it, up to 31 messages that ask for nothing or for the
  -- password are answered by the answer to the last one, in the place of the first, and by nothing
  -- in the other places.
  pub pam_conv_func-last_answer :
      (d : AppData pam) (ms : List Message)
      → d.given ≡ true
      → pam.allocates ≡ true
      → ((k : ℕ) → pam.copies k ≡ true)
      → 0 < length ms
      → length ms < pam_max_num_msg
      → AllPlain ms
      → pam_conv_func pam d ms
        ≡ conv_success (last_answer d.pass ms none ∷ replicate (length ms - 1))
  unfolding pam_conv_func
  pam_conv_func-last_answer d ms given memory copies some_ms few plain =
      let size : ((length ms == 0) || leb pam_max_num_msg (length ms)) ≡ false = ground arith in
      rw (size, memory) (loop-lem d (length ms) 0 ms none given copies plain)
