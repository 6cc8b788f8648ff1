-- ===== src/Mtproc/States.antt =====
-- The states that a `CommandDispatcher` reaches.
use smerp.Base.{
  ℕ, zero, suc, ◌≡◌, refl, sym, subst, ◌∙◌, ◌++◌, List, [], Option, none, some, inl, inr,
  Option-cases,
}
use smerp.Protocol.CmdBuffer.{CmdBuffer}
use smerp.Protocol.ArgBuffer.{ArgBuffer}
use smerp.Protocol.Parser.{add_all}
use smerp.Mtproc.{
  State, null, init, selected, arguments_parsed, running, wait_for_input, Methods, Instance,
  Dispatcher, reset_command, dispatcher_init, parse_arguments, select, parse_command, get_command,
  call, protocol_input, set_eod, get_caps, protocol_cmds, Step, gets_command, calls, gives_input,
  ends_data, gets_caps, starts_again, Reaches, begins, goes_on,
}

-- Nothing is selected, or a method that was not called.
abbrev pub IsIdle : State → Type 0
IsIdle init = Unit {0}
IsIdle selected = Unit {0}
IsIdle _ = ⊥

module _ (m : Methods) where
  select-IsIdle :
      (ci : Option ℕ) (d : Dispatcher m) (src : List ℕ)
      → IsIdle d.state
      → IsIdle (select m ci d src).dispatcher.state
  unfolding select parse_arguments
  select-IsIdle none d src i = i
  select-IsIdle (some zero) d src i = i
  select-IsIdle (some (suc zero)) d src i = i
  select-IsIdle (some (suc (suc zero))) d src i = i
  select-IsIdle (some (suc (suc (suc k)))) d src i = tt

  get_command-IsIdle :
      (st : State) (d : Dispatcher m) (src : List ℕ)
      → IsIdle st
      → IsIdle (get_command m (record d { state = st }) src).dispatcher.state
  unfolding get_command parse_command parse_arguments reset_command
  get_command-IsIdle init d src i = select-IsIdle _ _ _ tt
  get_command-IsIdle selected d src i = tt
  get_command-IsIdle null d src i = absurd i
  get_command-IsIdle arguments_parsed d src i = absurd i
  get_command-IsIdle running d src i = absurd i
  get_command-IsIdle wait_for_input d src i = absurd i

  pub call-refuses :
      (st : State) (d : Dispatcher m) → IsIdle st → call m (record d { state = st }) ≡ none
  unfolding call
  call-refuses init d i = refl
  call-refuses selected d i = refl
  call-refuses null d i = absurd i
  call-refuses arguments_parsed d i = absurd i
  call-refuses running d i = absurd i
  call-refuses wait_for_input d i = absurd i

  pub input-refuses :
      (st : State) (d : Dispatcher m) (bytes : List ℕ)
      → IsIdle st
      → protocol_input m (record d { state = st }) bytes ≡ none
  unfolding protocol_input
  input-refuses init d bytes i = refl
  input-refuses selected d bytes i = refl
  input-refuses null d bytes i = absurd i
  input-refuses arguments_parsed d bytes i = absurd i
  input-refuses running d bytes i = absurd i
  input-refuses wait_for_input d bytes i = absurd i

  abbrev pub MaybeIdle : Option (Dispatcher m) → Type 0
  MaybeIdle none = Unit {0}
  MaybeIdle (some d) = IsIdle d.state

  pub init-MaybeIdle :
      (cmd : CmdBuffer) (args : ArgBuffer) (st : State) (i : Option (Instance m))
      → MaybeIdle (dispatcher_init m cmd args st i)
  unfolding dispatcher_init reset_command
  init-MaybeIdle cmd args st none = tt
  init-MaybeIdle cmd args st (some i) =
      elim (Option-cases (add_all [] (protocol_cmds ++ i.names))) [
        | inl bad ↦ rw (bad, dispatcher_init) tt
        | inr (parser, ok) ↦ rw (ok, dispatcher_init) tt
      ]

  set_eod-IsIdle :
      (d : Dispatcher m) (g : Option m.Generator)
      → d.content ≡ g
      → IsIdle d.state
      → IsIdle (set_eod m d).state
  unfolding set_eod
  set_eod-IsIdle d none e i = rw (e, set_eod) i
  set_eod-IsIdle d (some g) e i = rw (e, set_eod) i

  pub none-some : {A : Type 0} {o : Option A} {a : A} → o ≡ none → o ≡ some a → ⊥
  none-some e f = subst (λ o. elim o [ none ↦ Unit {0} | some _ ↦ ⊥ ]) (sym e ∙ f) tt

  Step-IsIdle : {d e : Dispatcher m} → Step m d e → IsIdle d.state → IsIdle e.state
  unfolding get_caps
  Step-IsIdle {d} (gets_command src) i = get_command-IsIdle d.state d src i
  Step-IsIdle {d} (calls c called) i = absurd (none-some (call-refuses d.state d i) called)
  Step-IsIdle {d} (gives_input bytes taken) i =
      absurd (none-some (input-refuses d.state d bytes i) taken)
  Step-IsIdle {d} ends_data i = set_eod-IsIdle d d.content refl i
  Step-IsIdle gets_caps i = i
  Step-IsIdle {d} (starts_again instance_of ready) i =
      subst MaybeIdle ready (init-MaybeIdle d.cmd_buffer d.args d.state instance_of)

  Reaches-IsIdle : {d : Dispatcher m} → Reaches m d → IsIdle d.state
  Reaches-IsIdle (begins cmd args st i ready) = subst MaybeIdle ready (init-MaybeIdle cmd args st i)
  Reaches-IsIdle (goes_on before step) = Step-IsIdle step (Reaches-IsIdle before)

  -- A dispatcher never calls a method: whatever its client did before, `call` throws `IllegalState`,
  -- and so does `protocolInput`.
  pub Reaches-refuses :
      (d : Dispatcher m) (bytes : List ℕ)
      → Reaches m d
      → (call m d ≡ none) × (protocol_input m d bytes ≡ none)
  Reaches-refuses d bytes r =
      let i = Reaches-IsIdle r in (call-refuses d.state d i, input-refuses d.state d bytes i)
