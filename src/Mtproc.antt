-- ===== src/Mtproc.antt =====
-- `CommandDispatcher` of examples/mtproc/dispatcher.hpp and examples/mtproc/dispatcher.cpp. The
-- methods of the instance and the generators that they make are parameters.
pub mod States
mod Tests
use smerp.Base.{
  ℕ, zero, suc, Bool, true, false, List, [], ◌∷◌, ◌++◌, Option, none, some, ◌≡◌, ◌==◌,
  if◌then◌else◌, codes,
}
use smerp.Protocol.Buffer
use smerp.Protocol.Buffer.{Buffer}
use smerp.Protocol.CmdBuffer.{CmdBuffer}
use smerp.Protocol.CmdBuffer
use smerp.Protocol.ArgBuffer.{ArgBuffer, argv}
use smerp.Protocol.ArgBuffer
use smerp.Protocol.Parser.{CmdParser, add_all, LineBuffer, get_line}
use smerp.Protocol.Parser

pub data State : Type 0 where
  null init selected arguments_parsed running wait_for_input : State

pub data Command : Type 0 where
  unknown empty caps quit method : Command

pub data IoState : Type 0 where
  read_input write_output close : IoState

-- `protocol::Generator::State`
pub data GeneratorState : Type 0 where
  at_init processing end_of_message end_of_input failed : GeneratorState

abbrev pub line_size : ℕ
line_size = 256

-- `CArgBuffer<Buffer<256> >` as the buffer of `getLine`.
abbrev pub argument_buffer : LineBuffer
argument_buffer = record {
  Buf = ArgBuffer;
  size = λ a. ArgBuffer.size a;
  push_back = ArgBuffer.push_back line_size;
}

-- The code of the instance: the methods by their index in the table, called with the context's data
-- and generator and the arguments, and the virtual functions of the generators.
pub record Methods : Type 1 where
  pub Data : Type 0
  pub Generator : Type 0
  pub call : ℕ → Data → Option Generator → ArgBuffer → ℕ × Data × Option Generator
  pub state : Generator → GeneratorState
  pub get_error : Generator → ℕ
  pub protocol_input : Generator → List ℕ → Generator
  pub set_eod : Generator → Generator

-- Whether the protocol's own commands or a method were recognised.
abbrev pub protocol_cmds : List (List ℕ)
protocol_cmds = codes "" ∷ codes "caps" ∷ codes "quit" ∷ []

abbrev pub separated : List (List ℕ) → List (List ℕ)
separated [] = []
separated (name ∷ names) = name ∷ behind names
  where
    behind : List (List ℕ) → List (List ℕ)
    behind [] = []
    behind (n ∷ ns) = codes ", " ∷ n ∷ behind ns

abbrev pub append_all : Buffer → List (List ℕ) → Buffer
append_all b [] = b
append_all b (text ∷ texts) = append_all (Buffer.append line_size b text) texts

module _ (m : Methods) where
  open m use {Data, Generator}

  -- The names of the method table, and the data.
  pub record Instance : Type 0 where
    pub names : List (List ℕ)
    pub object : Data

  pub record Dispatcher : Type 0 where
    pub cmd_buffer : CmdBuffer
    pub args : ArgBuffer
    pub parser : CmdParser
    pub instance_of : Instance
    pub object : Data
    pub content : Option Generator
    pub method_idx : ℕ
    pub state : State

  -- `resetCommand`; the line buffer is the one that the argument buffer points to.
  unfoldable pub reset_command : Dispatcher → Dispatcher
  reset_command d = record d {
    method_idx = 0;
    args = ArgBuffer.init d.args;
    cmd_buffer = CmdBuffer.init d.cmd_buffer;
    state = init;
    object = d.instance_of.object;
    content = none;
  }

  -- `init` for the buffers of a dispatcher: `none` for an exception, or for the null pointer that
  -- `resetCommand` follows where there is no instance.
  unfoldable pub dispatcher_init :
      CmdBuffer → ArgBuffer → State → Option Instance → Option Dispatcher
  dispatcher_init cmd args st none = none
  dispatcher_init cmd args st (some i) = elim (add_all [] (protocol_cmds ++ i.names)) [
    | none ↦ none
    | some parser ↦ some (
        reset_command (record {
          cmd_buffer = cmd;
          args = args;
          parser = parser;
          instance_of = i;
          object = i.object;
          content = none;
          method_idx = 0;
          state = st;
        }))
  ]

  -- What a call returns, with the characters that are left.
  pub record Parsed : Type 0 where
    pub command : Command
    pub src : List ℕ
    pub dispatcher : Dispatcher

  -- `case Selected:`
  unfoldable pub parse_arguments : Dispatcher → List ℕ → Parsed
  parse_arguments d src =
      let r = get_line argument_buffer src d.args in
      record {
        command = if r.found then method else unknown;
        src = r.src;
        dispatcher = record d { args = r.buf };
      }

  -- What the parser's index stands for.
  unfoldable pub select : Option ℕ → Dispatcher → List ℕ → Parsed
  select none d src = record { command = unknown; src = src; dispatcher = d }
  select (some zero) d src = record { command = empty; src = src; dispatcher = d }
  select (some (suc zero)) d src = record { command = caps; src = src; dispatcher = d }
  select (some (suc (suc zero))) d src = record { command = quit; src = src; dispatcher = d }
  select (some (suc (suc (suc k)))) d src =
      parse_arguments (record d { method_idx = k; state = selected }) src

  unfoldable pub parse_command : Dispatcher → List ℕ → Parsed
  parse_command d src =
      let e = reset_command d in
      let r = Parser.get_command e.parser src e.cmd_buffer in
      select r.command (record e { cmd_buffer = r.buf }) r.src

  unfoldable pub get_command : Dispatcher → List ℕ → Parsed
  get_command d src = elim d.state [
    | selected ↦ parse_arguments d src
    | arguments_parsed ↦ record { command = method; src = src; dispatcher = d }
    | _ ↦ parse_command d src
  ]

  pub record Called : Type 0 where
    pub result : IoState
    pub return_code : ℕ
    pub dispatcher : Dispatcher

  -- Behind a method that returned 0, by the state of its generator.
  unfoldable pub behind_call : Option Generator → Dispatcher → Called
  behind_call none d = record { result = close; return_code = 0; dispatcher = d }
  behind_call (some g) d = elim (m.state g) [
    | at_init ↦ record { result = write_output; return_code = 0; dispatcher = d }
    | processing ↦ record { result = write_output; return_code = 0; dispatcher = d }
    | failed ↦ record { result = close; return_code = m.get_error g; dispatcher = reset_command d }
    | end_of_input ↦ record { result = close; return_code = 0; dispatcher = reset_command d }
    | end_of_message ↦ record {
      result = read_input;
      return_code = 0;
      dispatcher = record d { state = wait_for_input };
    }
  ]

  unfoldable pub run_method : Dispatcher → Called
  run_method d =
      let args = argv d.args in
      let (return_code, object, content) = m.call d.method_idx d.object d.content args in
      let e = record d { args = args; object = object; content = content } in
      if return_code == 0
      then behind_call content e
      else record { result = close; return_code = return_code; dispatcher = reset_command e }

  -- `none` for the exception `IllegalState`, here and below.
  unfoldable pub call : Dispatcher → Option Called
  call d = elim d.state [
    | arguments_parsed ↦ some (run_method (record d { state = running }))
    | wait_for_input ↦ some (run_method d)
    | running ↦ some (run_method d)
    | _ ↦ none
  ]

  unfoldable pub protocol_input : Dispatcher → List ℕ → Option Dispatcher
  protocol_input d bytes = elim d.state [
    | wait_for_input ↦ elim d.content [
      | none ↦ none
      | some g ↦ some (record d { state = running; content = some (m.protocol_input g bytes) })
    ]
    | _ ↦ none
  ]

  unfoldable pub set_eod : Dispatcher → Dispatcher
  set_eod d = elim d.content [ none ↦ d | some g ↦ record d { content = some (m.set_eod g) } ]

  -- The names of the methods in the line buffer, with a comma and a blank between them.
  unfoldable pub get_caps : Dispatcher → Dispatcher
  get_caps d =
      let b = append_all (Buffer.init d.args.chars) (separated d.instance_of.names) in
      record d { args = record d.args { chars = Buffer.c_str b } }

  -- What a client of the dispatcher can do without an exception.
  pub data Step (d : Dispatcher) : Dispatcher → Type 0 where
    gets_command : (src : List ℕ) → Step d (get_command d src).dispatcher
    calls : (c : Called) → call d ≡ some c → Step d c.dispatcher
    gives_input : (bytes : List ℕ) {e : Dispatcher} → protocol_input d bytes ≡ some e → Step d e
    ends_data : Step d (set_eod d)
    gets_caps : Step d (get_caps d)
    starts_again :
        (i : Option Instance) {e : Dispatcher}
        → dispatcher_init d.cmd_buffer d.args d.state i ≡ some e
        → Step d e

  pub data Reaches : Dispatcher → Type 0 where
    begins :
        (cmd : CmdBuffer) (args : ArgBuffer) (st : State) (i : Option Instance) {d : Dispatcher}
        → dispatcher_init cmd args st i ≡ some d
        → Reaches d
    goes_on : {d e : Dispatcher} → Reaches d → Step d e → Reaches e
