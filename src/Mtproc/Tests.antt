-- ===== src/Mtproc/Tests.antt =====
-- The dispatcher with one method.
use smerp.Base.{Option, ◌≡◌, refl, [], ◌∷◌, ◌++◌, none, some, codes, replicate}
use smerp.Protocol.Buffer
use smerp.Protocol.CmdBuffer
use smerp.Protocol.ArgBuffer.{ArgBuffer, new_args}
use smerp.Protocol.ArgBuffer
use smerp.Protocol.Parser
use smerp.Protocol.Parser.{add_all, add}
use smerp.Mtproc
use smerp.Mtproc.{
  State, null, init, selected, Command, method, Methods, Instance, Dispatcher, dispatcher_init,
  reset_command, get_command, parse_command, select, parse_arguments, call, protocol_input, at_init,
  Reaches, begins, goes_on, gets_command,
}
use smerp.Mtproc.States.{Reaches-refuses}

abbrev parser_of : Option Parser.CmdParser → Parser.CmdParser
parser_of none = []
parser_of (some p) = p

abbrev pub methods : Methods
methods = record {
  Data = Unit;
  Generator = Unit;
  call = λ idx object content args. (0, object, content);
  state = λ g. at_init;
  get_error = λ g. 0;
  protocol_input = λ g bytes. g;
  set_eod = λ g. g;
}

abbrev pub put : Instance methods
put = record { names = codes "put" ∷ []; object = tt }

abbrev pub args : ArgBuffer
args = new_args (Buffer.new_buffer (replicate 257 0))

abbrev pub fresh : Dispatcher methods
fresh = reset_command methods (record {
  cmd_buffer = CmdBuffer.empty;
  args = args;
  parser = parser_of (add_all [] (Mtproc.protocol_cmds ++ put.names));
  instance_of = put;
  object = tt;
  content = none;
  method_idx = 0;
  state = null;
})

pub fresh-made : dispatcher_init methods CmdBuffer.empty args null (some put) ≡ some fresh
unfolding dispatcher_init add_all add
fresh-made = refl

-- The method is named, and then called.
abbrev named : Mtproc.Parsed methods
named = get_command methods fresh (codes "put 1\n")

recognised : named.command ≡ method
unfolding get_command parse_command reset_command select parse_arguments add_all add
    Parser.get_command Parser.get_line Parser.command_end CmdBuffer.push_back Parser.index_of
    CmdBuffer.push_all ArgBuffer.size ArgBuffer.init Parser.skip_spaces
recognised = refl

Reaches-refuses_example :
    (call methods named.dispatcher ≡ none)
    × (protocol_input methods named.dispatcher (codes "x") ≡ none)
Reaches-refuses_example = Reaches-refuses methods named.dispatcher (codes "x") (
    goes_on (begins CmdBuffer.empty args null (some put) fresh-made)
      (gets_command (codes "put 1\n")))
