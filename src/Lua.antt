-- ===== src/Lua.antt =====
-- `echoConnection` of examples/lua/luaHandler.cpp: a handler whose callbacks are functions of a Lua
-- script. The calls of the Lua library are parameters; `lua_pop( l, -1)`, a macro, is `set_top` to 0.
-- A function of the library that raises an error outside a protected call is left out. The log is
-- left out, but for what `lua_log` writes to it.
pub mod Stack
pub mod Answers
pub mod Runs
mod Tests
use smerp.Base.{
  ℕ, zero, suc, ◌+◌, ◌-◌, ◌%◌, ◌⊎◌, inl, inr, Bool, true, false, List, [], ◌∷◌, ◌++◌, Option, none,
  some, ltb, ◌==◌, if◌then◌else◌, take, codes, same,
}
use smerp.Logging.Level.{Level, str2log_level}
use smerp.Network.Handler.{
  NetworkOperation, read_data, send_string, close_connection, NetworkSignal, end_of_file,
  operation_cancelled, broken_pipe, unknown_error,
}

-- What `lua_type` tells apart here; `lua_other` is any other type.
pub data LuaType : Type 0 where
  lua_nil lua_string lua_number lua_function lua_table lua_other : LuaType

-- The libraries that the script may use.
pub data Opener : Type 0 where
  luaopen_base luaopen_package luaopen_io luaopen_string : Opener

-- The interpreter. A `lua_State` is changed by nearly every call. A text that is returned is the
-- C string at the pointer, `none` for NULL. `first` counts the stack from its top, from 1 on; `at`
-- counts from its bottom. An integer is its 64 bits. The number of results `none` is LUA_MULTRET, and 0 is the code of success.
pub record LuaLibrary : Type 1 where
  pub LuaState : Type 0
  pub LuaNumber : Type 0
  pub new_state : Option LuaState
  pub get_top : LuaState → ℕ
  pub set_top : LuaState → ℕ → LuaState
  pub pop : LuaState → ℕ → LuaState
  pub push_opener : LuaState → Opener → LuaState
  pub push_log : LuaState → LuaState
  pub push_string : LuaState → List ℕ → LuaState
  pub push_lstring : LuaState → List ℕ → LuaState
  pub get_global : LuaState → LuaState
  pub set_global : LuaState → List ℕ → LuaState
  pub load_file : LuaState → List ℕ → ℕ × LuaState
  pub call : LuaState → ℕ → ℕ → LuaState
  pub pcall : LuaState → ℕ → Option ℕ → ℕ × LuaState
  pub to_string_first : LuaState → ℕ → Option (List ℕ) × LuaState
  pub to_integer_first : LuaState → ℕ → ℕ
  pub check_string_at : LuaState → ℕ → Option (List ℕ)
  pub type_at : LuaState → ℕ → LuaType
  pub to_string_at : LuaState → ℕ → List ℕ
  pub to_number_at : LuaState → ℕ → LuaNumber
  pub function_text_at : LuaState → ℕ → List ℕ
  pub gc_count : LuaState → ℕ

-- `LUA_LOADLIBNAME` and so on, of lualib.h.
pub record LibraryNames : Type 0 where
  pub load_lib : List ℕ
  pub io_lib : List ℕ
  pub str_lib : List ℕ

-- How a call of the handler ends: with its value, with an exception, or at a null pointer.
pub data Outcome (A Connection : Type 0) : Type 0 where
  returned : A → Connection → Outcome A Connection
  thrown : Connection → Outcome A Connection
  crashed : Outcome A Connection

abbrev pub buf_size : ℕ
buf_size = 8192

-- `unsigned int`
abbrev pub to_unsigned : ℕ → ℕ
to_unsigned n = n % 4294967296

abbrev pub signal_name : NetworkSignal → List ℕ
signal_name end_of_file = codes "END_OF_FILE"
signal_name broken_pipe = codes "BROKEN_PIPE"
signal_name operation_cancelled = codes "OPERATION_CANCELLED"
signal_name unknown_error = codes "UNKNOWN_ERROR"

module _ (lua : LuaLibrary) where
  open lua use {LuaState}

  pub record Connection : Type 0 where
    pub l : LuaState
    pub counter : ℕ
    pub max_mem_used : ℕ

  -- `lua_tostring( l, -1)` for the log, `lua_pop( l, 1)`
  unfoldable pub pop_error : LuaState → LuaState
  pop_error l = lua.pop (lua.to_string_first l 1).1 1

  -- The function of the script with a name, on the stack.
  unfoldable pub push_function : LuaState → List ℕ → LuaState
  push_function l name = lua.get_global (lua.push_string l name)

  unfoldable pub open_library : LuaState → Opener → List ℕ → LuaState
  open_library l opener name = lua.call (lua.push_string (lua.push_opener l opener) name) 1 0

  -- The rest of `createVM` behind a step of it, if that step succeeded; `inr` for the exception, with
  -- the interpreter that stays behind.
  unfoldable pub or_else : ℕ × LuaState → (LuaState → LuaState ⊎ LuaState) → LuaState ⊎ LuaState
  or_else (res, l) rest = if res == 0 then rest l else inr (pop_error l)

  -- `none` where there is no interpreter.
  unfoldable pub create_vm : LibraryNames → Option (LuaState ⊎ LuaState)
  create_vm names = elim lua.new_state [
    | none ↦ none
    | some l0 ↦
        let l1 = open_library l0 luaopen_base [] in
        let l2 = open_library l1 luaopen_package names.load_lib in
        let l3 = open_library l2 luaopen_io names.io_lib in
        let l4 = open_library l3 luaopen_string names.str_lib in
        some (
          or_else (lua.load_file l4 (codes "echo.lua")) (λ l.
            or_else (lua.pcall (lua.set_global (lua.push_log l) (codes "log")) 0 none)
              (λ l. or_else (lua.pcall (push_function l (codes "init")) 0 (some 0)) (λ l. inl l))))
  ]

  -- `none` where the interpreter was closed; otherwise the exception.
  unfoldable pub destroy_vm : Connection → Option Connection
  destroy_vm c =
      let (res, l) = lua.pcall (push_function c.l (codes "destroy")) 0 (some 0) in
      if res == 0 then none else some (record c { l = pop_error l })

  unfoldable pub print_mem_stats : Connection → Connection
  print_mem_stats c =
      let kbytes = lua.gc_count c.l in
      if ltb c.max_mem_used kbytes then record c { max_mem_used = kbytes } else c

  -- The constructors; `none` for the exceptions of `createVM`.
  unfoldable pub new_connection : LibraryNames → Option Connection
  new_connection names = elim (create_vm names) [
    | some (inl l) ↦ some (print_mem_stats (record { l = l; counter = 0; max_mem_used = 0 }))
    | _ ↦ none
  ]

  -- `lua_pcall` of the function and the arguments on the stack, for no results, and the exception.
  unfoldable pub run_callback : Connection → ℕ → LuaState → Outcome Unit Connection
  run_callback c nargs pushed =
      let (res, l) = lua.pcall pushed nargs (some 0) in
      if res == 0 then returned tt (record c { l = l }) else thrown (record c { l = pop_error l })

  unfoldable pub then_stats : Outcome Unit Connection → Outcome Unit Connection
  then_stats (returned u c) = returned u (print_mem_stats c)
  then_stats (thrown c) = thrown c
  then_stats crashed = crashed

  -- `setPeer` for TCP and for SSL, with the host, the port in digits and the common name.
  unfoldable pub set_peer : Connection → List ℕ → List ℕ → Outcome Unit Connection
  set_peer c host port =
      let l = push_function c.l (codes "new_connection") in
      then_stats (run_callback c 2 (lua.push_string (lua.push_string l host) port))

  unfoldable pub set_ssl_peer : Connection → List ℕ → List ℕ → List ℕ → Outcome Unit Connection
  set_ssl_peer c host port name =
      let l = push_function c.l (codes "new_connection") in
      then_stats
        (run_callback c 3 (lua.push_string (lua.push_string (lua.push_string l host) port) name))

  -- What the name of an operation stands for; a NULL message is read by `strlen`.
  unfoldable pub operation : Connection → LuaState → List ℕ → Outcome NetworkOperation Connection
  operation c l op =
      if same op (codes "WRITE")
      then (let (msg, l) = lua.to_string_first l 1 in
          elim msg [
            | none ↦ crashed
            | some m ↦ returned (send_string m 0) (record c { l = lua.pop l 2 })
          ])
      else if same op (codes "READ")
      then returned (read_data 0 buf_size (to_unsigned (lua.to_integer_first l 1)))
          (record c { l = lua.pop l 2 })
      else if same op (codes "CLOSE")
      then returned close_connection (record c { l = lua.pop l 2 })
      else thrown (record c { l = lua.pop l 2 })

  unfoldable pub next_operation : Connection → Outcome NetworkOperation Connection
  next_operation c =
      let (res, l) = lua.pcall (push_function c.l (codes "next_operation")) 0 (some 2) in
      let (op, after) = lua.to_string_first l 2 in
      if res == 0
      then elim op [ none ↦ thrown (record c { l = after }) | some o ↦ operation c after o ]
      else thrown (record c { l = pop_error l })

  -- The counter is an `int`, and its overflow is undefined.
  unfoldable pub count_input : Connection → Connection
  count_input c =
      let counted : Connection = record c { counter = c.counter + 1 } in
      if counted.counter % 100 == 0 then print_mem_stats counted else counted

  -- Here nothing is popped in front of the exception.
  unfoldable pub pass_input : Connection → List ℕ → Outcome Unit Connection
  pass_input c bytes =
      let pushed = lua.push_lstring (push_function c.l (codes "network_input")) bytes in
      let (res, l) = lua.pcall pushed 1 (some 0) in
      if res == 0
      then returned tt (record c { l = l })
      else thrown (record c { l = (lua.to_string_first l 1).1 })

  unfoldable pub network_input : Connection → List ℕ → Outcome Unit Connection
  network_input c bytes = pass_input (count_input c) bytes

  unfoldable pub timeout_occured : Connection → Outcome Unit Connection
  timeout_occured c = run_callback c 0 (push_function c.l (codes "timeout_occured"))

  unfoldable pub signal_occured : Connection → Outcome Unit Connection
  signal_occured c = run_callback c 0 (push_function c.l (codes "signal_occured"))

  unfoldable pub error_occured : Connection → NetworkSignal → Outcome Unit Connection
  error_occured c signal =
      run_callback c 1
        (lua.push_string (push_function c.l (codes "error_occured")) (signal_name signal))

  module _ (print_number : lua.LuaNumber → List ℕ) where
    -- What `lua_log` writes for the value at an index.
    unfoldable pub log_value : LuaState → ℕ → List ℕ
    log_value l i = elim (lua.type_at l i) [
      | lua_nil ↦ codes "nil"
      | lua_string ↦ lua.to_string_at l i
      | lua_number ↦ print_number (lua.to_number_at l i)
      | lua_function ↦ take 31 (lua.function_text_at l i)
      | lua_table ↦ codes "<unknown>"
      | lua_other ↦ codes "<unknown>"
    ]

    -- `for( ; n--; i++ )`, from the stream `os` on.
    unfoldable pub log_loop : LuaState → ℕ → ℕ → List ℕ → List ℕ
    log_loop l zero i os = os
    log_loop l (suc n) i os = log_loop l n (i + 1) (os ++ log_value l i)

    -- The level and the text that are logged, and the stack behind it; `none` for the error that
    -- `luaL_checkstring` raises. The loop ends with `n` at -1, and the whole stack is popped.
    unfoldable pub lua_log :
        (List ℕ → List ℕ) → (List ℕ → List ℕ) → LuaState → Option (Level × List ℕ × LuaState)
    lua_log to_upper_copy trim l = elim (lua.check_string_at l 1) [
      | none ↦ none
      | some level ↦ some (
        str2log_level to_upper_copy trim level,
        log_loop l (lua.get_top l - 1) 2 [],
        lua.set_top l 0,
      )
    ]
