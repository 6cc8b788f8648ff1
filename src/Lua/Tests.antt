-- ===== src/Lua/Tests.antt =====
-- Witnesses and runs of the handler of examples/lua, with a small interpreter.
use smerp.Base.{
  ℕ, zero, suc, ◌+◌, ◌-◌, ◌≤◌, ◌<◌, ◌≡◌, ◌⊎◌, inl, inr, refl, [], Option, none, some, arith, codes,
  if◌then◌else◌, ◌==◌,
}
use smerp.Network.Handler.{read_data}
use smerp.Lua
use smerp.Lua.{
  LuaLibrary, lua_nil, lua_string, Connection, Outcome, returned, thrown, next_operation,
  network_input, timeout_occured,
}
use smerp.Lua.Stack.{StackLaws, top}
use smerp.Lua.Answers.{Answers, next_operation-Answers}
use smerp.Lua.Runs.{starts, calls, fails, asks, Runs-top}

abbrev called : ℕ → ℕ → Option ℕ → ℕ × ℕ
called zero l none = (0, l - 1)
called zero l (some r) = (0, l - 1 + r)
called (suc n) l nresults = (2, l - suc n)

-- An interpreter of which only the height of the stack is kept. A function with an argument fails;
-- one without asks for a read.
abbrev heights : LuaLibrary
heights = record {
  LuaState = ℕ;
  LuaNumber = Unit;
  new_state = some 0;
  get_top = λ l. l;
  set_top = λ l n. n;
  pop = λ l n. l - n;
  push_opener = λ l o. suc l;
  push_log = λ l. suc l;
  push_string = λ l t. suc l;
  push_lstring = λ l t. suc l;
  get_global = λ l. l;
  set_global = λ l t. l - 1;
  load_file = λ l t. (0, suc l);
  call = λ l nargs nresults. l - suc nargs + nresults;
  pcall = λ l nargs nresults. called nargs l nresults;
  to_string_first = λ l k. (some (codes "READ"), l);
  to_integer_first = λ l k. 30;
  check_string_at = λ l i. some (codes "INFO");
  type_at = λ l i. if i == 2 then lua_string else lua_nil;
  to_string_at = λ l i. codes "state ";
  to_number_at = λ l i. tt;
  function_text_at = λ l i. [];
  gc_count = λ l. 20;
}

heights-laws : StackLaws heights
heights-laws = record {
  top-push_string = λ l t. refl;
  top-push_lstring = λ l t. refl;
  top-get_global = λ l h. refl;
  top-to_string = λ l k h i. refl;
  top-pop = λ l n h. refl;
  top-pcall = at_call;
}
  where
    at_call :
        (l nargs nresults : ℕ)
        → nargs < l
        → (((heights.pcall l nargs (some nresults)).0 ≡ 0)
            × ((heights.pcall l nargs (some nresults)).1 ≡ l - suc nargs + nresults))
          ⊎ ((0 < (heights.pcall l nargs (some nresults)).0)
              × ((heights.pcall l nargs (some nresults)).1 ≡ l - nargs))
    at_call l zero r h = inl (refl, refl)
    at_call l (suc n) r h = inr (omega arith, refl)

abbrev fresh : Connection heights
fresh = record { l = 3; counter = 0; max_mem_used = 0 }

abbrev failed : Connection heights
failed = record { l = 4; counter = 1; max_mem_used = 0 }

asks_to_read : next_operation heights failed ≡ returned (read_data 0 8192 30) failed
unfolding next_operation Lua.push_function Lua.operation
asks_to_read = refl

input_fails : network_input heights fresh (codes "x") ≡ thrown failed
unfolding network_input Lua.pass_input Lua.count_input Lua.push_function
input_fails = refl

-- A failed input leaves the error message on the stack.
Runs-top_example : (top heights failed ≡ top heights fresh + 1) × (0 ≤ 0)
Runs-top_example =
    Runs-top heights heights-laws fresh failed 1
      (calls (fails (codes "x") starts input_fails) (asks (read_data 0 8192 30) asks_to_read))

next_operation-Answers_example : Answers heights fresh (next_operation heights fresh)
next_operation-Answers_example = next_operation-Answers heights heights-laws fresh

-- What `log( "INFO", "state ", nil)` logs.
logged : Lua.log_loop heights (λ n. []) 0 2 2 [] ≡ codes "state nil"
unfolding Lua.log_loop Lua.log_value
logged = refl
